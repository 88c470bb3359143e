-- ===== src/Acs/Parser/Grammar.antt =====
-- The grammar of the access strings of src/acs.c, with ! before & before |: its text, its meaning,
-- and the steps that the parser takes.
use mutineer.Prelude.{ℕ, suc, ◌+◌, Bool, true, false, not, ◌&&◌, ◌||◌, List, [], ◌∷◌, ◌++◌, ◌==◌}
use mutineer.Acs.Parser.{ends_token, tok_of}

mutual
  pub data Term : Type 0 where
    token : List ℕ → Term
    negation : Term → Term
    group : Expr → Term

  pub data Factor : Type 0 where
    single : Term → Factor
    conj : Term → Factor → Factor

  pub data Expr : Type 0 where
    one : Factor → Expr
    disj : Factor → Expr → Expr

-- The text of each, in front of more text.
unfoldable mutual
  pub term_onto : Term → List ℕ → List ℕ
  term_onto (token t) rest = t ++ rest
  term_onto (negation t) rest = b'!' ∷ term_onto t rest
  term_onto (group e) rest = b'(' ∷ expr_onto e (b')' ∷ rest)

  pub factor_onto : Factor → List ℕ → List ℕ
  factor_onto (single t) rest = term_onto t rest
  factor_onto (conj t f) rest = term_onto t (b'&' ∷ factor_onto f rest)

  pub expr_onto : Expr → List ℕ → List ℕ
  expr_onto (one f) rest = factor_onto f rest
  expr_onto (disj f e) rest = factor_onto f (b'|' ∷ expr_onto e rest)

unfoldable mutual
  pub term_meaning : (List ℕ → Bool) → Term → Bool
  term_meaning value (token t) = value (tok_of t)
  term_meaning value (negation t) = not (term_meaning value t)
  term_meaning value (group e) = expr_meaning value e

  pub factor_meaning : (List ℕ → Bool) → Factor → Bool
  factor_meaning value (single t) = term_meaning value t
  factor_meaning value (conj t f) = term_meaning value t && factor_meaning value f

  pub expr_meaning : (List ℕ → Bool) → Expr → Bool
  expr_meaning value (one f) = factor_meaning value f
  expr_meaning value (disj f e) = factor_meaning value f || expr_meaning value e

-- The steps that the parser takes.
unfoldable mutual
  pub term_steps : Term → ℕ
  term_steps (token t) = 1
  term_steps (negation t) = suc (term_steps t)
  term_steps (group e) = suc (expr_steps e)

  pub factor_steps : Factor → ℕ
  factor_steps (single t) = 2 + term_steps t
  factor_steps (conj t f) = 1 + term_steps t + factor_steps f

  pub expr_steps : Expr → ℕ
  expr_steps (one f) = 2 + factor_steps f
  expr_steps (disj f e) = 1 + factor_steps f + expr_steps e

abbrev pub all_word : List ℕ → Bool
all_word [] = true
all_word (c ∷ cs) = not (ends_token c) && all_word cs

-- A token is not empty, starts with neither '!' nor '(' and holds no byte that ends it.
abbrev pub is_word : List ℕ → Bool
is_word [] = false
is_word (c ∷ cs) = not (c == b'!') && not (c == b'(') && all_word (c ∷ cs)

unfoldable mutual
  pub term_ok : Term → Bool
  term_ok (token t) = is_word t
  term_ok (negation t) = term_ok t
  term_ok (group e) = expr_ok e

  pub factor_ok : Factor → Bool
  factor_ok (single t) = term_ok t
  factor_ok (conj t f) = term_ok t && factor_ok f

  pub expr_ok : Expr → Bool
  expr_ok (one f) = factor_ok f
  expr_ok (disj f e) = factor_ok f && expr_ok e

-- What may follow a term, a factor and an expression.
abbrev pub after_term : List ℕ → Bool
after_term [] = true
after_term (c ∷ cs) = c == b'&' || c == b'|' || c == b')'

abbrev pub after_factor : List ℕ → Bool
after_factor [] = true
after_factor (c ∷ cs) = c == b'|' || c == b')'

abbrev pub after_expr : List ℕ → Bool
after_expr [] = true
after_expr (c ∷ cs) = c == b')'
