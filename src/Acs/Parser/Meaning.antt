-- ===== src/Acs/Parser/Meaning.antt =====
-- The parser of src/acs.c as the evaluation of what the grammar prints.
use mutineer.Prelude.{
  ℕ, zero, suc, ◌+◌, ◌≤◌, ◌<◌, ◌≡◌, refl, Bool, true, ◌&&◌, ◌||◌, Option, some, List, [], ◌∷◌,
  length, length-append, ◌*◌, arith,
}
use mutineer.Acs.{Session, Host}
use mutineer.Acs.Tokens.{eval_token}
use mutineer.Acs.Parser.{
  skip_ws, ◌>>=◌, eval_term, eval_factor, factor_loop, eval_expr, expr_loop, acs_allows,
}
use mutineer.Acs.Parser.Grammar.{
  Term, token, negation, group, Factor, single, conj, Expr, one, disj, term_onto, factor_onto,
  expr_onto, term_meaning, factor_meaning, expr_meaning, term_steps, factor_steps, expr_steps,
  term_ok, factor_ok, expr_ok, after_term, after_factor, after_expr,
}
use mutineer.Acs.Parser.Words.{
  after_expr-factor, after_factor-term, skip_ws-after, scan-word, start-word, word-all, word-length,
  word-value, and_assoc, or_assoc, factor_loop-done, expr_loop-done,
}

mutual
  unfolding eval_term eval_factor factor_loop eval_expr expr_loop term_onto factor_onto expr_onto
      term_meaning factor_meaning expr_meaning term_steps factor_steps expr_steps term_ok factor_ok
      expr_ok skip_ws

  eval_term_lem :
      (value : List ℕ → Bool) (fuel : ℕ) (t : Term) (rest : List ℕ)
      → term_ok t ≡ true
      → after_term rest ≡ true
      → term_steps t ≤ fuel
      → eval_term value fuel (term_onto t rest) ≡ some (term_meaning value t, rest)
  eval_term_lem value zero (token t) rest w a h = ground arith
  eval_term_lem value zero (negation t) rest w a h = ground arith
  eval_term_lem value zero (group e) rest w a h = ground arith
  eval_term_lem value (suc fuel) (token t) rest w a h =
      rw (eval_term, start-word t rest w, scan-word t rest (word-all t w) a, word-value value t w)
        refl
  eval_term_lem value (suc fuel) (negation t) rest w a h =
      rw (eval_term_lem value fuel t rest w a (omega arith)) refl
  eval_term_lem value (suc fuel) (group e) rest w a h =
      rw (eval_expr_lem value fuel e (b')' ∷ rest) w refl (omega arith)) refl

  eval_factor_lem :
      (value : List ℕ → Bool) (fuel : ℕ) (f : Factor) (rest : List ℕ)
      → factor_ok f ≡ true
      → after_factor rest ≡ true
      → factor_steps f ≤ fuel
      → eval_factor value fuel (factor_onto f rest) ≡ some (factor_meaning value f, rest)
  eval_factor_lem value zero (single t) rest w a h = ground arith
  eval_factor_lem value zero (conj t f) rest w a h = ground arith
  eval_factor_lem value (suc fuel) (single t) rest w a h =
      let after = after_factor-term rest a in
      rw
        (
          eval_term_lem value fuel t rest w after (omega arith),
          skip_ws-after rest after,
          factor_loop-done value fuel (term_meaning value t) rest (omega arith) a,
        )
        refl
  eval_factor_lem value (suc fuel) (conj t f) rest w a h =
      rw
        (
          eval_term_lem value fuel t (b'&' ∷ factor_onto f rest) (ground arith) refl (omega arith),
          factor_loop_lem value fuel (term_meaning value t) f rest (ground arith) a (omega arith),
        )
        refl

  factor_loop_lem :
      (value : List ℕ → Bool) (fuel : ℕ) (left : Bool) (f : Factor) (rest : List ℕ)
      → factor_ok f ≡ true
      → after_factor rest ≡ true
      → factor_steps f ≤ fuel
      → factor_loop value fuel left (b'&' ∷ factor_onto f rest)
        ≡ some (left && factor_meaning value f, rest)
  factor_loop_lem value zero left (single t) rest w a h = ground arith
  factor_loop_lem value zero left (conj t f) rest w a h = ground arith
  factor_loop_lem value (suc fuel) left (single t) rest w a h =
      let after = after_factor-term rest a in
      rw
        (
          eval_term_lem value fuel t rest w after (omega arith),
          skip_ws-after rest after,
          factor_loop-done value fuel (left && term_meaning value t) rest (omega arith) a,
        )
        refl
  factor_loop_lem value (suc fuel) left (conj t f) rest w a h =
      rw
        (
          eval_term_lem value fuel t (b'&' ∷ factor_onto f rest) (ground arith) refl (omega arith),
          factor_loop_lem value fuel (left && term_meaning value t) f rest (ground arith) a
              (omega arith),
          and_assoc left (term_meaning value t) (factor_meaning value f),
        )
        refl

  eval_expr_lem :
      (value : List ℕ → Bool) (fuel : ℕ) (e : Expr) (rest : List ℕ)
      → expr_ok e ≡ true
      → after_expr rest ≡ true
      → expr_steps e ≤ fuel
      → eval_expr value fuel (expr_onto e rest) ≡ some (expr_meaning value e, rest)
  eval_expr_lem value zero (one f) rest w a h = ground arith
  eval_expr_lem value zero (disj f e) rest w a h = ground arith
  eval_expr_lem value (suc fuel) (one f) rest w a h =
      let after = after_expr-factor rest a in
      rw
        (
          eval_factor_lem value fuel f rest w after (omega arith),
          skip_ws-after rest (after_factor-term rest after),
          expr_loop-done value fuel (factor_meaning value f) rest (omega arith) a,
        )
        refl
  eval_expr_lem value (suc fuel) (disj f e) rest w a h =
      rw
        (
          eval_factor_lem value fuel f (b'|' ∷ expr_onto e rest) (ground arith) refl (omega arith),
          expr_loop_lem value fuel (factor_meaning value f) e rest (ground arith) a (omega arith),
        )
        refl

  expr_loop_lem :
      (value : List ℕ → Bool) (fuel : ℕ) (left : Bool) (e : Expr) (rest : List ℕ)
      → expr_ok e ≡ true
      → after_expr rest ≡ true
      → expr_steps e ≤ fuel
      → expr_loop value fuel left (b'|' ∷ expr_onto e rest)
        ≡ some (left || expr_meaning value e, rest)
  expr_loop_lem value zero left (one f) rest w a h = ground arith
  expr_loop_lem value zero left (disj f e) rest w a h = ground arith
  expr_loop_lem value (suc fuel) left (one f) rest w a h =
      let after = after_expr-factor rest a in
      rw
        (
          eval_factor_lem value fuel f rest w after (omega arith),
          skip_ws-after rest (after_factor-term rest after),
          expr_loop-done value fuel (left || factor_meaning value f) rest (omega arith) a,
        )
        refl
  expr_loop_lem value (suc fuel) left (disj f e) rest w a h =
      rw
        (
          eval_factor_lem value fuel f (b'|' ∷ expr_onto e rest) (ground arith) refl (omega arith),
          expr_loop_lem value fuel (left || factor_meaning value f) e rest (ground arith) a
              (omega arith),
          or_assoc left (factor_meaning value f) (expr_meaning value e),
        )
        refl

mutual
  unfolding term_onto factor_onto expr_onto term_steps factor_steps expr_steps term_ok factor_ok
      expr_ok

  term_onto-steps :
      (t : Term) (rest : List ℕ)
      → term_ok t ≡ true
      → term_steps t + 2 + 3 * length rest ≤ 3 * length (term_onto t rest)
  term_onto-steps (token t) rest w = omega (arith, length-append t rest, word-length t w)
  term_onto-steps (negation t) rest w = omega (arith, term_onto-steps t rest w)
  term_onto-steps (group e) rest w = omega (arith, expr_onto-steps e (b')' ∷ rest) w)

  factor_onto-steps :
      (f : Factor) (rest : List ℕ)
      → factor_ok f ≡ true
      → factor_steps f + 3 * length rest ≤ 3 * length (factor_onto f rest)
  factor_onto-steps (single t) rest w = omega (arith, term_onto-steps t rest w)
  factor_onto-steps (conj t f) rest w = omega (
    arith,
    term_onto-steps t (b'&' ∷ factor_onto f rest) (ground arith),
    factor_onto-steps f rest (ground arith),
  )

  expr_onto-steps :
      (e : Expr) (rest : List ℕ)
      → expr_ok e ≡ true
      → expr_steps e + 3 * length rest ≤ 3 * length (expr_onto e rest) + 2
  expr_onto-steps (one f) rest w = omega (arith, factor_onto-steps f rest w)
  expr_onto-steps (disj f e) rest w = omega (
    arith,
    factor_onto-steps f (b'|' ∷ expr_onto e rest) (ground arith),
    expr_onto-steps e rest (ground arith),
  )

factor_steps-pos : (f : Factor) → 1 ≤ factor_steps f
unfolding factor_steps
factor_steps-pos (single t) = omega arith
factor_steps-pos (conj t f) = omega arith

expr_steps-pos : (e : Expr) → 3 ≤ expr_steps e
unfolding expr_steps
expr_steps-pos (one f) = omega (arith, factor_steps-pos f)
expr_steps-pos (disj f e) = omega (arith, factor_steps-pos f, expr_steps-pos e)

allows-expr :
    (fuel : ℕ) (h : Host) (s : Option Session) (acs : List ℕ)
    → 0 < length acs
    → acs_allows fuel h s (some acs) ≡ (eval_expr (eval_token h s) fuel acs >>= (λ r. some r.0))
unfolding acs_allows
allows-expr fuel h s [] p = ground arith
allows-expr fuel h s (c ∷ cs) p = refl

-- The text of an expression allows just who fulfils its meaning, where '!' binds before '&' and
-- '&' before '|', parentheses group, and a token that is not empty, starts with neither '!' nor
-- '(' and holds no space, '&', '|' or ')' has its own value; three steps of fuel for each byte and
-- three more are enough.
pub acs_allows-meaning :
    (h : Host) (s : Option Session) (e : Expr)
    → expr_ok e ≡ true
    → acs_allows (3 * length (expr_onto e []) + 3) h s (some (expr_onto e []))
      ≡ some (expr_meaning (eval_token h s) e)
acs_allows-meaning h s e w =
    let steps = expr_onto-steps e [] w in
    let some_text = expr_steps-pos e in
    rw
      (
        allows-expr (3 * length (expr_onto e []) + 3) h s (expr_onto e []) (omega arith),
        eval_expr_lem (eval_token h s) (3 * length (expr_onto e []) + 3) e [] w refl (omega arith),
      )
      refl
