-- ===== src/Acs/Parser.antt =====
-- The recursive descent of src/acs.c: eval_term, eval_factor and eval_expr on the text that is
-- left. A token's value is a parameter of the parser; recursion and loops run on one supply of
-- fuel, and `none` says that it ran out.
pub mod Total
pub mod Grammar
pub mod Words
pub mod Meaning
use mutineer.Prelude.{
  ℕ, zero, suc, Bool, true, false, not, ◌&&◌, ◌||◌, Option, none, some, List, [], ◌∷◌, map, take,
  ◌==◌, if◌then◌else◌,
}
use mutineer.Acs.{Session, Host, is_space, to_upper}
use mutineer.Acs.Tokens.{eval_token}

unfoldable pub skip_ws : List ℕ → List ℕ
skip_ws [] = []
skip_ws (c ∷ cs) = if is_space c then skip_ws cs else c ∷ cs

abbrev pub ends_token : ℕ → Bool
ends_token c = is_space c || c == b'&' || c == b'|' || c == b')'

-- The bytes up to the one that ends the token, and the rest.
unfoldable pub scan_token : List ℕ → List ℕ × List ℕ
scan_token [] = ([], [])
scan_token (c ∷ cs) =
    let rest = scan_token cs in if ends_token c then ([], c ∷ cs) else (c ∷ rest.0, rest.1)

-- tok[64], in upper case.
abbrev pub tok_of : List ℕ → List ℕ
tok_of text = map to_upper (take 63 text)

-- An empty token is false and none of the tests is made.
abbrev pub token_value : (List ℕ → Bool) → List ℕ → Bool
token_value value [] = false
token_value value (c ∷ cs) = value (tok_of (c ∷ cs))

-- What a term starts with, once the spaces are skipped.
pub data Start : Type 0 where
  bang paren word : List ℕ → Start

abbrev pub start_of : List ℕ → Start
start_of [] = word []
start_of (c ∷ cs) = if c == b'!' then bang cs else if c == b'(' then paren cs else word (c ∷ cs)

-- The text behind an operator that stands next.
abbrev pub behind : ℕ → List ℕ → Option (List ℕ)
behind op [] = none
behind op (c ∷ cs) = if c == op then some cs else none

abbrev pub behind_close : List ℕ → List ℕ
behind_close [] = []
behind_close (c ∷ cs) = if c == b')' then cs else c ∷ cs

infixl 5 ◌>>=◌
abbrev pub ◌>>=◌ {ℓ κ} : {A : Type ℓ} {B : Type κ} → Option A → (A → Option B) → Option B
none >>= f = none
some a >>= f = f a

unfoldable mutual
  pub eval_term : (List ℕ → Bool) → ℕ → List ℕ → Option (Bool × List ℕ)
  eval_term value zero text = none
  eval_term value (suc fuel) text = elim (start_of (skip_ws text)) [
    | bang rest ↦ eval_term value fuel rest >>= (λ r. some (not r.0, r.1))
    | paren rest ↦ eval_expr value fuel rest >>= (λ r. some (r.0, behind_close (skip_ws r.1)))
    | word rest ↦ some (token_value value (scan_token rest).0, (scan_token rest).1)
  ]

  pub eval_factor : (List ℕ → Bool) → ℕ → List ℕ → Option (Bool × List ℕ)
  eval_factor value zero text = none
  eval_factor value (suc fuel) text =
      eval_term value fuel text >>= (λ r. factor_loop value fuel r.0 (skip_ws r.1))

  pub factor_loop : (List ℕ → Bool) → ℕ → Bool → List ℕ → Option (Bool × List ℕ)
  factor_loop value zero left text = none
  factor_loop value (suc fuel) left text = elim (behind b'&' text) [
    | none ↦ some (left, text)
    | some rest ↦
        eval_term value fuel rest >>= (λ r. factor_loop value fuel (left && r.0) (skip_ws r.1))
  ]

  pub eval_expr : (List ℕ → Bool) → ℕ → List ℕ → Option (Bool × List ℕ)
  eval_expr value zero text = none
  eval_expr value (suc fuel) text =
      eval_factor value fuel text >>= (λ r. expr_loop value fuel r.0 (skip_ws r.1))

  pub expr_loop : (List ℕ → Bool) → ℕ → Bool → List ℕ → Option (Bool × List ℕ)
  expr_loop value zero left text = none
  expr_loop value (suc fuel) left text = elim (behind b'|' text) [
    | none ↦ some (left, text)
    | some rest ↦
        eval_factor value fuel rest >>= (λ r. expr_loop value fuel (left || r.0) (skip_ws r.1))
  ]

-- NULL and the empty string allow everyone; what stands behind the expression is not read.
unfoldable pub acs_allows : ℕ → Host → Option Session → Option (List ℕ) → Option Bool
acs_allows fuel h s none = some true
acs_allows fuel h s (some []) = some true
acs_allows fuel h s (some (c ∷ cs)) = eval_expr (eval_token h s) fuel (c ∷ cs) >>= (λ r. some r.0)
