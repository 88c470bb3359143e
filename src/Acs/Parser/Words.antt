-- ===== src/Acs/Parser/Words.antt =====
-- How the parser of src/acs.c reads one token of the grammar, and where its loops stop.
use mutineer.Prelude.{
  ℕ, zero, suc, ◌≤◌, ◌≡◌, refl, Bool, true, false, ◌&&◌, ◌||◌, none, some, List, [], ◌∷◌, ◌++◌,
  length, ◌==◌, arith,
}
use mutineer.Acs.{is_space}
use mutineer.Acs.Parser.{
  skip_ws, ends_token, scan_token, tok_of, token_value, word, start_of, behind, factor_loop,
  expr_loop,
}
use mutineer.Acs.Parser.Grammar.{is_word, all_word, after_term, after_factor, after_expr}

pub after_expr-factor : (cs : List ℕ) → after_expr cs ≡ true → after_factor cs ≡ true
after_expr-factor [] h = refl
after_expr-factor (c ∷ cs) h = ground arith

pub after_factor-term : (cs : List ℕ) → after_factor cs ≡ true → after_term cs ≡ true
after_factor-term [] h = refl
after_factor-term (c ∷ cs) h = ground arith

pub skip_ws-after : (cs : List ℕ) → after_term cs ≡ true → skip_ws cs ≡ cs
unfolding skip_ws
skip_ws-after [] h = refl
skip_ws-after (c ∷ cs) h = ground arith

pub behind-factor : (cs : List ℕ) → after_factor cs ≡ true → behind b'&' cs ≡ none
behind-factor [] h = refl
behind-factor (c ∷ cs) h = ground arith

pub behind-expr : (cs : List ℕ) → after_expr cs ≡ true → behind b'|' cs ≡ none
behind-expr [] h = refl
behind-expr (c ∷ cs) h = ground arith

pub scan-word :
    (t rest : List ℕ)
    → all_word t ≡ true
    → after_term rest ≡ true
    → scan_token (t ++ rest) ≡ (t, rest)
unfolding scan_token
scan-word [] [] w a = refl
scan-word [] (c ∷ cs) w a = ground arith
scan-word (c ∷ t) rest w a =
    let ends : ends_token c ≡ false = ground arith in
    let more : all_word t ≡ true = ground arith in rw (ends, scan-word t rest more a) refl

pub start-word :
    (t rest : List ℕ) → is_word t ≡ true → start_of (skip_ws (t ++ rest)) ≡ word (t ++ rest)
unfolding skip_ws
start-word [] rest w = ground arith
start-word (c ∷ t) rest w =
    let space : is_space c ≡ false = ground arith in
    let no_bang : (c == b'!') ≡ false = ground arith in
    let no_paren : (c == b'(') ≡ false = ground arith in rw (space, no_bang, no_paren) refl

pub word-all : (t : List ℕ) → is_word t ≡ true → all_word t ≡ true
word-all [] h = refl
word-all (c ∷ t) h = ground arith

pub word-length : (t : List ℕ) → is_word t ≡ true → 1 ≤ length t
word-length [] h = ground arith
word-length (c ∷ t) h = omega arith

pub word-value :
    (value : List ℕ → Bool) (t : List ℕ) → is_word t ≡ true → token_value value t ≡ value (tok_of t)
word-value value [] h = ground arith
word-value value (c ∷ t) h = refl

pub and_assoc : (a b c : Bool) → (a && b) && c ≡ a && (b && c)
and_assoc true b c = refl
and_assoc false b c = refl

pub or_assoc : (a b c : Bool) → (a || b) || c ≡ a || (b || c)
or_assoc true b c = refl
or_assoc false b c = refl

pub factor_loop-done :
    (value : List ℕ → Bool) (fuel : ℕ) (left : Bool) (rest : List ℕ)
    → 1 ≤ fuel
    → after_factor rest ≡ true
    → factor_loop value fuel left rest ≡ some (left, rest)
unfolding factor_loop
factor_loop-done value zero left rest h a = ground arith
factor_loop-done value (suc fuel) left rest h a = rw (factor_loop, behind-factor rest a) refl

pub expr_loop-done :
    (value : List ℕ → Bool) (fuel : ℕ) (left : Bool) (rest : List ℕ)
    → 1 ≤ fuel
    → after_expr rest ≡ true
    → expr_loop value fuel left rest ≡ some (left, rest)
unfolding expr_loop
expr_loop-done value zero left rest h a = ground arith
expr_loop-done value (suc fuel) left rest h a = rw (expr_loop, behind-expr rest a) refl
