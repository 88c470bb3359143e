-- ===== src/Acs/Parser/Total.antt =====
-- The parser of src/acs.c ends on every text, and never leaves it.
use mutineer.Prelude.{
  ℕ, zero, suc, ◌+◌, ◌*◌, ◌≤◌, ◌≡◌, refl, inl, inr, Bool, true, not, ◌&&◌, ◌||◌, Option, some, List,
  [], ◌∷◌, length, Bool-cases, Option-cases, ◌==◌, arith,
}
use mutineer.Acs.{Session, Host}
use mutineer.Acs.Tokens.{eval_token}
use mutineer.Acs.Parser.{
  skip_ws, scan_token, token_value, Start, bang, paren, word, start_of, behind, behind_close, ◌>>=◌,
  eval_term, eval_factor, factor_loop, eval_expr, expr_loop, acs_allows,
}

skip_ws-length : (cs : List ℕ) → length (skip_ws cs) ≤ length cs
unfolding skip_ws
skip_ws-length [] = omega arith
skip_ws-length (c ∷ cs) = ground (arith, skip_ws-length cs)

scan_token-length : (cs : List ℕ) → length (scan_token cs).1 ≤ length cs
unfolding scan_token
scan_token-length [] = omega arith
scan_token-length (c ∷ cs) = ground (arith, scan_token-length cs)

behind_close-length : (cs : List ℕ) → length (behind_close cs) ≤ length cs
behind_close-length [] = omega arith
behind_close-length (c ∷ cs) = ground arith

behind-length :
    (op : ℕ) (cs rest : List ℕ) → behind op cs ≡ some rest → length cs ≡ suc (length rest)
behind-length op [] rest h = ground arith
behind-length op (c ∷ cs) rest h = ground arith

-- How much a start has consumed.
abbrev Shorter : Start → ℕ → Type 0
Shorter (bang rest) n = suc (length rest) ≤ n
Shorter (paren rest) n = suc (length rest) ≤ n
Shorter (word rest) n = length rest ≤ n

start_of-Shorter : (cs : List ℕ) → Shorter (start_of cs) (length cs)
start_of-Shorter [] = omega arith
start_of-Shorter (c ∷ cs) = elim (Bool-cases (c == b'!')) [
  | inl t ↦ rw t (omega arith)
  | inr t ↦ elim (Bool-cases (c == b'(')) [
    | inl u ↦ rw (t, u) (omega arith)
    | inr u ↦ rw (t, u) (omega arith)
  ]
]

weaken : (start : Start) {m n : ℕ} → Shorter start m → m ≤ n → Shorter start n
weaken (bang rest) h l = omega arith
weaken (paren rest) h l = omega arith
weaken (word rest) h l = omega arith

-- A result whose rest is no longer than n.
abbrev pub Ends : ℕ → Option (Bool × List ℕ) → Type 0
Ends n o = (r : Bool × List ℕ) × ((o ≡ some r) × (length r.1 ≤ n))

Ends-bind :
    (m n : ℕ) (o : Option (Bool × List ℕ)) (f : Bool × List ℕ → Option (Bool × List ℕ))
    → Ends m o
    → ((r : Bool × List ℕ) → length r.1 ≤ m → Ends n (f r))
    → Ends n (o >>= f)
Ends-bind m n o f (r, (e, h)) k = rw e (k r h)

started-Ends :
    (value : List ℕ → Bool) (fuel : ℕ) (text : List ℕ) (start : Start)
    → ((rest : List ℕ)
        → 3 * length rest + 1 ≤ fuel
        → Ends (length rest) (eval_term value fuel rest))
    → ((rest : List ℕ)
        → 3 * length rest + 3 ≤ fuel
        → Ends (length rest) (eval_expr value fuel rest))
    → 3 * length text ≤ fuel
    → Shorter start (length text)
    → Ends (length text) (elim start [
      | bang rest ↦ eval_term value fuel rest >>= (λ r. some (not r.0, r.1))
      | paren rest ↦ eval_expr value fuel rest >>= (λ r. some (r.0, behind_close (skip_ws r.1)))
      | word rest ↦ some (token_value value (scan_token rest).0, (scan_token rest).1)
    ])
started-Ends value fuel text (bang rest) t e h s =
    Ends-bind (length rest) (length text) (eval_term value fuel rest) (λ r. some (not r.0, r.1))
      (t rest (omega arith)) (λ r g. ((not r.0, r.1), (refl, omega arith)))
started-Ends value fuel text (paren rest) t e h s =
    Ends-bind (length rest) (length text) (eval_expr value fuel rest)
      (λ r. some (r.0, behind_close (skip_ws r.1))) (e rest (omega arith))
      (λ r g. (
        (r.0, behind_close (skip_ws r.1)),
        (refl, omega (arith, behind_close-length (skip_ws r.1), skip_ws-length r.1)),
      ))
started-Ends value fuel text (word rest) t e h s = (
  (token_value value (scan_token rest).0, (scan_token rest).1),
  (refl, omega (arith, scan_token-length rest)),
)

mutual
  unfolding eval_term eval_factor factor_loop eval_expr expr_loop

  term-Ends :
      (value : List ℕ → Bool) (fuel : ℕ) (text : List ℕ)
      → 3 * length text + 1 ≤ fuel
      → Ends (length text) (eval_term value fuel text)
  term-Ends value zero text h = ground arith
  term-Ends value (suc fuel) text h =
      started-Ends value fuel text (start_of (skip_ws text)) (λ rest. term-Ends value fuel rest)
        (λ rest. expr-Ends value fuel rest) (omega arith)
        (weaken (start_of (skip_ws text)) (start_of-Shorter (skip_ws text)) (skip_ws-length text))

  factor-Ends :
      (value : List ℕ → Bool) (fuel : ℕ) (text : List ℕ)
      → 3 * length text + 2 ≤ fuel
      → Ends (length text) (eval_factor value fuel text)
  factor-Ends value zero text h = ground arith
  factor-Ends value (suc fuel) text h =
      Ends-bind (length text) (length text) (eval_term value fuel text)
        (λ r. factor_loop value fuel r.0 (skip_ws r.1)) (term-Ends value fuel text (omega arith))
        (λ r g.
          factor_loop-Ends value fuel r.0 (skip_ws r.1) (length text)
            (omega (arith, skip_ws-length r.1)) (omega (arith, skip_ws-length r.1)))

  factor_loop-Ends :
      (value : List ℕ → Bool) (fuel : ℕ) (left : Bool) (text : List ℕ) (n : ℕ)
      → 3 * length text + 1 ≤ fuel
      → length text ≤ n
      → Ends n (factor_loop value fuel left text)
  factor_loop-Ends value zero left text n h l = ground arith
  factor_loop-Ends value (suc fuel) left text n h l = elim (Option-cases (behind b'&' text)) [
    | inl e ↦ rw (factor_loop, e) ((left, text), (refl, l))
    | inr (rest, e) ↦
        let shorter = behind-length b'&' text rest e in
        rw (factor_loop, e)
          (Ends-bind (length rest) n (eval_term value fuel rest)
            (λ r. factor_loop value fuel (left && r.0) (skip_ws r.1))
            (term-Ends value fuel rest (omega arith))
            (λ r g.
              factor_loop-Ends value fuel (left && r.0) (skip_ws r.1) n
                (omega (arith, skip_ws-length r.1)) (omega (arith, skip_ws-length r.1))))
  ]

  expr-Ends :
      (value : List ℕ → Bool) (fuel : ℕ) (text : List ℕ)
      → 3 * length text + 3 ≤ fuel
      → Ends (length text) (eval_expr value fuel text)
  expr-Ends value zero text h = ground arith
  expr-Ends value (suc fuel) text h =
      Ends-bind (length text) (length text) (eval_factor value fuel text)
        (λ r. expr_loop value fuel r.0 (skip_ws r.1)) (factor-Ends value fuel text (omega arith))
        (λ r g.
          expr_loop-Ends value fuel r.0 (skip_ws r.1) (length text)
            (omega (arith, skip_ws-length r.1)) (omega (arith, skip_ws-length r.1)))

  expr_loop-Ends :
      (value : List ℕ → Bool) (fuel : ℕ) (left : Bool) (text : List ℕ) (n : ℕ)
      → 3 * length text + 1 ≤ fuel
      → length text ≤ n
      → Ends n (expr_loop value fuel left text)
  expr_loop-Ends value zero left text n h l = ground arith
  expr_loop-Ends value (suc fuel) left text n h l = elim (Option-cases (behind b'|' text)) [
    | inl e ↦ rw (expr_loop, e) ((left, text), (refl, l))
    | inr (rest, e) ↦
        let shorter = behind-length b'|' text rest e in
        rw (expr_loop, e)
          (Ends-bind (length rest) n (eval_factor value fuel rest)
            (λ r. expr_loop value fuel (left || r.0) (skip_ws r.1))
            (factor-Ends value fuel rest (omega arith))
            (λ r g.
              expr_loop-Ends value fuel (left || r.0) (skip_ws r.1) n
                (omega (arith, skip_ws-length r.1)) (omega (arith, skip_ws-length r.1))))
  ]

-- Three steps of fuel for each byte and three more are enough: every access string has an answer,
-- with or without a session.
pub acs_allows_total :
    (h : Host) (s : Option Session) (acs : List ℕ)
    → (allowed : Bool) × (acs_allows (3 * length acs + 3) h s (some acs) ≡ some allowed)
unfolding acs_allows
acs_allows_total h s [] = (true, refl)
acs_allows_total h s (c ∷ cs) =
    let (r, (e, l)) = expr-Ends (eval_token h s) (3 * length (c ∷ cs) + 3) (c ∷ cs) (omega arith) in
    (r.0, rw (acs_allows, e) refl)
