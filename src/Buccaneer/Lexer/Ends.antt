-- ===== src/Buccaneer/Lexer/Ends.antt =====
-- That the calls of src/buccaneer/lexer.c come to the end of the source, and the loop over the ends of lines with them.
use mutineer.Prelude.{
  ℕ, zero, suc, ◌-◌, ◌≤◌, ◌<◌, true, false, Bool-cases, some, List, [], ◌∷◌, length, ◌≡◌, refl, sym,
  ap, subst, inl, inr, arith,
}
use mutineer.Buccaneer.Lexer.Kinds.{tok_eof}
use mutineer.Buccaneer.Lexer.{
  Place, Lexer, Numbers, advance, take_one, past, advance_n, skip_whitespace, lexer_init,
}
use mutineer.Buccaneer.Lexer.Next.{
  scan_or_end, made, next_fresh, lexer_next, is_line_end, skip_newlines,
}
use mutineer.Buccaneer.Lexer.Moves.{Moves, moves, Reads, advance_while-Moves, scan-Reads}

abbrev pub left : Place → ℕ
left p = length p.rest

left-advance : (p : Place) → left (advance p) ≡ left p - 1
unfolding advance take_one past
left-advance p = go p.rest refl
  where
    go : (xs : List ℕ) → p.rest ≡ xs → length (take_one p xs).rest ≡ length xs - 1
    go [] e = ap length e
    go (c ∷ cs) e = omega arith

left-advance_n : (k : ℕ) (p : Place) → left (advance_n k p) ≡ left p - k
unfolding advance_n
left-advance_n zero p = omega arith
left-advance_n (suc k) p = omega (arith, left-advance_n k (advance p), left-advance p)

left-Moves : {p q : Place} → Moves p q → left q ≤ left p
left-Moves {p = p} (moves k e) = omega (arith, ap left e, left-advance_n k p)

pub left-Reads : (p : Place) {q : Place} → Reads p q → left q ≤ left p - 1
left-Reads p m = omega (arith, left-Moves m, left-advance p)

left-scan_or_end :
    (num : Numbers) (p : Place) (xs : List ℕ)
    → p.rest ≡ xs
    → left (scan_or_end num p xs).behind ≤ left p - 1
unfolding scan_or_end
left-scan_or_end num p [] e = omega (arith, ap length e)
left-scan_or_end num p (c ∷ cs) e = left-Reads p (scan-Reads num p)

left-skip_whitespace : (p : Place) → left (skip_whitespace p) ≤ left p
left-skip_whitespace p = left-Moves (advance_while-Moves _ p)

left-next_fresh : (num : Numbers) (lex : Lexer) → left (next_fresh num lex).at ≤ left lex.at - 1
unfolding next_fresh made
left-next_fresh num lex =
    let p = skip_whitespace lex.at in
    omega (arith, left-scan_or_end num p p.rest refl, left-skip_whitespace lex.at)

-- Without a byte left the next token is the end.
next_fresh-end :
    (num : Numbers) (lex : Lexer) → left lex.at ≡ 0 → (next_fresh num lex).current.kind ≡ tok_eof
unfolding next_fresh made scan_or_end
next_fresh-end num lex h =
    let p = skip_whitespace lex.at in
    let none_left : left p ≡ 0 = omega (arith, left-skip_whitespace lex.at) in
    ended_kind p p.rest none_left
  where
    ended_kind : (p : Place) (xs : List ℕ) → length xs ≡ 0 → (scan_or_end num p xs).kind ≡ tok_eof
    ended_kind p [] e = refl
    ended_kind p (c ∷ cs) e = absurd (omega arith)

pub lexer_next-fresh :
    (num : Numbers) (lex : Lexer) → lex.has_peek ≡ false → lexer_next num lex ≡ next_fresh num lex
unfolding lexer_next
lexer_next-fresh num lex h = rw h

abbrev pub calls : Numbers → ℕ → Lexer → Lexer
calls num zero lex = lex
calls num (suc n) lex = calls num n (lexer_next num lex)

pub next_has_peek : (num : Numbers) (lex : Lexer) → (lexer_next num lex).has_peek ≡ false
unfolding lexer_next next_fresh made
next_has_peek num lex = elim (Bool-cases lex.has_peek) [ inl t ↦ rw t | inr t ↦ rw t ]

left-next :
    (num : Numbers) (lex : Lexer)
    → lex.has_peek ≡ false
    → left (lexer_next num lex).at ≤ left lex.at - 1
left-next num lex h =
    subst (λ l. left l.at ≤ left lex.at - 1) (sym (lexer_next-fresh num lex h))
      (left-next_fresh num lex)

lexer_next-end :
    (num : Numbers) (lex : Lexer)
    → lex.has_peek ≡ false
    → left lex.at ≡ 0
    → (lexer_next num lex).current.kind ≡ tok_eof
lexer_next-end num lex h z =
    subst (λ l. l.current.kind ≡ tok_eof) (sym (lexer_next-fresh num lex h))
      (next_fresh-end num lex z)

calls-end :
    (num : Numbers) (n : ℕ) (lex : Lexer)
    → lex.has_peek ≡ false
    → left lex.at < n
    → (calls num n lex).current.kind ≡ tok_eof
calls-end num zero lex h lt = absurd (omega arith)
calls-end num (suc zero) lex h lt = lexer_next-end num lex h (omega arith)
calls-end num (suc (suc n)) lex h lt =
    calls-end num (suc n) (lexer_next num lex) (next_has_peek num lex)
      (omega (arith, left-next num lex h))

-- A lexer on a source of n bytes gives the end of the source with every call from the one numbered
-- n + 1 on, whatever the source.
pub reaches_end :
    (num : Numbers) (source : List ℕ) (file_id n : ℕ)
    → length source < n
    → (calls num n (lexer_init source file_id)).current.kind ≡ tok_eof
unfolding lexer_init
reaches_end num source file_id n h = calls-end num n (lexer_init source file_id) refl h

-- The lexers that the loop of skip_newlines passes, and the one where it stops.
pub data Skips (num : Numbers) : Lexer → Lexer → Type 0 where
  stop : {lex : Lexer} → is_line_end lex.current.kind ≡ false → Skips num lex lex
  skip :
      {lex last : Lexer}
      → is_line_end lex.current.kind ≡ true
      → Skips num (lexer_next num lex) last
      → Skips num lex last

abbrev pub Stops : Numbers → ℕ → Lexer → Type 0
Stops num fuel lex =
    (last : Lexer) × ((skip_newlines num fuel lex ≡ some last) × Skips num lex last)

Stops-here :
    (num : Numbers) (fuel : ℕ) (lex : Lexer)
    → is_line_end lex.current.kind ≡ false
    → Stops num (suc fuel) lex
unfolding skip_newlines
Stops-here num fuel lex h = (lex, (rw h, stop h))

Stops-later :
    (num : Numbers) (fuel : ℕ) (lex : Lexer)
    → Stops num (suc fuel) (lexer_next num lex)
    → Stops num (suc (suc fuel)) lex
unfolding skip_newlines
Stops-later num fuel lex s = elim (Bool-cases (is_line_end lex.current.kind)) [
  | inl t ↦ (s.0, (rw t s.1.0, skip t s.1.1))
  | inr t ↦ (lex, (rw t, stop t))
]

Stops-fresh :
    (num : Numbers) (fuel : ℕ) (lex : Lexer)
    → lex.has_peek ≡ false
    → left lex.at ≤ fuel
    → Stops num (suc (suc fuel)) lex
Stops-fresh num zero lex h le =
    Stops-later num zero lex
      (Stops-here num zero (lexer_next num lex) (rw (lexer_next-end num lex h (omega arith))))
Stops-fresh num (suc fuel) lex h le = Stops-later num (suc fuel) lex (
    Stops-fresh num fuel (lexer_next num lex) (next_has_peek num lex)
      (omega (arith, left-next num lex h)))

left-peeked :
    (num : Numbers) (lex : Lexer) → lex.has_peek ≡ true → left (lexer_next num lex).at ≡ left lex.at
unfolding lexer_next
left-peeked num lex h = rw h

-- skip_newlines ends: with three rounds more than there are bytes left it gives a lexer whose current token is
-- neither the end of a line nor a comment, and which the calls of lexer_next from the first lexer reach
-- through such tokens only, whether or not a token was peeked at.
pub skip_newlines-Stops :
    (num : Numbers) (fuel : ℕ) (lex : Lexer)
    → left lex.at ≤ fuel
    → Stops num (suc (suc (suc fuel))) lex
skip_newlines-Stops num fuel lex le = elim (Bool-cases lex.has_peek) [
  | inl t ↦ Stops-later num (suc fuel) lex (
      Stops-fresh num fuel (lexer_next num lex) (next_has_peek num lex)
        (omega (arith, left-peeked num lex t)))
  | inr t ↦ Stops-fresh num (suc fuel) lex t (omega arith)
]
