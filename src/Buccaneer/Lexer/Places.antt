-- ===== src/Buccaneer/Lexer/Places.antt =====
-- Where a token of src/buccaneer/lexer.c stands: offsets, lines and columns against the source.
use mutineer.Prelude.{
  ℕ, zero, suc, ◌+◌, ◌%◌, ◌^◌, Bool, true, Bool-cases, List, [], ◌∷◌, ◌++◌, append_assoc,
  append-nil, length, length-append, ◌==◌, ◌&&◌, take, ◌≡◌, refl, sym, ap, ◌∙◌, subst, inl, inr,
  arith, if◌then◌else◌,
}
use mutineer.Buccaneer.Lexer.{
  Place, advance, take_one, past, advance_n, skip_whitespace, is_blank, count_while,
}
use mutineer.Buccaneer.Lexer.Moves.{Moves, moves}

-- The line feeds of a text, and its bytes behind the last of them.
abbrev pub line_feeds : List ℕ → ℕ
line_feeds [] = 0
line_feeds (c ∷ cs) = (if c == b'\n' then 1 else 0) + line_feeds cs

abbrev pub last_line : ℕ → List ℕ → ℕ
last_line n [] = n
last_line n (c ∷ cs) = last_line (if c == b'\n' then 0 else suc n) cs

-- The place behind the text `seen`; lines and columns are counted from 1, modulo 2 ^ 32.
pub record IsPlace (source seen : List ℕ) (p : Place) : Type 0 where
  pub splits : source ≡ seen ++ p.rest
  pub offset : p.pos ≡ length seen
  pub row : p.line ≡ (1 + line_feeds seen) % 2 ^ 32
  pub column : p.col ≡ (1 + last_line 0 seen) % 2 ^ 32

line_feeds-append : (xs ys : List ℕ) → line_feeds (xs ++ ys) ≡ line_feeds xs + line_feeds ys
line_feeds-append [] ys = omega arith
line_feeds-append (x ∷ xs) ys = omega (arith, line_feeds-append xs ys)

last_line-append : (xs ys : List ℕ) (n : ℕ) → last_line n (xs ++ ys) ≡ last_line (last_line n xs) ys
last_line-append [] ys n = refl
last_line-append (x ∷ xs) ys n = last_line-append xs ys _

mod_suc : (a b : ℕ) → a ≡ b % 2 ^ 32 → (a + 1) % 2 ^ 32 ≡ (b + 1) % 2 ^ 32
mod_suc a b h = omega arith

next_row :
    (line c : ℕ) (seen : List ℕ)
    → line ≡ (1 + line_feeds seen) % 2 ^ 32
    → (if c == b'\n' then (line + 1) % 2 ^ 32 else line)
      ≡ (1 + line_feeds (seen ++ c ∷ [])) % 2 ^ 32
next_row line c seen h = elim (Bool-cases (c == b'\n')) [
  | inl t ↦ rw (line_feeds-append seen (c ∷ [])) rw t (omega arith)
  | inr t ↦ rw (line_feeds-append seen (c ∷ [])) rw t (omega arith)
]

next_column :
    (col c : ℕ) (seen : List ℕ)
    → col ≡ (1 + last_line 0 seen) % 2 ^ 32
    → (if c == b'\n' then 1 else (col + 1) % 2 ^ 32) ≡ (1 + last_line 0 (seen ++ c ∷ [])) % 2 ^ 32
next_column col c seen h = elim (Bool-cases (c == b'\n')) [
  | inl t ↦ rw (last_line-append seen (c ∷ []) 0) rw t refl
  | inr t ↦ rw (last_line-append seen (c ∷ []) 0) rw t (omega arith)
]

past-IsPlace :
    (source seen : List ℕ) (p : Place) (c : ℕ) (cs : List ℕ)
    → p.rest ≡ c ∷ cs
    → IsPlace source seen p
    → IsPlace source (seen ++ c ∷ []) (past p c cs)
unfolding past
past-IsPlace source seen p c cs e h = record {
  splits = h.splits ∙ ap (λ r. seen ++ r) e ∙ sym (append_assoc seen (c ∷ []) cs);
  offset = omega (arith, h.offset, length-append seen (c ∷ []));
  row = next_row p.line c seen h.row;
  column = next_column p.col c seen h.column;
}

-- On the bytes that are left, each with its equation.
advance_n-nil : (k : ℕ) (p : Place) → p.rest ≡ [] → advance_n k p ≡ p
unfolding advance_n advance take_one
advance_n-nil zero p e = refl
advance_n-nil (suc k) p e = ap (advance_n k) (ap (take_one p) e) ∙ advance_n-nil k p e

advance_n-cons :
    (k : ℕ) (p : Place) (c : ℕ) (cs : List ℕ)
    → p.rest ≡ c ∷ cs
    → advance_n (suc k) p ≡ advance_n k (past p c cs)
unfolding advance_n advance take_one
advance_n-cons k p c cs e = ap (advance_n k) (ap (take_one p) e)

-- The places behind a text, and the text that is left there.
advance_n-IsPlace :
    {source : List ℕ} (k : ℕ) (p : Place) (xs seen : List ℕ)
    → p.rest ≡ xs
    → IsPlace source seen p
    → IsPlace source (seen ++ take k xs) (advance_n k p)
unfolding advance_n past
advance_n-IsPlace {source = source} zero p xs seen e h =
    subst (λ s. IsPlace source s p) (sym (append-nil seen)) h
advance_n-IsPlace {source = source} (suc k) p [] seen e h =
    subst (λ q. IsPlace source (seen ++ []) q) (sym (advance_n-nil (suc k) p e))
      (subst (λ s. IsPlace source s p) (sym (append-nil seen)) h)
advance_n-IsPlace {source = source} (suc k) p (c ∷ cs) seen e h =
    subst (λ q. IsPlace source (seen ++ c ∷ take k cs) q) (sym (advance_n-cons k p c cs e))
      (subst (λ s. IsPlace source s (advance_n k (past p c cs)))
        (append_assoc seen (c ∷ []) (take k cs))
        (advance_n-IsPlace k (past p c cs) cs (seen ++ c ∷ []) refl
          (past-IsPlace source seen p c cs e h)))

-- What moves from one place to another takes a text.
pub record Takes (source seen : List ℕ) (p q : Place) : Type 0 where
  pub text : List ℕ
  pub place : IsPlace source (seen ++ text) q

pub Moves-Takes :
    {source seen : List ℕ} {p q : Place} → Moves p q → IsPlace source seen p → Takes source seen p q
Moves-Takes {source = source} {seen = seen} {p = p} (moves k e) h = record {
  text = take k p.rest;
  place =
      subst (IsPlace source (seen ++ take k p.rest)) (sym e)
        (advance_n-IsPlace k p p.rest seen refl h);
}

abbrev pub all : (ℕ → Bool) → List ℕ → Bool
all f [] = true
all f (c ∷ cs) = f c && all f cs

all-count_while : (f : ℕ → Bool) (xs : List ℕ) → all f (take (count_while f xs) xs) ≡ true
unfolding count_while
all-count_while f [] = refl
all-count_while f (c ∷ cs) = elim (Bool-cases (f c)) [
  | inl t ↦ rw t rw t (all-count_while f cs)
  | inr t ↦ rw t
]

-- White space is skipped over blanks.
pub blanks-IsPlace :
    {source seen : List ℕ} (p : Place)
    → IsPlace source seen p
    → (blanks : List ℕ) × ((all is_blank blanks ≡ true)
        × IsPlace source (seen ++ blanks) (skip_whitespace p))
blanks-IsPlace {seen = seen} p h =
    let n = count_while is_blank p.rest in
    (take n p.rest, (all-count_while is_blank p.rest, advance_n-IsPlace n p p.rest seen refl h))
