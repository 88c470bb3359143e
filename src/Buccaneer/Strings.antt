-- ===== src/Buccaneer/Strings.antt =====
-- bucc_string_cmp of src/buccaneer/value.c tells the same bytes, and the hash of a key never hides them.
use Prim.Native.Nat.{compare, Ordering}
use mutineer.Prelude.{
  ℕ, suc, ◌≡◌, ◌∙◌, ap, refl, Bool, true, false, ◌&&◌, List, [], ◌∷◌, length, ltb, ◌==◌, ==-refl,
  if◌then◌else◌, arith,
}
use mutineer.Buccaneer.{compare_bytes, string_cmp, is_eq}

abbrev pub same_text : List ℕ → List ℕ → Bool
same_text [] [] = true
same_text [] (b ∷ bs) = false
same_text (a ∷ xs) [] = false
same_text (a ∷ xs) (b ∷ bs) = a == b && same_text xs bs

pub same_text_refl : (a : List ℕ) → same_text a a ≡ true
same_text_refl [] = refl
same_text_refl (a ∷ xs) = rw (==-refl a, same_text_refl xs) refl

pub same_text_eq : (a b : List ℕ) → same_text a b ≡ true → a ≡ b
same_text_eq [] [] h = refl
same_text_eq [] (b ∷ bs) h = ground (arith, h)
same_text_eq (a ∷ xs) [] h = ground (arith, h)
same_text_eq (a ∷ xs) (b ∷ bs) h =
    let first : a ≡ b = ground (arith, h) in
    let rest = same_text_eq xs bs (ground (arith, h)) in rw (first, rest) refl

abbrev smaller : ℕ → ℕ → ℕ
smaller m n = if ltb m n then m else n

smaller-suc : (m n : ℕ) → smaller (suc m) (suc n) ≡ suc (smaller m n)
smaller-suc m n = ground arith

compare-suc : (m n : ℕ) → is_eq (compare (suc m) (suc n)) ≡ is_eq (compare m n)
compare-suc m n = ground arith

abbrev then_lengths : Ordering → ℕ → ℕ → Bool
then_lengths o m n =
    is_eq
      (elim o [ Ordering.lt ↦ Ordering.lt | Ordering.eq ↦ compare m n | Ordering.gt ↦ Ordering.gt ])

then_lengths-suc : (o : Ordering) (m n : ℕ) → then_lengths o (suc m) (suc n) ≡ then_lengths o m n
then_lengths-suc Ordering.lt m n = refl
then_lengths-suc Ordering.eq m n = compare-suc m n
then_lengths-suc Ordering.gt m n = refl

first_byte :
    (o rest : Ordering) (m n : ℕ)
    → then_lengths
        (elim o [ Ordering.lt ↦ Ordering.lt | Ordering.eq ↦ rest | Ordering.gt ↦ Ordering.gt ])
        m
        n
      ≡ is_eq o && then_lengths rest m n
first_byte Ordering.lt rest m n = refl
first_byte Ordering.eq rest m n = refl
first_byte Ordering.gt rest m n = refl

is_eq-compare : (a b : ℕ) → is_eq (compare a b) ≡ (a == b)
is_eq-compare a b = ground arith

smaller-zero : (n : ℕ) → smaller 0 n ≡ 0
smaller-zero n = ground arith

smaller-zero_right : (n : ℕ) → smaller n 0 ≡ 0
smaller-zero_right n = ground arith

same_from :
    (a b : List ℕ)
    → then_lengths (compare_bytes (smaller (length a) (length b)) a b) (length a) (length b)
      ≡ same_text a b
unfolding compare_bytes
same_from [] [] = ground arith
same_from [] (b ∷ bs) = rw (smaller-zero (suc (length bs))) (ground arith)
same_from (a ∷ xs) [] = rw (smaller-zero_right (suc (length xs))) (ground arith)
same_from (a ∷ xs) (b ∷ bs) =
    let rest = compare_bytes (smaller (length xs) (length bs)) xs bs in
    rw (smaller-suc (length xs) (length bs)) (
      first_byte (compare a b) rest (suc (length xs)) (suc (length bs))
      ∙ rw (is_eq-compare a b, then_lengths-suc rest (length xs) (length bs))
          (ap (λ t. a == b && t) (same_from xs bs)))

pub string_cmp-same : (a b : List ℕ) → is_eq (string_cmp a b) ≡ same_text a b
unfolding string_cmp
string_cmp-same a b = same_from a b
