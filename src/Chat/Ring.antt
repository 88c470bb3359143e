-- ===== src/Chat/Ring.antt =====
-- Ring buffers: the positions of an array of `size` places counted round from a head.
use mutineer.Prelude.{
  ℕ, zero, suc, ◌+◌, ◌-◌, ◌%◌, ◌≤◌, ◌<◌, ◌≡◌, refl, inl, inr, List, [], ◌∷◌, ◌++◌, ltb,
  if◌then◌else◌, Bool-cases, length, set, get_or, arith, ap, ◌≢◌, subst, sym, ◌∙◌,
}
use native.Mathlib.Nat.{mod-eq_of_lt, mod-eq-sub-mod, add-zero}

-- x % size for x below 2 * size.
abbrev pub wrap : ℕ → ℕ → ℕ
wrap size x = if ltb x size then x else x - size

pub mod-wrap : (size x : ℕ) → x < size + size → x % size ≡ wrap size x
mod-wrap size x h = elim (Bool-cases (ltb x size)) [
  | inl t ↦ rw t (mod-eq_of_lt (ground arith))
  | inr t ↦
      let over : size ≤ x = ground arith in rw t (mod-eq-sub-mod over ∙ mod-eq_of_lt (omega arith))
]

module _ {ℓ} {A : Type ℓ} where
  -- The `n` entries from position `i` on.
  unfoldable pub window : A → List A → ℕ → ℕ → ℕ → List A
  window d slots size i zero = []
  window d slots size i (suc n) = get_or slots (wrap size i) d ∷ window d slots size (suc i) n

  pub get_or-set_self :
      (xs : List A) (i : ℕ) (v d : A) → i < length xs → get_or (set xs i v) i d ≡ v
  get_or-set_self [] i v d h = elim h [ ]
  get_or-set_self (x ∷ xs) zero v d h = refl
  get_or-set_self (x ∷ xs) (suc i) v d h = get_or-set_self xs i v d (omega arith)

  pub get_or-set_ne :
      (xs : List A) (i j : ℕ) (v d : A) → i ≢ j → get_or (set xs i v) j d ≡ get_or xs j d
  get_or-set_ne [] i j v d h = refl
  get_or-set_ne (x ∷ xs) zero zero v d h = absurd (h refl)
  get_or-set_ne (x ∷ xs) zero (suc j) v d h = refl
  get_or-set_ne (x ∷ xs) (suc i) zero v d h = refl
  get_or-set_ne (x ∷ xs) (suc i) (suc j) v d h = get_or-set_ne xs i j v d (λ e. h (ap suc e))

  pub length-window : (d : A) (slots : List A) (size i n : ℕ) → length (window d slots size i n) ≡ n
  unfolding window
  length-window d slots size i zero = refl
  length-window d slots size i (suc n) = ap suc (length-window d slots size (suc i) n)

  window-shift :
      (d : A) (slots : List A) (size i n : ℕ)
      → i + n ≤ size
      → window d slots size (i + size) n ≡ window d slots size i n
  unfolding window
  window-shift d slots size i zero h = refl
  window-shift d slots size i (suc n) h =
      let here : wrap size (i + size) ≡ wrap size i = ground arith in
      let there : suc (i + size) ≡ suc i + size = omega arith in
      rw (here, there, window-shift d slots size (suc i) n (omega arith)) refl

  -- A head that wraps round sees the same.
  pub window-wrap :
      (d : A) (slots : List A) (size i n : ℕ)
      → i + n ≤ size + size
      → window d slots size (wrap size i) n ≡ window d slots size i n
  window-wrap d slots size i n h = elim (Bool-cases (ltb i size)) [
    | inl t ↦ rw t refl
    | inr t ↦
        let e : i ≡ (i - size) + size = ground arith in
        let back : wrap size i ≡ i - size = rw t refl in
        rw t (
          sym (window-shift d slots size (i - size) n (omega arith))
          ∙ ap (λ k. window d slots size k n) (sym e))
  ]

  pub window-snoc :
      (d : A) (slots : List A) (size i n : ℕ)
      → window d slots size i (suc n)
        ≡ window d slots size i n ++ get_or slots (wrap size (i + n)) d ∷ []
  unfolding window
  window-snoc d slots size i zero = rw (add-zero i) refl
  window-snoc d slots size i (suc n) =
      let next : suc i + n ≡ i + suc n = omega arith in
      let rest = window-snoc d slots size (suc i) n in cc (next, rest)

  -- A write behind the last entry changes none of them.
  pub window-set :
      (d : A) (slots : List A) (size i n m : ℕ) (e : A)
      → n ≤ m
      → m < size
      → i + m < size + size
      → window d (set slots (wrap size (i + m)) e) size i n ≡ window d slots size i n
  unfolding window
  window-set d slots size i zero m e l h k = refl
  window-set d slots size i (suc n) zero e l h k = absurd (omega arith)
  window-set d slots size i (suc n) (suc m) e l h k =
      let other : wrap size (i + suc m) ≢ wrap size i = ground arith in
      let next : i + suc m ≡ suc i + m = omega arith in
      let here = get_or-set_ne slots (wrap size (i + suc m)) (wrap size i) e d other in
      let rest = window-set d slots size (suc i) n m e (omega arith) (omega arith) (omega arith) in
      let rest' : window d (set slots (wrap size (i + suc m)) e) size (suc i) n
          ≡ window d slots size (suc i) n =
        subst
          (λ k. window d (set slots (wrap size k) e) size (suc i) n ≡ window d slots size (suc i) n)
          (sym next) rest in
      ap (λ x. x ∷ window d (set slots (wrap size (i + suc m)) e) size (suc i) n) here
      ∙ ap (λ l. get_or slots (wrap size i) d ∷ l) rest'
