-- ===== src/Cbor/MapBuilder/Order.antt =====
-- compare_map_entries is a total order on keys, shorter keys first.

use native.Mathlib.Decide.{ℕ_discrete}
use mutineer.Prelude.{ℕ, ◌≡◌, refl, List, [], ◌∷◌, length, arith}
use mutineer.Cbor.MapBuilder.{Entry, negative, zero, positive, memcmp, compare_map_entries}

memcmp-zero : (a b : List ℕ) → length a ≡ length b → memcmp a b ≡ zero → a ≡ b
unfolding memcmp
memcmp-zero [] [] e h = refl
memcmp-zero [] (y ∷ b) e h = absurd (omega arith)
memcmp-zero (x ∷ a) [] e h = absurd (omega arith)
memcmp-zero (x ∷ a) (y ∷ b) e h = ground (arith, memcmp-zero a b)

memcmp-opposite :
    (a b : List ℕ)
    → (memcmp a b ≡ negative → memcmp b a ≡ positive)
      × (memcmp a b ≡ positive → memcmp b a ≡ negative)
unfolding memcmp
memcmp-opposite [] [] = ground arith
memcmp-opposite [] (y ∷ b) = ground arith
memcmp-opposite (x ∷ a) [] = ground arith
memcmp-opposite (x ∷ a) (y ∷ b) = ground (arith, memcmp-opposite a b)

memcmp_trans :
    (a b c : List ℕ)
    → length a ≡ length b
    → length b ≡ length c
    → memcmp a b ≡ negative
    → memcmp b c ≡ negative
    → memcmp a c ≡ negative
unfolding memcmp
memcmp_trans [] [] c e f h k = cc
memcmp_trans [] (y ∷ b) c e f h k = absurd (omega arith)
memcmp_trans (x ∷ a) [] c e f h k = absurd (omega arith)
memcmp_trans (x ∷ a) (y ∷ b) [] e f h k = absurd (omega arith)
memcmp_trans (x ∷ a) (y ∷ b) (z ∷ c) e f h k =
    ground (arith, memcmp_trans a b c, memcmp-zero a b, memcmp-zero b c)

-- The order that RFC 8949 calls canonical: `a` goes before `b`.
abbrev pub Before : Entry → Entry → Type 0
Before a b = compare_map_entries a b ≡ negative

pub compare-zero : (a b : Entry) → compare_map_entries a b ≡ zero → a.key ≡ b.key
unfolding compare_map_entries
compare-zero a b h = ground (arith, memcmp-zero a.key b.key)

pub Before-asym : (a b : Entry) → Before a b → compare_map_entries b a ≡ positive
unfolding compare_map_entries
Before-asym a b h = ground (arith, memcmp-opposite a.key b.key)

pub Before-trans : (a b c : Entry) → Before a b → Before b c → Before a c
unfolding compare_map_entries
Before-trans a b c h k = ground (arith, memcmp_trans a.key b.key c.key)

pub Entry-discrete : Discrete Entry
Entry-discrete = hlevel ℕ_discrete
