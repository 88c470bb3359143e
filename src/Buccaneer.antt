-- ===== src/Buccaneer.antt =====
-- src/buccaneer/value.c with src/buccaneer/include/bucc_value.h: the strings, arrays and maps of the
-- Buccaneer script language. An object on the heap is a number, never NULL; what a call does to the
-- reference counts is a list of the objects retained and released, in the order of the code.
pub mod Strings
pub mod Arrays
pub mod Maps
pub mod Finite
pub mod Accounts
pub mod Lexer
pub mod Vm
mod Tests
use Prim.Native.Nat.{compare, Ordering, bit_xor}
use mutineer.Prelude.{
  ℕ, zero, suc, ◌*◌, ◌%◌, ◌^◌, Bool, true, false, Option, none, some, List, [], ◌∷◌, ◌++◌, ltb,
  ◌==◌, if◌then◌else◌, length,
}

-- bucc_string_t with its place; `len` is the length of `bytes`.
pub record Str : Type 0 where
  pub object : ℕ
  pub bytes : List ℕ
  pub hash : ℕ

-- The bits of an int64_t and of a double.
pub data Value : Type 0 where
  null : Value
  boolean : Bool → Value
  i64 : ℕ → Value
  f64 : ℕ → Value
  string : Str → Value
  date : ℕ → ℕ → ℕ → Value
  datetime : ℕ → ℕ → ℕ → ℕ → ℕ → ℕ → Value
  array : ℕ → Value
  map_of : ℕ → Value
  error : ℕ → Value

-- FNV-1a, in 32 bits.
unfoldable pub hash_from : ℕ → List ℕ → ℕ
hash_from hash [] = hash
hash_from hash (b ∷ bs) = hash_from (bit_xor hash b * 16777619 % 2 ^ 32) bs

unfoldable pub hash_bytes : List ℕ → ℕ
hash_bytes bs = hash_from 2166136261 bs

-- `object` is what the allocator gives; it gives one, and no string is NULL.
unfoldable pub string_new : ℕ → List ℕ → Str
string_new object bs = record { object = object; bytes = bs; hash = hash_bytes bs }

unfoldable pub string_concat : ℕ → Str → Str → Str
string_concat object a b = string_new object (a.bytes ++ b.bytes)

-- memcmp of the first n bytes.
unfoldable pub compare_bytes : ℕ → List ℕ → List ℕ → Ordering
compare_bytes zero as' bs = Ordering.eq
compare_bytes (suc n) (a ∷ as') (b ∷ bs) =
    let rest = compare_bytes n as' bs in
    elim (compare a b) [
      | Ordering.lt ↦ Ordering.lt
      | Ordering.eq ↦ rest
      | Ordering.gt ↦ Ordering.gt
    ]
compare_bytes (suc n) _ _ = Ordering.eq

unfoldable pub string_cmp : List ℕ → List ℕ → Ordering
string_cmp a b =
    elim (compare_bytes (if ltb (length a) (length b) then length a else length b) a b) [
      | Ordering.lt ↦ Ordering.lt
      | Ordering.eq ↦ compare (length a) (length b)
      | Ordering.gt ↦ Ordering.gt
    ]

abbrev pub is_eq : Ordering → Bool
is_eq Ordering.eq = true
is_eq _ = false

pub data Effect : Type 0 where
  retain : ℕ → Effect
  release : ℕ → Effect

-- The object that a value holds a reference to.
abbrev pub object_of : Value → Option ℕ
object_of (string s) = some s.object
object_of (array p) = some p
object_of (map_of p) = some p
object_of (error p) = some p
object_of _ = none

abbrev pub effect_on : (ℕ → Effect) → Option ℕ → List Effect
effect_on f none = []
effect_on f (some p) = f p ∷ []

unfoldable pub value_retain : Value → List Effect
value_retain v = effect_on retain (object_of v)

unfoldable pub value_release : Value → List Effect
value_release v = effect_on release (object_of v)
