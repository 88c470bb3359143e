-- ===== src/Cbor/Words.antt =====
-- What encoder and decoder share: size_t, the eight major types of include/plank/plank_cbor.h,
-- int64_t, and the header that RFC 8949 calls canonical (deterministic) for an argument.
use mutineer.Prelude.{
  ℕ, ◌+◌, ◌*◌, ◌/◌, ◌%◌, ◌^◌, ◌≤◌, ◌<◌, List, [], ◌∷◌, ltb, if◌then◌else◌, length, arith,
}

-- uint64_t and size_t, and the bound that every object in memory keeps.
abbrev pub size_mod : ℕ
size_mod = 2 ^ 64

abbrev pub object_max : ℕ
object_max = 2 ^ 63

pub data CborType : Type 0 where
  uint negint bytes text array map tag simple : CborType

unfoldable pub type_code : CborType → ℕ
type_code uint = 0
type_code negint = 1
type_code bytes = 2
type_code text = 3
type_code array = 4
type_code map = 5
type_code tag = 6
type_code simple = 7

pub type_code-lt : (t : CborType) → type_code t < 8
unfolding type_code
type_code-lt uint = omega arith
type_code-lt _ = omega arith

-- int64_t; `negsuc n` is -(n + 1).
pub data ℤ : Type 0 where
  pos : ℕ → ℤ
  negsuc : ℕ → ℤ

abbrev pub InInt64 : ℤ → Type 0
InInt64 (pos n) = n < object_max
InInt64 (negsuc n) = n < object_max

-- The bytes of a number, most significant first.
abbrev pub be2 : ℕ → List ℕ
be2 a = a / 2 ^ 8 % 256 ∷ a % 256 ∷ []

abbrev pub be4 : ℕ → List ℕ
be4 a = a / 2 ^ 24 % 256 ∷ a / 2 ^ 16 % 256 ∷ be2 a

abbrev pub be8 : ℕ → List ℕ
be8 a = a / 2 ^ 56 % 256 ∷ a / 2 ^ 48 % 256 ∷ a / 2 ^ 40 % 256 ∷ a / 2 ^ 32 % 256 ∷ be4 a

-- The shortest header for a major type and an argument.
unfoldable pub header : CborType → ℕ → List ℕ
header t a =
    let m = type_code t * 32 in
    if ltb a 24
    then (m + a) ∷ []
    else if ltb a (2 ^ 8)
    then (m + 24) ∷ a ∷ []
    else if ltb a (2 ^ 16)
    then (m + 25) ∷ be2 a
    else if ltb a (2 ^ 32)
    then (m + 26) ∷ be4 a
    else (m + 27) ∷ be8 a

pub length-header : (t : CborType) (a : ℕ) → (1 ≤ length (header t a)) × (length (header t a) ≤ 9)
unfolding header
length-header t a = ground arith
