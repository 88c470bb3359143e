-- ===== src/Cbor/Decoder/Moves.antt =====
-- How the readers move a decoder, and bounds on the arguments that they return.
use native.Mathlib.Numerals.{add-one}
use mutineer.Prelude.{
  ℕ, zero, suc, ◌%◌, ◌*◌, ◌≤◌, ◌<◌, ◌≡◌, refl, ◌∙◌, sym, subst, true, List, [], ◌∷◌, ◌⊎◌, get_or,
  arith,
}
use mutineer.Cbor.Words.{object_max}
use mutineer.Cbor.Decoder.{Decoder, read_byte, shift_in, decode_arg, take_slice}

-- From `d` to `d'` the decoder reads the same memory and stays in it, and never moves back.
pub record Moved (d d' : Decoder) : Type 0 where
  pub same_buf : d'.buf ≡ d.buf
  pub same_len : d'.len ≡ d.len
  pub onward : d.at ≤ d'.at
  pub inside : d'.at ≤ d'.len
  pub stays_bad : d.error ≡ true → d'.error ≡ true

-- It stops with an error, or has moved on.
abbrev pub Advanced : Decoder → Decoder → Type 0
Advanced d d' = Moved d d' × ((d'.error ≡ true) ⊎ (d.at < d'.at))

pub read_byte-Moved : (d : Decoder) → d.at ≤ d.len → Moved d (read_byte d).1
unfolding read_byte
read_byte-Moved d h = ground arith

shift_in-Moved : (v : ℕ) (d : Decoder) → d.at ≤ d.len → Moved d (shift_in (v, d)).1
unfolding shift_in
shift_in-Moved v d h = ground arith

pub Moved-trans : {a b c : Decoder} → Moved a b → Moved b c → Moved a c
Moved-trans m n = record {
  same_buf = n.same_buf ∙ m.same_buf;
  same_len = n.same_len ∙ m.same_len;
  onward = omega (arith, m.onward, n.onward);
  inside = n.inside;
  stays_bad = λ h. n.stays_bad (m.stays_bad h);
}

abbrev shift_in_times : ℕ → ℕ × Decoder → ℕ × Decoder
shift_in_times zero p = p
shift_in_times (suc n) p = shift_in_times n (shift_in p)

shift_in_times-Moved : (n v : ℕ) (d : Decoder) → d.at ≤ d.len → Moved d (shift_in_times n (v, d)).1
shift_in_times-Moved zero v d h = record {
  same_buf = refl;
  same_len = refl;
  onward = omega arith;
  inside = h;
  stays_bad = λ e. e;
}
shift_in_times-Moved (suc n) v d h =
    let first = shift_in-Moved v d h in
    Moved-trans first (shift_in_times-Moved n (shift_in (v, d)).0 (shift_in (v, d)).1 first.inside)

be_Moved : (n : ℕ) (d : Decoder) → d.at ≤ d.len → Moved d (shift_in_times n (read_byte d)).1
be_Moved n d h =
    let first = read_byte-Moved d h in
    Moved-trans first (shift_in_times-Moved n (read_byte d).0 (read_byte d).1 first.inside)

pub decode_arg-Moved : (d : Decoder) (info : ℕ) → d.at ≤ d.len → Moved d (decode_arg d info).1
unfolding decode_arg
decode_arg-Moved d info h =
    ground (arith, be_Moved 0 d h, be_Moved 1 d h, be_Moved 3 d h, be_Moved 7 d h)

abbrev pub AllBytes : List ℕ → Type 0
AllBytes [] = Unit {0}
AllBytes (b ∷ bs) = (b < 256) × AllBytes bs

-- Behind a first byte for an eight-byte argument the top bit is clear: the argument is below 2^63.
abbrev pub NoHuge : List ℕ → Type 0
NoHuge [] = Unit {0}
NoHuge (b ∷ bs) = (b % 32 ≡ 27 → get_or bs 0 0 < 128) × NoHuge bs

get_or-lt : (buf : List ℕ) (i : ℕ) → AllBytes buf → get_or buf i 0 < 256
get_or-lt [] i h = omega arith
get_or-lt (b ∷ bs) zero h = h.0
get_or-lt (b ∷ bs) (suc i) h = get_or-lt bs i h.1

get_or-NoHuge :
    (buf : List ℕ) (i : ℕ) → NoHuge buf → get_or buf i 0 % 32 ≡ 27 → get_or buf (suc i) 0 < 128
get_or-NoHuge [] i h e = omega arith
get_or-NoHuge (b ∷ bs) zero h e = h.0 e
get_or-NoHuge (b ∷ bs) (suc i) h e = get_or-NoHuge bs i h.1 e

read_byte-lt : (d : Decoder) → AllBytes d.buf → (read_byte d).0 < 256
unfolding read_byte
read_byte-lt d h = ground (arith, get_or-lt d.buf d.at h)

-- At an eight-byte header, the byte behind it.
read_byte_behind :
    (d : Decoder) → NoHuge d.buf → (read_byte d).0 % 32 ≡ 27 → (read_byte (read_byte d).1).0 < 128
unfolding read_byte
read_byte_behind d h e = ground (arith, get_or-NoHuge d.buf d.at h, add-one d.at)

shift_in-lt : (v k : ℕ) (d : Decoder) → AllBytes d.buf → v < k → (shift_in (v, d)).0 < k * 256
unfolding shift_in
shift_in-lt v k d b h = omega (arith, read_byte-lt d b)

abbrev shift_bound : ℕ → ℕ → ℕ
shift_bound k zero = k
shift_bound k (suc n) = shift_bound (k * 256) n

shift_in_times-lt :
    (n v k : ℕ) (d : Decoder)
    → d.at ≤ d.len
    → AllBytes d.buf
    → v < k
    → (shift_in_times n (v, d)).0 < shift_bound k n
shift_in_times-lt zero v k d a b h = h
shift_in_times-lt (suc n) v k d a b h =
    let m = shift_in-Moved v d a in
    shift_in_times-lt n (shift_in (v, d)).0 (k * 256) (shift_in (v, d)).1 m.inside
      (subst AllBytes (sym m.same_buf) b) (shift_in-lt v k d b h)

be_lt :
    (n k : ℕ) (d : Decoder)
    → d.at ≤ d.len
    → AllBytes d.buf
    → (read_byte d).0 < k
    → (shift_in_times n (read_byte d)).0 < shift_bound k n
be_lt n k d a b h =
    let m = read_byte-Moved d a in
    shift_in_times-lt n (read_byte d).0 k (read_byte d).1 m.inside
      (subst AllBytes (sym m.same_buf) b) h

pub arg-lt :
    (d : Decoder)
    → d.at ≤ d.len
    → AllBytes d.buf
    → NoHuge d.buf
    → (decode_arg (read_byte d).1 ((read_byte d).0 % 32)).0 < object_max
unfolding decode_arg
arg-lt d a b h = ground (
  arith,
  lt1,
  be_lt 1 256 next m.inside bytes lt1,
  be_lt 3 256 next m.inside bytes lt1,
  be_lt 7 128 next m.inside bytes,
  read_byte_behind d h,
)
  where
    m : Moved d (read_byte d).1
    m = read_byte-Moved d a

    next : Decoder
    next = (read_byte d).1

    bytes : AllBytes next.buf
    bytes = subst AllBytes (sym m.same_buf) b

    lt1 : (read_byte next).0 < 256
    lt1 = read_byte-lt next bytes

-- The step of a string over its payload, where no addition wraps.
pub take_slice-Moved :
    (n : ℕ) (d : Decoder)
    → d.at ≤ d.len
    → d.len < object_max
    → n < object_max
    → Moved d (take_slice (n, d)).1
unfolding take_slice
take_slice-Moved n d a s h = ground arith
