-- ===== src/Cbor/Decoder.antt =====
-- The decoder of src/plank/plank_cbor.c. `buf` is the memory behind the pointer, which holds at
-- least `len` bytes in every use; a read past its end would give 0 here. Positions are size_t.
pub mod Ahead
pub mod Header
pub mod Moves
pub mod RoundTrip
use mutineer.Prelude.{
  ℕ, ◌+◌, ◌-◌, ◌*◌, ◌/◌, ◌%◌, Bool, true, false, not, ◌||◌, Option, none, some, List, ltb, leb,
  ◌==◌, if◌then◌else◌, take, drop, get_or,
}
use mutineer.Cbor.Words.{CborType, type_code, size_mod, object_max, ℤ, pos, negsuc}

pub record Decoder : Type 0 where
  pub buf : List ℕ
  pub len : ℕ
  pub at : ℕ
  pub error : Bool

unfoldable pub init : List ℕ → ℕ → Decoder
init buf len = record { buf = buf; len = len; at = 0; error = false }

abbrev pub failed : Decoder → Decoder
failed d = record d { error = true }

-- cbor_decoder_ok and cbor_decoder_eof.
unfoldable pub is_ok : Decoder → Bool
is_ok d = not d.error

unfoldable pub is_eof : Decoder → Bool
is_eof d = leb d.len d.at

unfoldable pub read_byte : Decoder → ℕ × Decoder
read_byte d =
    if d.error || leb d.len d.at
    then (0, failed d)
    else (get_or d.buf d.at 0, record d { at = d.at + 1 })

-- val = (val << 8) | decoder_read_byte(dec). The shift clears the low byte, so `|` adds.
unfoldable pub shift_in : ℕ × Decoder → ℕ × Decoder
unfolding read_byte
shift_in (val, d) = let (b, d') = read_byte d in ((val * 256 + b) % size_mod, d')

unfoldable pub decode_arg : Decoder → ℕ → ℕ × Decoder
decode_arg d info =
    if ltb info 24
    then (info, d)
    else if info == 24
    then read_byte d
    else if info == 25
    then shift_in (read_byte d)
    else if info == 26
    then shift_in (shift_in (shift_in (read_byte d)))
    else if info == 27
    then shift_in (shift_in (shift_in (shift_in (shift_in (shift_in (shift_in (read_byte d)))))))
    else (0, failed d)

-- The value is the number of the type; the enum's constant 0 on an error.
unfoldable pub peek_type : Decoder → ℕ × Decoder
peek_type d = if d.error || leb d.len d.at then (0, failed d) else (get_or d.buf d.at 0 / 32, d)

-- What the decoders of one major type share: the first byte, the test of its type, the argument.
unfoldable pub decode_head : CborType → Decoder → ℕ × Decoder
decode_head t d =
    let (b, d') = read_byte d in
    if d'.error
    then (0, d')
    else if b / 32 == type_code t
    then decode_arg d' (b % 32)
    else (0, failed d')

unfoldable pub decode_uint : Decoder → ℕ × Decoder
unfolding decode_head
decode_uint d = decode_head CborType.uint d

unfoldable pub decode_array : Decoder → ℕ × Decoder
unfolding decode_head
decode_array d = decode_head CborType.array d

unfoldable pub decode_map : Decoder → ℕ × Decoder
unfolding decode_head
decode_map d = decode_head CborType.map d

-- (int64_t)val and -1 - (int64_t)val for a uint64_t.
unfoldable pub as_int64 : ℕ → ℤ
as_int64 val = if ltb val object_max then pos val else negsuc (size_mod - val - 1)

unfoldable pub minus_one_less : ℤ → ℤ
minus_one_less (pos n) = negsuc n
minus_one_less (negsuc n) = pos n

unfoldable pub decode_int : Decoder → ℤ × Decoder
unfolding as_int64 minus_one_less
decode_int d =
    let (b, d') = read_byte d in
    if d'.error
    then (pos 0, d')
    else if b / 32 == type_code CborType.uint
    then (let (val, d'') = decode_arg d' (b % 32) in (as_int64 val, d''))
    else if b / 32 == type_code CborType.negint
    then (let (val, d'') = decode_arg d' (b % 32) in (minus_one_less (as_int64 val), d''))
    else (pos 0, failed d')

-- A pointer into the buffer with a length; the addition wraps as size_t does.
pub record Slice : Type 0 where
  pub start : ℕ
  pub size : ℕ

unfoldable pub take_slice : ℕ × Decoder → Option Slice × Decoder
take_slice (n, d) =
    if d.error
    then (none, d)
    else if ltb d.len ((d.at + n) % size_mod)
    then (none, failed d)
    else (some (record { start = d.at; size = n }), record d { at = (d.at + n) % size_mod })

unfoldable pub decode_bytes : Decoder → Option Slice × Decoder
unfolding decode_head take_slice
decode_bytes d = take_slice (decode_head CborType.bytes d)

unfoldable pub decode_text : Decoder → Option Slice × Decoder
unfolding decode_head take_slice
decode_text d = take_slice (decode_head CborType.text d)

abbrev pub slice_bytes : Decoder → Slice → List ℕ
slice_bytes d s = take s.size (drop s.start d.buf)

-- The copy, or `none` for false.
unfoldable pub decode_bytes_copy : Decoder → ℕ → Option (List ℕ) × Decoder
decode_bytes_copy d buf_cap =
    let (found, d') = decode_bytes d in
    elim found [
      | none ↦ (none, d')
      | some s ↦ if ltb buf_cap s.size then (none, failed d') else (some (slice_bytes d' s), d')
    ]

-- Its terminator needs a byte more.
unfoldable pub decode_text_copy : Decoder → ℕ → Option (List ℕ) × Decoder
decode_text_copy d buf_cap =
    let (found, d') = decode_text d in
    elim found [
      | none ↦ (none, d')
      | some s ↦ if leb buf_cap s.size then (none, failed d') else (some (slice_bytes d' s), d')
    ]

unfoldable pub decode_bool : Decoder → Bool × Decoder
decode_bool d =
    let (b, d') = read_byte d in
    if d'.error
    then (false, d')
    else if b == 0xf4
    then (false, d')
    else if b == 0xf5
    then (true, d')
    else (false, failed d')
