-- ===== src/Cbor/Encoder.antt =====
-- The encoder of src/plank/plank_cbor.c. A buffer is the list of the bytes written at its front,
-- or `none` for NULL; `fault` records a write through NULL or past the capacity, which C leaves
-- undefined. `allocates n` says whether the allocator grants n bytes.
pub mod Appends
pub mod Calls
use mutineer.Prelude.{
  ℕ, ◌+◌, ◌-◌, ◌*◌, ◌/◌, ◌%◌, ◌^◌, Bool, true, false, not, ◌&&◌, ◌||◌, Option, none, some, List, [],
  ◌∷◌, ◌++◌, ltb, leb, if◌then◌else◌, length, take,
}
use mutineer.Cbor.Words.{CborType, type_code, size_mod, ℤ, pos, negsuc}

pub record Encoder : Type 0 where
  pub buf : Option (List ℕ)
  pub cap : ℕ
  pub len : ℕ
  pub error : Bool
  pub fault : Bool

abbrev pub or_empty : Option (List ℕ) → List ℕ
or_empty none = []
or_empty (some bs) = bs

abbrev pub is_null : Option (List ℕ) → Bool
is_null none = true
is_null (some _) = false

unfoldable pub init : Option (List ℕ) → ℕ → Encoder
init buf cap = record { buf = buf; cap = cap; len = 0; error = false; fault = false }

unfoldable pub free : Encoder → Encoder
free e = record e { buf = none; cap = 0; len = 0 }

-- enc->buf[enc->len] = b, or memcpy to that place, with the undefined cases recorded.
unfoldable pub put : Encoder → List ℕ → Encoder
put e bs =
    if is_null e.buf || ltb e.cap (e.len + length bs)
    then record e { fault = true; len = (e.len + length bs) % size_mod }
    else record e { buf = some (or_empty e.buf ++ bs); len = (e.len + length bs) % size_mod }

module _ (allocates : ℕ → Bool) where
  unfoldable pub init_dynamic : ℕ → Encoder
  init_dynamic initial_cap =
      let cap = if ltb initial_cap 64 then 64 else initial_cap in
      record {
        buf = if allocates cap then some [] else none;
        cap = cap;
        len = 0;
        error = not (allocates cap);
        fault = false;
      }

  -- The branch for NULL reallocates.
  unfoldable pub grow : Encoder → ℕ → Encoder
  grow e wanted =
      let doubled = e.cap * 2 % size_mod in
      let new_cap = if ltb doubled wanted then (wanted + 256) % size_mod else doubled in
      if allocates new_cap
      then record e { buf = some (or_empty e.buf); cap = new_cap }
      else record e { error = true }

  unfoldable pub ensure_space : Encoder → ℕ → Encoder
  unfolding grow
  ensure_space e needed =
      let wanted = (e.len + needed) % size_mod in
      if e.error
      then e
      else if not (ltb e.cap wanted)
      then e
      else if is_null e.buf
      then grow e wanted
      else record e { error = true }

  unfoldable pub write_bytes : Encoder → List ℕ → Encoder
  unfolding ensure_space put
  write_bytes e bs = let e' = ensure_space e (length bs) in if e'.error then e' else put e' bs

  unfoldable pub write_byte : Encoder → ℕ → Encoder
  unfolding ensure_space put
  write_byte e b = let e' = ensure_space e 1 in if e'.error then e' else put e' (b ∷ [])

  -- The casts to uint8_t, and `mt | k` for k below 32, where `mt` has its low five bits clear.
  unfoldable pub encode_type_arg : Encoder → CborType → ℕ → Encoder
  encode_type_arg e major arg =
      let mt = type_code major * 32 % 256 in
      if ltb arg 24
      then write_byte e (mt + arg)
      else if leb arg 0xff
      then write_byte (write_byte e (mt + 24)) (arg % 256)
      else if leb arg 0xffff
      then write_byte (write_byte (write_byte e (mt + 25)) (arg / 2 ^ 8 % 256)) (arg % 256)
      else if leb arg 0xffff_ffff
      then (let e1 = write_byte e (mt + 26) in
          let e2 = write_byte e1 (arg / 2 ^ 24 % 256) in
          let e3 = write_byte e2 (arg / 2 ^ 16 % 256) in
          let e4 = write_byte e3 (arg / 2 ^ 8 % 256) in write_byte e4 (arg % 256))
      else let e1 = write_byte e (mt + 27) in
        let e2 = write_byte e1 (arg / 2 ^ 56 % 256) in
        let e3 = write_byte e2 (arg / 2 ^ 48 % 256) in
        let e4 = write_byte e3 (arg / 2 ^ 40 % 256) in
        let e5 = write_byte e4 (arg / 2 ^ 32 % 256) in
        let e6 = write_byte e5 (arg / 2 ^ 24 % 256) in
        let e7 = write_byte e6 (arg / 2 ^ 16 % 256) in
        let e8 = write_byte e7 (arg / 2 ^ 8 % 256) in write_byte e8 (arg % 256)

  unfoldable pub encode_uint : Encoder → ℕ → Encoder
  encode_uint e val = encode_type_arg e CborType.uint val

  unfoldable pub encode_negint : Encoder → ℕ → Encoder
  encode_negint e val = encode_type_arg e CborType.negint val

  -- -(val + 1) is n at the negative number -(n + 1).
  unfoldable pub encode_int : Encoder → ℤ → Encoder
  encode_int e (pos n) = encode_uint e n
  encode_int e (negsuc n) = encode_negint e n

  -- memcpy of the first `len` bytes behind a pointer, which may be NULL.
  unfoldable pub write_from : Encoder → Option (List ℕ) → ℕ → Encoder
  write_from e none len = e
  write_from e (some bs) len = if ltb 0 len then write_bytes e (take len bs) else e

  unfoldable pub encode_bytes : Encoder → Option (List ℕ) → ℕ → Encoder
  unfolding write_from
  encode_bytes e bs len = write_from (encode_type_arg e CborType.bytes len) bs len

  unfoldable pub encode_text_len : Encoder → Option (List ℕ) → ℕ → Encoder
  unfolding write_from
  encode_text_len e str len = write_from (encode_type_arg e CborType.text len) str len

  -- A C string is the list of the bytes before its terminator, and so its strlen a length.
  unfoldable pub encode_text : Encoder → Option (List ℕ) → Encoder
  encode_text e str = encode_text_len e str (length (or_empty str))

  unfoldable pub encode_array : Encoder → ℕ → Encoder
  encode_array e count = encode_type_arg e CborType.array count

  unfoldable pub encode_map : Encoder → ℕ → Encoder
  encode_map e count = encode_type_arg e CborType.map count

  unfoldable pub encode_bool : Encoder → Bool → Encoder
  encode_bool e val = write_byte e (0xf4 + (if val then 1 else 0))

  unfoldable pub encode_null : Encoder → Encoder
  encode_null e = write_byte e 0xf6

  unfoldable pub encode_raw : Encoder → List ℕ → Encoder
  encode_raw e bs = write_bytes e bs
