-- ===== src/Cbor/Encoder/Calls.antt =====
-- The encoder seen as a whole: a caller makes a sequence of calls, and gets their canonical bytes
-- or an error.
use mutineer.Prelude.{ℕ, ◌<◌, ◌≡◌, Bool, true, false, some, List, [], ◌∷◌, ◌++◌, length, arith}
use mutineer.Cbor.Words.{CborType, object_max, header, ℤ, pos, negsuc}
use mutineer.Cbor.Encoder.{
  Encoder, init, init_dynamic, encode_uint, encode_negint, encode_int, encode_bytes, encode_text,
  encode_array, encode_map, encode_bool, encode_null, encode_raw,
}
use mutineer.Cbor.Encoder.Appends.{
  IsReady, Appends, ◌then_also◌, none-Appends, encode_type_arg-Appends, encode_bytes-Appends,
  encode_text-Appends, write_byte-Appends, write_bytes-Appends,
}

pub data Call : Type 0 where
  put_uint put_negint put_array put_map : ℕ → Call
  put_int : ℤ → Call
  put_bytes put_text put_raw : List ℕ → Call
  put_bool : Bool → Call
  put_null : Call

-- What RFC 8949 prescribes for each call.
unfoldable pub call_bytes : Call → List ℕ
call_bytes (put_uint n) = header CborType.uint n
call_bytes (put_negint n) = header CborType.negint n
call_bytes (put_array n) = header CborType.array n
call_bytes (put_map n) = header CborType.map n
call_bytes (put_int (pos n)) = header CborType.uint n
call_bytes (put_int (negsuc n)) = header CborType.negint n
call_bytes (put_bytes bs) = header CborType.bytes (length bs) ++ bs
call_bytes (put_text bs) = header CborType.text (length bs) ++ bs
call_bytes (put_raw bs) = bs
call_bytes (put_bool false) = 0xf4 ∷ []
call_bytes (put_bool true) = 0xf5 ∷ []
call_bytes put_null = 0xf6 ∷ []

-- A piece that the caller hands over lies in memory.
abbrev pub InMemory : Call → Type 0
InMemory (put_bytes bs) = length bs < object_max
InMemory (put_text bs) = length bs < object_max
InMemory (put_raw bs) = length bs < object_max
InMemory _ = Unit {0}

abbrev pub AllInMemory : List Call → Type 0
AllInMemory [] = Unit {0}
AllInMemory (c ∷ cs) = InMemory c × AllInMemory cs

unfoldable pub calls_bytes : List Call → List ℕ
calls_bytes [] = []
calls_bytes (c ∷ cs) = call_bytes c ++ calls_bytes cs

pub init-IsReady : (cap : ℕ) → cap < object_max → IsReady (init (some []) cap)
unfolding init
init-IsReady cap s = ground arith

module _ (allocates : ℕ → Bool) where
  unfoldable pub make : Encoder → Call → Encoder
  make e (put_uint n) = encode_uint allocates e n
  make e (put_negint n) = encode_negint allocates e n
  make e (put_array n) = encode_array allocates e n
  make e (put_map n) = encode_map allocates e n
  make e (put_int n) = encode_int allocates e n
  make e (put_bytes bs) = encode_bytes allocates e (some bs) (length bs)
  make e (put_text bs) = encode_text allocates e (some bs)
  make e (put_raw bs) = encode_raw allocates e bs
  make e (put_bool b) = encode_bool allocates e b
  make e put_null = encode_null allocates e

  unfoldable pub make_all : Encoder → List Call → Encoder
  make_all e [] = e
  make_all e (c ∷ cs) = make_all (make e c) cs

  make-Appends :
      (e : Encoder) (c : Call) → InMemory c → IsReady e → Appends e (call_bytes c) (make e c)
  unfolding make call_bytes encode_uint encode_negint encode_array encode_map encode_int encode_raw
      encode_bool encode_null
  make-Appends e (put_uint n) s r = encode_type_arg-Appends allocates e CborType.uint n r
  make-Appends e (put_negint n) s r = encode_type_arg-Appends allocates e CborType.negint n r
  make-Appends e (put_array n) s r = encode_type_arg-Appends allocates e CborType.array n r
  make-Appends e (put_map n) s r = encode_type_arg-Appends allocates e CborType.map n r
  make-Appends e (put_int (pos n)) s r = encode_type_arg-Appends allocates e CborType.uint n r
  make-Appends e (put_int (negsuc n)) s r = encode_type_arg-Appends allocates e CborType.negint n r
  make-Appends e (put_bytes bs) s r = encode_bytes-Appends allocates e bs s r
  make-Appends e (put_text bs) s r = encode_text-Appends allocates e bs s r
  make-Appends e (put_raw bs) s r = write_bytes-Appends allocates e bs s r
  make-Appends e (put_bool false) s r = write_byte-Appends allocates e 0xf4 r
  make-Appends e (put_bool true) s r = write_byte-Appends allocates e 0xf5 r
  make-Appends e put_null s r = write_byte-Appends allocates e 0xf6 r

  pub encode_map-Appends :
      (e : Encoder) (n : ℕ)
      → IsReady e
      → Appends e (header CborType.map n) (encode_map allocates e n)
  unfolding encode_map
  encode_map-Appends e n r = encode_type_arg-Appends allocates e CborType.map n r

  -- Any sequence of encoder calls with pieces that lie in memory, on an encoder that has a
  -- buffer: if all the bytes prescribed for the calls fit, exactly they are appended; if they do
  -- not fit, the error is set; an encoder in error is left alone; and no write leaves the buffer.
  pub make_all-Appends :
      (cs : List Call) (e : Encoder)
      → AllInMemory cs
      → IsReady e
      → Appends e (calls_bytes cs) (make_all e cs)
  unfolding make_all calls_bytes
  make_all-Appends [] e s r = none-Appends e r
  make_all-Appends (c ∷ cs) e s r =
      let first = make-Appends e c s.0 r in first then_also make_all-Appends cs _ s.1 first.ready

  pub init_dynamic-IsReady :
      (initial_cap : ℕ)
      → allocates (init_dynamic allocates initial_cap).cap ≡ true
      → initial_cap < object_max
      → IsReady (init_dynamic allocates initial_cap)
  unfolding init_dynamic
  init_dynamic-IsReady n a s = ground arith

  -- An encoder of `cbor_encoder_init_dynamic` never grows: whatever the allocator would grant,
  -- calls whose bytes exceed the initial capacity (at least 64) leave it in error.
  pub init_dynamic_never_grows :
      (initial_cap : ℕ) (cs : List Call)
      → allocates (init_dynamic allocates initial_cap).cap ≡ true
      → initial_cap < object_max
      → AllInMemory cs
      → (init_dynamic allocates initial_cap).cap < length (calls_bytes cs)
      → (make_all (init_dynamic allocates initial_cap) cs).error ≡ true
  init_dynamic_never_grows initial_cap cs a small s over =
      (make_all-Appends cs _ s (init_dynamic-IsReady initial_cap a small)).full
        (unfold init_dynamic in ground arith) (unfold init_dynamic in ground arith)
