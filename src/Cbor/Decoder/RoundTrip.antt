-- ===== src/Cbor/Decoder/RoundTrip.antt =====
-- Whatever the encoder wrote for a sequence of calls, the decoder's functions read back.
use mutineer.Prelude.{
  ℕ, ◌+◌, ◌≤◌, ◌<◌, ◌≡◌, refl, ◌∙◌, ap, sym, Bool, Bool-cases, inl, inr, true, false, some, List,
  [], ◌∷◌, ◌++◌, append-nil, length, length-append, arith, ltb, take, drop,
}
use mutineer.Cbor.Words.{CborType, type_code, object_max, size_mod, header, pos, negsuc, InInt64}
use mutineer.Cbor.Encoder
use mutineer.Cbor.Encoder.{Encoder, or_empty, is_null}
use mutineer.Cbor.Encoder.Appends.{Appends}
use mutineer.Cbor.Encoder.Calls.{
  Call, put_uint, put_negint, put_array, put_map, put_int, put_bytes, put_text, put_raw, put_bool,
  put_null, call_bytes, calls_bytes, make_all, AllInMemory, make_all-Appends, init-IsReady,
}
use mutineer.Cbor.Decoder.Ahead.{
  Ahead, Ahead-append, Ahead-prefix, advance, advance-advance, read_byte-Ahead, take_prefix,
}
use mutineer.Cbor.Decoder.Header.{Headed, header-Headed}
use mutineer.Cbor.Decoder.{
  Decoder, init, read_byte, decode_head, take_slice, Slice, slice_bytes, decode_uint, decode_array,
  decode_map, decode_int, decode_bytes, decode_text, decode_bool,
}

-- A `uint64_t`, an `int64_t` or the size of an object in memory.
abbrev pub InRange : Call → Type 0
InRange (put_uint n) = n < size_mod
InRange (put_negint n) = n < object_max
InRange (put_array n) = n < size_mod
InRange (put_map n) = n < size_mod
InRange (put_int z) = InInt64 z
InRange (put_bytes bs) = length bs < object_max
InRange (put_text bs) = length bs < object_max
InRange (put_raw bs) = length bs < object_max
InRange _ = Unit {0}

abbrev pub AllInRange : List Call → Type 0
AllInRange [] = Unit {0}
AllInRange (c ∷ cs) = InRange c × AllInRange cs

-- From `d` the decoder's function for a call returns what the call wrote, and ends in `d'`.
abbrev pub Reads : Call → Decoder → Decoder → Type 0
Reads (put_uint n) d d' = decode_uint d ≡ (n, d')
Reads (put_negint n) d d' = decode_int d ≡ (negsuc n, d')
Reads (put_array n) d d' = decode_array d ≡ (n, d')
Reads (put_map n) d d' = decode_map d ≡ (n, d')
Reads (put_int z) d d' = decode_int d ≡ (z, d')
Reads (put_bytes bs) d d' = (s : Slice) × (decode_bytes d ≡ (some s, d')) × (slice_bytes d' s ≡ bs)
Reads (put_text bs) d d' = (s : Slice) × (decode_text d ≡ (some s, d')) × (slice_bytes d' s ≡ bs)
Reads (put_bool b) d d' = decode_bool d ≡ (b, d')
Reads (put_raw bs) d d' = take (length bs) (drop d.at d.buf) ≡ bs
Reads put_null d d' = read_byte d ≡ (0xf6, d')

abbrev pub ReadsAll : List Call → Decoder → Type 0
ReadsAll [] d = Unit {0}
ReadsAll (c ∷ cs) d =
    Reads c d (advance d (length (call_bytes c))) × ReadsAll cs (advance d (length (call_bytes c)))

pub decode_head-Headed :
    {d : Decoder} (t : CborType) (a : ℕ)
    → Headed d t a
    → decode_head t d ≡ (a, advance d (length (header t a)))
unfolding decode_head
decode_head-Headed t a h = rw (h.read, decode_head) (ground (arith, h.type_is, h.arg_is, h.good))

decode_int-pos :
    {d : Decoder} (n : ℕ)
    → n < object_max
    → Headed d CborType.uint n
    → decode_int d ≡ (pos n, advance d (length (header CborType.uint n)))
unfolding decode_int type_code
decode_int-pos n s h = rw (h.read, decode_int) (ground (arith, h.type_is, h.arg_is, h.good))

decode_int-negsuc :
    {d : Decoder} (n : ℕ)
    → n < object_max
    → Headed d CborType.negint n
    → decode_int d ≡ (negsuc n, advance d (length (header CborType.negint n)))
unfolding decode_int type_code
decode_int-negsuc n s h = rw (h.read, decode_int) (ground (arith, h.type_is, h.arg_is, h.good))

pub take_slice-Ahead :
    {d : Decoder} (bs : List ℕ)
    → Ahead d bs
    → take_slice (length bs, d)
      ≡ (some (record { start = d.at; size = length bs }), advance d (length bs))
unfolding take_slice
take_slice-Ahead bs a = ground (arith, a.good, a.room, a.small)

-- A payload behind its header, as `decode_bytes` and `decode_text` find it.
abbrev pub payload_slice : Decoder → CborType → List ℕ → Slice
payload_slice d t bs = record { start = d.at + length (header t (length bs)); size = length bs }

module _ {d : Decoder} (t : CborType) (bs : List ℕ) (a : Ahead d (header t (length bs) ++ bs)) where
  size_in_word : length bs < size_mod
  size_in_word = omega (arith, a.room, a.small, length-append (header t (length bs)) bs)

  pub take_slice-payload :
      take_slice (decode_head t d)
      ≡ (some (payload_slice d t bs), advance d (length (header t (length bs) ++ bs)))
  take_slice-payload =
      let h = header t (length bs) in
      ap take_slice (decode_head-Headed t _ (header-Headed t _ bs size_in_word a))
      ∙ take_slice-Ahead bs (Ahead-append h bs a)
      ∙ ap (λ (r : Decoder). (some (payload_slice d t bs), r))
          (advance-advance d (length h) (length bs) _ (omega (arith, length-append h bs)))

  pub slice_bytes-payload : slice_bytes d (payload_slice d t bs) ≡ bs
  slice_bytes-payload =
      ap (take (length bs)) (Ahead-append (header t (length bs)) bs a).splits ∙ take_prefix bs _

  payload :
      (s : Slice) × (take_slice (decode_head t d)
        ≡ (some s, advance d (length (header t (length bs) ++ bs))))
      × (slice_bytes d s ≡ bs)
  payload = (payload_slice d t bs, take_slice-payload, slice_bytes-payload)

call-Reads :
    {d : Decoder} (c : Call)
    → InRange c
    → Ahead d (call_bytes c)
    → Reads c d (advance d (length (call_bytes c)))
unfolding call_bytes decode_uint decode_array decode_map decode_bytes decode_text decode_bool
call-Reads {d} (put_uint n) s a =
    decode_head-Headed _ n (header-Headed CborType.uint n [] s (rw append-nil a))
call-Reads {d} (put_array n) s a =
    decode_head-Headed _ n (header-Headed CborType.array n [] s (rw append-nil a))
call-Reads {d} (put_map n) s a =
    decode_head-Headed _ n (header-Headed CborType.map n [] s (rw append-nil a))
call-Reads {d} (put_negint n) s a =
    decode_int-negsuc n s (header-Headed CborType.negint n [] (omega arith) (rw append-nil a))
call-Reads {d} (put_int (pos n)) s a =
    decode_int-pos n s (header-Headed CborType.uint n [] (omega arith) (rw append-nil a))
call-Reads {d} (put_int (negsuc n)) s a =
    decode_int-negsuc n s (header-Headed CborType.negint n [] (omega arith) (rw append-nil a))
call-Reads {d} (put_bytes bs) s a = payload CborType.bytes bs a
call-Reads {d} (put_text bs) s a = payload CborType.text bs a
call-Reads {d} (put_raw bs) s a = ap (take (length bs)) a.splits ∙ take_prefix bs a.rest
call-Reads {d} (put_bool false) s a = rw (read_byte-Ahead _ [] a) (ground (arith, a.good))
call-Reads {d} (put_bool true) s a = rw (read_byte-Ahead _ [] a) (ground (arith, a.good))
call-Reads {d} put_null s a = read_byte-Ahead _ [] a

calls-ReadsAll :
    (d : Decoder) (cs : List Call) → AllInRange cs → Ahead d (calls_bytes cs) → ReadsAll cs d
unfolding calls_bytes
calls-ReadsAll d [] s a = tt
calls-ReadsAll d (c ∷ cs) s a = (
  call-Reads c s.0 (Ahead-prefix _ _ a),
  calls-ReadsAll (advance d (length (call_bytes c))) cs s.1
      (Ahead-append (call_bytes c) (calls_bytes cs) a),
)

InRange-InMemory : (cs : List Call) → AllInRange cs → AllInMemory cs
InRange-InMemory [] s = tt
InRange-InMemory (put_bytes bs ∷ cs) s = (s.0, InRange-InMemory cs s.1)
InRange-InMemory (put_text bs ∷ cs) s = (s.0, InRange-InMemory cs s.1)
InRange-InMemory (put_raw bs ∷ cs) s = (s.0, InRange-InMemory cs s.1)
InRange-InMemory (_ ∷ cs) s = (tt, InRange-InMemory cs s.1)

-- Of calls that pass cbor_encode_negint numbers below 2^63 (those that an int64_t can give back) and
-- strings shorter than 2^63 bytes, whatever sequence an encoder with a buffer below 2^63 bytes
-- accepts without an error, the decoder reads back value by value: numbers, signed numbers, counts,
-- Booleans, byte strings and texts.
pub decode-encode :
    (allocates : ℕ → Bool) (cap : ℕ) (cs : List Call)
    → cap < object_max
    → AllInRange cs
    → (make_all allocates (Encoder.init (some []) cap) cs).error ≡ false
    → let e = make_all allocates (Encoder.init (some []) cap) cs in
      (e.len ≡ length (calls_bytes cs)) × ReadsAll cs (init (or_empty e.buf) e.len)
unfolding init Encoder.init
decode-encode allocates cap cs small s ok = rw same (omega arith, calls-ReadsAll _ cs s ahead)
  where
    wrote :
        Appends
          (Encoder.init (some []) cap)
          (calls_bytes cs)
          (make_all allocates (Encoder.init (some []) cap) cs)
    wrote = make_all-Appends allocates cs _ (InRange-InMemory cs s) (init-IsReady cap small)

    within : length (calls_bytes cs) ≤ cap
    within = elim (Bool-cases (ltb cap (length (calls_bytes cs)))) [
      | inl over ↦ cc (ok, wrote.full refl (ground arith))
      | inr fits ↦ ground arith
    ]

    same : make_all allocates (Encoder.init (some []) cap) cs ≡ record {
      buf = some (calls_bytes cs);
      cap = cap;
      len = 0 + length (calls_bytes cs);
      error = false;
      fault = false;
    }
    same = wrote.fits refl (omega (arith, within))

    ahead : Ahead (init (calls_bytes cs) (0 + length (calls_bytes cs))) (calls_bytes cs)
    ahead = record {
      good = refl;
      room = omega arith;
      small = omega (arith, within);
      rest = [];
      splits = sym (append-nil (calls_bytes cs));
    }
