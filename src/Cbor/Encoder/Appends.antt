-- ===== src/Cbor/Encoder/Appends.antt =====
-- What a sequence of writes does to an encoder with a buffer.
use mutineer.Prelude.{
  ℕ, ◌+◌, ◌≤◌, ◌<◌, ◌≡◌, refl, ◌∙◌, ap, Bool, true, false, Option, none, some, List, [], ◌∷◌, ◌++◌,
  append_assoc, append-nil, length, length-append, arith, ltb, Bool-cases, lt→ltb, inl, inr, take,
}
use mutineer.Cbor.Words.{CborType, type_code-lt, object_max, header}
use mutineer.Cbor.Encoder.{
  Encoder, or_empty, is_null, write_bytes, write_byte, write_from, encode_type_arg, encode_bytes,
  encode_text, encode_text_len,
}

-- The buffer is there, holds `len` bytes, and is an object in memory.
pub record IsReady (e : Encoder) : Type 0 where
  pub there : is_null e.buf ≡ false
  pub counted : e.len ≡ length (or_empty e.buf)
  pub within : e.len ≤ e.cap
  pub small : e.cap < object_max
  pub sound : e.fault ≡ false

some-or_empty : (o : Option (List ℕ)) → is_null o ≡ false → o ≡ some (or_empty o)
some-or_empty none h = cc
some-or_empty (some bs) h = refl

abbrev pub appended : Encoder → List ℕ → Encoder
appended e xs = record e { buf = some (or_empty e.buf ++ xs); len = e.len + length xs }

-- From `e` to `e'` the bytes `xs` are appended if they fit, and otherwise the error is set; an
-- encoder in error stays as it is.
pub record Appends (e : Encoder) (xs : List ℕ) (e' : Encoder) : Type 0 where
  pub fits : e.error ≡ false → e.len + length xs ≤ e.cap → e' ≡ appended e xs
  pub full : e.error ≡ false → e.cap < e.len + length xs → e'.error ≡ true
  pub failed : e.error ≡ true → e' ≡ e
  pub ready : IsReady e'

appended-IsReady :
    {e : Encoder} (xs : List ℕ) → IsReady e → e.len + length xs ≤ e.cap → IsReady (appended e xs)
appended-IsReady {e} xs r h = record {
  there = refl;
  counted = omega (arith, length-append (or_empty e.buf) xs, r.counted);
  within = h;
  small = r.small;
  sound = r.sound;
}

marked : {e : Encoder} → IsReady e → IsReady (record e { error = true })
marked r = record {
  there = r.there;
  counted = r.counted;
  within = r.within;
  small = r.small;
  sound = r.sound;
}

appended-appended :
    (e : Encoder) (xs ys : List ℕ) → appended (appended e xs) ys ≡ appended e (xs ++ ys)
appended-appended e xs ys = ground (arith, append_assoc (or_empty e.buf) xs ys, length-append xs ys)

pub none-Appends : (e : Encoder) → IsReady e → Appends e [] e
none-Appends e r = record {
  fits = λ h f. ground (arith, append-nil (or_empty e.buf), some-or_empty e.buf r.there);
  full = λ h f. absurd (omega (arith, r.within));
  failed = λ h. refl;
  ready = r;
}

infixl 5 ◌then_also◌
pub ◌then_also◌ :
    {e e' e'' : Encoder} {xs ys : List ℕ}
    → Appends e xs e'
    → Appends e' ys e''
    → Appends e (xs ++ ys) e''
◌then_also◌ {e} {e'} {e''} {xs} {ys} a b = record {
  fits = both_fit;
  full = overflow;
  failed = λ h. b.failed (ap (λ (r : Encoder). r.error) (a.failed h) ∙ h) ∙ a.failed h;
  ready = b.ready;
}
  where
    both_fit : e.error ≡ false → e.len + length (xs ++ ys) ≤ e.cap → e'' ≡ appended e (xs ++ ys)
    both_fit h f =
        let here = a.fits h (omega (arith, length-append xs ys)) in
        b.fits (ap (λ (r : Encoder). r.error) here ∙ h)
          (rw here (omega (arith, length-append xs ys)))
        ∙ ap (λ (r : Encoder). appended r ys) here
        ∙ appended-appended e xs ys

    overflow : e.error ≡ false → e.cap < e.len + length (xs ++ ys) → e''.error ≡ true
    overflow h f = elim (Bool-cases (ltb e.cap (e.len + length xs))) [
      | inl early ↦
          let bad = a.full h (ground arith) in ap (λ (r : Encoder). r.error) (b.failed bad) ∙ bad
      | inr late ↦
          let here = a.fits h (ground arith) in
          b.full (ap (λ (r : Encoder). r.error) here ∙ h)
            (rw here (omega (arith, length-append xs ys)))
    ]

module _ (allocates : ℕ → Bool) where
  write_bytes-fits :
      (e : Encoder) (xs : List ℕ)
      → IsReady e
      → e.error ≡ false
      → e.len + length xs ≤ e.cap
      → write_bytes allocates e xs ≡ appended e xs
  unfolding write_bytes
  write_bytes-fits e xs r h f = ground (arith, r.there, r.small)

  write_bytes-full :
      (e : Encoder) (xs : List ℕ)
      → IsReady e
      → length xs < object_max
      → e.error ≡ false
      → e.cap < e.len + length xs
      → write_bytes allocates e xs ≡ record e { error = true }
  unfolding write_bytes
  write_bytes-full e xs r s h f = ground (arith, r.there, r.small, r.within)

  write_bytes-failed : (e : Encoder) (xs : List ℕ) → e.error ≡ true → write_bytes allocates e xs ≡ e
  unfolding write_bytes
  write_bytes-failed e xs h = ground arith

  write_bytes-IsReady :
      (e : Encoder) (xs : List ℕ)
      → length xs < object_max
      → IsReady e
      → IsReady (write_bytes allocates e xs)
  write_bytes-IsReady e xs s r = elim (Bool-cases e.error) [
    | inl bad ↦ rw (write_bytes-failed e xs bad) r
    | inr good ↦ elim (Bool-cases (ltb e.cap (e.len + length xs))) [
      | inl f ↦ rw (write_bytes-full e xs r s good (ground arith)) (marked r)
      | inr h ↦
          rw (write_bytes-fits e xs r good (ground arith)) (appended-IsReady xs r (ground arith))
    ]
  ]

  pub write_bytes-Appends :
      (e : Encoder) (xs : List ℕ)
      → length xs < object_max
      → IsReady e
      → Appends e xs (write_bytes allocates e xs)
  write_bytes-Appends e xs s r = record {
    fits = write_bytes-fits e xs r;
    full = λ h f. rw (write_bytes-full e xs r s h f);
    failed = write_bytes-failed e xs;
    ready = write_bytes-IsReady e xs s r;
  }

  -- The two functions of the source differ only in how the bytes are handed over.
  write_byte-write_bytes :
      (e : Encoder) (b : ℕ) → write_byte allocates e b ≡ write_bytes allocates e (b ∷ [])
  unfolding write_byte write_bytes
  write_byte-write_bytes e b = refl

  pub write_byte-Appends :
      (e : Encoder) (b : ℕ) → IsReady e → Appends e (b ∷ []) (write_byte allocates e b)
  write_byte-Appends e b r =
      rw (write_byte-write_bytes e b) (write_bytes-Appends e (b ∷ []) (omega arith) r)

  writes : Encoder → List ℕ → Encoder
  writes e [] = e
  writes e (b ∷ bs) = writes (write_byte allocates e b) bs

  writes-Appends : (bs : List ℕ) (e : Encoder) → IsReady e → Appends e bs (writes e bs)
  unfolding writes
  writes-Appends [] e r = none-Appends e r
  writes-Appends (b ∷ bs) e r =
      let first = write_byte-Appends e b r in first then_also writes-Appends bs _ first.ready

  encode_type_arg-writes :
      (e : Encoder) (t : CborType) (a : ℕ) → encode_type_arg allocates e t a ≡ writes e (header t a)
  unfolding encode_type_arg writes header
  encode_type_arg-writes e t a = ground (arith, type_code-lt t)

  pub encode_type_arg-Appends :
      (e : Encoder) (t : CborType) (a : ℕ)
      → IsReady e
      → Appends e (header t a) (encode_type_arg allocates e t a)
  encode_type_arg-Appends e t a r =
      rw (encode_type_arg-writes e t a) (writes-Appends (header t a) e r)

-- Everything that the encoder writes with a payload: bytes, texts, raw pieces.
module _ (allocates : ℕ → Bool) where
  take_all : (bs : List ℕ) → take (length bs) bs ≡ bs
  take_all [] = refl
  take_all (b ∷ bs) = ap (◌∷◌ b) (take_all bs)

  write_from-Appends :
      (e : Encoder) (bs : List ℕ)
      → length bs < object_max
      → IsReady e
      → Appends e bs (write_from allocates e (some bs) (length bs))
  unfolding write_from
  write_from-Appends e [] s r = none-Appends e r
  write_from-Appends e (b ∷ bs) s r =
      rw (take_all (b ∷ bs), lt→ltb 0 (length (b ∷ bs)) (omega arith))
        (write_bytes-Appends allocates e (b ∷ bs) s r)

  pub encode_bytes-Appends :
      (e : Encoder) (bs : List ℕ)
      → length bs < object_max
      → IsReady e
      → Appends e
          (header CborType.bytes (length bs) ++ bs)
          (encode_bytes allocates e (some bs) (length bs))
  unfolding encode_bytes
  encode_bytes-Appends e bs s r =
      let h = encode_type_arg-Appends allocates e CborType.bytes (length bs) r in
      h then_also write_from-Appends _ bs s h.ready

  pub encode_text-Appends :
      (e : Encoder) (str : List ℕ)
      → length str < object_max
      → IsReady e
      → Appends e (header CborType.text (length str) ++ str) (encode_text allocates e (some str))
  unfolding encode_text encode_text_len
  encode_text-Appends e str s r =
      let h = encode_type_arg-Appends allocates e CborType.text (length str) r in
      h then_also write_from-Appends _ str s h.ready
