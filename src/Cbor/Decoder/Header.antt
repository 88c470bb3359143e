-- ===== src/Cbor/Decoder/Header.antt =====
-- The decoder in front of a header: the first byte, then the argument behind it.
use mutineer.Prelude.{
  ℕ, zero, suc, ◌+◌, ◌*◌, ◌/◌, ◌%◌, ◌^◌, ◌<◌, ◌≡◌, refl, ◌∙◌, ap, sym, subst, false, List, [], ◌∷◌,
  ◌++◌, length, arith, ltb, Bool-cases, inl, inr, if◌then◌else◌,
}
use mutineer.Cbor.Words.{CborType, type_code, size_mod, header, be2, be4, be8}
use mutineer.Cbor.Decoder.Ahead.{
  Ahead, Ahead-prefix, Ahead-next, advance, advance-advance, advance_zero, read_byte-Ahead,
}
use mutineer.Cbor.Decoder.{Decoder, read_byte, shift_in, decode_arg}

-- The value of big-endian bytes behind a value that is read so far.
unfoldable pub be_value : ℕ → List ℕ → ℕ
be_value v [] = v
be_value v (b ∷ bs) = be_value ((v * 256 + b) % size_mod) bs

abbrev shift_in_times : ℕ → ℕ × Decoder → ℕ × Decoder
shift_in_times zero p = p
shift_in_times (suc n) p = shift_in_times n (shift_in p)

shift_in-Ahead :
    {d : Decoder} (v b : ℕ) (bs : List ℕ)
    → Ahead d (b ∷ bs)
    → shift_in (v, d) ≡ ((v * 256 + b) % size_mod, advance d 1)
unfolding shift_in
shift_in-Ahead v b bs a = rw (read_byte-Ahead b bs a, shift_in)

shift_in_times-Ahead :
    (bs : List ℕ) {d : Decoder} (v : ℕ)
    → Ahead d bs
    → shift_in_times (length bs) (v, d) ≡ (be_value v bs, advance d (length bs))
unfolding be_value
shift_in_times-Ahead [] {d} v a = ap (λ (r : Decoder). (v, r)) (sym (advance_zero d))
shift_in_times-Ahead (b ∷ bs) {d} v a =
    ap (shift_in_times (length bs)) (shift_in-Ahead v b bs a)
    ∙ shift_in_times-Ahead bs _ (Ahead-next b bs a)
    ∙ ap (λ (r : Decoder). (be_value v (b ∷ bs), r))
        (advance-advance d 1 (length bs) _ (omega arith))

-- A header taken apart: the low five bits of its first byte, and the bytes behind that.
info : ℕ → ℕ
info a =
    if ltb a 24
    then a
    else if ltb a (2 ^ 8)
    then 24
    else if ltb a (2 ^ 16)
    then 25
    else if ltb a (2 ^ 32)
    then 26
    else 27

arg_tail : ℕ → List ℕ
arg_tail a =
    if ltb a 24
    then []
    else if ltb a (2 ^ 8)
    then a ∷ []
    else if ltb a (2 ^ 16)
    then be2 a
    else if ltb a (2 ^ 32)
    then be4 a
    else be8 a

header_split : (t : CborType) (a : ℕ) → header t a ≡ (type_code t * 32 + info a) ∷ arg_tail a
unfolding header info arg_tail
header_split t a = ground arith

info-lt : (a : ℕ) → info a < 28
unfolding info
info-lt a = ground arith

first_byte :
    (t : CborType) (a : ℕ)
    → ((type_code t * 32 + info a) / 32 ≡ type_code t) × ((type_code t * 32 + info a) % 32 ≡ info a)
first_byte t a = omega (arith, info-lt a)

-- A first byte and more behind it, as the larger arguments are read.
read_be :
    {d : Decoder} (b : ℕ) (bs : List ℕ)
    → Ahead d (b ∷ bs)
    → shift_in_times (length bs) (read_byte d) ≡ (be_value b bs, advance d (length (b ∷ bs)))
read_be {d} b bs a =
    ap (shift_in_times (length bs)) (read_byte-Ahead b bs a)
    ∙ shift_in_times-Ahead bs b (Ahead-next b bs a)
    ∙ ap (λ (r : Decoder). (be_value b bs, r)) (advance-advance d 1 (length bs) _ (omega arith))

module _ {d : Decoder} (a : ℕ) where
  decode_arg1 : Ahead d (a ∷ []) → decode_arg d 24 ≡ (a, advance d 1)
  unfolding decode_arg
  decode_arg1 h = read_byte-Ahead a [] h

  decode_arg2 : a < 2 ^ 16 → Ahead d (be2 a) → decode_arg d 25 ≡ (a, advance d 2)
  unfolding decode_arg be_value
  decode_arg2 s h = read_be _ _ h ∙ ap (λ (v : ℕ). (v, advance d 2)) (omega arith)

  decode_arg4 : a < 2 ^ 32 → Ahead d (be4 a) → decode_arg d 26 ≡ (a, advance d 4)
  unfolding decode_arg be_value
  decode_arg4 s h = read_be _ _ h ∙ ap (λ (v : ℕ). (v, advance d 4)) (omega arith)

  decode_arg8 : a < size_mod → Ahead d (be8 a) → decode_arg d 27 ≡ (a, advance d 8)
  unfolding decode_arg be_value
  decode_arg8 s h = read_be _ _ h ∙ ap (λ (v : ℕ). (v, advance d 8)) (omega arith)

decode_arg0 : (d : Decoder) (a : ℕ) → a < 24 → decode_arg d a ≡ (a, advance d 0)
unfolding decode_arg
decode_arg0 d a s = ground arith

-- The five sizes of an argument.
data Sized (a : ℕ) : Type 0 where
  direct : info a ≡ a → arg_tail a ≡ [] → a < 24 → Sized a
  one : info a ≡ 24 → arg_tail a ≡ a ∷ [] → Sized a
  two : info a ≡ 25 → arg_tail a ≡ be2 a → a < 2 ^ 16 → Sized a
  four : info a ≡ 26 → arg_tail a ≡ be4 a → a < 2 ^ 32 → Sized a
  eight : info a ≡ 27 → arg_tail a ≡ be8 a → Sized a

sized : (a : ℕ) → Sized a
unfolding info arg_tail
sized a = elim (Bool-cases (ltb a 24)) [
  | inl q ↦ direct (rw q) (rw q) (ground arith)
  | inr q ↦ elim (Bool-cases (ltb a (2 ^ 8))) [
    | inl q' ↦ one (rw (q, q')) (rw (q, q'))
    | inr q' ↦ elim (Bool-cases (ltb a (2 ^ 16))) [
      | inl r ↦ two (rw (q, q', r)) (rw (q, q', r)) (ground arith)
      | inr r ↦ elim (Bool-cases (ltb a (2 ^ 32))) [
        | inl r' ↦ four (rw (q, q', r, r')) (rw (q, q', r, r')) (ground arith)
        | inr r' ↦ eight (rw (q, q', r, r')) (rw (q, q', r, r'))
      ]
    ]
  ]
]

-- `decode_arg` reads back the argument of a header.
decode_arg-Ahead :
    {d : Decoder} (a : ℕ)
    → a < size_mod
    → Ahead d (arg_tail a)
    → decode_arg d (info a) ≡ (a, advance d (length (arg_tail a)))
decode_arg-Ahead {d} a s h = elim (sized a) [
  | direct e f q ↦ rw (e, f) (decode_arg0 d a q)
  | one e f ↦ rw (e, f) (decode_arg1 a (subst (Ahead d) f h))
  | two e f q ↦ rw (e, f) (decode_arg2 a q (subst (Ahead d) f h))
  | four e f q ↦ rw (e, f) (decode_arg4 a q (subst (Ahead d) f h))
  | eight e f ↦ rw (e, f) (decode_arg8 a s (subst (Ahead d) f h))
]

-- The first byte of a header, and where its argument stands.
pub record Headed (d : Decoder) (t : CborType) (a : ℕ) : Type 0 where
  pub byte : ℕ
  pub next : Decoder
  pub read : read_byte d ≡ (byte, next)
  pub type_is : byte / 32 ≡ type_code t
  pub arg_is : decode_arg next (byte % 32) ≡ (a, advance d (length (header t a)))
  pub good : next.error ≡ false

pub header-Headed :
    {d : Decoder} (t : CborType) (a : ℕ) (bs : List ℕ)
    → a < size_mod
    → Ahead d (header t a ++ bs)
    → Headed d t a
header-Headed {d} t a bs s h = record {
  byte = type_code t * 32 + info a;
  next = advance d 1;
  read = read_byte-Ahead _ (arg_tail a) front;
  type_is = (first_byte t a).0;
  arg_is = rw (first_byte t a).1 (
      decode_arg-Ahead a s (Ahead-next _ _ front)
      ∙ ap (λ (r : Decoder). (a, r))
          (advance-advance d 1 (length (arg_tail a)) _
            (omega (arith, ap length (header_split t a)))));
  good = h.good;
}
  where
    front : Ahead d ((type_code t * 32 + info a) ∷ arg_tail a)
    front = subst (Ahead d) (header_split t a) (Ahead-prefix (header t a) bs h)

-- The bytes behind a first byte of 24 to 27: one, two, four or eight.
pub data Width : Type 0 where
  one_byte half single double : Width

abbrev pub width_info : Width → ℕ
width_info one_byte = 24
width_info half = 25
width_info single = 26
width_info double = 27

-- Those behind the first of them.
abbrev pub bytes_behind : Width → ℕ
bytes_behind one_byte = 0
bytes_behind half = 1
bytes_behind single = 3
bytes_behind double = 7

wide_shifts :
    (k : Width) (d : Decoder)
    → decode_arg d (width_info k) ≡ shift_in_times (bytes_behind k) (read_byte d)
unfolding decode_arg
wide_shifts one_byte d = refl
wide_shifts half d = refl
wide_shifts single d = refl
wide_shifts double d = refl

pub decode_arg-wide :
    {d : Decoder} (k : Width) (b : ℕ) (bs : List ℕ)
    → length bs ≡ bytes_behind k
    → Ahead d (b ∷ bs)
    → decode_arg d (width_info k) ≡ (be_value b bs, advance d (length (b ∷ bs)))
decode_arg-wide {d} k b bs e h =
    wide_shifts k d ∙ ap (λ n. shift_in_times n (read_byte d)) (sym e) ∙ read_be b bs h
