-- ===== src/Cbor/Decoder/Ahead.antt =====
-- A decoder in front of known bytes.
use Prim.Native.Nat.add
use mutineer.Prelude.{
  ℕ, zero, suc, ◌+◌, ◌≤◌, ◌<◌, ◌≡◌, refl, ◌∙◌, ap, false, List, [], ◌∷◌, ◌++◌, append_assoc, length,
  length-append, arith, take, drop, get_or,
}
use mutineer.Cbor.Words.{object_max}
use mutineer.Cbor.Decoder.{Decoder, read_byte}

module _ {ℓ} {A : Type ℓ} where
  nil_right : (xs ys : List A) → [] ≡ xs ++ ys → [] ≡ ys
  nil_right [] ys h = h
  nil_right (x ∷ xs) ys h = cc

  pub drop_append : (n : ℕ) (l xs ys : List A) → drop n l ≡ xs ++ ys → drop (n + length xs) l ≡ ys
  drop_append zero l xs ys h = rw add.zero (drop_prefix xs l h)
    where
      drop_prefix : (xs l : List A) → l ≡ xs ++ ys → drop (length xs) l ≡ ys
      drop_prefix [] l h = h
      drop_prefix (x ∷ xs) l h = rw h (drop_same xs)
        where
          drop_same : (xs : List A) → drop (length xs) (xs ++ ys) ≡ ys
          drop_same [] = refl
          drop_same (x ∷ xs) = drop_same xs
  drop_append (suc n) [] xs ys h = rw add.suc (nil_right xs ys h)
  drop_append (suc n) (y ∷ l) xs ys h = rw add.suc (drop_append n l xs ys h)

  pub get_or-drop :
      (n : ℕ) (l : List A) (b d : A) (t : List A) → drop n l ≡ b ∷ t → get_or l n d ≡ b
  get_or-drop zero [] b d t h = cc
  get_or-drop zero (x ∷ l) b d t h = cc
  get_or-drop (suc n) [] b d t h = cc
  get_or-drop (suc n) (x ∷ l) b d t h = get_or-drop n l b d t h

  pub take_prefix : (xs ys : List A) → take (length xs) (xs ++ ys) ≡ xs
  take_prefix [] ys = refl
  take_prefix (x ∷ xs) ys = ap (◌∷◌ x) (take_prefix xs ys)

-- `bs` are the next bytes, and lie within the length that the decoder was given.
pub record Ahead (d : Decoder) (bs : List ℕ) : Type 0 where
  pub good : d.error ≡ false
  pub room : d.at + length bs ≤ d.len
  pub small : d.len < object_max
  pub rest : List ℕ
  pub splits : drop d.at d.buf ≡ bs ++ rest

abbrev pub advance : Decoder → ℕ → Decoder
advance d n = record d { at = d.at + n }

pub advance_zero : (d : Decoder) → advance d 0 ≡ d
advance_zero d = ground arith

pub advance-advance : (d : Decoder) (m n k : ℕ) → m + n ≡ k → advance (advance d m) n ≡ advance d k
advance-advance d m n k e = ground arith

pub Ahead-append :
    {d : Decoder} (xs ys : List ℕ) → Ahead d (xs ++ ys) → Ahead (advance d (length xs)) ys
Ahead-append {d} xs ys a = record {
  good = a.good;
  room = omega (arith, a.room, length-append xs ys);
  small = a.small;
  rest = a.rest;
  splits = drop_append d.at d.buf xs (ys ++ a.rest) (a.splits ∙ append_assoc xs ys a.rest);
}

pub Ahead-prefix : {d : Decoder} (xs ys : List ℕ) → Ahead d (xs ++ ys) → Ahead d xs
Ahead-prefix {d} xs ys a = record {
  good = a.good;
  room = omega (arith, a.room, length-append xs ys);
  small = a.small;
  rest = ys ++ a.rest;
  splits = a.splits ∙ append_assoc xs ys a.rest;
}

pub Ahead-next : {d : Decoder} (b : ℕ) (bs : List ℕ) → Ahead d (b ∷ bs) → Ahead (advance d 1) bs
Ahead-next b bs a = Ahead-append (b ∷ []) bs a

pub read_byte-Ahead :
    {d : Decoder} (b : ℕ) (bs : List ℕ) → Ahead d (b ∷ bs) → read_byte d ≡ (b, advance d 1)
unfolding read_byte
read_byte-Ahead {d} b bs a =
    ground (arith, a.good, a.room, get_or-drop d.at d.buf b 0 (bs ++ a.rest) a.splits)
