-- ===== src/Cbor/Skip/Keys.antt =====
-- cbor_map_find_key over a well-formed map with text keys.
use mutineer.Prelude.{
  ℕ, suc, ◌+◌, ◌*◌, ◌<◌, ◌≡◌, refl, ◌∙◌, ap, Bool, true, false, ◌↔◌, Option, none, some, List, [],
  ◌∷◌, ◌++◌, inl, inr, length, length-append, arith, ◌==◌, if◌then◌else◌, Bool-cases, subst,
}
use mutineer.Cbor.Words.{CborType, header}
use mutineer.Cbor.Decoder.{Decoder, decode_text}
use mutineer.Cbor.Decoder.Ahead.{Ahead, Ahead-append, Ahead-prefix, advance, advance-advance}
use mutineer.Cbor.Decoder.RoundTrip.{take_slice-payload, slice_bytes-payload}
use mutineer.Cbor.Skip.{skip, find_key_from, map_find_key, same_bytes, ◌>>=◌}
use mutineer.Cbor.Skip.Shapes.{Item, item_bytes, InWord}
use mutineer.Cbor.Skip.Items.{skip-Item}

pub same_bytes_iff : (a b : List ℕ) → (same_bytes a b ≡ true) ↔ (a ≡ b)
same_bytes_iff [] [] = ground arith
same_bytes_iff [] (y ∷ b) = ground arith
same_bytes_iff (x ∷ a) [] = ground arith
same_bytes_iff (x ∷ a) (y ∷ b) = ground (arith, same_bytes_iff a b)

abbrev pub key_bytes : List ℕ → List ℕ
key_bytes k = header CborType.text (length k) ++ k

abbrev pub fields_bytes : List (List ℕ × Item) → List ℕ
fields_bytes [] = []
fields_bytes ((k, v) ∷ fs) = key_bytes k ++ (item_bytes v ++ fields_bytes fs)

abbrev pub FieldsInWord : List (List ℕ × Item) → Type 0
FieldsInWord [] = Unit {0}
FieldsInWord ((k, v) ∷ fs) = InWord v × FieldsInWord fs

-- The first field of that key: how far its value stands from the start, and the value.
abbrev pub field_offset : List ℕ → List (List ℕ × Item) → Option (ℕ × Item)
field_offset key [] = none
field_offset key ((k, v) ∷ fs) =
    if same_bytes k key
    then some (length (key_bytes k), v)
    else field_offset key fs >>= λ found.
        some (length (key_bytes k) + length (item_bytes v) + found.0, found.1)

-- Whether the key is there, and the decoder at its value or back at `start`.
abbrev pub Finds : ℕ → Decoder → Option (ℕ × Item) → Option (Bool × Decoder) → Type 0
Finds start d none r = r ≡ some (false, record d { at = start })
Finds start d (some (n, v)) r = (r ≡ some (true, advance d n)) × Ahead (advance d n) (item_bytes v)

same_bytes-length : (a b : List ℕ) → same_bytes a b ≡ true → (length a == length b) ≡ true
same_bytes-length [] [] h = refl
same_bytes-length [] (y ∷ b) h = cc
same_bytes-length (x ∷ a) [] h = cc
same_bytes-length (x ∷ a) (y ∷ b) h = ground (arith, same_bytes-length a b)

-- What one round of the loop does in front of a field.
module _ (fuel start : ℕ) (key k : List ℕ) (n : ℕ) (d : Decoder) (good : d.error ≡ false)
    (a : Ahead d (key_bytes k)) where
  round_hit :
      same_bytes k key ≡ true
      → find_key_from fuel start key (suc n) d ≡ some (true, advance d (length (key_bytes k)))
  unfolding find_key_from decode_text
  round_hit h = ground (
    arith,
    take_slice-payload CborType.text k a,
    slice_bytes-payload CborType.text k a,
    same_bytes-length k key,
  )

  round_miss :
      (d2 : Decoder)
      → same_bytes k key ≡ false
      → skip fuel (advance d (length (key_bytes k))) ≡ some d2
      → find_key_from fuel start key (suc n) d ≡ find_key_from fuel start key n d2
  unfolding find_key_from decode_text
  round_miss d2 h s =
      ground (arith, take_slice-payload CborType.text k a, slice_bytes-payload CborType.text k a)

find_key_from-done :
    (fuel start : ℕ) (key : List ℕ) (d : Decoder)
    → find_key_from fuel start key 0 d ≡ some (false, record d { at = start })
unfolding find_key_from
find_key_from-done fuel start key d = refl

-- The answer behind a field that is not the one.
Finds-behind :
    (start m l : ℕ) (d : Decoder) (o : Option (ℕ × Item)) (r : Option (Bool × Decoder))
    → Finds start (advance (advance d m) l) o r
    → Finds start d (o >>= λ found. some (m + l + found.0, found.1)) r
Finds-behind start m l d none r f = f
Finds-behind start m l d (some (n, v)) r f =
    let e =
      advance-advance (advance d m) l n _ refl
      ∙ advance-advance d m (l + n) (m + l + n) (omega arith) in
    (f.0 ∙ ap (λ (x : Decoder). some (true, x)) e, subst (λ x. Ahead x (item_bytes v)) e f.1)

find_key_from-Finds :
    (fs : List (List ℕ × Item)) (fuel start : ℕ) (key : List ℕ) (d : Decoder)
    → FieldsInWord fs
    → 2 * length (fields_bytes fs) < fuel
    → Ahead d (fields_bytes fs)
    → Finds start d (field_offset key fs) (find_key_from fuel start key (length fs) d)
find_key_from-Finds [] fuel start key d w h a = find_key_from-done fuel start key d
find_key_from-Finds ((k, v) ∷ fs) fuel start key d w h a = elim (Bool-cases (same_bytes k key)) [
  | inl hit ↦ rw hit (
    round_hit fuel start key k (length fs) d a.good at_key hit,
    Ahead-prefix (item_bytes v) (fields_bytes fs) at_value,
  )
  | inr miss ↦
      rw (miss, round_miss fuel start key k (length fs) d a.good at_key _ miss skipped)
        (Finds-behind start (length (key_bytes k)) (length (item_bytes v)) d (field_offset key fs) _
          (find_key_from-Finds fs fuel start key
            (advance (advance d (length (key_bytes k))) (length (item_bytes v))) w.1
            (omega (arith, total, inner)) (Ahead-append (item_bytes v) (fields_bytes fs) at_value)))
]
  where
    at_key : Ahead d (key_bytes k)
    at_key = Ahead-prefix (key_bytes k) (item_bytes v ++ fields_bytes fs) a

    at_value : Ahead (advance d (length (key_bytes k))) (item_bytes v ++ fields_bytes fs)
    at_value = Ahead-append (key_bytes k) (item_bytes v ++ fields_bytes fs) a

    total :
        length (key_bytes k ++ (item_bytes v ++ fields_bytes fs))
        ≡ length (key_bytes k) + length (item_bytes v ++ fields_bytes fs)
    total = length-append (key_bytes k) (item_bytes v ++ fields_bytes fs)

    inner :
        length (item_bytes v ++ fields_bytes fs) ≡ length (item_bytes v) + length (fields_bytes fs)
    inner = length-append (item_bytes v) (fields_bytes fs)

    skipped :
        skip fuel (advance d (length (key_bytes k)))
        ≡ some (advance (advance d (length (key_bytes k))) (length (item_bytes v)))
    skipped =
        skip-Item v fuel _ w.0 (omega (arith, total, inner))
          (Ahead-prefix (item_bytes v) (fields_bytes fs) at_value)

-- In front of the fields of a map in a buffer below 2^63 bytes whose keys are texts and whose values
-- are canonical data items, floats and simple values included, with numbers below 2^64, and
-- with two steps of fuel for each byte and one more, cbor_map_find_key stops at the value of the first field of the key, or answers false
-- with the position restored.
pub map_find_key-Finds :
    (fs : List (List ℕ × Item)) (fuel : ℕ) (key : List ℕ) (d : Decoder)
    → FieldsInWord fs
    → 2 * length (fields_bytes fs) < fuel
    → Ahead d (fields_bytes fs)
    → Finds d.at d (field_offset key fs) (map_find_key fuel d key (length fs))
unfolding map_find_key
map_find_key-Finds fs fuel key d w h a = find_key_from-Finds fs fuel d.at key d w h a
