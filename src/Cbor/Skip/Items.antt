-- ===== src/Cbor/Skip/Items.antt =====
-- cbor_skip over a well-formed item, and cbor_validate on it.
use mutineer.Prelude.{
  ℕ, zero, suc, ◌+◌, ◌*◌, ◌≤◌, ◌<◌, ◌≡◌, refl, ◌∙◌, ap, sym, true, false, Option, some, List, [],
  ◌∷◌, ◌++◌, ◌⊎◌, inl, inr, length, length-append, arith, append-nil,
}
use mutineer.Cbor.Words.{CborType, type_code, size_mod, object_max, header, length-header}
use mutineer.Cbor.Decoder.{Decoder, read_byte, decode_arg, init, is_ok, is_eof, take_slice, Slice}
use mutineer.Cbor.Decoder.Ahead.{
  Ahead, Ahead-append, Ahead-prefix, Ahead-next, advance, advance-advance, advance_zero,
  read_byte-Ahead,
}
use mutineer.Cbor.Decoder.Header.{
  Headed, header-Headed, be_value, Width, one_byte, half, single, double, width_info, bytes_behind,
  decode_arg-wide,
}
use mutineer.Cbor.Decoder.RoundTrip.{take_slice-Ahead}
use mutineer.Cbor.Skip.{skip, skip_items, skip_pairs, validate}
use mutineer.Cbor.Skip.Shapes.{
  Item, uint, negint, bytes, text, array, map, tag, bool, null, simple, extended, Items, nil, cons,
  Pairs, end, pair, count, count_pairs, item_bytes, items_bytes, pairs_bytes, InWord, AllInWord,
  PairsInWord, 1-le-item, count-le, count_pairs-le,
}

module _ {d : Decoder} (fuel a : ℕ) (good : d.error ≡ false) (more : d.at < d.len) where
  skip_scalar :
      (t : CborType)
      → (type_code t ≡ 0) ⊎ (type_code t ≡ 1)
      → Headed d t a
      → skip (suc fuel) d ≡ some (advance d (length (header t a)))
  unfolding skip
  skip_scalar t which h = ground (arith, h.read, h.type_is, h.arg_is)

  pub skip_string :
      (t : CborType)
      → (type_code t ≡ 2) ⊎ (type_code t ≡ 3)
      → Headed d t a
      → skip (suc fuel) d ≡ some (take_slice (a, advance d (length (header t a)))).1
  unfolding skip
  skip_string t which h = ground (arith, h.read, h.type_is, h.arg_is)

  pub skip_array :
      Headed d CborType.array a
      → skip (suc fuel) d ≡ skip_items fuel a (advance d (length (header CborType.array a)))
  unfolding skip type_code
  skip_array h = ground (arith, h.read, h.type_is, h.arg_is)

  skip_map :
      Headed d CborType.map a
      → skip (suc fuel) d ≡ skip_pairs fuel a (advance d (length (header CborType.map a)))
  unfolding skip type_code
  skip_map h = ground (arith, h.read, h.type_is, h.arg_is)

  skip_tag :
      Headed d CborType.tag a
      → skip (suc fuel) d ≡ skip fuel (advance d (length (header CborType.tag a)))
  unfolding skip type_code
  skip_tag h = ground (arith, h.read, h.type_is, h.arg_is)

skip_single :
    {d : Decoder} (fuel b : ℕ)
    → (224 ≤ b) × (b < 248)
    → Ahead d (b ∷ [])
    → skip (suc fuel) d ≡ some (advance d 1)
unfolding skip
skip_single fuel b h a = ground (arith, a.good, a.room, read_byte-Ahead b [] a)

skip_wide :
    {d : Decoder} (k : Width) (fuel b : ℕ) (bs : List ℕ)
    → length bs ≡ bytes_behind k
    → Ahead d ((224 + width_info k) ∷ b ∷ bs)
    → skip (suc fuel) d ≡ some (advance d (length ((224 + width_info k) ∷ b ∷ bs)))
unfolding skip
skip_wide {d} k fuel b bs e a =
    let first = read_byte-Ahead (224 + width_info k) (b ∷ bs) a in
    let arg = decode_arg-wide k b bs e (Ahead-next _ _ a) in
    let whole = advance-advance d 1 (length (b ∷ bs)) (suc (length (b ∷ bs))) (omega arith) in
    by_width k first arg whole
  where
    by_width :
        (k : Width)
        → read_byte d ≡ (224 + width_info k, advance d 1)
        → decode_arg (advance d 1) (width_info k)
          ≡ (be_value b bs, advance (advance d 1) (length (b ∷ bs)))
        → advance (advance d 1) (length (b ∷ bs)) ≡ advance d (suc (length (b ∷ bs)))
        → skip (suc fuel) d ≡ some (advance d (suc (length (b ∷ bs))))
    by_width one_byte first arg whole = ground (arith, a.good, a.room, first, arg, whole)
    by_width half first arg whole = ground (arith, a.good, a.room, first, arg, whole)
    by_width single first arg whole = ground (arith, a.good, a.room, first, arg, whole)
    by_width double first arg whole = ground (arith, a.good, a.room, first, arg, whole)

-- A loop with no fuel to spare returns at once when nothing is left.
items_done : (fuel : ℕ) (d : Decoder) → 0 < fuel → skip_items fuel 0 d ≡ some d
unfolding skip_items
items_done zero d h = absurd (omega arith)
items_done (suc f) d h = refl

pairs_done : (fuel : ℕ) (d : Decoder) → 0 < fuel → skip_pairs fuel 0 d ≡ some d
unfolding skip_pairs
pairs_done zero d h = absurd (omega arith)
pairs_done (suc f) d h = refl

pub items_more :
    (f n : ℕ) (d d1 : Decoder)
    → d.error ≡ false
    → skip f d ≡ some d1
    → skip_items (suc f) (suc n) d ≡ skip_items f n d1
unfolding skip_items
items_more f n d d1 e h = ground arith

pairs_more :
    (f n : ℕ) (d d1 d2 : Decoder)
    → d.error ≡ false
    → skip f d ≡ some d1
    → skip f d1 ≡ some d2
    → skip_pairs (suc f) (suc n) d ≡ skip_pairs f n d2
unfolding skip_pairs
pairs_more f n d d1 d2 e h h2 = ground arith

-- Where `skip` got to, once its way is cut into two pieces.
behind :
    (d : Decoder) (xs ys : List ℕ)
    → advance (advance d (length xs)) (length ys) ≡ advance d (length (xs ++ ys))
behind d xs ys = advance-advance d (length xs) (length ys) _ (omega (arith, length-append xs ys))

Ahead-more : {d : Decoder} (xs : List ℕ) → Ahead d xs → 1 ≤ length xs → d.at < d.len
Ahead-more xs a h = omega (arith, a.room)

count-lt :
    {d : Decoder} (xs ys : List ℕ) (n : ℕ) → Ahead d (xs ++ ys) → n ≤ length ys → n < size_mod
count-lt xs ys n a h = omega (arith, a.room, a.small, length-append xs ys)

skip_payload :
    (t : CborType)
    → (type_code t ≡ 2) ⊎ (type_code t ≡ 3)
    → (f : ℕ) (d : Decoder) (bs : List ℕ) → d.at < d.len
    → Ahead d (header t (length bs) ++ bs)
    → skip (suc f) d ≡ some (advance d (length (header t (length bs) ++ bs)))
skip_payload t w f d bs more a =
    skip_string f (length bs) a.good more t w
      (header-Headed t (length bs) bs (count-lt (header t (length bs)) bs _ a (omega arith)) a)
    ∙ ap (λ (r : Option Slice × Decoder). some r.1)
        (take_slice-Ahead bs (Ahead-append (header t (length bs)) bs a))
    ∙ ap some (behind d (header t (length bs)) bs)

mutual
  unfolding type_code item_bytes items_bytes pairs_bytes InWord AllInWord PairsInWord

  skip-item :
      (x : Item) (fuel : ℕ) (d : Decoder)
      → InWord x
      → 2 * length (item_bytes x) < fuel
      → Ahead d (item_bytes x)
      → skip fuel d ≡ some (advance d (length (item_bytes x)))
  skip-item _ zero d w h a = absurd (omega arith)
  skip-item (uint n) (suc f) d w h a =
      skip_scalar f n a.good (Ahead-more _ a (1-le-item (uint n))) CborType.uint (inl refl)
        (header-Headed CborType.uint n [] w (rw append-nil a))
  skip-item (negint n) (suc f) d w h a =
      skip_scalar f n a.good (Ahead-more _ a (1-le-item (negint n))) CborType.negint (inr refl)
        (header-Headed CborType.negint n [] w (rw append-nil a))
  skip-item (bytes bs) (suc f) d w h a =
      skip_payload CborType.bytes (inl refl) f d bs (Ahead-more _ a (1-le-item (bytes bs))) a
  skip-item (text bs) (suc f) d w h a =
      skip_payload CborType.text (inr refl) f d bs (Ahead-more _ a (1-le-item (text bs))) a
  skip-item (bool b) (suc f) d w h a = skip_single f _ (ground arith) a
  skip-item null (suc f) d w h a = skip_single f 0xf6 (omega arith) a
  skip-item (simple n) (suc f) d w h a = skip_single f (224 + n) (omega (arith, w)) a
  skip-item (extended k b bs) (suc f) d w h a = skip_wide k f b bs w a
  skip-item (tag n x) (suc f) d w h a =
      let hd = header CborType.tag n in
      skip_tag f n a.good (Ahead-more _ a (1-le-item (tag n x)))
        (header-Headed CborType.tag n (item_bytes x) w.0 a)
      ∙ skip-item x f (advance d (length hd)) w.1
          (omega (arith, length-append hd (item_bytes x), (length-header CborType.tag n).0))
          (Ahead-append hd (item_bytes x) a)
      ∙ ap some (behind d hd (item_bytes x))
  skip-item (array xs) (suc f) d w h a =
      let hd = header CborType.array (count xs) in
      skip_array f (count xs) a.good (Ahead-more _ a (1-le-item (array xs))) (
        header-Headed CborType.array (count xs) (items_bytes xs)
          (count-lt hd (items_bytes xs) _ a (count-le xs)) a)
      ∙ skip-items xs f (advance d (length hd)) w
          (omega
            (arith, length-append hd (items_bytes xs), (length-header CborType.array (count xs)).0))
          (Ahead-append hd (items_bytes xs) a)
      ∙ ap some (behind d hd (items_bytes xs))
  skip-item (map ps) (suc f) d w h a =
      let hd = header CborType.map (count_pairs ps) in
      skip_map f (count_pairs ps) a.good (Ahead-more _ a (1-le-item (map ps))) (
        header-Headed CborType.map (count_pairs ps) (pairs_bytes ps)
          (count-lt hd (pairs_bytes ps) _ a (count_pairs-le ps)) a)
      ∙ skip-pairs ps f (advance d (length hd)) w
          (omega (
            arith,
            length-append hd (pairs_bytes ps),
            (length-header CborType.map (count_pairs ps)).0,
          ))
          (Ahead-append hd (pairs_bytes ps) a)
      ∙ ap some (behind d hd (pairs_bytes ps))

  skip-items :
      (xs : Items) (fuel : ℕ) (d : Decoder)
      → AllInWord xs
      → 2 * length (items_bytes xs) + 1 < fuel
      → Ahead d (items_bytes xs)
      → skip_items fuel (count xs) d ≡ some (advance d (length (items_bytes xs)))
  skip-items nil fuel d w h a = items_done fuel d (omega arith) ∙ ap some (sym (advance_zero d))
  skip-items (cons x xs) zero d w h a = absurd (omega arith)
  skip-items (cons x xs) (suc f) d w h a =
      let one = item_bytes x in
      let total = length-append one (items_bytes xs) in
      items_more f (count xs) d _ a.good
        (skip-item x f d w.0 (omega (arith, total)) (Ahead-prefix one (items_bytes xs) a))
      ∙ skip-items xs f (advance d (length one)) w.1 (omega (arith, total, 1-le-item x))
          (Ahead-append one (items_bytes xs) a)
      ∙ ap some (behind d one (items_bytes xs))

  skip-pairs :
      (ps : Pairs) (fuel : ℕ) (d : Decoder)
      → PairsInWord ps
      → 2 * length (pairs_bytes ps) + 1 < fuel
      → Ahead d (pairs_bytes ps)
      → skip_pairs fuel (count_pairs ps) d ≡ some (advance d (length (pairs_bytes ps)))
  skip-pairs end fuel d w h a = pairs_done fuel d (omega arith) ∙ ap some (sym (advance_zero d))
  skip-pairs (pair k v ps) zero d w h a = absurd (omega arith)
  skip-pairs (pair k v ps) (suc f) d w h a =
      let key = item_bytes k in
      let val = item_bytes v in
      let total = length-append key (val ++ pairs_bytes ps) in
      let inner = length-append val (pairs_bytes ps) in
      let a2 = Ahead-append key (val ++ pairs_bytes ps) a in
      pairs_more f (count_pairs ps) d _ _ a.good
        (skip-item k f d w.0 (omega (arith, total)) (Ahead-prefix key (val ++ pairs_bytes ps) a))
        (skip-item v f (advance d (length key)) w.1 (omega (arith, total, inner))
          (Ahead-prefix val (pairs_bytes ps) a2))
      ∙ skip-pairs ps f (advance (advance d (length key)) (length val)) w.2
          (omega (arith, total, inner, 1-le-item k, 1-le-item v))
          (Ahead-append val (pairs_bytes ps) a2)
      ∙ ap some (
          behind (advance d (length key)) val (pairs_bytes ps)
          ∙ behind d key (val ++ pairs_bytes ps))

-- On a data item of any shape and depth in canonical form (unsigned and negative integers, byte
-- strings, texts, arrays, maps, tags, simple values of either size, floats of two, four and eight
-- bytes), with its numbers below 2^64, in a buffer below 2^63 bytes and whatever follows it,
-- cbor_skip ends without an error exactly behind it; two steps of fuel for each byte and one more are enough.
pub skip-Item :
    (x : Item) (fuel : ℕ) (d : Decoder)
    → InWord x
    → 2 * length (item_bytes x) < fuel
    → Ahead d (item_bytes x)
    → skip fuel d ≡ some (advance d (length (item_bytes x)))
skip-Item = skip-item

-- So `cbor_validate` accepts every buffer that is one such item, with enough fuel.
pub validate-Item :
    (x : Item) (fuel : ℕ)
    → InWord x
    → 2 * length (item_bytes x) < fuel
    → length (item_bytes x) < object_max
    → validate fuel (item_bytes x) (length (item_bytes x)) ≡ some true
unfolding validate init is_ok is_eof
validate-Item x fuel w h small =
    rw (skip-item x fuel (init (item_bytes x) (length (item_bytes x))) w h at_start, validate)
      (ground arith)
  where
    at_start : Ahead (init (item_bytes x) (length (item_bytes x))) (item_bytes x)
    at_start = record {
      good = refl;
      room = omega arith;
      small = small;
      rest = [];
      splits = sym (append-nil (item_bytes x));
    }
