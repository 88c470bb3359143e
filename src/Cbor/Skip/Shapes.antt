-- ===== src/Cbor/Skip/Shapes.antt =====
-- Data items in the canonical form that src/plank/plank_cbor.c writes, and their bytes.
use mutineer.Prelude.{
  ℕ, suc, ◌+◌, ◌≤◌, ◌<◌, ◌≡◌, Bool, List, [], ◌∷◌, ◌++◌, if◌then◌else◌, length, length-append,
  arith,
}
use mutineer.Cbor.Words.{CborType, size_mod, header, length-header}
use mutineer.Cbor.Decoder.Header.{Width, width_info, bytes_behind}

-- The numbers of `simple` are 0 to 23: 20 and 21 are the Booleans, 22 and 23 null and undefined. `extended`
-- has a simple value of one byte, or a float of two, four or eight.
mutual
  pub data Item : Type 0 where
    uint negint : ℕ → Item
    bytes text : List ℕ → Item
    array : Items → Item
    map : Pairs → Item
    tag : ℕ → Item → Item
    bool : Bool → Item
    null : Item
    simple : ℕ → Item
    extended : Width → ℕ → List ℕ → Item

  pub data Items : Type 0 where
    nil : Items
    cons : Item → Items → Items

  pub data Pairs : Type 0 where
    end : Pairs
    pair : Item → Item → Pairs → Pairs

abbrev pub count : Items → ℕ
count nil = 0
count (cons x xs) = suc (count xs)

abbrev pub count_pairs : Pairs → ℕ
count_pairs end = 0
count_pairs (pair k v ps) = suc (count_pairs ps)

unfoldable mutual
  pub item_bytes : Item → List ℕ
  item_bytes (uint n) = header CborType.uint n
  item_bytes (negint n) = header CborType.negint n
  item_bytes (bytes bs) = header CborType.bytes (length bs) ++ bs
  item_bytes (text bs) = header CborType.text (length bs) ++ bs
  item_bytes (array xs) = header CborType.array (count xs) ++ items_bytes xs
  item_bytes (map ps) = header CborType.map (count_pairs ps) ++ pairs_bytes ps
  item_bytes (tag n x) = header CborType.tag n ++ item_bytes x
  item_bytes (bool b) = (if b then 0xf5 else 0xf4) ∷ []
  item_bytes null = 0xf6 ∷ []
  item_bytes (simple n) = (224 + n) ∷ []
  item_bytes (extended k b bs) = (224 + width_info k) ∷ b ∷ bs

  pub items_bytes : Items → List ℕ
  items_bytes nil = []
  items_bytes (cons x xs) = item_bytes x ++ items_bytes xs

  pub pairs_bytes : Pairs → List ℕ
  pairs_bytes end = []
  pairs_bytes (pair k v ps) = item_bytes k ++ (item_bytes v ++ pairs_bytes ps)

unfoldable mutual
  pub InWord : Item → Type 0
  InWord (uint n) = n < size_mod
  InWord (negint n) = n < size_mod
  InWord (tag n x) = (n < size_mod) × InWord x
  InWord (array xs) = AllInWord xs
  InWord (map ps) = PairsInWord ps
  InWord (bytes bs) = Unit {0}
  InWord (text bs) = Unit {0}
  InWord (bool b) = Unit {0}
  InWord null = Unit {0}
  InWord (simple n) = n < 24
  InWord (extended k b bs) = length bs ≡ bytes_behind k

  pub AllInWord : Items → Type 0
  AllInWord nil = Unit {0}
  AllInWord (cons x xs) = InWord x × AllInWord xs

  pub PairsInWord : Pairs → Type 0
  PairsInWord end = Unit {0}
  PairsInWord (pair k v ps) = InWord k × InWord v × PairsInWord ps

mutual
  unfolding item_bytes items_bytes pairs_bytes

  pub 1-le-item : (x : Item) → 1 ≤ length (item_bytes x)
  1-le-item (uint n) = (length-header CborType.uint n).0
  1-le-item (negint n) = (length-header CborType.negint n).0
  1-le-item (bytes bs) = omega (
    arith,
    length-append (header CborType.bytes (length bs)) bs,
    (length-header CborType.bytes (length bs)).0,
  )
  1-le-item (text bs) = omega (
    arith,
    length-append (header CborType.text (length bs)) bs,
    (length-header CborType.text (length bs)).0,
  )
  1-le-item (array xs) = omega (
    arith,
    length-append (header CborType.array (count xs)) (items_bytes xs),
    (length-header CborType.array (count xs)).0,
  )
  1-le-item (map ps) = omega (
    arith,
    length-append (header CborType.map (count_pairs ps)) (pairs_bytes ps),
    (length-header CborType.map (count_pairs ps)).0,
  )
  1-le-item (tag n x) = omega (
    arith,
    length-append (header CborType.tag n) (item_bytes x),
    (length-header CborType.tag n).0,
  )
  1-le-item (bool b) = omega arith
  1-le-item null = omega arith
  1-le-item (simple n) = omega arith
  1-le-item (extended k b bs) = omega arith

  pub count-le : (xs : Items) → count xs ≤ length (items_bytes xs)
  count-le nil = omega arith
  count-le (cons x xs) =
      omega (arith, 1-le-item x, count-le xs, length-append (item_bytes x) (items_bytes xs))

  pub count_pairs-le : (ps : Pairs) → count_pairs ps ≤ length (pairs_bytes ps)
  count_pairs-le end = omega arith
  count_pairs-le (pair k v ps) = omega (
    arith,
    1-le-item k,
    count_pairs-le ps,
    length-append (item_bytes k) (item_bytes v ++ pairs_bytes ps),
    length-append (item_bytes v) (pairs_bytes ps),
  )
