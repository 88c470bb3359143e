-- ===== src/Cbor/MapBuilder.antt =====
-- The canonical map builder of src/plank/plank_cbor.c. `allocates n` says whether the allocator
-- grants n bytes; `sort` is the C library's qsort with the comparison below.
pub mod Order
pub mod Canonical
use mutineer.Prelude.{
  ℕ, ◌+◌, ◌*◌, ◌%◌, Bool, true, false, not, Option, none, some, List, [], ◌∷◌, ◌++◌, ltb, leb, ◌==◌,
  if◌then◌else◌, length,
}
use mutineer.Cbor.Words.{size_mod}
use mutineer.Cbor.Encoder.{Encoder, encode_map, encode_text, encode_raw}

-- A key is a C string: the bytes before its terminator.
pub record Entry : Type 0 where
  pub key : List ℕ
  pub value : List ℕ

pub record MapBuilder : Type 0 where
  pub entries : List Entry
  pub count : ℕ
  pub cap : ℕ

-- The sign of the int that a C comparison returns.
pub data Sign : Type 0 where
  negative zero positive : Sign

abbrev sizeof_entry : ℕ
sizeof_entry = 24

unfoldable pub builder_init : MapBuilder
builder_init = record { entries = []; count = 0; cap = 0 }

unfoldable pub builder_free : MapBuilder → MapBuilder
builder_free mb = record { entries = []; count = 0; cap = 0 }

-- memcmp over two keys of one length.
unfoldable pub memcmp : List ℕ → List ℕ → Sign
memcmp [] [] = zero
memcmp (x ∷ a) (y ∷ b) =
    let rest = memcmp a b in if ltb x y then negative else if ltb y x then positive else rest
memcmp _ _ = zero

unfoldable pub compare_map_entries : Entry → Entry → Sign
unfolding memcmp
compare_map_entries a b =
    if not (length a.key == length b.key)
    then (if ltb (length a.key) (length b.key) then negative else positive)
    else memcmp a.key b.key

unfoldable pub sorted_entries : (List Entry → List Entry) → MapBuilder → List Entry
sorted_entries sort mb = if ltb 1 mb.count then sort mb.entries else mb.entries

module _ (allocates : ℕ → Bool) where
  -- realloc of the table when it is full.
  unfoldable pub reserve : MapBuilder → Option MapBuilder
  reserve mb =
      let new_cap = if mb.cap == 0 then 8 else mb.cap * 2 % size_mod in
      if leb mb.cap mb.count
      then if allocates (new_cap * sizeof_entry % size_mod)
        then some (record mb { cap = new_cap })
        else none
      else some mb

  -- The new state, and the result of the function.
  unfoldable pub builder_add : MapBuilder → List ℕ → List ℕ → MapBuilder × Bool
  unfolding reserve
  builder_add mb key value = elim (reserve mb) [
    | none ↦ (mb, false)
    | some mb' ↦
        if allocates (length value)
        then (
          record mb' {
            entries = mb'.entries ++ record { key = key; value = value } ∷ [];
            count = mb'.count + 1;
          },
          true,
        )
        else (mb', false)
  ]

  unfoldable pub encode_entries : Encoder → List Entry → Encoder
  encode_entries e [] = e
  encode_entries e (x ∷ xs) =
      encode_entries (encode_raw allocates (encode_text allocates e (some x.key)) x.value) xs

  module _ (sort : List Entry → List Entry) where
    -- The builder is left with its entries sorted.
    unfoldable pub builder_encode : MapBuilder → Encoder → MapBuilder × Encoder
    unfolding sorted_entries encode_entries
    builder_encode mb e =
        let mb' = record mb { entries = sorted_entries sort mb } in
        (mb', encode_entries (encode_map allocates e mb'.count) mb'.entries)
