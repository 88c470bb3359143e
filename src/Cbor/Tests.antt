-- ===== src/Cbor/Tests.antt =====
-- Runs of src/plank/plank_cbor.c's model on concrete bytes, and its theorems at concrete inputs.
use mathlib.Core.List.{Pairwise-pair}
use mathlib.Core.List.Perm
use mutineer.Prelude.{
  ℕ, ◌+◌, ◌-◌, ◌<◌, ◌≡◌, refl, ◌≢◌, Bool, true, false, none, some, List, [], ◌∷◌, length, arith,
  ltb,
}
use mutineer.Cbor.Words.{CborType, negsuc, size_mod, object_max, header, type_code}
use mutineer.Cbor.Encoder
use mutineer.Cbor.Encoder.{Encoder, or_empty}
use mutineer.Cbor.Encoder.Appends.{Appends}
use mutineer.Cbor.Encoder.Calls.{
  Call, put_uint, put_int, put_text, put_bytes, put_map, call_bytes, calls_bytes, make, make_all,
  make_all-Appends, init-IsReady,
}
use mutineer.Cbor.Decoder.{init, decode_arg, take_slice, read_byte}
use mutineer.Cbor.Decoder.Ahead.{Ahead, advance}
use mutineer.Cbor.Decoder.RoundTrip.{ReadsAll, decode-encode}
use mutineer.Cbor.Skip.{skip, map_find_key}
use mutineer.Cbor.Skip.Total.{Ends, skip_total}
use mutineer.Cbor.Skip.Shapes.{
  Item, uint, text, array, nil, cons, null, item_bytes, items_bytes, InWord, AllInWord,
}
use mutineer.Cbor.Skip.Items.{skip-Item}
use mutineer.Cbor.Skip.Keys.{Finds, fields_bytes, map_find_key-Finds}
use mutineer.Cbor.Skip.Wrap.{loop_bytes, skip_never_ends}
use mutineer.Cbor.MapBuilder.{
  Entry, MapBuilder, positive, compare_map_entries, builder_encode, sorted_entries,
}
use mutineer.Cbor.MapBuilder.Canonical.{
  Sorts, DistinctKeys, EntriesInMemory, builder_encode-canonical,
}

abbrev grants : ℕ → Bool
grants n = true

abbrev calls : List Call
calls =
    put_map 2
    ∷ put_text (b'a' ∷ [])
    ∷ put_int (negsuc 499)
    ∷ put_text (b'b' ∷ b'b' ∷ [])
    ∷ put_uint 1000000
    ∷ []

-- {"a": -500, "bb": 1000000}
encodes :
    (make_all grants (Encoder.init (some []) 64) calls).buf
    ≡ some (
        0xa2 ∷ 0x61 ∷ b'a' ∷ 0x39 ∷ 0x01 ∷ 0xf3 ∷ 0x62 ∷ b'b' ∷ b'b' ∷ 0x1a ∷ 0x00 ∷ 0x0f ∷ 0x42
        ∷ 0x40 ∷ [])
unfolding make_all make Encoder.init Encoder.encode_map Encoder.encode_text Encoder.encode_text_len
    Encoder.encode_uint Encoder.encode_int Encoder.encode_negint Encoder.encode_type_arg
    Encoder.write_byte Encoder.write_bytes type_code
encodes = refl

accepted : (make_all grants (Encoder.init (some []) 64) calls).error ≡ false
unfolding make_all make Encoder.init Encoder.encode_map Encoder.encode_text Encoder.encode_text_len
    Encoder.encode_uint Encoder.encode_int Encoder.encode_negint Encoder.encode_type_arg
    Encoder.write_byte Encoder.write_bytes type_code
accepted = refl

decode-encode_example :
    ((make_all grants (Encoder.init (some []) 64) calls).len ≡ length (calls_bytes calls))
    × ReadsAll calls (
        init
          (or_empty (make_all grants (Encoder.init (some []) 64) calls).buf)
          (make_all grants (Encoder.init (some []) 64) calls).len)
decode-encode_example = decode-encode grants 64 calls (omega arith) (omega arith) accepted

make_all-Appends_example :
    Appends
      (Encoder.init (some []) 4)
      (calls_bytes calls)
      (make_all grants (Encoder.init (some []) 4) calls)
make_all-Appends_example =
    make_all-Appends grants calls (Encoder.init (some []) 4) (omega arith)
      (init-IsReady 4 (omega arith))

abbrev long_text : List ℕ
long_text =
    0 ∷ 1 ∷ 2 ∷ 3 ∷ 4 ∷ 5 ∷ 6 ∷ 7 ∷ 8 ∷ 9 ∷ 0 ∷ 1 ∷ 2 ∷ 3 ∷ 4 ∷ 5 ∷ 6 ∷ 7 ∷ 8 ∷ 9 ∷ 0 ∷ 1 ∷ 2 ∷ 3
    ∷ 4 ∷ 5 ∷ 6 ∷ 7 ∷ 8 ∷ 9 ∷ 0 ∷ 1 ∷ 2 ∷ []

too_much :
    (Encoder.init_dynamic grants 0).cap
    < length (calls_bytes (put_bytes long_text ∷ put_bytes long_text ∷ []))
unfolding Encoder.init_dynamic calls_bytes call_bytes header type_code
too_much = omega arith

-- [1, "a"], null and one more byte
abbrev pair_item : Item
pair_item = array (cons (uint 1) (cons (text (b'a' ∷ [])) nil))

abbrev pair_bytes : List ℕ
pair_bytes = 0x82 ∷ 0x01 ∷ 0x61 ∷ b'a' ∷ 0xf6 ∷ []

skips : skip 20 (init pair_bytes 5) ≡ some (advance (init pair_bytes 5) 4)
unfolding skip init read_byte decode_arg take_slice
skips = refl

skip_total_example : Ends (init pair_bytes 5) (skip 20 (init pair_bytes 5))
unfolding init
skip_total_example =
    skip_total 20 (record { buf = pair_bytes; len = 5; at = 0; error = false })
      (record {
        inside = omega arith;
        small = omega arith;
        all_bytes = omega arith;
        no_huge = omega arith;
      })
      (omega arith)

pair-InWord : InWord pair_item
unfolding InWord AllInWord
pair-InWord = omega arith

pair_length : length (item_bytes pair_item) ≡ 4
unfolding item_bytes items_bytes header type_code
pair_length = refl

pair-Ahead : Ahead (init pair_bytes 5) (item_bytes pair_item)
unfolding init item_bytes items_bytes header type_code
pair-Ahead = record {
  good = refl;
  room = omega arith;
  small = omega arith;
  rest = 0xf6 ∷ [];
  splits = refl;
}

skip-Item_example :
    skip 20 (init pair_bytes 5) ≡ some (advance (init pair_bytes 5) (length (item_bytes pair_item)))
skip-Item_example =
    skip-Item pair_item 20 (init pair_bytes 5) pair-InWord (omega (arith, pair_length)) pair-Ahead

-- The fields "a": 1, "b": null.
abbrev fields : List (List ℕ × Item)
fields = (b'a' ∷ [], uint 1) ∷ (b'b' ∷ [], null) ∷ []

abbrev fields_buf : List ℕ
fields_buf = 0x61 ∷ b'a' ∷ 0x01 ∷ 0x61 ∷ b'b' ∷ 0xf6 ∷ []

fields-InWord : InWord (uint 1) × InWord null × Unit {0}
unfolding InWord
fields-InWord = (omega arith, tt, tt)

fields-length : length (fields_bytes fields) ≡ 6
unfolding item_bytes header type_code
fields-length = refl

fields-Ahead : Ahead (init fields_buf 6) (fields_bytes fields)
unfolding init item_bytes header type_code
fields-Ahead = record {
  good = refl;
  room = omega arith;
  small = omega arith;
  rest = [];
  splits = refl;
}

-- The value of "b" stands at offset 5.
map_find_key-Finds_example :
    Finds
      (init fields_buf 6).at
      (init fields_buf 6)
      (some (
        length (header CborType.text 1)
            + 1
            + length (item_bytes (uint 1))
            + (length (header CborType.text 1) + 1),
        null,
      ))
      (map_find_key 20 (init fields_buf 6) (b'b' ∷ []) 2)
unfolding item_bytes header type_code
map_find_key-Finds_example =
    map_find_key-Finds fields 20 (b'b' ∷ []) (init fields_buf 6)
      (fields-InWord.0, (fields-InWord.1, tt)) (omega (arith, fields-length)) fields-Ahead

loop-Ahead : Ahead (init loop_bytes 10) loop_bytes
unfolding init header type_code
loop-Ahead = record {
  good = refl;
  room = omega arith;
  small = omega arith;
  rest = [];
  splits = refl;
}

skip_never_ends_example : skip 1000 (init loop_bytes 10) ≡ none
skip_never_ends_example = skip_never_ends (init loop_bytes 10) loop-Ahead 1000

abbrev wrap_buf : List ℕ
wrap_buf = 0x5b ∷ 255 ∷ 255 ∷ 255 ∷ 255 ∷ 255 ∷ 255 ∷ 255 ∷ 255 ∷ []

wrap-Ahead : Ahead (init wrap_buf 9) (header CborType.bytes (size_mod - 1))
unfolding init header type_code
wrap-Ahead = record {
  good = refl;
  room = omega arith;
  small = omega arith;
  rest = [];
  splits = refl;
}

wrap_length : length (header CborType.bytes (size_mod - 1)) ≡ 9
unfolding header
wrap_length = refl

-- Keys "b" and "a", in the two orders in which they can be added.
abbrev entry_a : Entry
entry_a = record { key = b'a' ∷ []; value = 1 ∷ [] }

abbrev entry_b : Entry
entry_b = record { key = b'b' ∷ []; value = 2 ∷ [] }

abbrev builder_ab : MapBuilder
builder_ab = record { entries = entry_a ∷ entry_b ∷ []; count = 2; cap = 8 }

abbrev builder_ba : MapBuilder
builder_ba = record { entries = entry_b ∷ entry_a ∷ []; count = 2; cap = 8 }

abbrev keep : List Entry → List Entry
keep xs = xs

abbrev swap_two : List Entry → List Entry
swap_two (x ∷ y ∷ []) = y ∷ x ∷ []
swap_two xs = xs

a_first : compare_map_entries entry_a entry_b ≢ positive
unfolding compare_map_entries
a_first e = cc

keep-Sorts : Sorts keep (entry_a ∷ entry_b ∷ [])
keep-Sorts = record {
  permutes = Perm.refl (entry_a ∷ entry_b ∷ []);
  orders = (Pairwise-pair (λ a b. hlevel)).1 a_first;
}

swap-Sorts : Sorts swap_two (entry_b ∷ entry_a ∷ [])
swap-Sorts = record {
  permutes = Perm.swap entry_b entry_a [];
  orders = (Pairwise-pair (λ a b. hlevel)).1 a_first;
}

keys_distinct : DistinctKeys (entry_a ∷ entry_b ∷ [])
keys_distinct = (Pairwise-pair (λ a b. hlevel)).1 (λ e. ground arith)

builder_encode-canonical_example :
    (builder_encode grants keep builder_ab (Encoder.init (some []) 64)).1
    ≡ (builder_encode grants swap_two builder_ba (Encoder.init (some []) 64)).1
builder_encode-canonical_example =
    builder_encode-canonical grants keep swap_two builder_ab builder_ba (Encoder.init (some []) 64)
      refl refl keep-Sorts swap-Sorts keys_distinct (Perm.swap entry_b entry_a [])

sorted_in_memory : EntriesInMemory (sorted_entries swap_two builder_ba)
unfolding sorted_entries
sorted_in_memory = omega arith

-- An allocator that grants less than a kilobyte.
abbrev grants_small : ℕ → Bool
grants_small n = ltb n 1024

grants_below : (n : ℕ) → grants_small n ≡ true → n < object_max
grants_below n h = ground arith
