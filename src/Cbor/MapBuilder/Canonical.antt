-- ===== src/Cbor/MapBuilder/Canonical.antt =====
-- What cbor_map_builder_encode writes does not depend on the order of the additions, nor on the
-- sorting algorithm: the map is canonical.
use mathlib.Core.HLevel.{hedberg}
use mathlib.Core.List.{
  Mem, Perm, Pairwise, Nodup, mem-cons, mem-cons_self, rel_of_Pairwise-cons, Pairwise-cons,
  Pairwise-map, Pairwise-singleton,
}
use mathlib.Core.List.Perm
use mathlib.Core.List.Pairwise
use mathlib.Core.Logic.Or
use mathlib.Core.List
use native.Mathlib.Bridge.{from_ℕ}
use mutineer.Prelude.{
  ℕ, suc, ◌≤◌, ◌<◌, ◌≡◌, refl, ◌∙◌, ap, sym, subst, ◌≢◌, ◌⊎◌, inl, inr, true, false, List, [], ◌∷◌,
  ◌++◌, map, ltb, ◌==◌, if◌then◌else◌, length, arith, Bool-cases, length-append, ◌*◌, ◌%◌, Bool,
}
use mutineer.Cbor.Words.{CborType, object_max, header, size_mod}
use mutineer.Cbor.Encoder.{Encoder, encode_map}
use mutineer.Cbor.Encoder.Appends.{Appends, IsReady, ◌then_also◌}
use mutineer.Cbor.Encoder.Calls.{
  Call, put_text, put_raw, make, make_all, make_all-Appends, encode_map-Appends, call_bytes,
  AllInMemory, calls_bytes,
}
use mutineer.Cbor.MapBuilder.{
  Entry, MapBuilder, Sign, negative, zero, positive, compare_map_entries, encode_entries,
  sorted_entries, builder_encode, builder_add,
}
use mutineer.Cbor.MapBuilder.Order.{Before, Before-asym, compare-zero, Entry-discrete}

-- What the C library promises of qsort: a permutation, in which no entry compares greater than a
-- later one.
pub record Sorts (sort : List Entry → List Entry) (xs : List Entry) : Type 0 where
  pub permutes : Perm (sort xs) xs
  pub orders : Pairwise (λ a b. compare_map_entries a b ≢ positive) (sort xs)

abbrev pub DistinctKeys : List Entry → Type 0
DistinctKeys xs = Nodup (map (λ (e : Entry). e.key) xs)

-- Two ascending lists of the same entries are one list.
heads_equal :
    (x y : Entry) (l m : List Entry)
    → Pairwise Before (x ∷ l)
    → Pairwise Before (y ∷ m)
    → Perm (x ∷ l) (y ∷ m)
    → x ≡ y
heads_equal x y l m p q perm =
    Or.elim (hedberg Entry-discrete x y) (mem-cons.0 ((Perm.mem_iff perm).0 mem-cons_self)) (λ e. e)
      λ in_m.
        Or.elim (hedberg Entry-discrete x y) (mem-cons.0 ((Perm.mem_iff perm).1 mem-cons_self))
          (λ e. sym e)
          λ in_l. cc (Before-asym x y (rel_of_Pairwise-cons p in_l), rel_of_Pairwise-cons q in_m)

pub ascending_unique :
    (xs ys : List Entry) → Pairwise Before xs → Pairwise Before ys → Perm xs ys → xs ≡ ys
ascending_unique [] ys p q perm = sym (Perm.eq-nil (Perm.symm perm))
ascending_unique (x ∷ l) [] p q perm = Perm.eq-nil perm
ascending_unique (x ∷ l) (y ∷ m) p q perm =
    let e = heads_equal x y l m p q perm in
    rw e (
      ap (◌∷◌ y) (
        ascending_unique l m (Pairwise-cons.0 p).1 (Pairwise-cons.0 q).1
          (Perm.cons_inv (subst (λ z. Perm (z ∷ l) (y ∷ m)) e perm))))

neither : (s : Sign) → s ≢ positive → s ≢ zero → s ≡ negative
neither negative p z = refl
neither zero p z = absurd (z refl)
neither positive p z = absurd (p refl)

Before-of : (a b : Entry) → (compare_map_entries a b ≢ positive) × (a.key ≢ b.key) → Before a b
Before-of a b h = neither (compare_map_entries a b) h.0 (λ e. h.1 (compare-zero a b e))

sorted-Before :
    (sort : List Entry → List Entry) (xs : List Entry)
    → Sorts sort xs
    → DistinctKeys xs
    → Pairwise Before (sort xs)
sorted-Before sort xs s d = Pairwise.imp Before-of (
    Pairwise.and s.orders (
      (Pairwise-map (λ a b. hlevel) (λ (e : Entry). e.key)).0
        (Perm.nodup (Perm.map (λ (e : Entry). e.key) (Perm.symm s.permutes)) d)))

length-from {ℓ} : {A : Type ℓ} (xs : List A) → length xs ≡ from_ℕ (List.length xs)
length-from [] = refl
length-from (x ∷ xs) = ap suc (length-from xs)

length-perm {ℓ} : {A : Type ℓ} {xs ys : List A} → Perm xs ys → length xs ≡ length ys
length-perm {xs} {ys} p = length-from xs ∙ ap from_ℕ (Perm.length-eq p) ∙ sym (length-from ys)

-- The builder counts its entries.
abbrev pub IsCounted : MapBuilder → Type 0
IsCounted mb = mb.count ≡ length mb.entries

short-ascending : (xs : List Entry) → length xs ≤ 1 → Pairwise Before xs
short-ascending [] h = Pairwise.nil
short-ascending (x ∷ []) h = Pairwise-singleton Before x
short-ascending (x ∷ y ∷ xs) h = absurd (omega arith)

module _ (sort : List Entry → List Entry) (mb : MapBuilder) (c : IsCounted mb)
    (s : Sorts sort mb.entries) where
  sorted_entries-perm : Perm (sorted_entries sort mb) mb.entries
  unfolding sorted_entries
  sorted_entries-perm = elim (Bool-cases (ltb 1 mb.count)) [
    | inl e ↦ rw e s.permutes
    | inr e ↦ rw e (Perm.refl mb.entries)
  ]

  sorted_entries-ascending : DistinctKeys mb.entries → Pairwise Before (sorted_entries sort mb)
  unfolding sorted_entries
  sorted_entries-ascending d = elim (Bool-cases (ltb 1 mb.count)) [
    | inl e ↦ rw e (sorted-Before sort mb.entries s d)
    | inr e ↦ rw e (short-ascending mb.entries (ground arith))
  ]

-- Two builders that hold the same entries under distinct keys, added in whatever order, write the
-- same bytes, whatever sorting routine each is linked with and whatever the encoder's state.
pub builder_encode-canonical :
    (allocates : ℕ → Bool) (sort1 sort2 : List Entry → List Entry) (mb1 mb2 : MapBuilder)
    (e : Encoder)
    → IsCounted mb1
    → IsCounted mb2
    → Sorts sort1 mb1.entries
    → Sorts sort2 mb2.entries
    → DistinctKeys mb1.entries
    → Perm mb1.entries mb2.entries
    → (builder_encode allocates sort1 mb1 e).1 ≡ (builder_encode allocates sort2 mb2 e).1
unfolding builder_encode
builder_encode-canonical allocates sort1 sort2 mb1 mb2 e c1 c2 s1 s2 d perm = rw (same, counts) refl
  where
    counts : mb1.count ≡ mb2.count
    counts = c1 ∙ length-perm perm ∙ sym c2

    same : sorted_entries sort1 mb1 ≡ sorted_entries sort2 mb2
    same =
        ascending_unique _ _ (sorted_entries-ascending sort1 mb1 c1 s1 d)
          (sorted_entries-ascending sort2 mb2 c2 s2
            (Perm.nodup (Perm.map (λ (x : Entry). x.key) perm) d))
          (Perm.trans (sorted_entries-perm sort1 mb1 c1 s1)
            (Perm.trans perm (Perm.symm (sorted_entries-perm sort2 mb2 c2 s2))))

entry_calls : List Entry → List Call
entry_calls [] = []
entry_calls (x ∷ xs) = put_text x.key ∷ put_raw x.value ∷ entry_calls xs

abbrev pub EntriesInMemory : List Entry → Type 0
EntriesInMemory [] = Unit {0}
EntriesInMemory (x ∷ xs) =
    (length x.key < object_max) × (length x.value < object_max) × EntriesInMemory xs

-- The fields of a map, each a text key and an encoded value, and the whole map.
abbrev pub entries_bytes : List Entry → List ℕ
entries_bytes [] = []
entries_bytes (x ∷ xs) =
    (header CborType.text (length x.key) ++ x.key) ++ (x.value ++ entries_bytes xs)

abbrev pub map_bytes : ℕ → List Entry → List ℕ
map_bytes n xs = header CborType.map n ++ entries_bytes xs

calls_bytes-entry_calls : (xs : List Entry) → calls_bytes (entry_calls xs) ≡ entries_bytes xs
unfolding calls_bytes call_bytes entry_calls
calls_bytes-entry_calls [] = refl
calls_bytes-entry_calls (x ∷ xs) =
    ap (λ (bs : List ℕ). (header CborType.text (length x.key) ++ x.key) ++ (x.value ++ bs))
      (calls_bytes-entry_calls xs)

module _ (allocates : ℕ → Bool) where
  encode_entries-make_all :
      (xs : List Entry) (e : Encoder)
      → encode_entries allocates e xs ≡ make_all allocates e (entry_calls xs)
  unfolding encode_entries make_all make entry_calls
  encode_entries-make_all [] e = refl
  encode_entries-make_all (x ∷ xs) e = encode_entries-make_all xs _

  entry_calls-AllInMemory : (xs : List Entry) → EntriesInMemory xs → AllInMemory (entry_calls xs)
  unfolding entry_calls
  entry_calls-AllInMemory [] m = tt
  entry_calls-AllInMemory (x ∷ xs) m = (m.0, (m.1, entry_calls-AllInMemory xs m.2))

  -- Into an encoder with a buffer the builder appends a map header with the count and, in sorted
  -- order, each key as a text and the value's bytes as they are, all of it or an error.
  pub builder_encode-Appends :
      (sort : List Entry → List Entry) (mb : MapBuilder) (e : Encoder)
      → EntriesInMemory (sorted_entries sort mb)
      → IsReady e
      → Appends e
          (map_bytes mb.count (sorted_entries sort mb))
          (builder_encode allocates sort mb e).1
  unfolding builder_encode
  builder_encode-Appends sort mb e m r =
      subst
        (λ bs.
          Appends e (header CborType.map mb.count ++ bs)
            (encode_entries allocates (encode_map allocates e mb.count) (sorted_entries sort mb)))
        (calls_bytes-entry_calls (sorted_entries sort mb)) (first then_also rest)
    where
      first : Appends e (header CborType.map mb.count) (encode_map allocates e mb.count)
      first = encode_map-Appends allocates e mb.count r

      rest :
          Appends
            (encode_map allocates e mb.count)
            (calls_bytes (entry_calls (sorted_entries sort mb)))
            (encode_entries allocates (encode_map allocates e mb.count) (sorted_entries sort mb))
      rest =
          rw (encode_entries-make_all (sorted_entries sort mb) (encode_map allocates e mb.count)) (
            make_all-Appends allocates (entry_calls (sorted_entries sort mb))
              (encode_map allocates e mb.count) (entry_calls-AllInMemory (sorted_entries sort mb) m)
              first.ready)

-- The table has room for the entries, and is an object in memory.
pub record IsValid (mb : MapBuilder) : Type 0 where
  pub counted : IsCounted mb
  pub within : mb.count ≤ mb.cap
  pub small : mb.cap * 24 < object_max

-- If the allocator grants no object of 2^63 bytes, `cbor_map_builder_add` keeps the table valid;
-- it answers true with the entry added at the end, or false with the entries as they were.
pub builder_add-IsValid :
    (allocates : ℕ → Bool) (mb : MapBuilder) (key value : List ℕ)
    → ((n : ℕ) → allocates n ≡ true → n < object_max)
    → IsValid mb
    → IsValid (builder_add allocates mb key value).0
      × (((builder_add allocates mb key value).1 ≡ true)
            × ((builder_add allocates mb key value).0.entries
                ≡ mb.entries ++ record { key = key; value = value } ∷ [])
          ⊎ ((builder_add allocates mb key value).1 ≡ false)
            × ((builder_add allocates mb key value).0.entries ≡ mb.entries))
unfolding builder_add
builder_add-IsValid allocates mb key value grants v = ground (
  arith,
  length-append mb.entries (record { key = key; value = value } ∷ []),
  grants ((if mb.cap == 0 then 8 else mb.cap * 2 % size_mod) * 24 % size_mod),
  v.counted,
  v.within,
  v.small,
)
