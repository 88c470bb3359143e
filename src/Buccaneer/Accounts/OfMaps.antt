-- ===== src/Buccaneer/Accounts/OfMaps.antt =====
-- The maps of src/buccaneer/value.c give back every reference that they take, but those of
-- bucc_map_keys.
use mutineer.Prelude.{
  ℕ, zero, suc, ◌+◌, ◌*◌, ◌≡◌, ◌∙◌, ap, sym, refl, inl, inr, Bool, true, false, not, ◌&&◌, Option,
  none, some, List, [], ◌∷◌, ◌++◌, length, leb, ltb, if◌then◌else◌, Bool-cases, Option-cases, arith,
}
use mutineer.Buccaneer.{Str, Value, null, string, Effect, value_retain, value_release}
use mutineer.Buccaneer.Arrays.{Array, array_push, array_new}
use mutineer.Buccaneer.Maps.{
  MapEntry, Map, has_key, next_place, map_find, entry_at, got, find_value, map_get, replace_value,
  set_at, set_new, map_set, remove_at, release_value, entry_release, map_delete, release_entries,
  keys_from, map_keys,
}
use mutineer.Buccaneer.Accounts.{
  hit, refs, held, retains, releases, retains-append, releases-append, held-append,
  value_retain-counts, value_release-counts,
}

abbrev pub value_refs : ℕ → Option Value → ℕ
value_refs p none = 0
value_refs p (some v) = refs p v

-- The references of keys and values.
unfoldable pub entries_hold : ℕ → List MapEntry → ℕ
entries_hold p [] = 0
entries_hold p (e ∷ es) = hit p e.key.object + value_refs p e.value + entries_hold p es

pub data Call : Type 0 where
  do_set : Bool → Str → Value → Call
  do_get do_delete : Str → Call
  do_release : Call

-- What a call leaves: the map, the effects, and the values handed to the caller.
pub record Done : Type 0 where
  pub map : Map
  pub effects : List Effect
  pub handed : List Value

-- realloc answers as the call says, malloc finds a cell.
unfoldable pub call : Map → Call → Done
call m (do_set grows key v) = record {
  map = (map_set grows true m key v).left;
  effects = (map_set grows true m key v).effects;
  handed = [];
}
call m (do_get key) = record {
  map = m;
  effects = (map_get m key).1;
  handed = (map_get m key).0 ∷ [];
}
call m (do_delete key) = record {
  map = (map_delete m key).left;
  effects = (map_delete m key).effects;
  handed = [];
}
call m do_release = record {
  map = record m { entries = [] };
  effects = release_entries m.entries;
  handed = [];
}

unfoldable pub run_map : Map → List Call → Done
run_map m [] = record { map = m; effects = []; handed = [] }
run_map m (c ∷ cs) =
    let first = call m c in
    let rest = run_map first.map cs in
    record {
      map = rest.map;
      effects = first.effects ++ rest.effects;
      handed = first.handed ++ rest.handed;
    }

abbrev Balances : ℕ → Map → Map → List Effect → List Value → Type 0
Balances p m m' effects handed =
    retains p effects + entries_hold p m.entries
    ≡ releases p effects + entries_hold p m'.entries + held p handed

nothing_taken :
    (p : ℕ) → (retains p [] ≡ 0) × (releases p [] ≡ 0) × (held p [] ≡ 0) × (refs p null ≡ 0)
unfolding retains releases held
nothing_taken p = (refl, refl, refl, refl)

held-one : (p : ℕ) (v : Value) → held p (v ∷ []) ≡ refs p v
unfolding held
held-one p v = omega arith

entries_hold-append :
    (p : ℕ) (es fs : List MapEntry)
    → entries_hold p (es ++ fs) ≡ entries_hold p es + entries_hold p fs
unfolding entries_hold
entries_hold-append p [] fs = omega arith
entries_hold-append p (e ∷ es) fs = omega (arith, entries_hold-append p es fs)

entries_hold-one :
    (p : ℕ) (key : Str) (v : Value)
    → entries_hold p (record { key = key; value = some v } ∷ []) ≡ hit p key.object + refs p v
unfolding entries_hold
entries_hold-one p key v = omega arith

-- An index that map_find gives has an entry.
map_find-entry_at :
    (es : List MapEntry) (key : Str) (i : ℕ)
    → map_find es key ≡ some i
    → (e : MapEntry) × (entry_at es i ≡ some e)
unfolding map_find entry_at
map_find-entry_at [] key i h = absurd (cc h)
map_find-entry_at (e ∷ es) key i h =
    go (has_key key e) (map_find es key) (map_find-entry_at es key) i h
  where
    go :
        (b : Bool) (o : Option ℕ)
        → ((j : ℕ) → o ≡ some j → (f : MapEntry) × (entry_at es j ≡ some f))
        → (j : ℕ) → (if b then some 0 else next_place o) ≡ some j
        → (f : MapEntry) × (entry_at (e ∷ es) j ≡ some f)
    go true o rec zero g = (e, refl)
    go true o rec (suc j) g = absurd (omega (arith, some-zero j g))
      where
        some-zero : (k : ℕ) → some 0 ≡ some (suc k) → 0 ≡ suc k
        some-zero k q = cc q
    go false none rec j g = absurd (cc g)
    go false (some k) rec zero g = (e, refl)
    go false (some k) rec (suc j) g =
        let down : suc k ≡ suc j = cc g in rec j (ap some (omega (arith, down)))

replace_value-holds :
    (p : ℕ) (es : List MapEntry) (i : ℕ) (e : MapEntry) (v : Value)
    → entry_at es i ≡ some e
    → entries_hold p (replace_value es i v) + value_refs p e.value ≡ entries_hold p es + refs p v
unfolding entry_at replace_value entries_hold
replace_value-holds p [] i e v h = absurd (cc h)
replace_value-holds p (f ∷ es) zero e v h = let same : f ≡ e = cc h in rw (sym same) (omega arith)
replace_value-holds p (f ∷ es) (suc i) e v h = omega (arith, replace_value-holds p es i e v h)

remove_at-holds :
    (p : ℕ) (es : List MapEntry) (i : ℕ) (e : MapEntry)
    → entry_at es i ≡ some e
    → entries_hold p (remove_at es i) + (hit p e.key.object + value_refs p e.value)
      ≡ entries_hold p es
unfolding entry_at remove_at entries_hold
remove_at-holds p [] i e h = absurd (cc h)
remove_at-holds p (f ∷ es) zero e h = let same : f ≡ e = cc h in rw (sym same) (omega arith)
remove_at-holds p (f ∷ es) (suc i) e h = omega (arith, remove_at-holds p es i e h)

set_new-Balances :
    (p : ℕ) (grows : Bool) (m : Map) (key : Str) (v : Value)
    → Balances p m (set_new grows true m key v).left (set_new grows true m key v).effects []
unfolding set_new retains releases
set_new-Balances p grows m key v =
    let none_taken = nothing_taken p in
    elim (Bool-cases (leb m.room (length m.entries) && not grows)) [
      | inl t ↦ rw t (omega (arith, none_taken))
      | inr t ↦
          rw (t, entries_hold-append p (m.entries) (record { key = key; value = some v } ∷ []))
            (omega (arith, none_taken, value_retain-counts p v, entries_hold-one p key v))
    ]

set_at-Balances :
    (p : ℕ) (m : Map) (i : ℕ) (o : Option Value) (v : Value)
    → entries_hold p (replace_value m.entries i v) + value_refs p o
      ≡ entries_hold p m.entries + refs p v
    → Balances p m (set_at true m i o v).left (set_at true m i o v).effects []
unfolding set_at
set_at-Balances p m i none v h = omega (arith, nothing_taken p, value_retain-counts p v, h)
set_at-Balances p m i (some old) v h =
    rw
      (
        retains-append p (value_release old) (value_retain v),
        releases-append p (value_release old) (value_retain v),
      )
      (omega (arith, nothing_taken p, value_retain-counts p v, value_release-counts p old, h))

set-Balances :
    (p : ℕ) (grows : Bool) (m : Map) (key : Str) (v : Value)
    → Balances p m (map_set grows true m key v).left (map_set grows true m key v).effects []
unfolding map_set
set-Balances p grows m key v = elim (Option-cases (map_find m.entries key)) [
  | inl t ↦ rw t (set_new-Balances p grows m key v)
  | inr t ↦
      let e = map_find-entry_at m.entries key (t.0) (t.1) in
      rw (t.1, e.1)
        (set_at-Balances p m (t.0) (e.0.value) v
          (replace_value-holds p (m.entries) (t.0) (e.0) v (e.1)))
]

release_value-counts :
    (p : ℕ) (o : Option Value)
    → (releases p (release_value o) ≡ value_refs p o) × (retains p (release_value o) ≡ 0)
unfolding retains releases
release_value-counts p none = (refl, refl)
release_value-counts p (some v) = value_release-counts p v

delete-Balances :
    (p : ℕ) (m : Map) (key : Str)
    → Balances p m (map_delete m key).left (map_delete m key).effects []
unfolding map_delete entry_release retains releases
delete-Balances p m key = elim (Option-cases (map_find m.entries key)) [
  | inl t ↦ rw t (omega (arith, nothing_taken p))
  | inr t ↦
      let e = map_find-entry_at m.entries key (t.0) (t.1) in
      rw (t.1, e.1)
        (omega (
          arith,
          nothing_taken p,
          release_value-counts p (e.0.value),
          remove_at-holds p (m.entries) (t.0) (e.0) (e.1),
        ))
]

get-Balances : (p : ℕ) (m : Map) (o : Option Value) → Balances p m m (got o).1 ((got o).0 ∷ [])
get-Balances p m none = omega (arith, nothing_taken p, held-one p null)
get-Balances p m (some v) = omega (arith, value_retain-counts p v, held-one p v)

release_entries-counts :
    (p : ℕ) (es : List MapEntry)
    → (releases p (release_entries es) ≡ entries_hold p es) × (retains p (release_entries es) ≡ 0)
unfolding release_entries entries_hold entry_release retains releases
release_entries-counts p [] = (refl, refl)
release_entries-counts p (e ∷ es) =
    let rest = release_entries-counts p es in
    let own = release_value-counts p e.value in
    rw
      (
        releases-append p (release_value e.value) (release_entries es),
        retains-append p (release_value e.value) (release_entries es),
      )
      (omega (arith, rest, own), omega (arith, rest, own))

release-Balances :
    (p : ℕ) (m : Map) → Balances p m (call m do_release).map (call m do_release).effects []
unfolding call entries_hold
release-Balances p m = omega (arith, nothing_taken p, release_entries-counts p m.entries)

call-Balances :
    (p : ℕ) (m : Map) (c : Call) → Balances p m (call m c).map (call m c).effects (call m c).handed
unfolding call map_get
call-Balances p m (do_set grows key v) = set-Balances p grows m key v
call-Balances p m (do_get key) = get-Balances p m (find_value m.entries (map_find m.entries key))
call-Balances p m (do_delete key) = delete-Balances p m key
call-Balances p m do_release = release-Balances p m

-- For every object on the heap and every sequence of settings, readings, deletions and releases of
-- all entries with the last reference, whatever realloc answers, while malloc finds room for a value:
-- the references taken, with those the map held before by its keys and values, are as many as those
-- given back, those it holds now and those handed to the caller.
pub run_map-Balances :
    (p : ℕ) (m : Map) (cs : List Call)
    → retains p (run_map m cs).effects + entries_hold p m.entries
      ≡ releases p (run_map m cs).effects
        + entries_hold p (run_map m cs).map.entries
        + held p (run_map m cs).handed
unfolding run_map retains releases held
run_map-Balances p m [] = omega arith
run_map-Balances p m (c ∷ cs) =
    let first = call m c in
    let rest = run_map first.map cs in
    rw
      (
        retains-append p (first.effects) (rest.effects),
        releases-append p (first.effects) (rest.effects),
        held-append p (first.handed) (rest.handed),
      )
      (omega (arith, call-Balances p m c, run_map-Balances p (first.map) cs))

push_granted :
    (a : Array) (v : Value)
    → ((array_push true a v).left.items ≡ a.items ++ v ∷ [])
      × ((array_push true a v).effects ≡ value_retain v)
unfolding array_push
push_granted a v = elim (Bool-cases (leb a.room (length a.items))) [
  | inl t ↦ rw t (refl, refl)
  | inr t ↦ rw t (refl, refl)
]

keys_from-holds :
    (p : ℕ) (keys : Array) (es : List MapEntry)
    → (retains p (keys_from true keys es).1 + 2 * held p keys.items
        ≡ 2 * held p (keys_from true keys es).0.items)
      × (releases p (keys_from true keys es).1 ≡ 0)
unfolding keys_from retains releases
keys_from-holds p keys [] = (omega arith, refl)
keys_from-holds p keys (e ∷ es) =
    let v = string e.key in
    let pushed = push_granted keys v in
    let next = (array_push true keys v).left in
    let tail = (keys_from true next es).1 in
    let rest = keys_from-holds p next es in
    let items = ap (held p) (pushed.0) ∙ held-append p (keys.items) (v ∷ []) in
    let counts = value_retain-counts p v in
    rw (pushed.1, retains-append p (value_retain v) tail, releases-append p (value_retain v) tail)
      (omega (arith, rest, items, counts, held-one p v), omega (arith, rest, counts))

-- The keys that bucc_map_keys gives hold half of the references that it takes, and it gives none
-- back: each key is retained once too often.
pub map_keys-leaks :
    (p : ℕ) (m : Map)
    → (retains p (map_keys true m).1 ≡ 2 * held p (map_keys true m).0.items)
      × (releases p (map_keys true m).1 ≡ 0)
unfolding map_keys array_new held
map_keys-leaks p m =
    let size = if ltb 0 (length m.entries) then length m.entries else 1 in
    let loop = keys_from-holds p (array_new size) (m.entries) in (omega (arith, loop), loop.1)
