-- ===== src/Buccaneer/Maps.antt =====
-- The maps of src/buccaneer/value.c.
use mutineer.Prelude.{
  ℕ, zero, suc, ◌*◌, Bool, true, false, not, ◌&&◌, Option, none, some, List, [], ◌∷◌, ◌++◌, ltb,
  leb, ◌==◌, if◌then◌else◌, length,
}
use mutineer.Buccaneer.{
  Str, Value, null, string, Effect, retain, release, value_retain, value_release, string_cmp, is_eq,
  string_new,
}
use mutineer.Buccaneer.Strings.{same_text}
use mutineer.Buccaneer.Arrays.{Array, array_new, array_push, cap_or}

-- No value is a NULL pointer.
pub record MapEntry : Type 0 where
  pub key : Str
  pub value : Option Value

-- `entries` is the part of the array below `len`.
pub record Map : Type 0 where
  pub entries : List MapEntry
  pub room : ℕ

unfoldable pub map_new : ℕ → Map
map_new initial_cap = record { entries = []; room = cap_or initial_cap }

unfoldable pub has_key : Str → MapEntry → Bool
has_key key e = e.key.hash == key.hash && is_eq (string_cmp e.key.bytes key.bytes)

abbrev pub next_place : Option ℕ → Option ℕ
next_place none = none
next_place (some i) = some (suc i)

-- The index, and none for -1.
unfoldable pub map_find : List MapEntry → Str → Option ℕ
map_find [] key = none
map_find (e ∷ es) key =
    let rest = map_find es key in if has_key key e then some 0 else next_place rest

unfoldable pub entry_at : List MapEntry → ℕ → Option MapEntry
entry_at [] i = none
entry_at (e ∷ es) zero = some e
entry_at (e ∷ es) (suc i) = entry_at es i

abbrev pub value_at : Option MapEntry → Option Value
value_at none = none
value_at (some e) = e.value

abbrev pub got : Option Value → Value × List Effect
got none = (null, [])
got (some v) = (v, value_retain v)

abbrev pub find_value : List MapEntry → Option ℕ → Option Value
find_value es none = none
find_value es (some i) = value_at (entry_at es i)

unfoldable pub map_get : Map → Str → Value × List Effect
map_get m key = got (find_value m.entries (map_find m.entries key))

-- What a call leaves.
pub record Changed : Type 0 where
  pub ok : Bool
  pub left : Map
  pub effects : List Effect

unfoldable pub replace_value : List MapEntry → ℕ → Value → List MapEntry
replace_value [] i v = []
replace_value (e ∷ es) zero v = record e { value = some v } ∷ es
replace_value (e ∷ es) (suc i) v = e ∷ replace_value es i v

-- An entry that is there. `cell` is malloc's answer, asked for where no value is.
unfoldable pub set_at : Bool → Map → ℕ → Option Value → Value → Changed
set_at cell m i none v =
    if cell
    then record {
      ok = true;
      left = record m { entries = replace_value m.entries i v };
      effects = value_retain v;
    }
    else record { ok = false; left = m; effects = [] }
set_at cell m i (some old) v = record {
  ok = true;
  left = record m { entries = replace_value m.entries i v };
  effects = value_release old ++ value_retain v;
}

-- A new entry, with the answers of realloc and malloc.
unfoldable pub set_new : Bool → Bool → Map → Str → Value → Changed
set_new grows cell m key v =
    let full = leb m.room (length m.entries) in
    let grown = if full then m.room * 2 else m.room in
    if full && not grows
    then record { ok = false; left = m; effects = [] }
    else if not cell
    then record {
      ok = false;
      left = record m { room = grown };
      effects = retain key.object ∷ value_retain v ++ release key.object ∷ [];
    }
    else record {
      ok = true;
      left = record {
        entries = m.entries ++ record { key = key; value = some v } ∷ [];
        room = grown;
      };
      effects = retain key.object ∷ value_retain v;
    }

abbrev pub set_found : Bool → Bool → Map → Str → Value → Option ℕ → Changed
set_found grows cell m key v none = set_new grows cell m key v
set_found grows cell m key v (some i) = set_at cell m i (value_at (entry_at m.entries i)) v

unfoldable pub map_set : Bool → Bool → Map → Str → Value → Changed
map_set grows cell m key v = set_found grows cell m key v (map_find m.entries key)

abbrev pub is_there : Option ℕ → Bool
is_there none = false
is_there (some i) = true

unfoldable pub map_has : Map → Str → Bool
map_has m key = is_there (map_find m.entries key)

unfoldable pub remove_at : List MapEntry → ℕ → List MapEntry
remove_at [] i = []
remove_at (e ∷ es) zero = es
remove_at (e ∷ es) (suc i) = e ∷ remove_at es i

abbrev pub release_value : Option Value → List Effect
release_value none = []
release_value (some v) = value_release v

unfoldable pub entry_release : Option MapEntry → List Effect
entry_release none = []
entry_release (some e) = release e.key.object ∷ release_value e.value

abbrev pub delete_found : Map → Option ℕ → Changed
delete_found m none = record { ok = false; left = m; effects = [] }
delete_found m (some i) = record {
  ok = true;
  left = record m { entries = remove_at m.entries i };
  effects = entry_release (entry_at m.entries i);
}

unfoldable pub map_delete : Map → Str → Changed
map_delete m key = delete_found m (map_find m.entries key)

-- The keys' array, in a run whose reallocs answer `grows`, and the effects.
unfoldable pub keys_from : Bool → Array → List MapEntry → Array × List Effect
keys_from grows keys [] = (keys, [])
keys_from grows keys (e ∷ es) =
    let pushed = array_push grows keys (string e.key) in
    let rest = keys_from grows pushed.left es in
    (rest.0, retain e.key.object ∷ pushed.effects ++ rest.1)

unfoldable pub map_keys : Bool → Map → Array × List Effect
map_keys grows m =
    keys_from grows (array_new (if ltb 0 (length m.entries) then length m.entries else 1)) m.entries

-- The loop of bucc_map_release, when the last reference goes.
unfoldable pub release_entries : List MapEntry → List Effect
release_entries [] = []
release_entries (e ∷ es) = entry_release (some e) ++ release_entries es

-- The calls with a C string make a key, `object`, and give its reference back.
unfoldable pub map_set_cstr : Bool → Bool → ℕ → Map → List ℕ → Value → Changed
map_set_cstr grows cell object m text v =
    let c = map_set grows cell m (string_new object text) v in
    record c { effects = c.effects ++ release object ∷ [] }

unfoldable pub map_has_cstr : ℕ → Map → List ℕ → Bool × List Effect
map_has_cstr object m text = (map_has m (string_new object text), release object ∷ [])

unfoldable pub map_delete_cstr : ℕ → Map → List ℕ → Changed
map_delete_cstr object m text =
    let c = map_delete m (string_new object text) in
    record c { effects = c.effects ++ release object ∷ [] }

-- A key as strcmp reads it.
unfoldable pub until_nul : List ℕ → List ℕ
until_nul [] = []
until_nul (c ∷ cs) = let rest = until_nul cs in if c == 0 then [] else c ∷ rest

unfoldable pub find_text : List MapEntry → List ℕ → Option Value
find_text [] text = none
find_text (e ∷ es) text =
    if same_text (until_nul e.key.bytes) text then e.value else find_text es text

abbrev pub is_null : Value → Bool
is_null null = true
is_null _ = false

unfoldable pub map_get_cstr : ℕ → Map → List ℕ → Option Value × List Effect
map_get_cstr object m text =
    let r = map_get m (string_new object text) in
    (if is_null r.0 then none else find_text m.entries text, r.1 ++ release object ∷ [])
