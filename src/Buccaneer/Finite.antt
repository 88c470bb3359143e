-- ===== src/Buccaneer/Finite.antt =====
-- The maps of src/buccaneer/value.c are finite maps from texts to values.
pub mod Deletion
pub mod Calls
use mutineer.Prelude.{
  ℕ, zero, suc, ◌≡◌, ◌∙◌, ap, sym, subst, refl, inl, inr, Bool, true, false, not, ◌&&◌, Option,
  none, some, List, [], ◌∷◌, ◌++◌, length, leb, ◌==◌, ==-refl, if◌then◌else◌, Bool-cases,
  Option-cases, arith,
}
use mutineer.Buccaneer.{Str, string_new, hash_bytes, Value, null, string_cmp, is_eq}
use mutineer.Buccaneer.Strings.{same_text, same_text_refl, same_text_eq, string_cmp-same}
use mutineer.Buccaneer.Maps.{
  MapEntry, Map, map_new, has_key, next_place, map_find, entry_at, value_at, got, find_value,
  map_get, Changed, replace_value, set_at, set_new, set_found, map_set, is_there, map_has,
  remove_at, delete_found, map_delete,
}

abbrev pub IsHashed : Str → Type 0
IsHashed s = s.hash ≡ hash_bytes s.bytes

-- The abstract view: the value under a text.
unfoldable pub view : List MapEntry → List ℕ → Option Value
view [] q = none
view (e ∷ es) q = let rest = view es q in if same_text e.key.bytes q then e.value else rest

-- Each key once, with its hash and with a value.
pub data IsEntries : List MapEntry → Type 0 where
  nothing : IsEntries []
  entry :
      (key : Str) (v : Value) (es : List MapEntry)
      → IsHashed key
      → view es key.bytes ≡ none
      → IsEntries es
      → IsEntries (record { key = key; value = some v } ∷ es)

pub has_key-same :
    (key : Str) (e : MapEntry)
    → IsHashed key
    → IsHashed e.key
    → has_key key e ≡ same_text e.key.bytes key.bytes
unfolding has_key
has_key-same key e hk he =
    rw (string_cmp-same e.key.bytes key.bytes)
      (elim (Bool-cases (same_text e.key.bytes key.bytes)) [
        | inl t ↦
            let bytes = same_text_eq e.key.bytes key.bytes t in
            let hashes : e.key.hash ≡ key.hash = he ∙ ap hash_bytes bytes ∙ sym hk in
            rw (t, hashes, ==-refl (key.hash)) refl
        | inr t ↦ rw t (ground arith)
      ])

find_value-next :
    (e : MapEntry) (es : List MapEntry) (o : Option ℕ)
    → find_value (e ∷ es) (next_place o) ≡ find_value es o
unfolding entry_at
find_value-next e es none = refl
find_value-next e es (some i) = refl

pub find_value-view :
    (es : List MapEntry) (key : Str)
    → IsEntries es
    → IsHashed key
    → find_value es (map_find es key) ≡ view es key.bytes
unfolding map_find view entry_at
find_value-view [] key v h = refl
find_value-view (e ∷ es) key (entry k x more hashed once v) h =
    rw (has_key-same key e h hashed) (elim (Bool-cases (same_text k.bytes key.bytes)) [
      | inl t ↦ rw t refl
      | inr t ↦ rw t (find_value-next e es (map_find es key) ∙ find_value-view es key v h)
    ])

abbrev pub is_some : Option Value → Bool
is_some none = false
is_some (some v) = true

is_there-next : (o : Option ℕ) → is_there (next_place o) ≡ is_there o
is_there-next none = refl
is_there-next (some i) = refl

pub map_find-there :
    (es : List MapEntry) (key : Str)
    → IsEntries es
    → IsHashed key
    → is_there (map_find es key) ≡ is_some (view es key.bytes)
unfolding map_find view
map_find-there [] key v h = refl
map_find-there (e ∷ es) key (entry k x more hashed once v) h =
    rw (has_key-same key e h hashed) (elim (Bool-cases (same_text k.bytes key.bytes)) [
      | inl t ↦ rw t refl
      | inr t ↦ rw t (is_there-next (map_find es key) ∙ map_find-there es key v h)
    ])

-- What map_set does to the entries, by their structure.
unfoldable pub put_entry : List MapEntry → Str → Value → List MapEntry
put_entry [] key v = record { key = key; value = some v } ∷ []
put_entry (e ∷ es) key v =
    let rest = put_entry es key v in
    if has_key key e then record e { value = some v } ∷ es else e ∷ rest

abbrev placed : List MapEntry → Str → Value → Option ℕ → List MapEntry
placed es key v none = es ++ record { key = key; value = some v } ∷ []
placed es key v (some i) = replace_value es i v

placed-next :
    (e : MapEntry) (es : List MapEntry) (key : Str) (v : Value) (o : Option ℕ)
    → placed (e ∷ es) key v (next_place o) ≡ e ∷ placed es key v o
unfolding replace_value
placed-next e es key v none = refl
placed-next e es key v (some i) = refl

placed-put_entry :
    (es : List MapEntry) (key : Str) (v : Value)
    → placed es key v (map_find es key) ≡ put_entry es key v
unfolding map_find put_entry replace_value
placed-put_entry [] key v = refl
placed-put_entry (e ∷ es) key v = elim (Bool-cases (has_key key e)) [
  | inl t ↦ rw t refl
  | inr t ↦
      rw t (placed-next e es key v (map_find es key) ∙ ap (λ l. e ∷ l) (placed-put_entry es key v))
]

set_new-placed :
    (m : Map) (key : Str) (v : Value)
    → ((set_new true true m key v).ok ≡ true)
      × ((set_new true true m key v).left.entries ≡ placed m.entries key v none)
unfolding set_new
set_new-placed m key v = elim (Bool-cases (leb m.room (length m.entries))) [
  | inl t ↦ rw t (refl, refl)
  | inr t ↦ rw t (refl, refl)
]

set_at-placed :
    (m : Map) (key : Str) (i : ℕ) (o : Option Value) (v : Value)
    → ((set_at true m i o v).ok ≡ true)
      × ((set_at true m i o v).left.entries ≡ placed m.entries key v (some i))
unfolding set_at
set_at-placed m key i none v = (refl, refl)
set_at-placed m key i (some old) v = (refl, refl)

set_found-placed :
    (m : Map) (key : Str) (v : Value) (o : Option ℕ)
    → ((set_found true true m key v o).ok ≡ true)
      × ((set_found true true m key v o).left.entries ≡ placed m.entries key v o)
set_found-placed m key v none = set_new-placed m key v
set_found-placed m key v (some i) = set_at-placed m key i (value_at (entry_at m.entries i)) v

pub map_set-put_entry :
    (m : Map) (key : Str) (v : Value)
    → ((map_set true true m key v).ok ≡ true)
      × ((map_set true true m key v).left.entries ≡ put_entry m.entries key v)
unfolding map_set
map_set-put_entry m key v =
    let found = set_found-placed m key v (map_find m.entries key) in
    (found.0, found.1 ∙ placed-put_entry m.entries key v)

pub same_text_eq_left : (a b q : List ℕ) → same_text a b ≡ true → same_text a q ≡ same_text b q
same_text_eq_left a b q h = ap (λ t. same_text t q) (same_text_eq a b h)

pub same_text_apart :
    (a b q : List ℕ) → same_text a b ≡ false → same_text a q ≡ true → same_text b q ≡ false
same_text_apart a b q h t = elim (Bool-cases (same_text b q)) [
  | inl u ↦
      let same : a ≡ b = same_text_eq a q t ∙ sym (same_text_eq b q u) in
      let clash : false ≡ true = sym h ∙ ap (λ l. same_text l b) same ∙ same_text_refl b in
      ground (arith, clash)
  | inr u ↦ u
]

pub same_text_swap : (a b : List ℕ) → same_text a b ≡ false → same_text b a ≡ false
same_text_swap a b h = same_text_apart a b a h (same_text_refl a)

if_twice {ℓ} :
    {A : Type ℓ} (b : Bool) (x y z : A)
    → (if b then x else z) ≡ (if b then x else if b then y else z)
if_twice true x y z = refl
if_twice false x y z = refl

pub view-put_entry :
    (es : List MapEntry) (key : Str) (v : Value) (q : List ℕ)
    → IsEntries es
    → IsHashed key
    → view (put_entry es key v) q ≡ (if same_text key.bytes q then some v else view es q)
unfolding view put_entry
view-put_entry [] key v q w h = refl
view-put_entry (e ∷ es) key v q (entry k x more hashed once w) h =
    rw (has_key-same key e h hashed) (elim (Bool-cases (same_text k.bytes key.bytes)) [
      | inl t ↦ rw t (
          rw (same_text_eq_left k.bytes key.bytes q t)
            (if_twice (same_text key.bytes q) (some v) (some x) (view es q)))
      | inr t ↦
          rw (t, view-put_entry es key v q w h)
            (elim (Bool-cases (same_text k.bytes q)) [
              | inl u ↦ rw (u, same_text_apart k.bytes key.bytes q t u) refl
              | inr u ↦ rw u refl
            ])
    ])

pub put_entry-IsEntries :
    (es : List MapEntry) (key : Str) (v : Value)
    → IsHashed key
    → IsEntries es
    → IsEntries (put_entry es key v)
unfolding put_entry view
put_entry-IsEntries [] key v h w = entry key v [] h refl nothing
put_entry-IsEntries (e ∷ es) key v h (entry k x more hashed once w) =
    rw (has_key-same key e h hashed) (elim (Bool-cases (same_text k.bytes key.bytes)) [
      | inl t ↦ rw t (entry k v es hashed once w)
      | inr t ↦ rw t (
          entry k x (put_entry es key v) hashed
            (view-put_entry es key v (k.bytes) w h ∙ rw (same_text_swap k.bytes key.bytes t) once)
            (put_entry-IsEntries es key v h w))
    ])
