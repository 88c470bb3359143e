-- ===== src/Buccaneer/Finite/Deletion.antt =====
-- Deleting from the maps of src/buccaneer/value.c.
use mutineer.Prelude.{
  ℕ, ◌≡◌, ◌∙◌, ap, sym, refl, inl, inr, Option, none, some, List, [], ◌∷◌, if◌then◌else◌,
  Bool-cases, arith,
}
use mutineer.Buccaneer.{Str}
use mutineer.Buccaneer.Strings.{same_text, same_text_eq}
use mutineer.Buccaneer.Maps.{
  MapEntry, Map, has_key, next_place, map_find, remove_at, is_there, delete_found, map_delete,
}
use mutineer.Buccaneer.Finite.{
  IsHashed, view, IsEntries, nothing, entry, has_key-same, same_text_eq_left, same_text_apart,
  same_text_swap,
}

-- What map_delete does to the entries.
unfoldable pub drop_entry : List MapEntry → Str → List MapEntry
drop_entry [] key = []
drop_entry (e ∷ es) key = let rest = drop_entry es key in if has_key key e then es else e ∷ rest

abbrev kept : List MapEntry → Option ℕ → List MapEntry
kept es none = es
kept es (some i) = remove_at es i

kept-next :
    (e : MapEntry) (es : List MapEntry) (o : Option ℕ)
    → kept (e ∷ es) (next_place o) ≡ e ∷ kept es o
unfolding remove_at
kept-next e es none = refl
kept-next e es (some i) = refl

kept-drop_entry : (es : List MapEntry) (key : Str) → kept es (map_find es key) ≡ drop_entry es key
unfolding map_find drop_entry remove_at
kept-drop_entry [] key = refl
kept-drop_entry (e ∷ es) key = elim (Bool-cases (has_key key e)) [
  | inl t ↦ rw t refl
  | inr t ↦ rw t (kept-next e es (map_find es key) ∙ ap (λ l. e ∷ l) (kept-drop_entry es key))
]

delete_found-kept :
    (m : Map) (o : Option ℕ)
    → ((delete_found m o).ok ≡ is_there o) × ((delete_found m o).left.entries ≡ kept m.entries o)
delete_found-kept m none = (refl, refl)
delete_found-kept m (some i) = (refl, refl)

pub view-drop_entry :
    (es : List MapEntry) (key : Str) (q : List ℕ)
    → IsEntries es
    → IsHashed key
    → view (drop_entry es key) q ≡ (if same_text key.bytes q then none else view es q)
unfolding view drop_entry
view-drop_entry [] key q w h = ground arith
view-drop_entry (e ∷ es) key q (entry k x more hashed once w) h =
    rw (has_key-same key e h hashed) (elim (Bool-cases (same_text k.bytes key.bytes)) [
      | inl t ↦
          rw (t, same_text_eq_left k.bytes key.bytes q t)
            (elim (Bool-cases (same_text key.bytes q)) [
              | inl u ↦ rw u (
                  ap (view es) (sym (same_text_eq k.bytes key.bytes t ∙ same_text_eq key.bytes q u))
                  ∙ once)
              | inr u ↦ rw u refl
            ])
      | inr t ↦
          rw (t, view-drop_entry es key q w h)
            (elim (Bool-cases (same_text k.bytes q)) [
              | inl u ↦ rw (u, same_text_apart k.bytes key.bytes q t u) refl
              | inr u ↦ rw u refl
            ])
    ])

pub drop_entry-IsEntries :
    (es : List MapEntry) (key : Str) → IsHashed key → IsEntries es → IsEntries (drop_entry es key)
unfolding drop_entry view
drop_entry-IsEntries [] key h w = nothing
drop_entry-IsEntries (e ∷ es) key h (entry k x more hashed once w) =
    rw (has_key-same key e h hashed) (elim (Bool-cases (same_text k.bytes key.bytes)) [
      | inl t ↦ rw t w
      | inr t ↦ rw t (
          entry k x (drop_entry es key) hashed
            (view-drop_entry es key (k.bytes) w h ∙ rw (same_text_swap k.bytes key.bytes t) once)
            (drop_entry-IsEntries es key h w))
    ])

pub map_delete-drop_entry :
    (m : Map) (key : Str)
    → ((map_delete m key).ok ≡ is_there (map_find m.entries key))
      × ((map_delete m key).left.entries ≡ drop_entry m.entries key)
unfolding map_delete
map_delete-drop_entry m key =
    let found = delete_found-kept m (map_find m.entries key) in
    (found.0, found.1 ∙ kept-drop_entry m.entries key)
