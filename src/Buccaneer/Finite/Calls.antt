-- ===== src/Buccaneer/Finite/Calls.antt =====
-- Sequences of calls on a map of src/buccaneer/value.c.
use mutineer.Prelude.{ℕ, ◌≡◌, refl, Bool, true, Option, none, some, List, [], ◌∷◌, if◌then◌else◌}
use mutineer.Buccaneer.{string_new, Value, null}
use mutineer.Buccaneer.Strings.{same_text}
use mutineer.Buccaneer.Maps.{Map, map_new, got, map_get, map_set, map_has, map_delete}
use mutineer.Buccaneer.Finite.{
  IsHashed, view, IsEntries, nothing, is_some, view-put_entry, put_entry-IsEntries,
  map_set-put_entry, find_value-view, map_find-there,
}
use mutineer.Buccaneer.Finite.Deletion.{
  view-drop_entry, drop_entry-IsEntries, map_delete-drop_entry,
}

-- What a script does with a map. A key is a text, and the place of its string on the heap.
pub data Op : Type 0 where
  store : ℕ → List ℕ → Value → Op
  fetch test forget : ℕ → List ℕ → Op

pub data Answer : Type 0 where
  flag : Bool → Answer
  value : Value → Answer

-- Allocation succeeds.
unfoldable pub answers : Map → List Op → List Answer
answers m [] = []
answers m (store p k v ∷ ops) =
    flag (map_set true true m (string_new p k) v).ok
    ∷ answers (map_set true true m (string_new p k) v).left ops
answers m (fetch p k ∷ ops) = value (map_get m (string_new p k)).0 ∷ answers m ops
answers m (test p k ∷ ops) = flag (map_has m (string_new p k)) ∷ answers m ops
answers m (forget p k ∷ ops) =
    flag (map_delete m (string_new p k)).ok ∷ answers (map_delete m (string_new p k)).left ops

abbrev pub or_null : Option Value → Value
or_null none = null
or_null (some v) = v

-- The same of a function from texts to values.
unfoldable pub spec_answers : (List ℕ → Option Value) → List Op → List Answer
spec_answers f [] = []
spec_answers f (store p k v ∷ ops) =
    flag true ∷ spec_answers (λ q. if same_text k q then some v else f q) ops
spec_answers f (fetch p k ∷ ops) = value (or_null (f k)) ∷ spec_answers f ops
spec_answers f (test p k ∷ ops) = flag (is_some (f k)) ∷ spec_answers f ops
spec_answers f (forget p k ∷ ops) =
    flag (is_some (f k)) ∷ spec_answers (λ q. if same_text k q then none else f q) ops

string_new-IsHashed : (p : ℕ) (k : List ℕ) → IsHashed (string_new p k)
unfolding string_new
string_new-IsHashed p k = refl

got-or_null : (o : Option Value) → (got o).0 ≡ or_null o
got-or_null none = refl
got-or_null (some v) = refl

answers-Refines :
    (m : Map) (f : List ℕ → Option Value) (ops : List Op)
    → IsEntries m.entries
    → ((q : List ℕ) → view m.entries q ≡ f q)
    → answers m ops ≡ spec_answers f ops
unfolding answers spec_answers map_get map_has string_new
answers-Refines m f [] w agree = refl
answers-Refines m f (store p k v ∷ ops) w agree =
    let key = string_new p k in
    let done = map_set-put_entry m key v in
    let rest =
      answers-Refines (map_set true true m key v).left (λ q. if same_text k q then some v else f q)
        ops (rw done.1 (put_entry-IsEntries m.entries key v refl w))
        (λ q. rw (done.1, view-put_entry m.entries key v q w refl, agree q) refl) in
    rw (done.0, rest) refl
answers-Refines m f (fetch p k ∷ ops) w agree =
    let key = string_new p k in
    let rest = answers-Refines m f ops w agree in
    rw (rest, find_value-view m.entries key w refl, agree k, got-or_null (f k)) refl
answers-Refines m f (test p k ∷ ops) w agree =
    let key = string_new p k in
    let rest = answers-Refines m f ops w agree in
    rw (rest, map_find-there m.entries key w refl, agree k) refl
answers-Refines m f (forget p k ∷ ops) w agree =
    let key = string_new p k in
    let done = map_delete-drop_entry m key in
    let rest =
      answers-Refines (map_delete m key).left (λ q. if same_text k q then none else f q) ops
        (rw done.1 (drop_entry-IsEntries m.entries key refl w))
        (λ q. rw (done.1, view-drop_entry m.entries key q w refl, agree q) refl) in
    rw (done.0, rest, map_find-there m.entries key w refl, agree k) refl

-- While memory lasts, a new map answers every sequence of calls as a finite map does: bucc_map_get
-- gives the value last set under a key with the same bytes and not deleted since, or null, and
-- bucc_map_has and bucc_map_delete tell whether there is one, whatever the hashes.
pub map_new-Refines :
    (initial_cap : ℕ) (ops : List Op)
    → answers (map_new initial_cap) ops ≡ spec_answers (λ q. none) ops
unfolding map_new view
map_new-Refines initial_cap ops =
    answers-Refines (map_new initial_cap) (λ q. none) ops nothing (λ q. refl)
