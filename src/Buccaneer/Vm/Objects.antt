-- ===== src/Buccaneer/Vm/Objects.antt =====
-- The operations of bucc_vm_step in src/buccaneer/vm.c on arrays and maps.
use mutineer.Prelude.{
  ℕ, zero, suc, ◌*◌, Bool, false, not, ◌&&◌, List, [], ◌∷◌, ◌++◌, ltb, if◌then◌else◌,
}
use mutineer.Buccaneer.{Value, null, boolean, i64, string, array, map_of}
use mutineer.Buccaneer.Vm.{World, Machine, vm_error, no_room_for_array, vm_fail, release, push, pop}
use mutineer.Buccaneer.Vm.Ops.{with_one, with_two, with_three, push_own, push_made}

module _ {H : Type 0} (w : World H) where
  -- The n values on top, the lowest of them first.
  unfoldable pub pop_many : ℕ → Machine H → List Value × Machine H
  pop_many zero m = ([], m)
  pop_many (suc n) m = let v = pop m in let rest = pop_many n v.1 in (rest.0 ++ v.0 ∷ [], rest.1)

  abbrev pub on_heap : (H → H) → Machine H → Machine H
  on_heap f m = record m { heap = f m.heap }

  -- Each item is pushed into the array and released.
  unfoldable pub push_items : ℕ → List Value → Machine H → Machine H
  push_items p [] m = m
  push_items p (v ∷ vs) m = push_items p vs (release w v (on_heap (λ h. w.push_item h p v) m))

  abbrev pub size_or : ℕ → ℕ
  size_or count = if ltb 0 count then count else 8

  -- A bucc_value_t has 16 bytes.
  unfoldable pub array_of : ℕ → Machine H → Machine H
  array_of count m =
      let a = w.new_array m.heap (size_or count) in
      let made = record m { heap = a.0 } in
      let items = pop_many count made in
      if ltb 0 count && not (w.has_room made.heap (count * 16))
      then vm_fail vm_error no_room_for_array (release w (array a.1) made)
      else push_own w (array a.1) (push_items a.1 items.0 items.1)

  abbrev pub got_item : Value → Value → Machine H → Machine H
  got_item (array p) (i64 i) m = push_made w (w.get_item m.heap p i) m
  got_item _ _ m = push w null m

  unfoldable pub op_array_get : Machine H → Machine H
  op_array_get = with_two w got_item

  abbrev pub put_item : Value → Value → Value → Machine H → Machine H
  put_item (array p) (i64 i) v m = on_heap (λ h. w.set_item h p i v) m
  put_item _ _ _ m = m

  unfoldable pub op_array_set : Machine H → Machine H
  op_array_set = with_three w put_item

  abbrev pub added_item : Value → Value → Machine H → Machine H
  added_item (array p) v m = on_heap (λ h. w.push_item h p v) m
  added_item _ _ m = m

  unfoldable pub op_array_push : Machine H → Machine H
  op_array_push = with_two w added_item

  abbrev pub taken_item : Value → Machine H → Machine H
  taken_item (array p) m = let r = w.pop_item m.heap p in push w r.1 (record m { heap = r.0 })
  taken_item _ m = push w null m

  unfoldable pub op_array_pop : Machine H → Machine H
  op_array_pop = with_one w taken_item

  abbrev pub put_entry : ℕ → Value → Value → Machine H → Machine H
  put_entry p (string key) v m = on_heap (λ h. w.set_entry h p key v) m
  put_entry p _ _ m = m

  -- The values on top of their keys; the key is released first.
  unfoldable pub set_entries : ℕ → ℕ → Machine H → Machine H
  set_entries p zero m = m
  set_entries p (suc n) m =
      let v = pop m in
      let key = pop v.1 in
      set_entries p n (release w v.0 (release w key.0 (put_entry p key.0 v.0 key.1)))

  unfoldable pub map_with : ℕ → Machine H → Machine H
  map_with count m =
      let r = w.new_map m.heap (size_or count) in
      push_own w (map_of r.1) (set_entries r.1 count (record m { heap = r.0 }))

  abbrev pub got_entry : Value → Value → Machine H → Machine H
  got_entry (map_of p) (string key) m = push_made w (w.get_entry m.heap p key) m
  got_entry _ _ m = push w null m

  unfoldable pub op_map_get : Machine H → Machine H
  op_map_get = with_two w got_entry

  abbrev pub put_in_map : Value → Value → Value → Machine H → Machine H
  put_in_map (map_of p) key v m = put_entry p key v m
  put_in_map _ _ _ m = m

  unfoldable pub op_map_set : Machine H → Machine H
  op_map_set = with_three w put_in_map

  abbrev pub there : H → Value → Value → Bool
  there h (map_of p) (string key) = w.has_entry h p key
  there h _ _ = false

  unfoldable pub op_map_has : Machine H → Machine H
  op_map_has = with_two w (λ a b m. push w (boolean (there m.heap a b)) m)

  -- For what is no map the new array keeps the reference that it was made with.
  abbrev pub listed : Value → Machine H → Machine H
  listed (map_of p) m = let r = w.keys_of m.heap p in push_made w (r.0, array r.1) m
  listed _ m = let r = w.new_array m.heap 0 in push w (array r.1) (record m { heap = r.0 })

  unfoldable pub op_map_keys : Machine H → Machine H
  op_map_keys = with_one w listed
