-- ===== src/Buccaneer/Vm/Keeps/OfObjects.antt =====
-- That the operations on arrays and maps in src/buccaneer/vm.c keep the bounds.
use mutineer.Prelude.{ℕ, zero, suc, List, [], ◌∷◌}
use mutineer.Buccaneer.{
  Value, null, boolean, i64, f64, string, date, datetime, array, map_of, error,
}
use mutineer.Buccaneer.Vm.Keeps.{
  Keeps, Keeps-refl, Keeps-trans, if-Keeps, vm_fail-Keeps, release-Keeps, push-Keeps, pop-Keeps,
}
use mutineer.Buccaneer.Vm.{World, Machine, pop}
use mutineer.Buccaneer.Vm.Objects.{
  pop_many, push_items, array_of, got_item, op_array_get, put_item, op_array_set, added_item,
  op_array_push, taken_item, op_array_pop, put_entry, set_entries, map_with, got_entry, op_map_get,
  put_in_map, op_map_set, op_map_has, listed, op_map_keys,
}
use mutineer.Buccaneer.Vm.Keeps.OfValues.{
  with_one-Keeps, with_two-Keeps, with_three-Keeps, push_own-Keeps, on_heap-Keeps, push_made-Keeps,
}

module _ {H : Type 0} (w : World H) where
  pub pop_many-Keeps : (n : ℕ) (m : Machine H) → Keeps m (pop_many w n m).1
  unfolding pop_many
  pop_many-Keeps zero m = Keeps-refl m
  pop_many-Keeps (suc n) m = Keeps-trans (pop-Keeps m) (pop_many-Keeps n (pop m).1)

  push_items-Keeps : (p : ℕ) (vs : List Value) (m : Machine H) → Keeps m (push_items w p vs m)
  unfolding push_items
  push_items-Keeps p [] m = Keeps-refl m
  push_items-Keeps p (v ∷ vs) m =
      Keeps-trans (on_heap-Keeps w _ m)
        (Keeps-trans (release-Keeps w v _) (push_items-Keeps p vs _))

  pub array_of-Keeps : (count : ℕ) (m : Machine H) → Keeps m (array_of w count m)
  unfolding array_of
  array_of-Keeps count m = Keeps-trans (on_heap-Keeps w _ m) (
      if-Keeps _ (Keeps-trans (release-Keeps w _ _) (vm_fail-Keeps _ _ _)) (
        Keeps-trans (pop_many-Keeps count _)
          (Keeps-trans (push_items-Keeps _ _ _) (push_own-Keeps w _ _))))

  -- Each case of the kinds of the operands.
  got_item-Keeps : (a b : Value) (m : Machine H) → Keeps m (got_item w a b m)
  got_item-Keeps null b m = push-Keeps w _ m
  got_item-Keeps (boolean _) b m = push-Keeps w _ m
  got_item-Keeps (i64 _) b m = push-Keeps w _ m
  got_item-Keeps (f64 _) b m = push-Keeps w _ m
  got_item-Keeps (string _) b m = push-Keeps w _ m
  got_item-Keeps (date _ _ _) b m = push-Keeps w _ m
  got_item-Keeps (datetime _ _ _ _ _ _) b m = push-Keeps w _ m
  got_item-Keeps (array _) null m = push-Keeps w _ m
  got_item-Keeps (array _) (boolean _) m = push-Keeps w _ m
  got_item-Keeps (array _) (i64 _) m = push_made-Keeps w _ m
  got_item-Keeps (array _) (f64 _) m = push-Keeps w _ m
  got_item-Keeps (array _) (string _) m = push-Keeps w _ m
  got_item-Keeps (array _) (date _ _ _) m = push-Keeps w _ m
  got_item-Keeps (array _) (datetime _ _ _ _ _ _) m = push-Keeps w _ m
  got_item-Keeps (array _) (array _) m = push-Keeps w _ m
  got_item-Keeps (array _) (map_of _) m = push-Keeps w _ m
  got_item-Keeps (array _) (error _) m = push-Keeps w _ m
  got_item-Keeps (map_of _) b m = push-Keeps w _ m
  got_item-Keeps (error _) b m = push-Keeps w _ m

  put_entry-Keeps : (p : ℕ) (key v : Value) (m : Machine H) → Keeps m (put_entry w p key v m)
  put_entry-Keeps p null v m = Keeps-refl m
  put_entry-Keeps p (boolean _) v m = Keeps-refl m
  put_entry-Keeps p (i64 _) v m = Keeps-refl m
  put_entry-Keeps p (f64 _) v m = Keeps-refl m
  put_entry-Keeps p (string _) v m = on_heap-Keeps w _ m
  put_entry-Keeps p (date _ _ _) v m = Keeps-refl m
  put_entry-Keeps p (datetime _ _ _ _ _ _) v m = Keeps-refl m
  put_entry-Keeps p (array _) v m = Keeps-refl m
  put_entry-Keeps p (map_of _) v m = Keeps-refl m
  put_entry-Keeps p (error _) v m = Keeps-refl m

  set_entries-Keeps : (p n : ℕ) (m : Machine H) → Keeps m (set_entries w p n m)
  unfolding set_entries
  set_entries-Keeps p zero m = Keeps-refl m
  set_entries-Keeps p (suc n) m = Keeps-trans (pop-Keeps m) (
      Keeps-trans (pop-Keeps _) (
        Keeps-trans (put_entry-Keeps p _ _ _) (
          Keeps-trans (release-Keeps w _ _)
            (Keeps-trans (release-Keeps w _ _) (set_entries-Keeps p n _)))))

  pub map_with-Keeps : (count : ℕ) (m : Machine H) → Keeps m (map_with w count m)
  unfolding map_with
  map_with-Keeps count m =
      Keeps-trans (on_heap-Keeps w _ m)
        (Keeps-trans (set_entries-Keeps _ count _) (push_own-Keeps w _ _))

  put_item-Keeps : (a b c : Value) (m : Machine H) → Keeps m (put_item w a b c m)
  put_item-Keeps null b c m = Keeps-refl m
  put_item-Keeps (boolean _) b c m = Keeps-refl m
  put_item-Keeps (i64 _) b c m = Keeps-refl m
  put_item-Keeps (f64 _) b c m = Keeps-refl m
  put_item-Keeps (string _) b c m = Keeps-refl m
  put_item-Keeps (date _ _ _) b c m = Keeps-refl m
  put_item-Keeps (datetime _ _ _ _ _ _) b c m = Keeps-refl m
  put_item-Keeps (array _) null c m = Keeps-refl m
  put_item-Keeps (array _) (boolean _) c m = Keeps-refl m
  put_item-Keeps (array _) (i64 _) c m = on_heap-Keeps w _ m
  put_item-Keeps (array _) (f64 _) c m = Keeps-refl m
  put_item-Keeps (array _) (string _) c m = Keeps-refl m
  put_item-Keeps (array _) (date _ _ _) c m = Keeps-refl m
  put_item-Keeps (array _) (datetime _ _ _ _ _ _) c m = Keeps-refl m
  put_item-Keeps (array _) (array _) c m = Keeps-refl m
  put_item-Keeps (array _) (map_of _) c m = Keeps-refl m
  put_item-Keeps (array _) (error _) c m = Keeps-refl m
  put_item-Keeps (map_of _) b c m = Keeps-refl m
  put_item-Keeps (error _) b c m = Keeps-refl m

  added_item-Keeps : (a b : Value) (m : Machine H) → Keeps m (added_item w a b m)
  added_item-Keeps null b m = Keeps-refl m
  added_item-Keeps (boolean _) b m = Keeps-refl m
  added_item-Keeps (i64 _) b m = Keeps-refl m
  added_item-Keeps (f64 _) b m = Keeps-refl m
  added_item-Keeps (string _) b m = Keeps-refl m
  added_item-Keeps (date _ _ _) b m = Keeps-refl m
  added_item-Keeps (datetime _ _ _ _ _ _) b m = Keeps-refl m
  added_item-Keeps (array _) b m = on_heap-Keeps w _ m
  added_item-Keeps (map_of _) b m = Keeps-refl m
  added_item-Keeps (error _) b m = Keeps-refl m

  taken_item-Keeps : (a : Value) (m : Machine H) → Keeps m (taken_item w a m)
  taken_item-Keeps null m = push-Keeps w _ m
  taken_item-Keeps (boolean _) m = push-Keeps w _ m
  taken_item-Keeps (i64 _) m = push-Keeps w _ m
  taken_item-Keeps (f64 _) m = push-Keeps w _ m
  taken_item-Keeps (string _) m = push-Keeps w _ m
  taken_item-Keeps (date _ _ _) m = push-Keeps w _ m
  taken_item-Keeps (datetime _ _ _ _ _ _) m = push-Keeps w _ m
  taken_item-Keeps (array _) m = Keeps-trans (on_heap-Keeps w _ m) (push-Keeps w _ _)
  taken_item-Keeps (map_of _) m = push-Keeps w _ m
  taken_item-Keeps (error _) m = push-Keeps w _ m

  got_entry-Keeps : (a b : Value) (m : Machine H) → Keeps m (got_entry w a b m)
  got_entry-Keeps null b m = push-Keeps w _ m
  got_entry-Keeps (boolean _) b m = push-Keeps w _ m
  got_entry-Keeps (i64 _) b m = push-Keeps w _ m
  got_entry-Keeps (f64 _) b m = push-Keeps w _ m
  got_entry-Keeps (string _) b m = push-Keeps w _ m
  got_entry-Keeps (date _ _ _) b m = push-Keeps w _ m
  got_entry-Keeps (datetime _ _ _ _ _ _) b m = push-Keeps w _ m
  got_entry-Keeps (array _) b m = push-Keeps w _ m
  got_entry-Keeps (map_of _) null m = push-Keeps w _ m
  got_entry-Keeps (map_of _) (boolean _) m = push-Keeps w _ m
  got_entry-Keeps (map_of _) (i64 _) m = push-Keeps w _ m
  got_entry-Keeps (map_of _) (f64 _) m = push-Keeps w _ m
  got_entry-Keeps (map_of _) (string _) m = push_made-Keeps w _ m
  got_entry-Keeps (map_of _) (date _ _ _) m = push-Keeps w _ m
  got_entry-Keeps (map_of _) (datetime _ _ _ _ _ _) m = push-Keeps w _ m
  got_entry-Keeps (map_of _) (array _) m = push-Keeps w _ m
  got_entry-Keeps (map_of _) (map_of _) m = push-Keeps w _ m
  got_entry-Keeps (map_of _) (error _) m = push-Keeps w _ m
  got_entry-Keeps (error _) b m = push-Keeps w _ m

  put_in_map-Keeps : (a b c : Value) (m : Machine H) → Keeps m (put_in_map w a b c m)
  put_in_map-Keeps null b c m = Keeps-refl m
  put_in_map-Keeps (boolean _) b c m = Keeps-refl m
  put_in_map-Keeps (i64 _) b c m = Keeps-refl m
  put_in_map-Keeps (f64 _) b c m = Keeps-refl m
  put_in_map-Keeps (string _) b c m = Keeps-refl m
  put_in_map-Keeps (date _ _ _) b c m = Keeps-refl m
  put_in_map-Keeps (datetime _ _ _ _ _ _) b c m = Keeps-refl m
  put_in_map-Keeps (array _) b c m = Keeps-refl m
  put_in_map-Keeps (map_of _) b c m = put_entry-Keeps _ b c m
  put_in_map-Keeps (error _) b c m = Keeps-refl m

  listed-Keeps : (a : Value) (m : Machine H) → Keeps m (listed w a m)
  listed-Keeps null m = Keeps-trans (on_heap-Keeps w _ m) (push-Keeps w _ _)
  listed-Keeps (boolean _) m = Keeps-trans (on_heap-Keeps w _ m) (push-Keeps w _ _)
  listed-Keeps (i64 _) m = Keeps-trans (on_heap-Keeps w _ m) (push-Keeps w _ _)
  listed-Keeps (f64 _) m = Keeps-trans (on_heap-Keeps w _ m) (push-Keeps w _ _)
  listed-Keeps (string _) m = Keeps-trans (on_heap-Keeps w _ m) (push-Keeps w _ _)
  listed-Keeps (date _ _ _) m = Keeps-trans (on_heap-Keeps w _ m) (push-Keeps w _ _)
  listed-Keeps (datetime _ _ _ _ _ _) m = Keeps-trans (on_heap-Keeps w _ m) (push-Keeps w _ _)
  listed-Keeps (array _) m = Keeps-trans (on_heap-Keeps w _ m) (push-Keeps w _ _)
  listed-Keeps (map_of _) m = push_made-Keeps w _ m
  listed-Keeps (error _) m = Keeps-trans (on_heap-Keeps w _ m) (push-Keeps w _ _)

  pub op_array_get-Keeps : (m : Machine H) → Keeps m (op_array_get w m)
  unfolding op_array_get
  op_array_get-Keeps m = with_two-Keeps w _ got_item-Keeps m

  pub op_array_set-Keeps : (m : Machine H) → Keeps m (op_array_set w m)
  unfolding op_array_set
  op_array_set-Keeps m = with_three-Keeps w _ put_item-Keeps m

  pub op_array_push-Keeps : (m : Machine H) → Keeps m (op_array_push w m)
  unfolding op_array_push
  op_array_push-Keeps m = with_two-Keeps w _ added_item-Keeps m

  pub op_array_pop-Keeps : (m : Machine H) → Keeps m (op_array_pop w m)
  unfolding op_array_pop
  op_array_pop-Keeps m = with_one-Keeps w _ taken_item-Keeps m

  pub op_map_get-Keeps : (m : Machine H) → Keeps m (op_map_get w m)
  unfolding op_map_get
  op_map_get-Keeps m = with_two-Keeps w _ got_entry-Keeps m

  pub op_map_set-Keeps : (m : Machine H) → Keeps m (op_map_set w m)
  unfolding op_map_set
  op_map_set-Keeps m = with_three-Keeps w _ put_in_map-Keeps m

  pub op_map_has-Keeps : (m : Machine H) → Keeps m (op_map_has w m)
  unfolding op_map_has
  op_map_has-Keeps m = with_two-Keeps w _ (λ a b n. push-Keeps w _ n) m

  pub op_map_keys-Keeps : (m : Machine H) → Keeps m (op_map_keys w m)
  unfolding op_map_keys
  op_map_keys-Keeps m = with_one-Keeps w _ listed-Keeps m
