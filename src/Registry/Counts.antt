-- ===== src/Registry/Counts.antt =====
-- The counts of plugins and of instances, and what a full array means for later calls.
use mutineer.Prelude.{
  ℕ, suc, ◌+◌, ◌-◌, ◌≤◌, ◌<◌, ◌≡◌, ◌≢◌, ◌↔◌, ap, refl, inl, inr, false, ◌&&◌, Option, none, some,
  List, [], ◌∷◌, ◌++◌, length, length-append, length-take, take, Bool-cases, if◌then◌else◌, arith,
}
use mutineer.Registry.{
  PluginDesc, PluginEntry, Registry, strcmp_eq, find_from, add_named, add_of, add, remove, find,
  count_from, count, get_from, get, instance_inc, instance_dec, instance_count, count_of, new_entry,
  list_line, list_from, list, has_instances_from, has_instances, unload, inc, dec,
}
use mutineer.Registry.Names.{changed, find-change, find-change_other, strcmp_eq-eq, strcmp_eq_refl}
use mutineer.Registry.Invariant.{inc-KeepsNames, dec-KeepsNames, length-change}
use mutineer.Registry.Calls.{Call, call_add, call_remove, call_inc, call_dec, step, run, is_found}

differ : (id other : List ℕ) → strcmp_eq id other ≡ false → id ≢ other
differ id other t e = ground (arith, ap (strcmp_eq id) e, strcmp_eq_refl id)

-- `instance_inc` adds one to the count of its id if that is loaded, and changes no other count.
pub instance_inc_lem :
    (r : Registry) (id other : List ℕ)
    → instance_count (instance_inc r (some id)) (some other) ≡ (
        if strcmp_eq id other && is_found (find r (some id))
        then suc (instance_count r (some other))
        else instance_count r (some other))
unfolding instance_count instance_inc find
instance_inc_lem r id other = elim (Bool-cases (strcmp_eq id other)) [
  | inl t ↦
      rw (← strcmp_eq-eq id other t, strcmp_eq_refl id, find-change inc r.plugins id (λ e. refl))
        (same (find_from r.plugins id))
  | inr t ↦
      rw (t, find-change_other inc r.plugins id other (inc-KeepsNames other) (differ id other t))
        refl
]
  where
    same :
        (o : Option PluginEntry)
        → count_of (changed inc o) ≡ (if is_found o then suc (count_of o) else count_of o)
    same none = refl
    same (some e) = refl

-- `instance_dec` takes one from the count of its id, which stops at 0, and changes no other count.
pub instance_dec_lem :
    (r : Registry) (id other : List ℕ)
    → instance_count (instance_dec r (some id)) (some other) ≡ (
        if strcmp_eq id other
        then instance_count r (some other) - 1
        else instance_count r (some other))
unfolding instance_count instance_dec
instance_dec_lem r id other = elim (Bool-cases (strcmp_eq id other)) [
  | inl t ↦
      rw (← strcmp_eq-eq id other t, strcmp_eq_refl id, find-change dec r.plugins id (λ e. refl))
        (same (find_from r.plugins id))
  | inr t ↦
      rw (t, find-change_other dec r.plugins id other (dec-KeepsNames other) (differ id other t))
        refl
]
  where
    same : (o : Option PluginEntry) → count_of (changed dec o) ≡ count_of o - 1
    same none = refl
    same (some e) = ground arith

get_from_lem :
    (es : List PluginEntry) (index n : ℕ)
    → n ≤ index
    → (get_from es index n ≡ none) ↔ (n + count_from es ≤ index)
unfolding get_from count_from
get_from_lem [] index n h = ground arith
get_from_lem (e ∷ es) index n h =
    ground (arith, get_from_lem es index n, get_from_lem es index (suc n))

-- `get` answers NULL for just the indices from the number of loaded plugins on.
pub get_lem : (r : Registry) (index : ℕ) → (get r index ≡ none) ↔ (count r ≤ index)
unfolding get count
get_lem r index = ground (arith, get_from_lem r.plugins index 0)

has_instances_from_lem :
    (es : List PluginEntry) (id : List ℕ)
    → has_instances_from es ≡ false
    → count_of (find_from es id) ≡ 0
unfolding has_instances_from find_from
has_instances_from_lem [] id n = refl
has_instances_from_lem (d ∷ es) id n = ground (arith, has_instances_from_lem es id)

-- If `has_instances` answers false, no id has an instance left.
pub has_instances_lem :
    (r : Registry) (id : List ℕ) → has_instances r ≡ false → instance_count r (some id) ≡ 0
unfolding has_instances instance_count
has_instances_lem r id h = has_instances_from_lem r.plugins id h

add-length :
    (r : Registry) (desc : Option PluginDesc) (dl_handle : Option ℕ) (path : Option (List ℕ))
    → length r.plugins ≤ length (add r desc dl_handle path).1.plugins
unfolding add add_of add_named
add-length r none dl_handle path = omega arith
add-length r (some desc) dl_handle path = go (desc.id)
  where
    go :
        (o : Option (List ℕ)) → length r.plugins ≤ length (add_of r desc o dl_handle path).1.plugins
    go none = omega arith
    go (some id) = ground (arith, length-append r.plugins (new_entry desc dl_handle path ∷ []))

step-length : (r : Registry) (c : Call) → length r.plugins ≤ length (step r c).plugins
unfolding step remove instance_inc instance_dec
step-length r (call_add desc dl_handle path) = add-length r desc dl_handle path
step-length r (call_remove none) = omega arith
step-length r (call_remove (some id)) = ground (arith, length-change unload id r.plugins)
step-length r (call_inc none) = omega arith
step-length r (call_inc (some id)) = omega (arith, length-change inc id r.plugins)
step-length r (call_dec none) = omega arith
step-length r (call_dec (some id)) = omega (arith, length-change dec id r.plugins)

run-length : (r : Registry) (cs : List Call) → length r.plugins ≤ length (run r cs).plugins
unfolding run
run-length r [] = omega arith
run-length r (c ∷ cs) = omega (arith, step-length r c, run-length (step r c) cs)

-- Once 64 places have been taken, no plugin can be added any more, whatever is removed: a place is
-- never given back.
pub full_stays_full :
    (r : Registry) (cs : List Call) (desc : Option PluginDesc) (dl_handle : Option ℕ)
    (path : Option (List ℕ))
    → 64 ≤ length r.plugins
    → add (run r cs) desc dl_handle path ≡ (false, run r cs)
unfolding add add_of add_named
full_stays_full r cs none dl_handle path h = refl
full_stays_full r cs (some desc) dl_handle path h = go (desc.id)
  where
    go : (o : Option (List ℕ)) → add_of (run r cs) desc o dl_handle path ≡ (false, run r cs)
    go none = refl
    go (some id) = ground (arith, run-length r cs)

list_from_fits :
    (decimal : ℕ → List ℕ) (es : List PluginEntry) (buf_sz : ℕ) (buf : List ℕ)
    → length buf < buf_sz
    → (length (list_from decimal es buf_sz buf).0 < buf_sz)
      × ((list_from decimal es buf_sz buf).1 ≤ length (list_from decimal es buf_sz buf).0)
unfolding list_from
list_from_fits decimal [] buf_sz buf h = (h, omega arith)
list_from_fits decimal (e ∷ es) buf_sz buf h = ground (
  arith,
  list_from_fits decimal es buf_sz buf,
  list_from_fits decimal es buf_sz (buf ++ list_line decimal e),
  length-append buf (list_line decimal e),
  length-append buf (take (buf_sz - length buf - 1) (list_line decimal e)),
  length-take (buf_sz - length buf - 1) (list_line decimal e),
)

-- The string that `list` leaves fits its buffer with the terminator, however many plugins there
-- are and however long their strings, and the answer is no more than its length.
pub list_fits :
    (decimal : ℕ → List ℕ) (r : Registry) (buf_sz : ℕ)
    → 0 < buf_sz
    → (length (list decimal r buf_sz).0 < buf_sz)
      × ((list decimal r buf_sz).1 ≤ length (list decimal r buf_sz).0)
unfolding list
list_fits decimal r buf_sz h = ground (arith, list_from_fits decimal r.plugins buf_sz [])
