-- ===== src/Registry/Calls.antt =====
-- What the registry's calls promise to the loader and to the sessions.
use mutineer.Prelude.{
  ℕ, ◌≤◌, ◌<◌, ◌≡◌, ◌≢◌, ◌⊎◌, ap, refl, inl, inr, Bool, true, false, Option, none, some, List, [],
  ◌∷◌, ◌++◌, length, Bool-cases, Option-cases, leb, if◌then◌else◌, arith,
}
use mutineer.Registry.{
  PluginDesc, PluginEntry, Registry, strcmp_eq, is_named, find_from, change_first, init, add_named,
  add_of, add, remove, find, instance_inc, instance_dec, unload, new_entry,
}
use mutineer.Registry.Names.{
  find-append, find-append_found, find-change_other, strcmp_eq_refl, strcmp_eq-eq,
}
use mutineer.Registry.Invariant.{
  IsUnique, IsValid, unload-KeepsNames, unload-unnamed, add-IsValid, remove-IsValid,
  instance_inc-IsValid, instance_dec-IsValid, init-IsValid,
}

abbrev pub is_found : Option PluginEntry → Bool
is_found none = false
is_found (some e) = true

find-unload :
    (es : List PluginEntry) (id : List ℕ)
    → IsUnique es
    → find_from (change_first unload id es) id ≡ none
unfolding find_from change_first IsUnique
find-unload [] id u = refl
find-unload (e ∷ es) id (u, us) = elim (Bool-cases (is_named id e)) [
  | inl t ↦ rw (t, unload-unnamed id e) (u id t)
  | inr t ↦ rw (t, t) (find-unload es id us)
]

-- The calls that change the registry between its start and its end.
pub data Call : Type 0 where
  call_add : Option PluginDesc → Option ℕ → Option (List ℕ) → Call
  call_remove call_inc call_dec : Option (List ℕ) → Call

unfoldable pub step : Registry → Call → Registry
step r (call_add desc dl_handle path) = (add r desc dl_handle path).1
step r (call_remove id) = (remove r id).1
step r (call_inc id) = instance_inc r id
step r (call_dec id) = instance_dec r id

unfoldable pub run : Registry → List Call → Registry
run r [] = r
run r (c ∷ cs) = run (step r c) cs

step-IsValid : (r : Registry) (c : Call) → IsValid r → IsValid (step r c)
unfolding step
step-IsValid r (call_add desc dl_handle path) v = add-IsValid r desc dl_handle path v
step-IsValid r (call_remove id) v = remove-IsValid r id v
step-IsValid r (call_inc id) v = instance_inc-IsValid r id v
step-IsValid r (call_dec id) v = instance_dec-IsValid r id v

run_from-IsValid : (r : Registry) (cs : List Call) → IsValid r → IsValid (run r cs)
unfolding run
run_from-IsValid r [] v = v
run_from-IsValid r (c ∷ cs) v = run_from-IsValid (step r c) cs (step-IsValid r c v)

-- Whatever calls come after the registry's start, no two loaded plugins have the same id and the
-- array's 64 places are not overrun.
pub run-IsValid : (cs : List Call) → IsValid (run init cs)
run-IsValid cs = run_from-IsValid init cs init-IsValid

add-named :
    (r : Registry) (desc : PluginDesc) (dl_handle : Option ℕ) (path : Option (List ℕ)) {id : List ℕ}
    → desc.id ≡ some id
    → add r (some desc) dl_handle path ≡ add_named r desc id dl_handle path
unfolding add add_of
add-named r desc dl_handle path d = ap (λ o. add_of r desc o dl_handle path) d

-- With its id free and fewer than 64 places taken, a plugin is added and then found under its id,
-- with no instances; any other id is found as before.
pub add_lem :
    (r : Registry) (desc : PluginDesc) (dl_handle : Option ℕ) (path : Option (List ℕ))
    (id other : List ℕ)
    → desc.id ≡ some id
    → find r (some id) ≡ none
    → length r.plugins < 64
    → ((add r (some desc) dl_handle path).0 ≡ true)
      × (find (add r (some desc) dl_handle path).1 (some other) ≡ (
          if strcmp_eq id other then some (new_entry desc dl_handle path) else find r (some other)))
unfolding find find_from add_named
add_lem r desc dl_handle path id other d n room =
    let full : leb 64 (length r.plugins) ≡ false = ground arith in
    rw (add-named r desc dl_handle path d, add_named, n, full) (refl, found)
  where
    named : is_named other (new_entry desc dl_handle path) ≡ strcmp_eq id other
    named =
        ap
          (λ o.
            is_named other
              (record (new_entry desc dl_handle path) { desc = record desc { id = o } }))
          d

    found : find_from (r.plugins ++ new_entry desc dl_handle path ∷ []) other ≡ (
        if strcmp_eq id other
        then some (new_entry desc dl_handle path)
        else find_from r.plugins other)
    found = elim (Bool-cases (strcmp_eq id other)) [
      | inl t ↦
          let free : find_from r.plugins other ≡ none = rw (strcmp_eq-eq id other t) at n in
          rw (find-append r.plugins (new_entry desc dl_handle path) other free, named, t) refl
      | inr t ↦ elim (Option-cases (find_from r.plugins other)) [
        | inl free ↦
            rw (find-append r.plugins (new_entry desc dl_handle path) other free, named, t, free)
              refl
        | inr (e, there) ↦
            rw (find-append_found r.plugins (new_entry desc dl_handle path) other there, t, there)
              refl
      ]
    ]

-- A plugin whose id is loaded, or that comes when 64 places were taken, is refused, and nothing
-- changes.
pub add_refused :
    (r : Registry) (desc : PluginDesc) (dl_handle : Option ℕ) (path : Option (List ℕ)) {id : List ℕ}
    → desc.id ≡ some id
    → (find r (some id) ≢ none) ⊎ (64 ≤ length r.plugins)
    → add r (some desc) dl_handle path ≡ (false, r)
unfolding find add_named
add_refused r desc dl_handle path {id = id} d why = elim (Option-cases (find_from r.plugins id)) [
  | inl n ↦
      let full : leb 64 (length r.plugins) ≡ true = elim why [
        | inl f ↦ absurd (f n)
        | inr f ↦ ground arith
      ] in
      rw (add-named r desc dl_handle path d, add_named, n, full) refl
  | inr (e, n) ↦ rw (add-named r desc dl_handle path d, add_named, n) refl
]

-- Under the invariant `remove` answers whether the id was loaded; behind it the id is not found,
-- and any other id is found as before.
pub remove_lem :
    (r : Registry) (id other : List ℕ)
    → IsValid r
    → ((remove r (some id)).0 ≡ is_found (find r (some id)))
      × (find (remove r (some id)).1 (some other)
          ≡ (if strcmp_eq id other then none else find r (some other)))
unfolding find remove
remove_lem r id other v = elim (Option-cases (find_from r.plugins id)) [
  | inl n ↦ rw (remove, n) (refl, absent n)
  | inr (e, n) ↦ rw (remove, n) (refl, gone)
]
  where
    absent :
        find_from r.plugins id ≡ none
        → find_from r.plugins other
          ≡ (if strcmp_eq id other then none else find_from r.plugins other)
    absent n = elim (Bool-cases (strcmp_eq id other)) [
      | inl t ↦
          let t' : find_from r.plugins other ≡ none = rw (strcmp_eq-eq id other t) at n in
          rw (t, t') refl
      | inr t ↦ rw t refl
    ]

    gone :
        find_from (change_first unload id r.plugins) other
        ≡ (if strcmp_eq id other then none else find_from r.plugins other)
    gone = elim (Bool-cases (strcmp_eq id other)) [
      | inl t ↦
          rw (← strcmp_eq-eq id other t, strcmp_eq_refl id) (find-unload r.plugins id v.unique)
      | inr t ↦ rw t (
          find-change_other unload r.plugins id other (unload-KeepsNames other)
            (λ e. ground (arith, ap (strcmp_eq id) e, strcmp_eq_refl id)))
    ]
