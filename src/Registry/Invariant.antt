-- ===== src/Registry/Invariant.antt =====
-- What every call keeps: no name is loaded twice, and the array is never overrun.
use mutineer.Prelude.{
  ℕ, ◌≤◌, ◌≡◌, refl, inl, inr, true, false, Option, none, some, List, [], ◌∷◌, ◌++◌, length,
  length-append, Bool-cases, Option-cases, leb, arith,
}
use mutineer.Registry.{
  PluginDesc, PluginEntry, Registry, is_named, find_from, change_first, init, shutdown, add_named,
  add, add_of, remove, instance_inc, instance_dec, unload, inc, dec, new_entry,
}
use mutineer.Registry.Names.{find-append, named_unique, strcmp_eq_refl}

-- A loaded entry is the only one of its name.
unfoldable pub IsUnique : List PluginEntry → Type 0
IsUnique [] = Unit {0}
IsUnique (e ∷ es) = ((id : List ℕ) → is_named id e ≡ true → find_from es id ≡ none) × IsUnique es

pub record IsValid (r : Registry) : Type 0 where
  pub unique : IsUnique r.plugins
  pub fits : length r.plugins ≤ 64

-- A change that gives no entry a name it did not have.
abbrev pub KeepsNames : (PluginEntry → PluginEntry) → Type 0
KeepsNames f = (id : List ℕ) (e : PluginEntry) → is_named id (f e) ≡ true → is_named id e ≡ true

pub inc-KeepsNames : KeepsNames inc
inc-KeepsNames id e h = h

pub dec-KeepsNames : KeepsNames dec
dec-KeepsNames id e h = h

pub unload-unnamed : (id : List ℕ) (e : PluginEntry) → is_named id (unload e) ≡ false
unload-unnamed id e = ground arith

pub unload-KeepsNames : KeepsNames unload
unload-KeepsNames id e h = ground (arith, unload-unnamed id e)

pub length-change :
    (f : PluginEntry → PluginEntry) (id : List ℕ) (es : List PluginEntry)
    → length (change_first f id es) ≡ length es
unfolding change_first
length-change f id [] = refl
length-change f id (e ∷ es) = ground (arith, length-change f id es)

find-change_none :
    (f : PluginEntry → PluginEntry) (es : List PluginEntry) (id id' : List ℕ)
    → KeepsNames f
    → find_from es id' ≡ none
    → find_from (change_first f id es) id' ≡ none
unfolding find_from change_first
find-change_none f [] id id' k h = refl
find-change_none f (e ∷ es) id id' k h = ground (arith, k id' e, find-change_none f es id id' k)

change-IsUnique :
    (f : PluginEntry → PluginEntry) (id : List ℕ) (es : List PluginEntry)
    → KeepsNames f
    → IsUnique es
    → IsUnique (change_first f id es)
unfolding change_first IsUnique
change-IsUnique f id [] k u = u
change-IsUnique f id (e ∷ es) k (u, us) = elim (Bool-cases (is_named id e)) [
  | inl t ↦ rw t ((λ id' h. u id' (k id' e h)), us)
  | inr t ↦ rw t ((λ id' h. find-change_none f es id id' k (u id' h)), change-IsUnique f id es k us)
]

append-IsUnique :
    (es : List PluginEntry) (e : PluginEntry) (own : List ℕ)
    → is_named own e ≡ true
    → find_from es own ≡ none
    → IsUnique es
    → IsUnique (es ++ e ∷ [])
unfolding IsUnique find_from
append-IsUnique [] e own n h u = ((λ id t. refl), u)
append-IsUnique (d ∷ es) e own n h (u, us) = elim (Bool-cases (is_named own d)) [
  | inl t ↦ ground arith
  | inr t ↦
      let rest : find_from es own ≡ none = rw t at h in
      ((λ id t'. apart id t' t), append-IsUnique es e own n rest us)
]
  where
    apart :
        (id : List ℕ)
        → is_named id d ≡ true
        → is_named own d ≡ false
        → find_from (es ++ e ∷ []) id ≡ none
    apart id t' t = elim (Bool-cases (is_named id e)) [
      | inl same ↦
          let eq = named_unique id own e same n in
          let t'' : is_named own d ≡ true = rw eq at t' in ground arith
      | inr other ↦ rw (find-append es e id (u id t'), other) refl
    ]

add_named-IsValid :
    (r : Registry) (desc : PluginDesc) (id : List ℕ) (dl_handle : Option ℕ) (path : Option (List ℕ))
    → desc.id ≡ some id
    → IsValid r
    → IsValid (add_named r desc id dl_handle path).1
unfolding add_named
add_named-IsValid r desc id dl_handle path d v = elim (Option-cases (find_from r.plugins id)) [
  | inl n ↦ elim (Bool-cases (leb 64 (length r.plugins))) [
    | inl full ↦ rw (n, full, add_named) v
    | inr room ↦
        let e = new_entry desc dl_handle path in
        rw (n, room, add_named)
          record {
            unique = append-IsUnique r.plugins e id (named desc.id d) n v.unique;
            fits = ground (arith, length-append r.plugins (e ∷ []));
          }
  ]
  | inr (e, n) ↦ rw (n, add_named) v
]
  where
    named :
        (o : Option (List ℕ))
        → desc.id ≡ some id
        → is_named id (new_entry desc dl_handle path) ≡ true
    named o d = rw (d, strcmp_eq_refl id) refl

add_of-IsValid :
    (r : Registry) (desc : PluginDesc) (id : Option (List ℕ)) (dl_handle : Option ℕ)
    (path : Option (List ℕ))
    → desc.id ≡ id
    → IsValid r
    → IsValid (add_of r desc id dl_handle path).1
unfolding add_of
add_of-IsValid r desc none dl_handle path n v = v
add_of-IsValid r desc (some id) dl_handle path n v = add_named-IsValid r desc id dl_handle path n v

pub add-IsValid :
    (r : Registry) (desc : Option PluginDesc) (dl_handle : Option ℕ) (path : Option (List ℕ))
    → IsValid r
    → IsValid (add r desc dl_handle path).1
unfolding add
add-IsValid r none dl_handle path v = v
add-IsValid r (some desc) dl_handle path v = add_of-IsValid r desc desc.id dl_handle path refl v

change-IsValid :
    (f : PluginEntry → PluginEntry) (id : List ℕ) (r : Registry)
    → KeepsNames f
    → IsValid r
    → IsValid (record r { plugins = change_first f id r.plugins })
change-IsValid f id r k v = record {
  unique = change-IsUnique f id r.plugins k v.unique;
  fits = ground (arith, length-change f id r.plugins, v.fits);
}

pub remove-IsValid : (r : Registry) (id : Option (List ℕ)) → IsValid r → IsValid (remove r id).1
unfolding remove
remove-IsValid r none v = v
remove-IsValid r (some id) v = elim (Option-cases (find_from r.plugins id)) [
  | inl n ↦ rw (n, remove) v
  | inr (e, n) ↦ rw (n, remove) (change-IsValid unload id r unload-KeepsNames v)
]

pub instance_inc-IsValid :
    (r : Registry) (id : Option (List ℕ)) → IsValid r → IsValid (instance_inc r id)
unfolding instance_inc
instance_inc-IsValid r none v = v
instance_inc-IsValid r (some id) v = change-IsValid inc id r inc-KeepsNames v

pub instance_dec-IsValid :
    (r : Registry) (id : Option (List ℕ)) → IsValid r → IsValid (instance_dec r id)
unfolding instance_dec
instance_dec-IsValid r none v = v
instance_dec-IsValid r (some id) v = change-IsValid dec id r dec-KeepsNames v

pub init-IsValid : IsValid init
unfolding init IsUnique
init-IsValid = record { unique = tt; fits = omega arith }

pub shutdown-IsValid : IsValid shutdown
unfolding shutdown IsUnique
shutdown-IsValid = record { unique = tt; fits = omega arith }
