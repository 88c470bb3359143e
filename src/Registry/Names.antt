-- ===== src/Registry/Names.antt =====
-- The comparison of names and the search for one.
use mutineer.Prelude.{
  ℕ, ◌≡◌, refl, inl, inr, true, Option, none, some, List, [], ◌∷◌, ◌==◌, ==_iff, ==-refl,
  if◌then◌else◌, Bool-cases, Option-cases, ◌≢◌, ◌++◌, arith,
}
use mutineer.Registry.{PluginEntry, strcmp_eq, is_named, find_from, change_first}

pub strcmp_eq_refl : (xs : List ℕ) → strcmp_eq xs xs ≡ true
strcmp_eq_refl [] = refl
strcmp_eq_refl (x ∷ xs) = rw (==-refl x, strcmp_eq_refl xs)

pub strcmp_eq-eq : (xs ys : List ℕ) → strcmp_eq xs ys ≡ true → xs ≡ ys
strcmp_eq-eq [] [] h = refl
strcmp_eq-eq [] (y ∷ ys) h = ground arith
strcmp_eq-eq (x ∷ xs) [] h = ground arith
strcmp_eq-eq (x ∷ xs) (y ∷ ys) h = elim (Bool-cases (x == y)) [
  | inl e ↦ let t = strcmp_eq-eq xs ys (rw (e) at h) in cc ((==_iff x y).0 e, t)
  | inr e ↦ ground arith
]

pub named-id : (id : List ℕ) (e : PluginEntry) → is_named id e ≡ true → e.desc.id ≡ some id
named-id id e h = elim (Option-cases (e.desc.id)) [
  | inl n ↦ ground arith
  | inr (own, n) ↦ let t = strcmp_eq-eq own id (ground arith) in cc (n, t)
]

pub named_unique :
    (id id' : List ℕ) (e : PluginEntry) → is_named id e ≡ true → is_named id' e ≡ true → id ≡ id'
named_unique id id' e h h' = cc (named-id id e h, named-id id' e h')

abbrev pub changed : (PluginEntry → PluginEntry) → Option PluginEntry → Option PluginEntry
changed f none = none
changed f (some e) = some (f e)

-- A change of the first entry of a name, seen by a search for that name or for another.
pub find-change :
    (f : PluginEntry → PluginEntry) (es : List PluginEntry) (id : List ℕ)
    → ((e : PluginEntry) → is_named id (f e) ≡ is_named id e)
    → find_from (change_first f id es) id ≡ changed f (find_from es id)
unfolding find_from change_first
find-change f [] id k = refl
find-change f (e ∷ es) id k = elim (Bool-cases (is_named id e)) [
  | inl t ↦ rw (t, k e, t)
  | inr t ↦ rw (t, t, find-change f es id k)
]

pub find-change_other :
    (f : PluginEntry → PluginEntry) (es : List PluginEntry) (id id' : List ℕ)
    → ((e : PluginEntry) → is_named id' (f e) ≡ true → is_named id' e ≡ true)
    → id ≢ id'
    → find_from (change_first f id es) id' ≡ find_from es id'
unfolding find_from change_first
find-change_other f [] id id' k ne = refl
find-change_other f (e ∷ es) id id' k ne = elim (Bool-cases (is_named id e)) [
  | inl t ↦ elim (Bool-cases (is_named id' e)) [
    | inl t' ↦ absurd (ne (named_unique id id' e t t'))
    | inr t' ↦ elim (Bool-cases (is_named id' (f e))) [
      | inl u ↦ ground (arith, k e u)
      | inr u ↦ rw (t, t', u)
    ]
  ]
  | inr t ↦ rw (t, find-change_other f es id id' k ne)
]

pub find-append :
    (es : List PluginEntry) (e : PluginEntry) (id : List ℕ)
    → find_from es id ≡ none
    → find_from (es ++ e ∷ []) id ≡ (if is_named id e then some e else none)
unfolding find_from
find-append [] e id h = refl
find-append (d ∷ es) e id h = elim (Bool-cases (is_named id d)) [
  | inl t ↦ ground arith
  | inr t ↦ rw (t, find-append es e id (rw (t) at h))
]

pub find-append_found :
    (es : List PluginEntry) (e : PluginEntry) (id : List ℕ) {d : PluginEntry}
    → find_from es id ≡ some d
    → find_from (es ++ e ∷ []) id ≡ some d
unfolding find_from
find-append_found [] e id h = ground arith
find-append_found (c ∷ es) e id h = elim (Bool-cases (is_named id c)) [
  | inl t ↦ ground arith
  | inr t ↦ rw (t, find-append_found es e id (rw (t) at h))
]
