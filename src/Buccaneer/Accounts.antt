-- ===== src/Buccaneer/Accounts.antt =====
-- Counting the references that src/buccaneer/value.c takes and gives back.
pub mod OfArrays
pub mod OfMaps
use mutineer.Prelude.{
  ℕ, ◌+◌, ◌≡◌, refl, Option, none, some, List, [], ◌∷◌, ◌++◌, ◌==◌, if◌then◌else◌, arith,
}
use mutineer.Buccaneer.{
  Value, Effect, retain, release, object_of, effect_on, value_retain, value_release,
}

abbrev pub hit : ℕ → ℕ → ℕ
hit p q = if p == q then 1 else 0

abbrev pub refs_of : ℕ → Option ℕ → ℕ
refs_of p none = 0
refs_of p (some q) = hit p q

-- The references to the object p in a value, and in values.
abbrev pub refs : ℕ → Value → ℕ
refs p v = refs_of p (object_of v)

unfoldable pub held : ℕ → List Value → ℕ
held p [] = 0
held p (v ∷ vs) = refs p v + held p vs

unfoldable pub retains : ℕ → List Effect → ℕ
retains p [] = 0
retains p (retain q ∷ es) = hit p q + retains p es
retains p (release q ∷ es) = retains p es

unfoldable pub releases : ℕ → List Effect → ℕ
releases p [] = 0
releases p (retain q ∷ es) = releases p es
releases p (release q ∷ es) = hit p q + releases p es

pub retains-append :
    (p : ℕ) (as' bs : List Effect) → retains p (as' ++ bs) ≡ retains p as' + retains p bs
unfolding retains
retains-append p [] bs = omega arith
retains-append p (retain q ∷ as') bs = omega (arith, retains-append p as' bs)
retains-append p (release q ∷ as') bs = retains-append p as' bs

pub releases-append :
    (p : ℕ) (as' bs : List Effect) → releases p (as' ++ bs) ≡ releases p as' + releases p bs
unfolding releases
releases-append p [] bs = omega arith
releases-append p (retain q ∷ as') bs = releases-append p as' bs
releases-append p (release q ∷ as') bs = omega (arith, releases-append p as' bs)

pub held-append : (p : ℕ) (vs ws : List Value) → held p (vs ++ ws) ≡ held p vs + held p ws
unfolding held
held-append p [] ws = omega arith
held-append p (v ∷ vs) ws = omega (arith, held-append p vs ws)

retains-effect_on : (p : ℕ) (o : Option ℕ) → retains p (effect_on retain o) ≡ refs_of p o
unfolding retains
retains-effect_on p none = refl
retains-effect_on p (some q) = omega arith

releases-effect_on : (p : ℕ) (o : Option ℕ) → releases p (effect_on release o) ≡ refs_of p o
unfolding releases
releases-effect_on p none = refl
releases-effect_on p (some q) = omega arith

no_releases : (p : ℕ) (o : Option ℕ) → releases p (effect_on retain o) ≡ 0
unfolding releases
no_releases p none = refl
no_releases p (some q) = refl

no_retains : (p : ℕ) (o : Option ℕ) → retains p (effect_on release o) ≡ 0
unfolding retains
no_retains p none = refl
no_retains p (some q) = refl

-- What retaining and releasing a value count.
pub value_retain-counts :
    (p : ℕ) (v : Value)
    → (retains p (value_retain v) ≡ refs p v) × (releases p (value_retain v) ≡ 0)
unfolding value_retain
value_retain-counts p v = (retains-effect_on p (object_of v), no_releases p (object_of v))

pub value_release-counts :
    (p : ℕ) (v : Value)
    → (releases p (value_release v) ≡ refs p v) × (retains p (value_release v) ≡ 0)
unfolding value_release
value_release-counts p v = (releases-effect_on p (object_of v), no_retains p (object_of v))
