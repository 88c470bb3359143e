-- ===== src/Buccaneer/Accounts/OfArrays.antt =====
-- The arrays of src/buccaneer/value.c give back every reference that they take.
use mutineer.Prelude.{
  ℕ, zero, suc, ◌+◌, ◌-◌, ◌<◌, ◌≡◌, refl, inl, inr, Bool, not, ◌&&◌, List, [], ◌∷◌, ◌++◌, length,
  leb, ◌==◌, set, get_or, take, Bool-cases, arith,
}
use mutineer.Buccaneer.{Value, null, Effect, value_retain, value_release}
use mutineer.Buccaneer.Arrays.{Array, array_push, array_pop, array_get, array_set, release_items}
use mutineer.Buccaneer.Accounts.{
  refs, held, retains, releases, retains-append, releases-append, held-append, value_retain-counts,
  value_release-counts,
}

pub data Call : Type 0 where
  do_push : Bool → Value → Call
  do_pop : Call
  do_get : ℕ → Call
  do_put : ℕ → Value → Call
  do_release : Call

-- What a call leaves: the array, the effects, and the values handed to the caller.
pub record Done : Type 0 where
  pub array : Array
  pub effects : List Effect
  pub handed : List Value

unfoldable pub call : Array → Call → Done
call a (do_push grows v) = record {
  array = (array_push grows a v).left;
  effects = (array_push grows a v).effects;
  handed = [];
}
call a do_pop = record { array = (array_pop a).1; effects = []; handed = (array_pop a).0 ∷ [] }
call a (do_get i) = record {
  array = a;
  effects = (array_get a i).1;
  handed = (array_get a i).0 ∷ [];
}
call a (do_put i v) = record {
  array = (array_set a i v).left;
  effects = (array_set a i v).effects;
  handed = [];
}
call a do_release = record {
  array = record a { items = [] };
  effects = release_items a.items;
  handed = [];
}

unfoldable pub run_array : Array → List Call → Done
run_array a [] = record { array = a; effects = []; handed = [] }
run_array a (c ∷ cs) =
    let first = call a c in
    let rest = run_array first.array cs in
    record {
      array = rest.array;
      effects = first.effects ++ rest.effects;
      handed = first.handed ++ rest.handed;
    }

-- References taken and held before are those given back, held and handed out.
abbrev Balances : ℕ → Array → Done → Type 0
Balances p a d =
    retains p d.effects + held p a.items
    ≡ releases p d.effects + held p d.array.items + held p d.handed

held-take :
    (p n : ℕ) (vs : List Value)
    → length vs ≡ suc n
    → held p (take n vs) + refs p (get_or vs n null) ≡ held p vs
unfolding held
held-take p n [] h = absurd (omega arith)
held-take p zero (v ∷ []) h = omega arith
held-take p zero (v ∷ w ∷ vs) h = absurd (omega arith)
held-take p (suc n) (v ∷ vs) h = omega (arith, held-take p n vs (omega arith))

held-set :
    (p i : ℕ) (v : Value) (vs : List Value)
    → i < length vs
    → held p (set vs i v) + refs p (get_or vs i null) ≡ held p vs + refs p v
unfolding held
held-set p i v [] h = absurd (omega arith)
held-set p zero v (w ∷ vs) h = omega arith
held-set p (suc i) v (w ∷ vs) h = omega (arith, held-set p i v vs (omega arith))

held-one : (p : ℕ) (v : Value) → held p (v ∷ []) ≡ refs p v
unfolding held
held-one p v = omega arith

nothing_taken :
    (p : ℕ) → (retains p [] ≡ 0) × (releases p [] ≡ 0) × (held p [] ≡ 0) × (refs p null ≡ 0)
unfolding retains releases held
nothing_taken p = (refl, refl, refl, refl)

push-Balances :
    (p : ℕ) (grows : Bool) (a : Array) (v : Value) → Balances p a (call a (do_push grows v))
unfolding call array_push
push-Balances p grows a v =
    let none_taken = nothing_taken p in
    let taken = value_retain-counts p v in
    let more = held-append p (a.items) (v ∷ []) in
    let one = held-one p v in
    elim (Bool-cases (leb a.room (length a.items) && not grows)) [
      | inl t ↦ rw t (omega (arith, none_taken))
      | inr t ↦ rw t (omega (arith, none_taken, taken, more, one))
    ]

pop-Balances : (p : ℕ) (a : Array) → Balances p a (call a do_pop)
unfolding call array_pop
pop-Balances p a =
    let none_taken = nothing_taken p in
    elim (Bool-cases (length a.items == 0)) [
      | inl t ↦ rw t (omega (arith, none_taken, held-one p null))
      | inr t ↦
          let n = length a.items - 1 in
          rw t (
            omega (
              arith,
              none_taken,
              held-one p (get_or a.items n null),
              held-take p n (a.items) (ground (arith, t)),
            ))
    ]

get-Balances : (p : ℕ) (a : Array) (i : ℕ) → Balances p a (call a (do_get i))
unfolding call array_get
get-Balances p a i =
    let none_taken = nothing_taken p in
    let v = get_or a.items i null in
    elim (Bool-cases (leb (length a.items) i)) [
      | inl t ↦ rw t (omega (arith, none_taken, held-one p null))
      | inr t ↦ rw t (omega (arith, value_retain-counts p v, held-one p v))
    ]

put-Balances : (p : ℕ) (a : Array) (i : ℕ) (v : Value) → Balances p a (call a (do_put i v))
unfolding call array_set
put-Balances p a i v =
    let none_taken = nothing_taken p in
    let old = get_or a.items i null in
    elim (Bool-cases (leb (length a.items) i)) [
      | inl t ↦ rw t (omega (arith, none_taken))
      | inr t ↦
          rw
            (
              t,
              retains-append p (value_release old) (value_retain v),
              releases-append p (value_release old) (value_retain v),
            )
            (omega (
              arith,
              none_taken,
              value_retain-counts p v,
              value_release-counts p old,
              held-set p i v (a.items) (ground (arith, t)),
            ))
    ]

release_items-counts :
    (p : ℕ) (vs : List Value)
    → (releases p (release_items vs) ≡ held p vs) × (retains p (release_items vs) ≡ 0)
unfolding release_items held
release_items-counts p [] = (omega (arith, nothing_taken p), omega (arith, nothing_taken p))
release_items-counts p (v ∷ vs) =
    let rest = release_items-counts p vs in
    rw
      (
        releases-append p (value_release v) (release_items vs),
        retains-append p (value_release v) (release_items vs),
      )
      (omega (arith, rest, value_release-counts p v), omega (arith, rest, value_release-counts p v))

release-Balances : (p : ℕ) (a : Array) → Balances p a (call a do_release)
unfolding call
release-Balances p a = omega (arith, nothing_taken p, release_items-counts p a.items)

call-Balances : (p : ℕ) (a : Array) (c : Call) → Balances p a (call a c)
call-Balances p a (do_push grows v) = push-Balances p grows a v
call-Balances p a do_pop = pop-Balances p a
call-Balances p a (do_get i) = get-Balances p a i
call-Balances p a (do_put i v) = put-Balances p a i v
call-Balances p a do_release = release-Balances p a

-- For every object on the heap and every sequence of pushes, pops, reads, writes and releases of all
-- items with the last reference, whatever realloc answers and whichever indices are out of range: the
-- references taken, with those the array held before, are as many as those given back, those it
-- holds now and those handed to the caller.
pub run_array-Balances :
    (p : ℕ) (a : Array) (cs : List Call)
    → retains p (run_array a cs).effects + held p a.items
      ≡ releases p (run_array a cs).effects
        + held p (run_array a cs).array.items
        + held p (run_array a cs).handed
unfolding run_array retains releases held
run_array-Balances p a [] = omega arith
run_array-Balances p a (c ∷ cs) =
    let first = call a c in
    let rest = run_array first.array cs in
    rw
      (
        retains-append p (first.effects) (rest.effects),
        releases-append p (first.effects) (rest.effects),
        held-append p (first.handed) (rest.handed),
      )
      (omega (arith, call-Balances p a c, run_array-Balances p (first.array) cs))
