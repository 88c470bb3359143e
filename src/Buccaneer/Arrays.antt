-- ===== src/Buccaneer/Arrays.antt =====
-- The arrays of src/buccaneer/value.c.
use mutineer.Prelude.{
  ℕ, ◌*◌, Bool, true, false, not, ◌&&◌, List, [], ◌∷◌, ◌++◌, leb, ◌==◌, if◌then◌else◌, length, set,
  get_or, take, ◌-◌,
}
use mutineer.Buccaneer.{Value, null, Effect, value_retain, value_release}

-- `items` is the part of the array below `len`.
pub record Array : Type 0 where
  pub items : List Value
  pub room : ℕ

abbrev pub cap_or : ℕ → ℕ
cap_or n = if n == 0 then 8 else n

unfoldable pub array_new : ℕ → Array
array_new initial_cap = record { items = []; room = cap_or initial_cap }

-- What a call leaves.
pub record Pushed : Type 0 where
  pub ok : Bool
  pub left : Array
  pub effects : List Effect

-- `grows` is the answer of realloc.
unfoldable pub array_push : Bool → Array → Value → Pushed
array_push grows a v =
    let full = leb a.room (length a.items) in
    if full && not grows then record { ok = false; left = a; effects = [] } else record {
      ok = true;
      left = record { items = a.items ++ v ∷ []; room = if full then a.room * 2 else a.room };
      effects = value_retain v;
    }

-- The reference goes to the caller.
unfoldable pub array_pop : Array → Value × Array
array_pop a =
    let n = length a.items in
    if n == 0
    then (null, a)
    else (get_or a.items (n - 1) null, record a { items = take (n - 1) a.items })

unfoldable pub array_get : Array → ℕ → Value × List Effect
array_get a i =
    let v = get_or a.items i null in
    if leb (length a.items) i then (null, []) else (v, value_retain v)

unfoldable pub array_set : Array → ℕ → Value → Pushed
array_set a i v =
    if leb (length a.items) i then record { ok = false; left = a; effects = [] } else record {
      ok = true;
      left = record a { items = set a.items i v };
      effects = value_release (get_or a.items i null) ++ value_retain v;
    }

-- The loop of bucc_array_release, when the last reference goes.
unfoldable pub release_items : List Value → List Effect
release_items [] = []
release_items (v ∷ vs) = value_release v ++ release_items vs
