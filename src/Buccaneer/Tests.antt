-- ===== src/Buccaneer/Tests.antt =====
-- Runs of the model of src/buccaneer/value.c, and its theorems at concrete inputs.

use mutineer.Prelude.{ℕ, ◌+◌, ◌*◌, ◌≡◌, refl, true, false, none, some, List, [], ◌∷◌}
use mutineer.Buccaneer.{string_new, hash_bytes, hash_from, null, i64, array}
use mutineer.Buccaneer.Arrays.{array_new}
use mutineer.Buccaneer.Maps.{Map, map_new, map_keys}
use mutineer.Buccaneer.Finite.Calls.{
  Op, store, fetch, test, forget, flag, value, answers, spec_answers, map_new-Refines,
}
use mutineer.Buccaneer.Accounts.{held, retains, releases}
use mutineer.Buccaneer.Accounts.OfArrays.{do_push, do_release, run_array, run_array-Balances}
use mutineer.Buccaneer.Accounts.OfMaps.{
  do_set, run_map, entries_hold, run_map-Balances, map_keys-leaks,
}

-- The empty string's hash, and that of "a".
hashes : hash_bytes (b'a' ∷ []) ≡ 0xe40c292c
unfolding hash_bytes hash_from
hashes = refl

abbrev name : List ℕ
name = b'n' ∷ []

abbrev script : List Op
script =
    store 1 name (i64 5)
    ∷ fetch 2 name
    ∷ store 3 name (i64 6)
    ∷ fetch 4 name
    ∷ forget 5 name
    ∷ test 6 name
    ∷ []

script_answers :
    spec_answers (λ q. none) script
    ≡ flag true ∷ value (i64 5) ∷ flag true ∷ value (i64 6) ∷ flag true ∷ flag false ∷ []
unfolding spec_answers
script_answers = refl

map_new-Refines_example : answers (map_new 0) script ≡ spec_answers (λ q. none) script
map_new-Refines_example = map_new-Refines 0 script

run_array-Balances_example :
    retains 7 (run_array (array_new 0) (do_push true (array 7) ∷ do_release ∷ [])).effects
      + held 7 (array_new 0).items
    ≡ releases 7 (run_array (array_new 0) (do_push true (array 7) ∷ do_release ∷ [])).effects
      + held 7 (run_array (array_new 0) (do_push true (array 7) ∷ do_release ∷ [])).array.items
      + held 7 (run_array (array_new 0) (do_push true (array 7) ∷ do_release ∷ [])).handed
run_array-Balances_example =
    run_array-Balances 7 (array_new 0) (do_push true (array 7) ∷ do_release ∷ [])

run_map-Balances_example :
    retains 7 (run_map (map_new 0) (do_set true (string_new 1 name) (array 7) ∷ [])).effects
      + entries_hold 7 (map_new 0).entries
    ≡ releases 7 (run_map (map_new 0) (do_set true (string_new 1 name) (array 7) ∷ [])).effects
      + entries_hold 7
          (run_map (map_new 0) (do_set true (string_new 1 name) (array 7) ∷ [])).map.entries
      + held 7 (run_map (map_new 0) (do_set true (string_new 1 name) (array 7) ∷ [])).handed
run_map-Balances_example =
    run_map-Balances 7 (map_new 0) (do_set true (string_new 1 name) (array 7) ∷ [])

-- A map of one key, object 1.
abbrev one_name : Map
one_name = record { entries = record { key = string_new 1 name; value = some null } ∷ []; room = 8 }

map_keys-leaks_example :
    (retains 1 (map_keys true one_name).1 ≡ 2 * held 1 (map_keys true one_name).0.items)
    × (releases 1 (map_keys true one_name).1 ≡ 0)
map_keys-leaks_example = map_keys-leaks 1 one_name
