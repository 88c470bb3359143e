-- ===== src/Registry/Tests.antt =====
-- Runs of src/plugin_registry.c's model, and its theorems at concrete inputs.
use mutineer.Prelude.{ℕ, ◌≡◌, refl, true, false, none, some, List, [], ◌∷◌, replicate}
use mutineer.Registry.{
  PluginDesc, Registry, init, add, instance_inc, instance_count, new_entry, unload, find_from,
  change_first, add_named, add_of,
}
use mutineer.Registry.Invariant.{IsValid}
use mutineer.Registry.Calls.{Call, call_add, call_inc, run, step, run-IsValid}

abbrev chess : List ℕ
chess = b'c' ∷ b'h' ∷ []

abbrev trivia : List ℕ
trivia = b't' ∷ []

abbrev desc_of : List ℕ → PluginDesc
desc_of id = record { id = some id; name = none; version = none; author = none; description = none }

abbrev calls : List Call
calls = call_add (some (desc_of chess)) (some 1) none ∷ call_inc (some chess) ∷ []

abbrev with_chess : Registry
with_chess = run init calls

counts_one : instance_count with_chess (some chess) ≡ 1
unfolding run step add add_of add_named find_from init change_first instance_inc instance_count
counts_one = refl

add_again : (add with_chess (some (desc_of chess)) none none).0 ≡ false
unfolding run step add add_of add_named find_from init change_first instance_inc
add_again = refl

run-IsValid_example : IsValid with_chess
run-IsValid_example = run-IsValid calls

abbrev crowd : Registry
crowd = record {
  plugins = replicate 64 (unload (new_entry (desc_of chess) none none));
  initialized = true;
}
