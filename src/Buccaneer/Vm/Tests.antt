-- ===== src/Buccaneer/Vm/Tests.antt =====
-- Witnesses and tests for the virtual machine of src/buccaneer/vm.c, with a small world: the heap is the list of the
-- references taken and given back, in order.
use Prim.Native.Nat.{Ordering}
use mutineer.Prelude.{
  ◌^◌, ◌-◌, ℕ, ◌+◌, ◌-◌, ◌*◌, ◌/◌, true, false, none, some, List, [], ◌∷◌, ◌++◌, leb, ◌==◌, ◌≡◌,
  refl, subst, arith,
}
use mutineer.Buccaneer.{Value, null, i64, Effect, release, value_retain, value_release, string_new}
use mutineer.Buccaneer.Vm
use mutineer.Buccaneer.Vm.{
  World, Machine, Module, Proc, TryFrame, vm_ok, pop, handle_exception, throw,
}
use mutineer.Buccaneer.Vm.Ops.{op_div, with_two, throw_division}
use mutineer.Buccaneer.Vm.Control.{op_throw, op_call, op_return, read_bytes, release_all}
use mutineer.Buccaneer.Vm.Unwind.{
  IsCaught, op_throw-IsCaught, IsBack, behind_operands, called_argc, op_call-op_return,
}
use mutineer.Buccaneer.Vm.Casts.{divide}
use mutineer.Buccaneer.Vm.Step.{step}
use mutineer.Buccaneer.Vm.Run.{vm_new, reset, release_bottom_up}
use mutineer.Buccaneer.Vm.Keeps.{IsBounded, Keeps, Keeps-refl}
use mutineer.Buccaneer.Vm.Keeps.OfControl.{HostKeeps}
use mutineer.Buccaneer.Vm.Bounds.{step-IsBounded}

abbrev Trace : Type 0
Trace = List Effect

-- A host whose functions do nothing.
abbrev small_handler : Machine Trace → List ℕ → List ℕ → List Value → Machine Trace × Value
small_handler m ns fn args = (m, null)

-- Integers and doubles are the same numbers here; objects are empty.
abbrev small_world : World Trace
small_world = record {
  retain_value = λ h v. h ++ value_retain v;
  release_value = λ h v. h ++ value_release v;
  truthy = λ h v. false;
  equal = λ h a b. some false;
  compare_values = λ h a b. Ordering.eq;
  to_string = λ h v. (h, string_new 1 []);
  concat = λ h a b. (h, string_new 2 (a.bytes ++ b.bytes));
  from_cstr = λ h s. (h, string_new 3 []);
  error_new = λ h s. (h, Value.error 4);
  new_array = λ h n. (h, 5);
  push_item = λ h p v. h;
  pop_item = λ h p. (h, null);
  get_item = λ h p i. (h, null);
  set_item = λ h p i v. h;
  new_map = λ h n. (h, 6);
  get_entry = λ h p key. (h, null);
  set_entry = λ h p key v. h;
  has_entry = λ h p key. false;
  keys_of = λ h p. (h, 7);
  raw = λ v. 0;
  has_room = λ h n. true;
  double_add = λ a b. a + b;
  double_sub = λ a b. a - b;
  double_mul = λ a b. a * b;
  double_div = λ a b. a / b;
  double_neg = λ a. a;
  double_le = λ a b. leb a b;
  is_zero = λ a. a == 0;
  of_i64 = λ n. n;
  to_i64 = λ n. n;
  strtod = λ s. none;
  sscanf_date = λ s. [];
  sscanf_datetime = λ s. [];
  host_handler = some small_handler;
}

-- Push constant 0, throw it, with nobody to catch it.
abbrev thrower : Module
thrower = record {
  strings = [];
  constants = Value.error 9 ∷ [];
  procedures = [];
  imports = [];
  bytecode = 5 ∷ 0 ∷ 0 ∷ 98 ∷ [];
}

small_host : HostKeeps small_world thrower small_world.host_handler
small_host handler e m ns fn args =
    let same : small_handler ≡ handler = cc e in
    subst (λ g. Keeps m (g m ns fn args).0) same (Keeps-refl m)

abbrev fresh : Machine Trace
fresh = vm_new []

fresh-IsBounded : IsBounded fresh
unfolding vm_new
fresh-IsBounded = record {
  stack_fits = omega arith;
  frames_fit = omega arith;
  globals_fit = omega arith;
  locals_fit = omega arith;
}

step-IsBounded_example : IsBounded (step small_world thrower fresh)
step-IsBounded_example = step-IsBounded small_world thrower small_host fresh fresh-IsBounded

abbrev tried : TryFrame
tried = record { handler_ip = 40; frame_depth = 0; stack_depth = 1 }

-- An error above two numbers, in a TRY that began above the first.
abbrev throwing : Machine Trace
throwing = record fresh {
  stack = Value.error 9 ∷ i64 7 ∷ i64 6 ∷ [];
  try_stack = tried ∷ [];
  locals = i64 1 ∷ [];
}

op_throw-IsCaught_example :
    IsCaught small_world throwing
      (Value.error 9)
      (i64 7 ∷ i64 6 ∷ [])
      tried
      []
      (op_throw small_world thrower throwing)
op_throw-IsCaught_example =
    op_throw-IsCaught small_world thrower throwing (Value.error 9) (i64 7 ∷ i64 6 ∷ []) tried []
      refl refl (omega arith)

-- A call of procedure 0 with two arguments.
abbrev caller : Module
caller = record thrower {
  procedures = record { name = b'F' ∷ []; code_offset = 9 } ∷ [];
  bytecode = 51 ∷ 0 ∷ 0 ∷ 2 ∷ [];
}

abbrev calling : Machine Trace
calling = record fresh { ip = 1; stack = i64 7 ∷ i64 6 ∷ i64 5 ∷ []; locals = i64 4 ∷ [] }

-- The callee has a number more on the stack and its two locals.
abbrev called : Machine Trace
called = record (op_call small_world caller calling) {
  stack = i64 8 ∷ i64 7 ∷ i64 6 ∷ i64 5 ∷ [];
  locals = i64 4 ∷ i64 6 ∷ i64 7 ∷ [];
}

op_call-op_return_example :
    IsBack small_world
      (behind_operands small_world caller calling)
      (called_argc small_world caller calling)
      (op_return small_world caller called)
unfolding read_bytes vm_new
op_call-op_return_example =
    op_call-op_return small_world caller calling called (i64 8 ∷ i64 7 ∷ i64 6 ∷ [])
      (i64 6 ∷ i64 7 ∷ []) (omega arith) (omega arith) (omega arith) (omega arith) refl refl refl

-- A division by zero that nobody catches takes the operands, gives nothing and stops nothing.
uncaught_division :
    (op_div small_world (record fresh { stack = i64 0 ∷ i64 5 ∷ [] })).status ≡ vm_ok
unfolding op_div with_two pop throw_division handle_exception throw vm_new Vm.release
uncaught_division = refl

-- After an exception that nobody caught every reset gives the same reference back.
reset_twice :
    (reset small_world thrower (
      reset small_world thrower (record fresh {
        exception = record { value = Value.error 9; frame_depth = 0; active = true };
      }))).heap
    ≡ release 9 ∷ release 9 ∷ []
unfolding reset vm_new release_bottom_up Vm.release release_all value_release
reset_twice = refl

-- The quotient that an int64_t cannot hold.
divide-least : divide (2 ^ 63) (2 ^ 64 - 1) ≡ none
unfolding divide
divide-least = refl
