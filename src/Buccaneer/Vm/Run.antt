-- ===== src/Buccaneer/Vm/Run.antt =====
-- bucc_vm_new, bucc_vm_reset, bucc_vm_run and bucc_vm_call of src/buccaneer/vm.c.
use mutineer.Prelude.{
  ℕ, zero, suc, ◌*◌, true, false, ◌&&◌, Option, none, some, List, [], ◌∷◌, if◌then◌else◌,
}
use mutineer.Buccaneer.{Value, null}
use mutineer.Buccaneer.Lexer.{same_letters}
use mutineer.Buccaneer.Vm.{
  World, Machine, Module, Proc, Limits, vm_ok, vm_error, procedure_not_found, stack_max, vm_fail,
  retain, release, push,
}
use mutineer.Buccaneer.Vm.Control.{release_all}
use mutineer.Buccaneer.Vm.Step.{step, is_ok}

module _ {H : Type 0} where
  -- With what calloc leaves, on a heap.
  unfoldable pub vm_new : H → Machine H
  vm_new heap = record {
    heap = heap;
    stack = [];
    frames = [];
    globals = [];
    locals = [];
    ip = 0;
    exception = record { value = null; frame_depth = 0; active = false };
    try_stack = [];
    limits = record {
      max_instructions = 1000000;
      max_stack_depth = stack_max;
      max_heap_bytes = 1024 * 1024;
      max_string_bytes = 256 * 1024;
      max_host_calls = 10000;
      timeslice_ms = 5000;
    };
    counters = record { instructions = 0; stack_depth = 0; host_calls = 0; profile_ticks = 0 };
    status = vm_ok;
    error_message = none;
    chain_target = none;
    chain_args = null;
    running = false;
  }

  unfoldable pub set_limits : Limits → Machine H → Machine H
  set_limits limits m = record m { limits = limits }

  -- The value is handed to the caller with a reference.
  unfoldable pub get_exception : World H → Machine H → Value × Machine H
  get_exception w m =
      if m.exception.active then (m.exception.value, retain w m.exception.value m) else (null, m)

  unfoldable pub get_chain_args : World H → Machine H → Value × Machine H
  get_chain_args w m = (m.chain_args, retain w m.chain_args m)

  -- The stack, from its bottom on.
  unfoldable pub release_bottom_up : World H → List Value → H → H
  release_bottom_up w [] h = h
  release_bottom_up w (v ∷ vs) h = w.release_value (release_bottom_up w vs h) v

  unfoldable pub reset : World H → Module → Machine H → Machine H
  reset w md m =
      let a = record m {
        heap = release_bottom_up w m.stack m.heap;
        stack = [];
        frames = [];
        ip = 0;
      } in
      let b = release w a.exception.value (release_all w md a.locals (record a { locals = [] })) in
      let c = release w b.chain_args b in
      record c {
        exception = record b.exception { active = false };
        try_stack = [];
        counters = record { instructions = 0; stack_depth = 0; host_calls = 0; profile_ticks = 0 };
        status = vm_ok;
        error_message = none;
        chain_target = none;
        chain_args = null;
        running = false;
      }

  -- The heap without the machine.
  unfoldable pub vm_free : World H → Module → Machine H → H
  vm_free w md m =
      let a = record m { heap = release_bottom_up w m.stack m.heap } in
      let b = release_all w md m.locals (release_all w md m.globals a) in
      (release w b.chain_args (release w b.exception.value b)).heap

  -- The rounds of the loop of bucc_vm_run; none when they do not suffice.
  unfoldable pub run_loop : World H → Module → ℕ → Machine H → Option (Machine H)
  run_loop w md zero m = if m.running && is_ok m.status then none else some m
  run_loop w md (suc fuel) m =
      let rest = run_loop w md fuel (step w md m) in
      if m.running && is_ok m.status then rest else some m

  unfoldable pub run : World H → Module → ℕ → Machine H → Option (Machine H)
  run w md fuel m = run_loop w md fuel (record m { running = true })

  unfoldable pub push_all : World H → List Value → Machine H → Machine H
  push_all w [] m = m
  push_all w (v ∷ vs) m = push_all w vs (push w v m)

-- Names are told apart without their case.
abbrev pub find_proc : List Proc → List ℕ → Option Proc
find_proc [] name = none
find_proc (p ∷ ps) name = if same_letters p.name name then some p else find_proc ps name

module _ {H : Type 0} where
  unfoldable pub call_found :
      World H → Module → ℕ → Option Proc → List Value → Machine H → Option (Machine H)
  call_found w md fuel none args m = some (vm_fail vm_error procedure_not_found m)
  call_found w md fuel (some p) args m =
      run w md fuel (record (push_all w args m) { ip = p.code_offset })

  unfoldable pub call : World H → Module → ℕ → List ℕ → List Value → Machine H → Option (Machine H)
  call w md fuel name args m = call_found w md fuel (find_proc md.procedures name) args m
