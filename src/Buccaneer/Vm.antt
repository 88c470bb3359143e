-- ===== src/Buccaneer/Vm.antt =====
-- src/buccaneer/vm.c with src/buccaneer/include/bucc_vm.h: the virtual machine of the Buccaneer script
-- language. The stack and the frames are lists with the top first, so that sp and fp are their lengths; the
-- globals and the locals are lists up to their counts. The heap is whatever value.c works on.
pub mod Casts
pub mod Ops
pub mod Objects
pub mod Control
pub mod Step
pub mod Run
pub mod Keeps
pub mod Bounds
pub mod Unwind
mod Tests
use Prim.Native.Nat.{Ordering}
use mutineer.Prelude.{
  ℕ, zero, suc, ◌+◌, ◌-◌, ◌*◌, ◌%◌, ◌^◌, Bool, true, false, Option, none, some, List, [], ◌∷◌, ◌++◌,
  ltb, leb, ◌==◌, if◌then◌else◌, length, get_or, set, replicate,
}
use mutineer.Buccaneer.{Str, Value, null}

-- The statuses of bucc_vm_status_t; `vm_undefined` is none of them: it marks a machine from which the
-- source has no defined behaviour, or is in a call that never returns.
pub data Status : Type 0 where
  vm_ok vm_halt vm_yield vm_chain vm_error vm_stack_overflow vm_stack_underflow : Status
  vm_frame_overflow vm_invalid_opcode vm_division_by_zero vm_type_error vm_limit_exceeded : Status
  vm_undefined : Status

-- The texts that vm_error is given.
pub data Message : Type 0 where
  read_past_end instruction_limit underflow_on_swap invalid_procedure call_stack_overflow : Message
  invalid_import too_many_arguments no_room_for_array unhandled_exception : Message
  dispatch_out_of_range invalid_selector invalid_opcode procedure_not_found : Message

-- `proc` is the number of the procedure.
pub record Frame : Type 0 where
  pub proc : ℕ
  pub ip : ℕ
  pub bp : ℕ
  pub local_base : ℕ

pub record Exception : Type 0 where
  pub value : Value
  pub frame_depth : ℕ
  pub active : Bool

pub record Limits : Type 0 where
  pub max_instructions : ℕ
  pub max_stack_depth : ℕ
  pub max_heap_bytes : ℕ
  pub max_string_bytes : ℕ
  pub max_host_calls : ℕ
  pub timeslice_ms : ℕ

-- The counters that vm.c counts.
pub record Counters : Type 0 where
  pub instructions : ℕ
  pub stack_depth : ℕ
  pub host_calls : ℕ
  pub profile_ticks : ℕ

pub record TryFrame : Type 0 where
  pub handler_ip : ℕ
  pub frame_depth : ℕ
  pub stack_depth : ℕ

-- bucc_vm_t without its module and its host, which are in the world below.
pub record Machine (H : Type 0) : Type 0 where
  pub heap : H
  pub stack : List Value
  pub frames : List Frame
  pub globals : List Value
  pub locals : List Value
  pub ip : ℕ
  pub exception : Exception
  pub try_stack : List TryFrame
  pub limits : Limits
  pub counters : Counters
  pub status : Status
  pub error_message : Option Message
  pub chain_target : Option (List ℕ)
  pub chain_args : Value
  pub running : Bool

pub record Proc : Type 0 where
  pub name : List ℕ
  pub code_offset : ℕ

pub record Import : Type 0 where
  pub ns : List ℕ
  pub fn : List ℕ

pub record Module : Type 0 where
  pub strings : List (List ℕ)
  pub constants : List Value
  pub procedures : List Proc
  pub imports : List Import
  pub bytecode : List ℕ

-- What the machine calls: value.c on its heap, doubles by their bits, the C library and the host. `raw` is the
-- union of a value read as an int64_t; `equal` is none where bucc_value_equal never returns, as on an array
-- that contains itself.
pub record World (H : Type 0) : Type 0 where
  pub retain_value : H → Value → H
  pub release_value : H → Value → H
  pub truthy : H → Value → Bool
  pub equal : H → Value → Value → Option Bool
  pub compare_values : H → Value → Value → Ordering
  pub to_string : H → Value → H × Str
  pub concat : H → Str → Str → H × Str
  pub from_cstr : H → Option (List ℕ) → H × Str
  pub error_new : H → List ℕ → H × Value
  pub new_array : H → ℕ → H × ℕ
  pub push_item : H → ℕ → Value → H
  pub pop_item : H → ℕ → H × Value
  pub get_item : H → ℕ → ℕ → H × Value
  pub set_item : H → ℕ → ℕ → Value → H
  pub new_map : H → ℕ → H × ℕ
  pub get_entry : H → ℕ → Str → H × Value
  pub set_entry : H → ℕ → Str → Value → H
  pub has_entry : H → ℕ → Str → Bool
  pub keys_of : H → ℕ → H × ℕ
  pub raw : Value → ℕ
  pub has_room : H → ℕ → Bool
  pub double_add : ℕ → ℕ → ℕ
  pub double_sub : ℕ → ℕ → ℕ
  pub double_mul : ℕ → ℕ → ℕ
  pub double_div : ℕ → ℕ → ℕ
  pub double_neg : ℕ → ℕ
  pub double_le : ℕ → ℕ → Bool
  pub is_zero : ℕ → Bool
  pub of_i64 : ℕ → ℕ
  pub to_i64 : ℕ → ℕ
  pub strtod : List ℕ → Option ℕ
  pub sscanf_date : List ℕ → List ℕ
  pub sscanf_datetime : List ℕ → List ℕ
  pub host_handler : Option (Machine H → List ℕ → List ℕ → List Value → Machine H × Value)

abbrev pub stack_max : ℕ
stack_max = 1024

abbrev pub frames_max : ℕ
frames_max = 256

abbrev pub globals_max : ℕ
globals_max = 256

abbrev pub locals_max : ℕ
locals_max = 256

-- The deepest stack so far.
abbrev pub deepest : ℕ → Counters → Counters
deepest sp k = record k { stack_depth = if ltb k.stack_depth sp then sp else k.stack_depth }

-- A list with nulls up to an index.
abbrev pub filled : List Value → ℕ → List Value
filled vs i = if leb (length vs) i then vs ++ replicate (suc i - length vs) null else vs

abbrev pub base_of : List Frame → ℕ
base_of [] = 0
base_of (f ∷ fs) = f.local_base

-- The frames above a depth are left.
unfoldable pub frames_down : ℕ → List Frame → List Frame
frames_down n [] = []
frames_down n (f ∷ fs) =
    let rest = frames_down n fs in if ltb n (suc (length fs)) then rest else f ∷ fs

module _ {H : Type 0} where
  unfoldable pub retain : World H → Value → Machine H → Machine H
  retain w v m = record m { heap = w.retain_value m.heap v }

  unfoldable pub release : World H → Value → Machine H → Machine H
  release w v m = record m { heap = w.release_value m.heap v }

  unfoldable pub vm_fail : Status → Message → Machine H → Machine H
  vm_fail status msg m = record m { status = status; error_message = some msg; running = false }

  -- Where the source has no defined behaviour.
  unfoldable pub undefined : Machine H → Machine H
  undefined m = record m { status = vm_undefined }

  unfoldable pub push : World H → Value → Machine H → Machine H
  push w v m =
      if leb stack_max (length m.stack) then record m { status = vm_stack_overflow } else record m {
        heap = w.retain_value m.heap v;
        stack = v ∷ m.stack;
        counters = deepest (suc (length m.stack)) m.counters;
      }

  abbrev pub popped : Machine H → List Value → Value × Machine H
  popped m [] = (null, record m { status = vm_stack_underflow })
  popped m (v ∷ vs) = (v, record m { stack = vs })

  unfoldable pub pop : Machine H → Value × Machine H
  pop m = popped m m.stack

  -- The offset is from the top.
  unfoldable pub peek : ℕ → Machine H → Value
  peek offset m = get_or m.stack offset null

  unfoldable pub get_global : World H → ℕ → Machine H → Value × Machine H
  get_global w i m =
      if leb (length m.globals) i
      then (null, m)
      else (get_or m.globals i null, retain w (get_or m.globals i null) m)

  unfoldable pub set_global : World H → ℕ → Value → Machine H → Machine H
  set_global w i v m =
      let vs = filled m.globals i in
      if leb globals_max i then m else record m {
        heap = w.retain_value (w.release_value m.heap (get_or vs i null)) v;
        globals = set vs i v;
      }

  unfoldable pub get_local : World H → ℕ → Machine H → Value × Machine H
  get_local w i m =
      let at = (base_of m.frames + i) % 2 ^ 32 in
      if leb (length m.locals) at
      then (null, m)
      else (get_or m.locals at null, retain w (get_or m.locals at null) m)

  unfoldable pub set_local : World H → ℕ → Value → Machine H → Machine H
  set_local w i v m =
      let at = (base_of m.frames + i) % 2 ^ 32 in
      let vs = filled m.locals at in
      if leb locals_max at then m else record m {
        heap = w.retain_value (w.release_value m.heap (get_or vs at null)) v;
        locals = set vs at v;
      }

  unfoldable pub throw : World H → Value → Machine H → Machine H
  throw w e m = record m {
    heap = w.retain_value (w.release_value m.heap m.exception.value) e;
    exception = record { value = e; frame_depth = length m.frames; active = true };
  }

  -- Release the top values while there are more than n.
  unfoldable pub release_down : World H → ℕ → List Value → H → List Value × H
  release_down w n [] h = ([], h)
  release_down w n (v ∷ vs) h =
      let rest = release_down w n vs (w.release_value h v) in
      if ltb n (suc (length vs)) then rest else (v ∷ vs, h)

  unfoldable pub unwind_stack : World H → ℕ → Machine H → Machine H
  unwind_stack w n m =
      let r = release_down w n m.stack m.heap in record m { stack = r.0; heap = r.1 }

  abbrev pub caught : World H → Machine H → List TryFrame → Bool × Machine H
  caught w m [] = (false, m)
  caught w m (t ∷ ts) =
      let a = record m { try_stack = ts; frames = frames_down t.frame_depth m.frames } in
      let b = push w m.exception.value (unwind_stack w t.stack_depth a) in
      (
        true,
        record b {
          exception = record {
            value = null;
            frame_depth = b.exception.frame_depth;
            active = false;
          };
          ip = t.handler_ip;
        },
      )

  unfoldable pub handle_exception : World H → Machine H → Bool × Machine H
  handle_exception w m = if m.exception.active then caught w m m.try_stack else (false, m)
