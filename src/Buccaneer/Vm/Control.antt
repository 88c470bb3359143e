-- ===== src/Buccaneer/Vm/Control.antt =====
-- The bytes of the bytecode that src/buccaneer/vm.c reads, and its operations on constants, variables, jumps,
-- calls, chains and exceptions.
use mutineer.Prelude.{
  ℕ, zero, suc, ◌+◌, ◌-◌, ◌*◌, ◌%◌, ◌^◌, Bool, false, not, ◌&&◌, Option, none, some, List, [], ◌∷◌,
  ltb, leb, ◌==◌, if◌then◌else◌, length, get_or, get_elem?, take, drop,
}
use mutineer.Buccaneer.{Value, null, i64, f64, string}
use mutineer.Buccaneer.Vm.{
  World, Machine, Module, Proc, Import, Frame, TryFrame, vm_halt, vm_error, vm_chain,
  vm_stack_underflow, vm_frame_overflow, read_past_end, underflow_on_swap, invalid_procedure,
  call_stack_overflow, invalid_import, too_many_arguments, unhandled_exception,
  dispatch_out_of_range, invalid_selector, frames_max, vm_fail, release, push, pop, get_global,
  set_global, get_local, set_local, throw, unwind_stack, handle_exception, undefined,
}
use mutineer.Buccaneer.Vm.Casts.{at_most}
use mutineer.Buccaneer.Vm.Ops.{with_one, push_own}
use mutineer.Buccaneer.Vm.Objects.{pop_many}

-- A constant, or null out of range; a string, or NULL.
abbrev pub get_constant : Module → ℕ → Value
get_constant md i = get_or md.constants i null

abbrev pub get_string : Module → ℕ → Option (List ℕ)
get_string md i = get_elem? md.strings i

-- Bytes from an offset on, the first one the highest.
abbrev pub big_endian : List ℕ → ℕ → ℕ → ℕ → ℕ
big_endian code zero at acc = acc
big_endian code (suc n) at acc = big_endian code n (at + 1) (acc * 2 ^ 8 + get_or code at 0)

module _ {H : Type 0} (md : Module) where
  -- Past the end 0 and an error.
  unfoldable pub read_bytes : ℕ → Machine H → ℕ × Machine H
  read_bytes n m =
      if ltb (length md.bytecode) ((m.ip + n) % 2 ^ 32)
      then (0, vm_fail vm_error read_past_end m)
      else (big_endian md.bytecode n m.ip 0, record m { ip = (m.ip + n) % 2 ^ 32 })

  abbrev pub read_u8 : Machine H → ℕ × Machine H
  read_u8 m =
      if leb (length md.bytecode) m.ip
      then (0, vm_fail vm_error read_past_end m)
      else (get_or md.bytecode m.ip 0, record m { ip = (m.ip + 1) % 2 ^ 32 })

  abbrev pub read_u16 : Machine H → ℕ × Machine H
  read_u16 m = read_bytes 2 m

  -- The 32 bits of the int32_t.
  abbrev pub read_i32 : Machine H → ℕ × Machine H
  read_i32 m = read_bytes 4 m

module _ {H : Type 0} (w : World H) (md : Module) where
  unfoldable pub op_push_constant : Machine H → Machine H
  op_push_constant m = let i = read_u16 md m in push w (get_constant md i.0) i.1

  unfoldable pub op_push_str : Machine H → Machine H
  op_push_str m =
      let i = read_u16 md m in
      let s = w.from_cstr i.1.heap (get_string md i.0) in
      push_own w (string s.1) (record i.1 { heap = s.0 })

  unfoldable pub op_pop : Machine H → Machine H
  op_pop m = let v = pop m in release w v.0 v.1

  abbrev pub swapped : Machine H → List Value → Machine H
  swapped m (a ∷ b ∷ vs) = record m { stack = b ∷ a ∷ vs }
  swapped m _ = vm_fail vm_stack_underflow underflow_on_swap m

  unfoldable pub op_swap : Machine H → Machine H
  op_swap m = swapped m m.stack

  unfoldable pub op_load_global : Machine H → Machine H
  op_load_global m = let i = read_u16 md m in let v = get_global w i.0 i.1 in push_own w v.0 v.1

  unfoldable pub op_store_global : Machine H → Machine H
  op_store_global m = let i = read_u16 md m in with_one w (set_global w i.0) i.1

  unfoldable pub op_load_local : Machine H → Machine H
  op_load_local m = let i = read_u16 md m in let v = get_local w i.0 i.1 in push_own w v.0 v.1

  unfoldable pub op_store_local : Machine H → Machine H
  op_store_local m = let i = read_u16 md m in with_one w (set_local w i.0) i.1

  abbrev pub jump : ℕ → Machine H → Machine H
  jump offset m = record m { ip = (m.ip + offset) % 2 ^ 32 }

  unfoldable pub op_jmp : Machine H → Machine H
  op_jmp m = let offset = read_i32 md m in jump offset.0 offset.1

  unfoldable pub op_jmp_if : Bool → Machine H → Machine H
  op_jmp_if wanted m =
      let offset = read_i32 md m in
      with_one w
        (λ v m.
          if (if wanted then w.truthy m.heap v else not (w.truthy m.heap v))
          then jump offset.0 m
          else m)
        offset.1

  -- The value at an index from the bottom of the live part of the stack.
  abbrev pub at_bottom : Machine H → ℕ → Option Value
  at_bottom m i =
      if ltb i (length m.stack) then get_elem? m.stack (length m.stack - 1 - i) else none

  -- Arguments i to i + n - 1 become locals. With fewer values than arguments, bp wraps and the first read is
  -- outside of the array.
  unfoldable pub copy_arguments : ℕ → ℕ → ℕ → Machine H → Machine H
  copy_arguments bp i zero m = m
  copy_arguments bp i (suc n) m = elim (at_bottom m ((bp + i) % 2 ^ 32)) [
    | none ↦ undefined m
    | some v ↦ copy_arguments bp (i + 1) n (set_local w i v m)
  ]

  abbrev pub entered : ℕ → ℕ → Machine H → Machine H
  entered proc bp m = record m {
    frames = record { proc = proc; ip = m.ip; bp = bp; local_base = length m.locals } ∷ m.frames;
  }

  abbrev pub code_of : Option Proc → ℕ
  code_of none = 0
  code_of (some p) = p.code_offset

  unfoldable pub op_call : Machine H → Machine H
  op_call m =
      let proc = read_u16 md m in
      let argc = read_u8 md proc.1 in
      let m = argc.1 in
      let bp = (length m.stack + 2 ^ 32 - argc.0) % 2 ^ 32 in
      if leb (length md.procedures) proc.0
      then vm_fail vm_error invalid_procedure m
      else if leb frames_max (length m.frames)
      then vm_fail vm_frame_overflow call_stack_overflow m
      else record (copy_arguments bp 0 argc.0 (entered proc.0 bp m)) {
        ip = code_of (get_elem? md.procedures proc.0);
      }

  -- The arguments are released from the first on.
  unfoldable pub release_all : List Value → Machine H → Machine H
  release_all [] m = m
  release_all (v ∷ vs) m = release_all vs (release w v m)

  unfoldable pub drop_arguments : ℕ → Machine H → Machine H
  drop_arguments zero m = m
  drop_arguments (suc n) m = drop_arguments n (op_pop m)

  abbrev pub counted : Machine H → Machine H
  counted m = record m {
    counters = record m.counters { host_calls = (m.counters.host_calls + 1) % 2 ^ 32 };
  }

  abbrev pub host_called :
      Option (Machine H → List ℕ → List ℕ → List Value → Machine H × Value)
      → Import
      → ℕ
      → Machine H
      → Machine H
  host_called none imp argc m = push w null (drop_arguments argc m)
  host_called (some handler) imp argc m =
      let args = pop_many w argc m in
      let result = handler (counted args.1) imp.ns imp.fn args.0 in
      if ltb 16 argc
      then vm_fail vm_error too_many_arguments m
      else release_all args.0 (push w result.1 result.0)

  abbrev pub import_called : Option Import → ℕ → Machine H → Machine H
  import_called none argc m = vm_fail vm_error invalid_import m
  import_called (some imp) argc m = host_called w.host_handler imp argc m

  unfoldable pub op_call_host : Machine H → Machine H
  op_call_host m =
      let i = read_u16 md m in
      let argc = read_u8 md i.1 in import_called (get_elem? md.imports i.0) argc.0 argc.1

  -- The locals are released from the last on.
  unfoldable pub release_from_last : List Value → Machine H → Machine H
  release_from_last [] m = m
  release_from_last (v ∷ vs) m = release w v (release_from_last vs m)

  abbrev pub left_frame : Frame → List Frame → Machine H → Machine H
  left_frame f fs m =
      let a =
        release_from_last (drop f.local_base m.locals)
          (record m { frames = fs; locals = take f.local_base m.locals }) in
      record (unwind_stack w f.bp a) { ip = f.ip }

  abbrev pub halted : Machine H → Machine H
  halted m = record m { status = vm_halt; running = false }

  abbrev pub returned : List Frame → Machine H → Machine H
  returned [] m = halted m
  returned (f ∷ fs) m = left_frame f fs m

  unfoldable pub op_return : Machine H → Machine H
  op_return m = returned m.frames m

  abbrev pub returned_value : List Frame → Value → Machine H → Machine H
  returned_value [] v m = halted (push w v m)
  returned_value (f ∷ fs) v m = push w v (left_frame f fs m)

  unfoldable pub op_return_value : Machine H → Machine H
  op_return_value m = let v = pop m in release w v.0 (returned_value v.1.frames v.0 v.1)

  unfoldable pub op_chain : Machine H → Machine H
  op_chain m =
      let i = read_u16 md m in
      let has_args = read_u8 md i.1 in
      let a = record has_args.1 { chain_target = get_string md i.0 } in
      let v = pop (release w a.chain_args a) in
      let b = if has_args.0 == 0 then a else record v.1 { chain_args = v.0 } in
      record b { status = vm_chain; running = false }

  -- A TryFrame has 24 bytes.
  unfoldable pub op_try_begin : Machine H → Machine H
  op_try_begin m =
      let offset = read_i32 md m in
      let m = offset.1 in
      let t : TryFrame = record {
        handler_ip = (m.ip + offset.0) % 2 ^ 32;
        frame_depth = length m.frames;
        stack_depth = length m.stack;
      } in
      if w.has_room m.heap 24 then record m { try_stack = t ∷ m.try_stack } else m

  abbrev pub without_try : List TryFrame → Machine H → Machine H
  without_try [] m = m
  without_try (t ∷ ts) m = record m { try_stack = ts }

  unfoldable pub op_try_end : Machine H → Machine H
  op_try_end m = without_try m.try_stack m

  abbrev pub or_unhandled : Bool × Machine H → Machine H
  or_unhandled r = if r.0 then r.1 else vm_fail vm_error unhandled_exception r.1

  unfoldable pub op_throw : Machine H → Machine H
  op_throw m = let e = pop m in or_unhandled (handle_exception w (release w e.0 (throw w e.0 e.1)))

  unfoldable pub op_re_throw : Machine H → Machine H
  op_re_throw m = if m.exception.active then or_unhandled (handle_exception w m) else m

  abbrev pub selected : Value → ℕ
  selected (i64 n) = n
  selected (f64 b) = w.to_i64 b
  selected _ = 0

  abbrev pub dispatched : ℕ → Option Proc → Machine H → Machine H
  dispatched proc none m = vm_fail vm_error dispatch_out_of_range m
  dispatched proc (some p) m =
      if leb frames_max (length m.frames)
      then vm_fail vm_frame_overflow call_stack_overflow m
      else record (entered proc (length m.stack) m) { ip = p.code_offset }

  unfoldable pub op_dispatch_call : Machine H → Machine H
  op_dispatch_call m =
      let base = read_u16 md m in
      let count = read_u8 md base.1 in
      let v = pop count.1 in
      let index = selected v.0 in
      let proc = (base.0 + (index + 2 ^ 64 - 1)) % 2 ^ 32 in
      let m = release w v.0 v.1 in
      if at_most 1 index && at_most index count.0
      then dispatched proc (get_elem? md.procedures proc) m
      else vm_fail vm_error invalid_selector m
