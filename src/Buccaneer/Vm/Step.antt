-- ===== src/Buccaneer/Vm/Step.antt =====
-- The opcodes of src/buccaneer/include/bucc_emit.h, and bucc_vm_step of src/buccaneer/vm.c.
use mutineer.Prelude.{
  ℕ, ◌+◌, ◌%◌, ◌^◌, Bool, true, false, Option, none, some, List, [], ◌∷◌, leb, ◌==◌, if◌then◌else◌,
  length,
}
use mutineer.Buccaneer.{null, boolean}
use mutineer.Buccaneer.Vm.{
  World, Machine, Module, Status, vm_ok, vm_halt, vm_yield, vm_limit_exceeded, vm_invalid_opcode,
  invalid_opcode, instruction_limit, vm_fail, push, peek,
}
use mutineer.Buccaneer.Vm.Ops.{
  op_add, op_and, op_cast_bool, op_cast_date, op_cast_datetime, op_cast_f64, op_cast_i64,
  op_cast_string, op_concat, op_div, op_eq, op_ge, op_gt, op_le, op_lt, op_mod, op_mul, op_ne,
  op_neg, op_not, op_or, op_sub, op_typeof, range_test,
}
use mutineer.Buccaneer.Vm.Objects.{
  array_of, map_with, op_array_get, op_array_pop, op_array_push, op_array_set, op_map_get,
  op_map_has, op_map_keys, op_map_set,
}
use mutineer.Buccaneer.Vm.Control.{
  halted, op_call, op_call_host, op_chain, op_dispatch_call, op_jmp, op_jmp_if, op_load_global,
  op_load_local, op_pop, op_push_constant, op_push_str, op_re_throw, op_return, op_return_value,
  op_store_global, op_store_local, op_swap, op_throw, op_try_begin, op_try_end, read_u16, read_u8,
}

pub data Opcode : Type 0 where
  do_nop do_halt do_push_null do_push_true do_push_false do_push_i64 : Opcode
  do_push_f64 do_push_str do_push_date do_push_datetime do_pop do_dup : Opcode
  do_swap do_load_global do_store_global do_load_local do_store_local do_load_arg : Opcode
  do_add do_sub do_mul do_div do_mod do_neg : Opcode
  do_eq do_ne do_lt do_le do_gt do_ge : Opcode
  do_and do_or do_not do_concat do_jmp do_jmp_false : Opcode
  do_jmp_true do_call do_call_host do_return do_return_value do_chain : Opcode
  do_yield do_array_new do_array_get do_array_set do_array_push do_array_pop : Opcode
  do_map_new do_map_get do_map_set do_map_has do_map_keys do_dispatch_call : Opcode
  do_range_test do_try_begin do_try_end do_throw do_re_throw do_cast_i64 : Opcode
  do_cast_f64 do_cast_string do_cast_bool do_cast_date do_cast_datetime do_typeof : Opcode
  do_debug_line do_prof_tick : Opcode

abbrev pub opcodes : List (ℕ × Opcode)
opcodes =
    (0, do_nop)
    ∷ (1, do_halt)
    ∷ (2, do_push_null)
    ∷ (3, do_push_true)
    ∷ (4, do_push_false)
    ∷ (5, do_push_i64)
    ∷ (6, do_push_f64)
    ∷ (7, do_push_str)
    ∷ (8, do_push_date)
    ∷ (9, do_push_datetime)
    ∷ (10, do_pop)
    ∷ (11, do_dup)
    ∷ (12, do_swap)
    ∷ (16, do_load_global)
    ∷ (17, do_store_global)
    ∷ (18, do_load_local)
    ∷ (19, do_store_local)
    ∷ (20, do_load_arg)
    ∷ (32, do_add)
    ∷ (33, do_sub)
    ∷ (34, do_mul)
    ∷ (35, do_div)
    ∷ (36, do_mod)
    ∷ (37, do_neg)
    ∷ (38, do_eq)
    ∷ (39, do_ne)
    ∷ (40, do_lt)
    ∷ (41, do_le)
    ∷ (42, do_gt)
    ∷ (43, do_ge)
    ∷ (44, do_and)
    ∷ (45, do_or)
    ∷ (46, do_not)
    ∷ (47, do_concat)
    ∷ (48, do_jmp)
    ∷ (49, do_jmp_false)
    ∷ (50, do_jmp_true)
    ∷ (51, do_call)
    ∷ (52, do_call_host)
    ∷ (53, do_return)
    ∷ (54, do_return_value)
    ∷ (55, do_chain)
    ∷ (56, do_yield)
    ∷ (64, do_array_new)
    ∷ (65, do_array_get)
    ∷ (66, do_array_set)
    ∷ (67, do_array_push)
    ∷ (68, do_array_pop)
    ∷ (69, do_map_new)
    ∷ (70, do_map_get)
    ∷ (71, do_map_set)
    ∷ (72, do_map_has)
    ∷ (73, do_map_keys)
    ∷ (80, do_dispatch_call)
    ∷ (81, do_range_test)
    ∷ (96, do_try_begin)
    ∷ (97, do_try_end)
    ∷ (98, do_throw)
    ∷ (99, do_re_throw)
    ∷ (112, do_cast_i64)
    ∷ (113, do_cast_f64)
    ∷ (114, do_cast_string)
    ∷ (115, do_cast_bool)
    ∷ (116, do_cast_date)
    ∷ (117, do_cast_datetime)
    ∷ (118, do_typeof)
    ∷ (126, do_debug_line)
    ∷ (127, do_prof_tick)
    ∷ []

unfoldable pub decode : List (ℕ × Opcode) → ℕ → Option Opcode
decode [] op = none
decode (e ∷ es) op = if e.0 == op then some e.1 else decode es op

abbrev pub is_ok : Status → Bool
is_ok vm_ok = true
is_ok _ = false

module _ {H : Type 0} (w : World H) (md : Module) where
  unfoldable pub exec : Opcode → Machine H → Machine H
  exec do_nop m = m
  exec do_halt m = halted w md m
  exec do_push_null m = push w null m
  exec do_push_true m = push w (boolean true) m
  exec do_push_false m = push w (boolean false) m
  exec do_push_i64 m = op_push_constant w md m
  exec do_push_f64 m = op_push_constant w md m
  exec do_push_str m = op_push_str w md m
  exec do_push_date m = op_push_constant w md m
  exec do_push_datetime m = op_push_constant w md m
  exec do_pop m = op_pop w md m
  exec do_dup m = push w (peek 0 m) m
  exec do_swap m = op_swap w md m
  exec do_load_global m = op_load_global w md m
  exec do_store_global m = op_store_global w md m
  exec do_load_local m = op_load_local w md m
  exec do_store_local m = op_store_local w md m
  exec do_load_arg m = op_load_local w md m
  exec do_add m = op_add w m
  exec do_sub m = op_sub w m
  exec do_mul m = op_mul w m
  exec do_div m = op_div w m
  exec do_mod m = op_mod w m
  exec do_neg m = op_neg w m
  exec do_eq m = op_eq w m
  exec do_ne m = op_ne w m
  exec do_lt m = op_lt w m
  exec do_le m = op_le w m
  exec do_gt m = op_gt w m
  exec do_ge m = op_ge w m
  exec do_and m = op_and w m
  exec do_or m = op_or w m
  exec do_not m = op_not w m
  exec do_concat m = op_concat w m
  exec do_jmp m = op_jmp w md m
  exec do_jmp_false m = op_jmp_if w md false m
  exec do_jmp_true m = op_jmp_if w md true m
  exec do_call m = op_call w md m
  exec do_call_host m = op_call_host w md m
  exec do_return m = op_return w md m
  exec do_return_value m = op_return_value w md m
  exec do_chain m = op_chain w md m
  exec do_yield m = record m { status = vm_yield; running = false }
  exec do_array_new m = let count = read_u16 md m in array_of w count.0 count.1
  exec do_array_get m = op_array_get w m
  exec do_array_set m = op_array_set w m
  exec do_array_push m = op_array_push w m
  exec do_array_pop m = op_array_pop w m
  exec do_map_new m = let count = read_u16 md m in map_with w count.0 count.1
  exec do_map_get m = op_map_get w m
  exec do_map_set m = op_map_set w m
  exec do_map_has m = op_map_has w m
  exec do_map_keys m = op_map_keys w m
  exec do_dispatch_call m = op_dispatch_call w md m
  exec do_range_test m = range_test w (read_u8 md (read_u16 md m).1).1
  exec do_try_begin m = op_try_begin w md m
  exec do_try_end m = op_try_end w md m
  exec do_throw m = op_throw w md m
  exec do_re_throw m = op_re_throw w md m
  exec do_cast_i64 m = op_cast_i64 w m
  exec do_cast_f64 m = op_cast_f64 w m
  exec do_cast_string m = op_cast_string w m
  exec do_cast_bool m = op_cast_bool w m
  exec do_cast_date m = op_cast_date w m
  exec do_cast_datetime m = op_cast_datetime w m
  exec do_typeof m = op_typeof w m
  exec do_debug_line m = (read_u16 md m).1
  exec do_prof_tick m = record m {
    counters = record m.counters { profile_ticks = (m.counters.profile_ticks + 1) % 2 ^ 32 };
  }

  abbrev pub exec_or_fail : Option Opcode → Machine H → Machine H
  exec_or_fail none m = vm_fail vm_invalid_opcode invalid_opcode m
  exec_or_fail (some op) m = exec op m

  abbrev pub one_more : Machine H → Machine H
  one_more m = record m {
    counters = record m.counters { instructions = (m.counters.instructions + 1) % 2 ^ 64 };
  }

  -- A module has bytecode, if only none of its bytes.
  unfoldable pub step : Machine H → Machine H
  step m =
      let op = read_u8 md (one_more m) in
      if is_ok m.status
      then (if leb m.limits.max_instructions m.counters.instructions
          then vm_fail vm_limit_exceeded instruction_limit m
          else if leb (length md.bytecode) m.ip
          then record m { status = vm_halt }
          else exec_or_fail (decode opcodes op.0) op.1)
      else m
