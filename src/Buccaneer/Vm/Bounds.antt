-- ===== src/Buccaneer/Vm/Bounds.antt =====
-- That bucc_vm_step and bucc_vm_run of src/buccaneer/vm.c stay within the machine's arrays, and that a run ends.
use mutineer.Prelude.{
  ◌+◌, ◌%◌, ◌^◌, ◌≤◌, ◌<◌, true, false, ◌&&◌, Option, none, some, leb, if_split, length, ◌≡◌, refl,
  arith,
}
use mutineer.Buccaneer.Vm.{World, Machine, Module, vm_fail}
use mutineer.Buccaneer.Vm.Control.{read_u8}
use mutineer.Buccaneer.Vm.Step.{
  Opcode, do_nop, do_halt, do_push_null, do_push_true, do_push_false, do_push_i64, do_push_f64,
  do_push_str, do_push_date, do_push_datetime, do_pop, do_dup, do_swap, do_load_global,
  do_store_global, do_load_local, do_store_local, do_load_arg, do_add, do_sub, do_mul, do_div,
  do_mod, do_neg, do_eq, do_ne, do_lt, do_le, do_gt, do_ge, do_and, do_or, do_not, do_concat,
  do_jmp, do_jmp_false, do_jmp_true, do_call, do_call_host, do_return, do_return_value, do_chain,
  do_yield, do_array_new, do_array_get, do_array_set, do_array_push, do_array_pop, do_map_new,
  do_map_get, do_map_set, do_map_has, do_map_keys, do_dispatch_call, do_range_test, do_try_begin,
  do_try_end, do_throw, do_re_throw, do_cast_i64, do_cast_f64, do_cast_string, do_cast_bool,
  do_cast_date, do_cast_datetime, do_typeof, do_debug_line, do_prof_tick, decode, opcodes, exec,
  exec_or_fail, is_ok, one_more, step,
}
use mutineer.Buccaneer.Vm.Keeps.{
  IsBounded, Keeps, Keeps-refl, Keeps-trans, push-Keeps, same-Keeps, vm_fail-Keeps,
}
use mutineer.Buccaneer.Vm.Keeps.OfValues.{
  op_add-Keeps, op_and-Keeps, op_cast_bool-Keeps, op_cast_date-Keeps, op_cast_datetime-Keeps,
  op_cast_f64-Keeps, op_cast_i64-Keeps, op_cast_string-Keeps, op_concat-Keeps, op_div-Keeps,
  op_eq-Keeps, op_ge-Keeps, op_gt-Keeps, op_le-Keeps, op_lt-Keeps, op_mod-Keeps, op_mul-Keeps,
  op_ne-Keeps, op_neg-Keeps, op_not-Keeps, op_or-Keeps, op_sub-Keeps, op_typeof-Keeps,
  range_test-Keeps,
}
use mutineer.Buccaneer.Vm.Keeps.OfObjects.{
  array_of-Keeps, map_with-Keeps, op_array_get-Keeps, op_array_pop-Keeps, op_array_push-Keeps,
  op_array_set-Keeps, op_map_get-Keeps, op_map_has-Keeps, op_map_keys-Keeps, op_map_set-Keeps,
}
use mutineer.Buccaneer.Vm.Keeps.OfControl.{
  HostKeeps, halted-Keeps, op_call-Keeps, op_call_host-Keeps, op_chain-Keeps,
  op_dispatch_call-Keeps, op_jmp-Keeps, op_jmp_if-Keeps, op_load_global-Keeps, op_load_local-Keeps,
  op_pop-Keeps, op_push_constant-Keeps, op_push_str-Keeps, op_re_throw-Keeps, op_return-Keeps,
  op_return_value-Keeps, op_store_global-Keeps, op_store_local-Keeps, op_swap-Keeps, op_throw-Keeps,
  op_try_begin-Keeps, op_try_end-Keeps, read_u16-Keeps, read_u8-Keeps,
}

module _ {H : Type 0} (w : World H) (md : Module) where
  exec-Keeps :
      HostKeeps w md w.host_handler → (op : Opcode) (m : Machine H) → Keeps m (exec w md op m)
  unfolding exec
  exec-Keeps h do_nop m = Keeps-refl m
  exec-Keeps h do_halt m = halted-Keeps w md m
  exec-Keeps h do_push_null m = push-Keeps w _ m
  exec-Keeps h do_push_true m = push-Keeps w _ m
  exec-Keeps h do_push_false m = push-Keeps w _ m
  exec-Keeps h do_push_i64 m = op_push_constant-Keeps w md m
  exec-Keeps h do_push_f64 m = op_push_constant-Keeps w md m
  exec-Keeps h do_push_str m = op_push_str-Keeps w md m
  exec-Keeps h do_push_date m = op_push_constant-Keeps w md m
  exec-Keeps h do_push_datetime m = op_push_constant-Keeps w md m
  exec-Keeps h do_pop m = op_pop-Keeps w md m
  exec-Keeps h do_dup m = push-Keeps w _ m
  exec-Keeps h do_swap m = op_swap-Keeps w md m
  exec-Keeps h do_load_global m = op_load_global-Keeps w md m
  exec-Keeps h do_store_global m = op_store_global-Keeps w md m
  exec-Keeps h do_load_local m = op_load_local-Keeps w md m
  exec-Keeps h do_store_local m = op_store_local-Keeps w md m
  exec-Keeps h do_load_arg m = op_load_local-Keeps w md m
  exec-Keeps h do_add m = op_add-Keeps w m
  exec-Keeps h do_sub m = op_sub-Keeps w m
  exec-Keeps h do_mul m = op_mul-Keeps w m
  exec-Keeps h do_div m = op_div-Keeps w m
  exec-Keeps h do_mod m = op_mod-Keeps w m
  exec-Keeps h do_neg m = op_neg-Keeps w m
  exec-Keeps h do_eq m = op_eq-Keeps w m
  exec-Keeps h do_ne m = op_ne-Keeps w m
  exec-Keeps h do_lt m = op_lt-Keeps w m
  exec-Keeps h do_le m = op_le-Keeps w m
  exec-Keeps h do_gt m = op_gt-Keeps w m
  exec-Keeps h do_ge m = op_ge-Keeps w m
  exec-Keeps h do_and m = op_and-Keeps w m
  exec-Keeps h do_or m = op_or-Keeps w m
  exec-Keeps h do_not m = op_not-Keeps w m
  exec-Keeps h do_concat m = op_concat-Keeps w m
  exec-Keeps h do_jmp m = op_jmp-Keeps w md m
  exec-Keeps h do_jmp_false m = op_jmp_if-Keeps w md false m
  exec-Keeps h do_jmp_true m = op_jmp_if-Keeps w md true m
  exec-Keeps h do_call m = op_call-Keeps w md m
  exec-Keeps h do_call_host m = op_call_host-Keeps w md m h
  exec-Keeps h do_return m = op_return-Keeps w md m
  exec-Keeps h do_return_value m = op_return_value-Keeps w md m
  exec-Keeps h do_chain m = op_chain-Keeps w md m
  exec-Keeps h do_yield m = same-Keeps refl refl refl refl refl refl
  exec-Keeps h do_array_new m = Keeps-trans (read_u16-Keeps md m) (array_of-Keeps w _ _)
  exec-Keeps h do_array_get m = op_array_get-Keeps w m
  exec-Keeps h do_array_set m = op_array_set-Keeps w m
  exec-Keeps h do_array_push m = op_array_push-Keeps w m
  exec-Keeps h do_array_pop m = op_array_pop-Keeps w m
  exec-Keeps h do_map_new m = Keeps-trans (read_u16-Keeps md m) (map_with-Keeps w _ _)
  exec-Keeps h do_map_get m = op_map_get-Keeps w m
  exec-Keeps h do_map_set m = op_map_set-Keeps w m
  exec-Keeps h do_map_has m = op_map_has-Keeps w m
  exec-Keeps h do_map_keys m = op_map_keys-Keeps w m
  exec-Keeps h do_dispatch_call m = op_dispatch_call-Keeps w md m
  exec-Keeps h do_range_test m =
      Keeps-trans (read_u16-Keeps md m) (Keeps-trans (read_u8-Keeps md _) (range_test-Keeps w _))
  exec-Keeps h do_try_begin m = op_try_begin-Keeps w md m
  exec-Keeps h do_try_end m = op_try_end-Keeps w md m
  exec-Keeps h do_throw m = op_throw-Keeps w md m
  exec-Keeps h do_re_throw m = op_re_throw-Keeps w md m
  exec-Keeps h do_cast_i64 m = op_cast_i64-Keeps w m
  exec-Keeps h do_cast_f64 m = op_cast_f64-Keeps w m
  exec-Keeps h do_cast_string m = op_cast_string-Keeps w m
  exec-Keeps h do_cast_bool m = op_cast_bool-Keeps w m
  exec-Keeps h do_cast_date m = op_cast_date-Keeps w m
  exec-Keeps h do_cast_datetime m = op_cast_datetime-Keeps w m
  exec-Keeps h do_typeof m = op_typeof-Keeps w m
  exec-Keeps h do_debug_line m = read_u16-Keeps md m
  exec-Keeps h do_prof_tick m = same-Keeps refl refl refl refl refl refl

  exec_or_fail-Keeps :
      HostKeeps w md w.host_handler
      → (op : Option Opcode) (m : Machine H) → Keeps m (exec_or_fail w md op m)
  exec_or_fail-Keeps h none m = vm_fail-Keeps _ _ m
  exec_or_fail-Keeps h (some op) m = exec-Keeps h op m

  -- A step stops the machine, or counts one instruction below the limit.
  pub data Steps (m n : Machine H) : Type 0 where
    stops : is_ok n.status ≡ false → Keeps m n → Steps m n
    counts :
        m.counters.instructions < m.limits.max_instructions
        → n.counters.instructions ≡ (m.counters.instructions + 1) % 2 ^ 64
        → n.limits ≡ m.limits
        → (IsBounded m → IsBounded n)
        → Steps m n

  step-Steps : HostKeeps w md w.host_handler → (m : Machine H) → Steps m (step w md m)
  unfolding step vm_fail
  step-Steps h m =
      let op = read_u8 md (one_more w md m) in
      let k =
        Keeps-trans (read_u8-Keeps md (one_more w md m))
          (exec_or_fail-Keeps h (decode opcodes op.0) op.1) in
      if_split (Steps m) (is_ok m.status) _ _
        (λ ok.
          if_split (Steps m) (leb m.limits.max_instructions m.counters.instructions) _ _
            (λ t. stops refl (vm_fail-Keeps _ _ m))
            (λ t.
              if_split (Steps m) (leb (length md.bytecode) m.ip) _ _
                (λ u. stops refl (same-Keeps refl refl refl refl refl refl))
                (λ u. counts (ground (arith, t)) k.same_count k.same_limits (λ b.
                  k.bounded (record {
                    stack_fits = b.stack_fits;
                    frames_fit = b.frames_fit;
                    globals_fit = b.globals_fit;
                    locals_fit = b.locals_fit;
                  })))))
        (λ stopped. stops stopped (Keeps-refl m))

  -- A step of bucc_vm_step, whatever the module and its bytecode, keeps the stack, the frames, the globals and
  -- the locals within their arrays, if the host's functions keep the limits, the count and the bounds.
  pub step-IsBounded :
      HostKeeps w md w.host_handler → (m : Machine H) → IsBounded m → IsBounded (step w md m)
  step-IsBounded h m b = kept (step-Steps h m)
    where
      kept : {n : Machine H} → Steps m n → IsBounded n
      kept (stops s k) = k.bounded b
      kept (counts lt e l f) = f b

  -- How a run from a machine ends.
  pub record Ends (result : Option (Machine H)) (m : Machine H) : Type 0 where
    pub last : Machine H
    pub runs : result ≡ some last
    pub stopped : (last.running && is_ok last.status) ≡ false
    pub within : IsBounded last
    pub same_limits : last.limits ≡ m.limits
    pub counted : last.counters.instructions ≤ m.limits.max_instructions
