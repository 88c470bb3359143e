-- ===== src/Buccaneer/Vm/Keeps/OfControl.antt =====
-- That jumps, variables, calls, returns, chains and exceptions of src/buccaneer/vm.c keep the bounds.
use mutineer.Prelude.{
  ℕ, zero, suc, ◌+◌, ◌%◌, ◌^◌, Bool, false, Option, none, some, Option-cases, inl, inr, List, [],
  ◌∷◌, ltb, leb, ◌==◌, if_split, length, length-take, take, get_elem?, ◌≡◌, refl, ap, arith,
}
use mutineer.Buccaneer.{Value}
use mutineer.Buccaneer.Vm.Keeps.{
  Keeps, Keeps-refl, Keeps-trans, if-Keeps, same-Keeps, shorter-Keeps, vm_fail-Keeps,
  undefined-Keeps, release-Keeps, push-Keeps, pop-Keeps, get_global-Keeps, get_local-Keeps,
  set_global-Keeps, set_local-Keeps, throw-Keeps, unwind_stack-Keeps, handle_exception-Keeps,
}
use mutineer.Buccaneer.Vm.{World, Machine, Module, Proc, Import, Frame, TryFrame, frames_max, pop}
use mutineer.Buccaneer.Vm.Control.{
  read_bytes, read_u8, read_u16, read_i32, op_push_constant, op_push_str, op_pop, swapped, op_swap,
  op_load_global, op_store_global, op_load_local, op_store_local, jump, op_jmp, op_jmp_if,
  at_bottom, copy_arguments, entered, op_call, release_all, drop_arguments, counted, host_called,
  import_called, op_call_host, release_from_last, left_frame, halted, returned, op_return,
  returned_value, op_return_value, op_chain, op_try_begin, without_try, op_try_end, or_unhandled,
  op_throw, op_re_throw, dispatched, op_dispatch_call,
}
use mutineer.Buccaneer.Vm.Keeps.OfValues.{with_one-Keeps, push_own-Keeps, on_heap-Keeps}
use mutineer.Buccaneer.Vm.Keeps.OfObjects.{pop_many-Keeps}

module _ {H : Type 0} (md : Module) where
  read_bytes-Keeps : (n : ℕ) (m : Machine H) → Keeps m (read_bytes md n m).1
  unfolding read_bytes
  read_bytes-Keeps n m =
      if_split (λ (r : ℕ × Machine H). Keeps m r.1) (ltb (length md.bytecode) ((m.ip + n) % 2 ^ 32))
        _ _ (λ t. vm_fail-Keeps _ _ m) (λ t. same-Keeps refl refl refl refl refl refl)

  pub read_u8-Keeps : (m : Machine H) → Keeps m (read_u8 md m).1
  read_u8-Keeps m =
      if_split (λ (r : ℕ × Machine H). Keeps m r.1) (leb (length md.bytecode) m.ip) _ _
        (λ t. vm_fail-Keeps _ _ m) (λ t. same-Keeps refl refl refl refl refl refl)

  pub read_u16-Keeps : (m : Machine H) → Keeps m (read_u16 md m).1
  read_u16-Keeps m = read_bytes-Keeps 2 m

  read_i32-Keeps : (m : Machine H) → Keeps m (read_i32 md m).1
  read_i32-Keeps m = read_bytes-Keeps 4 m

module _ {H : Type 0} (w : World H) (md : Module) where
  pub op_push_constant-Keeps : (m : Machine H) → Keeps m (op_push_constant w md m)
  unfolding op_push_constant
  op_push_constant-Keeps m = Keeps-trans (read_u16-Keeps md m) (push-Keeps w _ _)

  pub op_push_str-Keeps : (m : Machine H) → Keeps m (op_push_str w md m)
  unfolding op_push_str
  op_push_str-Keeps m =
      Keeps-trans (read_u16-Keeps md m) (Keeps-trans (on_heap-Keeps w _ _) (push_own-Keeps w _ _))

  pub op_pop-Keeps : (m : Machine H) → Keeps m (op_pop w md m)
  unfolding op_pop
  op_pop-Keeps m = Keeps-trans (pop-Keeps m) (release-Keeps w _ _)

  swapped-Keeps : (m : Machine H) (vs : List Value) → m.stack ≡ vs → Keeps m (swapped w md m vs)
  swapped-Keeps m [] e = vm_fail-Keeps _ _ m
  swapped-Keeps m (a ∷ []) e = vm_fail-Keeps _ _ m
  swapped-Keeps m (a ∷ b ∷ vs) e =
      shorter-Keeps refl refl (omega (arith, ap length e)) (omega arith) refl (omega arith)

  pub op_swap-Keeps : (m : Machine H) → Keeps m (op_swap w md m)
  unfolding op_swap
  op_swap-Keeps m = swapped-Keeps m m.stack refl

  pub op_load_global-Keeps : (m : Machine H) → Keeps m (op_load_global w md m)
  unfolding op_load_global
  op_load_global-Keeps m =
      Keeps-trans (read_u16-Keeps md m)
        (Keeps-trans (get_global-Keeps w _ _) (push_own-Keeps w _ _))

  pub op_store_global-Keeps : (m : Machine H) → Keeps m (op_store_global w md m)
  unfolding op_store_global
  op_store_global-Keeps m =
      Keeps-trans (read_u16-Keeps md m) (with_one-Keeps w _ (λ v n. set_global-Keeps w _ v n) _)

  pub op_load_local-Keeps : (m : Machine H) → Keeps m (op_load_local w md m)
  unfolding op_load_local
  op_load_local-Keeps m =
      Keeps-trans (read_u16-Keeps md m) (Keeps-trans (get_local-Keeps w _ _) (push_own-Keeps w _ _))

  pub op_store_local-Keeps : (m : Machine H) → Keeps m (op_store_local w md m)
  unfolding op_store_local
  op_store_local-Keeps m =
      Keeps-trans (read_u16-Keeps md m) (with_one-Keeps w _ (λ v n. set_local-Keeps w _ v n) _)

  jump-Keeps : (offset : ℕ) (m : Machine H) → Keeps m (jump w md offset m)
  jump-Keeps offset m = same-Keeps refl refl refl refl refl refl

  pub op_jmp-Keeps : (m : Machine H) → Keeps m (op_jmp w md m)
  unfolding op_jmp
  op_jmp-Keeps m = Keeps-trans (read_i32-Keeps md m) (jump-Keeps _ _)

  pub op_jmp_if-Keeps : (wanted : Bool) (m : Machine H) → Keeps m (op_jmp_if w md wanted m)
  unfolding op_jmp_if
  op_jmp_if-Keeps wanted m =
      Keeps-trans (read_i32-Keeps md m)
        (with_one-Keeps w _ (λ v n. if-Keeps _ (jump-Keeps _ n) (Keeps-refl n)) _)

  copy_arguments-Keeps : (bp i n : ℕ) (m : Machine H) → Keeps m (copy_arguments w md bp i n m)
  unfolding copy_arguments
  copy_arguments-Keeps bp i zero m = Keeps-refl m
  copy_arguments-Keeps bp i (suc n) m = elim (Option-cases (at_bottom w md m ((bp + i) % 2 ^ 32))) [
    | inl t ↦ rw (copy_arguments, t) (undefined-Keeps m)
    | inr t ↦
        rw (copy_arguments, t.1)
          (Keeps-trans (set_local-Keeps w i t.0 m) (copy_arguments-Keeps bp (i + 1) n _))
  ]

  -- A frame more, where there is room.
  entered-Keeps :
      (proc bp : ℕ) (m : Machine H)
      → leb frames_max (length m.frames) ≡ false
      → Keeps m (entered w md proc bp m)
  entered-Keeps proc bp m t = record {
    same_limits = refl;
    same_count = refl;
    bounded = λ b. record {
      stack_fits = b.stack_fits;
      frames_fit = ground (arith, t, b.frames_fit);
      globals_fit = b.globals_fit;
      locals_fit = b.locals_fit;
    };
  }

  ip-Keeps : (ip : ℕ) (m : Machine H) → Keeps m (record m { ip = ip })
  ip-Keeps ip m = same-Keeps refl refl refl refl refl refl

  pub op_call-Keeps : (m : Machine H) → Keeps m (op_call w md m)
  unfolding op_call
  op_call-Keeps m =
      let a = (read_u8 md (read_u16 md m).1).1 in
      Keeps-trans (read_u16-Keeps md m) (
        Keeps-trans (read_u8-Keeps md _) (
          if_split (Keeps a) (leb (length md.procedures) (read_u16 md m).0) _ _
            (λ t. vm_fail-Keeps _ _ a)
            (λ t.
              if_split (Keeps a) (leb frames_max (length a.frames)) _ _ (λ u. vm_fail-Keeps _ _ a)
                (λ u.
                  Keeps-trans (entered-Keeps _ _ a u)
                    (Keeps-trans (copy_arguments-Keeps _ 0 _ _) (ip-Keeps _ _))))))

  pub release_all-Keeps : (vs : List Value) (m : Machine H) → Keeps m (release_all w md vs m)
  unfolding release_all
  release_all-Keeps [] m = Keeps-refl m
  release_all-Keeps (v ∷ vs) m = Keeps-trans (release-Keeps w v m) (release_all-Keeps vs _)

  drop_arguments-Keeps : (n : ℕ) (m : Machine H) → Keeps m (drop_arguments w md n m)
  unfolding drop_arguments
  drop_arguments-Keeps zero m = Keeps-refl m
  drop_arguments-Keeps (suc n) m = Keeps-trans (op_pop-Keeps m) (drop_arguments-Keeps n _)

  release_from_last-Keeps :
      (vs : List Value) (m : Machine H) → Keeps m (release_from_last w md vs m)
  unfolding release_from_last
  release_from_last-Keeps [] m = Keeps-refl m
  release_from_last-Keeps (v ∷ vs) m =
      Keeps-trans (release_from_last-Keeps vs m) (release-Keeps w v _)

  left_frame-Keeps :
      (f : Frame) (fs : List Frame) (m : Machine H)
      → m.frames ≡ f ∷ fs
      → Keeps m (left_frame w md f fs m)
  left_frame-Keeps f fs m e =
      Keeps-trans {n = record m { frames = fs; locals = take f.local_base m.locals }}
        (shorter-Keeps refl refl (omega arith) (omega (arith, ap length e)) refl
          (omega (arith, length-take f.local_base m.locals)))
        (Keeps-trans (release_from_last-Keeps _ _)
          (Keeps-trans (unwind_stack-Keeps w _ _) (ip-Keeps _ _)))

  pub halted-Keeps : (m : Machine H) → Keeps m (halted w md m)
  halted-Keeps m = same-Keeps refl refl refl refl refl refl

  returned-Keeps : (fs : List Frame) (m : Machine H) → m.frames ≡ fs → Keeps m (returned w md fs m)
  returned-Keeps [] m e = halted-Keeps m
  returned-Keeps (f ∷ fs) m e = left_frame-Keeps f fs m e

  pub op_return-Keeps : (m : Machine H) → Keeps m (op_return w md m)
  unfolding op_return
  op_return-Keeps m = returned-Keeps m.frames m refl

  returned_value-Keeps :
      (fs : List Frame) (v : Value) (m : Machine H)
      → m.frames ≡ fs
      → Keeps m (returned_value w md fs v m)
  returned_value-Keeps [] v m e = Keeps-trans (push-Keeps w v m) (halted-Keeps _)
  returned_value-Keeps (f ∷ fs) v m e = Keeps-trans (left_frame-Keeps f fs m e) (push-Keeps w v _)

  pub op_return_value-Keeps : (m : Machine H) → Keeps m (op_return_value w md m)
  unfolding op_return_value
  op_return_value-Keeps m =
      Keeps-trans (pop-Keeps m)
        (Keeps-trans (returned_value-Keeps _ _ (pop m).1 refl) (release-Keeps w _ _))

  pub op_chain-Keeps : (m : Machine H) → Keeps m (op_chain w md m)
  unfolding op_chain
  op_chain-Keeps m =
      let a : Machine H = record (read_u8 md (read_u16 md m).1).1 {
        chain_target = get_elem? md.strings (read_u16 md m).0;
      } in
      Keeps-trans (read_u16-Keeps md m) (
        Keeps-trans (read_u8-Keeps md _) (
          Keeps-trans {n = a} (same-Keeps refl refl refl refl refl refl) (
            Keeps-trans
              (if-Keeps ((read_u8 md (read_u16 md m).1).0 == 0) (Keeps-refl a) (
                Keeps-trans (release-Keeps w a.chain_args a)
                  (Keeps-trans (pop-Keeps _) (same-Keeps refl refl refl refl refl refl))))
              (same-Keeps refl refl refl refl refl refl))))

  pub op_try_begin-Keeps : (m : Machine H) → Keeps m (op_try_begin w md m)
  unfolding op_try_begin
  op_try_begin-Keeps m =
      let a = (read_i32 md m).1 in
      Keeps-trans (read_i32-Keeps md m) (
        if_split (Keeps a) (w.has_room a.heap 24) _ _
          (λ t. same-Keeps refl refl refl refl refl refl) (λ t. Keeps-refl a))

  without_try-Keeps : (ts : List TryFrame) (m : Machine H) → Keeps m (without_try w md ts m)
  without_try-Keeps [] m = Keeps-refl m
  without_try-Keeps (t ∷ ts) m = same-Keeps refl refl refl refl refl refl

  pub op_try_end-Keeps : (m : Machine H) → Keeps m (op_try_end w md m)
  unfolding op_try_end
  op_try_end-Keeps m = without_try-Keeps m.try_stack m

  or_unhandled-Keeps : (r : Bool × Machine H) → Keeps r.1 (or_unhandled w md r)
  or_unhandled-Keeps r = if-Keeps r.0 (Keeps-refl r.1) (vm_fail-Keeps _ _ r.1)

  pub op_throw-Keeps : (m : Machine H) → Keeps m (op_throw w md m)
  unfolding op_throw
  op_throw-Keeps m = Keeps-trans (pop-Keeps m) (
      Keeps-trans (throw-Keeps w _ _) (
        Keeps-trans (release-Keeps w _ _)
          (Keeps-trans (handle_exception-Keeps w _) (or_unhandled-Keeps _))))

  pub op_re_throw-Keeps : (m : Machine H) → Keeps m (op_re_throw w md m)
  unfolding op_re_throw
  op_re_throw-Keeps m =
      if_split (Keeps m) m.exception.active _ _
        (λ t. Keeps-trans (handle_exception-Keeps w m) (or_unhandled-Keeps _)) (λ t. Keeps-refl m)

  dispatched-Keeps :
      (proc : ℕ) (p : Option Proc) (m : Machine H) → Keeps m (dispatched w md proc p m)
  dispatched-Keeps proc none m = vm_fail-Keeps _ _ m
  dispatched-Keeps proc (some p) m =
      if_split (Keeps m) (leb frames_max (length m.frames)) _ _ (λ t. vm_fail-Keeps _ _ m)
        (λ t. Keeps-trans (entered-Keeps proc _ m t) (ip-Keeps _ _))

  pub op_dispatch_call-Keeps : (m : Machine H) → Keeps m (op_dispatch_call w md m)
  unfolding op_dispatch_call
  op_dispatch_call-Keeps m = Keeps-trans (read_u16-Keeps md m) (
      Keeps-trans (read_u8-Keeps md _) (
        Keeps-trans (pop-Keeps _) (
          Keeps-trans (release-Keeps w _ _)
            (if-Keeps _ (dispatched-Keeps _ _ _) (vm_fail-Keeps _ _ _)))))

  -- What a host may do to the machine that calls it.
  abbrev pub HostKeeps :
      Option (Machine H → List ℕ → List ℕ → List Value → Machine H × Value) → Type 0
  HostKeeps host =
      (handler : Machine H → List ℕ → List ℕ → List Value → Machine H × Value)
      → host ≡ some handler
      → (m : Machine H) (ns fn : List ℕ) (args : List Value) → Keeps m (handler m ns fn args).0

  host_called-Keeps :
      (host : Option (Machine H → List ℕ → List ℕ → List Value → Machine H × Value)) (imp : Import)
      (argc : ℕ) (m : Machine H)
      → HostKeeps host
      → Keeps m (host_called w md host imp argc m)
  host_called-Keeps none imp argc m h = Keeps-trans (drop_arguments-Keeps argc m) (push-Keeps w _ _)
  host_called-Keeps (some handler) imp argc m h =
      if_split (Keeps m) (ltb 16 argc) _ _ (λ t. vm_fail-Keeps _ _ m)
        (λ t. Keeps-trans (pop_many-Keeps w argc m) (
          Keeps-trans {n = counted w md _} (same-Keeps refl refl refl refl refl refl) (
            Keeps-trans (h handler refl _ _ _ _)
              (Keeps-trans (push-Keeps w _ _) (release_all-Keeps _ _)))))

  import_called-Keeps :
      (imp : Option Import) (argc : ℕ) (m : Machine H)
      → HostKeeps w.host_handler
      → Keeps m (import_called w md imp argc m)
  import_called-Keeps none argc m h = vm_fail-Keeps _ _ m
  import_called-Keeps (some imp) argc m h = host_called-Keeps w.host_handler imp argc m h

  pub op_call_host-Keeps :
      (m : Machine H) → HostKeeps w.host_handler → Keeps m (op_call_host w md m)
  unfolding op_call_host
  op_call_host-Keeps m h =
      Keeps-trans (read_u16-Keeps md m)
        (Keeps-trans (read_u8-Keeps md _) (import_called-Keeps _ _ _ h))
