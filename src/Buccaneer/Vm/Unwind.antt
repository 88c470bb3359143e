-- ===== src/Buccaneer/Vm/Unwind.antt =====
-- What a caught exception and a return leave of the machine of src/buccaneer/vm.c.
use mutineer.Prelude.{
  ℕ, zero, suc, ◌+◌, ◌-◌, ◌%◌, ◌^◌, ◌≤◌, ◌<◌, false, Bool-cases, Option-cases, List, [], ◌∷◌, ◌++◌,
  ltb, leb, ltb→lt, if_split, length, length-append, length-drop, take, drop, drop_all-append,
  take_all-append, ◌≡◌, refl, sym, ap, ◌∙◌, subst, inl, inr, arith,
}
use mutineer.Buccaneer.{Value}
use mutineer.Buccaneer.Vm.{
  World, Machine, Module, Frame, TryFrame, release, push, pop, deepest, popped, throw, release_down,
  unwind_stack, frames_down, caught, handle_exception, stack_max, frames_max, set_local, base_of,
  locals_max, undefined,
}
use mutineer.Buccaneer.Vm.Control.{
  op_throw, or_unhandled, copy_arguments, at_bottom, release_from_last, left_frame, op_call,
  op_return, returned, read_u8, read_u16,
}

-- The lowest n of a list with the top first.
module _ {ℓ} {A : Type ℓ} where
  abbrev pub lowest : ℕ → List A → List A
  lowest n xs = drop (length xs - n) xs

  drop_none : (k : ℕ) (xs : List A) → k ≡ 0 → drop k xs ≡ xs
  drop_none zero xs e = refl
  drop_none (suc k) xs e = absurd (omega arith)

  lowest-cons :
      (n : ℕ) (x : A) (xs : List A) → n < suc (length xs) → lowest n (x ∷ xs) ≡ lowest n xs
  lowest-cons n x xs h =
      let e : suc (length xs) - n ≡ suc (length xs - n) = omega arith in ap (λ k. drop k (x ∷ xs)) e

  lowest-all : (n : ℕ) (xs : List A) → length xs ≤ n → lowest n xs ≡ xs
  lowest-all n xs h = drop_none (length xs - n) xs (omega arith)

  length-lowest : (n : ℕ) (xs : List A) → length (lowest n xs) ≤ n
  length-lowest n xs = omega (arith, length-drop (length xs - n) xs)

module _ {H : Type 0} (w : World H) where
  release_down-lowest : (n : ℕ) (vs : List Value) (h : H) → (release_down w n vs h).0 ≡ lowest n vs
  unfolding release_down
  release_down-lowest n [] h = sym (lowest-all n [] (omega arith))
  release_down-lowest n (v ∷ vs) h = elim (Bool-cases (ltb n (suc (length vs)))) [
    | inl t ↦ rw t (
        release_down-lowest n vs (w.release_value h v)
        ∙ sym (lowest-cons n v vs (ltb→lt n (suc (length vs)) t)))
    | inr t ↦ rw t (sym (lowest-all n (v ∷ vs) (ground (arith, t))))
  ]

  frames_down-lowest : (n : ℕ) (fs : List Frame) → frames_down n fs ≡ lowest n fs
  unfolding frames_down
  frames_down-lowest n [] = sym (lowest-all n [] (omega arith))
  frames_down-lowest n (f ∷ fs) = elim (Bool-cases (ltb n (suc (length fs)))) [
    | inl t ↦
        rw t (frames_down-lowest n fs ∙ sym (lowest-cons n f fs (ltb→lt n (suc (length fs)) t)))
    | inr t ↦ rw t (sym (lowest-all n (f ∷ fs) (ground (arith, t))))
  ]

  -- A machine that goes on at a handler with the error on the stack, which is cut to the depth it had at the
  -- handler's TRY, like the frames; the locals are not cut.
  pub record IsCaught (m : Machine H) (e : Value) (vs : List Value) (t : TryFrame)
      (ts : List TryFrame) (n : Machine H) : Type 0 where
    pub stack_cut : n.stack ≡ e ∷ lowest t.stack_depth vs
    pub frames_cut : n.frames ≡ lowest t.frame_depth m.frames
    pub at_handler : n.ip ≡ t.handler_ip
    pub tries_left : n.try_stack ≡ ts
    pub inactive : n.exception.active ≡ false
    pub same_locals : n.locals ≡ m.locals
    pub same_globals : n.globals ≡ m.globals
    pub same_status : n.status ≡ m.status

  -- An operation on the stack that pushes where there is room.
  push_room :
      (v : Value) (m : Machine H)
      → length m.stack < stack_max
      → push w v m ≡ record m {
        heap = w.retain_value m.heap v;
        stack = v ∷ m.stack;
        counters = deepest (suc (length m.stack)) m.counters;
      }
  unfolding push
  push_room v m h = rw (room (length m.stack) h)
    where
      room : (n : ℕ) → n < stack_max → leb stack_max n ≡ false
      room n h = ground (arith, h)

  caught-IsCaught :
      (m : Machine H) (t : TryFrame) (ts : List TryFrame)
      → t.stack_depth < stack_max
      → IsCaught m m.exception.value m.stack t ts (caught w m (t ∷ ts)).1
  unfolding unwind_stack
  caught-IsCaught m t ts h =
      let a : Machine H = record m {
        try_stack = ts;
        frames = frames_down t.frame_depth m.frames;
      } in
      let cut = release_down-lowest t.stack_depth m.stack m.heap in
      let fits : length (unwind_stack w t.stack_depth a).stack < stack_max =
        omega (arith, ap length cut, length-lowest t.stack_depth m.stack) in
      let b = push_room m.exception.value (unwind_stack w t.stack_depth a) fits in
      record {
        stack_cut = ap (λ n. n.stack) b ∙ ap (λ s. m.exception.value ∷ s) cut;
        frames_cut = ap (λ n. n.frames) b ∙ frames_down-lowest t.frame_depth m.frames;
        at_handler = refl;
        tries_left = ap (λ n. n.try_stack) b;
        inactive = refl;
        same_locals = ap (λ n. n.locals) b;
        same_globals = ap (λ n. n.globals) b;
        same_status = ap (λ n. n.status) b;
      }

  -- OP_THROW in a machine with a value on top of the stack and a TRY to which fewer values than the array holds
  -- belong: execution goes on at the handler of the innermost TRY, which is left, with no active
  -- exception, the stack and the frames cut to that TRY's depths, and the error on top; the locals, even
  -- those of the frames that are left, the globals and the status stay.
  pub op_throw-IsCaught :
      (md : Module) (m : Machine H) (e : Value) (vs : List Value) (t : TryFrame)
      (ts : List TryFrame)
      → m.stack ≡ e ∷ vs
      → m.try_stack ≡ t ∷ ts
      → t.stack_depth < stack_max
      → IsCaught m e vs t ts (op_throw w md m)
  unfolding op_throw pop handle_exception throw release
  op_throw-IsCaught md m e vs t ts es et h =
      let a : Machine H = release w e (throw w e (record m { stack = vs })) in
      let first : op_throw w md m ≡ or_unhandled w md (caught w a m.try_stack) =
        ap (λ s. thrown md (popped m s)) es in
      let second : or_unhandled w md (caught w a m.try_stack) ≡ (caught w a (t ∷ ts)).1 =
        ap (λ s. or_unhandled w md (caught w a s)) et in
      let c = caught-IsCaught a t ts h in
      subst (IsCaught m e vs t ts) (sym (first ∙ second)) (record {
        stack_cut = c.stack_cut;
        frames_cut = c.frames_cut;
        at_handler = c.at_handler;
        tries_left = c.tries_left;
        inactive = c.inactive;
        same_locals = c.same_locals;
        same_globals = c.same_globals;
        same_status = c.same_status;
      })
    where
      thrown : Module → Value × Machine H → Machine H
      thrown md e = or_unhandled w md (handle_exception w (release w e.0 (throw w e.0 e.1)))

  set_local-frames : (i : ℕ) (v : Value) (m : Machine H) → (set_local w i v m).frames ≡ m.frames
  unfolding set_local
  set_local-frames i v m =
      if_split (λ (k : Machine H). k.frames ≡ m.frames)
        (leb locals_max ((base_of m.frames + i) % 2 ^ 32)) _ _ (λ t. refl) (λ t. refl)

  copy_arguments-frames :
      (md : Module) (bp i n : ℕ) (m : Machine H) → (copy_arguments w md bp i n m).frames ≡ m.frames
  unfolding copy_arguments undefined
  copy_arguments-frames md bp i zero m = refl
  copy_arguments-frames md bp i (suc n) m =
      elim (Option-cases (at_bottom w md m ((bp + i) % 2 ^ 32))) [
        | inl t ↦ rw (copy_arguments, t) refl
        | inr t ↦
            rw (copy_arguments, t.1)
              (copy_arguments-frames md bp (i + 1) n (set_local w i t.0 m)
                ∙ set_local-frames i t.0 m)
      ]

  release_from_last-heap :
      (md : Module) (vs : List Value) (m : Machine H)
      → (h : H) × (release_from_last w md vs m ≡ record m { heap = h })
  unfolding release_from_last release
  release_from_last-heap md [] m = (m.heap, refl)
  release_from_last-heap md (v ∷ vs) m =
      let r = release_from_last-heap md vs m in (w.release_value r.0 v, ap (release w v) r.1)

  lowest-append : (xs ys : List Value) → lowest (length ys) (xs ++ ys) ≡ ys
  lowest-append xs ys =
      let e : length (xs ++ ys) - length ys ≡ length xs = omega (arith, length-append xs ys) in
      ap (λ k. drop k (xs ++ ys)) e ∙ drop_all-append xs ys

  -- The machine of the caller again, with the stack without the arguments.
  pub record IsBack (m : Machine H) (argc : ℕ) (n : Machine H) : Type 0 where
    pub no_arguments : n.stack ≡ drop argc m.stack
    pub callers_frames : n.frames ≡ m.frames
    pub callers_locals : n.locals ≡ m.locals
    pub behind_call : n.ip ≡ m.ip

  abbrev pub frame_of : ℕ → ℕ → Machine H → Frame
  frame_of proc argc m = record {
    proc = proc;
    ip = m.ip;
    bp = (length m.stack + 2 ^ 32 - argc) % 2 ^ 32;
    local_base = length m.locals;
  }

  left_frame-IsBack :
      (md : Module) (m n : Machine H) (proc argc : ℕ) (xs ys : List Value)
      → argc ≤ length m.stack
      → length m.stack ≤ stack_max
      → n.stack ≡ xs ++ drop argc m.stack
      → n.locals ≡ m.locals ++ ys
      → IsBack m argc (left_frame w md (frame_of proc argc m) m.frames n)
  unfolding unwind_stack
  left_frame-IsBack md m n proc argc xs ys le fits es el =
      let f = frame_of proc argc m in
      let a : Machine H = record n { frames = m.frames; locals = take f.local_base n.locals } in
      let r = release_from_last-heap md (drop f.local_base n.locals) a in
      let b = release_from_last w md (drop f.local_base n.locals) a in
      let size : f.bp ≡ length (drop argc m.stack) = omega (arith, length-drop argc m.stack) in
      record {
        no_arguments =
            release_down-lowest f.bp b.stack b.heap
            ∙ ap (λ k. lowest f.bp k.stack) r.1
            ∙ ap (lowest f.bp) es
            ∙ ap (λ k. lowest k (xs ++ drop argc m.stack)) size
            ∙ lowest-append xs (drop argc m.stack);
        callers_frames = ap (λ k. k.frames) r.1;
        callers_locals =
            ap (λ k. k.locals) r.1 ∙ ap (take (length m.locals)) el ∙ take_all-append m.locals ys;
        behind_call = refl;
      }

  -- The operands of OP_CALL, and the machine behind them.
  abbrev pub called_proc : Module → Machine H → ℕ
  called_proc md m = (read_u16 md m).0

  abbrev pub called_argc : Module → Machine H → ℕ
  called_argc md m = (read_u8 md (read_u16 md m).1).0

  abbrev pub behind_operands : Module → Machine H → Machine H
  behind_operands md m = (read_u8 md (read_u16 md m).1).1

  op_call-frames :
      (md : Module) (m : Machine H)
      → called_proc md m < length md.procedures
      → length (behind_operands md m).frames < frames_max
      → (op_call w md m).frames
        ≡ frame_of (called_proc md m) (called_argc md m) (behind_operands md m)
          ∷ (behind_operands md m).frames
  unfolding op_call
  op_call-frames md m p f =
      rw (below (called_proc md m) (length md.procedures) p) rw
        (below (length (behind_operands md m).frames) frames_max f)
        (copy_arguments-frames md _ 0 (called_argc md m) _)
    where
      below : (a b : ℕ) → a < b → leb b a ≡ false
      below a b h = ground (arith, h)

  -- Let OP_CALL have a procedure that is there, room for a frame and at least as many values on a stack
  -- within its array as arguments. If the machine comes to have the frames that the call left, the values
  -- below the arguments at the bottom of its stack and the caller's locals as its first ones, then
  -- OP_RETURN gives the caller's frames, its locals, its stack without the arguments, and the place
  -- behind the call.
  pub op_call-op_return :
      (md : Module) (m n : Machine H) (xs ys : List Value)
      → called_proc md m < length md.procedures
      → length (behind_operands md m).frames < frames_max
      → called_argc md m ≤ length (behind_operands md m).stack
      → length (behind_operands md m).stack ≤ stack_max
      → n.frames ≡ (op_call w md m).frames
      → n.stack ≡ xs ++ drop (called_argc md m) (behind_operands md m).stack
      → n.locals ≡ (behind_operands md m).locals ++ ys
      → IsBack (behind_operands md m) (called_argc md m) (op_return w md n)
  unfolding op_return
  op_call-op_return md m n xs ys p f le fits ef es el =
      let c = behind_operands md m in
      subst (λ fs. IsBack c (called_argc md m) (returned w md fs n))
        (sym (ef ∙ op_call-frames md m p f))
        (left_frame-IsBack md c n (called_proc md m) (called_argc md m) xs ys le fits es el)
