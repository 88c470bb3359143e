-- ===== src/Buccaneer/Vm/Keeps.antt =====
-- What no operation of src/buccaneer/vm.c changes or exceeds: the limits, the count of instructions, and the
-- sizes of the machine's four arrays.
pub mod OfValues
pub mod OfObjects
pub mod OfControl
use mutineer.Prelude.{
  ℕ, zero, suc, ◌+◌, ◌-◌, ◌*◌, ◌%◌, ◌^◌, ◌≤◌, ◌<◌, Bool, true, false, Bool-cases, not, Option, none,
  some, List, [], ◌∷◌, ◌++◌, ltb, leb, leb→le, if◌then◌else◌, if_split, length, length-append,
  length-set, length-replicate, length-take, replicate, set, take, drop, ◌≡◌, refl, sym, ap, ◌∙◌,
  subst, inl, inr, arith,
}
use mutineer.Buccaneer.{Value, null}
use mutineer.Buccaneer.Vm.{
  World, Machine, Frame, TryFrame, Status, Message, vm_fail, undefined, retain, release, push, pop,
  popped, filled, get_global, set_global, get_local, set_local, base_of, throw, release_down,
  unwind_stack, frames_down, caught, handle_exception, stack_max, frames_max, globals_max,
  locals_max,
}

length-filled : (vs : List Value) (i n : ℕ) → length vs ≤ n → i < n → length (filled vs i) ≤ n
length-filled vs i n h lt = elim (Bool-cases (leb (length vs) i)) [
  | inl t ↦ rw t (
      omega (
        arith,
        leb→le (length vs) i t,
        length-append vs (replicate (suc i - length vs) null),
        length-replicate (suc i - length vs) null,
      ))
  | inr t ↦ rw t h
]

set-filled :
    (vs : List Value) (i n : ℕ) (v : Value)
    → length vs ≤ n
    → leb n i ≡ false
    → length (set (filled vs i) i v) ≤ n
set-filled vs i n v h t =
    omega (arith, length-set (filled vs i) i v, length-filled vs i n h (ground (arith, t)))

frames_down-shorter : (n : ℕ) (fs : List Frame) → length (frames_down n fs) ≤ length fs
unfolding frames_down
frames_down-shorter n [] = omega arith
frames_down-shorter n (f ∷ fs) = elim (Bool-cases (ltb n (suc (length fs)))) [
  | inl t ↦ rw t (omega (arith, frames_down-shorter n fs))
  | inr t ↦ rw t (omega arith)
]

module _ {H : Type 0} where
  -- sp, fp, global_count and local_count within the arrays of bucc_vm_t.
  pub record IsBounded (m : Machine H) : Type 0 where
    pub stack_fits : length m.stack ≤ stack_max
    pub frames_fit : length m.frames ≤ frames_max
    pub globals_fit : length m.globals ≤ globals_max
    pub locals_fit : length m.locals ≤ locals_max

  pub record Keeps (m n : Machine H) : Type 0 where
    pub same_limits : n.limits ≡ m.limits
    pub same_count : n.counters.instructions ≡ m.counters.instructions
    pub bounded : IsBounded m → IsBounded n

  pub Keeps-refl : (m : Machine H) → Keeps m m
  Keeps-refl m = record { same_limits = refl; same_count = refl; bounded = λ b. b }

  pub Keeps-trans : {m n o : Machine H} → Keeps m n → Keeps n o → Keeps m o
  Keeps-trans k l = record {
    same_limits = l.same_limits ∙ k.same_limits;
    same_count = l.same_count ∙ k.same_count;
    bounded = λ b. l.bounded (k.bounded b);
  }

  pub if-Keeps :
      {m n o : Machine H} (b : Bool) → Keeps m n → Keeps m o → Keeps m (if b then n else o)
  if-Keeps true k l = k
  if-Keeps false k l = l

  -- Where the fields that are bounded, the limits and the counters stay the same.
  pub same-Keeps :
      {m n : Machine H}
      → n.limits ≡ m.limits
      → n.counters.instructions ≡ m.counters.instructions
      → n.stack ≡ m.stack
      → n.frames ≡ m.frames
      → n.globals ≡ m.globals
      → n.locals ≡ m.locals
      → Keeps m n
  same-Keeps l c s f g k = record {
    same_limits = l;
    same_count = c;
    bounded = λ b. record {
      stack_fits = omega (arith, b.stack_fits, ap length s);
      frames_fit = omega (arith, b.frames_fit, ap length f);
      globals_fit = omega (arith, b.globals_fit, ap length g);
      locals_fit = omega (arith, b.locals_fit, ap length k);
    };
  }

  pub vm_fail-Keeps :
      (status : Status) (msg : Message) (m : Machine H) → Keeps m (vm_fail status msg m)
  unfolding vm_fail
  vm_fail-Keeps status msg m = same-Keeps refl refl refl refl refl refl

  pub undefined-Keeps : (m : Machine H) → Keeps m (undefined m)
  unfolding undefined
  undefined-Keeps m = same-Keeps refl refl refl refl refl refl

  pub retain-Keeps : (w : World H) (v : Value) (m : Machine H) → Keeps m (retain w v m)
  unfolding retain
  retain-Keeps w v m = same-Keeps refl refl refl refl refl refl

  pub release-Keeps : (w : World H) (v : Value) (m : Machine H) → Keeps m (release w v m)
  unfolding release
  release-Keeps w v m = same-Keeps refl refl refl refl refl refl

  pub push-Keeps : (w : World H) (v : Value) (m : Machine H) → Keeps m (push w v m)
  unfolding push
  push-Keeps w v m = elim (Bool-cases (leb stack_max (length m.stack))) [
    | inl t ↦ rw t (same-Keeps refl refl refl refl refl refl)
    | inr t ↦ rw t (record {
      same_limits = refl;
      same_count = refl;
      bounded = λ b. record {
        stack_fits = ground (arith, t, b.stack_fits);
        frames_fit = b.frames_fit;
        globals_fit = b.globals_fit;
        locals_fit = b.locals_fit;
      };
    })
  ]

  popped-Keeps : (m : Machine H) (vs : List Value) → m.stack ≡ vs → Keeps m (popped m vs).1
  popped-Keeps m [] e = same-Keeps refl refl refl refl refl refl
  popped-Keeps m (v ∷ vs) e = record {
    same_limits = refl;
    same_count = refl;
    bounded = λ b. record {
      stack_fits = omega (arith, b.stack_fits, ap length e);
      frames_fit = b.frames_fit;
      globals_fit = b.globals_fit;
      locals_fit = b.locals_fit;
    };
  }

  pub pop-Keeps : (m : Machine H) → Keeps m (pop m).1
  unfolding pop
  pop-Keeps m = popped-Keeps m m.stack refl

  pub get_global-Keeps : (w : World H) (i : ℕ) (m : Machine H) → Keeps m (get_global w i m).1
  unfolding get_global
  get_global-Keeps w i m = elim (Bool-cases (leb (length m.globals) i)) [
    | inl t ↦ rw t (Keeps-refl m)
    | inr t ↦ rw t (retain-Keeps w _ m)
  ]

  pub get_local-Keeps : (w : World H) (i : ℕ) (m : Machine H) → Keeps m (get_local w i m).1
  unfolding get_local
  get_local-Keeps w i m =
      elim (Bool-cases (leb (length m.locals) ((base_of m.frames + i) % 2 ^ 32))) [
        | inl t ↦ rw t (Keeps-refl m)
        | inr t ↦ rw t (retain-Keeps w _ m)
      ]

  pub set_global-Keeps :
      (w : World H) (i : ℕ) (v : Value) (m : Machine H) → Keeps m (set_global w i v m)
  unfolding set_global
  set_global-Keeps w i v m = elim (Bool-cases (leb globals_max i)) [
    | inl t ↦ rw t (Keeps-refl m)
    | inr t ↦ rw t (record {
      same_limits = refl;
      same_count = refl;
      bounded = λ b. record {
        stack_fits = b.stack_fits;
        frames_fit = b.frames_fit;
        globals_fit = set-filled m.globals i globals_max v b.globals_fit t;
        locals_fit = b.locals_fit;
      };
    })
  ]

  pub set_local-Keeps :
      (w : World H) (i : ℕ) (v : Value) (m : Machine H) → Keeps m (set_local w i v m)
  unfolding set_local
  set_local-Keeps w i v m =
      let at = (base_of m.frames + i) % 2 ^ 32 in
      elim (Bool-cases (leb locals_max at)) [
        | inl t ↦ rw t (Keeps-refl m)
        | inr t ↦ rw t (record {
          same_limits = refl;
          same_count = refl;
          bounded = λ b. record {
            stack_fits = b.stack_fits;
            frames_fit = b.frames_fit;
            globals_fit = b.globals_fit;
            locals_fit = set-filled m.locals at locals_max v b.locals_fit t;
          };
        })
      ]

  pub throw-Keeps : (w : World H) (e : Value) (m : Machine H) → Keeps m (throw w e m)
  unfolding throw
  throw-Keeps w e m = same-Keeps refl refl refl refl refl refl

  release_down-shorter :
      (w : World H) (n : ℕ) (vs : List Value) (h : H) → length (release_down w n vs h).0 ≤ length vs
  unfolding release_down
  release_down-shorter w n [] h = omega arith
  release_down-shorter w n (v ∷ vs) h = elim (Bool-cases (ltb n (suc (length vs)))) [
    | inl t ↦ rw t (omega (arith, release_down-shorter w n vs (w.release_value h v)))
    | inr t ↦ rw t (omega arith)
  ]

  -- Where the frames, the stack and the locals may shrink.
  pub shorter-Keeps :
      {m n : Machine H}
      → n.limits ≡ m.limits
      → n.counters.instructions ≡ m.counters.instructions
      → length n.stack ≤ length m.stack
      → length n.frames ≤ length m.frames
      → n.globals ≡ m.globals
      → length n.locals ≤ length m.locals
      → Keeps m n
  shorter-Keeps l c s f g k = record {
    same_limits = l;
    same_count = c;
    bounded = λ b. record {
      stack_fits = omega (arith, b.stack_fits, s);
      frames_fit = omega (arith, b.frames_fit, f);
      globals_fit = omega (arith, b.globals_fit, ap length g);
      locals_fit = omega (arith, b.locals_fit, k);
    };
  }

  pub unwind_stack-Keeps : (w : World H) (n : ℕ) (m : Machine H) → Keeps m (unwind_stack w n m)
  unfolding unwind_stack
  unwind_stack-Keeps w n m =
      shorter-Keeps refl refl (release_down-shorter w n m.stack m.heap) (omega arith) refl
        (omega arith)

  caught-Keeps : (w : World H) (m : Machine H) (ts : List TryFrame) → Keeps m (caught w m ts).1
  caught-Keeps w m [] = Keeps-refl m
  caught-Keeps w m (t ∷ ts) =
      let a = record m { try_stack = ts; frames = frames_down t.frame_depth m.frames } in
      let u = unwind_stack w t.stack_depth a in
      Keeps-trans {n = a}
        (shorter-Keeps refl refl (omega arith) (frames_down-shorter t.frame_depth m.frames) refl
          (omega arith))
        (Keeps-trans (unwind_stack-Keeps w t.stack_depth a) (
          Keeps-trans (push-Keeps w m.exception.value u)
            (same-Keeps refl refl refl refl refl refl)))

  pub handle_exception-Keeps : (w : World H) (m : Machine H) → Keeps m (handle_exception w m).1
  unfolding handle_exception
  handle_exception-Keeps w m =
      if_split (λ (r : Bool × Machine H). Keeps m r.1) m.exception.active _ _
        (λ t. caught-Keeps w m m.try_stack) (λ t. Keeps-refl m)
