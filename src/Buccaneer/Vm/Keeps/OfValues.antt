-- ===== src/Buccaneer/Vm/Keeps/OfValues.antt =====
-- That the operations on values in src/buccaneer/vm.c keep the bounds.
use mutineer.Prelude.{ℕ, Bool, Option, none, some, ◌||◌, ◌==◌, refl}
use mutineer.Buccaneer.{Value}
use mutineer.Buccaneer.Vm.Keeps.{
  Keeps, Keeps-trans, if-Keeps, same-Keeps, release-Keeps, push-Keeps, pop-Keeps, throw-Keeps,
  handle_exception-Keeps, undefined-Keeps,
}
use mutineer.Buccaneer.Vm.{World, Machine, release, push, pop}
use mutineer.Buccaneer.Vm.Casts.{is_string, is_f64, as_i64, as_double}
use mutineer.Buccaneer.Vm.Ops.{
  with_one, with_two, with_three, push_own, push_made, concat_values, throw_division, arith_values,
  test_two, push_quotient, push_equal, op_add, op_sub, op_mul, op_div, op_mod, op_neg, op_eq, op_ne,
  op_lt, op_le, op_gt, op_ge, op_and, op_or, op_not, op_concat, op_cast_i64, op_cast_f64,
  op_cast_string, op_cast_bool, op_typeof, op_cast_date, op_cast_datetime, range_test,
}

module _ {H : Type 0} (w : World H) where
  pub with_one-Keeps :
      (k : Value → Machine H → Machine H)
      → ((a : Value) (m : Machine H) → Keeps m (k a m))
      → (m : Machine H) → Keeps m (with_one w k m)
  unfolding with_one
  with_one-Keeps k f m =
      let b = pop m in
      Keeps-trans (pop-Keeps m) (Keeps-trans (f b.0 b.1) (release-Keeps w b.0 (k b.0 b.1)))

  pub with_two-Keeps :
      (k : Value → Value → Machine H → Machine H)
      → ((a b : Value) (m : Machine H) → Keeps m (k a b m))
      → (m : Machine H) → Keeps m (with_two w k m)
  unfolding with_two
  with_two-Keeps k f m =
      let b = pop m in
      let a = pop b.1 in
      let n = k a.0 b.0 a.1 in
      Keeps-trans (pop-Keeps m) (
        Keeps-trans (pop-Keeps b.1) (
          Keeps-trans (f a.0 b.0 a.1)
            (Keeps-trans (release-Keeps w a.0 n) (release-Keeps w b.0 (release w a.0 n)))))

  pub with_three-Keeps :
      (k : Value → Value → Value → Machine H → Machine H)
      → ((a b c : Value) (m : Machine H) → Keeps m (k a b c m))
      → (m : Machine H) → Keeps m (with_three w k m)
  unfolding with_three
  with_three-Keeps k f m =
      let c = pop m in
      let b = pop c.1 in
      let a = pop b.1 in
      let n = k a.0 b.0 c.0 a.1 in
      Keeps-trans (pop-Keeps m) (
        Keeps-trans (pop-Keeps c.1) (
          Keeps-trans (pop-Keeps b.1) (
            Keeps-trans (f a.0 b.0 c.0 a.1) (
              Keeps-trans (release-Keeps w a.0 n) (
                Keeps-trans (release-Keeps w b.0 (release w a.0 n))
                  (release-Keeps w c.0 (release w b.0 (release w a.0 n))))))))

  pub push_own-Keeps : (v : Value) (m : Machine H) → Keeps m (push_own w v m)
  unfolding push_own
  push_own-Keeps v m = Keeps-trans (push-Keeps w v m) (release-Keeps w v (push w v m))

  pub on_heap-Keeps : (h : H) (m : Machine H) → Keeps m (record m { heap = h })
  on_heap-Keeps h m = same-Keeps refl refl refl refl refl refl

  pub push_made-Keeps : (r : H × Value) (m : Machine H) → Keeps m (push_made w r m)
  unfolding push_made
  push_made-Keeps r m =
      Keeps-trans (on_heap-Keeps r.0 m) (push_own-Keeps r.1 (record m { heap = r.0 }))

  concat_values-Keeps : (a b : Value) (m : Machine H) → Keeps m (concat_values w a b m)
  unfolding concat_values
  concat_values-Keeps a b m = Keeps-trans (on_heap-Keeps _ m) (
      Keeps-trans (push-Keeps w _ _) (
        Keeps-trans (release-Keeps w _ _)
          (Keeps-trans (release-Keeps w _ _) (release-Keeps w _ _))))

  throw_division-Keeps : (m : Machine H) → Keeps m (throw_division w m)
  unfolding throw_division
  throw_division-Keeps m =
      Keeps-trans (on_heap-Keeps _ m) (Keeps-trans (throw-Keeps w _ _) (handle_exception-Keeps w _))

  arith_values-Keeps :
      (f g : ℕ → ℕ → ℕ) (a b : Value) (m : Machine H) → Keeps m (arith_values w f g a b m)
  unfolding arith_values
  arith_values-Keeps f g a b m =
      if-Keeps (is_f64 a || is_f64 b) (push-Keeps w _ m) (push-Keeps w _ m)

  test_two-Keeps : (f : H → Value → Value → Bool) (m : Machine H) → Keeps m (test_two w f m)
  unfolding test_two
  test_two-Keeps f m = with_two-Keeps _ (λ a b n. push-Keeps w _ n) m

  pub op_add-Keeps : (m : Machine H) → Keeps m (op_add w m)
  unfolding op_add
  op_add-Keeps m =
      with_two-Keeps _
        (λ a b n.
          if-Keeps (is_string a || is_string b) (concat_values-Keeps a b n)
            (arith_values-Keeps _ _ a b n))
        m

  pub op_sub-Keeps : (m : Machine H) → Keeps m (op_sub w m)
  unfolding op_sub
  op_sub-Keeps m = with_two-Keeps _ (arith_values-Keeps _ _) m

  pub op_mul-Keeps : (m : Machine H) → Keeps m (op_mul w m)
  unfolding op_mul
  op_mul-Keeps m = with_two-Keeps _ (arith_values-Keeps _ _) m

  push_quotient-Keeps : (o : Option ℕ) (m : Machine H) → Keeps m (push_quotient w o m)
  push_quotient-Keeps none m = undefined-Keeps m
  push_quotient-Keeps (some n) m = push-Keeps w _ m

  push_equal-Keeps :
      (f : Bool → Bool) (o : Option Bool) (m : Machine H) → Keeps m (push_equal w f o m)
  push_equal-Keeps f none m = undefined-Keeps m
  push_equal-Keeps f (some b) m = push-Keeps w _ m

  pub op_div-Keeps : (m : Machine H) → Keeps m (op_div w m)
  unfolding op_div
  op_div-Keeps m =
      with_two-Keeps _
        (λ a b n.
          if-Keeps (is_f64 a || is_f64 b)
            (if-Keeps (w.is_zero (as_double w b)) (throw_division-Keeps n) (push-Keeps w _ n))
            (if-Keeps (as_i64 w b == 0) (throw_division-Keeps n) (push_quotient-Keeps _ n)))
        m

  pub op_mod-Keeps : (m : Machine H) → Keeps m (op_mod w m)
  unfolding op_mod
  op_mod-Keeps m =
      with_two-Keeps _
        (λ a b n. if-Keeps (as_i64 w b == 0) (throw_division-Keeps n) (push_quotient-Keeps _ n)) m

  pub op_neg-Keeps : (m : Machine H) → Keeps m (op_neg w m)
  unfolding op_neg
  op_neg-Keeps m =
      with_one-Keeps _ (λ a n. if-Keeps (is_f64 a) (push-Keeps w _ n) (push-Keeps w _ n)) m

  pub op_eq-Keeps : (m : Machine H) → Keeps m (op_eq w m)
  unfolding op_eq
  op_eq-Keeps m = with_two-Keeps _ (λ a b n. push_equal-Keeps _ _ n) m

  pub op_ne-Keeps : (m : Machine H) → Keeps m (op_ne w m)
  unfolding op_ne
  op_ne-Keeps m = with_two-Keeps _ (λ a b n. push_equal-Keeps _ _ n) m

  pub op_lt-Keeps : (m : Machine H) → Keeps m (op_lt w m)
  unfolding op_lt
  op_lt-Keeps m = test_two-Keeps _ m

  pub op_le-Keeps : (m : Machine H) → Keeps m (op_le w m)
  unfolding op_le
  op_le-Keeps m = test_two-Keeps _ m

  pub op_gt-Keeps : (m : Machine H) → Keeps m (op_gt w m)
  unfolding op_gt
  op_gt-Keeps m = test_two-Keeps _ m

  pub op_ge-Keeps : (m : Machine H) → Keeps m (op_ge w m)
  unfolding op_ge
  op_ge-Keeps m = test_two-Keeps _ m

  pub op_and-Keeps : (m : Machine H) → Keeps m (op_and w m)
  unfolding op_and
  op_and-Keeps m = test_two-Keeps _ m

  pub op_or-Keeps : (m : Machine H) → Keeps m (op_or w m)
  unfolding op_or
  op_or-Keeps m = test_two-Keeps _ m

  pub op_not-Keeps : (m : Machine H) → Keeps m (op_not w m)
  unfolding op_not
  op_not-Keeps m = with_one-Keeps _ (λ v n. push-Keeps w _ n) m

  pub op_concat-Keeps : (m : Machine H) → Keeps m (op_concat w m)
  unfolding op_concat
  op_concat-Keeps m = with_two-Keeps _ concat_values-Keeps m

  pub op_cast_i64-Keeps : (m : Machine H) → Keeps m (op_cast_i64 w m)
  unfolding op_cast_i64
  op_cast_i64-Keeps m = with_one-Keeps _ (λ v n. push-Keeps w _ n) m

  pub op_cast_f64-Keeps : (m : Machine H) → Keeps m (op_cast_f64 w m)
  unfolding op_cast_f64
  op_cast_f64-Keeps m = with_one-Keeps _ (λ v n. push-Keeps w _ n) m

  pub op_cast_string-Keeps : (m : Machine H) → Keeps m (op_cast_string w m)
  unfolding op_cast_string
  op_cast_string-Keeps m = with_one-Keeps _ (λ v n. push_made-Keeps _ n) m

  pub op_cast_bool-Keeps : (m : Machine H) → Keeps m (op_cast_bool w m)
  unfolding op_cast_bool
  op_cast_bool-Keeps m = with_one-Keeps _ (λ v n. push-Keeps w _ n) m

  pub op_typeof-Keeps : (m : Machine H) → Keeps m (op_typeof w m)
  unfolding op_typeof
  op_typeof-Keeps m = with_one-Keeps _ (λ v n. push_made-Keeps _ n) m

  pub op_cast_date-Keeps : (m : Machine H) → Keeps m (op_cast_date w m)
  unfolding op_cast_date
  op_cast_date-Keeps m =
      Keeps-trans (pop-Keeps m) (Keeps-trans (release-Keeps w _ _) (push-Keeps w _ _))

  pub op_cast_datetime-Keeps : (m : Machine H) → Keeps m (op_cast_datetime w m)
  unfolding op_cast_datetime
  op_cast_datetime-Keeps m =
      Keeps-trans (pop-Keeps m) (Keeps-trans (release-Keeps w _ _) (push-Keeps w _ _))

  pub range_test-Keeps : (m : Machine H) → Keeps m (range_test w m)
  unfolding range_test
  range_test-Keeps m = Keeps-trans (pop-Keeps m) (
      Keeps-trans (pop-Keeps _) (
        Keeps-trans (pop-Keeps _) (
          Keeps-trans (release-Keeps w _ _) (
            Keeps-trans (release-Keeps w _ _)
              (Keeps-trans (release-Keeps w _ _) (push-Keeps w _ _))))))
