-- ===== src/Buccaneer/Vm/Ops.antt =====
-- The operations that bucc_vm_step of src/buccaneer/vm.c runs on values: one function for each case of its
-- switch, or for the cases that share their shape.
use Prim.Native.Nat.{Ordering}
use mutineer.Prelude.{
  ℕ, ◌+◌, ◌-◌, ◌*◌, ◌%◌, ◌^◌, Bool, true, false, not, ◌&&◌, ◌||◌, Option, none, some, List, [], ◌∷◌,
  ◌==◌, if◌then◌else◌,
}
use mutineer.Buccaneer.{
  Value, null, boolean, i64, f64, string, date, datetime, array, map_of, error, string_cmp,
}
use mutineer.Buccaneer.Vm.{World, Machine, release, push, pop, throw, handle_exception, undefined}
use mutineer.Buccaneer.Vm.Casts.{
  is_string, is_f64, is_i64, is_numeric, as_i64, as_double, divide, remainder, negate, at_most,
  to_number, cast_date, cast_datetime,
}

abbrev pub value_kind_name : Value → List ℕ
value_kind_name null = b'N' ∷ b'U' ∷ b'L' ∷ b'L' ∷ []
value_kind_name (boolean b) = b'B' ∷ b'O' ∷ b'O' ∷ b'L' ∷ b'E' ∷ b'A' ∷ b'N' ∷ []
value_kind_name (i64 n) = b'I' ∷ b'N' ∷ b'T' ∷ b'E' ∷ b'G' ∷ b'E' ∷ b'R' ∷ []
value_kind_name (f64 n) = b'D' ∷ b'O' ∷ b'U' ∷ b'B' ∷ b'L' ∷ b'E' ∷ []
value_kind_name (string s) = b'S' ∷ b'T' ∷ b'R' ∷ b'I' ∷ b'N' ∷ b'G' ∷ []
value_kind_name (date y m d) = b'D' ∷ b'A' ∷ b'T' ∷ b'E' ∷ []
value_kind_name (datetime y m d h mi s) = b'D' ∷ b'A' ∷ b'T' ∷ b'E' ∷ b'T' ∷ b'I' ∷ b'M' ∷ b'E' ∷ []
value_kind_name (array p) = b'A' ∷ b'R' ∷ b'R' ∷ b'A' ∷ b'Y' ∷ []
value_kind_name (map_of p) = b'M' ∷ b'A' ∷ b'P' ∷ []
value_kind_name (error p) = b'E' ∷ b'R' ∷ b'R' ∷ b'O' ∷ b'R' ∷ []

abbrev pub division_by_zero : List ℕ
division_by_zero =
    b'D' ∷ b'i' ∷ b'v' ∷ b'i' ∷ b's' ∷ b'i' ∷ b'o' ∷ b'n' ∷ b' ' ∷ b'b' ∷ b'y' ∷ b' ' ∷ b'z' ∷ b'e'
    ∷ b'r' ∷ b'o' ∷ []

abbrev pub is_lt : Ordering → Bool
is_lt Ordering.lt = true
is_lt _ = false

abbrev pub is_gt : Ordering → Bool
is_gt Ordering.gt = true
is_gt _ = false

module _ {H : Type 0} (w : World H) where
  -- One value is taken, used and released.
  unfoldable pub with_one : (Value → Machine H → Machine H) → Machine H → Machine H
  with_one k m = let b = pop m in release w b.0 (k b.0 b.1)

  -- Two are; `a` lay below `b`, and is released first.
  unfoldable pub with_two : (Value → Value → Machine H → Machine H) → Machine H → Machine H
  with_two k m = let b = pop m in let a = pop b.1 in release w b.0 (release w a.0 (k a.0 b.0 a.1))

  -- Three are; the lowest is released first, then the middle one.
  unfoldable pub with_three :
      (Value → Value → Value → Machine H → Machine H) → Machine H → Machine H
  with_three k m =
      let c = pop m in
      let b = pop c.1 in
      let a = pop b.1 in release w c.0 (release w b.0 (release w a.0 (k a.0 b.0 c.0 a.1)))

  -- A value with a reference of its own is pushed, and the reference given back.
  unfoldable pub push_own : Value → Machine H → Machine H
  push_own v m = release w v (push w v m)

  unfoldable pub push_made : H × Value → Machine H → Machine H
  push_made r m = push_own r.1 (record m { heap = r.0 })

  -- Both texts, their concatenation, and the three references given back.
  unfoldable pub concat_values : Value → Value → Machine H → Machine H
  concat_values a b m =
      let sa = w.to_string m.heap a in
      let sb = w.to_string sa.0 b in
      let result = w.concat sb.0 sa.1 sb.1 in
      release w (string result.1) (
        release w (string sb.1)
          (release w (string sa.1) (push w (string result.1) (record m { heap = result.0 }))))

  unfoldable pub throw_division : Machine H → Machine H
  throw_division m =
      let e = w.error_new m.heap division_by_zero in
      (handle_exception w (throw w e.1 (record m { heap = e.0 }))).1

  -- On doubles if one operand is a double, otherwise on integers.
  unfoldable pub arith_values : (ℕ → ℕ → ℕ) → (ℕ → ℕ → ℕ) → Value → Value → Machine H → Machine H
  arith_values doubles integers a b m =
      if is_f64 a || is_f64 b
      then push w (f64 (doubles (as_double w a) (as_double w b))) m
      else push w (i64 (integers (as_i64 w a) (as_i64 w b))) m

  unfoldable pub op_add : Machine H → Machine H
  op_add = with_two (λ a b m.
      if is_string a || is_string b
      then concat_values a b m
      else arith_values w.double_add (λ x y. (x + y) % 2 ^ 64) a b m)

  unfoldable pub op_sub : Machine H → Machine H
  op_sub = with_two (arith_values w.double_sub (λ x y. (x + 2 ^ 64 - y) % 2 ^ 64))

  unfoldable pub op_mul : Machine H → Machine H
  op_mul = with_two (arith_values w.double_mul (λ x y. x * y % 2 ^ 64))

  abbrev pub push_quotient : Option ℕ → Machine H → Machine H
  push_quotient none m = undefined m
  push_quotient (some n) m = push w (i64 n) m

  unfoldable pub op_div : Machine H → Machine H
  op_div = with_two (λ a b m.
      if is_f64 a || is_f64 b
      then (if w.is_zero (as_double w b)
          then throw_division m
          else push w (f64 (w.double_div (as_double w a) (as_double w b))) m)
      else if as_i64 w b == 0
      then throw_division m
      else push_quotient (divide (as_i64 w a) (as_i64 w b)) m)

  unfoldable pub op_mod : Machine H → Machine H
  op_mod = with_two (λ a b m.
      if as_i64 w b == 0
      then throw_division m
      else push_quotient (remainder (as_i64 w a) (as_i64 w b)) m)

  unfoldable pub op_neg : Machine H → Machine H
  op_neg = with_one (λ a m.
      if is_f64 a
      then push w (f64 (w.double_neg (as_i64 w a))) m
      else push w (i64 (negate (as_i64 w a))) m)

  -- A test of two values on the heap.
  unfoldable pub test_two : (H → Value → Value → Bool) → Machine H → Machine H
  test_two f = with_two (λ a b m. push w (boolean (f m.heap a b)) m)

  abbrev pub push_equal : (Bool → Bool) → Option Bool → Machine H → Machine H
  push_equal f none m = undefined m
  push_equal f (some b) m = push w (boolean (f b)) m

  unfoldable pub op_eq : Machine H → Machine H
  op_eq = with_two (λ a b m. push_equal (λ e. e) (w.equal m.heap a b) m)

  unfoldable pub op_ne : Machine H → Machine H
  op_ne = with_two (λ a b m. push_equal not (w.equal m.heap a b) m)

  unfoldable pub op_lt : Machine H → Machine H
  op_lt = test_two (λ h a b. is_lt (w.compare_values h a b))

  unfoldable pub op_le : Machine H → Machine H
  op_le = test_two (λ h a b. not (is_gt (w.compare_values h a b)))

  unfoldable pub op_gt : Machine H → Machine H
  op_gt = test_two (λ h a b. is_gt (w.compare_values h a b))

  unfoldable pub op_ge : Machine H → Machine H
  op_ge = test_two (λ h a b. not (is_lt (w.compare_values h a b)))

  unfoldable pub op_and : Machine H → Machine H
  op_and = test_two (λ h a b. w.truthy h a && w.truthy h b)

  unfoldable pub op_or : Machine H → Machine H
  op_or = test_two (λ h a b. w.truthy h a || w.truthy h b)

  unfoldable pub op_not : Machine H → Machine H
  op_not = with_one (λ a m. push w (boolean (not (w.truthy m.heap a))) m)

  unfoldable pub op_concat : Machine H → Machine H
  op_concat = with_two concat_values

  unfoldable pub op_cast_i64 : Machine H → Machine H
  op_cast_i64 = with_one (λ v m. push w (i64 (w.to_i64 (to_number w v))) m)

  unfoldable pub op_cast_f64 : Machine H → Machine H
  op_cast_f64 = with_one (λ v m. push w (f64 (to_number w v)) m)

  unfoldable pub op_cast_string : Machine H → Machine H
  op_cast_string = with_one (λ v m. let s = w.to_string m.heap v in push_made (s.0, string s.1) m)

  unfoldable pub op_cast_bool : Machine H → Machine H
  op_cast_bool = with_one (λ v m. push w (boolean (w.truthy m.heap v)) m)

  unfoldable pub op_typeof : Machine H → Machine H
  op_typeof = with_one (λ v m.
      let s = w.from_cstr m.heap (some (value_kind_name v)) in push_made (s.0, string s.1) m)

  -- The value is released before the new one is pushed.
  unfoldable pub op_cast_date : Machine H → Machine H
  op_cast_date m = let v = pop m in push w (cast_date w v.0) (release w v.0 v.1)

  unfoldable pub op_cast_datetime : Machine H → Machine H
  op_cast_datetime m = let v = pop m in push w (cast_datetime w v.0) (release w v.0 v.1)

  abbrev pub in_range : Value → Value → Value → Bool
  in_range (string v) (string low) (string high) =
      not (is_lt (string_cmp v.bytes low.bytes)) && not (is_gt (string_cmp v.bytes high.bytes))
  in_range v low high =
      if is_i64 v && is_i64 low && is_i64 high
      then at_most (as_i64 w low) (as_i64 w v) && at_most (as_i64 w v) (as_i64 w high)
      else is_numeric v
        && is_numeric low
        && is_numeric high
        && w.double_le (as_double w low) (as_double w v)
        && w.double_le (as_double w v) (as_double w high)

  unfoldable pub range_test : Machine H → Machine H
  range_test m =
      let high = pop m in
      let low = pop high.1 in
      let v = pop low.1 in
      push w (boolean (in_range v.0 low.0 high.0))
        (release w high.0 (release w low.0 (release w v.0 v.1)))
