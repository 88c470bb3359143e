-- ===== src/Buccaneer/Vm/Casts.antt =====
-- Numbers of values for the operations of src/buccaneer/vm.c: conversions, and the calendar of its casts.
-- Integers are the 64 bits of an int64_t; a result that overflows wraps.
use mutineer.Prelude.{
  ℕ, zero, suc, ◌+◌, ◌-◌, ◌/◌, ◌%◌, ◌^◌, Bool, true, false, not, ◌&&◌, ◌||◌, Option, none, some,
  List, [], ◌∷◌, ltb, leb, ◌==◌, if◌then◌else◌, length, get_or,
}
use mutineer.Buccaneer.{Value, boolean, i64, f64, string, date, datetime}
use mutineer.Buccaneer.Vm.{World}

abbrev pub is_string : Value → Bool
is_string (string s) = true
is_string _ = false

abbrev pub is_f64 : Value → Bool
is_f64 (f64 b) = true
is_f64 _ = false

abbrev pub is_i64 : Value → Bool
is_i64 (i64 n) = true
is_i64 _ = false

abbrev pub is_numeric : Value → Bool
is_numeric v = is_i64 v || is_f64 v

abbrev pub is_negative : ℕ → Bool
is_negative n = leb (2 ^ 63) n

-- The distance from zero.
abbrev pub magnitude : ℕ → ℕ
magnitude n = if is_negative n then 2 ^ 64 - n else n

abbrev pub negate : ℕ → ℕ
negate n = (2 ^ 64 - n) % 2 ^ 64

-- The quotient towards zero, where it is an int64_t, and the remainder, with the sign of the first number.
unfoldable pub quotient : ℕ → ℕ → ℕ
quotient a b =
    let q = magnitude a / magnitude b in
    if (if is_negative a then is_negative b else not (is_negative b)) then q % 2 ^ 64 else negate q

unfoldable pub rest_of : ℕ → ℕ → ℕ
rest_of a b = let r = magnitude a % magnitude b in if is_negative a then negate r else r

-- The least int64_t by -1: the quotient is none, and both of C's operators are undefined.
abbrev pub has_no_quotient : ℕ → ℕ → Bool
has_no_quotient a b = a == 2 ^ 63 && b == 2 ^ 64 - 1

-- C's division and remainder by a number that is not zero.
unfoldable pub divide : ℕ → ℕ → Option ℕ
divide a b = if has_no_quotient a b then none else some (quotient a b)

unfoldable pub remainder : ℕ → ℕ → Option ℕ
remainder a b = if has_no_quotient a b then none else some (rest_of a b)

-- a ≤ b as int64_t.
abbrev pub at_most : ℕ → ℕ → Bool
at_most a b = leb ((a + 2 ^ 63) % 2 ^ 64) ((b + 2 ^ 63) % 2 ^ 64)

abbrev pub is_leap : ℕ → Bool
is_leap y = y % 4 == 0 && (not (y % 100 == 0) || y % 400 == 0)

abbrev pub days_in_year : ℕ → ℕ
days_in_year y = if is_leap y then 366 else 365

-- The year, and the days that are left of it; a round takes at least 365 days, so `days` rounds are enough.
unfoldable pub year_of : ℕ → ℕ → ℕ → ℕ × ℕ
year_of zero days y = (y, days)
year_of (suc rounds) days y =
    let next = year_of rounds (days - days_in_year y) (y + 1) in
    if leb 365 days && leb (days_in_year y) days then next else (y, days)

abbrev pub days_in_month : List ℕ
days_in_month = 31 ∷ 28 ∷ 31 ∷ 30 ∷ 31 ∷ 30 ∷ 31 ∷ 31 ∷ 30 ∷ 31 ∷ 30 ∷ 31 ∷ []

-- The month from m on, and the days that are left of it.
unfoldable pub month_of : Bool → ℕ → ℕ → List ℕ → ℕ × ℕ
month_of leap m days [] = (m, days)
month_of leap m days (d ∷ ds) =
    let dim = if m == 1 && leap then 29 else d in
    let next = month_of leap (m + 1) (days - dim) ds in if ltb days dim then (m, days) else next

-- Year, month and day of a number of days since 1970; the loops leave a negative number as it is.
unfoldable pub civil : ℕ → ℕ × (ℕ × ℕ)
civil days =
    let y = year_of days days 1970 in
    let m = month_of (is_leap y.0) 0 y.1 days_in_month in
    if is_negative days
    then (1970, (1, (days + 1) % 2 ^ 8))
    else (y.0 % 2 ^ 16, ((m.0 + 1) % 2 ^ 8, (m.1 + 1) % 2 ^ 8))

-- Days and seconds of a number of seconds; the seconds are in 0 to 86399.
unfoldable pub days_of : ℕ → ℕ × ℕ
days_of ts =
    let days = quotient ts 86400 in
    let secs = rest_of ts 86400 in
    if is_negative secs
    then ((days + 2 ^ 64 - 1) % 2 ^ 64, (secs + 86400) % 2 ^ 64)
    else (days, secs)

module _ {H : Type 0} (w : World H) where
  -- The bits of the union as an int64_t.
  abbrev pub as_i64 : Value → ℕ
  as_i64 (i64 n) = n
  as_i64 (f64 b) = b
  as_i64 v = w.raw v

  -- An operand of arithmetic on doubles.
  abbrev pub as_double : Value → ℕ
  as_double (f64 b) = b
  as_double v = w.of_i64 (as_i64 v)

  abbrev pub converted : Option ℕ → ℕ
  converted none = 0
  converted (some d) = d

  -- bucc_value_to_number; 0 is 0.0, also where it does not convert.
  unfoldable pub to_number : Value → ℕ
  to_number (i64 n) = w.of_i64 n
  to_number (f64 b) = b
  to_number (boolean b) = if b then w.of_i64 1 else 0
  to_number (string s) = converted (w.strtod s.bytes)
  to_number _ = 0

  unfoldable pub cast_date : Value → Value
  cast_date (date y m d) = date y m d
  cast_date (datetime y m d h mi s) = date y m d
  cast_date (string s) =
      let ns = w.sscanf_date s.bytes in
      if length ns == 3
      then date (get_or ns 0 0 % 2 ^ 16) (get_or ns 1 0 % 2 ^ 8) (get_or ns 2 0 % 2 ^ 8)
      else date 0 0 0
  cast_date (i64 n) = let c = civil n in date c.0 c.1.0 c.1.1
  cast_date _ = date 0 0 0

  unfoldable pub cast_datetime : Value → Value
  cast_datetime (datetime y m d h mi s) = datetime y m d h mi s
  cast_datetime (date y m d) = datetime y m d 0 0 0
  cast_datetime (string s) =
      let ns = w.sscanf_datetime s.bytes in
      if leb 3 (length ns)
      then datetime (get_or ns 0 0 % 2 ^ 16) (get_or ns 1 0 % 2 ^ 8) (get_or ns 2 0 % 2 ^ 8)
          (get_or ns 3 0 % 2 ^ 8) (get_or ns 4 0 % 2 ^ 8) (get_or ns 5 0 % 2 ^ 8)
      else datetime 0 0 0 0 0 0
  cast_datetime (i64 n) =
      let t = days_of n in
      let c = civil t.0 in
      datetime c.0 c.1.0 c.1.1 (t.1 / 3600 % 2 ^ 8) (t.1 % 3600 / 60) (t.1 % 60)
  cast_datetime _ = datetime 0 0 0 0 0 0
