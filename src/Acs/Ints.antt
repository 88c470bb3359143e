-- ===== src/Acs/Ints.antt =====
-- C's int as far as src/acs.c computes with it; no product of its tests may leave the int's range,
-- where C gives it no meaning.
use mutineer.Prelude.{
  ℕ, zero, suc, ◌+◌, ◌*◌, ◌/◌, ◌-◌, Bool, true, false, not, leb, ◌==◌, if◌then◌else◌,
}

pub data ℤ : Type 0 where
  pos negsuc : ℕ → ℤ

abbrev neg : ℕ → ℤ
neg zero = pos 0
neg (suc n) = negsuc n

abbrev pub leq : ℤ → ℤ → Bool
leq (pos m) (pos n) = leb m n
leq (pos m) (negsuc n) = false
leq (negsuc m) (pos n) = true
leq (negsuc m) (negsuc n) = leb n m

abbrev pub less : ℤ → ℤ → Bool
less a b = not (leq b a)

abbrev pub same : ℤ → ℤ → Bool
same (pos m) (pos n) = m == n
same (pos m) (negsuc n) = false
same (negsuc m) (pos n) = false
same (negsuc m) (negsuc n) = m == n

-- m - n of two counts.
abbrev between : ℕ → ℕ → ℤ
between m n = if leb n m then pos (m - n) else neg (n - m)

abbrev pub minus : ℤ → ℤ → ℤ
minus (pos m) (pos n) = between m n
minus (pos m) (negsuc n) = pos (m + suc n)
minus (negsuc m) (pos n) = negsuc (m + n)
minus (negsuc m) (negsuc n) = between (suc n) (suc m)

abbrev pub plus : ℤ → ℤ → ℤ
plus a (pos n) = minus a (neg n)
plus a (negsuc n) = minus a (pos (suc n))

abbrev pub times : ℤ → ℤ → ℤ
times (pos m) (pos n) = pos (m * n)
times (pos m) (negsuc n) = neg (m * suc n)
times (negsuc m) (pos n) = neg (suc m * n)
times (negsuc m) (negsuc n) = pos (suc m * suc n)

-- Division, towards zero.
abbrev pub quotient : ℤ → ℤ → ℤ
quotient (pos m) (pos n) = pos (m / n)
quotient (pos m) (negsuc n) = neg (m / suc n)
quotient (negsuc m) (pos n) = neg (suc m / n)
quotient (negsuc m) (negsuc n) = pos (suc m / suc n)
