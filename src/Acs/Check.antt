-- ===== src/Acs/Check.antt =====
-- acs_check of src/acs.c: the check that tools make without a session. It stops at the first token
-- that fails. The loop runs on fuel.
use mutineer.Prelude.{
  ℕ, zero, suc, ◌+◌, ◌≤◌, ◌<◌, ◌≡◌, refl, inl, inr, Bool, true, false, ◌&&◌, ◌||◌, Option, none,
  some, List, [], ◌∷◌, map, drop, length, Bool-cases, ◌==◌, if◌then◌else◌, arith,
}
use mutineer.Acs.{
  is_digit, is_upper, is_space, to_upper, char_at, has_mask, letter_mask, ac_flag_from_char,
}
use mutineer.Acs.Ints.{ℤ, leq}

abbrev is_separator : ℕ → Bool
is_separator c = is_space c || c == b'&' || c == b'|'

unfoldable pub skip_separators : List ℕ → List ℕ
skip_separators [] = []
skip_separators (c ∷ cs) = if is_separator c then skip_separators cs else c ∷ cs

abbrev stops : ℕ → Bool
stops c = is_space c || c == b'&' || c == b'|' || c == b')'

-- At most `room` bytes up to the end of the token, in upper case, and the text behind them.
unfoldable pub scan_upper : ℕ → List ℕ → List ℕ × List ℕ
scan_upper zero cs = ([], cs)
scan_upper (suc room) [] = ([], [])
scan_upper (suc room) (c ∷ cs) =
    let rest = scan_upper room cs in if stops c then ([], c ∷ cs) else (to_upper c ∷ rest.0, rest.1)

-- What a tool knows of the caller; `atoi` is the C library's.
pub record Caller : Type 0 where
  pub atoi : List ℕ → ℤ
  pub level : ℤ
  pub ar_flags : ℕ
  pub ac_flags : ℕ

-- Whether the loop goes on behind the token.
unfoldable pub check_token : Caller → List ℕ → Bool
check_token k tok =
    if char_at tok 0 == b'S' && is_digit (char_at tok 1)
    then leq (k.atoi (drop 1 tok)) k.level
    else if char_at tok 0 == b'S' && char_at tok 1 == b'L'
    then leq (k.atoi (drop 2 tok)) k.level
    else if char_at tok 0 == b'F' && is_upper (char_at tok 1) && char_at tok 2 == 0
    then has_mask k.ar_flags (letter_mask (char_at tok 1))
    else if char_at tok 0 == b'+' && is_upper (char_at tok 1)
    then has_mask k.ar_flags (letter_mask (char_at tok 1))
    else if char_at tok 0 == b'R' && char_at tok 2 == 0
    then (if ac_flag_from_char (char_at tok 1) == 0
        then true
        else has_mask k.ac_flags (ac_flag_from_char (char_at tok 1)))
    else true

-- The end of the text and a closing parenthesis both give an empty token.
abbrev is_empty : List ℕ → Bool
is_empty [] = true
is_empty (c ∷ cs) = false

unfoldable pub check_loop : Caller → ℕ → List ℕ → Option Bool
check_loop k zero text = none
check_loop k (suc fuel) text =
    let found = scan_upper 63 (skip_separators text) in
    let later = check_loop k fuel found.1 in
    if is_empty found.0 then some true else if check_token k found.0 then later else some false

unfoldable pub acs_check : ℕ → Caller → Option (List ℕ) → Option Bool
acs_check fuel k none = some true
acs_check fuel k (some acs) = check_loop k fuel acs

skip_separators-length : (cs : List ℕ) → length (skip_separators cs) ≤ length cs
unfolding skip_separators
skip_separators-length [] = omega arith
skip_separators-length (c ∷ cs) = ground (arith, skip_separators-length cs)

scan_upper-length :
    (room : ℕ) (cs : List ℕ)
    → length (scan_upper room cs).0 + length (scan_upper room cs).1 ≡ length cs
unfolding scan_upper
scan_upper-length zero cs = omega arith
scan_upper-length (suc room) [] = omega arith
scan_upper-length (suc room) (c ∷ cs) = ground (arith, scan_upper-length room cs)

empty-or : (tok : List ℕ) → is_empty tok ≡ false → 0 < length tok
empty-or [] h = ground arith
empty-or (c ∷ cs) h = omega arith

-- With a step of fuel for each byte and one more, `acs_check` answers on every text.
pub acs_check_total :
    (k : Caller) (fuel : ℕ) (acs : List ℕ)
    → length acs < fuel
    → (allowed : Bool) × (acs_check fuel k (some acs) ≡ some allowed)
unfolding acs_check check_loop
acs_check_total k zero acs h = ground arith
acs_check_total k (suc fuel) acs h =
    elim (Bool-cases (is_empty (scan_upper 63 (skip_separators acs)).0)) [
      | inl e ↦ (true, rw (acs_check, check_loop, e) refl)
      | inr e ↦ elim (Bool-cases (check_token k (scan_upper 63 (skip_separators acs)).0)) [
        | inl t ↦
            let (allowed, same) = acs_check_total k fuel (scan_upper 63 (skip_separators acs)).1 (
              omega (
                arith,
                scan_upper-length 63 (skip_separators acs),
                skip_separators-length acs,
                empty-or (scan_upper 63 (skip_separators acs)).0 e,
              )) in
            (allowed, rw (acs_check, check_loop, e, t) same)
        | inr t ↦ (false, rw (acs_check, check_loop, e, t) refl)
      ]
    ]

-- The text with each '|' made an '&'.
abbrev pub all_and : List ℕ → List ℕ
all_and cs = map (λ c. if c == b'|' then b'&' else c) cs

skip_separators-all_and :
    (cs : List ℕ) → skip_separators (all_and cs) ≡ all_and (skip_separators cs)
unfolding skip_separators
skip_separators-all_and [] = refl
skip_separators-all_and (c ∷ cs) = ground (arith, skip_separators-all_and cs)

scan_upper-all_and :
    (room : ℕ) (cs : List ℕ)
    → (scan_upper room (all_and cs)).0 ≡ (scan_upper room cs).0
      × ((scan_upper room (all_and cs)).1 ≡ all_and (scan_upper room cs).1)
unfolding scan_upper
scan_upper-all_and zero cs = (refl, refl)
scan_upper-all_and (suc room) [] = (refl, refl)
scan_upper-all_and (suc room) (c ∷ cs) = ground (arith, scan_upper-all_and room cs)

check_loop-all_and :
    (k : Caller) (fuel : ℕ) (cs : List ℕ) → check_loop k fuel (all_and cs) ≡ check_loop k fuel cs
unfolding check_loop
check_loop-all_and k zero cs = refl
check_loop-all_and k (suc fuel) cs =
    rw
      (
        skip_separators-all_and cs,
        (scan_upper-all_and 63 (skip_separators cs)).0,
        (scan_upper-all_and 63 (skip_separators cs)).1,
        check_loop-all_and k fuel (scan_upper 63 (skip_separators cs)).1,
      )
      refl

-- `acs_check` reads "or" as "and": with every '|' made an '&' its answer is the same.
pub acs_check-all_and :
    (k : Caller) (fuel : ℕ) (acs : List ℕ)
    → acs_check fuel k (some (all_and acs)) ≡ acs_check fuel k (some acs)
unfolding acs_check
acs_check-all_and k fuel acs = check_loop-all_and k fuel acs
