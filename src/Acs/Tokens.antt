-- ===== src/Acs/Tokens.antt =====
-- The tests that eval_term of src/acs.c makes of a token, in the source's order. Each group
-- answers `none` where none of its tests is for the token.
use mutineer.Prelude.{
  ℕ, Bool, true, false, not, ◌&&◌, ◌||◌, Option, none, some, List, [], ◌∷◌, drop, ◌==◌,
  if◌then◌else◌,
}
use mutineer.Acs.{
  DbUser, Session, Host, is_digit, is_upper, char_at, has_mask, letter_mask, ac_flag_from_char,
  holds,
}
use mutineer.Acs.Ints.{ℤ, pos, leq, less, same, minus, plus, times, quotient}

-- tok[0] is the letter and a number follows.
abbrev number_test : List ℕ → ℕ → Bool
number_test tok letter = char_at tok 0 == letter && is_digit (char_at tok 1)

abbrev letters_test : List ℕ → ℕ → Bool
letters_test tok letter = char_at tok 0 == letter && is_upper (char_at tok 1) && char_at tok 2 == 0

abbrev compare_test : List ℕ → ℕ → Bool
compare_test tok letter =
    char_at tok 0 == letter
    && (char_at tok 1 == b'>' || char_at tok 1 == b'<' || char_at tok 1 == b'=')

unfoldable pub calc_age : Host → List ℕ → ℤ
calc_age h [] = pos 0
calc_age h (c ∷ birth_date) = elim (h.scan_date (c ∷ birth_date)) [
  | none ↦ pos 0
  | some p ↦
      let cy = plus (h.local_now.tm_year) (pos 1900) in
      let cm = plus (h.local_now.tm_mon) (pos 1) in
      let cd = h.local_now.tm_mday in
      let age = minus cy p.0 in
      if less cm p.1 || (same cm p.1 && less cd p.2) then minus age (pos 1) else age
]

unfoldable pub days_until_expiration : Host → List ℕ → ℤ
days_until_expiration h [] = pos 9999
days_until_expiration h (c ∷ expires_at) = elim (h.scan_date (c ∷ expires_at)) [
  | none ↦ pos 9999
  | some p ↦ h.days_until (minus p.0 (pos 1900)) (minus p.1 (pos 1)) p.2
]

unfoldable pub security_tests : Host → Option Session → List ℕ → Option Bool
security_tests h s tok =
    let need = h.atoi (drop 1 tok) in
    if number_test tok b'S'
    then some (holds s (λ s. leq need s.user.level))
    else if char_at tok 0 == b'S' && char_at tok 1 == b'L'
    then some (holds s (λ s. leq (h.atoi (drop 2 tok)) s.user.level))
    else if number_test tok b'L'
    then some (holds s (λ s. leq need s.user.level))
    else if number_test tok b'D'
    then some (holds s (λ s. leq need s.user.dsl))
    else if letters_test tok b'F'
    then some (holds s (λ s. has_mask s.user.flags (letter_mask (char_at tok 1))))
    else if char_at tok 0 == b'R' && char_at tok 2 == 0
    then some (
        if ac_flag_from_char (char_at tok 1) == 0
        then false
        else holds s (λ s. has_mask s.user.ac_flags (ac_flag_from_char (char_at tok 1))))
    else none

abbrev age_of : Host → Option Session → ℤ
age_of h none = pos 0
age_of h (some s) = calc_age h s.user.birth_date

unfoldable pub caller_tests : Host → Option Session → List ℕ → Option Bool
caller_tests h s tok =
    let need = h.atoi (drop 1 tok) in
    if number_test tok b'A'
    then some (leq need (age_of h s))
    else if number_test tok b'B'
    then some true
    else if number_test tok b'C'
    then some (holds s (λ s. leq need s.user.logged_on))
    else if letters_test tok b'C'
    then some (holds s (λ s. same s.current_conf (minus (pos (char_at tok 1)) (pos b'A'))))
    else if char_at tok 0 == b'G'
        && (char_at tok 1 == b'M' || char_at tok 1 == b'F')
        && char_at tok 2 == 0
    then some (holds s (λ s. s.user.sex == char_at tok 1))
    else none

unfoldable pub session_tests : Host → Option Session → List ℕ → Option Bool
session_tests h s tok =
    let need = h.atoi (drop 1 tok) in
    if number_test tok b'H'
    then some (same h.local_now.tm_hour need)
    else if number_test tok b'N'
    then some (holds s (λ s. same s.node_num need))
    else if number_test tok b'P'
    then some (holds s (λ s. leq need s.user.credits))
    else if number_test tok b'T'
    then some (holds s (λ s. leq need s.time_left_min))
    else if number_test tok b'U'
    then some (holds s (λ s. same s.user.id need))
    else none

abbrev is_validated : Host → List ℕ → Bool
is_validated h [] = true
is_validated h (c ∷ expires_at) = less (pos 0) (days_until_expiration h (c ∷ expires_at))

unfoldable pub date_tests : Host → Option Session → List ℕ → Option Bool
date_tests h s tok =
    let need = h.atoi (drop 1 tok) in
    if char_at tok 0 == b'V' && char_at tok 1 == 0
    then some (holds s (λ s. is_validated h s.user.expires_at))
    else if number_test tok b'W'
    then some (same h.local_now.tm_wday need)
    else if number_test tok b'X'
    then some (holds s (λ s. leq (days_until_expiration h s.user.expires_at) need))
    else none

abbrev meets_post_ratio : DbUser → Bool
meets_post_ratio u =
    if same u.post_ratio_den (pos 0)
    then true
    else leq (quotient u.logged_on u.post_ratio_den) u.msg_post

-- have / of >= num / den, without the division.
abbrev meets_ratio : ℤ → ℤ → ℤ → ℤ → Bool
meets_ratio have per num den =
    if same num (pos 0) || same den (pos 0)
    then true
    else if same per (pos 0)
    then true
    else leq (times per num) (times have den)

unfoldable pub ratio_tests : Host → Option Session → List ℕ → Option Bool
ratio_tests h s tok =
    if char_at tok 0 == b'Z' && char_at tok 1 == 0
    then some (holds s (λ s. meets_post_ratio s.user))
    else if char_at tok 0 == b'P' && char_at tok 1 == b'C' && char_at tok 2 == 0
    then some (
        holds s (λ s.
          meets_ratio s.user.msg_post s.user.logged_on s.user.post_ratio_num s.user.post_ratio_den))
    else if char_at tok 0 == b'D' && char_at tok 1 == b'R' && char_at tok 2 == 0
    then some (
        holds s (λ s.
          meets_ratio s.user.uploads s.user.downloads s.user.dl_ratio_num s.user.dl_ratio_den))
    else none

abbrev subscribed : Option ℤ → ℤ → Bool
subscribed none type_id = false
subscribed (some active) type_id = if same type_id (pos 0) then true else same active type_id

unfoldable pub db_tests : Host → Option Session → List ℕ → Option Bool
db_tests h s tok =
    let number = h.atoi (drop 1 tok) in
    if number_test tok b'J'
    then some (holds s (λ s. s.has_db && h.db_conf_is_member s.user.id number))
    else if number_test tok b'E'
    then some (holds s (λ s. s.has_db && subscribed (h.db_user_subscription_get s.user.id) number))
    else none

abbrev all_flags : Option Session → List ℕ → Bool
all_flags s [] = true
all_flags s (flag ∷ tok) =
    if not (is_upper flag)
    then false
    else if not (holds s (λ s. has_mask s.user.flags (letter_mask flag)))
    then false
    else all_flags s tok

-- The operator behind the letter, and the digits behind the operator.
abbrev has_equals : List ℕ → Bool
has_equals tok = char_at tok 2 == b'='

abbrev operand : List ℕ → List ℕ
operand tok = drop (if has_equals tok then 3 else 2) tok

abbrev compared : List ℕ → Bool → Bool → Bool → Bool → Bool → Bool
compared tok ge le gt lt eq =
    if char_at tok 1 == b'>' && has_equals tok
    then ge
    else if char_at tok 1 == b'<' && has_equals tok
    then le
    else if char_at tok 1 == b'>'
    then gt
    else if char_at tok 1 == b'<'
    then lt
    else eq

abbrev compared_ints : Host → List ℕ → ℤ → Bool
compared_ints h tok have =
    let val = h.atoi (operand tok) in
    compared tok (leq val have) (leq have val) (less val have) (less have val) (same have val)

abbrev dl_ratio : Host → Option Session → ℕ
dl_ratio h none = h.double_of (pos 999)
dl_ratio h (some s) =
    if less (pos 0) s.user.dl_ratio_den
    then h.double_div (h.double_of s.user.dl_ratio_num) (h.double_of s.user.dl_ratio_den)
    else h.double_of (pos 999)

abbrev int_of : Option Session → (Session → ℤ) → ℤ
int_of none field = pos 0
int_of (some s) field = field s

unfoldable pub legacy_tests : Host → Option Session → List ℕ → Option Bool
legacy_tests h s tok =
    let ratio = dl_ratio h s in
    let need = h.atof (operand tok) in
    if char_at tok 0 == b'+'
    then some (
        is_upper (char_at tok 1)
        && holds s (λ s. has_mask s.user.flags (letter_mask (char_at tok 1))))
    else if char_at tok 0 == b'A' && char_at tok 1 == b'R'
    then some (all_flags s (drop 2 tok))
    else if compare_test tok b'C'
    then some (compared_ints h tok (int_of s (λ s. s.user.credits)))
    else if compare_test tok b'R'
    then some (
        compared tok (h.double_le need ratio) (h.double_le ratio need) (h.double_lt need ratio)
          (h.double_lt ratio need) (h.double_eq ratio need))
    else if compare_test tok b'T'
    then some (compared_ints h tok (int_of s (λ s. s.time_left_min)))
    else none

-- The first group that has a test for the token decides.
abbrev or_else : Option Bool → Bool → Bool
or_else none later = later
or_else (some b) later = b

unfoldable pub eval_token : Host → Option Session → List ℕ → Bool
eval_token h s tok = or_else (security_tests h s tok) (
    or_else (caller_tests h s tok) (
      or_else (session_tests h s tok) (
        or_else (date_tests h s tok) (
          or_else (ratio_tests h s tok)
            (or_else (db_tests h s tok) (or_else (legacy_tests h s tok) false))))))
