-- ===== src/Acs.antt =====
-- src/acs.c: access control strings. This module has what a single token means; its children are
-- the parser and the check without a session. The C library's and the database's functions that
-- the tests call are the fields of `Host`; a double is the number of its bit pattern.
pub mod Ints
pub mod Tokens
pub mod Parser
pub mod Check
mod Tests
use mutineer.Prelude.{
  ℕ, ◌+◌, ◌-◌, ◌/◌, ◌%◌, ◌^◌, Bool, true, false, not, ◌&&◌, ◌||◌, Option, none, some, List, [], ◌∷◌,
  ltb, leb, ◌==◌, if◌then◌else◌, get_or,
}
use mutineer.Acs.Ints.{ℤ, pos}

-- The fields of `struct tm` that are read.
pub record Tm : Type 0 where
  pub tm_year : ℤ
  pub tm_mon : ℤ
  pub tm_mday : ℤ
  pub tm_hour : ℤ
  pub tm_wday : ℤ

pub record DbUser : Type 0 where
  pub id : ℤ
  pub level : ℤ
  pub dsl : ℤ
  pub flags : ℕ
  pub ac_flags : ℕ
  pub birth_date : List ℕ
  pub sex : ℕ
  pub logged_on : ℤ
  pub credits : ℤ
  pub expires_at : List ℕ
  pub msg_post : ℤ
  pub uploads : ℤ
  pub downloads : ℤ
  pub post_ratio_num : ℤ
  pub post_ratio_den : ℤ
  pub dl_ratio_num : ℤ
  pub dl_ratio_den : ℤ

pub record Session : Type 0 where
  pub user : DbUser
  pub current_conf : ℤ
  pub node_num : ℤ
  pub time_left_min : ℤ
  pub has_db : Bool

-- What the tests ask outside this file: atoi, atof, sscanf of "%d-%d-%d", localtime of the time
-- now, the whole days from now to mktime's time for a year since 1900, a month and a day, the
-- operations on doubles, and the two queries of the database.
pub record Host : Type 0 where
  pub atoi : List ℕ → ℤ
  pub atof : List ℕ → ℕ
  pub scan_date : List ℕ → Option (ℤ × ℤ × ℤ)
  pub local_now : Tm
  pub days_until : ℤ → ℤ → ℤ → ℤ
  pub double_of : ℤ → ℕ
  pub double_div : ℕ → ℕ → ℕ
  pub double_lt : ℕ → ℕ → Bool
  pub double_le : ℕ → ℕ → Bool
  pub double_eq : ℕ → ℕ → Bool
  pub db_conf_is_member : ℤ → ℤ → Bool
  pub db_user_subscription_get : ℤ → Option ℤ

abbrev pub is_digit : ℕ → Bool
is_digit c = leb b'0' c && leb c b'9'

abbrev pub is_upper : ℕ → Bool
is_upper c = leb b'A' c && leb c b'Z'

abbrev pub is_space : ℕ → Bool
is_space c = c == 32 || (leb 9 c && leb c 13)

abbrev pub to_upper : ℕ → ℕ
to_upper c = if leb b'a' c && leb c b'z' then c - 32 else c

-- tok[i], with the terminator behind the end.
abbrev pub char_at : List ℕ → ℕ → ℕ
char_at tok i = get_or tok i 0

-- flags & mask, for a mask of one bit.
abbrev pub has_mask : ℕ → ℕ → Bool
has_mask flags mask = (flags / mask) % 2 == 1

abbrev pub letter_mask : ℕ → ℕ
letter_mask c = 2 ^ (c - b'A')

-- include/bbs_flags.h: the restriction flag of a character, or 0.
unfoldable pub ac_flag_from_char : ℕ → ℕ
ac_flag_from_char c =
    if c == b'L'
    then 1
    else if c == b'C'
    then 2
    else if c == b'V'
    then 4
    else if c == b'U'
    then 8
    else if c == b'A'
    then 16
    else if c == b'*'
    then 32
    else if c == b'P'
    then 64
    else if c == b'E'
    then 128
    else if c == b'K'
    then 256
    else if c == b'M'
    then 512
    else if c == b'1'
    then 1024
    else if c == b'2'
    then 2048
    else if c == b'3'
    then 4096
    else if c == b'4'
    then 8192
    else 0

-- `s && test`, where the session may be NULL.
abbrev pub holds : Option Session → (Session → Bool) → Bool
holds none test = false
holds (some s) test = test s
