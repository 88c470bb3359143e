-- ===== src/Acs/Tests.antt =====
-- Runs of src/acs.c's model, and its theorems at concrete inputs.
use mutineer.Prelude.{
  ℕ, ◌+◌, ◌*◌, ◌-◌, ◌≡◌, refl, Bool, true, false, none, some, List, [], ◌∷◌, length,
}
use mutineer.Acs.{DbUser, Session, Host}
use mutineer.Acs.Ints.{pos}
use mutineer.Acs.Tokens.{
  eval_token, security_tests, caller_tests, session_tests, date_tests, ratio_tests, db_tests,
  legacy_tests,
}
use mutineer.Acs.Parser.{
  skip_ws, scan_token, eval_term, eval_factor, factor_loop, eval_expr, expr_loop, acs_allows,
}
use mutineer.Acs.Parser.Total.{acs_allows_total}
use mutineer.Acs.Parser.Grammar.{
  token, negation, group, single, conj, Expr, one, disj, expr_ok, term_ok, factor_ok, expr_onto,
  expr_meaning,
}
use mutineer.Acs.Parser.Meaning.{acs_allows-meaning}
use mutineer.Acs.Check.{
  Caller, acs_check, check_loop, check_token, scan_upper, skip_separators, all_and,
  acs_check-all_and,
}

-- atoi of decimal digits.
abbrev digits : List ℕ → ℕ → ℕ
digits [] n = n
digits (c ∷ cs) n = digits cs (n * 10 + (c - b'0'))

abbrev host : Host
host = record {
  atoi = λ cs. pos (digits cs 0);
  atof = λ cs. 0;
  scan_date = λ cs. none;
  local_now = record {
    tm_year = pos 125;
    tm_mon = pos 0;
    tm_mday = pos 1;
    tm_hour = pos 9;
    tm_wday = pos 3;
  };
  days_until = λ y m d. pos 0;
  double_of = λ n. 0;
  double_div = λ a b. 0;
  double_lt = λ a b. false;
  double_le = λ a b. true;
  double_eq = λ a b. true;
  db_conf_is_member = λ u c. false;
  db_user_subscription_get = λ u. none;
}

abbrev user : DbUser
user = record {
  id = pos 7;
  level = pos 50;
  dsl = pos 20;
  flags = 1;
  ac_flags = 0;
  birth_date = [];
  sex = b'F';
  logged_on = pos 10;
  credits = pos 5;
  expires_at = [];
  msg_post = pos 1;
  uploads = pos 0;
  downloads = pos 0;
  post_ratio_num = pos 0;
  post_ratio_den = pos 0;
  dl_ratio_num = pos 0;
  dl_ratio_den = pos 0;
}

abbrev session : Session
session = record {
  user = user;
  current_conf = pos 0;
  node_num = pos 1;
  time_left_min = pos 60;
  has_db = false;
}

-- "v&!s60"
abbrev access : List ℕ
access = b'v' ∷ b'&' ∷ b'!' ∷ b's' ∷ b'6' ∷ b'0' ∷ []

allows_access : acs_allows 21 host (some session) (some access) ≡ some true
unfolding acs_allows eval_expr expr_loop eval_factor factor_loop eval_term skip_ws scan_token
    eval_token security_tests caller_tests session_tests date_tests ratio_tests db_tests
    legacy_tests
allows_access = refl

acs_allows_total_example :
    (allowed : Bool) × (acs_allows (3 * length access + 3) host (some session) (some access)
      ≡ some allowed)
acs_allows_total_example = acs_allows_total host (some session) access

abbrev caller : Caller
caller = record { atoi = λ cs. pos (digits cs 0); level = pos 50; ar_flags = 1; ac_flags = 0 }

-- "s60|fa": the level fails, so the flag does not help.
abbrev either : List ℕ
either = b's' ∷ b'6' ∷ b'0' ∷ b'|' ∷ b'f' ∷ b'a' ∷ []

refuses_either : acs_check 8 caller (some either) ≡ some false
unfolding acs_check check_loop check_token scan_upper skip_separators
refuses_either = refl

-- "d99": a download level is not read.
ignores_download_level : acs_check 4 caller (some (b'd' ∷ b'9' ∷ b'9' ∷ [])) ≡ some true
unfolding acs_check check_loop check_token scan_upper skip_separators
ignores_download_level = refl

acs_check-all_and_example :
    acs_check 7 caller (some (all_and either)) ≡ acs_check 7 caller (some either)
acs_check-all_and_example = acs_check-all_and caller 7 either

-- "(v|fb)&!s60"
abbrev grouped : Expr
grouped = one (
    conj (group (disj (single (token (b'v' ∷ []))) (one (single (token (b'f' ∷ b'b' ∷ []))))))
      (single (negation (token (b's' ∷ b'6' ∷ b'0' ∷ [])))))

acs_allows-meaning_example :
    acs_allows
      (3 * length (expr_onto grouped []) + 3)
      host
      (some session)
      (some (expr_onto grouped []))
    ≡ some (expr_meaning (eval_token host (some session)) grouped)
unfolding expr_ok term_ok factor_ok
acs_allows-meaning_example = acs_allows-meaning host (some session) grouped refl
