-- ===== src/Buccaneer/Lexer/Scan.antt =====
-- The scanners and the calls of src/buccaneer/lexer.c.
use mutineer.Prelude.{
  ℕ, zero, suc, ◌-◌, Bool, true, false, not, ◌&&◌, ◌||◌, Option, none, some, List, [], ◌∷◌, ◌==◌,
  if◌then◌else◌, get_or, take, drop,
}
use mutineer.Buccaneer.Lexer.Kinds.{
  TokenKind, tok_newline, tok_comment, tok_integer, tok_double, tok_hex, tok_string, tok_date,
  tok_datetime, tok_lparen, tok_rparen, tok_lbracket, tok_rbracket, tok_lbrace, tok_rbrace,
  tok_comma, tok_dot, tok_hash, tok_plus, tok_minus, tok_star, tok_slash, tok_eq, tok_ne, tok_lt,
  tok_le, tok_gt, tok_ge, tok_error,
}
use mutineer.Buccaneer.Lexer.{
  Place, Literal, no_value, i64_value, f64_value, LexError, exponent_digits, hex_digits,
  unterminated_string, unexpected_character, date_year, date_dash, date_month, date_day, date_close,
  time_hour, time_colon, time_minute, time_second, Numbers, lookup_keyword, peek_char, peek_char_n,
  advance, advance_n, count_while, advance_while, is_ident_start, is_digit, is_ident_char,
  is_hex_digit,
}

-- What a scanner leaves: the fields of the token but its span, the error, and the place behind.
pub record Scanned : Type 0 where
  pub kind : TokenKind
  pub start : Option ℕ
  pub len : ℕ
  pub value : Literal
  pub failure : Option LexError
  pub behind : Place

-- A token from one place to another.
abbrev pub token_to : TokenKind → Literal → Place → Place → Scanned
token_to kind value p q = record {
  kind = kind;
  start = some p.pos;
  len = q.pos - p.pos;
  value = value;
  failure = none;
  behind = q;
}

abbrev pub error_at : LexError → Place → Scanned
error_at e q = record {
  kind = tok_error;
  start = none;
  len = 0;
  value = no_value;
  failure = some e;
  behind = q;
}

unfoldable pub scan_identifier : Place → Scanned
scan_identifier p =
    token_to (lookup_keyword (take (count_while is_ident_char p.rest) p.rest)) no_value p
      (advance_while is_ident_char p)

abbrev pub is_exponent : ℕ → Bool
is_exponent c = c == b'e' || c == b'E'

abbrev pub is_sign : ℕ → Bool
is_sign c = c == b'+' || c == b'-'

-- The fraction, and the exponent up to its digits.
abbrev pub has_fraction : Place → Bool
has_fraction p = peek_char p == b'.' && is_digit (peek_char_n p 1)

abbrev pub past_fraction : Place → Place
past_fraction p = if has_fraction p then advance_while is_digit (advance p) else p

abbrev pub past_sign : Place → Place
past_sign p = if is_sign (peek_char p) then advance p else p

unfoldable pub scan_exponent : Numbers → Place → Place → Bool → Scanned
scan_exponent num p q is_double =
    let r = past_sign (advance q) in
    if is_exponent (peek_char q)
    then (if is_digit (peek_char r)
        then token_to tok_double (f64_value (num.strtod p.rest)) p (advance_while is_digit r)
        else error_at exponent_digits r)
    else if is_double
    then token_to tok_double (f64_value (num.strtod p.rest)) p q
    else token_to tok_integer (i64_value (num.strtoll p.rest 10)) p q

unfoldable pub scan_number : Numbers → Place → Scanned
scan_number num p =
    let q = advance_while is_digit (if peek_char p == b'-' then advance p else p) in
    scan_exponent num p (past_fraction q) (has_fraction q)

unfoldable pub scan_hex : Numbers → Place → Scanned
scan_hex num p =
    let q = advance (advance p) in
    if is_hex_digit (peek_char q)
    then token_to tok_hex (i64_value (num.strtoll (drop 2 p.rest) 16)) p
        (advance_while is_hex_digit q)
    else error_at hex_digits q

-- The bytes that the loop over a string takes; `escaped` says that the byte before was a backslash.
unfoldable pub string_rounds : Bool → List ℕ → ℕ
string_rounds escaped [] = zero
string_rounds true (c ∷ cs) = suc (string_rounds false cs)
string_rounds false (c ∷ cs) =
    let n = string_rounds (c == b'\\' && not (get_or cs 0 0 == 0)) cs in
    if c == b'"' || c == 0 || c == b'\n' then zero else suc n

unfoldable pub scan_string : Place → Scanned
scan_string p =
    let q = advance_n (string_rounds false (advance p).rest) (advance p) in
    if peek_char q == b'"'
    then token_to tok_string no_value p (advance q)
    else error_at unterminated_string q

-- A byte that a date must have next, with the error for any other.
pub data Expect : Type 0 where
  a_digit : LexError → Expect
  a_byte : ℕ → LexError → Expect

abbrev pub error_of : Expect → LexError
error_of (a_digit e) = e
error_of (a_byte b e) = e

abbrev pub fits : Expect → ℕ → Bool
fits (a_digit e) c = is_digit c
fits (a_byte b e) c = c == b

-- The place behind, or that of the first byte that does not fit.
unfoldable pub expect_all : List Expect → Place → Place × Option LexError
expect_all [] p = (p, none)
expect_all (x ∷ xs) p =
    let rest = expect_all xs (advance p) in
    if fits x (peek_char p) then rest else (p, some (error_of x))

abbrev pub twice : Expect → List Expect → List Expect
twice x xs = x ∷ x ∷ xs

abbrev pub date_part : List Expect
date_part = twice (a_digit date_year) (
    twice (a_digit date_year) (
      a_byte b'-' date_dash
      ∷ twice (a_digit date_month) (a_byte b'-' date_dash ∷ twice (a_digit date_day) [])))

abbrev pub time_part : List Expect
time_part = twice (a_digit time_hour) (
    a_byte b':' time_colon
    ∷ twice (a_digit time_minute) (a_byte b':' time_colon ∷ twice (a_digit time_second) []))

abbrev pub is_time : ℕ → Bool
is_time c = c == b'T' || c == b't'

-- The time of day, if there is one.
abbrev pub past_time : Place → Place × Option LexError
past_time p = if is_time (peek_char p) then expect_all time_part (advance p) else (p, none)

abbrev pub closed : TokenKind → Place → Place × Option LexError → Scanned
closed kind p (q, some e) = error_at e q
closed kind p (q, none) =
    if peek_char q == b'#' then token_to kind no_value p (advance q) else error_at date_close q

abbrev pub dated : Place → Place × Option LexError → Scanned
dated p (q, some e) = error_at e q
dated p (q, none) =
    closed (if is_time (peek_char q) then tok_datetime else tok_date) p (past_time q)

unfoldable pub scan_date_or_datetime : Place → Scanned
scan_date_or_datetime p = dated p (expect_all date_part (advance p))

abbrev pub in_line : ℕ → Bool
in_line c = not (c == b'\n') && not (c == 0)

unfoldable pub scan_comment : Place → Scanned
scan_comment p = token_to tok_comment no_value p (advance_while in_line (advance p))

unfoldable pub scan_rem_comment : Place → Scanned
scan_rem_comment p = token_to tok_comment no_value p (advance_while in_line (advance_n 3 p))

abbrev pub is_rem : Place → Bool
is_rem p =
    let next = peek_char_n p 3 in
    (peek_char p == b'R' || peek_char p == b'r')
    && (peek_char_n p 1 == b'E' || peek_char_n p 1 == b'e')
    && (peek_char_n p 2 == b'M' || peek_char_n p 2 == b'm')
    && not (is_ident_char next)
    && (next == b' ' || next == b'\t' || next == b'\n' || next == 0)

-- The kind of an operator and its length, by its byte and the next.
unfoldable pub operator : ℕ → ℕ → Option (TokenKind × ℕ)
operator c d =
    if c == b'('
    then some (tok_lparen, 1)
    else if c == b')'
    then some (tok_rparen, 1)
    else if c == b'['
    then some (tok_lbracket, 1)
    else if c == b']'
    then some (tok_rbracket, 1)
    else if c == b'{'
    then some (tok_lbrace, 1)
    else if c == b'}'
    then some (tok_rbrace, 1)
    else if c == b','
    then some (tok_comma, 1)
    else if c == b'.'
    then some (tok_dot, 1)
    else if c == b'+'
    then some (tok_plus, 1)
    else if c == b'-'
    then some (tok_minus, 1)
    else if c == b'*'
    then some (tok_star, 1)
    else if c == b'/'
    then some (tok_slash, 1)
    else if c == b'='
    then some (tok_eq, 1)
    else if c == b'<'
    then (if d == b'>'
        then some (tok_ne, 2)
        else if d == b'='
        then some (tok_le, 2)
        else some (tok_lt, 1))
    else if c == b'>'
    then (if d == b'=' then some (tok_ge, 2) else some (tok_gt, 1))
    else none

abbrev pub operated : Place → Option (TokenKind × ℕ) → Scanned
operated p none = error_at unexpected_character (advance p)
operated p (some op) = token_to op.0 no_value p (advance_n op.1 p)

-- Behind the white space and in front of a byte.
unfoldable pub scan : Numbers → Place → Scanned
scan num p =
    let c = peek_char p in
    let d = peek_char_n p 1 in
    if c == b'\n'
    then token_to tok_newline no_value p (advance p)
    else if c == b'\''
    then scan_comment p
    else if is_ident_start c
    then (if is_rem p then scan_rem_comment p else scan_identifier p)
    else if is_digit c || (c == b'-' && is_digit d)
    then scan_number num p
    else if c == b'&' && (d == b'H' || d == b'h')
    then scan_hex num p
    else if c == b'"'
    then scan_string p
    else if c == b'#'
    then (if is_digit d then scan_date_or_datetime p else token_to tok_hash no_value p (advance p))
    else operated p (operator c d)
