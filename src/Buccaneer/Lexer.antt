-- ===== src/Buccaneer/Lexer.antt =====
-- src/buccaneer/lexer.c with src/buccaneer/include/bucc_lexer.h: the lexer of the Buccaneer script
-- language. A pointer into the source is its offset; the diagnostics are a list in the lexer.
pub mod Kinds
pub mod Scan
pub mod Next
pub mod Words
pub mod Moves
pub mod Ends
pub mod Shapes
pub mod Places
pub mod Spans
pub mod Reach
mod Tests
use mutineer.Prelude.{
  ℕ, zero, suc, ◌+◌, ◌-◌, ◌%◌, ◌^◌, Bool, true, false, ◌&&◌, ◌||◌, Option, none, some, List, [],
  ◌∷◌, ◌++◌, leb, ◌==◌, if◌then◌else◌, length, get_or,
}
use mutineer.Buccaneer.Lexer.Kinds.{
  TokenKind, tok_eof, tok_ident, tok_error, KeywordEntry, keywords,
}

-- `rest` is the source from `pos` on.
pub record Place : Type 0 where
  pub rest : List ℕ
  pub pos : ℕ
  pub line : ℕ
  pub col : ℕ

pub record Span : Type 0 where
  pub file_id : ℕ
  pub start_line : ℕ
  pub start_col : ℕ
  pub end_line : ℕ
  pub end_col : ℕ

-- The bits of the union value.
pub data Literal : Type 0 where
  no_value : Literal
  i64_value f64_value : ℕ → Literal

-- `start` is none for NULL.
pub record Token : Type 0 where
  pub kind : TokenKind
  pub span : Span
  pub start : Option ℕ
  pub len : ℕ
  pub value : Literal

-- The messages of make_error and of expect_newline.
pub data LexError : Type 0 where
  exponent_digits hex_digits unterminated_string unexpected_character : LexError
  date_year date_dash date_month date_day date_close : LexError
  time_hour time_colon time_minute time_second : LexError
  newline_instead_of : TokenKind → LexError

pub record Lexer : Type 0 where
  pub at : Place
  pub file_id : ℕ
  pub diag : List (Span × LexError)
  pub current : Token
  pub peeked : Token
  pub has_peek : Bool

-- strtod, and strtoll with its base, on the source from a place on.
pub record Numbers : Type 0 where
  pub strtod : List ℕ → ℕ
  pub strtoll : List ℕ → ℕ → ℕ

abbrev pub upper : ℕ → ℕ
upper c = if leb b'a' c && leb c b'z' then c - 32 else c

-- strcasecmp_n of two texts of one length.
unfoldable pub same_letters : List ℕ → List ℕ → Bool
same_letters [] [] = true
same_letters (a ∷ xs) (b ∷ ys) = upper a == upper b && same_letters xs ys
same_letters _ _ = false

unfoldable pub lookup_in : List KeywordEntry → List ℕ → TokenKind
lookup_in [] text = tok_ident
lookup_in (k ∷ ks) text = if same_letters text k.name then k.kind else lookup_in ks text

unfoldable pub lookup_keyword : List ℕ → TokenKind
lookup_keyword text = lookup_in keywords text

abbrev pub peek_char : Place → ℕ
peek_char p = get_or p.rest 0 0

abbrev pub peek_char_n : Place → ℕ → ℕ
peek_char_n p n = get_or p.rest n 0

-- Behind the byte c.
unfoldable pub past : Place → ℕ → List ℕ → Place
past p c cs = record {
  rest = cs;
  pos = p.pos + 1;
  line = if c == b'\n' then (p.line + 1) % 2 ^ 32 else p.line;
  col = if c == b'\n' then 1 else (p.col + 1) % 2 ^ 32;
}

unfoldable pub take_one : Place → List ℕ → Place
take_one p [] = p
take_one p (c ∷ cs) = past p c cs

unfoldable pub advance : Place → Place
advance p = take_one p p.rest

unfoldable pub advance_n : ℕ → Place → Place
advance_n zero p = p
advance_n (suc n) p = advance_n n (advance p)

-- The rounds of a loop that advances while the next byte passes a test, which 0 fails.
unfoldable pub count_while : (ℕ → Bool) → List ℕ → ℕ
count_while f [] = zero
count_while f (c ∷ cs) = let n = count_while f cs in if f c then suc n else zero

abbrev pub advance_while : (ℕ → Bool) → Place → Place
advance_while f p = advance_n (count_while f p.rest) p

abbrev pub is_blank : ℕ → Bool
is_blank c = c == b' ' || c == b'\t' || c == 13 || c == b':'

abbrev pub skip_whitespace : Place → Place
skip_whitespace p = advance_while is_blank p

abbrev pub is_ident_start : ℕ → Bool
is_ident_start c = (leb b'a' c && leb c b'z') || (leb b'A' c && leb c b'Z') || c == b'_'

abbrev pub is_digit : ℕ → Bool
is_digit c = leb b'0' c && leb c b'9'

abbrev pub is_ident_char : ℕ → Bool
is_ident_char c = is_ident_start c || is_digit c || c == b'$'

abbrev pub is_hex_digit : ℕ → Bool
is_hex_digit c = is_digit c || (leb b'a' c && leb c b'f') || (leb b'A' c && leb c b'F')

abbrev nowhere : Span
nowhere = record { file_id = 0; start_line = 0; start_col = 0; end_line = 0; end_col = 0 }

-- What memset leaves.
abbrev pub blank_token : Token
blank_token = record { kind = tok_eof; span = nowhere; start = none; len = 0; value = no_value }

unfoldable pub lexer_init : List ℕ → ℕ → Lexer
lexer_init source file_id = record {
  at = record { rest = source; pos = 0; line = 1; col = 1 };
  file_id = file_id;
  diag = [];
  current = blank_token;
  peeked = blank_token;
  has_peek = false;
}
