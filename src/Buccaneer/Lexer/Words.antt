-- ===== src/Buccaneer/Lexer/Words.antt =====
-- The names and the classes of kinds at the end of src/buccaneer/lexer.c, and the text of a token.
use mutineer.Prelude.{ℕ, Bool, ◌||◌, Option, none, some, List, [], ◌∷◌, take, drop}
use mutineer.Buccaneer.Lexer.Kinds.{
  TokenKind, same_kind, tok_eof, tok_newline, tok_comment, tok_ident, tok_integer, tok_double,
  tok_hex, tok_string, tok_date, tok_datetime, tok_lparen, tok_rparen, tok_lbracket, tok_rbracket,
  tok_lbrace, tok_rbrace, tok_comma, tok_colon, tok_dot, tok_hash, tok_plus, tok_minus, tok_star,
  tok_slash, tok_eq, tok_ne, tok_lt, tok_le, tok_gt, tok_ge, tok_kw_program, tok_kw_version,
  tok_kw_author, tok_kw_description, tok_kw_capability, tok_kw_option, tok_kw_dataset, tok_kw_dim,
  tok_kw_as, tok_kw_let, tok_kw_const, tok_kw_sub, tok_kw_function, tok_kw_end, tok_kw_call,
  tok_kw_return, tok_kw_if, tok_kw_then, tok_kw_else, tok_kw_elseif, tok_kw_select, tok_kw_case,
  tok_kw_for, tok_kw_to, tok_kw_step, tok_kw_next, tok_kw_while, tok_kw_wend, tok_kw_do,
  tok_kw_loop, tok_kw_until, tok_kw_exit, tok_kw_halt, tok_kw_chain, tok_kw_try, tok_kw_catch,
  tok_kw_throw, tok_kw_on, tok_kw_and, tok_kw_or, tok_kw_not, tok_kw_mod, tok_kw_true, tok_kw_false,
  tok_kw_null, tok_kw_integer, tok_kw_double, tok_kw_boolean, tok_kw_string, tok_kw_date,
  tok_kw_datetime, tok_kw_array, tok_kw_map, tok_kw_of, tok_kw_rem, tok_error,
}
use mutineer.Buccaneer.Lexer.{Token}

-- The enumerators are all of the kinds here, so that the default has no case.
abbrev pub kind_name : TokenKind → List ℕ
kind_name tok_eof = b'E' ∷ b'O' ∷ b'F' ∷ []
kind_name tok_newline = b'N' ∷ b'E' ∷ b'W' ∷ b'L' ∷ b'I' ∷ b'N' ∷ b'E' ∷ []
kind_name tok_comment = b'C' ∷ b'O' ∷ b'M' ∷ b'M' ∷ b'E' ∷ b'N' ∷ b'T' ∷ []
kind_name tok_ident = b'I' ∷ b'D' ∷ b'E' ∷ b'N' ∷ b'T' ∷ b'I' ∷ b'F' ∷ b'I' ∷ b'E' ∷ b'R' ∷ []
kind_name tok_integer = b'I' ∷ b'N' ∷ b'T' ∷ b'E' ∷ b'G' ∷ b'E' ∷ b'R' ∷ []
kind_name tok_double = b'D' ∷ b'O' ∷ b'U' ∷ b'B' ∷ b'L' ∷ b'E' ∷ []
kind_name tok_hex = b'H' ∷ b'E' ∷ b'X' ∷ []
kind_name tok_string = b'S' ∷ b'T' ∷ b'R' ∷ b'I' ∷ b'N' ∷ b'G' ∷ []
kind_name tok_date = b'D' ∷ b'A' ∷ b'T' ∷ b'E' ∷ []
kind_name tok_datetime = b'D' ∷ b'A' ∷ b'T' ∷ b'E' ∷ b'T' ∷ b'I' ∷ b'M' ∷ b'E' ∷ []
kind_name tok_lparen = b'(' ∷ []
kind_name tok_rparen = b')' ∷ []
kind_name tok_lbracket = b'[' ∷ []
kind_name tok_rbracket = b']' ∷ []
kind_name tok_lbrace = b'{' ∷ []
kind_name tok_rbrace = b'}' ∷ []
kind_name tok_comma = b',' ∷ []
kind_name tok_colon = b':' ∷ []
kind_name tok_dot = b'.' ∷ []
kind_name tok_hash = b'#' ∷ []
kind_name tok_plus = b'+' ∷ []
kind_name tok_minus = b'-' ∷ []
kind_name tok_star = b'*' ∷ []
kind_name tok_slash = b'/' ∷ []
kind_name tok_eq = b'=' ∷ []
kind_name tok_ne = b'<' ∷ b'>' ∷ []
kind_name tok_lt = b'<' ∷ []
kind_name tok_le = b'<' ∷ b'=' ∷ []
kind_name tok_gt = b'>' ∷ []
kind_name tok_ge = b'>' ∷ b'=' ∷ []
kind_name tok_kw_program = b'P' ∷ b'R' ∷ b'O' ∷ b'G' ∷ b'R' ∷ b'A' ∷ b'M' ∷ []
kind_name tok_kw_version = b'V' ∷ b'E' ∷ b'R' ∷ b'S' ∷ b'I' ∷ b'O' ∷ b'N' ∷ []
kind_name tok_kw_author = b'A' ∷ b'U' ∷ b'T' ∷ b'H' ∷ b'O' ∷ b'R' ∷ []
kind_name tok_kw_description =
    b'D' ∷ b'E' ∷ b'S' ∷ b'C' ∷ b'R' ∷ b'I' ∷ b'P' ∷ b'T' ∷ b'I' ∷ b'O' ∷ b'N' ∷ []
kind_name tok_kw_capability =
    b'C' ∷ b'A' ∷ b'P' ∷ b'A' ∷ b'B' ∷ b'I' ∷ b'L' ∷ b'I' ∷ b'T' ∷ b'Y' ∷ []
kind_name tok_kw_option = b'O' ∷ b'P' ∷ b'T' ∷ b'I' ∷ b'O' ∷ b'N' ∷ []
kind_name tok_kw_dataset = b'D' ∷ b'A' ∷ b'T' ∷ b'A' ∷ b'S' ∷ b'E' ∷ b'T' ∷ []
kind_name tok_kw_dim = b'D' ∷ b'I' ∷ b'M' ∷ []
kind_name tok_kw_as = b'A' ∷ b'S' ∷ []
kind_name tok_kw_let = b'L' ∷ b'E' ∷ b'T' ∷ []
kind_name tok_kw_const = b'C' ∷ b'O' ∷ b'N' ∷ b'S' ∷ b'T' ∷ []
kind_name tok_kw_sub = b'S' ∷ b'U' ∷ b'B' ∷ []
kind_name tok_kw_function = b'F' ∷ b'U' ∷ b'N' ∷ b'C' ∷ b'T' ∷ b'I' ∷ b'O' ∷ b'N' ∷ []
kind_name tok_kw_end = b'E' ∷ b'N' ∷ b'D' ∷ []
kind_name tok_kw_call = b'C' ∷ b'A' ∷ b'L' ∷ b'L' ∷ []
kind_name tok_kw_return = b'R' ∷ b'E' ∷ b'T' ∷ b'U' ∷ b'R' ∷ b'N' ∷ []
kind_name tok_kw_if = b'I' ∷ b'F' ∷ []
kind_name tok_kw_then = b'T' ∷ b'H' ∷ b'E' ∷ b'N' ∷ []
kind_name tok_kw_else = b'E' ∷ b'L' ∷ b'S' ∷ b'E' ∷ []
kind_name tok_kw_elseif = b'E' ∷ b'L' ∷ b'S' ∷ b'E' ∷ b'I' ∷ b'F' ∷ []
kind_name tok_kw_select = b'S' ∷ b'E' ∷ b'L' ∷ b'E' ∷ b'C' ∷ b'T' ∷ []
kind_name tok_kw_case = b'C' ∷ b'A' ∷ b'S' ∷ b'E' ∷ []
kind_name tok_kw_for = b'F' ∷ b'O' ∷ b'R' ∷ []
kind_name tok_kw_to = b'T' ∷ b'O' ∷ []
kind_name tok_kw_step = b'S' ∷ b'T' ∷ b'E' ∷ b'P' ∷ []
kind_name tok_kw_next = b'N' ∷ b'E' ∷ b'X' ∷ b'T' ∷ []
kind_name tok_kw_while = b'W' ∷ b'H' ∷ b'I' ∷ b'L' ∷ b'E' ∷ []
kind_name tok_kw_wend = b'W' ∷ b'E' ∷ b'N' ∷ b'D' ∷ []
kind_name tok_kw_do = b'D' ∷ b'O' ∷ []
kind_name tok_kw_loop = b'L' ∷ b'O' ∷ b'O' ∷ b'P' ∷ []
kind_name tok_kw_until = b'U' ∷ b'N' ∷ b'T' ∷ b'I' ∷ b'L' ∷ []
kind_name tok_kw_exit = b'E' ∷ b'X' ∷ b'I' ∷ b'T' ∷ []
kind_name tok_kw_halt = b'H' ∷ b'A' ∷ b'L' ∷ b'T' ∷ []
kind_name tok_kw_chain = b'C' ∷ b'H' ∷ b'A' ∷ b'I' ∷ b'N' ∷ []
kind_name tok_kw_try = b'T' ∷ b'R' ∷ b'Y' ∷ []
kind_name tok_kw_catch = b'C' ∷ b'A' ∷ b'T' ∷ b'C' ∷ b'H' ∷ []
kind_name tok_kw_throw = b'T' ∷ b'H' ∷ b'R' ∷ b'O' ∷ b'W' ∷ []
kind_name tok_kw_on = b'O' ∷ b'N' ∷ []
kind_name tok_kw_and = b'A' ∷ b'N' ∷ b'D' ∷ []
kind_name tok_kw_or = b'O' ∷ b'R' ∷ []
kind_name tok_kw_not = b'N' ∷ b'O' ∷ b'T' ∷ []
kind_name tok_kw_mod = b'M' ∷ b'O' ∷ b'D' ∷ []
kind_name tok_kw_true = b'T' ∷ b'R' ∷ b'U' ∷ b'E' ∷ []
kind_name tok_kw_false = b'F' ∷ b'A' ∷ b'L' ∷ b'S' ∷ b'E' ∷ []
kind_name tok_kw_null = b'N' ∷ b'U' ∷ b'L' ∷ b'L' ∷ []
kind_name tok_kw_integer = b'I' ∷ b'N' ∷ b'T' ∷ b'E' ∷ b'G' ∷ b'E' ∷ b'R' ∷ []
kind_name tok_kw_double = b'D' ∷ b'O' ∷ b'U' ∷ b'B' ∷ b'L' ∷ b'E' ∷ []
kind_name tok_kw_boolean = b'B' ∷ b'O' ∷ b'O' ∷ b'L' ∷ b'E' ∷ b'A' ∷ b'N' ∷ []
kind_name tok_kw_string = b'S' ∷ b'T' ∷ b'R' ∷ b'I' ∷ b'N' ∷ b'G' ∷ []
kind_name tok_kw_date = b'D' ∷ b'A' ∷ b'T' ∷ b'E' ∷ []
kind_name tok_kw_datetime = b'D' ∷ b'A' ∷ b'T' ∷ b'E' ∷ b'T' ∷ b'I' ∷ b'M' ∷ b'E' ∷ []
kind_name tok_kw_array = b'A' ∷ b'R' ∷ b'R' ∷ b'A' ∷ b'Y' ∷ []
kind_name tok_kw_map = b'M' ∷ b'A' ∷ b'P' ∷ []
kind_name tok_kw_of = b'O' ∷ b'F' ∷ []
kind_name tok_kw_rem = b'R' ∷ b'E' ∷ b'M' ∷ []
kind_name tok_error = b'E' ∷ b'R' ∷ b'R' ∷ b'O' ∷ b'R' ∷ []

unfoldable pub is_type_keyword : TokenKind → Bool
is_type_keyword kind =
    same_kind kind tok_kw_integer
    || same_kind kind tok_kw_double
    || same_kind kind tok_kw_boolean
    || same_kind kind tok_kw_string
    || same_kind kind tok_kw_date
    || same_kind kind tok_kw_datetime
    || same_kind kind tok_kw_array
    || same_kind kind tok_kw_map

unfoldable pub is_literal : TokenKind → Bool
is_literal kind =
    same_kind kind tok_integer
    || same_kind kind tok_double
    || same_kind kind tok_hex
    || same_kind kind tok_string
    || same_kind kind tok_date
    || same_kind kind tok_datetime
    || same_kind kind tok_kw_true
    || same_kind kind tok_kw_false
    || same_kind kind tok_kw_null

unfoldable pub is_comparison : TokenKind → Bool
is_comparison kind =
    same_kind kind tok_eq
    || same_kind kind tok_ne
    || same_kind kind tok_lt
    || same_kind kind tok_le
    || same_kind kind tok_gt
    || same_kind kind tok_ge

unfoldable pub is_additive : TokenKind → Bool
is_additive kind = same_kind kind tok_plus || same_kind kind tok_minus

unfoldable pub is_multiplicative : TokenKind → Bool
is_multiplicative kind =
    same_kind kind tok_star || same_kind kind tok_slash || same_kind kind tok_kw_mod

-- A copy of the bytes; malloc is taken to succeed.
unfoldable pub token_text : List ℕ → Token → List ℕ
token_text source tok = text_from tok.start
  where
    text_from : Option ℕ → List ℕ
    text_from none = []
    text_from (some start) = take tok.len (drop start source)
