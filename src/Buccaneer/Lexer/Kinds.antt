-- ===== src/Buccaneer/Lexer/Kinds.antt =====
-- The kinds of tokens of src/buccaneer/include/bucc_lexer.h and the keywords of src/buccaneer/lexer.c.
use mutineer.Prelude.{ℕ, Bool, List, [], ◌∷◌, ◌==◌}

pub data TokenKind : Type 0 where
  tok_eof tok_newline tok_comment tok_ident : TokenKind
  tok_integer tok_double tok_hex tok_string : TokenKind
  tok_date tok_datetime tok_lparen tok_rparen : TokenKind
  tok_lbracket tok_rbracket tok_lbrace tok_rbrace : TokenKind
  tok_comma tok_colon tok_dot tok_hash : TokenKind
  tok_plus tok_minus tok_star tok_slash : TokenKind
  tok_eq tok_ne tok_lt tok_le : TokenKind
  tok_gt tok_ge tok_kw_program tok_kw_version : TokenKind
  tok_kw_author tok_kw_description tok_kw_capability tok_kw_option : TokenKind
  tok_kw_dataset tok_kw_dim tok_kw_as tok_kw_let : TokenKind
  tok_kw_const tok_kw_sub tok_kw_function tok_kw_end : TokenKind
  tok_kw_call tok_kw_return tok_kw_if tok_kw_then : TokenKind
  tok_kw_else tok_kw_elseif tok_kw_select tok_kw_case : TokenKind
  tok_kw_for tok_kw_to tok_kw_step tok_kw_next : TokenKind
  tok_kw_while tok_kw_wend tok_kw_do tok_kw_loop : TokenKind
  tok_kw_until tok_kw_exit tok_kw_halt tok_kw_chain : TokenKind
  tok_kw_try tok_kw_catch tok_kw_throw tok_kw_on : TokenKind
  tok_kw_and tok_kw_or tok_kw_not tok_kw_mod : TokenKind
  tok_kw_true tok_kw_false tok_kw_null tok_kw_integer : TokenKind
  tok_kw_double tok_kw_boolean tok_kw_string tok_kw_date : TokenKind
  tok_kw_datetime tok_kw_array tok_kw_map tok_kw_of : TokenKind
  tok_kw_rem tok_error : TokenKind

-- The number of the enumerator.
abbrev pub kind_code : TokenKind → ℕ
kind_code tok_eof = 0
kind_code tok_newline = 1
kind_code tok_comment = 2
kind_code tok_ident = 3
kind_code tok_integer = 4
kind_code tok_double = 5
kind_code tok_hex = 6
kind_code tok_string = 7
kind_code tok_date = 8
kind_code tok_datetime = 9
kind_code tok_lparen = 10
kind_code tok_rparen = 11
kind_code tok_lbracket = 12
kind_code tok_rbracket = 13
kind_code tok_lbrace = 14
kind_code tok_rbrace = 15
kind_code tok_comma = 16
kind_code tok_colon = 17
kind_code tok_dot = 18
kind_code tok_hash = 19
kind_code tok_plus = 20
kind_code tok_minus = 21
kind_code tok_star = 22
kind_code tok_slash = 23
kind_code tok_eq = 24
kind_code tok_ne = 25
kind_code tok_lt = 26
kind_code tok_le = 27
kind_code tok_gt = 28
kind_code tok_ge = 29
kind_code tok_kw_program = 30
kind_code tok_kw_version = 31
kind_code tok_kw_author = 32
kind_code tok_kw_description = 33
kind_code tok_kw_capability = 34
kind_code tok_kw_option = 35
kind_code tok_kw_dataset = 36
kind_code tok_kw_dim = 37
kind_code tok_kw_as = 38
kind_code tok_kw_let = 39
kind_code tok_kw_const = 40
kind_code tok_kw_sub = 41
kind_code tok_kw_function = 42
kind_code tok_kw_end = 43
kind_code tok_kw_call = 44
kind_code tok_kw_return = 45
kind_code tok_kw_if = 46
kind_code tok_kw_then = 47
kind_code tok_kw_else = 48
kind_code tok_kw_elseif = 49
kind_code tok_kw_select = 50
kind_code tok_kw_case = 51
kind_code tok_kw_for = 52
kind_code tok_kw_to = 53
kind_code tok_kw_step = 54
kind_code tok_kw_next = 55
kind_code tok_kw_while = 56
kind_code tok_kw_wend = 57
kind_code tok_kw_do = 58
kind_code tok_kw_loop = 59
kind_code tok_kw_until = 60
kind_code tok_kw_exit = 61
kind_code tok_kw_halt = 62
kind_code tok_kw_chain = 63
kind_code tok_kw_try = 64
kind_code tok_kw_catch = 65
kind_code tok_kw_throw = 66
kind_code tok_kw_on = 67
kind_code tok_kw_and = 68
kind_code tok_kw_or = 69
kind_code tok_kw_not = 70
kind_code tok_kw_mod = 71
kind_code tok_kw_true = 72
kind_code tok_kw_false = 73
kind_code tok_kw_null = 74
kind_code tok_kw_integer = 75
kind_code tok_kw_double = 76
kind_code tok_kw_boolean = 77
kind_code tok_kw_string = 78
kind_code tok_kw_date = 79
kind_code tok_kw_datetime = 80
kind_code tok_kw_array = 81
kind_code tok_kw_map = 82
kind_code tok_kw_of = 83
kind_code tok_kw_rem = 84
kind_code tok_error = 85

abbrev pub same_kind : TokenKind → TokenKind → Bool
same_kind a b = kind_code a == kind_code b

-- A keyword's name and kind.
pub record KeywordEntry : Type 0 where
  pub name : List ℕ
  pub kind : TokenKind

abbrev keyword : List ℕ → TokenKind → KeywordEntry
keyword name kind = record { name = name; kind = kind }

abbrev pub keywords : List KeywordEntry
keywords =
    keyword (b'P' ∷ b'R' ∷ b'O' ∷ b'G' ∷ b'R' ∷ b'A' ∷ b'M' ∷ []) tok_kw_program
    ∷ keyword (b'V' ∷ b'E' ∷ b'R' ∷ b'S' ∷ b'I' ∷ b'O' ∷ b'N' ∷ []) tok_kw_version
    ∷ keyword (b'A' ∷ b'U' ∷ b'T' ∷ b'H' ∷ b'O' ∷ b'R' ∷ []) tok_kw_author
    ∷ keyword (b'D' ∷ b'E' ∷ b'S' ∷ b'C' ∷ b'R' ∷ b'I' ∷ b'P' ∷ b'T' ∷ b'I' ∷ b'O' ∷ b'N' ∷ [])
        tok_kw_description
    ∷ keyword (b'C' ∷ b'A' ∷ b'P' ∷ b'A' ∷ b'B' ∷ b'I' ∷ b'L' ∷ b'I' ∷ b'T' ∷ b'Y' ∷ [])
        tok_kw_capability
    ∷ keyword (b'O' ∷ b'P' ∷ b'T' ∷ b'I' ∷ b'O' ∷ b'N' ∷ []) tok_kw_option
    ∷ keyword (b'D' ∷ b'A' ∷ b'T' ∷ b'A' ∷ b'S' ∷ b'E' ∷ b'T' ∷ []) tok_kw_dataset
    ∷ keyword (b'D' ∷ b'I' ∷ b'M' ∷ []) tok_kw_dim
    ∷ keyword (b'A' ∷ b'S' ∷ []) tok_kw_as
    ∷ keyword (b'L' ∷ b'E' ∷ b'T' ∷ []) tok_kw_let
    ∷ keyword (b'C' ∷ b'O' ∷ b'N' ∷ b'S' ∷ b'T' ∷ []) tok_kw_const
    ∷ keyword (b'S' ∷ b'U' ∷ b'B' ∷ []) tok_kw_sub
    ∷ keyword (b'F' ∷ b'U' ∷ b'N' ∷ b'C' ∷ b'T' ∷ b'I' ∷ b'O' ∷ b'N' ∷ []) tok_kw_function
    ∷ keyword (b'E' ∷ b'N' ∷ b'D' ∷ []) tok_kw_end
    ∷ keyword (b'C' ∷ b'A' ∷ b'L' ∷ b'L' ∷ []) tok_kw_call
    ∷ keyword (b'R' ∷ b'E' ∷ b'T' ∷ b'U' ∷ b'R' ∷ b'N' ∷ []) tok_kw_return
    ∷ keyword (b'I' ∷ b'F' ∷ []) tok_kw_if
    ∷ keyword (b'T' ∷ b'H' ∷ b'E' ∷ b'N' ∷ []) tok_kw_then
    ∷ keyword (b'E' ∷ b'L' ∷ b'S' ∷ b'E' ∷ []) tok_kw_else
    ∷ keyword (b'E' ∷ b'L' ∷ b'S' ∷ b'E' ∷ b'I' ∷ b'F' ∷ []) tok_kw_elseif
    ∷ keyword (b'S' ∷ b'E' ∷ b'L' ∷ b'E' ∷ b'C' ∷ b'T' ∷ []) tok_kw_select
    ∷ keyword (b'C' ∷ b'A' ∷ b'S' ∷ b'E' ∷ []) tok_kw_case
    ∷ keyword (b'F' ∷ b'O' ∷ b'R' ∷ []) tok_kw_for
    ∷ keyword (b'T' ∷ b'O' ∷ []) tok_kw_to
    ∷ keyword (b'S' ∷ b'T' ∷ b'E' ∷ b'P' ∷ []) tok_kw_step
    ∷ keyword (b'N' ∷ b'E' ∷ b'X' ∷ b'T' ∷ []) tok_kw_next
    ∷ keyword (b'W' ∷ b'H' ∷ b'I' ∷ b'L' ∷ b'E' ∷ []) tok_kw_while
    ∷ keyword (b'W' ∷ b'E' ∷ b'N' ∷ b'D' ∷ []) tok_kw_wend
    ∷ keyword (b'D' ∷ b'O' ∷ []) tok_kw_do
    ∷ keyword (b'L' ∷ b'O' ∷ b'O' ∷ b'P' ∷ []) tok_kw_loop
    ∷ keyword (b'U' ∷ b'N' ∷ b'T' ∷ b'I' ∷ b'L' ∷ []) tok_kw_until
    ∷ keyword (b'E' ∷ b'X' ∷ b'I' ∷ b'T' ∷ []) tok_kw_exit
    ∷ keyword (b'H' ∷ b'A' ∷ b'L' ∷ b'T' ∷ []) tok_kw_halt
    ∷ keyword (b'C' ∷ b'H' ∷ b'A' ∷ b'I' ∷ b'N' ∷ []) tok_kw_chain
    ∷ keyword (b'T' ∷ b'R' ∷ b'Y' ∷ []) tok_kw_try
    ∷ keyword (b'C' ∷ b'A' ∷ b'T' ∷ b'C' ∷ b'H' ∷ []) tok_kw_catch
    ∷ keyword (b'T' ∷ b'H' ∷ b'R' ∷ b'O' ∷ b'W' ∷ []) tok_kw_throw
    ∷ keyword (b'O' ∷ b'N' ∷ []) tok_kw_on
    ∷ keyword (b'A' ∷ b'N' ∷ b'D' ∷ []) tok_kw_and
    ∷ keyword (b'O' ∷ b'R' ∷ []) tok_kw_or
    ∷ keyword (b'N' ∷ b'O' ∷ b'T' ∷ []) tok_kw_not
    ∷ keyword (b'M' ∷ b'O' ∷ b'D' ∷ []) tok_kw_mod
    ∷ keyword (b'T' ∷ b'R' ∷ b'U' ∷ b'E' ∷ []) tok_kw_true
    ∷ keyword (b'F' ∷ b'A' ∷ b'L' ∷ b'S' ∷ b'E' ∷ []) tok_kw_false
    ∷ keyword (b'N' ∷ b'U' ∷ b'L' ∷ b'L' ∷ []) tok_kw_null
    ∷ keyword (b'I' ∷ b'N' ∷ b'T' ∷ b'E' ∷ b'G' ∷ b'E' ∷ b'R' ∷ []) tok_kw_integer
    ∷ keyword (b'D' ∷ b'O' ∷ b'U' ∷ b'B' ∷ b'L' ∷ b'E' ∷ []) tok_kw_double
    ∷ keyword (b'B' ∷ b'O' ∷ b'O' ∷ b'L' ∷ b'E' ∷ b'A' ∷ b'N' ∷ []) tok_kw_boolean
    ∷ keyword (b'S' ∷ b'T' ∷ b'R' ∷ b'I' ∷ b'N' ∷ b'G' ∷ []) tok_kw_string
    ∷ keyword (b'D' ∷ b'A' ∷ b'T' ∷ b'E' ∷ []) tok_kw_date
    ∷ keyword (b'D' ∷ b'A' ∷ b'T' ∷ b'E' ∷ b'T' ∷ b'I' ∷ b'M' ∷ b'E' ∷ []) tok_kw_datetime
    ∷ keyword (b'A' ∷ b'R' ∷ b'R' ∷ b'A' ∷ b'Y' ∷ []) tok_kw_array
    ∷ keyword (b'M' ∷ b'A' ∷ b'P' ∷ []) tok_kw_map
    ∷ keyword (b'O' ∷ b'F' ∷ []) tok_kw_of
    ∷ keyword (b'R' ∷ b'E' ∷ b'M' ∷ []) tok_kw_rem
    ∷ []
