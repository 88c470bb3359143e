-- ===== src/Buccaneer/Lexer/Tests.antt =====
-- Witnesses and tests for the lexer of src/buccaneer/lexer.c, on `IF n>=10 'x` with an end of line.
use mutineer.Prelude.{
  ℕ, zero, suc, ◌+◌, ◌*◌, ◌-◌, false, some, List, [], ◌∷◌, ◌≡◌, refl, arith, if◌then◌else◌,
}
use mutineer.Buccaneer.Lexer.Kinds.{
  TokenKind, same_kind, tok_eof, tok_ge, tok_integer, tok_hash, tok_newline, tok_colon,
}
use mutineer.Buccaneer.Lexer.{
  Lexer, Numbers, is_digit, lexer_init, blank_token, advance, advance_n, take_one, past,
  count_while,
}
use mutineer.Buccaneer.Lexer.Scan.{scan, scan_number, scan_exponent, operator}
use mutineer.Buccaneer.Lexer.Next.{lexer_next, lexer_peek, next_fresh, made, scan_or_end}
use mutineer.Buccaneer.Lexer.Ends.{calls, reaches_end, Stops, skip_newlines-Stops}
use mutineer.Buccaneer.Lexer.Spans.{Follows, lexer_next-Follows, Diagnoses, lexer_next-Diagnoses}
use mutineer.Buccaneer.Lexer.Reach.{
  begun, by_next, by_peek, IsLexer, Reached-IsLexer, never_colon, LooksAhead, lexer_peek-LooksAhead,
}

-- Digits up to the first other byte.
abbrev digits : ℕ → List ℕ → ℕ
digits n [] = n
digits n (c ∷ cs) = let rest = digits (n * 10 + (c - b'0')) cs in if is_digit c then rest else n

abbrev plain : Numbers
plain = record { strtod = λ xs. digits 0 xs; strtoll = λ xs base. digits 0 xs }

abbrev source : List ℕ
source = b'I' ∷ b'F' ∷ b' ' ∷ b'n' ∷ b'>' ∷ b'=' ∷ b'1' ∷ b'0' ∷ b' ' ∷ b'\'' ∷ b'x' ∷ b'\n' ∷ []

abbrev first : Lexer
first = lexer_init source 1

abbrev kinds : ℕ → Lexer → List TokenKind
kinds zero lex = []
kinds (suc n) lex = let next = lexer_next plain lex in next.current.kind ∷ kinds n next

-- `9>=#`, then the end.
all_kinds :
    kinds 4 (lexer_init (b'9' ∷ b'>' ∷ b'=' ∷ b'#' ∷ []) 1)
    ≡ tok_integer ∷ tok_ge ∷ tok_hash ∷ tok_eof ∷ []
unfolding lexer_next lexer_init next_fresh made scan_or_end advance_n count_while scan scan_number
    scan_exponent advance take_one past operator
all_kinds = refl

-- A minus in front of a digit belongs to the number, also behind an operand: `9-1` is 9 and -1, with no minus.
minus_digit :
    kinds 3 (lexer_init (b'9' ∷ b'-' ∷ b'1' ∷ []) 1) ≡ tok_integer ∷ tok_integer ∷ tok_eof ∷ []
unfolding lexer_next lexer_init next_fresh made scan_or_end advance_n count_while scan scan_number
    scan_exponent advance take_one past operator
minus_digit = refl

reaches_end_example : (calls plain 13 first).current.kind ≡ tok_eof
reaches_end_example = reaches_end plain source 1 13 (omega arith)

-- At the end of a line, in front of a comment and of another end.
abbrev line_end : Lexer
line_end = record {
  at = record { rest = b' ' ∷ b'\'' ∷ b'x' ∷ b'\n' ∷ b'8' ∷ []; pos = 1; line = 2; col = 1 };
  file_id = 1;
  diag = [];
  current = record blank_token { kind = tok_newline; start = some 0; len = 1 };
  peeked = blank_token;
  has_peek = false;
}

-- At a string that the line ends.
abbrev bad : Lexer
bad = record {
  at = record { rest = b' ' ∷ b'"' ∷ b'x' ∷ b'\n' ∷ []; pos = 1; line = 1; col = 2 };
  file_id = 1;
  diag = [];
  current = blank_token;
  peeked = blank_token;
  has_peek = false;
}

skip_newlines-Stops_example : Stops plain 8 line_end
skip_newlines-Stops_example = skip_newlines-Stops plain 5 line_end (omega arith)

lexer_next-Follows_example : Follows source [] first (lexer_next plain first)
unfolding lexer_init
lexer_next-Follows_example =
    lexer_next-Follows plain source [] first refl
      (record { splits = refl; offset = refl; row = refl; column = refl })

lexer_next-Diagnoses_example :
    Diagnoses [] (lexer_next plain bad).diag (lexer_next plain bad).current
lexer_next-Diagnoses_example = lexer_next-Diagnoses plain bad refl

Reached-IsLexer_example : IsLexer source 1 (lexer_next plain (lexer_peek plain first))
Reached-IsLexer_example =
    Reached-IsLexer plain (lexer_next plain (lexer_peek plain first)) (by_next (by_peek begun))

never_colon_example :
    (same_kind (lexer_next plain first).current.kind tok_colon ≡ false)
    × (same_kind (lexer_next plain first).peeked.kind tok_colon ≡ false)
never_colon_example = never_colon plain (lexer_next plain first) (by_next begun)

lexer_peek-LooksAhead_example : LooksAhead plain first (lexer_peek plain first)
lexer_peek-LooksAhead_example = lexer_peek-LooksAhead plain first
