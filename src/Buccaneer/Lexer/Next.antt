-- ===== src/Buccaneer/Lexer/Next.antt =====
-- The calls of src/buccaneer/lexer.c: the tokens that the scanners' answers make, and the functions of bucc_lexer.h.
use mutineer.Prelude.{
  ℕ, zero, suc, Bool, true, false, ◌||◌, Option, none, some, List, [], ◌∷◌, ◌++◌, if◌then◌else◌,
}
use mutineer.Buccaneer.Lexer.Kinds.{TokenKind, same_kind, tok_eof, tok_newline, tok_comment}
use mutineer.Buccaneer.Lexer.{
  Place, Span, no_value, LexError, newline_instead_of, Lexer, Numbers, skip_whitespace,
}
use mutineer.Buccaneer.Lexer.Scan.{Scanned, scan}

-- make_token and make_error: the span is from the first place to the one behind.
abbrev pub span_of : ℕ → Place → Place → Span
span_of file_id p q = record {
  file_id = file_id;
  start_line = p.line;
  start_col = p.col;
  end_line = q.line;
  end_col = q.col;
}

abbrev pub report : List (Span × LexError) → Span → Option LexError → List (Span × LexError)
report diag span none = diag
report diag span (some e) = diag ++ (span, e) ∷ []

unfoldable pub made : Lexer → Place → Scanned → Lexer
made lex p s =
    let span = span_of lex.file_id p s.behind in
    record lex {
      at = s.behind;
      diag = report lex.diag span s.failure;
      current = record {
        kind = s.kind;
        span = span;
        start = s.start;
        len = s.len;
        value = s.value;
      };
    }

abbrev pub ended : Place → Scanned
ended p = record {
  kind = tok_eof;
  start = none;
  len = 0;
  value = no_value;
  failure = none;
  behind = p;
}

unfoldable pub scan_or_end : Numbers → Place → List ℕ → Scanned
scan_or_end num p [] = ended p
scan_or_end num p (c ∷ cs) = scan num p

unfoldable pub next_fresh : Numbers → Lexer → Lexer
next_fresh num lex = let p = skip_whitespace lex.at in made lex p (scan_or_end num p p.rest)

-- The token is `current`.
unfoldable pub lexer_next : Numbers → Lexer → Lexer
lexer_next num lex =
    if lex.has_peek
    then record lex { has_peek = false; current = lex.peeked }
    else next_fresh num lex

unfoldable pub lexer_peek : Numbers → Lexer → Lexer
lexer_peek num lex =
    let next = lexer_next num lex in
    if lex.has_peek
    then lex
    else record next { peeked = next.current; current = lex.current; has_peek = true }

unfoldable pub lexer_at_end : Lexer → Bool
lexer_at_end lex = same_kind lex.current.kind tok_eof

unfoldable pub lexer_check : Lexer → TokenKind → Bool
lexer_check lex kind = same_kind lex.current.kind kind

unfoldable pub lexer_match : Numbers → Lexer → TokenKind → Bool × Lexer
lexer_match num lex kind =
    if same_kind lex.current.kind kind then (true, lexer_next num lex) else (false, lex)

abbrev pub is_line_end : TokenKind → Bool
is_line_end kind = same_kind kind tok_newline || same_kind kind tok_comment

unfoldable pub skip_newlines : Numbers → ℕ → Lexer → Option Lexer
skip_newlines num zero lex = none
skip_newlines num (suc fuel) lex =
    let rest = skip_newlines num fuel (lexer_next num lex) in
    if is_line_end lex.current.kind then rest else some lex

unfoldable pub expect_newline : Numbers → Lexer → Bool × Lexer
expect_newline num lex =
    let next = lexer_next num lex in
    if same_kind lex.current.kind tok_newline
    then (true, next)
    else if same_kind lex.current.kind tok_eof
    then (true, lex)
    else if same_kind lex.current.kind tok_comment
    then (true, if same_kind next.current.kind tok_newline then lexer_next num next else next)
    else (
      false,
      record lex {
        diag = lex.diag ++ (lex.current.span, newline_instead_of lex.current.kind) ∷ [];
      },
    )
