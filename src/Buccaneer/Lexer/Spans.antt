-- ===== src/Buccaneer/Lexer/Spans.antt =====
-- What the calls of src/buccaneer/lexer.c give, against the source: where each token stands and its text.
use mutineer.Prelude.{
  ◌<◌, drop_all-append, take_all-append, ℕ, Bool, true, false, not, ◌&&◌, some, List, [], ◌∷◌, ◌++◌,
  append_assoc, length, length-append, take, drop, ◌≡◌, refl, sym, ap, ◌∙◌, subst, arith,
}
use mutineer.Buccaneer.Lexer.Kinds.{TokenKind, same_kind, tok_eof, tok_error, tok_colon}
use mutineer.Buccaneer.Lexer.{
  Place, Span, LexError, Token, Lexer, Numbers, skip_whitespace, is_blank,
}
use mutineer.Buccaneer.Lexer.Scan.{Scanned, scan}
use mutineer.Buccaneer.Lexer.Next.{scan_or_end, span_of, made, next_fresh, lexer_next}
use mutineer.Buccaneer.Lexer.Words.{token_text}
use mutineer.Buccaneer.Lexer.Moves.{Moves, is_plain, Moves-refl, Reads-Moves, scan-Reads}
use mutineer.Buccaneer.Lexer.Shapes.{Shaped, failed, shaped, scan-Shaped}
use mutineer.Buccaneer.Lexer.Ends.{lexer_next-fresh, left, left-Reads}
use mutineer.Buccaneer.Lexer.Places.{IsPlace, Moves-Takes, blanks-IsPlace, all}

-- A token behind the text `before`: the end, where nothing is left; an error; or the bytes of `text`.
pub data ReadsAs (source before text rest : List ℕ) (tok : Token) : Type 0 where
  at_end : tok.kind ≡ tok_eof → text ≡ [] → rest ≡ [] → ReadsAs source before text rest tok
  an_error : tok.kind ≡ tok_error → ReadsAs source before text rest tok
  a_token :
      is_plain tok.kind ≡ true
      → tok.start ≡ some (length before)
      → token_text source tok ≡ text
      → 0 < length text
      → ReadsAs source before text rest tok

-- Two lexers with one token between them: blanks, then the text of the token, from its own place.
pub record Follows (source seen : List ℕ) (lex next : Lexer) : Type 0 where
  pub blanks : List ℕ
  pub are_blanks : all is_blank blanks ≡ true
  pub from : Place
  pub from_place : IsPlace source (seen ++ blanks) from
  pub text : List ℕ
  pub to_place : IsPlace source ((seen ++ blanks) ++ text) next.at
  pub spanned : next.current.span ≡ span_of lex.file_id from next.at
  pub reads : ReadsAs source (seen ++ blanks) text next.at.rest next.current

middle :
    (source before text rest : List ℕ)
    → source ≡ (before ++ text) ++ rest
    → take (length text) (drop (length before) source) ≡ text
middle source before text rest e =
    subst (λ s. take (length text) (drop (length before) s) ≡ text)
      (sym (e ∙ append_assoc before text rest))
      (subst (λ s. take (length text) s ≡ text) (sym (drop_all-append before (text ++ rest)))
        (take_all-append text rest))

scan_or_end-Moves :
    (num : Numbers) (p : Place) (xs : List ℕ) → Moves p (scan_or_end num p xs).behind
unfolding scan_or_end
scan_or_end-Moves num p [] = Moves-refl p
scan_or_end-Moves num p (c ∷ cs) = Reads-Moves (scan-Reads num p)

abbrev token_of : ℕ → Place → Scanned → Token
token_of file_id p s = record {
  kind = s.kind;
  span = span_of file_id p s.behind;
  start = s.start;
  len = s.len;
  value = s.value;
}

shaped_reads :
    (source before text : List ℕ) (file_id : ℕ) (p : Place) (s : Scanned)
    → IsPlace source before p
    → IsPlace source (before ++ text) s.behind
    → left s.behind < left p
    → Shaped p s
    → ReadsAs source before text s.behind.rest (token_of file_id p s)
unfolding token_text
shaped_reads source before text file_id p s h g less (failed r e f) = an_error e
shaped_reads source before text file_id p s h g less (shaped c f e l) =
    let size : s.len ≡ length text =
      omega (arith, l, h.offset, g.offset, length-append before text) in
    let some_bytes : 0 < length text = omega (
      arith,
      less,
      ap length h.splits,
      ap length g.splits,
      length-append before p.rest,
      length-append (before ++ text) s.behind.rest,
      length-append before text,
    ) in
    a_token c (e ∙ ap some h.offset)
      (rw e rw size rw h.offset (middle source before text s.behind.rest g.splits)) some_bytes

scan_or_end-reads :
    (source before text : List ℕ) (file_id : ℕ) (num : Numbers) (p : Place) (xs : List ℕ)
    → p.rest ≡ xs
    → IsPlace source before p
    → IsPlace source (before ++ text) (scan_or_end num p xs).behind
    → ReadsAs source before text
        (scan_or_end num p xs).behind.rest
        (token_of file_id p (scan_or_end num p xs))
unfolding scan_or_end
scan_or_end-reads source before text file_id num p [] e h g =
    at_end refl (no_text text (omega (arith, h.offset, g.offset, length-append before text))) e
  where
    no_text : (text : List ℕ) → length text ≡ 0 → text ≡ []
    no_text [] z = refl
    no_text (t ∷ ts) z = absurd (omega arith)
scan_or_end-reads source before text file_id num p (c ∷ cs) e h g =
    shaped_reads source before text file_id p (scan num p) h g
      (omega (arith, left-Reads p (scan-Reads num p), ap length e)) (scan-Shaped num p)

pub next_fresh-Follows :
    (num : Numbers) (source seen : List ℕ) (lex : Lexer)
    → IsPlace source seen lex.at
    → Follows source seen lex (next_fresh num lex)
unfolding next_fresh made
next_fresh-Follows num source seen lex h =
    let p = skip_whitespace lex.at in
    let b = blanks-IsPlace lex.at h in
    let t = Moves-Takes (scan_or_end-Moves num p p.rest) b.1.1 in
    record {
      blanks = b.0;
      are_blanks = b.1.0;
      from = p;
      from_place = b.1.1;
      text = t.text;
      to_place = t.place;
      spanned = refl;
      reads =
          scan_or_end-reads source (seen ++ b.0) t.text lex.file_id num p p.rest refl b.1.1 t.place;
    }

-- A call of lexer_next with no token peeked at, from the place behind the text `seen`, skips blanks and takes a
-- text that make up, with `seen` and what is left, the source; the token has the file, line and column of the
-- first byte of that text and of the place behind it, and it is the end of the source with nothing left, an
-- error, or a token (of a kind that is no colon and no error) whose offset and text are exactly those bytes,
-- of which there is one at least.
pub lexer_next-Follows :
    (num : Numbers) (source seen : List ℕ) (lex : Lexer)
    → lex.has_peek ≡ false
    → IsPlace source seen lex.at
    → Follows source seen lex (lexer_next num lex)
lexer_next-Follows num source seen lex e h =
    subst (Follows source seen lex) (sym (lexer_next-fresh num lex e))
      (next_fresh-Follows num source seen lex h)

-- What a call adds to the diagnostics, by the token that it gives.
pub data Diagnoses (diag next : List (Span × LexError)) (tok : Token) : Type 0 where
  one_error :
      (e : LexError)
      → tok.kind ≡ tok_error
      → next ≡ diag ++ (tok.span, e) ∷ []
      → Diagnoses diag next tok
  no_error : same_kind tok.kind tok_error ≡ false → next ≡ diag → Diagnoses diag next tok

plain-error : (kind : TokenKind) → is_plain kind ≡ true → same_kind kind tok_error ≡ false
plain-error kind h = second (same_kind kind tok_colon) (same_kind kind tok_error) h
  where
    second : (a b : Bool) → (not a && not b) ≡ true → b ≡ false
    second true b h = absurd (cc h)
    second false true h = absurd (cc h)
    second false false h = refl

shaped-Diagnoses :
    (lex : Lexer) (p : Place) (s : Scanned)
    → Shaped p s
    → Diagnoses lex.diag (made lex p s).diag (made lex p s).current
unfolding made
shaped-Diagnoses lex p s (failed r e f) = one_error r e (rw f)
shaped-Diagnoses lex p s (shaped c f e l) = no_error (plain-error s.kind c) (rw f)

made-Diagnoses :
    (num : Numbers) (lex : Lexer) (p : Place) (xs : List ℕ)
    → Diagnoses lex.diag
        (made lex p (scan_or_end num p xs)).diag
        (made lex p (scan_or_end num p xs)).current
unfolding scan_or_end made
made-Diagnoses num lex p [] = no_error refl refl
made-Diagnoses num lex p (c ∷ cs) = shaped-Diagnoses lex p (scan num p) (scan-Shaped num p)

-- A call of lexer_next with no token peeked at reports exactly one error, with the token's span, where it gives
-- an error token, and where it gives any other token it reports nothing.
pub lexer_next-Diagnoses :
    (num : Numbers) (lex : Lexer)
    → lex.has_peek ≡ false
    → Diagnoses lex.diag (lexer_next num lex).diag (lexer_next num lex).current
unfolding next_fresh
lexer_next-Diagnoses num lex e =
    let p = skip_whitespace lex.at in
    subst (λ l. Diagnoses lex.diag l.diag l.current) (sym (lexer_next-fresh num lex e))
      (made-Diagnoses num lex p p.rest)
