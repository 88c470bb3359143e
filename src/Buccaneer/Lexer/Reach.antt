-- ===== src/Buccaneer/Lexer/Reach.antt =====
-- Every lexer that the calls of src/buccaneer/lexer.c can make from a source, and the peeked token.
use mutineer.Prelude.{
  if_split, ℕ, zero, suc, Bool, true, false, Bool-cases, not, ◌&&◌, Option, some, List, [], ◌++◌,
  ◌≡◌, refl, ap, ◌∙◌, subst, inl, inr, if◌then◌else◌,
}
use mutineer.Buccaneer.Lexer.Kinds.{
  TokenKind, same_kind, tok_eof, tok_error, tok_colon, tok_newline, tok_comment,
}
use mutineer.Buccaneer.Lexer.{Place, Token, Lexer, Numbers, lexer_init, blank_token}
use mutineer.Buccaneer.Lexer.Next.{
  span_of, next_fresh, made, lexer_next, lexer_peek, lexer_match, is_line_end, skip_newlines,
  expect_newline,
}
use mutineer.Buccaneer.Lexer.Moves.{is_plain}
use mutineer.Buccaneer.Lexer.Places.{IsPlace}
use mutineer.Buccaneer.Lexer.Spans.{ReadsAs, at_end, an_error, a_token, Follows, next_fresh-Follows}

-- The lexers that a caller can have on a source.
pub data Reached (num : Numbers) (source : List ℕ) (file_id : ℕ) : Lexer → Type 0 where
  begun : Reached num source file_id (lexer_init source file_id)
  by_next :
      {lex : Lexer}
      → Reached num source file_id lex
      → Reached num source file_id (lexer_next num lex)
  by_peek :
      {lex : Lexer}
      → Reached num source file_id lex
      → Reached num source file_id (lexer_peek num lex)
  by_match :
      {lex : Lexer} (kind : TokenKind)
      → Reached num source file_id lex
      → Reached num source file_id (lexer_match num lex kind).1
  by_expect :
      {lex : Lexer}
      → Reached num source file_id lex
      → Reached num source file_id (expect_newline num lex).1
  by_skip :
      {lex last : Lexer} (fuel : ℕ)
      → Reached num source file_id lex
      → skip_newlines num fuel lex ≡ some last
      → Reached num source file_id last

-- A token of a lexer: what memset left, or a token behind a text of the source, spanned by its places.
pub data IsToken (source : List ℕ) (file_id : ℕ) (tok : Token) : Type 0 where
  not_yet : tok ≡ blank_token → IsToken source file_id tok
  found :
      (before text : List ℕ) (from to : Place)
      → IsPlace source before from
      → IsPlace source (before ++ text) to
      → tok.span ≡ span_of file_id from to
      → ReadsAs source before text to.rest tok
      → IsToken source file_id tok

pub record IsLexer (source : List ℕ) (file_id : ℕ) (lex : Lexer) : Type 0 where
  pub seen : List ℕ
  pub place : IsPlace source seen lex.at
  pub file : lex.file_id ≡ file_id
  pub current_token : IsToken source file_id lex.current
  pub peeked_token : IsToken source file_id lex.peeked

init-IsLexer : (source : List ℕ) (file_id : ℕ) → IsLexer source file_id (lexer_init source file_id)
unfolding lexer_init
init-IsLexer source file_id = record {
  seen = [];
  place = record { splits = refl; offset = refl; row = refl; column = refl };
  file = refl;
  current_token = not_yet refl;
  peeked_token = not_yet refl;
}

Follows-IsToken :
    (source seen : List ℕ) (file_id : ℕ) (lex next : Lexer)
    → lex.file_id ≡ file_id
    → Follows source seen lex next
    → IsToken source file_id next.current
Follows-IsToken source seen file_id lex next e f =
    found (seen ++ f.blanks) f.text f.from next.at f.from_place f.to_place
      (f.spanned ∙ ap (λ i. span_of i f.from next.at) e) f.reads

next_fresh-IsLexer :
    (num : Numbers) (source : List ℕ) (file_id : ℕ) (lex : Lexer)
    → IsLexer source file_id lex
    → IsLexer source file_id (next_fresh num lex)
unfolding next_fresh made
next_fresh-IsLexer num source file_id lex h =
    let f = next_fresh-Follows num source h.seen lex h.place in
    record {
      seen = (h.seen ++ f.blanks) ++ f.text;
      place = f.to_place;
      file = h.file;
      current_token = Follows-IsToken source h.seen file_id lex (next_fresh num lex) h.file f;
      peeked_token = h.peeked_token;
    }

next-IsLexer :
    (num : Numbers) (source : List ℕ) (file_id : ℕ) (lex : Lexer)
    → IsLexer source file_id lex
    → IsLexer source file_id (lexer_next num lex)
unfolding lexer_next
next-IsLexer num source file_id lex h =
    if_split (IsLexer source file_id) lex.has_peek _ _
      (λ t. record {
        seen = h.seen;
        place = h.place;
        file = h.file;
        current_token = h.peeked_token;
        peeked_token = h.peeked_token;
      })
      (λ t. next_fresh-IsLexer num source file_id lex h)

peek-IsLexer :
    (num : Numbers) (source : List ℕ) (file_id : ℕ) (lex : Lexer)
    → IsLexer source file_id lex
    → IsLexer source file_id (lexer_peek num lex)
unfolding lexer_peek
peek-IsLexer num source file_id lex h =
    let n = next-IsLexer num source file_id lex h in
    if_split (IsLexer source file_id) lex.has_peek _ _ (λ t. h)
      (λ t. record {
        seen = n.seen;
        place = n.place;
        file = n.file;
        current_token = h.current_token;
        peeked_token = n.current_token;
      })

match-IsLexer :
    (num : Numbers) (source : List ℕ) (file_id : ℕ) (lex : Lexer) (kind : TokenKind)
    → IsLexer source file_id lex
    → IsLexer source file_id (lexer_match num lex kind).1
unfolding lexer_match
match-IsLexer num source file_id lex kind h =
    if_split (λ (r : Bool × Lexer). IsLexer source file_id r.1) (same_kind lex.current.kind kind) _
      _ (λ t. next-IsLexer num source file_id lex h) (λ t. h)

expect-IsLexer :
    (num : Numbers) (source : List ℕ) (file_id : ℕ) (lex : Lexer)
    → IsLexer source file_id lex
    → IsLexer source file_id (expect_newline num lex).1
unfolding expect_newline
expect-IsLexer num source file_id lex h =
    let P : Bool × Lexer → Type 0 = λ r. IsLexer source file_id r.1 in
    let next = lexer_next num lex in
    let n = next-IsLexer num source file_id lex h in
    if_split P (same_kind lex.current.kind tok_newline) _ _ (λ t. n)
      (λ t.
        if_split P (same_kind lex.current.kind tok_eof) _ _ (λ t. h)
          (λ t.
            if_split P (same_kind lex.current.kind tok_comment) _ _
              (λ t.
                if_split (IsLexer source file_id) (same_kind next.current.kind tok_newline) _ _
                  (λ t. next-IsLexer num source file_id next n) (λ t. n))
              (λ t. record {
                seen = h.seen;
                place = h.place;
                file = h.file;
                current_token = h.current_token;
                peeked_token = h.peeked_token;
              })))

skip-IsLexer :
    (num : Numbers) (source : List ℕ) (file_id fuel : ℕ) (lex last : Lexer)
    → IsLexer source file_id lex
    → skip_newlines num fuel lex ≡ some last
    → IsLexer source file_id last
unfolding skip_newlines
skip-IsLexer num source file_id zero lex last h e = absurd (cc e)
skip-IsLexer num source file_id (suc fuel) lex last h e =
    or_here lex last (is_line_end lex.current.kind)
      (λ d.
        skip-IsLexer num source file_id fuel (lexer_next num lex) last
          (next-IsLexer num source file_id lex h) d)
      h e
  where
    or_here :
        {rest : Option Lexer} (lex last : Lexer) (b : Bool)
        → (rest ≡ some last → IsLexer source file_id last)
        → IsLexer source file_id lex
        → (if b then rest else some lex) ≡ some last
        → IsLexer source file_id last
    or_here lex last true f h e = f e
    or_here lex last false f h e = subst (IsLexer source file_id) (cc e) h

-- Whatever calls were made on the source, the lexer stands behind a text that the source begins with, at that
-- text's offset, line and column, and each of the current and the peeked token is blank as memset left it or a
-- token, an error or the end that stands behind a text of the source, with the file, lines and columns of
-- its two places and, for a token, the offset and the bytes of its text.
pub Reached-IsLexer :
    {source : List ℕ} {file_id : ℕ} (num : Numbers) (lex : Lexer)
    → Reached num source file_id lex
    → IsLexer source file_id lex
Reached-IsLexer num _ begun = init-IsLexer _ _
Reached-IsLexer num _ (by_next {lex = lex} r) = next-IsLexer num _ _ lex (Reached-IsLexer num lex r)
Reached-IsLexer num _ (by_peek {lex = lex} r) = peek-IsLexer num _ _ lex (Reached-IsLexer num lex r)
Reached-IsLexer num _ (by_match {lex = lex} kind r) =
    match-IsLexer num _ _ lex kind (Reached-IsLexer num lex r)
Reached-IsLexer num _ (by_expect {lex = lex} r) =
    expect-IsLexer num _ _ lex (Reached-IsLexer num lex r)
Reached-IsLexer num last (by_skip {lex = lex} fuel r e) =
    skip-IsLexer num _ _ fuel lex last (Reached-IsLexer num lex r) e

plain-colon : (kind : TokenKind) → is_plain kind ≡ true → same_kind kind tok_colon ≡ false
plain-colon kind h = first (same_kind kind tok_colon) (same_kind kind tok_error) h
  where
    first : (a b : Bool) → (not a && not b) ≡ true → a ≡ false
    first true b h = absurd (cc h)
    first false b h = refl

IsToken-colon :
    (source : List ℕ) (file_id : ℕ) (tok : Token)
    → IsToken source file_id tok
    → same_kind tok.kind tok_colon ≡ false
IsToken-colon source file_id tok (not_yet e) = rw e
IsToken-colon source file_id tok (found before text from to f t s (at_end e x r)) = rw e
IsToken-colon source file_id tok (found before text from to f t s (an_error e)) = rw e
IsToken-colon source file_id tok (found before text from to f t s (a_token c e x n)) =
    plain-colon tok.kind c

-- No lexer, whatever calls were made on its source, has TOK_COLON as its current or its peeked token.
pub never_colon :
    {source : List ℕ} {file_id : ℕ} (num : Numbers) (lex : Lexer)
    → Reached num source file_id lex
    → (same_kind lex.current.kind tok_colon ≡ false) × (same_kind lex.peeked.kind tok_colon ≡ false)
never_colon num lex r =
    let h = Reached-IsLexer num lex r in
    (IsToken-colon _ _ lex.current h.current_token, IsToken-colon _ _ lex.peeked h.peeked_token)

-- What looking ahead leaves: the token, and then the call that takes it.
pub record LooksAhead (num : Numbers) (lex peeking : Lexer) : Type 0 where
  pub same_current : peeking.current ≡ lex.current
  pub holds : peeking.has_peek ≡ true
  pub again : lexer_peek num peeking ≡ peeking
  pub next_current : peeking.peeked ≡ (lexer_next num lex).current
  pub next_token : (lexer_next num peeking).current ≡ (lexer_next num lex).current
  pub next_place : (lexer_next num peeking).at ≡ (lexer_next num lex).at
  pub next_diag : (lexer_next num peeking).diag ≡ (lexer_next num lex).diag
  pub next_has_none : (lexer_next num peeking).has_peek ≡ (lexer_next num lex).has_peek

-- Looking at the next token keeps the current one, is the same when done twice, and gives the token of the
-- call of lexer_next that it stands for; that call then leaves the same token, place and diagnostics as
-- without looking first, and no token peeked at.
pub lexer_peek-LooksAhead : (num : Numbers) (lex : Lexer) → LooksAhead num lex (lexer_peek num lex)
unfolding lexer_peek lexer_next next_fresh made
lexer_peek-LooksAhead num lex = elim (Bool-cases lex.has_peek) [
  | inl t ↦ rw t (record {
    same_current = refl;
    holds = refl;
    again = refl;
    next_current = refl;
    next_token = refl;
    next_place = refl;
    next_diag = refl;
    next_has_none = refl;
  })
  | inr t ↦ rw t (record {
    same_current = refl;
    holds = refl;
    again = refl;
    next_current = refl;
    next_token = refl;
    next_place = refl;
    next_diag = refl;
    next_has_none = refl;
  })
]
