-- ===== src/Buccaneer/Lexer/Shapes.antt =====
-- What the scanners of src/buccaneer/lexer.c make of the bytes they took: an error, or a token on those bytes.
use mutineer.Prelude.{
  if_split, ℕ, ◌-◌, Bool, true, false, ◌&&◌, ◌||◌, Option, none, some, List, [], ◌∷◌, ◌==◌,
  if◌then◌else◌, ◌≡◌, refl, sym, subst,
}
use mutineer.Buccaneer.Lexer.Kinds.{
  TokenKind, tok_date, tok_datetime, tok_error, KeywordEntry, keywords,
}
use mutineer.Buccaneer.Lexer.{
  Place, LexError, Literal, Numbers, peek_char, peek_char_n, advance, advance_n, is_ident_start,
  is_digit, is_hex_digit, lookup_in, lookup_keyword, same_letters,
}
use mutineer.Buccaneer.Lexer.Scan.{
  Scanned, token_to, scan_identifier, scan_exponent, scan_number, scan_hex, scan_string, expect_all,
  date_part, closed, dated, past_time, scan_date_or_datetime, scan_comment, scan_rem_comment,
  operator, operated, scan, string_rounds, past_sign, is_exponent, is_time, is_rem,
}
use mutineer.Buccaneer.Lexer.Moves.{
  is_plain, IsOperator, no_operator, one_operator, operator-IsOperator,
}

pub data Shaped (p : Place) (s : Scanned) : Type 0 where
  failed : (e : LexError) → s.kind ≡ tok_error → s.failure ≡ some e → Shaped p s
  shaped :
      is_plain s.kind ≡ true
      → s.failure ≡ none
      → s.start ≡ some p.pos
      → s.len ≡ s.behind.pos - p.pos
      → Shaped p s

token_to-Shaped :
    {kind : TokenKind} {value : Literal} {p q : Place}
    → is_plain kind ≡ true
    → Shaped p (token_to kind value p q)
token_to-Shaped h = shaped h refl refl refl

abbrev all_plain : List KeywordEntry → Bool
all_plain [] = true
all_plain (k ∷ ks) = is_plain k.kind && all_plain ks

lookup_in-plain :
    (ks : List KeywordEntry) (text : List ℕ)
    → all_plain ks ≡ true
    → is_plain (lookup_in ks text) ≡ true
unfolding lookup_in
lookup_in-plain [] text h = refl
lookup_in-plain (k ∷ ks) text h =
    if_split (λ kind. is_plain kind ≡ true) (same_letters text k.name) k.kind (lookup_in ks text)
      (λ t. here (is_plain k.kind) (all_plain ks) h)
      (λ t. lookup_in-plain ks text (there (is_plain k.kind) (all_plain ks) h))
  where
    here : (a b : Bool) → (a && b) ≡ true → a ≡ true
    here true b h = refl
    here false b h = absurd (cc h)

    there : (a b : Bool) → (a && b) ≡ true → b ≡ true
    there true b h = h
    there false b h = absurd (cc h)

scan_identifier-Shaped : (p : Place) → Shaped p (scan_identifier p)
unfolding scan_identifier lookup_keyword
scan_identifier-Shaped p = shaped (lookup_in-plain keywords _ refl) refl refl refl

scan_exponent-Shaped :
    (num : Numbers) (p q : Place) (is_double : Bool) → Shaped p (scan_exponent num p q is_double)
unfolding scan_exponent
scan_exponent-Shaped num p q is_double =
    let r = past_sign (advance q) in
    if_split (Shaped p) (is_exponent (peek_char q)) _ _
      (λ t.
        if_split (Shaped p) (is_digit (peek_char r)) _ _ (λ u. token_to-Shaped refl)
          (λ u. failed _ refl refl))
      (λ t.
        if_split (Shaped p) is_double _ _ (λ u. token_to-Shaped refl) (λ u. token_to-Shaped refl))

scan_number-Shaped : (num : Numbers) (p : Place) → Shaped p (scan_number num p)
unfolding scan_number
scan_number-Shaped num p = scan_exponent-Shaped num p _ _

scan_hex-Shaped : (num : Numbers) (p : Place) → Shaped p (scan_hex num p)
unfolding scan_hex
scan_hex-Shaped num p =
    if_split (Shaped p) (is_hex_digit (peek_char (advance (advance p)))) _ _
      (λ t. token_to-Shaped refl) (λ t. failed _ refl refl)

scan_string-Shaped : (p : Place) → Shaped p (scan_string p)
unfolding scan_string
scan_string-Shaped p =
    if_split (Shaped p)
      (peek_char (advance_n (string_rounds false (advance p).rest) (advance p)) == b'"') _ _
      (λ t. token_to-Shaped refl) (λ t. failed _ refl refl)

closed-Shaped :
    (kind : TokenKind) (p : Place) (r : Place × Option LexError)
    → is_plain kind ≡ true
    → Shaped p (closed kind p r)
closed-Shaped kind p (q, some e) h = failed _ refl refl
closed-Shaped kind p (q, none) h =
    if_split (Shaped p) (peek_char q == b'#') _ _ (λ t. token_to-Shaped h) (λ t. failed _ refl refl)

dated-Shaped : (p : Place) (r : Place × Option LexError) → Shaped p (dated p r)
dated-Shaped p (q, some e) = failed _ refl refl
dated-Shaped p (q, none) =
    closed-Shaped (if is_time (peek_char q) then tok_datetime else tok_date) p (past_time q) (
      if_split (λ kind. is_plain kind ≡ true) (is_time (peek_char q)) tok_datetime tok_date
        (λ t. refl) (λ t. refl))

operated-Shaped : (p : Place) (o : Option (TokenKind × ℕ)) → IsOperator o → Shaped p (operated p o)
operated-Shaped p o (no_operator e) =
    subst (λ o. Shaped p (operated p o)) (sym e) (failed _ refl refl)
operated-Shaped p o (one_operator kind n h e) =
    subst (λ o. Shaped p (operated p o)) (sym e) (shaped h refl refl refl)

-- Every scanner gives an error or a token on the bytes it took, which is no colon and no error.
pub scan-Shaped : (num : Numbers) (p : Place) → Shaped p (scan num p)
unfolding scan scan_comment scan_rem_comment scan_date_or_datetime
scan-Shaped num p =
    let c = peek_char p in
    let d = peek_char_n p 1 in
    if_split (Shaped p) (c == b'\n') _ _ (λ t. token_to-Shaped refl)
      (λ t.
        if_split (Shaped p) (c == b'\'') _ _ (λ t. token_to-Shaped refl)
          (λ t.
            if_split (Shaped p) (is_ident_start c) _ _
              (λ id.
                if_split (Shaped p) (is_rem p) _ _ (λ t. token_to-Shaped refl)
                  (λ t. scan_identifier-Shaped p))
              (λ t.
                if_split (Shaped p) (is_digit c || (c == b'-' && is_digit d)) _ _
                  (λ h. scan_number-Shaped num p)
                  (λ t.
                    if_split (Shaped p) (c == b'&' && (d == b'H' || d == b'h')) _ _
                      (λ t. scan_hex-Shaped num p)
                      (λ t.
                        if_split (Shaped p) (c == b'"') _ _ (λ t. scan_string-Shaped p)
                          (λ t.
                            if_split (Shaped p) (c == b'#') _ _
                              (λ t.
                                if_split (Shaped p) (is_digit d) _ _
                                  (λ t. dated-Shaped p (expect_all date_part (advance p)))
                                  (λ t. token_to-Shaped refl))
                              (λ t.
                                operated-Shaped p (operator c d) (operator-IsOperator c d))))))))
