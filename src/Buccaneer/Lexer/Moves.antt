-- ===== src/Buccaneer/Lexer/Moves.antt =====
-- That the scanners of src/buccaneer/lexer.c only advance, and by at least one byte.
use mutineer.Prelude.{
  ℕ, zero, suc, ◌+◌, Bool, true, false, not, ◌&&◌, ◌||◌, Option, none, some, List, [], ◌∷◌, ◌==◌,
  if◌then◌else◌, if_split, get_or, ◌≡◌, refl, sym, ap, ◌∙◌, subst, arith, ◌≢◌,
}
use mutineer.Buccaneer.Lexer.{
  Place, LexError, Numbers, peek_char, peek_char_n, advance, advance_n, count_while, advance_while,
  is_ident_start, is_digit, is_ident_char, is_hex_digit,
}
use mutineer.Buccaneer.Lexer.Kinds.{
  TokenKind, same_kind, tok_colon, tok_error, tok_date, tok_datetime, tok_ne, tok_le, tok_lt,
  tok_ge, tok_gt, tok_lparen, tok_rparen, tok_lbracket, tok_rbracket, tok_lbrace, tok_rbrace,
  tok_comma, tok_dot, tok_plus, tok_minus, tok_star, tok_slash, tok_eq,
}
use mutineer.Buccaneer.Lexer.Scan.{
  Scanned, scan_identifier, scan_exponent, scan_number, scan_hex, scan_string, Expect, fits,
  error_of, expect_all, date_part, time_part, closed, dated, past_time, scan_date_or_datetime,
  scan_comment, scan_rem_comment, operator, operated, scan, string_rounds, past_fraction, past_sign,
  is_exponent, has_fraction, is_time, is_rem,
}

pub data Moves (p q : Place) : Type 0 where
  moves : (k : ℕ) → q ≡ advance_n k p → Moves p q

-- By one byte or more.
abbrev pub Reads : Place → Place → Type 0
Reads p q = Moves (advance p) q

pub advance_n_add : (j k : ℕ) (p : Place) → advance_n (j + k) p ≡ advance_n k (advance_n j p)
unfolding advance_n
advance_n_add zero k p = let e : zero + k ≡ k = omega arith in ap (λ i. advance_n i p) e
advance_n_add (suc j) k p =
    let e : suc j + k ≡ suc (j + k) = omega arith in
    ap (λ i. advance_n i p) e ∙ advance_n_add j k (advance p)

pub Moves-refl : (p : Place) → Moves p p
unfolding advance_n
Moves-refl p = moves 0 refl

pub Moves-trans : {p q r : Place} → Moves p q → Moves q r → Moves p r
Moves-trans {p = p} (moves j e) (moves k d) =
    moves (j + k) (d ∙ ap (advance_n k) e ∙ sym (advance_n_add j k p))

pub advance_n-Moves : (k : ℕ) (p : Place) → Moves p (advance_n k p)
advance_n-Moves k p = moves k refl

pub Reads-Moves : {p q : Place} → Reads p q → Moves p q
unfolding advance_n
Reads-Moves (moves k e) = moves (suc k) e

pub if-Moves : {p q r : Place} (b : Bool) → Moves p q → Moves p r → Moves p (if b then q else r)
if-Moves true m n = m
if-Moves false m n = n

clash : false ≢ true
clash h = absurd (cc h)

count_taken :
    (f : ℕ → Bool) (xs : List ℕ)
    → f 0 ≡ false
    → f (get_or xs 0 0) ≡ true
    → (n : ℕ) × (count_while f xs ≡ suc n)
unfolding count_while
count_taken f [] z h = absurd (clash (sym z ∙ h))
count_taken f (c ∷ cs) z h = (count_while f cs, rw h)

-- A loop whose first byte passes reads.
pub advance_while-Reads :
    (f : ℕ → Bool) (p : Place) → f 0 ≡ false → f (peek_char p) ≡ true → Reads p (advance_while f p)
unfolding advance_n
advance_while-Reads f p z h =
    let c = count_taken f p.rest z h in moves c.0 (ap (λ k. advance_n k p) c.1)

pub advance_while-Moves : (f : ℕ → Bool) (p : Place) → Moves p (advance_while f p)
advance_while-Moves f p = advance_n-Moves (count_while f p.rest) p

expect_all-Moves : (xs : List Expect) (p : Place) → Moves p (expect_all xs p).0
unfolding expect_all
expect_all-Moves [] p = Moves-refl p
expect_all-Moves (x ∷ xs) p =
    if_split (λ r. Moves p r.0) (fits x (peek_char p)) (expect_all xs (advance p))
      (p, some (error_of x)) (λ t. Reads-Moves (expect_all-Moves xs (advance p)))
      (λ t. Moves-refl p)

scan_identifier-Reads :
    (p : Place) → is_ident_start (peek_char p) ≡ true → Reads p (scan_identifier p).behind
unfolding scan_identifier
scan_identifier-Reads p h = advance_while-Reads is_ident_char p refl (rw h)

past_fraction-Moves : (p : Place) → Moves p (past_fraction p)
past_fraction-Moves p =
    if-Moves (has_fraction p) (Reads-Moves (advance_while-Moves is_digit (advance p)))
      (Moves-refl p)

past_sign-Moves : (p : Place) → Moves p (past_sign p)
past_sign-Moves p = if-Moves _ (Reads-Moves (Moves-refl (advance p))) (Moves-refl p)

scan_exponent-Moves :
    (num : Numbers) (p q : Place) (is_double : Bool)
    → Moves q (scan_exponent num p q is_double).behind
unfolding scan_exponent
scan_exponent-Moves num p q is_double =
    let r = past_sign (advance q) in
    let m : Moves q r = Reads-Moves (past_sign-Moves (advance q)) in
    if_split (λ (s : Scanned). Moves q s.behind) (is_exponent (peek_char q)) _ _
      (λ t.
        if_split (λ (s : Scanned). Moves q s.behind) (is_digit (peek_char r)) _ _
          (λ u. Moves-trans m (advance_while-Moves is_digit r)) (λ u. m))
      (λ t.
        if_split (λ (s : Scanned). Moves q s.behind) is_double _ _ (λ u. Moves-refl q)
          (λ u. Moves-refl q))

-- A number begins with a digit, or with a minus and a digit.
scan_number-Reads :
    (num : Numbers) (p : Place)
    → (is_digit (peek_char p) || (peek_char p == b'-' && is_digit (peek_char_n p 1))) ≡ true
    → Reads p (scan_number num p).behind
unfolding scan_number
scan_number-Reads num p h =
    let q = advance_while is_digit (if peek_char p == b'-' then advance p else p) in
    let m : Reads p q =
      if_split (λ r. Reads p (advance_while is_digit r)) (peek_char p == b'-') (advance p) p
        (λ t. advance_while-Moves is_digit (advance p))
        (λ t. advance_while-Reads is_digit p refl (digit_first (is_digit (peek_char p)) _ _ t h)) in
    Moves-trans m (
      Moves-trans (past_fraction-Moves q)
        (scan_exponent-Moves num p (past_fraction q) (has_fraction q)))
  where
    digit_first : (a b c : Bool) → b ≡ false → (a || (b && c)) ≡ true → a ≡ true
    digit_first true b c e h = refl
    digit_first false true c e h = absurd (cc e)
    digit_first false false c e h = absurd (cc h)

scan_hex-Reads : (num : Numbers) (p : Place) → Reads p (scan_hex num p).behind
unfolding scan_hex
scan_hex-Reads num p =
    let q = advance (advance p) in
    let m : Reads p q = Reads-Moves (Moves-refl q) in
    if_split (λ (s : Scanned). Reads p s.behind) (is_hex_digit (peek_char q)) _ _
      (λ t. Moves-trans m (advance_while-Moves is_hex_digit q)) (λ t. m)

scan_string-Reads : (p : Place) → Reads p (scan_string p).behind
unfolding scan_string
scan_string-Reads p =
    let q = advance_n (string_rounds false (advance p).rest) (advance p) in
    let m : Reads p q = advance_n-Moves (string_rounds false (advance p).rest) (advance p) in
    if_split (λ (s : Scanned). Reads p s.behind) (peek_char q == b'"') _ _
      (λ t. Moves-trans m (Reads-Moves (Moves-refl (advance q)))) (λ t. m)

closed-Moves :
    (kind : TokenKind) (p q : Place) (e : Option LexError) → Moves q (closed kind p (q, e)).behind
closed-Moves kind p q (some e) = Moves-refl q
closed-Moves kind p q none =
    if_split (λ (s : Scanned). Moves q s.behind) (peek_char q == b'#') _ _
      (λ t. Reads-Moves (Moves-refl (advance q))) (λ t. Moves-refl q)

past_time-Moves : (p : Place) → Moves p (past_time p).0
past_time-Moves p =
    if_split (λ r. Moves p r.0) (is_time (peek_char p)) (expect_all time_part (advance p)) (p, none)
      (λ t. Reads-Moves (expect_all-Moves time_part (advance p))) (λ t. Moves-refl p)

dated-Moves : (p q : Place) (e : Option LexError) → Moves q (dated p (q, e)).behind
dated-Moves p q (some e) = Moves-refl q
dated-Moves p q none = Moves-trans (past_time-Moves q) (
    closed-Moves (if is_time (peek_char q) then tok_datetime else tok_date) p (past_time q).0
      (past_time q).1)

scan_date_or_datetime-Reads : (p : Place) → Reads p (scan_date_or_datetime p).behind
unfolding scan_date_or_datetime
scan_date_or_datetime-Reads p =
    let r = expect_all date_part (advance p) in
    Moves-trans (expect_all-Moves date_part (advance p)) (dated-Moves p r.0 r.1)

abbrev pub is_plain : TokenKind → Bool
is_plain kind = not (same_kind kind tok_colon) && not (same_kind kind tok_error)

-- An operator that is found has a byte, and is no colon and no error.
pub data IsOperator (o : Option (TokenKind × ℕ)) : Type 0 where
  no_operator : o ≡ none → IsOperator o
  one_operator :
      (kind : TokenKind) (n : ℕ) → is_plain kind ≡ true → o ≡ some (kind, suc n) → IsOperator o

has_if :
    {x y : Option (TokenKind × ℕ)} (b : Bool)
    → IsOperator x
    → IsOperator y
    → IsOperator (if b then x else y)
has_if true f g = f
has_if false f g = g

pub operator-IsOperator : (c d : ℕ) → IsOperator (operator c d)
unfolding operator
operator-IsOperator c d = has_if (c == b'(') (one_operator tok_lparen 0 refl refl) (
    has_if (c == b')') (one_operator tok_rparen 0 refl refl) (
      has_if (c == b'[') (one_operator tok_lbracket 0 refl refl) (
        has_if (c == b']') (one_operator tok_rbracket 0 refl refl) (
          has_if (c == b'{') (one_operator tok_lbrace 0 refl refl) (
            has_if (c == b'}') (one_operator tok_rbrace 0 refl refl) (
              has_if (c == b',') (one_operator tok_comma 0 refl refl) (
                has_if (c == b'.') (one_operator tok_dot 0 refl refl) (
                  has_if (c == b'+') (one_operator tok_plus 0 refl refl) (
                    has_if (c == b'-') (one_operator tok_minus 0 refl refl) (
                      has_if (c == b'*') (one_operator tok_star 0 refl refl) (
                        has_if (c == b'/') (one_operator tok_slash 0 refl refl) (
                          has_if (c == b'=') (one_operator tok_eq 0 refl refl) (
                            has_if (c == b'<')
                              (has_if (d == b'>') (one_operator tok_ne 1 refl refl) (
                                has_if (d == b'=') (one_operator tok_le 1 refl refl)
                                  (one_operator tok_lt 0 refl refl)))
                              (has_if (c == b'>')
                                (has_if (d == b'=') (one_operator tok_ge 1 refl refl)
                                  (one_operator tok_gt 0 refl refl))
                                (no_operator refl)))))))))))))))

operated-Reads :
    (p : Place) (o : Option (TokenKind × ℕ)) → IsOperator o → Reads p (operated p o).behind
unfolding advance_n
operated-Reads p o (no_operator e) =
    subst (λ o. Reads p (operated p o).behind) (sym e) (Moves-refl (advance p))
operated-Reads p o (one_operator kind n h e) =
    subst (λ o. Reads p (operated p o).behind) (sym e) (advance_n-Moves n (advance p))

scan_comment-Reads : (p : Place) → Reads p (scan_comment p).behind
unfolding scan_comment
scan_comment-Reads p = advance_while-Moves _ (advance p)

scan_rem_comment-Reads : (p : Place) → Reads p (scan_rem_comment p).behind
unfolding scan_rem_comment advance_n
scan_rem_comment-Reads p =
    Moves-trans (advance_n-Moves 2 (advance p)) (advance_while-Moves _ (advance_n 3 p))

-- Every scanner takes at least the byte it is called on.
pub scan-Reads : (num : Numbers) (p : Place) → Reads p (scan num p).behind
unfolding scan
scan-Reads num p =
    let c = peek_char p in
    let d = peek_char_n p 1 in
    let P : Scanned → Type 0 = λ s. Reads p s.behind in
    let one : Reads p (advance p) = Moves-refl (advance p) in
    if_split P (c == b'\n') _ _ (λ t. one)
      (λ t.
        if_split P (c == b'\'') _ _ (λ t. scan_comment-Reads p)
          (λ t.
            if_split P (is_ident_start c) _ _
              (λ id.
                if_split P (is_rem p) _ _ (λ t. scan_rem_comment-Reads p)
                  (λ t. scan_identifier-Reads p id))
              (λ t.
                if_split P (is_digit c || (c == b'-' && is_digit d)) _ _
                  (λ h. scan_number-Reads num p h)
                  (λ t.
                    if_split P (c == b'&' && (d == b'H' || d == b'h')) _ _
                      (λ t. scan_hex-Reads num p)
                      (λ t.
                        if_split P (c == b'"') _ _ (λ t. scan_string-Reads p)
                          (λ t.
                            if_split P (c == b'#') _ _
                              (λ t.
                                if_split P (is_digit d) _ _ (λ t. scan_date_or_datetime-Reads p)
                                  (λ t. one))
                              (λ t. operated-Reads p (operator c d) (operator-IsOperator c d))))))))
