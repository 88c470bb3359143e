-- ===== src/Process/Quoting.antt =====
-- Arguments written with a backslash before each byte, and read back by src/process.c.
use mutineer.Prelude.{
  ℕ, zero, suc, ◌+◌, ◌≤◌, ◌<◌, ◌≡◌, ◌∙◌, refl, inr, true, false, none, some, List, [], ◌∷◌, ◌++◌,
  length, leb, length-append, arith,
}
use mutineer.Process.{
  at_end, command_contains_shell_meta, bad_byte, move, read_token, ended, skip_spaces, args_from,
  argv_parse_template, argv_parse_door_template,
}
use mutineer.Process.Fuel.{all_short}

unfoldable pub escaped : List ℕ → List ℕ
escaped [] = []
escaped (c ∷ cs) = b'\\' ∷ c ∷ escaped cs

-- An empty argument is a pair of quotes.
unfoldable pub quoted : List ℕ → List ℕ
quoted [] = b'\'' ∷ b'\'' ∷ []
quoted (c ∷ cs) = escaped (c ∷ cs)

-- The arguments behind the first, each behind a space.
unfoldable pub spaced : List (List ℕ) → List ℕ
spaced [] = []
spaced (a ∷ args) = b' ' ∷ quoted a ++ spaced args

unfoldable pub command_line : List ℕ → List (List ℕ) → List ℕ
command_line a args = quoted a ++ spaced args

escaped-meta :
    (a rest : List ℕ)
    → command_contains_shell_meta false (escaped a ++ rest) ≡ command_contains_shell_meta false rest
unfolding escaped command_contains_shell_meta
escaped-meta [] rest = refl
escaped-meta (c ∷ cs) rest = escaped-meta cs rest

quoted-meta :
    (a rest : List ℕ)
    → command_contains_shell_meta false (quoted a ++ rest) ≡ command_contains_shell_meta false rest
unfolding quoted command_contains_shell_meta bad_byte
quoted-meta [] rest = refl
quoted-meta (c ∷ cs) rest = escaped-meta (c ∷ cs) rest

spaced-meta : (args : List (List ℕ)) → command_contains_shell_meta false (spaced args) ≡ none
unfolding spaced command_contains_shell_meta bad_byte
spaced-meta [] = refl
spaced-meta (a ∷ args) = quoted-meta a (spaced args) ∙ spaced-meta args

-- The loop over a token stops at the end of the line and at a space.
spaced_stop :
    (len : ℕ) (args : List (List ℕ))
    → read_token false none len (spaced args) ≡ ended none [] (spaced args)
unfolding spaced read_token move
spaced_stop len [] = refl
spaced_stop len (a ∷ args) = refl

escaped-read :
    (a : List ℕ) (args : List (List ℕ)) (len : ℕ)
    → len + length a ≤ 1023
    → read_token false none len (escaped a ++ spaced args) ≡ ended none a (spaced args)
unfolding escaped read_token move
escaped-read [] args len h = spaced_stop len args
escaped-read (c ∷ cs) args len h =
    let room : leb 1024 (len + 1) ≡ false = ground arith in
    rw (room, escaped-read cs args (suc len) (omega arith)) refl

quoted-read :
    (a : List ℕ) (args : List (List ℕ))
    → leb (length a) 1023 ≡ true
    → read_token false none 0 (quoted a ++ spaced args) ≡ ended none a (spaced args)
unfolding quoted read_token move
quoted-read [] args h = spaced_stop 0 args
quoted-read (c ∷ cs) args h = escaped-read (c ∷ cs) args 0 (ground arith)

quoted-start : (a rest : List ℕ) → skip_spaces (quoted a ++ rest) ≡ quoted a ++ rest
unfolding quoted escaped skip_spaces
quoted-start [] rest = refl
quoted-start (c ∷ cs) rest = refl

quoted-length : (a rest : List ℕ) → suc (length rest) ≤ length (quoted a ++ rest)
unfolding quoted escaped
quoted-length [] rest = omega arith
quoted-length (c ∷ cs) rest = omega (arith, length-append (escaped cs) rest)

quoted-more : (a rest : List ℕ) → at_end (quoted a ++ rest) ≡ false
unfolding quoted escaped
quoted-more [] rest = refl
quoted-more (c ∷ cs) rest = refl

-- A round of the loop in front of a quoted argument.
args_from-quoted :
    (fuel k : ℕ) (a : List ℕ) (args : List (List ℕ))
    → leb (length a) 1023 ≡ true
    → args_from fuel k none (spaced args) ≡ some (inr (false, args))
    → args_from (suc fuel) k none (quoted a ++ spaced args) ≡ some (inr (false, a ∷ args))
unfolding args_from
args_from-quoted fuel k a args h rest =
    rw (quoted-start a (spaced args), quoted-more a (spaced args), quoted-read a args h, rest) refl

args_from-spaced :
    (fuel k : ℕ) (args : List (List ℕ))
    → length (spaced args) < fuel
    → all_short args ≡ true
    → args_from fuel k none (spaced args) ≡ some (inr (false, args))
unfolding args_from spaced skip_spaces
args_from-spaced zero k args h s = absurd (omega arith)
args_from-spaced (suc fuel) k [] h s = refl
args_from-spaced (suc fuel) k (a ∷ args) h s =
    let sizes = quoted-length a (spaced args) in
    args_from-quoted fuel k a args (ground (arith, s))
      (args_from-spaced fuel k args (omega (arith, sizes)) (ground (arith, s)))

-- Any arguments of at most 1023 bytes, written with a backslash before each byte, an empty one as
-- two quotes, and with a space between them, are read back as they were, whichever bytes they
-- hold, by both parsers without a file or directory; a step of fuel for each byte of the command
-- line and one more is enough.
pub argv_parse-command_line :
    (fuel : ℕ) (a : List ℕ) (args : List (List ℕ))
    → all_short (a ∷ args) ≡ true
    → length (command_line a args) < fuel
    → (argv_parse_template fuel (command_line a args) none ≡ some (inr (a ∷ args)))
      × (argv_parse_door_template fuel (command_line a args) none ≡ some (inr (a ∷ args)))
unfolding argv_parse_template argv_parse_door_template command_line
argv_parse-command_line zero a args s h = absurd (omega arith)
argv_parse-command_line (suc fuel) a args s h =
    let short : leb (length a) 1023 ≡ true = ground (arith, s) in
    let sizes = quoted-length a (spaced args) in
    let loop = λ (k : ℕ).
      args_from-quoted fuel k a args short
        (args_from-spaced fuel k args (omega (arith, sizes)) (ground (arith, s))) in
    let clean = quoted-meta a (spaced args) ∙ spaced-meta args in
    let some_byte = quoted-more a (spaced args) in
    (rw (some_byte, clean, loop b'f') refl, rw (some_byte, clean, loop b'D') refl)
