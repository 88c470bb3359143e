-- ===== src/Process/Fuel.antt =====
-- The parser of command lines of src/process.c ends, and what it then answers.
use mutineer.Prelude.{
  ℕ, zero, suc, ◌+◌, ◌≤◌, ◌<◌, ◌≡◌, ◌⊎◌, subst, refl, inl, inr, Bool, true, false, ◌&&◌, Option,
  none, some, List, [], ◌∷◌, ◌++◌, length, leb, if◌then◌else◌, Bool-cases, Option-cases, arith,
}
use mutineer.Process.{
  isspace, Refusal, empty_command, Move, stops, opens, closes, escapes, literal, move, is_escape,
  quote_behind, len_behind, Reading, too_long, ended, moved, read_token, skip_spaces, text_behind,
  Args, argv_push, after_token, args_from, Argv, not_empty, with_file, plain, checked,
  command_contains_shell_meta, argv_parse_template, argv_parse_door_template,
}

moved-length :
    (m : Move) (quote : Option ℕ) (len c : ℕ) (cs : List ℕ) (rest : Reading)
    → length (text_behind rest) ≤ length cs
    → length (text_behind (moved m quote len c cs rest)) ≤ suc (length cs)
moved-length stops quote len c cs rest h = omega arith
moved-length literal quote len c cs too_long h = ground arith
moved-length literal quote len c cs (ended q token r) h = ground arith
moved-length opens quote len c cs rest h = omega arith
moved-length closes quote len c cs rest h = omega arith
moved-length escapes quote len c cs rest h = omega arith

read_token-length :
    (escaped : Bool) (quote : Option ℕ) (len : ℕ) (s : List ℕ)
    → length (text_behind (read_token escaped quote len s)) ≤ length s
unfolding read_token
read_token-length escaped quote len [] = omega arith
read_token-length escaped quote len (c ∷ cs) =
    let m = move escaped quote c cs in
    moved-length m quote len c cs
      (read_token (is_escape m) (quote_behind m quote c) (len_behind m len) cs)
      (read_token-length (is_escape m) (quote_behind m quote c) (len_behind m len) cs)

-- A token takes its first byte.
token_moves :
    (c : ℕ) (cs : List ℕ)
    → isspace c ≡ false
    → length (text_behind (read_token false none 0 (c ∷ cs))) < length (c ∷ cs)
unfolding read_token move
token_moves c cs h = ground (
  arith,
  read_token-length false (some c) 0 cs,
  read_token-length true none 0 cs,
  read_token-length false none 1 cs,
)

skip_spaces-length : (s : List ℕ) → length (skip_spaces s) ≤ length s
unfolding skip_spaces
skip_spaces-length [] = omega arith
skip_spaces-length (c ∷ cs) = ground (arith, skip_spaces-length cs)

skip_spaces-start :
    (s : List ℕ)
    → (skip_spaces s ≡ [])
      ⊎ ((c : ℕ) × (cs : List ℕ) × (skip_spaces s ≡ c ∷ cs) × (isspace c ≡ false))
unfolding skip_spaces
skip_spaces-start [] = inl refl
skip_spaces-start (c ∷ cs) = elim (Bool-cases (isspace c)) [
  | inl t ↦ rw t (skip_spaces-start cs)
  | inr t ↦ inr (c, cs, rw t refl, t)
]

-- The tokens of a length below 1024.
abbrev pub all_short : List (List ℕ) → Bool
all_short [] = true
all_short (a ∷ args) = leb (length a) 1023 && all_short args

abbrev fits : ℕ → Reading → Bool
fits len too_long = true
fits len (ended quote token rest) = leb (len + length token) 1023

moved-fits :
    (m : Move) (quote : Option ℕ) (len c : ℕ) (cs : List ℕ) (rest : Reading)
    → len ≤ 1023
    → (len_behind m len ≤ 1023 → fits (len_behind m len) rest ≡ true)
    → fits len (moved m quote len c cs rest) ≡ true
moved-fits stops quote len c cs rest l h = ground arith
moved-fits literal quote len c cs too_long l h = ground arith
moved-fits literal quote len c cs (ended q token r) l h = elim (Bool-cases (leb 1024 (len + 1))) [
  | inl t ↦ rw t refl
  | inr t ↦ rw t (ground (arith, h (ground arith)))
]
moved-fits opens quote len c cs rest l h = h l
moved-fits closes quote len c cs rest l h = h l
moved-fits escapes quote len c cs rest l h = h l

read_token-fits :
    (escaped : Bool) (quote : Option ℕ) (len : ℕ) (s : List ℕ)
    → len ≤ 1023
    → fits len (read_token escaped quote len s) ≡ true
unfolding read_token
read_token-fits escaped quote len [] l = ground arith
read_token-fits escaped quote len (c ∷ cs) l =
    let m = move escaped quote c cs in
    moved-fits m quote len c cs
      (read_token (is_escape m) (quote_behind m quote c) (len_behind m len) cs) l
      (λ h. read_token-fits (is_escape m) (quote_behind m quote c) (len_behind m len) cs h)

abbrev short_args : Option (List ℕ) → Args → Bool
short_args value (inl e) = true
short_args none (inr got) = all_short got.1
short_args (some v) (inr got) = true

abbrev Parsed : Option (List ℕ) → Option Args → Type 0
Parsed value o = (got : Args) × (o ≡ some got) × (short_args value got ≡ true)

argv_push-short :
    (k : ℕ) (value : Option (List ℕ)) (token : List ℕ) (got : Args)
    → leb (length token) 1023 ≡ true
    → short_args value got ≡ true
    → short_args value (argv_push k value token got) ≡ true
argv_push-short k value token (inl e) l h = refl
argv_push-short k none token (inr got) l h = rw (l, h) refl
argv_push-short k (some v) token (inr got) l h = refl

after_token-Parsed :
    (k : ℕ) (value : Option (List ℕ)) (reading : Reading) (rest : Option Args)
    → fits 0 reading ≡ true
    → Parsed value rest
    → Parsed value (after_token k value reading rest)
after_token-Parsed k value too_long rest f p = (inl _, refl, refl)
after_token-Parsed k value (ended (some q) token text) rest f p = (inl _, refl, refl)
after_token-Parsed k value (ended none token text) rest f p =
    rw p.1
      (argv_push k value token p.0, refl, argv_push-short k value token p.0 (ground (arith, f)) p.2)

none_short : (value : Option (List ℕ)) → short_args value (inr (false, [])) ≡ true
none_short none = refl
none_short (some v) = refl

args_from-Parsed :
    (fuel k : ℕ) (value : Option (List ℕ)) (text : List ℕ)
    → length text < fuel
    → Parsed value (args_from fuel k value text)
unfolding args_from
args_from-Parsed zero k value text h = absurd (omega arith)
args_from-Parsed (suc fuel) k value text h = elim (skip_spaces-start text) [
  | inl t ↦ rw t (inr (false, []), refl, none_short value)
  | inr t ↦
      let moved_on = token_moves (t.0) (t.1) (t.3) in
      let start : length (t.0 ∷ t.1) ≤ length text =
        subst (λ l. length l ≤ length text) (t.2) (skip_spaces-length text) in
      rw t.2 (
        after_token-Parsed k value (read_token false none 0 (t.0 ∷ t.1))
          (args_from fuel k value (text_behind (read_token false none 0 (t.0 ∷ t.1))))
          (read_token-fits false none 0 (t.0 ∷ t.1) (omega arith))
          (args_from-Parsed fuel k value (text_behind (read_token false none 0 (t.0 ∷ t.1)))
            (omega (arith, moved_on, start))))
]

abbrev pub bounded : Option (List ℕ) → List (List ℕ) → Bool
bounded none args = all_short args
bounded (some v) args = true

-- A refusal, or at least one argument.
pub data IsAnswer : Option (List ℕ) → Option Argv → Type 0 where
  refusal : (value : Option (List ℕ)) (e : Refusal) → IsAnswer value (some (inl e))
  accepted :
      (value : Option (List ℕ)) (args : List (List ℕ))
      → 0 < length args
      → bounded value args ≡ true
      → IsAnswer value (some (inr args))

not_empty-IsAnswer :
    (value : Option (List ℕ)) (args : List (List ℕ))
    → bounded value args ≡ true
    → IsAnswer value (some (not_empty args))
not_empty-IsAnswer value [] b = refusal value empty_command
not_empty-IsAnswer value (a ∷ args) b = accepted value (a ∷ args) (omega arith) b

with_file-IsAnswer :
    (value : Option (List ℕ)) (got : Args)
    → short_args value got ≡ true
    → IsAnswer value (some (with_file value got))
with_file-IsAnswer value (inl e) h = refusal value e
with_file-IsAnswer none (inr got) h = not_empty-IsAnswer none (got.1) h
with_file-IsAnswer (some f) (inr got) h =
    not_empty-IsAnswer (some f) (if got.0 then got.1 else got.1 ++ f ∷ []) refl

plain-IsAnswer :
    (value : Option (List ℕ)) (got : Args)
    → short_args value got ≡ true
    → IsAnswer value (some (plain got))
plain-IsAnswer value (inl e) h = refusal value e
plain-IsAnswer none (inr got) h = not_empty-IsAnswer none (got.1) h
plain-IsAnswer (some f) (inr got) h = not_empty-IsAnswer (some f) (got.1) refl

checked-IsAnswer :
    (value : Option (List ℕ)) (command : List ℕ) (o : Option Argv)
    → IsAnswer value o
    → IsAnswer value (checked command o)
checked-IsAnswer value [] o h = refusal value empty_command
checked-IsAnswer value (c ∷ cs) o h =
    elim (Option-cases (command_contains_shell_meta false (c ∷ cs))) [
      | inl t ↦ rw t h
      | inr t ↦ rw t.1 (refusal value t.0)
    ]

-- With a step of fuel for each byte and one more, both parsers answer on every command line, with
-- a refusal or with at least one argument, and where no file or directory is given each argument
-- is shorter than the buffer of 1024 bytes.
pub argv_parse-IsAnswer :
    (fuel : ℕ) (command : List ℕ) (value : Option (List ℕ))
    → length command < fuel
    → IsAnswer value (argv_parse_template fuel command value)
      × IsAnswer value (argv_parse_door_template fuel command value)
unfolding argv_parse_template argv_parse_door_template
argv_parse-IsAnswer fuel command value h =
    let files = args_from-Parsed fuel b'f' value command h in
    let doors = args_from-Parsed fuel b'D' value command h in
    (
      checked-IsAnswer value command _ (rw files.1 (with_file-IsAnswer value (files.0) (files.2))),
      checked-IsAnswer value command _ (rw doors.1 (plain-IsAnswer value (doors.0) (doors.2))),
    )
