-- ===== src/Process.antt =====
-- src/process.c: how the command line of an external program becomes its arguments. A C string is the
-- list of its bytes before the terminator, none of which is 0. Allocation succeeds.
pub mod Fuel
pub mod Quoting
pub mod Filling
mod Tests
use mutineer.Prelude.{
  ℕ, zero, suc, ◌+◌, Bool, true, false, not, ◌&&◌, ◌||◌, Option, none, some, List, [], ◌∷◌, ◌++◌,
  ◌⊎◌, inl, inr, leb, ◌==◌, if◌then◌else◌, get_or, drop,
}

-- The texts in errbuf.
pub data Refusal : Type 0 where
  empty_command argument_too_long unterminated_quote : Refusal
  or_operator and_operator substitution : Refusal
  metacharacter : ℕ → Refusal

-- In the C locale.
abbrev pub isspace : ℕ → Bool
isspace c = c == b' ' || (leb 9 c && leb c 13)

abbrev pub at_end {ℓ} : {A : Type ℓ} → List A → Bool
at_end [] = true
at_end (x ∷ xs) = false

-- What command_contains_shell_meta says of a byte with the bytes behind it, if it is not escaped.
unfoldable pub bad_byte : ℕ → List ℕ → Option Refusal
bad_byte c cs =
    if c == b'`' || c == b';' || c == b'<' || c == b'>'
    then some (metacharacter c)
    else if c == b'|'
    then (if get_or cs 0 0 == b'|' then some or_operator else some (metacharacter b'|'))
    else if c == b'$' && get_or cs 0 0 == b'('
    then some substitution
    else if c == b'&' && get_or cs 0 0 == b'&'
    then some and_operator
    else none

abbrev pub or_else : Option Refusal → Option Refusal → Option Refusal
or_else none r = r
or_else (some e) r = some e

-- `skip` behind a backslash. The answer is the text of the first refusal.
unfoldable pub command_contains_shell_meta : Bool → List ℕ → Option Refusal
command_contains_shell_meta skip [] = none
command_contains_shell_meta true (c ∷ cs) = command_contains_shell_meta false cs
command_contains_shell_meta false (c ∷ cs) =
    let escapes = c == b'\\' && not (at_end cs) in
    let rest = command_contains_shell_meta escapes cs in
    if escapes then rest else or_else (bad_byte c cs) rest

abbrev pub one_further : ℕ → Option (List ℕ × List ℕ) → Option (List ℕ × List ℕ)
one_further c none = none
one_further c (some found) = some (c ∷ found.0, found.1)

-- The first marker of `%` and the byte `k` in a token: what stands before it and behind.
unfoldable pub find_marker : ℕ → List ℕ → Option (List ℕ × List ℕ)
find_marker k [] = none
find_marker k (c ∷ cs) =
    let rest = find_marker k cs in
    if c == b'%' && get_or cs 0 0 == k then some ([], drop 1 cs) else one_further c rest

abbrev pub has_value {ℓ} : {A : Type ℓ} → Option A → Bool
has_value none = false
has_value (some x) = true

abbrev pub filled : List ℕ → List ℕ → Option (List ℕ × List ℕ) → List ℕ
filled token value none = token
filled token value (some found) = found.0 ++ (value ++ found.1)

-- replace_percent_f, and replace_marker.
unfoldable pub replace_marker : List ℕ → ℕ → List ℕ → List ℕ
replace_marker token k value = filled token value (find_marker k token)

-- What a byte does in a token.
pub data Move : Type 0 where
  stops opens closes escapes literal : Move

unfoldable pub move : Bool → Option ℕ → ℕ → List ℕ → Move
move true quote c cs = literal
move false none c cs =
    if isspace c
    then stops
    else if c == b'\'' || c == b'"'
    then opens
    else if c == b'\\' && not (at_end cs)
    then escapes
    else literal
move false (some q) c cs =
    if c == q then closes else if c == b'\\' && not (at_end cs) then escapes else literal

abbrev pub is_escape : Move → Bool
is_escape escapes = true
is_escape _ = false

abbrev pub quote_behind : Move → Option ℕ → ℕ → Option ℕ
quote_behind opens quote c = some c
quote_behind closes quote c = none
quote_behind _ quote c = quote

abbrev pub len_behind : Move → ℕ → ℕ
len_behind literal len = suc len
len_behind _ len = len

-- How the loop over a token ends: with the quote that is open, the token, and the text behind.
pub data Reading : Type 0 where
  too_long : Reading
  ended : Option ℕ → List ℕ → List ℕ → Reading

abbrev pub store : ℕ → Reading → Reading
store c too_long = too_long
store c (ended quote token rest) = ended quote (c ∷ token) rest

abbrev pub moved : Move → Option ℕ → ℕ → ℕ → List ℕ → Reading → Reading
moved stops quote len c cs rest = ended quote [] (c ∷ cs)
moved literal quote len c cs rest = if leb 1024 (len + 1) then too_long else store c rest
moved _ quote len c cs rest = rest

-- The loop over a token, with `len` bytes of it stored. `escaped` says that the byte before was a
-- backslash.
unfoldable pub read_token : Bool → Option ℕ → ℕ → List ℕ → Reading
read_token escaped quote len [] = ended quote [] []
read_token escaped quote len (c ∷ cs) =
    let m = move escaped quote c cs in
    moved m quote len c cs (read_token (is_escape m) (quote_behind m quote c) (len_behind m len) cs)

unfoldable pub skip_spaces : List ℕ → List ℕ
skip_spaces [] = []
skip_spaces (c ∷ cs) = let rest = skip_spaces cs in if isspace c then rest else c ∷ cs

abbrev pub text_behind : Reading → List ℕ
text_behind too_long = []
text_behind (ended quote token rest) = rest

-- The refusal, or whether a marker was seen with the arguments.
abbrev pub Args : Type 0
Args = Refusal ⊎ (Bool × List (List ℕ))

-- A token in front of the arguments of the rest.
abbrev pub argv_push : ℕ → Option (List ℕ) → List ℕ → Args → Args
argv_push k value token (inl e) = inl e
argv_push k none token (inr got) = inr (got.0, token ∷ got.1)
argv_push k (some v) token (inr got) =
    inr (has_value (find_marker k token) || got.0, replace_marker token k v ∷ got.1)

abbrev pub after_token : ℕ → Option (List ℕ) → Reading → Option Args → Option Args
after_token k value too_long rest = some (inl argument_too_long)
after_token k value (ended (some q) token text) rest = some (inl unterminated_quote)
after_token k value (ended none token text) none = none
after_token k value (ended none token text) (some got) = some (argv_push k value token got)

-- The loop over the tokens.
unfoldable pub args_from : ℕ → ℕ → Option (List ℕ) → List ℕ → Option Args
args_from zero k value text = none
args_from (suc fuel) k value text =
    let start = skip_spaces text in
    let reading = read_token false none 0 start in
    let rest = args_from fuel k value (text_behind reading) in
    if at_end start then some (inr (false, [])) else after_token k value reading rest

abbrev pub Argv : Type 0
Argv = Refusal ⊎ List (List ℕ)

abbrev pub not_empty : List (List ℕ) → Argv
not_empty [] = inl empty_command
not_empty (a ∷ args) = inr (a ∷ args)

-- Behind the loop of bbs_argv_parse_template: a file that no marker took is the last argument.
abbrev pub with_file : Option (List ℕ) → Args → Argv
with_file file (inl e) = inl e
with_file none (inr got) = not_empty got.1
with_file (some f) (inr got) = not_empty (if got.0 then got.1 else got.1 ++ f ∷ [])

abbrev pub plain : Args → Argv
plain (inl e) = inl e
plain (inr got) = not_empty got.1

abbrev pub finish : (Args → Argv) → Option Args → Option Argv
finish f none = none
finish f (some got) = some (f got)

-- The checks in front of the loop.
abbrev pub checked : List ℕ → Option Argv → Option Argv
checked command parsed =
    if at_end command
    then some (inl empty_command)
    else elim (command_contains_shell_meta false command) [ none ↦ parsed | some e ↦ some (inl e) ]

unfoldable pub argv_parse_template : ℕ → List ℕ → Option (List ℕ) → Option Argv
argv_parse_template fuel command filepath =
    checked command (finish (with_file filepath) (args_from fuel b'f' filepath command))

unfoldable pub argv_parse_door_template : ℕ → List ℕ → Option (List ℕ) → Option Argv
argv_parse_door_template fuel command dropdir =
    checked command (finish plain (args_from fuel b'D' dropdir command))
