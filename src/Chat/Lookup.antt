-- ===== src/Chat/Lookup.antt =====
-- mts_find_user, mts_find_room and mts_parse_duration of plugins/chat/mts_state.c. strtol and strtoll
-- are parameters: they give the number and the text behind it, for strtol a number that is no node's
-- in place of a negative one.
pub mod Users
pub mod Durations
use mutineer.Prelude.{
  ℕ, suc, ◌+◌, ◌-◌, ◌*◌, ◌/◌, Bool, true, false, not, ◌&&◌, ◌||◌, Option, none, some, List, [], ◌∷◌,
  ltb, leb, ◌==◌, if◌then◌else◌,
}
use mutineer.Chat.{Session, Room, State, mts_name}

-- In the C locale.
abbrev pub lower : ℕ → ℕ
lower c = if leb b'A' c && leb c b'Z' then c + 32 else c

abbrev pub isalnum : ℕ → Bool
isalnum c = (leb b'0' c && leb c b'9') || (leb b'A' c && leb c b'Z') || (leb b'a' c && leb c b'z')

-- `n` is the size of the buffer less what is written.
unfoldable pub normalize : ℕ → List ℕ → List ℕ
normalize n [] = []
normalize n (c ∷ cs) =
    let rest = normalize (if isalnum c then n - 1 else n) cs in
    if not (ltb 1 n) then [] else if isalnum c then lower c ∷ rest else rest

abbrev pub same_name : List ℕ → List ℕ → Bool
same_name [] [] = true
same_name (a ∷ xs) (b ∷ ys) = a == b && same_name xs ys
same_name _ _ = false

unfoldable pub find_open : List Room → List ℕ → Option Room
find_open [] x = none
find_open (r ∷ rs) x =
    let rest = find_open rs x in if r.active && same_name r.normalized x then some r else rest

unfoldable pub find_room : State → List ℕ → Option Room
find_room st q = find_open st.rooms (normalize mts_name q)

-- strncasecmp with the length of the second.
unfoldable pub starts_with : List ℕ → List ℕ → Bool
starts_with handle [] = true
starts_with [] (q ∷ qs) = false
starts_with (c ∷ cs) (q ∷ qs) = lower c == lower q && starts_with cs qs

-- The loop's variable `found`, and the break with `amb` set.
pub data Found : Type 0 where
  nobody ambiguous : Found
  user : ℕ → Found

abbrev pub or_other : (ℕ → Session) → ℕ → Found → Found
or_other heap p ambiguous = ambiguous
or_other heap p nobody = user p
or_other heap p (user f) = if (heap f).user_id == (heap p).user_id then user p else ambiguous

unfoldable pub find_user_from : (ℕ → Session) → (ℕ → Bool) → Found → List ℕ → Found
find_user_from heap matches found [] = found
find_user_from heap matches found (p ∷ ps) =
    find_user_from heap matches (if matches p then or_other heap p found else found) ps

abbrev pub is_over : List ℕ → Bool
is_over [] = true
is_over (c ∷ cs) = false

-- `nodes` gives a session's node, `strtol` reads the text.
abbrev pub matches_query : (ℕ → Session) → (ℕ → ℕ) → (List ℕ → ℕ × List ℕ) → List ℕ → ℕ → Bool
matches_query heap nodes strtol q p =
    if is_over (strtol q).1 then nodes p == (strtol q).0 else starts_with (heap p).handle q

unfoldable pub find_user : State → (ℕ → ℕ) → (List ℕ → ℕ × List ℕ) → List ℕ → Found
find_user st nodes strtol q =
    if is_over q
    then nobody
    else find_user_from st.heap (matches_query st.heap nodes strtol q) nobody st.sessions

-- A unit's seconds.
unfoldable pub unit : ℕ → Option ℕ
unit c =
    if lower c == b'm'
    then some 60
    else if lower c == b'h'
    then some 3600
    else if lower c == b'd'
    then some 86400
    else if lower c == b'w'
    then some 604800
    else none

abbrev pub unit_of : List ℕ → Option ℕ
unit_of [] = some 1
unit_of (c ∷ []) = unit c
unit_of (c ∷ d ∷ cs) = none

abbrev pub within_year : ℕ → Option ℕ → Option ℕ
within_year v none = none
within_year v (some mult) = if ltb (31536000 / mult) v then none else some (v * mult)

-- strtoll's number, none for one below 1; the answer is none where `*ok` is 0.
abbrev pub duration_of : Option ℕ × List ℕ → Option ℕ
duration_of (none, rest) = none
duration_of (some v, rest) = if ltb v 1 then none else within_year v (unit_of rest)

unfoldable pub parse_duration : (List ℕ → Option ℕ × List ℕ) → List ℕ → Option ℕ
parse_duration strtoll text = if is_over text then none else duration_of (strtoll text)
