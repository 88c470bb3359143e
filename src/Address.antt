-- ===== src/Address.antt =====
-- The addresses of src/plank/plank_core.c: node@network, user@node@network and
-- area@node@network. A C string is the list of its bytes up to the terminator, NULL is `none`, and
-- a buffer of `max` bytes holds a string of fewer than `max`.
pub mod Chars
pub mod RoundTrip
mod Tests
use mutineer.Prelude.{
  ℕ, zero, suc, ◌+◌, ◌-◌, Bool, true, false, not, ◌&&◌, ◌||◌, Option, none, some, List, [], ◌∷◌,
  ◌++◌, map, ltb, leb, ◌==◌, if◌then◌else◌, length,
}

abbrev pub max_node_name : ℕ
max_node_name = 32

abbrev pub max_network_name : ℕ
max_network_name = 32

abbrev pub max_user_name : ℕ
max_user_name = 32

abbrev pub max_area_slug : ℕ
max_area_slug = 48

abbrev pub at_sign : ℕ
at_sign = b'@'

unfoldable pub is_valid_name_char : ℕ → Bool
is_valid_name_char c =
    (leb b'a' c && leb c b'z') || (leb b'0' c && leb c b'9') || c == b'_' || c == b'-'

unfoldable pub is_valid_user_char : ℕ → Bool
is_valid_user_char c = is_valid_name_char c || c == b'.'

unfoldable pub is_valid_slug_char : ℕ → Bool
is_valid_slug_char c = is_valid_name_char c || c == b'.'

-- The loops that leave at the first byte that is not allowed.
abbrev pub all_chars : (ℕ → Bool) → List ℕ → Bool
all_chars ok [] = true
all_chars ok (c ∷ cs) = if ok c then all_chars ok cs else false

-- Not empty, not too long, and every byte allowed.
unfoldable pub validate_with : (ℕ → Bool) → List ℕ → ℕ → Bool
validate_with ok name max_len =
    if length name == 0
    then false
    else if ltb max_len (length name)
    then false
    else all_chars ok name

unfoldable pub validate_name : List ℕ → ℕ → Bool
validate_name name max_len = validate_with is_valid_name_char name max_len

-- tolower in the C locale.
unfoldable pub to_lower : ℕ → ℕ
to_lower c = if leb b'A' c && leb c b'Z' then c + 32 else c

unfoldable pub canonicalize_addr : List ℕ → List ℕ
canonicalize_addr addr = map to_lower addr

-- snprintf into `max` bytes: the whole text or, if it does not fit, a failure.
abbrev pub printed : ℕ → List ℕ → Option (List ℕ)
printed max text = if leb max (length text) then none else some (canonicalize_addr text)

unfoldable pub format_node_addr : List ℕ → List ℕ → ℕ → Option (List ℕ)
format_node_addr node_name network_name max =
    if not (validate_name node_name max_node_name)
    then none
    else if not (validate_name network_name max_network_name)
    then none
    else printed max (node_name ++ at_sign ∷ network_name)

unfoldable pub format_user_addr : List ℕ → List ℕ → List ℕ → ℕ → Option (List ℕ)
format_user_addr user node_name network_name max =
    if not (validate_with is_valid_user_char user max_user_name)
    then none
    else if not (validate_name node_name max_node_name)
    then none
    else if not (validate_name network_name max_network_name)
    then none
    else printed max (user ++ at_sign ∷ (node_name ++ at_sign ∷ network_name))

unfoldable pub format_area_addr : List ℕ → List ℕ → List ℕ → ℕ → Option (List ℕ)
format_area_addr slug origin_node network_name max =
    if not (validate_with is_valid_slug_char slug max_area_slug)
    then none
    else if not (validate_name origin_node max_node_name)
    then none
    else if not (validate_name network_name max_network_name)
    then none
    else printed max (slug ++ at_sign ∷ (origin_node ++ at_sign ∷ network_name))

-- strchr for '@': the bytes in front of the first and those behind it.
unfoldable pub split_at : List ℕ → Option (List ℕ × List ℕ)
split_at [] = none
split_at (c ∷ cs) =
    if c == at_sign
    then some ([], cs)
    else (elim (split_at cs) [ none ↦ none | some p ↦ some (c ∷ p.0, p.1) ])

abbrev pub has_at : List ℕ → Bool
has_at cs = elim (split_at cs) [ none ↦ false | some p ↦ true ]

-- A part fits its buffer, with the terminator, and is not empty.
abbrev pub part_fits : List ℕ → ℕ → Bool
part_fits part max = not (length part == 0 || leb max (length part))

abbrev pub node_parts : ℕ → ℕ → List ℕ → List ℕ → Option (List ℕ × List ℕ)
node_parts node_max network_max node network =
    if not (part_fits node node_max)
    then none
    else if not (part_fits network network_max)
    then none
    else if has_at network
    then none
    else some (node, network)

unfoldable pub parse_node_addr : Option (List ℕ) → ℕ → ℕ → Option (List ℕ × List ℕ)
parse_node_addr none node_max network_max = none
parse_node_addr (some addr) node_max network_max = elim (split_at addr) [
  | none ↦ none
  | some p ↦ node_parts node_max network_max p.0 p.1
]

abbrev pub user_parts : ℕ → ℕ → ℕ → List ℕ → List ℕ → List ℕ → Option (List ℕ × List ℕ × List ℕ)
user_parts user_max node_max network_max user node network =
    if has_at network
    then none
    else if not (part_fits user user_max)
    then none
    else if not (part_fits node node_max)
    then none
    else if not (part_fits network network_max)
    then none
    else some (user, node, network)

abbrev pub user_rest : ℕ → ℕ → ℕ → List ℕ → List ℕ → Option (List ℕ × List ℕ × List ℕ)
user_rest user_max node_max network_max user rest = elim (split_at rest) [
  | none ↦ none
  | some p ↦ user_parts user_max node_max network_max user p.0 p.1
]

unfoldable pub parse_user_addr : Option (List ℕ) → ℕ → ℕ → ℕ → Option (List ℕ × List ℕ × List ℕ)
parse_user_addr none user_max node_max network_max = none
parse_user_addr (some addr) user_max node_max network_max = elim (split_at addr) [
  | none ↦ none
  | some p ↦ user_rest user_max node_max network_max p.0 p.1
]

unfoldable pub parse_area_addr : Option (List ℕ) → ℕ → ℕ → ℕ → Option (List ℕ × List ℕ × List ℕ)
parse_area_addr addr slug_max origin_max network_max =
    parse_user_addr addr slug_max origin_max network_max

abbrev pub parsed {ℓ} : {A : Type ℓ} → Option A → Bool
parsed none = false
parsed (some a) = true

unfoldable pub validate_node_addr : Option (List ℕ) → Bool
validate_node_addr addr = parsed (parse_node_addr addr (max_node_name + 1) (max_network_name + 1))

unfoldable pub validate_user_addr : Option (List ℕ) → Bool
validate_user_addr addr =
    parsed (parse_user_addr addr (max_user_name + 1) (max_node_name + 1) (max_network_name + 1))

unfoldable pub validate_area_addr : Option (List ℕ) → Bool
validate_area_addr addr =
    parsed (parse_area_addr addr (max_area_slug + 1) (max_node_name + 1) (max_network_name + 1))
