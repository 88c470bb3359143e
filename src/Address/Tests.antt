-- ===== src/Address/Tests.antt =====
-- Runs of the address functions of src/plank/plank_core.c, and the theorems at concrete inputs.
use mutineer.Prelude.{ℕ, ◌≡◌, refl, true, some, List, [], ◌∷◌, ◌++◌, arith}
use mutineer.Address.{
  is_valid_name_char, is_valid_user_char, validate_name, validate_with, format_user_addr,
  parse_node_addr, parse_user_addr, validate_node_addr, split_at, at_sign,
}
use mutineer.Address.RoundTrip.{parse-format_user}

abbrev user : List ℕ
user = b'a' ∷ b'.' ∷ b'b' ∷ []

abbrev node : List ℕ
node = b'h' ∷ b'u' ∷ b'b' ∷ []

abbrev net : List ℕ
net = b's' ∷ b'e' ∷ b'a' ∷ []

abbrev node_addr : List ℕ
node_addr = node ++ at_sign ∷ net

abbrev user_addr : List ℕ
user_addr = user ++ at_sign ∷ (node ++ at_sign ∷ net)

-- Only the shape of an address is checked: a space passes.
accepts_space : validate_node_addr (some (32 ∷ at_sign ∷ 32 ∷ [])) ≡ true
unfolding validate_node_addr parse_node_addr split_at
accepts_space = refl

parse-format_user_example :
    (format_user_addr user node net 128 ≡ some user_addr)
    × (parse_user_addr (some user_addr) 33 33 33 ≡ some (user, node, net))
unfolding validate_name validate_with is_valid_name_char is_valid_user_char
parse-format_user_example = parse-format_user user node net 128 refl refl refl (omega arith)
