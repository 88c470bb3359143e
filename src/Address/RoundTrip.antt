-- ===== src/Address/RoundTrip.antt =====
-- Formatting and parsing of addresses against each other.
use mutineer.Prelude.{
  ℕ, ◌+◌, ◌≤◌, ◌<◌, ◌≡◌, refl, ap, ◌∙◌, inl, inr, true, false, none, some, List, [], ◌∷◌, ◌++◌,
  length, length-append, Bool-cases, Option-cases, leb, ◌==◌, ==_iff, arith,
}
use mutineer.Address.{
  validate_with, validate_name, is_valid_user_char, is_valid_slug_char, printed, format_node_addr,
  format_user_addr, format_area_addr, split_at, at_sign, part_fits, parse_node_addr,
  parse_user_addr, parse_area_addr, parsed, node_parts, user_parts, user_rest,
}
use mutineer.Address.Chars.{
  IsPart, canonicalize-plain, canonicalize-append, split-plain, has_at-plain, name-IsPart,
  user-IsPart, slug-IsPart,
}

two_parts :
    (a b : List ℕ) (max : ℕ)
    → IsPart a 32
    → IsPart b 32
    → 66 ≤ max
    → printed max (a ++ at_sign ∷ b) ≡ some (a ++ at_sign ∷ b)
two_parts a b max p q room =
    let fits : leb max (length (a ++ at_sign ∷ b)) ≡ false =
      ground (arith, length-append a (at_sign ∷ b), p.not_long, q.not_long) in
    rw (fits, canonicalize-append a b p.is_plain, canonicalize-plain b q.is_plain) refl

three_parts :
    (a b c : List ℕ) (most max : ℕ)
    → IsPart a most
    → IsPart b 32
    → IsPart c 32
    → most + 67 ≤ max
    → printed max (a ++ at_sign ∷ (b ++ at_sign ∷ c)) ≡ some (a ++ at_sign ∷ (b ++ at_sign ∷ c))
three_parts a b c most max p q r room =
    let fits : leb max (length (a ++ at_sign ∷ (b ++ at_sign ∷ c))) ≡ false = ground (
      arith,
      length-append a (at_sign ∷ (b ++ at_sign ∷ c)),
      length-append b (at_sign ∷ c),
      p.not_long,
      q.not_long,
      r.not_long,
    ) in
    rw
      (
        fits,
        canonicalize-append a (b ++ at_sign ∷ c) p.is_plain,
        canonicalize-append b c q.is_plain,
        canonicalize-plain c r.is_plain,
      )
      refl

fits_part : (a : List ℕ) (most : ℕ) → IsPart a most → part_fits a (most + 1) ≡ true
fits_part a most p = ground (arith, p.not_empty, p.not_long)

-- Of a valid node and network name and a buffer of at least 66 bytes, `format_node_addr` makes
-- node@network, and parsing that into buffers for names of 32 bytes gives the two names back.
pub parse-format_node :
    (node_name network_name : List ℕ) (max : ℕ)
    → validate_name node_name 32 ≡ true
    → validate_name network_name 32 ≡ true
    → 66 ≤ max
    → (format_node_addr node_name network_name max ≡ some (node_name ++ at_sign ∷ network_name))
      × (parse_node_addr (some (node_name ++ at_sign ∷ network_name)) 33 33
          ≡ some (node_name, network_name))
unfolding format_node_addr parse_node_addr
parse-format_node node_name network_name max v w room =
    let p = name-IsPart node_name 32 v in
    let q = name-IsPart network_name 32 w in
    (
      rw (v, w) (two_parts node_name network_name max p q room),
      rw
          (
            parse_node_addr,
            split-plain node_name network_name p.is_plain,
            fits_part node_name 32 p,
            fits_part network_name 32 q,
            has_at-plain network_name q.is_plain,
          )
          refl,
    )

parse_three :
    (a b c : List ℕ) (most : ℕ)
    → IsPart a most
    → IsPart b 32
    → IsPart c 32
    → parse_user_addr (some (a ++ at_sign ∷ (b ++ at_sign ∷ c))) (most + 1) 33 33 ≡ some (a, b, c)
unfolding parse_user_addr
parse_three a b c most p q r =
    rw
      (
        parse_user_addr,
        split-plain a (b ++ at_sign ∷ c) p.is_plain,
        user_rest,
        split-plain b c q.is_plain,
        has_at-plain c r.is_plain,
        fits_part a most p,
        fits_part b 32 q,
        fits_part c 32 r,
      )
      refl

-- Of a valid user, node and network name and a buffer of at least 99 bytes, `format_user_addr`
-- makes user@node@network, and parsing that into buffers for names of 32 bytes gives them back.
pub parse-format_user :
    (user node_name network_name : List ℕ) (max : ℕ)
    → validate_with is_valid_user_char user 32 ≡ true
    → validate_name node_name 32 ≡ true
    → validate_name network_name 32 ≡ true
    → 99 ≤ max
    → (format_user_addr user node_name network_name max
        ≡ some (user ++ at_sign ∷ (node_name ++ at_sign ∷ network_name)))
      × (parse_user_addr (some (user ++ at_sign ∷ (node_name ++ at_sign ∷ network_name))) 33 33 33
          ≡ some (user, node_name, network_name))
unfolding format_user_addr
parse-format_user user node_name network_name max u v w room =
    let p = user-IsPart user 32 u in
    let q = name-IsPart node_name 32 v in
    let r = name-IsPart network_name 32 w in
    (
      rw (u, v, w) (three_parts user node_name network_name 32 max p q r (omega arith)),
      parse_three user node_name network_name 32 p q r,
    )

-- Of a valid area slug, node and network name and a buffer of at least 115 bytes,
-- `format_area_addr` makes slug@node@network, and parsing that into buffers for a slug of 48 and
-- names of 32 bytes gives them back.
pub parse-format_area :
    (slug origin_node network_name : List ℕ) (max : ℕ)
    → validate_with is_valid_slug_char slug 48 ≡ true
    → validate_name origin_node 32 ≡ true
    → validate_name network_name 32 ≡ true
    → 115 ≤ max
    → (format_area_addr slug origin_node network_name max
        ≡ some (slug ++ at_sign ∷ (origin_node ++ at_sign ∷ network_name)))
      × (parse_area_addr (some (slug ++ at_sign ∷ (origin_node ++ at_sign ∷ network_name))) 49 33 33
          ≡ some (slug, origin_node, network_name))
unfolding format_area_addr parse_area_addr
parse-format_area slug origin_node network_name max u v w room =
    let p = slug-IsPart slug 48 u in
    let q = name-IsPart origin_node 32 v in
    let r = name-IsPart network_name 32 w in
    (
      rw (u, v, w) (three_parts slug origin_node network_name 48 max p q r (omega arith)),
      parse_three slug origin_node network_name 48 p q r,
    )

split_lem : (cs : List ℕ) (p : List ℕ × List ℕ) → split_at cs ≡ some p → cs ≡ p.0 ++ at_sign ∷ p.1
unfolding split_at
split_lem [] p h = ground arith
split_lem (c ∷ cs) p h = elim (Bool-cases (c == at_sign)) [
  | inl t ↦
      let e = (==_iff c at_sign).0 t in
      let h' : some ([], cs) ≡ some p = rw t at h in
      let e' : p ≡ ([], cs) = cc h' in rw (e', e) refl
  | inr t ↦ elim (Option-cases (split_at cs)) [
    | inl n ↦ ground arith
    | inr (q, n) ↦
        let h' : some (c ∷ q.0, q.1) ≡ some p = rw (t, n) at h in
        let e' : p ≡ (c ∷ q.0, q.1) = cc h' in rw e' (ap (λ l. c ∷ l) (split_lem cs q n))
  ]
]

node_parts_lem :
    (node_max network_max : ℕ) (a b node network : List ℕ)
    → node_parts node_max network_max a b ≡ some (node, network)
    → ((a ≡ node) × (b ≡ network))
      × (((0 < length a) × (length a < node_max)) × ((0 < length b) × (length b < network_max)))
node_parts_lem node_max network_max a b node network h = ground arith

-- What `parse_node_addr` accepts is the two parts with an '@' between them, each not empty and
-- with its terminator within its buffer.
pub parse_node_addr_lem :
    (addr node network : List ℕ) (node_max network_max : ℕ)
    → parse_node_addr (some addr) node_max network_max ≡ some (node, network)
    → (addr ≡ node ++ at_sign ∷ network)
      × (((0 < length node) × (length node < node_max))
          × ((0 < length network) × (length network < network_max)))
unfolding parse_node_addr
parse_node_addr_lem addr node network node_max network_max h = elim (Option-cases (split_at addr)) [
  | inl n ↦ ground arith
  | inr (p, n) ↦
      let h' : node_parts node_max network_max p.0 p.1 ≡ some (node, network) =
        rw (parse_node_addr, n) at h in
      let parts = node_parts_lem node_max network_max p.0 p.1 node network h' in
      rw (← parts.0.0, ← parts.0.1) (split_lem addr p n, parts.1)
]

user_parts_lem :
    (user_max node_max network_max : ℕ) (a b c user node network : List ℕ)
    → user_parts user_max node_max network_max a b c ≡ some (user, node, network)
    → ((a ≡ user) × ((b ≡ node) × (c ≡ network)))
      × (((0 < length a) × (length a < user_max))
          × (((0 < length b) × (length b < node_max))
              × ((0 < length c) × (length c < network_max))))
user_parts_lem user_max node_max network_max a b c user node network h = ground arith

-- What `parse_user_addr` accepts is the three parts with an '@' between each two, each not empty
-- and with its terminator within its buffer.
pub parse_user_addr_lem :
    (addr user node network : List ℕ) (user_max node_max network_max : ℕ)
    → parse_user_addr (some addr) user_max node_max network_max ≡ some (user, node, network)
    → (addr ≡ user ++ at_sign ∷ (node ++ at_sign ∷ network))
      × (((0 < length user) × (length user < user_max))
          × (((0 < length node) × (length node < node_max))
              × ((0 < length network) × (length network < network_max))))
unfolding parse_user_addr
parse_user_addr_lem addr user node network user_max node_max network_max h =
    elim (Option-cases (split_at addr)) [
      | inl n ↦ ground arith
      | inr (p, n) ↦ elim (Option-cases (split_at p.1)) [
        | inl m ↦ ground arith
        | inr (q, m) ↦
            let h' : user_parts user_max node_max network_max p.0 q.0 q.1
                ≡ some (user, node, network) =
              rw (parse_user_addr, n, user_rest, m) at h in
            let parts =
              user_parts_lem user_max node_max network_max p.0 q.0 q.1 user node network h' in
            let whole : addr ≡ p.0 ++ at_sign ∷ (q.0 ++ at_sign ∷ q.1) =
              split_lem addr p n ∙ ap (λ r. p.0 ++ at_sign ∷ r) (split_lem p.1 q m) in
            rw (← parts.0.0, ← parts.0.1.0, ← parts.0.1.1) (whole, parts.1)
      ]
    ]

-- No address is accepted both as a node's and as a user's, whatever the sizes of the buffers.
pub parse_node_addr-not_user :
    (addr : List ℕ) (node_max network_max user_max user_node_max user_network_max : ℕ)
    → parsed (parse_node_addr (some addr) node_max network_max) ≡ true
    → parse_user_addr (some addr) user_max user_node_max user_network_max ≡ none
unfolding parse_node_addr parse_user_addr
parse_node_addr-not_user addr node_max network_max user_max user_node_max user_network_max h =
    elim (Option-cases (split_at addr)) [
      | inl n ↦ ground arith
      | inr (p, n) ↦ elim (Option-cases (split_at p.1)) [
        | inl m ↦ rw (parse_user_addr, n, user_rest, m) refl
        | inr (q, m) ↦ ground arith
      ]
    ]
