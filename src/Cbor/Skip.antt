-- ===== src/Cbor/Skip.antt =====
-- cbor_skip and what stands on it in src/plank/plank_cbor.c. The recursion and the two loops of the
-- source run on one supply of fuel; `none` says that it ran out.
pub mod Total
pub mod Shapes
pub mod Items
pub mod Wrap
pub mod Keys
use mutineer.Prelude.{
  ℕ, zero, suc, ◌+◌, ◌-◌, ◌/◌, ◌%◌, ◌*◌, Bool, true, false, not, ◌&&◌, ◌||◌, Option, none, some,
  List, [], ◌∷◌, ltb, leb, ◌==◌, if◌then◌else◌, length, take, drop,
}
use mutineer.Cbor.Decoder.{
  Decoder, init, failed, is_ok, is_eof, read_byte, decode_arg, take_slice, Slice, slice_bytes,
  decode_text, decode_map,
}

infixl 5 ◌>>=◌
abbrev pub ◌>>=◌ {ℓ κ} : {A : Type ℓ} {B : Type κ} → Option A → (A → Option B) → Option B
none >>= f = none
some a >>= f = f a

unfoldable mutual
  pub skip : ℕ → Decoder → Option Decoder
  skip zero d = none
  skip (suc fuel) d =
      let b = (read_byte d).0 in
      let d1 = (read_byte d).1 in
      let arg = decode_arg d1 (b % 32) in
      let array = skip_items fuel arg.0 arg.1 in
      let map = skip_pairs fuel arg.0 arg.1 in
      let tag = skip fuel arg.1 in
      let mt = b / 32 in
      if d.error || leb d.len d.at
      then some (failed d)
      else if mt == 0 || mt == 1
      then some arg.1
      else if mt == 2 || mt == 3
      then some (take_slice arg).1
      else if mt == 4
      then array
      else if mt == 5
      then map
      else if mt == 6
      then tag
      else if leb 24 (b % 32) && leb (b % 32) 27
      then some arg.1
      else some d1

  -- The loop over the elements of an array: `n` of them are left.
  pub skip_items : ℕ → ℕ → Decoder → Option Decoder
  skip_items zero n d = none
  skip_items (suc fuel) n d =
      let rest = (skip fuel d >>= λ d1. skip_items fuel (n - 1) d1) in
      if n == 0 || d.error then some d else rest

  -- The loop over the pairs of a map.
  pub skip_pairs : ℕ → ℕ → Decoder → Option Decoder
  skip_pairs zero n d = none
  skip_pairs (suc fuel) n d =
      let rest = (skip fuel d >>= λ d1. skip fuel d1 >>= λ d2. skip_pairs fuel (n - 1) d2) in
      if n == 0 || d.error then some d else rest

unfoldable pub validate : ℕ → List ℕ → ℕ → Option Bool
validate fuel buf len = skip fuel (init buf len) >>= λ d. some (is_ok d && is_eof d)

-- The checks that its comment lists are not made.
unfoldable pub is_canonical : ℕ → List ℕ → ℕ → Option Bool
is_canonical fuel buf len = validate fuel buf len

-- memcmp(a, b, n) == 0 for two pieces of one length.
abbrev pub same_bytes : List ℕ → List ℕ → Bool
same_bytes [] [] = true
same_bytes (x ∷ xs) (y ∷ ys) = x == y && same_bytes xs ys
same_bytes _ _ = false

-- The loop of cbor_map_find_key, which restores the position `start` unless it found the key.
unfoldable pub find_key_from : ℕ → ℕ → List ℕ → ℕ → Decoder → Option (Bool × Decoder)
find_key_from fuel start key zero d = some (false, record d { at = start })
find_key_from fuel start key (suc n) d =
    let found = decode_text d in
    let missing = some (false, record found.1 { at = start }) in
    let rest = (skip fuel found.1 >>= λ d2. find_key_from fuel start key n d2) in
    if d.error then some (false, record d { at = start }) else elim found.0 [
      | none ↦ missing
      | some s ↦
          if s.size == length key && same_bytes (slice_bytes found.1 s) key
          then some (true, found.1)
          else rest
    ]

unfoldable pub map_find_key : ℕ → Decoder → List ℕ → ℕ → Option (Bool × Decoder)
unfolding find_key_from
map_find_key fuel d key pair_count = find_key_from fuel d.at key pair_count d

-- The callback of cbor_decode_map_foreach with the caller's context `C`: the key, a decoder for the
-- value alone, the context; it answers whether to go on, and the new context.
abbrev pub MapHandler : Type 0 → Type 0
MapHandler C = List ℕ → Decoder → C → Bool × C

module _ {C : Type 0} (fuel : ℕ) (handler : MapHandler C) where
  unfoldable pub foreach_from : ℕ → Decoder → C → Option (Bool × Decoder × C)
  foreach_from zero d ctx = some (not d.error, d, ctx)
  foreach_from (suc n) d ctx =
      let found = decode_text d in
      let stop = some (false, found.1, ctx) in
      let rest =
        (skip fuel found.1 >>= λ d2.
        let value_dec = init (drop found.1.at d.buf) (d2.at - found.1.at) in
        let call = λ (key : Slice). handler (slice_bytes found.1 key) value_dec ctx in
        elim found.0 [
          | none ↦ stop
          | some key ↦
              let next = foreach_from n d2 (call key).1 in
              if d2.error
              then some (false, d2, ctx)
              else if (call key).0
              then next
              else some (false, d2, (call key).1)
        ]) in
      if d.error then some (not d.error, d, ctx) else elim found.0 [ none ↦ stop | some key ↦ rest ]

  unfoldable pub decode_map_foreach : Decoder → C → Option (Bool × Decoder × C)
  unfolding foreach_from
  decode_map_foreach d ctx =
      let (count, d1) = decode_map d in
      if d1.error then some (false, d1, ctx) else foreach_from count d1 ctx
