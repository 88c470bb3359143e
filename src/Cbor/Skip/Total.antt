-- ===== src/Cbor/Skip/Total.antt =====
-- cbor_skip ends, and never moves back, in a buffer where every byte with the low five bits 27, whether it
-- starts a header or stands in a string, has a byte below 128 behind it, or none: then no header can
-- announce a string of 2^63 bytes or more.
use mutineer.Prelude.{
  ℕ, zero, suc, ◌+◌, ◌-◌, ◌/◌, ◌%◌, ◌*◌, ◌≤◌, ◌<◌, ◌≡◌, refl, ◌∙◌, sym, subst, true, false, ◌&&◌,
  ◌||◌, Option, some, ◌⊎◌, inl, inr, leb, ◌==◌, arith, Bool-cases,
}
use mutineer.Cbor.Words.{object_max}
use mutineer.Cbor.Decoder.{Decoder, failed, read_byte, decode_arg, take_slice}
use mutineer.Cbor.Decoder.Moves.{
  Moved, Advanced, Moved-trans, AllBytes, NoHuge, read_byte-Moved, decode_arg-Moved, arg-lt,
  take_slice-Moved,
}
use mutineer.Cbor.Skip.{skip, skip_items, skip_pairs}

pub record IsSafe (d : Decoder) : Type 0 where
  pub inside : d.at ≤ d.len
  pub small : d.len < object_max
  pub all_bytes : AllBytes d.buf
  pub no_huge : NoHuge d.buf

Moved-IsSafe : {d d' : Decoder} → Moved d d' → IsSafe d → IsSafe d'
Moved-IsSafe m s = record {
  inside = m.inside;
  small = omega (arith, m.same_len, s.small);
  all_bytes = subst AllBytes (sym m.same_buf) s.all_bytes;
  no_huge = subst NoHuge (sym m.same_buf) s.no_huge;
}

stay : (d : Decoder) → IsSafe d → Moved d d
stay d s = record {
  same_buf = refl;
  same_len = refl;
  onward = omega arith;
  inside = s.inside;
  stays_bad = λ e. e;
}

to_failed : (d : Decoder) → IsSafe d → Moved d (failed d)
to_failed d s = record {
  same_buf = refl;
  same_len = refl;
  onward = omega arith;
  inside = s.inside;
  stays_bad = λ _. refl;
}

-- The run ends, and the decoder has moved on or holds an error.
abbrev pub Ends : Decoder → Option Decoder → Type 0
Ends d r = (d' : Decoder) × (r ≡ some d') × Advanced d d'

abbrev EndsLoop : Decoder → Option Decoder → Type 0
EndsLoop d r = (d' : Decoder) × (r ≡ some d') × Moved d d'

-- What `skip` does in front of a byte: which call, on the argument behind that byte.
abbrev argument : Decoder → ℕ × Decoder
argument d = decode_arg (read_byte d).1 ((read_byte d).0 % 32)

data Front (fuel : ℕ) (d : Decoder) (r : Option Decoder) : Type 0 where
  stops : r ≡ some (failed d) → Front fuel d r
  scalar : r ≡ some (argument d).1 → Front fuel d r
  string : r ≡ some (take_slice (argument d)).1 → Front fuel d r
  array : r ≡ skip_items fuel (argument d).0 (argument d).1 → Front fuel d r
  map : r ≡ skip_pairs fuel (argument d).0 (argument d).1 → Front fuel d r
  tag : r ≡ skip fuel (argument d).1 → Front fuel d r
  single : r ≡ some (read_byte d).1 → Front fuel d r

front : (fuel : ℕ) (d : Decoder) → d.error ≡ false → d.at < d.len → Front fuel d (skip (suc fuel) d)
unfolding skip
front fuel d e h = elim (Bool-cases (mt == 0 || mt == 1)) [
  | inl q ↦ scalar (ground arith)
  | inr q ↦ elim (Bool-cases (mt == 2 || mt == 3)) [
    | inl q2 ↦ string (ground arith)
    | inr q2 ↦ elim (Bool-cases (mt == 4)) [
      | inl q4 ↦ array (ground arith)
      | inr q4 ↦ elim (Bool-cases (mt == 5)) [
        | inl q5 ↦ map (ground arith)
        | inr q5 ↦ elim (Bool-cases (mt == 6)) [
          | inl q6 ↦ tag (ground arith)
          | inr q6 ↦
              elim (Bool-cases (leb 24 ((read_byte d).0 % 32) && leb ((read_byte d).0 % 32) 27)) [
                | inl q7 ↦ scalar (ground arith)
                | inr q7 ↦ single (ground arith)
              ]
        ]
      ]
    ]
  ]
]
  where
    mt : ℕ
    mt = (read_byte d).0 / 32

read_byte-next :
    (d : Decoder) → d.error ≡ false → d.at < d.len → (read_byte d).1 ≡ record d { at = d.at + 1 }
unfolding read_byte
read_byte-next d e h = ground arith

-- The fuel that is enough: two for each byte ahead.
abbrev pub ahead : Decoder → ℕ
ahead d = d.len - d.at

-- A loop that finds an error set stops at once.
abbrev Enough : ℕ → Decoder → Type 0
Enough fuel d = (2 * ahead d + 1 < fuel) ⊎ ((d.error ≡ true) × (0 < fuel))

Enough-next : (fuel : ℕ) (d d' : Decoder) → Advanced d d' → 2 * ahead d < fuel → Enough fuel d'
Enough-next fuel d d' (m, inl bad) h = inr (bad, omega arith)
Enough-next fuel d d' (m, inr on) h = inl (omega (arith, m.same_len, m.inside))

-- One step, from what the calls inside it do.
module _ (fuel : ℕ) (skips : (d : Decoder) → IsSafe d → 2 * ahead d < fuel → Ends d (skip fuel d))
    (items : (n : ℕ) (d : Decoder) → IsSafe d → Enough fuel d → EndsLoop d (skip_items fuel n d))
    (pairs : (n : ℕ) (d : Decoder)
      → IsSafe d
      → Enough fuel d
      → EndsLoop d (skip_pairs fuel n d)) where
  module _ (d : Decoder) (s : IsSafe d) (good : d.error ≡ false) (more : d.at < d.len) where
    first : Moved d (read_byte d).1
    first = read_byte-Moved d s.inside

    first_on : d.at < (read_byte d).1.at
    first_on = rw (read_byte-next d good more) (omega arith)

    moved : Moved d (argument d).1
    moved = Moved-trans first (decode_arg-Moved (read_byte d).1 ((read_byte d).0 % 32) first.inside)

    moved_on : d.at < (argument d).1.at
    moved_on = omega (
      arith,
      first_on,
      (decode_arg-Moved (read_byte d).1 ((read_byte d).0 % 32) first.inside).onward,
    )

    arg-IsSafe : IsSafe (argument d).1
    arg-IsSafe = Moved-IsSafe moved s

    onward_from : {d' : Decoder} → Moved (argument d).1 d' → Advanced d d'
    onward_from m = (Moved-trans moved m, inr (omega (arith, moved_on, m.onward)))

    skip-goes : 2 * ahead d < suc fuel → Ends d (skip (suc fuel) d)
    skip-goes enough = elim (front fuel d good more) [
      | stops e ↦ (failed d, e, (to_failed d s, inl refl))
      | scalar e ↦ ((argument d).1, e, (moved, inr moved_on))
      | string e ↦ (
        _,
        e,
        onward_from (
            take_slice-Moved (argument d).0 (argument d).1 moved.inside arg-IsSafe.small
              (arg-lt d s.inside s.all_bytes s.no_huge)),
      )
      | array e ↦
          let (d', run, m) =
            items (argument d).0 (argument d).1 arg-IsSafe
              (inl (omega (arith, moved_on, moved.same_len, moved.inside))) in
          (d', e ∙ run, onward_from m)
      | map e ↦
          let (d', run, m) =
            pairs (argument d).0 (argument d).1 arg-IsSafe
              (inl (omega (arith, moved_on, moved.same_len, moved.inside))) in
          (d', e ∙ run, onward_from m)
      | tag e ↦
          let (d', run, m) =
            skips (argument d).1 arg-IsSafe
              (omega (arith, moved_on, moved.same_len, moved.inside)) in
          (d', e ∙ run, onward_from m.0)
      | single e ↦ ((read_byte d).1, e, (first, inr first_on))
    ]

  skip-step : (d : Decoder) → IsSafe d → 2 * ahead d < suc fuel → Ends d (skip (suc fuel) d)
  skip-step d s enough = elim (Bool-cases (d.error || leb d.len d.at)) [
    | inl q ↦ (failed d, (unfold skip in rw q), (to_failed d s, inl refl))
    | inr q ↦ skip-goes d s (ground arith) (ground arith) enough
  ]

  runs_on : (d : Decoder) → Enough (suc fuel) d → d.error ≡ false → 2 * ahead d < fuel
  runs_on d (inl h) e = omega arith
  runs_on d (inr h) e = cc (e, h.0)

  items-step :
      (n : ℕ) (d : Decoder)
      → IsSafe d
      → Enough (suc fuel) d
      → EndsLoop d (skip_items (suc fuel) n d)
  items-step n d s enough = elim (Bool-cases (n == 0 || d.error)) [
    | inl q ↦ (d, (unfold skip_items in rw q), stay d s)
    | inr q ↦
        let h = runs_on d enough (ground arith) in
        let (d1, run1, m1) = skips d s h in
        let (d2, run2, m2) = items (n - 1) d1 (Moved-IsSafe m1.0 s) (Enough-next fuel d d1 m1 h) in
        (d2, (unfold skip_items in rw (q, run1) run2), Moved-trans m1.0 m2)
  ]

  -- The second element of a pair is tried even if the first one failed.
  again : (d d1 : Decoder) → IsSafe d → Advanced d d1 → 2 * ahead d < fuel → Ends d1 (skip fuel d1)
  again d d1 s m h = skips d1 (Moved-IsSafe m.0 s) (omega (arith, m.0.same_len, m.0.onward))

  Advanced-then : {a b c : Decoder} → Advanced a b → Advanced b c → Advanced a c
  Advanced-then (m, p) (k, inl bad) = (Moved-trans m k, inl bad)
  Advanced-then (m, p) (k, inr on) = (Moved-trans m k, inr (omega (arith, m.onward)))

  pairs-step :
      (n : ℕ) (d : Decoder)
      → IsSafe d
      → Enough (suc fuel) d
      → EndsLoop d (skip_pairs (suc fuel) n d)
  pairs-step n d s enough = elim (Bool-cases (n == 0 || d.error)) [
    | inl q ↦ (d, (unfold skip_pairs in rw q), stay d s)
    | inr q ↦
        let h = runs_on d enough (ground arith) in
        let (d1, run1, m1) = skips d s h in
        let (d2, run2, m2) = again d d1 s m1 h in
        let both = Advanced-then m1 m2 in
        let (d3, run3, m3) =
          pairs (n - 1) d2 (Moved-IsSafe both.0 s) (Enough-next fuel d d2 both h) in
        (d3, (unfold skip_pairs in rw (q, run1, run2) run3), Moved-trans both.0 m3)
  ]

mutual
  skip-Ends : (fuel : ℕ) (d : Decoder) → IsSafe d → 2 * ahead d < fuel → Ends d (skip fuel d)
  skip-Ends zero d s h = absurd (omega arith)
  skip-Ends (suc f) d s h = skip-step f (skip-Ends f) (items_end f) (pairs_end f) d s h

  items_end :
      (fuel n : ℕ) (d : Decoder) → IsSafe d → Enough fuel d → EndsLoop d (skip_items fuel n d)
  items_end zero n d s (inl h) = absurd (omega arith)
  items_end zero n d s (inr h) = absurd (omega arith)
  items_end (suc f) n d s h = items-step f (skip-Ends f) (items_end f) (pairs_end f) n d s h

  pairs_end :
      (fuel n : ℕ) (d : Decoder) → IsSafe d → Enough fuel d → EndsLoop d (skip_pairs fuel n d)
  pairs_end zero n d s (inl h) = absurd (omega arith)
  pairs_end zero n d s (inr h) = absurd (omega arith)
  pairs_end (suc f) n d s h = pairs-step f (skip-Ends f) (items_end f) (pairs_end f) n d s h

-- In a buffer of bytes below 2^63 where behind every first byte of an eight-byte argument the top
-- bit is clear, `cbor_skip` ends within two steps a byte, keeps the buffer, never moves back or
-- past the end, and has moved on unless it set the error.
pub skip_total : (fuel : ℕ) (d : Decoder) → IsSafe d → 2 * ahead d < fuel → Ends d (skip fuel d)
skip_total = skip-Ends
