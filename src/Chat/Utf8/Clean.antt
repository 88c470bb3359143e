-- ===== src/Chat/Utf8/Clean.antt =====
-- What mts_utf8_sanitize of plugins/chat/mts_render.c leaves is well-formed UTF-8 with no control
-- bytes.
use mutineer.Prelude.{
  ℕ, zero, suc, ◌+◌, ◌-◌, ◌≤◌, ◌<◌, ◌≡◌, ◌⊎◌, refl, ap, ◌∙◌, inl, inr, true, false, List, [], ◌∷◌,
  ◌++◌, ltb, leb, ◌==◌, Bool-cases, take, length, length-append, length-take, arith,
}
use mutineer.Chat.Utf8.{is_two, is_three, is_four, decode, is_control, sanitize_from, utf8_sanitize}

abbrev pub Tail : ℕ → Type 0
Tail c = (128 ≤ c) × (c ≤ 191)

-- The well-formed byte sequences of RFC 3629, without the control bytes but the tabulator.
pub data IsText : List ℕ → Type 0 where
  end : IsText []
  one : (a : ℕ) (cs : List ℕ) → (a ≡ 9) ⊎ (32 ≤ a) → a < 127 → IsText cs → IsText (a ∷ cs)
  two : (a b : ℕ) (cs : List ℕ) → 194 ≤ a → a ≤ 223 → Tail b → IsText cs → IsText (a ∷ b ∷ cs)
  three :
      (a b c : ℕ) (cs : List ℕ)
      → 224 ≤ a
      → a ≤ 239
      → Tail b
      → Tail c
      → (a ≡ 224 → 160 ≤ b)
      → (a ≡ 237 → b ≤ 159)
      → IsText cs
      → IsText (a ∷ b ∷ c ∷ cs)
  four :
      (a b c d : ℕ) (cs : List ℕ)
      → 240 ≤ a
      → a ≤ 244
      → Tail b
      → Tail c
      → Tail d
      → (a ≡ 240 → 144 ≤ b)
      → (a ≡ 244 → b ≤ 143)
      → IsText cs
      → IsText (a ∷ b ∷ c ∷ d ∷ cs)

chunk_two : (s rest : List ℕ) → is_two s ≡ true → IsText rest → IsText (take 2 s ++ rest)
unfolding is_two
chunk_two [] rest h t = ground arith
chunk_two (a ∷ []) rest h t = ground arith
chunk_two (a ∷ b ∷ s) rest h t = two a b rest (ground arith) (ground arith) (ground arith) t

chunk_three : (s rest : List ℕ) → is_three s ≡ true → IsText rest → IsText (take 3 s ++ rest)
unfolding is_three
chunk_three [] rest h t = ground arith
chunk_three (a ∷ []) rest h t = ground arith
chunk_three (a ∷ b ∷ []) rest h t = ground arith
chunk_three (a ∷ b ∷ c ∷ s) rest h t =
    three a b c rest (ground arith) (ground arith) (ground arith) (ground arith) (λ e. ground arith)
      (λ e. ground arith) t

chunk_four : (s rest : List ℕ) → is_four s ≡ true → IsText rest → IsText (take 4 s ++ rest)
unfolding is_four
chunk_four [] rest h t = ground arith
chunk_four (a ∷ []) rest h t = ground arith
chunk_four (a ∷ b ∷ []) rest h t = ground arith
chunk_four (a ∷ b ∷ c ∷ []) rest h t = ground arith
chunk_four (a ∷ b ∷ c ∷ d ∷ s) rest h t =
    four a b c d rest (ground arith) (ground arith) (ground arith) (ground arith) (ground arith)
      (λ e. ground arith) (λ e. ground arith) t

printable : (c : ℕ) → is_control c ≡ false → (c ≡ 9) ⊎ (32 ≤ c)
printable c k = elim (Bool-cases (c == 9)) [
  | inl t ↦ inl (ground arith)
  | inr t ↦ inr (ground arith)
]

chunk :
    (c : ℕ) (cs rest : List ℕ)
    → is_control c ≡ false
    → ((decode (c ∷ cs)).0 == 0) ≡ false
    → IsText rest
    → IsText (take (decode (c ∷ cs)).0 (c ∷ cs) ++ rest)
unfolding decode
chunk c cs rest k h t = elim (Bool-cases (ltb c 128)) [
  | inl u ↦ rw u (one c rest (printable c k) (ground arith) t)
  | inr u ↦ elim (Bool-cases (is_two (c ∷ cs))) [
    | inl v ↦ rw (u, v) (chunk_two (c ∷ cs) rest v t)
    | inr v ↦ elim (Bool-cases (is_three (c ∷ cs))) [
      | inl w ↦ rw (u, v, w) (chunk_three (c ∷ cs) rest w t)
      | inr w ↦ elim (Bool-cases (is_four (c ∷ cs))) [
        | inl x ↦ rw (u, v, w, x) (chunk_four (c ∷ cs) rest x t)
        | inr x ↦ ground arith
      ]
    ]
  ]
]

sanitize_from-IsText : (limit o k : ℕ) (cs : List ℕ) → IsText (sanitize_from limit o k cs)
unfolding sanitize_from
sanitize_from-IsText limit o k [] = end
sanitize_from-IsText limit o (suc k) (c ∷ cs) = sanitize_from-IsText limit o k cs
sanitize_from-IsText limit o zero (c ∷ cs) = elim (Bool-cases (ltb (o + 1) limit)) [
  | inr full ↦ rw full end
  | inl room ↦ elim (Bool-cases (is_control c)) [
    | inl k ↦ rw (room, k) (sanitize_from-IsText limit o 0 cs)
    | inr k ↦ elim (Bool-cases ((decode (c ∷ cs)).0 == 0)) [
      | inl bad ↦
          rw (room, k, bad)
            (one b'?' (sanitize_from limit (o + 1) 0 cs) (inr (omega arith)) (omega arith)
              (sanitize_from-IsText limit (o + 1) 0 cs))
      | inr good ↦ elim (Bool-cases (leb limit (o + (decode (c ∷ cs)).0))) [
        | inl over ↦ rw (room, k, good, over) end
        | inr fits ↦
            rw (room, k, good, fits)
              (chunk c cs
                (sanitize_from limit (o + (decode (c ∷ cs)).0) ((decode (c ∷ cs)).0 - 1) cs) k good
                (sanitize_from-IsText limit (o + (decode (c ∷ cs)).0) ((decode (c ∷ cs)).0 - 1) cs))
      ]
    ]
  ]
]

sanitize_from-length :
    (limit o k : ℕ) (cs : List ℕ) → o < limit → o + length (sanitize_from limit o k cs) < limit
unfolding sanitize_from
sanitize_from-length limit o k [] h = omega arith
sanitize_from-length limit o (suc k) (c ∷ cs) h = sanitize_from-length limit o k cs h
sanitize_from-length limit o zero (c ∷ cs) h =
    let n = (decode (c ∷ cs)).0 in
    ground (
      arith,
      sanitize_from-length limit o 0 cs h,
      sanitize_from-length limit (o + 1) 0 cs,
      sanitize_from-length limit (o + n) (n - 1) cs,
      length-append (take n (c ∷ cs)) (sanitize_from limit (o + n) (n - 1) cs),
      length-take n (c ∷ cs),
    )

-- Whatever bytes come in, what the chat keeps of them is well-formed UTF-8 with no control bytes
-- but tabulators, and fits its buffer of `limit` bytes with the terminator.
pub utf8_sanitize-IsText :
    (limit : ℕ) (src : List ℕ)
    → 0 < limit
    → IsText (utf8_sanitize limit src) × (length (utf8_sanitize limit src) < limit)
unfolding utf8_sanitize
utf8_sanitize-IsText limit src h =
    (sanitize_from-IsText limit 0 0 src, omega (arith, sanitize_from-length limit 0 0 src h))

size_one : (a : ℕ) (cs : List ℕ) → a < 127 → (decode (a ∷ cs)).0 ≡ 1
unfolding decode
size_one a cs h = ground arith

size_two : (a b : ℕ) (cs : List ℕ) → 194 ≤ a → a ≤ 223 → Tail b → (decode (a ∷ b ∷ cs)).0 ≡ 2
unfolding decode is_two
size_two a b cs l u t = ground arith

size_three :
    (a b c : ℕ) (cs : List ℕ)
    → 224 ≤ a
    → a ≤ 239
    → Tail b
    → Tail c
    → (a ≡ 224 → 160 ≤ b)
    → (a ≡ 237 → b ≤ 159)
    → (decode (a ∷ b ∷ c ∷ cs)).0 ≡ 3
unfolding decode is_two is_three
size_three a b c cs l u t v e f = ground arith

size_four :
    (a b c d : ℕ) (cs : List ℕ)
    → 240 ≤ a
    → a ≤ 244
    → Tail b
    → Tail c
    → Tail d
    → (a ≡ 240 → 144 ≤ b)
    → (a ≡ 244 → b ≤ 143)
    → (decode (a ∷ b ∷ c ∷ d ∷ cs)).0 ≡ 4
unfolding decode is_two is_three is_four
size_four a b c d cs l u t v w e f = ground arith

-- A character that fits is copied.
copied :
    (limit o n c : ℕ) (cs : List ℕ)
    → (decode (c ∷ cs)).0 ≡ suc n
    → is_control c ≡ false
    → o + suc n < limit
    → sanitize_from limit o 0 (c ∷ cs)
      ≡ take (suc n) (c ∷ cs) ++ sanitize_from limit (o + suc n) n cs
unfolding sanitize_from
copied limit o n c cs size k h =
    let room : ltb (o + 1) limit ≡ true = ground arith in
    let fits : leb limit (o + suc n) ≡ false = ground arith in
    let less : suc n - 1 ≡ n = omega arith in
    let found : (suc n == 0) ≡ false = ground arith in rw (size, room, k, found, fits, less) refl

sanitize_from-clean :
    (limit o : ℕ) {s : List ℕ} → IsText s → o + length s < limit → sanitize_from limit o 0 s ≡ s
unfolding sanitize_from
sanitize_from-clean limit o end h = refl
sanitize_from-clean limit o (one a cs l u t) h =
    copied limit o 0 a cs (size_one a cs u) (ground arith) (omega arith)
    ∙ ap (λ r. a ∷ r) (sanitize_from-clean limit (o + 1) t (omega arith))
sanitize_from-clean limit o (two a b cs l u v t) h =
    copied limit o 1 a (b ∷ cs) (size_two a b cs l u v) (ground arith) (omega arith)
    ∙ ap (λ r. a ∷ b ∷ r) (sanitize_from-clean limit (o + 2) t (omega arith))
sanitize_from-clean limit o (three a b c cs l u v w e f t) h =
    copied limit o 2 a (b ∷ c ∷ cs) (size_three a b c cs l u v w e f) (ground arith) (omega arith)
    ∙ ap (λ r. a ∷ b ∷ c ∷ r) (sanitize_from-clean limit (o + 3) t (omega arith))
sanitize_from-clean limit o (four a b c d cs l u v w x e f t) h =
    copied limit o 3 a (b ∷ c ∷ d ∷ cs) (size_four a b c d cs l u v w x e f) (ground arith)
      (omega arith)
    ∙ ap (λ r. a ∷ b ∷ c ∷ d ∷ r) (sanitize_from-clean limit (o + 4) t (omega arith))

-- Well-formed UTF-8 with no control bytes but tabulators that fits the buffer is kept as it is.
pub utf8_sanitize-clean :
    (limit : ℕ) (s : List ℕ) → IsText s → length s < limit → utf8_sanitize limit s ≡ s
unfolding utf8_sanitize
utf8_sanitize-clean limit s t h = sanitize_from-clean limit 0 t (omega arith)
