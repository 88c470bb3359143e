-- ===== src/Chat/Utf8.antt =====
-- plugins/chat/mts_render.c: what the chat does with the bytes that callers type. `decode` looks at
-- a string up to its terminator, which reads as 0.
pub mod Clean
use mutineer.Prelude.{
  ℕ, zero, suc, ◌+◌, ◌-◌, ◌*◌, ◌/◌, ◌%◌, Bool, true, false, not, ◌&&◌, ◌||◌, List, [], ◌∷◌, ◌++◌,
  ltb, leb, ◌==◌, if◌then◌else◌, get_or, take,
}

-- (c & 0xc0) == 0x80
abbrev pub is_tail : ℕ → Bool
is_tail c = c / 64 == 2

abbrev pub at : List ℕ → ℕ → ℕ
at s i = get_or s i 0

unfoldable pub is_two : List ℕ → Bool
is_two s = leb 0xc2 (at s 0) && leb (at s 0) 0xdf && is_tail (at s 1)

unfoldable pub is_three : List ℕ → Bool
is_three s =
    leb 0xe0 (at s 0)
    && leb (at s 0) 0xef
    && not (at s 1 == 0)
    && not (at s 2 == 0)
    && is_tail (at s 1)
    && is_tail (at s 2)
    && not (at s 0 == 0xe0 && ltb (at s 1) 0xa0)
    && not (at s 0 == 0xed && leb 0xa0 (at s 1))

unfoldable pub is_four : List ℕ → Bool
is_four s =
    leb 0xf0 (at s 0)
    && leb (at s 0) 0xf4
    && not (at s 1 == 0)
    && not (at s 2 == 0)
    && not (at s 3 == 0)
    && is_tail (at s 1)
    && is_tail (at s 2)
    && is_tail (at s 3)
    && not (at s 0 == 0xf0 && ltb (at s 1) 0x90)
    && not (at s 0 == 0xf4 && leb 0x90 (at s 1))

-- The number of bytes, 0 for none that is well formed, and the code point.
unfoldable pub decode : List ℕ → ℕ × ℕ
decode s =
    if ltb (at s 0) 0x80
    then (1, at s 0)
    else if is_two s
    then (2, at s 0 % 32 * 64 + at s 1 % 64)
    else if is_three s
    then (3, at s 0 % 16 * 4096 + at s 1 % 64 * 64 + at s 2 % 64)
    else if is_four s
    then (4, at s 0 % 8 * 262144 + at s 1 % 64 * 4096 + at s 2 % 64 * 64 + at s 3 % 64)
    else (0, b'?')

abbrev pub within : ℕ → ℕ → ℕ → Bool
within lo hi c = leb lo c && leb c hi

unfoldable pub cells : ℕ → ℕ
cells cp =
    if within 0x300 0x36f cp
      || within 0x1ab0 0x1aff cp
      || within 0x1dc0 0x1dff cp
      || within 0xfe00 0xfe0f cp
    then 0
    else if leb 0x1100 cp
        && (leb cp 0x115f
            || cp == 0x2329
            || cp == 0x232a
            || within 0x2e80 0xa4cf cp
            || within 0xac00 0xd7a3 cp
            || within 0xf900 0xfaff cp
            || within 0xfe10 0xfe6f cp
            || within 0xff00 0xff60 cp
            || within 0x1f300 0x1faff cp)
    then 2
    else 1

abbrev pub is_control : ℕ → Bool
is_control c = c == 0x1b || c == 0x7f || (ltb c 0x20 && not (c == 9))

-- The loop of mts_utf8_sanitize: `o` bytes are written, and the first `k` bytes of the rest belong
-- to the character before. The result is what is still written.
unfoldable pub sanitize_from : ℕ → ℕ → ℕ → List ℕ → List ℕ
sanitize_from limit o k [] = []
sanitize_from limit o (suc k) (c ∷ cs) = sanitize_from limit o k cs
sanitize_from limit o zero (c ∷ cs) =
    let n = (decode (c ∷ cs)).0 in
    let dropped = sanitize_from limit o 0 cs in
    let marked = b'?' ∷ sanitize_from limit (o + 1) 0 cs in
    let kept = take n (c ∷ cs) ++ sanitize_from limit (o + n) (n - 1) cs in
    if not (ltb (o + 1) limit)
    then []
    else if is_control c
    then dropped
    else if n == 0
    then marked
    else if leb limit (o + n)
    then []
    else kept

unfoldable pub utf8_sanitize : ℕ → List ℕ → List ℕ
utf8_sanitize limit src = sanitize_from limit 0 0 src

-- Inside an escape sequence, or with `k` bytes left of the character before.
pub data WidthMode : Type 0 where
  escape : WidthMode
  text : ℕ → WidthMode

unfoldable pub width_from : WidthMode → List ℕ → ℕ
width_from mode [] = 0
width_from escape (c ∷ cs) = width_from (if c == b'm' then text 0 else escape) cs
width_from (text (suc k)) (c ∷ cs) = width_from (text k) cs
width_from (text zero) (c ∷ cs) =
    let d = decode (c ∷ cs) in
    let inside = width_from escape cs in
    let rest = cells d.1 + width_from (text (d.0 - 1)) cs in if c == 0x1b then inside else rest

unfoldable pub display_width : List ℕ → ℕ
display_width s = width_from (text 0) s

-- The loop of mts_clip_width: `o` bytes and `w` cells are written.
unfoldable pub clip_from : ℕ → ℕ → ℕ → ℕ → ℕ → List ℕ → List ℕ
clip_from limit max o w k [] = []
clip_from limit max o w (suc k) (c ∷ cs) = clip_from limit max o w k cs
clip_from limit max o w zero (c ∷ cs) =
    let d = decode (c ∷ cs) in
    let n = if d.0 == 0 then 1 else d.0 in
    let cp = if d.0 == 0 then b'?' else d.1 in
    let marked = b'?' ∷ clip_from limit max (o + 1) (w + cells cp) (n - 1) cs in
    let kept = take n (c ∷ cs) ++ clip_from limit max (o + n) (w + cells cp) (n - 1) cs in
    if not (ltb (o + 1) limit)
    then []
    else if ltb max (w + cells cp) || leb limit (o + n)
    then []
    else if cp == b'?' && leb 0x80 c
    then marked
    else kept

unfoldable pub clip_width : ℕ → List ℕ → ℕ → List ℕ
clip_width limit s max = clip_from limit max 0 0 0 s
