-- ===== src/Cbor/Skip/Wrap.antt =====
-- `dec->pos + len` is a size_t: what a length near 2^64 does to the decoder.
use mutineer.Prelude.{
  ℕ, zero, suc, ◌+◌, ◌-◌, ◌≤◌, ◌<◌, ◌≡◌, refl, ◌∙◌, ap, none, some, List, [], ◌++◌, inl, length,
  arith, append-nil, false,
}
use mutineer.Cbor.Words.{CborType, type_code, size_mod, header}
use mutineer.Cbor.Decoder.{Decoder, take_slice, decode_bytes}
use mutineer.Cbor.Decoder.Ahead.{Ahead, Ahead-append, advance}
use mutineer.Cbor.Decoder.Header.{header-Headed}
use mutineer.Cbor.Decoder.RoundTrip.{decode_head-Headed}
use mutineer.Cbor.Skip.{skip, skip_items}
use mutineer.Cbor.Skip.Items.{skip_string, skip_array, items_more}

-- Behind the header, when the addition wraps.
take_slice-wraps :
    (n h : ℕ) (d : Decoder)
    → d.error ≡ false
    → d.at + h ≤ d.len
    → d.len < size_mod
    → n < size_mod
    → size_mod ≤ d.at + h + n
    → take_slice (n, advance d h)
      ≡ (some (record { start = d.at + h; size = n }), record d { at = d.at + h + n - size_mod })
unfolding take_slice
take_slice-wraps n h d e a l s w = ground arith

-- A byte string whose announced length reaches 2^64 from behind its header is accepted: the
-- pointer comes with that length, and the decoder, its error not set, goes on before the place
-- that the header ended at.
pub decode_bytes-wraps :
    (d : Decoder) (n : ℕ)
    → n < size_mod
    → Ahead d (header CborType.bytes n)
    → size_mod ≤ d.at + length (header CborType.bytes n) + n
    → (decode_bytes d ≡ (
      some (record { start = d.at + length (header CborType.bytes n); size = n }),
      record d { at = d.at + length (header CborType.bytes n) + n - size_mod },
    ))
      × (d.at + length (header CborType.bytes n) + n - size_mod
          < d.at + length (header CborType.bytes n))
unfolding decode_bytes
decode_bytes-wraps d n s a w = (
  ap take_slice (
        decode_head-Headed CborType.bytes n (header-Headed CborType.bytes n [] s (rw append-nil a)))
      ∙ take_slice-wraps n _ d a.good a.room (omega (arith, a.small)) s w,
  omega arith,
)

-- An array of two whose first element is a string of 2^64 - 10 bytes: ten bytes in all.
abbrev pub back_to_start : ℕ
back_to_start = size_mod - 10

abbrev pub loop_bytes : List ℕ
loop_bytes = header CborType.array 2 ++ header CborType.bytes back_to_start

-- The string's length takes the decoder back to the array.
step_back :
    (d : Decoder) (h : ℕ)
    → h ≡ 9
    → d.error ≡ false
    → d.at + 10 ≤ d.len
    → d.len < size_mod
    → (take_slice (back_to_start, advance (advance d 1) h)).1 ≡ d
unfolding take_slice
step_back d h e g r s = ground arith

module _ (d : Decoder) (a : Ahead d loop_bytes) where
  array_head : (f : ℕ) → skip (suc f) d ≡ skip_items f 2 (advance d 1)
  unfolding header type_code
  array_head f =
      skip_array f 2 a.good (omega (arith, a.room))
        (header-Headed CborType.array 2 (header CborType.bytes back_to_start) (omega arith) a)

  back : (f : ℕ) → skip (suc f) (advance d 1) ≡ some d
  unfolding header type_code
  back f =
      skip_string f back_to_start a.good (omega (arith, a.room)) CborType.bytes (inl refl) (
        header-Headed CborType.bytes back_to_start [] (omega arith) (
          rw append-nil
            (Ahead-append (header CborType.array 2) (header CborType.bytes back_to_start) a)))
      ∙ ap some (step_back d 9 refl a.good (omega (arith, a.room)) (omega (arith, a.small)))

items_none :
    (f n : ℕ) (d : Decoder)
    → d.error ≡ false
    → skip f d ≡ none
    → skip_items (suc f) (suc n) d ≡ none
unfolding skip_items
items_none f n d e h = ground arith

-- Wherever these ten bytes stand before the decoder, `cbor_skip` never ends: no fuel is enough.
pub skip_never_ends : (d : Decoder) → Ahead d loop_bytes → (fuel : ℕ) → skip fuel d ≡ none
unfolding skip skip_items
skip_never_ends d a zero = refl
skip_never_ends d a (suc zero) = array_head d a 0
skip_never_ends d a (suc (suc zero)) = array_head d a 1 ∙ items_none 0 1 (advance d 1) a.good refl
skip_never_ends d a (suc (suc (suc f))) =
    array_head d a (suc (suc f))
    ∙ items_more (suc f) 1 (advance d 1) d a.good (back d a f)
    ∙ items_none f 0 d a.good (skip_never_ends d a f)
