-- ===== src/Chat/Queue.antt =====
-- enqueue and mts_drain of plugins/chat/mts_state.c: a session's inbox is a queue of at most 128
-- events that drops its oldest for a public event and refuses a private one.
pub mod Calls
use mutineer.Prelude.{
  ℕ, zero, suc, ◌+◌, ◌-◌, ◌%◌, ◌^◌, ◌≤◌, ◌<◌, ◌≡◌, refl, ap, ◌∙◌, Bool, true, false, List, [], ◌∷◌,
  ◌++◌, ltb, ◌==◌, if◌then◌else◌, length, set, get_or, take, drop, length-set, Bool-cases, inl, inr,
  arith,
}
use mutineer.Chat.{Event, blank, Inbox, mts_inbox}
use mutineer.Chat.Ring.{
  wrap, mod-wrap, window, length-window, get_or-set_self, window-wrap, window-snoc, window-set,
}

-- The room for a public event in a full inbox.
unfoldable pub drop_oldest : Inbox → Inbox
drop_oldest s = record s {
  head = suc s.head % mts_inbox;
  count = s.count - 1;
  skipped = (s.skipped + 1) % 2 ^ 64;
}

unfoldable pub put : Inbox → Event → Inbox
put s e = record s { slots = set s.slots ((s.head + s.count) % mts_inbox) e; count = suc s.count }

unfoldable pub enqueue : Inbox → Event → Bool → Bool × Inbox
unfolding drop_oldest put
enqueue s e private =
    if s.count == mts_inbox
    then (if private then (false, s) else (true, put (drop_oldest s) e))
    else (true, put s e)

-- The loop of mts_drain, `n` events long, and one round of it.
abbrev pub advance : Inbox → Inbox
advance s = record s { head = suc s.head % mts_inbox; count = s.count - 1 }

unfoldable pub drain_from : ℕ → Inbox → List Event × Inbox
drain_from zero s = ([], s)
drain_from (suc n) s =
    let rest = drain_from n (advance s) in (get_or s.slots s.head blank ∷ rest.0, rest.1)

-- The events for `out`, the number for `*skip`, and the inbox.
unfoldable pub drain : Inbox → ℕ → List Event × ℕ × Inbox
drain s out_cap =
    let n = if ltb s.count out_cap then s.count else out_cap in
    let got = drain_from n s in (got.0, got.1.skipped, record (got.1) { skipped = 0 })

pub record IsInbox (s : Inbox) : Type 0 where
  pub slots_full : length s.slots ≡ 128
  pub head_in : s.head < 128
  pub count_in : s.count ≤ 128

-- The abstract view: the waiting events, the oldest first.
unfoldable pub contents : Inbox → List Event
contents s = window blank s.slots 128 s.head s.count

-- What a queue of the given bound does.
unfoldable pub enqueue_spec : List Event → Event → Bool → Bool × List Event
enqueue_spec q e private =
    if length q == 128
    then (if private then (false, q) else (true, drop 1 q ++ e ∷ []))
    else (true, q ++ e ∷ [])

put-IsInbox : (s : Inbox) (e : Event) → IsInbox s → s.count < 128 → IsInbox (put s e)
unfolding put
put-IsInbox s e v h = record {
  slots_full = length-set s.slots ((s.head + s.count) % 128) e ∙ v.slots_full;
  head_in = v.head_in;
  count_in = omega arith;
}

drop_oldest-IsInbox : (s : Inbox) → IsInbox s → IsInbox (drop_oldest s)
unfolding drop_oldest
drop_oldest-IsInbox s v = record {
  slots_full = v.slots_full;
  head_in = omega arith;
  count_in = omega (arith, v.count_in);
}

pub contents-put :
    (s : Inbox) (e : Event) → IsInbox s → s.count < 128 → contents (put s e) ≡ contents s ++ e ∷ []
unfolding contents put
contents-put s e v h =
    let slots' = set s.slots ((s.head + s.count) % 128) e in
    let p = mod-wrap 128 (s.head + s.count) (omega (arith, v.head_in)) in
    let old =
      window-set blank s.slots 128 s.head s.count s.count e (omega arith) h
        (omega (arith, v.head_in)) in
    let new =
      get_or-set_self s.slots (wrap 128 (s.head + s.count)) e blank
        (ground (arith, v.slots_full, v.head_in)) in
    rw p (
      window-snoc blank (set s.slots (wrap 128 (s.head + s.count)) e) 128 s.head s.count
      ∙ rw (old, new) refl)

contents-drop_oldest :
    (s : Inbox) → IsInbox s → 0 < s.count → contents (drop_oldest s) ≡ drop 1 (contents s)
unfolding contents drop_oldest window
contents-drop_oldest s v h = go s.count h (v.count_in)
  where
    go :
        (n : ℕ)
        → 0 < n
        → n ≤ 128
        → window blank s.slots 128 (suc s.head % 128) (n - 1)
          ≡ drop 1 (window blank s.slots 128 s.head n)
    go zero p l = absurd (omega arith)
    go (suc n) p l =
        let one_less : suc n - 1 ≡ n = omega arith in
        let turn = mod-wrap 128 (suc s.head) (omega (arith, v.head_in)) in
        rw (one_less, turn)
          (window-wrap blank s.slots 128 (suc s.head) n (omega (arith, v.head_in)))

pub length-contents : (s : Inbox) → length (contents s) ≡ s.count
unfolding contents
length-contents s = length-window blank s.slots 128 s.head s.count

-- `enqueue` does to the waiting events what the queue does, and gives its answer.
pub enqueue-Refines :
    (s : Inbox) (e : Event) (private : Bool)
    → IsInbox s
    → ((enqueue s e private).0 ≡ (enqueue_spec (contents s) e private).0)
      × (contents (enqueue s e private).1 ≡ (enqueue_spec (contents s) e private).1)
unfolding enqueue enqueue_spec drop_oldest
enqueue-Refines s e private v = rw (length-contents s) (elim (Bool-cases (s.count == 128)) [
  | inl full ↦ elim (Bool-cases private) [
    | inl p ↦ rw (full, p) (refl, refl)
    | inr p ↦
        rw (full, p)
          (
            refl,
            contents-put (drop_oldest s) e (drop_oldest-IsInbox s v) (less full)
                ∙ ap (λ q. q ++ e ∷ []) (contents-drop_oldest s v (ground arith)),
          )
  ]
  | inr room ↦ rw room (refl, contents-put s e v (ground (arith, v.count_in)))
])
  where
    less : (s.count == 128) ≡ true → (drop_oldest s).count < 128
    less full = ground arith

pub enqueue-IsInbox :
    (s : Inbox) (e : Event) (private : Bool) → IsInbox s → IsInbox (enqueue s e private).1
unfolding enqueue
enqueue-IsInbox s e private v = ground (
  arith,
  put-IsInbox s e v,
  drop_oldest-IsInbox s v,
  put-IsInbox (drop_oldest s) e (drop_oldest-IsInbox s v),
)

contents-advance :
    (s : Inbox)
    → IsInbox s
    → 0 < s.count
    → contents s ≡ get_or s.slots s.head blank ∷ contents (advance s)
unfolding contents window drop_oldest
contents-advance s v h = go s.count h (v.count_in)
  where
    go :
        (n : ℕ)
        → 0 < n
        → n ≤ 128
        → window blank s.slots 128 s.head n
          ≡ get_or s.slots s.head blank ∷ window blank s.slots 128 (suc s.head % 128) (n - 1)
    go zero p l = absurd (omega arith)
    go (suc n) p l =
        let one_less : suc n - 1 ≡ n = omega arith in
        let turn = mod-wrap 128 (suc s.head) (omega (arith, v.head_in)) in
        let inside : wrap 128 s.head ≡ s.head = ground (arith, v.head_in) in
        rw
          (
            one_less,
            turn,
            inside,
            window-wrap blank s.slots 128 (suc s.head) n (omega (arith, v.head_in)),
          )
          refl

advance-IsInbox : (s : Inbox) → IsInbox s → IsInbox (advance s)
advance-IsInbox s v = record {
  slots_full = v.slots_full;
  head_in = omega arith;
  count_in = omega (arith, v.count_in);
}

drain_from-take :
    (n : ℕ) (s : Inbox) → IsInbox s → n ≤ s.count → (drain_from n s).0 ≡ take n (contents s)
unfolding drain_from
drain_from-take zero s v h = refl
drain_from-take (suc n) s v h = rw (contents-advance s v (omega arith)) (
    ap (λ l. get_or s.slots s.head blank ∷ l)
      (drain_from-take n (advance s) (advance-IsInbox s v) (omega arith)))

drain_from-drop :
    (n : ℕ) (s : Inbox)
    → IsInbox s
    → n ≤ s.count
    → contents (drain_from n s).1 ≡ drop n (contents s)
unfolding drain_from
drain_from-drop zero s v h = refl
drain_from-drop (suc n) s v h =
    rw (contents-advance s v (omega arith))
      (drain_from-drop n (advance s) (advance-IsInbox s v) (omega arith))

drain_from-IsInbox : (n : ℕ) (s : Inbox) → IsInbox s → IsInbox (drain_from n s).1
unfolding drain_from
drain_from-IsInbox zero s v = v
drain_from-IsInbox (suc n) s v = drain_from-IsInbox n (advance s) (advance-IsInbox s v)

drain_from-skipped : (n : ℕ) (s : Inbox) → (drain_from n s).1.skipped ≡ s.skipped
unfolding drain_from
drain_from-skipped zero s = refl
drain_from-skipped (suc n) s = drain_from-skipped n (advance s)

take_all : (xs : List Event) (n : ℕ) → length xs ≤ n → take n xs ≡ take (length xs) xs
take_all [] zero h = refl
take_all [] (suc n) h = refl
take_all (x ∷ xs) zero h = absurd (omega arith)
take_all (x ∷ xs) (suc n) h = ap (λ l. x ∷ l) (take_all xs n (omega arith))

drop_all : (xs : List Event) (n : ℕ) → length xs ≤ n → drop n xs ≡ drop (length xs) xs
drop_all [] zero h = refl
drop_all [] (suc n) h = refl
drop_all (x ∷ xs) zero h = absurd (omega arith)
drop_all (x ∷ xs) (suc n) h = drop_all xs n (omega arith)

abbrev rounds : Inbox → ℕ → ℕ
rounds s out_cap = if ltb s.count out_cap then s.count else out_cap

rounds-take :
    (s : Inbox) (out_cap : ℕ)
    → (take (rounds s out_cap) (contents s) ≡ take out_cap (contents s))
      × (drop (rounds s out_cap) (contents s) ≡ drop out_cap (contents s))
rounds-take s out_cap =
    ground (arith, length-contents s, take_all (contents s) out_cap, drop_all (contents s) out_cap)

pub drain-Refines :
    (s : Inbox) (out_cap : ℕ)
    → IsInbox s
    → ((drain s out_cap).0 ≡ take out_cap (contents s))
      × ((drain s out_cap).1 ≡ s.skipped)
      × (contents (drain s out_cap).2 ≡ drop out_cap (contents s))
      × ((drain s out_cap).2.skipped ≡ 0)
      × IsInbox (drain s out_cap).2
unfolding drain contents
drain-Refines s out_cap v =
    let small : rounds s out_cap ≤ s.count = ground arith in
    let kept = drain_from-IsInbox (rounds s out_cap) s v in
    (
      drain_from-take (rounds s out_cap) s v small ∙ (rounds-take s out_cap).0,
      drain_from-skipped (rounds s out_cap) s,
      drain_from-drop (rounds s out_cap) s v small ∙ (rounds-take s out_cap).1,
      refl,
      record { slots_full = kept.slots_full; head_in = kept.head_in; count_in = kept.count_in },
    )
