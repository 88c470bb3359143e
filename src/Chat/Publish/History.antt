-- ===== src/Chat/Publish/History.antt =====
-- The history of a chat room, a ring in mts_publish of plugins/chat/mts_state.c.
use mutineer.Prelude.{
  ℕ, zero, suc, ◌+◌, ◌-◌, ◌%◌, ◌≤◌, ◌<◌, ◌≡◌, refl, sym, ap, ◌∙◌, subst, inl, inr, true, false,
  List, [], ◌∷◌, ◌++◌, append-nil, append_assoc, ltb, ◌==◌, ==_iff, if◌then◌else◌, Bool-cases,
  length, length-append, set, length-set, drop, length-drop, arith,
}
use native.Mathlib.Nat.{mod-lt}
use mutineer.Chat.{Event, blank, Room}
use mutineer.Chat.Ring.{
  wrap, mod-wrap, window, length-window, get_or-set_self, window-wrap, window-snoc, window-set,
}
use mutineer.Chat.Publish.{remember}

-- The events that a room remembers, the oldest first.
unfoldable pub remembered : Room → List Event
remembered r = window blank r.history r.history_capacity r.history_head r.history_count

pub record IsHistory (r : Room) : Type 0 where
  pub slots_full : length r.history ≡ r.history_capacity
  pub head_in : r.history_head < r.history_capacity
  pub count_in : r.history_count ≤ r.history_capacity

unfoldable pub remember_all : List Event → Room → Room
remember_all [] r = r
remember_all (e ∷ es) r = remember_all es (remember e r)

-- The last n of a list.
abbrev pub last : ℕ → List Event → List Event
last n xs = drop (length xs - n) xs

-- The ring with room left, and the full one, over the array itself.
add_room :
    (slots : List Event) (size head count : ℕ) (e : Event)
    → length slots ≡ size
    → head < size
    → count < size
    → window blank (set slots ((head + count) % size) e) size head (count + 1)
      ≡ window blank slots size head count ++ e ∷ []
add_room slots size head count e l h c =
    let p = mod-wrap size (head + count) (omega arith) in
    let old = window-set blank slots size head count count e (omega arith) c (omega arith) in
    let new = get_or-set_self slots (wrap size (head + count)) e blank (ground arith) in
    let next : count + 1 ≡ suc count = omega arith in
    rw (next, p)
      (window-snoc blank (set slots (wrap size (head + count)) e) size head count
        ∙ rw (old, new) refl)

window-drop :
    (slots : List Event) (size head n : ℕ)
    → drop 1 (window blank slots size head (suc n)) ≡ window blank slots size (suc head) n
unfolding window
window-drop slots size head n = refl

add_full :
    (slots : List Event) (m head : ℕ) (e : Event)
    → length slots ≡ suc m
    → head < suc m
    → window blank
        (set slots (((head + 1) % suc m + suc m - 1) % suc m) e)
        (suc m)
        ((head + 1) % suc m)
        (suc m)
      ≡ drop 1 (window blank slots (suc m) head (suc m)) ++ e ∷ []
add_full slots m head e l h =
    let next : head + 1 ≡ suc head = omega arith in
    let top = wrap (suc m) (suc head) in
    let turn : (head + 1) % suc m ≡ top = rw next (mod-wrap (suc m) (suc head) (omega arith)) in
    let top_in : top < suc m = ground arith in
    let less : top + suc m - 1 ≡ top + m = omega arith in
    let place : ((head + 1) % suc m + suc m - 1) % suc m ≡ wrap (suc m) (top + m) =
      rw (turn, less) (mod-wrap (suc m) (top + m) (omega arith)) in
    let old = window-set blank slots (suc m) top m m e (omega arith) (omega arith) (omega arith) in
    let new = get_or-set_self slots (wrap (suc m) (top + m)) e blank (ground arith) in
    let kept = window-wrap blank slots (suc m) (suc head) m (omega arith) in
    rw (place, turn, window-drop slots (suc m) head m)
      (window-snoc blank (set slots (wrap (suc m) (top + m)) e) (suc m) top m
        ∙ rw (old, new, kept) refl)

add_full_any :
    (slots : List Event) (size head : ℕ) (e : Event)
    → length slots ≡ size
    → head < size
    → window blank
        (set slots (((head + 1) % size + size - 1) % size) e)
        size
        ((head + 1) % size)
        size
      ≡ drop 1 (window blank slots size head size) ++ e ∷ []
add_full_any slots zero head e l h = absurd (omega arith)
add_full_any slots (suc m) head e l h = add_full slots m head e l h

remember-capacity : (e : Event) (r : Room) → (remember e r).history_capacity ≡ r.history_capacity
unfolding remember
remember-capacity e r = ground arith

remember-IsHistory : (e : Event) (r : Room) → IsHistory r → IsHistory (remember e r)
unfolding remember
remember-IsHistory e r v = elim (Bool-cases (r.history_count == r.history_capacity)) [
  | inl t ↦ rw t record {
    slots_full = length-set r.history _ e ∙ v.slots_full;
    head_in = mod-lt (r.history_head + 1) (omega (arith, v.head_in));
    count_in = v.count_in;
  }
  | inr t ↦ rw t record {
    slots_full = length-set r.history _ e ∙ v.slots_full;
    head_in = v.head_in;
    count_in = ground (arith, v.count_in);
  }
]

-- What remembering one more event does to a list of the last ones.
abbrev pub remember_spec : ℕ → List Event → Event → List Event
remember_spec size q e = if length q == size then drop 1 q ++ e ∷ [] else q ++ e ∷ []

remember-Refines :
    (e : Event) (r : Room)
    → IsHistory r
    → remembered (remember e r) ≡ remember_spec r.history_capacity (remembered r) e
unfolding remember remembered
remember-Refines e r v =
    let n = length-window blank r.history r.history_capacity r.history_head r.history_count in
    elim (Bool-cases (r.history_count == r.history_capacity)) [
      | inl t ↦
          rw (n, t)
            (subst
              (λ c.
                window blank
                  (set r.history
                    (((r.history_head + 1) % r.history_capacity + c - 1) % r.history_capacity) e)
                  r.history_capacity ((r.history_head + 1) % r.history_capacity) c
                ≡ drop 1 (window blank r.history r.history_capacity r.history_head c) ++ e ∷ [])
              (sym ((==_iff r.history_count r.history_capacity).0 t))
              (add_full_any r.history r.history_capacity r.history_head e v.slots_full v.head_in))
      | inr t ↦
          rw (n, t)
            (add_room r.history r.history_capacity r.history_head r.history_count e v.slots_full
              v.head_in (ground (arith, v.count_in)))
    ]

drop_one : (k : ℕ) (xs : List Event) → drop 1 (drop k xs) ≡ drop (suc k) xs
drop_one zero xs = refl
drop_one (suc k) [] = refl
drop_one (suc k) (x ∷ xs) = drop_one k xs

drop-append : (k : ℕ) (xs ys : List Event) → k ≤ length xs → drop k (xs ++ ys) ≡ drop k xs ++ ys
drop-append zero xs ys h = refl
drop-append (suc k) [] ys h = absurd (omega arith)
drop-append (suc k) (x ∷ xs) ys h = drop-append k xs ys (omega arith)

last-spec :
    (size : ℕ) (xs : List Event) (e : Event)
    → 0 < size
    → remember_spec size (last size xs) e ≡ last size (xs ++ e ∷ [])
last-spec size xs e p =
    let kept = length-drop (length xs - size) xs in
    let grown = length-append xs (e ∷ []) in
    elim (Bool-cases (ltb (length xs) size)) [
      | inl small ↦
          let none : length xs - size ≡ 0 = ground arith in
          let none' : length (xs ++ e ∷ []) - size ≡ 0 = ground (arith, grown) in
          let room : (length xs == size) ≡ false = ground arith in rw (none, none', room) refl
      | inr large ↦
          let more : length (xs ++ e ∷ []) - size ≡ suc (length xs - size) =
            ground (arith, grown) in
          let full : (length (drop (length xs - size) xs) == size) ≡ true = ground (arith, kept) in
          rw (full, more)
            (ap (λ l. l ++ e ∷ []) (drop_one (length xs - size) xs)
              ∙ sym (drop-append (suc (length xs - size)) xs (e ∷ []) (ground arith)))
    ]

remember_all_from :
    (es : List Event) (r : Room) (xs : List Event)
    → IsHistory r
    → remembered r ≡ last r.history_capacity xs
    → remembered (remember_all es r) ≡ last r.history_capacity (xs ++ es)
unfolding remember_all
remember_all_from [] r xs v h = rw (append-nil xs) h
remember_all_from (e ∷ es) r xs v h =
    let size = remember-capacity e r in
    let now : remembered (remember e r) ≡ last r.history_capacity (xs ++ e ∷ []) =
      remember-Refines e r v
      ∙ ap (λ q. remember_spec r.history_capacity q e) h
      ∙ last-spec r.history_capacity xs e (omega (arith, v.head_in)) in
    let rest =
      remember_all_from es (remember e r) (xs ++ e ∷ []) (remember-IsHistory e r v)
        (subst (λ c. remembered (remember e r) ≡ last c (xs ++ e ∷ [])) (sym size) now) in
    rest
    ∙ ap (λ c. last c ((xs ++ e ∷ []) ++ es)) size
    ∙ ap (last r.history_capacity) (append_assoc xs (e ∷ []) es)

-- A room whose history has n places and is empty remembers just the last n events of those posted
-- to it afterwards, in their order.
pub remember_all-last :
    (es : List Event) (r : Room)
    → IsHistory r
    → r.history_count ≡ 0
    → remembered (remember_all es r) ≡ last r.history_capacity es
unfolding remembered window
remember_all-last es r v z = remember_all_from es r [] v (
    ap (λ n. window blank r.history r.history_capacity r.history_head n) z
    ∙ nothing r.history_capacity)
  where
    less : (n : ℕ) → 0 - n ≡ 0
    less n = omega arith

    nothing : (n : ℕ) → [] ≡ last n []
    nothing n = rw (less n) refl
