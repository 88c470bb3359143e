-- ===== src/Chat/Rooms/Housed.antt =====
-- Which callers are in an open room, and what the sections of mts_join, mts_leave and mts_publish of
-- plugins/chat/mts_state.c do to that.
use mutineer.Prelude.{
  ℕ, zero, suc, ◌≡◌, ap, refl, subst, inl, inr, Bool, true, false, not, ◌&&◌, ◌||◌, Option, none,
  some, List, [], ◌∷◌, ◌==◌, Bool-cases, Option-cases, arith,
}
use mutineer.Chat.{Session, Room, State}
use mutineer.Chat.Publish.Recipients.{member}
use mutineer.Chat.Rooms.{
  Access, is_room, occupied, or_first, slot, close_at, close_empty, move_to, mute, noted, is_open,
}
use mutineer.Chat.Rooms.Kept.{Keeps, update-room_id}

-- Each session of the list, but for those named, is in no room yet (0) or in one that is open.
pub record IsHoused (strays : List ℕ) (st : State) : Type 0 where
  pub place_open :
      (p : ℕ)
      → member p st.sessions ≡ true
      → member p strays ≡ false
      → ((st.heap p).room_id == 0 || is_open st.rooms (st.heap p).room_id) ≡ true

pub Keeps-IsHoused :
    {ps : List ℕ} (st st' : State) → Keeps st st' → IsHoused ps st → IsHoused ps st'
Keeps-IsHoused st st' k v = record {
  place_open = λ p m n.
      rw (k.places_same p, k.open_same ((st.heap p).room_id))
        (v.place_open p (k.sessions_in p m) n);
}

other_id :
    (r : Room) (old q : ℕ)
    → (q == old) ≡ false
    → (is_room old r && not r.permanent) ≡ true
    → is_room q r ≡ false
other_id r old q ne t = ground (arith, t, ne)

-- Closing a room leaves the rooms of other ids open.
close_slot-is_open :
    (rs : List Room) (old q i : ℕ)
    → (q == old) ≡ false
    → slot rs old ≡ some i
    → is_open (close_at rs i) q ≡ is_open rs q
unfolding slot close_at is_open
close_slot-is_open [] old q i ne h = absurd (cc h)
close_slot-is_open (r ∷ rs) old q i ne h =
    go (is_room old r && not r.permanent) (other_id r old q ne) (slot rs old) i h
      (λ k e. close_slot-is_open rs old q k ne e)
  where
    go :
        (here : Bool)
        → (here ≡ true → is_room q r ≡ false)
        → (o : Option ℕ) (j : ℕ) → or_first here o ≡ some j
        → ((k : ℕ) → o ≡ some k → is_open (close_at rs k) q ≡ is_open rs q)
        → is_open (close_at (r ∷ rs) j) q ≡ is_open (r ∷ rs) q
    go here apart (some k) zero g rec = absurd (cc g)
    go here apart (some k) (suc j) g rec =
        let down : suc k ≡ suc j = cc g in
        ap (λ b. is_room q r || b) (rec j (ap some (omega (arith, down))))
    go true apart none zero g rec = rw (apart refl) refl
    go true apart none (suc j) g rec = absurd (cc g)
    go false apart none j g rec = absurd (cc g)

or_false : (a b : Bool) → (a || b) ≡ false → (a ≡ false) × (b ≡ false)
or_false true b h = absurd (cc h)
or_false false b h = (refl, h)

pub or_true : (a b : Bool) → (a || b) ≡ true → a ≡ false → b ≡ true
or_true a b h e = subst (λ c. (c || b) ≡ true) e h

occupied-member :
    (heap : ℕ → Session) (ps : List ℕ) (room p : ℕ)
    → occupied heap ps room ≡ false
    → member p ps ≡ true
    → ((heap p).room_id == room) ≡ false
unfolding occupied
occupied-member heap [] room p h m = absurd (cc m)
occupied-member heap (q ∷ ps) room p h m =
    let split = or_false ((heap q).room_id == room) (occupied heap ps room) h in
    elim (Bool-cases (q == p)) [
      | inl t ↦
          let same : q ≡ p = ground (arith, t) in
          subst (λ x. ((heap x).room_id == room) ≡ false) same (split.0)
      | inr t ↦ occupied-member heap ps room p (split.1) (or_true (q == p) (member p ps) m t)
    ]

pub close_empty-IsHoused :
    {ps : List ℕ} (st : State) (old : ℕ) → IsHoused ps st → IsHoused ps (close_empty st old)
unfolding close_empty
close_empty-IsHoused st old v = elim (Bool-cases (occupied st.heap st.sessions old)) [
  | inl t ↦ rw t v
  | inr t ↦ elim (Option-cases (slot st.rooms old)) [
    | inl u ↦ rw (t, u) v
    | inr u ↦
        rw (t, u.1)
          (record {
            place_open = λ p m n.
                rw
                  (close_slot-is_open (st.rooms) old ((st.heap p).room_id) (u.0)
                    (occupied-member (st.heap) (st.sessions) old p t m) (u.1))
                  (v.place_open p m n);
          })
  ]
]

-- A move to an open room, or one that is noted.
pub move_to-IsHoused :
    (strays : List ℕ) (st : State) (p room : ℕ) (still : Bool)
    → is_open st.rooms room ≡ still
    → IsHoused strays st
    → IsHoused (noted still p strays) (move_to st p room)
move_to-IsHoused strays st p room true o v = record {
  place_open = λ q m n. elim (Bool-cases (q == p)) [
    | inl t ↦ rw (t, o) (ground arith)
    | inr t ↦ rw t (v.place_open q m n)
  ];
}
move_to-IsHoused strays st p room false o v = record {
  place_open = λ q m n. elim (Bool-cases (q == p)) [
    | inl t ↦ absurd (ground (arith, t, n))
    | inr t ↦ rw t (v.place_open q m (ground (arith, t, n)))
  ];
}

pub mute-Keeps : (a : Access) (st : State) (p room : ℕ) → Keeps st (mute a st p room)
mute-Keeps a st p room = record {
  sessions_in = λ q m. m;
  places_same = λ q. update-room_id (st.heap) p q _ refl;
  open_same = λ r. refl;
}
