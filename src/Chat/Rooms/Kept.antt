-- ===== src/Chat/Rooms/Kept.antt =====
-- What mts_publish of plugins/chat/mts_state.c leaves alone: the sessions, their rooms, and which
-- rooms are open.
use mutineer.Prelude.{
  ℕ, ◌+◌, ◌%◌, ◌^◌, ◌≡◌, ◌∙◌, refl, inl, inr, true, not, ◌&&◌, Option, none, some, List, [], ◌∷◌,
  ◌==◌, Bool-cases, arith,
}
use mutineer.Chat.{EventType, afk_response, Event, Session, Room, State}
use mutineer.Chat.Publish.{
  Host, is_personal, update, make_event, recipients, passed_over, posted, answers_away, Delivery,
  deliver_one, deliver, notify, remember, remember_in, publish_once, answer_all, afk_text, publish,
}
use mutineer.Chat.Publish.Recipients.{member}
use mutineer.Chat.Rooms.{is_room, is_open}

pub update-room_id :
    (heap : ℕ → Session) (p q : ℕ) (s : Session)
    → s.room_id ≡ (heap p).room_id
    → (update heap p s q).room_id ≡ (heap q).room_id
update-room_id heap p q s h = elim (Bool-cases (q == p)) [
  | inl t ↦ let same : q ≡ p = ground (arith, t) in rw (t, same) h
  | inr t ↦ rw t refl
]

deliver_one-room_id :
    (h : Host) (f : Option ℕ) (e : Event) (d : Delivery) (p q : ℕ)
    → ((deliver_one h f e d p).heap q).room_id ≡ (d.heap q).room_id
unfolding deliver_one
deliver_one-room_id h f e d p q = elim (Bool-cases (passed_over h f e d.heap p)) [
  | inl t ↦ rw t refl
  | inr t ↦ elim (Bool-cases (answers_away (posted (d.heap p) e) e f)) [
    | inl u ↦ rw (t, u) (update-room_id (d.heap) p q _ refl)
    | inr u ↦ rw (t, u) (update-room_id (d.heap) p q _ refl)
  ]
]

deliver-room_id :
    (h : Host) (f : Option ℕ) (e : Event) (d : Delivery) (ps : List ℕ) (q : ℕ)
    → ((deliver h f e d ps).heap q).room_id ≡ (d.heap q).room_id
unfolding deliver
deliver-room_id h f e d [] q = refl
deliver-room_id h f e d (p ∷ ps) q =
    deliver-room_id h f e (deliver_one h f e d p) ps q ∙ deliver_one-room_id h f e d p q

notify-room_id :
    (f : Option ℕ) (e : Event) (d : Delivery) (q : ℕ)
    → (notify f e d q).room_id ≡ (d.heap q).room_id
unfolding notify
notify-room_id none e d q = refl
notify-room_id (some f) e d q = elim (Bool-cases (d.failed == 0)) [
  | inl t ↦ rw t refl
  | inr t ↦ rw t (update-room_id (d.heap) f q _ refl)
]

remember-is_room : (e : Event) (r : Room) (room : ℕ) → is_room room (remember e r) ≡ is_room room r
unfolding remember
remember-is_room e r room = elim (Bool-cases (r.history_count == r.history_capacity)) [
  | inl t ↦ rw t refl
  | inr t ↦ rw t refl
]

remember_in-is_open :
    (e : Event) (rs : List Room) (room : ℕ) → is_open (remember_in e rs) room ≡ is_open rs room
unfolding remember_in is_open
remember_in-is_open e [] room = refl
remember_in-is_open e (r ∷ rs) room =
    elim (Bool-cases (r.active && r.id == e.room_id && not (r.history_capacity == 0))) [
      | inl t ↦ rw (t, remember-is_room e r room, remember_in-is_open e rs room) refl
      | inr t ↦ rw (t, remember_in-is_open e rs room) refl
    ]

-- The second state has no other sessions, each is in the same room, and the same rooms are open.
pub record Keeps (st st' : State) : Type 0 where
  pub sessions_in : (q : ℕ) → member q st'.sessions ≡ true → member q st.sessions ≡ true
  pub places_same : (q : ℕ) → (st'.heap q).room_id ≡ (st.heap q).room_id
  pub open_same : (room : ℕ) → is_open st'.rooms room ≡ is_open st.rooms room

pub Keeps-refl : (st : State) → Keeps st st
Keeps-refl st = record { sessions_in = λ q m. m; places_same = λ q. refl; open_same = λ r. refl }

pub Keeps-trans : (st st' st'' : State) → Keeps st st' → Keeps st' st'' → Keeps st st''
Keeps-trans st st' st'' k l = record {
  sessions_in = λ q m. k.sessions_in q (l.sessions_in q m);
  places_same = λ q. l.places_same q ∙ k.places_same q;
  open_same = λ r. l.open_same r ∙ k.open_same r;
}

publish_once-Keeps :
    (h : Host) (st : State) (f : Option ℕ) (type : EventType) (room target : ℕ)
    (tn : Option (List ℕ)) (text : List ℕ)
    → Keeps st (publish_once h st f type room target tn text).0
unfolding publish_once
publish_once-Keeps h st f type room target tn text =
    let e = make_event h st f type room target tn text in
    let st' : State = record st { next_sequence = (st.next_sequence + 1) % 2 ^ 64 } in
    let start : Delivery = record { heap = st.heap; failed = 0; auto_reply = [] } in
    let ps = recipients st' e st.sessions in
    record {
      sessions_in = λ q m. m;
      places_same =
          λ q. notify-room_id f e (deliver h f e start ps) q ∙ deliver-room_id h f e start ps q;
      open_same = λ r. elim (Bool-cases (is_personal type)) [
        | inl t ↦ rw t refl
        | inr t ↦ rw t (remember_in-is_open e (st.rooms) r)
      ];
    }

answer_all-Keeps : (h : Host) (st : State) (f : ℕ) (ps : List ℕ) → Keeps st (answer_all h st f ps)
unfolding answer_all
answer_all-Keeps h st f [] = Keeps-refl st
answer_all-Keeps h st f (p ∷ ps) =
    let next =
      (publish_once h st (some p) afk_response 0 (st.heap f).user_id (some (st.heap f).handle)
        (afk_text (st.heap p))).0 in
    Keeps-trans st next (answer_all h next f ps)
      (publish_once-Keeps h st (some p) afk_response 0 (st.heap f).user_id (some (st.heap f).handle)
        (afk_text (st.heap p)))
      (answer_all-Keeps h next f ps)

pub publish-Keeps :
    (h : Host) (st : State) (f : Option ℕ) (type : EventType) (room target : ℕ)
    (tn : Option (List ℕ)) (text : List ℕ)
    → Keeps st (publish h st f type room target tn text)
unfolding publish
publish-Keeps h st none type room target tn text =
    publish_once-Keeps h st none type room target tn text
publish-Keeps h st (some f) type room target tn text =
    let once = publish_once h st (some f) type room target tn text in
    Keeps-trans st (once.0) (answer_all h once.0 f once.1)
      (publish_once-Keeps h st (some f) type room target tn text)
      (answer_all-Keeps h once.0 f once.1)
