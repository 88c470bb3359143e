-- ===== src/Chat/Publish/Recipients.antt =====
-- Who gets an event of mts_publish, plugins/chat/mts_state.c.
use mutineer.Prelude.{
  ℕ, ◌+◌, ◌%◌, ◌^◌, ◌≡◌, refl, ◌∙◌, inl, inr, Bool, true, false, not, ◌&&◌, ◌||◌, Option, none,
  some, List, [], ◌∷◌, ◌==◌, ==_iff, ==-refl, if◌then◌else◌, Bool-cases, arith,
}
use mutineer.Chat.{
  EventType, Event, Session, Room, State, public, directed, private, action, system, presence,
  moderation, announcement, afk_response,
}
use mutineer.Chat.Queue.{enqueue}
use mutineer.Chat.Publish.{
  Host, is_personal, is_private, relates, update, make_event, room_private, wants, recipients,
  passed_over, posted, Delivery, deliver_one, deliver, notify, publish_once, answer_all, publish,
}

abbrev pub member : ℕ → List ℕ → Bool
member p [] = false
member p (q ∷ ps) = q == p || member p ps

abbrev pub no_duplicates : List ℕ → Bool
no_duplicates [] = true
no_duplicates (p ∷ ps) = not (member p ps) && no_duplicates ps

enqueue-public : (d : Session) (e : Event) → (enqueue (d.inbox) e false).0 ≡ true
unfolding enqueue
enqueue-public d e = ground arith

personal-private : (t : EventType) → is_personal t ≡ false → is_private t ≡ false
personal-private private h = ground arith
personal-private afk_response h = refl
personal-private _ h = refl

-- One round of the loop, for an event that is not personal.
deliver_one-public :
    (h : Host) (f : Option ℕ) (e : Event) (d : Delivery) (p : ℕ)
    → is_personal e.event_type ≡ false
    → deliver_one h f e d p ≡ (
        if passed_over h f e d.heap p
        then d
        else record d { heap = update d.heap p (posted (d.heap p) e) })
unfolding deliver_one
deliver_one-public h none e d p n = rw (n, enqueue-public (d.heap p) e) refl
deliver_one-public h (some f) e d p n =
    rw (n, personal-private (e.event_type) n, enqueue-public (d.heap p) e) refl

step_elsewhere :
    (h : Host) (f : Option ℕ) (e : Event) (d : Delivery) (p q : ℕ)
    → is_personal e.event_type ≡ false
    → (q == p) ≡ false
    → (deliver_one h f e d p).heap q ≡ d.heap q
step_elsewhere h f e d p q n ne =
    rw (deliver_one-public h f e d p n) (elim (Bool-cases (passed_over h f e d.heap p)) [
      | inl t ↦ rw t refl
      | inr t ↦ rw (t, ne) refl
    ])

step-user_id :
    (h : Host) (f : Option ℕ) (e : Event) (d : Delivery) (p q : ℕ)
    → is_personal e.event_type ≡ false
    → ((deliver_one h f e d p).heap q).user_id ≡ (d.heap q).user_id
step-user_id h f e d p q n =
    rw (deliver_one-public h f e d p n) (elim (Bool-cases (passed_over h f e d.heap p)) [
      | inl t ↦ rw t refl
      | inr t ↦ elim (Bool-cases (q == p)) [
        | inl u ↦ rw (t, u, (==_iff q p).0 u) refl
        | inr u ↦ rw (t, u) refl
      ]
    ])

step-failed :
    (h : Host) (f : Option ℕ) (e : Event) (d : Delivery) (p : ℕ)
    → is_personal e.event_type ≡ false
    → (deliver_one h f e d p).failed ≡ d.failed
step-failed h f e d p n =
    rw (deliver_one-public h f e d p n)
      (elim (Bool-cases (passed_over h f e d.heap p)) [ inl t ↦ rw t refl | inr t ↦ rw t refl ])

step-auto_reply :
    (h : Host) (f : Option ℕ) (e : Event) (d : Delivery) (p : ℕ)
    → is_personal e.event_type ≡ false
    → (deliver_one h f e d p).auto_reply ≡ d.auto_reply
step-auto_reply h f e d p n =
    rw (deliver_one-public h f e d p n)
      (elim (Bool-cases (passed_over h f e d.heap p)) [ inl t ↦ rw t refl | inr t ↦ rw t refl ])

passed_over_same :
    (h : Host) (f : Option ℕ) (e : Event) (x y : ℕ → Session) (p : ℕ)
    → x p ≡ y p
    → ((q : ℕ) → (x q).user_id ≡ (y q).user_id)
    → passed_over h f e x p ≡ passed_over h f e y p
unfolding passed_over
passed_over_same h none e x y p s u = rw s refl
passed_over_same h (some f) e x y p s u = rw (s, u f) refl

deliver-failed :
    (h : Host) (f : Option ℕ) (e : Event) (d : Delivery) (ps : List ℕ)
    → is_personal e.event_type ≡ false
    → ((deliver h f e d ps).failed ≡ d.failed) × ((deliver h f e d ps).auto_reply ≡ d.auto_reply)
unfolding deliver
deliver-failed h f e d [] n = (refl, refl)
deliver-failed h f e d (p ∷ ps) n =
    let rest = deliver-failed h f e (deliver_one h f e d p) ps n in
    (rest.0 ∙ step-failed h f e d p n, rest.1 ∙ step-auto_reply h f e d p n)

deliver_elsewhere :
    (h : Host) (f : Option ℕ) (e : Event) (d : Delivery) (ps : List ℕ) (q : ℕ)
    → is_personal e.event_type ≡ false
    → member q ps ≡ false
    → (deliver h f e d ps).heap q ≡ d.heap q
unfolding deliver
deliver_elsewhere h f e d [] q n m = refl
deliver_elsewhere h f e d (p ∷ ps) q n m =
    deliver_elsewhere h f e (deliver_one h f e d p) ps q n (ground arith)
    ∙ step_elsewhere h f e d p q n (ground arith)

-- The second loop as a whole: one copy for each recipient that is not passed over.
deliver-public :
    (h : Host) (f : Option ℕ) (e : Event) (d : Delivery) (ps : List ℕ) (q : ℕ)
    → is_personal e.event_type ≡ false
    → no_duplicates ps ≡ true
    → (deliver h f e d ps).heap q
      ≡ (if member q ps && not (passed_over h f e d.heap q) then posted (d.heap q) e else d.heap q)
unfolding deliver
deliver-public h f e d [] q n u = refl
deliver-public h f e d (p ∷ ps) q n u = elim (Bool-cases (q == p)) [
  | inl t ↦
      let same = (==_iff q p).0 t in
      let away : member q ps ≡ false = rw same (ground arith) in
      let other : (p == q) ≡ true = rw same (==-refl p) in
      deliver_elsewhere h f e (deliver_one h f e d p) ps q n away
      ∙ rw (other, deliver_one-public h f e d p n, same)
          (elim (Bool-cases (passed_over h f e d.heap p)) [
            | inl o ↦ rw o refl
            | inr o ↦ rw (o, ==-refl p) refl
          ])
  | inr t ↦
      let other : (p == q) ≡ false = ground arith in
      let still = step_elsewhere h f e d p q n t in
      let judged =
        passed_over_same h f e (deliver_one h f e d p).heap d.heap q still
          (λ x. step-user_id h f e d p x n) in
      deliver-public h f e (deliver_one h f e d p) ps q n (ground arith)
      ∙ rw (other, judged, still) refl
]

member-recipients :
    (st : State) (e : Event) (ps : List ℕ) (q : ℕ)
    → member q (recipients st e ps) ≡ member q ps && wants st e (st.heap q)
unfolding recipients
member-recipients st e [] q = refl
member-recipients st e (p ∷ ps) q = elim (Bool-cases (p == q)) [
  | inl t ↦ elim (Bool-cases (wants st e (st.heap p))) [
    | inl w ↦ rw (w, t, ← (==_iff p q).0 t, w) refl
    | inr w ↦
        let away : wants st e (st.heap q) ≡ false = rw ((==_iff p q).0 t) at w in
        rw (w, member-recipients st e ps q, t, away) (ground arith)
  ]
  | inr t ↦ elim (Bool-cases (wants st e (st.heap p))) [
    | inl w ↦ rw (w, t) (member-recipients st e ps q)
    | inr w ↦ rw (w, t) (member-recipients st e ps q)
  ]
]

no_duplicates-recipients :
    (st : State) (e : Event) (ps : List ℕ)
    → no_duplicates ps ≡ true
    → no_duplicates (recipients st e ps) ≡ true
unfolding recipients
no_duplicates-recipients st e [] u = refl
no_duplicates-recipients st e (p ∷ ps) u =
    ground (arith, member-recipients st e ps p, no_duplicates-recipients st e ps)

make_event-public :
    (h : Host) (st : State) (f : Option ℕ) (type : EventType) (room target : ℕ)
    (tn : Option (List ℕ)) (text : List ℕ)
    → is_personal type ≡ false
    → is_personal ((make_event h st f type room target tn text).event_type) ≡ false
unfolding make_event
make_event-public h st f type room target tn text n = n

wants_later :
    (st : State) (n : ℕ) (e : Event) (s : Session)
    → wants (record st { next_sequence = n }) e s ≡ wants st e s
unfolding wants
wants_later st n e s = refl

-- Both loops of a call.
sent :
    (h : Host) (st : State) (f : Option ℕ) (e : Event) (n q : ℕ)
    → is_personal e.event_type ≡ false
    → no_duplicates st.sessions ≡ true
    → (deliver h f e
          (record { heap = st.heap; failed = 0; auto_reply = [] })
          (recipients (record st { next_sequence = n }) e st.sessions)).heap
        q
      ≡ (if (member q st.sessions && wants st e (st.heap q)) && not (passed_over h f e st.heap q)
          then posted (st.heap q) e
          else st.heap q)
sent h st f e n q quiet u =
    let later = record st { next_sequence = n } in
    deliver-public h f e (record { heap = st.heap; failed = 0; auto_reply = [] })
      (recipients later e st.sessions) q quiet (no_duplicates-recipients later e st.sessions u)
    ∙ rw (member-recipients later e st.sessions q, wants_later st n e (st.heap q)) refl

publish-sent :
    (h : Host) (st : State) (f : Option ℕ) (type : EventType) (room target : ℕ)
    (tn : Option (List ℕ)) (text : List ℕ) (q : ℕ)
    → is_personal type ≡ false
    → no_duplicates st.sessions ≡ true
    → (publish h st f type room target tn text).heap q ≡ (
        if (member q st.sessions
            && wants st (make_event h st f type room target tn text) (st.heap q))
          && not (passed_over h f (make_event h st f type room target tn text) st.heap q)
        then posted (st.heap q) (make_event h st f type room target tn text)
        else st.heap q)
unfolding publish publish_once notify answer_all
publish-sent h st none type room target tn text q n u =
    sent h st none (make_event h st none type room target tn text) ((st.next_sequence + 1) % 2 ^ 64)
      q (make_event-public h st none type room target tn text n) u
publish-sent h st (some f) type room target tn text q n u =
    let e = make_event h st (some f) type room target tn text in
    let later = record st { next_sequence = (st.next_sequence + 1) % 2 ^ 64 } in
    let e_public = make_event-public h st (some f) type room target tn text n in
    let quiet =
      deliver-failed h (some f) e (record { heap = st.heap; failed = 0; auto_reply = [] })
        (recipients later e st.sessions) e_public in
    rw (quiet.1, quiet.0) (sent h st (some f) e ((st.next_sequence + 1) % 2 ^ 64) q e_public u)

-- Whether a room of the id is open, and whether the last one is private.
abbrev pub any_open : List Room → ℕ → Bool
any_open [] room = false
any_open (r ∷ rs) room = (r.active && r.id == room) || any_open rs room

abbrev pub is_hidden : List Room → ℕ → Bool
is_hidden [] room = false
is_hidden (r ∷ rs) room =
    if any_open rs room then is_hidden rs room else (r.active && r.id == room) && r.is_private

-- The types that are neither private nor an automatic answer.
abbrev pub to_all : EventType → Bool
to_all public = true
to_all directed = true
to_all action = true
to_all system = true
to_all presence = true
to_all moderation = true
to_all announcement = true
to_all private = false
to_all afk_response = false

-- Whom a message to a room is for.
abbrev pub hears : EventType → ℕ → List Room → Session → Bool
hears announcement room rooms s = s.active
hears _ room rooms s =
    s.active
    && (s.room_id == room
        || (s.watch_room == room
            || (s.watch_all && (s.flags % 2 == 1) && not (is_hidden rooms room))))

-- Who does not want to see it: by preference, or because of its sender.
abbrev pub prefers_not : EventType → Session → Bool
prefers_not presence s = not s.joins
prefers_not action s = not s.actions
prefers_not _ s = false

abbrev pub shuns : Host → Option ℕ → (ℕ → Session) → ℕ → Bool
shuns h none heap q = false
shuns h (some f) heap q =
    if q == f
    then false
    else h.blocks (heap q).user_id (heap f).user_id || h.ignores (heap q).user_id (heap f).user_id

room_private-is_hidden :
    (rs : List Room) (room : ℕ) (found : Bool)
    → room_private rs room found ≡ (if any_open rs room then is_hidden rs room else found)
unfolding room_private
room_private-is_hidden [] room found = refl
room_private-is_hidden (r ∷ rs) room found = ground (
  arith,
  room_private-is_hidden rs room (if r.active && r.id == room then r.is_private else found),
)

closed-is_hidden :
    (rs : List Room) (room : ℕ) → any_open rs room ≡ false → is_hidden rs room ≡ false
closed-is_hidden [] room h = refl
closed-is_hidden (r ∷ rs) room h = ground arith

is_hidden-same : (rs : List Room) (room : ℕ) → room_private rs room false ≡ is_hidden rs room
is_hidden-same rs room =
    ground (arith, room_private-is_hidden rs room false, closed-is_hidden rs room)

is_personal-to_all : (t : EventType) → to_all t ≡ true → is_personal t ≡ false
is_personal-to_all private h = absurd (cc h)
is_personal-to_all afk_response h = absurd (cc h)
is_personal-to_all _ h = refl

relates-shuns :
    (h : Host) (f : Option ℕ) (heap : ℕ → Session) (q : ℕ)
    → (relates h.blocks heap f q || relates h.ignores heap f q) ≡ shuns h f heap q
relates-shuns h none heap q = refl
relates-shuns h (some f) heap q = elim (Bool-cases (q == f)) [
  | inl t ↦ rw t refl
  | inr t ↦ rw t refl
]

-- A message to all, as mts_publish tells its recipients.
module _ (h : Host) (st : State) (f : Option ℕ) (room target : ℕ) (tn : Option (List ℕ))
    (text : List ℕ) where
  wants-hears :
      (t : EventType) (s : Session)
      → to_all t ≡ true
      → wants st (make_event h st f t room target tn text) s ≡ hears t room st.rooms s
  unfolding wants make_event
  wants-hears private s e = absurd (cc e)
  wants-hears afk_response s e = absurd (cc e)
  wants-hears announcement s e = ground arith
  wants-hears _ s e = ground (arith, is_hidden-same st.rooms room)

  passed_over-shuns :
      (t : EventType) (heap : ℕ → Session) (q : ℕ)
      → to_all t ≡ true
      → passed_over h f (make_event h st f t room target tn text) heap q
        ≡ (prefers_not t (heap q) || shuns h f heap q)
  unfolding passed_over make_event
  passed_over-shuns private heap q e = absurd (cc e)
  passed_over-shuns afk_response heap q e = absurd (cc e)
  passed_over-shuns _ heap q e = ground (arith, relates-shuns h f heap q)

-- With no session listed twice, a message that is neither private nor an automatic answer is put once
-- into the inbox of just these listed and active sessions: for an announcement all, otherwise those in
-- its room, those that watch it, and, unless the last open room of its id is private, sysops that watch
-- all rooms; but not of those that prefer to see no presence or no actions, for a message of that type,
-- nor of those that block or ignore a sender other than themselves. Every other session is left as it
-- was.
pub publish-public :
    (h : Host) (st : State) (f : Option ℕ) (type : EventType) (room target : ℕ)
    (tn : Option (List ℕ)) (text : List ℕ) (q : ℕ)
    → to_all type ≡ true
    → no_duplicates st.sessions ≡ true
    → (publish h st f type room target tn text).heap q ≡ (
        if (member q st.sessions && hears type room st.rooms (st.heap q))
          && not (prefers_not type (st.heap q) || shuns h f st.heap q)
        then record (st.heap q) {
          inbox = (enqueue (st.heap q).inbox (make_event h st f type room target tn text) false).1;
        }
        else st.heap q)
publish-public h st f type room target tn text q a u =
    let quiet = is_personal-to_all type a in
    publish-sent h st f type room target tn text q quiet u
    ∙ rw
        (
          wants-hears h st f room target tn text type (st.heap q) a,
          passed_over-shuns h st f room target tn text type st.heap q a,
          make_event-public h st f type room target tn text quiet,
        )
        refl
