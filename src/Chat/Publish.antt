-- ===== src/Chat/Publish.antt =====
-- mts_publish of plugins/chat/mts_state.c. The store's relations are a parameter, and so is the
-- time; mts_store_history is an entry of `stored`.
pub mod Recipients
pub mod History
use mutineer.Prelude.{
  ℕ, suc, ◌+◌, ◌-◌, ◌%◌, ◌^◌, Bool, true, false, not, ◌&&◌, ◌||◌, Option, none, some, List, [], ◌∷◌,
  ◌++◌, ltb, leb, ◌==◌, if◌then◌else◌, length, set, take,
}
use mutineer.Chat.{
  EventType, public, directed, private, action, system, presence, moderation, announcement,
  afk_response, Event, Session, Room, State, mts_text, mts_name,
}
use mutineer.Chat.Queue.{enqueue}
use mutineer.Chat.Utf8.{utf8_sanitize}

-- mts_now and mts_store_has_relation for the tables mts_blocks and mts_ignores.
pub record Host : Type 0 where
  pub now : ℕ
  pub blocks : ℕ → ℕ → Bool
  pub ignores : ℕ → ℕ → Bool

-- PRIVATE and AFK_RESPONSE.
abbrev pub is_personal : EventType → Bool
is_personal private = true
is_personal afk_response = true
is_personal _ = false

abbrev pub is_private : EventType → Bool
is_private private = true
is_private _ = false

abbrev pub is_presence : EventType → Bool
is_presence presence = true
is_presence _ = false

abbrev pub is_action : EventType → Bool
is_action action = true
is_action _ = false

abbrev pub is_announcement : EventType → Bool
is_announcement announcement = true
is_announcement _ = false

-- mts_is_sysop.
abbrev pub is_sysop : Session → Bool
is_sysop s = s.flags % 2 == 1

abbrev pub update : (ℕ → Session) → ℕ → Session → ℕ → Session
update heap p s q = if q == p then s else heap q

-- snprintf into an array of `size` bytes.
abbrev pub printed : ℕ → List ℕ → List ℕ
printed size text = take (size - 1) text

abbrev pub from_id : (ℕ → Session) → Option ℕ → ℕ
from_id heap none = 0
from_id heap (some f) = (heap f).user_id

abbrev pub from_handle : (ℕ → Session) → Option ℕ → List ℕ
from_handle heap none = []
from_handle heap (some f) = printed mts_name (heap f).handle

abbrev pub or_empty : Option (List ℕ) → List ℕ
or_empty none = []
or_empty (some t) = printed mts_name t

unfoldable pub make_event :
    Host → State → Option ℕ → EventType → ℕ → ℕ → Option (List ℕ) → List ℕ → Event
make_event h st f type room target tn text = record {
  sequence = st.next_sequence;
  room_id = room;
  timestamp = h.now;
  event_type = type;
  sender_id = from_id st.heap f;
  target_id = target;
  sender = from_handle st.heap f;
  target = or_empty tn;
  text = utf8_sanitize mts_text text;
}

-- The last room of the id decides.
unfoldable pub room_private : List Room → ℕ → Bool → Bool
room_private [] room found = found
room_private (r ∷ rs) room found =
    room_private rs room (if r.active && r.id == room then r.is_private else found)

unfoldable pub wants : State → Event → Session → Bool
wants st e s =
    s.active
    && (is_announcement e.event_type
        || (if is_personal e.event_type
            then s.user_id == e.target_id
            else s.room_id == e.room_id
              || s.watch_room == e.room_id
              || (s.watch_all && is_sysop s && not (room_private st.rooms e.room_id false))))

-- The first loop over the sessions.
unfoldable pub recipients : State → Event → List ℕ → List ℕ
recipients st e [] = []
recipients st e (p ∷ ps) =
    if wants st e (st.heap p) then p ∷ recipients st e ps else recipients st e ps

abbrev pub relates : (ℕ → ℕ → Bool) → (ℕ → Session) → Option ℕ → ℕ → Bool
relates table heap none p = false
relates table heap (some f) p = not (p == f) && table (heap p).user_id (heap f).user_id

-- The `continue`s of the second loop.
unfoldable pub passed_over : Host → Option ℕ → Event → (ℕ → Session) → ℕ → Bool
passed_over h f e heap p =
    (is_presence e.event_type && not (heap p).joins)
    || (is_action e.event_type && not (heap p).actions)
    || relates h.blocks heap f p
    || (not (is_personal e.event_type) && relates h.ignores heap f p)

abbrev pub seen : ℕ → List ℕ → Bool
seen id [] = false
seen id (x ∷ xs) = x == id || seen id xs

-- The second loop's variables.
pub record Delivery : Type 0 where
  pub heap : ℕ → Session
  pub failed : ℕ
  pub auto_reply : List ℕ

abbrev pub posted : Session → Event → Session
posted s e = record s { inbox = (enqueue s.inbox e (is_personal e.event_type)).1 }

-- One automatic answer for each sender and absence.
abbrev pub answers_away : Session → Event → Option ℕ → Bool
answers_away s e none = false
answers_away s e (some f) =
    is_private e.event_type
    && s.afk
    && not (seen e.sender_id s.afk_replied)
    && ltb (length s.afk_replied) 32

unfoldable pub deliver_one : Host → Option ℕ → Event → Delivery → ℕ → Delivery
deliver_one h f e d p =
    let s = posted (d.heap p) e in
    let failed =
      if (enqueue (d.heap p).inbox e (is_personal e.event_type)).0
      then d.failed
      else suc d.failed in
    if passed_over h f e d.heap p
    then d
    else if answers_away s e f
    then record {
      heap = update d.heap p (record s { afk_replied = s.afk_replied ++ e.sender_id ∷ [] });
      failed = failed;
      auto_reply = d.auto_reply ++ p ∷ [];
    }
    else record d { heap = update d.heap p s; failed = failed }

unfoldable pub deliver : Host → Option ℕ → Event → Delivery → List ℕ → Delivery
deliver h f e d [] = d
deliver h f e d (p ∷ ps) = deliver h f e (deliver_one h f e d p) ps

abbrev inbox_full : List ℕ
inbox_full =
    b'P' ∷ b'r' ∷ b'i' ∷ b'v' ∷ b'a' ∷ b't' ∷ b'e' ∷ b' ' ∷ b'm' ∷ b'e' ∷ b's' ∷ b's' ∷ b'a' ∷ b'g'
    ∷ b'e' ∷ b' ' ∷ b'n' ∷ b'o' ∷ b't' ∷ b' ' ∷ b'd' ∷ b'e' ∷ b'l' ∷ b'i' ∷ b'v' ∷ b'e' ∷ b'r'
    ∷ b'e' ∷ b'd' ∷ b':' ∷ b' ' ∷ b'r' ∷ b'e' ∷ b'c' ∷ b'i' ∷ b'p' ∷ b'i' ∷ b'e' ∷ b'n' ∷ b't'
    ∷ b' ' ∷ b'i' ∷ b'n' ∷ b'b' ∷ b'o' ∷ b'x' ∷ b' ' ∷ b'i' ∷ b's' ∷ b' ' ∷ b'f' ∷ b'u' ∷ b'l'
    ∷ b'l' ∷ b'.' ∷ []

abbrev notice : Event → Event
notice e = record e {
  event_type = system;
  sender_id = 0;
  sender = b'M' ∷ b'T' ∷ b'S' ∷ [];
  text = inbox_full;
}

unfoldable pub notify : Option ℕ → Event → Delivery → ℕ → Session
notify none e d = d.heap
notify (some f) e d =
    if d.failed == 0
    then d.heap
    else update d.heap f
        (record (d.heap f) { inbox = (enqueue (d.heap f).inbox (notice e) false).1 })

-- The ring of a room's history.
unfoldable pub remember : Event → Room → Room
remember e r =
    if r.history_count == r.history_capacity
    then (let head = (r.history_head + 1) % r.history_capacity in
        record r {
          history_head = head;
          history = set r.history ((head + r.history_count - 1) % r.history_capacity) e;
        })
    else record r {
      history_count = r.history_count + 1;
      history = set r.history ((r.history_head + r.history_count) % r.history_capacity) e;
    }

unfoldable pub remember_in : Event → List Room → List Room
remember_in e [] = []
remember_in e (r ∷ rs) =
    if r.active && r.id == e.room_id && not (r.history_capacity == 0)
    then remember e r ∷ remember_in e rs
    else r ∷ remember_in e rs

-- A call up to the automatic answers, with the sessions that give one.
unfoldable pub publish_once :
    Host → State → Option ℕ → EventType → ℕ → ℕ → Option (List ℕ) → List ℕ → State × List ℕ
publish_once h st f type room target tn text =
    let e = make_event h st f type room target tn text in
    let st' = record st { next_sequence = (st.next_sequence + 1) % 2 ^ 64 } in
    let d =
      deliver h f e (record { heap = st.heap; failed = 0; auto_reply = [] })
        (recipients st' e st.sessions) in
    (
      record st' {
        heap = notify f e d;
        stored = st.stored ++ e ∷ [];
        rooms = if is_personal type then st.rooms else remember_in e st.rooms;
      },
      d.auto_reply,
    )

abbrev away_text : List ℕ
away_text =
    b'a' ∷ b'w' ∷ b'a' ∷ b'y' ∷ b' ' ∷ b'f' ∷ b'r' ∷ b'o' ∷ b'm' ∷ b' ' ∷ b't' ∷ b'h' ∷ b'e' ∷ b' '
    ∷ b'k' ∷ b'e' ∷ b'y' ∷ b'b' ∷ b'o' ∷ b'a' ∷ b'r' ∷ b'd' ∷ []

abbrev away : List ℕ → List ℕ
away [] = away_text
away (c ∷ cs) = c ∷ cs

-- "AFK: " in front of the message or of the default, in 256 bytes.
unfoldable pub afk_text : Session → List ℕ
afk_text s = printed 256 (b'A' ∷ b'F' ∷ b'K' ∷ b':' ∷ b' ' ∷ away s.afk_message)

-- The automatic answers; an answer is not private, so it asks for no further one.
unfoldable pub answer_all : Host → State → ℕ → List ℕ → State
answer_all h st f [] = st
answer_all h st f (p ∷ ps) =
    answer_all h
      (publish_once h st (some p) afk_response 0 (st.heap f).user_id (some (st.heap f).handle)
        (afk_text (st.heap p))).0
      f ps

unfoldable pub publish :
    Host → State → Option ℕ → EventType → ℕ → ℕ → Option (List ℕ) → List ℕ → State
publish h st none type room target tn text = (publish_once h st none type room target tn text).0
publish h st (some f) type room target tn text =
    let once = publish_once h st (some f) type room target tn text in answer_all h once.0 f once.1
