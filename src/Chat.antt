-- ===== src/Chat.antt =====
-- The chat plugin's state, plugins/chat/mts.h and mts_state.c: events, the sessions with their
-- inboxes, and the rooms with their history. A C string is the list of its bytes; a session's
-- pointer is a number.
pub mod Ring
pub mod Utf8
pub mod Queue
pub mod Publish
pub mod Rooms
pub mod Lookup
mod Tests
use mutineer.Prelude.{ℕ, Bool, true, false, List, [], ◌∷◌, replicate}

abbrev pub mts_inbox : ℕ
mts_inbox = 128

abbrev pub mts_text : ℕ
mts_text = 513

abbrev pub mts_name : ℕ
mts_name = 64

pub data EventType : Type 0 where
  public directed private action system presence moderation announcement afk_response : EventType

pub record Event : Type 0 where
  pub sequence : ℕ
  pub room_id : ℕ
  pub timestamp : ℕ
  pub event_type : EventType
  pub sender_id : ℕ
  pub target_id : ℕ
  pub sender : List ℕ
  pub target : List ℕ
  pub text : List ℕ

-- What calloc and memset leave in an event.
abbrev pub blank : Event
blank = record {
  sequence = 0;
  room_id = 0;
  timestamp = 0;
  event_type = public;
  sender_id = 0;
  target_id = 0;
  sender = [];
  target = [];
  text = [];
}

-- The fields of a session that its mutex guards: the array, its head, the count and the number of
-- events dropped since the last drain.
pub record Inbox : Type 0 where
  pub slots : List Event
  pub head : ℕ
  pub count : ℕ
  pub skipped : ℕ

abbrev pub empty_inbox : Inbox
empty_inbox = record { slots = replicate 128 blank; head = 0; count = 0; skipped = 0 }

-- `joins` and `actions` are preferences; `afk_replied` is the part of the array below its count.
pub record Session : Type 0 where
  pub user_id : ℕ
  pub flags : ℕ
  pub active : Bool
  pub afk : Bool
  pub muted : Bool
  pub room_id : ℕ
  pub watch_room : ℕ
  pub watch_all : Bool
  pub visit_id : ℕ
  pub handle : List ℕ
  pub afk_message : List ℕ
  pub afk_replied : List ℕ
  pub joins : Bool
  pub actions : Bool
  pub inbox : Inbox

-- A room with no history has no array, so a capacity of 0.
pub record Room : Type 0 where
  pub id : ℕ
  pub normalized : List ℕ
  pub owner : ℕ
  pub is_private : Bool
  pub permanent : Bool
  pub active : Bool
  pub history : List Event
  pub history_head : ℕ
  pub history_count : ℕ
  pub history_capacity : ℕ

-- `rooms` are those below max_rooms; `sessions` are the pointers below session_count; `heap` is
-- the session behind a pointer; `stored` and `deleted` are what mts_store_history and
-- mts_store_delete_room are called with.
pub record State : Type 0 where
  pub rooms : List Room
  pub sessions : List ℕ
  pub heap : ℕ → Session
  pub next_sequence : ℕ
  pub stored : List Event
  pub deleted : List ℕ
