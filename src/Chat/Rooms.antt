-- ===== src/Chat/Rooms.antt =====
-- mts_join and mts_leave of plugins/chat/mts_state.c, which move the callers between the rooms, cut where
-- they release the lock MTS.mu: other callers' sections may come between. mts_publish, which holds
-- MTS.publish_mu, is one section. The store's tables are parameters; the rooms deleted from it are
-- listed in the state.
pub mod Kept
pub mod Housed
pub mod Calls
use mutineer.Prelude.{
  ℕ, zero, suc, Bool, true, false, not, ◌&&◌, ◌||◌, Option, none, some, List, [], ◌∷◌, ◌++◌, ◌==◌,
  if◌then◌else◌,
}
use mutineer.Chat.{presence, Session, Room, State}
use mutineer.Chat.Publish.{Host, is_sysop, update, publish}

-- mts_store_is_sanctioned for its four tables, and mts_store_is_invited.
pub record Access : Type 0 where
  pub global_banned : ℕ → Bool
  pub room_banned : ℕ → ℕ → Bool
  pub global_muted : ℕ → Bool
  pub room_muted : ℕ → ℕ → Bool
  pub invited : ℕ → ℕ → Bool

abbrev pub is_room : ℕ → Room → Bool
is_room room r = r.active && r.id == room

abbrev pub or_this : Bool → Room → Option Room → Option Room
or_this here r (some found) = some found
or_this true r none = some r
or_this false r none = none

-- The last room of the id.
unfoldable pub snapshot : List Room → ℕ → Option Room
snapshot [] room = none
snapshot (r ∷ rs) room = or_this (is_room room r) r (snapshot rs room)

unfoldable pub occupied : (ℕ → Session) → List ℕ → ℕ → Bool
occupied heap [] room = false
occupied heap (p ∷ ps) room = (heap p).room_id == room || occupied heap ps room

-- The place of the last room of the id that is not permanent.
abbrev pub or_first : Bool → Option ℕ → Option ℕ
or_first here (some i) = some (suc i)
or_first true none = some 0
or_first false none = none

unfoldable pub slot : List Room → ℕ → Option ℕ
slot [] room = none
slot (r ∷ rs) room = or_first (is_room room r && not r.permanent) (slot rs room)

unfoldable pub close_at : List Room → ℕ → List Room
close_at [] i = []
close_at (r ∷ rs) zero = record r { active = false } ∷ rs
close_at (r ∷ rs) (suc i) = r ∷ close_at rs i

abbrev pub close_slot : State → ℕ → Option ℕ → State
close_slot st room none = st
close_slot st room (some i) = record st {
  rooms = close_at st.rooms i;
  deleted = st.deleted ++ room ∷ [];
}

-- A room that is not permanent closes behind its last caller.
unfoldable pub close_empty : State → ℕ → State
close_empty st room =
    if occupied st.heap st.sessions room then st else close_slot st room (slot st.rooms room)

abbrev pub joined_text : List ℕ
joined_text =
    b'j' ∷ b'o' ∷ b'i' ∷ b'n' ∷ b'e' ∷ b'd' ∷ b' ' ∷ b't' ∷ b'h' ∷ b'e' ∷ b' ' ∷ b'r' ∷ b'o' ∷ b'o'
    ∷ b'm' ∷ []

abbrev pub left_text : List ℕ
left_text =
    b'l' ∷ b'e' ∷ b'f' ∷ b't' ∷ b' ' ∷ b't' ∷ b'h' ∷ b'e' ∷ b' ' ∷ b'r' ∷ b'o' ∷ b'o' ∷ b'm' ∷ []

-- The returns of 0 in front of the move.
unfoldable pub may_join : Access → Session → ℕ → Room → Bool
may_join a s room r =
    not (not (is_sysop s) && (a.global_banned s.user_id || a.room_banned room s.user_id))
    && not (
        r.is_private
        && not (is_sysop s)
        && not (r.owner == s.user_id)
        && not (a.invited room s.user_id))

abbrev pub move_to : State → ℕ → ℕ → State
move_to st p room = record st { heap = update st.heap p (record (st.heap p) { room_id = room }) }

abbrev pub mute : Access → State → ℕ → ℕ → State
mute a st p room =
    let s = st.heap p in
    record st {
      heap =
          update st.heap p
            (record s { muted = a.global_muted s.user_id || a.room_muted room s.user_id });
    }

-- The first section of mts_join, and the checks behind it.
abbrev pub may_enter : Access → Session → ℕ → Option Room → Bool
may_enter a s room none = false
may_enter a s room (some r) = may_join a s room r

unfoldable pub admits : Access → State → ℕ → ℕ → Bool
admits a st p room = may_enter a (st.heap p) room (snapshot st.rooms room)

unfoldable pub last_of : ℕ → List ℕ → ℕ
last_of r [] = r
last_of r (x ∷ xs) = last_of x xs

unfoldable pub but_last : ℕ → List ℕ → List ℕ
but_last r [] = []
but_last r (x ∷ xs) = r ∷ but_last x xs

abbrev pub swap_last : List ℕ → List ℕ
swap_last [] = []
swap_last (r ∷ rs) = last_of r rs ∷ but_last r rs

-- The last session takes the place of the one that goes.
unfoldable pub take_out : ℕ → List ℕ → List ℕ
take_out p [] = []
take_out p (q ∷ qs) = let rest = take_out p qs in if q == p then swap_last qs else q ∷ rest

abbrev pub gone : State → ℕ → State
gone st p = record st {
  sessions = take_out p st.sessions;
  heap = update st.heap p (record (st.heap p) { active = false });
}

-- Where a thread's call stands between two of its sections: in mts_join, behind the checks, the reading
-- of `old`, the move, the message and the closing of the old room; in mts_leave, behind the reading of
-- `room`, the message and the taking out. The
-- numbers are the session, which may be another caller's, and the call's variables `room` and `old`.
pub data Standing : Type 0 where
  idle : Standing
  checked emptied leaving left : ℕ → ℕ → Standing
  going : ℕ → ℕ → Bool → Standing
  admitted moved told : ℕ → ℕ → ℕ → Standing

-- The shared state and where each thread's call stands. The last two are none of the source's: the visits
-- ended in the store, and the sessions that moved to a room that was closed by then.
pub record Floor : Type 0 where
  pub state : State
  pub places : ℕ → Standing
  pub visits_ended : List ℕ
  pub strays : List ℕ

abbrev pub at_place : Floor → ℕ → Standing → State → Floor
at_place f t x st = record f { state = st; places = λ u. if u == t then x else f.places u }

-- Whether a room of the id is open.
unfoldable pub is_open : List Room → ℕ → Bool
is_open [] room = false
is_open (r ∷ rs) room = is_room room r || is_open rs room

abbrev pub noted : Bool → ℕ → List ℕ → List ℕ
noted true p ps = ps
noted false p ps = p ∷ ps

abbrev pub ended : ℕ → List ℕ → List ℕ
ended visit vs = if visit == 0 then vs else vs ++ visit ∷ []

-- The next section of a thread's call, with what the clock and the store say then.
unfoldable pub go_on : Host → Access → ℕ → Floor → Standing → Floor
go_on h a t f idle = f
go_on h a t f (checked p room) = at_place f t (admitted p room (f.state.heap p).room_id) f.state
go_on h a t f (admitted p room old) =
    record (at_place f t (moved p room old) (move_to f.state p room)) {
      strays = noted (is_open f.state.rooms room) p f.strays;
    }
go_on h a t f (moved p room old) =
    at_place f t (told p room old) (publish h f.state (some p) presence room 0 none joined_text)
go_on h a t f (told p room old) =
    at_place f t (emptied p room)
      (if not (old == 0) && not (old == room) then close_empty f.state old else f.state)
go_on h a t f (emptied p room) = at_place f t idle (mute a f.state p room)
go_on h a t f (going p room announce) =
    at_place f t (leaving p room)
      (if announce then publish h f.state (some p) presence room 0 none left_text else f.state)
go_on h a t f (leaving p room) = record (at_place f t (left p room) (gone f.state p)) {
  visits_ended = ended (f.state.heap p).visit_id f.visits_ended;
}
go_on h a t f (left p room) = at_place f t idle (close_empty f.state room)

-- A thread that is in no call begins mts_join.
unfoldable pub begin_join : Access → ℕ → ℕ → ℕ → Floor → Standing → Floor
begin_join a t p room f idle =
    if admits a f.state p room then at_place f t (checked p room) f.state else f
begin_join a t p room f _ = f

-- Or mts_leave.
unfoldable pub begin_leave : ℕ → ℕ → Bool → Floor → Standing → Floor
begin_leave t p announce f idle =
    let s = f.state.heap p in
    if s.active then at_place f t (going p s.room_id announce) f.state else f
begin_leave t p announce f _ = f
