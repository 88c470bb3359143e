-- ===== src/Chat/Rooms/Calls.antt =====
-- Interleavings of the sections of mts_join, mts_leave and mts_publish of plugins/chat/mts_state.c.
use mutineer.Prelude.{ℕ, Bool, Option, List, [], ◌∷◌}
use mutineer.Chat.{EventType}
use mutineer.Chat.Publish.{Host, publish}
use mutineer.Chat.Rooms.{Access, Floor, go_on, begin_join, begin_leave}
use mutineer.Chat.Rooms.Housed.{IsHoused}

-- A thread's turn: a message, the begin of a move to a room or of a departure, or the next section of the
-- call that it is in, each with what the store and the clock say then.
pub data Turn : Type 0 where
  say : Host → Option ℕ → EventType → ℕ → ℕ → Option (List ℕ) → List ℕ → Turn
  go_to : Access → ℕ → ℕ → ℕ → Turn
  depart : ℕ → ℕ → Bool → Turn
  next : Host → Access → ℕ → Turn

unfoldable pub take_turn : Floor → Turn → Floor
take_turn f (say h who type room target tn text) = record f {
  state = publish h f.state who type room target tn text;
}
take_turn f (go_to a t p room) = begin_join a t p room f (f.places t)
take_turn f (depart t p announce) = begin_leave t p announce f (f.places t)
take_turn f (next h a t) = go_on h a t f (f.places t)

unfoldable pub run_floor : Floor → List Turn → Floor
run_floor f [] = f
run_floor f (c ∷ cs) = run_floor (take_turn f c) cs

abbrev pub Housed : Floor → Type 0
Housed f = IsHoused f.strays f.state
