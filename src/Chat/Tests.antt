-- ===== src/Chat/Tests.antt =====
-- Runs of the chat's model, and its theorems at concrete inputs.
use mutineer.Prelude.{
  Option, drop, List, ℕ, ◌<◌, ◌==◌, ◌≡◌, refl, inr, ◌-◌, ◌||◌, true, false, not, ◌&&◌, none, some,
  [], ◌∷◌, length, arith, if◌then◌else◌,
}
use mutineer.Chat.{Event, blank, public, empty_inbox, Session, Room, State}
use mutineer.Chat.Queue.{IsInbox, contents, enqueue, put}
use mutineer.Chat.Queue.Calls.{post, fetch, answers, spec_answers, answers-Refines}
use mutineer.Chat.Utf8.{utf8_sanitize, sanitize_from, decode, is_two, is_three, is_four}
use mutineer.Chat.Utf8.Clean.{IsText, end, one, utf8_sanitize-IsText, utf8_sanitize-clean}
use mutineer.Chat.Publish.{
  Host, publish, wants, make_event, passed_over, publish_once, recipients, deliver, deliver_one,
  notify, answer_all,
}
use mutineer.Chat.Publish.Recipients.{publish-public, member, hears, prefers_not, shuns}
use mutineer.Chat.Publish.History.{IsHistory, remembered, remember_all, last, remember_all-last}
use mutineer.Chat.Rooms.{
  is_open, Access, Floor, idle, admits, begin_join, begin_leave, go_on, snapshot, may_join,
  close_empty, occupied, slot, close_at, take_out, but_last, last_of,
}
use mutineer.Chat.Rooms.Calls.{take_turn, Turn, go_to, depart, next, run_floor}
use mutineer.Chat.Lookup.{matches_query, find_user, parse_duration, unit}
use mutineer.Chat.Lookup.Users.{Fits, find_user-Fits}

abbrev said : ℕ → Event
said n = record blank { sequence = n }

empty_inbox-IsInbox : IsInbox empty_inbox
empty_inbox-IsInbox = record { slots_full = refl; head_in = omega arith; count_in = omega arith }

answers-Refines_example :
    answers empty_inbox (post (said 1) false ∷ post (said 2) true ∷ fetch 1 ∷ [])
    ≡ spec_answers
        (contents empty_inbox)
        0
        (post (said 1) false ∷ post (said 2) true ∷ fetch 1 ∷ [])
answers-Refines_example =
    answers-Refines empty_inbox (post (said 1) false ∷ post (said 2) true ∷ fetch 1 ∷ [])
      empty_inbox-IsInbox

-- A stray escape byte goes, a stray tail byte is marked, and an e with an accent stays.
typed : utf8_sanitize 16 (0x1b ∷ b'a' ∷ 0x80 ∷ 0xc3 ∷ 0xa9 ∷ []) ≡ b'a' ∷ b'?' ∷ 0xc3 ∷ 0xa9 ∷ []
unfolding utf8_sanitize sanitize_from decode is_two is_three is_four
typed = refl

utf8_sanitize-IsText_example :
    IsText (utf8_sanitize 16 (0x1b ∷ b'a' ∷ 0x80 ∷ 0xc3 ∷ 0xa9 ∷ []))
    × (length (utf8_sanitize 16 (0x1b ∷ b'a' ∷ 0x80 ∷ 0xc3 ∷ 0xa9 ∷ [])) < 16)
utf8_sanitize-IsText_example =
    utf8_sanitize-IsText 16 (0x1b ∷ b'a' ∷ 0x80 ∷ 0xc3 ∷ 0xa9 ∷ []) (omega arith)

hi-IsText : IsText (b'h' ∷ b'i' ∷ [])
hi-IsText =
    one b'h' (b'i' ∷ []) (inr (omega arith)) (omega arith)
      (one b'i' [] (inr (omega arith)) (omega arith) end)

utf8_sanitize-clean_example : utf8_sanitize 3 (b'h' ∷ b'i' ∷ []) ≡ b'h' ∷ b'i' ∷ []
utf8_sanitize-clean_example = utf8_sanitize-clean 3 (b'h' ∷ b'i' ∷ []) hi-IsText (omega arith)

-- User n in room 1.
abbrev caller : ℕ → Session
caller n = record {
  user_id = n;
  flags = 0;
  active = true;
  afk = false;
  muted = false;
  room_id = 1;
  watch_room = 0;
  watch_all = false;
  visit_id = n;
  handle = b'u' ∷ [];
  afk_message = [];
  afk_replied = [];
  joins = true;
  actions = true;
  inbox = empty_inbox;
}

abbrev lobby : Room
lobby = record {
  id = 1;
  normalized = b'l' ∷ [];
  owner = 0;
  is_private = false;
  permanent = true;
  active = true;
  history = blank ∷ blank ∷ [];
  history_head = 0;
  history_count = 0;
  history_capacity = 2;
}

abbrev two_callers : State
two_callers = record {
  rooms = lobby ∷ [];
  sessions = 1 ∷ 2 ∷ [];
  heap = caller;
  next_sequence = 7;
  stored = [];
  deleted = [];
}

-- User 2 blocks nobody and ignores user 1.
abbrev host : Host
host = record { now = 0; blocks = λ a b. false; ignores = λ a b. a == 2 && b == 1 }

abbrev hello : State
hello = publish host two_callers (some 1) public 1 0 none (b'h' ∷ [])

reached : (hello.heap 1).inbox.count ≡ 1
unfolding publish publish_once recipients wants passed_over deliver deliver_one notify answer_all
    enqueue put make_event
reached = refl

ignored : (hello.heap 2).inbox.count ≡ 0
unfolding publish publish_once recipients wants passed_over deliver deliver_one notify answer_all
    enqueue put make_event
ignored = refl

publish-public_example : hello.heap 1 ≡ (
    if (member 1 two_callers.sessions && hears public 1 two_callers.rooms (caller 1))
      && not (prefers_not public (caller 1) || shuns host (some 1) caller 1)
    then record (caller 1) {
      inbox =
          (enqueue
            (caller 1).inbox
            (make_event host two_callers (some 1) public 1 0 none (b'h' ∷ []))
            false).1;
    }
    else caller 1)
publish-public_example =
    publish-public host two_callers (some 1) public 1 0 none (b'h' ∷ []) 1 refl refl

lobby-IsHistory : IsHistory lobby
lobby-IsHistory = record { slots_full = refl; head_in = omega arith; count_in = omega arith }

remember_all-last_example :
    remembered (remember_all (said 1 ∷ said 2 ∷ said 3 ∷ []) lobby)
    ≡ last 2 (said 1 ∷ said 2 ∷ said 3 ∷ [])
remember_all-last_example =
    remember_all-last (said 1 ∷ said 2 ∷ said 3 ∷ []) lobby lobby-IsHistory refl

abbrev nobody_listed : Access
nobody_listed = record {
  global_banned = λ u. false;
  room_banned = λ r u. false;
  global_muted = λ u. false;
  room_muted = λ r u. false;
  invited = λ r u. true;
}

-- User 2 is alone in room 1, which is not permanent, and user 1 in no room.
abbrev one_guest : State
one_guest = record two_callers {
  rooms = record lobby { permanent = false } ∷ [];
  heap = λ n. record (caller n) { room_id = n - 1 };
}

abbrev floor : Floor
floor = record { state = one_guest; places = λ t. idle; visits_ended = []; strays = [] }

-- Thread 7 moves user 1 to room 1; behind its checks, user 2 leaves in thread 8, which closes the room.
abbrev race : List Turn
race =
    go_to nobody_listed 7 1 1
    ∷ depart 8 2 false
    ∷ next host nobody_listed 8
    ∷ next host nobody_listed 8
    ∷ next host nobody_listed 8
    ∷ next host nobody_listed 7
    ∷ next host nobody_listed 7
    ∷ []

race-strays : (run_floor floor race).strays ≡ 1 ∷ []
unfolding run_floor take_turn begin_join begin_leave go_on admits snapshot may_join is_open
    close_empty occupied slot close_at take_out but_last last_of
race-strays = refl

-- A text without a number, and a number with a unit.
abbrev no_number : List ℕ → ℕ × List ℕ
no_number q = (0, q)

abbrev five : List ℕ → Option ℕ × List ℕ
five text = (some 5, drop 1 text)

find_user-Fits_example :
    Fits caller
      (λ p. member p two_callers.sessions && matches_query caller (λ n. n) no_number (b'U' ∷ []) p)
      (find_user two_callers (λ n. n) no_number (b'U' ∷ []))
find_user-Fits_example = find_user-Fits two_callers (λ n. n) no_number (b'U' ∷ []) refl

five_minutes : parse_duration five (b'5' ∷ b'm' ∷ []) ≡ some 300
unfolding parse_duration unit
five_minutes = refl
