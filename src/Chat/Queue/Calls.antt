-- ===== src/Chat/Queue/Calls.antt =====
-- Sequences of calls of enqueue and mts_drain of plugins/chat/mts_state.c on one inbox.
use mutineer.Prelude.{
  ℕ, ◌+◌, ◌%◌, ◌^◌, ◌≡◌, refl, Bool, List, [], ◌∷◌, ◌==◌, if◌then◌else◌, length, take, drop, arith,
}
use mutineer.Chat.{Event, Inbox}
use mutineer.Chat.Queue.{
  drop_oldest, put, enqueue, drain, IsInbox, contents, enqueue_spec, enqueue-Refines,
  enqueue-IsInbox, drain-Refines, length-contents,
}

-- What a caller does with an inbox, and what it is told.
pub data Op : Type 0 where
  post : Event → Bool → Op
  fetch : ℕ → Op

pub data Answer : Type 0 where
  posted : Bool → Answer
  fetched : List Event → ℕ → Answer

unfoldable pub answers : Inbox → List Op → List Answer
answers s [] = []
answers s (post e private ∷ ops) =
    posted (enqueue s e private).0 ∷ answers (enqueue s e private).1 ops
answers s (fetch out_cap ∷ ops) =
    fetched (drain s out_cap).0 (drain s out_cap).1 ∷ answers (drain s out_cap).2 ops

-- The same of a queue and the number of the events dropped.
unfoldable pub spec_dropped : List Event → Bool → ℕ → ℕ
spec_dropped q private k = if length q == 128 then (if private then k else (k + 1) % 2 ^ 64) else k

unfoldable pub spec_answers : List Event → ℕ → List Op → List Answer
spec_answers q k [] = []
spec_answers q k (post e private ∷ ops) =
    posted (enqueue_spec q e private).0
    ∷ spec_answers (enqueue_spec q e private).1 (spec_dropped q private k) ops
spec_answers q k (fetch out_cap ∷ ops) =
    fetched (take out_cap q) k ∷ spec_answers (drop out_cap q) 0 ops

enqueue-skipped :
    (s : Inbox) (e : Event) (private : Bool)
    → (enqueue s e private).1.skipped ≡ spec_dropped (contents s) private s.skipped
unfolding enqueue spec_dropped put drop_oldest
enqueue-skipped s e private = rw (length-contents s) (ground arith)

-- Whatever is posted to an inbox and fetched from it, in whatever order and however often the ring
-- of 128 places has turned, the answers are those of a queue: events come out in the order in
-- which they went in, a public event into a full inbox drops the oldest one and counts it, and a
-- private event into a full inbox is refused.
pub answers-Refines :
    (s : Inbox) (ops : List Op)
    → IsInbox s
    → answers s ops ≡ spec_answers (contents s) s.skipped ops
unfolding answers spec_answers
answers-Refines s [] v = refl
answers-Refines s (post e private ∷ ops) v =
    let step = enqueue-Refines s e private v in
    let rest = answers-Refines (enqueue s e private).1 ops (enqueue-IsInbox s e private v) in
    rw (← step.0, ← step.1, ← enqueue-skipped s e private, rest) refl
answers-Refines s (fetch out_cap ∷ ops) v =
    let step = drain-Refines s out_cap v in
    let rest = answers-Refines (drain s out_cap).2 ops step.4 in
    rw (← step.0, ← step.2, rest, step.1, step.3) refl
