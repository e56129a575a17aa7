-- ===== src/Broker/Queue.antt =====
-- internal/broker/router.go, from enqueueToSubscriber to drainSubscriberQueues, and handleOverflow:
-- the four bounded priority queues of a subscriber. A queue holds references, oldest first; `none`
-- is the nil channel, before the pool gives one.
pub mod Overflow
pub mod Balance
pub mod Fetch
use aqueduct.Base.{◌++◌, length, ltb, [], if◌then◌else◌, none, some, ◌∷◌, List, Option, ℕ}
use aqueduct.Protocol.Extensions.{default_priority, priority_low}
use aqueduct.Broker.Refs.{release, update, Refs}

pub data Policy : Type 0 where
  drop_oldest drop_newest disconnect : Policy

-- The channel contents, the counters, and the subscriber to disconnect.
abbrev pub Sent : Type 0
Sent = List ℕ × Refs × Option ℕ

unfoldable pub handle_overflow : Policy → ℕ → ℕ → List ℕ → ℕ → Refs → Sent
handle_overflow drop_oldest room idx [] m refs =
    if ltb 0 room then (m ∷ [], refs, none) else ([], release refs m, none)
handle_overflow drop_oldest room idx (oldest ∷ q) m refs =
    let freed = release refs oldest in
    if ltb (length q) room then (q ++ m ∷ [], freed, none) else (q, release freed m, none)
handle_overflow drop_newest room idx q m refs = (q, release refs m, none)
handle_overflow disconnect room idx q m refs = (q, release refs m, some idx)

-- The send of `enqueueToSubscriber`: into the channel while it has room.
unfoldable pub send : Policy → ℕ → ℕ → List ℕ → ℕ → Refs → Sent
unfolding handle_overflow
send policy room idx q m refs =
    if ltb (length q) room
    then (q ++ m ∷ [], refs, none)
    else handle_overflow policy room idx q m refs

-- A subscriber's queues, by priority level.
abbrev pub Queues : Type 0
Queues = ℕ → Option (List ℕ)

abbrev pub contents : Option (List ℕ) → List ℕ
contents none = []
contents (some q) = q

abbrev pub clamp_priority : ℕ → ℕ
clamp_priority p = if ltb priority_low p then default_priority else p

-- `enqueueToSubscriber` on the queues of one subscriber.
unfoldable pub enqueue : Policy → ℕ → ℕ → Queues → ℕ → ℕ → Refs → Queues × Refs × Option ℕ
unfolding send
enqueue policy room idx queues p m refs =
    let (q, after, dc) = send policy room idx (contents (queues (clamp_priority p))) m refs in
    (update queues (clamp_priority p) (some q), after, dc)

-- A received message; an emptied queue goes back to the pool.
abbrev pub take_from :
    Queues → ℕ → Option (List ℕ) → Queues × Option (ℕ × ℕ) → Queues × Option (ℕ × ℕ)
take_from queues p none rest = rest
take_from queues p (some []) rest = rest
take_from queues p (some (m ∷ [])) rest = (update queues p none, some (m, p))
take_from queues p (some (m ∷ x ∷ q)) rest = (update queues p (some (x ∷ q)), some (m, p))

unfoldable pub fetch_next_message : Queues → Queues × Option (ℕ × ℕ)
fetch_next_message queues = take_from queues 0 (queues 0) (
    take_from queues 1 (queues 1)
      (take_from queues 2 (queues 2) (take_from queues 3 (queues 3) (queues, none))))

-- `returnQueueToPool`: every queued reference is released.
unfoldable pub drain : List ℕ → Refs → Refs
drain [] refs = refs
drain (m ∷ q) refs = drain q (release refs m)

unfoldable pub drain_subscriber_queues : Queues → Refs → Queues × Refs
unfolding drain
drain_subscriber_queues queues refs = (
  update (update (update (update queues 0 none) 1 none) 2 none) 3 none,
  drain (contents (queues 3)) (
      drain (contents (queues 2)) (drain (contents (queues 1)) (drain (contents (queues 0)) refs))),
)
