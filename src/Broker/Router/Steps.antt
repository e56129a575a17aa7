-- ===== src/Broker/Router/Steps.antt =====
-- internal/broker/router.go: the router's calls and its writers' steps in any order.
use aqueduct.Base.{sym, ◌++◌, false, refl, Option, some, [], ◌∷◌, ◌+◌, ◌≡◌, Bool, ℕ, List}
use aqueduct.Broker.Writer.Balance.{finish-Balanced, writer_round-Balanced}
use aqueduct.Broker.Queue.Balance.{occurs-append, occurs}
use aqueduct.Broker.Writer.Rounds.{finish, Wakeup, Running, Settings, writer_round}
use aqueduct.Broker.Writer.Accounts.{Balanced-same, holding}
use aqueduct.Broker.Router.Calls.{
  nack_by_stream-queued, nack_by_stream-refs, exit-Balanced, write-Balanced, fetch-Balanced,
  acknowledged, unsubscribed, subscribe-queued, subscribe-refs, slots_and_refs,
}
use aqueduct.Broker.Router.Slots.{
  nack_by_stream, writer_exit, writer_fetch, ack_offset, unsubscribe, subscribe,
}
use aqueduct.Broker.Queue.{Policy}
use aqueduct.Broker.Refs.{empty_refs, release}
use aqueduct.Quotas.{Manager}
use aqueduct.Broker.Router.Accounts.{publish_at-Balanced}
use aqueduct.Broker.Router.{new_router, Router}
use aqueduct.Broker.Router.Balance.{queued, Balanced}
use aqueduct.Base.Bytes.{Bytes}
use aqueduct.Broker.Router.Publish.{publish_at, Outside}
use aqueduct.Broker.Topic.{SubscriptionSpec}
use aqueduct.Protocol.Frame.{Frame}

-- A router and the references that writers hold between a fetch and the release after the write.
abbrev pub State : Type 0
State = Router × List ℕ

-- One step of a call or of a writer. Publishers' calls that end early or with an error change
-- nothing that matters here.
pub data Step : State → State → Type 0 where
  publishes :
      (o : Outside) (peers : Bool) (r : Router) (h : List ℕ) (f : Frame) (p : ℕ)
      → Step (r, h) (publish_at o peers r f p, h)
  subscribes :
      (r : Router) (h : List ℕ) (stream : ℕ) (spec : SubscriptionSpec)
      → Step (r, h) (subscribe r stream spec, h)
  unsubscribes : (r : Router) (h : List ℕ) (stream : ℕ) → Step (r, h) (unsubscribe r stream, h)
  acknowledges :
      (r : Router) (h : List ℕ) (consumer topic : Bytes) (offset : ℕ)
      → Step (r, h) (ack_offset r consumer topic offset, h)
  nacks :
      (r : Router) (h : List ℕ) (stream offset : ℕ)
      → Step (r, h) (nack_by_stream r stream offset, h)
  fetches :
      (r : Router) (h : List ℕ) (idx m p : ℕ)
      → (writer_fetch r idx).1 ≡ some (m, p)
      → Step (r, h) ((writer_fetch r idx).0, m ∷ h)
  writes :
      (r : Router) (m : ℕ) (h : List ℕ) → Step (r, m ∷ h) (record r { refs = release r.refs m }, h)
  exits : (r : Router) (h : List ℕ) (idx : ℕ) → Step (r, h) (writer_exit r idx, h)
  -- A whole round of a writer, and its deferred calls, with its accumulator's references in front.
  rounds :
      (c : Settings) (o : Outside) (s : Running) (e : Wakeup) (h : List ℕ)
      → Step
          (s.router, s.writer.pending ++ h)
          ((writer_round c o s e).0.router, (writer_round c o s e).0.writer.pending ++ h)
  ends :
      (c : Settings) (s : Running) (h : List ℕ)
      → Step
          (s.router, s.writer.pending ++ h)
          ((finish c s).router, (finish c s).writer.pending ++ h)

pub data Steps : State → State → Type 0 where
  done : (s : State) → Steps s s
  more : (s t u : State) → Step s t → Steps t u → Steps s u

abbrev pub IsBalanced : State → Type 0
IsBalanced (r, h) = Balanced r (occurs h)

-- The accumulator's references apart from those of others, and together with them.
split :
    (s : Running) (h : List ℕ)
    → Balanced s.router (occurs (s.writer.pending ++ h))
    → Balanced s.router (holding s.writer (occurs h))
split s h b =
    Balanced-same s.router (occurs (s.writer.pending ++ h)) (holding s.writer (occurs h))
      (λ j. occurs-append s.writer.pending h j) b

joined :
    (s : Running) (h : List ℕ)
    → Balanced s.router (holding s.writer (occurs h))
    → Balanced s.router (occurs (s.writer.pending ++ h))
joined s h b =
    Balanced-same s.router (holding s.writer (occurs h)) (occurs (s.writer.pending ++ h))
      (λ j. sym (occurs-append s.writer.pending h j)) b

pub Step-Balanced : {s t : State} → Step s t → IsBalanced s → IsBalanced t
Step-Balanced (publishes o peers r h f p) b = publish_at-Balanced o peers r (occurs h) f p b
Step-Balanced (subscribes r h stream spec) b =
    slots_and_refs r (subscribe r stream spec) (occurs h) (subscribe-refs r stream spec)
      (subscribe-queued r stream spec) b
Step-Balanced (unsubscribes r h stream) b = unsubscribed r stream (occurs h) b
Step-Balanced (acknowledges r h consumer topic offset) b =
    acknowledged r consumer topic offset (occurs h) b
Step-Balanced (nacks r h stream offset) b =
    slots_and_refs r (nack_by_stream r stream offset) (occurs h)
      (nack_by_stream-refs r stream offset) (nack_by_stream-queued r stream offset) b
Step-Balanced (fetches r h idx m p got) b = fetch-Balanced r idx m p (occurs h) b got
Step-Balanced (writes r m h) b = write-Balanced r m h b
Step-Balanced (exits r h idx) b = exit-Balanced r idx (occurs h) b
Step-Balanced (rounds c o s e h) b =
    joined (writer_round c o s e).0 h (writer_round-Balanced c (occurs h) o s e (split s h b))
Step-Balanced (ends c s h) b = joined (finish c s) h (finish-Balanced c s (occurs h) (split s h b))

pub Steps-Balanced : {s t : State} → Steps s t → IsBalanced s → IsBalanced t
Steps-Balanced (done s) b = b
Steps-Balanced (more s t u one rest) b = Steps-Balanced rest (Step-Balanced one b)

pub new_router-Balanced :
    (quota : Option Manager) (size : ℕ) (policy : Policy)
    → IsBalanced (new_router quota size policy, [])
unfolding new_router empty_refs
new_router-Balanced quota size policy = record {
  sound = record { tops = λ m. refl; clean = refl };
  counts = λ j. refl;
  fresh = λ j h. refl;
}

-- From a new router, after any sequence of publishes, subscriptions, unsubscriptions,
-- acknowledgements, NACKs, fetches, writes and drains of writers, and whole rounds and ends of writers
-- with their coalesced writes and retries, every counter is the number of queue entries and of writers
-- that hold the message, and none was ever taken below 0.
pub reachable-Balanced :
    (quota : Option Manager) (size : ℕ) (policy : Policy) (r : Router) (h : List ℕ)
    → Steps (new_router quota size policy, []) (r, h)
    → ((j : ℕ) → r.refs.count j ≡ queued r.slots j + occurs h j) × (r.refs.underflow ≡ false)
reachable-Balanced quota size policy r h steps =
    let b = Steps-Balanced steps (new_router-Balanced quota size policy) in
    (b.counts, b.sound.clean)
