-- ===== src/Broker/Router/Backfill.antt =====
-- internal/broker/router.go, runBackfillWorker: the records of the log that a reconnecting subscriber
-- missed go into its queue. `cancelled n` says whether the worker's context has ended at the handler's
-- n-th call.
use aqueduct.Base.{
  ◌^◌, ◌%◌, fault, err, leb, false, ◌&&◌, ◌==◌, ltb, ok, true, set, not, Outcome, if◌then◌else◌,
  length, some, Bool, [], ◌+◌, Option, none, get_elem?, List, ℕ,
}
use aqueduct.Base.Bytes.{bytes_equal, Bytes}
use aqueduct.Protocol.Frame.{Frame, ParseError, parse_frame, serialize_frame}
use aqueduct.Protocol.Extensions.{default_priority}
use aqueduct.Protocol.Command.{cmd_publish, header_size}
use aqueduct.Aal.{Aead}
use aqueduct.Aal.Replay.{replay}
use aqueduct.Broker.Topic.{parse_publish_topic}
use aqueduct.Broker.Refs.{retain}
use aqueduct.Broker.Queue.{enqueue}
use aqueduct.Broker.Router.{Router, disconnect_all, to_list}
use aqueduct.Broker.Router.Publish.{acquire_message}

-- `enqueueToSubscriber` for a slot: nothing happens to an inactive one.
unfoldable pub enqueue_to_subscriber : Router → ℕ → ℕ → ℕ → Router × List ℕ
unfolding enqueue
enqueue_to_subscriber r idx m p = elim (get_elem? r.slots idx) [
  | none ↦ (r, [])
  | some s ↦
      if not s.active
      then (r, [])
      else (let (qs, refs, dc) = enqueue r.policy r.queue_size idx s.queues p m r.refs in
          (
            record r {
              slots = set r.slots idx (record s { queues = qs; notified = true });
              refs = refs;
            },
            to_list dc,
          ))
]

-- The handler's calls, the offset that it counts, and the router.
pub record Backfill : Type 0 where
  pub calls : ℕ
  pub current : ℕ
  pub router : Router

abbrev pub disconnected : Router × List ℕ → Router
disconnected (r, dcs) = disconnect_all r dcs

-- A message for the subscriber. The worker retains the reference that it has, and releases none.
unfoldable pub backfill_message : (ℕ → Bytes) → Router → ℕ → ℕ → Bytes → ℕ → Router
unfolding acquire_message retain enqueue_to_subscriber disconnect_all serialize_frame
backfill_message slab r idx at topic offset =
    let buf = serialize_frame (slab (header_size + length topic)) cmd_publish 0 topic in
    let (r1, m) = acquire_message r buf at offset in
    disconnected
      (enqueue_to_subscriber (record r1 { refs = retain r1.refs m }) idx m default_priority)

module _ (slab : ℕ → Bytes) (deadline : Bytes → Option ℕ) (cancelled : ℕ → Bool) (idx : ℕ)
    (topic : Bytes) (first last : ℕ) where
  -- A publish on the topic counts; it is sent behind the first offset, up to the last.
  abbrev pub backfill_publish : Backfill → ℕ × Bytes → Backfill
  backfill_publish b (at, clean) =
      if not (bytes_equal clean topic)
      then b
      else (let current = (b.current + 1) % 2 ^ 64 in
          if ltb first current && leb current last
          then record b {
            current = current;
            router = backfill_message slab b.router idx at clean current;
          }
          else record b { current = current })

  abbrev pub backfill_parsed : Backfill → Outcome ParseError Frame → Backfill
  backfill_parsed b (ok f) =
      if f.command == cmd_publish
      then backfill_publish b (parse_publish_topic deadline f.payload)
      else b
  backfill_parsed b (err e) = b
  backfill_parsed b fault = b

  -- The handler of the replay, and whether it returned an error.
  unfoldable pub backfill_frame : Bytes → Backfill → Backfill × Bool
  unfolding backfill_message parse_publish_topic parse_frame bytes_equal
  backfill_frame bytes b =
      let next = record b { calls = b.calls + 1 } in
      if cancelled b.calls then (next, true) else (backfill_parsed next (parse_frame bytes), false)

  -- Without a path for the log there is nothing to replay.
  unfoldable pub run_backfill_worker : Option Aead → (ℕ → ℕ → ℕ) → Option Bytes → Router → Router
  unfolding replay backfill_frame
  run_backfill_worker aead amount none r = r
  run_backfill_worker aead amount (some file) r =
      (replay aead backfill_frame amount file
        (record { calls = 0; current = 0; router = r })).result.router
