-- ===== src/Broker/Writer/Balance.antt =====
-- internal/broker/router.go, runSubscriberWriter: every round of a writer, whatever it meets, keeps
-- the counters equal to the references that queues and writers hold.
use aqueduct.Broker.Writer.Offsets.{delivery_offset-ne-fault, outgoing-ne-fault}
use aqueduct.Broker.Queue.Fetch.{fetch_next_message-none}
use aqueduct.Broker.Queue.{fetch_next_message}
use aqueduct.Broker.Writer.Rounds.{
  timer_event, is_expired, message_of, remember, after_fetch, timer_fired, nack_received,
  notice_received, deliver_at, cancelled, Wakeup, on_nack, receive_nack, writer_round, handle_event,
  deliver_message, deliver_frame, finish, Settings, Running, take_nack, take_notice,
}
use aqueduct.Base.{
  ◌==◌, length, ◌||◌, ap, ◌+◌, ◌≢◌, true, Bool-cases, fault, ◌∷◌, false, none, refl, subst, Bool,
  [], err, inr, ok, some, Option, get_elem?, inl, ◌≡◌, List, Option-cases, ℕ,
}
use aqueduct.Broker.Router.Calls.{fetch-Balanced, exit-Balanced}
use aqueduct.Protocol.Extensions.{Total}
use aqueduct.Broker.Router.Slots.{writer_fetch}
use aqueduct.Broker.Router.{Message, Slot, Router}
use aqueduct.Broker.Refs.Balance.{one_if}
use aqueduct.Broker.Router.Publish.{Outside}
use aqueduct.Broker.Writer.{flush, delivery_offset, outgoing}
use aqueduct.Broker.Router.Balance.{same_queues, Balanced}
use aqueduct.Base.Bytes.{Bytes}
use aqueduct.Broker.Writer.Accounts.{holding, flush-Balanced, accumulate-Balanced, release-Balanced}
use aqueduct.Broker.Writer.Publishes.{handle_nack-Balanced}

-- Without a message the queues are as they were.
unfetched-Balanced :
    (r : Router) (idx : ℕ) (extra : ℕ → ℕ)
    → (writer_fetch r idx).1 ≡ none
    → Balanced r extra
    → Balanced (writer_fetch r idx).0 extra
unfolding writer_fetch
unfetched-Balanced r idx extra nothing b = elim (Option-cases (get_elem? r.slots idx)) [
  | inl e ↦ rw (e, writer_fetch) b
  | inr (s, e) ↦
      let f = fetch_next_message s.queues in
      let found : f.1 ≡ none = rw (e, writer_fetch) at nothing in
      rw (e, writer_fetch)
        (same_queues r idx s (record s { queues = f.0 }) r.groups extra e
          (ap (λ x. x.0) (fetch_next_message-none s.queues found)) b)
]

receive_nack-Balanced :
    (r : Router) (idx : ℕ) (s : Slot) (ns : List ℕ) (extra : ℕ → ℕ)
    → get_elem? r.slots idx ≡ some s
    → Balanced r extra
    → Balanced (receive_nack r idx s ns).0 extra
receive_nack-Balanced r idx s [] extra e b = b
receive_nack-Balanced r idx s (n ∷ ns) extra e b =
    same_queues r idx s (record s { nacks = ns }) r.groups extra e refl b

take_nack-Balanced :
    (r : Router) (idx : ℕ) (extra : ℕ → ℕ) → Balanced r extra → Balanced (take_nack r idx).0 extra
unfolding take_nack
take_nack-Balanced r idx extra b = elim (Option-cases (get_elem? r.slots idx)) [
  | inl e ↦ rw (e, take_nack) b
  | inr (s, e) ↦ rw (e, take_nack) (receive_nack-Balanced r idx s s.nacks extra e b)
]

take_notice-Balanced :
    (r : Router) (idx : ℕ) (extra : ℕ → ℕ) → Balanced r extra → Balanced (take_notice r idx) extra
unfolding take_notice
take_notice-Balanced r idx extra b = elim (Option-cases (get_elem? r.slots idx)) [
  | inl e ↦ rw (e, take_notice) b
  | inr (s, e) ↦
      rw (e, take_notice)
        (same_queues r idx s (record s { notified = false }) r.groups extra e refl b)
]

module _ (c : Settings) (s : Running) (extra : ℕ → ℕ) where
  -- What a round leaves.
  abbrev Left : Running → Type 0
  Left after = Balanced after.router (holding after.writer extra)

  on_nack-Balanced :
      (o : Outside) (got : Router × Option ℕ)
      → Balanced got.0 (holding s.writer extra)
      → Left (on_nack c o s got).0
  on_nack-Balanced o (r, none) b = b
  on_nack-Balanced o (r, some offset) b =
      handle_nack-Balanced c.max_retries o r s.counters s.writer.cache offset
        (holding s.writer extra) b

  timer_event-Balanced : (armed : Bool) → Left s → Left (timer_event c s armed).0
  timer_event-Balanced true b = flush-Balanced c.attempt s.writer s.router extra b
  timer_event-Balanced false b = b

  handle_event-Balanced : (o : Outside) (e : Wakeup) → Left s → Left (handle_event c o s e).0
  unfolding handle_event
  handle_event-Balanced o cancelled b = b
  handle_event-Balanced o notice_received b =
      take_notice-Balanced s.router c.idx (holding s.writer extra) b
  handle_event-Balanced o nack_received b =
      on_nack-Balanced o (take_nack s.router c.idx)
        (take_nack-Balanced s.router c.idx (holding s.writer extra) b)
  handle_event-Balanced o timer_fired b = timer_event-Balanced s.writer.timer b

  pub finish-Balanced : Left s → Left (finish c s)
  unfolding finish
  finish-Balanced b =
      let f = flush c.attempt s.writer s.router.refs in
      exit-Balanced (record s.router { refs = f.1 }) c.idx (holding f.0 extra)
        (flush-Balanced c.attempt s.writer s.router extra b)

module _ (c : Settings) (extra : ℕ → ℕ) where
  deliver_frame-Balanced :
      (s : Running) (m : ℕ) (frame : Total Bytes)
      → frame ≢ fault
      → Balanced s.router (λ j. one_if m j + holding s.writer extra j)
      → Left c s extra (deliver_frame c s m frame).0
  deliver_frame-Balanced s m (ok frame) h b =
      accumulate-Balanced c.attempt m frame s.writer s.router extra b
  deliver_frame-Balanced s m (err e) h b = absurd e
  deliver_frame-Balanced s m fault h b = absurd (h refl)

  deliver_at-Balanced :
      (s : Running) (x : Message) (m : ℕ) (offset : Total ℕ)
      → offset ≢ fault
      → Balanced s.router (λ j. one_if m j + holding s.writer extra j)
      → Left c s extra (deliver_at c s x m offset).0
  deliver_at-Balanced s x m (ok offset) h b =
      deliver_frame-Balanced (remember s offset c.topic) m (outgoing c.group x.buf offset)
        (outgoing-ne-fault c.group x.buf offset) b
  deliver_at-Balanced s x m (err e) h b = absurd e
  deliver_at-Balanced s x m fault h b = absurd (h refl)

  deliver_message-Balanced :
      (now : ℕ) (s : Running) (m : ℕ)
      → Balanced s.router (λ j. one_if m j + holding s.writer extra j)
      → Left c s extra (deliver_message c now s m).0
  unfolding deliver_message
  deliver_message-Balanced now s m b =
      let x = message_of s.router.messages m in
      elim (Bool-cases (is_expired x now || length x.buf == 0)) [
        | inl skipped ↦ rw skipped (release-Balanced s.router m (holding s.writer extra) b)
        | inr sent ↦ rw sent (
            deliver_at-Balanced s x m (delivery_offset x.buf x.offset)
              (delivery_offset-ne-fault x.buf x.offset) b)
      ]

  after_fetch-Balanced :
      (o : Outside) (e : Wakeup) (s : Running) (got : Router × Option (ℕ × ℕ))
      → writer_fetch s.router c.idx ≡ got
      → Left c s extra s
      → Left c s extra (after_fetch c o e s got).0
  after_fetch-Balanced o e s (r, some (m, p)) eq b =
      deliver_message-Balanced o.now (record s { router = r }) m
        (subst
          (λ (q : Router × Option (ℕ × ℕ)).
            Balanced q.0 (λ j. one_if m j + holding s.writer extra j))
          eq (fetch-Balanced s.router c.idx m p (holding s.writer extra) b (ap (λ q. q.1) eq)))
  after_fetch-Balanced o e s (r, none) eq b =
      handle_event-Balanced c (record s { router = r }) extra o e
        (subst (λ (q : Router × Option (ℕ × ℕ)). Balanced q.0 (holding s.writer extra)) eq
          (unfetched-Balanced s.router c.idx (holding s.writer extra) (ap (λ q. q.1) eq) b))

  -- In a balanced state every counter is the number of queue entries and of writers that hold the
  -- message, and none was taken below 0. A round of a writer ends in such a state, with the messages
  -- of its accumulator among those held, whatever it fetched, whatever event came, and whether its
  -- writes failed.
  pub writer_round-Balanced :
      (o : Outside) (s : Running) (e : Wakeup)
      → Balanced s.router (holding s.writer extra)
      → Balanced (writer_round c o s e).0.router (holding (writer_round c o s e).0.writer extra)
  unfolding writer_round
  writer_round-Balanced o s e b = after_fetch-Balanced o e s (writer_fetch s.router c.idx) refl b
