-- ===== src/Broker/Writer/Rounds.antt =====
-- internal/broker/router.go, the loop of runSubscriberWriter. A round fetches a message and delivers
-- it, or waits for one of the four events of the select; a call of the router may run between two
-- rounds. `outside` is what the round's own calls take from outside.
use aqueduct.Base.{
  true, fault, leb, [], err, length, set, ◌&&◌, false, ltb, none, ok, some, ◌==◌, ◌||◌, Bool,
  Option, get_elem?, if◌then◌else◌, ◌∷◌, List, ℕ,
}
use aqueduct.Broker.Router.{Slot, Message, Router}
use aqueduct.Broker.Writer.{
  panics, going_of, goes_on, returns, Writer, flush, store_frame, delivery_offset, outgoing,
  accumulate, Going, new_writer,
}
use aqueduct.Protocol.Extensions.{Total}
use aqueduct.Base.Bytes.{Bytes}
use aqueduct.Broker.Router.Publish.{Outside}
use aqueduct.Broker.Refs.{Refs, release}
use aqueduct.Broker.Router.Slots.{writer_exit, writer_fetch}
use aqueduct.Broker.Writer.Nacks.{NackCounters, handle_nack}

-- The subscription's part of the writer's arguments, with the router's settings.
pub record Settings : Type 0 where
  pub idx : ℕ
  pub topic : Bytes
  pub group : Bytes
  pub batch_size : ℕ
  pub max_retries : ℕ
  pub attempt : ℕ → Option ℕ

-- What a writer works on.
pub record Running : Type 0 where
  pub router : Router
  pub counters : NackCounters
  pub writer : Writer

pub data Wakeup : Type 0 where
  cancelled timer_fired nack_received notice_received : Wakeup

-- A message that was put into no reference is empty.
unfoldable pub message_of : List Message → ℕ → Message
message_of [] m = record { reference = m; buf = []; offset = 0; expires_at = 0 }
message_of (x ∷ xs) m = if x.reference == m then x else message_of xs m

unfoldable pub is_expired : Message → ℕ → Bool
is_expired x now = ltb 0 x.expires_at && leb x.expires_at now

abbrev pub dropped : Running → ℕ → Running × Going
dropped s m = (record s { router = record s.router { refs = release s.router.refs m } }, goes_on)

abbrev pub with_refs : Running → Writer × Refs × Going → Running × Going
with_refs s (w, refs, going) =
    (record s { router = record s.router { refs = refs }; writer = w }, going)

-- The cache is filled before the frame is built.
abbrev pub remember : Running → ℕ → Bytes → Running
remember s offset topic = record s {
  writer = record s.writer { cache = store_frame s.writer.cache offset topic };
}

abbrev pub deliver_frame : Settings → Running → ℕ → Total Bytes → Running × Going
deliver_frame c s m (ok frame) = with_refs s (accumulate c.attempt m frame s.writer s.router.refs)
deliver_frame c s m (err e) = absurd e
deliver_frame c s m fault = (s, panics)

abbrev pub deliver_at : Settings → Running → Message → ℕ → Total ℕ → Running × Going
deliver_at c s x m (ok offset) =
    deliver_frame c (remember s offset c.topic) m (outgoing c.group x.buf offset)
deliver_at c s x m (err e) = absurd e
deliver_at c s x m fault = (s, panics)

-- The part of a round that has a message.
unfoldable pub deliver_message : Settings → ℕ → Running → ℕ → Running × Going
unfolding is_expired message_of delivery_offset outgoing accumulate store_frame release
deliver_message c now s m =
    let x = message_of s.router.messages m in
    if is_expired x now || length x.buf == 0
    then dropped s m
    else deliver_at c s x m (delivery_offset x.buf x.offset)

-- A receive from the slot's NACK channel.
abbrev pub receive_nack : Router → ℕ → Slot → List ℕ → Router × Option ℕ
receive_nack r idx s [] = (r, none)
receive_nack r idx s (offset ∷ rest) =
    (record r { slots = set r.slots idx (record s { nacks = rest }) }, some offset)

unfoldable pub take_nack : Router → ℕ → Router × Option ℕ
take_nack r idx = elim (get_elem? r.slots idx) [
  | none ↦ (r, none)
  | some s ↦ receive_nack r idx s s.nacks
]

-- A receive from the slot's notification channel.
unfoldable pub take_notice : Router → ℕ → Router
take_notice r idx = elim (get_elem? r.slots idx) [
  | none ↦ r
  | some s ↦ record r { slots = set r.slots idx (record s { notified = false }) }
]

abbrev pub with_publish : Running → (Router × Going) × NackCounters → Running × Going
with_publish s ((r, going), counters) = (record s { router = r; counters = counters }, going)

-- With no NACK to receive the writer waits on.
abbrev pub on_nack : Settings → Outside → Running → Router × Option ℕ → Running × Going
on_nack c o s (r, none) = (record s { router = r }, goes_on)
on_nack c o s (r, some offset) =
    with_publish s (handle_nack c.max_retries o r s.counters s.writer.cache offset)

abbrev pub on_timer : Running → Writer × Refs × Bool → Running × Going
on_timer s (w, refs, failure) = with_refs s (record w { timer = false }, refs, going_of failure)

-- A timer that is not armed does not fire.
abbrev pub timer_event : Settings → Running → Bool → Running × Going
timer_event c s true = on_timer s (flush c.attempt s.writer s.router.refs)
timer_event c s false = (s, goes_on)

unfoldable pub handle_event : Settings → Outside → Running → Wakeup → Running × Going
unfolding flush handle_nack take_nack take_notice
handle_event c o s cancelled = (s, returns)
handle_event c o s timer_fired = timer_event c s s.writer.timer
handle_event c o s nack_received = on_nack c o s (take_nack s.router c.idx)
handle_event c o s notice_received = (record s { router = take_notice s.router c.idx }, goes_on)

abbrev pub after_fetch :
    Settings → Outside → Wakeup → Running → Router × Option (ℕ × ℕ) → Running × Going
after_fetch c o e s (r, some (m, p)) = deliver_message c o.now (record s { router = r }) m
after_fetch c o e s (r, none) = handle_event c o (record s { router = r }) e

-- One round of the loop; the event plays a part where the queues are empty.
unfoldable pub writer_round : Settings → Outside → Running → Wakeup → Running × Going
unfolding writer_fetch deliver_message handle_event
writer_round c o s e = after_fetch c o e s (writer_fetch s.router c.idx)

abbrev pub after_last_flush : Settings → Running → Writer × Refs × Bool → Running
after_last_flush c s (w, refs, failure) = record s {
  router = writer_exit (record s.router { refs = refs }) c.idx;
  writer = w;
}

-- The deferred calls: the last flush, and the drain of the queues.
unfoldable pub finish : Settings → Running → Running
unfolding flush writer_exit
finish c s = after_last_flush c s (flush c.attempt s.writer s.router.refs)

-- The rounds of a writer, each with what it takes from outside and its event, until one returns.
abbrev pub Moments : Type 0
Moments = List (Outside × Wakeup)

abbrev pub next_rounds : Running × Going → (Running → Running × Going) → Running × Going
next_rounds (s, goes_on) continue = continue s
next_rounds (s, returns) continue = (s, returns)
next_rounds (s, panics) continue = (s, panics)

unfoldable pub run_rounds : Settings → Moments → Running → Running × Going
unfolding writer_round
run_rounds c [] s = (s, goes_on)
run_rounds c ((o, e) ∷ es) s = next_rounds (writer_round c o s e) (run_rounds c es)

-- The writer from its start to its deferred calls. The moments are those up to its return; where they
-- do not reach one, the deferred calls run behind them all the same.
unfoldable pub run_subscriber_writer : Settings → Moments → Router → NackCounters → Running
unfolding run_rounds finish new_writer
run_subscriber_writer c es r counters =
    finish c
      (run_rounds c es
        (record { router = r; counters = counters; writer = new_writer c.batch_size })).0
