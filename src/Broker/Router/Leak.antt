-- ===== src/Broker/Router/Leak.antt =====
-- internal/broker/router.go, runBackfillWorker: the worker keeps a reference to every message that it
-- sends.
use aqueduct.Protocol.Extensions.{default_priority}
use aqueduct.Protocol.Command.{cmd_publish, header_size}
use aqueduct.Base.{length, ◌+◌, refl, true, some, ◌≡◌, get_elem?, ℕ}
use aqueduct.Protocol.Frame.{serialize_frame}
use aqueduct.Base.Bytes.{Bytes}
use aqueduct.Broker.Refs.{acquire_ref, retain}
use aqueduct.Broker.Router.Publish.{acquire_message}
use aqueduct.Broker.Router.{Router, Slot, deliver}
use aqueduct.Broker.Router.Backfill.{backfill_message, enqueue_to_subscriber}
use aqueduct.Broker.Router.Balance.{Balanced, deliver-Balanced, disconnect_all-Balanced}
use aqueduct.Broker.Router.Accounts.{acquire_message-Balanced, with_one}

enqueue_to_subscriber-deliver :
    (r : Router) (m p idx : ℕ) (s : Slot)
    → get_elem? r.slots idx ≡ some s
    → s.active ≡ true
    → enqueue_to_subscriber (record r { refs = retain r.refs m }) idx m p ≡ deliver r m p idx
unfolding enqueue_to_subscriber deliver
enqueue_to_subscriber-deliver r m p idx s e on = rw (e, enqueue_to_subscriber, deliver) (rw on refl)

-- A message that the worker sends to an active subscriber never loses its last reference: from a
-- balanced router, in which every counter is the number of queue entries and of holders, the new
-- message's counter ends one above its queue entries and the others' references, with nobody left to
-- give that one back.
pub backfill_message-Balanced :
    (slab : ℕ → Bytes) (r : Router) (idx at : ℕ) (topic : Bytes) (offset : ℕ) (extra : ℕ → ℕ)
    (s : Slot)
    → get_elem? r.slots idx ≡ some s
    → s.active ≡ true
    → Balanced r extra
    → Balanced (backfill_message slab r idx at topic offset) (with_one extra r.refs.next)
unfolding backfill_message acquire_message acquire_ref
backfill_message-Balanced slab r idx at topic offset extra s e on b =
    let buf = serialize_frame (slab (header_size + length topic)) cmd_publish 0 topic in
    let a = acquire_message-Balanced r extra buf at offset b in
    let r1 = (acquire_message r buf at offset).0 in
    let m = r.refs.next in
    let sent = deliver-Balanced r1 m default_priority idx (with_one extra m) a.0 a.1 in
    let same = enqueue_to_subscriber-deliver r1 m default_priority idx s e on in
    rw same (
      disconnect_all-Balanced (deliver r1 m default_priority idx).0
        (deliver r1 m default_priority idx).1 (with_one extra m) sent.0)
