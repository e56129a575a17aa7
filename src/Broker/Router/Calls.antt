-- ===== src/Broker/Router/Calls.antt =====
-- internal/broker/router.go: every call and every step of a writer keeps the counters in balance.
use aqueduct.Broker.Router.Slots.{
  nack_by_stream, nack_slots, new_slot, unsubscribe_from, writer_exit, writer_fetch, ack_offset,
  unsubscribe, subscribe,
}
use aqueduct.Base.{
  refl, length, none, zero, ◌&&◌, ◌==◌, Bool-cases, inr, inl, set, suc, Option-cases, get_elem?,
  ◌<◌, some, ap, [], ◌∙◌, sym, ◌∷◌, ◌+◌, arith, subst, ◌++◌, ◌≡◌, ℕ, List,
}
use aqueduct.Broker.Queue.{fetch_next_message, drain_subscriber_queues}
use aqueduct.Broker.Refs.{release}
use aqueduct.Broker.Queue.Fetch.{held-fetch, drain_subscriber_queues-held}
use aqueduct.Broker.Router.{deactivate, Slot, Router}
use aqueduct.Broker.Router.Balance.{deactivate-Balanced, queued-set, queued_le, queued, Balanced}
use aqueduct.Broker.Queue.Balance.{next-release, release-Sound, one_if_refl, Sound, occurs}
use aqueduct.Broker.Refs.Balance.{count-release, one_if}
use aqueduct.Base.Bytes.{Bytes}
use aqueduct.Broker.Topic.{SubscriptionSpec}

pub queued-append : (ss ts : List Slot) (j : ℕ) → queued (ss ++ ts) j ≡ queued ss j + queued ts j
queued-append [] ts j = omega arith
queued-append (s ∷ ss) ts j = omega (arith, queued-append ss ts j)

-- The tables beside the slots and the counters do not matter.
pub slots_and_refs :
    (r t : Router) (extra : ℕ → ℕ)
    → t.refs ≡ r.refs
    → ((j : ℕ) → queued t.slots j ≡ queued r.slots j)
    → Balanced r extra
    → Balanced t extra
slots_and_refs r t extra er es b = record {
  sound = subst (λ x. Sound x) (sym er) b.sound;
  counts = λ j. rw er (b.counts j ∙ ap (λ q. q + extra j) (sym (es j)));
  fresh = λ j. rw er (b.fresh j);
}

pub subscribe-refs :
    (r : Router) (stream : ℕ) (spec : SubscriptionSpec) → (subscribe r stream spec).refs ≡ r.refs
unfolding subscribe
subscribe-refs r stream spec = ground arith

subscribe-slots :
    (r : Router) (stream : ℕ) (spec : SubscriptionSpec)
    → (subscribe r stream spec).slots ≡ r.slots ++ new_slot stream spec ∷ []
unfolding subscribe
subscribe-slots r stream spec = ground arith

pub subscribe-queued :
    (r : Router) (stream : ℕ) (spec : SubscriptionSpec) (j : ℕ)
    → queued (subscribe r stream spec).slots j ≡ queued r.slots j
subscribe-queued r stream spec j =
    rw (subscribe-slots r stream spec)
      (omega (arith, queued-append r.slots (new_slot stream spec ∷ []) j))

pub nack_by_stream-refs :
    (r : Router) (stream offset : ℕ) → (nack_by_stream r stream offset).refs ≡ r.refs
unfolding nack_by_stream
nack_by_stream-refs r stream offset = refl

nack_slots-queued :
    (ss : List Slot) (stream offset j : ℕ) → queued (nack_slots ss stream offset) j ≡ queued ss j
unfolding nack_slots
nack_slots-queued [] stream offset j = refl
nack_slots-queued (s ∷ ss) stream offset j = ground (arith, nack_slots-queued ss stream offset j)

pub nack_by_stream-queued :
    (r : Router) (stream offset j : ℕ)
    → queued (nack_by_stream r stream offset).slots j ≡ queued r.slots j
unfolding nack_by_stream
nack_by_stream-queued r stream offset j = nack_slots-queued r.slots stream offset j

unsubscribe_from-Balanced :
    (n i : ℕ) (r : Router) (stream : ℕ) (extra : ℕ → ℕ)
    → Balanced r extra
    → Balanced (unsubscribe_from n i r stream) extra
unfolding unsubscribe_from
unsubscribe_from-Balanced zero i r stream extra b = b
unsubscribe_from-Balanced (suc n) i r stream extra b = elim (Option-cases (get_elem? r.slots i)) [
  | inl e ↦ rw (e, unsubscribe_from) b
  | inr (s, e) ↦
      rw (e, unsubscribe_from)
        (elim (Bool-cases (s.stream_id == stream && s.active)) [
          | inl f ↦ rw f (
              unsubscribe_from-Balanced n (i + 1) (deactivate r i s) stream extra
                (deactivate-Balanced r i s extra e b))
          | inr f ↦ rw f (unsubscribe_from-Balanced n (i + 1) r stream extra b)
        ])
]

fetched_none : (r : Router) (idx : ℕ) → get_elem? r.slots idx ≡ none → (writer_fetch r idx).1 ≡ none
unfolding writer_fetch
fetched_none r idx e = rw (e, writer_fetch) refl

fetched_some :
    (r : Router) (idx : ℕ) (s : Slot)
    → get_elem? r.slots idx ≡ some s
    → writer_fetch r idx ≡ (
      record r { slots = set r.slots idx (record s { queues = (fetch_next_message s.queues).0 }) },
      (fetch_next_message s.queues).1,
    )
unfolding writer_fetch
fetched_some r idx s e = rw (e, writer_fetch) refl

taken :
    (r : Router) (idx m p : ℕ) (s : Slot) (extra : ℕ → ℕ)
    → get_elem? r.slots idx ≡ some s
    → Balanced r extra
    → (fetch_next_message s.queues).1 ≡ some (m, p)
    → Balanced
        (record r {
          slots = set r.slots idx (record s { queues = (fetch_next_message s.queues).0 });
        })
        (λ j. one_if m j + extra j)
taken r idx m p s extra e b got =
    let t : Slot = record s { queues = (fetch_next_message s.queues).0 } in
    record {
      sound = b.sound;
      counts = λ j.
          omega (arith, held-fetch s.queues m p j got, b.counts j, queued-set r.slots idx s t j e);
      fresh = b.fresh;
    }

pub fetch-Balanced :
    (r : Router) (idx m p : ℕ) (extra : ℕ → ℕ)
    → Balanced r extra
    → (writer_fetch r idx).1 ≡ some (m, p)
    → Balanced (writer_fetch r idx).0 (λ j. one_if m j + extra j)
fetch-Balanced r idx m p extra b got = elim (Option-cases (get_elem? r.slots idx)) [
  | inl e ↦ absurd (cc (got, fetched_none r idx e))
  | inr (s, e) ↦
      let at_slot = fetched_some r idx s e in
      rw at_slot (taken r idx m p s extra e b (sym (ap (λ x. x.1) at_slot) ∙ got))
]

pub write-Balanced :
    (r : Router) (m : ℕ) (h : List ℕ)
    → Balanced r (occurs (m ∷ h))
    → Balanced (record r { refs = release r.refs m }) (occurs h)
write-Balanced r m h b =
    let pos : 0 < r.refs.count m = omega (arith, b.counts m, one_if_refl m) in
    let less = λ (j : ℕ). count-release r.refs m j (b.sound.tops m) pos in
    record {
      sound = release-Sound r.refs m b.sound pos;
      counts = λ j. omega (arith, less j, b.counts j);
      fresh = λ j n. omega (arith, less j, b.fresh j (omega (arith, n, next-release r.refs m)));
    }

drained :
    (r : Router) (idx : ℕ) (s : Slot) (extra : ℕ → ℕ)
    → get_elem? r.slots idx ≡ some s
    → Balanced r extra
    → Balanced
        (record r {
          slots =
              set r.slots idx (record s { queues = (drain_subscriber_queues s.queues r.refs).0 });
          refs = (drain_subscriber_queues s.queues r.refs).1;
        })
        extra
drained r idx s extra e b =
    let qs = (drain_subscriber_queues s.queues r.refs).0 in
    let d =
      drain_subscriber_queues-held s.queues r.refs b.sound
        (λ j. omega (arith, queued_le r.slots idx s j e, b.counts j)) in
    record {
      sound = d.0;
      counts = λ j. omega (
        arith,
        d.1 j,
        d.2 j,
        b.counts j,
        queued-set r.slots idx s (record s { queues = qs }) j e,
      );
      fresh = λ j n. omega (arith, d.1 j, b.fresh j (omega (arith, n, d.3)));
    }

pub exit-Balanced :
    (r : Router) (idx : ℕ) (extra : ℕ → ℕ) → Balanced r extra → Balanced (writer_exit r idx) extra
unfolding writer_exit
exit-Balanced r idx extra b = elim (Option-cases (get_elem? r.slots idx)) [
  | inl e ↦ rw (e, writer_exit) b
  | inr (s, e) ↦ rw (e, writer_exit) (drained r idx s extra e b)
]

pub unsubscribed :
    (r : Router) (stream : ℕ) (extra : ℕ → ℕ)
    → Balanced r extra
    → Balanced (unsubscribe r stream) extra
unfolding unsubscribe
unsubscribed r stream extra b = unsubscribe_from-Balanced (length r.slots) 0 r stream extra b

pub acknowledged :
    (r : Router) (consumer topic : Bytes) (offset : ℕ) (extra : ℕ → ℕ)
    → Balanced r extra
    → Balanced (ack_offset r consumer topic offset) extra
unfolding ack_offset
acknowledged r consumer topic offset extra b = record {
  sound = b.sound;
  counts = b.counts;
  fresh = b.fresh;
}
