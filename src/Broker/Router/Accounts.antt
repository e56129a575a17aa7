-- ===== src/Broker/Router/Accounts.antt =====
-- internal/broker/router.go, publishWithClientID and publishLocal: a whole publish leaves no
-- reference behind.
use aqueduct.Base.{
  ◌+◌, ◌∷◌, inr, inl, ◌||◌, false, not, Bool-cases, true, ◌++◌, arith, Bool, ◌<◌, List, ℕ,
}
use aqueduct.Broker.Router.Publish.{
  has_local, expiry_and_topic, serialize_message, Outside, send_message, acquire_message, dispatch,
  publish_at,
}
use aqueduct.Broker.Topic.{topic_hash_key}
use aqueduct.Broker.Router.Balance.{
  disconnect_all-Balanced, dispatch_groups-Balanced, dispatch_wildcards-Balanced,
  dispatch_exact-Balanced, Balanced,
}
use aqueduct.Broker.Queue.Balance.{next-release, release-Sound, one_if_refl}
use aqueduct.Broker.Router.{
  dispatch_groups, dispatch_wildcards, dispatch_exact, Group, next_topic_offset, Router,
}
use aqueduct.Broker.Refs.Balance.{count-release, one_if}
use aqueduct.Protocol.Frame.{Frame}
use aqueduct.Broker.Refs.{release, acquire_ref}
use aqueduct.Base.Bytes.{Bytes}

-- The references a call holds, and one to m.
abbrev pub with_one : (ℕ → ℕ) → ℕ → ℕ → ℕ
with_one extra m j = extra j + one_if m j

pub acquire_message-Balanced :
    (r : Router) (extra : ℕ → ℕ) (buf : Bytes) (at offset : ℕ)
    → Balanced r extra
    → Balanced
        (acquire_message r buf at offset).0
        (with_one extra (acquire_message r buf at offset).1)
      × ((acquire_message r buf at offset).1 < (acquire_message r buf at offset).0.refs.next)
unfolding acquire_message acquire_ref
acquire_message-Balanced r extra buf at offset b = (
  record {
    sound = record { tops = λ j. ground (arith, b.sound.tops j); clean = b.sound.clean };
    counts = λ j. ground (arith, b.counts j, b.fresh j);
    fresh = λ j h. ground (arith, b.fresh j);
  },
  omega arith,
)

released :
    (r : Router) (extra : ℕ → ℕ) (m : ℕ) (gs : ℕ → List Group)
    → Balanced r (with_one extra m)
    → Balanced (record r { groups = gs; refs = release r.refs m }) extra
released r extra m gs b =
    let pos : 0 < r.refs.count m = omega (arith, b.counts m, one_if_refl m) in
    let less = λ (j : ℕ). count-release r.refs m j (b.sound.tops m) pos in
    record {
      sound = release-Sound r.refs m b.sound pos;
      counts = λ j. omega (arith, less j, b.counts j);
      fresh = λ j h. omega (arith, less j, b.fresh j (omega (arith, h, next-release r.refs m)));
    }

dispatch-Balanced :
    (r : Router) (extra : ℕ → ℕ) (m p : ℕ) (topic : Bytes) (key : ℕ)
    → Balanced r (with_one extra m)
    → m < r.refs.next
    → Balanced (dispatch r m p topic key) extra
unfolding dispatch
dispatch-Balanced r extra m p topic key b old =
    let e = dispatch_exact r m p (r.topic_index key) in
    let be = dispatch_exact-Balanced r m p (r.topic_index key) (with_one extra m) b old in
    let w = dispatch_wildcards e.0 m p topic r.wildcard_subs in
    let bw =
      dispatch_wildcards-Balanced e.0 m p topic r.wildcard_subs (with_one extra m) be.0
        (omega (arith, old, be.1)) in
    let g = dispatch_groups w.0 m p (r.groups key) in
    let bg =
      dispatch_groups-Balanced w.0 m p (r.groups key) (with_one extra m) bw.0
        (omega (arith, old, be.1, bw.1)) in
    disconnect_all-Balanced _ (e.1 ++ w.1 ++ g.2) extra (released g.0 extra m _ bg.0)

pub next_topic_offset-Balanced :
    (r : Router) (extra : ℕ → ℕ) (key : ℕ)
    → Balanced r extra
    → Balanced (next_topic_offset r key).0 extra
unfolding next_topic_offset
next_topic_offset-Balanced r extra key b = record {
  sound = b.sound;
  counts = b.counts;
  fresh = b.fresh;
}

send_message-Balanced :
    (o : Outside) (forwarding : Bool) (r : Router) (extra : ℕ → ℕ) (f : Frame) (p : ℕ)
    (target : ℕ × Bytes) (offset : ℕ)
    → Balanced r extra
    → Balanced (send_message o forwarding r f p target offset) extra
unfolding send_message
send_message-Balanced o true r extra f p (at, topic) offset b =
    let buf = serialize_message o f topic in
    let a = acquire_message-Balanced r extra buf at offset b in
    let r1 = (acquire_message r buf at offset).0 in
    dispatch-Balanced (record r1 { forwarded = buf ∷ r1.forwarded }) extra
      (acquire_message r buf at offset).1 p topic (topic_hash_key topic)
      (record { sound = a.0.sound; counts = a.0.counts; fresh = a.0.fresh }) a.1
send_message-Balanced o false r extra f p (at, topic) offset b =
    let buf = serialize_message o f topic in
    let a = acquire_message-Balanced r extra buf at offset b in
    let next = acquire_message r buf at offset in
    dispatch-Balanced next.0 extra next.1 p topic (topic_hash_key topic) a.0 a.1

-- In a balanced state every counter is the number of queue entries that hold the message and of
-- further holders, no counter was taken below 0, and references not yet handed out have counter 0.
-- A publish from a balanced state ends in one with the same holders, for every policy, capacity and
-- set of subscribers.
pub publish_at-Balanced :
    (o : Outside) (peers : Bool) (r : Router) (extra : ℕ → ℕ) (f : Frame) (p : ℕ)
    → Balanced r extra
    → Balanced (publish_at o peers r f p) extra
unfolding publish_at
publish_at-Balanced o peers r extra f p b =
    let target = expiry_and_topic o p f.payload in
    let key = topic_hash_key target.1 in
    let r1 = (next_topic_offset r key).0 in
    let b1 = next_topic_offset-Balanced r extra key b in
    elim (Bool-cases (not (has_local r1 key || peers))) [
      | inl early ↦ rw early b1
      | inr late ↦
          rw late (send_message-Balanced o peers r1 extra f p target (next_topic_offset r key).1 b1)
    ]
