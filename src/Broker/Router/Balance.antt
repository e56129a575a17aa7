-- ===== src/Broker/Router/Balance.antt =====
-- internal/broker/router.go: between calls, the counter of a message is the number of queue entries
-- that hold it, whatever was published, dropped or disconnected.
use aqueduct.Broker.Queue.Balance.{held-enqueue_le, next-enqueue, enqueue-balance, held, Sound}
use aqueduct.Base.{
  false, ◌==◌, length, ◌∙◌, true, zero, Bool-cases, suc, arith, inr, [], inl, set, ◌≤◌,
  Option-cases, refl, some, ◌+◌, get_elem?, ◌<◌, ◌∷◌, ◌≡◌, ℕ, List,
}
use aqueduct.Broker.Wildcard.{match_wildcard}
use aqueduct.Broker.Router.{
  choose, to_list, Group, deactivate, disconnect_all, disconnect_subscriber, dispatch_exact,
  dispatch_groups, dispatch_wildcards, Slot, Router, deliver,
}
use aqueduct.Base.Bytes.{Bytes}
use aqueduct.Broker.Queue.{enqueue, Queues}
use aqueduct.Broker.Refs.Balance.{count-retain, one_if}
use aqueduct.Broker.Refs.{Refs, retain}

abbrev pub queued : List Slot → ℕ → ℕ
queued [] j = 0
queued (s ∷ ss) j = held s.queues j + queued ss j

pub queued-set :
    (ss : List Slot) (i : ℕ) (s t : Slot) (j : ℕ)
    → get_elem? ss i ≡ some s
    → queued (set ss i t) j + held s.queues j ≡ queued ss j + held t.queues j
queued-set [] i s t j e = absurd (cc (e))
queued-set (x ∷ ss) zero s t j e = let same : x ≡ s = cc e in rw same (omega arith)
queued-set (x ∷ ss) (suc i) s t j e = omega (arith, queued-set ss i s t j e)

pub queued_le :
    (ss : List Slot) (i : ℕ) (s : Slot) (j : ℕ)
    → get_elem? ss i ≡ some s
    → held s.queues j ≤ queued ss j
queued_le [] i s j e = absurd (cc (e))
queued_le (x ∷ ss) zero s j e = let same : x ≡ s = cc e in rw same (omega arith)
queued_le (x ∷ ss) (suc i) s j e = omega (arith, queued_le ss i s j e)

-- `extra` counts the references that the running call holds beside the queues.
pub record Balanced (r : Router) (extra : ℕ → ℕ) : Type 0 where
  pub sound : Sound r.refs
  pub counts : (j : ℕ) → r.refs.count j ≡ queued r.slots j + extra j
  pub fresh : (j : ℕ) → r.refs.next ≤ j → r.refs.count j ≡ 0

-- An active slot's part of a delivery.
delivered :
    (r : Router) (m p idx : ℕ) (s : Slot) (extra : ℕ → ℕ)
    → Balanced r extra
    → m < r.refs.next
    → get_elem? r.slots idx ≡ some s
    → (qs : Queues) (refs : Refs) (t : Slot) → t.queues ≡ qs
    → Sound refs
    → refs.next ≡ r.refs.next
    → ((j : ℕ) → held qs j ≤ held s.queues j + one_if m j)
    → ((j : ℕ)
        → refs.count j + held s.queues j + one_if m j ≡ (retain r.refs m).count j + held qs j)
    → Balanced (record r { slots = set r.slots idx t; refs = refs }) extra
delivered r m p idx s extra b old e qs refs t te sound next le eqs = record {
  sound = sound;
  counts = λ j.
      let moved = queued-set r.slots idx s t j e in
      let same : held t.queues j ≡ held qs j = rw te refl in
      omega (arith, moved, same, eqs j, count-retain r.refs m j, b.counts j);
  fresh = λ j h.
      let other : one_if m j ≡ 0 = ground arith in
      omega (
        arith,
        other,
        le j,
        eqs j,
        count-retain r.refs m j,
        b.fresh j (omega (arith, h, next)),
        queued_le r.slots idx s j e,
        b.counts j,
      );
}

retain-Sound : (refs : Refs) (m : ℕ) → Sound refs → Sound (retain refs m)
unfolding retain
retain-Sound refs m s = record { tops = s.tops; clean = s.clean }

next-retain : (refs : Refs) (m : ℕ) → (retain refs m).next ≡ refs.next
unfolding retain
next-retain refs m = refl

-- What a step of the running call keeps.
abbrev pub Keeps : Router → (ℕ → ℕ) → Router → Type 0
Keeps r extra after = Balanced after extra × (after.refs.next ≡ r.refs.next)

accepts :
    (r : Router) (m p idx : ℕ) (s : Slot) (extra : ℕ → ℕ)
    → Balanced r extra
    → m < r.refs.next
    → get_elem? r.slots idx ≡ some s
    → s.active ≡ true
    → Keeps r extra (deliver r m p idx).0
unfolding deliver
accepts r m p idx s extra b old e on =
    let refs = retain r.refs m in
    let after = enqueue r.policy r.queue_size idx s.queues p m refs in
    let enough : (j : ℕ) → held s.queues j + one_if m j ≤ refs.count j =
      λ j. omega (arith, queued_le r.slots idx s j e, count-retain r.refs m j, b.counts j) in
    let done =
      enqueue-balance r.policy r.queue_size idx s.queues p m refs (retain-Sound r.refs m b.sound)
        enough in
    let next : after.1.next ≡ r.refs.next =
      next-enqueue r.policy r.queue_size idx s.queues p m refs ∙ next-retain r.refs m in
    rw (e, deliver)
      (rw on (
        delivered r m p idx s extra b old e after.0 after.1
            (record s { active = true; queues = after.0; notified = true }) refl done.0 next
            (λ j. held-enqueue_le r.policy r.queue_size idx s.queues p m refs j) done.1,
        next,
      ))

-- A delivery keeps the balance: the new reference is in the queue, or was released.
pub deliver-Balanced :
    (r : Router) (m p idx : ℕ) (extra : ℕ → ℕ)
    → Balanced r extra
    → m < r.refs.next
    → Keeps r extra (deliver r m p idx).0
unfolding deliver
deliver-Balanced r m p idx extra b old = elim (Option-cases (get_elem? r.slots idx)) [
  | inl e ↦ rw (e, deliver) (b, refl)
  | inr (s, e) ↦ elim (Bool-cases s.active) [
    | inr off ↦ rw (e, deliver) (rw off (b, refl))
    | inl on ↦ accepts r m p idx s extra b old e on
  ]
]

pub dispatch_exact-Balanced :
    (r : Router) (m p : ℕ) (is : List ℕ) (extra : ℕ → ℕ)
    → Balanced r extra
    → m < r.refs.next
    → Keeps r extra (dispatch_exact r m p is).0
unfolding dispatch_exact
dispatch_exact-Balanced r m p [] extra b old = (b, refl)
dispatch_exact-Balanced r m p (i ∷ is) extra b old =
    let r1 = (deliver r m p i).0 in
    let one = deliver-Balanced r m p i extra b old in
    let rest = dispatch_exact-Balanced r1 m p is extra one.0 (omega (arith, old, one.1)) in
    (rest.0, rest.1 ∙ one.1)

pub dispatch_wildcards-Balanced :
    (r : Router) (m p : ℕ) (topic : Bytes) (subs : List (Bytes × ℕ)) (extra : ℕ → ℕ)
    → Balanced r extra
    → m < r.refs.next
    → Keeps r extra (dispatch_wildcards r m p topic subs).0
unfolding dispatch_wildcards
dispatch_wildcards-Balanced r m p topic [] extra b old = (b, refl)
dispatch_wildcards-Balanced r m p topic ((pattern, i) ∷ subs) extra b old =
    let one = deliver-Balanced r m p i extra b old in
    elim (Bool-cases (match_wildcard pattern topic)) [
      | inr differs ↦ rw differs (dispatch_wildcards-Balanced r m p topic subs extra b old)
      | inl fits ↦ rw fits (
          let rest =
            dispatch_wildcards-Balanced (deliver r m p i).0 m p topic subs extra one.0
              (omega (arith, old, one.1)) in
          (rest.0, rest.1 ∙ one.1))
    ]

pub dispatch_groups-Balanced :
    (r : Router) (m p : ℕ) (gs : List Group) (extra : ℕ → ℕ)
    → Balanced r extra
    → m < r.refs.next
    → Keeps r extra (dispatch_groups r m p gs).0
unfolding dispatch_groups
dispatch_groups-Balanced r m p [] extra b old = (b, refl)
dispatch_groups-Balanced r m p (g ∷ gs) extra b old =
    let chosen = to_list (choose g).1 in
    let one = dispatch_exact-Balanced r m p chosen extra b old in
    let rest =
      dispatch_groups-Balanced (dispatch_exact r m p chosen).0 m p gs extra one.0
        (omega (arith, old, one.1)) in
    (rest.0, rest.1 ∙ one.1)

pub same_queues :
    (r : Router) (idx : ℕ) (s t : Slot) (gs : ℕ → List Group) (extra : ℕ → ℕ)
    → get_elem? r.slots idx ≡ some s
    → t.queues ≡ s.queues
    → Balanced r extra
    → Balanced (record r { slots = set r.slots idx t; groups = gs }) extra
same_queues r idx s t gs extra e te b = record {
  sound = b.sound;
  counts = λ j.
      let same : held t.queues j ≡ held s.queues j = rw te refl in
      omega (arith, same, queued-set r.slots idx s t j e, b.counts j);
  fresh = b.fresh;
}

pub deactivate-Balanced :
    (r : Router) (idx : ℕ) (s : Slot) (extra : ℕ → ℕ)
    → get_elem? r.slots idx ≡ some s
    → Balanced r extra
    → Balanced (deactivate r idx s) extra
unfolding deactivate
deactivate-Balanced r idx s extra e b = elim (Bool-cases (length s.group == 0)) [
  | inl none_there ↦
      rw none_there (same_queues r idx s (record s { active = false }) r.groups extra e refl b)
  | inr named ↦ rw named (same_queues r idx s (record s { active = false }) _ extra e refl b)
]

pub disconnect_subscriber-Balanced :
    (r : Router) (idx : ℕ) (extra : ℕ → ℕ)
    → Balanced r extra
    → Balanced (disconnect_subscriber r idx) extra
unfolding disconnect_subscriber
disconnect_subscriber-Balanced r idx extra b = elim (Option-cases (get_elem? r.slots idx)) [
  | inl e ↦ rw (e, disconnect_subscriber) b
  | inr (s, e) ↦ elim (Bool-cases s.active) [
    | inr off ↦ rw (e, disconnect_subscriber) (rw off b)
    | inl on ↦ rw (e, disconnect_subscriber) (rw on (deactivate-Balanced r idx s extra e b))
  ]
]

pub disconnect_all-Balanced :
    (r : Router) (is : List ℕ) (extra : ℕ → ℕ)
    → Balanced r extra
    → Balanced (disconnect_all r is) extra
unfolding disconnect_all
disconnect_all-Balanced r [] extra b = b
disconnect_all-Balanced r (i ∷ is) extra b =
    disconnect_all-Balanced (disconnect_subscriber r i) is extra
      (disconnect_subscriber-Balanced r i extra b)
