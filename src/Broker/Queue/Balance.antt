-- ===== src/Broker/Queue/Balance.antt =====
-- internal/broker/router.go, the subscriber queues: every operation accounts for the references it
-- is given. The equations add up what a counter and the queues hold before and after.
use aqueduct.Base.{
  zero, suc, inr, inl, length, ltb, some, Bool-cases, Option, if◌then◌else◌, none, ◌∙◌, [], arith,
  false, ◌≤◌, ◌+◌, ◌≡◌, ◌++◌, ◌<◌, ◌∷◌, List, ℕ,
}
use aqueduct.Broker.Queue.{clamp_priority, enqueue, handle_overflow, Policy, contents, Queues, send}
use aqueduct.Broker.Refs.Balance.{count-release, underflow-release, parent-release, IsTop, one_if}
use aqueduct.Broker.Refs.{update, release, Refs}

-- How often a reference stands in a queue.
abbrev pub occurs : List ℕ → ℕ → ℕ
occurs [] m = 0
occurs (x ∷ xs) m = one_if x m + occurs xs m

pub occurs-append : (xs ys : List ℕ) (m : ℕ) → occurs (xs ++ ys) m ≡ occurs xs m + occurs ys m
occurs-append [] ys m = omega arith
occurs-append (x ∷ xs) ys m = omega (arith, occurs-append xs ys m)

abbrev pub held : Queues → ℕ → ℕ
held qs m =
    occurs (contents (qs 0)) m
    + occurs (contents (qs 1)) m
    + occurs (contents (qs 2)) m
    + occurs (contents (qs 3)) m

-- References without parents whose counters are above what the queue holds, none of them taken
-- below 0.
pub record Sound (refs : Refs) : Type 0 where
  pub tops : (m : ℕ) → IsTop refs m
  pub clean : refs.underflow ≡ false

pub release-Sound : (refs : Refs) (m : ℕ) → Sound refs → 0 < refs.count m → Sound (release refs m)
release-Sound refs m s pos = record {
  tops = λ j. parent-release refs m j (s.tops m) ∙ s.tops j;
  clean = underflow-release refs m (s.tops m) pos ∙ s.clean;
}

pub one_if_refl : (m : ℕ) → one_if m m ≡ 1
one_if_refl m = ground arith

-- What an operation on a queue owes to the caller, who gives it one reference to m.
abbrev pub Settled : ℕ → List ℕ → Refs → List ℕ × Refs × Option ℕ → Type 0
Settled m q refs after =
    Sound after.1
    × ((j : ℕ) → after.1.count j + occurs q j + one_if m j ≡ refs.count j + occurs after.0 j)

abbrev pub Enough : ℕ → List ℕ → Refs → Type 0
Enough m q refs = (j : ℕ) → occurs q j + one_if m j ≤ refs.count j

refused :
    (q : List ℕ) (m : ℕ) (refs : Refs) (dc : Option ℕ)
    → Sound refs
    → Enough m q refs
    → Settled m q refs (q, release refs m, dc)
refused q m refs dc s enough =
    let pos : 0 < refs.count m = omega (arith, enough m, one_if_refl m) in
    (release-Sound refs m s pos, λ j. omega (arith, count-release refs m j (s.tops m) pos))

accepted :
    (q : List ℕ) (m : ℕ) (refs : Refs) → Sound refs → Settled m q refs (q ++ m ∷ [], refs, none)
accepted q m refs s = (s, λ j. omega (arith, occurs-append q (m ∷ []) j))

-- The oldest reference leaves, and its place is taken or not.
replaced :
    (room : ℕ) (x : ℕ) (q : List ℕ) (m : ℕ) (refs : Refs)
    → Sound refs
    → Enough m (x ∷ q) refs
    → Settled m (x ∷ q) refs (
        if ltb (length q) room
        then (q ++ m ∷ [], release refs x, none)
        else (q, release (release refs x) m, none))
replaced room x q m refs s enough =
    let pos : 0 < refs.count x = omega (arith, enough x, one_if_refl x) in
    let less = λ (j : ℕ). count-release refs x j (s.tops x) pos in
    let s' = release-Sound refs x s pos in
    let enough' : Enough m q (release refs x) = λ j. omega (arith, enough j, less j) in
    elim (Bool-cases (ltb (length q) room)) [
      | inl e ↦ rw e (s', λ j. omega (arith, less j, occurs-append q (m ∷ []) j))
      | inr e ↦ rw e (
          let r = refused q m (release refs x) none s' enough' in
          (r.0, λ j. omega (arith, less j, r.1 j)))
    ]

overflow-balance :
    (policy : Policy) (room idx : ℕ) (q : List ℕ) (m : ℕ) (refs : Refs)
    → Sound refs
    → Enough m q refs
    → Settled m q refs (handle_overflow policy room idx q m refs)
unfolding handle_overflow
overflow-balance Policy.drop_oldest room idx [] m refs s enough = elim (Bool-cases (ltb 0 room)) [
  | inl e ↦ rw e (accepted [] m refs s)
  | inr e ↦ rw e (refused [] m refs none s enough)
]
overflow-balance Policy.drop_oldest room idx (x ∷ q) m refs s enough =
    replaced room x q m refs s enough
overflow-balance Policy.drop_newest room idx q m refs s enough = refused q m refs none s enough
overflow-balance Policy.disconnect room idx q m refs s enough = refused q m refs (some idx) s enough

-- A send settles what it is given: the caller's reference goes into the queue or is released, and
-- so is what falls out, without a counter taken below 0.
pub send-balance :
    (policy : Policy) (room idx : ℕ) (q : List ℕ) (m : ℕ) (refs : Refs)
    → Sound refs
    → Enough m q refs
    → Settled m q refs (send policy room idx q m refs)
unfolding send
send-balance policy room idx q m refs s enough = elim (Bool-cases (ltb (length q) room)) [
  | inl e ↦ rw e (accepted q m refs s)
  | inr e ↦ rw e (overflow-balance policy room idx q m refs s enough)
]

-- One queue replaced, at the level it stands at.
held-update :
    (qs : Queues) (p : ℕ) (v : Option (List ℕ)) (j : ℕ)
    → p < 4
    → held (update qs p v) j + occurs (contents (qs p)) j ≡ held qs j + occurs (contents v) j
held-update qs zero v j h = omega arith
held-update qs (suc zero) v j h = omega arith
held-update qs (suc (suc zero)) v j h = omega arith
held-update qs (suc (suc (suc zero))) v j h = omega arith
held-update qs (suc (suc (suc (suc p)))) v j h = absurd (omega arith)

held_le : (qs : Queues) (p : ℕ) (j : ℕ) → p < 4 → occurs (contents (qs p)) j ≤ held qs j
held_le qs zero j h = omega arith
held_le qs (suc zero) j h = omega arith
held_le qs (suc (suc zero)) j h = omega arith
held_le qs (suc (suc (suc zero))) j h = omega arith
held_le qs (suc (suc (suc (suc p)))) j h = absurd (omega arith)

clamp_lt : (p : ℕ) → clamp_priority p < 4
clamp_lt p = ground arith

-- The same for a subscriber's four queues together.
pub enqueue-balance :
    (policy : Policy) (room idx : ℕ) (qs : Queues) (p m : ℕ) (refs : Refs)
    → Sound refs
    → ((j : ℕ) → held qs j + one_if m j ≤ refs.count j)
    → Sound (enqueue policy room idx qs p m refs).1
      × ((j : ℕ)
          → (enqueue policy room idx qs p m refs).1.count j + held qs j + one_if m j
            ≡ refs.count j + held (enqueue policy room idx qs p m refs).0 j)
unfolding enqueue
enqueue-balance policy room idx qs p m refs s enough =
    let c = clamp_priority p in
    let q = contents (qs c) in
    let after = send policy room idx q m refs in
    let done =
      send-balance policy room idx q m refs s
        (λ j. omega (arith, enough j, held_le qs c j (clamp_lt p))) in
    (done.0, λ j. omega (arith, done.1 j, held-update qs c (some after.0) j (clamp_lt p)))

-- Nothing but the message comes in.
occurs-send_le :
    (policy : Policy) (room idx : ℕ) (q : List ℕ) (m : ℕ) (refs : Refs) (j : ℕ)
    → occurs (send policy room idx q m refs).0 j ≤ occurs q j + one_if m j
unfolding send handle_overflow
occurs-send_le Policy.drop_oldest room idx [] m refs j = ground (arith, occurs-append [] (m ∷ []) j)
occurs-send_le Policy.drop_oldest room idx (x ∷ q) m refs j =
    ground (arith, occurs-append q (m ∷ []) j, occurs-append (x ∷ q) (m ∷ []) j)
occurs-send_le Policy.drop_newest room idx q m refs j = ground (arith, occurs-append q (m ∷ []) j)
occurs-send_le Policy.disconnect room idx q m refs j = ground (arith, occurs-append q (m ∷ []) j)

pub next-release : (refs : Refs) (m : ℕ) → (release refs m).next ≡ refs.next
unfolding release
next-release refs m = ground arith

next-send :
    (policy : Policy) (room idx : ℕ) (q : List ℕ) (m : ℕ) (refs : Refs)
    → (send policy room idx q m refs).1.next ≡ refs.next
unfolding send handle_overflow
next-send Policy.drop_oldest room idx [] m refs = ground (arith, next-release refs m)
next-send Policy.drop_oldest room idx (x ∷ q) m refs =
    ground (arith, next-release refs x, next-release (release refs x) m)
next-send Policy.drop_newest room idx q m refs = ground (arith, next-release refs m)
next-send Policy.disconnect room idx q m refs = ground (arith, next-release refs m)

pub held-enqueue_le :
    (policy : Policy) (room idx : ℕ) (qs : Queues) (p m : ℕ) (refs : Refs) (j : ℕ)
    → held (enqueue policy room idx qs p m refs).0 j ≤ held qs j + one_if m j
unfolding enqueue
held-enqueue_le policy room idx qs p m refs j =
    let c = clamp_priority p in
    let after = send policy room idx (contents (qs c)) m refs in
    omega (
      arith,
      occurs-send_le policy room idx (contents (qs c)) m refs j,
      held-update qs c (some after.0) j (clamp_lt p),
    )

pub next-enqueue :
    (policy : Policy) (room idx : ℕ) (qs : Queues) (p m : ℕ) (refs : Refs)
    → (enqueue policy room idx qs p m refs).1.next ≡ refs.next
unfolding enqueue
next-enqueue policy room idx qs p m refs =
    next-send policy room idx (contents (qs (clamp_priority p))) m refs
