-- ===== src/Broker/Queue/Fetch.antt =====
-- internal/broker/router.go, fetchNextMessage and drainSubscriberQueues: the order in which a
-- subscriber's messages leave, and the references that a drain gives back.
use aqueduct.Base.{
  ap, sym, ◌∙◌, ◌<◌, arith, ◌+◌, refl, ◌≤◌, none, [], drop, ◌++◌, get_elem?, some, ◌∷◌, List, ◌≡◌,
  Option, ℕ,
}
use aqueduct.Broker.Queue.Balance.{next-release, held, release-Sound, one_if_refl, occurs, Sound}
use aqueduct.Broker.Queue.{
  drain_subscriber_queues, take_from, contents, Queues, drain, fetch_next_message,
}
use aqueduct.Broker.Refs.Balance.{one_if, count-release}
use aqueduct.Broker.Refs.{release, Refs}

abbrev pub tagged : ℕ → List ℕ → List (ℕ × ℕ)
tagged p [] = []
tagged p (m ∷ q) = (m, p) ∷ tagged p q

-- What waits, urgent levels first, in the order of arrival within a level.
abbrev pub pending : Queues → List (ℕ × ℕ)
pending qs =
    tagged 0 (contents (qs 0))
    ++ (tagged 1 (contents (qs 1)) ++ (tagged 2 (contents (qs 2)) ++ tagged 3 (contents (qs 3))))

-- The contents of one channel, by what a receive finds.
data Channel (o : Option (List ℕ)) : Type 0 where
  idle : contents o ≡ [] → Channel o
  last : (m : ℕ) → o ≡ some (m ∷ []) → Channel o
  more : (m x : ℕ) (q : List ℕ) → o ≡ some (m ∷ x ∷ q) → Channel o

channel : (o : Option (List ℕ)) → Channel o
channel none = idle refl
channel (some []) = idle refl
channel (some (m ∷ [])) = last m refl
channel (some (m ∷ x ∷ q)) = more m x q refl

abbrev Fetched : Queues → Queues × Option (ℕ × ℕ) → Type 0
Fetched qs r = (r.1 ≡ get_elem? (pending qs) 0) × (pending r.0 ≡ drop 1 (pending qs))

skipped :
    (qs : Queues) (p : ℕ) (o : Option (List ℕ)) (rest : Queues × Option (ℕ × ℕ))
    → contents o ≡ []
    → take_from qs p o rest ≡ rest
skipped qs p none rest e = refl
skipped qs p (some []) rest e = refl
skipped qs p (some (m ∷ [])) rest e = absurd (cc (e))
skipped qs p (some (m ∷ x ∷ q)) rest e = absurd (cc (e))

-- A fetch takes the first waiting message, or nothing where none waits: every message of a level
-- before those of the next, and first in first out within a level.
pub fetch_next_message-pending : (qs : Queues) → Fetched qs (fetch_next_message qs)
unfolding fetch_next_message
fetch_next_message-pending qs = elim (channel (qs 0)) [
  | last m e ↦ rw e (refl, refl)
  | more m x q e ↦ rw e (refl, refl)
  | idle e ↦
      rw (skipped qs 0 (qs 0) _ e, e)
        (elim (channel (qs 1)) [
          | last m f ↦ rw f (refl, rw e refl)
          | more m x q f ↦ rw f (refl, rw e refl)
          | idle f ↦
              rw (skipped qs 1 (qs 1) _ f, f)
                (elim (channel (qs 2)) [
                  | last m g ↦ rw g (refl, rw (e, f) refl)
                  | more m x q g ↦ rw g (refl, rw (e, f) refl)
                  | idle g ↦
                      rw (skipped qs 2 (qs 2) _ g, g)
                        (elim (channel (qs 3)) [
                          | last m h ↦ rw h (refl, rw (e, f, g) refl)
                          | more m x q h ↦ rw h (refl, rw (e, f, g) refl)
                          | idle h ↦ rw (skipped qs 3 (qs 3) _ h, h) (refl, rw (e, f, g) refl)
                        ])
                ])
        ])
]

-- A drain gives back every queued reference.
pub drain-count :
    (q : List ℕ) (refs : Refs)
    → Sound refs
    → ((j : ℕ) → occurs q j ≤ refs.count j)
    → Sound (drain q refs) × ((j : ℕ) → (drain q refs).count j + occurs q j ≡ refs.count j)
unfolding drain
drain-count [] refs s enough = (s, λ j. omega arith)
drain-count (m ∷ q) refs s enough =
    let pos : 0 < refs.count m = omega (arith, enough m, one_if_refl m) in
    let less = λ (j : ℕ). count-release refs m j (s.tops m) pos in
    let rest =
      drain-count q (release refs m) (release-Sound refs m s pos)
        (λ j. omega (arith, enough j, less j)) in
    (rest.0, λ j. omega (arith, less j, rest.1 j))

abbrev occurs_in : List (ℕ × ℕ) → ℕ → ℕ
occurs_in [] j = 0
occurs_in ((m, p) ∷ l) j = one_if m j + occurs_in l j

occurs_in-tagged :
    (p : ℕ) (q : List ℕ) (l : List (ℕ × ℕ)) (j : ℕ)
    → occurs_in (tagged p q ++ l) j ≡ occurs q j + occurs_in l j
occurs_in-tagged p [] l j = omega arith
occurs_in-tagged p (m ∷ q) l j = omega (arith, occurs_in-tagged p q l j)

occurs_in-tagged_last : (p : ℕ) (q : List ℕ) (j : ℕ) → occurs_in (tagged p q) j ≡ occurs q j
occurs_in-tagged_last p [] j = refl
occurs_in-tagged_last p (m ∷ q) j = omega (arith, occurs_in-tagged_last p q j)

occurs_in-pending : (qs : Queues) (j : ℕ) → occurs_in (pending qs) j ≡ held qs j
occurs_in-pending qs j =
    let last = tagged 3 (contents (qs 3)) in
    let third = tagged 2 (contents (qs 2)) ++ last in
    let second = tagged 1 (contents (qs 1)) ++ third in
    let first : occurs_in (pending qs) j ≡ occurs (contents (qs 0)) j + occurs_in second j =
      occurs_in-tagged 0 (contents (qs 0)) second j in
    omega (
      arith,
      first,
      occurs_in-tagged 1 (contents (qs 1)) third j,
      occurs_in-tagged 2 (contents (qs 2)) last j,
      occurs_in-tagged_last 3 (contents (qs 3)) j,
    )

occurs_in_first :
    (l : List (ℕ × ℕ)) (m p j : ℕ)
    → get_elem? l 0 ≡ some (m, p)
    → occurs_in (drop 1 l) j + one_if m j ≡ occurs_in l j
occurs_in_first [] m p j e = absurd (cc (e))
occurs_in_first ((x, k) ∷ l) m p j e = let same : x ≡ m = cc e in rw same (omega arith)

-- A fetched message leaves the queues once.
pub held-fetch :
    (qs : Queues) (m p j : ℕ)
    → (fetch_next_message qs).1 ≡ some (m, p)
    → held (fetch_next_message qs).0 j + one_if m j ≡ held qs j
held-fetch qs m p j e =
    let order = fetch_next_message-pending qs in
    let first = occurs_in_first (pending qs) m p j (sym order.0 ∙ e) in
    omega (
      arith,
      first,
      occurs_in-pending qs j,
      occurs_in-pending (fetch_next_message qs).0 j,
      ap (λ l. occurs_in l j) order.1,
    )

next-drain : (q : List ℕ) (refs : Refs) → (drain q refs).next ≡ refs.next
unfolding drain
next-drain [] refs = refl
next-drain (m ∷ q) refs = next-drain q (release refs m) ∙ next-release refs m

-- A subscriber's drain gives back exactly what its queues held, and empties them.
pub drain_subscriber_queues-held :
    (qs : Queues) (refs : Refs)
    → Sound refs
    → ((j : ℕ) → held qs j ≤ refs.count j)
    → Sound (drain_subscriber_queues qs refs).1
      × ((j : ℕ) → (drain_subscriber_queues qs refs).1.count j + held qs j ≡ refs.count j)
      × ((j : ℕ) → held (drain_subscriber_queues qs refs).0 j ≡ 0)
      × ((drain_subscriber_queues qs refs).1.next ≡ refs.next)
unfolding drain_subscriber_queues
drain_subscriber_queues-held qs refs s enough =
    let q0 = contents (qs 0) in
    let q1 = contents (qs 1) in
    let q2 = contents (qs 2) in
    let q3 = contents (qs 3) in
    let d0 = drain-count q0 refs s (λ j. omega (arith, enough j)) in
    let r0 = drain q0 refs in
    let d1 = drain-count q1 r0 d0.0 (λ j. omega (arith, enough j, d0.1 j)) in
    let r1 = drain q1 r0 in
    let d2 = drain-count q2 r1 d1.0 (λ j. omega (arith, enough j, d0.1 j, d1.1 j)) in
    let r2 = drain q2 r1 in
    let d3 = drain-count q3 r2 d2.0 (λ j. omega (arith, enough j, d0.1 j, d1.1 j, d2.1 j)) in
    (
      d3.0,
      λ j. omega (arith, d0.1 j, d1.1 j, d2.1 j, d3.1 j),
      λ j. omega arith,
      next-drain q3 r2 ∙ next-drain q2 r1 ∙ next-drain q1 r0 ∙ next-drain q0 refs,
    )

take_from-none :
    (qs : Queues) (p : ℕ) (o : Option (List ℕ)) (rest : Queues × Option (ℕ × ℕ))
    → (take_from qs p o rest).1 ≡ none
    → take_from qs p o rest ≡ rest
take_from-none qs p none rest e = refl
take_from-none qs p (some []) rest e = refl
take_from-none qs p (some (m ∷ [])) rest e = absurd (cc e)
take_from-none qs p (some (m ∷ x ∷ q)) rest e = absurd (cc e)

-- A fetch that finds nothing leaves the queues.
pub fetch_next_message-none :
    (qs : Queues) → (fetch_next_message qs).1 ≡ none → fetch_next_message qs ≡ (qs, none)
unfolding fetch_next_message
fetch_next_message-none qs e =
    let r3 = take_from qs 3 (qs 3) (qs, none) in
    let r2 = take_from qs 2 (qs 2) r3 in
    let r1 = take_from qs 1 (qs 1) r2 in
    let e0 = take_from-none qs 0 (qs 0) r1 e in
    let e1 = take_from-none qs 1 (qs 1) r2 (sym (ap (λ x. x.1) e0) ∙ e) in
    let e2 = take_from-none qs 2 (qs 2) r3 (sym (ap (λ x. x.1) (e0 ∙ e1)) ∙ e) in
    let e3 = take_from-none qs 3 (qs 3) (qs, none) (sym (ap (λ x. x.1) (e0 ∙ (e1 ∙ e2))) ∙ e) in
    e0 ∙ (e1 ∙ (e2 ∙ e3))
