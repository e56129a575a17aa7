-- ===== src/Broker/Queue/Overflow.antt =====
-- internal/broker/router.go, enqueueToSubscriber and handleOverflow: what a bounded queue keeps.
use aqueduct.Base.{
  ltb→lt, refl, take-append_eq, take_all, sym, ltb→le, inr, inl, true, Bool-cases, false, some,
  none, ltb, take, [], if◌then◌else◌, length-append, ◌∷◌, arith, ◌++◌, ◌≡◌, ◌-◌, ◌≤◌, length, suc,
  ◌<◌, drop, List, ℕ,
}
use aqueduct.Broker.Queue.{drop_oldest, handle_overflow, Policy, send}
use aqueduct.Broker.Refs.{Refs}

-- The contents after a send, as a bounded buffer would have them.
abbrev pub kept : Policy → ℕ → List ℕ → ℕ → List ℕ
kept Policy.drop_oldest room q m = drop (suc (length q) - room) (q ++ m ∷ [])
kept Policy.drop_newest room q m = take room (q ++ m ∷ [])
kept Policy.disconnect room q m = take room (q ++ m ∷ [])

no_victim :
    (room idx : ℕ) (q : List ℕ) (m : ℕ) (refs : Refs)
    → (handle_overflow drop_oldest room idx q m refs).2 ≡ none
unfolding handle_overflow
no_victim room idx [] m refs = ground arith
no_victim room idx (x ∷ q) m refs = ground arith

-- The oldest message makes room for the new one.
shifted :
    (room idx : ℕ) (q : List ℕ) (m : ℕ) (refs : Refs)
    → 0 < room
    → length q ≤ room
    → room ≤ length q
    → (send drop_oldest room idx q m refs).0 ≡ kept Policy.drop_oldest room q m
unfolding send handle_overflow
shifted room idx [] m refs pos fits full = absurd (omega arith)
shifted room idx (x ∷ q) m refs pos fits full =
    let shut : ltb (suc (length q)) room ≡ false = ground arith in
    let open' : ltb (length q) room ≡ true = ground arith in
    let one : suc (suc (length q)) - room ≡ 1 = omega arith in rw (shut, open', one)

-- A send to a queue within its capacity, which is positive, leaves what a bounded buffer keeps of
-- the queue followed by the message: under drop_oldest the last messages, under the two other
-- policies the first ones. It asks to disconnect the subscriber exactly when the queue is full and
-- the policy is disconnect.
pub send-kept :
    (policy : Policy) (room idx : ℕ) (q : List ℕ) (m : ℕ) (refs : Refs)
    → 0 < room
    → length q ≤ room
    → ((send policy room idx q m refs).0 ≡ kept policy room q m)
      × ((send policy room idx q m refs).2 ≡ elim policy [
        | Policy.disconnect ↦ if ltb (length q) room then none else some idx
        | _ ↦ none
      ])
unfolding send
send-kept Policy.drop_oldest room idx q m refs pos fits = elim (Bool-cases (ltb (length q) room)) [
  | inl e ↦
      let zero_off : suc (length q) - room ≡ 0 = ground (arith, ltb→lt (length q) room e) in
      rw (e, zero_off) (refl, refl)
  | inr e ↦ (
    shifted room idx q m refs pos fits (ltb→le (length q) room e),
    rw e (no_victim room idx q m refs),
  )
]
send-kept Policy.drop_newest room idx q m refs pos fits = elim (Bool-cases (ltb (length q) room)) [
  | inl e ↦ rw e (
    sym (
        take_all room (q ++ m ∷ [])
          (ground (arith, ltb→lt (length q) room e, length-append q (m ∷ [])))),
    refl,
  )
  | inr e ↦
      rw e (sym (take-append_eq room q (m ∷ []) (ground (arith, ltb→le (length q) room e))), refl)
]
send-kept Policy.disconnect room idx q m refs pos fits = elim (Bool-cases (ltb (length q) room)) [
  | inl e ↦ rw e (
    sym (
        take_all room (q ++ m ∷ [])
          (ground (arith, ltb→lt (length q) room e, length-append q (m ∷ [])))),
    refl,
  )
  | inr e ↦
      rw e (sym (take-append_eq room q (m ∷ []) (ground (arith, ltb→le (length q) room e))), refl)
]

-- A queue within its capacity stays within it, under every policy.
pub send_le :
    (policy : Policy) (room idx : ℕ) (q : List ℕ) (m : ℕ) (refs : Refs)
    → length q ≤ room
    → length (send policy room idx q m refs).0 ≤ room
unfolding send handle_overflow
send_le Policy.drop_oldest room idx [] m refs fits = ground arith
send_le Policy.drop_oldest room idx (x ∷ q) m refs fits =
    ground (arith, length-append q (m ∷ []), length-append (x ∷ q) (m ∷ []))
send_le Policy.drop_newest room idx q m refs fits = ground (arith, length-append q (m ∷ []))
send_le Policy.disconnect room idx q m refs fits = ground (arith, length-append q (m ∷ []))
