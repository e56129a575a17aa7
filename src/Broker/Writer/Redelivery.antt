-- ===== src/Broker/Writer/Redelivery.antt =====
-- internal/broker/router.go, handleNack over many NACKs: `nackCounters` is one table for all writers,
-- and each NACK meets its own writer's cache and the router as it is by then.
use aqueduct.Base.{
  true, ap, false, refl, sym, subst, inr, inl, Bool-cases, ◌≤◌, ◌⊎◌, none, ◌∙◌, arith, ltb, some,
  ◌%◌, ◌+◌, ◌==◌, ◌≡◌, Option, if◌then◌else◌, ◌<◌, List, [], ◌∷◌, ℕ,
}
use aqueduct.Broker.Writer.Retries.{handle_cached-lem}
use aqueduct.Broker.Writer.Nacks.{
  below_limit, handle_cached, retry_frame, dlq_frame, bump, ignore_error, nack_key, forget,
  NackCounters, handle_nack,
}
use native.Mathlib.Nat.{mod_self, zero-mod, mod-eq_of_lt, mod-add-mod, mod-lt}
use aqueduct.Broker.Router.Publish.{publish_with_client_id, Outside}
use aqueduct.Broker.Refs.{update}
use aqueduct.Broker.Writer.{cached, goes_on, Going}
use aqueduct.Base.Bytes.{Bytes}
use aqueduct.Broker.Router.{Router}

-- A NACK: what it takes from outside, the router and the writer's cache that it meets, its offset.
pub record Nack : Type 0 where
  pub outside : Outside
  pub router : Router
  pub cache : List (ℕ × Bytes)
  pub offset : ℕ

-- The router after each NACK, and how its writer goes on.
unfoldable pub handle_nacks : ℕ → NackCounters → List Nack → List (Router × Going)
unfolding handle_nack
handle_nacks limit counters [] = []
handle_nacks limit counters (n ∷ ns) =
    let after = handle_nack limit n.outside n.router counters n.cache n.offset in
    after.0 ∷ handle_nacks limit after.1 ns

-- 1 for the same key and offset.
abbrev pub one_for : ℕ → ℕ → ℕ → ℕ → ℕ
one_for k o key offset = if k == key then (if o == offset then 1 else 0) else 0

-- How often a topic's key and an offset stand in a list.
abbrev pub times : List (ℕ × ℕ) → ℕ → ℕ → ℕ
times [] key offset = 0
times ((k, o) ∷ before) key offset = one_for k o key offset + times before key offset

-- What a NACK should lead to, by the topic that the cache holds: nothing without one, the dead
-- letter at every `limit`-th NACK of the topic and the offset, and a retry at all others.
abbrev pub reply : ℕ → List (ℕ × ℕ) → Nack → Option Bytes → Router × Going
reply limit before n none = (n.router, goes_on)
reply limit before n (some topic) = ignore_error n.router (
    publish_with_client_id n.outside n.router
      (if (times before (nack_key topic) n.offset + 1) % limit == 0
        then dlq_frame topic
        else retry_frame topic n.offset)
      [])

abbrev pub counted : List (ℕ × ℕ) → Nack → Option Bytes → List (ℕ × ℕ)
counted before n none = before
counted before n (some topic) = (nack_key topic, n.offset) ∷ before

abbrev pub replies : ℕ → List (ℕ × ℕ) → List Nack → List (Router × Going)
replies limit before [] = []
replies limit before (n ∷ ns) =
    let topic = cached n.cache n.offset in
    reply limit before n topic ∷ replies limit (counted before n topic) ns

mod_up :
    (a limit : ℕ)
    → 0 < limit
    → (a + 1) % limit ≡ (if ltb (a % limit + 1) limit then a % limit + 1 else 0)
mod_up a limit pos =
    let below = mod-lt a pos in
    let next : (a + 1) % limit ≡ (a % limit + 1) % limit = sym (mod-add-mod a limit 1) in
    elim (Bool-cases (ltb (a % limit + 1) limit)) [
      | inl more ↦ rw more (next ∙ mod-eq_of_lt (ground arith))
      | inr whole ↦
          let full : a % limit + 1 ≡ limit = ground arith in
          rw whole (next ∙ (ap (λ n. n % limit) full ∙ mod_self limit))
    ]

-- The table holds the number of NACKs since the last dead letter.
abbrev Counts : ℕ → NackCounters → List (ℕ × ℕ) → Type 0
Counts limit counters before =
    (key offset : ℕ) → counters key offset ≡ times before key offset % limit

elsewhere :
    (counters : NackCounters) (key offset n k f : ℕ)
    → one_for key offset k f ≡ 0
    → update counters key (update (counters key) offset n) k f ≡ counters k f
elsewhere counters key offset n k f away = grind arith

forget-bump_elsewhere :
    (counters : NackCounters) (key offset k f : ℕ)
    → one_for key offset k f ≡ 0
    → forget (bump counters key offset) key offset k f ≡ counters k f
forget-bump_elsewhere counters key offset k f away =
    elsewhere (bump counters key offset) key offset 0 k f away
    ∙ elsewhere counters key offset ((counters key offset + 1) % 256) k f away

-- What a NACK leaves at its own place, and elsewhere.
pub handle_cached-counter :
    (limit : ℕ) (o : Outside) (r : Router) (counters : NackCounters) (offset : ℕ) (topic : Bytes)
    (k f : ℕ)
    → one_for (nack_key topic) offset k f ≡ 0
    → (handle_cached limit o r counters offset topic).1 k f ≡ counters k f
unfolding handle_cached
handle_cached-counter limit o r counters offset topic k f away =
    let key = nack_key topic in
    elim (Bool-cases (below_limit (bump counters key offset key offset) limit)) [
      | inl below ↦
          rw below (elsewhere counters key offset ((counters key offset + 1) % 256) k f away)
      | inr at_limit ↦ rw at_limit (forget-bump_elsewhere counters key offset k f away)
    ]

same_place :
    (key offset k f : ℕ)
    → (one_for key offset k f ≡ 0) ⊎ ((key ≡ k) × (offset ≡ f) × (one_for key offset k f ≡ 1))
same_place key offset k f = ground arith

turn {ℓ} :
    {A : Type ℓ} (m c limit : ℕ) (again last : A)
    → m ≡ (if ltb (c + 1) limit then c + 1 else 0)
    → (if ltb (c + 1) limit then again else last) ≡ (if m == 0 then last else again)
turn m c limit again last e = elim (Bool-cases (ltb (c + 1) limit)) [
  | inl more ↦ let up : (m == 0) ≡ false = ground (arith, e, more) in rw (more, up) refl
  | inr whole ↦
      let zero_now : (m == 0) ≡ true = ground (arith, e, whole) in rw (whole, zero_now) refl
]

-- One more NACK of a place, below the limit or at it.
own_place :
    (limit : ℕ) (n : Nack) (counters : NackCounters) (before : List (ℕ × ℕ)) (topic : Bytes)
    → 0 < limit
    → limit ≤ 127
    → Counts limit counters before
    → ((handle_cached limit n.outside n.router counters n.offset topic).1 (nack_key topic) n.offset
        ≡ (times before (nack_key topic) n.offset + 1) % limit)
      × ((handle_cached limit n.outside n.router counters n.offset topic).0
          ≡ reply limit before n (some topic))
own_place limit n counters before topic pos small h =
    let c = times before (nack_key topic) n.offset % limit in
    let up = mod_up (times before (nack_key topic) n.offset) limit pos in
    let (count, answer) =
      handle_cached-lem limit n.outside n.router counters n.offset topic c
        (h (nack_key topic) n.offset) (mod-lt (times before (nack_key topic) n.offset) pos) small in
    (
      count ∙ sym up,
      answer
          ∙ ap (λ f. ignore_error n.router (publish_with_client_id n.outside n.router f []))
              (turn ((times before (nack_key topic) n.offset + 1) % limit) c limit
                (retry_frame topic n.offset) (dlq_frame topic) up),
    )

handle_cached-Counts :
    (limit : ℕ) (n : Nack) (counters : NackCounters) (before : List (ℕ × ℕ)) (topic : Bytes)
    → 0 < limit
    → limit ≤ 127
    → Counts limit counters before
    → Counts limit
        (handle_cached limit n.outside n.router counters n.offset topic).1
        (counted before n (some topic))
handle_cached-Counts limit n counters before topic pos small h k f =
    let key = nack_key topic in
    elim (same_place key n.offset k f) [
      | inl away ↦
          let same : one_for key n.offset k f + times before k f ≡ times before k f =
            omega (arith, away) in
          rw same (
            handle_cached-counter limit n.outside n.router counters n.offset topic k f away ∙ h k f)
      | inr (k_is, f_is, one) ↦
          let own = (own_place limit n counters before topic pos small h).0 in
          let up : one_for key n.offset k f + times before k f ≡ times before k f + 1 =
            omega (arith, one) in
          rw up (
            subst
              (λ x.
                (handle_cached limit n.outside n.router counters n.offset topic).1 x f
                ≡ (times before x f + 1) % limit)
              k_is
              (subst
                (λ y.
                  (handle_cached limit n.outside n.router counters n.offset topic).1 key y
                  ≡ (times before key y + 1) % limit)
                f_is own))
    ]

reply-Counts :
    (limit : ℕ) (n : Nack) (counters : NackCounters) (before : List (ℕ × ℕ)) (held : Option Bytes)
    → cached n.cache n.offset ≡ held
    → 0 < limit
    → limit ≤ 127
    → Counts limit counters before
    → let after = handle_nack limit n.outside n.router counters n.cache n.offset in
      (after.0 ≡ reply limit before n held) × Counts limit after.1 (counted before n held)
unfolding handle_nack
reply-Counts limit n counters before none e pos small h = rw (e, handle_nack) (refl, h)
reply-Counts limit n counters before (some topic) e pos small h =
    rw (e, handle_nack)
      (
        (own_place limit n counters before topic pos small h).1,
        handle_cached-Counts limit n counters before topic pos small h,
      )

handle_nacks-Counts :
    (limit : ℕ) (ns : List Nack) (counters : NackCounters) (before : List (ℕ × ℕ))
    → 0 < limit
    → limit ≤ 127
    → Counts limit counters before
    → handle_nacks limit counters ns ≡ replies limit before ns
unfolding handle_nacks
handle_nacks-Counts limit [] counters before pos small h = refl
handle_nacks-Counts limit (n ∷ ns) counters before pos small h =
    let held = cached n.cache n.offset in
    let after = handle_nack limit n.outside n.router counters n.cache n.offset in
    let (answer, counts) = reply-Counts limit n counters before held refl pos small h in
    let rest = handle_nacks-Counts limit ns after.1 (counted before n held) pos small counts in
    rw (answer, rest) refl

-- From an empty table, whatever NACKs come from whichever writers, for whatever messages: where the
-- writer's cache does not hold the offset, nothing happens, and of the others every `limit`-th one of
-- the same topic hash and offset publishes the message's dead letter, while each other one publishes
-- the retry with the offset attached. Each meets the router as it is by then, and an error of the
-- publish is ignored. The limit is from 1 to 127.
pub handle_nacks-replies :
    (limit : ℕ) (ns : List Nack)
    → 0 < limit
    → limit ≤ 127
    → handle_nacks limit (λ key offset. 0) ns ≡ replies limit [] ns
handle_nacks-replies limit ns pos small =
    handle_nacks-Counts limit ns (λ key offset. 0) [] pos small (λ key offset. sym (zero-mod limit))
