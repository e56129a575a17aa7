-- ===== src/Broker/Writer/Publishes.antt =====
-- internal/broker/router.go, handleNack: a writer's own publishes keep the counters in balance.

use aqueduct.Base.{
  true, ltb, Bool-cases, ◌>>=◌, fault, false, Bool, [], err, inr, ok, Option, inl, List,
  Option-cases, Outcome, ℕ,
}
use aqueduct.Broker.Router.{Router}
use aqueduct.Broker.Writer.Nacks.{
  dlq_frame, retry_frame, bump, below_limit, nack_key, handle_nack, handle_cached, NackCounters,
  ignore_error,
}
use aqueduct.Broker.Router.Accounts.{publish_at-Balanced}
use aqueduct.Broker.Router.Publish.{
  admit_client, has_peers, max_payload_size, publish_at, priority_of, PublishError, Outside,
  publish_admitted, publish_with_client_id,
}
use aqueduct.Broker.Writer.{cached}
use aqueduct.Broker.Router.Balance.{Balanced}
use aqueduct.Quotas.{Manager}
use aqueduct.Protocol.Frame.{Frame}
use aqueduct.Base.Bytes.{Bytes}

-- A result that is a router is balanced.
abbrev pub Keeps : (ℕ → ℕ) → Outcome PublishError Router → Type 0
Keeps extra (ok r) = Balanced r extra
Keeps extra (err e) = Unit {0}
Keeps extra fault = Unit {0}

after_priority :
    (extra : ℕ → ℕ) (out : Outcome PublishError ℕ) (k : ℕ → Router)
    → ((p : ℕ) → Balanced (k p) extra)
    → Keeps extra (out >>= λ p. ok (k p))
after_priority extra (ok p) k b = b p
after_priority extra (err e) k b = tt
after_priority extra fault k b = tt

with_quota-Balanced :
    (r : Router) (q : Option Manager) (extra : ℕ → ℕ)
    → Balanced r extra
    → Balanced (record r { quota_manager = q }) extra
with_quota-Balanced r q extra b = record { sound = b.sound; counts = b.counts; fresh = b.fresh }

publish_admitted-Keeps :
    (o : Outside) (r : Router) (f : Frame) (extra : ℕ → ℕ) (quota : Option Manager × Bool)
    → Balanced r extra
    → Keeps extra (publish_admitted o r f quota)
unfolding publish_admitted
publish_admitted-Keeps o r f extra (q, false) b = with_quota-Balanced r q extra b
publish_admitted-Keeps o r f extra (q, true) b =
    let r1 = record r { quota_manager = q } in
    after_priority extra (priority_of f) (publish_at o (has_peers o) r1 f)
      (λ p. publish_at-Balanced o (has_peers o) r1 extra f p (with_quota-Balanced r q extra b))

pub publish_with_client_id-Keeps :
    (o : Outside) (r : Router) (f : Frame) (client : Bytes) (extra : ℕ → ℕ)
    → Balanced r extra
    → Keeps extra (publish_with_client_id o r f client)
unfolding publish_with_client_id
publish_with_client_id-Keeps o r f client extra b =
    elim (Bool-cases (ltb max_payload_size f.payload_len)) [
      | inl long ↦ rw long tt
      | inr fits ↦
          rw fits (publish_admitted-Keeps o r f extra (admit_client r.quota_manager client) b)
    ]

ignore_error-Balanced :
    (r : Router) (out : Outcome PublishError Router) (extra : ℕ → ℕ)
    → Balanced r extra
    → Keeps extra out
    → Balanced (ignore_error r out).0 extra
ignore_error-Balanced r (ok r') extra b after = after
ignore_error-Balanced r (err e) extra b after = b
ignore_error-Balanced r fault extra b after = b

module _ (limit : ℕ) (o : Outside) (r : Router) (counters : NackCounters) where
  handle_cached-Balanced :
      (offset : ℕ) (topic : Bytes) (extra : ℕ → ℕ)
      → Balanced r extra
      → Balanced (handle_cached limit o r counters offset topic).0.0 extra
  unfolding handle_cached
  handle_cached-Balanced offset topic extra b =
      let key = nack_key topic in
      let after = λ (f : Frame).
        ignore_error-Balanced r (publish_with_client_id o r f []) extra b
          (publish_with_client_id-Keeps o r f [] extra b) in
      elim (Bool-cases (below_limit (bump counters key offset key offset) limit)) [
        | inl below ↦ rw below (after (retry_frame topic offset))
        | inr limit_reached ↦ rw limit_reached (after (dlq_frame topic))
      ]

  pub handle_nack-Balanced :
      (cache : List (ℕ × Bytes)) (offset : ℕ) (extra : ℕ → ℕ)
      → Balanced r extra
      → Balanced (handle_nack limit o r counters cache offset).0.0 extra
  unfolding handle_nack
  handle_nack-Balanced cache offset extra b = elim (Option-cases (cached cache offset)) [
    | inl e ↦ rw (e, handle_nack) b
    | inr (topic, e) ↦ rw (e, handle_nack) (handle_cached-Balanced offset topic extra b)
  ]
