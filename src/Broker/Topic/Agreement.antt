-- ===== src/Broker/Topic/Agreement.antt =====
-- internal/broker/router.go, parsePublishTopic and parseSubscriptionPayload: publishers and
-- subscribers mean the same topic.
use aqueduct.Broker.Topic.{
  spec_of, strip_topic, durable_mark, group_mark, cut, prefix_topic, cut_group, prefix_ttl,
  has_prefix, parse_subscription_payload, parse_ttl, parse_publish_topic,
}
use aqueduct.Base.{
  ap, suc, true, ltb, arith, refl, ◌==◌, some, [], none, ok, ◌++◌, ◌∷◌, false, ℕ, ◌≡◌, Option,
  length, ◌<◌,
}
use aqueduct.Base.Bytes.{Bytes}

-- A topic's name that no marker changes.
pub record IsPlainTopic (t : Bytes) : Type 0 where
  pub filled : 0 < length t
  pub no_ttl : has_prefix t prefix_ttl ≡ false
  pub no_prefix : has_prefix t prefix_topic ≡ false
  pub no_group : cut group_mark t ≡ (t, none)
  pub no_durable : cut durable_mark t ≡ (t, none)

cut_plain : (t : Bytes) → IsPlainTopic t → cut_group t ≡ ([], t)
unfolding cut_group
cut_plain t p = rw p.no_group refl

spec_plain :
    (parse_uint : Bytes → ℕ) (t : Bytes)
    → IsPlainTopic t
    → spec_of parse_uint (cut_group t).0 (cut durable_mark (cut_group t).1) ≡ record {
      topic = t;
      is_durable = false;
      consumer_id = [];
      requested_offset = 0;
      group_id = [];
    }
spec_plain parse_uint t p = rw (cut_plain t p, p.no_durable) refl

-- For a name that is not empty, starts with neither "ttl:" nor "topic:" and holds neither marker of
-- a subscription, a publish to the name, a publish to the name behind "topic:", and a subscription
-- to it have the same key, and neither publish expires.
pub topic_key_agrees :
    (deadline : Bytes → Option ℕ) (parse_uint : Bytes → ℕ) (t : Bytes)
    → IsPlainTopic t
    → (parse_publish_topic deadline t ≡ (0, t))
      × (parse_publish_topic deadline (prefix_topic ++ t) ≡ (0, t))
      × (parse_subscription_payload parse_uint (prefix_topic ++ t)
          ≡ ok (record {
            topic = t;
            is_durable = false;
            consumer_id = [];
            requested_offset = 0;
            group_id = [];
          }))
unfolding parse_publish_topic parse_ttl parse_subscription_payload has_prefix
topic_key_agrees deadline parse_uint t p =
    let nonempty : (length t == 0) ≡ false = ground (arith, p.filled) in
    let longer : ltb 6 (suc (suc (suc (suc (suc (suc (length t))))))) ≡ true =
      ground (arith, p.filled) in
    (
      rw (p.no_ttl, p.no_prefix) refl,
      rw longer refl,
      rw nonempty (ap ok (spec_plain parse_uint t p)),
    )

-- A time to live in front of a topic is stripped too, where its digits hold no colon and the number
-- parser accepts them.
pub parse_publish_topic-ttl :
    (deadline : Bytes → Option ℕ) (d : ℕ) (ms t : Bytes) (at : ℕ)
    → cut (58 ∷ []) (d ∷ ms ++ 58 ∷ t) ≡ (d ∷ ms, some t)
    → deadline (d ∷ ms) ≡ some at
    → parse_publish_topic deadline (prefix_ttl ++ d ∷ ms ++ 58 ∷ t) ≡ (at, strip_topic t)
unfolding parse_publish_topic parse_ttl has_prefix
parse_publish_topic-ttl deadline d ms t at e f = rw (e, f) refl
