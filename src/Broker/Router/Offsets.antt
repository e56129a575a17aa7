-- ===== src/Broker/Router/Offsets.antt =====
-- internal/broker/router.go: topic counters and acknowledged offsets.
use aqueduct.Base.{
  [], false, ◌∷◌, true, List, if◌then◌else◌, Bool, arith, ◌≢◌, ◌^◌, ◌<◌, ◌≡◌, ℕ, ◌+◌,
}
use aqueduct.Broker.Router.{Slot, Router, next_topic_offset}
use aqueduct.Authz.{combine_hash_strings}
use aqueduct.Broker.Router.Slots.{ack_groups, ack_offset, get_topic_offset, get_consumer_offset}
use aqueduct.Broker.Refs.{update}
use aqueduct.Broker.Topic.{topic_hash_key}
use aqueduct.Base.Bytes.{Bytes}

-- A publish that is routed takes the topic's next offset: the counter goes up by one, unless it
-- wraps at 2 ^ 64, what GetTopicOffset reads is what the message got, and the counters under other
-- keys stay.
pub next_topic_offset_counts :
    (r : Router) (topic other : Bytes)
    → get_topic_offset r topic + 1 < 2 ^ 64
    → topic_hash_key topic ≢ topic_hash_key other
    → ((next_topic_offset r (topic_hash_key topic)).1 ≡ get_topic_offset r topic + 1)
      × (get_topic_offset (next_topic_offset r (topic_hash_key topic)).0 topic
          ≡ get_topic_offset r topic + 1)
      × (get_topic_offset (next_topic_offset r (topic_hash_key topic)).0 other
          ≡ get_topic_offset r other)
unfolding next_topic_offset get_topic_offset
next_topic_offset_counts r topic other small differ = ground (arith)

written : (table : ℕ → ℕ) (key offset : ℕ) → update table key offset key ≡ offset
written table key offset = ground arith

kept_written :
    (table : ℕ → ℕ) (b : Bool) (other key offset : ℕ)
    → table key ≡ offset
    → (if b then update table other offset else table) key ≡ offset
kept_written table true other key offset h = ground (arith, h)
kept_written table false other key offset h = h

acked :
    (ss : List Slot) (consumer topic : Bytes) (offset : ℕ) (table : ℕ → ℕ) (key : ℕ)
    → table key ≡ offset
    → ack_groups ss consumer topic offset table key ≡ offset
unfolding ack_groups
acked [] consumer topic offset table key h = h
acked (s ∷ ss) consumer topic offset table key h =
    acked ss consumer topic offset _ key (kept_written table _ _ key offset h)

-- After an acknowledgement the consumer's offset on the topic is the acknowledged one, whatever
-- groups the subscribers are in.
pub get_consumer_offset-ack_offset :
    (r : Router) (consumer topic : Bytes) (offset : ℕ)
    → get_consumer_offset (ack_offset r consumer topic offset) consumer topic ≡ offset
unfolding get_consumer_offset ack_offset
get_consumer_offset-ack_offset r consumer topic offset =
    acked r.slots consumer topic offset
      (update r.durable_offsets (combine_hash_strings consumer topic) offset)
      (combine_hash_strings consumer topic)
      (written r.durable_offsets (combine_hash_strings consumer topic) offset)
