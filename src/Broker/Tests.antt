-- ===== src/Broker/Tests.antt =====
-- internal/broker: the theorems on a small router.
use aqueduct.Broker.Router.Steps.{
  Step-Balanced, new_router-Balanced, done, publishes, subscribes, more, reachable-Balanced,
}
use aqueduct.Broker.Router.Leak.{backfill_message-Balanced}
use aqueduct.Broker.Router.Slots.{new_slot, get_topic_offset, subscribe}
use aqueduct.Broker.Router.Accounts.{with_one}
use aqueduct.Broker.Wildcard.{contains_byte, is_wildcard_topic, match_wildcard}
use aqueduct.Broker.Router.Backfill.{backfill_message}
use aqueduct.Broker.Router.Balance.{Balanced, queued}
use aqueduct.Base.{
  ◌≢◌, ◌^◌, ◌<◌, ok, drop, refl, arith, some, ◌%◌, ◌++◌, get_elem?, ◌+◌, ◌==◌, Option, [], false,
  if◌then◌else◌, none, ◌∷◌, ◌≡◌, ℕ,
}
use aqueduct.Authz.{hash_byte, hash_bytes, combine_hash_strings}
use aqueduct.Broker.Topic.Agreement.{topic_key_agrees, IsPlainTopic}
use aqueduct.Broker.Topic.{
  topic_hash_key, parse_subscription_payload, prefix_topic, cut, SubscriptionSpec, has_prefix,
  parse_publish_topic,
}
use aqueduct.Broker.Router.{new_router, Group, Router, choose}
use aqueduct.Broker.Wildcard.Levels.{
  match_wildcard-matches, matches, topic_text, any, name, pattern_text,
}
use aqueduct.Broker.Queue.Fetch.{fetch_next_message-pending, pending}
use aqueduct.Broker.Router.Groups.{choose_turns, after_messages}
use aqueduct.Broker.Queue.Overflow.{send-kept, kept}
use aqueduct.Broker.Queue.Balance.{occurs}
use aqueduct.Broker.Router.Publish.{publish_at, Outside}
use aqueduct.Broker.Queue.{drop_oldest, Queues, fetch_next_message, send}
use aqueduct.Broker.Refs.{Refs}
use aqueduct.Protocol.Frame.{Frame}
use aqueduct.Base.Bytes.{Bytes}

abbrev some_refs : Refs
some_refs = record { count = λ m. 1; parent = λ m. none; freed = []; underflow = false; next = 9 }

send-kept_example :
    ((send drop_oldest 2 0 (3 ∷ 4 ∷ []) 5 some_refs).0 ≡ kept drop_oldest 2 (3 ∷ 4 ∷ []) 5)
    × ((send drop_oldest 2 0 (3 ∷ 4 ∷ []) 5 some_refs).2 ≡ none)
send-kept_example = send-kept drop_oldest 2 0 (3 ∷ 4 ∷ []) 5 some_refs (omega arith) (omega arith)

abbrev two_levels : Queues
two_levels p = if p == 1 then some (4 ∷ []) else (if p == 3 then some (5 ∷ 6 ∷ []) else none)

fetch_next_message-pending_example :
    ((fetch_next_message two_levels).1 ≡ get_elem? (pending two_levels) 0)
    × (pending (fetch_next_message two_levels).0 ≡ drop 1 (pending two_levels))
fetch_next_message-pending_example = fetch_next_message-pending two_levels

abbrev orders : Bytes
orders = 111 ∷ 114 ∷ 100 ∷ []

orders-IsPlainTopic : IsPlainTopic orders
unfolding has_prefix cut
orders-IsPlainTopic = record {
  filled = omega arith;
  no_ttl = refl;
  no_prefix = refl;
  no_group = refl;
  no_durable = refl;
}

-- No number parses.
abbrev no_deadline : Bytes → Option ℕ
no_deadline ms = none

abbrev zero_offset : Bytes → ℕ
zero_offset digits = 0

topic_key_agrees_example :
    (parse_publish_topic no_deadline orders ≡ (0, orders))
    × (parse_publish_topic no_deadline (prefix_topic ++ orders) ≡ (0, orders))
    × (parse_subscription_payload zero_offset (prefix_topic ++ orders)
        ≡ ok (record {
          topic = orders;
          is_durable = false;
          consumer_id = [];
          requested_offset = 0;
          group_id = [];
        }))
topic_key_agrees_example = topic_key_agrees no_deadline zero_offset orders orders-IsPlainTopic

-- A filter of two levels, the second of any name.
match_wildcard-matches_example :
    match_wildcard
      (pattern_text (name (97 ∷ [])) (any ∷ []) false)
      (topic_text (97 ∷ []) ((98 ∷ []) ∷ []))
    ≡ matches (name (97 ∷ []) ∷ any ∷ []) false ((97 ∷ []) ∷ (98 ∷ []) ∷ [])
match_wildcard-matches_example =
    match_wildcard-matches (name (97 ∷ [])) (any ∷ []) false (97 ∷ []) ((98 ∷ []) ∷ [])
      (
        ((λ e. absurd (omega arith), λ e. absurd (omega arith), λ e. absurd (omega arith)), tt),
        (tt, tt),
      )
      (
        (omega arith, ((λ e. absurd (omega arith)), tt)),
        ((omega arith, ((λ e. absurd (omega arith)), tt)), tt),
      )

abbrev start : Router
start = new_router none 2 drop_oldest

abbrev spec : SubscriptionSpec
spec = record {
  topic = orders;
  is_durable = false;
  consumer_id = [];
  requested_offset = 0;
  group_id = [];
}

abbrev subscribed : Router
subscribed = subscribe start 7 spec

abbrev outside : Outside
outside = record {
  slab = λ n. [];
  deadline = no_deadline;
  now = 0;
  peers = none;
  priority_ttls = λ p. 0;
}

abbrev frame : Frame
frame = record { command = 1; stream_id = 0; payload_len = 3; payload = orders; extensions = [] }

abbrev published : Router
published = publish_at outside false subscribed frame 2

reachable-Balanced_example :
    ((j : ℕ) → published.refs.count j ≡ queued published.slots j + occurs [] j)
    × (published.refs.underflow ≡ false)
reachable-Balanced_example = reachable-Balanced none 2 drop_oldest published [] (
    more (start, []) (subscribed, []) (published, []) (subscribes start [] 7 spec)
      (more (subscribed, []) (published, []) (published, [])
        (publishes outside false subscribed [] frame 2) (done (published, []))))

abbrev pair : Group
pair = record { id = 103 ∷ []; topic = orders; counter = 4; members = 1 ∷ 2 ∷ 3 ∷ [] }

choose_turns_example : (choose (after_messages 2 pair)).1 ≡ get_elem? (1 ∷ 2 ∷ 3 ∷ []) ((4 + 2) % 3)
choose_turns_example = choose_turns 2 pair (omega arith) (omega arith)

-- One message in the queue of the first level.
abbrev one_waits : Queues
one_waits p = if p == 0 then some (3 ∷ []) else none

abbrev bills : Bytes
bills = 98 ∷ 105 ∷ 108 ∷ []

keys_differ : topic_hash_key orders ≢ topic_hash_key bills
unfolding topic_hash_key combine_hash_strings hash_bytes hash_byte
keys_differ e =
    let apart : (topic_hash_key orders == topic_hash_key bills) ≡ false = refl in
    absurd (ground (arith, apart, e))

below : get_topic_offset start orders + 1 < 2 ^ 64
unfolding get_topic_offset new_router
below = omega arith

start-Balanced : Balanced start (occurs [])
start-Balanced = new_router-Balanced none 2 drop_oldest

first_slot : get_elem? (subscribe start 7 spec).slots 0 ≡ some (new_slot 7 spec)
unfolding subscribe new_router is_wildcard_topic contains_byte
first_slot = refl

backfill_message-Balanced_example :
    Balanced
      (backfill_message (λ n. []) (subscribe start 7 spec) 0 0 orders 1)
      (with_one (occurs []) (subscribe start 7 spec).refs.next)
backfill_message-Balanced_example =
    backfill_message-Balanced (λ n. []) (subscribe start 7 spec) 0 0 orders 1 (occurs [])
      (new_slot 7 spec) first_slot refl (Step-Balanced (subscribes start [] 7 spec) start-Balanced)
