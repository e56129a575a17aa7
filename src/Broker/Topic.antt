-- ===== src/Broker/Topic.antt =====
-- internal/broker/router.go, from parseSubscriptionPayload on: the topics that payloads name, and
-- their key in the router's tables. Of the standard library, the number parsers are parameters.
pub mod Agreement
use aqueduct.Base.{
  ◌++◌, ok, length, reject, ◌==◌, drop, false, ltb, some, ◌>>◌, Outcome, [], none, not, true, ◌&&◌,
  Bool, Option, if◌then◌else◌, ℕ, ◌∷◌,
}
use aqueduct.Authz.{combine_hash_strings}
use aqueduct.Base.Bytes.{Bytes}

pub record SubscriptionSpec : Type 0 where
  pub topic : Bytes
  pub is_durable : Bool
  pub consumer_id : Bytes
  pub requested_offset : ℕ
  pub group_id : Bytes

pub data SubscribeError : Type 0 where
  topic_required topic_empty : SubscribeError

-- "topic:"
abbrev pub prefix_topic : Bytes
prefix_topic = 116 ∷ 111 ∷ 112 ∷ 105 ∷ 99 ∷ 58 ∷ []

-- "ttl:"
abbrev pub prefix_ttl : Bytes
prefix_ttl = 116 ∷ 116 ∷ 108 ∷ 58 ∷ []

-- ":group:"
abbrev pub group_mark : Bytes
group_mark = 58 ∷ 103 ∷ 114 ∷ 111 ∷ 117 ∷ 112 ∷ 58 ∷ []

-- ":durable:"
abbrev pub durable_mark : Bytes
durable_mark = 58 ∷ 100 ∷ 117 ∷ 114 ∷ 97 ∷ 98 ∷ 108 ∷ 101 ∷ 58 ∷ []

unfoldable pub has_prefix : Bytes → Bytes → Bool
has_prefix xs [] = true
has_prefix [] (p ∷ ps) = false
has_prefix (x ∷ xs) (p ∷ ps) = x == p && has_prefix xs ps

-- The text in front of the first separator, and the text after it where it occurs.
unfoldable pub cut : Bytes → Bytes → Bytes × Option Bytes
unfolding has_prefix
cut sep [] = ([], none)
cut sep (x ∷ xs) =
    let (before, after) = cut sep xs in
    if has_prefix (x ∷ xs) sep then ([], some (drop (length sep) (x ∷ xs))) else (x ∷ before, after)

abbrev pub group_end : Bytes → Bytes → Bytes × Option Bytes → Bytes × Bytes
group_end before rest (group, none) = (rest, before)
group_end before rest (group, some after) = (group, before ++ 58 ∷ after)

abbrev pub group_at : Bytes → Bytes × Option Bytes → Bytes × Bytes
group_at raw (before, none) = ([], raw)
group_at raw (before, some rest) = group_end before rest (cut (58 ∷ []) rest)

-- The group's name, and the payload without it.
unfoldable pub cut_group : Bytes → Bytes × Bytes
unfolding cut
cut_group raw = group_at raw (cut group_mark raw)

abbrev pub durable_spec :
    (Bytes → ℕ) → Bytes → Bytes → Bytes → Bytes × Option Bytes → SubscriptionSpec
durable_spec parse_uint topic group part (consumer, none) = record {
  topic = topic;
  is_durable = true;
  consumer_id = part;
  requested_offset = 0;
  group_id = group;
}
durable_spec parse_uint topic group part (consumer, some rest) = record {
  topic = topic;
  is_durable = true;
  consumer_id = consumer;
  requested_offset = parse_uint (cut (58 ∷ []) rest).0;
  group_id = group;
}

-- What stands between two separators is `strings.Split(raw, ":durable:")[1]`.
abbrev pub spec_of : (Bytes → ℕ) → Bytes → Bytes × Option Bytes → SubscriptionSpec
spec_of parse_uint group (topic, none) = record {
  topic = topic;
  is_durable = false;
  consumer_id = [];
  requested_offset = 0;
  group_id = group;
}
spec_of parse_uint group (topic, some rest) =
    let part = (cut durable_mark rest).0 in
    durable_spec parse_uint topic group part (cut (58 ∷ []) part)

-- `parse_uint` is the value strconv.ParseUint returns, its error ignored.
unfoldable pub parse_subscription_payload :
    (Bytes → ℕ) → Bytes → Outcome SubscribeError SubscriptionSpec
unfolding has_prefix cut cut_group
parse_subscription_payload parse_uint payload = do
  reject (not (has_prefix payload prefix_topic)) topic_required
  reject (length (drop 6 payload) == 0) topic_empty
  let (group, raw) = cut_group (drop 6 payload) in
      ok (spec_of parse_uint group (cut durable_mark raw))

abbrev pub expires : Bytes → Bytes → Option ℕ → ℕ × Bytes
expires payload rest none = (0, payload)
expires payload rest (some at) = (at, rest)

abbrev pub ttl_at : (Bytes → Option ℕ) → Bytes → Bytes × Option Bytes → ℕ × Bytes
ttl_at deadline payload (ms, none) = (0, payload)
ttl_at deadline payload ([], some rest) = (0, payload)
ttl_at deadline payload (d ∷ ms, some rest) = expires payload rest (deadline (d ∷ ms))

-- `deadline` is the expiry for a number of milliseconds: strconv.ParseInt and the clock.
unfoldable pub parse_ttl : (Bytes → Option ℕ) → Bytes → ℕ × Bytes
unfolding has_prefix cut
parse_ttl deadline payload =
    if not (has_prefix payload prefix_ttl)
    then (0, payload)
    else ttl_at deadline payload (cut (58 ∷ []) (drop 4 payload))

abbrev pub strip_topic : Bytes → Bytes
strip_topic t =
    if has_prefix t prefix_topic && ltb (length prefix_topic) (length t)
    then drop (length prefix_topic) t
    else t

unfoldable pub parse_publish_topic : (Bytes → Option ℕ) → Bytes → ℕ × Bytes
unfolding parse_ttl
parse_publish_topic deadline payload =
    let (t, topic) = parse_ttl deadline payload in (t, strip_topic topic)

-- The key of a topic: the hash of "topic", a colon and the name.
unfoldable pub topic_hash_key : Bytes → ℕ
topic_hash_key topic = combine_hash_strings (116 ∷ 111 ∷ 112 ∷ 105 ∷ 99 ∷ []) topic
