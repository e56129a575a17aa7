-- ===== src/Broker/Router/Publish.antt =====
-- internal/broker/router.go, publishWithClientID, publishLocal and PublishFromPeer.
use aqueduct.Base.{
  ◌++◌, fault, err, reject, ◌>>=◌, ok, some, ◌%◌, ◌>>◌, ◌||◌, Outcome, false, length, not, true,
  ◌+◌, ◌∷◌, if◌then◌else◌, ltb, none, ◌^◌, Bool, Option, ℕ,
}
use aqueduct.Broker.Refs.{update, release, acquire_ref}
use aqueduct.Protocol.Command.{cmd_publish, header_size, opcode_of}
use aqueduct.Broker.Router.{
  disconnect_all, dispatch_groups, dispatch_wildcards, next_topic_offset, Router, dispatch_exact,
}
use aqueduct.Protocol.Extensions.{default_priority, extract_priority}
use aqueduct.Protocol.Frame.{serialize_with_extensions, Frame, serialize_frame, has_extensions}
use aqueduct.Base.Bytes.{Bytes}
use aqueduct.Quotas.{Manager, admit}
use aqueduct.Broker.Topic.{parse_publish_topic, topic_hash_key}

-- What the router takes from outside: the buffers of the allocator, the clock, the expiry behind a
-- time to live, and the number of active peers, `none` without a forwarder.
pub record Outside : Type 0 where
  pub slab : ℕ → Bytes
  pub deadline : Bytes → Option ℕ
  pub now : ℕ
  pub peers : Option ℕ
  pub priority_ttls : ℕ → ℕ

pub data PublishError : Type 0 where
  payload_too_large : PublishError

abbrev pub max_payload_size : ℕ
max_payload_size = 2 ^ 20

abbrev pub level_or_default : ℕ × Bool → ℕ
level_or_default (p, found) = if found then p else default_priority

unfoldable pub priority_of : Frame → Outcome PublishError ℕ
unfolding has_extensions extract_priority
priority_of f =
    if has_extensions f
    then elim (extract_priority f.extensions) [
      | ok level ↦ ok (level_or_default level)
      | err e ↦ absurd e
      | fault ↦ fault
    ]
    else ok default_priority

-- The deadline and the topic: a level's own time to live wins over the payload's.
unfoldable pub expiry_and_topic : Outside → ℕ → Bytes → ℕ × Bytes
unfolding parse_publish_topic
expiry_and_topic o p payload =
    let (at, topic) = parse_publish_topic o.deadline payload in
    if ltb 0 (o.priority_ttls p) then ((o.now + o.priority_ttls p) % 2 ^ 64, topic) else (at, topic)

abbrev pub has_peers : Outside → Bool
has_peers o = elim o.peers [ none ↦ false | some n ↦ ltb 0 n ]

abbrev pub has_local : Router → ℕ → Bool
has_local r key =
    ltb 0 (length (r.topic_index key))
    || (ltb 0 (length r.wildcard_subs) || ltb 0 (length (r.groups key)))

-- The frame that the subscribers get: the topic alone is its payload.
unfoldable pub serialize_message : Outside → Frame → Bytes → Bytes
unfolding has_extensions serialize_frame serialize_with_extensions
serialize_message o f topic =
    if has_extensions f
    then serialize_with_extensions (o.slab (header_size + length f.extensions + length topic))
        cmd_publish 0 f.extensions topic
    else serialize_frame (o.slab (header_size + length topic)) cmd_publish 0 topic

-- `SetExpiresAt` and `SetOffset` on a new reference.
unfoldable pub acquire_message : Router → Bytes → ℕ → ℕ → Router × ℕ
unfolding acquire_ref
acquire_message r buf at offset =
    let (refs, m) = acquire_ref r.refs in
    (
      record r {
        refs = refs;
        messages =
            record { reference = m; buf = buf; offset = offset; expires_at = at } ∷ r.messages;
      },
      m,
    )

-- Steps 2 to 4 of a publish, the release of the publisher's own reference, and the disconnections.
unfoldable pub dispatch : Router → ℕ → ℕ → Bytes → ℕ → Router
unfolding dispatch_exact dispatch_wildcards dispatch_groups disconnect_all release
dispatch r m p topic key =
    let (r1, dc1) = dispatch_exact r m p (r.topic_index key) in
    let (r2, dc2) = dispatch_wildcards r1 m p topic r.wildcard_subs in
    let (r3, gs, dc3) = dispatch_groups r2 m p (r.groups key) in
    disconnect_all (record r3 { groups = update r.groups key gs; refs = release r3.refs m })
      (dc1 ++ dc2 ++ dc3)

-- From the serialization on.
unfoldable pub send_message : Outside → Bool → Router → Frame → ℕ → ℕ × Bytes → ℕ → Router
unfolding dispatch acquire_message serialize_message
send_message o forwarding r f p (at, topic) offset =
    let buf = serialize_message o f topic in
    let (r1, m) = acquire_message r buf at offset in
    let r2 = if forwarding then record r1 { forwarded = buf ∷ r1.forwarded } else r1 in
    dispatch r2 m p topic (topic_hash_key topic)

-- The part that `publishWithClientID` and `publishLocal` share; only the first one sees peers.
unfoldable pub publish_at : Outside → Bool → Router → Frame → ℕ → Router
unfolding expiry_and_topic topic_hash_key next_topic_offset send_message
publish_at o peers r f p =
    let target = expiry_and_topic o p f.payload in
    let key = topic_hash_key target.1 in
    let (r1, offset) = next_topic_offset r key in
    if not (has_local r1 key || peers) then r1 else send_message o peers r1 f p target offset

unfoldable pub publish_local : Outside → Router → Frame → Outcome PublishError Router
unfolding publish_at priority_of
publish_local o r f = do
  reject (ltb max_payload_size f.payload_len) payload_too_large
  p ← priority_of f
  ok (publish_at o false r f p)

unfoldable pub publish_from_peer : Outside → Router → Frame → Outcome PublishError Router
unfolding publish_local opcode_of
publish_from_peer o r f = publish_local o r (record f { command = opcode_of f.command })

abbrev pub admit_client : Option Manager → Bytes → Option Manager × Bool
admit_client none client = (none, true)
admit_client (some q) client = let (q', granted) = admit q client in (some q', granted)

-- A message over its client's rate is dropped without an error.
unfoldable pub publish_admitted :
    Outside → Router → Frame → Option Manager × Bool → Outcome PublishError Router
unfolding publish_at priority_of
publish_admitted o r f (quota, granted) =
    if not granted then ok (record r { quota_manager = quota }) else (do
      p ← priority_of f
      ok (publish_at o (has_peers o) (record r { quota_manager = quota }) f p))

unfoldable pub publish_with_client_id :
    Outside → Router → Frame → Bytes → Outcome PublishError Router
unfolding publish_admitted admit
publish_with_client_id o r f client = do
  reject (ltb max_payload_size f.payload_len) payload_too_large
  publish_admitted o r f (admit_client r.quota_manager client)
