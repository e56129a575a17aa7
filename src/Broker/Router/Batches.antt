-- ===== src/Broker/Router/Batches.antt =====
-- internal/broker/router.go, PublishBatch without a compression engine: one parent reference for
-- the batch, and a child of it for every frame that somebody may get.
use aqueduct.Broker.Router.Publish.{
  has_peers, payload_too_large, max_payload_size, PublishError, Outside, priority_of,
}
use aqueduct.Protocol.Command.{cmd_publish_batch, header_size}
use aqueduct.Base.{
  fault, reject, [], true, ◌+◌, ◌>>◌, err, length, not, ◌||◌, Outcome, false, if◌then◌else◌, ltb,
  ok, ◌++◌, Bool, ◌∷◌, List, ℕ,
}
use aqueduct.Broker.Refs.{update, release, acquire_child_ref, acquire_ref}
use aqueduct.Protocol.Frame.{
  Frame, serialize_with_extensions, serialize_frame, has_extensions, parse_frame,
}
use aqueduct.Protocol.Batch.{parse_batch}
use aqueduct.Base.Bytes.{Bytes}
use aqueduct.Broker.Router.{
  disconnect_all, dispatch_groups, next_topic_offset, dispatch_wildcards, Router, dispatch_exact,
}
use aqueduct.Broker.Topic.{topic_hash_key, parse_publish_topic}
use aqueduct.Broker.Wildcard.{match_wildcard}

unfoldable pub has_match : List (Bytes × ℕ) → Bytes → Bool
unfolding match_wildcard
has_match [] topic = false
has_match ((pattern, i) ∷ subs) topic = match_wildcard pattern topic || has_match subs topic

abbrev pub has_takers : Router → ℕ → Bytes → Bool
has_takers r key topic =
    ltb 0 (length (r.topic_index key))
    || (has_match r.wildcard_subs topic || ltb 0 (length (r.groups key)))

-- `AcquireChildMessageRef` over the frame's bytes, without a deadline.
unfoldable pub acquire_child : Router → ℕ → Bytes → ℕ → Router × ℕ
unfolding acquire_child_ref
acquire_child r parent bytes offset =
    let (refs, m) = acquire_child_ref r.refs parent in
    (
      record r {
        refs = refs;
        messages =
            record { reference = m; buf = bytes; offset = offset; expires_at = 0 } ∷ r.messages;
      },
      m,
    )

-- The three loops over the subscribers and the release of the child.
unfoldable pub dispatch_child : Router → ℕ → ℕ → Bytes → ℕ → Router × List ℕ
unfolding dispatch_exact dispatch_wildcards dispatch_groups release
dispatch_child r m p topic key =
    let (r1, dc1) = dispatch_exact r m p (r.topic_index key) in
    let (r2, dc2) = dispatch_wildcards r1 m p topic r.wildcard_subs in
    let (r3, gs, dc3) = dispatch_groups r2 m p (r.groups key) in
    (record r3 { groups = update r.groups key gs; refs = release r3.refs m }, dc1 ++ dc2 ++ dc3)

-- One frame of the batch: its offset is taken before anyone is looked for.
unfoldable pub route_child : Outside → ℕ → Bytes → Frame → ℕ → Router × List ℕ → Router × List ℕ
unfolding parse_publish_topic topic_hash_key next_topic_offset has_match acquire_child
    dispatch_child
route_child o parent bytes f p (r, dcs) =
    let topic = (parse_publish_topic o.deadline f.payload).1 in
    let key = topic_hash_key topic in
    let (r1, offset) = next_topic_offset r key in
    if not (has_takers r1 key topic)
    then (r1, dcs)
    else (let (r2, m) = acquire_child r1 parent bytes offset in
        let (r3, more) = dispatch_child r2 m p topic key in (r3, dcs ++ more))

-- The callback: a malformed frame is skipped, and a fault would end the walk.
unfoldable pub publish_child : Outside → ℕ → Bytes → Router × List ℕ → (Router × List ℕ) × Bool
unfolding parse_frame priority_of route_child
publish_child o parent bytes s = elim (parse_frame bytes) [
  | ok f ↦ elim (priority_of f) [
    | ok p ↦ (route_child o parent bytes f p s, false)
    | err e ↦ (s, false)
    | fault ↦ (s, true)
  ]
  | err e ↦ (s, false)
  | fault ↦ (s, true)
]

unfoldable pub serialize_batch : Outside → Frame → Bytes
unfolding has_extensions serialize_frame serialize_with_extensions
serialize_batch o f =
    if has_extensions f
    then serialize_with_extensions (o.slab (header_size + length f.extensions + length f.payload))
        cmd_publish_batch 0 f.extensions f.payload
    else serialize_frame (o.slab (header_size + length f.payload)) cmd_publish_batch 0 f.payload

unfoldable pub publish_batch : Outside → Router → Frame → Outcome PublishError Router
unfolding acquire_ref release disconnect_all publish_child serialize_batch parse_batch
publish_batch o r f = do
  reject (ltb max_payload_size f.payload_len) payload_too_large
  let buf = serialize_batch o f in
      let (refs, parent) = acquire_ref r.refs in
      let walked = parse_batch (publish_child o parent) f.payload (record r { refs = refs }, []) in
      let r1 = disconnect_all walked.0.0 walked.0.1 in
      ok (record r1 {
        forwarded = if has_peers o then buf ∷ r1.forwarded else r1.forwarded;
        refs = release r1.refs parent;
      })
