-- ===== src/Broker/Writer/Nacks.antt =====
-- internal/broker/router.go, handleNack of runSubscriberWriter: a NACK republishes the topic with the
-- message's offset in a retry extension, until the counter reaches the limit, and then publishes to
-- the dead-letter topic. `nackCounters` is a table beside the router, by topic hash and offset; an
-- int8 stands as its byte, from 128 on a negative one.
use aqueduct.Base.{
  fault, err, set, some, ltb, ◌++◌, ◌^◌, length, none, ok, ◌%◌, ◌||◌, List, [], if◌then◌else◌, leb,
  ◌+◌, Bool, Outcome, ◌∷◌, ℕ,
}
use aqueduct.Protocol.Extensions.{ext_retry_offset, ext_entry_header, ext_header_len}
use aqueduct.Broker.Writer.{panics, goes_on, zero_bytes, cached, put_le64, Going}
use aqueduct.Base.Buffers.{copy_at}
use aqueduct.Protocol.Command.{cmd_publish}
use aqueduct.Broker.Router.Publish.{PublishError, Outside, publish_with_client_id}
use aqueduct.Broker.Refs.{update}
use aqueduct.Protocol.Frame.{Frame}
use aqueduct.Broker.Router.{Router}
use aqueduct.Authz.{combine_hash_strings}
use aqueduct.Base.Bytes.{Bytes}
use aqueduct.Protocol.Extensions.Build.{set_ext_total_len}

abbrev pub NackCounters : Type 0
NackCounters = ℕ → ℕ → ℕ

abbrev pub bump : NackCounters → ℕ → ℕ → NackCounters
bump counters key offset =
    update counters key (update (counters key) offset ((counters key offset + 1) % 256))

abbrev pub forget : NackCounters → ℕ → ℕ → NackCounters
forget counters key offset = update counters key (update (counters key) offset 0)

-- `int(count) < r.maxRetries` for a count that is signed.
abbrev pub below_limit : ℕ → ℕ → Bool
below_limit count limit = leb 128 count || ltb count limit

-- "topic", and "__dlq__".
abbrev pub topic_namespace : Bytes
topic_namespace = 0x74 ∷ 0x6f ∷ 0x70 ∷ 0x69 ∷ 0x63 ∷ []

abbrev pub dlq_prefix : Bytes
dlq_prefix = 0x5f ∷ 0x5f ∷ 0x64 ∷ 0x6c ∷ 0x71 ∷ 0x5f ∷ 0x5f ∷ []

unfoldable pub nack_key : Bytes → ℕ
unfolding combine_hash_strings
nack_key topic = combine_hash_strings topic_namespace topic

-- The block of the retry's one extension, in a new buffer.
unfoldable pub retry_extension : ℕ → Bytes
unfolding set_ext_total_len put_le64 zero_bytes
retry_extension offset =
    let b =
      set_ext_total_len (zero_bytes (ext_header_len + ext_entry_header + 8)) 0
        (ext_entry_header + 8) in
    copy_at (set (set b ext_header_len ext_retry_offset) (ext_header_len + 1) 8)
      (ext_header_len + 2) (put_le64 offset)

unfoldable pub retry_frame : Bytes → ℕ → Frame
unfolding retry_extension
retry_frame topic offset = record {
  command = cmd_publish;
  stream_id = 0;
  payload_len = length topic % 2 ^ 32;
  payload = topic;
  extensions = retry_extension offset;
}

unfoldable pub dlq_frame : Bytes → Frame
dlq_frame topic = record {
  command = cmd_publish;
  stream_id = 0;
  payload_len = length (dlq_prefix ++ topic) % 2 ^ 32;
  payload = dlq_prefix ++ topic;
  extensions = [];
}

-- The writer ignores an error of its own publish, which changes nothing.
abbrev pub ignore_error : Router → Outcome PublishError Router → Router × Going
ignore_error r (ok r') = (r', goes_on)
ignore_error r (err e) = (r, goes_on)
ignore_error r fault = (r, panics)

-- A retry or a dead letter, by the new count.
unfoldable pub handle_cached :
    ℕ → Outside → Router → NackCounters → ℕ → Bytes → (Router × Going) × NackCounters
unfolding nack_key retry_frame dlq_frame publish_with_client_id
handle_cached limit o r counters offset topic =
    let key = nack_key topic in
    let bumped = bump counters key offset in
    if below_limit (bumped key offset) limit
    then (ignore_error r (publish_with_client_id o r (retry_frame topic offset) []), bumped)
    else (
      ignore_error r (publish_with_client_id o r (dlq_frame topic) []),
      forget bumped key offset,
    )

-- An offset that the cache does not hold is ignored.
unfoldable pub handle_nack :
    ℕ → Outside → Router → NackCounters → List (ℕ × Bytes) → ℕ → (Router × Going) × NackCounters
unfolding cached handle_cached
handle_nack limit o r counters cache offset = elim (cached cache offset) [
  | none ↦ ((r, goes_on), counters)
  | some topic ↦ handle_cached limit o r counters offset topic
]
