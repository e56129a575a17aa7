-- ===== src/Transport/Route.antt =====
-- internal/transport/broker.go: where a prepared frame goes, and the walk over the frames of a
-- buffer. Errors of the router are logged and change nothing; a fault ends the process.
use aqueduct.Transport.{incomplete, prepared, Prepared, StreamError, Broker, Session, prepare_frame}
use aqueduct.Base.{
  ◌*◌, ◌^◌, zero, drop, fault, ltb, some, ◌&&◌, ◌==◌, Option, [], err, if◌then◌else◌, none, ◌+◌,
  ◌>>=◌, Bool, List, Outcome, length, suc, ◌∷◌, ℕ, ok,
}
use aqueduct.Protocol.Command.{
  cmd_nack, cmd_publish_batch, cmd_subscribe, cmd_publish, cmd_ack, header_size, is_forwarded,
  opcode_of,
}
use aqueduct.Base.Bytes.{le32_or, Bytes, bytes_equal}
use aqueduct.Broker.Router.Slots.{ack_offset, nack_by_stream, subscribe}
use aqueduct.Broker.Topic.{parse_subscription_payload}
use aqueduct.Broker.Router.Batches.{publish_batch}
use aqueduct.Protocol.Frame.{Frame, serialize_frame}
use aqueduct.Broker.Router.Publish.{publish_from_peer, publish_with_client_id}
use aqueduct.Broker.Router.{Router}

-- strings.Split for one byte, with the text in front of the first separator apart.
unfoldable pub split_at : ℕ → Bytes → Bytes × List Bytes
split_at sep [] = ([], [])
split_at sep (x ∷ xs) =
    let (first, others) = split_at sep xs in
    if x == sep then ([], first ∷ others) else (x ∷ first, others)

-- "topic", "consumer" and "offset"
abbrev pub topic_word : Bytes
topic_word = 116 ∷ 111 ∷ 112 ∷ 105 ∷ 99 ∷ []

abbrev pub consumer_word : Bytes
consumer_word = 99 ∷ 111 ∷ 110 ∷ 115 ∷ 117 ∷ 109 ∷ 101 ∷ 114 ∷ []

abbrev pub offset_word : Bytes
offset_word = 111 ∷ 102 ∷ 102 ∷ 115 ∷ 101 ∷ 116 ∷ []

-- Of the parts: the consumer, the topic and the offset.
unfoldable pub ack_of : (Bytes → ℕ × Bool) → Bytes × List Bytes → Option (Bytes × Bytes × ℕ)
unfolding bytes_equal
ack_of parse_uint (a, topic ∷ c ∷ consumer ∷ e ∷ digits ∷ others) =
    if bytes_equal a topic_word && (bytes_equal c consumer_word && bytes_equal e offset_word)
    then (let (offset, good) = parse_uint digits in
        if good then some (consumer, topic, offset) else none)
    else none
ack_of parse_uint other = none

unfoldable pub parse_ack_payload : (Bytes → ℕ × Bool) → Bytes → Option (Bytes × Bytes × ℕ)
unfolding split_at ack_of
parse_ack_payload parse_uint payload = ack_of parse_uint (split_at 58 payload)

-- The router's error is logged.
abbrev pub logged : {E : Type 0} → Router → Outcome E Router → Outcome ⊥ Router
logged r (ok r') = ok r'
logged r (err e) = ok r
logged r fault = fault

unfoldable pub handle_forwarded_frame : Broker → Router → Frame → Outcome ⊥ Router
unfolding opcode_of publish_from_peer publish_batch
handle_forwarded_frame b r f =
    let op = opcode_of f.command in
    if op == cmd_publish
    then logged r (publish_from_peer b.outside r f)
    else if op == cmd_publish_batch
    then logged r (publish_batch b.outside r f)
    else ok r

abbrev pub subscribe_frame : Broker → Router → Frame → Outcome ⊥ Router
subscribe_frame b r f = logged r (do
  spec ← parse_subscription_payload (λ t. (b.parse_uint t).0) f.payload
  ok (subscribe r f.stream_id spec))

abbrev pub ack_frame : Broker → Router → Frame → Router
ack_frame b r f = elim (parse_ack_payload b.parse_uint f.payload) [
  | none ↦ r
  | some (consumer, topic, offset) ↦ ack_offset r consumer topic offset
]

-- The first eight bytes are the offset; a shorter payload is logged.
abbrev pub nack_frame : ℕ → Router → Frame → Router
nack_frame stream r f =
    if ltb (length f.payload) 8
    then r
    else nack_by_stream r stream (le32_or f.payload 0 + 2 ^ 32 * le32_or f.payload 4)

-- `none` stands for false: the frame falls through to the registered handlers.
unfoldable pub handle_local_frame : Broker → Bytes → ℕ → Router → Frame → Option (Outcome ⊥ Router)
unfolding opcode_of publish_with_client_id publish_batch subscribe ack_offset nack_by_stream
    parse_subscription_payload parse_ack_payload
handle_local_frame b client stream r f =
    let op = opcode_of f.command in
    if op == cmd_subscribe
    then some (subscribe_frame b r f)
    else if op == cmd_publish
    then some (logged r (publish_with_client_id b.outside r f client))
    else if op == cmd_publish_batch
    then some (logged r (publish_batch b.outside r f))
    else if op == cmd_ack
    then some (ok (ack_frame b r f))
    else if op == cmd_nack
    then some (ok (nack_frame stream r f))
    else none

unfoldable pub send_response : Broker → Session → ℕ → Bytes → Session
unfolding serialize_frame
send_response b s id payload = record s {
  sent =
      serialize_frame (b.outside.slab (header_size + length payload)) cmd_ack id payload ∷ s.sent;
}

unfoldable pub call_handler : Broker → Session → Frame → Session
unfolding send_response
call_handler b s f = elim (b.handlers f.command) [
  | none ↦ s
  | some h ↦ elim (h f) [
    | none ↦ s
    | some none ↦ s
    | some (some response) ↦ send_response b s f.stream_id response
  ]
]

abbrev pub with_router : Session → Outcome ⊥ Router → Outcome ⊥ Session
with_router s result = do r ← result; ok (record s { router = some r })

unfoldable pub route_frame : Broker → Bytes → ℕ → Session → Frame → Outcome ⊥ Session
unfolding is_forwarded handle_forwarded_frame handle_local_frame call_handler
route_frame b client stream s f = elim s.router [
  | none ↦ ok (call_handler b s f)
  | some r ↦
      if is_forwarded f.command
      then with_router s (handle_forwarded_frame b r f)
      else elim (handle_local_frame b client stream r f) [
        | none ↦ ok (call_handler b s f)
        | some result ↦ with_router s result
      ]
]

-- How a walk ends: with the bytes that are no whole frame yet, with an error, with a fault, or
-- without fuel.
pub data Dispatched : Type 0 where
  left : Bytes → Dispatched
  rejected : StreamError → Dispatched
  crashed no_fuel : Dispatched

unfoldable pub after_route :
    Session → Outcome ⊥ Session → (Session → Session × Dispatched) → Session × Dispatched
after_route s (ok t) continue = continue t
after_route s (err e) continue = absurd e
after_route s fault continue = (s, crashed)

unfoldable pub dispatch_step :
    Broker
    → Bytes
    → ℕ
    → Bytes
    → Session × Outcome StreamError Prepared
    → (Session → Bytes → Session × Dispatched)
    → Session × Dispatched
unfolding route_frame after_route
dispatch_step b client stream rest (s, ok incomplete) continue = (s, left rest)
dispatch_step b client stream rest (s, ok (prepared f total)) continue =
    after_route s (route_frame b client stream s f) (λ t. continue t (drop total rest))
dispatch_step b client stream rest (s, err e) continue = (s, rejected e)
dispatch_step b client stream rest (s, fault) continue = (s, crashed)

-- From `consumed` on; `left` is what `copy` moves to the front of the buffer.
unfoldable pub dispatch_loop : Broker → Bytes → ℕ → ℕ → Session → Bytes → Session × Dispatched
unfolding prepare_frame dispatch_step
dispatch_loop b client stream zero s rest = (s, no_fuel)
dispatch_loop b client stream (suc fuel) s rest =
    let continue = dispatch_loop b client stream fuel in
    if ltb 0 (length rest)
    then dispatch_step b client stream rest (prepare_frame b client s rest) continue
    else (s, left rest)

-- Each round takes a header at least.
unfoldable pub dispatch_frames : Broker → Bytes → ℕ → Session → Bytes → Session × Dispatched
unfolding dispatch_loop
dispatch_frames b client stream s buf = dispatch_loop b client stream (length buf + 1) s buf
