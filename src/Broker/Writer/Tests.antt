-- ===== src/Broker/Writer/Tests.antt =====
-- internal/broker/router.go, runSubscriberWriter: the theorems on a router with one subscriber.
use aqueduct.Broker.Writer.{
  Going, goes_on, zero_bytes, new_writer, outgoing, delivery_offset, cached, put_le64,
}
use aqueduct.Broker.Writer.Nacks.{dlq_frame, retry_frame, nack_key, ignore_error}
use aqueduct.Protocol.Frame.{Frame, parse_frame, serialize_with_extensions}
use aqueduct.Broker.Writer.Offsets.{length-zero_bytes}
use aqueduct.Broker.Router.Steps.{new_router-Balanced, subscribes, Step-Balanced}
use aqueduct.Protocol.Command.{set_extensions}
use aqueduct.Broker.Router.Accounts.{publish_at-Balanced}
use aqueduct.Broker.Router.Slots.{subscribe}
use aqueduct.Broker.Writer.Frames.{parse_frame-outgoing_extended}
use aqueduct.Broker.Queue.{drop_oldest}
use aqueduct.Protocol.Extensions.Entries.{block_of}
use aqueduct.Broker.Router.{new_router, Router}
use aqueduct.Broker.Router.Publish.{publish_at, publish_with_client_id, Outside, serialize_message}
use aqueduct.Broker.Queue.Balance.{occurs}
use aqueduct.Base.{false, none, ok, refl, some, ◌++◌, List, [], arith, ℕ, ◌∷◌, ◌≡◌}
use aqueduct.Broker.Topic.{SubscriptionSpec}
use aqueduct.Broker.Router.Balance.{Balanced}
use aqueduct.Base.Bytes.{Bytes}
use aqueduct.Broker.Writer.Rounds.{Settings, Moments, run_subscriber_writer, timer_fired, cancelled}
use aqueduct.Broker.Writer.Ends.{run_subscriber_writer-Balanced}
use aqueduct.Broker.Writer.Stream.{run_subscriber_writer-wire, run_frames}
use aqueduct.Broker.Writer.Wire.{Succeeds}
use aqueduct.Broker.Writer.Retries.{delivery_offset-retry_frame}
use aqueduct.Broker.Writer.Redelivery.{handle_nacks, handle_nacks-replies, Nack}

abbrev orders : Bytes
orders = 111 ∷ 114 ∷ 100 ∷ []

-- A slab whose buffers are blank.
abbrev blank : Outside
blank = record {
  slab = zero_bytes;
  deadline = λ ms. none;
  now = 0;
  peers = none;
  priority_ttls = λ p. 0;
}

abbrev start : Router
start = new_router none 2 drop_oldest

abbrev spec : SubscriptionSpec
spec = record {
  topic = orders;
  is_durable = false;
  consumer_id = [];
  requested_offset = 0;
  group_id = [];
}

-- One message waits for the first slot.
abbrev waiting : Router
waiting =
    publish_at blank false (subscribe start 7 spec)
      (record { command = 1; stream_id = 0; payload_len = 3; payload = orders; extensions = [] }) 2

waiting-Balanced : Balanced waiting (occurs [])
waiting-Balanced =
    publish_at-Balanced blank false (subscribe start 7 spec) (occurs [])
      (record { command = 1; stream_id = 0; payload_len = 3; payload = orders; extensions = [] }) 2
      (Step-Balanced (subscribes start [] 7 spec) (new_router-Balanced none 2 drop_oldest))

abbrev settings : Settings
settings = record {
  idx = 0;
  topic = orders;
  group = [];
  batch_size = 64;
  max_retries = 3;
  attempt = λ n. none;
}

abbrev moments : Moments
moments = (blank, timer_fired) ∷ (blank, timer_fired) ∷ (blank, cancelled) ∷ []

abbrev no_nacks : ℕ → ℕ → ℕ
no_nacks key offset = 0

run_subscriber_writer-Balanced_example :
    Balanced (run_subscriber_writer settings moments waiting no_nacks).router (occurs [])
    × ((run_subscriber_writer settings moments waiting no_nacks).writer.pending ≡ [])
run_subscriber_writer-Balanced_example =
    run_subscriber_writer-Balanced settings (occurs []) moments waiting no_nacks (omega arith)
      waiting-Balanced

run_subscriber_writer-wire_example :
    (missing : Bytes) × ((run_subscriber_writer settings moments waiting no_nacks).writer.wire
        ++ missing
      ≡ run_frames settings moments
          (record { router = waiting; counters = no_nacks; writer = new_writer 64 }))
    × (Succeeds settings.attempt → missing ≡ [])
run_subscriber_writer-wire_example = run_subscriber_writer-wire settings moments waiting no_nacks

-- A frame of a block with one level, and one byte of payload.
abbrev urgent : Bytes
urgent = 3 ∷ 1 ∷ 0 ∷ []

parse_frame-outgoing_extended_example :
    (frame : Bytes) × (outgoing
        (103 ∷ [])
        (serialize_with_extensions (zero_bytes 16) 1 0 (block_of urgent) (111 ∷ []))
        5
      ≡ ok frame)
    × (parse_frame (frame ++ [])
        ≡ ok (record {
          command = set_extensions 1;
          stream_id = 0;
          payload_len = 9;
          payload = (111 ∷ []) ++ put_le64 5;
          extensions = block_of urgent;
        }))
parse_frame-outgoing_extended_example =
    parse_frame-outgoing_extended (zero_bytes 16) (103 ∷ []) 1 0 urgent (111 ∷ []) [] 5
      (omega arith) (length-zero_bytes 16) (omega arith, omega arith, omega arith) (omega arith)
      (omega arith) (omega arith)

delivery_offset-retry_frame_example :
    delivery_offset (serialize_message blank (retry_frame orders 7) orders) 9 ≡ ok 7
delivery_offset-retry_frame_example =
    delivery_offset-retry_frame blank orders orders 7 9 length-zero_bytes (omega arith)
      (omega arith)

abbrev one_cached : List (ℕ × Bytes)
one_cached = (7, orders) ∷ []

one_cached-found : cached one_cached 7 ≡ some orders
unfolding cached
one_cached-found = refl

abbrev nack_of : ℕ → Nack
nack_of offset = record { outside = blank; router = waiting; cache = one_cached; offset = offset }

-- The second of them is for an offset that the cache does not hold.
abbrev four_nacks : List Nack
four_nacks = nack_of 7 ∷ nack_of 9 ∷ nack_of 7 ∷ nack_of 7 ∷ []

abbrev republished : Frame → Router × Going
republished f = ignore_error waiting (publish_with_client_id blank waiting f [])

handle_nacks-replies_example :
    handle_nacks 3 (λ key offset. 0) four_nacks
    ≡ republished (retry_frame orders 7)
      ∷ (waiting, goes_on)
      ∷ republished (retry_frame orders 7)
      ∷ republished (dlq_frame orders)
      ∷ []
unfolding cached retry_frame nack_key dlq_frame
handle_nacks-replies_example = handle_nacks-replies 3 four_nacks (omega arith) (omega arith)
