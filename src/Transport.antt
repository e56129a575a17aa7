-- ===== src/Transport.antt =====
-- internal/transport/broker.go: what the broker does with the bytes of a stream, frame by frame. The
-- compression engine, the registered handlers and the number parser are parameters, and tracing and
-- metrics are left out; what a handler or the router changes is the session.
pub mod Route
pub mod Streams
pub mod Rounds
pub mod Dispatch
pub mod Prefixes
pub mod Rereads
pub mod Serving
pub mod Access
pub mod Unchecked
pub mod Safety
pub mod Walk
pub mod Startup
pub mod Hang
mod Tests
use aqueduct.Authz.{perm_subscribe, perm_none, perm_publish, Engine, allowed}
use aqueduct.Base.{
  drop, get_or, ◌>>=◌, fault, not, take, ◌&&◌, List, false, length, some, ◌+◌, err, leb, ltb, none,
  ◌==◌, Bool, Outcome, if◌then◌else◌, Option, ℕ, ok, ◌||◌, ◌%◌, ◌^◌, ◌*◌,
}
use aqueduct.Protocol.Extensions.{
  algo_zstd, ext_compression, ext_compression_value_len, find_extension,
}
use aqueduct.Protocol.Command.{cmd_subscribe, cmd_publish_batch, cmd_publish, header_size}
use aqueduct.Broker.Topic.{prefix_topic, has_prefix}
use aqueduct.Aal.{Log, write_frame}
use aqueduct.Broker.Router.Publish.{Outside}
use aqueduct.Base.Bytes.{le32_or, Bytes}
use aqueduct.Broker.Router.{Router}
use aqueduct.Protocol.Frame.{Frame, ParseError, parse_frame}
use aqueduct.Protocol.Extensions.Strip.{strip_extension}

-- `decompress payload size` is the engine's, `handlers` the registered handler of a command: `none`
-- is its error, and a response may be nil. `parse_uint` is strconv.ParseUint, its value and whether
-- it has no error. `pool` is what the log's pooled buffer holds.
pub record Broker : Type 0 where
  pub max_buf_size : ℕ
  pub max_decompressed : ℕ
  pub authz : Option Engine
  pub decompress : Option (Bytes → ℕ → Option Bytes)
  pub handlers : ℕ → Option (Frame → Option (Option Bytes))
  pub outside : Outside
  pub parse_uint : Bytes → ℕ × Bool
  pub pool : Bytes

-- What the frames of one stream change: the router, the log, the bytes decompressed for the stream,
-- and the frames sent back, latest first.
pub record Session : Type 0 where
  pub router : Option Router
  pub log : Option Log
  pub decompressed : ℕ
  pub sent : List Bytes

pub data StreamError : Type 0 where
  oversized_payload buffer_exceeded unauthorized decompression_failed : StreamError
  bad_frame : ParseError → StreamError

pub data DecompressError : Type 0 where
  size_exceeded budget_exceeded broken_payload : DecompressError

unfoldable pub permission_for_frame : ℕ → ℕ
permission_for_frame cmd =
    if cmd == cmd_publish || cmd == cmd_publish_batch
    then perm_publish
    else if cmd == cmd_subscribe
    then perm_subscribe
    else perm_none

unfoldable pub extract_topic_bytes : Bytes → Bytes
unfolding has_prefix
extract_topic_bytes payload =
    if leb 6 (length payload) && has_prefix payload prefix_topic then drop 6 payload else payload

-- The frame after the decompression, and the stream's bytes; the bytes count before the engine runs.
unfoldable pub expand :
    Broker → (Bytes → ℕ → Option Bytes) → Frame → ℕ → ℕ → ℕ × Outcome DecompressError Frame
unfolding strip_extension
expand b engine f size spent =
    if ltb (b.max_buf_size % 2 ^ 32 * 16 % 2 ^ 32) size
    then (spent, err size_exceeded)
    else if ltb b.max_decompressed (spent + size)
    then (spent, err budget_exceeded)
    else elim (engine f.payload size) [
      | none ↦ (spent + size, err broken_payload)
      | some plain ↦ elim (strip_extension b.outside.slab f.extensions ext_compression) [
        | ok clean ↦ (
          spent + size,
          ok (record f { payload_len = size; payload = plain; extensions = clean }),
        )
        | err e ↦ absurd e
        | fault ↦ (spent + size, fault)
      ]
    ]

-- Of a found value: the algorithm and the size.
unfoldable pub expand_value :
    Broker → (Bytes → ℕ → Option Bytes) → Frame → ℕ → Bytes → ℕ × Outcome DecompressError Frame
unfolding expand
expand_value b engine f spent value =
    let size = le32_or value 1 in
    if ltb (length value) ext_compression_value_len
      || (not (get_or value 0 0 == algo_zstd) || size == 0)
    then (spent, ok f)
    else expand b engine f size spent

unfoldable pub decompress_frame : Broker → Frame → ℕ → ℕ × Outcome DecompressError Frame
unfolding find_extension expand_value
decompress_frame b f spent = elim b.decompress [
  | none ↦ (spent, ok f)
  | some engine ↦ elim (find_extension f.extensions ext_compression) [
    | ok none ↦ (spent, ok f)
    | ok (some value) ↦ expand_value b engine f spent value
    | err e ↦ absurd e
    | fault ↦ (spent, fault)
  ]
]

-- The check of a client on the topic that the payload names.
unfoldable pub refused : Broker → Bytes → Frame → Bool
unfolding permission_for_frame extract_topic_bytes allowed
refused b client f = elim b.authz [
  | none ↦ false
  | some engine ↦
      let perm = permission_for_frame f.command in
      not (perm == perm_none)
      && not (allowed (some engine) client (extract_topic_bytes f.payload) perm)
]

-- A publish or a batch is written to the log as it stands in the buffer.
unfoldable pub log_frame : Broker → Session → Frame → Bytes → Outcome ⊥ Session
unfolding write_frame
log_frame b s f bytes =
    if f.command == cmd_publish || f.command == cmd_publish_batch
    then elim s.log [
      | none ↦ ok s
      | some l ↦ do l' ← write_frame l b.pool bytes; ok (record s { log = some l' })
    ]
    else ok s

pub data Prepared : Type 0 where
  incomplete : Prepared
  prepared : Frame → ℕ → Prepared

unfoldable pub finish_prepare :
    Frame → ℕ → Session → Outcome ⊥ Session → Session × Outcome StreamError Prepared
finish_prepare f total s (ok t) = (t, ok (prepared f total))
finish_prepare f total s (err e) = absurd e
finish_prepare f total s fault = (s, fault)

-- What follows the decompression. The frame that it gives is thrown away: the frame as it was
-- parsed goes on.
unfoldable pub admit_expanded :
    Broker
    → Bytes
    → Session
    → Frame
    → Bytes
    → ℕ × Outcome DecompressError Frame
    → Session × Outcome StreamError Prepared
unfolding refused log_frame finish_prepare
admit_expanded b client s f bytes (spent, ok g) =
    let t = record s { decompressed = spent } in
    if refused b client f
    then (t, err unauthorized)
    else finish_prepare f (length bytes) t (log_frame b t f bytes)
admit_expanded b client s f bytes (spent, err e) =
    (record s { decompressed = spent }, err decompression_failed)
admit_expanded b client s f bytes (spent, fault) = (record s { decompressed = spent }, fault)

unfoldable pub admit_frame :
    Broker → Bytes → Session → Frame → Bytes → Session × Outcome StreamError Prepared
unfolding decompress_frame admit_expanded
admit_frame b client s f bytes =
    admit_expanded b client s f bytes (decompress_frame b f s.decompressed)

-- `PayloadLen`
unfoldable pub read_payload_len : Bytes → ℕ
read_payload_len buf = if ltb (length buf) header_size then 0 else le32_or buf 6

-- The frame behind the parser's result.
unfoldable pub admit_parsed :
    Broker
    → Bytes
    → Session
    → Bytes
    → Outcome ParseError Frame
    → Session × Outcome StreamError Prepared
unfolding admit_frame
admit_parsed b client s bytes (ok f) = admit_frame b client s f bytes
admit_parsed b client s bytes (err e) = (s, err (bad_frame e))
admit_parsed b client s bytes fault = (s, fault)

-- `rest` is `buf[consumed:off]`.
unfoldable pub prepare_frame :
    Broker → Bytes → Session → Bytes → Session × Outcome StreamError Prepared
unfolding read_payload_len parse_frame admit_parsed
prepare_frame b client s rest =
    let len = read_payload_len rest in
    let total = header_size + len in
    if ltb (length rest) header_size
    then (s, if ltb b.max_buf_size (length rest) then err buffer_exceeded else ok incomplete)
    else if ltb b.max_buf_size len || ltb b.max_buf_size total
    then (s, err oversized_payload)
    else if ltb (length rest) total
    then (s, ok incomplete)
    else admit_parsed b client s (take total rest) (parse_frame rest)
