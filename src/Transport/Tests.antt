-- ===== src/Transport/Tests.antt =====
-- Examples of the transport: a broker with a small limit, and a client that may not publish.
use aqueduct.Transport.Startup.{replay_aal-publish_all, publish_all, replay_aal, wires, Publication}
use aqueduct.Transport.Walk.{dispatch_frames-calm}
use aqueduct.Aal.Replay.{finished}
use aqueduct.Base.{
  inl, ◌≤◌, zero, ◌>>=◌, false, ltb, refl, suc, true, [], arith, if◌then◌else◌, length, none, some,
  ◌++◌, ◌∷◌, ◌≡◌, ◌≢◌, All, ℕ, ok,
}
use aqueduct.Transport.Serving.{handle_stream-served}
use aqueduct.Transport.Rereads.{served}
use aqueduct.Protocol.Extensions.{default_priority}
use aqueduct.Transport.Access.{handle_stream-refused, plain_frame, IsSent}
use aqueduct.Transport.Unchecked.{marked_frame_passes}
use aqueduct.Transport.Safety.{HasRoom}
use aqueduct.Protocol.Command.{cmd_publish, has_extensions_bit}
use aqueduct.Transport.Hang.{read_loop-hangs}
use aqueduct.Transport.{
  log_frame, extract_topic_bytes, Broker, Session, permission_for_frame, refused,
}
use aqueduct.Transport.Streams.{cancelled, hung, leave, Buffer, handle_stream, read_loop}
use aqueduct.Transport.Route.{no_fuel, crashed, left, dispatch_loop, dispatch_frames}
use aqueduct.Protocol.Frame.{has_extensions, write_header, Frame, serialize_frame}
use aqueduct.Base.Bytes.{put_le32, IsByte, Bytes}
use aqueduct.Authz.{permits, find_rule, perm_none, Engine, allowed}
use aqueduct.Aal.Write.{IsAead}
use aqueduct.Broker.Router.Publish.{
  priority_of, publish_admitted, publish_at, Outside, publish_with_client_id,
}
use aqueduct.Base.Buffers.{copy_at}
use aqueduct.Broker.Queue.{drop_oldest}
use aqueduct.Broker.Router.{new_router, Router}
use aqueduct.Aal.{pool_buffer_size, Aead, Log}
use aqueduct.Aal.Delivery.{IsReader}
use aqueduct.Aal.RoundTrip.{write_all}

abbrev outside : Outside
outside = record {
  slab = λ n. [];
  deadline = λ ms. none;
  now = 0;
  peers = none;
  priority_ttls = λ p. 0;
}

abbrev zeros : ℕ → Bytes
zeros zero = []
zeros (suc n) = 0 ∷ zeros n

length-zeros : (n : ℕ) → length (zeros n) ≡ n
length-zeros zero = refl
length-zeros (suc n) = omega (arith, length-zeros n)

-- Nothing is allowed.
abbrev closed_engine : Engine
closed_engine = record { rules = []; default_perm = 0 }

abbrev broker : Broker
broker = record {
  max_buf_size = 64;
  max_decompressed = 1000;
  authz = some closed_engine;
  decompress = none;
  handlers = λ cmd. none;
  outside = outside;
  parse_uint = λ t. (0, false);
  pool = zeros pool_buffer_size;
}

abbrev session : Session
session = record { router = none; log = none; decompressed = 0; sent = [] }

abbrev greedy : ℕ → ℕ → ℕ
greedy space rest = if ltb space rest then space else rest

greedy-IsReader : IsReader greedy
greedy-IsReader = record {
  fits = λ space rest. ground arith;
  exists_there = λ space rest. ground arith;
  moves = λ space rest p q. ground (arith, p, q);
}

abbrev client : Bytes
client = 99 ∷ []

abbrev orders : Bytes
orders = 111 ∷ 114 ∷ []

-- An acknowledgement, which needs no permission, and three bytes of the next frame.
abbrev stream_bytes : Bytes
stream_bytes = 31 ∷ 4 ∷ 7 ∷ 0 ∷ 0 ∷ 0 ∷ 1 ∷ 0 ∷ 0 ∷ 0 ∷ 9 ∷ 31 ∷ 4 ∷ 7 ∷ []

stream_bytes-IsByte : All IsByte stream_bytes
stream_bytes-IsByte = ground arith

handle_stream-served_example :
    handle_stream broker client 5 greedy (some 10) 12 session stream_bytes
    ≡ leave 5 (served (dispatch_frames broker client 5 session stream_bytes))
handle_stream-served_example =
    handle_stream-served broker client 5 greedy greedy-IsReader (omega arith) (some 10) 12 session
      stream_bytes (λ cap e. ten cap e) (omega arith) stream_bytes-IsByte
  where
    ten : (cap : ℕ) → some 10 ≡ some cap → cap ≤ 12
    ten cap e = let same : 10 ≡ cap = cc e in omega (arith, same)

publish-IsSent : IsSent broker (zeros 12) 1 7 orders
publish-IsSent = record {
  sized = refl;
  known = (omega arith, omega arith, omega arith);
  unextended = refl;
  id_fits = omega arith;
  fits = omega arith;
  small = omega arith;
}

abbrev refused_bytes : Bytes
refused_bytes = serialize_frame (zeros 12) 1 7 orders ++ 9 ∷ []

refused_bytes-IsByte : All IsByte refused_bytes
unfolding serialize_frame write_header copy_at put_le32
refused_bytes-IsByte = ground arith

not_allowed :
    allowed (some closed_engine) client (extract_topic_bytes orders) (permission_for_frame 1)
    ≡ false
unfolding allowed permission_for_frame extract_topic_bytes find_rule permits
not_allowed = refl

gated : permission_for_frame 1 ≢ perm_none
unfolding permission_for_frame
gated e = absurd (omega (arith, e))

nothing_before : dispatch_frames broker client 5 session [] ≡ (session, left [])
unfolding dispatch_frames dispatch_loop
nothing_before = refl

handle_stream-refused_example :
    handle_stream broker client 5 greedy none 1024 session ([] ++ refused_bytes)
    ≡ leave 5 (session, cancelled 401)
handle_stream-refused_example =
    handle_stream-refused broker client 5 greedy closed_engine (zeros 12) orders [] (9 ∷ []) 1 7
      1024 session session greedy-IsReader (omega arith) (omega arith) tt refused_bytes-IsByte
      nothing_before publish-IsSent refl gated not_allowed

dispatch_frames-calm_example :
    ((dispatch_frames broker client 5 session stream_bytes).1 ≢ crashed)
    × ((dispatch_frames broker client 5 session stream_bytes).1 ≢ no_fuel)
    × HasRoom (dispatch_frames broker client 5 session stream_bytes).0.log
dispatch_frames-calm_example =
    dispatch_frames-calm broker client 5 refl (length-zeros pool_buffer_size) (omega arith) session
      stream_bytes tt stream_bytes-IsByte

-- A publish with the extension bit.
abbrev marked_publish : Frame
marked_publish = record {
  command = 65;
  stream_id = 7;
  payload_len = 2;
  payload = orders;
  extensions = 0 ∷ 0 ∷ [];
}

bit_is_set : has_extensions_bit 65 ≡ true
unfolding has_extensions_bit
bit_is_set = refl

marked_frame_passes_example :
    (refused broker client marked_publish ≡ false)
    × (log_frame broker session marked_publish (1 ∷ []) ≡ ok session)
marked_frame_passes_example =
    marked_frame_passes broker client (1 ∷ []) session marked_publish (omega arith) (inl bit_is_set)

-- Twelve bytes of an array of 1024.
abbrev short_buffer : Buffer
short_buffer = record { size = 12; capacity = 1024; live = zeros 12 }

read_loop-hangs_example :
    read_loop broker client 5 greedy 7 session short_buffer (1 ∷ []) ≡ (session, hung)
read_loop-hangs_example =
    read_loop-hangs broker client 5 greedy 7 session short_buffer (1 ∷ []) greedy-IsReader refl
      (omega arith)

abbrev start : Router
start = new_router none 2 drop_oldest

abbrev publication : Publication
publication = record { buf = zeros 12; id = 7; payload = orders }

abbrev plain_log : Log
plain_log = record { aead = none; prefix = 0 ∷ 0 ∷ 0 ∷ 0 ∷ []; nonce = 0; file = [] }

no_cipher : (a : Aead) → none ≡ some a → IsAead a
no_cipher a e = absurd (cc (e))

abbrev restarted : Router
restarted = publish_at outside false start (plain_frame cmd_publish 7 orders) default_priority

one_published : publish_all outside (publication ∷ []) start ≡ ok restarted
unfolding publish_with_client_id publish_admitted priority_of has_extensions new_router
one_published = refl

replay_aal-publish_all_example :
    (write_all (λ k. zeros pool_buffer_size) plain_log (wires (publication ∷ [])) >>= λ l.
    ok (replay_aal outside greedy (97 ∷ []) none l.file (some start)))
    ≡ ok (record { total = 1; result = ok (some restarted); stopped = finished })
replay_aal-publish_all_example =
    replay_aal-publish_all outside greedy (λ k. zeros pool_buffer_size) (97 ∷ []) plain_log
      (publication ∷ []) start restarted greedy-IsReader (λ k. length-zeros pool_buffer_size)
      (omega arith) refl refl no_cipher ((refl, omega arith, omega arith), tt) one_published
