-- ===== src/Transport/Safety.antt =====
-- internal/transport/broker.go: no bytes of a client end the process, as long as nothing is
-- decompressed and the log's buffer has room.
use aqueduct.Protocol.Command.{is_forwarded, opcode_of}
use aqueduct.Base.{
  Bool-cases, inr, inl, Option-cases, ap, ℕ, ◌>>=◌, none, refl, err, arith, ◌≡◌, fault, length,
  some, ◌≢◌, Outcome, Option, ok,
}
use aqueduct.Protocol.Extensions.Find.{find_extension-ne-fault}
use aqueduct.Broker.Router.Slots.{subscribe}
use aqueduct.Base.Bytes.{at-get_or, Bytes}
use aqueduct.Transport.Route.{
  send_response, with_router, call_handler, handle_forwarded_frame, handle_local_frame, route_frame,
  logged, subscribe_frame,
}
use aqueduct.Protocol.Extensions.{ext_priority, find_extension, level_of, extract_priority}
use aqueduct.Transport.{Session, Broker}
use aqueduct.Aal.Write.{IsAead}
use aqueduct.Aal.{Aead, Log}
use aqueduct.Protocol.Frame.{Frame}
use aqueduct.Broker.Router.Publish.{
  Outside, publish_admitted, priority_of, publish_from_peer, publish_local, publish_with_client_id,
}
use aqueduct.Broker.Topic.{parse_subscription_payload}
use aqueduct.Broker.Router.Batches.{publish_batch}
use aqueduct.Broker.Router.{Router}

-- A log that every frame within the broker's limit fits.
abbrev pub HasRoom : Option Log → Type 0
HasRoom none = Unit
HasRoom (some l) = (length l.prefix ≡ 4) × ((a : Aead) → l.aead ≡ some a → IsAead a)

level_of-ne-fault : (found : Option Bytes) → level_of found ≢ fault
unfolding level_of
level_of-ne-fault none = λ e. cc (e)
level_of-ne-fault (some value) = ground (arith, at-get_or {E = ⊥} value 0)

level-ne-fault : (r : Outcome ⊥ (Option Bytes)) → r ≢ fault → (do found ← r; level_of found) ≢ fault
level-ne-fault (ok found) h = level_of-ne-fault found
level-ne-fault (err e) h = absurd e
level-ne-fault fault h = absurd (h refl)

extract_priority-ne-fault : (block : Bytes) → extract_priority block ≢ fault
unfolding extract_priority
extract_priority-ne-fault block =
    level-ne-fault (find_extension block ext_priority) (find_extension-ne-fault ext_priority block)

priority_of-ne-fault : (f : Frame) → priority_of f ≢ fault
unfolding priority_of
priority_of-ne-fault f = ground (arith, extract_priority-ne-fault f.extensions)

logged-ne-fault : {E : Type 0} (r : Router) (o : Outcome E Router) → o ≢ fault → logged r o ≢ fault
logged-ne-fault r (ok t) h e = cc (e)
logged-ne-fault r (err x) h e = cc (e)
logged-ne-fault r fault h e = h refl

publish_local-ne-fault : (o : Outside) (r : Router) (f : Frame) → publish_local o r f ≢ fault
unfolding publish_local
publish_local-ne-fault o r f = ground (arith, priority_of-ne-fault f)

publish_from_peer-ne-fault :
    (o : Outside) (r : Router) (f : Frame) → publish_from_peer o r f ≢ fault
unfolding publish_from_peer
publish_from_peer-ne-fault o r f =
    publish_local-ne-fault o r (record f { command = opcode_of f.command })

publish_with_client_id-ne-fault :
    (o : Outside) (r : Router) (f : Frame) (client : Bytes)
    → publish_with_client_id o r f client ≢ fault
unfolding publish_with_client_id publish_admitted
publish_with_client_id-ne-fault o r f client = ground (arith, priority_of-ne-fault f)

publish_batch-ne-fault : (o : Outside) (r : Router) (f : Frame) → publish_batch o r f ≢ fault
unfolding publish_batch
publish_batch-ne-fault o r f = ground (arith)

subscribe_frame-ne-fault : (b : Broker) (r : Router) (f : Frame) → subscribe_frame b r f ≢ fault
unfolding parse_subscription_payload
subscribe_frame-ne-fault b r f =
    logged-ne-fault r
      (do
        spec ← parse_subscription_payload (λ t. (b.parse_uint t).0) f.payload
        ok (subscribe r f.stream_id spec))
      (ground arith)

-- No fault, and a log that still has room.
abbrev pub IsSafe : Outcome ⊥ Session → Type 0
IsSafe (ok t) = HasRoom t.log
IsSafe (err e) = Unit
IsSafe fault = ⊥

with_router-IsSafe :
    (s : Session) (o : Outcome ⊥ Router) → HasRoom s.log → o ≢ fault → IsSafe (with_router s o)
with_router-IsSafe s (ok r) room h = room
with_router-IsSafe s (err e) room h = absurd e
with_router-IsSafe s fault room h = h refl

call_handler-log : (b : Broker) (s : Session) (f : Frame) → (call_handler b s f).log ≡ s.log
unfolding call_handler send_response
call_handler-log b s f = ground arith

handler-IsSafe :
    (b : Broker) (s : Session) (f : Frame) → HasRoom s.log → IsSafe (ok (call_handler b s f))
handler-IsSafe b s f room = rw (call_handler-log b s f) room

forwarded-ne-fault : (b : Broker) (r : Router) (f : Frame) → handle_forwarded_frame b r f ≢ fault
unfolding handle_forwarded_frame
forwarded-ne-fault b r f = ground (
  arith,
  logged-ne-fault r (publish_from_peer b.outside r f) (publish_from_peer-ne-fault b.outside r f),
  logged-ne-fault r (publish_batch b.outside r f) (publish_batch-ne-fault b.outside r f),
)

local-ne-fault :
    (b : Broker) (client : Bytes) (stream : ℕ) (r : Router) (f : Frame)
    → handle_local_frame b client stream r f ≢ some fault
unfolding handle_local_frame
local-ne-fault b client stream r f = ground (
  arith,
  subscribe_frame-ne-fault b r f,
  logged-ne-fault r (publish_with_client_id b.outside r f client)
      (publish_with_client_id-ne-fault b.outside r f client),
  logged-ne-fault r (publish_batch b.outside r f) (publish_batch-ne-fault b.outside r f),
)

local-IsSafe :
    (b : Broker) (s : Session) (f : Frame) (o : Option (Outcome ⊥ Router))
    → HasRoom s.log
    → o ≢ some fault
    → IsSafe (elim o [ none ↦ ok (call_handler b s f) | some result ↦ with_router s result ])
local-IsSafe b s f none room h = handler-IsSafe b s f room
local-IsSafe b s f (some o) room h = with_router-IsSafe s o room (λ e. h (ap some e))

pub route_frame-IsSafe :
    (b : Broker) (client : Bytes) (stream : ℕ) (s : Session) (f : Frame)
    → HasRoom s.log
    → IsSafe (route_frame b client stream s f)
unfolding route_frame
route_frame-IsSafe b client stream s f room = elim (Option-cases s.router) [
  | inl e ↦ rw (e, route_frame) (handler-IsSafe b s f room)
  | inr (r, e) ↦
      rw (e, route_frame)
        (elim (Bool-cases (is_forwarded f.command)) [
          | inl on ↦
              rw on (
                with_router-IsSafe s (handle_forwarded_frame b r f) room (forwarded-ne-fault b r f))
          | inr off ↦ rw off (
              local-IsSafe b s f (handle_local_frame b client stream r f) room
                (local-ne-fault b client stream r f))
        ])
]
