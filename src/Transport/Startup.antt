-- ===== src/Transport/Startup.antt =====
-- internal/transport/broker.go, ReplayAAL: what the log kept is published again.
use aqueduct.Aal.Delivery.{replayed, IsReader}
use aqueduct.Base.{
  refl, arith, none, append-nil, ap₂, ◌==◌, ◌∙◌, ◌≤◌, false, fault, if◌then◌else◌, sym, true, ◌^◌,
  ap, err, some, ◌<◌, All, Bool, [], ◌+◌, ◌>>=◌, Option, Outcome, ℕ, ◌∷◌, ◌≡◌, List, length, ok,
}
use aqueduct.Transport.Access.{length-encode, plain_frame}
use aqueduct.Aal.RoundTrip.{replay-write_all, write_all, IsPool, handle_frames}
use aqueduct.Protocol.Frame.Encode.{serialize_frame-encode}
use aqueduct.Protocol.Frame.RoundTrip.{parse_frame-serialize_frame}
use aqueduct.Aal.Write.{Fits, IsAead}
use aqueduct.Aal.Replay.{finished, Replayed, replay}
use aqueduct.Protocol.Frame.{Frame, ParseError, serialize_frame, parse_frame}
use aqueduct.Aal.{Aead, Log}
use aqueduct.Protocol.Command.{cmd_publish}
use aqueduct.Broker.Router.Publish.{PublishError, Outside, publish_with_client_id}
use aqueduct.Broker.Router.{Router}
use aqueduct.Base.Bytes.{Bytes}

-- The router's result as the handler's: its error ends the replay.
unfoldable pub after_publish :
    Router → Outcome PublishError Router → Outcome ⊥ (Option Router) × Bool
after_publish r (ok t) = (ok (some t), false)
after_publish r (err e) = (ok (some r), true)
after_publish r fault = (fault, true)

-- Only a plain publish is published again, and only where there is a router.
unfoldable pub publish_parsed :
    Outside → Option Router → Outcome ParseError Frame → Outcome ⊥ (Option Router) × Bool
unfolding after_publish publish_with_client_id
publish_parsed o router (err e) = (ok router, true)
publish_parsed o router fault = (fault, true)
publish_parsed o none (ok f) = (ok none, false)
publish_parsed o (some r) (ok f) =
    if f.command == cmd_publish
    then after_publish r (publish_with_client_id o r f [])
    else (ok (some r), false)

unfoldable pub publish_record :
    Outside → Bytes → Outcome ⊥ (Option Router) → Outcome ⊥ (Option Router) × Bool
unfolding publish_parsed parse_frame
publish_record o bytes (ok router) = publish_parsed o router (parse_frame bytes)
publish_record o bytes (err e) = absurd e
publish_record o bytes fault = (fault, true)

-- `key` opens the records of the file at `path`.
unfoldable pub replay_aal :
    (o : Outside)
    → (ℕ → ℕ → ℕ)
    → Bytes
    → (key : Option Aead) → Bytes
    → Option Router
    → Replayed key (publish_record o)
unfolding publish_record replay
replay_aal o amount path key file router =
    if length path == 0
    then record { total = 0; result = ok router; stopped = finished }
    else replay key (publish_record o) amount file (ok router)

-- A publish as a client writes it, in the buffer `buf`.
pub record Publication : Type 0 where
  pub buf : Bytes
  pub id : ℕ
  pub payload : Bytes

abbrev pub wire_of : Publication → Bytes
wire_of p = serialize_frame p.buf cmd_publish p.id p.payload

abbrev pub wires : List Publication → List Bytes
wires [] = []
wires (p ∷ ps) = wire_of p ∷ wires ps

abbrev pub IsPublication : Publication → Type 0
IsPublication p =
    (length p.buf ≡ 10 + length p.payload) × (p.id < 2 ^ 32) × (10 + length p.payload ≤ 65504)

-- The publishes one after the other.
abbrev pub publish_all : Outside → List Publication → Router → Outcome PublishError Router
publish_all o [] r = ok r
publish_all o (p ∷ ps) r = do
  t ← publish_with_client_id o r (plain_frame cmd_publish p.id p.payload) []
  publish_all o ps t

publication-parse :
    (p : Publication)
    → IsPublication p
    → parse_frame (wire_of p) ≡ ok (plain_frame cmd_publish p.id p.payload)
publication-parse p h =
    ap parse_frame (sym (append-nil (wire_of p)))
    ∙ parse_frame-serialize_frame p.buf cmd_publish p.id p.payload [] h.0 (omega arith) refl h.1
        (omega (arith, h.2))

publication-record :
    (o : Outside) (p : Publication) (r t : Router)
    → IsPublication p
    → publish_with_client_id o r (plain_frame cmd_publish p.id p.payload) [] ≡ ok t
    → publish_record o (wire_of p) (ok (some r)) ≡ (ok (some t), false)
unfolding publish_record publish_parsed after_publish
publication-record o p r t h e =
    ap (publish_parsed o (some r)) (publication-parse p h) ∙ ap (after_publish r) e

step_ok :
    (o : Outside) (p : Publication) (ps : List Publication) (r t : Router)
    (first : Outcome PublishError Router)
    → publish_with_client_id o r (plain_frame cmd_publish p.id p.payload) [] ≡ first
    → (first >>= publish_all o ps) ≡ ok t
    → (m : Router) × (publish_with_client_id o r (plain_frame cmd_publish p.id p.payload) [] ≡ ok m)
      × (publish_all o ps m ≡ ok t)
step_ok o p ps r t (ok m) e h = (m, e, h)
step_ok o p ps r t (err x) e h = absurd (cc (h))
step_ok o p ps r t fault e h = absurd (cc (h))

ok_injective : {r t : Router} → ◌≡◌ {A = Outcome PublishError Router} (ok r) (ok t) → r ≡ t
ok_injective e = cc e

records-publish_all :
    (o : Outside) (ps : List Publication) (count : ℕ) (r t : Router)
    → All IsPublication ps
    → publish_all o ps r ≡ ok t
    → handle_frames (publish_record o) (wires ps) count (ok (some r))
      ≡ (count + length ps, ok (some t), finished)
unfolding handle_frames
records-publish_all o [] count r t all e =
    ap₂ (λ (n : ℕ) (x : Router). (n, ok (some x), finished)) (omega arith) (ok_injective e)
records-publish_all o (p ∷ ps) count r t all e =
    let (m, first, rest) = step_ok o p ps r t _ refl e in
    rw (publication-record o p r m all.0 first, handle_frames)
      (records-publish_all o ps (count + 1) m t all.1 rest
        ∙ ap (λ (n : ℕ). (n, ok (some t), finished)) (omega arith))

publication-Fits :
    (l : Log) (p : Publication)
    → length l.prefix ≡ 4
    → ((a : Aead) → l.aead ≡ some a → IsAead a)
    → IsPublication p
    → Fits l (wire_of p)
publication-Fits l p four laws h =
    let n : length (wire_of p) ≡ 10 + length p.payload =
      rw (serialize_frame-encode p.buf cmd_publish p.id p.payload h.0 (omega (arith, h.2)))
        (length-encode cmd_publish p.id p.payload) in
    (omega (arith, n), omega (arith, n, h.2), four, laws)

publications-Fits :
    (l : Log) (ps : List Publication)
    → length l.prefix ≡ 4
    → ((a : Aead) → l.aead ≡ some a → IsAead a)
    → All IsPublication ps
    → All (Fits l) (wires ps)
publications-Fits l [] four laws all = tt
publications-Fits l (p ∷ ps) four laws all =
    (publication-Fits l p four laws all.0, publications-Fits l ps four laws all.1)

-- Publishes without extensions that a log kept come back at the start: a replay of a log that was
-- empty before they were written, under the same key, publishes each of them again, in order, with no
-- client, to the router, and ends by itself with their number, when the router takes them all. Each
-- has at most 65,504 bytes as a frame and an id below 2^32, and was serialized into a buffer of its
-- size. The path is not empty, the cipher, if there is one, opens what it sealed and adds 16 bytes,
-- the nonce prefix has four, the pooled buffers have their size, and reads take something where
-- something is left.
pub replay_aal-publish_all :
    (o : Outside) (amount : ℕ → ℕ → ℕ) (pool : ℕ → Bytes) (path : Bytes) (l : Log)
    (ps : List Publication) (r t : Router)
    → IsReader amount
    → IsPool pool
    → 0 < length path
    → l.file ≡ []
    → length l.prefix ≡ 4
    → ((a : Aead) → l.aead ≡ some a → IsAead a)
    → All IsPublication ps
    → publish_all o ps r ≡ ok t
    → (write_all pool l (wires ps) >>= λ l'. ok (replay_aal o amount path l.aead l'.file (some r)))
      ≡ ok (record { total = length ps; result = ok (some t); stopped = finished })
unfolding replay_aal
replay_aal-publish_all o amount pool path l ps r t reader sizes named empty four laws all e =
    let there : (length path == 0) ≡ false = ground (arith, named) in
    let none_before : 0 + length ps ≡ length ps = omega arith in
    rw there (
      replay-write_all (publish_record o) amount pool l (wires ps) (ok (some r)) reader sizes empty
        (publications-Fits l ps four laws all)
      ∙ ap (λ q. ok (replayed l.aead (publish_record o) amount q))
          (records-publish_all o ps 0 r t all e
            ∙ ap (λ (n : ℕ). (n, ok (some t), finished)) none_before))
