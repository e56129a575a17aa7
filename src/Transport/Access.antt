-- ===== src/Transport/Access.antt =====
-- internal/transport/broker.go: frames as clients write them, through the check, the log and the
-- router.
use aqueduct.Transport.Rereads.{served, end_of}
use aqueduct.Transport.Serving.{handle_stream-served}
use aqueduct.Transport.Dispatch.{dispatch_frames-append, fuel_enough, stops_eq, takes_eq}
use aqueduct.Base.{
  All-append, none, ap₂, err, suc, All, inr, inl, Option-cases, ◌==◌, true, drop-append_eq, sym,
  ◌∙◌, take-append_eq, arith, length-append, ◌≤◌, ◌%◌, ap, drop, ◌/◌, ◌≢◌, refl, take, false, some,
  ◌++◌, ◌+◌, ◌^◌, [], ◌<◌, ◌≡◌, length, ℕ, ok,
}
use aqueduct.Transport.Streams.{cancelled, leave, handle_stream, handle_dispatch_error}
use aqueduct.Transport.Rounds.{prepare_frame-IsWhole, wanted, IsWhole}
use aqueduct.Transport.Route.{
  dispatch_loop, left, dispatch_step, rejected, dispatch_frames, route_frame,
}
use aqueduct.Base.Bytes.{IsByte, Bytes, put_le32}
use aqueduct.Transport.{
  prepare_frame, prepared, admit_parsed, finish_prepare, admit_expanded, admit_frame, unauthorized,
  extract_topic_bytes, log_frame, permission_for_frame, decompress_frame, refused, Session, Broker,
}
use aqueduct.Protocol.Frame.RoundTrip.{parse_frame-serialize_frame}
use aqueduct.Aal.Delivery.{IsReader}
use aqueduct.Protocol.Extensions.{find_extension}
use aqueduct.Protocol.Command.{magic_byte, IsKnown}
use aqueduct.Authz.{allowed, perm_none, Engine}
use aqueduct.Transport.Prefixes.{fields_len}
use aqueduct.Protocol.Frame.Encode.{serialize_frame-encode, encode}
use aqueduct.Protocol.Frame.{serialize_frame, Frame}

abbrev pub plain_frame : ℕ → ℕ → Bytes → Frame
plain_frame cmd id payload = record {
  command = cmd;
  stream_id = id;
  payload_len = length payload;
  payload = payload;
  extensions = [];
}

-- A frame without extensions that a client may send: `buf` is the buffer it is written into.
pub record IsSent (b : Broker) (buf : Bytes) (cmd id : ℕ) (payload : Bytes) : Type 0 where
  pub sized : length buf ≡ 10 + length payload
  pub known : IsKnown cmd
  pub unextended : cmd / 64 % 2 ≡ 0
  pub id_fits : id < 2 ^ 32
  pub fits : length payload < 2 ^ 32
  pub small : 10 + length payload ≤ b.max_buf_size

wanted-encode :
    (cmd id : ℕ) (payload y : Bytes)
    → length payload < 2 ^ 32
    → wanted (encode cmd id payload ++ y) ≡ 10 + length payload
unfolding put_le32
wanted-encode cmd id payload y h =
    ap (λ n. 10 + n) (fields_len magic_byte cmd id (length payload) (payload ++ y) h)

pub length-encode :
    (cmd id : ℕ) (payload : Bytes) → length (encode cmd id payload) ≡ 10 + length payload
unfolding put_le32
length-encode cmd id payload = omega arith

module _ (b : Broker) (client : Bytes) (stream : ℕ) where
  sent-IsWhole :
      (buf payload y : Bytes) (cmd id : ℕ)
      → IsSent b buf cmd id payload
      → IsWhole b (serialize_frame buf cmd id payload ++ y)
        × (take
              (wanted (serialize_frame buf cmd id payload ++ y))
              (serialize_frame buf cmd id payload ++ y)
            ≡ serialize_frame buf cmd id payload)
        × (drop
              (wanted (serialize_frame buf cmd id payload ++ y))
              (serialize_frame buf cmd id payload ++ y)
            ≡ y)
        × (wanted (serialize_frame buf cmd id payload ++ y)
            ≡ length (serialize_frame buf cmd id payload))
  sent-IsWhole buf payload y cmd id h =
      let e = serialize_frame-encode buf cmd id payload h.sized h.fits in
      let n = length-encode cmd id payload in
      let w = wanted-encode cmd id payload y h.fits in
      let all = length-append (encode cmd id payload) y in
      rw e (
        record {
          header = omega (arith, n, all);
          small = omega (arith, w, h.small);
          here = omega (arith, w, n, all);
        },
        take-append_eq _ (encode cmd id payload) y (w ∙ sym n),
        drop-append_eq _ (encode cmd id payload) y (w ∙ sym n),
        w ∙ sym n,
      )

  decompressed_same :
      (cmd id : ℕ) (payload : Bytes) (spent : ℕ)
      → decompress_frame b (plain_frame cmd id payload) spent
        ≡ (spent, ok (plain_frame cmd id payload))
  unfolding decompress_frame find_extension
  decompressed_same cmd id payload spent = elim (Option-cases b.decompress) [
    | inl e ↦ rw (e, decompress_frame) refl
    | inr (engine, e) ↦ rw (e, decompress_frame) refl
  ]

  admitted_as :
      (cmd id : ℕ) (payload bytes : Bytes) (s : Session)
      → admit_frame b client s (plain_frame cmd id payload) bytes
        ≡ admit_expanded b client s
            (plain_frame cmd id payload)
            bytes
            (s.decompressed, ok (plain_frame cmd id payload))
  unfolding admit_frame
  admitted_as cmd id payload bytes s =
      ap (λ r. admit_expanded b client s (plain_frame cmd id payload) bytes r)
        (decompressed_same cmd id payload s.decompressed)

  refused-denied :
      (e : Engine) (cmd id : ℕ) (payload : Bytes)
      → b.authz ≡ some e
      → permission_for_frame cmd ≢ perm_none
      → allowed (some e) client (extract_topic_bytes payload) (permission_for_frame cmd) ≡ false
      → refused b client (plain_frame cmd id payload) ≡ true
  unfolding refused
  refused-denied e cmd id payload engine gated denied =
      let open_to : (permission_for_frame cmd == perm_none) ≡ false = ground (arith, gated) in
      rw (engine, refused) (rw (open_to, denied) refl)

  -- A frame that passes the check is logged and routed, and the walk goes on behind it.
  pub dispatch_frames-accepted :
      (buf payload y : Bytes) (cmd id : ℕ) (s t u : Session)
      → IsSent b buf cmd id payload
      → refused b client (plain_frame cmd id payload) ≡ false
      → log_frame b s (plain_frame cmd id payload) (serialize_frame buf cmd id payload) ≡ ok t
      → route_frame b client stream t (plain_frame cmd id payload) ≡ ok u
      → dispatch_frames b client stream s (serialize_frame buf cmd id payload ++ y)
        ≡ dispatch_frames b client stream u y
  unfolding dispatch_frames admit_expanded finish_prepare
  dispatch_frames-accepted buf payload y cmd id s t u h may logs routes =
      let f = plain_frame cmd id payload in
      let bytes = serialize_frame buf cmd id payload in
      let x = bytes ++ y in
      let (w, cut, rest, long) = sent-IsWhole buf payload y cmd id h in
      let parsed =
        parse_frame-serialize_frame buf cmd id payload y h.sized h.known h.unextended h.id_fits
          h.fits in
      let admits : admit_frame b client s f (take (wanted x) x) ≡ (t, ok (prepared f (wanted x))) =
        ap (admit_frame b client s f) cut
        ∙ admitted_as cmd id payload bytes s
        ∙ rw (may, admit_expanded) (ap (finish_prepare f (length bytes) s) logs)
        ∙ ap (λ n. (t, ok (prepared f n))) (sym long) in
      let more : length x + 1 ≡ suc (length x) = omega arith in
      ap (λ n. dispatch_loop b client stream n s x) more
      ∙ takes_eq b client stream (length x) s x f t u w parsed admits routes
      ∙ ap (λ l. dispatch_loop b client stream (length x) u l) rest
      ∙ fuel_enough b client stream (length x) (length y + 1) u y
          (omega (arith, length-append bytes y, long, w.header)) (omega arith)

  -- A publish, a batch or a subscription whose payload gives the check a key that the client is not
  -- allowed ends the walk with `unauthorized`, and the session of the walk is the one before the
  -- frame: it was not logged or routed.
  pub dispatch_frames-refused :
      (e : Engine) (buf payload y : Bytes) (cmd id : ℕ) (s : Session)
      → IsSent b buf cmd id payload
      → b.authz ≡ some e
      → permission_for_frame cmd ≢ perm_none
      → allowed (some e) client (extract_topic_bytes payload) (permission_for_frame cmd) ≡ false
      → dispatch_frames b client stream s (serialize_frame buf cmd id payload ++ y)
        ≡ (s, rejected unauthorized)
  unfolding dispatch_frames admit_expanded dispatch_step admit_parsed
  dispatch_frames-refused e buf payload y cmd id s h engine gated denied =
      let f = plain_frame cmd id payload in
      let bytes = serialize_frame buf cmd id payload in
      let x = bytes ++ y in
      let (w, cut, rest, long) = sent-IsWhole buf payload y cmd id h in
      let parsed =
        parse_frame-serialize_frame buf cmd id payload y h.sized h.known h.unextended h.id_fits
          h.fits in
      let stopped : refused b client f ≡ true =
        refused-denied e cmd id payload engine gated denied in
      let prepares : prepare_frame b client s x ≡ (s, err unauthorized) =
        prepare_frame-IsWhole b client s x w
        ∙ ap₂ (λ l o. admit_parsed b client s l o) cut parsed
        ∙ admitted_as cmd id payload bytes s
        ∙ rw (stopped, admit_expanded) refl in
      let more : length x + 1 ≡ suc (length x) = omega arith in
      ap (λ n. dispatch_loop b client stream n s x) more
      ∙ stops_eq b client stream (length x) s x s (rejected unauthorized) (omega (arith, w.header))
          (λ k. ap (λ q. dispatch_step b client stream x q k) prepares)

  -- With a limit of ten bytes or more, a new and not empty first buffer, and reads that take
  -- something where something is left: a publish, a batch or a subscription without extensions and
  -- within the limit, behind bytes that were dispatched to their end, cancels the stream with the code
  -- 401, whatever follows it, where the engine does not allow the client the key that the check takes
  -- out of the raw payload: what follows "topic:" where the payload starts so, else the payload
  -- itself, which for a batch is its frames. The session is the one from before the frame but for the
  -- stream's subscriptions, which are dropped.
  pub handle_stream-refused :
      (amount : ℕ → ℕ → ℕ) (e : Engine) (buf payload before y : Bytes) (cmd id size : ℕ)
      (s t : Session)
      → IsReader amount
      → 10 ≤ b.max_buf_size
      → 0 < size
      → All IsByte before
      → All IsByte (serialize_frame buf cmd id payload ++ y)
      → dispatch_frames b client stream s before ≡ (t, left [])
      → IsSent b buf cmd id payload
      → b.authz ≡ some e
      → permission_for_frame cmd ≢ perm_none
      → allowed (some e) client (extract_topic_bytes payload) (permission_for_frame cmd) ≡ false
      → handle_stream b client stream amount none size s
          (before ++ (serialize_frame buf cmd id payload ++ y))
        ≡ leave stream (t, cancelled 401)
  unfolding end_of handle_dispatch_error
  handle_stream-refused amount e buf payload before y cmd id size s t r big pos bs ys first h engine
        gated denied =
      let x = serialize_frame buf cmd id payload ++ y in
      handle_stream-served b client stream amount r big none size s (before ++ x)
        (λ cap c. absurd (cc (c))) pos (All-append IsByte before x bs ys)
      ∙ ap (λ q. leave stream (served q))
          (dispatch_frames-append b client stream s before x [] t bs first
            ∙ dispatch_frames-refused e buf payload y cmd id t h engine gated denied)
