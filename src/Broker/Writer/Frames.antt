-- ===== src/Broker/Writer/Frames.antt =====
-- internal/broker/router.go, the frames that runSubscriberWriter sends.
use aqueduct.Protocol.Frame.{
  Frame, ParseError, parse_frame, serialize_frame, serialize_with_extensions,
}
use aqueduct.Base.{
  Outcome, append_assoc, false, ◌==◌, [], length-append, ◌/◌, ◌∙◌, ◌%◌, ap, ◌++◌, ◌^◌, ◌<◌, ◌≡◌, ok,
  arith, length, ◌≤◌, ◌+◌, ℕ,
}
use aqueduct.Protocol.Command.{set_extensions-bit, set_extensions-IsKnown, set_extensions, IsKnown}
use aqueduct.Protocol.Frame.RoundTrip.{split_data-block, split_data-plain, parse_frame-encode}
use aqueduct.Protocol.Frame.Encode.{
  serialize_with_extensions-encode, serialize_frame-encode, encode,
}
use aqueduct.Protocol.Extensions.Entries.{length-block_of, block_of}
use aqueduct.Base.Bytes.{Bytes}
use aqueduct.Broker.Writer.{outgoing, put_le64}
use aqueduct.Broker.Writer.Offsets.{append_offset-encode, length-put_le64}

named : (group : Bytes) → 0 < length group → (length group == 0) ≡ false
named group h = ground arith

with_length :
    (cmd id : ℕ) (payload block : Bytes) {m n : ℕ}
    → m ≡ n
    → ◌≡◌ {A = Outcome ParseError Frame}
        (ok (record {
          command = cmd;
          stream_id = id;
          payload_len = m;
          payload = payload;
          extensions = block;
        }))
        (ok (record {
          command = cmd;
          stream_id = id;
          payload_len = n;
          payload = payload;
          extensions = block;
        }))
with_length cmd id payload block e =
    ap
      (λ k. ok (record {
        command = cmd;
        stream_id = id;
        payload_len = k;
        payload = payload;
        extensions = block;
      }))
      e

-- A group's member reads a frame with its offset behind the payload: where the broker serialized a
-- publish without extensions whose topic leaves room for eight more bytes in the length field, what
-- goes on the wire parses to the same command and stream, with the topic followed by the eight bytes
-- of the offset as the payload, whatever bytes follow.
pub parse_frame-outgoing :
    (buf group : Bytes) (cmd id : ℕ) (payload more : Bytes) (offset : ℕ)
    → 0 < length group
    → length buf ≡ 10 + length payload
    → IsKnown cmd
    → cmd / 64 % 2 ≡ 0
    → id < 2 ^ 32
    → length payload + 8 < 2 ^ 32
    → (frame : Bytes) × (outgoing group (serialize_frame buf cmd id payload) offset ≡ ok frame)
      × (parse_frame (frame ++ more)
          ≡ ok (record {
            command = cmd;
            stream_id = id;
            payload_len = length payload + 8;
            payload = payload ++ put_le64 offset;
            extensions = [];
          }))
unfolding outgoing
parse_frame-outgoing buf group cmd id payload more offset g e k off p q =
    let body = payload ++ put_le64 offset in
    let len : length body ≡ length payload + 8 =
      omega (arith, length-append payload (put_le64 offset), length-put_le64 offset) in
    (
      encode cmd id body,
      rw (named group g, serialize_frame-encode buf cmd id payload e (omega arith))
          (append_offset-encode cmd id payload offset q),
      parse_frame-encode cmd id body more [] body k p (omega arith)
            (split_data-plain cmd body more k.0 off)
          ∙ with_length cmd id body [] len,
    )

-- The same with an extension block, which stays in front of the payload.
pub parse_frame-outgoing_extended :
    (buf group : Bytes) (cmd id : ℕ) (entries payload more : Bytes) (offset : ℕ)
    → 0 < length group
    → length buf ≡ 12 + length entries + length payload
    → IsKnown cmd
    → id < 2 ^ 32
    → length entries ≤ 1024
    → length entries + length payload + 10 < 2 ^ 32
    → (frame : Bytes) × (outgoing group
          (serialize_with_extensions buf cmd id (block_of entries) payload)
          offset
        ≡ ok frame)
      × (parse_frame (frame ++ more)
          ≡ ok (record {
            command = set_extensions cmd;
            stream_id = id;
            payload_len = length payload + 8;
            payload = payload ++ put_le64 offset;
            extensions = block_of entries;
          }))
unfolding outgoing
parse_frame-outgoing_extended buf group cmd id entries payload more offset g e k p s q =
    let tail = payload ++ put_le64 offset in
    let block = block_of entries in
    let known = set_extensions-IsKnown cmd k in
    let len : length tail ≡ length payload + 8 =
      omega (arith, length-append payload (put_le64 offset), length-put_le64 offset) in
    let size = length-block_of entries in
    (
      encode (set_extensions cmd) id (block ++ tail),
      rw
          (
            named group g,
            serialize_with_extensions-encode buf cmd id block payload (omega arith) (omega arith),
          )
          (append_offset-encode (set_extensions cmd) id (block ++ payload) offset
              (omega (arith, length-append block payload))
            ∙ ap (λ x. ok (encode (set_extensions cmd) id x))
                (append_assoc block payload (put_le64 offset))),
      parse_frame-encode (set_extensions cmd) id (block ++ tail) more block tail known p
            (omega (arith, length-append block tail))
            (split_data-block (set_extensions cmd) entries tail more known.0
              (set_extensions-bit cmd k.0) s)
          ∙ with_length (set_extensions cmd) id tail block len,
    )
