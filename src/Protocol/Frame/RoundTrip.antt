-- ===== src/Protocol/Frame/RoundTrip.antt =====
-- internal/protocol/frame.go: the parser reads what the serializers write, and nothing else.
use aqueduct.Base.{
  drop, take, true, ap₂, ◌-◌, drop-append_eq, take-append_eq, append_assoc, refl, length-append,
  take-length_append, ◌∙◌, ap, arith, [], ◌∷◌, ◌≤◌, ok, ◌%◌, ◌+◌, ◌++◌, ◌/◌, ◌^◌, ◌≡◌, length, ◌<◌,
  ℕ,
}
use aqueduct.Base.Bytes.{le16, le16-put, le16_at, put_le16, Bytes, put_le32}
use aqueduct.Protocol.Command.{
  has_extensions_bit, set_extensions-bit, set_extensions-IsKnown, unknown_opcode-IsKnown,
  has_extensions_bit-div, set_extensions, magic_byte, IsKnown,
}
use aqueduct.Protocol.Frame.Encode.{
  serialize_with_extensions-encode, serialize_frame-encode, encode,
}
use aqueduct.Protocol.Frame.Body.{parse_frame-fields, frame_of, split_data}
use aqueduct.Protocol.Frame.{serialize_frame, serialize_with_extensions, parse_frame}

-- `encode` over the parser's fields.
encode-fields :
    (cmd id : ℕ) (body more : Bytes)
    → encode cmd id body ++ more
      ≡ magic_byte ∷ cmd ∷ (put_le32 id ++ (put_le32 (length body) ++ (body ++ more)))
unfolding put_le32
encode-fields cmd id body more = refl

-- A known command over a body that splits.
pub parse_frame-encode :
    (cmd id : ℕ) (body more block payload : Bytes)
    → IsKnown cmd
    → id < 2 ^ 32
    → length body < 2 ^ 32
    → split_data cmd (length body) (body ++ more) ≡ ok (block, payload)
    → parse_frame (encode cmd id body ++ more) ≡ ok (frame_of cmd id (block, payload))
parse_frame-encode cmd id body more block payload k p q e =
    ap parse_frame (encode-fields cmd id body more)
    ∙ parse_frame-fields magic_byte cmd id (length body) (body ++ more) p q
    ∙ ground (arith, unknown_opcode-IsKnown cmd k, length-append body more, e)

pub split_data-plain :
    (cmd : ℕ) (body more : Bytes)
    → cmd < 256
    → cmd / 64 % 2 ≡ 0
    → split_data cmd (length body) (body ++ more) ≡ ok ([], body)
unfolding split_data
split_data-plain cmd body more h off =
    ground (arith, has_extensions_bit-div cmd h, take-length_append body more)

-- A block of entries under its length prefix.
abbrev pub block_of : Bytes → Bytes
block_of entries = put_le16 (length entries) ++ entries

split_data-total :
    (cmd len a b t : ℕ) (r : Bytes)
    → has_extensions_bit cmd ≡ true
    → le16 a b ≡ t
    → t ≤ 1024
    → 2 + t ≤ len
    → split_data cmd len (a ∷ b ∷ r)
      ≡ ok (take (2 + t) (a ∷ b ∷ r), take (len - (2 + t)) (drop (2 + t) (a ∷ b ∷ r)))
unfolding split_data le16_at
split_data-total cmd len a b t r on e small fits = ground arith

pub split_data-block :
    (cmd : ℕ) (entries payload more : Bytes)
    → cmd < 256
    → cmd / 64 % 2 ≡ 1
    → length entries ≤ 1024
    → split_data cmd (length (block_of entries ++ payload)) ((block_of entries ++ payload) ++ more)
      ≡ ok (block_of entries, payload)
unfolding put_le16
split_data-block cmd entries payload more h on small = rw (append_assoc entries payload more) (
    split_data-total cmd len (n % 256) (n / 256 % 256) n (entries ++ (payload ++ more))
      (ground (arith, has_extensions_bit-div cmd h)) (le16-put n (omega arith)) small
      (omega (arith, length-append entries payload))
    ∙ ap ok (
        ap₂ (λ (u v : Bytes). (u, v))
          (take-append_eq (2 + n) (block_of entries) (payload ++ more) (omega arith))
          (ap (take (len - (2 + n)))
              (drop-append_eq (2 + n) (block_of entries) (payload ++ more) (omega arith))
            ∙ take-append_eq (len - (2 + n)) payload more
                (omega (arith, length-append entries payload)))))
  where
    n : ℕ
    n = length entries

    len : ℕ
    len = length (block_of entries ++ payload)

-- The parser returns what `SerializeFrame` was given, for a known command without the extension bit
-- and a payload whose length fits its field, whatever the recycled buffer held and whatever bytes
-- follow the frame.
pub parse_frame-serialize_frame :
    (buf : Bytes) (cmd id : ℕ) (payload more : Bytes)
    → length buf ≡ 10 + length payload
    → IsKnown cmd
    → cmd / 64 % 2 ≡ 0
    → id < 2 ^ 32
    → length payload < 2 ^ 32
    → parse_frame (serialize_frame buf cmd id payload ++ more)
      ≡ ok (record {
        command = cmd;
        stream_id = id;
        payload_len = length payload;
        payload = payload;
        extensions = [];
      })
parse_frame-serialize_frame buf cmd id payload more e k off p q =
    rw (serialize_frame-encode buf cmd id payload e q) (
      parse_frame-encode cmd id payload more [] payload k p q
        (split_data-plain cmd payload more k.0 off))

-- The parser returns what `SerializeFrameWithExtensions` was given, with the extension bit set in
-- the command, for a known command, a block of at most 1024 bytes behind its length prefix, and
-- lengths that fit their field, whatever the recycled buffer held and whatever bytes follow.
pub parse_frame-serialize_with_extensions :
    (buf : Bytes) (cmd id : ℕ) (entries payload more : Bytes)
    → length buf ≡ 12 + length entries + length payload
    → IsKnown cmd
    → id < 2 ^ 32
    → length entries ≤ 1024
    → length entries + length payload + 2 < 2 ^ 32
    → parse_frame (serialize_with_extensions buf cmd id (block_of entries) payload ++ more)
      ≡ ok (record {
        command = set_extensions cmd;
        stream_id = id;
        payload_len = length payload;
        payload = payload;
        extensions = block_of entries;
      })
parse_frame-serialize_with_extensions buf cmd id entries payload more e k p s q =
    rw
      (serialize_with_extensions-encode buf cmd id (block_of entries) payload
        (unfold put_le16 in omega arith) (unfold put_le16 in omega arith))
      (parse_frame-encode (set_extensions cmd) id (block_of entries ++ payload) more
        (block_of entries) payload (set_extensions-IsKnown cmd k) p
        (unfold put_le16 in omega (arith, length-append entries payload))
        (split_data-block (set_extensions cmd) entries payload more (set_extensions-IsKnown cmd k).0
          (set_extensions-bit cmd k.0) s))
