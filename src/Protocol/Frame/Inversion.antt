-- ===== src/Protocol/Frame/Inversion.antt =====
-- internal/protocol/frame.go: what a successful `ParseFrame` says of its buffer.
use aqueduct.Protocol.Command.{IsKnown-of_opcode, opcode_of, unknown_opcode, IsKnown, magic_byte}
use aqueduct.Protocol.Frame.Body.{frame_of, parse_frame-fields, split_data, header_cases}
use aqueduct.Base.{
  ◌>>=◌, ltb, ap, arith, ◌==◌, not, ◌∙◌, reject, sym, ◌>>◌, inr, length, ◌≤◌, lt→ltb, ◌^◌, inl,
  ◌++◌, ok, ◌∷◌, All, ◌<◌, ◌≡◌, ℕ,
}
use aqueduct.Protocol.Frame.{truncated, unknown_command, invalid_magic, parse_frame, Frame}
use aqueduct.Base.Bytes.{put_le32, IsByte, Bytes}

-- The buffer behind a parsed frame: a header with the frame's own fields, then a data segment that
-- splits into the frame's parts.
pub record Parsed (buf : Bytes) (f : Frame) : Type 0 where
  pub len : ℕ
  pub rest : Bytes
  pub buffer : buf ≡ magic_byte ∷ f.command ∷ (put_le32 f.stream_id ++ (put_le32 len ++ rest))
  pub known : IsKnown f.command
  pub id_fits : f.stream_id < 2 ^ 32
  pub len_fits : len < 2 ^ 32
  pub enough : len ≤ length rest
  pub split : split_data f.command len rest ≡ ok (f.extensions, f.payload)
  pub measured : f.payload_len ≡ length f.payload

-- The reduced parser's answer, taken apart.
fields_inv :
    (m raw id len : ℕ) (rest : Bytes) (f : Frame)
    → raw < 256
    → (do
      reject (not (m == magic_byte)) invalid_magic
      reject (unknown_opcode (opcode_of raw)) unknown_command
      reject (ltb (length rest) len) truncated
      parts ← split_data raw len rest
      ok (frame_of raw id parts))
      ≡ ok f
    → (m ≡ magic_byte)
      × IsKnown raw
      × (len ≤ length rest)
      × (split_data raw len rest ≡ ok (f.extensions, f.payload))
      × (f ≡ frame_of raw id (f.extensions, f.payload))
fields_inv m raw id len rest f b e =
    (ground arith, IsKnown-of_opcode raw b (ground arith), ground arith, ground arith, ground arith)

pub parse_frame-Parsed :
    (buf : Bytes) (f : Frame) → All IsByte buf → parse_frame buf ≡ ok f → Parsed buf f
parse_frame-Parsed buf f all e = elim (header_cases buf all) [
  | inl short ↦ absurd (unfold parse_frame in cc (rw (lt→ltb (length buf) 10 short) at e))
  | inr (m, raw, id, len, rest, h, _, b, p, q, _) ↦
      let (is_magic, known, enough, parts, same) =
        fields_inv m raw id len rest f b
          (sym (parse_frame-fields m raw id len rest p q) ∙ (rw (← h) e)) in
      record {
        len = len;
        rest = rest;
        buffer = ground arith;
        known = ground arith;
        id_fits = ground arith;
        len_fits = q;
        enough = enough;
        split = ground arith;
        measured = ap (λ (g : Frame). g.payload_len) same;
      }
]
