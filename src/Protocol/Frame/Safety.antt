-- ===== src/Protocol/Frame/Safety.antt =====
-- internal/protocol/frame.go: `ParseFrame` on any buffer, hostile ones included.
use aqueduct.Protocol.Frame.Body.{fields-append, parse_frame-fields, header_cases, split_data}
use aqueduct.Base.{
  length-append, ◌∙◌, [], ap, length-drop, drop, ◌-◌, drop-append_le, ◌+◌, take-append_le, ◌∷◌,
  arith, inr, length, lt→ltb, ◌≤◌, inl, ℕ, ◌++◌, fault, ok, ◌≡◌, ◌≢◌, All,
}
use aqueduct.Protocol.Command.{unknown_opcode-IsKnown, magic_byte}
use aqueduct.Base.Bytes.{le16, at-get_or, IsByte, le16_at, Bytes}
use aqueduct.Protocol.Frame.Inversion.{parse_frame-Parsed}
use aqueduct.Protocol.Frame.{ParseError, parse_frame, Frame}

-- The reduced parser reads only what the declared length covers.
pub split_data-ne-fault :
    (raw len : ℕ) (rest : Bytes) → len ≤ length rest → split_data raw len rest ≢ fault
unfolding split_data le16_at
split_data-ne-fault raw len rest h =
    ground (arith, at-get_or {E = ParseError} rest 0, at-get_or {E = ParseError} rest 1)

-- ParseFrame never indexes, slices or reads outside of the buffer, whatever bytes it is given.
pub parse_frame-ne-fault : (buf : Bytes) → All IsByte buf → parse_frame buf ≢ fault
parse_frame-ne-fault buf all = elim (header_cases buf all) [
  | inl short ↦ unfold parse_frame in rw (lt→ltb (length buf) 10 short) (λ e. cc)
  | inr (m, raw, id, len, rest, e, _, _, p, q, _) ↦
      rw (e, parse_frame-fields m raw id len rest p q)
        (ground (arith, split_data-ne-fault raw len rest))
]

-- Bytes that arrive behind a parsed frame do not change it.
pub split_data-append :
    (raw len : ℕ) (rest more : Bytes)
    → len ≤ length rest
    → split_data raw len (rest ++ more) ≡ split_data raw len rest
unfolding split_data le16_at
split_data-append raw len [] more h = let e : len ≡ 0 = omega arith in rw e (ground arith)
split_data-append raw len (x ∷ []) more h = ground (arith, take-append_le len (x ∷ []) more h)
split_data-append raw len (x ∷ y ∷ rest) more h =
    let t = le16 x y in
    ground (
      arith,
      take-append_le len (x ∷ y ∷ rest) more h,
      take-append_le (2 + t) (x ∷ y ∷ rest) more,
      drop-append_le (2 + t) (x ∷ y ∷ rest) more,
      take-append_le (len - (2 + t)) (drop (2 + t) (x ∷ y ∷ rest)) more,
      length-drop (2 + t) (x ∷ y ∷ rest),
    )

-- Bytes behind a parsed frame do not change how it parses.
pub parse_frame-append :
    (buf more : Bytes) (f : Frame)
    → All IsByte buf
    → parse_frame buf ≡ ok f
    → parse_frame (buf ++ more) ≡ ok f
parse_frame-append buf more f all e =
    let r = parse_frame-Parsed buf f all e in
    ap parse_frame (
      ap (λ b. b ++ more) r.buffer
      ∙ fields-append magic_byte f.command f.stream_id r.len r.rest more)
    ∙ parse_frame-fields magic_byte f.command f.stream_id r.len (r.rest ++ more) r.id_fits
        r.len_fits
    ∙ ground (
      arith,
      unknown_opcode-IsKnown f.command r.known,
      length-append r.rest more,
      split_data-append f.command r.len r.rest more r.enough,
      r.measured,
      r.split,
      r.enough,
    )
