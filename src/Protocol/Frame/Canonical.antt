-- ===== src/Protocol/Frame/Canonical.antt =====
-- internal/protocol/frame.go: every accepted frame is the serializers' own output.
use aqueduct.Protocol.Frame.Encode.{
  serialize_frame-encode, serialize_with_extensions-encode, header, encode,
}
use aqueduct.Protocol.Command.{
  has_extensions_bit-div, set_extensions-on, magic_byte, has_extensions_bit,
}
use aqueduct.Base.{
  refl, sym, take-append_add, ◌∷◌, ap₂, All, fault, ◌∙◌, err, drop, ◌>>=◌, length-take_le,
  length-append, ltb, ap, reject, ◌-◌, ◌+◌, ◌>>◌, if◌then◌else◌, length-take, take-add, Outcome,
  inr, inl, Bool-cases, arith, take, [], ◌++◌, false, length, true, ◌≤◌, ok, ◌≡◌, ℕ,
}
use aqueduct.Protocol.Frame.Inversion.{parse_frame-Parsed, Parsed}
use aqueduct.Protocol.Frame.{
  parse_frame, excess_extensions, oversized_extensions, short_extensions, serialize_frame,
  serialize_with_extensions, size, ParseError, Frame,
}
use aqueduct.Base.Bytes.{IsByte, put_le32, le16_at, Bytes}
use aqueduct.Protocol.Extensions.{max_ext_total_len}
use aqueduct.Protocol.Frame.Body.{split_data}

abbrev read_block : ℕ → Bytes → Outcome ParseError ℕ → Outcome ParseError (Bytes × Bytes)
read_block len rest read = do
  reject (ltb len 2) short_extensions
  total ← read
  reject (ltb max_ext_total_len total) oversized_extensions
  reject (ltb len (2 + total)) excess_extensions
  ok (take (2 + total) rest, take (len - (2 + total)) (drop (2 + total) rest))

-- A block that was accepted has some declared length, which fits.
total_inv :
    (len : ℕ) (rest block payload : Bytes) (read : Outcome ParseError ℕ)
    → read_block len rest read ≡ ok (block, payload)
    → (t : ℕ) × (2 + t ≤ len)
      × (block ≡ take (2 + t) rest)
      × (payload ≡ take (len - (2 + t)) (drop (2 + t) rest))
total_inv len rest block payload (ok t) e = (t, ground arith, ground arith, ground arith)
total_inv len rest block payload (err x) e = absurd (ground arith)
total_inv len rest block payload fault e = absurd (ground arith)

module _ (raw len : ℕ) (rest block payload : Bytes) where
  split_data-whole :
      split_data raw len rest ≡ ok (block, payload)
      → len ≤ length rest
      → block ++ payload ≡ take len rest
  unfolding split_data
  split_data-whole e h = elim (Bool-cases (has_extensions_bit raw)) [
    | inl on ↦
        let (t, fits, b, p) = total_inv len rest block payload (le16_at rest 0) (rw on at e) in
        rw (b, p, take-add (2 + t) (len - (2 + t)) rest) (ap (λ (n : ℕ). take n rest) (omega arith))
    | inr off ↦ ground arith
  ]

  split_data-off :
      split_data raw len rest ≡ ok (block, payload) → has_extensions_bit raw ≡ false → block ≡ []
  unfolding split_data
  split_data-off e off = ground arith

  split_data-on :
      split_data raw len rest ≡ ok (block, payload)
      → len ≤ length rest
      → has_extensions_bit raw ≡ true
      → 2 ≤ length block
  unfolding split_data
  split_data-on e h on =
      let (t, fits, b, _) = total_inv len rest block payload (le16_at rest 0) (rw on at e) in
      rw b (omega (arith, length-take (2 + t) rest))

-- The serializer that a frame's extension bit calls for.
pub reserialize : Bytes → Frame → Bytes
reserialize buf f =
    if has_extensions_bit f.command
    then serialize_with_extensions buf f.command f.stream_id f.extensions f.payload
    else serialize_frame buf f.command f.stream_id f.payload

cut :
    (cmd id len : ℕ) (rest : Bytes)
    → take (10 + len) (magic_byte ∷ cmd ∷ (put_le32 id ++ (put_le32 len ++ rest)))
      ≡ header cmd id len ++ take len rest
unfolding put_le32
cut cmd id len rest = take-append_add (10 + len) len (header cmd id len) rest refl

module _ (buf : Bytes) (f : Frame) (r : Parsed buf f) where
  whole : f.extensions ++ f.payload ≡ take r.len r.rest
  whole = split_data-whole f.command r.len r.rest f.extensions f.payload r.split r.enough

  whole_len : length f.extensions + length f.payload ≡ r.len
  whole_len = omega (
    arith,
    ap length whole,
    length-append f.extensions f.payload,
    length-take_le r.len r.rest r.enough,
  )

  -- The size that the frame reports is the number of bytes it takes up.
  pub size-len : size f ≡ 10 + r.len
  unfolding size
  size-len = ground (arith, whole_len, r.measured, r.len_fits)

  pub take-size-encode :
      take (size f) buf ≡ encode f.command f.stream_id (f.extensions ++ f.payload)
  take-size-encode = rw size-len (
      ap (take (10 + r.len)) r.buffer
      ∙ cut f.command f.stream_id r.len r.rest
      ∙ ap₂ (λ (n : ℕ) (b : Bytes). header f.command f.stream_id n ++ b)
          (sym (length-append f.extensions f.payload ∙ whole_len)) (sym whole))

-- A parsed frame serializes to the very bytes that it was parsed from, in whatever buffer of its
-- size: no two byte strings are the same frame.
pub take-size-parse_frame :
    (buf scratch : Bytes) (f : Frame)
    → All IsByte buf
    → parse_frame buf ≡ ok f
    → length scratch ≡ size f
    → reserialize scratch f ≡ take (size f) buf
unfolding reserialize
take-size-parse_frame buf scratch f all e n =
    let r = parse_frame-Parsed buf f all e in
    let w = whole_len buf f r in
    rw (take-size-encode buf f r) (elim (Bool-cases (has_extensions_bit f.command)) [
      | inl on ↦ rw on (
          serialize_with_extensions-encode scratch f.command f.stream_id f.extensions f.payload
            (omega (arith, size-len buf f r, w)) (omega (arith, w, r.len_fits))
          ∙ ap (λ (c : ℕ). encode c f.stream_id (f.extensions ++ f.payload))
              (set_extensions-on f.command r.known.0
                (ground (arith, has_extensions_bit-div f.command r.known.0, on))))
      | inr off ↦
          let none_left =
            split_data-off f.command r.len r.rest f.extensions f.payload r.split off in
          let empty : length f.extensions ≡ 0 = ap length none_left in
          rw (off, none_left)
            (serialize_frame-encode scratch f.command f.stream_id f.payload
              (omega (arith, size-len buf f r, w, empty)) (omega (arith, w, empty, r.len_fits)))
    ])
