-- ===== src/Protocol/Frame/Body.antt =====
-- internal/protocol/frame.go: `ParseFrame` reduced to its header fields and the bytes behind them.
use aqueduct.Base.Bytes.{
  le32_lt, put-le32, le32, IsByte, Bytes, slice, slice_ok, at-get_or, le16, le16_at, le32_at,
  put_le32, le32-put, at-append,
}
use aqueduct.Base.{
  All, ℕ, zero, suc, ◌+◌, ◌-◌, ◌%◌, ◌^◌, ◌≤◌, ◌<◌, ◌≡◌, refl, ap, ap₂, ◌∙◌, not, [], ◌∷◌, ◌++◌,
  arith, tests, get_or, ltb, ◌==◌, if◌then◌else◌, length, take, drop, length-append, length-take_le,
  length-drop, drop-append_add, Bool-cases, inl, inr, ◌⊎◌, Outcome, ok, reject, ◌>>=◌, ◌>>◌,
}
use aqueduct.Protocol.Command.{magic_byte, opcode_of, has_extensions_bit, unknown_opcode}
use aqueduct.Protocol.Extensions.{ext_total_len, max_ext_total_len}
use aqueduct.Protocol.Frame.{
  Frame, ParseError, invalid_magic, unknown_command, truncated, short_extensions,
  oversized_extensions, excess_extensions, parse_frame, parse_extensions, finish_frame,
}

-- The data segment of `len` bytes at the front of `rest`, split into extensions and payload.
unfoldable pub split_data : ℕ → ℕ → Bytes → Outcome ParseError (Bytes × Bytes)
split_data raw len rest = if not (has_extensions_bit raw) then ok ([], take len rest) else do
  reject (ltb len 2) short_extensions
  total ← le16_at rest 0
  reject (ltb max_ext_total_len total) oversized_extensions
  reject (ltb len (2 + total)) excess_extensions
  ok (take (2 + total) rest, take (len - (2 + total)) (drop (2 + total) rest))

abbrev pub frame_of : ℕ → ℕ → Bytes × Bytes → Frame
frame_of raw id (block, payload) = record {
  command = raw;
  stream_id = id;
  payload_len = length payload;
  payload = payload;
  extensions = block;
}

-- `ParseFrame` behind a header whose fields are known.
pub parse_frame-header :
    (m raw id len : ℕ) (rest : Bytes)
    → id < 2 ^ 32
    → len < 2 ^ 32
    → parse_frame (m ∷ raw ∷ (put_le32 id ++ (put_le32 len ++ rest))) ≡ (do
      reject (not (m == magic_byte)) invalid_magic
      reject (unknown_opcode (opcode_of raw)) unknown_command
      reject (ltb (length rest) len) truncated
      parts ← parse_extensions (m ∷ raw ∷ (put_le32 id ++ (put_le32 len ++ rest))) raw len
      finish_frame (m ∷ raw ∷ (put_le32 id ++ (put_le32 len ++ rest))) raw id parts)
unfolding parse_frame put_le32 le32_at
parse_frame-header m raw id len rest p q = ground (arith, le32-put id p, le32-put len q)

module _ (front rest : Bytes) (ten : length front ≡ 10) where
  -- A slice behind the header is a slice of what follows it.
  slice_rest :
      {E : Type 0} (k n : ℕ)
      → k + n ≤ length rest
      → slice {E = E} (front ++ rest) (10 + k) (10 + k + n) ≡ ok (take n (drop k rest))
  slice_rest {E} k n h =
      slice_ok (front ++ rest) (10 + k) (10 + k + n) (omega arith)
        (omega (arith, length-append front rest))
      ∙ ap ok (ap₂ (λ (a : ℕ) (b : Bytes). take a b) (omega arith) cut)
    where
      cut : drop (10 + k) (front ++ rest) ≡ drop k rest
      cut = drop-append_add (10 + k) k front rest (omega arith)

  finish_frame-frame_of :
      (raw id k n start : ℕ) (block : Bytes)
      → k + n ≤ length rest
      → start ≡ 10 + k
      → finish_frame (front ++ rest) raw id (block, start, n)
        ≡ ok (frame_of raw id (block, take n (drop k rest)))
  unfolding finish_frame
  finish_frame-frame_of raw id k zero start block h e = refl
  finish_frame-frame_of raw id k (suc n) start block h e =
      rw (e, slice_rest k (suc n) h)
        (ground (arith, length-take_le (suc n) (drop k rest), length-drop k rest))

  ext_total_len-rest : {E : Type 0} → ext_total_len {E = E} (front ++ rest) 10 ≡ le16_at rest 0
  unfolding ext_total_len le16_at
  ext_total_len-rest {E} =
      rw (at-append front rest 0 10 (omega arith), at-append front rest 1 11 (omega arith))

  le16_at-ok : {E : Type 0} → 2 ≤ length rest → (t : ℕ) × (le16_at {E = E} rest 0 ≡ ok t)
  unfolding le16_at
  le16_at-ok {E} h = (
    le16 (get_or rest 0 0) (get_or rest 1 0),
    rw (at-get_or {E = E} rest 0 (omega arith), at-get_or {E = E} rest 1 h) refl,
  )

  -- The parser and its reduced form once the declared length of the block is known.
  split_block :
      (raw id len t : ℕ)
      → len ≤ length rest
      → len < 2 ^ 32
      → ((do
        reject (ltb max_ext_total_len t) oversized_extensions
        reject (ltb (10 + len) (10 + (2 + t))) excess_extensions
        block ← slice (front ++ rest) 10 (10 + (2 + t))
        ok (block, 10 + (2 + t), (len + 2 ^ 32 - (2 + t)) % 2 ^ 32))
          >>= finish_frame (front ++ rest) raw id)
        ≡ ((do
          reject (ltb max_ext_total_len t) oversized_extensions
          reject (ltb len (2 + t)) excess_extensions
          ok (take (2 + t) rest, take (len - (2 + t)) (drop (2 + t) rest)))
            >>= λ parts. ok (frame_of raw id parts))
  split_block raw id len t h small = elim (Bool-cases (ltb len (2 + t))) [
    | inl e ↦ ground arith
    | inr e ↦ ground (
      arith,
      slice_rest {E = ParseError} 0 (2 + t),
      finish_frame-frame_of raw id (2 + t) (len - (2 + t)) (10 + (2 + t)) (take (2 + t) rest),
    )
  ]

  -- Behind the header the parser splits the data segment.
  pub parse_frame-split_data :
      (raw id len : ℕ)
      → len ≤ length rest
      → len < 2 ^ 32
      → (parse_extensions (front ++ rest) raw len >>= finish_frame (front ++ rest) raw id)
        ≡ (split_data raw len rest >>= λ parts. ok (frame_of raw id parts))
  unfolding parse_extensions split_data
  parse_frame-split_data raw id len h small = elim (Bool-cases (has_extensions_bit raw)) [
    | inl on ↦
        rw (on, ext_total_len-rest {E = ParseError})
          (elim (Bool-cases (ltb len 2)) [
            | inl short ↦ rw short
            | inr long ↦
                let (t, e) = le16_at-ok {E = ParseError} (omega (tests)) in
                rw (long, e) (split_block raw id len t h small)
          ])
    | inr off ↦ rw off (finish_frame-frame_of raw id 0 len 10 [] (omega arith) refl)
  ]

-- The ten bytes of a header, as the parser reads them.
abbrev pub fields : ℕ → ℕ → ℕ → ℕ → Bytes
fields m raw id len = m ∷ raw ∷ (put_le32 id ++ put_le32 len)

-- `ParseFrame` as a function of its header fields and of what follows them.
pub parse_frame-fields :
    (m raw id len : ℕ) (rest : Bytes)
    → id < 2 ^ 32
    → len < 2 ^ 32
    → parse_frame (m ∷ raw ∷ (put_le32 id ++ (put_le32 len ++ rest))) ≡ (do
      reject (not (m == magic_byte)) invalid_magic
      reject (unknown_opcode (opcode_of raw)) unknown_command
      reject (ltb (length rest) len) truncated
      parts ← split_data raw len rest
      ok (frame_of raw id parts))
parse_frame-fields m raw id len rest p q =
    parse_frame-header m raw id len rest p q ∙ elim (Bool-cases (ltb (length rest) len)) [
      | inl short ↦ rw short
      | inr enough ↦ rw enough (
          unfold put_le32 in
          rw (
            parse_frame-split_data (m ∷ raw ∷ (put_le32 id ++ put_le32 len)) rest refl raw id len
              (omega tests) q))
    ]

-- Every buffer of ten bytes or more starts with such fields.
pub header_cases :
    (buf : Bytes)
    → All IsByte buf
    → (length buf < 10)
      ⊎ ((m : ℕ) × (raw : ℕ) × (id : ℕ) × (len : ℕ) × (rest : Bytes) × (buf
            ≡ m ∷ raw ∷ (put_le32 id ++ (put_le32 len ++ rest)))
          × (m < 256)
          × (raw < 256)
          × (id < 2 ^ 32)
          × (len < 2 ^ 32)
          × All IsByte rest)
header_cases (a ∷ b ∷ c ∷ d ∷ e ∷ f ∷ g ∷ h ∷ i ∷ j ∷ rest)
      (pa, (pb, (pc, (pd, (pe, (pf, (pg, (ph, (pi, (pj, all)))))))))) =
    inr (
      a,
      b,
      le32 c d e f,
      le32 g h i j,
      rest,
      whole,
      pa,
      pb,
      le32_lt c d e f pc pd pe pf,
      le32_lt g h i j pg ph pi pj,
      all,
    )
  where
    whole :
        a ∷ b ∷ c ∷ d ∷ e ∷ f ∷ g ∷ h ∷ i ∷ j ∷ rest
        ≡ a ∷ b ∷ (put_le32 (le32 c d e f) ++ (put_le32 (le32 g h i j) ++ rest))
    whole = rw (put-le32 c d e f pc pd pe pf, put-le32 g h i j pg ph pi pj)
header_cases buf all = inl (omega arith)

pub fields-append :
    (m raw id len : ℕ) (rest more : Bytes)
    → (m ∷ raw ∷ (put_le32 id ++ (put_le32 len ++ rest))) ++ more
      ≡ m ∷ raw ∷ (put_le32 id ++ (put_le32 len ++ (rest ++ more)))
unfolding put_le32
fields-append m raw id len rest more = refl
