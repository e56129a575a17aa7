-- ===== src/Protocol/Batch/Split.antt =====
-- internal/protocol/frame.go: a batch is walked frame by frame, to its end, on every input.
use aqueduct.Base.{
  inr, inl, ltb, Bool-cases, err, Outcome, drop, ◌-◌, length-drop, fault, ◌≢◌, ◌≤◌, append_assoc,
  refl, zero, lt→ltb, le→ltb, suc, All, [], ◌∷◌, Bool, List, take_all, drop-append_eq, ap, ◌∙◌,
  length-append, arith, ok, ◌^◌, ◌++◌, ◌+◌, ◌<◌, length, ◌≡◌, ℕ,
}
use aqueduct.Protocol.Batch.{
  exhausted, batch_round, faulted, parse_batch, after_callback, finished, BatchEnd,
  parse_batch_loop, BatchError, parse_batch_frame,
}
use aqueduct.Base.Bytes.{
  le32_at-le32_or, le32_or, at-get_or, le32-put, slice-append, le32_at, slice_ok, slice, Bytes,
  put_le32,
}
use mathlib.Core.Path.{fun_ext}
use aqueduct.Protocol.Command.{unknown_opcode-IsKnown, IsKnown}
use aqueduct.Protocol.Frame.Encode.{encode}

-- What is left of a buffer behind its front.
slice_remaining :
    {E : Type 0} (front rest : Bytes) (i : ℕ)
    → i ≡ length front
    → slice {E = E} (front ++ rest) i (length (front ++ rest)) ≡ ok rest
slice_remaining {E} front rest i e =
    slice_ok (front ++ rest) i (length (front ++ rest)) (omega (arith, length-append front rest))
      (omega arith)
    ∙ ap ok (
        rw (drop-append_eq i front rest e)
          (take_all _ rest (omega (arith, length-append front rest))))

length-encode : (cmd id : ℕ) (body : Bytes) → length (encode cmd id body) ≡ 10 + length body
unfolding put_le32
length-encode cmd id body = omega arith

encode_len :
    {E : Type 0} (cmd id : ℕ) (body more : Bytes)
    → length body < 2 ^ 32
    → le32_at {E = E} (encode cmd id body ++ more) 6 ≡ ok (length body)
unfolding put_le32 le32_at
encode_len cmd id body more h = ap ok (le32-put (length body) h)

-- The next frame is found behind any front, and the walk moves on to what follows it.
pub parse_batch_frame-encode :
    (front more body : Bytes) (cmd id i : ℕ)
    → i ≡ length front
    → IsKnown cmd
    → length body < 2 ^ 32
    → parse_batch_frame (front ++ (encode cmd id body ++ more)) i
      ≡ ok (encode cmd id body, i + (10 + length body))
unfolding parse_batch_frame
parse_batch_frame-encode front more body cmd id i e k small =
    rw (slice_remaining {E = BatchError} front (encode cmd id body ++ more) i e) (
      ground (
        arith,
        unknown_opcode-IsKnown cmd k,
        length-append (encode cmd id body) more,
        encode_len {E = BatchError} cmd id body more small,
        slice-append {E = BatchError} front (encode cmd id body) more i (i + (10 + length body)) e,
        length-encode cmd id body,
      ))

-- A frame that can stand in a batch: a known command and a body that a length field can count.
pub record Item : Type 0 where
  pub cmd : ℕ
  pub id : ℕ
  pub body : Bytes

abbrev pub IsItem : Item → Type 0
IsItem w = IsKnown w.cmd × (length w.body < 2 ^ 32)

abbrev pub wire : Item → Bytes
wire w = encode w.cmd w.id w.body

-- The payload of a batch over its frames.
abbrev pub batch_of : List Item → Bytes
batch_of [] = []
batch_of (w ∷ ws) = wire w ++ batch_of ws

module _ {S : Type 0} (fn : Bytes → S → S × Bool) where
  -- What a batch is for: the callback on each frame in turn, until it returns an error.
  abbrev pub deliver : List Item → S → S × BatchEnd
  deliver [] s = (s, finished)
  deliver (w ∷ ws) s = after_callback fn (fn (wire w) s) (deliver ws)

  parse_batch_loop-deliver :
      (fuel : ℕ) (front : Bytes) (ws : List Item) (i : ℕ) (s : S)
      → All IsItem ws
      → i ≡ length front
      → length (batch_of ws) < fuel
      → parse_batch_loop fn fuel (front ++ batch_of ws) i s ≡ deliver ws s
  unfolding parse_batch_loop
  parse_batch_loop-deliver zero front ws i s h e f = absurd (omega arith)
  parse_batch_loop-deliver (suc fuel) front [] i s h e f = rw (
    le→ltb i (length (front ++ [])) (omega (arith, length-append {A = ℕ} front [])),
    parse_batch_loop,
  )
  parse_batch_loop-deliver (suc fuel) front (w ∷ ws) i s h e f =
      rw
        (
          lt→ltb i (length (front ++ (wire w ++ batch_of ws))) (omega (arith, grown, shorter)),
          parse_batch_loop,
          parse_batch_frame-encode front (batch_of ws) w.body w.cmd w.id i e h.0.0 h.0.1,
        )
        (ap (after_callback fn (fn (wire w) s)) (
          fun_ext λ t. rw (append_assoc front (wire w) (batch_of ws)) at (
            parse_batch_loop-deliver fuel (front ++ wire w) ws (i + (10 + length w.body)) t h.1
              (omega (arith, length-append front (wire w), length-encode w.cmd w.id w.body))
              (omega (arith, shorter)))))
    where
      grown :
          length (front ++ (wire w ++ batch_of ws)) ≡ length front + length (wire w ++ batch_of ws)
      grown = length-append front (wire w ++ batch_of ws)

      shorter : length (wire w ++ batch_of ws) ≡ 10 + length w.body + length (batch_of ws)
      shorter = omega (arith, length-append (wire w) (batch_of ws), length-encode w.cmd w.id w.body)

  -- ParseBatch hands the callback every frame of the batch, in order, and stops at its first error.
  pub parse_batch-deliver :
      (ws : List Item) (s : S) → All IsItem ws → parse_batch fn (batch_of ws) s ≡ deliver ws s
  unfolding parse_batch
  parse_batch-deliver ws s h =
      parse_batch_loop-deliver (length (batch_of ws) + 1) [] ws 0 s h refl (omega arith)

slice-drop :
    {E : Type 0} (buf : Bytes) (i : ℕ)
    → i ≤ length buf
    → slice {E = E} buf i (length buf) ≡ ok (drop i buf)
slice-drop {E} buf i h =
    slice_ok buf i (length buf) h (omega arith)
    ∙ ap ok (take_all (length buf - i) (drop i buf) (omega (arith, length-drop i buf)))

-- No read is out of bounds, and a frame that is found ends behind its header and inside the batch.
abbrev InBatch : Bytes → ℕ → Outcome BatchError (Bytes × ℕ) → Type 0
InBatch buf i (ok (frame, next)) = (i + 10 ≤ next) × (next ≤ length buf)
InBatch buf i (err e) = Unit
InBatch buf i fault = ⊥

parse_batch_frame-InBatch :
    (buf : Bytes) (i : ℕ) → i ≤ length buf → InBatch buf i (parse_batch_frame buf i)
unfolding parse_batch_frame
parse_batch_frame-InBatch buf i h =
    let n = le32_or (drop i buf) 6 in
    rw (slice-drop {E = BatchError} buf i h) (
      ground (
        arith,
        length-drop i buf,
        at-get_or {E = BatchError} (drop i buf) 0,
        at-get_or {E = BatchError} (drop i buf) 1,
        le32_at-le32_or {E = BatchError} (drop i buf) 6,
        slice_ok {E = BatchError} buf i (i + (10 + n)),
      ))

-- A walk that comes to an end of its own.
abbrev pub Ends : BatchEnd → Type 0
Ends e = (e ≢ faulted) × (e ≢ exhausted)

module _ {S : Type 0} (fn : Bytes → S → S × Bool) where
  batch_round-Ends :
      (buf : Bytes) (i : ℕ) (r : Outcome BatchError (Bytes × ℕ)) (s : S)
      (rest : ℕ → S → S × BatchEnd)
      → InBatch buf i r
      → ((next : ℕ) (t : S) → i + 10 ≤ next → next ≤ length buf → Ends (rest next t).1)
      → Ends (batch_round fn r s rest).1
  batch_round-Ends buf i (ok (frame, next)) s rest h k =
      ground (arith, k next (fn frame s).0 h.0 h.1)
  batch_round-Ends buf i (err e) s rest h k = (λ p. cc, λ p. cc)
  batch_round-Ends buf i fault s rest h k = absurd h

  parse_batch_loop-Ends :
      (fuel : ℕ) (buf : Bytes) (i : ℕ) (s : S)
      → i ≤ length buf
      → length buf - i < fuel
      → Ends (parse_batch_loop fn fuel buf i s).1
  unfolding parse_batch_loop
  parse_batch_loop-Ends zero buf i s h f = absurd (omega arith)
  parse_batch_loop-Ends (suc fuel) buf i s h f = elim (Bool-cases (ltb i (length buf))) [
    | inl more ↦
        rw (more, parse_batch_loop)
          (batch_round-Ends buf i (parse_batch_frame buf i) s (parse_batch_loop fn fuel buf)
            (parse_batch_frame-InBatch buf i h)
            (λ next t p q. parse_batch_loop-Ends fuel buf next t q (omega arith)))
    | inr done ↦ rw (done, parse_batch_loop) (λ p. cc, λ p. cc)
  ]

  -- ParseBatch ends on every payload, malformed ones included, and never reads out of bounds.
  pub parse_batch-Ends : (buf : Bytes) (s : S) → Ends (parse_batch fn buf s).1
  unfolding parse_batch
  parse_batch-Ends buf s =
      parse_batch_loop-Ends (length buf + 1) buf 0 s (omega arith) (omega arith)
