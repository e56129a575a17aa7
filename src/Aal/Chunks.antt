-- ===== src/Aal/Chunks.antt =====
-- internal/aal/aal.go, decodeReplayChunk and resyncToNextRecord: every chunk is decoded to an end,
-- in bounds, and the scan for the next record moves on.
use aqueduct.Base.{
  refl, ◌==◌, get_or, ◌&&◌, leb, fault, ltb→lt, none, zero, inr, ltb, Bool-cases, err, inl, suc,
  arith, min, some, ◌⊎◌, ok, ◌+◌, ◌-◌, ◌≡◌, ◌≢◌, length, Bool, Outcome, ◌<◌, ◌≤◌, ℕ, Option,
}
use aqueduct.Aal.Replay.{
  is_corrupt, corrupt, partial, decrypt_replay_record, exhausted, faulted, whole, decode_round,
  finished, handle_record, Piece, decode_loop, decode_replay_chunk, Decoded, next_piece,
  resync_loop, resync_to_next_record,
}
use aqueduct.Base.Bytes.{at-get_or, slice_ok, le32_at-le32_or, le32_or, Bytes}
use aqueduct.Aal.{Aead}

later : {j i m : ℕ} → (j ≡ m) ⊎ ((i + 1 ≤ j) × (j + 4 < m)) → (j ≡ m) ⊎ ((i ≤ j) × (j + 4 < m))
later (inl e) = inl e
later (inr (p, q)) = inr (omega arith, q)

resync_loop-bounds :
    (n : ℕ) (buf : Bytes) (max_scan i : ℕ)
    → max_scan ≤ length buf
    → (j : ℕ) × (resync_loop n buf max_scan i ≡ ok j)
      × ((j ≡ max_scan) ⊎ ((i ≤ j) × (j + 4 < max_scan)))
unfolding resync_loop
resync_loop-bounds zero buf max_scan i h = (max_scan, refl, inl refl)
resync_loop-bounds (suc n) buf max_scan i h = elim (Bool-cases (ltb (i + 4) max_scan)) [
  | inr past ↦ (max_scan, rw (past, resync_loop) refl, inl refl)
  | inl more ↦
      let inside : i + 4 < max_scan = ltb→lt (i + 4) max_scan more in
      let rest = resync_loop-bounds n buf max_scan (i + 1) h in
      let len = le32_or buf i in
      let head = le32_at-le32_or {E = ⊥} buf i (omega arith) in
      let body = at-get_or {E = ⊥} buf (i + 4) (omega arith) in
      elim (Bool-cases (is_corrupt len)) [
        | inl bad ↦ (rest.0, rw (more, resync_loop) (rw (head, body) (rw bad rest.1)), later rest.2)
        | inr good ↦
            elim (Bool-cases (leb (i + 4 + len) (length buf) && get_or buf (i + 4) 0 == 0x1f)) [
              | inl found ↦ (
                i,
                rw (more, resync_loop) (rw (head, body) (rw (good, found) refl)),
                inr (omega arith, inside),
              )
              | inr differs ↦ (
                rest.0,
                rw (more, resync_loop) (rw (head, body) (rw (good, differs) rest.1)),
                later rest.2,
              )
            ]
      ]
]

-- The scan after a corrupt length ends in bounds, behind the position that it starts from: the
-- decoder's loop always moves on.
pub resync_to_next_record_bounds :
    (buf : Bytes) (pos : ℕ)
    → pos < length buf
    → (next : ℕ) × (resync_to_next_record buf pos ≡ ok next) × (pos < next) × (next ≤ length buf)
unfolding resync_to_next_record
resync_to_next_record_bounds buf pos h =
    let r = resync_loop-bounds 1024 buf (min (pos + 1024) (length buf)) (pos + 1) (omega arith) in
    (r.0, r.1, ground (arith, r.2), ground (arith, r.2))

-- What a piece says of the chunk.
abbrev InChunk : Bytes → ℕ → Outcome ⊥ Piece → Type 0
InChunk buf c (ok partial) = Unit
InChunk buf c (ok corrupt) = c < length buf
InChunk buf c (ok (whole body next)) = (c < next) × (next ≤ length buf)
InChunk buf c (err e) = Unit
InChunk buf c fault = ⊥

next_piece-InChunk : (buf : Bytes) (c : ℕ) → c ≤ length buf → InChunk buf c (next_piece buf c)
unfolding next_piece
next_piece-InChunk buf c h =
    let len = le32_or buf c in
    ground (arith, le32_at-le32_or {E = ⊥} buf c, slice_ok {E = ⊥} buf (c + 4) (c + 4 + len))

-- A walk that ends by itself, at a position inside the chunk.
pub record Ends {S : Type 0} (buf : Bytes) (d : Decoded S) : Type 0 where
  pub inside : d.consumed ≤ length buf
  pub no_fault : d.ended ≢ faulted
  pub enough : d.ended ≢ exhausted

module _ {S : Type 0} (aead : Option Aead) (handler : Bytes → S → S × Bool) where
  stops :
      (buf : Bytes) (c count : ℕ) (s : S)
      → c ≤ length buf
      → Ends buf (record { consumed = c; count = count; state = s; ended = finished })
  stops buf c count s h = record { inside = h; no_fault = λ e. cc (e); enough = λ e. cc (e) }

  handles-Ends :
      (buf : Bytes) (c count : ℕ) (s : S) (o : Option Bytes) (continue : ℕ → S → Decoded S)
      → c ≤ length buf
      → ((n : ℕ) (t : S) → Ends buf (continue n t))
      → Ends buf (handle_record aead handler c count s o continue)
  handles-Ends buf c count s none continue h k = k count s
  handles-Ends buf c count s (some plain) continue h k = elim (Bool-cases (handler plain s).1) [
    | inl e ↦ rw e (record { inside = h; no_fault = λ p. cc (p); enough = λ p. cc (p) })
    | inr e ↦ rw e (k (count + 1) (handler plain s).0)
  ]

  round-Ends :
      (buf : Bytes) (c count : ℕ) (s : S) (p : Outcome ⊥ Piece) (continue : ℕ → ℕ → S → Decoded S)
      → c ≤ length buf
      → InChunk buf c p
      → ((next n : ℕ) (t : S) → c < next → next ≤ length buf → Ends buf (continue next n t))
      → Ends buf (decode_round aead handler buf c count s p continue)
  round-Ends buf c count s (ok partial) continue h i k = stops buf c count s h
  round-Ends buf c count s (ok corrupt) continue h i k =
      let (next, e, p, q) = resync_to_next_record_bounds buf c i in
      rw (e, decode_round) (k next count s p q)
  round-Ends buf c count s (ok (whole body next)) continue h i k =
      handles-Ends buf c count s (decrypt_replay_record aead body) (continue next) h
        (λ n t. k next n t i.0 i.1)
  round-Ends buf c count s (err e) continue h i k = absurd e
  round-Ends buf c count s fault continue h i k = absurd i

  decode_loop-Ends :
      (fuel : ℕ) (buf : Bytes) (c count : ℕ) (s : S)
      → c ≤ length buf
      → length buf - c < fuel
      → Ends buf (decode_loop aead handler fuel buf c count s)
  unfolding decode_loop
  decode_loop-Ends zero buf c count s h f = absurd (omega arith)
  decode_loop-Ends (suc fuel) buf c count s h f = elim (Bool-cases (ltb c (length buf))) [
    | inr past ↦ rw (past, decode_loop) (stops buf c count s h)
    | inl more ↦
        rw (more, decode_loop)
          (round-Ends buf c count s (next_piece buf c) (decode_loop aead handler fuel buf) h
            (next_piece-InChunk buf c h)
            (λ next n t p q. decode_loop-Ends fuel buf next n t q (omega arith)))
  ]

  -- Whatever bytes a chunk holds, its decoder ends by itself, never reads out of bounds, and
  -- consumes no more than the chunk.
  pub decode_replay_chunk-Ends :
      (buf : Bytes) (count : ℕ) (s : S) → Ends buf (decode_replay_chunk aead handler buf count s)
  unfolding decode_replay_chunk
  decode_replay_chunk-Ends buf count s =
      decode_loop-Ends (length buf + 1) buf 0 count s (omega arith) (omega arith)
