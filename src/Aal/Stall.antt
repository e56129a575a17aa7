-- ===== src/Aal/Stall.antt =====
-- internal/aal/aal.go, Replay: a record that the buffer cannot hold.
use aqueduct.Aal.Write.{length-put_le32}
use aqueduct.Base.{
  length-append, ◌+◌, [], ◌∙◌, ap, ok, append-nil, drop, true, ◌&&◌, ltb, take, ◌==◌, ◌-◌, ◌*◌,
  arith, false, refl, zero, suc, ◌++◌, ◌≤◌, ◌<◌, ◌≡◌, length, ℕ, Bool, Option,
}
use aqueduct.Aal.Replay.{
  Decoded, decode_round, partial, next_piece, after_chunk, finished, Replayed, decode_loop,
  decode_replay_chunk, exhausted, replay_loop,
}
use aqueduct.Aal.Reads.{le32_at-record}
use aqueduct.Base.Bytes.{put_le32, Bytes}
use aqueduct.Aal.Delivery.{IsReader}
use aqueduct.Aal.{Aead}

module _ {S : Type 0} (aead : Option Aead) (handler : Bytes → S → S × Bool)
    (amount : ℕ → ℕ → ℕ) where
  partial_first :
      (fuel n : ℕ) (more : Bytes) (count : ℕ) (s : S)
      → length more ≡ 65532
      → 65532 < n
      → n ≤ 10485760
      → decode_loop aead handler (suc fuel) (put_le32 n ++ more) 0 count s
        ≡ record { consumed = 0; count = count; state = s; ended = finished }
  unfolding decode_loop
  partial_first fuel n more count s full long small =
      let size : length (put_le32 n ++ more) ≡ 65536 =
        omega (arith, length-append (put_le32 n) more, length-put_le32 n, full) in
      let piece : next_piece (put_le32 n ++ more) 0 ≡ ok partial =
        unfold next_piece in
        ground (arith, le32_at-record [] more n 0 refl, full, long, small, size) in
      let inside : ltb 0 (length (put_le32 n ++ more)) ≡ true = ground (arith, size) in
      rw (inside, decode_loop) (rw (piece, decode_round) refl)

  decodes_nothing :
      (n : ℕ) (more : Bytes) (count : ℕ) (s : S)
      → length more ≡ 65532
      → 65532 < n
      → n ≤ 10485760
      → decode_replay_chunk aead handler (put_le32 n ++ more) count s
        ≡ record { consumed = 0; count = count; state = s; ended = finished }
  unfolding decode_replay_chunk
  decodes_nothing n more count s full long small =
      let fuel : length (put_le32 n ++ more) + 1 ≡ suc (length (put_le32 n ++ more)) =
        omega arith in
      ap (λ k. decode_loop aead handler k (put_le32 n ++ more) 0 count s) fuel
      ∙ partial_first (length (put_le32 n ++ more)) n more count s full long small

  keeps_all :
      (x rest : Bytes) (count : ℕ) (s : S) (d : Decoded S)
      (continue : Bytes → ℕ → S → Replayed aead handler)
      → d ≡ record { consumed = 0; count = count; state = s; ended = finished }
      → after_chunk aead handler amount x rest false d continue ≡ continue x count s
  keeps_all x rest count s d continue e = rw e refl

  no_progress :
      (b : Bool) (k fuel n : ℕ) (more rest : Bytes) (count : ℕ) (s : S)
      → b ≡ false
      → k ≡ 0
      → length more ≡ 65532
      → 65532 < n
      → n ≤ 10485760
      → (r : Replayed aead handler)
      → replay_loop aead handler amount fuel (put_le32 n ++ more) rest count s ≡ r
      → after_chunk aead handler amount
          ((put_le32 n ++ more) ++ take k rest)
          rest
          b
          (decode_replay_chunk aead handler ((put_le32 n ++ more) ++ take k rest) count s)
          (λ kept. replay_loop aead handler amount fuel kept (drop k rest))
        ≡ r
  no_progress true k fuel n more rest count s e z full long small r h = absurd (cc (e))
  no_progress false (suc k) fuel n more rest count s e z full long small r h = absurd (omega arith)
  no_progress false zero fuel n more rest count s e z full long small r h =
      let whole_buffer = append-nil (put_le32 n ++ more) in
      let nothing_read =
        ap (λ b. decode_replay_chunk aead handler b count s) whole_buffer
        ∙ decodes_nothing n more count s full long small in
      keeps_all ((put_le32 n ++ more) ++ []) rest count s
        (decode_replay_chunk aead handler ((put_le32 n ++ more) ++ []) count s)
        (λ kept. replay_loop aead handler amount fuel kept rest) nothing_read
      ∙ ap (λ b. replay_loop aead handler amount fuel b rest count s) whole_buffer
      ∙ h

  -- Once the full buffer starts with a record of more than 65,532 and at most 10,485,760 bytes, the
  -- loop of Replay never ends: whatever the fuel and the rest of the file, it runs out of fuel with
  -- the same count and the same state, for reads that fit the space they are given.
  pub replay_loop-stalls :
      (fuel n : ℕ) (more rest : Bytes) (count : ℕ) (s : S)
      → IsReader amount
      → length more ≡ 65532
      → 65532 < n
      → n ≤ 10485760
      → replay_loop aead handler amount fuel (put_le32 n ++ more) rest count s
        ≡ record { total = count; result = s; stopped = exhausted }
  unfolding replay_loop
  replay_loop-stalls zero n more rest count s reader full long small = refl
  replay_loop-stalls (suc fuel) n more rest count s reader full long small =
      let size : length (put_le32 n ++ more) ≡ 65536 = unfold put_le32 in omega (arith, full) in
      let space = 64 * 1024 - length (put_le32 n ++ more) in
      let k_zero : amount space (length rest) ≡ 0 =
        omega (arith, reader.fits space (length rest), size) in
      no_progress (length rest == 0 && ltb 0 space) (amount space (length rest)) fuel n more rest
        count s (ground (arith, size)) k_zero full long small
        (record { total = count; result = s; stopped = exhausted })
        (replay_loop-stalls fuel n more rest count s reader full long small)
