-- ===== src/Aal/Replay.antt =====
-- internal/aal/aal.go, decodeReplayChunk, resyncToNextRecord, decryptReplayRecord and the loop of
-- Replay. The handler works on a state and says whether it returned an error. The loops take fuel;
-- a round of the decoder moves on by one byte at least.
use aqueduct.Base.{
  leb, zero, ◌&&◌, [], false, fault, take, true, ◌++◌, ◌>>=◌, err, ltb, none, ◌+◌, ◌-◌, ◌||◌, drop,
  if◌then◌else◌, length, min, ok, some, suc, ◌==◌, Bool, Outcome, ◌*◌, Option, ℕ,
}
use aqueduct.Base.Bytes.{at, slice, Bytes, le32_at}
use aqueduct.Aal.{Aead}

abbrev pub max_record : ℕ
max_record = 10 * 1024 * 1024

-- A length that no record has.
abbrev pub is_corrupt : ℕ → Bool
is_corrupt len = len == 0 || ltb max_record len

-- The rounds left, and the position.
unfoldable pub resync_loop : ℕ → Bytes → ℕ → ℕ → Outcome ⊥ ℕ
unfolding le32_at
resync_loop zero buf max_scan i = ok max_scan
resync_loop (suc n) buf max_scan i = elim (ltb (i + 4) max_scan) [
  | false ↦ ok max_scan
  | true ↦ (do
    len ← le32_at buf i
    body ← at buf (i + 4)
    (let rest = resync_loop n buf max_scan (i + 1) in
        if is_corrupt len
        then rest
        else (if leb (i + 4 + len) (length buf) && body == 0x1f then ok i else rest)))
]

unfoldable pub resync_to_next_record : Bytes → ℕ → Outcome ⊥ ℕ
unfolding resync_loop
resync_to_next_record buf pos = resync_loop 1024 buf (min (pos + 1024) (length buf)) (pos + 1)

unfoldable pub decrypt_replay_record : Option Aead → Bytes → Option Bytes
decrypt_replay_record none rec = some rec
decrypt_replay_record (some aead) rec =
    if ltb (length rec) (12 + 16) then none else aead.open_sealed (take 12 rec) (drop 12 rec)

-- What stands at a position of the chunk.
pub data Piece : Type 0 where
  partial corrupt : Piece
  whole : Bytes → ℕ → Piece

unfoldable pub next_piece : Bytes → ℕ → Outcome ⊥ Piece
unfolding le32_at
next_piece buf consumed = if ltb (length buf - consumed) 4 then ok partial else do
  len ← le32_at buf consumed
  (if is_corrupt len
      then ok corrupt
      else (if ltb (length buf - consumed) (4 + len) then ok partial else (do
        body ← slice buf (consumed + 4) (consumed + 4 + len)
        ok (whole body (consumed + (4 + len))))))

-- How a decoder's walk ends. `faulted` is a read out of bounds, `exhausted` is no Go value: the fuel
-- ran out.
pub data DecodeEnd : Type 0 where
  finished failed faulted exhausted : DecodeEnd

-- The bytes consumed, the frames handled, and the handler's state.
pub record Decoded (S : Type 0) : Type 0 where
  pub consumed : ℕ
  pub count : ℕ
  pub state : S
  pub ended : DecodeEnd

module _ {S : Type 0} (aead : Option Aead) (handler : Bytes → S → S × Bool) where
  abbrev pub after_handler : ℕ → ℕ → S × Bool → (ℕ → S → Decoded S) → Decoded S
  after_handler consumed count (s, failure) continue =
      if failure
      then record { consumed = consumed; count = count; state = s; ended = failed }
      else continue (count + 1) s

  -- One record: skipped where it does not decrypt.
  abbrev pub handle_record : ℕ → ℕ → S → Option Bytes → (ℕ → S → Decoded S) → Decoded S
  handle_record consumed count s none continue = continue count s
  handle_record consumed count s (some plain) continue =
      after_handler consumed count (handler plain s) continue

  -- One round, with the rounds that follow it.
  abbrev pub decode_round :
      Bytes → ℕ → ℕ → S → Outcome ⊥ Piece → (ℕ → ℕ → S → Decoded S) → Decoded S
  decode_round buf consumed count s (ok partial) continue = record {
    consumed = consumed;
    count = count;
    state = s;
    ended = finished;
  }
  decode_round buf consumed count s (ok corrupt) continue =
      elim (resync_to_next_record buf consumed) [
        | ok next ↦ continue next count s
        | err e ↦ absurd e
        | fault ↦ record { consumed = consumed; count = count; state = s; ended = faulted }
      ]
  decode_round buf consumed count s (ok (whole body next)) continue =
      handle_record consumed count s (decrypt_replay_record aead body) (continue next)
  decode_round buf consumed count s (err e) continue = absurd e
  decode_round buf consumed count s fault continue = record {
    consumed = consumed;
    count = count;
    state = s;
    ended = faulted;
  }

  unfoldable pub decode_loop : ℕ → Bytes → ℕ → ℕ → S → Decoded S
  decode_loop zero buf consumed count s = record {
    consumed = consumed;
    count = count;
    state = s;
    ended = exhausted;
  }
  decode_loop (suc fuel) buf consumed count s = elim (ltb consumed (length buf)) [
    | true ↦ decode_round buf consumed count s (next_piece buf consumed) (decode_loop fuel buf)
    | false ↦ record { consumed = consumed; count = count; state = s; ended = finished }
  ]

  unfoldable pub decode_replay_chunk : Bytes → ℕ → S → Decoded S
  unfolding decode_loop
  decode_replay_chunk buf count s = decode_loop (length buf + 1) buf 0 count s

  abbrev pub replay_buffer_size : ℕ
  replay_buffer_size = 64 * 1024

  -- How `Replay` ends, and what it leaves.
  pub record Replayed : Type 0 where
    pub total : ℕ
    pub result : S
    pub stopped : DecodeEnd

  -- The loop of `Replay`, over what the buffer holds and what the file has left. `amount space left`
  -- is how many bytes a read into so much space takes of so many: a read of nothing, with space for
  -- it, is the end of the file.
  module _ (amount : ℕ → ℕ → ℕ) where
    abbrev pub after_chunk :
        Bytes → Bytes → Bool → Decoded S → (Bytes → ℕ → S → Replayed) → Replayed
    after_chunk buf rest at_end d continue = elim d.ended [
      | finished ↦
          (let next = continue (drop d.consumed buf) d.count d.state in
            if at_end
            then record { total = d.count; result = d.state; stopped = finished }
            else next)
      | failed ↦ record { total = d.count; result = d.state; stopped = failed }
      | faulted ↦ record { total = d.count; result = d.state; stopped = faulted }
      | exhausted ↦ record { total = d.count; result = d.state; stopped = exhausted }
    ]

    unfoldable pub replay_loop : ℕ → Bytes → Bytes → ℕ → S → Replayed
    unfolding decode_replay_chunk
    replay_loop zero buf rest count s = record { total = count; result = s; stopped = exhausted }
    replay_loop (suc fuel) buf rest count s =
        let space = replay_buffer_size - length buf in
        let n = amount space (length rest) in
        let filled = buf ++ take n rest in
        after_chunk filled rest (length rest == 0 && ltb 0 space)
          (decode_replay_chunk filled count s) (λ kept. replay_loop fuel kept (drop n rest))

    -- An empty file, and a missing one, is not read. The fuel is enough for a file of records that
    -- fit the buffer.
    unfoldable pub replay : Bytes → S → Replayed
    unfolding replay_loop
    replay file s =
        if length file == 0
        then record { total = 0; result = s; stopped = finished }
        else replay_loop (length file + 2) [] file 0 s
