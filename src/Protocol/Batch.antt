-- ===== src/Protocol/Batch.antt =====
-- internal/protocol/frame.go: `ParseBatchFrame` and `ParseBatch`. The callback works on a state and
-- says whether it returned an error. The loop takes fuel; a round moves on by ten bytes at least.
pub mod Split
use aqueduct.Base.{
  false, zero, true, ◌==◌, not, reject, fault, ◌>>◌, err, ltb, ok, ◌+◌, ◌>>=◌, Outcome,
  if◌then◌else◌, length, suc, Bool, ℕ,
}
use aqueduct.Base.Bytes.{le32_at, at, slice, Bytes}
use aqueduct.Protocol.Command.{opcode_of, unknown_opcode, magic_byte, header_size}

pub data BatchError : Type 0 where
  short_header invalid_magic unknown_command truncated : BatchError

-- How a walk over a batch ends. `exhausted` is no Go value: the fuel ran out.
pub data BatchEnd : Type 0 where
  finished stopped faulted exhausted : BatchEnd
  malformed : BatchError → BatchEnd

-- The next frame and the offset behind it.
unfoldable pub parse_batch_frame : Bytes → ℕ → Outcome BatchError (Bytes × ℕ)
parse_batch_frame buf offset = do
  remaining ← slice buf offset (length buf)
  reject (ltb (length remaining) header_size) short_header
  magic ← at remaining 0
  reject (not (magic == magic_byte)) invalid_magic
  cmd ← at remaining 1
  reject (unknown_opcode (opcode_of cmd)) unknown_command
  len ← le32_at remaining 6
  reject (ltb (length remaining) (header_size + len)) truncated
  frame ← slice buf offset (offset + (header_size + len))
  ok (frame, offset + (header_size + len))

module _ {S : Type 0} (fn : Bytes → S → S × Bool) where
  -- What follows a callback: its error ends the walk.
  abbrev pub after_callback : S × Bool → (S → S × BatchEnd) → S × BatchEnd
  after_callback (s, failed) continue = if failed then (s, stopped) else continue s

  abbrev pub batch_round :
      Outcome BatchError (Bytes × ℕ) → S → (ℕ → S → S × BatchEnd) → S × BatchEnd
  batch_round (ok (frame, next)) s rest = after_callback (fn frame s) (rest next)
  batch_round (err e) s rest = (s, malformed e)
  batch_round fault s rest = (s, faulted)

  unfoldable pub parse_batch_loop : ℕ → Bytes → ℕ → S → S × BatchEnd
  parse_batch_loop zero buf offset s = (s, exhausted)
  parse_batch_loop (suc fuel) buf offset s = elim (ltb offset (length buf)) [
    | true ↦ batch_round (parse_batch_frame buf offset) s (parse_batch_loop fuel buf)
    | false ↦ (s, finished)
  ]

  unfoldable pub parse_batch : Bytes → S → S × BatchEnd
  unfolding parse_batch_loop
  parse_batch buf s = parse_batch_loop (length buf + 1) buf 0 s
