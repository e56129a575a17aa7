-- ===== src/Protocol/Extensions/Strip.antt =====
-- internal/protocol/extensions.go: `StripExtension`, which measures what it keeps and then copies
-- it. The new block's memory is the slab allocator's, with any content.
pub mod Keeps
use aqueduct.Base.{
  false, zero, ◌%◌, true, ◌||◌, [], leb, set, ok, ◌&&◌, ◌==◌, length, suc, ◌+◌, fault, ltb, ◌>>=◌,
  ℕ, if◌then◌else◌,
}
use aqueduct.Base.Bytes.{at, put_le16, slice, Bytes}
use aqueduct.Base.Buffers.{copy_at}
use aqueduct.Protocol.Extensions.{ext_entry_header, ext_total_len, ext_header_len, Total}

-- The bytes of the entries of other types.
unfoldable pub measure_loop : ℕ → Bytes → ℕ → ℕ → ℕ → Total ℕ
measure_loop zero src typ off keep = fault
measure_loop (suc fuel) src typ off keep =
    elim (ltb off (length src) && leb (off + ext_entry_header) (length src)) [
      | true ↦ (do
        t ← at src off
        len ← at src (off + 1)
        measure_loop fuel src typ (off + (ext_entry_header + len))
            (if t == typ then keep else keep + (ext_entry_header + len)))
      | false ↦ ok keep
    ]

-- `dst[i] = b`
abbrev pub write_at : Bytes → ℕ → ℕ → Total Bytes
write_at dst i b = if ltb i (length dst) then ok (set dst i b) else fault

-- Type, length and value of one entry, written at `to`.
unfoldable pub copy_entry : Bytes → ℕ → ℕ → ℕ → Bytes → ℕ → Total Bytes
copy_entry src off t len dst to = do
  with_type ← write_at dst to t
  with_len ← write_at with_type (to + 1) len
  if len == 0 then ok with_len else do
    room ← slice with_len (to + 2) (to + 2 + len)
    value ← slice src (off + 2) (off + 2 + len)
    ok (copy_at with_len (to + 2) value)

unfoldable pub copy_loop : ℕ → Bytes → ℕ → ℕ → Bytes → ℕ → Total Bytes
copy_loop zero src typ off dst to = fault
copy_loop (suc fuel) src typ off dst to =
    elim (ltb off (length src) && leb (off + ext_entry_header) (length src)) [
      | true ↦ (do
        t ← at src off
        len ← at src (off + 1)
        next ← if t == typ then ok dst else copy_entry src off t len dst to
        copy_loop fuel src typ (off + (ext_entry_header + len)) next
            (if t == typ then to else to + (ext_entry_header + len)))
      | false ↦ ok dst
    ]

-- `SetExtTotalLen(dst, 0, keep)` and the copy, where anything is kept.
unfoldable pub strip_entries : (ℕ → Bytes) → Bytes → ℕ → Total Bytes
strip_entries acquire src typ = do
  keep ← measure_loop (length src + 1) src typ 0 0
  if keep == 0
      then ok []
      else copy_loop (length src + 1) src typ 0
          (copy_at (acquire (ext_header_len + keep)) 0 (put_le16 (keep % 65536))) ext_header_len

unfoldable pub strip_extension : (ℕ → Bytes) → Bytes → ℕ → Total Bytes
strip_extension acquire block typ = if ltb (length block) ext_header_len then ok [] else do
  total ← ext_total_len block 0
  if total == 0 || ltb (length block) (ext_header_len + total) then ok [] else do
    src ← slice block ext_header_len (ext_header_len + total)
    strip_entries acquire src typ
