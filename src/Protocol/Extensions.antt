-- ===== src/Protocol/Extensions.antt =====
-- internal/protocol/extensions.go: the block is two bytes of length, then entries of a type byte, a
-- length byte and the value. A slice's capacity is its length, as `ParseFrame` builds it. The loops
-- take fuel, and one that ran out would answer `fault`; a round moves on by two bytes at least.
pub mod Entries
pub mod Build
pub mod Find
pub mod Strip
pub mod Merge
use aqueduct.Base.{
  ℕ, zero, suc, ◌+◌, ◌-◌, ◌*◌, ◌/◌, ◌%◌, ◌≤◌, ◌<◌, Bool, true, false, List, [], ◌∷◌, ◌++◌, arith,
  ltb, leb, ◌==◌, not, Option, none, some, if◌then◌else◌, length, set, Outcome, ok, err, fault,
  reject, ◌>>=◌, ◌>>◌,
}
use aqueduct.Base.Bytes.{Bytes, at, slice, le16_at, put_le16}

abbrev pub ext_header_len : ℕ
ext_header_len = 2

abbrev pub ext_entry_header : ℕ
ext_entry_header = 2

abbrev pub max_ext_total_len : ℕ
max_ext_total_len = 1024

-- The entry types and the lengths of their values.
abbrev pub ext_trace_context : ℕ
ext_trace_context = 0x01

abbrev pub ext_compression : ℕ
ext_compression = 0x02

abbrev pub ext_priority : ℕ
ext_priority = 0x03

abbrev pub ext_retry_offset : ℕ
ext_retry_offset = 0xf0

abbrev pub ext_compression_value_len : ℕ
ext_compression_value_len = 5

abbrev pub ext_trace_context_len : ℕ
ext_trace_context_len = 25

abbrev pub ext_priority_len : ℕ
ext_priority_len = 1

abbrev pub algo_zstd : ℕ
algo_zstd = 1

abbrev pub priority_low : ℕ
priority_low = 3

abbrev pub default_priority : ℕ
default_priority = 2

-- Calls that return no error value.
abbrev pub Total {ℓ} : Type ℓ → Type ℓ
Total A = Outcome ⊥ A

unfoldable pub ext_total_len : {E : Type 0} → Bytes → ℕ → Outcome E ℕ
ext_total_len buf offset = le16_at buf offset

abbrev pub ext_block_size : ℕ → ℕ
ext_block_size total = ext_header_len + total

pub data EntryError : Type 0 where
  entry_truncated : EntryError

-- The type, the value and the offset behind one entry.
unfoldable pub parse_tlv_entry : Bytes → ℕ → Outcome EntryError (ℕ × Bytes × ℕ)
parse_tlv_entry buf offset = do
  reject (ltb (length buf) (offset + ext_entry_header)) entry_truncated
  typ ← at buf offset
  len ← at buf (offset + 1)
  reject (ltb (length buf) (offset + ext_entry_header + len)) entry_truncated
  value ← slice buf (offset + ext_entry_header) (offset + ext_entry_header + len)
  ok (typ, value, offset + ext_entry_header + len)

-- One round of the scan; `continue` is the rest of the loop at the next offset.
abbrev pub find_round : Bytes → ℕ → ℕ → ℕ → (ℕ → Total (Option Bytes)) → Total (Option Bytes)
find_round block typ end offset continue =
    if ltb end (offset + ext_entry_header) then ok none else do
      t ← at block offset
      len ← at block (offset + 1)
      if len == 0
          then continue (offset + ext_entry_header)
          else (if ltb end (offset + ext_entry_header + len)
              then ok none
              else (if t == typ
                  then (do
                    value ←
                        slice block (offset + ext_entry_header) (offset + ext_entry_header + len)
                    ok (some value))
                  else continue (offset + ext_entry_header + len)))

unfoldable pub find_loop : ℕ → Bytes → ℕ → ℕ → ℕ → Total (Option Bytes)
find_loop zero block typ end offset = fault
find_loop (suc fuel) block typ end offset = elim (ltb offset end) [
  | true ↦ find_round block typ end offset (find_loop fuel block typ end)
  | false ↦ ok none
]

-- The value of the first entry of the type that has one.
unfoldable pub find_extension : Bytes → ℕ → Total (Option Bytes)
unfolding find_loop
find_extension block typ = if ltb (length block) ext_header_len then ok none else do
  total ← ext_total_len block 0
  if total == 0
      then ok none
      else (if ltb (length block) (ext_header_len + total)
          then ok none
          else find_loop (total + 1) block typ (ext_header_len + total) ext_header_len)

-- The level, and whether the block had one.
unfoldable pub level_of : Option Bytes → Total (ℕ × Bool)
level_of none = ok (default_priority, false)
level_of (some value) =
    if ltb (length value) ext_priority_len
    then ok (default_priority, false)
    else do p ← at value 0; ok (if ltb priority_low p then (default_priority, false) else (p, true))

unfoldable pub extract_priority : Bytes → Total (ℕ × Bool)
unfolding find_extension level_of
extract_priority block = do found ← find_extension block ext_priority; level_of found

-- The trace id, the span id and the flags.
unfoldable pub trace_of : Option Bytes → Total (Option (Bytes × Bytes × ℕ))
trace_of none = ok none
trace_of (some value) = if ltb (length value) ext_trace_context_len then ok none else do
  trace_id ← slice value 0 16
  span_id ← slice value 16 24
  flags ← at value 24
  ok (some (trace_id, span_id, flags))

unfoldable pub extract_trace_context : Bytes → Total (Option (Bytes × Bytes × ℕ))
unfolding find_extension trace_of
extract_trace_context block = do found ← find_extension block ext_trace_context; trace_of found
