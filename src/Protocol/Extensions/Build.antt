-- ===== src/Protocol/Extensions/Build.antt =====
-- internal/protocol/extensions.go: the blocks that the broker builds, and their round trips. `buf`
-- is what the slab allocator hands out, of the block's length and with any content.
use aqueduct.Protocol.Extensions.Find.{find_extension-first_value}
use aqueduct.Base.{
  append-nil, sym, ◌∙◌, ◌++◌, true, false, refl, arith, ltb, [], if◌then◌else◌, take, ok, ◌∷◌, ◌%◌,
  ◌+◌, ◌≡◌, length, set, ℕ,
}
use aqueduct.Protocol.Extensions.{
  default_priority, priority_low, ext_compression, ext_header_len, ext_compression_value_len,
  ext_priority_len, ext_trace_context_len, ext_priority, ext_trace_context, ext_entry_header,
  level_of, extract_priority,
}
use aqueduct.Protocol.Extensions.Entries.{entries_bytes, block_of, first_value, Entry}
use aqueduct.Base.Buffers.{copy_at}
use aqueduct.Base.Bytes.{Bytes, put_le16, put_le32}

unfoldable pub set_ext_total_len : Bytes → ℕ → ℕ → Bytes
unfolding put_le16
set_ext_total_len buf offset n = copy_at buf offset (put_le16 (n % 65536))

unfoldable pub build_priority_extension : Bytes → ℕ → Bytes
unfolding set_ext_total_len
build_priority_extension buf priority =
    let b = set_ext_total_len buf 0 (ext_entry_header + ext_priority_len) in
    set (set (set b ext_header_len ext_priority) (ext_header_len + 1) ext_priority_len)
      (ext_header_len + 2) priority

-- The trace id is cut to 16 bytes and the span id to 8.
unfoldable pub set_trace_context : Bytes → ℕ → Bytes → Bytes → ℕ → Bytes
set_trace_context buf offset trace_id span_id flags =
    let b = set (set buf offset ext_trace_context) (offset + 1) ext_trace_context_len in
    let c = copy_at b (offset + 2) (take 16 trace_id) in
    set (copy_at c (offset + 18) (take 8 span_id)) (offset + 26) flags

unfoldable pub build_extensions : Bytes → Bytes → Bytes → ℕ → Bytes
unfolding set_ext_total_len set_trace_context
build_extensions buf trace_id span_id flags =
    set_trace_context (set_ext_total_len buf 0 (ext_entry_header + ext_trace_context_len))
      ext_header_len trace_id span_id flags

unfoldable pub build_compression_extension : Bytes → ℕ → ℕ → Bytes
unfolding set_ext_total_len put_le32
build_compression_extension buf algo size =
    let b = set_ext_total_len buf 0 (ext_entry_header + ext_compression_value_len) in
    let c =
      set (set b ext_header_len ext_compression) (ext_header_len + 1) ext_compression_value_len in
    copy_at (set c (ext_header_len + 2) algo) (ext_header_len + 3) (put_le32 size)

abbrev priority_entry : ℕ → Entry
priority_entry p = record { typ = ext_priority; value = p ∷ [] }

build_priority_extension-block_of :
    (buf : Bytes) (p : ℕ)
    → length buf ≡ 5
    → build_priority_extension buf p ≡ block_of (entries_bytes (priority_entry p ∷ []))
unfolding build_priority_extension set_ext_total_len put_le16 copy_at
build_priority_extension-block_of (a ∷ b ∷ c ∷ d ∷ e ∷ []) p h = refl
build_priority_extension-block_of [] p h = absurd (omega arith)
build_priority_extension-block_of (a ∷ []) p h = absurd (omega arith)
build_priority_extension-block_of (a ∷ b ∷ []) p h = absurd (omega arith)
build_priority_extension-block_of (a ∷ b ∷ c ∷ []) p h = absurd (omega arith)
build_priority_extension-block_of (a ∷ b ∷ c ∷ d ∷ []) p h = absurd (omega arith)
build_priority_extension-block_of (a ∷ b ∷ c ∷ d ∷ e ∷ f ∷ buf) p h = absurd (omega arith)

-- ExtractPriority reads back a level that is at most 3 from the block that BuildPriorityExtension
-- made of it, and reports none, with the default level, for a level above 3, whatever the recycled
-- buffer held.
pub extract_priority-build_priority_extension :
    (buf : Bytes) (p : ℕ)
    → length buf ≡ 5
    → extract_priority (build_priority_extension buf p)
      ≡ ok (if ltb priority_low p then (default_priority, false) else (p, true))
unfolding extract_priority level_of first_value
extract_priority-build_priority_extension buf p h =
    let block = block_of (entries_bytes (priority_entry p ∷ [])) in
    let made : build_priority_extension buf p ≡ block ++ [] =
      build_priority_extension-block_of buf p h ∙ sym (append-nil block) in
    rw (made, find_extension-first_value ext_priority (priority_entry p ∷ []) [] (omega arith)) refl
