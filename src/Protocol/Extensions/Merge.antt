-- ===== src/Protocol/Extensions/Merge.antt =====
-- internal/protocol/extensions.go, BuildMergedExtensionsWithCompression.
use aqueduct.Base.Buffers.{empty_of_length, copy_at, copy_at-append, copy_at_over, set-append}
use aqueduct.Base.Bytes.{slice-append, put_le16, slice, Bytes, put_le32}
use aqueduct.Protocol.Frame.Encode.{write_first}
use aqueduct.Base.{
  length-drop, drop, refl, ap, append-nil, ◌%◌, ◌∙◌, List, length-append, append_assoc, leb, sym,
  ◌&&◌, [], arith, ok, ◌<◌, ltb, ◌++◌, ◌+◌, if◌then◌else◌, length, set, ◌>>=◌, ◌∷◌, ◌≡◌, ℕ,
}
use aqueduct.Protocol.Extensions.{
  Total, ext_total_len, ext_header_len, ext_entry_header, ext_compression,
  ext_compression_value_len, algo_zstd,
}
use aqueduct.Protocol.Extensions.Build.{set_ext_total_len}
use aqueduct.Protocol.Extensions.Entries.{
  Entry, entry_bytes, entries_bytes, block_of, ext_total_len-block_of, length-block_of,
}

-- The entries of a block that has all the bytes it declares.
unfoldable pub existing_entries : Bytes → Total Bytes
existing_entries existing = if ltb (length existing) ext_header_len then ok [] else do
  total ← ext_total_len existing 0
  (if ltb 0 total && leb (ext_header_len + total) (length existing)
      then slice existing ext_header_len (ext_header_len + total)
      else ok [])

-- The entry of the compression, written behind the others.
unfoldable pub write_compression : Bytes → ℕ → ℕ → Bytes
unfolding put_le32
write_compression buf off size =
    let b = set (set buf off ext_compression) (off + 1) ext_compression_value_len in
    copy_at (set b (off + 2) algo_zstd) (off + 3) (put_le32 size)

unfoldable pub merge_entries : Bytes → Bytes → ℕ → Bytes
unfolding set_ext_total_len write_compression
merge_entries buf entries size =
    let n = length entries + (ext_entry_header + ext_compression_value_len) in
    let b = set_ext_total_len buf 0 n in
    let c = if ltb 0 (length entries) then copy_at b ext_header_len entries else b in
    write_compression c (ext_header_len + length entries) size

-- `slab n` is a buffer of n bytes with any content.
unfoldable pub build_merged_extensions : (ℕ → Bytes) → Bytes → ℕ → Total Bytes
unfolding existing_entries merge_entries
build_merged_extensions slab existing size = do
  entries ← existing_entries existing
  (let n = length entries + (ext_entry_header + ext_compression_value_len) in
      ok (merge_entries (slab (ext_header_len + n)) entries size))

abbrev pub compression_entry : ℕ → Entry
compression_entry size = record { typ = ext_compression; value = algo_zstd ∷ put_le32 size }

write_compression-append :
    (xs : Bytes) (a b c d e f g off size : ℕ)
    → off ≡ length xs
    → write_compression (xs ++ (a ∷ b ∷ c ∷ d ∷ e ∷ f ∷ g ∷ [])) off size
      ≡ xs ++ entry_bytes (compression_entry size)
unfolding write_compression put_le32
write_compression-append xs a b c d e f g off size h =
    rw
      (
        set-append xs (a ∷ b ∷ c ∷ d ∷ e ∷ f ∷ g ∷ []) off 0 ext_compression (omega arith),
        set-append xs (ext_compression ∷ b ∷ c ∷ d ∷ e ∷ f ∷ g ∷ []) (off + 1) 1 5 (omega arith),
        set-append xs (ext_compression ∷ 5 ∷ c ∷ d ∷ e ∷ f ∷ g ∷ []) (off + 2) 2 algo_zstd
            (omega arith),
        sym (append_assoc xs (ext_compression ∷ 5 ∷ algo_zstd ∷ []) (d ∷ e ∷ f ∷ g ∷ [])),
      )
      (copy_at-append (xs ++ (ext_compression ∷ 5 ∷ algo_zstd ∷ [])) (d ∷ e ∷ f ∷ g ∷ []) []
          (put_le32 size) (off + 3)
          (omega (arith, length-append xs (ext_compression ∷ 5 ∷ algo_zstd ∷ []))) refl
        ∙ append_assoc xs (ext_compression ∷ 5 ∷ algo_zstd ∷ []) (put_le32 size))

seven :
    (xs zs : Bytes) (off size : ℕ)
    → length zs ≡ 7
    → off ≡ length xs
    → write_compression (xs ++ zs) off size ≡ xs ++ entry_bytes (compression_entry size)
seven xs (a ∷ b ∷ c ∷ d ∷ e ∷ f ∷ g ∷ []) off size n h =
    write_compression-append xs a b c d e f g off size h
seven xs zs off size n h = absurd (omega arith)

merge_entries-append :
    (buf entries : Bytes) (size : ℕ)
    → length buf ≡ 9 + length entries
    → length entries + 7 < 65536
    → merge_entries buf entries size ≡ block_of (entries ++ entry_bytes (compression_entry size))
unfolding merge_entries set_ext_total_len copy_at
merge_entries-append buf entries size h small =
    let comp = entry_bytes (compression_entry size) in
    let n = length entries + 7 in
    let prefix = put_le16 (n % 65536) in
    let room = drop 2 buf in
    let len = length-drop 2 buf in
    let width : length comp ≡ 7 = unfold put_le32 in refl in
    let total : n % 65536 ≡ length (entries ++ comp) =
      omega (arith, length-append entries comp, width) in
    let two : length prefix ≡ 2 = unfold put_le16 in refl in
    let first : copy_at buf 0 prefix ≡ prefix ++ room =
      rw two at (copy_at_over [] buf prefix 0 refl (omega (arith, two))) in
    let second = write_first prefix room entries comp (omega (arith, len, width)) in
    let third =
      seven (prefix ++ entries) (drop (length entries) room) (2 + length entries) size
        (omega (arith, length-drop (length entries) room, len))
        (omega (arith, length-append prefix entries, two)) in
    ap
      (λ b.
        write_compression (if ltb 0 (length entries) then copy_at b 2 entries else b)
          (2 + length entries) size)
      first
    ∙ (ap (λ b. write_compression b (2 + length entries) size) (rw two at second)
        ∙ (third
            ∙ (append_assoc prefix entries comp ∙ ap (λ k. put_le16 k ++ (entries ++ comp)) total)))

entries_bytes-append :
    (es : List Entry) (e : Entry) → entries_bytes (es ++ e ∷ []) ≡ entries_bytes es ++ entry_bytes e
entries_bytes-append [] e = append-nil (entry_bytes e)
entries_bytes-append (x ∷ es) e =
    ap (λ b. entry_bytes x ++ b) (entries_bytes-append es e)
    ∙ sym (append_assoc (entry_bytes x) (entries_bytes es) (entry_bytes e))

existing_entries-block_of :
    (entries more : Bytes)
    → length entries < 65536
    → existing_entries (block_of entries ++ more) ≡ ok entries
unfolding existing_entries
existing_entries-block_of entries more h = ground (
  arith,
  ext_total_len-block_of {E = ⊥} entries more h,
  length-append (block_of entries) more,
  length-block_of entries,
  whole,
  empty_of_length entries,
)
  where
    whole : slice {E = ⊥} (block_of entries ++ more) 2 (2 + length entries) ≡ ok entries
    whole = rw (append_assoc (put_le16 (length entries)) entries more) (
        slice-append (put_le16 (length entries)) entries more 2 (2 + length entries)
          (unfold put_le16 in refl) (unfold put_le16 in refl))

-- The merged block of a block of entries is the block of those entries with the compression's entry,
-- which holds the algorithm and the size, behind them: where all of it fits the length prefix,
-- whatever the recycled buffer held, and whatever follows the declared bytes.
pub build_merged_extensions-block_of :
    (slab : ℕ → Bytes) (es : List Entry) (more : Bytes) (size : ℕ)
    → ((n : ℕ) → length (slab n) ≡ n)
    → length (entries_bytes es) + 7 < 65536
    → build_merged_extensions slab (block_of (entries_bytes es) ++ more) size
      ≡ ok (block_of (entries_bytes (es ++ compression_entry size ∷ [])))
unfolding build_merged_extensions
build_merged_extensions-block_of slab es more size sized h =
    let entries = entries_bytes es in
    rw (existing_entries-block_of entries more (omega arith)) (
      ap ok (
        merge_entries-append (slab (2 + (length entries + 7))) entries size
          (omega (arith, sized (2 + (length entries + 7)))) h
        ∙ ap block_of (sym (entries_bytes-append es (compression_entry size)))))
