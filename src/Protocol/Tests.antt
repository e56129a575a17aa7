-- ===== src/Protocol/Tests.antt =====
-- internal/protocol: the theorems on a small frame, block and batch.
use aqueduct.Protocol.Extensions.Merge.{
  build_merged_extensions-block_of, compression_entry, build_merged_extensions,
}
use aqueduct.Base.{
  ap, false, zero, fault, ok, refl, suc, take, ◌+◌, Bool, [], arith, length, ◌++◌, ◌∷◌, ◌≡◌, ◌≢◌,
  All, List, ℕ,
}
use aqueduct.Protocol.Extensions.{find_extension}
use aqueduct.Base.Bytes.{le32, le32_at, slice, at, IsByte, Bytes}
use aqueduct.Protocol.Batch.Split.{
  deliver, parse_batch-deliver, parse_batch-Ends, Item, batch_of, Ends,
}
use aqueduct.Protocol.Command.{
  unknown_opcode, opcode_of, has_extensions_bit, set_extensions, IsKnown,
}
use aqueduct.Protocol.Extensions.Strip.Keeps.{strip_extension-without, kept_block}
use aqueduct.Protocol.Extensions.Find.{find_extension-first_value}
use aqueduct.Protocol.Extensions.Entries.{without, first_value, entries_bytes, Entry, block_of}
use aqueduct.Protocol.Frame.RoundTrip.{parse_frame-serialize_with_extensions}
use aqueduct.Protocol.Frame.Safety.{parse_frame-ne-fault}
use aqueduct.Protocol.Frame.Canonical.{take-size-parse_frame, reserialize}
use aqueduct.Protocol.Frame.{
  finish_frame, data_len, parse_extensions, serialize_with_extensions, Frame, parse_frame, size,
}
use aqueduct.Protocol.Batch.{parse_batch}
use aqueduct.Protocol.Extensions.Strip.{strip_extension}

abbrev hi : Bytes
hi = 104 ∷ 105 ∷ []

-- A recycled buffer of some length.
abbrev old_bytes : ℕ → Bytes
old_bytes zero = []
old_bytes (suc n) = 7 ∷ old_bytes n

abbrev hi_frame : Bytes
hi_frame = 31 ∷ 1 ∷ 7 ∷ 0 ∷ 0 ∷ 0 ∷ 2 ∷ 0 ∷ 0 ∷ 0 ∷ 104 ∷ 105 ∷ []

abbrev hi_parsed : Frame
hi_parsed = record { command = 1; stream_id = 7; payload_len = 2; payload = hi; extensions = [] }

hi_frame-IsByte : All IsByte hi_frame
hi_frame-IsByte = ground arith

hi_frame_parses : parse_frame hi_frame ≡ ok hi_parsed
unfolding parse_frame parse_extensions finish_frame at slice le32_at has_extensions_bit opcode_of
    unknown_opcode le32
hi_frame_parses = refl

publish-IsKnown : IsKnown 1
publish-IsKnown = (omega arith, omega arith, omega arith)

-- One priority entry.
abbrev urgent : List Entry
urgent = record { typ = 3; value = 0 ∷ [] } ∷ record { typ = 4; value = 5 ∷ 6 ∷ [] } ∷ []

parse_frame-serialize_with_extensions_example :
    parse_frame (serialize_with_extensions (old_bytes 17) 1 7 (block_of (3 ∷ 1 ∷ 0 ∷ [])) hi ++ [])
    ≡ ok (record {
      command = set_extensions 1;
      stream_id = 7;
      payload_len = 2;
      payload = hi;
      extensions = block_of (3 ∷ 1 ∷ 0 ∷ []);
    })
parse_frame-serialize_with_extensions_example =
    parse_frame-serialize_with_extensions (old_bytes 17) 1 7 (3 ∷ 1 ∷ 0 ∷ []) hi [] refl
      publish-IsKnown (omega arith) (omega arith) (omega arith)

parse_frame-ne-fault_example : parse_frame hi_frame ≢ fault
parse_frame-ne-fault_example = parse_frame-ne-fault hi_frame hi_frame-IsByte

twelve : 12 ≡ size hi_parsed
unfolding size data_len
twelve = refl

take-size-parse_frame_example :
    reserialize (old_bytes 12) hi_parsed ≡ take (size hi_parsed) hi_frame
take-size-parse_frame_example =
    take-size-parse_frame hi_frame (old_bytes 12) hi_parsed hi_frame-IsByte hi_frame_parses twelve

abbrev two_items : List Item
two_items = record { cmd = 1; id = 7; body = hi } ∷ record { cmd = 2; id = 8; body = [] } ∷ []

-- Counts the frames.
abbrev counts : Bytes → ℕ → ℕ × Bool
counts frame n = (n + 1, false)

parse_batch-deliver_example : parse_batch counts (batch_of two_items) 0 ≡ deliver counts two_items 0
parse_batch-deliver_example =
    parse_batch-deliver counts two_items 0
      ((publish-IsKnown, omega arith), (((omega arith, omega arith, omega arith), omega arith), tt))

parse_batch-Ends_example : Ends (parse_batch counts (31 ∷ 1 ∷ []) 0).1
parse_batch-Ends_example = parse_batch-Ends counts (31 ∷ 1 ∷ []) 0

find_extension-first_value_example :
    find_extension (block_of (entries_bytes urgent) ++ 9 ∷ []) 4 ≡ ok (first_value urgent 4)
find_extension-first_value_example = find_extension-first_value 4 urgent (9 ∷ []) (omega arith)

length-old_bytes : (n : ℕ) → length (old_bytes n) ≡ n
length-old_bytes zero = refl
length-old_bytes (suc n) = ap suc (length-old_bytes n)

strip_extension-without_example :
    strip_extension old_bytes (block_of (entries_bytes urgent) ++ []) 3
    ≡ ok (kept_block 3 (without urgent 3))
strip_extension-without_example =
    strip_extension-without 3 old_bytes urgent [] length-old_bytes (omega arith)

abbrev blank_slab : ℕ → Bytes
blank_slab zero = []
blank_slab (suc n) = 0 ∷ blank_slab n

length-blank_slab : (n : ℕ) → length (blank_slab n) ≡ n
length-blank_slab zero = refl
length-blank_slab (suc n) = omega (arith, length-blank_slab n)

abbrev one_level : List Entry
one_level = (record { typ = 3; value = 1 ∷ [] }) ∷ []

build_merged_extensions-block_of_example :
    build_merged_extensions blank_slab (block_of (entries_bytes one_level) ++ []) 300
    ≡ ok (block_of (entries_bytes (one_level ++ compression_entry 300 ∷ [])))
build_merged_extensions-block_of_example =
    build_merged_extensions-block_of blank_slab one_level [] 300 length-blank_slab (omega arith)
