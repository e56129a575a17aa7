-- ===== src/Protocol/Extensions/Entries.antt =====
-- internal/protocol/extensions.go: the entries that a block stands for.
use aqueduct.Base.Bytes.{le16-put, le16_at, Bytes, put_le16}
use aqueduct.Base.{
  ap, arith, some, [], ok, ◌+◌, ◌==◌, if◌then◌else◌, none, ◌++◌, ◌≡◌, Option, length, ◌∷◌, List, ℕ,
  ◌<◌,
}
use aqueduct.Protocol.Extensions.{ext_total_len}

pub record Entry : Type 0 where
  pub typ : ℕ
  pub value : Bytes

-- An entry whose type and length fit their bytes.
abbrev pub IsEntry : Entry → Type 0
IsEntry e = (e.typ < 256) × (length e.value < 256)

abbrev pub entry_bytes : Entry → Bytes
entry_bytes e = e.typ ∷ length e.value ∷ e.value

abbrev pub entries_bytes : List Entry → Bytes
entries_bytes [] = []
entries_bytes (e ∷ es) = entry_bytes e ++ entries_bytes es

-- A block of entries under its length prefix.
abbrev pub block_of : Bytes → Bytes
block_of entries = put_le16 (length entries) ++ entries

pub length-block_of : (entries : Bytes) → length (block_of entries) ≡ 2 + length entries
unfolding put_le16
length-block_of entries = omega arith

-- The prefix reads back.
pub ext_total_len-block_of :
    {E : Type 0} (entries more : Bytes)
    → length entries < 65536
    → ext_total_len {E = E} (block_of entries ++ more) 0 ≡ ok (length entries)
unfolding ext_total_len put_le16 le16_at
ext_total_len-block_of entries more h = ap ok (le16-put (length entries) h)

-- The first entry of the type that has a value.
unfoldable pub first_value : List Entry → ℕ → Option Bytes
first_value [] t = none
first_value (e ∷ es) t =
    if length e.value == 0
    then first_value es t
    else (if e.typ == t then some e.value else first_value es t)

-- All entries but those of the type.
unfoldable pub without : List Entry → ℕ → List Entry
without [] t = []
without (e ∷ es) t = if e.typ == t then without es t else e ∷ without es t
