-- ===== src/Metrics.antt =====
-- internal/metrics/metrics.go: the bound on the values of a label. The Prometheus collectors are left
-- out; the second look-up of `sanitize`, under the write lock, finds what the first one found.
pub mod Labels
mod Tests
use aqueduct.Base.{◌+◌, leb, none, Option, if◌then◌else◌, some, ◌∷◌, List, [], ℕ}
use aqueduct.Base.Bytes.{Bytes, bytes_equal}

-- `overflow` is a constant of the type.
pub record LabelBounded : Type 0 where
  pub mapping : List (Bytes × Bytes)
  pub count : ℕ

unfoldable pub new_label_bounded : LabelBounded
new_label_bounded = record { mapping = []; count = 0 }

abbrev pub max_unique_labels : ℕ
max_unique_labels = 4096

-- "__overflow__"
abbrev pub overflow_label : Bytes
overflow_label =
    0x5f ∷ 0x5f ∷ 0x6f ∷ 0x76 ∷ 0x65 ∷ 0x72 ∷ 0x66 ∷ 0x6c ∷ 0x6f ∷ 0x77 ∷ 0x5f ∷ 0x5f ∷ []

unfoldable pub mapped : List (Bytes × Bytes) → Bytes → Option Bytes
unfolding bytes_equal
mapped [] val = none
mapped ((k, label) ∷ m) val = if bytes_equal k val then some label else mapped m val

-- A value that is new: it passes until the cap is reached.
unfoldable pub admit_label : LabelBounded → Bytes → LabelBounded × Bytes
admit_label b val =
    if leb max_unique_labels b.count
    then (record b { mapping = (val, overflow_label) ∷ b.mapping }, overflow_label)
    else (record { mapping = (val, val) ∷ b.mapping; count = b.count + 1 }, val)

unfoldable pub sanitize : LabelBounded → Bytes → LabelBounded × Bytes
unfolding mapped admit_label
sanitize b val = elim (mapped b.mapping val) [ some label ↦ (b, label) | none ↦ admit_label b val ]
