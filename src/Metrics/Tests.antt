-- ===== src/Metrics/Tests.antt =====
-- internal/metrics/metrics.go: the theorem on three values.
use aqueduct.Base.{true, ◌≡◌, All, [], ◌≤◌, length, ◌∷◌, List}
use aqueduct.Base.Bytes.{Bytes}
use aqueduct.Metrics.{new_label_bounded, max_unique_labels, overflow_label}
use aqueduct.Metrics.Labels.{sanitize_all, sanitize_all-capped, among}

abbrev some_values : List Bytes
some_values = (97 ∷ []) ∷ (98 ∷ []) ∷ (97 ∷ []) ∷ []

sanitize_all-capped_example :
    (admitted : List Bytes) × (length admitted ≤ max_unique_labels)
    × All
        (λ l. among (overflow_label ∷ admitted) l ≡ true)
        (sanitize_all new_label_bounded some_values).1
sanitize_all-capped_example = sanitize_all-capped some_values
