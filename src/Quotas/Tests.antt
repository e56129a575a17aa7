-- ===== src/Quotas/Tests.antt =====
-- internal/quotas/bucket.go: the theorems on a small bucket.
use aqueduct.Base.{[], arith, ◌∷◌, ◌+◌, true, ◌≤◌, List}
use aqueduct.Quotas.Limits.{sets_rate, run_bounds, ticks, allowance, acquires, Event, run}
use aqueduct.Quotas.{Bucket}

abbrev small : Bucket
small = record { tokens = 1; capacity = 2; rate = 30; refilling = true }

abbrev history : List Event
history = acquires ∷ ticks ∷ acquires ∷ sets_rate 10 ∷ ticks ∷ []

run_bounds_example :
    ((run small history).0.tokens ≤ 2)
    × ((run small history).1 + (run small history).0.tokens ≤ 1 + allowance 30 history)
run_bounds_example = run_bounds small history (omega arith)
