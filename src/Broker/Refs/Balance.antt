-- ===== src/Broker/Refs/Balance.antt =====
-- internal/broker/msg_ref.go: laws of the counters.
use aqueduct.Base.{◌∷◌, arith, none, ◌+◌, ◌==◌, if◌then◌else◌, ◌<◌, ◌≡◌, ℕ}
use aqueduct.Broker.Refs.{Refs, release, retain}

-- One more where the two references are one.
abbrev pub one_if : ℕ → ℕ → ℕ
one_if i j = if i == j then 1 else 0

-- References without parents: what a plain publish uses.
abbrev pub IsTop : Refs → ℕ → Type 0
IsTop r i = r.parent i ≡ none

pub count-retain : (r : Refs) (i j : ℕ) → (retain r i).count j ≡ r.count j + one_if i j
unfolding retain
count-retain r i j = ground arith

pub count-release :
    (r : Refs) (i j : ℕ)
    → IsTop r i
    → 0 < r.count i
    → (release r i).count j + one_if i j ≡ r.count j
unfolding release
count-release r i j top h = ground arith

pub underflow-release :
    (r : Refs) (i : ℕ) → IsTop r i → 0 < r.count i → (release r i).underflow ≡ r.underflow
unfolding release
underflow-release r i top h = ground arith

pub parent-release : (r : Refs) (i j : ℕ) → IsTop r i → (release r i).parent j ≡ r.parent j
unfolding release
parent-release r i j top = ground arith

-- A buffer goes back exactly when its last reference is released.
pub freed-release :
    (r : Refs) (i : ℕ)
    → IsTop r i
    → (release r i).freed ≡ (if r.count i == 1 then i ∷ r.freed else r.freed)
unfolding release
freed-release r i top = ground arith
