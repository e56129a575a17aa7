-- ===== src/Broker/Refs.antt =====
-- internal/broker/msg_ref.go: reference counts, batch children and the release of buffers. A
-- message reference is a number, and the store maps it to its counter; each atomic addition is one
-- step. A parent has no parent of its own, so `Release` cascades once.
pub mod Balance
use aqueduct.Base.{
  Bool, ◌∷◌, List, false, ◌==◌, ◌||◌, Option, [], if◌then◌else◌, some, ◌+◌, ◌-◌, none, ℕ,
}

pub record Refs : Type 0 where
  pub count : ℕ → ℕ
  pub parent : ℕ → Option ℕ
  -- The buffers handed back, latest first.
  pub freed : List ℕ
  -- Whether a counter was ever taken below 0.
  pub underflow : Bool
  pub next : ℕ

abbrev pub update {ℓ} : {A : Type ℓ} → (ℕ → A) → ℕ → A → ℕ → A
update f i a j = if i == j then a else f j

unfoldable pub empty_refs : Refs
empty_refs = record { count = λ i. 0; parent = λ i. none; freed = []; underflow = false; next = 0 }

-- `AcquireMessageRef`: a new reference, with counter 1 and no parent.
unfoldable pub acquire_ref : Refs → Refs × ℕ
acquire_ref r = (
  record r {
    count = update r.count r.next 1;
    parent = update r.parent r.next none;
    next = r.next + 1;
  },
  r.next,
)

unfoldable pub retain : Refs → ℕ → Refs
retain r i = record r { count = update r.count i (r.count i + 1) }

-- `AcquireChildMessageRef`: the child holds one reference to its parent.
unfoldable pub acquire_child_ref : Refs → ℕ → Refs × ℕ
unfolding retain
acquire_child_ref r p = (
  retain
      (record r {
        count = update r.count r.next 1;
        parent = update r.parent r.next (some p);
        next = r.next + 1;
      })
      p,
  r.next,
)

-- `m.ref.Add(-1)`
unfoldable pub decrement : Refs → ℕ → Refs
decrement r i = record r {
  count = update r.count i (r.count i - 1);
  underflow = r.underflow || r.count i == 0;
}

-- `Release` of a reference without a parent: the last one returns the buffer.
unfoldable pub release_top : Refs → ℕ → Refs
unfolding decrement
release_top r i =
    let d = decrement r i in if r.count i == 1 then record d { freed = i ∷ r.freed } else d

-- `Release`: the last reference to a child releases the parent.
unfoldable pub release : Refs → ℕ → Refs
unfolding release_top decrement
release r i =
    let d = decrement r i in
    elim (r.parent i) [
      | none ↦ release_top r i
      | some p ↦
          if r.count i == 1 then release_top (record d { parent = update r.parent i none }) p else d
    ]
