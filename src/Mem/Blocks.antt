-- ===== src/Mem/Blocks.antt =====
-- internal/mem/slab.go: one call of Acquire or of Release on a sound size class.
use aqueduct.Base.{
  ◌∙◌, subst, true, false, refl, ltb, inl, lt→ltb, ◌||◌, ◌/◌, [], inr, suc, arith, ◌-◌, ◌∷◌,
  Bool-cases, some, ◌==◌, if◌then◌else◌, ◌*◌, ◌≡◌, ◌≤◌, List, ◌+◌, ◌<◌, ℕ,
}
use aqueduct.Mem.{
  pop_block, no_block, arena_size, push_block, grow, SizeClass, acquire_block, release_block,
}
use aqueduct.Mem.Free.{grow-Owned, pop_block-Owned, Popped, Owned}
use aqueduct.Broker.Queue.Balance.{occurs}
use native.Mathlib.Nat.{mul-le-mul_right, mul-div_cancel}

-- The blocks of the arena that the next Acquire takes from.
abbrev pub in_use : SizeClass → List ℕ → List ℕ
in_use c used = if c.head == no_block then [] else used

abbrev pub HasSize : SizeClass → Type 0
HasSize c = (0 < c.block_size) × (c.block_size ≤ arena_size)

abbrev pub address : SizeClass → ℕ → ℕ
address c i = c.start + i * c.block_size

-- The block that the next Acquire takes: the first one of a new arena where none is free.
abbrev pub next_block : SizeClass → ℕ
next_block c = if c.head == no_block then 0 else c.head

-- What Acquire gives: a block of the arena that is in use, which nobody holds, and the class.
abbrev pub Acquired : ℕ → SizeClass → List ℕ → Type 0
Acquired start c used =
    (c' : SizeClass) × (acquire_block start c ≡ some (c', address c' (next_block c)))
    × (occurs (in_use c used) (next_block c) ≡ 0)
    × (next_block c < c'.blocks)
    × (c'.block_size ≡ c.block_size)
    × Owned c' (next_block c ∷ in_use c used)

pub acquire_block-pop :
    (start : ℕ) (c : SizeClass) → (c.head == no_block) ≡ false → acquire_block start c ≡ pop_block c
unfolding acquire_block
acquire_block-pop start c e = rw (e, acquire_block) refl

pub acquire_block-grow :
    (start : ℕ) (c : SizeClass)
    → (c.head == no_block) ≡ true
    → acquire_block start c ≡ pop_block (grow start c)
unfolding acquire_block
acquire_block-grow start c e = rw (e, acquire_block) refl

grow_fields :
    (start : ℕ) (c : SizeClass)
    → (c.head == no_block) ≡ true
    → ((grow start c).head ≡ 0) × ((grow start c).block_size ≡ c.block_size)
unfolding grow
grow_fields start c e = rw (e, grow) (refl, refl)

at_number :
    (start k : ℕ) (c g : SizeClass) (used : List ℕ)
    → acquire_block start c ≡ pop_block g
    → g.block_size ≡ c.block_size
    → g.head ≡ k
    → Popped g used
    → (c' : SizeClass) × (acquire_block start c ≡ some (c', address c' k))
      × (occurs used k ≡ 0)
      × (k < c'.blocks)
      × (c'.block_size ≡ c.block_size)
      × Owned c' (k ∷ used)
unfolding Popped
at_number start k c g used pops same e (fresh, below, popped, o) =
    subst
      (λ x.
        (c' : SizeClass) × (acquire_block start c ≡ some (c', address c' x))
        × (occurs used x ≡ 0)
        × (x < c'.blocks)
        × (c'.block_size ≡ c.block_size)
        × Owned c' (x ∷ used))
      e (record g { head = g.next g.head }, pops ∙ popped, fresh, below, same, o)

-- Acquire on a sound class always gives a block; nobody holds it, it lies in the arena, and the
-- class stays sound.
pub acquire_block-Owned :
    (start : ℕ) (c : SizeClass) (used : List ℕ) → HasSize c → Owned c used → Acquired start c used
acquire_block-Owned start c used sized o = elim (Bool-cases (c.head == no_block)) [
  | inr e ↦ rw e (
      at_number start c.head c c used (acquire_block-pop start c e) refl refl
        (pop_block-Owned c used o (λ h. absurd (ground (arith, e, h)))))
  | inl e ↦
      let empty : c.head ≡ no_block = ground (arith, e) in
      let (at_zero, same) = grow_fields start c e in
      rw e (
        at_number start 0 c (grow start c) [] (acquire_block-grow start c e) same at_zero (
          pop_block-Owned (grow start c) [] (grow-Owned start c empty sized.0 sized.1)
            (λ h. absurd (omega (arith, h, at_zero)))))
]

pub release_block-push :
    (c : SizeClass) (used : List ℕ) (i : ℕ)
    → Owned c used
    → i < c.blocks
    → release_block c (address c i) ≡ push_block c i
unfolding release_block
release_block-push c used i o below =
    let delta : address c i - c.start ≡ i * c.block_size = omega arith in
    let upper : suc i * c.block_size ≤ c.blocks * c.block_size =
      mul-le-mul_right c.block_size below in
    let split : suc i * c.block_size ≡ i * c.block_size + c.block_size = omega arith in
    let room : i * c.block_size < c.size = omega (arith, upper, split, o.covers, o.whole) in
    let index : i * c.block_size / c.block_size ≡ i = mul-div_cancel i o.whole in
    let there : (c.size == 0 || ltb (address c i) c.start) ≡ false = ground (arith, room) in
    rw (there, release_block) (rw (delta, lt→ltb (i * c.block_size) c.size room) (rw index refl))
