-- ===== src/Mem/Overlaps.antt =====
-- internal/mem/slab.go: blocks of one size class, in one arena and in several.
use aqueduct.Base.{
  ◌*◌, subst, suc, inr, ltb, ◌==◌, Bool-cases, arith, ◌≡◌, inl, ◌≢◌, ◌⊎◌, ◌++◌, ◌+◌, ◌<◌, ◌≤◌, List,
  [], ◌∷◌, ℕ,
}
use aqueduct.Broker.Queue.Balance.{occurs, occurs-append}
use aqueduct.Mem.{SizeClass}
use aqueduct.Mem.Blocks.{address}
use native.Mathlib.Nat.{mul-le-mul_right}

abbrev pub addresses : SizeClass → List ℕ → List ℕ
addresses c [] = []
addresses c (i ∷ is) = address c i ∷ addresses c is

-- A block of that size at `at` lies before an arena or starts behind it.
abbrev pub IsOutside : (start size block at : ℕ) → Type 0
IsOutside start size block at = (at + block ≤ start) ⊎ (start + size ≤ at)

abbrev pub AreOutside : (start size block : ℕ) → List ℕ → Type 0
AreOutside start size block held = (at : ℕ) → 0 < occurs held at → IsOutside start size block at

-- A block of that size at `at` shares no byte with the ones that are held.
abbrev pub IsApart : (block at : ℕ) → List ℕ → Type 0
IsApart block at held = (a : ℕ) → 0 < occurs held a → (a + block ≤ at) ⊎ (at + block ≤ a)

pub outside-IsApart :
    (start size block at : ℕ) (held : List ℕ)
    → start ≤ at
    → at + block ≤ start + size
    → AreOutside start size block held
    → IsApart block at held
outside-IsApart start size block at held low high outside a h = elim (outside a h) [
  | inl before ↦ inl (omega (arith, before, low))
  | inr behind ↦ inr (omega (arith, behind, high))
]

blocks_apart :
    (c : SizeClass) (i k : ℕ)
    → i ≢ k
    → (address c i + c.block_size ≤ address c k) ⊎ (address c k + c.block_size ≤ address c i)
blocks_apart c i k ne = elim (Bool-cases (ltb i k)) [
  | inl below ↦
      let up : suc i * c.block_size ≤ k * c.block_size =
        mul-le-mul_right c.block_size (ground arith) in
      let split : suc i * c.block_size ≡ i * c.block_size + c.block_size = omega arith in
      inl (omega (arith, up, split))
  | inr above ↦
      let up : suc k * c.block_size ≤ i * c.block_size =
        mul-le-mul_right c.block_size (ground (arith, ne)) in
      let split : suc k * c.block_size ≡ k * c.block_size + c.block_size = omega arith in
      inr (omega (arith, up, split))
]

-- A block that is not held lies apart from those of its arena that are.
pub addresses-IsApart :
    (c : SizeClass) (k : ℕ) (used : List ℕ)
    → occurs used k ≡ 0
    → IsApart c.block_size (address c k) (addresses c used)
addresses-IsApart c k [] free a h = absurd (omega (arith, h))
addresses-IsApart c k (i ∷ is) free a h = elim (Bool-cases (address c i == a)) [
  | inl here ↦
      let e : address c i ≡ a = ground (arith, here) in
      let other : i ≢ k = λ same. absurd (ground (arith, free, same)) in
      subst (λ x. (x + c.block_size ≤ address c k) ⊎ (address c k + c.block_size ≤ x)) e
        (blocks_apart c i k other)
  | inr there ↦ addresses-IsApart c k is (omega (arith, free)) a (ground (arith, h, there))
]

pub IsApart-append :
    (block at : ℕ) (xs ys : List ℕ)
    → IsApart block at xs
    → IsApart block at ys
    → IsApart block at (xs ++ ys)
IsApart-append block at xs ys f g a h =
    let both = occurs-append xs ys a in
    elim (Bool-cases (ltb 0 (occurs xs a))) [
      | inl left ↦ f a (ground arith)
      | inr none_left ↦ g a (ground (arith, both, h))
    ]
