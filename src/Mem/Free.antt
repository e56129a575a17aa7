-- ===== src/Mem/Free.antt =====
-- internal/mem/slab.go: no block is handed out twice.
use aqueduct.Base.{
  inl, inr, true, ◌/◌, ◌==◌, ◌⊎◌, refl, lt→ltb, subst, zero, suc, sym, ◌*◌, [], arith, some, ◌^◌,
  ◌<◌, ◌∷◌, ◌≤◌, ◌+◌, ◌≡◌, ◌≢◌, List, ℕ,
}
use native.Mathlib.Nat.{div-add-mod, div-add-mod', mod-lt, div-le_self}
use aqueduct.Mem.{arena_size, push_block, grow, linked, no_block, SizeClass, pop_block}
use aqueduct.Broker.Queue.Balance.{one_if_refl, occurs}
use aqueduct.Broker.Refs.Balance.{one_if}
use aqueduct.Broker.Refs.{update}

-- The list of free blocks that starts at a number.
abbrev pub Chain : (ℕ → ℕ) → ℕ → List ℕ → Type 0
Chain next h [] = h ≡ no_block
Chain next h (x ∷ xs) = (h ≡ x) × Chain next (next x) xs

-- `used` lists the blocks of the current arena that callers hold.
pub record Owned (c : SizeClass) (used : List ℕ) : Type 0 where
  pub free : List ℕ
  pub chain : Chain c.next c.head free
  pub apart : (j : ℕ) → occurs free j + occurs used j ≤ 1
  pub inside : (j : ℕ) → 0 < occurs free j + occurs used j → j < c.blocks
  pub few : c.blocks ≤ 2 ^ 32
  pub covers : c.blocks * c.block_size ≤ c.size
  pub whole : 0 < c.block_size

-- A link of a block outside of the chain does not matter.
Chain-update :
    (next : ℕ → ℕ) (h i v : ℕ) (xs : List ℕ)
    → occurs xs i ≡ 0
    → Chain next h xs
    → Chain (update next i v) h xs
Chain-update next h i v [] e c = c
Chain-update next h i v (x ∷ xs) e c =
    let other : update next i v x ≡ next x = ground (arith, e) in
    (c.0, rw other (Chain-update next (next x) i v xs (ground (arith, e)) c.1))

-- What the head's block gives.
unfoldable pub Popped : SizeClass → List ℕ → Type 0
Popped c used =
    (occurs used c.head ≡ 0)
    × (c.head < c.blocks)
    × (pop_block c ≡ some (record c { head = c.next c.head }, c.start + c.head * c.block_size))
    × Owned (record c { head = c.next c.head }) (c.head ∷ used)

head-Popped :
    (c : SizeClass) (used xs : List ℕ)
    → Owned c used
    → Chain c.next (c.next c.head) xs
    → ((j : ℕ) → occurs (c.head ∷ xs) j + occurs used j ≤ 1)
    → ((j : ℕ) → 0 < occurs (c.head ∷ xs) j + occurs used j → j < c.blocks)
    → Popped c used
unfolding Popped pop_block
head-Popped c used xs o rest apart inside =
    let one = one_if_refl c.head in
    let below : c.head < c.blocks = inside c.head (omega (arith, one)) in
    (
      omega (arith, apart c.head, one),
      below,
      rw (lt→ltb c.head c.blocks below, pop_block) refl,
      record {
        free = xs;
        chain = rest;
        apart = λ j. omega (arith, apart j);
        inside = λ j h. inside j (omega (arith, h));
        few = o.few;
        covers = o.covers;
        whole = o.whole;
      },
    )

Chain-Popped :
    (c : SizeClass) (used xs : List ℕ)
    → Owned c used
    → c.head ≢ no_block
    → Chain c.next c.head xs
    → ((j : ℕ) → occurs xs j + occurs used j ≤ 1)
    → ((j : ℕ) → 0 < occurs xs j + occurs used j → j < c.blocks)
    → Popped c used
Chain-Popped c used [] o some_free e apart inside = absurd (some_free e)
Chain-Popped c used (x ∷ xs) o some_free e apart inside =
    let same = sym e.0 in
    head-Popped c used xs o (subst (λ y. Chain c.next (c.next y) xs) same e.1)
      (subst (λ y. (j : ℕ) → occurs (y ∷ xs) j + occurs used j ≤ 1) same apart)
      (subst (λ y. (j : ℕ) → 0 < occurs (y ∷ xs) j + occurs used j → j < c.blocks) same inside)

pub pop_block-Owned :
    (c : SizeClass) (used : List ℕ) → Owned c used → c.head ≢ no_block → Popped c used
pop_block-Owned c used o some_free = Chain-Popped c used o.free o some_free o.chain o.apart o.inside

-- A block that a caller holds goes back to the front of the list.
pub push_block-Owned :
    (c : SizeClass) (i : ℕ) (used left : List ℕ)
    → Owned c used
    → ((j : ℕ) → occurs left j + one_if i j ≡ occurs used j)
    → Owned (push_block c i) left
push_block-Owned c i used left o e =
    let one = one_if_refl i in
    let held : 0 < occurs used i = omega (arith, e i, one) in
    let below : i < c.blocks = o.inside i (omega (arith, held)) in
    let away : occurs o.free i ≡ 0 = omega (arith, o.apart i, held) in
    let linked_back : update c.next i c.head i ≡ c.head = ground arith in
    rw (lt→ltb i c.blocks below) (record {
      free = i ∷ o.free;
      chain = (refl, rw linked_back (Chain-update c.next c.head i c.head o.free away o.chain));
      apart = λ j. omega (arith, o.apart j, e j);
      inside = λ j h. o.inside j (omega (arith, h, e j));
      few = o.few;
      covers = o.covers;
      whole = o.whole;
    })

-- The blocks from a number on.
abbrev upto : ℕ → ℕ → List ℕ
upto zero i = []
upto (suc n) i = i ∷ upto n (i + 1)

occurs-upto :
    (n i j : ℕ) → (occurs (upto n i) j ≤ 1) × (0 < occurs (upto n i) j → (i ≤ j) × (j < i + n))
occurs-upto zero i j = (omega arith, λ h. absurd (omega (arith, h)))
occurs-upto (suc n) i j = let rest = occurs-upto n (i + 1) j in ground (arith, rest.0, rest.1)

Chain-upto : (blocks n i : ℕ) → 0 < n → i + n ≡ blocks → Chain (linked blocks) i (upto n i)
Chain-upto blocks zero i h e = absurd (omega arith)
Chain-upto blocks (suc zero) i h e = (refl, ground (arith, e))
Chain-upto blocks (suc (suc n)) i h e =
    let step : linked blocks i ≡ i + 1 = ground (arith, e) in
    (refl, rw step (Chain-upto blocks (suc n) (i + 1) (omega arith) (omega (arith, e))))

zero_or : (n : ℕ) → (n ≡ 0) ⊎ (0 < n)
zero_or zero = inl refl
zero_or (suc n) = inr (omega arith)

one_block : (a k : ℕ) → 0 < k → k ≤ a → 0 < a / k
one_block a k pos small = elim (zero_or (a / k)) [
  | inr h ↦ h
  | inl e ↦
      let whole = div-add-mod a k in
      let nothing : k * (a / k) ≡ 0 = rw e (omega arith) in
      absurd (omega (arith, whole, nothing, mod-lt a pos, small))
]

-- A new arena: all of its blocks are free, and none of the old one's is in it.
pub grow-Owned :
    (start : ℕ) (c : SizeClass)
    → c.head ≡ no_block
    → 0 < c.block_size
    → c.block_size ≤ arena_size
    → Owned (grow start c) []
unfolding grow
grow-Owned start c e pos small =
    let empty : (c.head == no_block) ≡ true = ground (arith, e) in
    let q = arena_size / c.block_size in
    let some_block : 0 < q = one_block arena_size c.block_size pos small in
    let less : q ≤ arena_size = div-le_self arena_size c.block_size in
    rw (empty, grow)
      (record {
        free = upto q 0;
        chain = Chain-upto q q 0 some_block (omega arith);
        apart = λ j. omega (arith, (occurs-upto q 0 j).0);
        inside = λ j h. omega (arith, (occurs-upto q 0 j).1 (omega (arith, h)));
        few = omega (arith, less);
        covers = omega (arith, div-add-mod' arena_size c.block_size);
        whole = pos;
      })
