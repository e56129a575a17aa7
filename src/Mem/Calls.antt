-- ===== src/Mem/Calls.antt =====
-- internal/mem/slab.go: what the next Acquire gives after any sequence of calls.
use aqueduct.Mem.Overlaps.{
  addresses, addresses-IsApart, IsApart-append, outside-IsApart, AreOutside, IsApart,
}
use aqueduct.Base.{
  refl, ◌∙◌, sym, inr, subst, inl, ◌==◌, Bool-cases, arith, ◌++◌, ◌*◌, suc, ◌+◌, some, ◌≡◌, ◌≤◌,
  ◌<◌, List, [], ◌∷◌, ℕ,
}
use aqueduct.Mem.Blocks.{acquire_block-pop, acquire_block-Owned, in_use, next_block, address}
use aqueduct.Mem.Free.{pop_block-Owned, Owned}
use aqueduct.Mem.Steps.{
  Steps, arena_kept, acquired_outside, new_size_class-IsSound, Steps-IsSound, older_after,
}
use aqueduct.Mem.{no_block, new_size_class, arena_size, acquire_block, SizeClass}
use aqueduct.Broker.Queue.Balance.{occurs}
use native.Mathlib.Nat.{mul-le-mul_right}

-- What Acquire gives where callers hold blocks of any arena: a block inside the arena that it leaves,
-- which overlaps none of them, and a class with a sound free list.
abbrev pub Granted : ℕ → SizeClass → List ℕ → List ℕ → Type 0
Granted start c used older =
    (c' : SizeClass) × (at : ℕ) × (acquire_block start c ≡ some (c', at))
    × (c'.start ≤ at)
    × (at + c.block_size ≤ c'.start + c'.size)
    × IsApart c.block_size at (addresses c used ++ older)
    × Owned c' (next_block c ∷ in_use c used)

inside_arena :
    (c c' : SizeClass) (k : ℕ) (used : List ℕ)
    → k < c'.blocks
    → c'.block_size ≡ c.block_size
    → Owned c' used
    → (c'.start ≤ address c' k) × (address c' k + c.block_size ≤ c'.start + c'.size)
inside_arena c c' k used below same o =
    let up : suc k * c'.block_size ≤ c'.blocks * c'.block_size =
      mul-le-mul_right c'.block_size below in
    let split : suc k * c'.block_size ≡ k * c'.block_size + c'.block_size = omega arith in
    (omega arith, omega (arith, up, split, same, o.covers))

-- The block that Acquire takes lies apart from the blocks of all arenas that are held.
granted-IsApart :
    (start : ℕ) (c c' : SizeClass) (used older : List ℕ)
    → acquire_block start c ≡ some (c', address c' (next_block c))
    → c'.block_size ≡ c.block_size
    → occurs (in_use c used) (next_block c) ≡ 0
    → (c'.start ≤ address c' (next_block c))
      × (address c' (next_block c) + c.block_size ≤ c'.start + c'.size)
    → AreOutside c'.start c'.size c.block_size (older_after c used older)
    → Owned c used
    → IsApart c.block_size (address c' (next_block c)) (addresses c used ++ older)
granted-IsApart start c c' used older got same free (low, high) outside o =
    let at = address c' (next_block c) in
    let apart =
      outside-IsApart c'.start c'.size c.block_size at (older_after c used older) low high
        outside in
    elim (Bool-cases (c.head == no_block)) [
      | inl none_free ↦
          let held : older_after c used older ≡ addresses c used ++ older = rw none_free refl in
          subst (IsApart c.block_size at) held apart
      | inr some_free ↦
          let held : older_after c used older ≡ older = rw some_free refl in
          let used_now : in_use c used ≡ used = rw some_free refl in
          let (starts, sizes, blocks) =
            arena_kept c c' at used
              (pop_block-Owned c used o (λ h. absurd (ground (arith, some_free, h))))
              (sym (acquire_block-pop start c some_free) ∙ got) in
          let here : address c (next_block c) ≡ at = rw (starts, same) refl in
          IsApart-append c.block_size at (addresses c used) older
            (subst (λ x. IsApart c.block_size x (addresses c used)) here
              (addresses-IsApart c (next_block c) used
                (subst (λ us. occurs us (next_block c) ≡ 0) used_now free)))
            (subst (IsApart c.block_size at) held apart)
    ]

-- After any calls of Acquire on a size class whose blocks have 1 to 67,108,864 bytes, and of Release
-- on blocks that are held, of the current arena or of an older one, each given back once: the next
-- Acquire gives a block inside the arena that it leaves, which overlaps no block that is held, of
-- whatever arena, and leaves a sound free list. Each new arena, the one that this Acquire may take
-- included, lies where no block that is still held does.
pub reachable-Granted :
    (n start : ℕ) (c : SizeClass) (used older : List ℕ)
    → 0 < n
    → n ≤ arena_size
    → Steps (new_size_class n, [], []) (c, used, older)
    → (c.head ≡ no_block → AreOutside start arena_size c.block_size (older_after c used older))
    → Granted start c used older
reachable-Granted n start c used older pos small steps fresh =
    let (o, sized, outside) = Steps-IsSound steps (new_size_class-IsSound n pos small) in
    let (c', got, free, below, same, o') = acquire_block-Owned start c used sized o in
    let at = address c' (next_block c) in
    let inside = inside_arena c c' (next_block c) (next_block c ∷ in_use c used) below same o' in
    let left = acquired_outside start at c c' used older fresh got (o, sized, outside) in
    (
      c',
      at,
      got,
      inside.0,
      inside.1,
      granted-IsApart start c c' used older got same free inside
          (subst (λ b. AreOutside c'.start c'.size b (older_after c used older)) same left) o,
      o',
    )
