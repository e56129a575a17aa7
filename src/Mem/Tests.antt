-- ===== src/Mem/Tests.antt =====
-- Examples of the slab allocator: the first block of the smallest class.
use aqueduct.Mem.Steps.{Step, Steps, acquires, releases_older, more, done}
use aqueduct.Base.{inl, ℕ, arith, refl, [], some, ◌∷◌, ◌≡◌}
use aqueduct.Mem.Calls.{reachable-Granted, Granted}
use aqueduct.Mem.{
  no_block, release_block, linked, pop_block, arena_size, grow, Buf, SizeClass, acquire,
  acquire_block, new_size_class,
}

abbrev first : SizeClass
first = record {
  block_size = 128;
  start = 1000;
  size = arena_size;
  blocks = 524288;
  head = 1;
  next = linked 524288;
}

got_first : acquire_block 1000 (new_size_class 128) ≡ some (first, 1000)
unfolding acquire_block new_size_class grow pop_block
got_first = refl

-- A class with blocks as large as the arena, so that every Acquire takes a new one.
abbrev blank : SizeClass
blank = new_size_class arena_size

abbrev whole : ℕ → SizeClass
whole start = record {
  block_size = arena_size;
  start = start;
  size = arena_size;
  blocks = 1;
  head = no_block;
  next = linked 1;
}

got_whole : acquire_block 1000 blank ≡ some (whole 1000, 1000)
unfolding acquire_block new_size_class grow pop_block
got_whole = refl

got_next : acquire_block 100000000 (whole 1000) ≡ some (whole 100000000, 100000000)
unfolding acquire_block grow pop_block
got_next = refl

takes_whole : Step (blank, [], []) (whole 1000, 0 ∷ [], [])
unfolding new_size_class
takes_whole =
    acquires 1000 1000 blank (whole 1000) [] [] (λ e at h. absurd (omega (arith, h))) got_whole

takes_next : Step (whole 1000, 0 ∷ [], []) (whole 100000000, 0 ∷ [], 1000 ∷ [])
takes_next =
    acquires 100000000 100000000 (whole 1000) (whole 100000000) (0 ∷ []) []
      (λ e at h. inl (ground (arith, h))) got_next

-- The block of the first arena is released after the second arena came.
abbrev released_late : SizeClass
released_late = release_block (whole 100000000) 1000

runs : Steps (blank, [], []) (released_late, 0 ∷ [], [])
runs =
    more (blank, [], []) (whole 1000, 0 ∷ [], []) (released_late, 0 ∷ [], []) takes_whole
      (more (whole 1000, 0 ∷ [], []) (whole 100000000, 0 ∷ [], 1000 ∷ [])
        (released_late, 0 ∷ [], []) takes_next
        (more (whole 100000000, 0 ∷ [], 1000 ∷ []) (released_late, 0 ∷ [], [])
          (released_late, 0 ∷ [], [])
          (releases_older (whole 100000000) 1000 (0 ∷ []) (1000 ∷ []) [] (λ a. omega arith))
          (done (released_late, 0 ∷ [], []))))

reachable-Granted_example : Granted 300000000 released_late (0 ∷ []) []
unfolding release_block
reachable-Granted_example =
    reachable-Granted arena_size 300000000 released_late (0 ∷ []) [] (omega arith) (omega arith)
      runs (λ e at h. inl (ground (arith, h)))

abbrev hundred : Buf
hundred = record { address = some 1000; len = 100; cap = 128 }

got_hundred : acquire 1000 (new_size_class 128 ∷ []) 100 ≡ some (first ∷ [], hundred)
unfolding acquire acquire_block new_size_class grow pop_block
got_hundred = refl
