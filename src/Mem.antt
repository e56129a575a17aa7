-- ===== src/Mem.antt =====
-- internal/mem/slab.go: the size classes of the slab allocator and their free lists. Addresses are
-- numbers, and `start` is where the run time puts a new arena; each call runs to its end before the
-- next one starts.
pub mod Free
pub mod Blocks
pub mod Overlaps
pub mod Steps
pub mod Calls
pub mod Sizes
mod Tests
use aqueduct.Base.{
  leb, ◌+◌, ◌/◌, ◌||◌, ltb, none, not, ◌-◌, ◌==◌, [], if◌then◌else◌, some, ◌*◌, ◌^◌, List, Option,
  ℕ, ◌∷◌, ok,
}
use aqueduct.Broker.Refs.{update}

-- math.MaxUint64
abbrev pub no_block : ℕ
no_block = 2 ^ 64 - 1

abbrev pub arena_size : ℕ
arena_size = 64 * 1024 * 1024

-- `size` is the arena's length, 0 without one; `next` holds the number behind each block's.
pub record SizeClass : Type 0 where
  pub block_size : ℕ
  pub start : ℕ
  pub size : ℕ
  pub blocks : ℕ
  pub head : ℕ
  pub next : ℕ → ℕ

unfoldable pub new_size_class : ℕ → SizeClass
new_size_class block_size = record {
  block_size = block_size;
  start = 0;
  size = 0;
  blocks = 0;
  head = no_block;
  next = λ i. no_block;
}

abbrev pub linked : ℕ → ℕ → ℕ
linked blocks i = if ltb (i + 1) blocks then i + 1 else no_block

unfoldable pub grow : ℕ → SizeClass → SizeClass
grow start c =
    if not (c.head == no_block)
    then c
    else (let blocks = arena_size / c.block_size in
        record c {
          start = start;
          size = arena_size;
          blocks = blocks;
          head = 0;
          next = linked blocks;
        })

-- The block at the head, by its address; `none` is ErrOutOfMemory.
unfoldable pub pop_block : SizeClass → Option (SizeClass × ℕ)
pop_block c =
    if ltb c.head c.blocks
    then some (record c { head = c.next c.head }, c.start + c.head * c.block_size)
    else none

unfoldable pub acquire_block : ℕ → SizeClass → Option (SizeClass × ℕ)
unfolding grow pop_block
acquire_block start c = if c.head == no_block then pop_block (grow start c) else pop_block c

abbrev pub push_block : SizeClass → ℕ → SizeClass
push_block c i = if ltb i c.blocks then record c { next = update c.next i c.head; head = i } else c

-- A buffer that starts outside of the arena is left to the garbage collector.
unfoldable pub release_block : SizeClass → ℕ → SizeClass
release_block c at =
    if c.size == 0 || ltb at c.start
    then c
    else (let delta = at - c.start in
        if ltb delta c.size then push_block c (delta / c.block_size) else c)

-- The classes in the order of their sizes.
abbrev pub Slab : Type 0
Slab = List SizeClass

unfoldable pub new_slab : Slab
unfolding new_size_class
new_slab =
    new_size_class 128
    ∷ new_size_class 256
    ∷ new_size_class 512
    ∷ new_size_class 2048
    ∷ new_size_class 8192
    ∷ new_size_class 32768
    ∷ []

-- A buffer: its address where it is a block, its length and its capacity.
pub record Buf : Type 0 where
  pub address : Option ℕ
  pub len : ℕ
  pub cap : ℕ

abbrev pub taken : SizeClass → Slab → ℕ → Option (SizeClass × ℕ) → Option (Slab × Buf)
taken c cs size none = none
taken c cs size (some (c', at)) =
    some (c' ∷ cs, record { address = some at; len = size; cap = c.block_size })

abbrev pub behind : SizeClass → Option (Slab × Buf) → Option (Slab × Buf)
behind c none = none
behind c (some (cs, buf)) = some (c ∷ cs, buf)

-- The first class that is large enough; what is too large for all comes from the heap.
unfoldable pub acquire : ℕ → Slab → ℕ → Option (Slab × Buf)
unfolding acquire_block
acquire start [] size = some ([], record { address = none; len = size; cap = size })
acquire start (c ∷ cs) size =
    let rest = acquire start cs size in
    if leb size c.block_size then taken c cs size (acquire_block start c) else behind c rest

-- The class is found by the capacity.
unfoldable pub release_buf : Slab → ℕ → ℕ → Slab
unfolding release_block
release_buf [] at cap = []
release_buf (c ∷ cs) at cap =
    let rest = release_buf cs at cap in
    if cap == c.block_size then release_block c at ∷ cs else c ∷ rest
