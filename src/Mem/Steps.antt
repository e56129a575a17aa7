-- ===== src/Mem/Steps.antt =====
-- internal/mem/slab.go: a size class under any sequence of calls. The run time gives a new arena
-- where no buffer that is still held lies.
use aqueduct.Mem.Overlaps.{addresses, AreOutside, IsOutside}
use aqueduct.Mem.{
  grow, new_size_class, acquire_block, arena_size, no_block, SizeClass, pop_block, release_block,
}
use aqueduct.Mem.Blocks.{
  address, acquire_block-grow, acquire_block-pop, acquire_block-Owned, in_use, next_block,
  release_block-push, HasSize,
}
use aqueduct.Mem.Free.{grow-Owned, Popped, pop_block-Owned, push_block-Owned, Owned}
use aqueduct.Base.{
  subst, true, ◌∙◌, refl, false, lt→ltb, sym, ◌-◌, ap, inr, inl, arith, ltb, ◌++◌, ◌||◌, Bool-cases,
  Option, some, ◌==◌, if◌then◌else◌, ◌≡◌, ◌≤◌, ◌+◌, ◌<◌, List, [], ◌∷◌, ℕ,
}
use aqueduct.Broker.Queue.Balance.{one_if_refl, occurs}
use aqueduct.Broker.Refs.Balance.{one_if}

-- A class, the blocks of its arena that callers hold, and the addresses of those that they hold from
-- the arenas before it.
abbrev pub State : Type 0
State = SizeClass × List ℕ × List ℕ

-- What callers hold from older arenas once Acquire is done, which takes a new one where none is free.
abbrev pub older_after : SizeClass → List ℕ → List ℕ → List ℕ
older_after c used older = if c.head == no_block then addresses c used ++ older else older

pub data Step : State → State → Type 0 where
  acquires :
      (start at : ℕ) (c c' : SizeClass) (used older : List ℕ)
      → (c.head ≡ no_block → AreOutside start arena_size c.block_size (older_after c used older))
      → acquire_block start c ≡ some (c', at)
      → Step (c, used, older) (c', next_block c ∷ in_use c used, older_after c used older)
  releases :
      (c : SizeClass) (i : ℕ) (used rest older : List ℕ)
      → ((j : ℕ) → occurs rest j + one_if i j ≡ occurs used j)
      → Step (c, used, older) (release_block c (address c i), rest, older)
  releases_older :
      (c : SizeClass) (at : ℕ) (used older rest : List ℕ)
      → ((a : ℕ) → occurs rest a + one_if at a ≡ occurs older a)
      → Step (c, used, older) (release_block c at, used, rest)

pub data Steps : State → State → Type 0 where
  done : (s : State) → Steps s s
  more : (s t u : State) → Step s t → Steps t u → Steps s u

abbrev pub IsSound : State → Type 0
IsSound (c, used, older) = Owned c used × HasSize c × AreOutside c.start c.size c.block_size older

released :
    (c : SizeClass) (i : ℕ) (used rest older : List ℕ)
    → ((j : ℕ) → occurs rest j + one_if i j ≡ occurs used j)
    → IsSound (c, used, older)
    → IsSound (release_block c (address c i), rest, older)
released c i used rest older e (o, sized, outside) =
    let below : i < c.blocks = o.inside i (omega (arith, e i, one_if_refl i)) in
    rw (release_block-push c used i o below) (
      push_block-Owned c i used rest o e,
      rw (lt→ltb i c.blocks below) sized,
      rw (lt→ltb i c.blocks below) outside,
    )

-- A buffer outside of the arena is not put into its list.
release_block-outside :
    (c : SizeClass) (at : ℕ)
    → 0 < c.block_size
    → IsOutside c.start c.size c.block_size at
    → release_block c at ≡ c
unfolding release_block
release_block-outside c at pos outside = elim (Bool-cases (c.size == 0 || ltb at c.start)) [
  | inl before ↦ rw before refl
  | inr behind ↦ let far : ltb (at - c.start) c.size ≡ false = ground arith in rw (behind, far) refl
]

released_older :
    (c : SizeClass) (at : ℕ) (used older rest : List ℕ)
    → ((a : ℕ) → occurs rest a + one_if at a ≡ occurs older a)
    → IsSound (c, used, older)
    → IsSound (release_block c at, used, rest)
released_older c at used older rest e (o, sized, outside) =
    let held : 0 < occurs older at = omega (arith, e at, one_if_refl at) in
    rw (release_block-outside c at sized.0 (outside at held))
      (o, sized, λ a h. outside a (omega (arith, h, e a)))

same_class :
    {c c' : SizeClass} {at at' : ℕ}
    → ◌≡◌ {A = Option (SizeClass × ℕ)} (some (c, at)) (some (c', at'))
    → c ≡ c'
same_class e = cc e

pub arena_kept :
    (g c' : SizeClass) (at : ℕ) (used : List ℕ)
    → Popped g used
    → pop_block g ≡ some (c', at)
    → (c'.start ≡ g.start) × (c'.size ≡ g.size) × (c'.block_size ≡ g.block_size)
unfolding Popped
arena_kept g c' at used (fresh, below, popped, o) e =
    let same = same_class (sym e ∙ popped) in
    (ap (λ x. x.start) same, ap (λ x. x.size) same, ap (λ x. x.block_size) same)

-- The arena that Acquire leaves: the one from before, or the new one.
left_outside :
    (c' : SizeClass) (start size block : ℕ) (held : List ℕ)
    → (c'.start ≡ start) × (c'.size ≡ size) × (c'.block_size ≡ block)
    → AreOutside start size block held
    → AreOutside c'.start c'.size c'.block_size held
left_outside c' start size block held (e, f, g) h = rw (e, f, g) h

grow_arena :
    (start : ℕ) (c : SizeClass)
    → (c.head == no_block) ≡ true
    → ((grow start c).start ≡ start)
      × ((grow start c).size ≡ arena_size)
      × ((grow start c).block_size ≡ c.block_size)
      × ((grow start c).head ≡ 0)
unfolding grow
grow_arena start c e = rw (e, grow) (refl, refl, refl, refl)

pub acquired_outside :
    (start at : ℕ) (c c' : SizeClass) (used older : List ℕ)
    → (c.head ≡ no_block → AreOutside start arena_size c.block_size (older_after c used older))
    → acquire_block start c ≡ some (c', at)
    → IsSound (c, used, older)
    → AreOutside c'.start c'.size c'.block_size (older_after c used older)
acquired_outside start at c c' used older fresh e (o, sized, outside) =
    elim (Bool-cases (c.head == no_block)) [
      | inr some_free ↦ rw some_free (
          left_outside c' c.start c.size c.block_size older
            (arena_kept c c' at used
              (pop_block-Owned c used o (λ h. absurd (ground (arith, some_free, h))))
              (sym (acquire_block-pop start c some_free) ∙ e))
            outside)
      | inl none_free ↦
          let empty : c.head ≡ no_block = ground (arith, none_free) in
          let (e1, e2, e3, at_zero) = grow_arena start c none_free in
          let (f1, f2, f3) =
            arena_kept (grow start c) c' at []
              (pop_block-Owned (grow start c) [] (grow-Owned start c empty sized.0 sized.1)
                (λ h. absurd (omega (arith, h, at_zero))))
              (sym (acquire_block-grow start c none_free) ∙ e) in
          left_outside c' start arena_size c.block_size (older_after c used older)
            (f1 ∙ e1, f2 ∙ e2, f3 ∙ e3) (fresh empty)
    ]

acquired :
    (start at : ℕ) (c c' : SizeClass) (used older : List ℕ)
    → (c.head ≡ no_block → AreOutside start arena_size c.block_size (older_after c used older))
    → acquire_block start c ≡ some (c', at)
    → IsSound (c, used, older)
    → IsSound (c', next_block c ∷ in_use c used, older_after c used older)
acquired start at c c' used older fresh e h =
    let (o, sized, outside) = h in
    let (d, got, free, below, same, o') = acquire_block-Owned start c used sized o in
    let (owned, sized') =
      subst (λ x. Owned x (next_block c ∷ in_use c used) × HasSize x) (same_class (sym got ∙ e))
        (o', rw same sized) in
    (owned, sized', acquired_outside start at c c' used older fresh e h)

Step-IsSound : {s t : State} → Step s t → IsSound s → IsSound t
Step-IsSound (acquires start at c c' used older fresh e) h =
    acquired start at c c' used older fresh e h
Step-IsSound (releases c i used rest older e) h = released c i used rest older e h
Step-IsSound (releases_older c at used older rest e) h = released_older c at used older rest e h

pub Steps-IsSound : {s t : State} → Steps s t → IsSound s → IsSound t
Steps-IsSound (done s) h = h
Steps-IsSound (more s t u one rest) h = Steps-IsSound rest (Step-IsSound one h)

pub new_size_class-IsSound : (n : ℕ) → 0 < n → n ≤ arena_size → IsSound (new_size_class n, [], [])
unfolding new_size_class
new_size_class-IsSound n pos small = (
  record {
    free = [];
    chain = refl;
    apart = λ j. omega arith;
    inside = λ j h. absurd (omega (arith, h));
    few = omega arith;
    covers = omega arith;
    whole = pos;
  },
  (pos, small),
  λ at h. absurd (omega (arith, h)),
)
