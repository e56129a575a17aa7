-- ===== src/Mem/Sizes.antt =====
-- internal/mem/slab.go, SlabAllocator: which class a size goes to.
use aqueduct.Base.{
  [], inr, ◌∙◌, sym, leb→le, inl, leb, Bool-cases, ◌∷◌, arith, refl, none, subst, some, ◌≡◌, ◌≤◌,
  Option, ℕ,
}
use aqueduct.Mem.{acquire_block, taken, behind, Buf, Slab, SizeClass, acquire}

taken-cap :
    (c : SizeClass) (cs : Slab) (size : ℕ) (o : Option (SizeClass × ℕ)) (cs' : Slab) (buf : Buf)
    → size ≤ c.block_size
    → taken c cs size o ≡ some (cs', buf)
    → (buf.len ≡ size) × (size ≤ buf.cap)
taken-cap c cs size none cs' buf h e = absurd (cc (e))
taken-cap c cs size (some (c', at)) cs' buf h e =
    let same : record { address = some at; len = size; cap = c.block_size } ≡ buf = cc e in
    subst (λ (x : Buf). (x.len ≡ size) × (size ≤ x.cap)) same (refl, h)

behind-some :
    (c : SizeClass) (o : Option (Slab × Buf)) (cs' : Slab) (buf : Buf)
    → behind c o ≡ some (cs', buf)
    → (cs : Slab) × (o ≡ some (cs, buf))
behind-some c none cs' buf e = absurd (cc (e))
behind-some c (some (cs, b)) cs' buf e = let same : b ≡ buf = cc e in (cs, rw same refl)

-- What the allocator hands out has the length that was asked for and room for it.
pub acquire-cap :
    (start : ℕ) (slab : Slab) (size : ℕ) (slab' : Slab) (buf : Buf)
    → acquire start slab size ≡ some (slab', buf)
    → (buf.len ≡ size) × (size ≤ buf.cap)
unfolding acquire
acquire-cap start [] size slab' buf e =
    let same : record { address = none; len = size; cap = size } ≡ buf = cc e in
    subst (λ (x : Buf). (x.len ≡ size) × (size ≤ x.cap)) same (refl, omega arith)
acquire-cap start (c ∷ cs) size slab' buf e = elim (Bool-cases (leb size c.block_size)) [
  | inl fits ↦
      taken-cap c cs size (acquire_block start c) slab' buf (leb→le size c.block_size fits)
        (sym (rw (fits, acquire) refl) ∙ e)
  | inr large ↦
      let (cs', rest) =
        behind-some c (acquire start cs size) slab' buf (sym (rw (large, acquire) refl) ∙ e) in
      acquire-cap start cs size cs' buf rest
]
