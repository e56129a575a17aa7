-- ===== src/Base/Buffers.antt =====
-- Writes into recycled buffers, whose content is not known.
use aqueduct.Base.{
  length-take_le, take-append-drop, ◌≤◌, zero, set, ap₂, ap, take-length_append, ◌∙◌,
  drop-append_add, suc, length-append, lt→ltb, refl, ◌+◌, arith, drop, sym, take_all, ltb, ◌-◌, ◌∷◌,
  [], if◌then◌else◌, ◌++◌, take, ◌≡◌, length, ℕ,
}
use aqueduct.Base.Bytes.{Bytes}

-- `copy(buf[i:], src)` into a buffer that is long enough.
unfoldable pub copy_at : Bytes → ℕ → Bytes → Bytes
copy_at buf i src = take i buf ++ (take (length buf - i) src ++ drop (i + length src) buf)

-- A write of the length of the middle part replaces just that.
pub copy_at-append :
    (xs ys zs src : Bytes) (i : ℕ)
    → i ≡ length xs
    → length src ≡ length ys
    → copy_at (xs ++ (ys ++ zs)) i src ≡ xs ++ (src ++ zs)
unfolding copy_at
copy_at-append xs ys zs src i p q =
    rw (p, take-length_append) (ap (◌++◌ xs) (ap₂ (λ u v. u ++ v) front back))
  where
    front : take (length (xs ++ (ys ++ zs)) - length xs) src ≡ src
    front = take_all _ src (omega (arith, length-append xs (ys ++ zs), length-append ys zs))

    back : drop (length xs + length src) (xs ++ (ys ++ zs)) ≡ zs
    back =
        drop-append_add _ (length src) xs (ys ++ zs) refl ∙ drop-append_add _ 0 ys zs (omega arith)

pub empty_of_length : (xs : Bytes) → length xs ≡ 0 → xs ≡ []
empty_of_length [] h = refl
empty_of_length (x ∷ xs) h = absurd (omega arith)

-- The guarded write of a part, which an empty part skips.
pub write_part :
    (xs ys zs src : Bytes) (i : ℕ)
    → i ≡ length xs
    → length src ≡ length ys
    → (if ltb 0 (length src) then copy_at (xs ++ (ys ++ zs)) i src else xs ++ (ys ++ zs))
      ≡ xs ++ (src ++ zs)
write_part xs ys zs [] i p q = rw (empty_of_length ys (sym q)) refl
write_part xs ys zs (x ∷ src) i p q =
    rw (lt→ltb 0 (suc (length src)) (omega arith)) (copy_at-append xs ys zs (x ∷ src) i p q)

pub set-append :
    (xs ys : Bytes) (i k v : ℕ) → i ≡ length xs + k → set (xs ++ ys) i v ≡ xs ++ set ys k v
set-append [] ys i k v e = let e' : i ≡ k = omega arith in rw e'
set-append (x ∷ xs) ys zero k v e = absurd (omega arith)
set-append (x ∷ xs) ys (suc i) k v e = ap (◌∷◌ x) (set-append xs ys i k v (omega arith))

-- A write over the front of what stands behind a known part.
pub copy_at_over :
    (xs room src : Bytes) (i : ℕ)
    → i ≡ length xs
    → length src ≤ length room
    → copy_at (xs ++ room) i src ≡ xs ++ (src ++ drop (length src) room)
copy_at_over xs room src i p h =
    ap (λ r. copy_at (xs ++ r) i src) (sym (take-append-drop (length src) room))
    ∙ copy_at-append xs (take (length src) room) (drop (length src) room) src i p
        (sym (length-take_le (length src) room h))
