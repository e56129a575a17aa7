-- ===== src/Base/Bytes.antt =====
-- Byte slices as lists of numbers: checked reads, and the little-endian codec of encoding/binary.
use aqueduct.Base.{
  ◌==◌, false, Bool, true, ℕ, zero, suc, ◌+◌, ◌-◌, ◌*◌, ◌/◌, ◌%◌, ◌^◌, ◌≤◌, ◌<◌, ◌≡◌, refl, ap, ◌∙◌,
  ◌&&◌, List, [], ◌∷◌, ◌++◌, arith, leb, le→leb, if◌then◌else◌, length, take, drop, get_or,
  take-length_append, drop-length_append, length-append, All, Outcome, ok, fault, ◌>>=◌,
}
use native.Mathlib.Nat.{zero-add}

abbrev pub Bytes : Type 0
Bytes = List ℕ

abbrev pub IsByte : ℕ → Type 0
IsByte b = b < 256

-- `buf[i]`; it faults from the length on.
abbrev pub at : {E : Type 0} → Bytes → ℕ → Outcome E ℕ
at [] i = fault
at (x ∷ xs) zero = ok x
at (x ∷ xs) (suc i) = at xs i

-- `buf[lo:hi]` of a slice whose capacity is its length, and `unsafe.Slice(&buf[lo], hi-lo)`.
unfoldable pub slice : {E : Type 0} → Bytes → ℕ → ℕ → Outcome E Bytes
slice xs lo hi = if leb lo hi && leb hi (length xs) then ok (take (hi - lo) (drop lo xs)) else fault

pub at-get_or :
    {E : Type 0} (xs : Bytes) (i : ℕ) → i < length xs → at {E = E} xs i ≡ ok (get_or xs i 0)
at-get_or [] i h = elim h [ ]
at-get_or (x ∷ xs) zero h = refl
at-get_or (x ∷ xs) (suc i) h = at-get_or xs i (omega arith)

pub slice_ok :
    {E : Type 0} (xs : Bytes) (lo hi : ℕ)
    → lo ≤ hi
    → hi ≤ length xs
    → slice {E = E} xs lo hi ≡ ok (take (hi - lo) (drop lo xs))
unfolding slice
slice_ok xs lo hi p q = rw (le→leb lo hi p, le→leb hi (length xs) q)

-- Reads at a position behind a known front.
pub at-append :
    {E : Type 0} (xs ys : Bytes) (k i : ℕ) → i ≡ length xs + k → at {E = E} (xs ++ ys) i ≡ at ys k
at-append [] ys k i e = rw e (rw zero-add refl)
at-append (x ∷ xs) ys k zero e = absurd (omega arith)
at-append (x ∷ xs) ys k (suc i) e = at-append xs ys k i (omega arith)

pub slice-append :
    {E : Type 0} (xs ys zs : Bytes) (lo hi : ℕ)
    → lo ≡ length xs
    → hi ≡ length xs + length ys
    → slice {E = E} (xs ++ (ys ++ zs)) lo hi ≡ ok ys
slice-append xs ys zs lo hi p q =
    slice_ok (xs ++ (ys ++ zs)) lo hi (omega arith)
      (omega (arith, length-append xs (ys ++ zs), length-append ys zs))
    ∙ ap ok cut
  where
    cut : take (hi - lo) (drop lo (xs ++ (ys ++ zs))) ≡ ys
    cut =
        let n : hi - lo ≡ length ys = omega arith in
        rw (n, p, drop-length_append, take-length_append)

-- binary.LittleEndian on two, four and eight bytes.
unfoldable pub le16 : ℕ → ℕ → ℕ
le16 a b = a + 256 * b

unfoldable pub le32 : ℕ → ℕ → ℕ → ℕ → ℕ
le32 a b c d = a + 256 * b + 65536 * c + 16777216 * d

unfoldable pub put_le16 : ℕ → Bytes
put_le16 v = v % 256 ∷ v / 256 % 256 ∷ []

unfoldable pub put_le32 : ℕ → Bytes
put_le32 v = v % 256 ∷ v / 256 % 256 ∷ v / 65536 % 256 ∷ v / 16777216 % 256 ∷ []

-- `Uint16(buf[i:i+2])` and `Uint32(buf[i:i+4])`.
unfoldable pub le16_at : {E : Type 0} → Bytes → ℕ → Outcome E ℕ
le16_at buf i = do a ← at buf i; b ← at buf (i + 1); ok (le16 a b)

unfoldable pub le32_at : {E : Type 0} → Bytes → ℕ → Outcome E ℕ
le32_at buf i = do
  a ← at buf i
  b ← at buf (i + 1)
  c ← at buf (i + 2)
  d ← at buf (i + 3)
  ok (le32 a b c d)

-- A read after a write.
pub le16-put : (v : ℕ) → v < 65536 → le16 (v % 256) (v / 256 % 256) ≡ v
unfolding le16
le16-put v h = omega arith

pub le32-put :
    (v : ℕ) → v < 2 ^ 32 → le32 (v % 256) (v / 256 % 256) (v / 65536 % 256) (v / 16777216 % 256) ≡ v
unfolding le32
le32-put v h = omega arith

-- A write after a read.
pub put-le16 : (a b : ℕ) → IsByte a → IsByte b → put_le16 (le16 a b) ≡ a ∷ b ∷ []
unfolding le16 put_le16
put-le16 a b p q = ground arith

pub put-le32 :
    (a b c d : ℕ)
    → IsByte a
    → IsByte b
    → IsByte c
    → IsByte d
    → put_le32 (le32 a b c d) ≡ a ∷ b ∷ c ∷ d ∷ []
unfolding le32 put_le32
put-le32 a b c d p q r s = ground arith

pub le32_lt : (a b c d : ℕ) → IsByte a → IsByte b → IsByte c → IsByte d → le32 a b c d < 2 ^ 32
unfolding le32
le32_lt a b c d p q r s = omega arith

pub put_le16-IsByte : (v : ℕ) → All IsByte (put_le16 v)
unfolding put_le16
put_le16-IsByte v = omega arith

pub put_le32-IsByte : (v : ℕ) → All IsByte (put_le32 v)
unfolding put_le32
put_le32-IsByte v = omega arith

-- In range a read gives the number that stands there.
abbrev pub le32_or : Bytes → ℕ → ℕ
le32_or xs i =
    le32 (get_or xs i 0) (get_or xs (i + 1) 0) (get_or xs (i + 2) 0) (get_or xs (i + 3) 0)

get_or_front : (x y : Bytes) (i : ℕ) → i < length x → get_or (x ++ y) i 0 ≡ get_or x i 0
get_or_front [] y i h = absurd (omega arith)
get_or_front (c ∷ x) y zero h = refl
get_or_front (c ∷ x) y (suc i) h = get_or_front x y i (omega arith)

pub le32_or-front : (x y : Bytes) (i : ℕ) → i + 4 ≤ length x → le32_or (x ++ y) i ≡ le32_or x i
le32_or-front x y i h =
    rw
      (
        get_or_front x y i (omega arith),
        get_or_front x y (i + 1) (omega arith),
        get_or_front x y (i + 2) (omega arith),
        get_or_front x y (i + 3) (omega arith),
      )
      refl

pub le32_at-le32_or :
    {E : Type 0} (xs : Bytes) (i : ℕ) → i + 4 ≤ length xs → le32_at {E = E} xs i ≡ ok (le32_or xs i)
unfolding le32_at
le32_at-le32_or {E} xs i h =
    rw
      (
        at-get_or {E = E} xs i (omega arith),
        at-get_or {E = E} xs (i + 1) (omega arith),
        at-get_or {E = E} xs (i + 2) (omega arith),
        at-get_or {E = E} xs (i + 3) (omega arith),
      )
      refl

-- `bytes.Equal`
unfoldable pub bytes_equal : Bytes → Bytes → Bool
bytes_equal [] [] = true
bytes_equal [] (y ∷ ys) = false
bytes_equal (x ∷ xs) [] = false
bytes_equal (x ∷ xs) (y ∷ ys) = x == y && bytes_equal xs ys

pub bytes_equal→eq : (xs ys : Bytes) → bytes_equal xs ys ≡ true → xs ≡ ys
unfolding bytes_equal
bytes_equal→eq [] [] h = refl
bytes_equal→eq [] (y ∷ ys) h = cc
bytes_equal→eq (x ∷ xs) [] h = cc
bytes_equal→eq (x ∷ xs) (y ∷ ys) h = ground (arith, bytes_equal→eq xs ys)

pub bytes_equal_refl : (xs : Bytes) → bytes_equal xs xs ≡ true
unfolding bytes_equal
bytes_equal_refl [] = refl
bytes_equal_refl (x ∷ xs) = ground (arith, bytes_equal_refl xs)
