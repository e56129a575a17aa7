-- ===== src/Metrics/Labels.antt =====
-- internal/metrics/metrics.go, sanitize over a run of values.
use aqueduct.Base.{
  Option, refl, sym, All, Option-cases, append_assoc, subst, ◌⊎◌, arith, inr, some, inl, true, ◌||◌,
  ◌≤◌, [], false, leb, ◌≡◌, Bool, Bool-cases, length, ◌++◌, ◌∷◌, List,
}
use aqueduct.Base.Bytes.{bytes_equal_refl, Bytes, bytes_equal}
use aqueduct.Metrics.{
  LabelBounded, sanitize, admit_label, mapped, new_label_bounded, max_unique_labels, overflow_label,
}

-- The state behind a run, and the labels that it gave.
unfoldable pub sanitize_all : LabelBounded → List Bytes → LabelBounded × List Bytes
unfolding sanitize
sanitize_all b [] = (b, [])
sanitize_all b (v ∷ vs) =
    let (b1, label) = sanitize b v in let (b2, labels) = sanitize_all b1 vs in (b2, label ∷ labels)

unfoldable pub among : List Bytes → Bytes → Bool
unfolding bytes_equal
among [] a = false
among (x ∷ xs) a = bytes_equal x a || among xs a

-- The labels of a table are the admitted values, as many as it counts, or the overflow label.
record IsBounded (b : LabelBounded) (admitted : List Bytes) : Type 0 where
  counted : length admitted ≡ b.count
  capped : b.count ≤ max_unique_labels
  labels :
      (v label : Bytes)
      → mapped b.mapping v ≡ some label
      → among (overflow_label ∷ admitted) label ≡ true

-- What a call leaves, and the label that it gives.
abbrev Bounded : List Bytes → LabelBounded × Bytes → Type 0
Bounded admitted (b, label) =
    (more : List Bytes) × IsBounded b (more ++ admitted)
    × (among (overflow_label ∷ (more ++ admitted)) label ≡ true)

mapped-cases :
    (m : List (Bytes × Bytes)) (v x w label : Bytes)
    → mapped ((v, x) ∷ m) w ≡ some label
    → (x ≡ label) ⊎ (mapped m w ≡ some label)
unfolding mapped
mapped-cases m v x w label e = elim (Bool-cases (bytes_equal v w)) [
  | inl this ↦ inl (some_injective (rw this at e))
  | inr other ↦ inr (rw other at e)
]
  where
    some_injective : {a b : Bytes} → ◌≡◌ {A = Option Bytes} (some a) (some b) → a ≡ b
    some_injective h = cc h

among_head : (xs : List Bytes) (x : Bytes) → among (x ∷ xs) x ≡ true
unfolding among
among_head xs x = rw (bytes_equal_refl x) refl

among_second :
    (xs : List Bytes) (x y a : Bytes) → among (x ∷ xs) a ≡ true → among (x ∷ (y ∷ xs)) a ≡ true
unfolding among
among_second xs x y a h = ground (arith, h)

own_label : (xs : List Bytes) (x : Bytes) → among (overflow_label ∷ (x ∷ xs)) x ≡ true
unfolding among
own_label xs x = elim (Bool-cases (bytes_equal overflow_label x)) [
  | inl same ↦ rw same refl
  | inr other ↦ rw (other, bytes_equal_refl x) refl
]

admit_label-Bounded :
    (b : LabelBounded) (admitted : List Bytes) (v : Bytes)
    → IsBounded b admitted
    → Bounded admitted (admit_label b v)
unfolding admit_label
admit_label-Bounded b admitted v i = elim (Bool-cases (leb max_unique_labels b.count)) [
  | inl full ↦ rw full (
    [],
    record {
      counted = i.counted;
      capped = i.capped;
      labels = λ w label e. elim (mapped-cases b.mapping v overflow_label w label e) [
        | inl same ↦
            subst (λ x. among (overflow_label ∷ admitted) x ≡ true) same
              (among_head admitted overflow_label)
        | inr older ↦ i.labels w label older
      ];
    },
    among_head admitted overflow_label,
  )
  | inr room ↦ rw room (
    v ∷ [],
    record {
      counted = omega (arith, i.counted);
      capped = ground arith;
      labels = λ w label e. elim (mapped-cases b.mapping v v w label e) [
        | inl same ↦
            subst (λ x. among (overflow_label ∷ (v ∷ admitted)) x ≡ true) same
              (own_label admitted v)
        | inr older ↦ among_second admitted overflow_label v label (i.labels w label older)
      ];
    },
    own_label admitted v,
  )
]

sanitize-Bounded :
    (b : LabelBounded) (admitted : List Bytes) (v : Bytes)
    → IsBounded b admitted
    → Bounded admitted (sanitize b v)
unfolding sanitize
sanitize-Bounded b admitted v i = elim (Option-cases (mapped b.mapping v)) [
  | inl new ↦ rw (new, sanitize) (admit_label-Bounded b admitted v i)
  | inr (label, known) ↦ rw (known, sanitize) ([], i, i.labels v label known)
]

among-append :
    (more xs : List Bytes) (x a : Bytes)
    → among (x ∷ xs) a ≡ true
    → among (x ∷ (more ++ xs)) a ≡ true
unfolding among
among-append [] xs x a h = h
among-append (y ∷ more) xs x a h = among_second (more ++ xs) x y a (among-append more xs x a h)

-- A run from a bounded state, with what it admits.
abbrev AllAmong : List Bytes → List Bytes → Type 0
AllAmong admitted labels = All (λ l. among (overflow_label ∷ admitted) l ≡ true) labels

sanitize_all-Bounded :
    (vs : List Bytes) (b : LabelBounded) (admitted : List Bytes)
    → IsBounded b admitted
    → (more : List Bytes) × IsBounded (sanitize_all b vs).0 (more ++ admitted)
      × AllAmong (more ++ admitted) (sanitize_all b vs).1
unfolding sanitize_all
sanitize_all-Bounded [] b admitted i = ([], i, tt)
sanitize_all-Bounded (v ∷ vs) b admitted i =
    let (first, j, here) = sanitize-Bounded b admitted v i in
    let (rest, k, later) = sanitize_all-Bounded vs (sanitize b v).0 (first ++ admitted) j in
    let label = (sanitize b v).1 in
    let e = append_assoc rest first admitted in
    (
      rest ++ first,
      subst (λ x. IsBounded (sanitize_all (sanitize b v).0 vs).0 x) (sym e) k,
      subst (λ x. AllAmong x (label ∷ (sanitize_all (sanitize b v).0 vs).1)) (sym e)
          (among-append rest (first ++ admitted) overflow_label label here, later),
    )

-- Whatever values come, the labels handed out from the start are at most 4,096 different ones and
-- the overflow label.
pub sanitize_all-capped :
    (vs : List Bytes)
    → (admitted : List Bytes) × (length admitted ≤ max_unique_labels)
      × All (λ l. among (overflow_label ∷ admitted) l ≡ true) (sanitize_all new_label_bounded vs).1
unfolding new_label_bounded mapped
sanitize_all-capped vs =
    let start : IsBounded new_label_bounded [] = record {
      counted = refl;
      capped = omega arith;
      labels = λ v label e. absurd (cc e);
    } in
    let (more, i, all) = sanitize_all-Bounded vs new_label_bounded [] start in
    (more ++ [], omega (arith, i.counted, i.capped), all)
