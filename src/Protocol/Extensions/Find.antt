-- ===== src/Protocol/Extensions/Find.antt =====
-- internal/protocol/extensions.go: `FindExtension` against the entries of a block.
use aqueduct.Base.Bytes.{
  le16, le16_at, slice_ok, at-get_or, put_le16, slice-append, at-append, slice, Bytes,
}
use aqueduct.Protocol.Extensions.{ext_total_len, find_extension, find_round, Total, find_loop}
use aqueduct.Protocol.Extensions.Entries.{
  length-block_of, ext_total_len-block_of, block_of, entry_bytes, entries_bytes, first_value, Entry,
}
use aqueduct.Base.{
  get_or, fault, refl, ◌≢◌, none, ◌-◌, zero, ◌∙◌, append_assoc, sym, ap, lt→ltb, length-append,
  le→ltb, [], some, suc, arith, ◌==◌, ◌∷◌, if◌then◌else◌, ok, ◌<◌, ◌++◌, ◌≤◌, ◌+◌, List, Option,
  length, ◌≡◌, ℕ,
}

-- The value of an entry behind a known front.
pub entry_slice :
    {E : Type 0} (front : Bytes) (e : Entry) (rest : Bytes) (i : ℕ)
    → i ≡ length front
    → slice {E = E} (front ++ (entry_bytes e ++ rest)) (i + 2) (i + 2 + length e.value) ≡ ok e.value
entry_slice {E} front e rest i p =
    ap (λ b. slice {E = E} b (i + 2) (i + 2 + length e.value))
      (sym (append_assoc front (e.typ ∷ length e.value ∷ []) (e.value ++ rest)))
    ∙ slice-append (front ++ (e.typ ∷ length e.value ∷ [])) e.value rest (i + 2)
        (i + 2 + length e.value) (omega (arith, grown)) (omega (arith, grown))
  where
    grown : length (front ++ (e.typ ∷ length e.value ∷ [])) ≡ length front + 2
    grown = length-append front (e.typ ∷ length e.value ∷ [])

module _ (typ : ℕ) where
  -- One round on an entry behind a known front.
  find_round-entry :
      (front : Bytes) (e : Entry) (rest : Bytes) (end i : ℕ) (continue : ℕ → Total (Option Bytes))
      → i ≡ length front
      → i + 2 + length e.value ≤ end
      → find_round (front ++ (entry_bytes e ++ rest)) typ end i continue ≡ (
          if length e.value == 0
          then continue (i + 2)
          else (if e.typ == typ then ok (some e.value) else continue (i + 2 + length e.value)))
  find_round-entry front e rest end i continue p q = ground (
    arith,
    at-append {E = ⊥} front (entry_bytes e ++ rest) 0 i,
    at-append {E = ⊥} front (entry_bytes e ++ rest) 1 (i + 1),
    entry_slice {E = ⊥} front e rest i p,
  )

  find_loop-first_value :
      (fuel : ℕ) (front : Bytes) (es : List Entry) (more : Bytes) (end i : ℕ)
      → i ≡ length front
      → end ≡ i + length (entries_bytes es)
      → length (entries_bytes es) < fuel
      → find_loop fuel (front ++ (entries_bytes es ++ more)) typ end i ≡ ok (first_value es typ)
  unfolding find_loop first_value
  find_loop-first_value zero front es more end i p q f = absurd (omega arith)
  find_loop-first_value (suc fuel) front [] more end i p q f =
      rw (le→ltb i end (omega arith), find_loop)
  find_loop-first_value (suc fuel) front (e ∷ es) more end i p q f =
      let rest = entries_bytes es ++ more in
      let grown : length (entry_bytes e ++ entries_bytes es)
          ≡ 2 + length e.value + length (entries_bytes es) =
        omega (arith, length-append (entry_bytes e) (entries_bytes es)) in
      let next = λ (j : ℕ) (h : j ≡ i + 2 + length e.value).
        rw (append_assoc front (entry_bytes e) rest) at (
          find_loop-first_value fuel (front ++ entry_bytes e) es more end j
            (omega (arith, length-append front (entry_bytes e))) (omega arith) (omega arith)) in
      rw
        (
          lt→ltb i end (omega arith),
          find_loop,
          append_assoc (entry_bytes e) (entries_bytes es) more,
        )
        (find_round-entry front e rest end i
            (find_loop fuel (front ++ (entry_bytes e ++ rest)) typ end) p (omega arith)
          ∙ ground (arith, next (i + 2), next (i + 2 + length e.value)))

  first_value_empty : (es : List Entry) → length (entries_bytes es) ≡ 0 → first_value es typ ≡ none
  unfolding first_value
  first_value_empty [] h = refl
  first_value_empty (e ∷ es) h = absurd (omega arith)

  -- FindExtension returns the value of the block's first entry of the type that has one. Bytes
  -- behind the declared length play no part.
  pub find_extension-first_value :
      (es : List Entry) (more : Bytes)
      → length (entries_bytes es) < 65536
      → find_extension (block_of (entries_bytes es) ++ more) typ ≡ ok (first_value es typ)
  unfolding find_extension
  find_extension-first_value es more h =
      let n = length (entries_bytes es) in
      ground (
        arith,
        ext_total_len-block_of {E = ⊥} (entries_bytes es) more h,
        length-append (block_of (entries_bytes es)) more,
        length-block_of (entries_bytes es),
        first_value_empty es,
        scan,
      )
    where
      scan :
          find_loop
            (length (entries_bytes es) + 1)
            (block_of (entries_bytes es) ++ more)
            typ
            (2 + length (entries_bytes es))
            2
          ≡ ok (first_value es typ)
      scan = rw (append_assoc (put_le16 (length (entries_bytes es))) (entries_bytes es) more) (
          find_loop-first_value (length (entries_bytes es) + 1)
            (put_le16 (length (entries_bytes es))) es more (2 + length (entries_bytes es)) 2
            (unfold put_le16 in refl) (omega arith) (omega arith))

  -- Whatever the bytes of a block, the scan ends and reads nothing outside of it.
  pub find_loop-ne-fault :
      (fuel : ℕ) (block : Bytes) (end i : ℕ)
      → end ≤ length block
      → end - i < fuel
      → find_loop fuel block typ end i ≢ fault
  unfolding find_loop
  find_loop-ne-fault zero block end i h f = absurd (omega arith)
  find_loop-ne-fault (suc fuel) block end i h f =
      let len = get_or block (i + 1) 0 in
      ground (
        arith,
        at-get_or {E = ⊥} block i,
        at-get_or {E = ⊥} block (i + 1),
        slice_ok {E = ⊥} block (i + 2) (i + 2 + len),
        find_loop-ne-fault fuel block end (i + 2) h,
        find_loop-ne-fault fuel block end (i + 2 + len) h,
      )

  -- FindExtension ends on every block and never reads outside of it: its fuel is enough.
  pub find_extension-ne-fault : (block : Bytes) → find_extension block typ ≢ fault
  unfolding find_extension ext_total_len le16_at
  find_extension-ne-fault block =
      let total = le16 (get_or block 0 0) (get_or block 1 0) in
      ground (
        arith,
        at-get_or {E = ⊥} block 0,
        at-get_or {E = ⊥} block 1,
        find_loop-ne-fault (total + 1) block (2 + total) 2,
      )
