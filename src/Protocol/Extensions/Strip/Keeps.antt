-- ===== src/Protocol/Extensions/Strip/Keeps.antt =====
-- internal/protocol/extensions.go: on a block of entries `StripExtension` keeps the other entries.
use aqueduct.Protocol.Extensions.Entries.{
  length-block_of, ext_total_len-block_of, block_of, entries_bytes, without, entry_bytes, Entry,
}
use aqueduct.Base.{
  ◌%◌, length-drop, inr, inl, ◌==◌, Bool-cases, if◌then◌else◌, zero, suc, ◌<◌, List, refl,
  drop-append_add, ◌∙◌, append_assoc, sym, ap, [], lt→ltb, length-append, ◌∷◌, arith, drop, ◌++◌,
  ◌≤◌, ok, ◌≡◌, length, ◌+◌, ℕ,
}
use aqueduct.Base.Bytes.{slice-append, put_le16, at, at-append, slice_ok, slice, Bytes}
use aqueduct.Protocol.Extensions.Strip.{
  strip_extension, strip_entries, copy_loop, measure_loop, copy_entry,
}
use aqueduct.Protocol.Extensions.Find.{entry_slice}
use aqueduct.Base.Buffers.{empty_of_length, copy_at_over, copy_at, set-append}

-- One entry copied behind what is written already.
copy_entry-entry :
    (src : Bytes) (e : Entry) (written room : Bytes) (off to : ℕ)
    → slice {E = ⊥} src (off + 2) (off + 2 + length e.value) ≡ ok e.value
    → to ≡ length written
    → 2 + length e.value ≤ length room
    → copy_entry src off e.typ (length e.value) (written ++ room) to
      ≡ ok (written ++ (entry_bytes e ++ drop (2 + length e.value) room))
unfolding copy_entry
copy_entry-entry src e written [] off to s p h = absurd (omega arith)
copy_entry-entry src e written (a ∷ []) off to s p h = absurd (omega arith)
copy_entry-entry src e written (a ∷ b ∷ room) off to s p h =
    rw
      (
        lt→ltb to (length (written ++ (a ∷ b ∷ room))) (omega (arith, grown)),
        set-append written (a ∷ b ∷ room) to 0 e.typ (omega arith),
        lt→ltb (to + 1) (length (written ++ (e.typ ∷ b ∷ room))) (omega (arith, grown')),
        set-append written (e.typ ∷ b ∷ room) (to + 1) 1 (length e.value) (omega arith),
      )
      (ground (
        arith,
        s,
        grown'',
        drop-append_add (2 + n) n (a ∷ b ∷ []) room refl,
        empty_of_length e.value,
        slice_ok {E = ⊥} (written ++ (e.typ ∷ n ∷ room)) (to + 2) (to + 2 + n),
        whole,
      ))
  where
    n : ℕ
    n = length e.value

    whole :
        copy_at (written ++ (e.typ ∷ n ∷ room)) (to + 2) e.value
        ≡ written ++ (e.typ ∷ n ∷ (e.value ++ drop n room))
    whole =
        ap (λ b. copy_at b (to + 2) e.value) (sym (append_assoc written (e.typ ∷ n ∷ []) room))
        ∙ copy_at_over (written ++ (e.typ ∷ n ∷ [])) room e.value (to + 2)
            (omega (arith, length-append written (e.typ ∷ n ∷ []))) (omega arith)
        ∙ append_assoc written (e.typ ∷ n ∷ []) (e.value ++ drop n room)

    grown'' : length (written ++ (e.typ ∷ n ∷ room)) ≡ length written + (2 + length room)
    grown'' = omega (arith, length-append written (e.typ ∷ n ∷ room))

    grown : length (written ++ (a ∷ b ∷ room)) ≡ length written + (2 + length room)
    grown = omega (arith, length-append written (a ∷ b ∷ room))

    grown' : length (written ++ (e.typ ∷ b ∷ room)) ≡ length written + (2 + length room)
    grown' = omega (arith, length-append written (e.typ ∷ b ∷ room))

length-entry_append :
    (e : Entry) (b : Bytes) → length (entry_bytes e ++ b) ≡ 2 + length e.value + length b
length-entry_append e b = omega (arith, length-append (entry_bytes e) b)

-- Both loops read the header of the entry at hand.
abbrev Reads : Bytes → Entry → Bytes → ℕ → Type 0
Reads front e rest i =
    (at {E = ⊥} (front ++ (entry_bytes e ++ rest)) i ≡ ok e.typ)
    × (at {E = ⊥} (front ++ (entry_bytes e ++ rest)) (i + 1) ≡ ok (length e.value))

Reads-entry :
    (front : Bytes) (e : Entry) (rest : Bytes) (i : ℕ) → i ≡ length front → Reads front e rest i
Reads-entry front e rest i p = (
  at-append front (entry_bytes e ++ rest) 0 i (omega arith),
  at-append front (entry_bytes e ++ rest) 1 (i + 1) (omega arith),
)

prefix_written :
    (buf : Bytes) (n : ℕ)
    → 2 ≤ length buf
    → n < 65536
    → copy_at buf 0 (put_le16 (n % 65536)) ≡ put_le16 n ++ drop 2 buf
unfolding put_le16
prefix_written buf n h small =
    let e : n % 65536 ≡ n = omega arith in rw e (copy_at_over [] buf (put_le16 n) 0 refl h)

module _ (typ : ℕ) where
  measure_loop-without :
      (fuel : ℕ) (front : Bytes) (es : List Entry) (i keep : ℕ)
      → i ≡ length front
      → length (entries_bytes es) < fuel
      → measure_loop fuel (front ++ entries_bytes es) typ i keep
        ≡ ok (keep + length (entries_bytes (without es typ)))
  unfolding measure_loop without
  measure_loop-without zero front es i keep p f = absurd (omega arith)
  measure_loop-without (suc fuel) front [] i keep p f =
      ground (arith, length-append {A = ℕ} front [])
  measure_loop-without (suc fuel) front (e ∷ es) i keep p f =
      let rest = entries_bytes es in
      let next = λ (k : ℕ). rw (append_assoc front (entry_bytes e) rest) at (
        measure_loop-without fuel (front ++ entry_bytes e) es (i + (2 + length e.value)) k
          (omega (arith, length-append front (entry_bytes e)))
          (omega (arith, length-entry_append e rest))) in
      ground (
        arith,
        Reads-entry front e rest i p,
        length-append front (entry_bytes e ++ rest),
        length-entry_append e rest,
        length-entry_append e (entries_bytes (without es typ)),
        next keep,
        next (keep + (2 + length e.value)),
      )

  copy_loop-without :
      (fuel : ℕ) (front : Bytes) (es : List Entry) (i : ℕ) (written room : Bytes) (to : ℕ)
      → i ≡ length front
      → to ≡ length written
      → length room ≡ length (entries_bytes (without es typ))
      → length (entries_bytes es) < fuel
      → copy_loop fuel (front ++ entries_bytes es) typ i (written ++ room) to
        ≡ ok (written ++ entries_bytes (without es typ))
  unfolding copy_loop without
  copy_loop-without zero front es i written room to p q r f = absurd (omega arith)
  copy_loop-without (suc fuel) front [] i written room to p q r f =
      ground (arith, length-append {A = ℕ} front [], empty_of_length room)
  copy_loop-without (suc fuel) front (e ∷ es) i written room to p q r f =
      let rest = entries_bytes es in
      let kept = entries_bytes (without es typ) in
      let left = drop (2 + length e.value) room in
      let grown : length (front ++ (entry_bytes e ++ rest))
          ≡ i + (2 + length e.value + length rest) =
        omega (arith, length-append front (entry_bytes e ++ rest), length-entry_append e rest) in
      let fits : length rest < fuel = omega (arith, length-entry_append e rest) in
      let after : i + (2 + length e.value) ≡ length (front ++ entry_bytes e) =
        omega (arith, length-append front (entry_bytes e)) in
      elim (Bool-cases (e.typ == typ)) [
        | inl hit ↦
            let same : length room ≡ length kept = ground arith in
            ground (
              arith,
              Reads-entry front e rest i p,
              grown,
              rw (append_assoc front (entry_bytes e) rest) at (
                  copy_loop-without fuel (front ++ entry_bytes e) es (i + (2 + length e.value))
                    written room to after q same fits),
            )
        | inr miss ↦
            let more : length room ≡ 2 + length e.value + length kept =
              ground (arith, length-entry_append e kept) in
            ground (
              arith,
              Reads-entry front e rest i p,
              grown,
              copy_entry-entry (front ++ (entry_bytes e ++ rest)) e written room i to
                  (entry_slice front e rest i p) q (omega arith),
              rw
                  (
                    append_assoc front (entry_bytes e) rest,
                    append_assoc written (entry_bytes e) left,
                    append_assoc written (entry_bytes e) kept,
                  )
                  at
                  (copy_loop-without fuel (front ++ entry_bytes e) es (i + (2 + length e.value))
                    (written ++ entry_bytes e) left (to + (2 + length e.value)) after
                    (omega (arith, length-append written (entry_bytes e)))
                    (omega (arith, length-drop (2 + length e.value) room)) fits),
            )
      ]

  length-without-le :
      (es : List Entry) → length (entries_bytes (without es typ)) ≤ length (entries_bytes es)
  unfolding without
  length-without-le [] = omega arith
  length-without-le (e ∷ es) = ground (
    arith,
    length-without-le es,
    length-entry_append e (entries_bytes es),
    length-entry_append e (entries_bytes (without es typ)),
  )

  -- The block that StripExtension builds, or no block where nothing is left.
  abbrev pub kept_block : List Entry → Bytes
  kept_block es = if length (entries_bytes es) == 0 then [] else block_of (entries_bytes es)

  strip_entries-without :
      (acquire : ℕ → Bytes) (es : List Entry)
      → ((n : ℕ) → length (acquire n) ≡ n)
      → length (entries_bytes (without es typ)) < 65536
      → strip_entries acquire (entries_bytes es) typ ≡ ok (kept_block (without es typ))
  unfolding strip_entries
  strip_entries-without acquire es sized small =
      let keep = length (entries_bytes (without es typ)) in
      let m = measure_loop-without (length (entries_bytes es) + 1) [] es 0 0 refl (omega arith) in
      let z : 0 + keep ≡ keep = omega arith in
      rw (m, z)
        (elim (Bool-cases (keep == 0)) [
          | inl gone ↦ rw gone
          | inr some_left ↦
              rw
                (
                  some_left,
                  prefix_written (acquire (2 + keep)) keep (omega (arith, sized (2 + keep))) small,
                )
                (copy_loop-without (length (entries_bytes es) + 1) [] es 0 (put_le16 keep)
                  (drop 2 (acquire (2 + keep))) 2 refl (unfold put_le16 in refl)
                  (omega (arith, length-drop 2 (acquire (2 + keep)), sized (2 + keep)))
                  (omega arith))
        ])

  slice_src :
      (es : List Entry) (more : Bytes)
      → slice {E = ⊥} (block_of (entries_bytes es) ++ more) 2 (2 + length (entries_bytes es))
        ≡ ok (entries_bytes es)
  unfolding put_le16
  slice_src es more =
      rw (append_assoc (put_le16 (length (entries_bytes es))) (entries_bytes es) more) (
        slice-append (put_le16 (length (entries_bytes es))) (entries_bytes es) more 2
          (2 + length (entries_bytes es)) refl refl)

  empty_without :
      (es : List Entry) → length (entries_bytes es) ≡ 0 → kept_block (without es typ) ≡ []
  unfolding without
  empty_without [] h = refl
  empty_without (e ∷ es) h = absurd (omega arith)

  -- StripExtension removes every entry of the type and keeps the others in order, and what the
  -- allocator's memory held does not show.
  pub strip_extension-without :
      (acquire : ℕ → Bytes) (es : List Entry) (more : Bytes)
      → ((n : ℕ) → length (acquire n) ≡ n)
      → length (entries_bytes es) < 65536
      → strip_extension acquire (block_of (entries_bytes es) ++ more) typ
        ≡ ok (kept_block (without es typ))
  unfolding strip_extension
  strip_extension-without acquire es more sized small =
      let n = length (entries_bytes es) in
      ground (
        arith,
        ext_total_len-block_of {E = ⊥} (entries_bytes es) more small,
        length-append (block_of (entries_bytes es)) more,
        length-block_of (entries_bytes es),
        strip_entries-without acquire es sized,
        length-without-le es,
        slice_src es more,
        empty_without es,
      )
