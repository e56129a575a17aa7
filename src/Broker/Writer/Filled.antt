-- ===== src/Broker/Writer/Filled.antt =====
-- internal/broker/router.go, runSubscriberWriter: a message that is not empty gives a frame that is not
-- empty.
use aqueduct.Broker.Writer.Offsets.{length-put_le64, length-zero_bytes}
use aqueduct.Base.{
  ◌∙◌, ◌^◌, length-take_le, ◌%◌, length-take, fault, ◌++◌, err, ◌-◌, ok, take, ltb, length-drop,
  refl, drop, inr, inl, length-append, ◌==◌, Bool-cases, arith, ◌+◌, ◌<◌, ◌≤◌, ◌≡◌, length, ℕ,
}
use aqueduct.Broker.Writer.{put_le64, zero_bytes, append_offset, outgoing}
use aqueduct.Base.Bytes.{le32_at-le32_or, le32_or, put_le32, Bytes}
use aqueduct.Protocol.Command.{header_size}
use aqueduct.Base.Buffers.{copy_at}
use aqueduct.Protocol.Extensions.{Total}

abbrev pub Filled : Total Bytes → Type 0
Filled (ok frame) = 0 < length frame
Filled (err e) = Unit {0}
Filled fault = Unit {0}

length-copy_at :
    (buf : Bytes) (i : ℕ) (src : Bytes)
    → i + length src ≤ length buf
    → length (copy_at buf i src) ≡ length buf
unfolding copy_at
length-copy_at buf i src h = omega (
  arith,
  length-append (take i buf) (take (length buf - i) src ++ drop (i + length src) buf),
  length-append (take (length buf - i) src) (drop (i + length src) buf),
  length-take i buf,
  length-take (length buf - i) src,
  length-drop (i + length src) buf,
)

length-put_le32 : (v : ℕ) → length (put_le32 v) ≡ 4
unfolding put_le32
length-put_le32 v = refl

length-longer :
    (buf : Bytes) (total n offset : ℕ)
    → 10 ≤ total
    → total ≤ length buf
    → length (
        copy_at
          (copy_at (copy_at (zero_bytes (total + 8)) 0 (take total buf)) 6 (put_le32 n))
          total
          (put_le64 offset))
      ≡ total + 8
length-longer buf total n offset h k =
    let z = length-zero_bytes (total + 8) in
    let a =
      length-copy_at (zero_bytes (total + 8)) 0 (take total buf)
        (omega (arith, z, length-take_le total buf k)) in
    let x = copy_at (zero_bytes (total + 8)) 0 (take total buf) in
    let b = length-copy_at x 6 (put_le32 n) (omega (arith, a, z, length-put_le32 n)) in
    let c =
      length-copy_at (copy_at x 6 (put_le32 n)) total (put_le64 offset)
        (omega (arith, b, a, z, length-put_le64 offset)) in
    c ∙ (b ∙ (a ∙ z))

append_offset-Filled :
    (buf : Bytes) (offset : ℕ) → 0 < length buf → Filled (append_offset buf offset)
unfolding append_offset
append_offset-Filled buf offset h = elim (Bool-cases (ltb (length buf) header_size)) [
  | inl short ↦ rw short h
  | inr long ↦
      let len = le32_or buf 6 in
      rw (long, le32_at-le32_or {E = ⊥} buf 6 (ground arith))
        (elim (Bool-cases (ltb (length buf) (header_size + len))) [
          | inl cut ↦ rw cut h
          | inr whole ↦ rw whole (
              omega (
                arith,
                length-longer buf (header_size + len) ((len + 8) % 2 ^ 32) offset (omega arith)
                    (ground arith),
              ))
        ])
]

pub outgoing-Filled :
    (group buf : Bytes) (offset : ℕ) → 0 < length buf → Filled (outgoing group buf offset)
unfolding outgoing
outgoing-Filled group buf offset h = elim (Bool-cases (length group == 0)) [
  | inl alone ↦ rw alone h
  | inr member ↦ rw member (append_offset-Filled buf offset h)
]
