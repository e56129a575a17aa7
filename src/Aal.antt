-- ===== src/Aal.antt =====
-- internal/aal/aal.go: the append-only log. A record is four bytes of length and a body: the frame,
-- or a nonce of 12 bytes and the sealed frame. The cipher is a parameter; opening, renaming and
-- syncing files is left out, and a write to the file appends all of its bytes.
pub mod Replay
pub mod Write
pub mod Chunks
pub mod Reads
pub mod Stream
pub mod Delivery
pub mod RoundTrip
pub mod Stall
pub mod Rotate
pub mod Decrypt
mod Tests
use aqueduct.Base.{
  fault, [], ltb, ok, if◌then◌else◌, ◌∷◌, length, some, ◌%◌, ◌>>=◌, none, ◌++◌, ◌^◌, Outcome, take,
  ◌+◌, ◌/◌, Option, ℕ,
}
use aqueduct.Base.Bytes.{slice, Bytes, put_le32}
use aqueduct.Base.Buffers.{copy_at}

-- AES-256-GCM under a fixed key, with no additional data: `seal nonce plain` and
-- `open_sealed nonce sealed`.
pub record Aead : Type 0 where
  pub seal : Bytes → Bytes → Bytes
  pub open_sealed : Bytes → Bytes → Option Bytes

-- `prefix` is the random start of the nonces, four bytes, and `file` what the file holds.
pub record Log : Type 0 where
  pub aead : Option Aead
  pub prefix : Bytes
  pub nonce : ℕ
  pub file : Bytes

abbrev pub pool_buffer_size : ℕ
pool_buffer_size = 16 + 65536

-- binary.BigEndian.PutUint64
unfoldable pub put_be64 : ℕ → Bytes
put_be64 v =
    v / 2 ^ 56 % 256
    ∷ v / 2 ^ 48 % 256
    ∷ v / 2 ^ 40 % 256
    ∷ v / 2 ^ 32 % 256
    ∷ v / 2 ^ 24 % 256
    ∷ v / 2 ^ 16 % 256
    ∷ v / 2 ^ 8 % 256
    ∷ v % 256
    ∷ []

abbrev pub nonce_of : Log → Bytes
nonce_of l = take 4 l.prefix ++ put_be64 ((l.nonce + 1) % 2 ^ 64)

-- The sealed frame stands behind its nonce in the pooled buffer, where it fits there; a longer one
-- is elsewhere, and the slice to be written passes the buffer's end.
unfoldable pub write_sealed : Log → Aead → Bytes → Bytes → Outcome ⊥ Log
unfolding put_be64 put_le32
write_sealed l aead buf frame =
    let nonce = nonce_of l in
    let out = aead.seal nonce frame in
    let b = copy_at (copy_at buf 4 nonce) 16 out in
    do
      written ←
          slice (copy_at b 0 (put_le32 ((12 + length out) % 2 ^ 32))) 0
            (4 + (12 + length out) % 2 ^ 32)
      ok (record l { nonce = (l.nonce + 1) % 2 ^ 64; file = l.file ++ written })

unfoldable pub write_plain : Log → Bytes → Bytes → Outcome ⊥ Log
unfolding put_le32
write_plain l buf frame =
    let b = copy_at buf 0 (put_le32 (length frame % 2 ^ 32)) in
    if ltb (length buf) (4 + length frame) then fault else do
      written ← slice (copy_at b 4 frame) 0 (4 + length frame % 2 ^ 32)
      ok (record l { file = l.file ++ written })

-- `buf` is the pooled buffer, of `pool_buffer_size` bytes with any content.
unfoldable pub write_frame : Log → Bytes → Bytes → Outcome ⊥ Log
unfolding write_sealed write_plain
write_frame l buf frame = elim l.aead [
  | none ↦ write_plain l buf frame
  | some aead ↦ write_sealed l aead buf frame
]
