-- ===== src/Aal/Write.antt =====
-- internal/aal/aal.go, WriteFrame: what a write appends to the file.
use aqueduct.Base.{
  drop-append_eq, take-append_eq, Option, take-append-drop, ◌<◌, append_assoc, sym, length-drop, ap,
  ◌∙◌, [], drop, le→ltb, false, length-take_le, ltb, take, length-append, ◌^◌, arith, ok, ◌%◌, refl,
  some, ◌+◌, ◌≤◌, none, ◌++◌, ◌≡◌, length, ℕ,
}
use aqueduct.Aal.Reads.{IsItem, record_bytes, Item}
use aqueduct.Aal.Replay.{decrypt_replay_record}
use aqueduct.Aal.{
  pool_buffer_size, write_frame, write_sealed, nonce_of, Aead, Log, put_be64, write_plain,
}
use aqueduct.Base.Buffers.{copy_at-append, copy_at_over, copy_at}
use aqueduct.Base.Bytes.{slice-append, Bytes, put_le32}

-- What is relied on of the cipher: a tag of 16 bytes, and opening undoes sealing.
pub record IsAead (a : Aead) : Type 0 where
  pub grows : (nonce plain : Bytes) → length (a.seal nonce plain) ≡ length plain + 16
  pub opens : (nonce plain : Bytes) → a.open_sealed nonce (a.seal nonce plain) ≡ some plain

-- The record of a frame under the log's mode.
abbrev pub item_of : Log → Bytes → Item
item_of l frame = elim l.aead [
  | none ↦ record { body = frame; plain = frame }
  | some a ↦ record { body = nonce_of l ++ a.seal (nonce_of l) frame; plain = frame }
]

abbrev pub next_nonce : Log → ℕ
next_nonce l = elim l.aead [ none ↦ l.nonce | some a ↦ (l.nonce + 1) % 2 ^ 64 ]

abbrev pub appended : Log → Bytes → Log
appended l frame = record l {
  nonce = next_nonce l;
  file = l.file ++ record_bytes (item_of l frame).body;
}

pub length-nonce_of : (l : Log) → length l.prefix ≡ 4 → length (nonce_of l) ≡ 12
unfolding put_be64
length-nonce_of l h = omega (
  arith,
  length-append (take 4 l.prefix) (put_be64 ((l.nonce + 1) % 2 ^ 64)),
  length-take_le 4 l.prefix,
)

pub length-put_le32 : (n : ℕ) → length (put_le32 n) ≡ 4
unfolding put_le32
length-put_le32 n = refl

write_plain-appended :
    (l : Log) (buf frame : Bytes)
    → length buf ≡ 65552
    → length frame ≤ 65532
    → write_plain l buf frame ≡ ok (record l { file = l.file ++ record_bytes frame })
unfolding write_plain
write_plain-appended l buf frame size small =
    let four = put_le32 (length frame) in
    let same : length frame % 2 ^ 32 ≡ length frame = omega (arith, small) in
    let room : ltb (length buf) (4 + length frame) ≡ false =
      le→ltb (length buf) (4 + length frame) (omega (arith, size, small)) in
    let first : copy_at buf 0 four ≡ four ++ drop 4 buf =
      copy_at_over [] buf four 0 refl (omega (arith, size, length-put_le32 (length frame)))
      ∙ ap (λ k. four ++ drop k buf) (length-put_le32 (length frame)) in
    let second : copy_at (copy_at buf 0 four) 4 frame
        ≡ four ++ (frame ++ drop (length frame) (drop 4 buf)) =
      ap (λ b. copy_at b 4 frame) first
      ∙ copy_at_over four (drop 4 buf) frame 4 (omega (arith, length-put_le32 (length frame)))
          (omega (arith, length-drop 4 buf, size, small)) in
    let cut =
      slice-append {E = ⊥} [] (four ++ frame) (drop (length frame) (drop 4 buf)) 0
        (4 + length frame) refl
        (omega (arith, length-append four frame, length-put_le32 (length frame))) in
    rw (same, room, write_plain)
      (rw (second, sym (append_assoc four frame (drop (length frame) (drop 4 buf))), cut) refl)

-- The pooled buffer with the nonce, the sealed frame and the length written into it.
sealed_buffer :
    (buf nonce out four : Bytes)
    → length buf ≡ 65552
    → length nonce ≡ 12
    → length four ≡ 4
    → length out ≤ 65536
    → copy_at (copy_at (copy_at buf 4 nonce) 16 out) 0 four
      ≡ (four ++ (nonce ++ out)) ++ drop (length out) (drop 12 (drop 4 buf))
sealed_buffer buf nonce out four size twelve four_long small =
    let front = take 4 buf in
    let front_long : length front ≡ 4 = length-take_le 4 buf (omega (arith, size)) in
    let tail = drop 12 (drop 4 buf) in
    let tail_long : length tail ≡ 65536 =
      omega (arith, length-drop 12 (drop 4 buf), length-drop 4 buf, size) in
    let first : copy_at buf 4 nonce ≡ (front ++ nonce) ++ tail =
      ap (λ b. copy_at b 4 nonce) (sym (take-append-drop 4 buf))
      ∙ copy_at_over front (drop 4 buf) nonce 4 (sym front_long)
          (omega (arith, length-drop 4 buf, size, twelve))
      ∙ ap (λ k. front ++ (nonce ++ drop k (drop 4 buf))) twelve
      ∙ sym (append_assoc front nonce tail) in
    let second : copy_at (copy_at buf 4 nonce) 16 out
        ≡ front ++ (nonce ++ (out ++ drop (length out) tail)) =
      ap (λ b. copy_at b 16 out) first
      ∙ copy_at_over (front ++ nonce) tail out 16
          (omega (arith, length-append front nonce, front_long, twelve))
          (omega (arith, tail_long, small))
      ∙ append_assoc front nonce (out ++ drop (length out) tail) in
    ap (λ b. copy_at b 0 four) second
    ∙ copy_at-append [] front (nonce ++ (out ++ drop (length out) tail)) four 0 refl
        (omega (arith, front_long, four_long))
    ∙ ap (λ b. four ++ b) (sym (append_assoc nonce out (drop (length out) tail)))
    ∙ sym (append_assoc four (nonce ++ out) (drop (length out) tail))

write_sealed-appended :
    (l : Log) (a : Aead) (buf frame : Bytes)
    → length buf ≡ 65552
    → length l.prefix ≡ 4
    → length (a.seal (nonce_of l) frame) ≤ 65520
    → write_sealed l a buf frame
      ≡ ok (record l {
        nonce = (l.nonce + 1) % 2 ^ 64;
        file = l.file ++ record_bytes (nonce_of l ++ a.seal (nonce_of l) frame);
      })
unfolding write_sealed
write_sealed-appended l a buf frame size four_prefix small =
    let nonce = nonce_of l in
    let out = a.seal nonce frame in
    let n = 12 + length out in
    let body_long : length (nonce ++ out) ≡ n =
      omega (arith, length-append nonce out, length-nonce_of l four_prefix) in
    let same : n % 2 ^ 32 ≡ n = omega (arith, small) in
    let four = put_le32 n in
    let tail = drop (length out) (drop 12 (drop 4 buf)) in
    let whole_buffer =
      sealed_buffer buf nonce out four size (length-nonce_of l four_prefix) (length-put_le32 n)
        (omega (arith, small)) in
    let cut =
      slice-append {E = ⊥} [] (four ++ (nonce ++ out)) tail 0 (4 + n) refl
        (omega (arith, length-append four (nonce ++ out), length-put_le32 n, body_long)) in
    rw (same, write_sealed) (rw (whole_buffer, cut, body_long) refl)

-- A frame that the replay's buffer can hold with its record's head.
abbrev pub Fits : Log → Bytes → Type 0
Fits l frame =
    (0 < length frame)
    × (length frame ≤ 65504)
    × (length l.prefix ≡ 4)
    × ((a : Aead) → l.aead ≡ some a → IsAead a)

log_with : Option Aead → Bytes → ℕ → Bytes → Log
log_with o prefix nonce file = record { aead = o; prefix = prefix; nonce = nonce; file = file }

by_mode :
    (o : Option Aead) (prefix : Bytes) (nonce : ℕ) (file buf frame : Bytes)
    → length buf ≡ pool_buffer_size
    → Fits (log_with o prefix nonce file) frame
    → write_frame (log_with o prefix nonce file) buf frame
      ≡ ok (appended (log_with o prefix nonce file) frame)
unfolding write_frame log_with
by_mode none prefix nonce file buf frame size fits =
    write_plain-appended (log_with none prefix nonce file) buf frame size (omega (arith, fits.1))
by_mode (some a) prefix nonce file buf frame size fits =
    let l = log_with (some a) prefix nonce file in
    write_sealed-appended l a buf frame size fits.2
      (omega (arith, fits.1, (fits.3 a refl).grows (nonce_of l) frame))

-- Within these bounds a write succeeds and appends one record, and in the encrypted mode it takes
-- the next nonce, whatever the pooled buffer held.
pub write_frame-appended :
    (l : Log) (buf frame : Bytes)
    → length buf ≡ pool_buffer_size
    → Fits l frame
    → write_frame l buf frame ≡ ok (appended l frame)
unfolding log_with
write_frame-appended l buf frame size fits =
    by_mode l.aead l.prefix l.nonce l.file buf frame size fits

log_with-IsItem :
    (o : Option Aead) (prefix : Bytes) (nonce : ℕ) (file frame : Bytes)
    → Fits (log_with o prefix nonce file) frame
    → IsItem o (item_of (log_with o prefix nonce file) frame)
unfolding log_with decrypt_replay_record
log_with-IsItem none prefix nonce file frame fits = (fits.0, omega (arith, fits.1), refl)
log_with-IsItem (some a) prefix nonce file frame fits =
    let l = log_with (some a) prefix nonce file in
    let n = nonce_of l in
    let out = a.seal n frame in
    let n_long : length n ≡ 12 = length-nonce_of l fits.2 in
    let laws = fits.3 a refl in
    let whole_long : length (n ++ out) ≡ 28 + length frame =
      omega (arith, length-append n out, n_long, laws.grows n frame) in
    (
      omega (arith, whole_long),
      omega (arith, whole_long, fits.1),
      rw (le→ltb (length (n ++ out)) 28 (omega (arith, whole_long)), decrypt_replay_record)
          (rw (take-append_eq 12 n out (sym n_long), drop-append_eq 12 n out (sym n_long))
            (laws.opens n frame)),
    )

-- The record of a frame decrypts to it and fits the replay's buffer.
pub item_of-IsItem : (l : Log) (frame : Bytes) → Fits l frame → IsItem l.aead (item_of l frame)
unfolding log_with
item_of-IsItem l frame fits = log_with-IsItem l.aead l.prefix l.nonce l.file frame fits

plain_in :
    (o : Option Aead) (prefix : Bytes) (nonce : ℕ) (file frame : Bytes)
    → (item_of (log_with o prefix nonce file) frame).plain ≡ frame
unfolding log_with
plain_in none prefix nonce file frame = refl
plain_in (some a) prefix nonce file frame = refl

pub plain-item_of : (l : Log) (frame : Bytes) → (item_of l frame).plain ≡ frame
unfolding log_with
plain-item_of l frame = plain_in l.aead l.prefix l.nonce l.file frame
