-- ===== src/Broker/Writer/Offsets.antt =====
-- internal/broker/router.go, runSubscriberWriter: the offset behind a group member's frame, byte by
-- byte, and reads that stay inside of the message.
use aqueduct.Base.{
  sym, take_all, [], le→ltb, append-nil, length-append, ◌/◌, ◌∙◌, ◌%◌, ◌*◌, ◌∷◌, ap₂, ap, zero,
  ◌++◌, suc, ◌^◌, ◌<◌, ◌≡◌, refl, none, err, drop, some, ok, arith, length, ◌>>=◌, Option, fault,
  ◌≤◌, ◌+◌, ◌≢◌, ℕ,
}
use aqueduct.Protocol.Command.{magic_byte, header_size}
use aqueduct.Protocol.Frame.Encode.{header, encode}
use aqueduct.Base.Buffers.{copy_at_over, copy_at-append, copy_at}
use aqueduct.Base.Bytes.{le32-put, put_le32, at-get_or, le32_at, le32_at-le32_or, Bytes}
use native.Mathlib.Nat.{zero-add}
use aqueduct.Protocol.Extensions.Find.{find_extension-ne-fault}
use aqueduct.Protocol.Extensions.{ext_retry_offset, find_extension, Total}
use aqueduct.Broker.Writer.{
  append_offset, outgoing, delivery_offset, put_le64, le64_at, zero_bytes, original_or,
}

le32_at-ne-fault :
    {E : Type 0} (xs : Bytes) (i : ℕ) → i + 4 ≤ length xs → le32_at {E = E} xs i ≢ fault
le32_at-ne-fault {E} xs i h f = cc (f, le32_at-le32_or {E = E} xs i h)

pub le64_at-ne-fault : (xs : Bytes) (i : ℕ) → i + 8 ≤ length xs → le64_at {E = ⊥} xs i ≢ fault
unfolding le64_at
le64_at-ne-fault xs i h =
    rw
      (le32_at-le32_or {E = ⊥} xs i (omega arith), le32_at-le32_or {E = ⊥} xs (i + 4) (omega arith))
      (λ f. cc f)

original_or-ne-fault :
    (offset : ℕ) (found : Total (Option Bytes))
    → found ≢ fault
    → (found >>= original_or offset) ≢ fault
original_or-ne-fault offset (ok none) h f = cc f
original_or-ne-fault offset (ok (some value)) h f = ground (arith, le64_at-ne-fault value 0)
original_or-ne-fault offset (err e) h f = absurd e
original_or-ne-fault offset fault h f = h refl

pub delivery_offset-ne-fault : (buf : Bytes) (offset : ℕ) → delivery_offset buf offset ≢ fault
unfolding delivery_offset
delivery_offset-ne-fault buf offset = ground (
  arith,
  at-get_or {E = ⊥} buf 1,
  original_or-ne-fault offset (find_extension (drop header_size buf) ext_retry_offset)
      (find_extension-ne-fault ext_retry_offset (drop header_size buf)),
)

pub outgoing-ne-fault : (group buf : Bytes) (offset : ℕ) → outgoing group buf offset ≢ fault
unfolding outgoing append_offset
outgoing-ne-fault group buf offset = ground (arith, le32_at-le32_or {E = ⊥} buf 6)

pub le64_at-put_le64 :
    {E : Type 0} (v : ℕ) (more : Bytes) → v < 2 ^ 64 → le64_at {E = E} (put_le64 v ++ more) 0 ≡ ok v
unfolding le64_at put_le64 put_le32 le32_at
le64_at-put_le64 v more h = ap ok (
    ap₂ (λ low high. low + 2 ^ 32 * high) (le32-put (v % 2 ^ 32) (omega arith))
      (le32-put (v / 2 ^ 32 % 2 ^ 32) (omega arith))
    ∙ omega arith)

pub length-zero_bytes : (n : ℕ) → length (zero_bytes n) ≡ n
unfolding zero_bytes
length-zero_bytes zero = refl
length-zero_bytes (suc n) = omega (arith, length-zero_bytes n)

drop-zero_bytes : (k n : ℕ) → drop k (zero_bytes (k + n)) ≡ zero_bytes n
unfolding zero_bytes
drop-zero_bytes zero n = rw zero-add refl
drop-zero_bytes (suc k) n =
    let e : suc k + n ≡ suc (k + n) = omega arith in rw e (drop-zero_bytes k n)

le32_at-encode :
    {E : Type 0} (cmd id : ℕ) (body : Bytes)
    → length body < 2 ^ 32
    → le32_at {E = E} (encode cmd id body) 6 ≡ ok (length body)
unfolding le32_at put_le32
le32_at-encode cmd id body h = ap ok (le32-put (length body) h)

length-encode : (cmd id : ℕ) (body : Bytes) → length (encode cmd id body) ≡ 10 + length body
unfolding put_le32
length-encode cmd id body = omega arith

in_new_buffer :
    (xs : Bytes) (n k : ℕ) → length xs ≡ n → copy_at (zero_bytes (n + k)) 0 xs ≡ xs ++ zero_bytes k
in_new_buffer xs n k h =
    copy_at_over [] (zero_bytes (n + k)) xs 0 refl (omega (arith, length-zero_bytes (n + k)))
    ∙ ap (λ x. xs ++ x) (rw h (drop-zero_bytes n k))

-- The three writes of the longer frame.
grown :
    (cmd id : ℕ) (body : Bytes) (n : ℕ) (tail : Bytes)
    → length tail ≡ 8
    → copy_at
        (copy_at
          (copy_at (zero_bytes (10 + length body + 8)) 0 (encode cmd id body))
          6
          (put_le32 n))
        (10 + length body)
        tail
      ≡ header cmd id n ++ (body ++ tail)
unfolding put_le32
grown cmd id body n tail h =
    ap (λ x. copy_at (copy_at x 6 (put_le32 n)) (10 + length body) tail)
      (in_new_buffer (encode cmd id body) (10 + length body) 8 (length-encode cmd id body))
    ∙ (ap (λ x. copy_at x (10 + length body) tail) second ∙ third)
  where
    front : Bytes
    front = magic_byte ∷ cmd ∷ put_le32 id

    second :
        copy_at (front ++ (put_le32 (length body) ++ (body ++ zero_bytes 8))) 6 (put_le32 n)
        ≡ front ++ (put_le32 n ++ (body ++ zero_bytes 8))
    second =
        copy_at-append front (put_le32 (length body)) (body ++ zero_bytes 8) (put_le32 n) 6 refl
          refl

    third :
        copy_at (header cmd id n ++ (body ++ zero_bytes 8)) (10 + length body) tail
        ≡ header cmd id n ++ (body ++ tail)
    third = simp append-nil at (
        copy_at-append (header cmd id n ++ body) (zero_bytes 8) [] tail (10 + length body)
          (omega arith) (h ∙ sym (length-zero_bytes 8)))

pub length-put_le64 : (v : ℕ) → length (put_le64 v) ≡ 8
unfolding put_le64 put_le32
length-put_le64 v = refl

pub append_offset-encode :
    (cmd id : ℕ) (body : Bytes) (offset : ℕ)
    → length body + 8 < 2 ^ 32
    → append_offset (encode cmd id body) offset ≡ ok (encode cmd id (body ++ put_le64 offset))
unfolding append_offset
append_offset-encode cmd id body offset h =
    let n = length body in
    let len = length-encode cmd id body in
    let more : length (body ++ put_le64 offset) ≡ (n + 8) % 2 ^ 32 =
      omega (arith, length-append body (put_le64 offset), length-put_le64 offset) in
    rw
      (
        le→ltb (length (encode cmd id body)) header_size (omega arith),
        le32_at-encode {E = ⊥} cmd id body (omega arith),
        le→ltb (length (encode cmd id body)) (header_size + n) (omega arith),
        take_all (header_size + n) (encode cmd id body) (omega arith),
        more,
      )
      (ap ok (grown cmd id body ((n + 8) % 2 ^ 32) (put_le64 offset) (length-put_le64 offset)))
