-- ===== src/Aal/Decrypt.antt =====
-- internal/aal/aal.go, DecryptFrame: one sealed record, with or without its length.
use aqueduct.Base.{
  refl, drop-append_eq, sym, take-append_eq, le→ltb, ◌∙◌, ap, length-append, ◌++◌, drop, take,
  arith, ltb, ◌==◌, reject, ◌+◌, none, ◌>>◌, ◌^◌, some, ◌&&◌, ◌<◌, err, leb, length, ◌≡◌, Outcome,
  if◌then◌else◌, ◌≤◌, Option, ok,
}
use aqueduct.Aal.Write.{length-nonce_of, item_of, Fits}
use aqueduct.Aal.{nonce_of, Aead, Log}
use aqueduct.Base.Bytes.{le32-put, le32_or, Bytes, put_le32}
use aqueduct.Aal.Reads.{record_bytes}

pub data DecryptError : Type 0 where
  invalid_key_size short_ciphertext broken_ciphertext : DecryptError

-- The record without a length in front that matches it.
unfoldable pub strip_length : Bytes → Bytes
strip_length rec =
    if leb 32 (length rec) && le32_or rec 0 + 4 == length rec then drop 4 rec else rec

abbrev pub opened : Option Bytes → Outcome DecryptError Bytes
opened none = err broken_ciphertext
opened (some plain) = ok plain

-- `key` is the cipher that a key of 32 bytes makes, and `none` stands for a key of another size.
unfoldable pub decrypt_frame : Option Aead → Bytes → Outcome DecryptError Bytes
unfolding strip_length
decrypt_frame none rec = err invalid_key_size
decrypt_frame (some a) rec = do
  let body = strip_length rec in
      do
        reject (ltb (length body) 28) short_ciphertext
        opened (a.open_sealed (take 12 body) (drop 12 body))

strip_length-record_bytes :
    (b : Bytes) → 28 ≤ length b → length b < 2 ^ 32 → strip_length (record_bytes b) ≡ b
unfolding strip_length put_le32
strip_length-record_bytes b long small = ground (arith, long, small, le32-put (length b) small)

-- What a sealing log writes for a frame, DecryptFrame opens under the same key.
pub decrypt_frame-item_of :
    (l : Log) (a : Aead) (frame : Bytes)
    → l.aead ≡ some a
    → Fits l frame
    → decrypt_frame (some a) (record_bytes (item_of l frame).body) ≡ ok frame
unfolding decrypt_frame
decrypt_frame-item_of l a frame e fits =
    let n = nonce_of l in
    let out = a.seal n frame in
    let laws = fits.3 a e in
    let twelve = length-nonce_of l fits.2 in
    let whole_long : length (n ++ out) ≡ 28 + length frame =
      omega (arith, length-append n out, twelve, laws.grows n frame) in
    let body : (item_of l frame).body ≡ n ++ out = rw e refl in
    let stripped : strip_length (record_bytes (n ++ out)) ≡ n ++ out =
      strip_length-record_bytes (n ++ out) (omega (arith, whole_long))
        (omega (arith, whole_long, fits.1)) in
    ap (λ b. decrypt_frame (some a) (record_bytes b)) body
    ∙ rw (stripped, decrypt_frame)
        (rw (le→ltb (length (n ++ out)) 28 (omega (arith, whole_long))) (
          rw (take-append_eq 12 n out (sym twelve), drop-append_eq 12 n out (sym twelve))
            (ap opened (laws.opens n frame))))
