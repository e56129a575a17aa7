-- ===== src/Authz/Keys.antt =====
-- internal/authz/acl.go: the composite hash as a key.
use aqueduct.Base.{append_assoc, [], ap, arith, sym, ◌∙◌, refl, some, ◌∷◌, ℕ, ◌++◌, ◌≡◌}
use aqueduct.Authz.{
  hash_byte, colon, offset64, Engine, combine_hash_strings, allowed, combine_hashes, hash_bytes,
}
use aqueduct.Base.Bytes.{Bytes}

hash_bytes-append :
    (h : ℕ) (xs ys : Bytes) → hash_bytes h (xs ++ ys) ≡ hash_bytes (hash_bytes h xs) ys
unfolding hash_bytes
hash_bytes-append h [] ys = refl
hash_bytes-append h (x ∷ xs) ys = hash_bytes-append (hash_byte h x) xs ys

-- The pair is hashed as one text, with a colon between.
combine_hashes-join :
    (client topic : Bytes)
    → combine_hashes client topic ≡ hash_bytes offset64 (client ++ (colon ∷ topic))
unfolding combine_hashes
combine_hashes-join client topic = sym (hash_bytes-append offset64 client (colon ∷ topic))

-- The hash of a string topic is that of its bytes, so rules built by `Allow` are those that
-- `Allowed` looks up.
pub combine_hashes-strings :
    (client topic : Bytes) → combine_hashes client topic ≡ combine_hash_strings client topic
unfolding combine_hashes combine_hash_strings
combine_hashes-strings client topic = refl

-- A colon moves freely between the two parts of the key: client "a:b" on topic "c" and client "a"
-- on topic "b:c" are one key, for all texts a, b and c.
pub combine_hashes-colon :
    (a b c : Bytes) → combine_hashes (a ++ (colon ∷ b)) c ≡ combine_hashes a (b ++ (colon ∷ c))
combine_hashes-colon a b c =
    combine_hashes-join (a ++ (colon ∷ b)) c
    ∙ ap (hash_bytes offset64) (append_assoc a (colon ∷ b) (colon ∷ c))
    ∙ sym (combine_hashes-join a (b ++ (colon ∷ c)))

-- So no engine tells those two apart, whatever its rules.
pub allowed-colon :
    (e : Engine) (a b c : Bytes) (required : ℕ)
    → allowed (some e) (a ++ (colon ∷ b)) c required
      ≡ allowed (some e) a (b ++ (colon ∷ c)) required
unfolding allowed
allowed-colon e a b c required = ground (arith, combine_hashes-colon a b c)
