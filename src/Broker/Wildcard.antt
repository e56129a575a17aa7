-- ===== src/Broker/Wildcard.antt =====
-- internal/broker/wildcard.go. The indices `pIdx` and `tIdx` are the suffixes that they point at.
pub mod Levels
use aqueduct.Base.Bytes.{bytes_equal, Bytes}
use aqueduct.Base.{◌&&◌, true, [], ◌==◌, false, if◌then◌else◌, ◌||◌, Bool, ◌∷◌, ℕ}

abbrev pub slash : ℕ
slash = b'/'

abbrev pub plus_sign : ℕ
plus_sign = b'+'

abbrev pub hash_sign : ℕ
hash_sign = b'#'

-- `for tIdx < tLen && topic[tIdx] != '/' { tIdx++ }`
unfoldable pub skip_segment : Bytes → Bytes
skip_segment [] = []
skip_segment (t ∷ ts) = let rest = skip_segment ts in if t == slash then t ∷ ts else rest

-- Whether the pattern goes on with '#'.
unfoldable pub starts_with_hash : Bytes → Bool
starts_with_hash [] = false
starts_with_hash (p ∷ ps) = p == hash_sign

-- Each round of the outer loop moves on by one byte of the pattern.
unfoldable pub match_loop : Bytes → Bytes → Bool
unfolding skip_segment starts_with_hash
match_loop [] [] = true
match_loop [] (t ∷ ts) = false
match_loop (p ∷ ps) [] =
    if p == hash_sign
    then true
    else (if p == plus_sign then false else p == slash && starts_with_hash ps)
match_loop (p ∷ ps) (t ∷ ts) = if p == hash_sign then true else elim (p == plus_sign) [
  | true ↦ match_loop ps (skip_segment (t ∷ ts))
  | false ↦ elim (p == t) [ true ↦ match_loop ps ts | false ↦ false ]
]

unfoldable pub match_wildcard : Bytes → Bytes → Bool
unfolding bytes_equal match_loop
match_wildcard pattern topic = bytes_equal pattern topic || match_loop pattern topic

-- `bytes.IndexByte(b, c) >= 0`
unfoldable pub contains_byte : Bytes → ℕ → Bool
contains_byte [] c = false
contains_byte (b ∷ bs) c = b == c || contains_byte bs c

unfoldable pub is_wildcard_topic : Bytes → Bool
unfolding contains_byte
is_wildcard_topic topic = contains_byte topic plus_sign || contains_byte topic hash_sign
