-- ===== src/Authz.antt =====
-- internal/authz/acl.go. Strings are their bytes, permissions and hashes are numbers; the rule map
-- is an association list, and the atomic pointer to it is the field that holds it.
pub mod Rules
pub mod Keys
mod Tests
use aqueduct.Base.{
  ◌^◌, bit_and, ◌%◌, ◌==◌, if◌then◌else◌, not, true, ◌*◌, Bool, [], bit_or, bit_xor, length, none,
  ◌∷◌, List, Option, some, ℕ,
}
use aqueduct.Base.Bytes.{Bytes}

abbrev pub perm_none : ℕ
perm_none = 0

abbrev pub perm_publish : ℕ
perm_publish = 0x01

abbrev pub perm_subscribe : ℕ
perm_subscribe = 0x02

abbrev pub perm_all : ℕ
perm_all = 0x03

abbrev pub offset64 : ℕ
offset64 = 14695981039346656037

abbrev pub prime64 : ℕ
prime64 = 1099511628211

abbrev pub colon : ℕ
colon = b':'

-- `hash ^= uint64(b); hash *= prime64`
unfoldable pub hash_byte : ℕ → ℕ → ℕ
hash_byte hash b = bit_xor hash b * prime64 % 2 ^ 64

unfoldable pub hash_bytes : ℕ → Bytes → ℕ
unfolding hash_byte
hash_bytes hash [] = hash
hash_bytes hash (b ∷ bs) = hash_bytes (hash_byte hash b) bs

unfoldable pub combine_hashes : Bytes → Bytes → ℕ
unfolding hash_bytes
combine_hashes client topic =
    let hash = hash_bytes offset64 client in
    let hash' = hash_byte hash colon in hash_bytes hash' topic

unfoldable pub combine_hash_strings : Bytes → Bytes → ℕ
unfolding hash_bytes
combine_hash_strings client topic =
    let hash = hash_bytes offset64 client in
    let hash' = hash_byte hash colon in hash_bytes hash' topic

-- A map from hashes to permissions.
abbrev pub Rules : Type 0
Rules = List (ℕ × ℕ)

unfoldable pub find_rule : Rules → ℕ → Option ℕ
find_rule [] key = none
find_rule ((k, perm) ∷ rules) key = if k == key then some perm else find_rule rules key

-- `rules[key] |= perm`, where a missing key reads as no permission.
unfoldable pub grant : Rules → ℕ → ℕ → Rules
grant [] key perm = (key, bit_or perm_none perm) ∷ []
grant ((k, p) ∷ rules) key perm =
    if k == key then (k, bit_or p perm) ∷ rules else (k, p) ∷ grant rules key perm

-- An engine's rule pointer is set by `NewEngine` and `Reload`, where a nil map becomes an empty one.
pub record Engine : Type 0 where
  pub rules : Rules
  pub default_perm : ℕ

abbrev pub or_empty : Option Rules → Rules
or_empty none = []
or_empty (some rules) = rules

unfoldable pub new_engine : Option Rules → ℕ → Engine
new_engine rules perm = record { rules = or_empty rules; default_perm = perm }

unfoldable pub permits : ℕ → ℕ → Bool
permits perm required = not (bit_and perm required == 0)

-- `none` is a nil engine, which allows everything.
unfoldable pub allowed : Option Engine → Bytes → Bytes → ℕ → Bool
unfolding find_rule permits
allowed none client topic required = true
allowed (some e) client topic required = elim (find_rule e.rules (combine_hashes client topic)) [
  | none ↦ permits e.default_perm required
  | some perm ↦ permits perm required
]

unfoldable pub reload : Engine → Option Rules → Engine
reload e rules = record e { rules = or_empty rules }

unfoldable pub rules_count : Option Engine → ℕ
rules_count none = 0
rules_count (some e) = length e.rules

pub record Builder : Type 0 where
  pub rules : Rules
  pub default_perm : ℕ

unfoldable pub new_builder : ℕ → Builder
new_builder perm = record { rules = []; default_perm = perm }

unfoldable pub allow : Builder → Bytes → Bytes → ℕ → Builder
unfolding grant
allow b client topic perm = record b {
  rules = grant b.rules (combine_hash_strings client topic) perm;
}

unfoldable pub build : Builder → Engine
unfolding new_engine
build b = new_engine (some b.rules) b.default_perm
