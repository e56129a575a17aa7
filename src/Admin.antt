-- ===== src/Admin.antt =====
-- internal/admin/server.go: the checks on a caller and the two handlers. A caller is what the
-- connection says of it; the gRPC server, its TLS settings and its listener are left out. `trim` is
-- strings.TrimSpace and `lower` strings.ToLower. A rate is not negative here.
pub mod Grants
mod Tests
use aqueduct.Base.{
  not, ◌&&◌, length, ok, reject, ◌==◌, ◌||◌, [], err, false, if◌then◌else◌, none, some, true, ◌>>◌,
  Bool, List, Option, Outcome, ℕ, ◌∷◌,
}
use aqueduct.Base.Bytes.{Bytes, bytes_equal}
use aqueduct.Authz.{
  Engine, Rules, grant, combine_hash_strings, reload, perm_none, perm_publish, perm_subscribe,
  perm_all,
}
use aqueduct.Quotas.{Manager, set_rate}

-- `cn_allowlist` lists the keys of cnAllowlist; `none` is the nil map.
pub record AdminServer : Type 0 where
  pub quota_manager : Option Manager
  pub engine : Option Engine
  pub cn_allowlist : Option (List Bytes)

unfoldable pub new_server : Option Manager → Option Engine → AdminServer
new_server quota engine = record { quota_manager = quota; engine = engine; cn_allowlist = none }

pub data AdminError : Type 0 where
  unauthenticated permission_denied invalid_argument unavailable : AdminError

-- `certified cn` has a certificate, the first one with the common name.
pub data Caller : Type 0 where
  without_peer_info without_certificate : Caller
  certified : Bytes → Caller

unfoldable pub listed : List Bytes → Bytes → Bool
unfolding bytes_equal
listed [] cn = false
listed (x ∷ xs) cn = bytes_equal x cn || listed xs cn

-- "admin-"
abbrev pub admin_prefix : Bytes
admin_prefix = 0x61 ∷ 0x64 ∷ 0x6d ∷ 0x69 ∷ 0x6e ∷ 0x2d ∷ []

unfoldable pub starts_with : Bytes → Bytes → Bool
starts_with text [] = true
starts_with [] (p ∷ ps) = false
starts_with (c ∷ text) (p ∷ ps) = c == p && starts_with text ps

abbrev pub is_admin : Option (List Bytes) → Bytes → Bool
is_admin none cn = starts_with cn admin_prefix
is_admin (some cns) cn = listed cns cn

-- `adminAuthInterceptor`, up to the call of the handler.
unfoldable pub authorize : AdminServer → Caller → Outcome AdminError (Unit {0})
unfolding listed starts_with
authorize s without_peer_info = err unauthenticated
authorize s without_certificate = err unauthenticated
authorize s (certified cn) = reject (not (is_admin s.cn_allowlist cn)) permission_denied

-- The error of a client without a name comes before the look at the manager.
unfoldable pub set_client_quota : AdminServer → Bytes → ℕ → Outcome AdminError AdminServer
unfolding set_rate
set_client_quota s client rate = do
  reject (length client == 0) invalid_argument
  ok (elim s.quota_manager [
    | none ↦ s
    | some q ↦ record s { quota_manager = some (set_rate q client rate 0) }
  ])

pub record AclRule : Type 0 where
  pub client : Bytes
  pub topic : Bytes
  pub permission : Bytes

-- "publish", "subscribe" and "all".
abbrev pub publish_word : Bytes
publish_word = 0x70 ∷ 0x75 ∷ 0x62 ∷ 0x6c ∷ 0x69 ∷ 0x73 ∷ 0x68 ∷ []

abbrev pub subscribe_word : Bytes
subscribe_word = 0x73 ∷ 0x75 ∷ 0x62 ∷ 0x73 ∷ 0x63 ∷ 0x72 ∷ 0x69 ∷ 0x62 ∷ 0x65 ∷ []

abbrev pub all_word : Bytes
all_word = 0x61 ∷ 0x6c ∷ 0x6c ∷ []

-- Any other word grants nothing.
unfoldable pub permission_of : Bytes → ℕ
unfolding bytes_equal
permission_of word =
    if bytes_equal word publish_word
    then perm_publish
    else (if bytes_equal word subscribe_word
        then perm_subscribe
        else (if bytes_equal word all_word then perm_all else perm_none))

module _ (trim lower : Bytes → Bytes) where
  abbrev pub trimmed : List Bytes → List Bytes
  trimmed [] = []
  trimmed (cn ∷ cns) = trim cn ∷ trimmed cns

  -- An empty list leaves the check of the prefix.
  unfoldable pub with_cn_allowlist : AdminServer → List Bytes → AdminServer
  with_cn_allowlist s cns =
      if length cns == 0 then s else record s { cn_allowlist = some (trimmed cns) }

  unfoldable pub rules_from : Rules → List AclRule → Rules
  unfolding grant combine_hash_strings permission_of
  rules_from rules [] = rules
  rules_from rules (r ∷ rs) =
      rules_from
        (grant rules (combine_hash_strings r.client r.topic)
          (permission_of (lower (trim r.permission))))
        rs

  -- The new rules take the place of all the old ones. The answer counts them;
  -- fewer than 2 ^ 31 fit its field.
  unfoldable pub update_acl : AdminServer → List AclRule → Outcome AdminError (AdminServer × ℕ)
  unfolding rules_from reload
  update_acl s rules = elim s.engine [
    | none ↦ err unavailable
    | some e ↦
        (let table = rules_from [] rules in
          ok (record s { engine = some (reload e (some table)) }, length table))
  ]

  -- A call of UpdateACL through the interceptor.
  unfoldable pub call_update_acl :
      AdminServer → Caller → List AclRule → Outcome AdminError (AdminServer × ℕ)
  unfolding authorize update_acl
  call_update_acl s caller rules = do authorize s caller; update_acl s rules
