-- ===== src/Admin/Tests.antt =====
-- internal/admin/server.go: the theorems on a small engine.
use aqueduct.Authz.{combine_hashes, permits, allowed, rules_count, Engine}
use aqueduct.Authz.Rules.{granted, perm_or}
use aqueduct.Base.{refl, [], ok, some, ◌∷◌, List, none, ◌≡◌}
use aqueduct.Base.Bytes.{Bytes}
use aqueduct.Admin.{
  AdminServer, AclRule, call_update_acl, authorize, certified, admin_prefix, publish_word,
  starts_with, listed,
}
use aqueduct.Admin.Grants.{call_update_acl-allowed, grants_of}

abbrev no_change : Bytes → Bytes
no_change text = text

abbrev closed_engine : Engine
closed_engine = record { rules = []; default_perm = 0 }

abbrev server : AdminServer
server = record { quota_manager = none; engine = some closed_engine; cn_allowlist = none }

abbrev one_rule : List AclRule
one_rule = (record { client = 97 ∷ []; topic = 98 ∷ []; permission = publish_word }) ∷ []

admin_passes : authorize server (certified admin_prefix) ≡ ok tt
unfolding authorize starts_with listed
admin_passes = refl

call_update_acl-allowed_example :
    (t : AdminServer) × (call_update_acl no_change no_change server
        (certified admin_prefix)
        one_rule
      ≡ ok (t, rules_count t.engine))
    × (allowed t.engine (97 ∷ []) (98 ∷ []) 1
        ≡ permits
            (perm_or 0 (
              granted none
                (grants_of no_change no_change one_rule)
                (combine_hashes (97 ∷ []) (98 ∷ []))))
            1)
call_update_acl-allowed_example =
    call_update_acl-allowed no_change no_change server closed_engine (certified admin_prefix)
      one_rule (97 ∷ []) (98 ∷ []) 1 refl admin_passes
