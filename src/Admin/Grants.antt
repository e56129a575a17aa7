-- ===== src/Admin/Grants.antt =====
-- internal/admin/server.go, UpdateACL: what the engine allows afterwards.
use aqueduct.Authz.Rules.{default-allow_all, Grant, allow_all, granted, perm_or, allowed-build}
use aqueduct.Base.{sym, ap₂, ◌∙◌, ap, none, refl, [], ok, some, ℕ, ◌∷◌, ◌≡◌, List}
use aqueduct.Authz.{
  Rules, new_engine, reload, Engine, Builder, allowed, permits, rules_count, combine_hashes,
  new_builder, allow, build,
}
use aqueduct.Base.Bytes.{Bytes}
use aqueduct.Admin.{
  AdminServer, AclRule, Caller, call_update_acl, update_acl, rules_from, permission_of, authorize,
}

abbrev engine_of : Rules → ℕ → Engine
engine_of rules perm = record { rules = rules; default_perm = perm }

module _ (trim lower : Bytes → Bytes) where
  -- The rules of the request, with their words read.
  abbrev pub grants_of : List AclRule → List Grant
  grants_of [] = []
  grants_of (r ∷ rs) =
      (record {
        client = r.client;
        topic = r.topic;
        perm = permission_of (lower (trim r.permission));
      })
      ∷ grants_of rs

  rules_from-allow_all :
      (b : Builder) (rs : List AclRule)
      → rules_from trim lower b.rules rs ≡ (allow_all b (grants_of rs)).rules
  unfolding rules_from allow_all allow
  rules_from-allow_all b [] = refl
  rules_from-allow_all b (r ∷ rs) =
      let g : Grant = record {
        client = r.client;
        topic = r.topic;
        perm = permission_of (lower (trim r.permission));
      } in
      rules_from-allow_all (allow b g.client g.topic g.perm) rs

  reloaded :
      (e : Engine) (rs : List AclRule)
      → reload e (some (rules_from trim lower [] rs))
        ≡ build (allow_all (new_builder e.default_perm) (grants_of rs))
  unfolding reload build new_builder new_engine
  reloaded e rs =
      let b = new_builder e.default_perm in
      ap₂ engine_of (rules_from-allow_all b rs) (sym (default-allow_all b (grants_of rs)))

-- A caller that passes the interceptor replaces all rules: with an engine in place the call succeeds,
-- and from then on an action is allowed exactly where the joined permissions that the request gives on
-- the key permit it, or the engine's default does where the request says nothing of the key.
pub call_update_acl-allowed :
    (trim lower : Bytes → Bytes) (s : AdminServer) (e : Engine) (caller : Caller)
    (rs : List AclRule) (client topic : Bytes) (required : ℕ)
    → s.engine ≡ some e
    → authorize s caller ≡ ok tt
    → (t : AdminServer) × (call_update_acl trim lower s caller rs ≡ ok (t, rules_count t.engine))
      × (allowed t.engine client topic required
          ≡ permits
              (perm_or e.default_perm
                (granted none (grants_of trim lower rs) (combine_hashes client topic)))
              required)
unfolding call_update_acl update_acl rules_count reload
call_update_acl-allowed trim lower s e caller rs client topic required there passes =
    let e' = reload e (some (rules_from trim lower [] rs)) in
    (
      record s { engine = some e' },
      rw (passes, there) refl,
      ap (λ x. allowed (some x) client topic required) (reloaded trim lower e rs)
          ∙ allowed-build e.default_perm (grants_of trim lower rs) client topic required,
    )
