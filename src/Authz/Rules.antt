-- ===== src/Authz/Rules.antt =====
-- internal/authz/acl.go: what an engine built from a list of grants allows.
use aqueduct.Authz.Keys.{combine_hashes-strings}
use aqueduct.Authz.{
  combine_hash_strings, combine_hashes, perm_none, permits, Rules, new_builder, build, grant,
  Builder, allow, allowed, find_rule,
}
use aqueduct.Base.{
  arith, ap, refl, ◌==◌, [], if◌then◌else◌, ◌∙◌, bit_or, none, ◌∷◌, ◌≡◌, List, some, Option, ℕ,
}
use aqueduct.Base.Bytes.{Bytes}

pub record Grant : Type 0 where
  pub client : Bytes
  pub topic : Bytes
  pub perm : ℕ

unfoldable pub allow_all : Builder → List Grant → Builder
allow_all b [] = b
allow_all b (g ∷ gs) = allow_all (allow b g.client g.topic g.perm) gs

abbrev join_perm : Option ℕ → ℕ → Option ℕ
join_perm none perm = some (bit_or perm_none perm)
join_perm (some p) perm = some (bit_or p perm)

-- The permissions granted on a key, joined; `none` where there was no grant.
unfoldable pub granted : Option ℕ → List Grant → ℕ → Option ℕ
granted start [] key = start
granted start (g ∷ gs) key =
    granted (if combine_hashes g.client g.topic == key then join_perm start g.perm else start) gs
      key

find_rule-grant :
    (rules : Rules) (k key perm : ℕ)
    → find_rule (grant rules k perm) key
      ≡ (if k == key then join_perm (find_rule rules key) perm else find_rule rules key)
unfolding find_rule grant
find_rule-grant [] k key perm = ground arith
find_rule-grant ((j, p) ∷ rules) k key perm = ground (arith, find_rule-grant rules k key perm)

find_rule-allow_all :
    (b : Builder) (gs : List Grant) (key : ℕ)
    → find_rule (allow_all b gs).rules key ≡ granted (find_rule b.rules key) gs key
unfolding allow_all granted allow
find_rule-allow_all b [] key = refl
find_rule-allow_all b (g ∷ gs) key =
    find_rule-allow_all (allow b g.client g.topic g.perm) gs key
    ∙ ap (λ o. granted o gs key)
        (find_rule-grant b.rules (combine_hash_strings g.client g.topic) key g.perm
          ∙ rw (combine_hashes-strings g.client g.topic))

pub default-allow_all :
    (b : Builder) (gs : List Grant) → (allow_all b gs).default_perm ≡ b.default_perm
unfolding allow_all allow
default-allow_all b [] = refl
default-allow_all b (g ∷ gs) = default-allow_all (allow b g.client g.topic g.perm) gs

abbrev pub perm_or : ℕ → Option ℕ → ℕ
perm_or d none = d
perm_or d (some p) = p

-- An engine built from any list of grants allows an action exactly when the joined grants on the
-- key permit it, or the default does where the key has no grant at all.
pub allowed-build :
    (default : ℕ) (gs : List Grant) (client topic : Bytes) (required : ℕ)
    → allowed (some (build (allow_all (new_builder default) gs))) client topic required
      ≡ permits (perm_or default (granted none gs (combine_hashes client topic))) required
unfolding allowed build new_builder find_rule
allowed-build default gs client topic required = ground (
  arith,
  find_rule-allow_all (new_builder default) gs (combine_hashes client topic),
  default-allow_all (new_builder default) gs,
)
