-- ===== src/Authz/Tests.antt =====
-- internal/authz/acl.go: the theorems on small rules.
use aqueduct.Authz.Rules.{allowed-build, granted, perm_or, allow_all, Grant}
use aqueduct.Authz.{permits, new_builder, build, allowed, combine_hashes}
use aqueduct.Base.{none, ◌≡◌, [], some, ◌∷◌, List}

abbrev grants : List Grant
grants =
    record { client = 97 ∷ []; topic = 120 ∷ []; perm = 1 }
    ∷ record { client = 97 ∷ []; topic = 120 ∷ []; perm = 2 }
    ∷ []

allowed-build_example :
    allowed (some (build (allow_all (new_builder 0) grants))) (97 ∷ []) (120 ∷ []) 2
    ≡ permits (perm_or 0 (granted none grants (combine_hashes (97 ∷ []) (120 ∷ [])))) 2
allowed-build_example = allowed-build 0 grants (97 ∷ []) (120 ∷ []) 2
