-- ===== src/Tests/Identity.antt =====
-- The canonical identity of aggregate-risk-gate/src/lib.rs at a concrete input.
use agent_governance_policie.Prelude.{ℕ, ◌≤◌, ◌≡◌, refl, true, List, [], ◌∷◌, map, length}
use agent_governance_policie.Gate.Identity.{
  Canonical, max_identity_bytes, is_blank, is_allowed, all_allowed, trim_start, trim_end, lower,
  canonical_of, canonical_identity, canonical_identity_twice,
}

-- A space, `A`, `b` and a tab.
abbrev raw : List ℕ
raw = 32 ∷ 65 ∷ 98 ∷ 9 ∷ []

abbrev key : List ℕ
key = 97 ∷ 98 ∷ []

raw_is_scope : canonical_identity raw ≡ Canonical.scope key
unfolding canonical_identity canonical_of trim_start trim_end all_allowed is_allowed is_blank lower
raw_is_scope = refl

canonical_identity_twice_example :
    (length key ≤ max_identity_bytes)
    × (all_allowed key ≡ true)
    × (map lower key ≡ key)
    × (canonical_identity key ≡ Canonical.scope key)
canonical_identity_twice_example = canonical_identity_twice raw key raw_is_scope
