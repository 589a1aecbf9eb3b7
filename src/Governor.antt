-- ===== src/Governor.antt =====
-- `RiskTierGovernor` of reference-implementation/src/tag_registry/registry.py: the risk tier that
-- applies to a measurement is the strictest one of its obligations.
pub mod Strictest
use ski_framework.Prelude.{
  ℕ, String, Option, none, some, List, [], ◌∷◌, lookup, leb, if◌then◌else◌, ◌==◌,
}
use ski_framework.Value.{Value, Fields, get, text?}
use ski_framework.Verifier.Enumerate.{mappings}
use ski_framework.Value.Case.{strip, lower}

abbrev pub default_tier : String
default_tier = "tier-1"

-- `_TIER_RANK`
abbrev pub tier_rank : List (String × ℕ)
tier_rank = ("tier-1", 1) ∷ ("tier-2", 2) ∷ ("tier-3", 3) ∷ []

-- `_ALIASES`
abbrev pub aliases : List (String × String)
aliases =
    ("tier-1", "tier-1")
    ∷ ("tier1", "tier-1")
    ∷ ("high", "tier-1")
    ∷ ("high-risk", "tier-1")
    ∷ ("tier-2", "tier-2")
    ∷ ("tier2", "tier-2")
    ∷ ("standard", "tier-2")
    ∷ ("default", "tier-2")
    ∷ ("medium", "tier-2")
    ∷ ("tier-3", "tier-3")
    ∷ ("tier3", "tier-3")
    ∷ ("low", "tier-3")
    ∷ ("low-risk", "tier-3")
    ∷ []

abbrev pub or_default : Option String → String
or_default none = default_tier
or_default (some tier) = tier

-- `_TIER_RANK[tier]`: every tier that is looked up is in the table
unfoldable pub rank_of : String → ℕ
unfolding lookup
rank_of tier = elim (lookup tier tier_rank) [ some r ↦ r | none ↦ 0 ]

-- `min` of the ranks, from the first one on
unfoldable pub min_rank : ℕ → List ℕ → ℕ
min_rank best [] = best
min_rank best (r ∷ ranks) = min_rank (if leb best r then best else r) ranks

-- the first tier of the table with this rank
unfoldable pub tier_of_rank : ℕ → List (String × ℕ) → String
tier_of_rank best [] = default_tier
tier_of_rank best ((tier, r) ∷ table) = if r == best then tier else tier_of_rank best table

module _ (lower_other : String → String) where
  -- `canonicalise`
  unfoldable pub canonicalise : Value → String
  unfolding lookup strip lower
  canonicalise raw = elim (text? raw) [
    | some s ↦ or_default (lookup (lower lower_other (strip s)) aliases)
    | none ↦ default_tier
  ]

  unfoldable pub ranks_of : List Fields → List ℕ
  ranks_of [] = []
  ranks_of (rule ∷ rules) = rank_of (canonicalise (get "risk_tier" rule)) ∷ ranks_of rules

  -- `strictest_tier`
  unfoldable pub strictest_tier : List Fields → String
  strictest_tier rules = elim (ranks_of rules) [
    | [] ↦ default_tier
    | r ∷ ranks ↦ tier_of_rank (min_rank r ranks) tier_rank
  ]

  -- `tier_for_snapshot`
  unfoldable pub tier_for_snapshot : List Value → String
  tier_for_snapshot obligations = strictest_tier (mappings obligations)
