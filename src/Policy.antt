-- ===== src/Policy.antt =====
-- reference-implementation/src/ski_model/v3/policies/risk_tier.py: the risk-tier policy.
pub mod Tiers
use ski_framework.Prelude.{
  String, Bool, true, false, not, ◌&&◌, Option, none, some, List, [], ◌∷◌, ◌++◌, is_some, lookup,
  if◌then◌else◌,
}
use ski_framework.Value.{Value, bool, Fields, end, field, text?}
use ski_framework.Value.Case.{strip, lower, is_blank}
use ski_framework.Schema.{
  Verdict, discretionary, VerifierStatus, agreed, llm_contradiction, neuro_symbolic_divergence,
  unverifiable, Envelope, Note, tier_coerced, forced_discretionary, tier_requires_agreed,
  contradiction_downgraded, divergence_downgraded, accepted_with_note,
}

pub data RiskTier : Type 0 where
  tier_1 tier_2 tier_3 : RiskTier

-- `_ALIAS_MAP`
abbrev pub alias_map : List (String × RiskTier)
alias_map =
    ("tier-1", tier_1)
    ∷ ("tier1", tier_1)
    ∷ ("high", tier_1)
    ∷ ("high-risk", tier_1)
    ∷ ("tier-2", tier_2)
    ∷ ("tier2", tier_2)
    ∷ ("standard", tier_2)
    ∷ ("default", tier_2)
    ∷ ("medium", tier_2)
    ∷ ("tier-3", tier_3)
    ∷ ("tier3", tier_3)
    ∷ ("low", tier_3)
    ∷ ("low-risk", tier_3)
    ∷ []

-- the tier, and whether the fail-safe default was applied
abbrev pub resolve : Option RiskTier → RiskTier × Bool
resolve (some tier) = (tier, false)
resolve none = (tier_1, true)

-- `_normalise_tier`; the note of a coercion is a flag
unfoldable pub normalise_tier : (String → String) → Value → RiskTier × Bool
unfolding strip is_blank lookup lower
normalise_tier lower_other tier = elim (text? tier) [
  | some s ↦
      if is_blank (strip s)
      then (tier_1, true)
      else resolve (lookup (lower lower_other (strip s)) alias_map)
  | none ↦ (tier_1, true)
]

-- {"required": True, "fulfilled": False}
abbrev pub attestation_required : Fields
attestation_required = field "required" (bool true) (field "fulfilled" (bool false) end)

-- The attestation that is set where one is wanted and none is given.
abbrev pub attest : Bool → Option Fields → Option Fields
attest true none = some attestation_required
attest true (some d) = some d
attest false o = o

-- `_downgrade_to_discretionary`
unfoldable pub downgrade_to_discretionary : Envelope → List Note → Bool → Envelope
downgrade_to_discretionary e notes required = record e {
  verdict = discretionary;
  notes = notes;
  human_attestation = attest required e.human_attestation;
}

abbrev with_notes : Envelope → List Note → Envelope
with_notes e notes = record e { notes = notes }

abbrev tier_2_policy : Envelope → List Note → VerifierStatus → Envelope
tier_2_policy e notes llm_contradiction =
    if is_some e.human_attestation
    then e
    else downgrade_to_discretionary e (notes ++ contradiction_downgraded ∷ []) true
tier_2_policy e notes neuro_symbolic_divergence =
    if is_some e.human_attestation
    then e
    else downgrade_to_discretionary e (notes ++ divergence_downgraded ∷ []) true
tier_2_policy e notes unverifiable = with_notes e (notes ++ accepted_with_note ∷ [])
tier_2_policy e notes agreed = e

abbrev tier_3_policy : Envelope → List Note → VerifierStatus → Envelope
tier_3_policy e notes llm_contradiction =
    downgrade_to_discretionary e (notes ++ contradiction_downgraded ∷ []) false
tier_3_policy e notes _ = with_notes e (notes ++ accepted_with_note ∷ [])

abbrev tier_policy : RiskTier → Envelope → List Note → VerifierStatus → Envelope
tier_policy tier_1 e notes status =
    downgrade_to_discretionary e (notes ++ tier_requires_agreed ∷ []) true
tier_policy tier_2 e notes status = tier_2_policy e notes status
tier_policy tier_3 e notes status = tier_3_policy e notes status

abbrev is_agreed : VerifierStatus → Bool
is_agreed agreed = true
is_agreed _ = false

abbrev is_unverifiable : VerifierStatus → Bool
is_unverifiable unverifiable = true
is_unverifiable _ = false

-- The policy for a tier that `_normalise_tier` resolved. `force` is the flag
-- SKI_FORCE_DISCRETIONARY_ON_UNVERIFIABLE.
unfoldable pub policy_for : Bool → RiskTier → Bool → Envelope → Envelope
unfolding downgrade_to_discretionary
policy_for force tier coerced e =
    let status = e.verifier_result.status in
    let notes = if coerced then e.notes ++ tier_coerced ∷ [] else e.notes in
    if is_agreed status
    then (if coerced then with_notes e notes else e)
    else if is_unverifiable status && force
    then downgrade_to_discretionary e (notes ++ forced_discretionary ∷ []) true
    else tier_policy tier e notes status

-- `apply_risk_policy`
unfoldable pub apply_risk_policy : (String → String) → Bool → Value → Envelope → Envelope
apply_risk_policy lower_other force risk_tier e =
    let (tier, coerced) = normalise_tier lower_other risk_tier in policy_for force tier coerced e
