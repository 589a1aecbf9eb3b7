-- ===== src/Policy/Tiers.antt =====
-- The tiers of the governor and of the policy are the same, and what each tier lets through.
use ski_framework.Prelude.{
  String, ◌≡◌, refl, sym, ◌⊎◌, inl, inr, Bool, true, false, Option, none, some, List, [], ◌∷◌,
  arith, lookup, Option-cases, Bool-cases, is_some, str_eq, if◌then◌else◌,
}
use mathlib.Core.Option
use ski_framework.Value.{Value, str, text?}
use ski_framework.Value.Case.{strip, lower, is_blank}
use ski_framework.Schema.{discretionary, agreed, llm_contradiction, Envelope}
use ski_framework.Governor.{aliases, or_default, canonicalise}
use ski_framework.Governor.Strictest.{IsTier, canonicalise-IsTier}
use ski_framework.Policy.{
  RiskTier, tier_1, tier_2, tier_3, alias_map, resolve, normalise_tier, policy_for,
}

-- The policy's tier for a tier that the governor names.
abbrev pub named : String → RiskTier
named s = if str_eq s "tier-1" then tier_1 else if str_eq s "tier-2" then tier_2 else tier_3

rename : List (String × String) → List (String × RiskTier)
rename [] = []
rename ((k, t) ∷ d) = (k, named t) ∷ rename d

lookup-rename :
    (k : String) (d : List (String × String)) → lookup k (rename d) ≡ Option.map named (lookup k d)
unfolding lookup rename
lookup-rename k [] = refl
lookup-rename k ((j, t) ∷ d) = ground (arith, lookup-rename k d)

-- The two alias tables say the same.
rename-aliases : rename aliases ≡ alias_map
unfolding rename
rename-aliases = refl

resolve-named : (o : Option String) → (resolve (Option.map named o)).0 ≡ named (or_default o)
resolve-named none = refl
resolve-named (some t) = refl

lookup-alias_map :
    (k : String) → (resolve (lookup k alias_map)).0 ≡ named (or_default (lookup k aliases))
lookup-alias_map k = rw (← rename-aliases, lookup-rename) (resolve-named (lookup k aliases))

module _ (lower_other : String → String) where
  blank-named :
      (s : String)
      → is_blank s ≡ true
      → named (or_default (lookup (lower lower_other s) aliases)) ≡ tier_1
  unfolding is_blank lower lookup
  blank-named String.[] h = refl
  blank-named (String.◌∷◌ c s) h = cc

  pub normalise-canonicalise :
      (raw : Value) → (normalise_tier lower_other raw).0 ≡ named (canonicalise lower_other raw)
  unfolding normalise_tier canonicalise
  normalise-canonicalise raw = elim (Option-cases (text? raw)) [
    | inl e ↦ rw (e, normalise_tier, canonicalise)
    | inr (s, e) ↦
        rw (e, normalise_tier, canonicalise)
          (elim (Bool-cases (is_blank (strip s))) [
            | inl blank ↦ rw blank (sym (blank-named (strip s) blank))
            | inr word ↦ rw word (lookup-alias_map (lower lower_other (strip s)))
          ])
  ]

  named_clean : (s : String) → IsTier s → normalise_tier lower_other (str s) ≡ (named s, false)
  unfolding normalise_tier
  named_clean s (inl e) = rw e
  named_clean s (inr (inl e)) = rw e
  named_clean s (inr (inr e)) = rw e

  -- The governor and the policy take every declared tier for the same tier, and the policy takes
  -- the governor's name of it as it stands, without coercion.
  pub tiers_agree :
      (raw : Value)
      → ((normalise_tier lower_other raw).0 ≡ named (canonicalise lower_other raw))
        × (normalise_tier lower_other (str (canonicalise lower_other raw))
            ≡ (named (canonicalise lower_other raw), false))
  tiers_agree raw = (
    normalise-canonicalise raw,
    named_clean (canonicalise lower_other raw) (canonicalise-IsTier lower_other raw),
  )

-- What a policy may do to an envelope: nothing, or make it DISCRETIONARY.
module _ (force : Bool) (tier : RiskTier) (coerced : Bool) (e : Envelope) where
  pub policy_verdict :
      ((policy_for force tier coerced e).verdict ≡ e.verdict)
      ⊎ ((policy_for force tier coerced e).verdict ≡ discretionary)
  unfolding policy_for
  policy_verdict = ground arith

  -- At tier 1 the policy leaves only a report that AGREED; otherwise the envelope becomes
  -- DISCRETIONARY and has an attestation.
  pub policy-tier_1 :
      tier ≡ tier_1
      → (e.verifier_result.status ≡ agreed)
        ⊎ (((policy_for force tier coerced e).verdict ≡ discretionary)
            × (is_some (policy_for force tier coerced e).human_attestation ≡ true))
  unfolding policy_for
  policy-tier_1 h = ground arith

  -- A contradiction makes the envelope DISCRETIONARY at every tier, except at tier 2 where the
  -- envelope already has an attestation.
  pub policy_contradiction :
      e.verifier_result.status ≡ llm_contradiction
      → ((policy_for force tier coerced e).verdict ≡ discretionary)
        ⊎ ((tier ≡ tier_2) × (is_some e.human_attestation ≡ true))
  unfolding policy_for
  policy_contradiction h = ground arith
