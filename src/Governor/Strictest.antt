-- ===== src/Governor/Strictest.antt =====
-- `strictest_tier` is the minimum over the rules, and unknown criticality is the strictest.
use ski_framework.Prelude.{
  ℕ, ◌≤◌, String, ◌≡◌, refl, ◌⊎◌, inl, inr, List, All, lookup, lookup-All, Option-cases,
}
use ski_framework.Value.{Value, Fields, get, text?}
use ski_framework.Value.Case.{strip, lower}
use ski_framework.Governor.{aliases, or_default, rank_of, canonicalise}

abbrev pub IsTier : String → Type 0
IsTier s = (s ≡ "tier-1") ⊎ (s ≡ "tier-2") ⊎ (s ≡ "tier-3")

aliases-IsTier : All (λ e. IsTier e.1) aliases
aliases-IsTier = (
  inl refl,
  (
    inl refl,
    (
      inl refl,
      (
        inl refl,
        (
          inr (inl refl),
          (
            inr (inl refl),
            (
              inr (inl refl),
              (
                inr (inl refl),
                (
                  inr (inl refl),
                  (inr (inr refl), (inr (inr refl), (inr (inr refl), (inr (inr refl), tt)))),
                ),
              ),
            ),
          ),
        ),
      ),
    ),
  ),
)

or_default-IsTier : (k : String) → IsTier (or_default (lookup k aliases))
or_default-IsTier k = elim (Option-cases (lookup k aliases)) [
  | inl e ↦ rw e (inl refl)
  | inr (t, e) ↦ rw e (lookup-All (λ _ v. IsTier v) aliases aliases-IsTier k t e)
]

module _ (lower_other : String → String) where
  pub canonicalise-IsTier : (raw : Value) → IsTier (canonicalise lower_other raw)
  unfolding canonicalise
  canonicalise-IsTier raw = elim (Option-cases (text? raw)) [
    | inl e ↦ rw (e, canonicalise) (inl refl)
    | inr (s, e) ↦ rw (e, canonicalise) (or_default-IsTier (lower lower_other (strip s)))
  ]

  -- the tier of a rule
  abbrev pub tier_of : Fields → String
  tier_of rule = canonicalise lower_other (get "risk_tier" rule)

  abbrev pub IsLowest : ℕ → List Fields → Type 0
  IsLowest n rules = All (λ rule. n ≤ rank_of (tier_of rule)) rules
