-- ===== src/Evaluator/TierOne.antt =====
-- Tier 1 of v3/evaluator.py: nothing but an agreement of the verifier ships a CLEAR or a FLAG.
use ski_framework.Prelude.{
  ◌≡◌, refl, inl, inr, true, false, some, List, [], ◌∷◌, arith, All, is_empty,
}
use ski_framework.Value.{Fields}
use ski_framework.Schema.{agreed, Divergence, Envelope}
use ski_framework.Verifier.Predicates.{acheck_assertion}
use ski_framework.Verifier.Enumerate.{enumerable_obligations}
use ski_framework.Verifier.Tally.{VerificationReport, with_fail_closed}
use ski_framework.Verifier.Verify.{asserted_ids, averify_report}
use ski_framework.Verifier.Agreed.{IsConfirmed, IsCovered, report_by_agreed}
use ski_framework.Policy.{tier_1, normalise_tier, apply_risk_policy}
use ski_framework.Policy.Tiers.{policy-tier_1}
use ski_framework.Evaluator.{
  Output, Request, Setting, index_of, report_of, report_for, guarded, normalized, drafted,
  aevaluate,
}
use ski_framework.Evaluator.Decided.{is_decided, enforce-decided, after_policy, aevaluate-decided}
use ski_framework.Evaluator.FailClosed.{enforce_fail_closed}

with_fail_closed-agreed :
    (ds : List Divergence) (r : VerificationReport)
    → (with_fail_closed ds r).result.status ≡ agreed
    → (is_empty ds ≡ true) × (r.result.status ≡ agreed)
unfolding with_fail_closed
with_fail_closed-agreed [] r h = (refl, h)
with_fail_closed-agreed (d ∷ ds) r h = ground arith

-- The verifier confirmed every assertion of the answer, and the model's answer left out no mapped
-- obligation but those that the verifier itself found satisfied.
abbrev pub IsVerified : Request → Output → Type 0
IsVerified q o =
    let index = (index_of q).obligations in
    let assertions = (normalized q o).0 in
    let check = acheck_assertion q.context in
    (is_empty (index_of q).violations ≡ true)
    × (is_empty assertions ≡ false)
    × All (IsConfirmed check (guarded q o).0 (some q.measurement) (some index)) assertions
    × All (IsCovered check (asserted_ids assertions))
        (enumerable_obligations (some index) (some q.measurement))

report_for-agreed :
    (q : Request) (o : Output) → (report_for q o).result.status ≡ agreed → IsVerified q o
unfolding report_of averify_report
report_for-agreed q o h =
    let (index, inner) = with_fail_closed-agreed (index_of q).violations _ h in
    let (asserts, confirmed, covered) =
      report_by_agreed (acheck_assertion q.context) (guarded q o).0 (some q.measurement)
        (some (index_of q).obligations) (normalized q o).0 inner in
    (index, asserts, confirmed, covered)

module _ (s : Setting) (q : Request)
    (first : (normalise_tier s.lower_other q.risk_tier).0 ≡ tier_1) where
  policy-agreed :
      (o : Output)
      → is_decided (after_policy s q o).verdict ≡ true
      → (report_for q o).result.status ≡ agreed
  unfolding apply_risk_policy drafted
  policy-agreed o h =
      let (tier, coerced) = normalise_tier s.lower_other q.risk_tier in
      elim (policy-tier_1 s.force_discretionary tier coerced (drafted q o) first) [
        | inl e ↦ e
        | inr (e, _) ↦ cc (rw e at h)
      ]

  -- Let the risk tier resolve to tier 1. If the evaluator ships a CLEAR or a FLAG, the model's
  -- answer validates, the index of the slice has no violation, the answer asserts something, every
  -- assertion (with `satisfied` normalised) is of a known type, grounded, and has the outcome of
  -- the verifier's own check, which is satisfied where the guarded verdict denies a breach, and
  -- every obligation that the verifier can evaluate has no unit mismatch, and is asserted or found
  -- satisfied.
  pub tier_1_ships-IsVerified :
      (raw : Fields) (e : Envelope)
      → aevaluate s q raw ≡ some e
      → is_decided e.verdict ≡ true
      → (o : Output) × (s.parse raw ≡ some o) × IsVerified q o
  tier_1_ships-IsVerified raw e shipped h =
      let (_, passed) = aevaluate-decided s q raw e shipped h in
      let o = passed.output in
      let decided : is_decided (enforce_fail_closed (report_for q o) (after_policy s q o)).verdict
          ≡ true =
        cc (passed.floored, h) in
      let unfloored = enforce-decided (report_for q o) (after_policy s q o) decided in
      (o, passed.parsed, report_for-agreed q o (policy-agreed o (rw unfloored at decided)))
