-- ===== src/Evaluator/Shipped.antt =====
-- What a CLEAR or a FLAG of v3/evaluator.py carries: the model's verdict, and the verifier's result.
use mathlib.Core.Path.{subst}
use ski_framework.Prelude.{◌≡◌, inl, inr, Bool, true, some, arith}
use ski_framework.Value.{Fields}
use ski_framework.Schema.{Envelope, of_model}
use ski_framework.Policy.{RiskTier, normalise_tier, policy_for, apply_risk_policy}
use ski_framework.Policy.Tiers.{policy_verdict}
use ski_framework.Evaluator.{
  Output, Request, Setting, report_for, guarded, normalized, drafted, aevaluate,
}
use ski_framework.Evaluator.Decided.{is_decided, enforce-decided, after_policy, aevaluate-decided}
use ski_framework.Evaluator.FailClosed.{enforce_fail_closed}

guarded-decided :
    (q : Request) (o : Output) → is_decided (guarded q o).0 ≡ true → (guarded q o).0 ≡ o.verdict
unfolding guarded
guarded-decided q o h = ground arith

-- The policy changes the verdict, the notes and the attestation only.
abbrev IsUntouched : Envelope → Envelope → Type 0
IsUntouched e before =
    (e.reasoning ≡ before.reasoning)
    × (e.kg_citations ≡ before.kg_citations)
    × (e.formalizable_assertions ≡ before.formalizable_assertions)
    × (e.verifier_result ≡ before.verifier_result)
    × (e.transcript_ref ≡ before.transcript_ref)

policy_for-IsUntouched :
    (force : Bool) (tier : RiskTier) (coerced : Bool) (e : Envelope)
    → IsUntouched (policy_for force tier coerced e) e
unfolding policy_for
policy_for-IsUntouched force tier coerced e =
    (ground arith, ground arith, ground arith, ground arith, ground arith)

policy-keeps :
    (force : Bool) (tier : RiskTier) (coerced : Bool) (e : Envelope)
    → is_decided (policy_for force tier coerced e).verdict ≡ true
    → (policy_for force tier coerced e).verdict ≡ e.verdict
policy-keeps force tier coerced e h = elim (policy_verdict force tier coerced e) [
  | inl same ↦ same
  | inr lost ↦ absurd (cc (rw lost at h))
]

-- The model's own verdict and texts, its citations, its normalised assertions, and the result of
-- the verifier.
abbrev pub IsCarried : Request → Output → Envelope → Type 0
IsCarried q o e =
    (e.verdict ≡ o.verdict)
    × (e.reasoning ≡ of_model o.reasoning)
    × (e.kg_citations ≡ o.citations)
    × (e.formalizable_assertions ≡ (normalized q o).0)
    × (e.verifier_result ≡ (report_for q o).result)
    × (e.transcript_ref ≡ q.transcript_ref)

module _ (s : Setting) (q : Request) where
  after_policy-IsCarried :
      (o : Output)
      → is_decided (after_policy s q o).verdict ≡ true
      → IsCarried q o (after_policy s q o)
  unfolding apply_risk_policy drafted
  after_policy-IsCarried o h =
      let (tier, coerced) = normalise_tier s.lower_other q.risk_tier in
      let same = policy-keeps s.force_discretionary tier coerced (drafted q o) h in
      let (text, cites, asserts, result, ref) =
        policy_for-IsUntouched s.force_discretionary tier coerced (drafted q o) in
      let own = guarded-decided q o (rw same at h) in
      (cc (same, own), text, cites, asserts, result, ref)

  -- If the evaluator ships a CLEAR or a FLAG, the model's answer validates, the verdict and the
  -- reasoning are the model's own, the citations are its citations, the assertions its normalised
  -- assertions, the result is the verifier's for this answer, and the transcript reference is the
  -- request's.
  pub shipped-IsCarried :
      (raw : Fields) (e : Envelope)
      → aevaluate s q raw ≡ some e
      → is_decided e.verdict ≡ true
      → (o : Output) × (s.parse raw ≡ some o) × IsCarried q o e
  shipped-IsCarried raw e shipped h =
      let (_, passed) = aevaluate-decided s q raw e shipped h in
      let o = passed.output in
      let decided : is_decided (enforce_fail_closed (report_for q o) (after_policy s q o)).verdict
          ≡ true =
        cc (passed.floored, h) in
      let unfloored = enforce-decided (report_for q o) (after_policy s q o) decided in
      let same : after_policy s q o ≡ e = cc (unfloored, passed.floored) in
      (
        o,
        passed.parsed,
        subst (IsCarried q o) same (after_policy-IsCarried o (rw unfloored at decided)),
      )
