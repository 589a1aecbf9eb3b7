-- ===== src/Evaluator/Clear.antt =====
-- What a CLEAR rests on: every guard of v3/evaluator.py, each on the path of the verdict.
use ski_framework.Prelude.{
  ◌≡◌, refl, true, false, Option, none, some, List, [], ◌∷◌, arith, is_empty, is_empty-append_cons,
}
use ski_framework.Value.{Fields}
use ski_framework.Schema.{clear, Envelope, Divergence}
use ski_framework.Verifier.Tally.{VerificationReport, with_fail_closed}
use ski_framework.Policy.{normalise_tier, apply_risk_policy}
use ski_framework.Policy.Tiers.{policy_verdict}
use ski_framework.Evaluator.{
  Output, Request, Setting, index_of, gate_of, report_of, report_for, guarded, drafted, aevaluate,
}
use ski_framework.Evaluator.Decided.{after_policy, AreValid, aevaluate-decided}
use ski_framework.Evaluator.Missing.{missing_telemetry}
use ski_framework.Evaluator.Freshness.{Gate, apply_freshness}
use ski_framework.Evaluator.FailClosed.{enforce_fail_closed}

apply_freshness-clear :
    (g : Option Gate) (e : Envelope)
    → (apply_freshness g e).verdict ≡ clear
    → (g ≡ none) × (e.verdict ≡ clear)
unfolding apply_freshness
apply_freshness-clear g e h = ground arith

enforce-clear :
    (r : VerificationReport) (e : Envelope)
    → (enforce_fail_closed r e).verdict ≡ clear
    → (e.verdict ≡ clear)
      × (is_empty r.fail_closed ≡ true)
      × (is_empty r.breached_obligations ≡ true)
unfolding enforce_fail_closed
enforce-clear r e h = ground arith

policy-clear :
    (s : Setting) (q : Request) (e : Envelope)
    → (apply_risk_policy s.lower_other s.force_discretionary q.risk_tier e).verdict ≡ clear
    → e.verdict ≡ clear
unfolding apply_risk_policy
policy-clear s q e h =
    let (tier, coerced) = normalise_tier s.lower_other q.risk_tier in
    ground (arith, policy_verdict s.force_discretionary tier coerced e)

guarded-clear :
    (q : Request) (o : Output)
    → (guarded q o).0 ≡ clear
    → (o.verdict ≡ clear)
      × (is_empty o.assertions ≡ false)
      × (is_empty (missing_telemetry q.measurement q.obligations o.assertions) ≡ true)
unfolding guarded
guarded-clear q o h = ground arith

with_fail_closed-empty :
    (ds : List Divergence) (r : VerificationReport)
    → is_empty (with_fail_closed ds r).fail_closed ≡ true
    → (is_empty ds ≡ true) × (is_empty r.fail_closed ≡ true)
unfolding with_fail_closed
with_fail_closed-empty [] r h = (refl, h)
with_fail_closed-empty (d ∷ ds) r h = cc (is_empty-append_cons r.fail_closed d ds)

-- The answer, valid and CLEAR itself, with assertions; every mapped reading is there; no
-- freshness, schema, unit or index check failed; the verifier found no breach.
pub record IsEarned (q : Request) (o : Output) : Type 0 where
  pub llm_clear : o.verdict ≡ clear
  pub asserts : is_empty o.assertions ≡ false
  pub readings : is_empty (missing_telemetry q.measurement q.obligations o.assertions) ≡ true
  pub fresh : gate_of q ≡ none
  pub indexed : is_empty (index_of q).violations ≡ true
  pub checked : is_empty (report_for q o).fail_closed ≡ true
  pub unbreached : is_empty (report_for q o).breached_obligations ≡ true

module _ (s : Setting) (q : Request) where
  earned :
      (o : Output)
      → gate_of q ≡ none
      → (enforce_fail_closed (report_for q o) (after_policy s q o)).verdict ≡ clear
      → IsEarned q o
  unfolding drafted report_of
  earned o fresh h =
      let (kept, closed, floor) = enforce-clear (report_for q o) (after_policy s q o) h in
      let (llm, asserts, readings) = guarded-clear q o (policy-clear s q (drafted q o) kept) in
      let (index, _) = with_fail_closed-empty (index_of q).violations _ closed in
      record {
        llm_clear = llm;
        asserts = asserts;
        readings = readings;
        fresh = fresh;
        indexed = index;
        checked = closed;
        unbreached = floor;
      }

  -- If the evaluator ships an envelope whose verdict is CLEAR, every citation of the model's
  -- answer names a node of the slice, and the answer validates, is itself CLEAR and asserts
  -- something; every mapped reading is present, the freshness gate decides nothing, the index of
  -- the slice has no violation, and the verifier's report has no fail-closed entry and no breach.
  pub clear-IsEarned :
      (raw : Fields) (e : Envelope)
      → aevaluate s q raw ≡ some e
      → e.verdict ≡ clear
      → AreValid s q raw × ((o : Output) × (s.parse raw ≡ some o) × IsEarned q o)
  clear-IsEarned raw e shipped h =
      let (valid, passed) = aevaluate-decided s q raw e shipped (cc h) in
      let o = passed.output in
      (valid, (o, passed.parsed, earned o passed.fresh (cc (passed.floored, h))))
