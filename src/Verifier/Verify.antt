-- ===== src/Verifier/Verify.antt =====
-- `verify_report`, `averify_report` and `normalize_satisfied` of v3/verifier.py. The two report
-- methods have the same two loops, and differ in the check that they make, and in the reason that it
-- gives, which is left out.
use ski_framework.Prelude.{
  String, Bool, true, false, Option, none, some, List, [], ◌∷◌, ◌++◌, one_of, if◌then◌else◌,
}
use ski_framework.Value.{Fields}
use ski_framework.Schema.{Verdict, Assertion, VerifierResult, Note, normalised, unit_mismatch}
use ski_framework.Verifier.Handlers.{Outcome}
use ski_framework.Verifier.Window.{Context}
use ski_framework.Verifier.Predicates.{check_assertion, acheck_assertion}
use ski_framework.Verifier.Grounding.{violation}
use ski_framework.Verifier.Enumerate.{
  Candidate, enumerable_obligations, has_unit_mismatch, obligation_probe,
}
use ski_framework.Verifier.Tally.{
  Tally, empty_tally, precheck, record_assertion, record_obligation, refuse, report,
  VerificationReport,
}

-- the set `asserted`
abbrev pub asserted_ids : List Assertion → List String
asserted_ids [] = []
asserted_ids (a ∷ rest) = a.obligation_id ∷ asserted_ids rest

module _ (check : Assertion → Outcome) where
  unfoldable pub tally_assertion :
      Option Fields → Option (List (String × Fields)) → Assertion → Tally → Tally
  tally_assertion measurement obligations a t =
      let (t', settled) = precheck a measurement obligations t in
      if settled then t' else record_assertion a (check a) t'

  unfoldable pub tally_assertions :
      Option Fields → Option (List (String × Fields)) → List Assertion → Tally → Tally
  tally_assertions measurement obligations [] t = t
  tally_assertions measurement obligations (a ∷ rest) t =
      tally_assertions measurement obligations rest (tally_assertion measurement obligations a t)

  unfoldable pub tally_obligation : List String → Candidate → Tally → Tally
  tally_obligation asserted c t =
      if has_unit_mismatch c
      then refuse (unit_mismatch c.id) t
      else record_obligation c.id (check (obligation_probe c)) (one_of c.id asserted) t

  unfoldable pub tally_obligations : List String → List Candidate → Tally → Tally
  tally_obligations asserted [] t = t
  tally_obligations asserted (c ∷ rest) t =
      tally_obligations asserted rest (tally_obligation asserted c t)

  -- the body that the two methods share
  unfoldable pub report_by :
      Verdict
      → Option Fields
      → Option (List (String × Fields))
      → List Assertion
      → VerificationReport
  report_by verdict measurement obligations assertions =
      report
        (tally_obligations (asserted_ids assertions)
          (enumerable_obligations obligations measurement)
          (tally_assertions measurement obligations assertions (empty_tally verdict)))
        assertions

unfoldable pub verify_report :
    Verdict → Option Fields → Option (List (String × Fields)) → List Assertion → VerificationReport
verify_report = report_by check_assertion

unfoldable pub verify :
    Verdict → Option Fields → Option (List (String × Fields)) → List Assertion → VerifierResult
verify verdict measurement obligations assertions =
    (verify_report verdict measurement obligations assertions).result

unfoldable pub averify_report :
    Context
    → Verdict
    → Option Fields
    → Option (List (String × Fields))
    → List Assertion
    → VerificationReport
averify_report context = report_by (acheck_assertion context)

unfoldable pub averify :
    Context
    → Verdict
    → Option Fields
    → Option (List (String × Fields))
    → List Assertion
    → VerifierResult
averify context verdict measurement obligations assertions =
    (averify_report context verdict measurement obligations assertions).result

abbrev correct : Assertion → Bool → Assertion × List Note
correct a true =
    if a.satisfied
    then (a, [])
    else (record a { satisfied = true }, normalised a.obligation_id true ∷ [])
correct a false =
    if a.satisfied
    then (record a { satisfied = false }, normalised a.obligation_id false ∷ [])
    else (a, [])

abbrev normalize_by : Assertion → Option Bool → Assertion × List Note
normalize_by a none = (a, [])
normalize_by a (some mechanical) = correct a mechanical

-- One turn of the loop of `normalize_satisfied`: an ungrounded assertion is left alone.
unfoldable pub normalize_assertion :
    Option Fields → Option (List (String × Fields)) → Assertion → Assertion × List Note
normalize_assertion measurement obligations a = elim (violation a measurement obligations) [
  | some d ↦ (a, [])
  | none ↦ normalize_by a (check_assertion a)
]

abbrev prepend : Assertion × List Note → List Assertion × List Note → List Assertion × List Note
prepend (a, n) (rest, notes) = (a ∷ rest, n ++ notes)

unfoldable pub normalize_satisfied :
    Option Fields → Option (List (String × Fields)) → List Assertion → List Assertion × List Note
normalize_satisfied measurement obligations [] = ([], [])
normalize_satisfied measurement obligations (a ∷ rest) =
    prepend (normalize_assertion measurement obligations a)
      (normalize_satisfied measurement obligations rest)
