-- ===== src/Verifier/Agreed.antt =====
-- `report` of v3/verifier.py: what the status AGREED rests on.
use ski_framework.Prelude.{
  String, ◌≡◌, refl, ◌⊎◌, inl, inr, Bool, true, false, Option, none, some, List, [], ◌∷◌, arith,
  All, is_empty, one_of, Bool-cases,
}
use ski_framework.Value.{Fields}
use ski_framework.Schema.{Verdict, agreed, Assertion, Divergence, unit_mismatch}
use ski_framework.Verifier.Handlers.{Outcome}
use ski_framework.Verifier.Predicates.{is_known}
use ski_framework.Verifier.Grounding.{violation}
use ski_framework.Verifier.Enumerate.{
  Candidate, enumerable_obligations, has_unit_mismatch, obligation_probe,
}
use ski_framework.Verifier.Tally.{
  Tally, empty_tally, precheck, record_assertion, record_obligation, refuse, classify, report,
  is_unflagged,
}
use ski_framework.Verifier.Breach.{tally_assertion-Keeps}
use ski_framework.Verifier.Verify.{
  asserted_ids, tally_assertion, tally_assertions, tally_obligation, tally_obligations, report_by,
}

abbrev IsClean : Tally → Type 0
IsClean t = (t.contradictions ≡ 0) × (t.unverifiable ≡ 0)

-- The assertion is of a known type, grounded, and mechanically what the LLM said; under a verdict
-- that denies a breach it is satisfied.
abbrev pub IsConfirmed :
    (Assertion → Outcome)
    → Verdict
    → Option Fields
    → Option (List (String × Fields))
    → Assertion
    → Type 0
IsConfirmed check v m obs a =
    (is_known a.predicate ≡ true)
    × (violation a m obs ≡ none)
    × (check a ≡ some a.satisfied)
    × (is_unflagged v ≡ true → a.satisfied ≡ true)

-- The verifier's own evaluation of an obligation: in the declared unit, and satisfied unless the
-- LLM asserted the obligation.
abbrev pub IsCovered : (Assertion → Outcome) → List String → Candidate → Type 0
IsCovered check asserted c =
    (has_unit_mismatch c ≡ false)
    × ((one_of c.id asserted ≡ true) ⊎ (check (obligation_probe c) ≡ some true))

record_assertion-IsClean :
    (a : Assertion) (o : Outcome) (t : Tally)
    → IsClean (record_assertion a o t)
    → IsClean t × (o ≡ some a.satisfied) × (is_unflagged t.llm_verdict ≡ true → a.satisfied ≡ true)
unfolding record_assertion
record_assertion-IsClean a o t h = ground arith

module _ (m : Option Fields) (obs : Option (List (String × Fields))) (a : Assertion)
    (t : Tally) where
  precheck_clean :
      IsClean (precheck a m obs t).0
      → ((precheck a m obs t).1 ≡ false)
        × (is_known a.predicate ≡ true)
        × (violation a m obs ≡ none)
        × ((precheck a m obs t).0 ≡ t)
  unfolding precheck
  precheck_clean h = ground arith

module _ (check : Assertion → Outcome) (v : Verdict) (m : Option Fields)
    (obs : Option (List (String × Fields))) where
  tally_assertion-IsClean :
      (a : Assertion) (t : Tally)
      → t.llm_verdict ≡ v
      → IsClean (tally_assertion check m obs a t)
      → IsClean t × IsConfirmed check v m obs a
  unfolding tally_assertion
  tally_assertion-IsClean a t e h = elim (Bool-cases (precheck a m obs t).1) [
    | inl settled ↦ absurd (ground (arith, precheck_clean m obs a t (rw settled at h)))
    | inr unsettled ↦
        let (before, outcome, denied) =
          record_assertion-IsClean a (check a) (precheck a m obs t).0 (rw unsettled at h) in
        let (_, known, grounded, same) = precheck_clean m obs a t before in
        (rw same at before, (known, grounded, outcome, λ u. denied (rw (same, e) u)))
  ]

  tally_assertions-IsClean :
      (assertions : List Assertion) (t : Tally)
      → t.llm_verdict ≡ v
      → IsClean (tally_assertions check m obs assertions t)
      → IsClean t × All (IsConfirmed check v m obs) assertions
  unfolding tally_assertions
  tally_assertions-IsClean [] t e h = (h, tt)
  tally_assertions-IsClean (a ∷ rest) t e h =
      let t' = tally_assertion check m obs a t in
      let (clean, confirmed) =
        tally_assertions-IsClean rest t' (rw ((tally_assertion-Keeps check m obs a t).verdict) e)
          h in
      let (clean', first) = tally_assertion-IsClean a t e clean in (clean', (first, confirmed))

record_obligation-IsClean :
    (id : String) (o : Outcome) (asserted : Bool) (t : Tally)
    → IsClean (record_obligation id o asserted t)
    → IsClean t × ((asserted ≡ true) ⊎ (o ≡ some true))
unfolding record_obligation
record_obligation-IsClean id o asserted t h = ground arith

refuse-IsClean : (d : Divergence) (t : Tally) → ¬ IsClean (refuse d t)
unfolding refuse
refuse-IsClean d t h = omega arith

module _ (check : Assertion → Outcome) (asserted : List String) where
  tally_obligation-IsClean :
      (c : Candidate) (t : Tally)
      → IsClean (tally_obligation check asserted c t)
      → IsClean t × IsCovered check asserted c
  unfolding tally_obligation
  tally_obligation-IsClean c t h = elim (Bool-cases (has_unit_mismatch c)) [
    | inl e ↦ absurd (refuse-IsClean (unit_mismatch c.id) t (rw e at h))
    | inr e ↦
        let (clean, covered) =
          record_obligation-IsClean c.id (check (obligation_probe c)) (one_of c.id asserted) t
            (rw e at h) in
        (clean, (e, covered))
  ]

  tally_obligations-IsClean :
      (cs : List Candidate) (t : Tally)
      → IsClean (tally_obligations check asserted cs t)
      → IsClean t × All (IsCovered check asserted) cs
  unfolding tally_obligations
  tally_obligations-IsClean [] t h = (h, tt)
  tally_obligations-IsClean (c ∷ rest) t h =
      let (clean, covered) =
        tally_obligations-IsClean rest (tally_obligation check asserted c t) h in
      let (clean', first) = tally_obligation-IsClean c t clean in (clean', (first, covered))

classify_agreed :
    (t : Tally) (assertions : List Assertion)
    → (classify t assertions).0 ≡ agreed
    → IsClean t × (is_empty assertions ≡ false)
unfolding classify
classify_agreed t assertions h = ground arith

module _ (check : Assertion → Outcome) (v : Verdict) (m : Option Fields)
    (obs : Option (List (String × Fields))) (assertions : List Assertion) where
  -- If a report has the status AGREED, there is an assertion, every assertion is of a known type,
  -- grounded, and has the outcome of the verifier's own check, which is satisfied where the
  -- verdict denies a breach, and every obligation that the verifier can evaluate has no unit
  -- mismatch, and is asserted or found satisfied.
  pub report_by_agreed :
      (report_by check v m obs assertions).result.status ≡ agreed
      → (is_empty assertions ≡ false)
        × All (IsConfirmed check v m obs) assertions
        × All (IsCovered check (asserted_ids assertions)) (enumerable_obligations obs m)
  unfolding report_by report
  report_by_agreed h =
      let start = tally_assertions check m obs assertions (empty_tally v) in
      let (clean, some_assertion) = classify_agreed _ assertions h in
      let (clean', covered) =
        tally_obligations-IsClean check (asserted_ids assertions) (enumerable_obligations obs m)
          start clean in
      let (_, confirmed) =
        tally_assertions-IsClean check v m obs assertions (empty_tally v) refl clean' in
      (some_assertion, confirmed, covered)
