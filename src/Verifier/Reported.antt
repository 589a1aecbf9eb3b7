-- ===== src/Verifier/Reported.antt =====
-- `report` of v3/verifier.py: what it says of a breach that the verifier evaluates itself.
use ski_framework.Prelude.{
  ◌<◌, String, ◌≡◌, refl, ◌⊎◌, inl, inr, true, false, Option, List, arith, In, In-nonempty, one_of,
}
use ski_framework.Value.{Fields}
use ski_framework.Schema.{Verdict, llm_contradiction, Assertion}
use ski_framework.Verifier.Handlers.{Outcome}
use ski_framework.Verifier.Enumerate.{Candidate, enumerable_obligations}
use ski_framework.Verifier.Tally.{Tally, empty_tally, classify, report, is_unflagged}
use ski_framework.Verifier.Verify.{asserted_ids, tally_assertions, tally_obligations, report_by}
use ski_framework.Verifier.Breach.{
  Breaches, IsSound, Keeps, Keeps-trans, tally_assertions-Keeps, tally_obligations-Keeps,
  tally_obligations-finds, tally_obligations-omitted,
}

empty-IsSound : (v : Verdict) → IsSound (empty_tally v)
empty-IsSound v = record { reported = inl refl; found = λ h. inl refl }

contradicted :
    (t : Tally) (assertions : List Assertion)
    → 0 < t.contradictions
    → (report t assertions).result.status ≡ llm_contradiction
unfolding report classify
contradicted t assertions h = ground arith

breached_of_report :
    (t : Tally) (assertions : List Assertion)
    → (report t assertions).breached_obligations ≡ t.breached
unfolding report
breached_of_report t assertions = refl

-- Found under a verdict that denies it.
denied :
    (t : Tally) (k : String)
    → IsSound t
    → In k t.breached
    → is_unflagged t.llm_verdict ≡ true
    → 0 < t.contradictions
denied t k s m u = ground (arith, s.found u, In-nonempty k t.breached m)

module _ (check : Assertion → Outcome) (v : Verdict) (m : Option Fields)
    (obs : Option (List (String × Fields))) (assertions : List Assertion) (c : Candidate)
    (enumerated : In c (enumerable_obligations obs m)) (breaches : Breaches check c) where
  before : Tally
  before = tally_assertions check m obs assertions (empty_tally v)

  after : Tally
  unfolding before
  after = tally_obligations check (asserted_ids assertions) (enumerable_obligations obs m) before

  after-Keeps : Keeps (empty_tally v) after
  unfolding after
  after-Keeps = Keeps-trans (tally_assertions-Keeps check m obs assertions (empty_tally v)) (
      tally_obligations-Keeps check (asserted_ids assertions) (enumerable_obligations obs m) before)

  found_after : In c.id after.breached
  unfolding after
  found_after =
      tally_obligations-finds check (asserted_ids assertions) c (enumerable_obligations obs m)
        before enumerated breaches

  -- If the verifier evaluates an enumerated obligation as breached, with no mismatch of units, the
  -- report lists it among the breached obligations, whatever the verdict and the assertions are.
  pub breached-report_by : In c.id (report_by check v m obs assertions).breached_obligations
  unfolding report_by after
  breached-report_by = rw breached_of_report found_after

  -- Let the verifier evaluate an enumerated obligation as breached, with no mismatch of units. If
  -- the verdict denies a breach, or no assertion names the obligation, the status of the report is
  -- LLM_CONTRADICTION.
  pub status-report_by :
      (is_unflagged v ≡ true) ⊎ (one_of c.id (asserted_ids assertions) ≡ false)
      → (report_by check v m obs assertions).result.status ≡ llm_contradiction
  unfolding report_by after
  status-report_by (inl u) = contradicted after assertions (
      denied after c.id (after-Keeps.sound (empty-IsSound v)) found_after
        (rw after-Keeps.verdict u))
  status-report_by (inr omitted) = contradicted after assertions (
      tally_obligations-omitted check (asserted_ids assertions) c (enumerable_obligations obs m)
        before enumerated breaches omitted)
