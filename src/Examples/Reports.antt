-- ===== src/Examples/Reports.antt =====
-- Reports of v3/verifier.py, and single checks.
use ski_framework.Verifier.Tally.{
  report, classify, record_assertion, record_obligation, precheck, refuse,
}
use ski_framework.Verifier.Grounding.{
  split_unit, violation, grounding_violation, obligation_grounding_violation, is_grounded_in,
}
use ski_framework.Value.Numeric.{Frac}
use ski_framework.Verifier.Window.{Sample}
use ski_framework.Prelude.{
  ◌↔◌, In, String, ◌≡◌, refl, true, false, Option, none, some, List, [], ◌∷◌, inl, inr, is_some,
  is_empty, lookup, one_of, All, In,
}
use ski_framework.Value.{
  Value, int, bool, str, obj, Fields, arr, nil, cons, get, find, eq_value, contains, number?,
}
use ski_framework.Value.Numeric.{pos, of_int, le_frac, eq_number, eq_frac}
use ski_framework.Schema.{clear, agreed, llm_contradiction, Assertion}
use ski_framework.Verifier.Handlers.{
  real, check_must_be_below, check_must_be_at_least, check_must_be_above, check_must_not_exceed,
  check_must_not_equal, check_must_equal, check_must_not_be_one_of, check_must_be_one_of,
  check_must_be_within, compare_real,
}
use ski_framework.Verifier.Window.{check_must_not_exceed_in_window, bare}
use ski_framework.Verifier.Predicates.{check_assertion, acheck_assertion, is_formalizable, is_known}
use ski_framework.Verifier.Enumerate.{
  candidate, mappings, enumerable_obligations, candidates, index_obligations, has_unit_mismatch,
  resolve_reading, obligation_probe,
}
use ski_framework.Verifier.Verify.{
  asserted_ids, report_by, normalize_satisfied, tally_obligations, tally_obligation,
  tally_assertions, tally_assertion,
}
use ski_framework.Verifier.Breach.{Breaches}
use ski_framework.Verifier.Reported.{breached-report_by, status-report_by}
use ski_framework.Verifier.Agreed.{IsConfirmed, IsCovered, report_by_agreed}
use ski_framework.Verifier.Complete.{IsKept, index_complete}
use ski_framework.Verifier.Normal.{claims, IsSettled, normalize_satisfied_lem}
use ski_framework.Verifier.Peak.{Reads, IsBelow, window_peak}
use ski_framework.Verifier.Inputs.{
  measurement_input_errors, expects_number, boolean_errors, boolean_metric, is_out_of_range,
  max_double, paths_of_fields,
}
use ski_framework.Verifier.Inputs.Accepted.{accepted_reading-real}
use ski_framework.Examples.Data.{
  limit, nameless_limit, reading, says, candidate_of, sampled_context,
}

abbrev index : Option (List (String × Fields))
index = some (("nox-limit", limit) ∷ [])

within-agreed :
    (report_by check_assertion clear (some (reading 60)) index (says 60 true ∷ [])).result.status
    ≡ agreed
unfolding get find eq_value contains report classify record_assertion record_obligation precheck
    refuse candidates candidate enumerable_obligations resolve_reading has_unit_mismatch
    obligation_probe violation grounding_violation obligation_grounding_violation is_grounded_in
    split_unit report_by tally_obligations tally_obligation tally_assertions tally_assertion
    is_known is_formalizable check_assertion check_must_not_exceed compare_real real le_frac of_int
    eq_number eq_frac one_of lookup ski_framework.Value.number?
within-agreed = refl

report_by_agreed_example :
    (is_empty (says 60 true ∷ []) ≡ false)
    × All (IsConfirmed check_assertion clear (some (reading 60)) index) (says 60 true ∷ [])
    × All
        (IsCovered check_assertion (asserted_ids (says 60 true ∷ [])))
        (enumerable_obligations index (some (reading 60)))
report_by_agreed_example =
    report_by_agreed check_assertion clear (some (reading 60)) index (says 60 true ∷ [])
      within-agreed

excess-listed :
    In (candidate_of 80 limit "nox-limit") (enumerable_obligations index (some (reading 80)))
unfolding enumerable_obligations candidates candidate ski_framework.Value.get
    ski_framework.Verifier.Predicates.is_formalizable lookup
    ski_framework.Verifier.Enumerate.resolve_reading
excess-listed = inl refl

excess-breached : Breaches check_assertion (candidate_of 80 limit "nox-limit")
unfolding ski_framework.Verifier.Enumerate.has_unit_mismatch
    ski_framework.Verifier.Grounding.split_unit check_assertion lookup
    ski_framework.Verifier.Enumerate.obligation_probe check_must_not_exceed
    ski_framework.Verifier.Handlers.compare_real real ski_framework.Value.get le_frac of_int
excess-breached = (refl, refl)

breached-report_by_example :
    In "nox-limit"
      (report_by check_assertion clear (some (reading 80)) index []).breached_obligations
breached-report_by_example =
    breached-report_by check_assertion clear (some (reading 80)) index []
      (candidate_of 80 limit "nox-limit") excess-listed excess-breached

status-report_by_example :
    (report_by check_assertion clear (some (reading 80)) index []).result.status ≡ llm_contradiction
status-report_by_example =
    status-report_by check_assertion clear (some (reading 80)) index []
      (candidate_of 80 limit "nox-limit") excess-listed excess-breached (inl refl)

hidden-candidate :
    candidate (reading 80) "any" nameless_limit ≡ some (candidate_of 80 nameless_limit "any")
unfolding candidate ski_framework.Value.get ski_framework.Verifier.Predicates.is_formalizable lookup
    ski_framework.Verifier.Enumerate.resolve_reading
hidden-candidate = refl

hidden-offered : In nameless_limit (mappings (obj limit ∷ obj nameless_limit ∷ []))
unfolding mappings
hidden-offered = inr (inl refl)

index_complete_example :
    IsKept
      (reading 80)
      (candidate_of 80 nameless_limit "any")
      (index_obligations (obj limit ∷ obj nameless_limit ∷ []) (some (reading 80)))
index_complete_example =
    index_complete (reading 80) (candidate_of 80 nameless_limit "any") "any" nameless_limit
      (obj limit ∷ obj nameless_limit ∷ []) hidden-offered hidden-candidate

normalize_satisfied_lem_example :
    let normalized = (normalize_satisfied (some (reading 80)) index (says 80 true ∷ [])).0 in
    (claims normalized ≡ claims (says 80 true ∷ []))
    × All (IsSettled (some (reading 80)) index) normalized
    × (normalize_satisfied (some (reading 80)) index normalized ≡ (normalized, []))
normalize_satisfied_lem_example =
    normalize_satisfied_lem (some (reading 80)) index (says 80 true ∷ [])

-- The peak of a minute may be 75 at most.
abbrev peak_claim : Assertion
peak_claim = record (says 74 true) {
  predicate = "must_not_exceed_in_window";
  window_seconds = some (pos 60);
}

window_peak_example :
    ((check_must_not_exceed_in_window sampled_context peak_claim ≡ none) ↔ (
      (s : Sample) (x : Frac)
      → In s (bare (int (pos 70)) ∷ bare (int (pos 74)) ∷ [])
      → Reads s x
      → ⊥))
    × ((check_must_not_exceed_in_window sampled_context peak_claim ≡ some true)
        ↔ IsBelow (bare (int (pos 70)) ∷ bare (int (pos 74)) ∷ []) (of_int (pos 75)))
unfolding real
window_peak_example =
    window_peak sampled_context peak_claim 59 (of_int (pos 75))
      (bare (int (pos 70)) ∷ bare (int (pos 74)) ∷ []) refl refl refl refl refl refl

-- A bool is reported where a number is measured.
abbrev bool_claim : Assertion
bool_claim = record (says 0 true) { observed = bool true }

-- The reading of 60 is accepted.
reading-accepted : measurement_input_errors (reading 60) (limit ∷ []) ≡ []
unfolding measurement_input_errors ski_framework.Verifier.Inputs.paths_of_fields
    ski_framework.Verifier.Inputs.is_out_of_range ski_framework.Verifier.Inputs.max_double
    ski_framework.Verifier.Inputs.boolean_errors ski_framework.Verifier.Inputs.boolean_metric get
    one_of expects_number resolve_reading split_unit
reading-accepted = refl

limit-expects : expects_number limit ≡ true
unfolding expects_number get one_of
limit-expects = refl

limit-candidate :
    candidate (reading 60) "nox-limit" limit ≡ some (candidate_of 60 limit "nox-limit")
unfolding candidate get is_formalizable lookup resolve_reading
limit-candidate = refl

accepted_reading-real_example : is_some (real (split_unit (int (pos 60))).0) ≡ true
unfolding split_unit
accepted_reading-real_example =
    accepted_reading-real (reading 60) (limit ∷ []) "nox-limit" limit
      (candidate_of 60 limit "nox-limit") reading-accepted (inl refl) limit-candidate limit-expects
      refl
