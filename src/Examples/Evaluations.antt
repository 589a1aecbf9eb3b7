-- ===== src/Examples/Evaluations.antt =====
-- Evaluations of v3/evaluator.py.
use ski_framework.Verifier.Verify.{
  averify_report, report_by, tally_obligations, tally_obligation, tally_assertions, tally_assertion,
  normalize_satisfied, normalize_assertion,
}
use ski_framework.Evaluator.Missing.{
  missing_telemetry, unread_assertions, silent_obligations, is_silent, is_unread,
  is_missing_reading,
}
use ski_framework.Value.Numeric.{le_frac, of_int, eq_number, eq_frac}
use ski_framework.Verifier.Grounding.{
  split_unit, violation, grounding_violation, obligation_grounding_violation, is_grounded_in,
}
use ski_framework.Prelude.{
  ℕ, String, ◌≡◌, refl, true, false, Option, none, some, inl, is_empty, lookup, one_of,
}
use ski_framework.Value.{
  Fields, field, end, str, obj, find, get, contains, eq_value, number?, elements,
}
use ski_framework.Schema.{clear, null_stale, Envelope}
use ski_framework.Verifier.Handlers.{check_must_not_exceed, compare_real, real}
use ski_framework.Verifier.Window.{Context}
use ski_framework.Verifier.Predicates.{acheck_assertion, is_formalizable, is_known, check_assertion}
use ski_framework.Verifier.Enumerate.{
  candidate, mappings, has_unit_mismatch, obligation_probe, index_obligations, index_from,
  index_key, resolve_reading, repeats_later, candidates, enumerable_obligations,
}
use ski_framework.Verifier.Tally.{
  is_unflagged, with_fail_closed, report, classify, record_assertion, record_obligation, precheck,
  refuse,
}
use ski_framework.Verifier.Breach.{Breaches}
use ski_framework.Policy.{tier_1, normalise_tier, apply_risk_policy, policy_for}
use ski_framework.Evaluator.{
  Output, index_of, verify_output, dispatch, aevaluate, report_of, drafted, guarded, guard_missing,
  guard_empty,
}
use ski_framework.Evaluator.Citations.{cited_node_ids, valid_node_ids, invalid_ids, known_ids}
use ski_framework.Evaluator.Freshness.{freshness_gate, freshness_of, is_gated, gate_over}
use ski_framework.Evaluator.FailClosed.{is_kept, enforce_fail_closed, floor_notes}
use ski_framework.Evaluator.Floor.{breach_never_ships, hidden_never_ships}
use ski_framework.Evaluator.Clear.{IsEarned, clear-IsEarned}
use ski_framework.Evaluator.Decided.{AreValid, is_decided}
use ski_framework.Evaluator.TierOne.{IsVerified, tier_1_ships-IsVerified}
use ski_framework.Evaluator.Stale.{Answers, stale_ships_null_stale, unknown_ships_kept}
use ski_framework.Evaluator.Shipped.{IsCarried, shipped-IsCarried}
use ski_framework.Examples.Data.{
  limit, fresh_limit, nameless_limit, no_context, silent_context, request, raw, clear_answer,
  setting, candidate_of,
}

-- The run over a given obligation, tier and reading, of a model that says CLEAR.
abbrev shipped : Context → Fields → ℕ → String → Envelope
shipped c ob n tier =
    verify_output (setting (clear_answer n)) (request c ob n tier) (clear_answer n)

abbrev run : Context → Fields → ℕ → String → Fields → Option Envelope
run c ob n tier answer = aevaluate (setting (clear_answer n)) (request c ob n tier) answer

excess-Breaches : Breaches (acheck_assertion no_context) (candidate_of 80 limit "nox-limit")
unfolding has_unit_mismatch ski_framework.Verifier.Grounding.split_unit acheck_assertion lookup
    obligation_probe check_must_not_exceed ski_framework.Verifier.Handlers.compare_real
    ski_framework.Verifier.Handlers.real get ski_framework.Value.Numeric.le_frac
    ski_framework.Value.Numeric.of_int
excess-Breaches = (refl, refl)

excess-candidate :
    candidate (request no_context limit 80 "low").measurement "nox-limit" limit
    ≡ some (candidate_of 80 limit "nox-limit")
unfolding candidate get ski_framework.Verifier.Predicates.is_formalizable lookup
    ski_framework.Verifier.Enumerate.resolve_reading
excess-candidate = refl

excess-runs : run no_context limit 80 "low" raw ≡ some (shipped no_context limit 80 "low")
unfolding aevaluate one_of ski_framework.Evaluator.Raises.is_sortable
    ski_framework.Evaluator.completes index_key repeats_later valid_node_ids known_ids mappings find
    cited_node_ids invalid_ids get contains eq_value verify_output dispatch
excess-runs = refl

breach_never_ships_example : is_unflagged (shipped no_context limit 80 "low").verdict ≡ false
unfolding mappings
breach_never_ships_example =
    breach_never_ships (setting (clear_answer 80)) (request no_context limit 80 "low")
      (candidate_of 80 limit "nox-limit") "nox-limit" limit (inl refl) excess-candidate
      excess-Breaches raw (shipped no_context limit 80 "low") excess-runs

within-runs : run no_context limit 60 "high" raw ≡ some (shipped no_context limit 60 "high")
unfolding aevaluate one_of ski_framework.Evaluator.Raises.is_sortable
    ski_framework.Evaluator.completes index_key repeats_later valid_node_ids known_ids mappings find
    cited_node_ids invalid_ids get contains eq_value verify_output dispatch
within-runs = refl

within-clear : (shipped no_context limit 60 "high").verdict ≡ clear
unfolding verify_output drafted guarded guard_missing guard_empty report_of freshness_gate gate_over
    is_gated get find eq_value contains enforce_fail_closed floor_notes missing_telemetry
    unread_assertions silent_obligations is_silent is_unread is_missing_reading with_fail_closed
    report classify record_assertion record_obligation precheck refuse index_obligations index_from
    index_key repeats_later mappings candidates candidate enumerable_obligations resolve_reading
    has_unit_mismatch obligation_probe violation grounding_violation obligation_grounding_violation
    is_grounded_in split_unit averify_report report_by tally_obligations tally_obligation
    tally_assertions tally_assertion normalize_satisfied normalize_assertion is_known
    is_formalizable acheck_assertion check_assertion check_must_not_exceed compare_real real le_frac
    of_int eq_number eq_frac one_of lookup apply_risk_policy policy_for normalise_tier
    ski_framework.Value.number?
within-clear = refl

clear-IsEarned_example :
    AreValid (setting (clear_answer 60)) (request no_context limit 60 "high") raw
    × ((o : Output) × ((setting (clear_answer 60)).parse raw ≡ some o)
        × IsEarned (request no_context limit 60 "high") o)
clear-IsEarned_example =
    clear-IsEarned (setting (clear_answer 60)) (request no_context limit 60 "high") raw
      (shipped no_context limit 60 "high") within-runs within-clear

high_is_first : (normalise_tier (λ s. s) (str "high")).0 ≡ tier_1
unfolding normalise_tier
high_is_first = refl

within-decided : is_decided (shipped no_context limit 60 "high").verdict ≡ true
within-decided = rw within-clear refl

tier_1_ships-IsVerified_example :
    (o : Output) × ((setting (clear_answer 60)).parse raw ≡ some o)
    × IsVerified (request no_context limit 60 "high") o
tier_1_ships-IsVerified_example =
    tier_1_ships-IsVerified (setting (clear_answer 60)) (request no_context limit 60 "high")
      high_is_first raw (shipped no_context limit 60 "high") within-runs within-decided

stale-Answers :
    Answers silent_context
      (request silent_context fresh_limit 60 "low").measurement
      (some false)
      fresh_limit
unfolding is_gated get freshness_of
stale-Answers = (refl, refl)

stale-runs :
    run silent_context fresh_limit 60 "low" raw ≡ some (shipped silent_context fresh_limit 60 "low")
unfolding aevaluate one_of ski_framework.Evaluator.Raises.is_sortable
    ski_framework.Evaluator.completes index_key repeats_later valid_node_ids known_ids mappings find
    cited_node_ids invalid_ids get contains eq_value verify_output dispatch
stale-runs = refl

stale_ships_null_stale_example : (shipped silent_context fresh_limit 60 "low").verdict ≡ null_stale
unfolding mappings
stale_ships_null_stale_example =
    stale_ships_null_stale (setting (clear_answer 60)) (request silent_context fresh_limit 60 "low")
      fresh_limit (inl refl) stale-Answers raw (shipped silent_context fresh_limit 60 "low")
      stale-runs

unknown-Answers :
    Answers no_context (request no_context fresh_limit 60 "low").measurement none fresh_limit
unfolding is_gated get freshness_of
unknown-Answers = (refl, refl)

unknown-runs :
    run no_context fresh_limit 60 "low" raw ≡ some (shipped no_context fresh_limit 60 "low")
unfolding aevaluate one_of ski_framework.Evaluator.Raises.is_sortable
    ski_framework.Evaluator.completes index_key repeats_later valid_node_ids known_ids mappings find
    cited_node_ids invalid_ids get contains eq_value verify_output dispatch
unknown-runs = refl

unknown_ships_kept_example : is_kept (shipped no_context fresh_limit 60 "low").verdict ≡ true
unfolding mappings
unknown_ships_kept_example =
    unknown_ships_kept (setting (clear_answer 60)) (request no_context fresh_limit 60 "low")
      fresh_limit (inl refl) unknown-Answers raw (shipped no_context fresh_limit 60 "low")
      unknown-runs

hidden-violations :
    is_empty (index_of (request no_context nameless_limit 60 "low")).violations ≡ false
unfolding index_obligations ski_framework.Verifier.Enumerate.index_from mappings
    ski_framework.Verifier.Enumerate.index_key get candidate
    ski_framework.Verifier.Predicates.is_formalizable lookup
    ski_framework.Verifier.Enumerate.resolve_reading
hidden-violations = refl

-- The model cites nothing: the obligation has no id.
abbrev uncited : Fields
uncited = field "reasoning" (str "Nothing is mapped.") end

hidden-runs :
    run no_context nameless_limit 60 "low" uncited
    ≡ some (shipped no_context nameless_limit 60 "low")
unfolding aevaluate one_of ski_framework.Evaluator.Raises.is_sortable
    ski_framework.Evaluator.completes index_key repeats_later valid_node_ids known_ids mappings find
    cited_node_ids invalid_ids verify_output dispatch
hidden-runs = refl

hidden_never_ships_example : is_kept (shipped no_context nameless_limit 60 "low").verdict ≡ true
hidden_never_ships_example =
    hidden_never_ships (setting (clear_answer 60)) (request no_context nameless_limit 60 "low")
      hidden-violations uncited (shipped no_context nameless_limit 60 "low") hidden-runs

shipped-IsCarried_example :
    (o : Output) × ((setting (clear_answer 60)).parse raw ≡ some o)
    × IsCarried (request no_context limit 60 "high") o (shipped no_context limit 60 "high")
shipped-IsCarried_example =
    shipped-IsCarried (setting (clear_answer 60)) (request no_context limit 60 "high") raw
      (shipped no_context limit 60 "high") within-runs within-decided
