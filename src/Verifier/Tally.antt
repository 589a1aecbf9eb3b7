-- ===== src/Verifier/Tally.antt =====
-- `_Tally` and `VerificationReport` of v3/verifier.py: the classification of one verify call.
use ski_framework.Prelude.{
  ℕ, ◌+◌, String, Bool, true, false, not, ◌&&◌, ◌||◌, Option, none, some, List, [], ◌∷◌, ◌++◌, all,
  is_empty, one_of, ltb, if◌then◌else◌,
}
use ski_framework.Value.{Fields}
use ski_framework.Schema.{
  Verdict, clear, flag, null_unmapped, VerifierStatus, agreed, llm_contradiction,
  neuro_symbolic_divergence, unverifiable, Assertion, VerifierResult, Divergence, schema_violation,
  not_checkable, disagreement, unflagged_breach, omitted_obligation, omitted_unverifiable,
  no_assertions, flag_without_breach, Note, independent_check,
}
use ski_framework.Verifier.Handlers.{Outcome}
use ski_framework.Verifier.Predicates.{is_known}
use ski_framework.Verifier.Grounding.{violation}

-- membership in `_UNFLAGGED_VERDICTS`
abbrev pub is_unflagged : Verdict → Bool
is_unflagged clear = true
is_unflagged null_unmapped = true
is_unflagged _ = false

abbrev pub is_flag : Verdict → Bool
is_flag flag = true
is_flag _ = false

pub record Tally : Type 0 where
  pub llm_verdict : Verdict
  pub divergences : List Divergence
  pub checked : ℕ
  pub unverifiable : ℕ
  pub contradictions : ℕ
  pub breached : List String
  pub fail_closed : List Divergence
  pub notes : List Note
  pub breach_reported : List String

abbrev pub empty_tally : Verdict → Tally
empty_tally verdict = record {
  llm_verdict = verdict;
  divergences = [];
  checked = 0;
  unverifiable = 0;
  contradictions = 0;
  breached = [];
  fail_closed = [];
  notes = [];
  breach_reported = [];
}

-- `_contradiction`
abbrev pub contradict : Divergence → Tally → Tally
contradict d t = record t {
  contradictions = t.contradictions + 1;
  divergences = t.divergences ++ d ∷ [];
}

-- `_unflagged`
abbrev pub unflagged : String → Tally → Tally
unflagged id t =
    contradict (unflagged_breach id) (record t { breach_reported = id ∷ t.breach_reported })

-- something that the verifier could not check
abbrev pub undecided : Divergence → Tally → Tally
undecided d t = record t {
  unverifiable = t.unverifiable + 1;
  divergences = t.divergences ++ d ∷ [];
}

-- `unit_mismatch`, and the schema branch of `precheck`
unfoldable pub refuse : Divergence → Tally → Tally
refuse d t = undecided d (record t { fail_closed = t.fail_closed ++ d ∷ [] })

abbrev count_checked : Tally → Tally
count_checked t = record t { checked = t.checked + 1 }

abbrev settle : Option Divergence → Tally → Tally × Bool
settle none t = (t, false)
settle (some d) t = (contradict d (count_checked t), true)

-- `precheck`, with whether it settled the assertion
unfoldable pub precheck :
    Assertion → Option Fields → Option (List (String × Fields)) → Tally → Tally × Bool
unfolding refuse
precheck a measurement obligations t =
    if is_known a.predicate
    then settle (violation a measurement obligations) t
    else (refuse (schema_violation a.obligation_id) t, true)

abbrev mark_breach : String → Bool → Tally → Tally
mark_breach id true t = t
mark_breach id false t = record t { breach_reported = id ∷ t.breach_reported }

-- `assertion`: the mechanical outcome of an assertion that passed `precheck`
unfoldable pub record_assertion : Assertion → Outcome → Tally → Tally
record_assertion a none t =
    let u = undecided (not_checkable a.obligation_id) t in
    if is_unflagged t.llm_verdict && not a.satisfied then unflagged a.obligation_id u else u
record_assertion a (some true) t =
    if a.satisfied
    then count_checked t
    else contradict (disagreement a.obligation_id false true) (count_checked t)
record_assertion a (some false) t =
    if a.satisfied
    then contradict (disagreement a.obligation_id true false)
        (mark_breach a.obligation_id false (count_checked t))
    else if is_unflagged t.llm_verdict
    then unflagged a.obligation_id (count_checked t)
    else count_checked t

abbrev mark_breached : String → Outcome → Tally → Tally
mark_breached id (some false) t = record t { breached = t.breached ++ id ∷ [] }
mark_breached id _ t = t

abbrev record_asserted : String → Outcome → Tally → Tally
record_asserted id (some false) t =
    if is_unflagged t.llm_verdict && not (one_of id t.breach_reported) then unflagged id t else t
record_asserted id _ t = t

abbrev record_omitted : String → Outcome → Tally → Tally
record_omitted id none t = undecided (omitted_unverifiable id) t
record_omitted id (some true) t = record (count_checked t) {
  notes = t.notes ++ independent_check id ∷ [];
}
record_omitted id (some false) t = contradict (omitted_obligation id) (count_checked t)

-- `obligation`: the verifier's own evaluation of one mapped obligation
unfoldable pub record_obligation : String → Outcome → Bool → Tally → Tally
record_obligation id outcome asserted t =
    let t' = mark_breached id outcome t in
    if asserted then record_asserted id outcome t' else record_omitted id outcome t'

pub record VerificationReport : Type 0 where
  pub result : VerifierResult
  pub breached_obligations : List String
  pub fail_closed : List Divergence
  pub notes : List Note

abbrev is_satisfied : Assertion → Bool
is_satisfied a = a.satisfied

abbrev opening : List Assertion → List Divergence
opening assertions = if is_empty assertions then no_assertions ∷ [] else []

-- the status, with the divergences that go with it
unfoldable pub classify : Tally → List Assertion → VerifierStatus × List Divergence
classify t assertions =
    if ltb 0 t.contradictions
    then (llm_contradiction, t.divergences)
    else if ltb 0 t.unverifiable || is_empty assertions
    then (unverifiable, opening assertions ++ t.divergences)
    else if is_flag t.llm_verdict && all is_satisfied assertions
    then (neuro_symbolic_divergence, flag_without_breach ∷ [])
    else (agreed, [])

-- `report`
unfoldable pub report : Tally → List Assertion → VerificationReport
report t assertions =
    let (status, divergences) = classify t assertions in
    record {
      result = record {
        status = status;
        checked_assertions = t.checked;
        divergences = divergences;
      };
      breached_obligations = t.breached;
      fail_closed = t.fail_closed;
      notes = t.notes;
    }

abbrev demote : VerifierStatus → VerifierStatus
demote llm_contradiction = llm_contradiction
demote _ = unverifiable

-- `VerificationReport.with_fail_closed`
unfoldable pub with_fail_closed : List Divergence → VerificationReport → VerificationReport
with_fail_closed [] r = r
with_fail_closed (d ∷ ds) r = record r {
  result = record {
    status = demote r.result.status;
    checked_assertions = r.result.checked_assertions;
    divergences = r.result.divergences ++ d ∷ ds;
  };
  fail_closed = r.fail_closed ++ d ∷ ds;
}
