-- ===== src/Evaluator.antt =====
-- `V3Evaluator.aevaluate_with_transcript` of reference-implementation/src/ski_model/v3/evaluator.py,
-- from the model's raw answer to the envelope.
--
-- The answer is the argument `raw`. Its validation by pydantic is the parameter `parse`, with
-- `none` where the code catches an exception. The transcript is signed beside the envelope and
-- changes nothing in it but `transcript_ref`, an argument here.
pub mod Missing
pub mod Freshness
pub mod FailClosed
pub mod Citations
pub mod Raises
pub mod Floor
pub mod Clear
pub mod Stale
pub mod Decided
pub mod TierOne
pub mod Shipped
use ski_framework.Prelude.{
  ℕ, String, Bool, true, false, not, ◌&&◌, ◌||◌, Option, none, some, List, [], ◌∷◌, ◌++◌, ◌>>=◌,
  ◌>>◌, require, all, is_empty, if◌then◌else◌,
}
use ski_framework.Value.{Value, Fields}
use ski_framework.Schema.{
  Verdict, null_unmapped, null_stale, discretionary, is_clear, VerifierStatus, llm_contradiction,
  unverifiable, Citation, Assertion, Divergence, no_assertions, invalid_citation, output_contract,
  VerifierResult, Note, missing_readings, no_assertions_remapped, Reasoning, of_model,
  citation_enforcement, contract_violation, Envelope,
}
use ski_framework.Verifier.Window.{Context}
use ski_framework.Verifier.Enumerate.{Index, mappings, index_obligations}
use ski_framework.Verifier.Tally.{VerificationReport, with_fail_closed}
use ski_framework.Verifier.Verify.{averify_report, normalize_satisfied}
use ski_framework.Policy.{apply_risk_policy}
use Missing.{missing_telemetry}
use Freshness.{Gate, freshness_gate, apply_freshness}
use FailClosed.{enforce_fail_closed}
use Raises.{
  is_sortable, has_predicate_hash, are_hidden_hashable, is_metric_hashable, has_text_reasoning,
}
use Citations.{cited_node_ids, valid_node_ids, invalid_ids}

-- The model's answer once it is validated.
pub record Output : Type 0 where
  pub verdict : Verdict
  pub reasoning : String
  pub assertions : List Assertion
  pub citations : List Citation

-- What one evaluation is given.
pub record Request : Type 0 where
  pub measurement : Fields
  pub obligations : List Value
  pub definitions : List Value
  pub risk_tier : Value
  pub transcript_ref : String
  pub context : Context

-- What the process is configured with, and the library calls.
pub record Setting : Type 0 where
  pub parse : Fields → Option Output
  pub force_discretionary : Bool
  pub lower_other : String → String

-- The index of the scoped slice, for the grounding and the enumeration.
abbrev pub index_of : Request → Index
index_of q = index_obligations q.obligations (some q.measurement)

abbrev pub gate_of : Request → Option Gate
gate_of q = freshness_gate q.context q.measurement q.obligations

unfoldable pub report_of : Request → Verdict → List Assertion → VerificationReport
report_of q verdict assertions = with_fail_closed (index_of q).violations (
    averify_report q.context verdict (some q.measurement) (some (index_of q).obligations)
      assertions)

abbrev invalid_citations : List Value → List Divergence
invalid_citations [] = []
invalid_citations (id ∷ ids) = invalid_citation id ∷ invalid_citations ids

abbrev without_opening : List Divergence → List Divergence
without_opening [] = []
without_opening (no_assertions ∷ ds) = without_opening ds
without_opening (d ∷ ds) = d ∷ without_opening ds

abbrev contradiction_or_unverifiable : VerifierStatus → VerifierStatus
contradiction_or_unverifiable llm_contradiction = llm_contradiction
contradiction_or_unverifiable _ = unverifiable

unfoldable pub citation_result : VerificationReport → List Value → VerifierResult
citation_result omitted invalid =
    if not (is_empty omitted.breached_obligations) || not (is_empty omitted.fail_closed)
    then record {
      status = contradiction_or_unverifiable omitted.result.status;
      checked_assertions = omitted.result.checked_assertions;
      divergences = invalid_citations invalid ++ without_opening omitted.result.divergences;
    }
    else record {
      status = unverifiable;
      checked_assertions = 0;
      divergences = invalid_citations invalid;
    }

-- The answer cites nodes that the slice does not have, and is discarded.
unfoldable pub discard_citations : Request → List Value → Envelope
discard_citations q invalid =
    let omitted = report_of q null_unmapped [] in
    apply_freshness (gate_of q) (
      enforce_fail_closed omitted (record {
        verdict = null_unmapped;
        reasoning = citation_enforcement invalid;
        kg_citations = [];
        formalizable_assertions = [];
        verifier_result = citation_result omitted invalid;
        transcript_ref = q.transcript_ref;
        human_attestation = none;
        notes = [];
      }))

-- The answer does not conform to the envelope's schema.
unfoldable pub refuse_contract : Request → Envelope
refuse_contract q = apply_freshness (gate_of q) (record {
  verdict = discretionary;
  reasoning = contract_violation;
  kg_citations = [];
  formalizable_assertions = [];
  verifier_result = record {
    status = unverifiable;
    checked_assertions = 0;
    divergences = output_contract ∷ [];
  };
  transcript_ref = q.transcript_ref;
  human_attestation = none;
  notes = [];
})

abbrev silent : Request → Output → List Value
silent q o = missing_telemetry q.measurement q.obligations o.assertions

-- The missing-telemetry guard.
unfoldable pub guard_missing : Request → Output → Verdict × List Note
guard_missing q o =
    if is_clear o.verdict && not (is_empty (silent q o))
    then (null_stale, missing_readings (silent q o) ∷ [])
    else (o.verdict, [])

-- The taxonomy guard: a CLEAR with no assertion is remapped.
unfoldable pub guard_empty : Output → Verdict × List Note → Verdict × List Note
guard_empty o (verdict, notes) =
    if is_clear verdict && is_empty o.assertions
    then (let remapped = if is_empty o.citations then null_unmapped else discretionary in
        (remapped, notes ++ no_assertions_remapped remapped ∷ []))
    else (verdict, notes)

-- The verdict that the verifier is given, with the notes of the two guards.
unfoldable pub guarded : Request → Output → Verdict × List Note
unfolding guard_missing guard_empty
guarded q o = guard_empty o (guard_missing q o)

abbrev pub normalized : Request → Output → List Assertion × List Note
normalized q o =
    normalize_satisfied (some q.measurement) (some (index_of q).obligations) o.assertions

abbrev pub report_for : Request → Output → VerificationReport
report_for q o = report_of q (guarded q o).0 (normalized q o).0

unfoldable pub drafted : Request → Output → Envelope
drafted q o = record {
  verdict = (guarded q o).0;
  reasoning = of_model o.reasoning;
  kg_citations = o.citations;
  formalizable_assertions = (normalized q o).0;
  verifier_result = (report_for q o).result;
  transcript_ref = q.transcript_ref;
  human_attestation = none;
  notes = (guarded q o).1 ++ (normalized q o).1 ++ (report_for q o).notes;
}

-- A freshness decision is final; else the policy applies, and the floor after it.
abbrev pub decide : Setting → Request → VerificationReport → Option Gate → Envelope → Envelope
decide s q r (some gate) e = apply_freshness (some gate) e
decide s q r none e =
    enforce_fail_closed r (apply_risk_policy s.lower_other s.force_discretionary q.risk_tier e)

unfoldable pub verify_output : Setting → Request → Output → Envelope
verify_output s q o = decide s q (report_for q o) (gate_of q) (drafted q o)

abbrev pub judge : Setting → Request → Option Output → Envelope
judge s q none = refuse_contract q
judge s q (some o) = verify_output s q o

unfoldable pub dispatch : Setting → Request → Fields → List Value → Envelope
dispatch s q raw invalid =
    if is_empty invalid then judge s q (s.parse raw) else discard_citations q invalid

-- what is left after the contract guard does not raise on the answer and the slice
abbrev is_built : Request → Fields → Option Output → Bool
is_built q raw none = true
is_built q raw (some o) =
    all has_predicate_hash (mappings q.obligations)
    && has_text_reasoning raw
    && (not (is_clear o.verdict) || all is_metric_hashable (mappings q.obligations))

-- The index, the report and the envelope are made without an exception.
unfoldable pub completes : Setting → Request → Fields → List Value → Bool
unfolding are_hidden_hashable is_metric_hashable mappings
completes s q raw invalid =
    are_hidden_hashable (mappings q.obligations)
    && (if is_empty invalid
        then is_built q raw (s.parse raw)
        else all has_predicate_hash (mappings q.obligations))

-- `aevaluate_with_transcript`; `none` where it raises
unfoldable pub aevaluate : Setting → Request → Fields → Option Envelope
aevaluate s q raw = do
  valid ← valid_node_ids q.obligations q.definitions
  cited ← cited_node_ids raw
  invalid ← invalid_ids cited valid
  require (is_sortable valid && completes s q raw invalid)
  some (dispatch s q raw invalid)
