-- ===== src/Schema.antt =====
-- The verdict envelope of tools/ski-schemas/src/ski_schemas/envelope.py.
--
-- A message (an entry of `divergences` or `notes`) is a value that says which message it is and
-- names what the text names; the wording is left out. Provenance is carried along unread by
-- everything modelled here, and is left out too.
use ski_framework.Prelude.{ℕ, String, Bool, true, false, Option, List}
use ski_framework.Value.{Value, Fields}
use ski_framework.Value.Numeric.{ℤ}

-- §4.1
pub data Verdict : Type 0 where
  clear flag null_unmapped null_stale discretionary : Verdict

abbrev pub is_clear : Verdict → Bool
is_clear clear = true
is_clear _ = false

-- §4.5
pub data VerifierStatus : Type 0 where
  agreed llm_contradiction neuro_symbolic_divergence unverifiable : VerifierStatus

-- §4.3, with the role as its text
pub record Citation : Type 0 where
  pub node_id : String
  pub version : String
  pub role : String

-- §4.4
pub record Assertion : Type 0 where
  pub predicate : String
  pub metric : String
  pub value : Value
  pub observed : Value
  pub satisfied : Bool
  pub obligation_id : String
  pub window_seconds : Option ℤ

-- An entry of `divergences`; each names its obligation first.
pub data Divergence : Type 0 where
  schema_violation : String → Divergence
  hidden_obligation : ℕ → Divergence
  unit_mismatch : String → Divergence
  fabricated_observation : String → Divergence
  fabricated_reference : String → Divergence
  metric_mismatch : String → Divergence
  predicate_mismatch : String → Divergence
  fabricated_value : String → Divergence
  not_checkable : String → Divergence
  disagreement : String → Bool → Bool → Divergence
  unflagged_breach : String → Divergence
  omitted_obligation : String → Divergence
  omitted_unverifiable : String → Divergence
  no_assertions : Divergence
  flag_without_breach : Divergence
  invalid_citation : Value → Divergence
  output_contract : Divergence

pub record VerifierResult : Type 0 where
  pub status : VerifierStatus
  pub checked_assertions : ℕ
  pub divergences : List Divergence

-- An entry of the envelope's `notes`.
pub data Note : Type 0 where
  normalised : String → Bool → Note
  independent_check : String → Note
  missing_readings : List Value → Note
  no_assertions_remapped : Verdict → Note
  freshness_kept : Note
  freshness_remapped : Verdict → Note
  tier_coerced : Note
  forced_discretionary : Note
  tier_requires_agreed : Note
  contradiction_downgraded : Note
  divergence_downgraded : Note
  accepted_with_note : Note
  fail_closed_floor : Note
  breach_floor : Note

-- The model's text, or the framework's where it discards the model's answer.
pub data Reasoning : Type 0 where
  of_model : String → Reasoning
  citation_enforcement : List Value → Reasoning
  contract_violation : Reasoning

-- §4.2
pub record Envelope : Type 0 where
  pub verdict : Verdict
  pub reasoning : Reasoning
  pub kg_citations : List Citation
  pub formalizable_assertions : List Assertion
  pub verifier_result : VerifierResult
  pub transcript_ref : String
  pub human_attestation : Option Fields
  pub notes : List Note
