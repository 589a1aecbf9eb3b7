-- ===== src/Examples/Tiers.antt =====
-- Risk tiers: the governor of the registry, and the policy.
use ski_framework.Prelude.{String, none, List, [], ◌∷◌}
use ski_framework.Value.{str, Fields, field, end}
use ski_framework.Schema.{clear, VerifierStatus, of_model, Envelope}

abbrev envelope : VerifierStatus → Envelope
envelope status = record {
  verdict = clear;
  reasoning = of_model "within the limit";
  kg_citations = [];
  formalizable_assertions = [];
  verifier_result = record { status = status; checked_assertions = 1; divergences = [] };
  transcript_ref = "transcript:unsigned";
  human_attestation = none;
  notes = [];
}

abbrev keep_letters : String → String
keep_letters s = s

abbrev rules : List Fields
rules = field "risk_tier" (str "low") end ∷ field "risk_tier" (str "Standard") end ∷ []
