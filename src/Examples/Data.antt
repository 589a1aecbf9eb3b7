-- ===== src/Examples/Data.antt =====
-- A plant that measures NOx: one obligation (at most 75), and answers of a model about it.
use ski_framework.Prelude.{ℕ, String, Bool, true, false, none, some, [], ◌∷◌}
use ski_framework.Value.{int, str, arr, obj, nil, cons, Fields, end, field}
use ski_framework.Value.Numeric.{pos}
use ski_framework.Schema.{clear, Assertion}
use ski_framework.Verifier.Window.{nothing, sequence, bare, Buffer, Context}
use ski_framework.Verifier.Enumerate.{Candidate}
use ski_framework.Evaluator.{Output, Request, Setting}

abbrev pub limit : Fields
limit = field "id" (str "nox-limit") (
    field "metric" (str "nox")
      (field "predicate" (str "must_not_exceed") (field "value" (int (pos 75)) end)))

-- the same obligation, which asks for a sample of the last minute
abbrev pub fresh_limit : Fields
fresh_limit = field "requires_recent_within_seconds" (int (pos 60)) limit

-- the same obligation without an id
abbrev pub nameless_limit : Fields
nameless_limit =
    field "metric" (str "nox")
      (field "predicate" (str "must_not_exceed") (field "value" (int (pos 75)) end))

abbrev pub reading : ℕ → Fields
reading n = field "nox" (int (pos n)) end

-- the buffer has no sample
abbrev pub silent_buffer : Buffer
silent_buffer = record {
  window_query = λ subject as_of seconds metric. some nothing;
  has_fresh_sample = none;
}

abbrev pub no_context : Context
no_context = record { subject = none; as_of = none; buffer = none }

abbrev pub silent_context : Context
silent_context = record { subject = some "stack-1"; as_of = some 1000; buffer = some silent_buffer }

-- the buffer has the samples 70 and 74 of every window
abbrev pub sampled_context : Context
sampled_context = record {
  subject = some "stack-1";
  as_of = some 1000;
  buffer = some (record {
    window_query = λ subject as_of seconds metric.
        some (sequence (bare (int (pos 70)) ∷ bare (int (pos 74)) ∷ []));
    has_fresh_sample = none;
  });
}

abbrev pub request : Context → Fields → ℕ → String → Request
request context obligation n tier = record {
  measurement = reading n;
  obligations = obj obligation ∷ [];
  definitions = [];
  risk_tier = str tier;
  transcript_ref = "transcript:unsigned";
  context = context;
}

-- `raw["kg_citations"]` names the obligation.
abbrev pub raw : Fields
raw =
    field "kg_citations" (arr (cons (obj (field "node_id" (str "nox-limit") end)) nil))
      (field "reasoning" (str "The reading is below the limit.") end)

abbrev pub says : ℕ → Bool → Assertion
says n satisfied = record {
  predicate = "must_not_exceed";
  metric = "nox";
  value = int (pos 75);
  observed = int (pos n);
  satisfied = satisfied;
  obligation_id = "nox-limit";
  window_seconds = none;
}

abbrev pub clear_answer : ℕ → Output
clear_answer n = record {
  verdict = clear;
  reasoning = "within the limit";
  assertions = says n true ∷ [];
  citations = record { node_id = "nox-limit"; version = "1"; role = "primary" } ∷ [];
}

-- A process whose model gives this answer.
abbrev pub setting : Output → Setting
setting o = record { parse = λ raw. some o; force_discretionary = false; lower_other = λ s. s }

abbrev pub candidate_of : ℕ → Fields → String → Candidate
candidate_of n obligation id = record {
  id = id;
  metric = "nox";
  predicate = "must_not_exceed";
  obligation = obligation;
  raw = int (pos n);
}
