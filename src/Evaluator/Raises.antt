-- ===== src/Evaluator/Raises.antt =====
-- Where v3/evaluator.py and the verifier raise on documents that nothing has validated: `sorted` of ids that do
-- not compare, a predicate or a metric that has no hash, and a reasoning that is no text.
use ski_framework.Prelude.{Bool, true, not, ◌&&◌, ◌||◌, List, [], ◌∷◌, all, is_some}
use ski_framework.Value.{Value, Fields, get, eq_value, is_null, number?, text?}
use ski_framework.Verifier.Enumerate.{index_key}
use ski_framework.Evaluator.Missing.{named_in, stateful_predicates}
use ski_framework.Evaluator.Citations.{is_hashable}

abbrev all_equal : List Value → Bool
all_equal [] = true
all_equal (v ∷ vs) = all (eq_value v) vs

-- `sorted` of the set of the ids in `_render_canonical_prompt`: texts compare, and numbers do
unfoldable pub is_sortable : List Value → Bool
unfolding eq_value number?
is_sortable ids =
    all (λ v. is_some (text? v)) ids || all (λ v. is_some (number? v)) ids || all_equal ids

-- the test `ob.get("predicate") in` a set
abbrev pub has_predicate_hash : Fields → Bool
has_predicate_hash ob = is_hashable (get "predicate" ob)

-- `index_obligations` tests the predicate of each entry that it does not index.
unfoldable pub are_hidden_hashable : List Fields → Bool
unfolding get
are_hidden_hashable [] = true
are_hidden_hashable (ob ∷ rest) =
    let more = are_hidden_hashable rest in
    (is_some (index_key ob rest) || has_predicate_hash ob) && more

-- `_missing_telemetry` looks up the metric of an entry that is not windowed.
unfoldable pub is_metric_hashable : Fields → Bool
unfolding get
is_metric_hashable ob =
    named_in stateful_predicates (text? (get "predicate" ob))
    || not (is_null (get "window_seconds" ob))
    || is_hashable (get "metric" ob)

-- `V3VerdictEnvelope` takes a text for the reasoning.
abbrev pub has_text_reasoning : Fields → Bool
has_text_reasoning raw = is_some (text? (get "reasoning" raw))
