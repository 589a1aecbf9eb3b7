-- ===== src/Verifier/Grounding.antt =====
-- Grounding of an LLM assertion in v3/verifier.py: its observation against the measurement, and
-- its claim against the obligation that it cites.
use ski_framework.Prelude.{
  String, Bool, true, false, not, ◌&&◌, ◌||◌, Option, none, some, List, lookup, or_else,
  if◌then◌else◌,
}
use ski_framework.Value.{
  Value, null, str, float, obj, not_a_number, Fields, find, get, eq_value, is_bool, is_null,
}
use ski_framework.Schema.{
  Assertion, Divergence, fabricated_observation, fabricated_reference, metric_mismatch,
  predicate_mismatch, fabricated_value,
}

-- `_split_unit`: (value, unit) of a reading, which may be {"value": x, "unit": u}
unfoldable pub split_unit : Value → Value × Value
split_unit (obj d) = elim (find "value" d) [ some v ↦ (v, get "unit" d) | none ↦ (obj d, null) ]
split_unit raw = (raw, null)

abbrev is_nan : Value → Bool
is_nan (float not_a_number) = true
is_nan _ = false

-- A bool grounds only an equal bool; a NaN grounds a NaN; all else goes by `==`.
unfoldable pub is_grounded_in : Value → Value → Bool
is_grounded_in observed actual =
    if is_bool actual || is_bool observed
    then is_bool actual && is_bool observed && eq_value actual observed
    else (is_nan actual && is_nan observed) || eq_value actual observed

abbrev ground_reading : Assertion → Option Value → Option Divergence
ground_reading a none = some (fabricated_observation a.obligation_id)
ground_reading a (some raw) =
    if is_grounded_in a.observed (split_unit raw).0
    then none
    else some (fabricated_observation a.obligation_id)

abbrev is_windowed : Assertion → Bool
is_windowed a = elim a.window_seconds [ none ↦ false | some w ↦ true ]

-- `_grounding_violation`
unfoldable pub grounding_violation : Assertion → Fields → Option Divergence
unfolding is_grounded_in split_unit
grounding_violation a measurement =
    if is_windowed a || is_null a.observed
    then none
    else ground_reading a (find a.metric measurement)

-- the first three checks compare a field of the obligation only where it has one
abbrev differs : Value → Value → Bool
differs claimed recorded = not (is_null recorded) && not (eq_value claimed recorded)

abbrev ground_claim : Assertion → Fields → Option Divergence
ground_claim a ob =
    if differs (str a.metric) (get "metric" ob)
    then some (metric_mismatch a.obligation_id)
    else if differs (str a.predicate) (get "predicate" ob)
    then some (predicate_mismatch a.obligation_id)
    else if not (is_null a.value) && differs a.value (get "value" ob)
    then some (fabricated_value a.obligation_id)
    else none

abbrev ground_reference : Assertion → Option Fields → Option Divergence
ground_reference a none = some (fabricated_reference a.obligation_id)
ground_reference a (some ob) = ground_claim a ob

-- `_obligation_grounding_violation`; the obligations are a dict by id
unfoldable pub obligation_grounding_violation :
    Assertion → List (String × Fields) → Option Divergence
obligation_grounding_violation a obligations =
    ground_reference a (lookup a.obligation_id obligations)

abbrev ground_in : Assertion → Option Fields → Option Divergence
ground_in a none = none
ground_in a (some measurement) = grounding_violation a measurement

abbrev ground_by : Assertion → Option (List (String × Fields)) → Option Divergence
ground_by a none = none
ground_by a (some obligations) = obligation_grounding_violation a obligations

-- Both checks, each where its source was given; the first violation is the one reported.
unfoldable pub violation :
    Assertion → Option Fields → Option (List (String × Fields)) → Option Divergence
unfolding grounding_violation obligation_grounding_violation
violation a measurement obligations = or_else (ground_in a measurement) (ground_by a obligations)
