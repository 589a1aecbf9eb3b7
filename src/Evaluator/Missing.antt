-- ===== src/Evaluator/Missing.antt =====
-- Missing-telemetry detection of v3/evaluator.py.
--
-- A metric or a predicate that is no text names nothing here; where it has no hash the code raises,
-- which Raises has. Messages are kept apart by their id as it stands,
-- where the code takes `str` of it first; whether there is a message at all is the same.
use ski_framework.Prelude.{
  String, Bool, false, not, ◌&&◌, ◌||◌, Option, none, some, List, [], ◌∷◌, ◌++◌, is_some, one_of,
  if◌then◌else◌,
}
use ski_framework.Value.{Value, str, Fields, find, get, contains, is_null, text?}
use ski_framework.Schema.{Assertion}
use ski_framework.Verifier.Handlers.{real}
use ski_framework.Verifier.Grounding.{split_unit}
use ski_framework.Verifier.Enumerate.{mappings}

-- `_NUMERIC_PREDICATES`
abbrev pub numeric_predicates : List String
numeric_predicates =
    "must_not_exceed" ∷ "must_be_at_least" ∷ "must_be_below" ∷ "must_be_above" ∷ "must_be_within"
    ∷ []

-- `_STATEFUL_PREDICATES`
abbrev pub stateful_predicates : List String
stateful_predicates = "must_average_within" ∷ "must_not_exceed_in_window" ∷ []

abbrev pub named_in : List String → Option String → Bool
named_in names none = false
named_in names (some p) = one_of p names

-- `_is_missing_reading`: no reading at all, or no finite number where the predicate compares one
unfoldable pub is_missing_reading : Value → Option String → Bool
is_missing_reading raw predicate =
    let reading = (split_unit raw).0 in
    is_null reading || (named_in numeric_predicates predicate && not (is_some (real reading)))

-- A message is kept once for each id; here it is the id.
abbrev set_default : Value → List Value → List Value
set_default id found = if contains id found then found else found ++ id ∷ []

abbrev reads_missing : Option Value → Option String → Bool
reads_missing none predicate = false
reads_missing (some raw) predicate = is_missing_reading raw predicate

abbrev find_text : Option String → Fields → Option Value
find_text none d = none
find_text (some k) d = find k d

-- The obligation is mapped, not windowed, and its current reading is missing.
unfoldable pub is_silent : Fields → Fields → Bool
unfolding is_missing_reading
is_silent measurement ob =
    let predicate = text? (get "predicate" ob) in
    not (named_in stateful_predicates predicate)
    && is_null (get "window_seconds" ob)
    && reads_missing (find_text (text? (get "metric" ob)) measurement) predicate

-- The assertion is not windowed, and carries no usable reading.
unfoldable pub is_unread : Assertion → Bool
unfolding is_missing_reading
is_unread a =
    not (is_some a.window_seconds)
    && not (one_of a.predicate stateful_predicates)
    && is_missing_reading a.observed (some a.predicate)

unfoldable pub silent_obligations : Fields → List Fields → List Value → List Value
silent_obligations measurement [] found = found
silent_obligations measurement (ob ∷ rest) found =
    silent_obligations measurement rest
      (if is_silent measurement ob then set_default (get "id" ob) found else found)

unfoldable pub unread_assertions : List Assertion → List Value → List Value
unread_assertions [] found = found
unread_assertions (a ∷ rest) found =
    unread_assertions rest (if is_unread a then set_default (str a.obligation_id) found else found)

-- `_missing_telemetry`, as the ids that it reports
unfoldable pub missing_telemetry : Fields → List Value → List Assertion → List Value
missing_telemetry measurement obligations assertions =
    unread_assertions assertions (silent_obligations measurement (mappings obligations) [])
