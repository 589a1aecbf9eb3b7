-- ===== src/Verifier/Enumerate.antt =====
-- Independent enumeration in v3/verifier.py: the obligations that the verifier evaluates itself,
-- whatever the LLM asserted.
use ski_framework.Prelude.{
  ℕ, ◌+◌, String, Bool, true, false, not, ◌&&◌, ◌||◌, Option, none, some, List, [], ◌∷◌, ◌>>=◌,
  ◌>>◌, require, is_some, lookup, str_eq, if◌then◌else◌,
}
use ski_framework.Value.{Value, int, obj, Fields, find, get, eq_value, is_null, text?, fields?}
use ski_framework.Value.Numeric.{ℤ}
use ski_framework.Value.Text.{split_dots, has_dot}
use ski_framework.Schema.{Assertion, Divergence, hidden_obligation}
use ski_framework.Verifier.Predicates.{is_formalizable}
use ski_framework.Verifier.Grounding.{split_unit}

abbrev pub walk : List String → Value → Option Value
walk [] v = some v
walk (part ∷ parts) v = do d ← fields? v; inner ← find part d; walk parts inner

-- `_resolve_reading`: a top-level key, else a dotted path into nested objects
unfoldable pub resolve_reading : String → Fields → Option Value
unfolding split_dots has_dot
resolve_reading metric measurement = elim (find metric measurement) [
  | some raw ↦ some raw
  | none ↦ if has_dot metric then walk (split_dots metric) (obj measurement) else none
]

-- What the enumeration yields: an obligation with its id, its metric and its raw reading.
pub record Candidate : Type 0 where
  pub id : String
  pub metric : String
  pub predicate : String
  pub obligation : Fields
  pub raw : Value

-- One turn of the loop of `_enumerable_obligations`. A predicate that is no text is unknown here;
-- where it has no hash the code raises, which Evaluator/Raises has.
unfoldable pub candidate : Fields → String → Fields → Option Candidate
candidate measurement id ob = do
  metric ← text? (get "metric" ob)
  predicate ← text? (get "predicate" ob)
  require (is_formalizable predicate)
  raw ← resolve_reading metric measurement
  some (record { id = id; metric = metric; predicate = predicate; obligation = ob; raw = raw })

abbrev pub cons_some : Option Candidate → List Candidate → List Candidate
cons_some none cs = cs
cons_some (some c) cs = c ∷ cs

-- `_enumerable_obligations`, once both arguments are given
unfoldable pub candidates : Fields → List (String × Fields) → List Candidate
candidates measurement [] = []
candidates measurement ((id, ob) ∷ rest) =
    cons_some (candidate measurement id ob) (candidates measurement rest)

unfoldable pub enumerable_obligations :
    Option (List (String × Fields)) → Option Fields → List Candidate
enumerable_obligations (some obligations) (some measurement) = candidates measurement obligations
enumerable_obligations (some obligations) none = []
enumerable_obligations none measurement = []

-- `[ob for ob in obligations if isinstance(ob, Mapping)]`
unfoldable pub mappings : List Value → List Fields
mappings [] = []
mappings (v ∷ vs) = elim (fields? v) [ some d ↦ d ∷ mappings vs | none ↦ mappings vs ]

-- A later entry has this id, so this one is not the last.
unfoldable pub repeats_later : String → List Fields → Bool
repeats_later id [] = false
repeats_later id (ob ∷ rest) =
    elim (text? (get "id" ob)) [ some j ↦ str_eq j id | none ↦ false ] || repeats_later id rest

-- the id under which an entry is indexed, if it is
unfoldable pub index_key : Fields → List Fields → Option String
index_key ob rest = do id ← text? (get "id" ob); require (not (repeats_later id rest)); some id

pub record Index : Type 0 where
  pub obligations : List (String × Fields)
  pub violations : List Divergence

abbrev pub is_enumerable : Option Fields → Fields → Bool
is_enumerable none ob = false
is_enumerable (some measurement) ob = is_some (candidate measurement "_" ob)

-- the dict without a key
unfoldable pub without_key : String → List (String × Fields) → List (String × Fields)
without_key id [] = []
without_key id ((j, ob) ∷ rest) =
    let more = without_key id rest in if str_eq j id then more else (j, ob) ∷ more

-- `index[id] = ob`, before the assignments that gave the dict: a later one to the same key keeps the
-- place of this one and overwrites its value
unfoldable pub assign_before : String → Fields → List (String × Fields) → List (String × Fields)
unfolding lookup without_key
assign_before id ob index = elim (lookup id index) [
  | none ↦ (id, ob) ∷ index
  | some later ↦ (id, later) ∷ without_key id index
]

abbrev pub index_entry : Option Fields → ℕ → Fields → Option String → Index → Index
index_entry measurement position ob (some id) rest = record rest {
  obligations = assign_before id ob rest.obligations;
}
index_entry measurement position ob none rest =
    if is_enumerable measurement ob
    then record rest { violations = hidden_obligation position ∷ rest.violations }
    else rest

unfoldable pub index_from : Option Fields → ℕ → List Fields → Index
unfolding assign_before
index_from measurement position [] = record { obligations = []; violations = [] }
index_from measurement position (ob ∷ rest) =
    index_entry measurement position ob (index_key ob rest)
      (index_from measurement (position + 1) rest)

-- `index_obligations`
unfoldable pub index_obligations : List Value → Option Fields → Index
index_obligations obligations measurement = index_from measurement 0 (mappings obligations)

-- `_unit_mismatch`, as a test
unfoldable pub has_unit_mismatch : Candidate → Bool
has_unit_mismatch c =
    let unit = (split_unit c.raw).1 in
    let declared = get "unit" c.obligation in
    not (is_null unit) && not (is_null declared) && not (eq_value unit declared)

abbrev pub int? : Value → Option ℤ
int? (int n) = some n
int? _ = none

-- `_obligation_probe`: the KG's predicate and value, and the measured reading
unfoldable pub obligation_probe : Candidate → Assertion
unfolding split_unit
obligation_probe c = record {
  predicate = c.predicate;
  metric = c.metric;
  value = get "value" c.obligation;
  observed = (split_unit c.raw).0;
  satisfied = true;
  obligation_id = c.id;
  window_seconds = int? (get "window_seconds" c.obligation);
}
