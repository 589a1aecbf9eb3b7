-- ===== src/Verifier/Inputs.antt =====
-- `measurement_input_errors` of v3/verifier.py: the readings that the API rejects before an
-- evaluation.
--
-- An error names the path of the number, or the metric; its wording is left out.
pub mod Accepted
use ski_framework.Prelude.{
  ℕ, ◌+◌, ◌-◌, ◌*◌, ◌^◌, String, Bool, true, false, not, ◌&&◌, ◌||◌, Option, none, some, List, [],
  ◌∷◌, ◌++◌, ◌>>=◌, ◌>>◌, require, any, one_of, ltb, if◌then◌else◌,
}
use ski_framework.Value.{
  Value, null, bool, int, float, str, arr, obj, finite, infinity, not_a_number, Items, nil, cons,
  Fields, end, field, get, is_bool, text?, elements,
}
use ski_framework.Value.Numeric.{ℤ, pos_part, neg_part}
use ski_framework.Verifier.Grounding.{split_unit}
use ski_framework.Verifier.Enumerate.{resolve_reading}

-- `sys.float_info.max`
unfoldable pub max_double : ℕ
max_double = (2 ^ 53 - 1) * 2 ^ 971

-- `_NUMERIC_OPERAND_PREDICATES`
abbrev pub numeric_operand_predicates : List String
numeric_operand_predicates =
    "must_not_exceed" ∷ "must_be_at_least" ∷ "must_be_below" ∷ "must_be_above" ∷ "must_be_within"
    ∷ "must_average_within" ∷ "must_not_exceed_in_window" ∷ []

-- `.key` or `[index]`
pub data Step : Type 0 where
  key : String → Step
  index : ℕ → Step

-- beyond the range of a double
unfoldable pub is_out_of_range : ℤ → Bool
is_out_of_range n = ltb max_double (pos_part n + neg_part n)

-- `_non_finite_paths`, of a value, of the entries of a dict and of the items of a list
unfoldable mutual
  pub non_finite_paths : Value → List Step → List (List Step)
  non_finite_paths (float (infinity up)) path = path ∷ []
  non_finite_paths (float not_a_number) path = path ∷ []
  non_finite_paths (float (finite m e)) path = []
  non_finite_paths (int n) path = if is_out_of_range n then path ∷ [] else []
  non_finite_paths (obj d) path = paths_of_fields d path
  non_finite_paths (arr vs) path = paths_of_items vs 0 path
  non_finite_paths null path = []
  non_finite_paths (bool b) path = []
  non_finite_paths (str s) path = []

  pub paths_of_fields : Fields → List Step → List (List Step)
  paths_of_fields end path = []
  paths_of_fields (field k v d) path =
      non_finite_paths v (path ++ key k ∷ []) ++ paths_of_fields d path

  pub paths_of_items : Items → ℕ → List Step → List (List Step)
  paths_of_items nil n path = []
  paths_of_items (cons v vs) n path =
      non_finite_paths v (path ++ index n ∷ []) ++ paths_of_items vs (n + 1) path

abbrev pub is_plain_number : Value → Bool
is_plain_number (int n) = true
is_plain_number (float x) = true
is_plain_number _ = false

abbrev operands : Value → List Value
operands (arr vs) = elements vs
operands v = v ∷ []

abbrev names_numeric : Option String → Bool
names_numeric none = false
names_numeric (some p) = one_of p numeric_operand_predicates

-- `_expects_number`
unfoldable pub expects_number : Fields → Bool
expects_number ob =
    names_numeric (text? (get "predicate" ob)) || any is_plain_number (operands (get "value" ob))

pub data InputError : Type 0 where
  bad_number : List Step → InputError
  boolean_reading : String → InputError

abbrev bad_numbers : List (List Step) → List InputError
bad_numbers [] = []
bad_numbers (path ∷ paths) = bad_number path ∷ bad_numbers paths

-- One turn of the loop over the obligations: the metric whose reading is a boolean.
unfoldable pub boolean_metric : Fields → List String → Fields → Option String
boolean_metric measurement seen ob = do
  metric ← text? (get "metric" ob)
  require (not (one_of metric seen) && expects_number ob)
  raw ← resolve_reading metric measurement
  require (is_bool (split_unit raw).0)
  some metric

unfoldable pub boolean_errors : Fields → List String → List Fields → List InputError
boolean_errors measurement seen [] = []
boolean_errors measurement seen (ob ∷ rest) = elim (boolean_metric measurement seen ob) [
  | some metric ↦ boolean_reading metric ∷ boolean_errors measurement (metric ∷ seen) rest
  | none ↦ boolean_errors measurement seen rest
]

-- `measurement_input_errors`; a path starts at the measurement
unfoldable pub measurement_input_errors : Fields → List Fields → List InputError
measurement_input_errors measurement obligations =
    bad_numbers (paths_of_fields measurement []) ++ boolean_errors measurement [] obligations
