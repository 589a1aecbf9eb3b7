-- ===== src/Canonical/Parse.antt =====
-- Strict parsing of JSON text: `parse_json` of ski_schemas/canonical.py and its hooks.
-- `json.loads`, and Python's `int` and `float` of a literal, are parameters.
use ski_framework.Prelude.{
  ◌+◌, true, false, Option, none, some, List, [], ◌∷◌, String, leb, if◌then◌else◌, ◌>>=◌, is_some,
}
use ski_framework.Value.{
  Double, finite, infinity, not_a_number, Value, Fields, int, float, field, end, find,
}
use ski_framework.Value.Numeric.{ℤ, of_int, of_dyadic, eq_frac, pos_part, neg_part}
use ski_framework.Canonical.{Platform}

-- the hooks of `json.loads`; nothing where one raises
pub record Hooks : Type 0 where
  pub object_pairs_hook : List (String × Value) → Option Fields
  pub parse_constant : String → Option Value
  pub parse_float : String → Option Value
  pub parse_int : String → Option Value

-- what Python gives: `json.loads` with hooks, `int(literal)` and `float(literal)`
pub record Reader : Type 0 where
  pub loads : Hooks → String → Option Value
  pub int_of : String → Option ℤ
  pub double_of : String → Double

-- `result[name] = value` of a new name: the entry comes last
abbrev add_last : String → Value → Fields → Fields
add_last k v end = field k v end
add_last k v (field j w d) = field j w (add_last k v d)

-- `_no_duplicates`, with the entries so far
unfoldable pub no_duplicates : Fields → List (String × Value) → Option Fields
unfolding find
no_duplicates result [] = some result
no_duplicates result ((name, value) ∷ pairs) = elim (is_some (find name result)) [
  | true ↦ none
  | false ↦ no_duplicates (add_last name value result) pairs
]

-- `_reject_constant`
abbrev pub reject_constant : String → Option Value
reject_constant name = none

abbrev finite_value : Double → Option Value
finite_value (infinity up) = none
finite_value (finite m e) = some (float (finite m e))
finite_value not_a_number = some (float not_a_number)

-- the integer, or the double that it rounds to
abbrev rounded : ℤ → Double → Option Value
rounded value (finite m e) =
    some (if eq_frac (of_dyadic m e) (of_int value) then int value else float (finite m e))
rounded value (infinity up) = none
rounded value not_a_number = none

module _ (py : Platform) (reader : Reader) where
  unfoldable pub parse_float : String → Option Value
  parse_float literal = finite_value (reader.double_of literal)

  unfoldable pub parse_int : String → Option Value
  unfolding eq_frac of_dyadic of_int
  parse_int literal = reader.int_of literal >>= λ value.
      if leb (pos_part value + neg_part value) 9007199254740992
      then some (int value)
      else (py.float_of value >>= rounded value)

  -- `parse_json` of a text; a text holds no lone surrogate here, so `_check_tree` passes
  unfoldable pub parse_json : String → Option Value
  unfolding no_duplicates parse_float parse_int
  parse_json text =
      reader.loads
        (record {
          object_pairs_hook = no_duplicates end;
          parse_constant = reject_constant;
          parse_float = parse_float;
          parse_int = parse_int;
        })
        text
