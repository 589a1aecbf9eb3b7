-- ===== src/Scope.antt =====
-- `KnowledgeGraph.scope_to` of reference-implementation/src/ski_model/kg_loader.py: the slice of a
-- knowledge graph that applies to a measurement.
--
-- `from_iso` is `datetime.fromisoformat`, with `none` where it raises ValueError. A step gives
-- `none` where the Python code raises: a comparison of a datetime without an offset with one that
-- has one, or a membership test in a value that has no members.
pub mod Applies
pub mod Kept
use Prim.Native.String
use Prim.Native.Char.{Char, code}
use ski_framework.Prelude.{
  ℕ, String, Bool, true, false, ◌&&◌, ◌||◌, Option, none, some, List, [], ◌∷◌, ◌>>=◌, length,
  is_some, one_of, str_eq, ltb, ◌==◌, if◌then◌else◌,
}
use ski_framework.Value.{
  Value, null, str, arr, obj, Items, nil, cons, Fields, find, get, contains, elements, or_null,
}
use ski_framework.Value.Case.{strip, lower}
use ski_framework.Verifier.Window.{Time}

-- a datetime with an offset, or without one
pub data Moment : Type 0 where
  aware : Time → Moment
  naive : Moment

pub record KnowledgeGraph : Type 0 where
  pub version : String
  pub rules : List Fields
  pub definitions : Option Value
  pub metadata : Fields

-- What the tenant and the measurement ask for.
pub record Scope : Type 0 where
  pub jurisdiction : Option String
  pub as_of : Time
  pub subject : Option String

pub record Snapshot : Type 0 where
  pub version : String
  pub obligations : List Fields
  pub definitions : Value
  pub scope : Scope
  pub n_in : ℕ
  pub n_out : ℕ

-- `_UNIVERSAL_JURISDICTION_VALUES`
abbrev pub universal_values : List String
universal_values = "" ∷ "*" ∷ "global" ∷ []

unfoldable append_text : String → String → String
append_text String.[] t = t
append_text (String.◌∷◌ c s) t = String.◌∷◌ c (append_text s t)

-- `value.replace("Z", "+00:00")`
unfoldable replace_z : String → String
unfolding append_text
replace_z String.[] = String.[]
replace_z (String.◌∷◌ c s) =
    let rest = replace_z s in
    if code c == b'Z' then append_text "+00:00" rest else String.◌∷◌ c rest

-- `"T" in value`
unfoldable has_time : String → Bool
has_time String.[] = false
has_time (String.◌∷◌ c s) = code c == b'T' || has_time s

unfoldable starts_with : String → String → Bool
starts_with String.[] t = true
starts_with (String.◌∷◌ c s) String.[] = false
starts_with (String.◌∷◌ c s) (String.◌∷◌ d t) = code c == code d && starts_with s t

-- `s in t` of two texts
unfoldable pub has_substring : String → String → Bool
unfolding starts_with
has_substring s String.[] = starts_with s String.[]
has_substring s (String.◌∷◌ d t) = starts_with s (String.◌∷◌ d t) || has_substring s t

abbrev pub after : Option Moment → Time → Option Bool
after none as_of = some false
after (some (aware t)) as_of = some (ltb as_of t)
after (some naive) as_of = none

abbrev pub before : Option Moment → Time → Option Bool
before none as_of = some false
before (some (aware t)) as_of = some (ltb t as_of)
before (some naive) as_of = none

module _ (from_iso : String → Option Moment) (lower_other : String → String) where
  -- `_parse_iso_date`
  unfoldable pub parse_iso_date : Value → Option Moment
  unfolding has_time replace_z append_text
  parse_iso_date (str String.[]) = none
  parse_iso_date (str (String.◌∷◌ c s)) =
      if has_time (String.◌∷◌ c s)
      then from_iso (replace_z (String.◌∷◌ c s))
      else from_iso (append_text (String.◌∷◌ c s) "T00:00:00+00:00")
  parse_iso_date _ = none

  -- `.strip().lower()`
  unfoldable pub normalise : String → String
  normalise s = lower lower_other (strip s)

  abbrev pub matches : String → String → Bool
  matches wanted s = one_of (normalise s) universal_values || str_eq (normalise s) wanted

  unfoldable pub any_matches : String → Items → Bool
  any_matches wanted nil = false
  any_matches wanted (cons v vs) = elim v [
    | str s ↦ matches wanted s || any_matches wanted vs
    | _ ↦ any_matches wanted vs
  ]

  abbrev pub applies_in : String → Value → Bool
  applies_in wanted null = true
  applies_in wanted (str s) = matches wanted s
  applies_in wanted (arr vs) = any_matches wanted vs
  applies_in wanted _ = false

  unfoldable pub jurisdiction_applies : Option String → Fields → Bool
  jurisdiction_applies none rule = true
  jurisdiction_applies (some j) rule = applies_in (normalise j) (get "jurisdiction" rule)

  -- `_rule_is_in_scope`
  unfoldable pub rule_is_in_scope : Option String → Time → Fields → Option Bool
  rule_is_in_scope jurisdiction as_of rule = do
    pending ← after (parse_iso_date (get "effective_date" rule)) as_of
    ended ← if pending then some true else before (parse_iso_date (get "sunset_date" rule)) as_of
    some (if ended then false else jurisdiction_applies jurisdiction rule)

  -- `subject in rule["subjects"]`
  abbrev pub is_subject : String → Value → Option Bool
  is_subject subject (arr vs) = some (contains (str subject) (elements vs))
  is_subject subject (obj d) = some (is_some (find subject d))
  is_subject subject (str s) = some (has_substring subject s)
  is_subject subject _ = none

  abbrev pub applies_to : String → Option Value → Option Bool
  applies_to subject none = some true
  applies_to subject (some subjects) = is_subject subject subjects

  unfoldable pub subject_applies : Option String → Fields → Option Bool
  unfolding has_substring
  subject_applies none rule = some true
  subject_applies (some subject) rule = applies_to subject (find "subjects" rule)

  -- the condition of the list `kept`
  unfoldable pub is_kept_rule : Scope → Fields → Option Bool
  is_kept_rule scope rule = do
    in_scope ← rule_is_in_scope scope.jurisdiction scope.as_of rule
    if in_scope then subject_applies scope.subject rule else some false

  unfoldable pub kept : Scope → List Fields → Option (List Fields)
  kept scope [] = some []
  kept scope (rule ∷ rules) = do
    is_kept ← is_kept_rule scope rule
    rest ← kept scope rules
    some (if is_kept then rule ∷ rest else rest)

  abbrev pub definitions_of : Option Value → Fields → Value
  definitions_of (some v) metadata = v
  definitions_of none metadata = elim (find "definitions" metadata) [ some v ↦ v | none ↦ arr nil ]

  -- `scope_to`
  unfoldable pub scope_to : KnowledgeGraph → Scope → Option Snapshot
  scope_to kg scope = do
    obligations ← kept scope kg.rules
    some (record {
      version = kg.version;
      obligations = obligations;
      definitions = definitions_of kg.definitions kg.metadata;
      scope = scope;
      n_in = length kg.rules;
      n_out = length obligations;
    })
