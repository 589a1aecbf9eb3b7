-- ===== src/Registry.antt =====
-- `TagRegistry` of reference-implementation/src/tag_registry/registry.py: the rule that a subject is
-- bound to.
-- A Python dictionary is the list of its items in their order; the tags of a graph bind texts to
-- texts, as their type says.
pub mod Latest
use ski_framework.Prelude.{
  ℕ, String, Bool, true, false, Option, none, some, List, [], ◌∷◌, ◌>>=◌, lookup, is_some, length,
  str_eq, if◌then◌else◌,
}
use ski_framework.Value.{
  Value, null, bool, int, float, str, obj, arr, Fields, field, end, cons, nil, get,
}
use ski_framework.Value.Case.{strip, lower, collapse, is_blank}

-- `d[k] = v`
unfoldable pub set {ℓ} : {V : Type ℓ} → String → V → List (String × V) → List (String × V)
set k v [] = (k, v) ∷ []
set k v ((j, w) ∷ d) = let rest = set k v d in if str_eq j k then (j, v) ∷ d else (j, w) ∷ rest

-- The key that an id is in the index: none where it is falsy, or is no text and so never looked up.
-- Nothing where the id has no hash, and the code raises.
unfoldable pub rule_key : Value → Option (Option String)
unfolding is_blank
rule_key (str s) = some (if is_blank s then none else some s)
rule_key (obj (field k v d)) = none
rule_key (arr (cons v vs)) = none
rule_key _ = some none

abbrev pub add_rule : Option String → Fields → List (String × Fields) → List (String × Fields)
add_rule none r index = index
add_rule (some k) r index = set k r index

-- `{r.get("id"): r for r in rules if r.get("id")}`
unfoldable pub index_rules : List Fields → List (String × Fields) → Option (List (String × Fields))
unfolding rule_key set
index_rules [] index = some index
index_rules (r ∷ rules) index = do k ← rule_key (get "id" r); index_rules rules (add_rule k r index)

module _ (lower_other : String → String) where
  -- `_normalise`
  unfoldable pub normalise_subject : String → String
  unfolding strip lower collapse
  normalise_subject subject = collapse (lower lower_other (strip subject))

  -- the loop of `from_dict`; nothing where it raises
  unfoldable pub compile_tags :
      List (String × Fields)
      → List (String × String)
      → List (String × Fields)
      → Option (List (String × Fields))
  unfolding normalise_subject set lookup
  compile_tags index [] compiled = some compiled
  compile_tags index ((raw_subject, rule_id) ∷ tags) compiled = do
    rule ← lookup rule_id index
    compile_tags index tags (set (normalise_subject raw_subject) rule compiled)

  unfoldable pub from_dict : List (String × String) → List Fields → Option (List (String × Fields))
  unfolding index_rules compile_tags
  from_dict tag_registry rules = do
    rule_index ← index_rules rules []
    compile_tags rule_index tag_registry []

  unfoldable pub resolve_subject : String → List (String × Fields) → Option Fields
  unfolding normalise_subject lookup
  resolve_subject subject mapping = lookup (normalise_subject subject) mapping

  -- `__contains__`
  unfoldable pub has_subject : String → List (String × Fields) → Bool
  unfolding normalise_subject lookup
  has_subject subject mapping = is_some (lookup (normalise_subject subject) mapping)
