-- ===== src/Evaluator/Citations.antt =====
-- Citation enforcement of v3/evaluator.py. The model's answer is read before it is validated, so
-- each step gives `none` where the Python code raises an exception that nothing catches.
use Prim.Native.String
use ski_framework.Prelude.{
  Bool, true, false, Option, none, some, List, [], ◌∷◌, ◌++◌, ◌>>=◌, if◌then◌else◌,
}
use ski_framework.Value.{
  Value, arr, obj, str, Items, nil, cons, Fields, end, find, get, contains, fields?,
}
use ski_framework.Verifier.Enumerate.{mappings}

-- `c.get("node_id")` for each item; an item that is no dict has no `get`
unfoldable pub node_ids : Items → Option (List Value)
node_ids nil = some []
node_ids (cons v rest) = do d ← fields? v; ids ← node_ids rest; some (get "node_id" d ∷ ids)

-- Iteration over any other value: an empty text or dict has no items, the items of the others
-- are texts, and what is no iterable raises too.
abbrev pub ids_of : Value → Option (List Value)
ids_of (arr vs) = node_ids vs
ids_of (str String.[]) = some []
ids_of (obj end) = some []
ids_of _ = none

abbrev pub or_empty : Option Value → Value
or_empty none = arr nil
or_empty (some v) = v

-- `cited_node_ids`
unfoldable pub cited_node_ids : Fields → Option (List Value)
unfolding node_ids
cited_node_ids raw = ids_of (or_empty (find "kg_citations" raw))

abbrev pub is_hashable : Value → Bool
is_hashable (arr vs) = false
is_hashable (obj d) = false
is_hashable _ = true

-- The ids of the nodes that have one; a set holds hashable values only.
unfoldable pub known_ids : List Fields → Option (List Value)
known_ids [] = some []
known_ids (node ∷ rest) = do
  ids ← known_ids rest
  elim (find "id" node) [
    | none ↦ some ids
    | some id ↦ if is_hashable id then some (id ∷ ids) else none
  ]

-- `valid_node_ids`
unfoldable pub valid_node_ids : List Value → List Value → Option (List Value)
valid_node_ids obligations definitions = do
  from_obligations ← known_ids (mappings obligations)
  from_definitions ← known_ids (mappings definitions)
  some (from_obligations ++ from_definitions)

-- `invalid`
unfoldable pub invalid_ids : List Value → List Value → Option (List Value)
invalid_ids [] valid = some []
invalid_ids (id ∷ rest) valid = do
  bad ← invalid_ids rest valid
  if is_hashable id then (if contains id valid then some bad else some (id ∷ bad)) else none
