-- ===== src/Graph/Compile.antt =====
-- The second half of `compile_graph`: the checks of the whole graph, the descendants of a
-- jurisdiction, and the loop over the obligations.
use ski_framework.Prelude.{
  ℕ, zero, suc, ◌+◌, String, Bool, not, ◌&&◌, Option, none, some, List, [], ◌∷◌, ◌++◌, lookup,
  is_some, is_empty, all, one_of, length, ltb, str_eq, if◌then◌else◌,
}
use ski_framework.Value.{
  Value, null, str, obj, arr, Fields, field, end, Items, cons, nil, get, is_null, text?,
}
use ski_framework.Graph.Texts.{union, sort_texts, at, add_at}
use ski_framework.Graph.{
  NodeKind, rules, obligations, definitions, jurisdictions, Checked, ok, refused, ◌>>=◌, ◌>>◌,
  check, same_kind, node_kinds, known_lists, Node, node_at, index_nodes, ids_of_kind, Links,
  no_links, is_of_kind, read_edges, nodes_not_object, edges_not_array, unknown_list, empty_rule,
  obligation_incomplete, no_obligation,
}

-- `ruled`: the rules of the obligations
unfoldable pub ruled : List Node → List (String × List String) → List String
unfolding is_of_kind
ruled by_id [] = []
ruled by_id ((target, sources) ∷ owners) =
    let rest = ruled by_id owners in
    if is_of_kind obligations by_id target then sources ++ rest else rest

-- refuses the first of the rules that has no obligation
unfoldable pub check_rules : List String → List String → Checked (Unit {0})
unfolding one_of
check_rules with_obligation [] = ok tt
check_rules with_obligation (r ∷ rs) = do
  check (one_of r with_obligation) (empty_rule r)
  check_rules with_obligation rs

-- the parent of a jurisdiction, where it is a text
unfoldable pub parent_of : Node → Option String
unfolding get
parent_of n = if same_kind jurisdictions n.kind then text? (get "parent" n.content) else none

-- `children`: the jurisdictions by their parent
unfoldable pub children_of : List Node → List (String × List String) → List (String × List String)
unfolding parent_of add_at
children_of [] children = children
children_of (n ∷ by_id) children =
    children_of by_id (elim (parent_of n) [ some p ↦ add_at p n.id children | none ↦ children ])

-- The loop of `with_descendants`, with the top of the stack in front; nothing where the fuel is used
-- up before the stack is.
unfoldable pub descend :
    ℕ → List (String × List String) → List String → List String → Option (List String)
unfolding one_of at
descend fuel children seen [] = some seen
descend zero children seen (current ∷ stack) = none
descend (suc fuel) children seen (current ∷ stack) =
    let again = descend fuel children seen stack in
    let next = descend fuel children (current ∷ seen) (at current children ++ stack) in
    if one_of current seen then again else next

-- the rounds of the loop: each takes one text off the stack, where each jurisdiction is put once
abbrev pub rounds : List Node → List String → ℕ
rounds by_id roots = length roots + length (ids_of_kind jurisdictions by_id)

abbrev pub sorted_or_none : Option (List String) → List String
sorted_or_none none = []
sorted_or_none (some seen) = sort_texts seen

-- `with_descendants`
unfoldable pub with_descendants : List Node → List String → List String
unfolding descend children_of sort_texts
with_descendants by_id roots =
    sorted_or_none (descend (rounds by_id roots) (children_of by_id []) [] roots)

-- `compiled[key] = value`, behind the keys that are there, where the value is not None
abbrev pub optional : String → Value → Fields → Fields
optional k v rest = if is_null v then rest else field k v rest

unfoldable pub texts : List String → Items
texts [] = nil
texts (s ∷ ss) = cons (str s) (texts ss)

-- the union of the jurisdictions that the rules are scoped to, behind those of the obligation
unfoldable pub roots_of : List (String × List String) → List String → List String → List String
unfolding at union
roots_of scoped [] roots = roots
roots_of scoped (r ∷ rs) roots = roots_of scoped rs (union roots (at r scoped))

-- `_TIER_RANK`
abbrev pub rank_of_tier : String → Option ℕ
rank_of_tier s =
    if str_eq s "high"
    then some 0
    else if str_eq s "medium"
    then some 1
    else if str_eq s "low"
    then some 2
    else none

-- the better of two ranks with their tiers, the first one of two that are equal
abbrev pub stricter : Option (ℕ × String) → Option (ℕ × String) → Option (ℕ × String)
stricter none o = o
stricter (some a) none = some a
stricter (some a) (some b) = if ltb b.0 a.0 then some b else some a

abbrev pub ranked : Value → Option (ℕ × String)
ranked v = elim v [
  | str s ↦ elim (rank_of_tier s) [ none ↦ none | some n ↦ some (n, s) ]
  | _ ↦ none
]

abbrev pub tier_value : Option Node → Value
tier_value none = null
tier_value (some n) = get "risk_tier" n.content

-- `min(ranked, key=_TIER_RANK.__getitem__)` over the tiers of the rules
unfoldable pub best_tier : List Node → List String → Option (ℕ × String)
unfolding node_at get
best_tier by_id [] = none
best_tier by_id (r ∷ rs) = stricter (ranked (tier_value (node_at r by_id))) (best_tier by_id rs)

unfoldable pub applied : List (String × List String) → List String → List String → List String
unfolding at union
applied applies [] found = found
applied applies (r ∷ rs) found = applied applies rs (union found (at r applies))

-- the part of the loop over the obligations that reads the edges
unfoldable pub with_subjects : Links → List String → Fields → Fields
unfolding applied lookup sort_texts texts
with_subjects links owning rest =
    if is_empty owning
    then rest
    else field "rule_ids" (arr (texts (sort_texts owning))) (
        if all (λ r. is_some (lookup r links.applies)) owning
        then field "subjects" (arr (texts (sort_texts (applied links.applies owning [])))) rest
        else rest)

unfoldable pub with_tier : List Node → List String → Fields → Fields
unfolding best_tier
with_tier by_id owning rest = elim (best_tier by_id owning) [
  | none ↦ rest
  | some (n, tier) ↦ field "risk_tier" (str tier) rest
]

unfoldable pub with_jurisdiction : List Node → List String → Fields → Fields
unfolding with_descendants texts
with_jurisdiction by_id roots rest =
    if is_empty roots
    then rest
    else field "jurisdiction" (arr (texts (with_descendants by_id roots))) rest

-- `_COPIED_FIELDS`
abbrev pub copied_fields : List String
copied_fields =
    "metric" ∷ "value" ∷ "unit" ∷ "summary" ∷ "window_seconds" ∷ "requires_recent_within_seconds"
    ∷ []

unfoldable pub copy_fields : List String → Fields → Fields → Fields
unfolding get
copy_fields [] node rest = rest
copy_fields (k ∷ ks) node rest = optional k (get k node) (copy_fields ks node rest)

-- the dates of the node, under their other names
unfoldable pub with_dates : Fields → Fields → Fields
unfolding get
with_dates node rest =
    optional "effective_date" (get "effective_date_start" node)
      (optional "sunset_date" (get "effective_date_end" node) rest)

abbrev pub is_text : Value → Bool
is_text v = is_some (text? v)

-- the body of the loop over the obligations
unfoldable pub compile_obligation : List Node → Links → Node → Checked Fields
unfolding copy_fields with_dates with_jurisdiction with_tier with_subjects roots_of at
compile_obligation by_id links n = do
  check (is_text (get "metric" n.content) && is_text (get "obligation_type" n.content))
      (obligation_incomplete n.id)
  let rules_of = at n.id links.owners
  let roots = roots_of links.scoped rules_of (at n.id links.scoped)
  ok (
      field "id" (str n.id) (
        field "predicate" (get "obligation_type" n.content) (
          copy_fields copied_fields n.content (
            with_dates n.content (
              with_jurisdiction by_id roots
                (with_tier by_id rules_of (with_subjects links rules_of end)))))))

unfoldable pub compile_obligations : List Node → Links → List Node → Checked (List Fields)
unfolding compile_obligation
compile_obligations by_id links [] = ok []
compile_obligations by_id links (n ∷ ns) =
    let rest = compile_obligations by_id links ns in
    if same_kind obligations n.kind
    then (do compiled ← compile_obligation by_id links n; others ← rest; ok (compiled ∷ others))
    else rest

unfoldable pub contents_of : NodeKind → List Node → List Fields
contents_of kind [] = []
contents_of kind (n ∷ by_id) =
    let rest = contents_of kind by_id in if same_kind kind n.kind then n.content ∷ rest else rest

abbrev object_of : Value → Checked Fields
object_of v = elim v [ obj d ↦ ok d | _ ↦ refused nodes_not_object ]

abbrev array_of : Value → Checked Items
array_of v = elim v [ arr vs ↦ ok vs | _ ↦ refused edges_not_array ]

unfoldable pub finish_graph : List Node → List Fields → Checked (List Fields × List Fields)
unfolding contents_of
finish_graph by_id compiled = do
  check (not (is_empty compiled)) no_obligation
  ok (compiled, contents_of definitions by_id)

-- the loop over the obligations, and what follows it
unfoldable pub compile_nodes : List Node → Links → Checked (List Fields × List Fields)
unfolding compile_obligations finish_graph
compile_nodes by_id links = do
  compiled ← compile_obligations by_id links by_id
  finish_graph by_id compiled

unfoldable pub compile_linked : List Node → Links → Checked (List Fields × List Fields)
unfolding ruled check_rules compile_nodes ids_of_kind
compile_linked by_id links = do
  check_rules (ruled by_id links.owners) (ids_of_kind rules by_id)
  compile_nodes by_id links

unfoldable pub compile_indexed : Items → List Node → Checked (List Fields × List Fields)
unfolding read_edges compile_linked
compile_indexed edges by_id = do links ← read_edges by_id edges no_links; compile_linked by_id links

-- `compile_graph`
unfoldable pub compile_graph : Value → Value → Checked (List Fields × List Fields)
unfolding known_lists index_nodes compile_indexed
compile_graph nodes edges = do
  lists ← object_of nodes
  items ← array_of edges
  check (known_lists lists) unknown_list
  by_id ← index_nodes node_kinds lists []
  compile_indexed items by_id
