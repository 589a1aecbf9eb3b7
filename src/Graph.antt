-- ===== src/Graph.antt =====
-- `compile_graph` of reference-implementation/src/ski_model/kg_graph.py: the obligations that the
-- evaluator works on, from the nodes and edges of a signed knowledge graph.
--
-- A refusal (`raise ValueError`) is a value that says which check failed. A Python dictionary is the
-- list of its items in their order.
pub mod Texts
pub mod Compile
pub mod Descend
pub mod Edges
pub mod Compiled
pub mod Routed
pub mod Owned
pub mod Tiered
use ski_framework.Prelude.{
  ℕ, zero, suc, ◌+◌, String, Bool, true, false, not, ◌&&◌, Option, none, some, List, [], ◌∷◌, ◌++◌,
  lookup, is_some, is_empty, all, one_of, length, ltb, or_else, str_eq, if◌then◌else◌,
}
use ski_framework.Value.{
  Value, null, str, obj, arr, Fields, field, end, Items, cons, nil, find, get, is_null, text?,
  fields?,
}
use ski_framework.Value.Case.{is_blank}
use ski_framework.Graph.Texts.{add, union, sort_texts, at, append_at, add_at}

-- `NODE_KINDS`
pub data NodeKind : Type 0 where
  subjects rules obligations definitions exemptions precedents jurisdictions citations : NodeKind

pub data GraphError : Type 0 where
  nodes_not_object edges_not_array unknown_list : GraphError
  list_not_array node_without_id : NodeKind → GraphError
  repeated_id : String → GraphError
  edge_not_object edge_not_text : GraphError
  unknown_end : String → String → GraphError
  empty_rule : String → GraphError
  obligation_incomplete : String → GraphError
  no_obligation : GraphError

pub data Checked {ℓ} (A : Type ℓ) : Type ℓ where
  ok : A → Checked A
  refused : GraphError → Checked A

infixl 5 ◌>>=◌ ◌>>◌
abbrev pub ◌>>=◌ {ℓ κ} : {A : Type ℓ} {B : Type κ} → Checked A → (A → Checked B) → Checked B
ok a >>= f = f a
refused e >>= f = refused e

abbrev pub ◌>>◌ {κ} : {B : Type κ} → Checked (Unit {0}) → Checked B → Checked B
m >> k = m >>= λ _. k

abbrev pub check : Bool → GraphError → Checked (Unit {0})
check true e = ok tt
check false e = refused e

abbrev pub list_name : NodeKind → String
list_name subjects = "subjects"
list_name rules = "rules"
list_name obligations = "obligations"
list_name definitions = "definitions"
list_name exemptions = "exemptions"
list_name precedents = "precedents"
list_name jurisdictions = "jurisdictions"
list_name citations = "citations"

abbrev pub node_kinds : List NodeKind
node_kinds =
    subjects ∷ rules ∷ obligations ∷ definitions ∷ exemptions ∷ precedents ∷ jurisdictions
    ∷ citations ∷ []

abbrev list_names : List String
list_names =
    "subjects" ∷ "rules" ∷ "obligations" ∷ "definitions" ∷ "exemptions" ∷ "precedents"
    ∷ "jurisdictions" ∷ "citations" ∷ []

abbrev pub same_kind : NodeKind → NodeKind → Bool
same_kind subjects k = elim k [ subjects ↦ true | _ ↦ false ]
same_kind rules k = elim k [ rules ↦ true | _ ↦ false ]
same_kind obligations k = elim k [ obligations ↦ true | _ ↦ false ]
same_kind definitions k = elim k [ definitions ↦ true | _ ↦ false ]
same_kind exemptions k = elim k [ exemptions ↦ true | _ ↦ false ]
same_kind precedents k = elim k [ precedents ↦ true | _ ↦ false ]
same_kind jurisdictions k = elim k [ jurisdictions ↦ true | _ ↦ false ]
same_kind citations k = elim k [ citations ↦ true | _ ↦ false ]

-- `set(nodes) - set(NODE_KINDS)` is empty
unfoldable pub known_lists : Fields → Bool
unfolding one_of
known_lists end = true
known_lists (field k v d) = one_of k list_names && known_lists d

pub record Node : Type 0 where
  pub id : String
  pub kind : NodeKind
  pub content : Fields

abbrev usable_id : Value → Option String
usable_id v = elim v [ str s ↦ if is_blank s then none else some s | _ ↦ none ]

-- `nodes.get(kind, [])`, which has to be a list
unfoldable pub node_list : NodeKind → Fields → Checked Items
unfolding find
node_list kind nodes = elim (find (list_name kind) nodes) [
  | none ↦ ok nil
  | some (arr vs) ↦ ok vs
  | some _ ↦ refused (list_not_array kind)
]

unfoldable pub node_of : NodeKind → Value → Checked Node
unfolding get is_blank
node_of kind v = elim v [
  | obj d ↦ elim (usable_id (get "id" d)) [
    | some s ↦ ok (record { id = s; kind = kind; content = d })
    | none ↦ refused (node_without_id kind)
  ]
  | _ ↦ refused (node_without_id kind)
]

-- `by_id[id]`
unfoldable pub node_at : String → List Node → Option Node
node_at k [] = none
node_at k (n ∷ by_id) = if str_eq n.id k then some n else node_at k by_id

unfoldable pub add_node : Node → List Node → Checked (List Node)
unfolding node_at
add_node n by_id = do
  check (not (is_some (node_at n.id by_id))) (repeated_id n.id)
  ok (by_id ++ (n ∷ []))

unfoldable pub add_nodes : NodeKind → Items → List Node → Checked (List Node)
unfolding node_of add_node
add_nodes kind nil by_id = ok by_id
add_nodes kind (cons v vs) by_id = do
  n ← node_of kind v
  more ← add_node n by_id
  add_nodes kind vs more

-- the loop that fills `by_id`
unfoldable pub index_nodes : List NodeKind → Fields → List Node → Checked (List Node)
unfolding node_list add_nodes
index_nodes [] nodes by_id = ok by_id
index_nodes (kind ∷ kinds) nodes by_id = do
  items ← node_list kind nodes
  more ← add_nodes kind items by_id
  index_nodes kinds nodes more

-- `ids_of`
unfoldable pub ids_of_kind : NodeKind → List Node → List String
ids_of_kind kind [] = []
ids_of_kind kind (n ∷ by_id) =
    let rest = ids_of_kind kind by_id in if same_kind kind n.kind then n.id ∷ rest else rest

pub record Edge : Type 0 where
  pub type : String
  pub source : String
  pub target : String

-- what the loop over the edges gathers, by the id of a node
pub record Links : Type 0 where
  pub owners : List (String × List String)
  pub scoped : List (String × List String)
  pub applies : List (String × List String)

abbrev pub no_links : Links
no_links = record { owners = []; scoped = []; applies = [] }

abbrev edge_of_texts : Value → Value → Value → Checked Edge
edge_of_texts type source target = elim type [
  | str t ↦ elim source [
    | str s ↦ elim target [
      | str g ↦ ok (record { type = t; source = s; target = g })
      | _ ↦ refused edge_not_text
    ]
    | _ ↦ refused edge_not_text
  ]
  | _ ↦ refused edge_not_text
]

unfoldable pub edge_of : Value → Checked Edge
unfolding get
edge_of v = elim v [
  | obj d ↦ edge_of_texts (get "type" d) (get "from" d) (get "to" d)
  | _ ↦ refused edge_not_object
]

unfoldable pub is_of_kind : NodeKind → List Node → String → Bool
unfolding ids_of_kind one_of
is_of_kind kind by_id id = one_of id (ids_of_kind kind by_id)

unfoldable pub link : List Node → Edge → Links → Links
unfolding is_of_kind append_at add_at
link by_id e links =
    if str_eq e.type "consists_of" && is_of_kind rules by_id e.source
    then record links { owners = append_at e.target e.source links.owners }
    else if str_eq e.type "scoped_to" && is_of_kind jurisdictions by_id e.target
    then record links { scoped = add_at e.source e.target links.scoped }
    else if str_eq e.type "applies_to"
        && (is_of_kind rules by_id e.source && is_of_kind subjects by_id e.target)
    then record links { applies = add_at e.source e.target links.applies }
    else links

-- the loop over the edges
unfoldable pub read_edges : List Node → Items → Links → Checked Links
unfolding edge_of node_at link
read_edges by_id nil links = ok links
read_edges by_id (cons v vs) links = do
  e ← edge_of v
  check (is_some (node_at e.source by_id) && is_some (node_at e.target by_id))
      (unknown_end e.source e.target)
  read_edges by_id vs (link by_id e links)
