-- ===== src/Examples/Graphs.antt =====
-- A graph of one obligation that is scoped to a country with a state, and of one rule for one subject.
use ski_framework.Prelude.{
  ℕ, String, ◌≡◌, ◌≤◌, ◌↔◌, ◌⊎◌, inl, refl, true, Option, none, some, List, [], ◌∷◌, In,
}
use ski_framework.Value.{Value, str, obj, arr, Fields, field, end, Items, cons, nil, find, get}
use ski_framework.Scope.{Moment, jurisdiction_applies, matches, normalise}
use ski_framework.Governor.{rank_of, canonicalise}
use ski_framework.Graph.{
  rules, obligations, subjects, jurisdictions, ok, Node, node_kinds, index_nodes, same_kind,
  is_of_kind,
}
use ski_framework.Graph.Edges.{HasEdge, IsOfKind}
use ski_framework.Graph.Compile.{compile_graph, with_descendants}
use ski_framework.Graph.Texts.{sort_texts}
use ski_framework.Graph.Compile.{descend, rounds, children_of}
use ski_framework.Graph.Descend.{Below, with_descendants_lem}
use ski_framework.Graph.Routed.{IsOwner, IsScopedTo, routed_by_jurisdiction}
use ski_framework.Graph.Owned.{rules_have_obligations}
use ski_framework.Graph.Tiered.{Declares, tier_compiled}

abbrev pub water : Fields
water = field "id" (str "water") end

abbrev pub limit_rule : Fields
limit_rule = field "id" (str "rule.limit") (field "risk_tier" (str "high") end)

abbrev pub limit : Fields
limit =
    field "id" (str "limit")
      (field "metric" (str "level") (field "obligation_type" (str "must_not_exceed") end))

abbrev pub country : Fields
country = field "id" (str "us") end

abbrev pub state : Fields
state = field "id" (str "us-ca") (field "parent" (str "us") end)

abbrev pub nodes : Fields
nodes = field "subjects" (arr (cons (obj water) nil)) (
    field "rules" (arr (cons (obj limit_rule) nil)) (
      field "obligations" (arr (cons (obj limit) nil))
        (field "jurisdictions" (arr (cons (obj country) (cons (obj state) nil))) end)))

abbrev pub edge : String → String → String → Value
edge type source target =
    obj (field "type" (str type) (field "from" (str source) (field "to" (str target) end)))

abbrev pub edges : Items
edges =
    cons (edge "consists_of" "rule.limit" "limit")
      (cons (edge "scoped_to" "limit" "us") (cons (edge "applies_to" "rule.limit" "water") nil))

abbrev by_id : List Node
by_id =
    record { id = "water"; kind = subjects; content = water }
    ∷ record { id = "rule.limit"; kind = rules; content = limit_rule }
    ∷ record { id = "limit"; kind = obligations; content = limit }
    ∷ record { id = "us"; kind = jurisdictions; content = country }
    ∷ record { id = "us-ca"; kind = jurisdictions; content = state }
    ∷ []

abbrev pub compiled : Fields
compiled = field "id" (str "limit") (
    field "predicate" (str "must_not_exceed") (
      field "metric" (str "level") (
        field "jurisdiction" (arr (cons (str "us") (cons (str "us-ca") nil))) (
          field "risk_tier" (str "high") (
            field "rule_ids" (arr (cons (str "rule.limit") nil))
              (field "subjects" (arr (cons (str "water") nil)) end))))))

indexed : index_nodes node_kinds nodes [] ≡ ok by_id
unfolding index_nodes
indexed = refl

compiles : compile_graph (obj nodes) (arr edges) ≡ ok (compiled ∷ [], [])
unfolding compile_graph
compiles = refl

abbrev pub no_dates : String → Option Moment
no_dates s = none

abbrev pub keep_letters : String → String
keep_letters s = s

with_descendants_lem_example :
    ((found : List String) × (descend
          (rounds by_id ("us" ∷ []))
          (children_of by_id [])
          []
          ("us" ∷ [])
        ≡ some found)
      × (with_descendants by_id ("us" ∷ []) ≡ sort_texts found))
    × ((j : String)
        → In j (with_descendants by_id ("us" ∷ []))
          ↔ ((r : String) × In r ("us" ∷ []) × Below by_id r j))
with_descendants_lem_example = with_descendants_lem by_id ("us" ∷ [])

routed_by_jurisdiction_example :
    (n : Node) × In n by_id
    × (same_kind obligations n.kind ≡ true)
    × (find "id" compiled ≡ some (str n.id))
    × ((wanted : String)
        → (jurisdiction_applies no_dates keep_letters (some wanted) compiled ≡ true) ↔ (
            ((j : String) → ¬ (IsScopedTo nodes edges by_id n j))
            ⊎ ((j : String) × IsScopedTo nodes edges by_id n j
                × (matches no_dates keep_letters (normalise no_dates keep_letters wanted) j
                    ≡ true))))
routed_by_jurisdiction_example =
    routed_by_jurisdiction nodes edges by_id (compiled ∷ []) [] indexed compiles no_dates
      keep_letters compiled (inl refl)

rules_have_obligations_example :
    (o : String) × IsOfKind obligations by_id o × HasEdge edges "consists_of" "rule.limit" o
unfolding is_of_kind
rules_have_obligations_example =
    rules_have_obligations nodes edges by_id (compiled ∷ []) [] indexed compiles "rule.limit" refl

tier_compiled_example :
    (n : Node) × In n by_id
    × (same_kind obligations n.kind ≡ true)
    × (find "id" compiled ≡ some (str n.id))
    × ((r t : String) (k : ℕ)
        → IsOwner nodes edges by_id n r
        → Declares by_id r t k
        → rank_of (canonicalise keep_letters (get "risk_tier" compiled))
          ≤ rank_of (canonicalise keep_letters (str t)))
tier_compiled_example =
    tier_compiled keep_letters nodes edges by_id (compiled ∷ []) [] indexed compiles compiled
      (inl refl)
