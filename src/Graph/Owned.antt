-- ===== src/Graph/Owned.antt =====
-- Proofs about the rules of a graph that compiles: each has an obligation.
use ski_framework.Prelude.{
  ◌≡◌, ◌↔◌, ◌⊎◌, inl, inr, refl, sym, true, String, List, [], ◌∷◌, ◌++◌, arith, In, one_of, eq_iff,
  Bool-cases,
}
use ski_framework.Value.{obj, arr, Fields, Items}
use ski_framework.Graph.{
  rules, obligations, ok, Node, node_kinds, index_nodes, ids_of_kind, Links, no_links, link, Edge,
  is_of_kind,
}
use ski_framework.Graph.Texts.{append_at}
use ski_framework.Graph.Texts.Members.{In-append, In-append_one, one_of-In}
use ski_framework.Graph.Edges.{HasEdge, HasEdge-moved, IsOfKind, read_edges-held}
use ski_framework.Graph.Compile.{check_rules, ruled, compile_graph}
use ski_framework.Graph.Compiled.{compile_graph-parts}

check_rules-all :
    (known ids : List String)
    → check_rules known ids ≡ ok tt
    → (r : String) → In r ids
    → one_of r known ≡ true
unfolding check_rules
check_rules-all known [] h r m = absurd m
check_rules-all known (i ∷ ids) h r m = elim (Bool-cases (one_of i known)) [
  | inl e ↦ elim m [
    | inl same ↦ rw same e
    | inr later ↦ check_rules-all known ids (rw (e, check_rules) at h) r later
  ]
  | inr e ↦ absurd (cc (rw (e, check_rules) at h))
]

ruled-append_at :
    (by_id : List Node) (r k x : String) (owners : List (String × List String))
    → In r (ruled by_id (append_at k x owners))
      ↔ (In r (ruled by_id owners) ⊎ (IsOfKind obligations by_id k × (r ≡ x)))
unfolding ruled append_at
ruled-append_at by_id r k x [] = ground arith
ruled-append_at by_id r k x ((j, xs) ∷ owners) = ground (
  arith,
  eq_iff j k,
  In-append_one r x xs,
  In-append r xs (ruled by_id owners),
  In-append r (xs ++ (x ∷ [])) (ruled by_id owners),
  In-append r xs (ruled by_id (append_at k x owners)),
  ruled-append_at by_id r k x owners,
)

-- what an edge adds to the rules that have an obligation
abbrev Gives : List Node → String → Edge → Type 0
Gives by_id r e =
    (e.type ≡ "consists_of")
    × IsOfKind rules by_id e.source
    × IsOfKind obligations by_id e.target
    × (r ≡ e.source)

link-ruled :
    (by_id : List Node) (r : String) (e : Edge) (links : Links)
    → In r (ruled by_id (link by_id e links).owners)
      ↔ (In r (ruled by_id links.owners) ⊎ Gives by_id r e)
unfolding link
link-ruled by_id r e links =
    ground
      (arith, eq_iff e.type "consists_of", ruled-append_at by_id r e.target e.source links.owners)

-- If a graph compiles, every rule of it has an edge `consists_of` to an obligation node.
pub rules_have_obligations :
    (nodes : Fields) (edges : Items) (by_id : List Node) (cs ds : List Fields)
    → index_nodes node_kinds nodes [] ≡ ok by_id
    → compile_graph (obj nodes) (arr edges) ≡ ok (cs, ds)
    → (r : String) → IsOfKind rules by_id r
    → (o : String) × IsOfKind obligations by_id o × HasEdge edges "consists_of" r o
unfolding ruled is_of_kind
rules_have_obligations nodes edges by_id cs ds indexed compiled r rule =
    let (links, read, owned, made) = compile_graph-parts nodes edges by_id cs ds indexed compiled in
    let found =
      read_edges-held by_id (λ l. In r (ruled by_id l.owners)) (Gives by_id r) (link-ruled by_id r)
        edges no_links links read in
    let known =
      check_rules-all (ruled by_id links.owners) (ids_of_kind rules by_id) owned r
        ((one_of-In r (ids_of_kind rules by_id)).0 rule) in
    elim (found.0 ((one_of-In r (ruled by_id links.owners)).0 known)) [
      | inl a ↦ absurd a
      | inr (e, edge, (t, source, kind, same)) ↦
          (e.target, kind, HasEdge-moved edges edge t (sym same) refl)
    ]
