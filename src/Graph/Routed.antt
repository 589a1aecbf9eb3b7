-- ===== src/Graph/Routed.antt =====
-- Proofs about what a measurement is routed to, from the edges of the graph: `compile_graph` and the
-- tests of `scope_to` together.
use ski_framework.Prelude.{
  ◌≡◌, ◌↔◌, ◌⊎◌, inl, inr, refl, ap, true, false, String, Option, some, List, [], ◌∷◌, In, is_empty,
  Bool-cases,
}
use ski_framework.Value.{str, obj, arr, Fields, Items, find, get}
use ski_framework.Graph.{
  subjects, rules, jurisdictions, obligations, ok, same_kind, Node, node_kinds, index_nodes, Links,
  no_links, read_edges,
}
use ski_framework.Graph.Texts.{at}
use ski_framework.Graph.Edges.{HasEdge, IsOfKind, owners-read, scoped-read, HasEdge-moved}
use ski_framework.Graph.Descend.{Below, here, with_descendants_lem}
use ski_framework.Graph.Compile.{texts, roots_of, with_descendants, compile_graph}
use ski_framework.Graph.Compiled.{
  In-roots_of, roots, jurisdiction-cases, find-id, compile_obligations-In, compile_graph-parts,
}
use ski_framework.Scope.{Moment, jurisdiction_applies, any_matches, matches, normalise}

any_matches-texts :
    (from_iso : String → Option Moment) (lower_other : String → String) (wanted : String)
    (ss : List String)
    → (any_matches from_iso lower_other wanted (texts ss) ≡ true)
      ↔ ((j : String) × In j ss × (matches from_iso lower_other wanted j ≡ true))
unfolding any_matches texts
any_matches-texts from_iso lower_other wanted [] = (λ h. absurd (cc h), λ (j, m, e). absurd m)
any_matches-texts from_iso lower_other wanted (s ∷ ss) =
    let rest = any_matches-texts from_iso lower_other wanted ss in
    elim (Bool-cases (matches from_iso lower_other wanted s)) [
      | inl fit ↦ (λ _. (s, inl refl, fit), λ _. rw (fit, any_matches) refl)
      | inr unfit ↦
          rw (unfit, any_matches)
            (
              λ h. let (j, m, e) = rest.0 h in (j, inr m, e),
              λ (j, m, e). elim m [
                | inl same ↦ absurd (cc (unfit, ap (matches from_iso lower_other wanted) same, e))
                | inr later ↦ rest.1 (j, later, e)
              ],
            )
    ]

In-some : (xs : List String) → is_empty xs ≡ false → (x : String) × In x xs
In-some [] h = absurd (cc h)
In-some (x ∷ xs) h = (x, inl refl)

In-empty : (x : String) (xs : List String) → is_empty xs ≡ true → In x xs → ⊥
In-empty x [] h m = m
In-empty x (y ∷ xs) h m = cc h

module _ (nodes : Fields) (edges : Items) (by_id : List Node) where
  -- a rule that the node belongs to
  abbrev pub IsOwner : Node → String → Type 0
  IsOwner n r = HasEdge edges "consists_of" r n.id × IsOfKind rules by_id r

  abbrev pub AppliesTo : String → String → Type 0
  AppliesTo r s = HasEdge edges "applies_to" r s × IsOfKind subjects by_id s

  -- Whom a node is for: all subjects, where no rule or some unrestricted rule has it; or the subjects
  -- of its rules.
  abbrev pub IsFor : Node → String → Type 0
  IsFor n s =
      ((r : String) → ¬ (IsOwner n r))
      ⊎ ((r : String) × IsOwner n r × ((t : String) → ¬ (AppliesTo r t)))
      ⊎ ((r : String) × IsOwner n r × AppliesTo r s)

  -- the jurisdictions of a node: those that it or a rule of it is scoped to, and those below
  abbrev pub IsScopedTo : Node → String → Type 0
  IsScopedTo n j =
      (k : String) × ((k ≡ n.id) ⊎ IsOwner n k)
      × (r : String) × HasEdge edges "scoped_to" k r
      × IsOfKind jurisdictions by_id r
      × Below by_id r j

  module _ (links : Links) (read : read_edges by_id edges no_links ≡ ok links) (n : Node) where
    abbrev owners : List String
    owners = at n.id links.owners

    -- What lies below the roots is what the node is scoped to.
    roots-IsScopedTo :
        (j : String)
        → In j (with_descendants by_id (roots_of links.scoped owners (at n.id links.scoped)))
          ↔ IsScopedTo n j
    roots-IsScopedTo j =
        let owns = λ (r : String). owners-read by_id edges links read r n.id in
        let scope = λ (k r : String). scoped-read by_id edges links read r k in
        let top = λ (r : String). In-roots_of r links.scoped owners (at n.id links.scoped) in
        let below =
          (with_descendants_lem by_id (roots_of links.scoped owners (at n.id links.scoped))).1 j in
        (
          λ m.
              let (r, root, under) = below.0 m in
              elim ((top r).0 root) [
                | inl own ↦
                    let (edge, kind) = (scope n.id r).0 own in
                    (n.id, inl refl, r, edge, kind, under)
                | inr (k, o, a) ↦
                    let (edge, kind) = (scope k r).0 a in
                    (k, inr ((owns k).0 o), r, edge, kind, under)
              ],
          λ (k, owner, r, edge, kind, under). below.1 (
            r,
            (top r).1 (elim owner [
              | inl self ↦ inl ((scope n.id r).1 (HasEdge-moved edges edge refl self refl, kind))
              | inr o ↦ inr (k, (owns k).1 o, (scope k r).1 (edge, kind))
            ]),
            under,
          ),
        )

  module _ (cs ds : List Fields) (indexed : index_nodes node_kinds nodes [] ≡ ok by_id)
      (compiled : compile_graph (obj nodes) (arr edges) ≡ ok (cs, ds)) where
    -- Let a graph compile. Every compiled obligation comes from an obligation node, under its id,
    -- and the jurisdiction test of `scope_to` lets it through for a jurisdiction exactly if no
    -- jurisdiction is one to which the node or a rule of it is scoped, or below such a one by
    -- parents; or if one of these is universal or equal to the wanted one, after both are
    -- normalised.
    pub routed_by_jurisdiction :
        (from_iso : String → Option Moment) (lower_other : String → String) (c : Fields)
        → In c cs
        → (n : Node) × In n by_id
          × (same_kind obligations n.kind ≡ true)
          × (find "id" c ≡ some (str n.id))
          × ((wanted : String)
              → (jurisdiction_applies from_iso lower_other (some wanted) c ≡ true) ↔ (
                  ((j : String) → ¬ (IsScopedTo n j))
                  ⊎ ((j : String) × IsScopedTo n j
                      × (matches from_iso lower_other (normalise from_iso lower_other wanted) j
                          ≡ true))))
    unfolding jurisdiction_applies get
    routed_by_jurisdiction from_iso lower_other c m =
        let (links, read, owned, made) =
          compile_graph-parts nodes edges by_id cs ds indexed compiled in
        let (n, at_n, kind, own) = compile_obligations-In by_id links by_id cs c made m in
        let below = (with_descendants_lem by_id (roots by_id links n c own)).1 in
        (
          n,
          at_n,
          kind,
          find-id by_id links n c own,
          λ wanted. elim (jurisdiction-cases by_id links n c own) [
            | inl (bare, e) ↦
                rw (e, jurisdiction_applies)
                  (
                    λ _. inl (λ j s.
                        let (r, root, under) =
                          (below j).0 ((roots-IsScopedTo links read n j).1 s) in
                        In-empty r (roots by_id links n c own) bare root),
                    λ _. refl,
                  )
            | inr (some_root, e) ↦
                let listed = with_descendants by_id (roots by_id links n c own) in
                let any =
                  any_matches-texts from_iso lower_other (normalise from_iso lower_other wanted)
                    listed in
                rw (e, jurisdiction_applies)
                  (
                    λ h.
                        let (j, m, fit) = any.0 h in
                        inr (j, (roots-IsScopedTo links read n j).0 m, fit),
                    λ f. any.1 (elim f [
                      | inl free ↦
                          let (r, m) = In-some (roots by_id links n c own) some_root in
                          absurd (
                            free r ((roots-IsScopedTo links read n r).0 ((below r).1 (r, m, here))))
                      | inr (j, s, fit) ↦ (j, (roots-IsScopedTo links read n j).1 s, fit)
                    ]),
                  )
          ],
        )
