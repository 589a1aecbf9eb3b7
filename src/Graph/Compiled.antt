-- ===== src/Graph/Compiled.antt =====
-- Proofs about a compiled obligation: the node that it comes from, and the fields that the edges give.
use mathlib.Core.Path.{subst}
use ski_framework.Prelude.{
  ℕ, ◌≡◌, ◌↔◌, ◌⊎◌, inl, inr, refl, sym, ap, ◌∙◌, true, false, String, none, some, List, [], ◌∷◌,
  arith, All, In, all, is_some, is_empty, lookup, str_eq, Bool-cases, Option-cases,
}
use ski_framework.Value.{
  Value, null, bool, int, float, str, obj, arr, Fields, field, end, Items, find, get, elements,
}
use ski_framework.Graph.{
  rules, obligations, known_lists, ok, same_kind, Node, node_kinds, index_nodes, ids_of_kind, Links,
  no_links, read_edges,
}
use ski_framework.Graph.Texts.{at, union, sort_texts}
use ski_framework.Graph.Texts.Members.{In-union}
use ski_framework.Graph.Edges.{bind_ok}
use ski_framework.Graph.Compile.{
  optional, texts, copied_fields, copy_fields, with_dates, with_tier, with_jurisdiction,
  with_subjects, best_tier, roots_of, applied, with_descendants, compile_obligation,
  compile_obligations, compile_linked, compile_nodes, compile_indexed, finish_graph, compile_graph,
  ruled, check_rules,
}

-- a list of texts under this key holds this one
abbrev pub Lists : String → Fields → String → Type 0
Lists key d s = (vs : Items) × (find key d ≡ some (arr vs)) × In (str s) (elements vs)

find-optional :
    (k j : String) (v : Value) (rest : Fields)
    → str_eq j k ≡ false
    → find k (optional j v rest) ≡ find k rest
unfolding find
find-optional k j null rest h = refl
find-optional k j (bool b) rest h = rw h refl
find-optional k j (int n) rest h = rw h refl
find-optional k j (float x) rest h = rw h refl
find-optional k j (str s) rest h = rw h refl
find-optional k j (obj d) rest h = rw h refl
find-optional k j (arr vs) rest h = rw h refl

-- The copied fields hide no other key.
find-copy_fields :
    (k : String) (keys : List String) (node rest : Fields)
    → All (λ j. str_eq j k ≡ false) keys
    → find k (copy_fields keys node rest) ≡ find k rest
unfolding copy_fields
find-copy_fields k [] node rest h = refl
find-copy_fields k (j ∷ keys) node rest (e, h) =
    find-optional k j (get j node) (copy_fields keys node rest) e
    ∙ find-copy_fields k keys node rest h

find-with_dates :
    (k : String) (node rest : Fields)
    → str_eq "effective_date" k ≡ false
    → str_eq "sunset_date" k ≡ false
    → find k (with_dates node rest) ≡ find k rest
unfolding with_dates
find-with_dates k node rest a b =
    let ends = optional "sunset_date" (get "effective_date_end" node) rest in
    find-optional k "effective_date" (get "effective_date_start" node) ends a
    ∙ find-optional k "sunset_date" (get "effective_date_end" node) rest b

pub In-texts : (s : String) (ss : List String) → In (str s) (elements (texts ss)) ↔ In s ss
unfolding elements texts
In-texts s [] = (λ m. m, λ m. m)
In-texts s (t ∷ ss) = ground (arith, In-texts s ss)

pub In-roots_of :
    (x : String) (scoped : List (String × List String)) (rs roots : List String)
    → In x (roots_of scoped rs roots) ↔ (In x roots ⊎ ((r : String) × In r rs × In x (at r scoped)))
unfolding roots_of
In-roots_of x scoped [] roots = (λ m. inl m, λ m. elim m [ inl a ↦ a | inr (r, n, a) ↦ absurd n ])
In-roots_of x scoped (k ∷ rs) roots =
    let rest = In-roots_of x scoped rs (union roots (at k scoped)) in
    let both = In-union x roots (at k scoped) in
    (
      λ m. elim (rest.0 m) [
        | inl a ↦ elim (both.0 a) [ inl old ↦ inl old | inr new ↦ inr (k, inl refl, new) ]
        | inr (r, n, a) ↦ inr (r, inr n, a)
      ],
      λ m. rest.1 (elim m [
        | inl a ↦ inl (both.1 (inl a))
        | inr (r, inl e, a) ↦ inl (both.1 (inr (subst (λ y. In x (at y scoped)) e a)))
        | inr (r, inr n, a) ↦ inr (r, n, a)
      ]),
    )

pub In-applied :
    (x : String) (applies : List (String × List String)) (rs found : List String)
    → In x (applied applies rs found)
      ↔ (In x found ⊎ ((r : String) × In r rs × In x (at r applies)))
unfolding applied
In-applied x applies [] roots = (λ m. inl m, λ m. elim m [ inl a ↦ a | inr (r, n, a) ↦ absurd n ])
In-applied x applies (k ∷ rs) roots =
    let rest = In-applied x applies rs (union roots (at k applies)) in
    let both = In-union x roots (at k applies) in
    (
      λ m. elim (rest.0 m) [
        | inl a ↦ elim (both.0 a) [ inl old ↦ inl old | inr new ↦ inr (k, inl refl, new) ]
        | inr (r, n, a) ↦ inr (r, inr n, a)
      ],
      λ m. rest.1 (elim m [
        | inl a ↦ inl (both.1 (inl a))
        | inr (r, inl e, a) ↦ inl (both.1 (inr (subst (λ y. In x (at y applies)) e a)))
        | inr (r, inr n, a) ↦ inr (r, n, a)
      ]),
    )

module _ (by_id : List Node) (links : Links) (n : Node) (c : Fields)
    (h : compile_obligation by_id links n ≡ ok c) where
  abbrev pub owning : List String
  owning = at n.id links.owners

  abbrev pub roots : List String
  roots = roots_of links.scoped owning (at n.id links.scoped)

  -- the fields that the edges give
  abbrev linked : Fields
  linked = with_jurisdiction by_id roots (with_tier by_id owning (with_subjects links owning end))

  made :
      c
      ≡ field "id" (str n.id) (
          field "predicate"
            (get "obligation_type" n.content)
            (copy_fields copied_fields n.content (with_dates n.content linked)))
  unfolding compile_obligation
  made = ground arith

  find-linked :
      (k : String)
      → All
          (λ j. str_eq j k ≡ false)
          ("id" ∷ "predicate" ∷ "effective_date" ∷ "sunset_date" ∷ copied_fields)
      → find k c ≡ find k linked
  unfolding find
  find-linked k (i, (p, (a, (b, h)))) =
      rw (made, find, i, p)
        (find-copy_fields k copied_fields n.content (with_dates n.content linked) h
          ∙ find-with_dates k n.content linked a b)

  pub find-id : find "id" c ≡ some (str n.id)
  unfolding find
  find-id = rw made refl

  find-tier :
      (k : String) (rest : Fields)
      → str_eq "risk_tier" k ≡ false
      → find k (with_tier by_id owning rest) ≡ find k rest
  unfolding with_tier find
  find-tier k rest e = elim (Option-cases (best_tier by_id owning)) [
    | inl none_ranked ↦ rw (none_ranked, with_tier) refl
    | inr (t, ranked) ↦ rw (ranked, with_tier, find, e) refl
  ]

  find-past :
      (k : String) (rest : Fields)
      → str_eq "jurisdiction" k ≡ false
      → find k (with_jurisdiction by_id roots rest) ≡ find k rest
  unfolding with_jurisdiction find
  find-past k rest e = elim (Bool-cases (is_empty roots)) [
    | inl bare ↦ rw (bare, with_jurisdiction) refl
    | inr some_root ↦ rw (some_root, with_jurisdiction, find, e) refl
  ]

  subjects-end : find "jurisdiction" (with_subjects links owning end) ≡ none
  unfolding with_subjects find
  subjects-end = ground arith

  -- The key is missing where there is no root; else it lists what lies below the roots.
  pub jurisdiction-cases :
      ((is_empty roots ≡ true) × (find "jurisdiction" c ≡ none))
      ⊎ ((is_empty roots ≡ false)
          × (find "jurisdiction" c ≡ some (arr (texts (with_descendants by_id roots)))))
  jurisdiction-cases =
      let found =
        find-linked "jurisdiction"
          (refl, (refl, (refl, (refl, (refl, (refl, (refl, (refl, (refl, (refl, tt)))))))))) in
      elim (Bool-cases (is_empty roots)) [
        | inl e ↦ inl (
          e,
          found
              ∙ unfold with_jurisdiction in
                rw (e, with_jurisdiction) (find-tier "jurisdiction" _ refl ∙ subjects-end),
        )
        | inr e ↦ inr (e, found ∙ unfold with_jurisdiction find in rw (e, with_jurisdiction) refl)
      ]

  pub tier-found :
      (i : ℕ) (t : String)
      → best_tier by_id owning ≡ some (i, t)
      → find "risk_tier" c ≡ some (str t)
  tier-found i t best =
      find-linked "risk_tier"
        (refl, (refl, (refl, (refl, (refl, (refl, (refl, (refl, (refl, (refl, tt))))))))))
      ∙ find-past "risk_tier" (with_tier by_id owning (with_subjects links owning end)) refl
      ∙ (unfold with_tier find in rw (best, with_tier) refl)

  -- The key is missing where a rule applies to every subject, or where there is no rule; else it lists
  -- the subjects of the rules.
  pub subjects-cases :
      ((is_empty owning ≡ true) × (find "subjects" c ≡ none))
      ⊎ ((all (λ r. is_some (lookup r links.applies)) owning ≡ false) × (find "subjects" c ≡ none))
      ⊎ ((is_empty owning ≡ false)
          × (all (λ r. is_some (lookup r links.applies)) owning ≡ true)
          × (find "subjects" c ≡ some (arr (texts (sort_texts (applied links.applies owning []))))))
  subjects-cases =
      let found =
        find-linked "subjects"
          (refl, (refl, (refl, (refl, (refl, (refl, (refl, (refl, (refl, (refl, tt))))))))))
        ∙ find-past "subjects" (with_tier by_id owning (with_subjects links owning end)) refl
        ∙ find-tier "subjects" (with_subjects links owning end) refl in
      elim (Bool-cases (is_empty owning)) [
        | inl e ↦ inl (e, found ∙ unfold with_subjects find in rw (e, with_subjects) refl)
        | inr e ↦ elim (Bool-cases (all (λ r. is_some (lookup r links.applies)) owning)) [
          | inl a ↦
              inr (inr (e, a, found ∙ unfold with_subjects find in rw (e, a, with_subjects) refl))
          | inr a ↦
              inr (inl (a, found ∙ unfold with_subjects find in rw (e, a, with_subjects) refl))
        ]
      ]

ok-injective {ℓ} : {A : Type ℓ} {a b : A} → ok a ≡ ok b → a ≡ b
ok-injective h = cc h

-- Every compiled obligation comes from a node.
pub compile_obligations-In :
    (by_id : List Node) (links : Links) (ns : List Node) (cs : List Fields) (c : Fields)
    → compile_obligations by_id links ns ≡ ok cs
    → In c cs
    → (n : Node) × In n ns
      × (same_kind obligations n.kind ≡ true)
      × (compile_obligation by_id links n ≡ ok c)
unfolding compile_obligations
compile_obligations-In by_id links [] cs c h m = absurd (subst (In c) (sym (ok-injective h)) m)
compile_obligations-In by_id links (n ∷ ns) cs c h m =
    elim (Bool-cases (same_kind obligations n.kind)) [
      | inl e ↦
          let (d, first, rest) =
            bind_ok (compile_obligation by_id links n) _ cs (rw (e, compile_obligations) at h) in
          let (ds, others, whole) = bind_ok (compile_obligations by_id links ns) _ cs rest in
          elim (subst (In c) (sym (ok-injective whole)) m) [
            | inl same ↦ (n, inl refl, e, first ∙ ap ok (sym same))
            | inr later ↦
                let (k, at_k, kind, made) =
                  compile_obligations-In by_id links ns ds c others later in
                (k, inr at_k, kind, made)
          ]
      | inr e ↦
          let (k, at_k, kind, made) =
            compile_obligations-In by_id links ns cs c (rw (e, compile_obligations) at h) m in
          (k, inr at_k, kind, made)
    ]

finish_graph-same :
    (by_id : List Node) (os cs ds : List Fields) → finish_graph by_id os ≡ ok (cs, ds) → os ≡ cs
unfolding finish_graph
finish_graph-same by_id os cs ds h = ground arith

-- What a graph that compiles has passed.
pub compile_graph-parts :
    (nodes : Fields) (edges : Items) (by_id : List Node) (cs ds : List Fields)
    → index_nodes node_kinds nodes [] ≡ ok by_id
    → compile_graph (obj nodes) (arr edges) ≡ ok (cs, ds)
    → (links : Links) × (read_edges by_id edges no_links ≡ ok links)
      × (check_rules (ruled by_id links.owners) (ids_of_kind rules by_id) ≡ ok tt)
      × (compile_obligations by_id links by_id ≡ ok cs)
unfolding compile_graph compile_linked compile_nodes compile_indexed
compile_graph-parts nodes edges by_id cs ds indexed h =
    let listed : compile_indexed edges by_id ≡ ok (cs, ds) = elim (Bool-cases (known_lists nodes)) [
      | inl k ↦ rw (k, indexed, compile_graph) at h
      | inr k ↦ absurd (cc (rw (k, compile_graph) at h))
    ] in
    let (links, read, final) =
      bind_ok (read_edges by_id edges no_links) (compile_linked by_id) (cs, ds) listed in
    let (u, owned, last) =
      bind_ok (check_rules (ruled by_id links.owners) (ids_of_kind rules by_id))
        (λ u. compile_nodes by_id links) (cs, ds) final in
    let (os, compiled, whole) =
      bind_ok (compile_obligations by_id links by_id) (finish_graph by_id) (cs, ds) last in
    (links, read, owned, compiled ∙ ap ok (finish_graph-same by_id os cs ds whole))
