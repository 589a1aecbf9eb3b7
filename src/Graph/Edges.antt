-- ===== src/Graph/Edges.antt =====
-- Proofs about the loop over the edges: what it gathers under a node's id.
use mathlib.Core.Path.{subst}
use ski_framework.Prelude.{
  ◌≡◌, ◌≢◌, ◌↔◌, ◌⊎◌, inl, inr, refl, sym, ap, ◌∙◌, true, String, List, arith, In, is_some, lookup,
  eq_iff,
}
use ski_framework.Value.{Value, str, obj, Fields, Items, cons, nil, get, elements}
use ski_framework.Graph.{
  NodeKind, subjects, rules, jurisdictions, Checked, ok, refused, ◌>>=◌, check, Node, is_of_kind,
  Edge, edge_of, edge_of_texts, Links, no_links, link, read_edges,
}
use ski_framework.Graph.Texts.{at}
use ski_framework.Graph.Texts.Members.{In-at-add_at, In-at-append_at, lookup-add_at}

-- A chain that goes on had a result at its first step.
pub bind_ok {ℓ κ} :
    {A : Type ℓ} {B : Type κ} (m : Checked A) (f : A → Checked B) (b : B)
    → (m >>= f) ≡ ok b
    → (a : A) × (m ≡ ok a) × (f a ≡ ok b)
bind_ok (ok a) f b h = (a, refl, h)
bind_ok (refused e) f b h = cc h

-- the edges hold one of this type, from one node to another
abbrev pub HasEdge : Items → String → String → String → Type 0
HasEdge edges type source target =
    (d : Fields) × In (obj d) (elements edges)
    × (get "type" d ≡ str type)
    × (get "from" d ≡ str source)
    × (get "to" d ≡ str target)

abbrev pub IsOfKind : NodeKind → List Node → String → Type 0
IsOfKind kind by_id id = is_of_kind kind by_id id ≡ true

pub consists-ne-scoped : ◌≢◌ {A = String} "consists_of" "scoped_to"
consists-ne-scoped = ground (arith, eq_iff "consists_of" "scoped_to")

consists-ne-applies : ◌≢◌ {A = String} "consists_of" "applies_to"
consists-ne-applies = ground (arith, eq_iff "consists_of" "applies_to")

scoped-ne-applies : ◌≢◌ {A = String} "scoped_to" "applies_to"
scoped-ne-applies = ground (arith, eq_iff "scoped_to" "applies_to")

module _ (by_id : List Node) (e : Edge) (links : Links) (x k : String) where
  link-owners : In x (at k (link by_id e links).owners) ↔ (
      In x (at k links.owners)
      ⊎ ((e.type ≡ "consists_of")
          × IsOfKind rules by_id e.source
          × (e.target ≡ k)
          × (x ≡ e.source)))
  unfolding link
  link-owners =
      ground
        (arith, eq_iff e.type "consists_of", In-at-append_at x e.target e.source k links.owners)

  link-scoped : In x (at k (link by_id e links).scoped) ↔ (
      In x (at k links.scoped)
      ⊎ ((e.type ≡ "scoped_to")
          × IsOfKind jurisdictions by_id e.target
          × (e.source ≡ k)
          × (x ≡ e.target)))
  unfolding link
  link-scoped = ground (
    arith,
    eq_iff e.type "consists_of",
    eq_iff e.type "scoped_to",
    consists-ne-scoped,
    In-at-add_at x e.source e.target k links.scoped,
  )

  link-applies : In x (at k (link by_id e links).applies) ↔ (
      In x (at k links.applies)
      ⊎ ((e.type ≡ "applies_to")
          × IsOfKind rules by_id e.source
          × IsOfKind subjects by_id e.target
          × (e.source ≡ k)
          × (x ≡ e.target)))
  unfolding link
  link-applies = ground (
    arith,
    eq_iff e.type "consists_of",
    eq_iff e.type "scoped_to",
    eq_iff e.type "applies_to",
    consists-ne-applies,
    scoped-ne-applies,
    In-at-add_at x e.source e.target k links.applies,
  )

link-applies_key :
    (by_id : List Node) (e : Edge) (links : Links) (k : String)
    → (is_some (lookup k (link by_id e links).applies) ≡ true) ↔ (
        (is_some (lookup k links.applies) ≡ true)
        ⊎ ((e.type ≡ "applies_to")
            × IsOfKind rules by_id e.source
            × IsOfKind subjects by_id e.target
            × (e.source ≡ k)))
unfolding link
link-applies_key by_id e links k = ground (
  arith,
  eq_iff e.type "consists_of",
  eq_iff e.type "scoped_to",
  eq_iff e.type "applies_to",
  consists-ne-applies,
  scoped-ne-applies,
  lookup-add_at e.source e.target k links.applies,
  eq_iff e.source k,
)

edge_of_texts-ok :
    (type source target : Value) (e : Edge)
    → edge_of_texts type source target ≡ ok e
    → (type ≡ str e.type) × (source ≡ str e.source) × (target ≡ str e.target)
edge_of_texts-ok (str t) (str s) (str g) e h = ground arith
edge_of_texts-ok _ _ _ e h = absurd (cc h)

edge_of-ok :
    (v : Value) (e : Edge)
    → edge_of v ≡ ok e
    → (d : Fields) × (v ≡ obj d)
      × (get "type" d ≡ str e.type)
      × (get "from" d ≡ str e.source)
      × (get "to" d ≡ str e.target)
unfolding edge_of
edge_of-ok (obj d) e h =
    let (t, s, g) = edge_of_texts-ok (get "type" d) (get "from" d) (get "to" d) e h in
    (d, refl, t, s, g)
edge_of-ok _ e h = absurd (cc h)

-- an edge with a property
abbrev pub SomeEdge : (Edge → Type 0) → Items → Type 0
SomeEdge Adds edges = (e : Edge) × HasEdge edges e.type e.source e.target × Adds e

HasEdge-later :
    (v : Value) (vs : Items) (t s g : String) → HasEdge vs t s g → HasEdge (cons v vs) t s g
unfolding elements
HasEdge-later v vs t s g (d, m, a, b, c) = (d, inr m, a, b, c)

edge_of-eq :
    (d : Fields) (e : Edge)
    → get "type" d ≡ str e.type
    → get "from" d ≡ str e.source
    → get "to" d ≡ str e.target
    → edge_of (obj d) ≡ ok e
unfolding edge_of
edge_of-eq d e a b c = rw (a, b, c, edge_of_texts) refl

-- What holds after the loop is what held before, or what an edge adds.
pub read_edges-held :
    (by_id : List Node) (Held : Links → Type 0) (Adds : Edge → Type 0)
    → ((e : Edge) (links : Links) → Held (link by_id e links) ↔ (Held links ⊎ Adds e))
    → (edges : Items) (links result : Links) → read_edges by_id edges links ≡ ok result
    → Held result ↔ (Held links ⊎ SomeEdge Adds edges)
unfolding read_edges elements
read_edges-held by_id Held Adds step nil links result h =
    let same : links ≡ result = cc h in
    (
      λ m. inl (subst Held (sym same) m),
      λ m. elim m [ inl a ↦ subst Held same a | inr (e, (d, x, a, b, c), p) ↦ absurd x ],
    )
read_edges-held by_id Held Adds step (cons v vs) links result h =
    let (e, read, rest) = bind_ok (edge_of v) _ result h in
    let (u, known, more) =
      bind_ok (check _ _) (λ _. read_edges by_id vs (link by_id e links)) result rest in
    let (d, whole, t, s, g) = edge_of-ok v e read in
    let later = read_edges-held by_id Held Adds step vs (link by_id e links) result more in
    let now = step e links in
    (
      λ m. elim (later.0 m) [
        | inl a ↦ elim (now.0 a) [
          | inl old ↦ inl old
          | inr new ↦ inr (e, (d, inl (sym whole), t, s, g), new)
        ]
        | inr (f, found, p) ↦ inr (f, HasEdge-later v vs f.type f.source f.target found, p)
      ],
      λ m. later.1 (elim m [
        | inl a ↦ inl (now.1 (inl a))
        | inr (f, (c, inl x, a, b, k), p) ↦
            inl (now.1 (inr (subst Adds (cc (edge_of-eq c f a b k, ap edge_of x, read)) p)))
        | inr (f, (c, inr x, a, b, k), p) ↦ inr (f, (c, x, a, b, k), p)
      ]),
    )

pub HasEdge-moved :
    (edges : Items) {t t' s s' g g' : String}
    → HasEdge edges t s g
    → t ≡ t'
    → s ≡ s'
    → g ≡ g'
    → HasEdge edges t' s' g'
HasEdge-moved edges (d, m, a, b, c) p q r = (d, m, a ∙ ap str p, b ∙ ap str q, c ∙ ap str r)

module _ (by_id : List Node) (edges : Items) (links : Links)
    (h : read_edges by_id edges no_links ≡ ok links) where
  -- The owners of a node are the rules with an edge to it.
  pub owners-read :
      (r k : String)
      → In r (at k links.owners) ↔ (HasEdge edges "consists_of" r k × IsOfKind rules by_id r)
  unfolding at lookup
  owners-read r k =
      let found =
        read_edges-held by_id (λ l. In r (at k l.owners)) _ (λ e l. link-owners by_id e l r k) edges
          no_links links h in
      (
        λ m. elim (found.0 m) [
          | inl a ↦ absurd a
          | inr (e, edge, (t, kind, target, source)) ↦ (
            HasEdge-moved edges edge t (sym source) target,
            subst (IsOfKind rules by_id) (sym source) kind,
          )
        ],
        λ (edge, kind). found.1 (
            inr (
              record { type = "consists_of"; source = r; target = k },
              edge,
              (refl, kind, refl, refl),
            )),
      )

  -- What a node is scoped to are the jurisdictions with an edge from it.
  pub scoped-read :
      (g k : String)
      → In g (at k links.scoped) ↔ (HasEdge edges "scoped_to" k g × IsOfKind jurisdictions by_id g)
  unfolding at lookup
  scoped-read g k =
      let found =
        read_edges-held by_id (λ l. In g (at k l.scoped)) _ (λ e l. link-scoped by_id e l g k) edges
          no_links links h in
      (
        λ m. elim (found.0 m) [
          | inl a ↦ absurd a
          | inr (e, edge, (t, kind, source, target)) ↦ (
            HasEdge-moved edges edge t source (sym target),
            subst (IsOfKind jurisdictions by_id) (sym target) kind,
          )
        ],
        λ (edge, kind). found.1 (
            inr (
              record { type = "scoped_to"; source = k; target = g },
              edge,
              (refl, kind, refl, refl),
            )),
      )

  -- What a rule applies to are the subjects with an edge from it.
  pub applies-read :
      (g k : String)
      → In g (at k links.applies)
        ↔ (HasEdge edges "applies_to" k g × IsOfKind rules by_id k × IsOfKind subjects by_id g)
  unfolding at lookup
  applies-read g k =
      let found =
        read_edges-held by_id (λ l. In g (at k l.applies)) _ (λ e l. link-applies by_id e l g k)
          edges no_links links h in
      (
        λ m. elim (found.0 m) [
          | inl a ↦ absurd a
          | inr (e, edge, (t, rule, kind, source, target)) ↦ (
            HasEdge-moved edges edge t source (sym target),
            subst (IsOfKind rules by_id) source rule,
            subst (IsOfKind subjects by_id) (sym target) kind,
          )
        ],
        λ (edge, rule, kind). found.1 (
            inr (
              record { type = "applies_to"; source = k; target = g },
              edge,
              (refl, rule, kind, refl, refl),
            )),
      )

  -- A rule has an entry exactly where it applies to some subject.
  pub applies-keys :
      (k : String)
      → (is_some (lookup k links.applies) ≡ true) ↔ (
          (g : String) × HasEdge edges "applies_to" k g
          × IsOfKind rules by_id k
          × IsOfKind subjects by_id g)
  unfolding lookup
  applies-keys k =
      let found =
        read_edges-held by_id (λ l. is_some (lookup k l.applies) ≡ true) _
          (λ e l. link-applies_key by_id e l k) edges no_links links h in
      (
        λ m. elim (found.0 m) [
          | inl a ↦ absurd (cc a)
          | inr (e, edge, (t, rule, kind, source)) ↦ (
            e.target,
            HasEdge-moved edges edge t source refl,
            subst (IsOfKind rules by_id) source rule,
            kind,
          )
        ],
        λ (g, edge, rule, kind). found.1 (
            inr (
              record { type = "applies_to"; source = k; target = g },
              edge,
              (refl, rule, kind, refl),
            )),
      )
