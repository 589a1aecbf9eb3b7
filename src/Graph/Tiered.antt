-- ===== src/Graph/Tiered.antt =====
-- Proofs about the risk tier of a compiled obligation, as the governor reads it.
use ski_framework.Prelude.{
  ℕ, suc, ◌≤◌, ◌≡◌, inl, inr, refl, sym, ap, ◌∙◌, true, String, Option, some, List, [], ◌∷◌, arith,
  In, str_eq, eq_iff, ltb, Bool-cases, Option-cases, some-injective,
}
use ski_framework.Value.{Value, str, obj, arr, Fields, Items, get, find, or_null}
use ski_framework.Governor.{rank_of, canonicalise}
use ski_framework.Graph.{obligations, ok, same_kind, Node, node_at, node_kinds, index_nodes}
use ski_framework.Graph.Edges.{owners-read}
use ski_framework.Graph.Compile.{rank_of_tier, ranked, tier_value, best_tier, compile_graph}
use ski_framework.Graph.Compiled.{
  owning, tier-found, find-id, compile_obligations-In, compile_graph-parts,
}
use ski_framework.Graph.Routed.{IsOwner}

-- a better or equal tier is at hand
abbrev AtLeast : ℕ → Option (ℕ × String) → Type 0
AtLeast k o = (n : ℕ) × (t : String) × (o ≡ some (n, t)) × (n ≤ k)

best_tier-le :
    (by_id : List Node) (rs : List String) (r : String) (k : ℕ) (t : String)
    → In r rs
    → ranked (tier_value (node_at r by_id)) ≡ some (k, t)
    → AtLeast k (best_tier by_id rs)
unfolding best_tier
best_tier-le by_id [] r k t m e = absurd m
best_tier-le by_id (s ∷ rs) r k t (inl same) e =
    let here : ranked (tier_value (node_at s by_id)) ≡ some (k, t) =
      ap (λ x. ranked (tier_value (node_at x by_id))) (sym same) ∙ e in
    elim (Option-cases (best_tier by_id rs)) [
      | inl f ↦ (k, t, rw (here, f, best_tier) refl, omega arith)
      | inr ((n, u), f) ↦ elim (Bool-cases (ltb n k)) [
        | inl below ↦ (n, u, rw (here, f, below, best_tier) refl, ground arith)
        | inr above ↦ (k, t, rw (here, f, above, best_tier) refl, omega arith)
      ]
    ]
best_tier-le by_id (s ∷ rs) r k t (inr m) e =
    let (n, u, f, le) = best_tier-le by_id rs r k t m e in
    elim (Option-cases (ranked (tier_value (node_at s by_id)))) [
      | inl g ↦ (n, u, rw (g, f, best_tier) refl, le)
      | inr ((i, v), g) ↦ elim (Bool-cases (ltb n i)) [
        | inl below ↦ (n, u, rw (g, f, below, best_tier) refl, le)
        | inr above ↦ (i, v, rw (g, f, above, best_tier) refl, ground arith)
      ]
    ]

ranked-rank : (v : Value) (n : ℕ) (t : String) → ranked v ≡ some (n, t) → rank_of_tier t ≡ some n
ranked-rank (str s) n t h = elim (Option-cases (rank_of_tier s)) [
  | inl e ↦ absurd (cc (rw (e, ranked) at h))
  | inr (k, e) ↦
      let same : (k, s) ≡ (n, t) = some-injective (rw (e, ranked) at h) in
      ap (λ (p : ℕ × String). rank_of_tier p.1) (sym same)
      ∙ e
      ∙ ap (λ (p : ℕ × String). some p.0) same
]
ranked-rank _ n t h = absurd (cc h)

-- The ranks of the best tier and of its text agree.
best_tier-rank :
    (by_id : List Node) (rs : List String) (n : ℕ) (t : String)
    → best_tier by_id rs ≡ some (n, t)
    → rank_of_tier t ≡ some n
unfolding best_tier
best_tier-rank by_id [] n t h = absurd (cc h)
best_tier-rank by_id (s ∷ rs) n t h = elim (Option-cases (ranked (tier_value (node_at s by_id)))) [
  | inl g ↦ best_tier-rank by_id rs n t (rw (g, best_tier) at h)
  | inr ((i, v), g) ↦ elim (Option-cases (best_tier by_id rs)) [
    | inl f ↦ ranked-rank (tier_value (node_at s by_id)) n t (g ∙ rw (g, f, best_tier) at h)
    | inr ((k, u), f) ↦ elim (Bool-cases (ltb k i)) [
      | inl below ↦ best_tier-rank by_id rs n t (f ∙ rw (g, f, below, best_tier) at h)
      | inr above ↦
          ranked-rank (tier_value (node_at s by_id)) n t (g ∙ rw (g, f, above, best_tier) at h)
    ]
  ]
]

-- a text that is `x`, which has this rank
governed_at :
    (lower_other : String → String) (x t : String) (k n : ℕ)
    → rank_of (canonicalise lower_other (str x)) ≡ suc k
    → rank_of_tier x ≡ some k
    → t ≡ x
    → rank_of_tier t ≡ some n
    → rank_of (canonicalise lower_other (str t)) ≡ suc n
governed_at lower_other x t k n rank tier same h =
    ap (λ y. rank_of (canonicalise lower_other (str y))) same
    ∙ rank
    ∙ ap suc (some-injective (sym tier ∙ ap rank_of_tier (sym same) ∙ h))

-- The governor ranks the three tiers as the compiler does.
governed :
    (lower_other : String → String) (t : String) (n : ℕ)
    → rank_of_tier t ≡ some n
    → rank_of (canonicalise lower_other (str t)) ≡ suc n
unfolding rank_of canonicalise
governed lower_other t n h = elim (Bool-cases (str_eq t "high")) [
  | inl e ↦ governed_at lower_other "high" t 0 n refl refl ((eq_iff t "high").0 e) h
  | inr a ↦ elim (Bool-cases (str_eq t "medium")) [
    | inl e ↦ governed_at lower_other "medium" t 1 n refl refl ((eq_iff t "medium").0 e) h
    | inr b ↦ elim (Bool-cases (str_eq t "low")) [
      | inl e ↦ governed_at lower_other "low" t 2 n refl refl ((eq_iff t "low").0 e) h
      | inr c ↦ absurd (cc (rw (a, b, c, rank_of_tier) at h))
    ]
  ]
]

-- the tier that a rule declares, in the three words of the specification
abbrev pub Declares : List Node → String → String → ℕ → Type 0
Declares by_id r t k = (tier_value (node_at r by_id) ≡ str t) × (rank_of_tier t ≡ some k)

-- Let a graph compile. Every compiled obligation comes from an obligation node, under its id, and
-- the risk tier that the governor reads off it is at least as strict as that of each rule of the
-- node that declares `high`, `medium` or `low`.
pub tier_compiled :
    (lower_other : String → String) (nodes : Fields) (edges : Items) (by_id : List Node)
    (cs ds : List Fields)
    → index_nodes node_kinds nodes [] ≡ ok by_id
    → compile_graph (obj nodes) (arr edges) ≡ ok (cs, ds)
    → (c : Fields) → In c cs
    → (n : Node) × In n by_id
      × (same_kind obligations n.kind ≡ true)
      × (find "id" c ≡ some (str n.id))
      × ((r t : String) (k : ℕ)
          → IsOwner nodes edges by_id n r
          → Declares by_id r t k
          → rank_of (canonicalise lower_other (get "risk_tier" c))
            ≤ rank_of (canonicalise lower_other (str t)))
unfolding get
tier_compiled lower_other nodes edges by_id cs ds indexed compiled c m =
    let (links, read, owned, made) = compile_graph-parts nodes edges by_id cs ds indexed compiled in
    let (n, at_n, kind, own) = compile_obligations-In by_id links by_id cs c made m in
    (
      n,
      at_n,
      kind,
      find-id by_id links n c own,
      λ r t k owner declares.
          let listed = (owners-read by_id edges links read r n.id).1 owner in
          let rank : ranked (tier_value (node_at r by_id)) ≡ some (k, t) =
            rw (declares.0, ranked, declares.1) refl in
          let (i, u, best, le) =
            best_tier-le by_id (owning by_id links n c own) r k t listed rank in
          let chosen =
            governed lower_other u i (best_tier-rank by_id (owning by_id links n c own) i u best) in
          let declared = governed lower_other t k declares.1 in
          rw (tier-found by_id links n c own i u best, or_null) (omega (arith, chosen, declared)),
    )
