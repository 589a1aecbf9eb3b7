-- ===== src/Graph/Descend.antt =====
-- Proofs about `with_descendants`: its loop ends, and what it finds.
use mathlib.Core.Path.{subst}
use ski_framework.Prelude.{
  ℕ, zero, suc, ◌+◌, ◌≤◌, ◌≡◌, ◌↔◌, ◌⊎◌, inl, inr, refl, sym, some-injective, ap, ◌∙◌, false,
  String, none, some, List, [], ◌∷◌, ◌++◌, arith, In, In-append_left, In-append_right, one_of,
  length, length-append, str_eq, eq_iff, Bool-cases, Option-cases, if◌then◌else◌,
}
use ski_framework.Graph.{jurisdictions, Node, ids_of_kind}
use ski_framework.Graph.Texts.{sort_texts, at, add_at}
use ski_framework.Graph.Texts.Members.{
  In-append_cases, one_of-In, In-sort_texts, In-at-add_at, length-at-add_at,
}
use ski_framework.Graph.Compile.{rounds, parent_of, descend, children_of, with_descendants}

module _ (children : List (String × List String)) where
  -- What holds of the stack and of what was seen, and passes to children, holds of all that is found.
  descend_sound :
      (P : String → Type 0)
      → ((j c : String) → P j → In c (at j children) → P c)
      → (fuel : ℕ) (seen stack found : List String) → descend fuel children seen stack ≡ some found
      → ((x : String) → In x seen → P x)
      → ((x : String) → In x stack → P x)
      → (x : String) → In x found
      → P x
  unfolding descend
  descend_sound P pass fuel seen [] found h s t x m = s x (subst (In x) (sym (some-injective h)) m)
  descend_sound P pass zero seen (current ∷ stack) found h s t x m = cc h
  descend_sound P pass (suc fuel) seen (current ∷ stack) found h s t x m =
      elim (Bool-cases (one_of current seen)) [
        | inl old ↦
            descend_sound P pass fuel seen stack found (rw (old, descend) at h) s
              (λ y n. t y (inr n)) x m
        | inr new ↦
            descend_sound P pass fuel (current ∷ seen) (at current children ++ stack) found
              (rw (new, descend) at h) (λ y n. elim n [ inl e ↦ t y (inl e) | inr o ↦ s y o ])
              (λ y n. elim (In-append_cases y (at current children) stack n) [
                | inl below ↦ pass current y (t current (inl refl)) below
                | inr other ↦ t y (inr other)
              ])
              x m
      ]

-- the jurisdictions whose parent is `j`
unfoldable count_children : String → List Node → ℕ
count_children j [] = 0
count_children j (n ∷ by_id) =
    let rest = count_children j by_id in
    elim (parent_of n) [ some p ↦ if str_eq p j then suc rest else rest | none ↦ rest ]

-- the jurisdictions whose parent was not seen
unfoldable pending : List String → List Node → ℕ
unfolding one_of
pending seen [] = 0
pending seen (n ∷ by_id) =
    let rest = pending seen by_id in
    elim (parent_of n) [ some p ↦ if one_of p seen then rest else suc rest | none ↦ rest ]

pending-seen :
    (j : String) (seen : List String) (by_id : List Node)
    → one_of j seen ≡ false
    → pending (j ∷ seen) by_id + count_children j by_id ≡ pending seen by_id
unfolding pending count_children one_of
pending-seen j seen [] h = refl
pending-seen j seen (n ∷ by_id) h = elim (Option-cases (parent_of n)) [
  | inl e ↦ rw (e, pending, count_children) (pending-seen j seen by_id h)
  | inr (p, e) ↦
      rw (e, pending, count_children)
        (ground (arith, pending-seen j seen by_id h, eq_iff j p, eq_iff p j))
]

pending-le : (by_id : List Node) → pending [] by_id ≤ length (ids_of_kind jurisdictions by_id)
unfolding pending one_of ids_of_kind parent_of
pending-le [] = omega arith
pending-le (n ∷ by_id) = ground (arith, pending-le by_id)

children-at-le :
    (j : String) (by_id : List Node) (children : List (String × List String))
    → length (at j (children_of by_id children)) ≤ length (at j children) + count_children j by_id
unfolding children_of count_children
children-at-le j [] children = omega arith
children-at-le j (n ∷ by_id) children = elim (Option-cases (parent_of n)) [
  | inl e ↦ rw (e, count_children, children_of) (children-at-le j by_id children)
  | inr (p, e) ↦
      rw (e, count_children, children_of)
        (ground (
          arith,
          children-at-le j by_id (add_at p n.id children),
          length-at-add_at p n.id j children,
          eq_iff p j,
        ))
]

-- `c` is a jurisdiction whose parent is `j`
abbrev pub IsChild : List Node → String → String → Type 0
IsChild by_id j c = (n : Node) × In n by_id × (parent_of n ≡ some j) × (c ≡ n.id)

abbrev Held : List (String × List String) → String → String → Type 0
Held children j c = In c (at j children)

In-children_of :
    (j c : String) (by_id : List Node) (children : List (String × List String))
    → In c (at j (children_of by_id children)) ↔ (IsChild by_id j c ⊎ Held children j c)
unfolding children_of
In-children_of j c [] children =
    (λ m. inr m, λ m. elim m [ inl (n, x, q, w) ↦ absurd x | inr h ↦ h ])
In-children_of j c (n ∷ by_id) children = elim (Option-cases (parent_of n)) [
  | inl e ↦
      let rest = In-children_of j c by_id children in
      rw (e, children_of)
        (
          λ m. elim (rest.0 m) [ inl (k, x, q, w) ↦ inl (k, inr x, q, w) | inr h ↦ inr h ],
          λ m. rest.1 (elim m [
            | inl (k, inl x, q, w) ↦ absurd (cc (e, ap parent_of x, q))
            | inl (k, inr x, q, w) ↦ inl (k, x, q, w)
            | inr h ↦ inr h
          ]),
        )
  | inr (p, e) ↦
      let rest = In-children_of j c by_id (add_at p n.id children) in
      let put = In-at-add_at c p n.id j children in
      rw (e, children_of)
        (
          λ m. elim (rest.0 m) [
            | inl (k, x, q, w) ↦ inl (k, inr x, q, w)
            | inr h ↦ elim (put.0 h) [
              | inl old ↦ inr old
              | inr (same, new) ↦ inl (n, inl refl, e ∙ ap (λ x. some x) same, new)
            ]
          ],
          λ m. rest.1 (elim m [
            | inl (k, inl x, q, w) ↦
                inr (put.1 (inr (cc (e, ap parent_of x, q), w ∙ ap (λ (y : Node). y.id) x)))
            | inl (k, inr x, q, w) ↦ inl (k, x, q, w)
            | inr h ↦ inr (put.1 (inl h))
          ]),
        )
]

module _ (by_id : List Node) where
  abbrev children : List (String × List String)
  children = children_of by_id []

  -- the children of what was seen are seen, or wait
  abbrev IsClosed : List String → List String → Type 0
  IsClosed seen stack = (x c : String) → In x seen → In c (at x children) → In c seen ⊎ In c stack

  -- The loop has ended with these, which have what was seen or waited, and their children.
  abbrev Ends : ℕ → List String → List String → Type 0
  Ends fuel seen stack =
      (found : List String) × (descend fuel children seen stack ≡ some found)
      × ((x : String) → In x seen ⊎ In x stack → In x found)
      × IsClosed found []

  -- Where the fuel is enough, the loop ends.
  descend_complete :
      (fuel : ℕ) (seen stack : List String)
      → pending seen by_id + length stack ≤ fuel
      → IsClosed seen stack
      → Ends fuel seen stack
  unfolding descend
  descend_complete fuel seen [] h closed =
      (seen, refl, (λ x m. elim m [ inl a ↦ a | inr a ↦ absurd a ]), closed)
  descend_complete zero seen (current ∷ stack) h closed = absurd (omega arith)
  descend_complete (suc fuel) seen (current ∷ stack) h closed =
      elim (Bool-cases (one_of current seen)) [
        | inl old ↦
            let known = (one_of-In current seen).0 old in
            let (found, ends, all, shut) =
              descend_complete fuel seen stack (omega arith) (λ x c m k. elim (closed x c m k) [
                | inl a ↦ inl a
                | inr (inl e) ↦ inl (rw e known)
                | inr (inr a) ↦ inr a
              ]) in
            (
              found,
              rw (old, descend) ends,
              λ x m.
                  all x (elim m [
                    | inl a ↦ inl a
                    | inr (inl e) ↦ inl (rw e known)
                    | inr (inr a) ↦ inr a
                  ]),
              shut,
            )
        | inr new ↦
            let below = at current children in
            let (found, ends, all, shut) =
              descend_complete fuel (current ∷ seen) (below ++ stack)
                (omega (
                  arith,
                  pending-seen current seen by_id new,
                  children-at-le current by_id [],
                  length-append below stack,
                ))
                (λ x c m k. elim m [
                  | inl e ↦
                      inr (In-append_left c below stack (subst (λ y. In c (at y children)) e k))
                  | inr o ↦ elim (closed x c o k) [
                    | inl a ↦ inl (inr a)
                    | inr (inl f) ↦ inl (inl f)
                    | inr (inr a) ↦ inr (In-append_right c below stack a)
                  ]
                ]) in
            (
              found,
              rw (new, descend) ends,
              λ x m. all x (elim m [
                | inl a ↦ inl (inr a)
                | inr (inl e) ↦ inl (inl e)
                | inr (inr a) ↦ inr (In-append_right x below stack a)
              ]),
              shut,
            )
      ]

-- `j`, or a jurisdiction below it by parents
pub data Below (by_id : List Node) (j : String) : String → Type 0 where
  here : Below by_id j j
  down : {i c : String} → Below by_id j i → IsChild by_id i c → Below by_id j c

reached :
    (by_id : List Node) (found : List String)
    → IsClosed by_id found []
    → (r : String) → In r found
    → (j : String) → Below by_id r j
    → In j found
reached by_id found closed r m j here = m
reached by_id found closed r m j (down {i} {c} b child) =
    elim (closed i c (reached by_id found closed r m i b)
      ((In-children_of i c by_id []).1 (inl child))) [ inl a ↦ a | inr a ↦ absurd a ]

-- The loop of `with_descendants` empties its stack within as many rounds as there are roots and
-- jurisdictions, with cycles of parents too, and the sorted result holds exactly the roots and the
-- jurisdictions that are below a root by parents.
pub with_descendants_lem :
    (by_id : List Node) (roots : List String)
    → ((found : List String) × (descend (rounds by_id roots) (children_of by_id []) [] roots
          ≡ some found)
        × (with_descendants by_id roots ≡ sort_texts found))
      × ((j : String)
          → In j (with_descendants by_id roots) ↔ ((r : String) × In r roots × Below by_id r j))
unfolding with_descendants
with_descendants_lem by_id roots =
    let (found, ends, all, closed) =
      descend_complete by_id (rounds by_id roots) [] roots (omega (arith, pending-le by_id))
        (λ x c m k. absurd m) in
    let is_sorted : with_descendants by_id roots ≡ sort_texts found =
      rw (with_descendants, ends) refl in
    (
      (found, ends, is_sorted),
      λ j. rw is_sorted (
        λ m.
            descend_sound (children_of by_id []) (λ x. (r : String) × In r roots × Below by_id r x)
              (λ i c (r, m', b) k. elim ((In-children_of i c by_id []).0 k) [
                | inl child ↦ (r, m', down b child)
                | inr a ↦ absurd a
              ])
              (rounds by_id roots) [] roots found ends (λ x a. absurd a) (λ x a. (x, a, here)) j
              ((In-sort_texts j found).0 m),
        λ (r, m, b). (In-sort_texts j found).1 (reached by_id found closed r (all r (inr m)) j b),
      ),
    )
