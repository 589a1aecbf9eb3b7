-- ===== src/Graph/Texts/Members.antt =====
-- Members of the sets of texts, and of the sets that a dictionary holds.
use ski_framework.Prelude.{
  suc, ◌≤◌, ◌≡◌, ◌↔◌, ◌⊎◌, inl, inr, true, String, List, [], ◌∷◌, ◌++◌, arith, In, In-append_left,
  In-append_right, one_of, is_some, length, length-append, lookup, str_eq, eq_iff, Bool-cases,
  if◌then◌else◌,
}
use ski_framework.Graph.Texts.{add, union, insert_text, sort_texts, at, append_at, add_at}

pub In-append_cases : {A : Type 0} (x : A) (xs ys : List A) → In x (xs ++ ys) → In x xs ⊎ In x ys
In-append_cases x [] ys m = inr m
In-append_cases x (z ∷ xs) ys (inl e) = inl (inl e)
In-append_cases x (z ∷ xs) ys (inr m) = elim (In-append_cases x xs ys m) [
  | inl l ↦ inl (inr l)
  | inr r ↦ inr r
]

pub In-append : {A : Type 0} (x : A) (xs ys : List A) → In x (xs ++ ys) ↔ (In x xs ⊎ In x ys)
In-append x xs ys = (
  In-append_cases x xs ys,
  λ m. elim m [ inl a ↦ In-append_left x xs ys a | inr a ↦ In-append_right x xs ys a ],
)

pub In-append_one : (y x : String) (xs : List String) → In y (xs ++ (x ∷ [])) ↔ (In y xs ⊎ (y ≡ x))
In-append_one y x xs = ground (arith, In-append y xs (x ∷ []))

pub one_of-In : (x : String) (xs : List String) → (one_of x xs ≡ true) ↔ In x xs
unfolding one_of
one_of-In x [] = (λ h. cc h, λ m. absurd m)
one_of-In x (y ∷ ys) = ground (arith, eq_iff y x, one_of-In x ys)

pub In-add : (x y : String) (xs : List String) → In x (add y xs) ↔ (In x xs ⊎ (x ≡ y))
unfolding add
In-add x y xs = ground (arith, one_of-In y xs, In-append_one x y xs)

length-add : (y : String) (xs : List String) → length (add y xs) ≤ suc (length xs)
unfolding add
length-add y xs = ground (arith, length-append xs (y ∷ []))

pub In-union : (x : String) (xs ys : List String) → In x (union xs ys) ↔ (In x xs ⊎ In x ys)
unfolding union
In-union x xs [] = (λ m. inl m, λ m. elim m [ inl a ↦ a | inr a ↦ absurd a ])
In-union x xs (y ∷ ys) = ground (arith, In-union x (add y xs) ys, In-add x y xs)

In-insert_text : (x y : String) (ys : List String) → In x (insert_text y ys) ↔ ((x ≡ y) ⊎ In x ys)
unfolding insert_text
In-insert_text x y [] = (λ m. m, λ m. m)
In-insert_text x y (z ∷ ys) = ground (arith, In-insert_text x y ys)

pub In-sort_texts : (x : String) (xs : List String) → In x (sort_texts xs) ↔ In x xs
unfolding sort_texts
In-sort_texts x [] = (λ m. m, λ m. m)
In-sort_texts x (y ∷ ys) = ground (arith, In-insert_text x y (sort_texts ys), In-sort_texts x ys)

-- What a dictionary holds under `j` after a text was put there under `k`.
pub at-add_at :
    (k x j : String) (d : List (String × List String))
    → at j (add_at k x d) ≡ (if str_eq k j then add x (at j d) else at j d)
unfolding at add_at lookup add one_of
at-add_at k x j [] = ground arith
at-add_at k x j ((i, xs) ∷ d) =
    ground (arith, eq_iff i k, eq_iff i j, eq_iff k j, at-add_at k x j d)

pub at-append_at :
    (k x j : String) (d : List (String × List String))
    → at j (append_at k x d) ≡ (if str_eq k j then at j d ++ (x ∷ []) else at j d)
unfolding at append_at lookup
at-append_at k x j [] = ground arith
at-append_at k x j ((i, xs) ∷ d) =
    ground (arith, eq_iff i k, eq_iff i j, eq_iff k j, at-append_at k x j d)

pub length-at-add_at :
    (k x j : String) (d : List (String × List String))
    → length (at j (add_at k x d)) ≤ (if str_eq k j then suc (length (at j d)) else length (at j d))
length-at-add_at k x j d = rw (at-add_at k x j d) (elim (Bool-cases (str_eq k j)) [
  | inl e ↦ rw e (length-add x (at j d))
  | inr e ↦ rw e (omega arith)
])

pub In-at-add_at :
    (y k x j : String) (d : List (String × List String))
    → In y (at j (add_at k x d)) ↔ (In y (at j d) ⊎ ((k ≡ j) × (y ≡ x)))
In-at-add_at y k x j d = rw (at-add_at k x j d) (ground (arith, In-add y x (at j d), eq_iff k j))

pub In-at-append_at :
    (y k x j : String) (d : List (String × List String))
    → In y (at j (append_at k x d)) ↔ (In y (at j d) ⊎ ((k ≡ j) × (y ≡ x)))
In-at-append_at y k x j d =
    rw (at-append_at k x j d) (ground (arith, In-append_one y x (at j d), eq_iff k j))

pub lookup-add_at :
    (k x j : String) (d : List (String × List String))
    → is_some (lookup j (add_at k x d)) ≡ (if str_eq k j then true else is_some (lookup j d))
unfolding add_at lookup
lookup-add_at k x j [] = ground arith
lookup-add_at k x j ((i, xs) ∷ d) =
    ground (arith, eq_iff i k, eq_iff i j, eq_iff k j, lookup-add_at k x j d)
