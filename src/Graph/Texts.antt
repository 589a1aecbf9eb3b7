-- ===== src/Graph/Texts.antt =====
-- Sets of texts, as Python's `set` keeps them: lists without a repeated member, in some order, and
-- dictionaries whose values are lists of texts.
pub mod Members
use Prim.Native.String.{compare}
use Prim.Native.Nat.{Ordering}
use ski_framework.Prelude.{
  String, Bool, Option, none, some, List, [], ◌∷◌, ◌++◌, one_of, lookup, str_eq, if◌then◌else◌,
}

-- `xs.add(x)`
unfoldable pub add : String → List String → List String
unfolding one_of
add x xs = if one_of x xs then xs else xs ++ (x ∷ [])

-- `xs | ys`
unfoldable pub union : List String → List String → List String
unfolding add
union xs [] = xs
union xs (y ∷ ys) = union (add y xs) ys

-- the place of a text among sorted ones
unfoldable pub insert_text : String → List String → List String
insert_text x [] = x ∷ []
insert_text x (y ∷ ys) =
    let rest = insert_text x ys in elim (compare x y) [ Ordering.gt ↦ y ∷ rest | _ ↦ x ∷ y ∷ ys ]

-- `sorted(xs)`
unfoldable pub sort_texts : List String → List String
unfolding insert_text
sort_texts [] = []
sort_texts (x ∷ xs) = insert_text x (sort_texts xs)

-- `d.get(k, [])`
unfoldable pub at : String → List (String × List String) → List String
unfolding lookup
at k d = elim (lookup k d) [ none ↦ [] | some xs ↦ xs ]

-- `d.setdefault(k, []).append(x)`
unfoldable pub append_at :
    String → String → List (String × List String) → List (String × List String)
append_at k x [] = (k, x ∷ []) ∷ []
append_at k x ((j, xs) ∷ d) =
    let rest = append_at k x d in if str_eq j k then (j, xs ++ (x ∷ [])) ∷ d else (j, xs) ∷ rest

-- `d.setdefault(k, set()).add(x)`
unfoldable pub add_at : String → String → List (String × List String) → List (String × List String)
unfolding add
add_at k x [] = (k, x ∷ []) ∷ []
add_at k x ((j, xs) ∷ d) =
    let rest = add_at k x d in if str_eq j k then (j, add x xs) ∷ d else (j, xs) ∷ rest
