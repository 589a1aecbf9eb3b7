-- ===== src/Merkle/Slices.antt =====
-- Python's slices `xs[:k]` and `xs[k:]`, and what stands at a place of them.
use ski_framework.Prelude.{
  ℕ, zero, suc, ◌-◌, ◌≤◌, ◌<◌, ◌≡◌, refl, ap, ◌∙◌, Option, none, some, List, [], ◌∷◌, length, arith,
}

module _ {ℓ} {A : Type ℓ} where
  abbrev pub take : ℕ → List A → List A
  take zero xs = []
  take (suc k) [] = []
  take (suc k) (x ∷ xs) = x ∷ take k xs

  abbrev pub drop : ℕ → List A → List A
  drop zero xs = xs
  drop (suc k) [] = []
  drop (suc k) (x ∷ xs) = drop k xs

  abbrev pub get_elem? : List A → ℕ → Option A
  get_elem? [] m = none
  get_elem? (x ∷ xs) zero = some x
  get_elem? (x ∷ xs) (suc m) = get_elem? xs m

  pub length-take : (k : ℕ) (xs : List A) → k ≤ length xs → length (take k xs) ≡ k
  length-take zero xs h = refl
  length-take (suc k) [] h = absurd (omega arith)
  length-take (suc k) (x ∷ xs) h = omega (arith, length-take k xs (omega arith))

  pub length-drop : (k : ℕ) (xs : List A) → length (drop k xs) ≡ length xs - k
  length-drop zero xs = omega arith
  length-drop (suc k) [] = omega arith
  length-drop (suc k) (x ∷ xs) = omega (arith, length-drop k xs)

  pub get_elem?-take :
      (k : ℕ) (xs : List A) (m : ℕ) → m < k → get_elem? (take k xs) m ≡ get_elem? xs m
  get_elem?-take zero xs m h = absurd (omega arith)
  get_elem?-take (suc k) [] m h = refl
  get_elem?-take (suc k) (x ∷ xs) zero h = refl
  get_elem?-take (suc k) (x ∷ xs) (suc m) h = get_elem?-take k xs m (omega arith)

  pub get_elem?-drop :
      (k : ℕ) (xs : List A) (m : ℕ) → k ≤ m → get_elem? (drop k xs) (m - k) ≡ get_elem? xs m
  get_elem?-drop zero xs m h = ap (get_elem? xs) (omega arith)
  get_elem?-drop (suc k) [] m h = refl
  get_elem?-drop (suc k) (x ∷ xs) zero h = absurd (omega arith)
  get_elem?-drop (suc k) (x ∷ xs) (suc m) h =
      ap (get_elem? (drop k xs)) (omega arith) ∙ get_elem?-drop k xs m (omega arith)

  pub get_elem?-lt : (xs : List A) (m : ℕ) (x : A) → get_elem? xs m ≡ some x → m < length xs
  get_elem?-lt [] m x h = cc h
  get_elem?-lt (y ∷ xs) zero x h = omega arith
  get_elem?-lt (y ∷ xs) (suc m) x h = omega (arith, get_elem?-lt xs m x h)
