-- ===== src/Merkle/Complete.antt =====
-- Every inclusion proof that ski_schemas/merkle.py writes is one that it accepts.
use Prim.Native.Nat.{◌/◌}
use ski_framework.Prelude.{
  ℕ, zero, suc, ◌+◌, ◌-◌, ◌*◌, ◌≤◌, ◌<◌, ◌≡◌, refl, ap, ◌∙◌, inl, inr, arith, Bool, Option, some,
  List, ◌++◌, length, String, All, ltb-cases,
}
use ski_framework.Hex.{Bytes}
use ski_framework.Hex.Roundtrip.{IsByte}
use ski_framework.Merkle.{split, hexes, leaf, root, path, climb}
use ski_framework.Merkle.Shift.{
  shift, shift-add, shift-double, shift-shift, shift-ge, shift-lt, shift-le,
}
use ski_framework.Merkle.Split.{split-IsCut}
use ski_framework.Merkle.Slices.{
  take, drop, get_elem?, length-take, length-drop, get_elem?-take, get_elem?-drop,
}
use ski_framework.Merkle.Unfold.{root-one}
use ski_framework.Merkle.Climb.{round-odd, round-border, left_step, right_step}

-- a full row splits in the middle
split-shift : (h : ℕ) → split (shift (suc h) 1) ≡ shift h 1
split-shift h =
    let cut = split-IsCut (shift (suc h) 1) (omega (arith, shift-double h 1, shift-ge h 1)) in
    let lt = shift-lt cut.0 (suc h) (omega (arith, cut.1.0, cut.1.1.0)) in
    let le = shift-le (suc h) (suc cut.0) cut.1.1.1 in
    let e : cut.0 ≡ h = omega (arith, lt, le) in cut.1.0 ∙ ap (λ j. shift j 1) e

-- the place, one row down, above a number
abbrev Lower : ℕ → ℕ → ℕ → Type 0
Lower h S t =
    (U : ℕ) × (u : ℕ) × (2 * S ≤ U)
    × (U / 2 ≡ S)
    × (u < shift h 1)
    × (shift (suc h) S + t ≡ shift h U + u)

lower : (h S t : ℕ) → t < shift (suc h) 1 → Lower h S t
lower h S t lt = elim (ltb-cases t (shift h 1)) [
  | inl (_, low) ↦ (2 * S, t, omega arith, omega arith, low, refl)
  | inr (_, high) ↦ (
    2 * S + 1,
    t - shift h 1,
    omega arith,
    omega arith,
    omega (arith, lt, shift-double h 1),
    omega (arith, shift-add h (2 * S) 1, high),
  )
]

-- a place of a row, seen from a lower row
shift-row : (g h O : ℕ) → g < h → shift h O ≡ shift g (2 * shift (h - suc g) O)
shift-row g h O lt =
    let e : h ≡ suc g + (h - suc g) = omega arith in
    ap (λ (j : ℕ). shift j O) e ∙ shift-shift (suc g) (h - suc g) O

module _ (sha256 : Bytes → Bytes) (are_bytes : (x : Bytes) → All IsByte (sha256 x))
    (goal : String) where
  -- the climb of a path from its leaf
  abbrev run : ℕ → List Bytes → ℕ → Bytes → List String → ℕ → ℕ → Option Bool
  run f nodes m x rest fn sn =
      climb sha256 goal (hexes (path sha256 f nodes m) ++ rest) fn sn (leaf sha256 x)

  -- Below a full subtree that is not the last of its row, the climb reaches the subtree's place.
  inside :
      (h f : ℕ) (nodes : List Bytes) (m F S t : ℕ) (x : Bytes) (fn sn : ℕ)
      → length nodes ≡ shift h 1
      → length nodes ≤ f
      → m < length nodes
      → get_elem? nodes m ≡ some x
      → t < shift h 1
      → F < S
      → fn ≡ shift h F + m
      → sn ≡ shift h S + t
      → (rest : List String)
      → run f nodes m x rest fn sn ≡ climb sha256 goal rest F S (root sha256 f nodes)
  inside h zero nodes m F S t x fn sn len fuel lt at tl FS fe se rest = absurd (omega arith)
  inside zero (suc f) nodes m F S t x fn sn len fuel lt at tl FS fe se rest =
      let one = root-one sha256 f nodes m x len at in
      let fF : fn ≡ F = omega (arith, fe, one.2) in
      let sS : sn ≡ S = omega arith in rw (one.1, one.0, fF, sS) refl
  inside (suc h) (suc f) nodes m F S t x fn sn len fuel lt at tl FS fe se rest =
      let k : split (length nodes) ≡ shift h 1 = ap split len ∙ split-shift h in
      let two : 2 ≤ length nodes = omega (arith, len, shift-double h 1, shift-ge h 1) in
      let low = lower h S t tl in
      let below = (split-IsCut (length nodes) two).1.1.0 in
      let l = length-take (split (length nodes)) nodes (omega (arith, below)) in
      let r = length-drop (split (length nodes)) nodes in
      elim (ltb-cases m (split (length nodes))) [
        | inl (test, left) ↦
            left_step sha256 are_bytes goal f nodes m F S low.0 (fn, sn) x rest two test
              (omega (arith, low.2)) low.3
              (inside h f (take (split (length nodes)) nodes) m (2 * F) low.0 low.1 x fn sn (l ∙ k)
                (omega (arith, l, below, fuel)) (omega (arith, l, left))
                (get_elem?-take (split (length nodes)) nodes m left ∙ at) low.4
                (omega (arith, low.2)) fe (se ∙ low.5))
        | inr (test, right) ↦
            right_step sha256 are_bytes goal f nodes m F S (fn, sn) (2 * F + 1, low.0) x rest two
              test (omega (arith, low.2))
              (λ r p. round-odd sha256 are_bytes goal F S low.0 r p low.3)
              (inside h f (drop (split (length nodes)) nodes) (m - split (length nodes)) (2 * F + 1)
                low.0 low.1 x fn sn (omega (arith, r, k, len, shift-double h 1))
                (omega (arith, r, k, fuel, shift-ge h 1)) (omega (arith, r, right, lt, below))
                (get_elem?-drop (split (length nodes)) nodes m right ∙ at) low.4
                (omega (arith, low.2)) (omega (arith, fe, k, right, shift-add h (2 * F) 1))
                (se ∙ low.5))
      ]

  one_leaf :
      (f h O : ℕ) (nodes : List Bytes) (m : ℕ) (x : Bytes) (fn sn : ℕ)
      → length nodes ≡ 1
      → get_elem? nodes m ≡ some x
      → fn ≡ shift h O + m
      → sn + 1 ≡ shift h O + length nodes
      → (rest : List String)
      → run (suc f) nodes m x rest fn sn
        ≡ climb sha256 goal rest (shift h O) (shift h O) (root sha256 (suc f) nodes)
  one_leaf f h O nodes m x fn sn len at fe se rest =
      let one = root-one sha256 f nodes m x len at in
      let fO : fn ≡ shift h O = omega (arith, fe, one.2) in
      let sO : sn ≡ shift h O = omega (arith, se, len) in rw (one.1, one.0, fO, sO) refl

  -- Along the right border of the tree, the climb reaches a place where both numbers are equal.
  pub border :
      (f h O : ℕ) (nodes : List Bytes) (m : ℕ) (x : Bytes) (fn sn : ℕ)
      → length nodes ≤ shift h 1
      → length nodes ≤ f
      → m < length nodes
      → get_elem? nodes m ≡ some x
      → fn ≡ shift h O + m
      → sn + 1 ≡ shift h O + length nodes
      → (i : ℕ) × ((rest : List String)
          → run f nodes m x rest fn sn
            ≡ climb sha256 goal rest (shift i O) (shift i O) (root sha256 f nodes))
  border zero h O nodes m x fn sn small fuel lt at fe se = absurd (omega arith)
  border (suc f) h O nodes m x fn sn small fuel lt at fe se = elim (ltb-cases 1 (length nodes)) [
    | inr (_, single) ↦ (h, one_leaf f h O nodes m x fn sn (omega arith) at fe se)
    | inl (_, two) ↦
        let cut = split-IsCut (length nodes) two in
        let g = cut.0 in
        let k = cut.1.0 in
        let below = cut.1.1.0 in
        let g_lt = shift-lt g h (omega (arith, k, below, small)) in
        let Q = shift (h - suc g) O in
        let base : shift h O ≡ shift g (2 * Q) = shift-row g h O g_lt in
        let l = length-take (split (length nodes)) nodes (omega (arith, below)) in
        let r = length-drop (split (length nodes)) nodes in
        elim (ltb-cases m (split (length nodes))) [
          | inl (test, left) ↦ (
            h - suc g,
            λ rest.
                left_step sha256 are_bytes goal f nodes m Q Q (2 * Q + 1) (fn, sn) x rest two test
                  (omega arith) (omega arith)
                  (inside g f (take (split (length nodes)) nodes) m (2 * Q) (2 * Q + 1)
                    (length nodes - split (length nodes) - 1) x fn sn (l ∙ k)
                    (omega (arith, l, below, fuel)) (omega (arith, l, left))
                    (get_elem?-take (split (length nodes)) nodes m left ∙ at)
                    (omega (arith, k, below, cut.1.1.1, shift-double g 1)) (omega arith)
                    (fe ∙ ap (λ y. y + m) base)
                    (omega (arith, se, base, k, below, shift-add g (2 * Q) 1))),
          )
          | inr (test, right) ↦
              let ih =
                border f g (2 * Q + 1) (drop (split (length nodes)) nodes)
                  (m - split (length nodes)) x fn sn
                  (omega (arith, r, k, below, cut.1.1.1, shift-double g 1))
                  (omega (arith, r, k, fuel, shift-ge g 1)) (omega (arith, r, right, lt, below))
                  (get_elem?-drop (split (length nodes)) nodes m right ∙ at)
                  (omega (arith, fe, base, k, right, shift-add g (2 * Q) 1))
                  (omega (arith, se, base, k, r, below, shift-add g (2 * Q) 1)) in
              (
                h - suc g,
                λ rest.
                    right_step sha256 are_bytes goal f nodes m Q Q (fn, sn)
                      (shift ih.0 (2 * Q + 1), shift ih.0 (2 * Q + 1)) x rest two test
                      (omega (arith, shift-ge ih.0 (2 * Q + 1)))
                      (round-border sha256 are_bytes goal ih.0 Q) ih.1,
              )
        ]
  ]
