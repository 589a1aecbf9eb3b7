-- ===== src/Merkle/Climb.antt =====
-- What `verify_inclusion` does along a path: inside the tree, and along its right border.
use Prim.Native.Nat.{◌/◌, ◌%◌}
use ski_framework.Prelude.{
  ℕ, zero, suc, ◌+◌, ◌-◌, ◌*◌, ◌≤◌, ◌<◌, ◌≡◌, refl, ltb, arith, true, false, List, [], ◌∷◌, ◌++◌,
  length, String, All, ◌==◌,
}
use ski_framework.Hex.{Bytes, hex}
use ski_framework.Hex.Roundtrip.{IsByte}
use ski_framework.Merkle.{split, hexes, leaf, node, root, path, climb, round, halve}
use ski_framework.Merkle.Shift.{shift, shift-add, below-shift, shift-double}
use ski_framework.Merkle.Split.{halve_lem}
use ski_framework.Merkle.Slices.{take, drop}
use ski_framework.Merkle.Unfold.{hexes-append, root-split, path-left, path-right, climb-hex}

module _ (sha256 : Bytes → Bytes) (are_bytes : (x : Bytes) → All IsByte (sha256 x))
    (goal : String) where
  root-IsByte : (f : ℕ) (nodes : List Bytes) → All IsByte (root sha256 f nodes)
  unfolding root leaf node
  root-IsByte zero nodes = tt
  root-IsByte (suc f) [] = tt
  root-IsByte (suc f) (x ∷ []) = are_bytes (0 ∷ x)
  root-IsByte (suc f) (x ∷ y ∷ rest) = are_bytes _

  round-even :
      (F S sn : ℕ) (r p : Bytes)
      → 2 * F < sn
      → sn / 2 ≡ S
      → round sha256 (2 * F) sn r p ≡ ((F, S), node sha256 r p)
  unfolding round
  round-even F S sn r p lt half = ground arith

  pub round-odd :
      (F S sn : ℕ) (r p : Bytes)
      → sn / 2 ≡ S
      → round sha256 (2 * F + 1) sn r p ≡ ((F, S), node sha256 p r)
  unfolding round
  round-odd F S sn r p half = ground arith

  round-equal :
      (s Q : ℕ) (r p : Bytes)
      → halve (2 * s) (2 * s) (2 * s) ≡ (2 * Q + 1, 2 * Q + 1)
      → round sha256 (2 * s) (2 * s) r p ≡ ((Q, Q), node sha256 p r)
  unfolding round
  round-equal s Q r p e =
      let even : (2 * s % 2 == 1) ≡ false = ground arith in
      let same : (2 * s == 2 * s) ≡ true = ground arith in
      let half : (2 * Q + 1) / 2 ≡ Q = omega arith in rw (round, even, same, e, half) refl

  -- at the border the two numbers are equal, and the step strips their common zeros
  pub round-border :
      (i Q : ℕ) (r p : Bytes)
      → round sha256 (shift i (2 * Q + 1)) (shift i (2 * Q + 1)) r p ≡ ((Q, Q), node sha256 p r)
  round-border zero Q r p = round-odd Q Q (2 * Q + 1) r p (omega arith)
  round-border (suc i) Q r p = rw (shift-double i (2 * Q + 1)) (
      round-equal (shift i (2 * Q + 1)) Q r p (
        rw (shift-double i (2 * Q + 1)) at (
          halve_lem (suc i) (2 * shift i (2 * Q + 1)) Q
            (omega (arith, below-shift i, shift-add i (2 * Q) 1)))))

  -- a left half and its sibling
  pub left_step :
      (f : ℕ) (nodes : List Bytes) (m F S sn : ℕ) (start : ℕ × ℕ) (x : Bytes) (rest : List String)
      → 2 ≤ length nodes
      → ltb m (split (length nodes)) ≡ true
      → 2 * F < sn
      → sn / 2 ≡ S
      → ((rest : List String)
          → climb sha256 goal
              (hexes (path sha256 f (take (split (length nodes)) nodes) m) ++ rest)
              start.0
              start.1
              (leaf sha256 x)
            ≡ climb sha256 goal rest (2 * F) sn (root sha256 f (take (split (length nodes)) nodes)))
      → climb sha256 goal
          (hexes (path sha256 (suc f) nodes m) ++ rest)
          start.0
          start.1
          (leaf sha256 x)
        ≡ climb sha256 goal rest F S (root sha256 (suc f) nodes)
  left_step f nodes m F S sn start x rest two test lt half ih =
      let l = root sha256 f (take (split (length nodes)) nodes) in
      let q = root sha256 f (drop (split (length nodes)) nodes) in
      rw
        (
          path-left sha256 f nodes m two test,
          root-split sha256 f nodes two,
          hexes-append (path sha256 f (take (split (length nodes)) nodes) m) q rest,
          ih (hex q ∷ rest),
          climb-hex sha256 goal q rest (2 * F) sn l
              (root-IsByte f (drop (split (length nodes)) nodes)) (omega arith),
          round-even F S sn l q lt half,
        )
        refl

  -- a right half and its sibling, where the next step leads to `F` and `S`
  pub right_step :
      (f : ℕ) (nodes : List Bytes) (m F S : ℕ) (start next : ℕ × ℕ) (x : Bytes) (rest : List String)
      → 2 ≤ length nodes
      → ltb m (split (length nodes)) ≡ false
      → 1 ≤ next.1
      → ((r p : Bytes) → round sha256 next.0 next.1 r p ≡ ((F, S), node sha256 p r))
      → ((rest : List String)
          → climb sha256 goal
              (hexes (path sha256 f (drop (split (length nodes)) nodes) (m - split (length nodes)))
                ++ rest)
              start.0
              start.1
              (leaf sha256 x)
            ≡ climb sha256 goal rest next.0 next.1
                (root sha256 f (drop (split (length nodes)) nodes)))
      → climb sha256 goal
          (hexes (path sha256 (suc f) nodes m) ++ rest)
          start.0
          start.1
          (leaf sha256 x)
        ≡ climb sha256 goal rest F S (root sha256 (suc f) nodes)
  right_step f nodes m F S start next x rest two test pos step ih =
      let q = root sha256 f (take (split (length nodes)) nodes) in
      let r = root sha256 f (drop (split (length nodes)) nodes) in
      rw
        (
          path-right sha256 f nodes m two test,
          root-split sha256 f nodes two,
          hexes-append
              (path sha256 f (drop (split (length nodes)) nodes) (m - split (length nodes))) q rest,
          ih (hex q ∷ rest),
          climb-hex sha256 goal q rest next.0 next.1 r
              (root-IsByte f (take (split (length nodes)) nodes)) pos,
          step r q,
        )
        refl
