-- ===== src/Merkle/Unfold.antt =====
-- What `_root` and `path` give of one leaf, and of a list that they split.
use ski_framework.Prelude.{
  ℕ, zero, suc, ◌-◌, ◌≤◌, ◌≡◌, refl, ap, ltb, arith, true, false, some, List, [], ◌∷◌, ◌++◌, length,
  some-injective, String, All, ◌==◌,
}
use ski_framework.Hex.{Bytes, hex}
use ski_framework.Hex.Roundtrip.{IsByte, fromhex-hex}
use ski_framework.Merkle.{split, hexes, leaf, node, root, path, climb, round}
use ski_framework.Merkle.Slices.{take, drop, get_elem?}

pub hexes-append :
    (ps : List Bytes) (q : Bytes) (rest : List String)
    → hexes (ps ++ (q ∷ [])) ++ rest ≡ hexes ps ++ (hex q ∷ rest)
hexes-append [] q rest = refl
hexes-append (p ∷ ps) q rest = ap (λ hs. hex p ∷ hs) (hexes-append ps q rest)

module _ (sha256 : Bytes → Bytes) where
  pub root-one :
      (f : ℕ) (nodes : List Bytes) (m : ℕ) (x : Bytes)
      → length nodes ≡ 1
      → get_elem? nodes m ≡ some x
      → (root sha256 (suc f) nodes ≡ leaf sha256 x) × (path sha256 (suc f) nodes m ≡ []) × (m ≡ 0)
  unfolding root path
  root-one f [] m x one at = absurd (omega arith)
  root-one f (y ∷ []) zero x one at = (ap (leaf sha256) (some-injective at), refl, refl)
  root-one f (y ∷ []) (suc m) x one at = cc at
  root-one f (y ∷ z ∷ rest) m x one at = absurd (omega arith)

  pub root-split :
      (f : ℕ) (nodes : List Bytes)
      → 2 ≤ length nodes
      → root sha256 (suc f) nodes
        ≡ node sha256
            (root sha256 f (take (split (length nodes)) nodes))
            (root sha256 f (drop (split (length nodes)) nodes))
  unfolding root
  root-split f [] h = absurd (omega arith)
  root-split f (x ∷ []) h = absurd (omega arith)
  root-split f (x ∷ y ∷ rest) h = refl

  pub path-left :
      (f : ℕ) (nodes : List Bytes) (m : ℕ)
      → 2 ≤ length nodes
      → ltb m (split (length nodes)) ≡ true
      → path sha256 (suc f) nodes m
        ≡ path sha256 f (take (split (length nodes)) nodes) m
          ++ (root sha256 f (drop (split (length nodes)) nodes) ∷ [])
  unfolding path
  path-left f [] m h t = absurd (omega arith)
  path-left f (x ∷ []) m h t = absurd (omega arith)
  path-left f (x ∷ y ∷ rest) m h t = rw (path, t) refl

  pub path-right :
      (f : ℕ) (nodes : List Bytes) (m : ℕ)
      → 2 ≤ length nodes
      → ltb m (split (length nodes)) ≡ false
      → path sha256 (suc f) nodes m
        ≡ path sha256 f (drop (split (length nodes)) nodes) (m - split (length nodes))
          ++ (root sha256 f (take (split (length nodes)) nodes) ∷ [])
  unfolding path
  path-right f [] m h t = absurd (omega arith)
  path-right f (x ∷ []) m h t = absurd (omega arith)
  path-right f (x ∷ y ∷ rest) m h t = rw (path, t) refl

  -- one hash of a proof, where it is the spelling of bytes and the tree has not ended
  pub climb-hex :
      (goal : String) (p : Bytes) (rest : List String) (fn sn : ℕ) (r : Bytes)
      → All IsByte p
      → 1 ≤ sn
      → climb sha256 goal (hex p ∷ rest) fn sn r
        ≡ climb sha256 goal rest
            (round sha256 fn sn r p).0.0
            (round sha256 fn sn r p).0.1
            (round sha256 fn sn r p).1
  unfolding climb
  climb-hex goal p rest fn sn r b h =
      let open_still : (sn == 0) ≡ false = ground arith in
      rw (climb, fromhex-hex p b, open_still) refl
