-- ===== src/Merkle/Hashed.antt =====
-- The texts that the functions of ski_schemas/merkle.py give to SHA-256, for statements about collisions.
use Prim.Native.Nat.{◌%◌}
use ski_framework.Prelude.{
  ℕ, zero, suc, ◌-◌, none, some, String, List, [], ◌∷◌, ◌++◌, length, ◌==◌, if◌then◌else◌,
}
use ski_framework.Hex.{Bytes, fromhex}
use ski_framework.Merkle.{leaf, root, round, split}
use ski_framework.Merkle.Slices.{take, drop}

abbrev pub leaf_text : Bytes → Bytes
leaf_text x = 0 ∷ x

abbrev pub node_text : Bytes → Bytes → Bytes
node_text l r = 1 ∷ (l ++ r)

-- the text of one round of the verification
abbrev pub round_text : ℕ → ℕ → Bytes → Bytes → Bytes
round_text fn sn r p =
    if fn % 2 == 1 then node_text p r else if fn == sn then node_text p r else node_text r p

module _ (sha256 : Bytes → Bytes) where
  -- the texts of the rounds of a verification
  unfoldable pub climb_texts : List String → ℕ → ℕ → Bytes → List Bytes
  climb_texts [] fn sn r = []
  climb_texts (h ∷ proof) fn sn r = elim (fromhex h) [
    | none ↦ []
    | some p ↦
        let next = round sha256 fn sn r p in
        round_text fn sn r p ∷ climb_texts proof next.0.0 next.0.1 next.1
  ]

  -- the texts of the verification of an entry's hash
  unfoldable pub inclusion_texts : String → ℕ → ℕ → List String → List Bytes
  unfolding climb_texts
  inclusion_texts h index n proof = elim (fromhex h) [
    | none ↦ []
    | some e ↦ leaf_text e ∷ climb_texts proof index (n - 1) (leaf sha256 e)
  ]

  -- the texts of the root of a list of leaves
  unfoldable pub root_texts : ℕ → List Bytes → List Bytes
  root_texts zero nodes = []
  root_texts (suc f) [] = []
  root_texts (suc f) (x ∷ []) = leaf_text x ∷ []
  root_texts (suc f) (x ∷ y ∷ rest) =
      let k = split (length (x ∷ y ∷ rest)) in
      let left = take k (x ∷ y ∷ rest) in
      let right = drop k (x ∷ y ∷ rest) in
      node_text (root sha256 f left) (root sha256 f right)
      ∷ (root_texts f left ++ root_texts f right)
