-- ===== src/Merkle.antt =====
-- The checkpoint tree of ski_schemas/merkle.py: roots, inclusion proofs and their verification.
-- SHA-256 is a parameter. An index is a natural number: a negative one is refused like one past the end.
pub mod Shift
pub mod Slices
pub mod Split
pub mod Unfold
pub mod Climb
pub mod Complete
pub mod Accepted
pub mod Hashed
pub mod Injective
pub mod Pinned
pub mod Binding
use Prim.Native.Nat.{◌/◌, ◌%◌}
use ski_framework.Prelude.{
  ℕ, zero, suc, ◌+◌, ◌-◌, ◌*◌, Bool, true, false, not, ◌&&◌, ◌||◌, Option, none, some, List, [],
  ◌∷◌, ◌++◌, String, ◌==◌, ltb, if◌then◌else◌, ◌>>=◌, ◌>>◌, require, all, any, length, is_empty,
  str_eq,
}
use ski_framework.Hex.{Bytes, hex, fromhex}
use ski_framework.Merkle.Slices.{take, drop}

-- `_split`: the loop that doubles `k`, with `fuel` rounds left
unfoldable pub split_from : ℕ → ℕ → ℕ → ℕ
split_from zero n k = k
split_from (suc fuel) n k = elim (ltb (k * 2) n) [ true ↦ split_from fuel n (k * 2) | false ↦ k ]

unfoldable pub split : ℕ → ℕ
unfolding split_from
split n = split_from n n 1

-- `_raw`
unfoldable pub parse_all : List String → Option (List Bytes)
unfolding fromhex
parse_all [] = some []
parse_all (h ∷ hs) = fromhex h >>= λ b. parse_all hs >>= λ bs. some (b ∷ bs)

unfoldable pub raw_leaves : List String → Option (List Bytes)
unfolding parse_all
raw_leaves hs = parse_all hs >>= λ bs. require (not (any (λ b. not (length b == 32)) bs)) >> some bs

abbrev pub hexes : List Bytes → List String
hexes [] = []
hexes (b ∷ bs) = hex b ∷ hexes bs

-- the inner loop of `verify_inclusion`: both numbers halved while the first is even and not 0
unfoldable pub halve : ℕ → ℕ → ℕ → ℕ × ℕ
halve zero fn sn = (fn, sn)
halve (suc fuel) fn sn = elim (fn % 2 == 0 && not (fn == 0)) [
  | true ↦ halve fuel (fn / 2) (sn / 2)
  | false ↦ (fn, sn)
]

module _ (sha256 : Bytes → Bytes) where
  unfoldable pub leaf : Bytes → Bytes
  leaf entry_hash = sha256 (0 ∷ entry_hash)

  unfoldable pub node : Bytes → Bytes → Bytes
  node left right = sha256 (1 ∷ (left ++ right))

  -- `_root`, to a depth of `fuel`
  unfoldable pub root : ℕ → List Bytes → Bytes
  root zero leaves = []
  root (suc fuel) [] = []
  root (suc fuel) (x ∷ []) = leaf x
  root (suc fuel) (x ∷ y ∷ rest) =
      let k = split (length (x ∷ y ∷ rest)) in
      node (root fuel (take k (x ∷ y ∷ rest))) (root fuel (drop k (x ∷ y ∷ rest)))

  unfoldable pub merkle_root : List String → Option String
  merkle_root hs =
      if is_empty hs
      then some (hex (sha256 []))
      else raw_leaves hs >>= λ leaves. some (hex (root (length leaves) leaves))

  -- `path`, to a depth of `fuel`
  unfoldable pub path : ℕ → List Bytes → ℕ → List Bytes
  path zero nodes m = []
  path (suc fuel) [] m = []
  path (suc fuel) (x ∷ []) m = []
  path (suc fuel) (x ∷ y ∷ rest) m =
      let nodes = x ∷ y ∷ rest in
      let k = split (length nodes) in
      elim (ltb m k) [
        | true ↦ path fuel (take k nodes) m ++ (root fuel (drop k nodes) ∷ [])
        | false ↦ path fuel (drop k nodes) (m - k) ++ (root fuel (take k nodes) ∷ [])
      ]

  unfoldable pub inclusion_proof : List String → ℕ → Option (List String)
  inclusion_proof hs index = raw_leaves hs >>= λ leaves.
      require (ltb index (length leaves)) >> some (hexes (path (length leaves) leaves index))

  -- one round of the loop: the two numbers and the hash after one hash of the proof
  unfoldable pub round : ℕ → ℕ → Bytes → Bytes → (ℕ × ℕ) × Bytes
  round fn sn r p =
      if fn % 2 == 1
      then ((fn / 2, sn / 2), node p r)
      else if fn == sn
      then (let stripped = halve fn fn sn in ((stripped.0 / 2, stripped.1 / 2), node p r))
      else ((fn / 2, sn / 2), node r p)

  unfoldable pub climb : String → List String → ℕ → ℕ → Bytes → Option Bool
  climb root_hash [] fn sn r = some (sn == 0 && str_eq (hex r) root_hash)
  climb root_hash (h ∷ proof) fn sn r = fromhex h >>= λ p. elim (sn == 0) [
    | true ↦ some false
    | false ↦ let next = round fn sn r p in climb root_hash proof next.0.0 next.0.1 next.1
  ]

  unfoldable pub verify_inclusion : String → ℕ → ℕ → List String → String → Option Bool
  verify_inclusion entry_hash index tree_size proof root_hash =
      if ltb index tree_size
      then (fromhex entry_hash >>= λ e. climb root_hash proof index (tree_size - 1) (leaf e))
      else some false
