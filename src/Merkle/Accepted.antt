-- ===== src/Merkle/Accepted.antt =====
-- Every inclusion proof that ski_schemas/merkle.py writes is one that it accepts.
use ski_framework.Prelude.{
  ℕ, zero, suc, ◌-◌, ◌<◌, ◌≡◌, refl, sym, ap, ◌∙◌, ltb, arith, true, false, some, List, [], ◌∷◌,
  ◌++◌, length, String, All, ◌==◌, require, bind_some, any, not, some-injective, is_empty,
}
use text.Mathlib.TextPositions.{eq_refl}
use ski_framework.Hex.{Bytes, hex, fromhex}
use ski_framework.Hex.Roundtrip.{IsByte}
use ski_framework.Merkle.{
  hexes, leaf, root, path, climb, raw_leaves, parse_all, merkle_root, inclusion_proof,
  verify_inclusion,
}
use ski_framework.Merkle.Shift.{shift-zero, below-shift}
use ski_framework.Merkle.Slices.{get_elem?, get_elem?-lt}
use ski_framework.Merkle.Complete.{border}

get_elem?-nonempty :
    (hs : List String) (m : ℕ) (h : String) → get_elem? hs m ≡ some h → is_empty hs ≡ false
get_elem?-nonempty [] m h e = cc e
get_elem?-nonempty (x ∷ hs) m h e = refl

append-nil : (hs : List String) → hs ++ [] ≡ hs
append-nil [] = refl
append-nil (h ∷ hs) = ap (λ t. h ∷ t) (append-nil hs)

-- the bytes of each hash, in place
parse_all-get_elem? :
    (hs : List String) (bs : List Bytes)
    → parse_all hs ≡ some bs
    → (length bs ≡ length hs)
      × ((m : ℕ) (h : String)
          → get_elem? hs m ≡ some h
          → (b : Bytes) × (fromhex h ≡ some b) × (get_elem? bs m ≡ some b))
unfolding parse_all
parse_all-get_elem? [] bs e = let same = some-injective e in (ap length (sym same), λ m h at. cc at)
parse_all-get_elem? (x ∷ hs) bs e =
    let first = bind_some (fromhex x) _ bs e in
    let rest = bind_some (parse_all hs) _ bs first.2 in
    let tail = parse_all-get_elem? hs rest.0 rest.1 in
    let whole = some-injective rest.2 in
    rw (sym whole) (ap suc tail.0, λ m h at. place first.0 first.1 rest.0 tail.1 m h at)
  where
    place :
        (b : Bytes)
        → fromhex x ≡ some b
        → (cs : List Bytes)
        → ((m : ℕ) (h : String)
            → get_elem? hs m ≡ some h
            → (b : Bytes) × (fromhex h ≡ some b) × (get_elem? cs m ≡ some b))
        → (m : ℕ) (h : String) → get_elem? (x ∷ hs) m ≡ some h
        → (c : Bytes) × (fromhex h ≡ some c) × (get_elem? (b ∷ cs) m ≡ some c)
    place b fb cs tail zero h at = (b, rw (some-injective (sym at)) fb, refl)
    place b fb cs tail (suc m) h at = tail m h at

pub raw_leaves-get_elem? :
    (hs : List String) (bs : List Bytes)
    → raw_leaves hs ≡ some bs
    → (length bs ≡ length hs)
      × ((m : ℕ) (h : String)
          → get_elem? hs m ≡ some h
          → (b : Bytes) × (fromhex h ≡ some b) × (get_elem? bs m ≡ some b))
unfolding raw_leaves
raw_leaves-get_elem? hs bs e =
    let parsed = bind_some (parse_all hs) _ bs e in
    let sized =
      bind_some (require (not (any (λ b. not (length b == 32)) parsed.0))) _ bs parsed.2 in
    parse_all-get_elem? hs bs (parsed.1 ∙ sized.2)

module _ (sha256 : Bytes → Bytes) (are_bytes : (x : Bytes) → All IsByte (sha256 x)) where
  climb-done : (r : Bytes) → climb sha256 (hex r) [] 0 0 r ≡ some true
  unfolding climb
  climb-done r = rw (eq_refl (hex r)) refl

  -- the whole climb of a path, from its leaf to the root
  climb-path :
      (leaves : List Bytes) (index : ℕ) (b : Bytes)
      → get_elem? leaves index ≡ some b
      → climb sha256
          (hex (root sha256 (length leaves) leaves))
          (hexes (path sha256 (length leaves) leaves index))
          index
          (length leaves - 1)
          (leaf sha256 b)
        ≡ some true
  climb-path leaves index b at =
      let n = length leaves in
      let lt = get_elem?-lt leaves index b at in
      let top = hex (root sha256 n leaves) in
      let edge =
        border sha256 are_bytes top n n 0 leaves index b index (n - 1)
          (omega (arith, below-shift n)) (omega arith) lt at (omega (arith, shift-zero n))
          (omega (arith, shift-zero n, lt)) in
      ap (λ proof. climb sha256 top proof index (n - 1) (leaf sha256 b))
        (sym (append-nil (hexes (path sha256 n leaves index))))
      ∙ edge.1 []
      ∙ (rw (shift-zero edge.0) (climb-done (root sha256 n leaves)))

  -- Let SHA-256 give bytes. If the hashes of a list are 64 hexadecimal digits each, there is an
  -- inclusion proof for the hash at an index, the list has a root, and the verification accepts
  -- the proof for that hash at that index under that root.
  pub inclusion_proof_accepted :
      (hs : List String) (leaves : List Bytes) (index : ℕ) (h : String)
      → raw_leaves hs ≡ some leaves
      → get_elem? hs index ≡ some h
      → (proof : List String) × (top : String) × (inclusion_proof sha256 hs index ≡ some proof)
        × (merkle_root sha256 hs ≡ some top)
        × (verify_inclusion sha256 h index (length hs) proof top ≡ some true)
  unfolding inclusion_proof merkle_root verify_inclusion
  inclusion_proof_accepted hs leaves index h parsed at =
      let places = raw_leaves-get_elem? hs leaves parsed in
      let here = places.1 index h at in
      let lt : index < length hs = get_elem?-lt hs index h at in
      let inside : ltb index (length leaves) ≡ true = ground (arith, lt, places.0) in
      let within : ltb index (length hs) ≡ true = ground arith in
      let size : length hs ≡ length leaves = sym places.0 in
      let filled : is_empty hs ≡ false = get_elem?-nonempty hs index h at in
      (
        hexes (path sha256 (length leaves) leaves index),
        hex (root sha256 (length leaves) leaves),
        rw (parsed, inside) refl,
        rw (filled, parsed) refl,
        rw (within, here.1, size) (climb-path leaves index here.0 here.2),
      )
