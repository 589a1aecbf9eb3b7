-- ===== src/Merkle/Injective.antt =====
-- Equal nodes and leaves of the tree of ski_schemas/merkle.py have equal parts, or else two texts with
-- one digest are at hand.
use Prim.Native.Nat.{◌%◌}
use ski_framework.Prelude.{
  ℕ, List, In, ◌≡◌, ◌≢◌, ◌⊎◌, refl, ap, inl, inr, arith, [], ◌∷◌, ◌++◌, length, length-append, All,
  ◌==◌, Bool-cases,
}
use ski_framework.Hex.{Bytes}
use ski_framework.Hex.Roundtrip.{IsByte}
use ski_framework.Merkle.{leaf, node, round}
use ski_framework.Merkle.Hashed.{leaf_text, node_text, round_text}

-- a text of the first list and another one of the second, with one digest
abbrev pub Collides : (Bytes → Bytes) → List Bytes → List Bytes → Type 0
Collides sha256 texts others =
    (x : Bytes) × (y : Bytes) × In x texts × In y others × (x ≢ y) × (sha256 x ≡ sha256 y)

pub Collides-within :
    (sha256 : Bytes → Bytes) (texts others more rest : List Bytes)
    → ((x : Bytes) → In x texts → In x more)
    → ((y : Bytes) → In y others → In y rest)
    → Collides sha256 texts others
    → Collides sha256 more rest
Collides-within sha256 texts others more rest f g (x, y, at_x, at_y, ne, e) =
    (x, y, f x at_x, g y at_y, ne, e)

pub Collides-first :
    (sha256 : Bytes → Bytes) (x y : Bytes) (more rest : List Bytes)
    → Collides sha256 (x ∷ []) (y ∷ [])
    → Collides sha256 (x ∷ more) (y ∷ rest)
Collides-first sha256 x y more rest =
    Collides-within sha256 (x ∷ []) (y ∷ []) (x ∷ more) (y ∷ rest) (λ z m. first z x more m)
      (λ z m. first z y rest m)
  where
    first : (z w : Bytes) (ws : List Bytes) → In z (w ∷ []) → In z (w ∷ ws)
    first z w ws (inl e) = inl e
    first z w ws (inr m) = absurd m

pub Collides-later :
    (sha256 : Bytes → Bytes) (x y : Bytes) (more rest : List Bytes)
    → Collides sha256 more rest
    → Collides sha256 (x ∷ more) (y ∷ rest)
Collides-later sha256 x y more rest =
    Collides-within sha256 more rest (x ∷ more) (y ∷ rest) (λ z m. inr m) (λ z m. inr m)

-- a digest of SHA-256: 32 bytes
abbrev pub IsDigest : Bytes → Type 0
IsDigest r = (length r ≡ 32) × All IsByte r

number-cases : (a b : ℕ) → (a ≡ b) ⊎ (a ≢ b)
number-cases a b = omega arith

bytes-cases : (xs ys : Bytes) → (xs ≡ ys) ⊎ (xs ≢ ys)
bytes-cases [] [] = inl refl
bytes-cases [] (y ∷ ys) = inr λ e. cc e
bytes-cases (x ∷ xs) [] = inr λ e. cc e
bytes-cases (x ∷ xs) (y ∷ ys) = elim (number-cases x y) [
  | inr ne ↦ inr λ e. ne (cc e)
  | inl e ↦ elim (bytes-cases xs ys) [ inl es ↦ inl (cc (e, es)) | inr nes ↦ inr λ e. nes (cc e) ]
]

append-left : (xs ys vs ws : Bytes) → length xs ≡ length ys → xs ++ vs ≡ ys ++ ws → xs ≡ ys
append-left [] [] vs ws len e = refl
append-left [] (y ∷ ys) vs ws len e = absurd (omega arith)
append-left (x ∷ xs) [] vs ws len e = absurd (omega arith)
append-left (x ∷ xs) (y ∷ ys) vs ws len e = cc (append-left xs ys vs ws (omega arith) (cc e), e)

append-right_same : (vs ws xs ys : Bytes) → length vs ≡ length ws → vs ++ xs ≡ ws ++ ys → xs ≡ ys
append-right_same [] [] xs ys len e = e
append-right_same [] (w ∷ ws) xs ys len e = absurd (omega arith)
append-right_same (v ∷ vs) [] xs ys len e = absurd (omega arith)
append-right_same (v ∷ vs) (w ∷ ws) xs ys len e = append-right_same vs ws xs ys (omega arith) (cc e)

append-right : (vs ws xs ys : Bytes) → length xs ≡ length ys → vs ++ xs ≡ ws ++ ys → xs ≡ ys
append-right vs ws xs ys len e =
    append-right_same vs ws xs ys
      (omega (arith, len, ap length e, length-append vs xs, length-append ws ys)) e

module _ (sha256 : Bytes → Bytes) (digest : (x : Bytes) → IsDigest (sha256 x)) where
  -- equal digests are of equal texts, or else collide
  same_text : (x y : Bytes) → sha256 x ≡ sha256 y → (x ≡ y) ⊎ Collides sha256 (x ∷ []) (y ∷ [])
  same_text x y e = elim (bytes-cases x y) [
    | inl same ↦ inl same
    | inr ne ↦ inr (x, y, inl refl, inl refl, ne, e)
  ]

  pub leaf-injective :
      (x y : Bytes)
      → leaf sha256 x ≡ leaf sha256 y
      → (x ≡ y) ⊎ Collides sha256 (leaf_text x ∷ []) (leaf_text y ∷ [])
  unfolding leaf
  leaf-injective x y e = elim (same_text (0 ∷ x) (0 ∷ y) e) [
    | inl same ↦ inl (cc same)
    | inr c ↦ inr c
  ]

  pub node-injective_left :
      (r s p q : Bytes)
      → length r ≡ length s
      → node sha256 r p ≡ node sha256 s q
      → (r ≡ s) ⊎ Collides sha256 (node_text r p ∷ []) (node_text s q ∷ [])
  unfolding node
  node-injective_left r s p q len e = elim (same_text (1 ∷ (r ++ p)) (1 ∷ (s ++ q)) e) [
    | inl same ↦ inl (append-left r s p q len (cc same))
    | inr c ↦ inr c
  ]

  pub node-injective_right :
      (p q r s : Bytes)
      → length r ≡ length s
      → node sha256 p r ≡ node sha256 q s
      → (r ≡ s) ⊎ Collides sha256 (node_text p r ∷ []) (node_text q s ∷ [])
  unfolding node
  node-injective_right p q r s len e = elim (same_text (1 ∷ (p ++ r)) (1 ∷ (q ++ s)) e) [
    | inl same ↦ inl (append-right p q r s len (cc same))
    | inr c ↦ inr c
  ]

  pub round-injective :
      (fn sn : ℕ) (r s p q : Bytes)
      → length r ≡ length s
      → (round sha256 fn sn r p).1 ≡ (round sha256 fn sn s q).1
      → (r ≡ s) ⊎ Collides sha256 (round_text fn sn r p ∷ []) (round_text fn sn s q ∷ [])
  unfolding round
  round-injective fn sn r s p q len e = elim (Bool-cases (fn % 2 == 1)) [
    | inl odd ↦ rw odd (node-injective_right p q r s len (rw odd at e))
    | inr even ↦ elim (Bool-cases (fn == sn)) [
      | inl last ↦ rw (even, last) (node-injective_right p q r s len (rw (even, last) at e))
      | inr inner ↦ rw (even, inner) (node-injective_left r s p q len (rw (even, inner) at e))
    ]
  ]

  pub round-place :
      (fn sn : ℕ) (r s p q : Bytes) → (round sha256 fn sn r p).0 ≡ (round sha256 fn sn s q).0
  unfolding round
  round-place fn sn r s p q = elim (Bool-cases (fn % 2 == 1)) [
    | inl odd ↦ rw odd refl
    | inr even ↦ elim (Bool-cases (fn == sn)) [
      | inl last ↦ rw (even, last) refl
      | inr inner ↦ rw (even, inner) refl
    ]
  ]

  pub round-IsDigest : (fn sn : ℕ) (r p : Bytes) → IsDigest (round sha256 fn sn r p).1
  unfolding round node
  round-IsDigest fn sn r p = elim (Bool-cases (fn % 2 == 1)) [
    | inl odd ↦ rw odd (digest (1 ∷ (p ++ r)))
    | inr even ↦ elim (Bool-cases (fn == sn)) [
      | inl last ↦ rw (even, last) (digest (1 ∷ (p ++ r)))
      | inr inner ↦ rw (even, inner) (digest (1 ∷ (r ++ p)))
    ]
  ]

  pub leaf-IsDigest : (x : Bytes) → IsDigest (leaf sha256 x)
  unfolding leaf
  leaf-IsDigest x = digest (0 ∷ x)

  pub node-IsDigest : (l r : Bytes) → IsDigest (node sha256 l r)
  unfolding node
  node-IsDigest l r = digest (1 ∷ (l ++ r))
