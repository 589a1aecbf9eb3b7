-- ===== src/Merkle/Pinned.antt =====
-- One root of ski_schemas/merkle.py has one list of entries of a given length, unless two of the texts
-- that are hashed collide.
use mathlib.Core.Path.{subst}
use ski_framework.Prelude.{
  ◌++◌, In-append_left, In-append_right, ℕ, zero, suc, ◌≤◌, ◌≡◌, ◌⊎◌, refl, sym, ap, ◌∙◌, inl, inr,
  some, List, [], ◌∷◌, length, arith, ltb-cases, some-injective, String,
}
use ski_framework.Hex.{Bytes, hex}
use ski_framework.Hex.Roundtrip.{hex-injective}
use ski_framework.Merkle.{split, root, node, merkle_root, raw_leaves}
use ski_framework.Merkle.Hashed.{node_text, root_texts}
use ski_framework.Merkle.Slices.{take, drop, length-take, length-drop}
use ski_framework.Merkle.Split.{split-IsCut}
use ski_framework.Merkle.Shift.{shift-ge}
use ski_framework.Merkle.Unfold.{root-split}
use ski_framework.Merkle.Accepted.{raw_leaves-get_elem?}
use ski_framework.Merkle.Injective.{
  Collides, Collides-first, Collides-within, IsDigest, leaf-injective, leaf-IsDigest,
  node-injective_left, node-injective_right, node-IsDigest,
}

take-drop : (k : ℕ) (xs ys : List Bytes) → take k xs ≡ take k ys → drop k xs ≡ drop k ys → xs ≡ ys
take-drop zero xs ys t d = d
take-drop (suc k) [] [] t d = refl
take-drop (suc k) [] (y ∷ ys) t d = cc t
take-drop (suc k) (x ∷ xs) [] t d = cc t
take-drop (suc k) (x ∷ xs) (y ∷ ys) t d = cc (t, take-drop k xs ys (cc t) d)

module _ (sha256 : Bytes → Bytes) (digest : (x : Bytes) → IsDigest (sha256 x)) where
  root-IsDigest :
      (f : ℕ) (nodes : List Bytes)
      → 1 ≤ length nodes
      → length nodes ≤ f
      → IsDigest (root sha256 f nodes)
  unfolding root
  root-IsDigest zero nodes low high = absurd (omega arith)
  root-IsDigest (suc f) [] low high = absurd (omega arith)
  root-IsDigest (suc f) (x ∷ []) low high = leaf-IsDigest sha256 digest x
  root-IsDigest (suc f) (x ∷ y ∷ rest) low high = node-IsDigest sha256 digest _ _

  one-injective :
      (f : ℕ) (xs ys : List Bytes)
      → length xs ≡ 1
      → length ys ≡ 1
      → root sha256 (suc f) xs ≡ root sha256 (suc f) ys
      → (xs ≡ ys) ⊎ Collides sha256 (root_texts sha256 (suc f) xs) (root_texts sha256 (suc f) ys)
  unfolding root root_texts
  one-injective f [] ys lx ly e = absurd (omega arith)
  one-injective f (x ∷ []) [] lx ly e = absurd (omega arith)
  one-injective f (x ∷ []) (y ∷ []) lx ly e = elim (leaf-injective sha256 digest x y e) [
    | inl same ↦ inl (ap (λ b. b ∷ []) same)
    | inr c ↦ inr c
  ]
  one-injective f (x ∷ []) (y ∷ z ∷ ys) lx ly e = absurd (omega arith)
  one-injective f (x ∷ z ∷ xs) ys lx ly e = absurd (omega arith)

  -- the texts of a list that is split
  abbrev split_texts : ℕ → ℕ → List Bytes → List Bytes
  split_texts f k xs =
      node_text (root sha256 f (take k xs)) (root sha256 f (drop k xs))
      ∷ (root_texts sha256 f (take k xs) ++ root_texts sha256 f (drop k xs))

  root_texts-split :
      (f : ℕ) (xs : List Bytes)
      → 2 ≤ length xs
      → root_texts sha256 (suc f) xs ≡ split_texts f (split (length xs)) xs
  unfolding root_texts
  root_texts-split f [] h = absurd (omega arith)
  root_texts-split f (x ∷ []) h = absurd (omega arith)
  root_texts-split f (x ∷ y ∷ rest) h = refl

  in_left :
      (a b : Bytes) (texts more others rest : List Bytes)
      → Collides sha256 texts others
      → Collides sha256 (a ∷ (texts ++ more)) (b ∷ (others ++ rest))
  in_left a b texts more others rest =
      Collides-within sha256 texts others (a ∷ (texts ++ more)) (b ∷ (others ++ rest))
        (λ x m. inr (In-append_left x texts more m)) (λ y m. inr (In-append_left y others rest m))

  in_right :
      (a b : Bytes) (texts more others rest : List Bytes)
      → Collides sha256 more rest
      → Collides sha256 (a ∷ (texts ++ more)) (b ∷ (others ++ rest))
  in_right a b texts more others rest =
      Collides-within sha256 more rest (a ∷ (texts ++ more)) (b ∷ (others ++ rest))
        (λ x m. inr (In-append_right x texts more m)) (λ y m. inr (In-append_right y others rest m))

  -- the halves of two lists of one length: two parts of equal lengths, neither empty nor the whole
  abbrev Halves : ℕ → ℕ → List Bytes → List Bytes → Type 0
  Halves f k xs ys =
      (length (take k xs) ≡ length (take k ys))
      × (1 ≤ length (take k xs))
      × (length (take k xs) ≤ f)
      × (length (drop k xs) ≡ length (drop k ys))
      × (1 ≤ length (drop k xs))
      × (length (drop k xs) ≤ f)

  halves :
      (f : ℕ) (xs ys : List Bytes)
      → length xs ≡ length ys
      → 2 ≤ length xs
      → length xs ≤ suc f
      → Halves f (split (length xs)) xs ys
  halves f xs ys len two high =
      let k = split (length xs) in
      let cut = split-IsCut (length xs) two in
      let pos : 1 ≤ k = omega (arith, cut.1.0, shift-ge cut.0 1) in
      let below = cut.1.1.0 in
      let lx = length-take k xs (omega (arith, below)) in
      let ly = length-take k ys (omega (arith, below, len)) in
      let rx = length-drop k xs in
      let ry = length-drop k ys in
      (
        omega (arith, lx, ly),
        omega (arith, lx, pos),
        omega (arith, lx, below, high),
        omega (arith, rx, ry, len),
        omega (arith, rx, below),
        omega (arith, rx, pos, below, high),
      )

  same_digest_length : (r s : Bytes) → IsDigest r → IsDigest s → length r ≡ length s
  same_digest_length r s dr ds = omega (arith, dr.0, ds.0)

  -- Two lists that are split at one place have equal halves, or two of their texts collide.
  split-injective :
      (f k : ℕ) (xs ys : List Bytes)
      → Halves f k xs ys
      → node sha256 (root sha256 f (take k xs)) (root sha256 f (drop k xs))
        ≡ node sha256 (root sha256 f (take k ys)) (root sha256 f (drop k ys))
      → ((root sha256 f (take k xs) ≡ root sha256 f (take k ys))
          × (root sha256 f (drop k xs) ≡ root sha256 f (drop k ys)))
        ⊎ Collides sha256 (split_texts f k xs) (split_texts f k ys)
  split-injective f k xs ys (lt, l1, lf, ld, r1, rf) nodes =
      let left_x = root-IsDigest f (take k xs) l1 lf in
      let left_y = root-IsDigest f (take k ys) (omega arith) (omega arith) in
      let right_x = root-IsDigest f (drop k xs) r1 rf in
      let right_y = root-IsDigest f (drop k ys) (omega arith) (omega arith) in
      let first =
        Collides-first sha256 (node_text (root sha256 f (take k xs)) (root sha256 f (drop k xs)))
          (node_text (root sha256 f (take k ys)) (root sha256 f (drop k ys)))
          (root_texts sha256 f (take k xs) ++ root_texts sha256 f (drop k xs))
          (root_texts sha256 f (take k ys) ++ root_texts sha256 f (drop k ys)) in
      elim (node-injective_left sha256 digest _ _ _ _ (same_digest_length _ _ left_x left_y)
        nodes) [
          | inr c ↦ inr (first c)
          | inl left ↦
              elim (node-injective_right sha256 digest _ _ _ _
                (same_digest_length _ _ right_x right_y) nodes) [
                  | inr c ↦ inr (first c)
                  | inl right ↦ inl (left, right)
                ]
        ]

  pub root-injective :
      (f : ℕ) (xs ys : List Bytes)
      → length xs ≡ length ys
      → 1 ≤ length xs
      → length xs ≤ f
      → root sha256 f xs ≡ root sha256 f ys
      → (xs ≡ ys) ⊎ Collides sha256 (root_texts sha256 f xs) (root_texts sha256 f ys)
  root-injective zero xs ys len low high e = absurd (omega arith)
  root-injective (suc f) xs ys len low high e = elim (ltb-cases 1 (length xs)) [
    | inr (_, one) ↦ one-injective f xs ys (omega arith) (omega arith) e
    | inl (_, two) ↦
        let k = split (length xs) in
        let apart = halves f xs ys len two high in
        let (lt, l1, lf, ld, r1, rf) = apart in
        let place : split (length ys) ≡ k = ap split (sym len) in
        let nodes : node sha256 (root sha256 f (take k xs)) (root sha256 f (drop k xs))
            ≡ node sha256 (root sha256 f (take k ys)) (root sha256 f (drop k ys)) =
          sym (root-split sha256 f xs two)
          ∙ e
          ∙ (rw (ap split len) (root-split sha256 f ys (omega arith))) in
        let more : root_texts sha256 (suc f) ys ≡ split_texts f k ys =
          root_texts-split f ys (omega arith) ∙ ap (λ (z : ℕ). split_texts f z ys) place in
        rw (root_texts-split f xs two, more)
          (elim (split-injective f k xs ys apart nodes) [
            | inr c ↦ inr c
            | inl (left, right) ↦ elim (root-injective f (take k xs) (take k ys) lt l1 lf left) [
              | inr c ↦ inr (in_left _ _ _ _ _ _ c)
              | inl t ↦ elim (root-injective f (drop k xs) (drop k ys) ld r1 rf right) [
                | inr c ↦ inr (in_right _ _ _ _ _ _ c)
                | inl d ↦ inl (take-drop k xs ys t d)
              ]
            ]
          ])
  ]

  -- Let SHA-256 give 32 bytes. If two lists of hashes of one length have one root, they have the
  -- same bytes, or a text that is hashed for the one root and another one that is hashed for the
  -- other have one digest.
  pub merkle_root_pins :
      (hs gs : List String) (xs ys : List Bytes) (top : String)
      → raw_leaves hs ≡ some xs
      → raw_leaves gs ≡ some ys
      → length hs ≡ length gs
      → merkle_root sha256 hs ≡ some top
      → merkle_root sha256 gs ≡ some top
      → (xs ≡ ys)
        ⊎ Collides sha256 (root_texts sha256 (length xs) xs) (root_texts sha256 (length ys) ys)
  unfolding merkle_root
  merkle_root_pins [] [] xs ys top p q len h g = inl (some-injective (sym p ∙ q))
  merkle_root_pins [] (y ∷ gs) xs ys top p q len h g = absurd (omega arith)
  merkle_root_pins (x ∷ hs) [] xs ys top p q len h g = absurd (omega arith)
  merkle_root_pins (x ∷ hs) (y ∷ gs) xs ys top p q len h g =
      let lx = (raw_leaves-get_elem? (x ∷ hs) xs p).0 in
      let ly = (raw_leaves-get_elem? (y ∷ gs) ys q).0 in
      let same : length xs ≡ length ys = omega (arith, lx, ly, len) in
      let n = length xs in
      let dx = root-IsDigest n xs (omega (arith, lx)) (omega arith) in
      let dy = root-IsDigest n ys (omega (arith, ly)) (omega (arith, same)) in
      let hx : hex (root sha256 n xs) ≡ top = some-injective (rw p at h) in
      let hy : hex (root sha256 n ys) ≡ top = some-injective (rw (q, sym same) at g) in
      subst
        (λ (z : ℕ). (xs ≡ ys) ⊎ Collides sha256 (root_texts sha256 n xs) (root_texts sha256 z ys))
        same
        (root-injective n xs ys same (omega (arith, lx)) (omega arith)
          (hex-injective (root sha256 n xs) (root sha256 n ys) dx.1 dy.1 (hx ∙ sym hy)))
