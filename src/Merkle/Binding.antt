-- ===== src/Merkle/Binding.antt =====
-- An accepted inclusion proof of ski_schemas/merkle.py shows the entry that stands there, unless two
-- of the texts that are hashed collide.
use mathlib.Core.Path.{subst}
use ski_framework.Prelude.{
  ℕ, ◌-◌, ◌≡◌, ◌⊎◌, refl, sym, ap, ◌∙◌, inl, inr, ltb, arith, Bool, true, false, some, List, [],
  ◌∷◌, length, String, ◌==◌, bind_some, some-injective, str_eq, eq_iff, Bool-cases, ◌&&◌,
}
use ski_framework.Hex.{Bytes, hex, fromhex}
use ski_framework.Hex.Roundtrip.{hex-injective}
use ski_framework.Merkle.{
  leaf, climb, round, raw_leaves, merkle_root, inclusion_proof, verify_inclusion,
}
use ski_framework.Merkle.Hashed.{leaf_text, round_text, climb_texts, inclusion_texts}
use ski_framework.Merkle.Slices.{get_elem?}
use ski_framework.Merkle.Injective.{
  Collides, Collides-first, Collides-later, IsDigest, leaf-injective, round-injective, round-place,
  round-IsDigest, leaf-IsDigest,
}
use ski_framework.Merkle.Accepted.{inclusion_proof_accepted}

both-true : (a b : Bool) → a && b ≡ true → (a ≡ true) × (b ≡ true)
both-true a b h = ground arith

module _ (sha256 : Bytes → Bytes) (digest : (x : Bytes) → IsDigest (sha256 x)) where
  -- a proof that is used up ended at the root
  climb-end :
      (goal : String) (fn sn : ℕ) (r : Bytes)
      → climb sha256 goal [] fn sn r ≡ some true
      → ((sn == 0) ≡ true) × (hex r ≡ goal)
  unfolding climb
  climb-end goal fn sn r h =
      let parts = both-true (sn == 0) (str_eq (hex r) goal) (some-injective h) in
      (parts.0, (eq_iff (hex r) goal).0 parts.1)

  -- a proof that goes on has not ended
  climb-next :
      (goal x : String) (proof : List String) (fn sn : ℕ) (r : Bytes)
      → climb sha256 goal (x ∷ proof) fn sn r ≡ some true
      → (p : Bytes) × (fromhex x ≡ some p)
        × ((sn == 0) ≡ false)
        × (climb sha256 goal proof
              (round sha256 fn sn r p).0.0
              (round sha256 fn sn r p).0.1
              (round sha256 fn sn r p).1
            ≡ some true)
  unfolding climb
  climb-next goal x proof fn sn r h =
      let (p, parsed, rest) = bind_some (fromhex x) _ true h in
      elim (Bool-cases (sn == 0)) [
        | inl over ↦ cc (rw over at rest)
        | inr on ↦ (p, parsed, on, rw on at rest)
      ]

  climb_texts-next :
      (x : String) (proof : List String) (fn sn : ℕ) (r p : Bytes)
      → fromhex x ≡ some p
      → climb_texts sha256 (x ∷ proof) fn sn r
        ≡ round_text fn sn r p
          ∷ climb_texts sha256 proof
              (round sha256 fn sn r p).0.0
              (round sha256 fn sn r p).0.1
              (round sha256 fn sn r p).1
  unfolding climb_texts
  climb_texts-next x proof fn sn r p parsed = rw (climb_texts, parsed) refl

  transport_texts :
      {ps qs vs ws : List Bytes} → ps ≡ qs → vs ≡ ws → Collides sha256 ps vs → Collides sha256 qs ws
  transport_texts {ps} {qs} {vs} {ws} e f c =
      subst (λ z. Collides sha256 z ws) e (subst (λ z. Collides sha256 ps z) f c)

  -- Two proofs that end at one root started at one hash, or two of their texts collide.
  climb-injective :
      (goal : String) (proof others : List String) (fn sn : ℕ) (r s : Bytes)
      → IsDigest r
      → IsDigest s
      → climb sha256 goal proof fn sn r ≡ some true
      → climb sha256 goal others fn sn s ≡ some true
      → (r ≡ s)
        ⊎ Collides sha256 (climb_texts sha256 proof fn sn r) (climb_texts sha256 others fn sn s)
  climb-injective goal [] [] fn sn r s dr ds h k = inl (
      hex-injective r s dr.1 ds.1 ((climb-end goal fn sn r h).1 ∙ sym (climb-end goal fn sn s k).1))
  climb-injective goal [] (y ∷ others) fn sn r s dr ds h k =
      let (q, parsed, on, rest) = climb-next goal y others fn sn s k in
      cc ((climb-end goal fn sn r h).0, on)
  climb-injective goal (x ∷ proof) [] fn sn r s dr ds h k =
      let (p, parsed, on, rest) = climb-next goal x proof fn sn r h in
      cc ((climb-end goal fn sn s k).0, on)
  climb-injective goal (x ∷ proof) (y ∷ others) fn sn r s dr ds h k =
      let (p, parsed, _, up) = climb-next goal x proof fn sn r h in
      let (q, read, _, above) = climb-next goal y others fn sn s k in
      let a = round sha256 fn sn r p in
      let b = round sha256 fn sn s q in
      let place : b.0 ≡ a.0 = round-place sha256 digest fn sn s r q p in
      let len : length r ≡ length s = omega (arith, dr.0, ds.0) in
      let texts = sym (climb_texts-next x proof fn sn r p parsed) in
      let more = sym (climb_texts-next y others fn sn s q read) in
      let at_y = climb_texts sha256 others b.0.0 b.0.1 b.1 in
      elim (climb-injective goal proof others a.0.0 a.0.1 a.1 b.1
        (round-IsDigest sha256 digest fn sn r p) (round-IsDigest sha256 digest fn sn s q) up
        (subst (λ (z : ℕ × ℕ). climb sha256 goal others z.0 z.1 b.1 ≡ some true) place above)) [
          | inl same ↦ elim (round-injective sha256 digest fn sn r s p q len same) [
            | inl e ↦ inl e
            | inr c ↦ inr (
                transport_texts texts more (
                  Collides-first sha256 (round_text fn sn r p) (round_text fn sn s q)
                    (climb_texts sha256 proof a.0.0 a.0.1 a.1) at_y c))
          ]
          | inr c ↦ inr (
              transport_texts texts more (
                Collides-later sha256 (round_text fn sn r p) (round_text fn sn s q)
                  (climb_texts sha256 proof a.0.0 a.0.1 a.1) at_y
                  (subst
                    (λ (z : ℕ × ℕ).
                      Collides sha256 (climb_texts sha256 proof a.0.0 a.0.1 a.1)
                        (climb_texts sha256 others z.0 z.1 b.1))
                    (sym place) c)))
        ]

  -- the entry that a proof was accepted for, and the rest of its climb
  verify_inclusion-climb :
      (h : String) (index n : ℕ) (proof : List String) (top : String)
      → verify_inclusion sha256 h index n proof top ≡ some true
      → (e : Bytes) × (fromhex h ≡ some e)
        × (climb sha256 top proof index (n - 1) (leaf sha256 e) ≡ some true)
        × (inclusion_texts sha256 h index n proof
            ≡ leaf_text e ∷ climb_texts sha256 proof index (n - 1) (leaf sha256 e))
  unfolding verify_inclusion inclusion_texts
  verify_inclusion-climb h index n proof top v = elim (Bool-cases (ltb index n)) [
    | inl within ↦
        let (e, parsed, up) = bind_some (fromhex h) _ true (rw within at v) in
        (e, parsed, up, rw (inclusion_texts, parsed) refl)
    | inr outside ↦ cc (rw outside at v)
  ]

  -- Let SHA-256 give 32 bytes. If two proofs are accepted at one index and size under one root,
  -- the two hashes that they are for have the same bytes, or a text that the one verification
  -- hashes and another one that the other hashes have one digest.
  pub verify_inclusion_binds :
      (h g : String) (index n : ℕ) (proof others : List String) (top : String)
      → verify_inclusion sha256 h index n proof top ≡ some true
      → verify_inclusion sha256 g index n others top ≡ some true
      → (fromhex h ≡ fromhex g)
        ⊎ Collides sha256
            (inclusion_texts sha256 h index n proof)
            (inclusion_texts sha256 g index n others)
  verify_inclusion_binds h g index n proof others top v w =
      let (a, parsed, up, texts) = verify_inclusion-climb h index n proof top v in
      let (b, read, above, more) = verify_inclusion-climb g index n others top w in
      let rest = climb_texts sha256 proof index (n - 1) (leaf sha256 a) in
      let others_rest = climb_texts sha256 others index (n - 1) (leaf sha256 b) in
      rw (texts, more)
        (elim (climb-injective top proof others index (n - 1) (leaf sha256 a) (leaf sha256 b)
          (leaf-IsDigest sha256 digest a) (leaf-IsDigest sha256 digest b) up above) [
            | inr c ↦ inr (Collides-later sha256 (leaf_text a) (leaf_text b) rest others_rest c)
            | inl same ↦ elim (leaf-injective sha256 digest a b same) [
              | inl e ↦ inl (parsed ∙ ap some e ∙ sym read)
              | inr c ↦ inr (Collides-first sha256 (leaf_text a) (leaf_text b) rest others_rest c)
            ]
          ])

  -- Let SHA-256 give 32 bytes. Let the verification accept a hash at an index under the root of a
  -- list of hashes. Then the list has an inclusion proof at that index, and the hash has the bytes
  -- of the one that stands there in the list, or a text that its verification hashes and another
  -- one that the verification of the list's own proof hashes have one digest.
  pub verify_inclusion_sound :
      (hs : List String) (leaves : List Bytes) (index : ℕ) (g h top : String) (proof : List String)
      → raw_leaves hs ≡ some leaves
      → get_elem? hs index ≡ some g
      → merkle_root sha256 hs ≡ some top
      → verify_inclusion sha256 h index (length hs) proof top ≡ some true
      → (own : List String) × (inclusion_proof sha256 hs index ≡ some own)
        × ((fromhex h ≡ fromhex g)
            ⊎ Collides sha256
                (inclusion_texts sha256 h index (length hs) proof)
                (inclusion_texts sha256 g index (length hs) own))
  verify_inclusion_sound hs leaves index g h top proof parsed at rooted v =
      let (own, root, proven, own_rooted, accepted) =
        inclusion_proof_accepted sha256 (λ x. (digest x).1) hs leaves index g parsed at in
      let same : root ≡ top = some-injective (sym own_rooted ∙ rooted) in
      (
        own,
        proven,
        verify_inclusion_binds h g index (length hs) proof own top v (
            subst (λ t. verify_inclusion sha256 g index (length hs) own t ≡ some true) same
              accepted),
      )
