-- ===== src/Ledger/Rewritten.antt =====
-- A checkpoint that verifies against two ledgers covers the same entries in both.
use ski_framework.Prelude.{
  ◌≤◌, ◌≡◌, ◌⊎◌, sym, ap, ◌∙◌, inl, inr, Bool, true, false, some, List, [], String, length,
  bind_some, str_eq, eq_iff, Bool-cases, ltb-cases,
}
use ski_framework.Hex.{Bytes}
use ski_framework.Merkle.{merkle_root, raw_leaves}
use ski_framework.Merkle.Hashed.{root_texts}
use ski_framework.Merkle.Slices.{take, length-take}
use ski_framework.Merkle.Injective.{Collides, IsDigest}
use ski_framework.Merkle.Pinned.{merkle_root_pins}
use ski_framework.Ledger.{Library, checkpoint_statement}
use ski_framework.Ledger.Tables.{Checkpoint}
use ski_framework.Ledger.Keys.{Crypto, KeyRing, check_one, check_entries, check_root}

module _ (Key : Type 0) (lib : Library) (crypto : Crypto Key) where
  check_root-empty :
      (cp : Checkpoint) (covered : List String)
      → check_root Key lib crypto cp covered ≡ some []
      → merkle_root lib.sha256 covered ≡ some cp.root_hash
  unfolding check_root
  check_root-empty cp covered h =
      let (root, hr, rest) = bind_some (merkle_root lib.sha256 covered) _ [] h in
      elim (Bool-cases (str_eq root cp.root_hash)) [
        | inl same ↦ hr ∙ ap some ((eq_iff root cp.root_hash).0 same)
        | inr other ↦ cc (rw other at rest)
      ]

  check_entries-empty :
      (signed trusted : Bool) (cp : Checkpoint) (hashes : List String)
      → check_entries Key lib crypto signed trusted cp hashes ≡ some []
      → (cp.tree_size ≤ length hashes)
        × (merkle_root lib.sha256 (take cp.tree_size hashes) ≡ some cp.root_hash)
  unfolding check_entries
  check_entries-empty false trusted cp hashes h = cc h
  check_entries-empty true false cp hashes h = cc h
  check_entries-empty true true cp hashes h = elim (ltb-cases (length hashes) cp.tree_size) [
    | inl (beyond, _) ↦ cc (rw beyond at h)
    | inr (within, size) ↦ (size, check_root-empty cp (take cp.tree_size hashes) (rw within at h))
  ]

  -- a checkpoint without an issue covers entries that the ledger has, with its root
  pub check_one_covers :
      (cp : Checkpoint) (hashes : List String) (ring : KeyRing Key)
      → check_one Key lib crypto cp hashes ring ≡ some []
      → (cp.tree_size ≤ length hashes)
        × (merkle_root lib.sha256 (take cp.tree_size hashes) ≡ some cp.root_hash)
  unfolding check_one
  check_one_covers cp hashes ring h =
      let stated =
        bind_some
          (checkpoint_statement lib cp.tenant_id cp.tree_size cp.root_hash cp.last_entry_hash
            cp.created_at)
          _ [] h in
      check_entries-empty _ _ cp hashes stated.2

  -- Let SHA-256 give 32 bytes. If a checkpoint has no issue against two ledgers, the entry hashes
  -- that it covers have the same bytes in both, or a text that is hashed for the one root and
  -- another one that is hashed for the other have one digest.
  pub check_one_pins :
      ((x : Bytes) → IsDigest (lib.sha256 x))
      → (cp : Checkpoint) (hashes others : List String) (ring : KeyRing Key) (xs ys : List Bytes)
      → raw_leaves (take cp.tree_size hashes) ≡ some xs
      → raw_leaves (take cp.tree_size others) ≡ some ys
      → check_one Key lib crypto cp hashes ring ≡ some []
      → check_one Key lib crypto cp others ring ≡ some []
      → (xs ≡ ys)
        ⊎ Collides lib.sha256
            (root_texts lib.sha256 (length xs) xs)
            (root_texts lib.sha256 (length ys) ys)
  check_one_pins digest cp hashes others ring xs ys px py h g =
      let (sh, rh) = check_one_covers cp hashes ring h in
      let (sg, rg) = check_one_covers cp others ring g in
      merkle_root_pins lib.sha256 digest (take cp.tree_size hashes) (take cp.tree_size others) xs ys
        cp.root_hash px py
        (length-take cp.tree_size hashes sh ∙ sym (length-take cp.tree_size others sg)) rh rg
