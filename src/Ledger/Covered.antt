-- ===== src/Ledger/Covered.antt =====
-- A checkpoint that the client signs verifies, now and after the ledger has grown.
use mathlib.Core.Path.{subst}
use text.Mathlib.TextPositions.{eq_refl}
use ski_framework.Prelude.{
  ℕ, ◌≡◌, refl, ap, ◌∙◌, Bool, true, false, Option, some, List, [], ◌∷◌, ◌++◌, String, length,
  length-append, ltb, arith, bind_some, bind_intro, some-injective, inl, inr, Bool-cases, any,
  if◌then◌else◌,
}
use ski_framework.Hex.{Bytes}
use ski_framework.Merkle.{merkle_root}
use ski_framework.Merkle.Slices.{take}
use ski_framework.Ledger.{checkpoint_statement}
use ski_framework.Ledger.Checkpoints.{sign_checkpoint, checkpoint, nothing_new}
use ski_framework.Ledger.Tables.{
  Client, Runtime, Signer, Store, Checkpoint, last_text, entry_hashes,
}
use ski_framework.Ledger.Keys.{
  Issue, Crypto, KeyRing, get_key, is_trusted, signature_valid, key_id_of, strip_text, check_one,
  check_entries, check_root, signs,
}

take-append : (xs ys : List String) → take (length xs) (xs ++ ys) ≡ xs
take-append [] ys = refl
take-append (x ∷ xs) ys = ap (λ zs. x ∷ zs) (take-append xs ys)

cong2 : (f : Bool → Bool → Option (List Issue)) {a b c d : Bool} → a ≡ b → c ≡ d → f a c ≡ f b d
cong2 f p q = rw (p, q) refl

module _ (run : Runtime) (Key : Type 0) (crypto : Crypto Key) (ring : KeyRing Key) (s : Signer)
    (k : Key) (held : get_key Key run.lib crypto ring (some (strip_text s.key_id)) ≡ some k)
    (named : key_id_of Key run.lib crypto k ≡ strip_text s.key_id)
    (trusted : is_trusted Key run.lib crypto ring (some (strip_text s.key_id)) ≡ true)
    (valid : (m : Bytes) → signature_valid Key run.lib crypto k m (some (s.sign m)) ≡ true) where
  abbrev made : ℕ → Client → List String → String → String → Bytes → Checkpoint
  made now c hashes root last m = record {
    tenant_id = c.tenant_id;
    tree_size = length hashes;
    root_hash = root;
    last_entry_hash = last;
    created_at = run.isoformat now;
    signing_key_id = s.key_id;
    signature = s.sign m;
  }

  made-check_root :
      (now : ℕ) (c : Client) (hashes : List String) (root last : String) (m : Bytes)
      → merkle_root run.lib.sha256 hashes ≡ some root
      → last_text hashes ≡ some last
      → check_root Key run.lib crypto (made now c hashes root last m) hashes ≡ some []
  unfolding check_root
  made-check_root now c hashes root last m hr hl =
      bind_intro _ _ root _ hr
        (rw (eq_refl root) (bind_intro _ _ last _ hl (rw (eq_refl last) refl)))

  made-check_entries :
      (now : ℕ) (c : Client) (hashes more : List String) (root last : String) (m : Bytes)
      → merkle_root run.lib.sha256 hashes ≡ some root
      → last_text hashes ≡ some last
      → check_entries Key run.lib crypto true true (made now c hashes root last m) (hashes ++ more)
        ≡ some []
  unfolding check_entries
  made-check_entries now c hashes more root last m hr hl =
      let held : ltb (length (hashes ++ more)) (length hashes) ≡ false =
        ground (arith, length-append hashes more) in
      rw (held, take-append hashes more) (made-check_root now c hashes root last m hr hl)

  made-signs :
      (now : ℕ) (c : Client) (hashes : List String) (root last : String) (m : Bytes)
      → signs Key run.lib crypto
          (get_key Key run.lib crypto ring (some (strip_text s.key_id)))
          (made now c hashes root last m)
          m
        ≡ true
  made-signs now c hashes root last m =
      ap (λ o. signs Key run.lib crypto o (made now c hashes root last m) m) held
      ∙ (rw (named, eq_refl (strip_text s.key_id)) (valid m))

  -- the row that is signed is checked without an issue
  pub sign_checkpoint_verifies :
      (now : ℕ) (c : Client) (hashes more : List String) (cp : Checkpoint)
      → sign_checkpoint run now c s hashes ≡ some cp
      → check_one Key run.lib crypto cp (hashes ++ more) ring ≡ some []
  unfolding sign_checkpoint check_one
  sign_checkpoint_verifies now c hashes more cp h =
      let a = bind_some (merkle_root run.lib.sha256 hashes) _ cp h in
      let b = bind_some (last_text hashes) _ cp a.2 in
      let d =
        bind_some
          (checkpoint_statement run.lib c.tenant_id (length hashes) a.0 b.0 (run.isoformat now)) _
          cp b.2 in
      subst (λ x. check_one Key run.lib crypto x (hashes ++ more) ring ≡ some [])
        (some-injective d.2)
        (bind_intro _ _ d.0 _ d.1 (
          cong2
            (λ v t.
              check_entries Key run.lib crypto v t (made now c hashes a.0 b.0 d.0) (hashes ++ more))
            (made-signs now c hashes a.0 b.0 d.0) trusted
          ∙ made-check_entries now c hashes more a.0 b.0 d.0 a.1 b.1))

  -- Let the client sign with a key that the ring holds under its own id and trusts. If
  -- `checkpoint` gives a row, the check of that row against the hashes of the ledger, and of any
  -- that come after them, finds no issue.
  pub checkpoint_verifies :
      (now : ℕ) (c : Client) (db after : Store) (cp : Checkpoint) (more : List String)
      → checkpoint run now c s db ≡ some (some cp, after)
      → check_one Key run.lib crypto cp (entry_hashes db.entries ++ more) ring ≡ some []
  unfolding checkpoint
  checkpoint_verifies now c db after cp more h =
      let hashes = entry_hashes db.entries in
      elim (Bool-cases (nothing_new run c db)) [
        | inl nothing ↦ cc (rw (checkpoint, nothing) at h)
        | inr new ↦
            let (row, made, rest) =
              bind_some (sign_checkpoint run now c s hashes) _ (some cp, after)
                (rw (checkpoint, new) at h) in
            sign_checkpoint_verifies now c hashes more cp
              (made ∙ ap some (same_row (any _ db.checkpoints) row cp _ _ after rest))
      ]
    where
      same_row :
          (b : Bool) (row cp : Checkpoint) (d d' after : Store)
          → if◌then◌else◌ {A = Option (Option Checkpoint × Store)} b
              (some (some row, d))
              (some (some row, d'))
            ≡ some (some cp, after)
          → row ≡ cp
      same_row true row cp d d' after e = cc e
      same_row false row cp d d' after e = cc e
