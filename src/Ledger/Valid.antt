-- ===== src/Ledger/Valid.antt =====
-- The whole way of a ledger: written by ledger_client.py from empty tables, and verified by
-- audit_ledger/ledger.py.
use ski_framework.Prelude.{ℕ, ◌≡◌, refl, true, some, List, [], ◌∷◌, length, bind_intro}
use ski_framework.Hex.{Bytes}
use ski_framework.Ledger.{Row}
use ski_framework.Ledger.Client.{append_v3}
use ski_framework.Ledger.Tables.{
  Client, Evaluation, Runtime, Signer, Store, Checkpoint, latest, entry_hashes,
}
use ski_framework.Ledger.Keys.{
  Crypto, KeyRing, get_key, is_trusted, signature_valid, ring_issues, verify_checkpoints,
}
use ski_framework.Ledger.Audit.{Result, in_order, verify_with}
use ski_framework.Ledger.Format.{Session}
use ski_framework.Ledger.Honest.{stamp, IsAudited, IsRecorded, none-IsAudited, append_v3-IsAudited}

module _ (run : Runtime) (session : Session) (Key : Type 0) (crypto : Crypto Key)
    (ring : KeyRing Key) where
  -- a result without an issue, that has counted every row
  abbrev pub IsIntact : Result → List Row → Type 0
  IsIntact r rows =
      (r.is_valid ≡ true)
      × (r.total_entries ≡ length rows)
      × (r.chain_link_verified_count ≡ length rows)
      × (r.entry_hash_verified_count ≡ length rows)
      × (r.verdict_signatures_verified ≡ length rows)

  no_issues : ring.bad_rows ≡ [] → ring_issues Key run.lib crypto ring ≡ []
  unfolding ring_issues
  no_issues h = rw h refl

  -- rows without an issue, a sound key table and checkpoints that verify give a valid result
  pub audited_is_valid :
      (rows : List Row) (checkpoints : List Checkpoint)
      → IsAudited run session Key crypto ring rows
      → ring.bad_rows ≡ []
      → verify_checkpoints Key run.lib crypto checkpoints (entry_hashes rows) ring ≡ some []
      → (r : Result) × (verify_with run.lib session Key crypto ring rows checkpoints ≡ some r)
        × IsIntact r rows
  unfolding verify_with
  audited_is_valid [] checkpoints audited good covered = (_, refl, (refl, refl, refl, refl, refl))
  audited_is_valid (row ∷ rows) checkpoints (p, ran, clean) good covered = (
    _,
    bind_intro _ _ p _ ran (bind_intro _ _ [] _ covered refl),
    (rw (clean.0, no_issues good) refl, refl, clean.5, clean.6, clean.7),
  )

  module _ (s : Signer) (k : Key) (same_zone : (t : ℕ) → session.isoformat t ≡ run.isoformat t)
      (held : get_key Key run.lib crypto ring (some s.key_id) ≡ some k)
      (trusted : is_trusted Key run.lib crypto ring (some s.key_id) ≡ true)
      (signs : (m : Bytes) → signature_valid Key run.lib crypto k m (some (s.sign m)) ≡ true) where
    -- The tables that a signing client of format 5 reaches from empty ones, by steps of `append_v3`
    -- that do not raise, under a clock that does not run backwards.
    pub data IsWritten : Store → Type 0 where
      fresh : (db : Store) → db.entries ≡ [] → IsWritten db
      appended :
          (now : ℕ) (e : Evaluation) (c : Client) (db after : Store)
          → IsWritten db
          → c.format5 ≡ true
          → c.signer ≡ some s
          → IsRecorded run session Key crypto ring s k same_zone held trusted signs e
          → in_order (stamp (latest db.entries)) now ≡ true
          → append_v3 run now e c db ≡ some after
          → IsWritten after

    pub IsWritten-IsAudited :
        (db : Store) → IsWritten db → IsAudited run session Key crypto ring db.entries
    IsWritten-IsAudited db (fresh _ empty) = rw empty (none-IsAudited run session Key crypto ring)
    IsWritten-IsAudited after (appended now e c db _ written five keyed recorded later step) =
        append_v3-IsAudited run session Key crypto ring s k same_zone held trusted signs now e c db
          after five keyed recorded later (IsWritten-IsAudited db written) step

    -- Let the client sign with a key that the auditor holds and trusts, and let the auditor read
    -- an instant as the client wrote it. Let tables be reached from empty ones by steps of
    -- `append_v3` in format 5, under a clock that does not run backwards, where JSONB keeps the
    -- canonical forms of the envelope and the transcript of each evaluation, and the columns hold
    -- its other values. They verify if the key table is sound and the checkpoints verify: the
    -- result is valid, and counts every row as linked, reproduced and signed.
    pub written_is_valid :
        (db : Store)
        → IsWritten db
        → ring.bad_rows ≡ []
        → verify_checkpoints Key run.lib crypto db.checkpoints (entry_hashes db.entries) ring
          ≡ some []
        → (r : Result) × (verify_with run.lib session Key crypto ring db.entries db.checkpoints
            ≡ some r)
          × IsIntact r db.entries
    written_is_valid db written good covered =
        audited_is_valid db.entries db.checkpoints (IsWritten-IsAudited db written) good covered
