-- ===== src/Ledger/Checkpoints.antt =====
-- The checkpoints of ski_model/ledger_client.py: the steps of `LedgerClient` that sign the root of every
-- entry so far, and `list`.
use ski_framework.Prelude.{
  ℕ, Bool, true, false, Option, none, some, List, [], ◌∷◌, ◌++◌, String, ◌==◌, leb, if◌then◌else◌,
  ◌>>=◌, length, is_empty, str_eq, any, ◌&&◌, ◌||◌,
}
use ski_framework.Value.Numeric.{ℤ, sub_ℕ}
use ski_framework.Merkle.{merkle_root}
use ski_framework.Merkle.Slices.{take, drop}
use ski_framework.Ledger.{Row, checkpoint_statement}
use ski_framework.Ledger.Tables.{
  Signer, Client, Checkpoint, Store, Runtime, max_sequence, max_tree_size, entry_hashes, last_text,
}

module _ (run : Runtime) where
  unfoldable pub entries_since_checkpoint : Client → Store → ℤ
  unfolding max_sequence max_tree_size
  entries_since_checkpoint c db =
      sub_ℕ (max_sequence db.entries) (max_tree_size c.tenant_id db.checkpoints)

  abbrev covers : String → ℕ → Checkpoint → Bool
  covers tenant size p = str_eq p.tenant_id tenant && p.tree_size == size

  -- the row that `checkpoint` signs, without a time-stamp
  unfoldable pub sign_checkpoint : ℕ → Client → Signer → List String → Option Checkpoint
  unfolding merkle_root last_text checkpoint_statement
  sign_checkpoint now c s hashes = merkle_root run.lib.sha256 hashes >>= λ root.
      last_text hashes >>= λ last.
      checkpoint_statement run.lib c.tenant_id (length hashes) root last (run.isoformat now)
      >>= λ statement. some (record {
        tenant_id = c.tenant_id;
        tree_size = length hashes;
        root_hash = root;
        last_entry_hash = last;
        created_at = run.isoformat now;
        signing_key_id = s.key_id;
        signature = s.sign statement;
      })

  -- whether a checkpoint covers every entry
  unfoldable pub nothing_new : Client → Store → Bool
  unfolding max_tree_size
  nothing_new c db =
      is_empty (entry_hashes db.entries)
      || leb (length (entry_hashes db.entries)) (max_tree_size c.tenant_id db.checkpoints)

  -- `checkpoint`: the row, or `None` if nothing is new, and the tables
  unfoldable pub checkpoint : ℕ → Client → Signer → Store → Option (Option Checkpoint × Store)
  unfolding sign_checkpoint nothing_new
  checkpoint now c s db = elim (nothing_new c db) [
    | true ↦ some (none, db)
    | false ↦ sign_checkpoint now c s (entry_hashes db.entries) >>= λ row.
        if any (covers c.tenant_id row.tree_size) db.checkpoints
        then some (some row, db)
        else some (some row, record db { checkpoints = db.checkpoints ++ (row ∷ []) })
  ]

-- the rows that `list` gives
unfoldable pub list_entries : ℕ → ℕ → Store → List Row
list_entries limit offset db = take limit (drop offset db.entries)
