-- ===== src/Ledger/Audit.antt =====
-- The verification of a ledger: `Ledger.verify_integrity` of audit_ledger/ledger.py, over rows in the
-- order of their sequence numbers.
use ski_framework.Prelude.{
  ℕ, ◌+◌, Bool, true, false, not, ◌&&◌, Option, none, some, List, [], ◌∷◌, ◌++◌, String, ◌==◌, leb,
  ltb, if◌then◌else◌, ◌>>=◌, length, is_empty, str_eq, is_some,
}
use ski_framework.Hex.{Bytes}
use ski_framework.Ledger.{Library, Row, genesis_hash}
use ski_framework.Ledger.Tables.{Checkpoint, Store, entry_hashes}
use ski_framework.Ledger.Keys.{
  IssueType, sequence_gap, hash_mismatch, entry_hash_mismatch, format_downgrade,
  evidence_hash_mismatch, verdict_signature_invalid, untrusted_signing_key, timestamp_order, Issue,
  issue, Crypto, KeyRing, signature_valid, get_key, is_trusted, ring_issues, load_ring,
  verify_checkpoints,
}
use ski_framework.Ledger.Format.{Session, entry_format, envelope_matches, signed_message}

-- the variables of the loop
pub record Progress : Type 0 where
  pub issues : List Issue
  pub prev_hash : String
  pub prev_timestamp : Option ℕ
  pub expected_seq : ℕ
  pub chain_link_verified : ℕ
  pub entry_hash_verified : ℕ
  pub timestamps_valid : Bool
  pub sequence_valid : Bool
  pub max_format : ℕ
  pub unchained_evidence : ℕ
  pub verdict_signatures_verified : ℕ
  pub v5_entries : ℕ

-- the members of a `VerificationResult` that the loop decides; every issue is CRITICAL
pub record Result : Type 0 where
  pub is_valid : Bool
  pub total_entries : ℕ
  pub chain_continuity : Bool
  pub chain_link_verified_count : ℕ
  pub entry_hash_verified_count : ℕ
  pub timestamp_ordering : Bool
  pub issues : List Issue
  pub verdict_signatures_verified : ℕ

unfoldable pub start : Progress
unfolding genesis_hash
start = record {
  issues = [];
  prev_hash = genesis_hash;
  prev_timestamp = none;
  expected_seq = 1;
  chain_link_verified = 0;
  entry_hash_verified = 0;
  timestamps_valid = true;
  sequence_valid = true;
  max_format = 3;
  unchained_evidence = 0;
  verdict_signatures_verified = 0;
  v5_entries = 0;
}

-- an issue, unless the test passed
abbrev pub unless : Bool → IssueType → ℕ → List Issue
unless true t n = []
unless false t n = issue t n ∷ []

abbrev pub count_if : Bool → ℕ → ℕ
count_if true n = n + 1
count_if false n = n

-- no row before, or one that is not later
abbrev pub in_order : Option ℕ → ℕ → Bool
in_order none t = true
in_order (some p) t = leb p t

module _ (lib : Library) (session : Session) where
  module _ (Key : Type 0) (crypto : Crypto Key) (ring : KeyRing Key) where
    abbrev pub verifies : Option Key → Bytes → Option String → Bool
    verifies none message signature = false
    verifies (some k) message signature = signature_valid Key lib crypto k message signature

    -- the issues of a format-5 row's signature; nothing where its message raises
    unfoldable pub signature_issues : Row → Option (List Issue)
    unfolding signed_message get_key signature_valid is_trusted
    signature_issues row = signed_message lib session row >>= λ message.
        elim (verifies (get_key Key lib crypto ring row.verdict_signing_key_id) message
          row.verdict_signature) [
            | false ↦ some (issue verdict_signature_invalid row.sequence_number ∷ [])
            | true ↦ some (
                unless (is_trusted Key lib crypto ring row.verdict_signing_key_id)
                  untrusted_signing_key row.sequence_number)
          ]

    -- the same, of a row of any format
    unfoldable pub position_issues : Row → Option (List Issue)
    unfolding entry_format signature_issues
    position_issues row = elim (entry_format lib session row == 5) [
      | true ↦ signature_issues row
      | false ↦ some []
    ]

    -- whether a row was written by an older format than one before it
    abbrev is_downgrade : ℕ → ℕ → Bool
    is_downgrade f seen = not (f == 0) && ltb f seen

    -- the issues of a row, in the order they are found
    unfoldable pub row_issues : Progress → Row → List Issue → List Issue
    unfolding entry_format envelope_matches
    row_issues p row signature =
        let f = entry_format lib session row in
        let n = row.sequence_number in
        unless (n == p.expected_seq) sequence_gap p.expected_seq
        ++ (unless (str_eq row.previous_hash p.prev_hash) hash_mismatch n
            ++ (unless (not (f == 0)) entry_hash_mismatch n
                ++ (unless (not (is_downgrade f p.max_format)) format_downgrade n
                    ++ (unless (not (leb 4 f && not (envelope_matches lib session row)))
                          evidence_hash_mismatch n
                        ++ (signature
                            ++ unless (in_order p.prev_timestamp row.timestamp) timestamp_order
                                n)))))

    -- one round of the loop
    unfoldable pub check_row : Progress → Row → Option Progress
    unfolding position_issues row_issues entry_format
    check_row p row =
        let f = entry_format lib session row in
        let counted = not (f == 0) && not (is_downgrade f p.max_format) in
        position_issues row >>= λ signature. some (record {
          issues = p.issues ++ row_issues p row signature;
          prev_hash = row.entry_hash;
          prev_timestamp = some row.timestamp;
          expected_seq = row.sequence_number + 1;
          chain_link_verified =
              count_if (str_eq row.previous_hash p.prev_hash) p.chain_link_verified;
          entry_hash_verified = count_if counted p.entry_hash_verified;
          timestamps_valid = in_order p.prev_timestamp row.timestamp && p.timestamps_valid;
          sequence_valid = row.sequence_number == p.expected_seq && p.sequence_valid;
          max_format = if counted && ltb p.max_format f then f else p.max_format;
          unchained_evidence =
              count_if (counted && f == 3 && is_some row.envelope_json) p.unchained_evidence;
          verdict_signatures_verified =
              count_if (f == 5 && is_empty signature) p.verdict_signatures_verified;
          v5_entries = count_if (f == 5) p.v5_entries;
        })

    unfoldable pub check_rows : Progress → List Row → Option Progress
    unfolding check_row
    check_rows p [] = some p
    check_rows p (row ∷ rows) = check_row p row >>= λ q. check_rows q rows

    abbrev result : Progress → ℕ → List Issue → Result
    result p n found = record {
      is_valid = is_empty found;
      total_entries = n;
      chain_continuity = p.sequence_valid;
      chain_link_verified_count = p.chain_link_verified;
      entry_hash_verified_count = p.entry_hash_verified;
      timestamp_ordering = p.timestamps_valid;
      issues = found;
      verdict_signatures_verified = p.verdict_signatures_verified;
    }

    -- `verify_integrity`, with a ring and the checkpoints of the ledger
    unfoldable pub verify_with : List Row → List Checkpoint → Option Result
    unfolding start check_rows ring_issues verify_checkpoints
    verify_with [] checkpoints = some (result start 0 [])
    verify_with (row ∷ rows) checkpoints = check_rows start (row ∷ rows) >>= λ p.
        verify_checkpoints Key lib crypto checkpoints (entry_hashes (row ∷ rows)) ring >>= λ found.
        some
          (result p (length (row ∷ rows)) (p.issues ++ (ring_issues Key lib crypto ring ++ found)))

  -- `verify_integrity`, of the tables and the pinned key ids
  unfoldable pub verify_integrity :
      (Key : Type 0) → Crypto Key → Store → Option (List String) → Option Result
  unfolding verify_with load_ring
  verify_integrity Key crypto db trusted =
      verify_with Key crypto (load_ring Key lib crypto db.signing_keys trusted) db.entries
        db.checkpoints
