-- ===== src/Ledger/Format.antt =====
-- The formats of a row, as `Ledger.verify_integrity` of audit_ledger/ledger.py finds them. `isoformat` of
-- the instants that the auditor's session reads, and the database's `transcript_json->>'transcript_id'`,
-- are parameters.
use ski_framework.Prelude.{
  ℕ, Bool, true, false, not, ◌&&◌, Option, none, some, String, ◌==◌, if◌then◌else◌, ◌>>=◌, str_eq,
}
use ski_framework.Hex.{Bytes}
use ski_framework.Ledger.{
  Library, Line, Row, canonical_entry_payload, entry_payload_v4, entry_payload_v5,
  verdict_signing_bytes, evidence_hash, hexdigest,
}
use ski_framework.Ledger.Keys.{strip_text}

-- what the auditor's run calls, besides the library
pub record Session : Type 0 where
  pub isoformat : ℕ → String
  pub transcript_id : String → Option String

-- `_strip`
unfoldable pub strip_column : Option String → Option String
strip_column none = none
strip_column (some s) = some (strip_text s)

-- equality of optional texts
abbrev pub same_text : Option String → Option String → Bool
same_text none none = true
same_text (some a) (some b) = str_eq a b
same_text none (some b) = false
same_text (some a) none = false

module _ (lib : Library) (session : Session) where
  -- the verdict line of a row, with the digests of its evidence
  unfoldable pub stored_line : Row → Option String → Option String → Line
  stored_line row envelope_hash transcript_hash = record {
    sequence_number = row.sequence_number;
    previous_hash = row.previous_hash;
    timestamp_iso = session.isoformat row.timestamp;
    verdict = row.verdict;
    telemetry_id = row.telemetry_id;
    telemetry_hash = row.telemetry_hash;
    rule_id = row.rule_id;
    kg_version = row.kg_version;
    ski_model_version = row.ski_model_version;
    reasoning = row.reasoning;
    track = row.track;
    envelope_hash = envelope_hash;
    transcript_hash = transcript_hash;
    transcript_signature = row.transcript_signature;
    signing_key_id = row.signing_key_id;
    verifier_status = row.verifier_status;
  }

  -- whether a payload hashes to the stored hash
  unfoldable pub hashes_to : Row → Bytes → Bool
  unfolding hexdigest
  hashes_to row payload = str_eq (hexdigest lib payload) row.entry_hash

  -- whether the row is one of format 5
  unfoldable pub is_format5 : Row → Line → Option Bool
  unfolding entry_payload_v5 hashes_to strip_column
  is_format5 row line = elim row.tenant_id [
    | none ↦ some false
    | some tenant ↦ elim row.schema_version [
      | none ↦ some false
      | some version ↦
          entry_payload_v5 lib line (record {
            tenant_id = tenant;
            kg_version_hash = strip_column row.kg_version_hash;
            model_weight_hash = strip_column row.model_weight_hash;
            schema_version = version;
          })
          >>= λ payload. some (hashes_to row payload)
    ]
  ]

  -- the format, 5 or 4, that reproduces the stored hash; nothing where a canonicalization raises
  unfoldable pub evidence_format : Row → Option ℕ
  unfolding evidence_hash stored_line is_format5 entry_payload_v4 hashes_to
  evidence_format row = evidence_hash lib row.envelope_json >>= λ envelope_hash.
      evidence_hash lib row.transcript_json >>= λ transcript_hash.
      let line = stored_line row envelope_hash transcript_hash in
      is_format5 row line >>= λ five. elim five [
        | true ↦ some 5
        | false ↦
            entry_payload_v4 lib line >>= λ payload. some (if hashes_to row payload then 4 else 3)
      ]

  abbrev or_three : Option ℕ → ℕ
  or_three none = 3
  or_three (some f) = f

  -- `entry_format`: 0 where no format reproduces the stored hash
  unfoldable pub entry_format : Row → ℕ
  unfolding evidence_format canonical_entry_payload stored_line hashes_to
  entry_format row =
      let f = or_three (evidence_format row) in
      if f == 3 && not (hashes_to row (canonical_entry_payload lib (stored_line row none none)))
      then 0
      else f

  -- whether the stored digest of the envelope is the recomputed one
  abbrev same_digest : Option (Option String) → Option String → Bool
  same_digest none stored = same_text none stored
  same_digest (some h) stored = same_text h stored

  unfoldable pub envelope_matches : Row → Bool
  unfolding evidence_hash
  envelope_matches row = same_digest (evidence_hash lib row.envelope_json) row.envelope_hash

  abbrev id_of_text : Option String → Option String
  id_of_text none = none
  id_of_text (some t) = session.transcript_id t

  -- the message of a row's verdict signature
  unfoldable pub signed_message : Row → Option Bytes
  unfolding verdict_signing_bytes
  signed_message row =
      verdict_signing_bytes lib row.sequence_number row.entry_hash row.telemetry_id
        (id_of_text row.transcript_json)
