-- ===== src/Ledger/Client.antt =====
-- The writer of the ledger: `LedgerClient` of ski_model/ledger_client.py, as steps on its tables.
-- A table lists its rows in the order of their sequence numbers. The clock, `json.dumps`, and the text
-- that JSONB gives back for a text are parameters. A step that raises gives nothing, and leaves no row.
use ski_framework.Prelude.{
  ℕ, ◌+◌, Option, none, some, [], ◌∷◌, ◌++◌, String, ◌==◌, if◌then◌else◌, ◌>>=◌, str_eq, any,
}
use ski_framework.Ledger.{
  Line, Columns, Row, canonical_entry_payload, entry_payload_v4, entry_payload_v5,
  verdict_signing_bytes, evidence_hash, hexdigest, ledger_schema_version,
}
use ski_framework.Ledger.Tables.{
  Signer, Client, Store, Submission, Transcript, Evaluation, Runtime, latest, next_position,
}

-- the tripwire on the sequence number, and the number expected next
unfoldable pub track_sequence : Client → ℕ → Client
track_sequence c n =
    let gaps : ℕ = elim c.expected_next_seq [
      | none ↦ c.sequence_gaps
      | some expected ↦ if n == expected then c.sequence_gaps else c.sequence_gaps + 1
    ] in
    record c { expected_next_seq = some (n + 1); sequence_gaps = gaps }

module _ (run : Runtime) where
  -- `append`: a row of the format before 4
  unfoldable pub append : ℕ → Submission → Client → Store → Client × Store
  unfolding next_position latest track_sequence canonical_entry_payload hexdigest
  append now v c db =
      let at = next_position (latest db.entries) in
      let entry_hash = hexdigest run.lib (
        canonical_entry_payload run.lib (record {
          sequence_number = at.0;
          previous_hash = at.1;
          timestamp_iso = run.isoformat now;
          verdict = v.verdict;
          telemetry_id = v.telemetry_id;
          telemetry_hash = v.telemetry_hash;
          rule_id = v.rule_id;
          kg_version = v.kg_version;
          ski_model_version = v.ski_model_version;
          reasoning = some v.reasoning;
          track = v.track;
          envelope_hash = none;
          transcript_hash = none;
          transcript_signature = none;
          signing_key_id = none;
          verifier_status = none;
        })) in
      let row : Row = record {
        sequence_number = at.0;
        previous_hash = at.1;
        entry_hash = entry_hash;
        timestamp = now;
        verdict = v.verdict;
        telemetry_id = v.telemetry_id;
        telemetry_hash = v.telemetry_hash;
        rule_id = v.rule_id;
        kg_version = v.kg_version;
        ski_model_version = v.ski_model_version;
        reasoning = some v.reasoning;
        track = v.track;
        envelope_json = none;
        envelope_hash = none;
        transcript_json = none;
        transcript_signature = none;
        signing_key_id = none;
        verifier_status = none;
        tenant_id = none;
        kg_version_hash = none;
        model_weight_hash = none;
        schema_version = none;
        verdict_signature = none;
        verdict_signing_key_id = none;
      } in
      (track_sequence c at.0, record db { entries = db.entries ++ (row ∷ []) })

  -- the text that is hashed as evidence, of a dump
  abbrev pub evidence_text : Option Transcript → Option String
  evidence_text none = none
  evidence_text (some t) = some (run.dumps t.dump)

  abbrev pub signature_of : Option Transcript → Option String
  signature_of none = none
  signature_of (some t) = t.signature_hex

  abbrev pub key_of : Option Transcript → Option String
  key_of none = none
  key_of (some t) = t.signing_key_id

  abbrev pub id_of : Option Transcript → Option String
  id_of none = none
  id_of (some t) = some t.transcript_id

  -- the column that JSONB keeps
  abbrev pub stored_json : Option String → Option String
  stored_json none = none
  stored_json (some text) = some (run.jsonb text)

  -- the verdict line of `append_v3`, at a position and with the digests of the evidence
  unfoldable pub line_of : ℕ → Evaluation → ℕ × String → Option String → Option String → Line
  line_of now e at envelope_hash transcript_hash = record {
    sequence_number = at.0;
    previous_hash = at.1;
    timestamp_iso = run.isoformat now;
    verdict = e.verdict;
    telemetry_id = e.telemetry_id;
    telemetry_hash = e.telemetry_hash;
    rule_id = e.rule_id;
    kg_version = e.kg_version;
    ski_model_version = e.ski_model_version;
    reasoning = e.reasoning;
    track = some e.track;
    envelope_hash = envelope_hash;
    transcript_hash = transcript_hash;
    transcript_signature = signature_of e.transcript;
    signing_key_id = key_of e.transcript;
    verifier_status = some e.verifier_status;
  }

  -- the columns of format 5
  unfoldable pub columns_of : Evaluation → Client → Columns
  unfolding ledger_schema_version
  columns_of e c = record {
    tenant_id = c.tenant_id;
    kg_version_hash = e.kg_version_hash;
    model_weight_hash = e.model_weight_hash;
    schema_version = ledger_schema_version;
  }

  -- the row of `append_v3` without the columns of format 5
  unfoldable pub base_row : ℕ → Evaluation → ℕ × String → Option String → String → Row
  base_row now e at envelope_hash entry_hash = record {
    sequence_number = at.0;
    previous_hash = at.1;
    entry_hash = entry_hash;
    timestamp = now;
    verdict = e.verdict;
    telemetry_id = e.telemetry_id;
    telemetry_hash = e.telemetry_hash;
    rule_id = e.rule_id;
    kg_version = e.kg_version;
    ski_model_version = e.ski_model_version;
    reasoning = e.reasoning;
    track = some e.track;
    envelope_json = some (run.jsonb (run.dumps e.envelope_dump));
    envelope_hash = envelope_hash;
    transcript_json = stored_json (evidence_text e.transcript);
    transcript_signature = signature_of e.transcript;
    signing_key_id = key_of e.transcript;
    verifier_status = some e.verifier_status;
    tenant_id = none;
    kg_version_hash = none;
    model_weight_hash = none;
    schema_version = none;
    verdict_signature = none;
    verdict_signing_key_id = none;
  }

  -- the verdict signature and its key, where the client has a signer
  unfoldable pub signed :
      Option Signer → ℕ → String → String → Option String → Option (Option String × Option String)
  unfolding verdict_signing_bytes
  signed none n entry_hash telemetry_id transcript_id = some (none, none)
  signed (some s) n entry_hash telemetry_id transcript_id =
      verdict_signing_bytes run.lib n entry_hash telemetry_id transcript_id >>= λ message.
      some (some (s.sign message), some s.key_id)

  -- the row of format 5, signed where there is a signer
  unfoldable pub seal_v5 :
      ℕ
      → Evaluation
      → Client
      → Option Signer
      → ℕ × String
      → Option String
      → Option String
      → Option Row
  unfolding line_of columns_of base_row signed entry_payload_v5 hexdigest
  seal_v5 now e c signer at envelope_hash transcript_hash =
      let columns = columns_of e c in
      entry_payload_v5 run.lib (line_of now e at envelope_hash transcript_hash) columns
      >>= λ payload.
          let entry_hash = hexdigest run.lib payload in
          signed signer at.0 entry_hash e.telemetry_id (id_of e.transcript) >>= λ s.
          some (record (base_row now e at envelope_hash entry_hash) {
            tenant_id = some columns.tenant_id;
            kg_version_hash = columns.kg_version_hash;
            model_weight_hash = columns.model_weight_hash;
            schema_version = some columns.schema_version;
            verdict_signature = s.0;
            verdict_signing_key_id = s.1;
          })

  -- the row of format 4
  unfoldable pub seal_v4 : ℕ → Evaluation → ℕ × String → Option String → Option String → Option Row
  unfolding line_of base_row entry_payload_v4 hexdigest
  seal_v4 now e at envelope_hash transcript_hash =
      entry_payload_v4 run.lib (line_of now e at envelope_hash transcript_hash) >>= λ payload.
      some (base_row now e at envelope_hash (hexdigest run.lib payload))

  -- the row that `append_v3` inserts
  unfoldable pub new_row : ℕ → Evaluation → Client → ℕ × String → Option Row
  unfolding evidence_hash seal_v4 seal_v5
  new_row now e c at = evidence_hash run.lib (some (run.dumps e.envelope_dump)) >>= λ envelope_hash.
      evidence_hash run.lib (evidence_text e.transcript) >>= λ transcript_hash.
      if c.format5
      then seal_v5 now e c c.signer at envelope_hash transcript_hash
      else seal_v4 now e at envelope_hash transcript_hash

  unfoldable pub append_v3 : ℕ → Evaluation → Client → Store → Option Store
  unfolding next_position latest new_row
  append_v3 now e c db = new_row now e c (next_position (latest db.entries)) >>= λ row.
      some (record db { entries = db.entries ++ (row ∷ []) })

  -- `register_signing_key`, for the client's signer
  unfoldable pub register_signing_key : Signer → Store → Store
  register_signing_key s db =
      if any (λ k. str_eq k.0 s.key_id) db.signing_keys
      then db
      else record db { signing_keys = db.signing_keys ++ ((s.key_id, s.public_key_pem) ∷ []) }
