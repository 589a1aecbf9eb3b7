-- ===== src/Ledger.antt =====
-- Entries of the audit ledger: the row, and the bytes that its hash and its signature cover
-- (ski_schemas/ledger.py, and `canonical_entry_payload` of ledger_client.py and audit_ledger/canonical.py).
-- SHA-256, `json.dumps` with sorted keys, and what the reading of JSON text calls are parameters, as a record.
pub mod Tables
pub mod Client
pub mod Checkpoints
pub mod Keys
pub mod Format
pub mod Audit
pub mod Linked
pub mod Sealed
pub mod Honest
pub mod Valid
pub mod Covered
pub mod Rewritten
pub mod Reproduced
use Prim.Native.String.{◌++◌ as append}
use ski_framework.Prelude.{ℕ, Bool, true, false, Option, none, some, List, [], ◌∷◌, String, ◌>>=◌}
use ski_framework.Hex.{Bytes, hex}
use ski_framework.Value.Numeric.{pos}
use ski_framework.Value.{Value, Fields, null, int, str, obj, field, end}
use ski_framework.Canonical.{Platform, canonicalize}
use ski_framework.Canonical.Text.{utf8}
use ski_framework.Canonical.Parse.{Reader, parse_json}

-- what the ledger's code calls
pub record Library : Type 0 where
  pub py : Platform
  pub sha256 : Bytes → Bytes
  -- `json.dumps(value, sort_keys=True, separators=(",", ":"), ensure_ascii=False)`
  pub dumps_sorted : Value → String
  pub reader : Reader

-- the keyword arguments of a payload: the verdict line
pub record Line : Type 0 where
  pub sequence_number : ℕ
  pub previous_hash : String
  pub timestamp_iso : String
  pub verdict : String
  pub telemetry_id : String
  pub telemetry_hash : String
  pub rule_id : Option String
  pub kg_version : Option String
  pub ski_model_version : String
  pub reasoning : Option String
  pub track : Option String
  pub envelope_hash : Option String
  pub transcript_hash : Option String
  pub transcript_signature : Option String
  pub signing_key_id : Option String
  pub verifier_status : Option String

-- the columns that format 5 chains besides
pub record Columns : Type 0 where
  pub tenant_id : String
  pub kg_version_hash : Option String
  pub model_weight_hash : Option String
  pub schema_version : String

abbrev pub text_or_null : Option String → Value
text_or_null none = null
text_or_null (some s) = str s

abbrev number : ℕ → Value
number n = int (pos n)

unfoldable pub ledger_schema_version : String
ledger_schema_version = "3.0.0"

-- the entries from the reasoning on
unfoldable pub evidence_fields : Line → Fields → Fields
evidence_fields l rest = field "envelope_hash" (text_or_null l.envelope_hash) (
    field "transcript_hash" (text_or_null l.transcript_hash) (
      field "transcript_signature" (text_or_null l.transcript_signature) (
        field "signing_key_id" (text_or_null l.signing_key_id)
          (field "verifier_status" (text_or_null l.verifier_status) rest))))

unfoldable pub line_fields : Line → Fields → Fields
line_fields l rest = field "sequence_number" (number l.sequence_number) (
    field "previous_hash" (str l.previous_hash) (
      field "timestamp" (str l.timestamp_iso) (
        field "verdict" (str l.verdict) (
          field "telemetry_id" (str l.telemetry_id) (
            field "telemetry_hash" (str l.telemetry_hash) (
              field "rule_id" (text_or_null l.rule_id) (
                field "kg_version" (text_or_null l.kg_version) (
                  field "ski_model_version" (str l.ski_model_version) (
                    field "reasoning" (text_or_null l.reasoning)
                      (field "track" (text_or_null l.track) rest))))))))))

-- `_verdict_line`, and the entries that an update adds
unfoldable pub verdict_line : ℕ → Line → Fields → Fields
unfolding line_fields evidence_fields
verdict_line ledger_format l added =
    field "ledger_format" (number ledger_format) (line_fields l (evidence_fields l added))

module _ (lib : Library) where
  unfoldable pub hexdigest : Bytes → String
  hexdigest payload = hex (lib.sha256 payload)

  -- `canonical_entry_payload`
  unfoldable pub canonical_entry_payload : Line → Bytes
  unfolding line_fields
  canonical_entry_payload l = utf8 (lib.dumps_sorted (obj (line_fields l end)))

  unfoldable pub entry_payload_v4 : Line → Option Bytes
  unfolding verdict_line
  entry_payload_v4 l = canonicalize lib.py (obj (verdict_line 4 l end))

  unfoldable pub entry_payload_v5 : Line → Columns → Option Bytes
  unfolding verdict_line
  entry_payload_v5 l c = canonicalize lib.py (
      obj (
        verdict_line 5 l (
          field "tenant_id" (str c.tenant_id) (
            field "kg_version_hash" (text_or_null c.kg_version_hash) (
              field "model_weight_hash" (text_or_null c.model_weight_hash)
                (field "schema_version" (str c.schema_version) end))))))

  unfoldable pub verdict_signing_bytes : ℕ → String → String → Option String → Option Bytes
  verdict_signing_bytes sequence_number entry_hash telemetry_id transcript_id =
      canonicalize lib.py (
        obj (
          field "purpose" (str "ski.ledger.verdict-signature.v1") (
            field "sequence_number" (number sequence_number) (
              field "entry_hash" (str entry_hash) (
                field "telemetry_id" (str telemetry_id)
                  (field "transcript_id" (text_or_null transcript_id) end))))))

  -- `canonical.canonicalize_json_text`
  unfoldable pub canonicalize_json_text : String → Option Bytes
  unfolding parse_json
  canonicalize_json_text text = parse_json lib.py lib.reader text >>= canonicalize lib.py

  -- `evidence_hash`: nothing where it raises
  unfoldable pub evidence_hash : Option String → Option (Option String)
  unfolding canonicalize_json_text hexdigest
  evidence_hash none = some none
  evidence_hash (some text) =
      canonicalize_json_text text >>= λ bytes. some (some (append "sha256:" (hexdigest bytes)))

  -- `checkpoint_statement` of ski_schemas/merkle.py
  unfoldable pub checkpoint_statement : String → ℕ → String → String → String → Option Bytes
  checkpoint_statement tenant_id tree_size root_hash last_entry_hash created_at =
      canonicalize lib.py (
        obj (
          field "checkpoint_format" (number 1) (
            field "tenant_id" (str tenant_id) (
              field "tree_size" (number tree_size) (
                field "root_hash" (str root_hash) (
                  field "last_entry_hash" (str last_entry_hash)
                    (field "created_at" (str created_at) end)))))))

-- a row of `ledger_entries`; the timestamp is an instant, and a JSON column is its text
pub record Row : Type 0 where
  pub sequence_number : ℕ
  pub previous_hash : String
  pub entry_hash : String
  pub timestamp : ℕ
  pub verdict : String
  pub telemetry_id : String
  pub telemetry_hash : String
  pub rule_id : Option String
  pub kg_version : Option String
  pub ski_model_version : String
  pub reasoning : Option String
  pub track : Option String
  pub envelope_json : Option String
  pub envelope_hash : Option String
  pub transcript_json : Option String
  pub transcript_signature : Option String
  pub signing_key_id : Option String
  pub verifier_status : Option String
  pub tenant_id : Option String
  pub kg_version_hash : Option String
  pub model_weight_hash : Option String
  pub schema_version : Option String
  pub verdict_signature : Option String
  pub verdict_signing_key_id : Option String

unfoldable pub genesis_hash : String
genesis_hash = "0000000000000000000000000000000000000000000000000000000000000000"
