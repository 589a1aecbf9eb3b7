-- ===== src/Ledger/Tables.antt =====
-- The tables of the ledger, the fields of ski_model/ledger_client.py's `LedgerClient`, the arguments of its
-- steps, and its queries. A table lists its rows in the order of their sequence numbers.
use ski_framework.Prelude.{
  ℕ, ◌+◌, Bool, Option, none, some, List, [], ◌∷◌, String, ltb, if◌then◌else◌, str_eq,
}
use ski_framework.Hex.{Bytes}
use ski_framework.Value.{Value}
use ski_framework.Ledger.{Library, Row, genesis_hash}

-- `TranscriptSigner`
pub record Signer : Type 0 where
  pub key_id : String
  pub public_key_pem : String
  pub sign : Bytes → String

-- the fields of a `LedgerClient` that its steps read or write, and the gap metric
pub record Client : Type 0 where
  pub expected_next_seq : Option ℕ
  pub sequence_gaps : ℕ
  pub format5 : Bool
  pub tenant_id : String
  pub signer : Option Signer

pub record Checkpoint : Type 0 where
  pub tenant_id : String
  pub tree_size : ℕ
  pub root_hash : String
  pub last_entry_hash : String
  pub created_at : String
  pub signing_key_id : String
  pub signature : String

pub record Store : Type 0 where
  pub entries : List Row
  pub checkpoints : List Checkpoint
  pub signing_keys : List (String × String)

-- the arguments of `append`
pub record Submission : Type 0 where
  pub verdict : String
  pub telemetry_id : String
  pub telemetry_hash : String
  pub rule_id : Option String
  pub kg_version : Option String
  pub ski_model_version : String
  pub reasoning : String
  pub track : Option String

-- a signed transcript: its dump, and the members that the client reads
pub record Transcript : Type 0 where
  pub dump : Value
  pub transcript_id : String
  pub signature_hex : Option String
  pub signing_key_id : Option String

-- the arguments of `append_v3`, with the members of the envelope that it reads
pub record Evaluation : Type 0 where
  pub verdict : String
  pub verifier_status : String
  pub reasoning : Option String
  pub envelope_dump : Value
  pub transcript : Option Transcript
  pub telemetry_id : String
  pub telemetry_hash : String
  pub rule_id : Option String
  pub kg_version : Option String
  pub ski_model_version : String
  pub track : String
  pub kg_version_hash : Option String
  pub model_weight_hash : Option String

-- what the client calls
pub record Runtime : Type 0 where
  pub lib : Library
  -- `json.dumps(value, ensure_ascii=False)`
  pub dumps : Value → String
  pub jsonb : String → String
  -- `datetime.isoformat` of an instant in UTC
  pub isoformat : ℕ → String

-- `ORDER BY sequence_number DESC LIMIT 1`
unfoldable pub latest : List Row → Option Row
latest [] = none
latest (r ∷ []) = some r
latest (r ∷ s ∷ rows) = latest (s ∷ rows)

-- the sequence number and the previous hash of a new row
unfoldable pub next_position : Option Row → ℕ × String
unfolding genesis_hash
next_position none = (1, genesis_hash)
next_position (some r) = (r.sequence_number + 1, r.entry_hash)

-- `SELECT COALESCE(MAX(sequence_number), 0)`
unfoldable pub max_sequence : List Row → ℕ
max_sequence [] = 0
max_sequence (r ∷ rows) =
    let rest = max_sequence rows in if ltb rest r.sequence_number then r.sequence_number else rest

-- `SELECT COALESCE(MAX(tree_size), 0) ... WHERE tenant_id = :t`
unfoldable pub max_tree_size : String → List Checkpoint → ℕ
max_tree_size t [] = 0
max_tree_size t (c ∷ cs) =
    let rest = max_tree_size t cs in
    if str_eq c.tenant_id t then (if ltb rest c.tree_size then c.tree_size else rest) else rest

abbrev pub entry_hashes : List Row → List String
entry_hashes [] = []
entry_hashes (r ∷ rows) = r.entry_hash ∷ entry_hashes rows

unfoldable pub last_text : List String → Option String
last_text [] = none
last_text (h ∷ []) = some h
last_text (h ∷ g ∷ hs) = last_text (g ∷ hs)
