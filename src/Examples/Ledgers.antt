-- ===== src/Examples/Ledgers.antt =====
-- A ledger with one entry and one checkpoint, written and verified.
use ski_framework.Value.Numeric.{◌+ℤ◌}
use ski_framework.Canonical.{canonicalize}
use Prim.Native.Char.{code}
use Prim.Native.String.{◌++◌ as append}
use ski_framework.Prelude.{
  if◌then◌else◌, ◌==◌, length, ℕ, ◌≡◌, ◌⊎◌, refl, true, false, Option, none, some, List, [], ◌∷◌,
  ◌++◌, String,
}
use ski_framework.Hex.{Bytes, hex}
use ski_framework.Value.{not_a_number, str, null}
use ski_framework.Merkle.{merkle_root, raw_leaves, leaf, root}
use ski_framework.Merkle.Slices.{take}
use ski_framework.Merkle.Injective.{Collides}
use ski_framework.Merkle.Hashed.{root_texts}
use ski_framework.Ledger.{Library, genesis_hash}
use ski_framework.Ledger.Client.{append_v3}
use ski_framework.Ledger.Checkpoints.{checkpoint}
use ski_framework.Ledger.Tables.{
  Client, Evaluation, Runtime, Signer, Store, Checkpoint, latest, entry_hashes,
}
use ski_framework.Ledger.Keys.{
  Crypto, KeyRing, get_key, is_trusted, signature_valid, check_one, verify_checkpoints, key_id_of,
  strip_text,
}
use ski_framework.Ledger.Audit.{Result, in_order, verify_with}
use ski_framework.Ledger.Format.{Session, strip_column}
use ski_framework.Ledger.Linked.{IsLinked, verify_with-IsLinked}
use ski_framework.Ledger.Honest.{stamp, IsAudited, IsRecorded, none-IsAudited, append_v3-IsAudited}
use ski_framework.Ledger.Valid.{IsIntact, IsWritten, fresh, appended, written_is_valid}
use ski_framework.Ledger.Covered.{checkpoint_verifies}
use ski_framework.Ledger.Rewritten.{check_one_pins}
use ski_framework.Examples.Trees.{toy, toy-IsDigest, plain}

-- the text without a blank in front, which the store below puts there
abbrev trim : String → String
trim String.[] = String.[]
trim (String.◌∷◌ c s) = if code c == b' ' then s else String.◌∷◌ c s

abbrev library : Library
library = record {
  py = plain;
  sha256 = toy;
  dumps_sorted = λ v. "{}";
  reader = record {
    loads = λ hooks text. some (str (trim text));
    int_of = λ s. none;
    double_of = λ s. not_a_number;
  };
}

abbrev runtime : Runtime
runtime = record {
  lib = library;
  dumps = λ v. "{}";
  jsonb = λ text. append " " text;
  isoformat = λ t. "2026-01-01T00:00:00+00:00";
}

abbrev session : Session
session = record { isoformat = λ t. "2026-01-01T00:00:00+00:00"; transcript_id = λ text. none }

-- one key, whose signatures all verify
abbrev crypto : Crypto ℕ
crypto = record {
  load_pem = λ pem. some 1;
  raw_bytes = λ k. k ∷ [];
  check_signature = λ k s m. true;
}

abbrev key_id : String
key_id = "sha256:0100000000000000000000000000000000000000000000000000000000000000"

abbrev signer : Signer
signer = record { key_id = key_id; public_key_pem = "pem"; sign = λ m. "00" }

abbrev ring : KeyRing ℕ
ring = record { keys = (key_id, 1) ∷ []; bad_rows = []; trusted = none }

abbrev client : Client
client = record {
  expected_next_seq = none;
  sequence_gaps = 0;
  format5 = true;
  tenant_id = "default";
  signer = some signer;
}

abbrev evaluation : Evaluation
evaluation = record {
  verdict = "CLEAR";
  verifier_status = "AGREED";
  reasoning = some "ok";
  envelope_dump = null;
  transcript = none;
  telemetry_id = "t-1";
  telemetry_hash = "00";
  rule_id = none;
  kg_version = none;
  ski_model_version = "3";
  track = "v3-evaluator";
  kg_version_hash = none;
  model_weight_hash = none;
}

abbrev empty : Store
empty = record { entries = []; checkpoints = []; signing_keys = [] }

abbrev or_empty : Option Store → Store
or_empty none = empty
or_empty (some db) = db

abbrev written : Store
written = or_empty (append_v3 runtime 5 evaluation client empty)

appended-written : append_v3 runtime 5 evaluation client empty ≡ some written
unfolding append_v3 ski_framework.Canonical.canonicalize
appended-written = refl

key-held : get_key ℕ library crypto ring (some key_id) ≡ some 1
unfolding get_key
key-held = refl

key-trusted : is_trusted ℕ library crypto ring (some key_id) ≡ true
unfolding is_trusted
key-trusted = refl

key-signs : (m : Bytes) → signature_valid ℕ library crypto 1 m (some "00") ≡ true
unfolding signature_valid
key-signs m = refl

evaluation-IsRecorded :
    IsRecorded runtime session ℕ crypto ring signer 1
      (λ t. refl)
      key-held
      key-trusted
      key-signs
      evaluation
unfolding strip_column ski_framework.Ledger.canonicalize_json_text
evaluation-IsRecorded = (refl, refl, (refl, λ t is. cc is), λ t is. cc is)

first-in_order : in_order (stamp (latest empty.entries)) 5 ≡ true
unfolding latest
first-in_order = refl

append_v3-IsAudited_example : IsAudited runtime session ℕ crypto ring written.entries
append_v3-IsAudited_example =
    append_v3-IsAudited runtime session ℕ crypto ring signer 1 (λ t. refl) key-held key-trusted
      key-signs 5 evaluation client empty written refl refl evaluation-IsRecorded first-in_order
      (none-IsAudited runtime session ℕ crypto ring) appended-written

written-IsWritten :
    IsWritten runtime session ℕ crypto ring signer 1
      (λ t. refl)
      key-held
      key-trusted
      key-signs
      written
written-IsWritten =
    appended 5 evaluation client empty written (fresh empty refl) refl refl evaluation-IsRecorded
      first-in_order appended-written

none-checked :
    verify_checkpoints ℕ library crypto written.checkpoints (entry_hashes written.entries) ring
    ≡ some []
unfolding verify_checkpoints append_v3 ski_framework.Canonical.canonicalize
none-checked = refl

written_is_valid_example :
    (r : Result) × (verify_with library session ℕ crypto ring written.entries written.checkpoints
      ≡ some r)
    × IsIntact runtime session ℕ crypto ring r written.entries
written_is_valid_example =
    written_is_valid runtime session ℕ crypto ring signer 1 (λ t. refl) key-held key-trusted
      key-signs written written-IsWritten refl none-checked

abbrev or_start : Option Result → Result
or_start none = record {
  is_valid = false;
  total_entries = 0;
  chain_continuity = false;
  chain_link_verified_count = 0;
  entry_hash_verified_count = 0;
  timestamp_ordering = false;
  issues = [];
  verdict_signatures_verified = 0;
}
or_start (some r) = r

abbrev outcome : Result
outcome = or_start (verify_with library session ℕ crypto ring written.entries [])

written-verified : verify_with library session ℕ crypto ring written.entries [] ≡ some outcome
unfolding verify_with append_v3 ski_framework.Canonical.canonicalize ski_framework.Hex.hex
    ski_framework.Value.Numeric.◌+ℤ◌
written-verified = refl

outcome-valid : outcome.is_valid ≡ true
unfolding verify_with append_v3 ski_framework.Canonical.canonicalize ski_framework.Hex.hex
    ski_framework.Value.Numeric.◌+ℤ◌
outcome-valid = refl

verify_with-IsLinked_example : IsLinked library session genesis_hash none 1 written.entries
verify_with-IsLinked_example =
    verify_with-IsLinked library session ℕ crypto ring written.entries [] outcome written-verified
      outcome-valid

abbrev or_unsigned : Option (Option Checkpoint × Store) → Checkpoint
or_unsigned (some (some cp, db)) = cp
or_unsigned _ = record {
  tenant_id = "";
  tree_size = 0;
  root_hash = "";
  last_entry_hash = "";
  created_at = "";
  signing_key_id = "";
  signature = "";
}

abbrev or_written : Option (Option Checkpoint × Store) → Store
or_written none = written
or_written (some (cp, db)) = db

abbrev signed_row : Checkpoint
signed_row = or_unsigned (checkpoint runtime 7 client signer written)

abbrev covered : Store
covered = or_written (checkpoint runtime 7 client signer written)

checkpoint-signed : checkpoint runtime 7 client signer written ≡ some (some signed_row, covered)
unfolding checkpoint append_v3 ski_framework.Canonical.canonicalize raw_leaves ski_framework.Hex.hex
    ski_framework.Value.Numeric.◌+ℤ◌
checkpoint-signed = refl

key-stripped : get_key ℕ library crypto ring (some (strip_text key_id)) ≡ some 1
unfolding get_key strip_text
key-stripped = refl

key-named : key_id_of ℕ library crypto 1 ≡ strip_text key_id
unfolding key_id_of strip_text ski_framework.Hex.hex
key-named = refl

key-pinned : is_trusted ℕ library crypto ring (some (strip_text key_id)) ≡ true
unfolding is_trusted
key-pinned = refl

checkpoint_verifies_example :
    check_one ℕ library crypto signed_row (entry_hashes written.entries ++ ("later" ∷ [])) ring
    ≡ some []
checkpoint_verifies_example =
    checkpoint_verifies runtime ℕ crypto ring signer 1 key-stripped key-named key-pinned key-signs 7
      client written covered signed_row ("later" ∷ []) checkpoint-signed

abbrev or_none : Option (List Bytes) → List Bytes
or_none none = []
or_none (some bs) = bs

abbrev covered_bytes : List Bytes
covered_bytes = or_none (raw_leaves (take signed_row.tree_size (entry_hashes written.entries)))

written-parsed :
    raw_leaves (take signed_row.tree_size (entry_hashes written.entries)) ≡ some covered_bytes
unfolding raw_leaves checkpoint append_v3 ski_framework.Canonical.canonicalize ski_framework.Hex.hex
    ski_framework.Value.Numeric.◌+ℤ◌
written-parsed = refl

written-checked :
    check_one ℕ library crypto signed_row (entry_hashes written.entries) ring ≡ some []
unfolding check_one checkpoint append_v3 ski_framework.Canonical.canonicalize raw_leaves
    ski_framework.Hex.hex ski_framework.Value.Numeric.◌+ℤ◌ ski_framework.Merkle.root
    ski_framework.Merkle.leaf
written-checked = refl

check_one_pins_example :
    (covered_bytes ≡ covered_bytes)
    ⊎ Collides toy
        (root_texts toy (length covered_bytes) covered_bytes)
        (root_texts toy (length covered_bytes) covered_bytes)
check_one_pins_example =
    check_one_pins ℕ library crypto toy-IsDigest signed_row (entry_hashes written.entries)
      (entry_hashes written.entries) ring covered_bytes covered_bytes written-parsed written-parsed
      written-checked written-checked
