-- ===== src/Ledger/Keys.antt =====
-- The signing keys of the ledger, and its checkpoints: audit_ledger/evidence.py.
-- A public key, its loading from PEM, its raw bytes and its verification are the cryptography library's.
-- Time-stamps and exported files are not read here.
use Prim.Native.Char.{code}
use Prim.Native.String.{◌++◌ as append}
use ski_framework.Prelude.{
  ℕ, Bool, true, false, not, ◌&&◌, ◌||◌, Option, none, some, List, [], ◌∷◌, ◌++◌, String, ◌==◌, leb,
  ltb, if◌then◌else◌, ◌>>=◌, length, str_eq, one_of, lookup,
}
use ski_framework.Hex.{Bytes, hex, fromhex}
use ski_framework.Merkle.{merkle_root}
use ski_framework.Merkle.Slices.{take}
use ski_framework.Ledger.{Library, checkpoint_statement}
use ski_framework.Ledger.Tables.{Checkpoint, last_text}

-- Python's whitespace, and `str.strip`
abbrev is_white : ℕ → Bool
is_white c =
    (leb 9 c && leb c 13)
    || (leb 28 c && leb c 32)
    || c == 133
    || c == 160
    || c == 5760
    || (leb 8192 c && leb c 8202)
    || c == 8232
    || c == 8233
    || c == 8239
    || c == 8287
    || c == 12288

unfoldable pub lstrip : String → String
lstrip String.[] = ""
lstrip (String.◌∷◌ c s) = let rest = lstrip s in if is_white (code c) then rest else String.◌∷◌ c s

abbrev is_blank : String → Bool
is_blank String.[] = true
is_blank (String.◌∷◌ c s) = false

unfoldable pub rstrip : String → String
rstrip String.[] = ""
rstrip (String.◌∷◌ c s) =
    let rest = rstrip s in if is_white (code c) && is_blank rest then "" else String.◌∷◌ c rest

unfoldable pub strip_text : String → String
unfolding lstrip rstrip
strip_text s = rstrip (lstrip s)

-- `(key_id or "").strip()`
unfoldable pub id_text : Option String → String
unfolding strip_text
id_text none = strip_text ""
id_text (some s) = strip_text s

pub data IssueType : Type 0 where
  sequence_gap : IssueType
  hash_mismatch : IssueType
  entry_hash_mismatch : IssueType
  format_downgrade : IssueType
  evidence_hash_mismatch : IssueType
  verdict_signature_invalid : IssueType
  untrusted_signing_key : IssueType
  timestamp_order : IssueType
  signing_key_mismatch : IssueType
  checkpoint_signature_invalid : IssueType
  checkpoint_beyond_ledger : IssueType
  checkpoint_mismatch : IssueType

-- an `IntegrityIssue`; every one that the modelled code makes is CRITICAL
pub record Issue : Type 0 where
  pub issue_type : IssueType
  pub sequence_number : ℕ

-- what the cryptography library gives
pub record Crypto (Key : Type 0) : Type 0 where
  pub load_pem : String → Option Key
  pub raw_bytes : Key → Bytes
  pub check_signature : Key → Bytes → Bytes → Bool

pub record KeyRing (Key : Type 0) : Type 0 where
  pub keys : List (String × Key)
  pub bad_rows : List String
  pub trusted : Option (List String)

abbrev pub issue : IssueType → ℕ → Issue
issue t n = record { issue_type = t; sequence_number = n }

module _ (Key : Type 0) (lib : Library) (crypto : Crypto Key) where
  unfoldable pub key_id_of : Key → String
  key_id_of k = append "sha256:" (hex (lib.sha256 (crypto.raw_bytes k)))

  -- a signature that is not hexadecimal does not verify
  abbrev verify_hex : Key → Bytes → Option Bytes → Bool
  verify_hex k message none = false
  verify_hex k message (some signature) = crypto.check_signature k signature message

  unfoldable pub signature_valid : Key → Bytes → Option String → Bool
  unfolding fromhex
  signature_valid k message none = false
  signature_valid k message (some text) =
      if str_eq text "" then false else verify_hex k message (fromhex text)

  -- whether a row of `ledger_signing_keys` holds the key that its id names
  abbrev names_key : String → Key → Bool
  names_key key_id k = str_eq (key_id_of k) (strip_text key_id)

  -- one row of `KeyRing.load`; a dict's later entry replaces an earlier one
  unfoldable pub add_key : String → Option Key → KeyRing Key → KeyRing Key
  unfolding key_id_of strip_text
  add_key key_id none ring = record ring { bad_rows = ring.bad_rows ++ (strip_text key_id ∷ []) }
  add_key key_id (some k) ring =
      if names_key key_id k
      then record ring { keys = (key_id_of k, k) ∷ ring.keys }
      else record ring { bad_rows = ring.bad_rows ++ (strip_text key_id ∷ []) }

  unfoldable pub load_rows : List (String × String) → KeyRing Key → KeyRing Key
  unfolding add_key
  load_rows [] ring = ring
  load_rows ((key_id, pem) ∷ rows) ring = load_rows rows (add_key key_id (crypto.load_pem pem) ring)

  -- `frozenset(trusted) if trusted else None`
  abbrev pins : Option (List String) → Option (List String)
  pins none = none
  pins (some []) = none
  pins (some (k ∷ ks)) = some (k ∷ ks)

  -- `KeyRing.load`
  unfoldable pub load_ring : List (String × String) → Option (List String) → KeyRing Key
  unfolding load_rows
  load_ring rows trusted =
      load_rows rows (record { keys = []; bad_rows = []; trusted = pins trusted })

  -- `KeyRing.get`
  unfoldable pub get_key : KeyRing Key → Option String → Option Key
  unfolding id_text lookup
  get_key ring key_id = lookup (id_text key_id) ring.keys

  abbrev within : Option (List String) → String → Bool
  within none key_id = true
  within (some pinned) key_id = one_of key_id pinned

  unfoldable pub is_trusted : KeyRing Key → Option String → Bool
  unfolding id_text one_of
  is_trusted ring key_id = within ring.trusted (id_text key_id)

  abbrev mismatches : List String → List Issue
  mismatches [] = []
  mismatches (k ∷ ks) = issue signing_key_mismatch 0 ∷ mismatches ks

  -- `KeyRing.issues`
  unfoldable pub ring_issues : KeyRing Key → List Issue
  ring_issues ring = mismatches ring.bad_rows

  -- the key of a checkpoint, if it names it and signs the statement
  abbrev pub signs : Option Key → Checkpoint → Bytes → Bool
  signs none cp statement = false
  signs (some k) cp statement =
      str_eq (key_id_of k) (strip_text cp.signing_key_id)
      && signature_valid k statement (some cp.signature)

  -- the end of `_check_one`: the entries against the root and the last hash
  unfoldable pub check_root : Checkpoint → List String → Option (List Issue)
  unfolding merkle_root last_text
  check_root cp covered = merkle_root lib.sha256 covered >>= λ root.
      if not (str_eq root cp.root_hash)
      then some (issue checkpoint_mismatch cp.tree_size ∷ [])
      else (last_text covered >>= λ last.
          if str_eq last cp.last_entry_hash
          then some []
          else some (issue checkpoint_mismatch cp.tree_size ∷ []))

  -- `_check_one`, once the signature and the key's pin have been looked at
  unfoldable pub check_entries : Bool → Bool → Checkpoint → List String → Option (List Issue)
  unfolding check_root
  check_entries false trusted cp hashes =
      some (issue checkpoint_signature_invalid cp.tree_size ∷ [])
  check_entries true false cp hashes = some (issue untrusted_signing_key cp.tree_size ∷ [])
  check_entries true true cp hashes =
      if ltb (length hashes) cp.tree_size
      then some (issue checkpoint_beyond_ledger cp.tree_size ∷ [])
      else check_root cp (take cp.tree_size hashes)

  -- `_check_one`, of a row: no issue where the checkpoint verifies; nothing where it raises
  unfoldable pub check_one : Checkpoint → List String → KeyRing Key → Option (List Issue)
  unfolding checkpoint_statement get_key key_id_of signature_valid strip_text is_trusted
      check_entries
  check_one cp hashes ring =
      checkpoint_statement lib cp.tenant_id cp.tree_size cp.root_hash cp.last_entry_hash
        cp.created_at
      >>= λ statement.
          check_entries (signs (get_key ring (some (strip_text cp.signing_key_id))) cp statement)
            (is_trusted ring (some (strip_text cp.signing_key_id))) cp hashes

  -- `verify_checkpoints`, over the rows of the table
  unfoldable pub verify_checkpoints :
      List Checkpoint → List String → KeyRing Key → Option (List Issue)
  unfolding check_one
  verify_checkpoints [] hashes ring = some []
  verify_checkpoints (cp ∷ cps) hashes ring = check_one cp hashes ring >>= λ found.
      verify_checkpoints cps hashes ring >>= λ rest. some (found ++ rest)
