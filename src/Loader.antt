-- ===== src/Loader.antt =====
-- `KnowledgeGraph.from_dict` of reference-implementation/src/ski_model/kg_loader.py: a knowledge graph is
-- loaded if it compiles and its signature satisfies the operator's trust policy. Flat has the conversion of the
-- earlier shape.
--
-- Keys, their loading from PEM, the check of a signature, SHA-256, `json.dumps` and Python's `str` are given. A
-- refusal is a value that says which check failed.
pub mod Flat
pub mod Trusted
use Prim.Native.String.{◌++◌ as append}
use ski_framework.Prelude.{
  String, Bool, true, false, not, ◌&&◌, ◌||◌, Option, none, some, List, [], ◌∷◌, is_some, is_empty,
  str_eq, if◌then◌else◌,
}
use ski_framework.Value.{
  Value, null, bool, int, float, str, obj, arr, Fields, field, end, Items, cons, nil, find, get,
  eq_value, or_null,
}
use ski_framework.Value.Case.{is_blank}
use ski_framework.Hex.{Bytes, hex, fromhex}
use ski_framework.Canonical.{canonicalize}
use ski_framework.Graph.{GraphError, Checked, ok, refused}
use ski_framework.Graph.Compile.{compile_graph}
use ski_framework.Loader.Flat.{Python, truthy, or_value, text_or, sha256_canonical, flat_to_graph}

pub data KgTrust : Type 0 where
  anchored unanchored unsigned : KgTrust

-- what `load_pem_public_key` gives
pub data PublicKey (Key : Type 0) : Type 0 where
  malformed other_kind : PublicKey Key
  ed25519 : Key → PublicKey Key

pub record KeyLibrary (Key : Type 0) : Type 0 where
  pub load_pem : String → PublicKey Key
  pub raw : Key → Bytes
  pub check_signature : Key → Bytes → Bytes → Bool

pub record TrustAnchor (Key : Type 0) : Type 0 where
  pub key_id : String
  pub public_key : Key

-- `KGTrustPolicy`
pub record TrustPolicy (Key : Type 0) : Type 0 where
  pub anchors : List (TrustAnchor Key)
  pub allow_unanchored : Bool

pub data LoadError : Type 0 where
  metadata_not_object signature_not_object no_rules registry_not_object flat_malformed
        not_canonical :
      LoadError
  bad_graph : GraphError → LoadError
  unsupported_algorithm no_anchors signature_incomplete signature_not_text : LoadError
  bad_pem not_ed25519 bad_hex unknown_signer verification_failed : LoadError
  signature_missing unsigned_with_anchors : LoadError

pub data Load {ℓ} (A : Type ℓ) : Type ℓ where
  loaded : A → Load A
  failed : LoadError → Load A

infixl 5 ◌>>=◌ ◌>>◌
abbrev pub ◌>>=◌ {ℓ κ} : {A : Type ℓ} {B : Type κ} → Load A → (A → Load B) → Load B
loaded a >>= f = f a
failed e >>= f = failed e

abbrev pub ◌>>◌ {κ} : {B : Type κ} → Load (Unit {0}) → Load B → Load B
m >> k = m >>= λ _. k

abbrev pub demand : Bool → LoadError → Load (Unit {0})
demand true e = loaded tt
demand false e = failed e

abbrev pub or_fail {ℓ} : {A : Type ℓ} → Option A → LoadError → Load A
or_fail none e = failed e
or_fail (some a) e = loaded a

abbrev pub of_checked {ℓ} : {A : Type ℓ} → Checked A → Load A
of_checked (ok a) = loaded a
of_checked (refused e) = failed (bad_graph e)

-- what the shape of the document gives
pub record Shaped : Type 0 where
  pub rules : List Fields
  pub definitions : List Fields
  pub graph : Fields
  pub tag_registry : Fields
  pub version : String
  pub legacy_version_hash : Option String

pub record LoadedGraph : Type 0 where
  pub shaped : Shaped
  pub metadata : Fields
  pub signature_verified : Bool
  pub signer_key_id : Option String
  pub kg_trust : KgTrust

-- `is_graph_kg`
unfoldable pub is_graph_kg : Fields → Bool
unfolding find
is_graph_kg document = is_some (find "nodes" document)

abbrev pub object_or : Value → LoadError → Load Fields
object_or v e = elim v [ obj d ↦ loaded d | _ ↦ failed e ]

-- a block that may be missing
abbrev pub signature_block : Value → Load (Option Fields)
signature_block v = elim v [
  | null ↦ loaded none
  | obj d ↦ loaded (some d)
  | _ ↦ failed signature_not_object
]

abbrev pub has_text : Value → Bool
has_text v = elim v [ str s ↦ true | _ ↦ false ]

abbrev pub string_of : Value → String
string_of v = elim v [ str s ↦ s | _ ↦ "" ]

-- a block with no item_list is as good as none
abbrev pub present : Option Fields → Option Fields
present none = none
present (some d) = elim d [ end ↦ none | field k v e ↦ some (field k v e) ]

-- `str(metadata.get("version", "unknown"))`
abbrev shown : Python → Option Value → String
shown py none = "unknown"
shown py (some v) = py.show v

abbrev pub is_filled : Value → Bool
is_filled v = elim v [ arr vs ↦ elim vs [ nil ↦ false | cons w ws ↦ true ] | _ ↦ false ]

module _ {Key : Type 0} where
  -- `anchor_for`
  unfoldable pub anchor_for : String → List (TrustAnchor Key) → Option (TrustAnchor Key)
  anchor_for key_id [] = none
  anchor_for key_id (a ∷ anchors) =
      if str_eq a.key_id key_id then some a else anchor_for key_id anchors

module _ {Key : Type 0} (py : Python) (crypto : KeyLibrary Key) where
  -- `ed25519_key_id`
  unfoldable pub ed25519_key_id : Key → String
  unfolding hex
  ed25519_key_id key = append "sha256:" (hex (py.sha256 (crypto.raw key)))

  -- `signing_bytes`
  unfoldable pub signing_bytes : Fields → Option Bytes
  unfolding is_graph_kg get or_value
  signing_bytes document =
      let metadata = or_value (get "metadata" document) (obj end) in
      if is_graph_kg document
      then canonicalize py.platform (
          obj (
            field "metadata" metadata
              (field "nodes" (get "nodes" document) (field "edges" (get "edges" document) end))))
      else py.dumps (
          obj (
            field "metadata" metadata (
              field "rules" (or_value (get "rules" document) (arr nil))
                (field "tag_registry" (or_value (get "tag_registry" document) (obj end)) end))))

  abbrev pub public_key_of : PublicKey Key → Load Key
  public_key_of malformed = failed bad_pem
  public_key_of other_kind = failed not_ed25519
  public_key_of (ed25519 key) = loaded key

  -- the signature under an anchor, or under the key that the graph brings
  unfoldable pub check_key : TrustPolicy Key → Bytes → Bytes → Key → Load (String × KgTrust)
  unfolding anchor_for ed25519_key_id
  check_key policy canonical signature_bytes embedded =
      if is_empty policy.anchors
      then (do
        demand (crypto.check_signature embedded signature_bytes canonical) verification_failed
        loaded (ed25519_key_id embedded, unanchored))
      else (do
        anchor ← or_fail (anchor_for (ed25519_key_id embedded) policy.anchors) unknown_signer
        demand (crypto.check_signature anchor.public_key signature_bytes canonical)
            verification_failed
        loaded (anchor.key_id, anchored))

  -- the end of `_verify_signature`, from the loading of the key
  unfoldable pub verify_texts : Bytes → String → String → TrustPolicy Key → Load (String × KgTrust)
  unfolding fromhex check_key
  verify_texts canonical pem value_hex policy = do
    embedded ← public_key_of (crypto.load_pem pem)
    signature_bytes ← or_fail (fromhex value_hex) bad_hex
    check_key policy canonical signature_bytes embedded

  -- its middle, from the two texts of the block
  unfoldable pub verify_block : Bytes → Value → Value → TrustPolicy Key → Load (String × KgTrust)
  unfolding truthy verify_texts
  verify_block canonical pem value_hex policy = do
    demand (truthy pem && truthy value_hex) signature_incomplete
    demand (has_text pem && has_text value_hex) signature_not_text
    verify_texts canonical (string_of pem) (string_of value_hex) policy

  -- `_verify_signature`
  unfoldable pub verify_signature : Bytes → Fields → TrustPolicy Key → Load (String × KgTrust)
  unfolding get or_value eq_value verify_block
  verify_signature canonical signature policy = do
    demand (eq_value (get "algorithm" signature) (str "ed25519")) unsupported_algorithm
    demand (not (is_empty policy.anchors) || policy.allow_unanchored) no_anchors
    verify_block canonical (or_value (get "public_key_pem" signature) (str ""))
        (or_value (get "value_hex" signature) (str "")) policy

  -- the branch on the shape of the document
  abbrev pub graph_shape : Fields → Fields → List Fields × List Fields → Shaped
  graph_shape document metadata compiled = record {
    rules = compiled.0;
    definitions = compiled.1;
    graph =
        field "metadata" (obj metadata)
          (field "nodes" (get "nodes" document) (field "edges" (get "edges" document) end));
    tag_registry = end;
    version = text_or py (get "version" metadata) (text_or py (get "name" metadata) "unknown");
    legacy_version_hash = none;
  }

  unfoldable pub read_shape : Fields → Fields → Load Shaped
  unfolding is_graph_kg compile_graph get or_value truthy sha256_canonical flat_to_graph text_or
  read_shape document metadata =
      if is_graph_kg document
      then (do
        compiled ← of_checked (compile_graph (get "nodes" document) (get "edges" document))
        loaded (graph_shape document metadata compiled))
      else (do
        let flat_rules = or_value (get "rules" document) (arr nil)
        demand (is_filled flat_rules) no_rules
        registry ← object_or (or_value (get "tag_registry" document) (obj end)) registry_not_object
        let version = shown py (find "version" metadata)
        graph ← or_fail (flat_to_graph py document) flat_malformed
        compiled ← of_checked (compile_graph (get "nodes" graph) (get "edges" graph))
        legacy ←
            or_fail
              (sha256_canonical py (
                obj (
                  field "version" (str version)
                    (field "rules" flat_rules (field "tag_registry" (obj registry) end)))))
              not_canonical
        loaded (record {
          rules = compiled.0;
          definitions = compiled.1;
          graph = graph;
          tag_registry = registry;
          version = version;
          legacy_version_hash = some legacy;
        }))

  -- the branch on the signature
  unfoldable pub read_signature :
      Fields → Option Fields → Bool → TrustPolicy Key → Load (Option String × KgTrust)
  unfolding signing_bytes verify_signature
  read_signature document none require_signature policy = do
    demand (not require_signature) signature_missing
    demand (is_empty policy.anchors) unsigned_with_anchors
    loaded (none, unsigned)
  read_signature document (some signature) require_signature policy = do
    canonical ← or_fail (signing_bytes document) not_canonical
    signer ← verify_signature canonical signature policy
    loaded (some signer.0, signer.1)

  abbrev pub is_anchored : KgTrust → Bool
  is_anchored t = elim t [ anchored ↦ true | _ ↦ false ]

  abbrev pub assemble : Fields → Shaped → Option String × KgTrust → LoadedGraph
  assemble metadata shaped trust = record {
    shaped = shaped;
    metadata = metadata;
    signature_verified = is_anchored trust.1;
    signer_key_id = trust.0;
    kg_trust = trust.1;
  }

  -- `from_dict`, behind its first two checks
  unfoldable pub load_parts :
      Fields → Fields → Option Fields → Bool → TrustPolicy Key → Load LoadedGraph
  unfolding read_shape read_signature
  load_parts document metadata signature require_signature policy = do
    shaped ← read_shape document metadata
    trust ← read_signature document (present signature) require_signature policy
    loaded (assemble metadata shaped trust)

  -- `from_dict`, with the policy that the caller gives
  unfoldable pub from_dict_kg : Fields → Bool → TrustPolicy Key → Load LoadedGraph
  unfolding get or_value load_parts
  from_dict_kg document require_signature policy = do
    metadata ← object_or (or_value (get "metadata" document) (obj end)) metadata_not_object
    signature ← signature_block (get "signature" document)
    load_parts document metadata signature require_signature policy
