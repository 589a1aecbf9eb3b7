-- ===== src/Examples/Loads.antt =====
-- A signed graph, loaded under one anchor. A key is a number, and a signature is the key's byte.
use ski_framework.Prelude.{ℕ, ◌≡◌, refl, Bool, true, false, none, some, [], ◌∷◌, ◌==◌}
use ski_framework.Value.{str, obj, arr, Fields, field, end}
use ski_framework.Hex.{Bytes}
use ski_framework.Examples.Graphs.{nodes, edges, compiled}
use ski_framework.Loader.Flat.{Python}
use ski_framework.Loader.{
  KeyLibrary, ed25519, TrustPolicy, loaded, anchored, from_dict_kg, assemble, graph_shape,
  LoadedGraph,
}
use ski_framework.Loader.Trusted.{IsTrusted, trust_earned}

abbrev python : Python
python = record {
  platform = record { nfc = λ s. s; repr = λ d. "1.0"; float_of = λ n. none };
  sha256 = λ bytes. bytes;
  show = λ v. "1";
  dumps = λ v. some [];
  lower_other = λ s. s;
}

abbrev signed_by : ℕ → Bytes → Bytes → Bool
signed_by key [] canonical = false
signed_by key (b ∷ bs) canonical = key == b

abbrev crypto : KeyLibrary ℕ
crypto = record { load_pem = λ s. ed25519 7; raw = λ key. key ∷ []; check_signature = signed_by }

abbrev policy : TrustPolicy ℕ
policy = record {
  anchors = record { key_id = "sha256:07"; public_key = 7 } ∷ [];
  allow_unanchored = false;
}

abbrev document : Fields
document = field "nodes" (obj nodes) (
    field "edges" (arr edges) (
      field "signature"
        (obj (
          field "algorithm" (str "ed25519")
            (field "public_key_pem" (str "pem") (field "value_hex" (str "07") end))))
        end))

abbrev graph : LoadedGraph
graph =
    assemble python crypto end (graph_shape python crypto document end (compiled ∷ [], []))
      (some "sha256:07", anchored)

loads : from_dict_kg python crypto document true policy ≡ loaded graph
unfolding from_dict_kg
loads = refl

trust_earned_example : IsTrusted python crypto policy document true graph
trust_earned_example = trust_earned python crypto policy document true graph loads
