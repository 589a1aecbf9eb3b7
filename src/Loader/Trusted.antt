-- ===== src/Loader/Trusted.antt =====
-- Proofs about the trust of a loaded graph, and about what is compiled.
use mathlib.Core.Path.{subst}
use ski_framework.Prelude.{
  ◌≡◌, ◌↔◌, inl, inr, refl, sym, ap, ◌∙◌, Bool, true, false, not, ◌&&◌, ◌||◌, String, Option, none,
  some, List, [], ◌∷◌, In, some-injective, is_empty, str_eq, eq_iff, Bool-cases,
}
use ski_framework.Value.{str, obj, Fields, end, get, eq_value}
use ski_framework.Hex.{Bytes, fromhex}
use ski_framework.Graph.{Checked, ok, refused}
use ski_framework.Graph.Compile.{compile_graph}
use ski_framework.Loader.Flat.{Python, truthy, or_value}
use ski_framework.Loader.{
  KgTrust, anchored, unanchored, unsigned, KeyLibrary, TrustAnchor, TrustPolicy, LoadError, Load,
  loaded, failed, verification_failed, unknown_signer, not_canonical, signature_missing,
  unsigned_with_anchors, ◌>>=◌, ◌>>◌, demand, or_fail, Shaped, LoadedGraph, signature_block,
  present, is_graph_kg, anchor_for, ed25519_key_id, signing_bytes, check_key, verify_texts,
  verify_block, verify_signature, has_text, string_of, bad_hex, unsupported_algorithm, no_anchors,
  signature_incomplete, signature_not_text, read_shape, read_signature, from_dict_kg, load_parts,
  assemble, graph_shape, of_checked, metadata_not_object, object_or, is_anchored, public_key_of,
}

bind_loaded {ℓ κ} :
    {A : Type ℓ} {B : Type κ} (m : Load A) (f : A → Load B) (b : B)
    → (m >>= f) ≡ loaded b
    → (a : A) × (m ≡ loaded a) × (f a ≡ loaded b)
bind_loaded (loaded a) f b h = (a, refl, h)
bind_loaded (failed e) f b h = cc h

demand-passed : (b : Bool) (e : LoadError) (u : Unit {0}) → demand b e ≡ loaded u → b ≡ true
demand-passed true e u h = refl
demand-passed false e u h = absurd (cc h)

-- A chain behind a check goes on if the check passes.
passed {ℓ} :
    {B : Type ℓ} (b : Bool) (e : LoadError) (k : Load B) (r : B)
    → (demand b e >> k) ≡ loaded r
    → (b ≡ true) × (k ≡ loaded r)
passed true e k r h = (refl, h)
passed false e k r h = absurd (cc h)

loaded-injective {ℓ} : {A : Type ℓ} {a b : A} → loaded a ≡ loaded b → a ≡ b
loaded-injective h = cc h

or_fail-some {ℓ} :
    {A : Type ℓ} (o : Option A) (e : LoadError) (a : A) → or_fail o e ≡ loaded a → o ≡ some a
or_fail-some none e a h = absurd (cc h)
or_fail-some (some b) e a h = ap (λ x. some x) (loaded-injective h)

of_checked-ok {ℓ} : {A : Type ℓ} (o : Checked A) (a : A) → of_checked o ≡ loaded a → o ≡ ok a
of_checked-ok (ok b) a h = ap ok (loaded-injective h)
of_checked-ok (refused e) a h = absurd (cc h)

module _ {Key : Type 0} where
  anchor_for-In :
      (key_id : String) (anchors : List (TrustAnchor Key)) (a : TrustAnchor Key)
      → anchor_for key_id anchors ≡ some a
      → In a anchors × (a.key_id ≡ key_id)
  unfolding anchor_for
  anchor_for-In key_id [] a h = absurd (cc h)
  anchor_for-In key_id (b ∷ anchors) a h = elim (Bool-cases (str_eq b.key_id key_id)) [
    | inl e ↦
        let same : b ≡ a = some-injective (rw (e, anchor_for) at h) in
        (
          inl (sym same),
          ap (λ (x : TrustAnchor Key). x.key_id) (sym same) ∙ (eq_iff b.key_id key_id).0 e,
        )
    | inr e ↦
        let (m, same) = anchor_for-In key_id anchors a (rw (e, anchor_for) at h) in (inr m, same)
  ]

module _ {Key : Type 0} (py : Python) (crypto : KeyLibrary Key) (policy : TrustPolicy Key) where
  -- a signature over these bytes that the key accepts
  abbrev pub IsSignedBy : Key → Option Bytes → Type 0
  IsSignedBy key canonical =
      (bytes : Bytes) × (signature : Bytes) × (canonical ≡ some bytes)
      × (crypto.check_signature key signature bytes ≡ true)

  -- what each level of trust rests on
  abbrev pub IsEarned : Option Bytes → Bool → Option String × KgTrust → Type 0
  IsEarned canonical require_signature (signer, trust) = elim trust [
    | anchored ↦
        (a : TrustAnchor Key) × In a policy.anchors
        × (signer ≡ some a.key_id)
        × IsSignedBy a.public_key canonical
    | unanchored ↦
        (is_empty policy.anchors ≡ true)
        × (policy.allow_unanchored ≡ true)
        × ((key : Key) × (signer ≡ some (ed25519_key_id py crypto key)) × IsSignedBy key canonical)
    | unsigned ↦ (is_empty policy.anchors ≡ true) × (require_signature ≡ false) × (signer ≡ none)
  ]

  check_key-IsEarned :
      (require_signature : Bool) (canonical signature : Bytes) (key : Key) (r : String × KgTrust)
      → (not (is_empty policy.anchors) || policy.allow_unanchored) ≡ true
      → check_key py crypto policy canonical signature key ≡ loaded r
      → IsEarned (some canonical) require_signature (some r.0, r.1)
  unfolding check_key
  check_key-IsEarned require_signature canonical signature key r allowed h =
      elim (Bool-cases (is_empty policy.anchors)) [
        | inl e ↦
            let (u, passed, rest) =
              bind_loaded
                (demand (crypto.check_signature key signature canonical) verification_failed)
                (λ _. loaded (ed25519_key_id py crypto key, unanchored)) r
                (rw (e, check_key) at h) in
            subst (λ x. IsEarned (some canonical) require_signature (some x.0, x.1))
              (loaded-injective rest)
              (
                e,
                rw e at allowed,
                (
                  key,
                  refl,
                  (canonical, signature, refl, demand-passed _ verification_failed u passed),
                ),
              )
        | inr e ↦
            let (a, found, rest) =
              bind_loaded
                (or_fail (anchor_for (ed25519_key_id py crypto key) policy.anchors) unknown_signer)
                (λ a.
                  demand (crypto.check_signature a.public_key signature canonical)
                    verification_failed
                  >> loaded (a.key_id, anchored))
                r (rw (e, check_key) at h) in
            let (u, passed, last) =
              bind_loaded
                (demand (crypto.check_signature a.public_key signature canonical)
                  verification_failed)
                (λ _. loaded (a.key_id, anchored)) r rest in
            let (member, same) =
              anchor_for-In (ed25519_key_id py crypto key) policy.anchors a
                (or_fail-some _ unknown_signer a found) in
            subst (λ x. IsEarned (some canonical) require_signature (some x.0, x.1))
              (loaded-injective last)
              (
                a,
                member,
                refl,
                (canonical, signature, refl, demand-passed _ verification_failed u passed),
              )
      ]

  verify_texts-IsEarned :
      (require_signature : Bool) (canonical : Bytes) (pem value_hex : String) (r : String × KgTrust)
      → (not (is_empty policy.anchors) || policy.allow_unanchored) ≡ true
      → verify_texts py crypto canonical pem value_hex policy ≡ loaded r
      → IsEarned (some canonical) require_signature (some r.0, r.1)
  unfolding verify_texts
  verify_texts-IsEarned require_signature canonical pem value_hex r allowed h =
      let (key, read, rest) =
        bind_loaded (public_key_of py crypto (crypto.load_pem pem))
          (λ key. or_fail (fromhex value_hex) bad_hex >>= λ signature.
            check_key py crypto policy canonical signature key)
          r h in
      let (signature, decoded, last) =
        bind_loaded (or_fail (fromhex value_hex) bad_hex)
          (λ signature. check_key py crypto policy canonical signature key) r rest in
      check_key-IsEarned require_signature canonical signature key r allowed last

  verify_signature-IsEarned :
      (require_signature : Bool) (canonical : Bytes) (signature : Fields) (r : String × KgTrust)
      → verify_signature py crypto canonical signature policy ≡ loaded r
      → IsEarned (some canonical) require_signature (some r.0, r.1)
  unfolding verify_signature verify_block
  verify_signature-IsEarned require_signature canonical signature r h =
      let pem = or_value (get "public_key_pem" signature) (str "") in
      let value_hex = or_value (get "value_hex" signature) (str "") in
      let (known, rest) =
        passed (eq_value (get "algorithm" signature) (str "ed25519")) unsupported_algorithm
          (demand (not (is_empty policy.anchors) || policy.allow_unanchored) no_anchors
            >> verify_block py crypto canonical pem value_hex policy)
          r h in
      let (allowed, more) =
        passed (not (is_empty policy.anchors) || policy.allow_unanchored) no_anchors
          (verify_block py crypto canonical pem value_hex policy) r rest in
      let (whole, texts) =
        passed (truthy pem && truthy value_hex) signature_incomplete
          (demand (has_text pem && has_text value_hex) signature_not_text
            >> verify_texts py crypto canonical (string_of pem) (string_of value_hex) policy)
          r more in
      let (are_texts, last) =
        passed (has_text pem && has_text value_hex) signature_not_text
          (verify_texts py crypto canonical (string_of pem) (string_of value_hex) policy) r texts in
      verify_texts-IsEarned require_signature canonical (string_of pem) (string_of value_hex) r
        allowed last

  read_signature-IsEarned :
      (document : Fields) (signature : Option Fields) (require_signature : Bool)
      (r : Option String × KgTrust)
      → read_signature py crypto document signature require_signature policy ≡ loaded r
      → IsEarned (signing_bytes py crypto document) require_signature r
  unfolding read_signature
  read_signature-IsEarned document none require_signature r h =
      let (u, may, rest) =
        bind_loaded (demand (not require_signature) signature_missing)
          (λ _. demand (is_empty policy.anchors) unsigned_with_anchors >> loaded (none, unsigned)) r
          h in
      let (w, bare, last) =
        bind_loaded (demand (is_empty policy.anchors) unsigned_with_anchors)
          (λ _. loaded (none, unsigned)) r rest in
      subst (IsEarned _ require_signature) (loaded-injective last) (
        demand-passed _ unsigned_with_anchors w bare,
        not-true require_signature (demand-passed _ signature_missing u may),
        refl,
      )
    where
      not-true : (b : Bool) → not b ≡ true → b ≡ false
      not-true true h = absurd (cc h)
      not-true false h = refl
  read_signature-IsEarned document (some signature) require_signature r h =
      let (canonical, signed, rest) =
        bind_loaded (or_fail (signing_bytes py crypto document) not_canonical)
          (λ canonical. verify_signature py crypto canonical signature policy >>= λ signer.
            loaded (some signer.0, signer.1))
          r h in
      let (signer, checked, last) =
        bind_loaded (verify_signature py crypto canonical signature policy)
          (λ signer. loaded (some signer.0, signer.1)) r rest in
      subst (IsEarned _ require_signature) (loaded-injective last) (
        rw (or_fail-some _ not_canonical canonical signed)
          (verify_signature-IsEarned require_signature canonical signature signer checked))

  -- A document of the graph shape is compiled from its own nodes and edges.
  read_shape-graph :
      (document metadata : Fields) (shaped : Shaped)
      → is_graph_kg document ≡ true
      → read_shape py crypto document metadata ≡ loaded shaped
      → compile_graph (get "nodes" document) (get "edges" document)
        ≡ ok (shaped.rules, shaped.definitions)
  unfolding read_shape
  read_shape-graph document metadata shaped graph h =
      let (compiled, made, whole) =
        bind_loaded (of_checked (compile_graph (get "nodes" document) (get "edges" document)))
          (λ compiled. loaded (graph_shape py crypto document metadata compiled)) shaped
          (rw (graph, read_shape) at h) in
      subst
        (λ (x : Shaped).
          compile_graph (get "nodes" document) (get "edges" document) ≡ ok (x.rules, x.definitions))
        (loaded-injective whole)
        (of_checked-ok (compile_graph (get "nodes" document) (get "edges" document)) compiled made)

  is_anchored_iff : (t : KgTrust) → (is_anchored py crypto t ≡ true) ↔ (t ≡ anchored)
  is_anchored_iff anchored = (λ _. refl, λ _. refl)
  is_anchored_iff unanchored = (λ h. absurd (cc h), λ h. absurd (cc h))
  is_anchored_iff unsigned = (λ h. absurd (cc h), λ h. absurd (cc h))

  -- what a loaded graph rests on
  abbrev pub IsTrusted : Fields → Bool → LoadedGraph → Type 0
  IsTrusted document require_signature kg =
      IsEarned (signing_bytes py crypto document) require_signature (kg.signer_key_id, kg.kg_trust)
      × ((kg.signature_verified ≡ true) ↔ (kg.kg_trust ≡ anchored))
      × (is_graph_kg document ≡ true
          → compile_graph (get "nodes" document) (get "edges" document)
            ≡ ok (kg.shaped.rules, kg.shaped.definitions))

  -- Let `from_dict` load a document. Anchored trust rests on a signature over the signing bytes of
  -- the document that the key of one of the configured anchors accepts; unanchored trust on one
  -- that the key with the reported id accepts, where there is no anchor and the operator allows
  -- it; unsigned trust is given only where there is no anchor and no signature is required. The
  -- graph counts as verified exactly if it is anchored. A document of the graph shape is compiled
  -- from its own nodes and edges.
  pub trust_earned :
      (document : Fields) (require_signature : Bool) (kg : LoadedGraph)
      → from_dict_kg py crypto document require_signature policy ≡ loaded kg
      → IsTrusted document require_signature kg
  unfolding from_dict_kg load_parts
  trust_earned document require_signature kg h =
      let (metadata, is_object, rest) =
        bind_loaded (object_or (or_value (get "metadata" document) (obj end)) metadata_not_object)
          (λ metadata. signature_block (get "signature" document) >>= λ signature.
            load_parts py crypto document metadata signature require_signature policy)
          kg h in
      let (signature, is_block, more) =
        bind_loaded (signature_block (get "signature" document))
          (λ signature. load_parts py crypto document metadata signature require_signature policy)
          kg rest in
      let (shaped, read, last) =
        bind_loaded (read_shape py crypto document metadata)
          (λ shaped.
            read_signature py crypto document (present signature) require_signature policy
            >>= λ trust. loaded (assemble py crypto metadata shaped trust))
          kg more in
      let (trust, checked, whole) =
        bind_loaded (read_signature py crypto document (present signature) require_signature policy)
          (λ trust. loaded (assemble py crypto metadata shaped trust)) kg last in
      subst (IsTrusted document require_signature) (loaded-injective whole) (
        read_signature-IsEarned document (present signature) require_signature trust checked,
        is_anchored_iff trust.1,
        λ graph. read_shape-graph document metadata shaped graph read,
      )
