-- ===== src/Sovereignty/Strict.antt =====
-- Proofs about the start-up in strict mode.
use ski_framework.Prelude.{
  ◌≡◌, ◌≢◌, ◌<◌, ◌↔◌, ◌⊎◌, inl, inr, refl, Bool, true, false, not, ◌&&◌, String, Option, none, some,
  List, [], ◌∷◌, ◌++◌, arith, All, any, one_of, is_empty, ltb, ltb-lt, eq_iff, Bool-cases,
  if◌then◌else◌,
}
use ski_framework.Value.Case.{strip, lower, is_blank}
use ski_framework.Loader.{KgTrust, anchored}
use ski_framework.Sovereignty.{
  refuses, strict, advisory, Network, Check, LedgerRole, role, kg_anchored_check, model_hash_check,
  model_hash_verified_check, model_signature_check, ledger_role_check, is_failed, is_local_host,
  local_suffixes, url_host, variable, destinations, outside, is_registered, is_least_privilege,
  is_anchored_kg,
}
use ski_framework.Sovereignty.Start.{
  knowledge_graph, model_backend, ledger, Deployment, first_checks, graph_checks, model_checks,
  all_checks, start_up,
}

passes-All : (cs : List Check) → (any is_failed cs ≡ false) ↔ All (λ c. is_failed c ≡ false) cs
passes-All [] = (λ _. tt, λ _. refl)
passes-All (c ∷ cs) =
    let rest = passes-All cs in
    elim (Bool-cases (is_failed c)) [
      | inl e ↦ rw e (λ x. absurd (cc x), λ x. absurd (cc x.0))
      | inr e ↦ rw e (λ x. (refl, rest.0 x), λ x. rest.1 x.1)
    ]

met : (b : Bool) → (not b ≡ false) ↔ (b ≡ true)
met b = ground arith

outside-All :
    (net : Network) (suffixes hosts : List String)
    → (is_empty (outside net suffixes hosts) ≡ true)
      ↔ All (λ h. is_local_host net h suffixes ≡ true) hosts
unfolding outside
outside-All net suffixes [] = (λ _. tt, λ _. refl)
outside-All net suffixes (h ∷ hosts) = elim (Bool-cases (is_local_host net h suffixes)) [
  | inl e ↦
      let rest = outside-All net suffixes hosts in
      rw (e, outside) (λ x. (refl, rest.0 x), λ x. rest.1 x.1)
  | inr e ↦ rw (e, outside) (λ x. absurd (cc x), λ x. absurd (cc x.0))
]

-- four stages of which each one refuses where the one before does
abbrev staged : {A B : Type 0} → (p q r s : Bool) → A → (x y z w : B) → Option A × B
staged p q r s a x y z w =
    if p
    then (none, x)
    else if q
    then (none, y)
    else if r
    then (none, z)
    else if s
    then (none, w)
    else (some a, w)

stages-last :
    {A B : Type 0}
    → (p q r s : Bool) (a : A) (x y z w : B) → (s ≡ false → r ≡ false)
    → (r ≡ false → q ≡ false)
    → (q ≡ false → p ≡ false)
    → ((staged p q r s a x y z w).0 ≡ some a) ↔ (s ≡ false)
stages-last p q r s a x y z w f g h = ground arith

stages-result :
    {A B : Type 0}
    → (p q r s : Bool) (a : A) (x y z w : B)
    → ((staged p q r s a x y z w).0 ≡ none) ⊎ ((staged p q r s a x y z w).0 ≡ some a)
stages-result p q r s a x y z w = ground arith

module _ (net : Network) (d : Deployment) where
  abbrev pub suffixes : List String
  suffixes = local_suffixes net d.env

  abbrev pub ledger_host : String
  ledger_host = url_host net (variable "LEDGER_DSN" "" d.env)

  -- what strict mode asks of a deployment
  pub record IsSovereign : Type 0 where
    pub backend : (d.backend ≡ "ollama") ⊎ (d.backend ≡ "vllm")
    pub anchors : 0 < d.trust_anchor_count
    pub ledger_named : is_blank ledger_host ≡ false
    pub ledger_local : is_local_host net ledger_host suffixes ≡ true
    pub inside : All (λ h. is_local_host net h suffixes ≡ true) (destinations net d.backend d.env)
    pub tls : lower net.lower_other (strip (variable "TLS_ENABLED" "true" d.env)) ≡ "true"
    pub one_worker : strip (variable "SKI_MODEL_WORKERS" "1" d.env) ≡ "1"
    pub graph : d.kg_trust ≡ some anchored
    pub hash_registered : is_registered d.model_hash_source ≡ true
    pub hash_verified : d.model_hash_verified ≡ true
    pub least_privilege : d.ledger_role ≡ role false false false

  backend-one_of :
      (one_of d.backend ("ollama" ∷ "vllm" ∷ []) ≡ true)
      ↔ ((d.backend ≡ "ollama") ⊎ (d.backend ≡ "vllm"))
  unfolding one_of
  backend-one_of = ground (arith, eq_iff "ollama" d.backend, eq_iff "vllm" d.backend)

  anchored-graph : (t : Option KgTrust) → (is_anchored_kg t ≡ true) ↔ (t ≡ some anchored)
  anchored-graph t = ground arith

  least-role : (r : LedgerRole) → (is_least_privilege r ≡ true) ↔ (r ≡ role false false false)
  least-role r = ground arith

  ledger_iff :
      (blank inside : Bool) → (not blank && inside ≡ true) ↔ ((blank ≡ false) × (inside ≡ true))
  ledger_iff blank inside = ground arith

  some_anchor : 0 < d.trust_anchor_count → ltb 0 d.trust_anchor_count ≡ true
  some_anchor h = grind arith

  signature-passes : is_failed (model_signature_check d.model_signer) ≡ false
  signature-passes = ground arith

  all-passed : All (λ c. is_failed c ≡ false) (all_checks net d) → IsSovereign
  unfolding all_checks
  all-passed (b, (a, (l, (e, (t, (w, (g, (h, (v, (s, (r, _))))))))))) =
      let (named, at_home) =
        (ledger_iff (is_blank ledger_host) (is_local_host net ledger_host suffixes)).0
          ((met (not (is_blank ledger_host) && is_local_host net ledger_host suffixes)).0 l) in
      record {
        backend = backend-one_of.0 ((met _).0 b);
        anchors = ltb-lt 0 d.trust_anchor_count ((met _).0 a);
        ledger_named = named;
        ledger_local = at_home;
        inside = (outside-All net suffixes (destinations net d.backend d.env)).0 ((met _).0 e);
        tls =
            (eq_iff (lower net.lower_other (strip (variable "TLS_ENABLED" "true" d.env))) "true").0
              ((met _).0 t);
        one_worker = (eq_iff (strip (variable "SKI_MODEL_WORKERS" "1" d.env)) "1").0 ((met _).0 w);
        graph = (anchored-graph d.kg_trust).0 ((met _).0 g);
        hash_registered = (met _).0 h;
        hash_verified = (met _).0 v;
        least_privilege = (least-role d.ledger_role).0 ((met _).0 r);
      }

  sovereign-passes : IsSovereign → All (λ c. is_failed c ≡ false) (all_checks net d)
  unfolding all_checks
  sovereign-passes s = (
    (met _).1 (backend-one_of.1 s.backend),
    (
      (met _).1 (some_anchor s.anchors),
      (
        (met _).1 (
            (ledger_iff (is_blank ledger_host) (is_local_host net ledger_host suffixes)).1
              (s.ledger_named, s.ledger_local)),
        (
          (met _).1 ((outside-All net suffixes (destinations net d.backend d.env)).1 s.inside),
          (
            (met _).1 (
                (eq_iff (lower net.lower_other (strip (variable "TLS_ENABLED" "true" d.env)))
                    "true").1
                  s.tls),
            (
              (met _).1
                  ((eq_iff (strip (variable "SKI_MODEL_WORKERS" "1" d.env)) "1").1 s.one_worker),
              (
                (met _).1 ((anchored-graph d.kg_trust).1 s.graph),
                (
                  (met _).1 s.hash_registered,
                  (
                    (met _).1 s.hash_verified,
                    (
                      signature-passes,
                      ((met _).1 ((least-role d.ledger_role).1 s.least_privilege), tt),
                    ),
                  ),
                ),
              ),
            ),
          ),
        ),
      ),
    ),
  )

  front-passes : (xs ys : List Check) → any is_failed (xs ++ ys) ≡ false → any is_failed xs ≡ false
  front-passes [] ys h = refl
  front-passes (x ∷ xs) ys h = ground (arith, front-passes xs ys)

  -- The last refusal decides, since each stage has the checks of the one before.
  last_decides :
      ((start_up net d strict).0 ≡ some (all_checks net d))
      ↔ (any is_failed (all_checks net d) ≡ false)
  unfolding start_up
  last_decides =
      stages-last _ _ _ _ _ _ _ _ _
        (front-passes (model_checks net d) (ledger_role_check d.ledger_role ∷ []))
        (front-passes (graph_checks net d) (
          model_hash_check d.model_hash_source
          ∷ model_hash_verified_check d.model_hash_verified
          ∷ model_signature_check d.model_signer
          ∷ []))
        (front-passes (first_checks net d) (kg_anchored_check d.kg_trust ∷ []))

  pub start_up-result :
      ((start_up net d strict).0 ≡ none) ⊎ ((start_up net d strict).0 ≡ some (all_checks net d))
  unfolding start_up
  start_up-result =
      stages-result (refuses strict (first_checks net d)) (refuses strict (graph_checks net d))
        (refuses strict (model_checks net d)) (refuses strict (all_checks net d)) (all_checks net d)
        [] (knowledge_graph ∷ []) (knowledge_graph ∷ model_backend ∷ [])
        (knowledge_graph ∷ model_backend ∷ ledger ∷ [])

  first-inside :
      any is_failed (first_checks net d) ≡ false
      → All (λ h. is_local_host net h suffixes ≡ true) (destinations net d.backend d.env)
  unfolding first_checks
  first-inside h =
      let (b, (a, (l, (e, rest)))) = (passes-All (first_checks net d)).0 h in
      (outside-All net suffixes (destinations net d.backend d.env)).0 ((met _).0 e)

  contact-first : (start_up net d strict).1 ≢ [] → any is_failed (first_checks net d) ≡ false
  unfolding start_up
  contact-first h = elim (Bool-cases (any is_failed (first_checks net d))) [
    | inl e ↦ absurd (h (rw (e, start_up) refl))
    | inr e ↦ e
  ]

  -- In strict mode the start-up goes through exactly if the deployment is sovereign: the backend
  -- is Ollama or vLLM, an anchor is configured, the ledger and every other host that an evaluation
  -- calls are inside, TLS is on, there is one worker, the graph is anchored, the weight hash is
  -- registered and verified, and the role of the ledger is least-privilege. It contacts nothing
  -- unless every such host is inside. In advisory mode the checks stop nothing.
  pub strict_start :
      (((start_up net d strict).0 ≡ some (all_checks net d)) ↔ IsSovereign)
      × ((start_up net d strict).1 ≢ []
          → All (λ h. is_local_host net h suffixes ≡ true) (destinations net d.backend d.env))
      × ((start_up net d advisory).0 ≡ some (all_checks net d))
  unfolding start_up
  strict_start = (
    (
      λ h. all-passed ((passes-All (all_checks net d)).0 (last_decides.0 h)),
      λ s. last_decides.1 ((passes-All (all_checks net d)).1 (sovereign-passes s)),
    ),
    λ h. first-inside (contact-first h),
    refl,
  )
