-- ===== src/Sovereignty/Start.antt =====
-- The start-up of reference-implementation/src/ski_model/server.py as far as sovereignty.py decides it: after each
-- stage it stops, in strict mode, if a check so far failed, before it contacts what comes next. A stage that fails
-- for another reason stops the start-up too, and is left out.
use ski_framework.Prelude.{ℕ, String, Bool, Option, none, some, List, [], ◌∷◌, ◌++◌, if◌then◌else◌}
use ski_framework.Loader.{KgTrust}
use ski_framework.Sovereignty.{
  resolve_mode, egress_allowlist, Mode, Network, Environment, Check, LedgerRole, config_checks,
  runtime_checks, kg_anchored_check, model_hash_check, model_hash_verified_check,
  model_signature_check, ledger_role_check, refuses,
}
use ski_framework.Sovereignty.Egress.{Resolver, EgressGuard, arm, new_guard}

-- what the start-up reads, and what it finds out at each stage
pub record Deployment : Type 0 where
  pub backend : String
  pub env : Environment
  pub trust_anchor_count : ℕ
  pub kg_trust : Option KgTrust
  pub model_hash_source : Option String
  pub model_hash_verified : Bool
  pub model_signer : Option String
  pub ledger_role : LedgerRole

pub data Contact : Type 0 where
  knowledge_graph model_backend ledger : Contact

module _ (net : Network) (d : Deployment) where
  unfoldable pub first_checks : List Check
  unfolding config_checks runtime_checks
  first_checks = config_checks net d.backend d.env d.trust_anchor_count ++ runtime_checks net d.env

  unfoldable pub graph_checks : List Check
  unfolding first_checks
  graph_checks = first_checks ++ (kg_anchored_check d.kg_trust ∷ [])

  unfoldable pub model_checks : List Check
  unfolding graph_checks
  model_checks =
      graph_checks
      ++ (model_hash_check d.model_hash_source
          ∷ model_hash_verified_check d.model_hash_verified
          ∷ model_signature_check d.model_signer
          ∷ [])

  unfoldable pub all_checks : List Check
  unfolding model_checks
  all_checks = model_checks ++ (ledger_role_check d.ledger_role ∷ [])

  -- the checks that are served later, where the start-up goes through, and what was contacted
  unfoldable pub start_up : Mode → Option (List Check) × List Contact
  unfolding first_checks graph_checks model_checks all_checks
  start_up mode =
      if refuses mode first_checks
      then (none, [])
      else if refuses mode graph_checks
      then (none, knowledge_graph ∷ [])
      else if refuses mode model_checks
      then (none, knowledge_graph ∷ model_backend ∷ [])
      else if refuses mode all_checks
      then (none, knowledge_graph ∷ model_backend ∷ ledger ∷ [])
      else (some all_checks, knowledge_graph ∷ model_backend ∷ ledger ∷ [])

  -- the whole start-up: the mode of the environment, the stages, and the guard that is armed at their end
  unfoldable pub launch : Resolver → Option EgressGuard
  unfolding resolve_mode start_up egress_allowlist arm new_guard
  launch resolver = elim (resolve_mode net d.env) [
    | none ↦ none
    | some mode ↦ elim (start_up mode).0 [
      | none ↦ none
      | some checks ↦
          some (arm net resolver (new_guard net mode (egress_allowlist net d.backend d.env)))
    ]
  ]
