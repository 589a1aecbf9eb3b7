-- ===== src/Examples/Guards.antt =====
-- A strict runtime with a model and a ledger inside, and its guard over three calls.
use ski_framework.Prelude.{
  ◌≡◌, ◌≢◌, ◌↔◌, ◌<◌, refl, String, true, false, Option, none, some, List, [], ◌∷◌, if◌then◌else◌,
  str_eq, All,
}
use ski_framework.Loader.{anchored}
use ski_framework.Sovereignty.{
  resolve_mode, Network, Environment, strict, advisory, is_local_host, destinations, normalise_host,
  role, Address,
}
use ski_framework.Sovereignty.Egress.{
  EgressGuard, Resolver, GuardedEvent, send, audit, audit_all, refusals, may_evaluate,
}
use ski_framework.Sovereignty.Start.{launch, Deployment, all_checks, start_up}
use ski_framework.Sovereignty.Guarded.{armed_guard, resolvers_of, evaluation_stops}
use ski_framework.Sovereignty.Inside.{StaysInside, launched-StaysInside}
use ski_framework.Sovereignty.Strict.{IsSovereign, suffixes, strict_start}

abbrev outer : Address
outer = record {
  is_loopback = false;
  is_private = false;
  is_link_local = false;
  is_shared = false;
  is_unspecified = false;
}

abbrev address_of : String → Option Address
address_of s = if str_eq s "8.8.8.8" then some outer else none

abbrev host_name : String → Option String
host_name s =
    if str_eq s "postgresql://ledger/ski"
    then some "ledger"
    else if str_eq s "http://ollama:11434"
    then some "ollama"
    else none

abbrev network : Network
network = record { ip_address = address_of; hostname = host_name; lower_other = λ s. s }

abbrev environment : Environment
environment = ("LEDGER_DSN", "postgresql://ledger/ski") ∷ []

abbrev deployment : Deployment
deployment = record {
  backend = "ollama";
  env = environment;
  trust_anchor_count = 1;
  kg_trust = some anchored;
  model_hash_source = some "verified-file-digest";
  model_hash_verified = true;
  model_signer = none;
  ledger_role = role false false false;
}

abbrev resolver : Resolver
resolver name = if str_eq name "ledger" then "10.0.0.5" ∷ [] else []

abbrev to_ledger : GuardedEvent
to_ledger = record { event = send (some "10.0.0.5"); unguarded = false; resolver = resolver }

abbrev to_outside : GuardedEvent
to_outside = record { event = send (some "8.8.8.8"); unguarded = false; resolver = resolver }

abbrev guard : EgressGuard
guard = record {
  mode = strict;
  allowlist = "ollama" ∷ "ledger" ∷ [];
  attempts = 0;
  armed = true;
  addresses = "10.0.0.5" ∷ [];
}

abbrev hosts : List String
hosts = "Ledger" ∷ "ollama" ∷ []

evaluation_stops_example :
    ((may_evaluate network
          (some (audit_all network (to_outside ∷ []) (armed_guard network hosts resolver)))
        ≡ false)
      ↔ (0 < refusals network (to_outside ∷ []) (armed_guard network hosts resolver)))
    × (0 < refusals network (to_outside ∷ []) (armed_guard network hosts resolver)
        → may_evaluate network (
            some (
              audit_all network (to_outside ∷ to_ledger ∷ []) (armed_guard network hosts resolver)))
          ≡ false)
evaluation_stops_example =
    evaluation_stops network hosts resolver (to_outside ∷ []) (to_ledger ∷ [])

launched-StaysInside_example :
    StaysInside network deployment
      (resolver ∷ resolver ∷ resolver ∷ [])
      (normalise_host network "10.0.0.5")
unfolding audit audit_all resolve_mode launch resolvers_of
launched-StaysInside_example =
    launched-StaysInside network deployment resolver guard (to_outside ∷ []) to_ledger "10.0.0.5"
      refl refl refl refl refl

strict_start_example :
    (((start_up network deployment strict).0 ≡ some (all_checks network deployment))
      ↔ IsSovereign network deployment)
    × ((start_up network deployment strict).1 ≢ []
        → All
            (λ h. is_local_host network h (suffixes network deployment) ≡ true)
            (destinations network "ollama" environment))
    × ((start_up network deployment advisory).0 ≡ some (all_checks network deployment))
strict_start_example = strict_start network deployment

-- The deployment starts in strict mode.
starts : (start_up network deployment strict).0 ≡ some (all_checks network deployment)
unfolding start_up
starts = refl
