-- ===== src/Sovereignty.antt =====
-- reference-implementation/src/ski_model/sovereignty.py: hosts, the checks of the start-up, and when it is refused.
-- Egress has the egress guard, Start the order of the start-up; Strict, Guarded and Inside are proofs.
--
-- `ipaddress.ip_address` and `urlsplit(...).hostname` are given. The wording of a check is left out, and so is
-- the order of an allowlist, of which only membership is asked.
pub mod Egress
pub mod Start
pub mod Strict
pub mod Guarded
pub mod Inside
use Prim.Native.Char.{Char, code}
use Prim.Native.String.{◌++◌ as append}
use ski_framework.Prelude.{
  ℕ, String, Bool, true, false, not, ◌&&◌, ◌||◌, Option, none, some, List, [], ◌∷◌, ◌++◌, any,
  lookup, one_of, is_empty, str_eq, ltb, ◌==◌, if◌then◌else◌,
}
use ski_framework.Value.Case.{strip, lower, is_blank}
use ski_framework.Scope.{has_substring}
use ski_framework.Loader.{KgTrust, anchored, unanchored, unsigned}

pub data Mode : Type 0 where
  strict advisory : Mode

-- what `ipaddress` says of an address
pub record Address : Type 0 where
  pub is_loopback : Bool
  pub is_private : Bool
  pub is_link_local : Bool
  pub is_shared : Bool
  pub is_unspecified : Bool

-- the libraries of the host: an address of a text, the host name of a URL, and `lower` beyond ASCII
pub record Network : Type 0 where
  pub ip_address : String → Option Address
  pub hostname : String → Option String
  pub lower_other : String → String

abbrev pub Environment : Type 0
Environment = List (String × String)

-- `env.get(name, default)`
unfoldable pub variable : String → String → Environment → String
unfolding lookup
variable name default env = elim (lookup name env) [ some v ↦ v | none ↦ default ]

abbrev is_bracket : Char → Bool
is_bracket c = code c == b'[' || code c == b']'

unfoldable drop_brackets : String → String
drop_brackets String.[] = String.[]
drop_brackets (String.◌∷◌ c s) =
    let rest = drop_brackets s in if is_bracket c then rest else String.◌∷◌ c s

-- takes off the last characters of one kind
unfoldable drop_last : (Char → Bool) → String → String
unfolding is_blank
drop_last p String.[] = String.[]
drop_last p (String.◌∷◌ c s) =
    let rest = drop_last p s in if p c && is_blank rest then String.[] else String.◌∷◌ c rest

-- `s.split("%", 1)[0]`
unfoldable before_percent : String → String
before_percent String.[] = String.[]
before_percent (String.◌∷◌ c s) =
    let rest = before_percent s in if code c == b'%' then String.[] else String.◌∷◌ c rest

-- `_normalise`
unfoldable pub normalise_host : Network → String → String
unfolding strip drop_brackets drop_last before_percent lower
normalise_host net host = lower net.lower_other (
    drop_last (λ c. code c == b'.')
      (before_percent (drop_last is_bracket (drop_brackets (strip host)))))

unfoldable has_char : ℕ → String → Bool
has_char n String.[] = false
has_char n (String.◌∷◌ c s) = code c == n || has_char n s

-- `s.endswith(t)`
unfoldable pub ends_with : String → String → Bool
ends_with String.[] t = str_eq String.[] t
ends_with (String.◌∷◌ c s) t = str_eq (String.◌∷◌ c s) t || ends_with s t

-- `_LOCAL_SUFFIXES`
abbrev pub default_suffixes : List String
default_suffixes = ".local" ∷ ".localhost" ∷ ".internal" ∷ ".svc" ∷ ".cluster.local" ∷ []

unfoldable pub is_local_host : Network → String → List String → Bool
unfolding normalise_host is_blank has_char ends_with
is_local_host net host suffixes =
    let name = normalise_host net host in
    if is_blank name then false else elim (net.ip_address name) [
      | none ↦ str_eq name "localhost" || not (has_char b'.' name) || any (ends_with name) suffixes
      | some ip ↦ ip.is_loopback || ip.is_private || ip.is_link_local || ip.is_shared
    ]

-- the parts of a text between commas
unfoldable split_commas : String → List String
split_commas String.[] = "" ∷ []
split_commas (String.◌∷◌ c s) =
    let rest = split_commas s in
    if code c == b','
    then "" ∷ rest
    else elim rest [ [] ↦ String.◌∷◌ c "" ∷ [] | first ∷ more ↦ String.◌∷◌ c first ∷ more ]

abbrev starts_dot : String → Bool
starts_dot String.[] = false
starts_dot (String.◌∷◌ c s) = code c == b'.'

unfoldable extra_suffixes : Network → List String → List String
unfolding strip lower is_blank
extra_suffixes net [] = []
extra_suffixes net (s ∷ ss) =
    let rest = extra_suffixes net ss in
    let name = lower net.lower_other (strip s) in
    if is_blank (strip s) then rest else (if starts_dot name then name else append "." name) ∷ rest

unfoldable pub local_suffixes : Network → Environment → List String
unfolding variable split_commas extra_suffixes
local_suffixes net env =
    default_suffixes
    ++ extra_suffixes net (split_commas (variable "SKI_SOVEREIGN_LOCAL_DOMAINS" "" env))

-- `resolve_mode`; nothing where it raises
unfoldable pub resolve_mode : Network → Environment → Option Mode
unfolding variable strip lower is_blank
resolve_mode net env =
    let mode = lower net.lower_other (strip (variable "SKI_SOVEREIGNTY" "" env)) in
    if is_blank mode || str_eq mode "strict"
    then some strict
    else if str_eq mode "advisory"
    then some advisory
    else none

abbrev or_blank : Option String → String
or_blank none = ""
or_blank (some s) = s

-- `_url_host`
unfoldable pub url_host : Network → String → String
unfolding has_substring
url_host net url =
    or_blank (net.hostname (if has_substring "://" url then url else append "//" url))

unfoldable pub backend_url : String → Environment → Option String
unfolding variable
backend_url backend env =
    if str_eq backend "ollama"
    then some (variable "OLLAMA_BASE_URL" "http://ollama:11434" env)
    else if str_eq backend "vllm"
    then some (variable "VLLM_BASE_URL" "http://vllm:8000" env)
    else none

abbrev pub host_of : Network → Option String → String
host_of net none = ""
host_of net (some url) = if is_blank url then "" else url_host net url

-- the members that are no empty text
unfoldable pub filled : List String → List String
unfolding is_blank
filled [] = []
filled (s ∷ ss) = let rest = filled ss in if is_blank s then rest else s ∷ rest

-- the hosts that an evaluation calls
unfoldable pub destinations : Network → String → Environment → List String
unfolding backend_url url_host variable filled
destinations net backend env = filled (
    host_of net (backend_url backend env)
    ∷ url_host net (variable "LEDGER_DSN" "" env)
    ∷ url_host net (variable "SKI_TSA_URL" "" env)
    ∷ [])

unfoldable pub outside : Network → List String → List String → List String
unfolding is_local_host
outside net suffixes [] = []
outside net suffixes (d ∷ ds) =
    let rest = outside net suffixes ds in if is_local_host net d suffixes then rest else d ∷ rest

-- a requirement, and whether it is met; nothing where it was not evaluated
pub record Check : Type 0 where
  pub id : String
  pub ok : Option Bool

abbrev pub check_of : String → Bool → Check
check_of id ok = record { id = id; ok = some ok }

-- `config_checks`
unfoldable pub config_checks : Network → String → Environment → ℕ → List Check
unfolding one_of local_suffixes url_host variable is_local_host destinations outside is_blank
config_checks net backend env trust_anchor_count =
    let suffixes = local_suffixes net env in
    let ledger_host = url_host net (variable "LEDGER_DSN" "" env) in
    check_of "sovereign_backend" (one_of backend ("ollama" ∷ "vllm" ∷ []))
    ∷ check_of "kg_trust_anchor" (ltb 0 trust_anchor_count)
    ∷ check_of "ledger_local" (not (is_blank ledger_host) && is_local_host net ledger_host suffixes)
    ∷ check_of "egress_allowlist_local"
        (is_empty (outside net suffixes (destinations net backend env)))
    ∷ []

-- `REGISTERED_HASH_SOURCES`
abbrev pub registered_hash_sources : List String
registered_hash_sources =
    "verified-backend-digest" ∷ "verified-file-digest" ∷ "operator-asserted" ∷ []

abbrev pub is_registered : Option String → Bool
is_registered none = false
is_registered (some source) = one_of source registered_hash_sources

abbrev pub model_hash_check : Option String → Check
model_hash_check source = check_of "model_weight_registered" (is_registered source)

abbrev pub model_hash_verified_check : Bool → Check
model_hash_verified_check verified = check_of "model_weight_verified" verified

abbrev pub model_signature_check : Option String → Check
model_signature_check none = record { id = "model_signature"; ok = none }
model_signature_check (some signer) = check_of "model_signature" true

abbrev pub is_anchored_kg : Option KgTrust → Bool
is_anchored_kg none = false
is_anchored_kg (some trust) = elim trust [ anchored ↦ true | _ ↦ false ]

abbrev pub kg_anchored_check : Option KgTrust → Check
kg_anchored_check trust = check_of "kg_anchored" (is_anchored_kg trust)

-- `runtime_checks`
unfoldable pub runtime_checks : Network → Environment → List Check
unfolding variable strip lower
runtime_checks net env =
    check_of "tls_enabled"
      (str_eq (lower net.lower_other (strip (variable "TLS_ENABLED" "true" env))) "true")
    ∷ check_of "single_worker" (str_eq (strip (variable "SKI_MODEL_WORKERS" "1" env)) "1")
    ∷ []

-- what the query for the ledger's role gives: three flags of the role, or nothing to judge
pub data LedgerRole : Type 0 where
  no_connection inspection_failed no_table : LedgerRole
  role : Bool → Bool → Bool → LedgerRole

-- `ledger_role_check`: the role is no superuser, does not own the table, and may not rewrite it
abbrev pub is_least_privilege : LedgerRole → Bool
is_least_privilege (role elevated owner rewrite) = not elevated && (not owner && not rewrite)
is_least_privilege _ = false

abbrev pub ledger_role_check : LedgerRole → Check
ledger_role_check r = check_of "ledger_least_privilege" (is_least_privilege r)

abbrev pub is_failed : Check → Bool
is_failed c = elim c.ok [ some b ↦ not b | none ↦ false ]

-- `refuse_if_failed` and `enforce`: whether the start-up stops here
abbrev pub refuses : Mode → List Check → Bool
refuses strict checks = any is_failed checks
refuses advisory checks = false

-- the names that the guard makes of the hosts that it allows
unfoldable pub normal_names : Network → List String → List String
unfolding normalise_host is_blank
normal_names net [] = []
normal_names net (h ∷ hs) =
    let rest = normal_names net hs in
    let name = normalise_host net h in
    if is_blank name || one_of name rest then rest else name ∷ rest

unfoldable pub lowered : Network → List String → List String
unfolding lower
lowered net [] = []
lowered net (h ∷ hs) = lower net.lower_other h ∷ lowered net hs

unfoldable pub egress_allowlist : Network → String → Environment → List String
unfolding destinations lowered
egress_allowlist net backend env = lowered net (destinations net backend env)
