-- ===== src/Sovereignty/Egress.antt =====
-- The egress guard of sovereignty.py, as a state machine over the audit events of the process.
--
-- `getaddrinfo` may answer otherwise each time, so an event brings the answers of its moment. The counting and the
-- refusal of one event are one step.
use ski_framework.Prelude.{
  ℕ, ◌+◌, String, Bool, true, false, not, ◌&&◌, ◌||◌, Option, none, some, List, [], ◌∷◌, ◌++◌,
  one_of, ltb, str_eq, if◌then◌else◌,
}
use ski_framework.Value.Case.{is_blank}
use ski_framework.Sovereignty.{Mode, strict, advisory, Network, normalise_host, normal_names}

-- the addresses that a name has now; none where the lookup fails
abbrev pub Resolver : Type 0
Resolver = String → List String

pub record EgressGuard : Type 0 where
  pub mode : Mode
  pub allowlist : List String
  pub attempts : ℕ
  pub armed : Bool
  pub addresses : List String

-- an audit event: a send to an address, a lookup of a name, or another one
pub data AuditEvent : Type 0 where
  send : Option String → AuditEvent
  look_up : Option String → AuditEvent
  other_event : AuditEvent

-- an event, with whether its thread is unguarded and what lookups give now
pub record GuardedEvent : Type 0 where
  pub event : AuditEvent
  pub unguarded : Bool
  pub resolver : Resolver

-- `_destination`
abbrev pub destination : AuditEvent → Option String
destination (send address) = address
destination (look_up host) = host
destination other_event = none

module _ (net : Network) where
  -- `_resolve`
  unfoldable pub resolve_all : Resolver → List String → List String
  unfolding normal_names
  resolve_all resolver [] = []
  resolve_all resolver (h ∷ hs) = normal_names net (resolver h) ++ resolve_all resolver hs

  -- `EgressGuard(mode, allowlist)`
  unfoldable pub new_guard : Mode → List String → EgressGuard
  unfolding normal_names
  new_guard mode allowlist = record {
    mode = mode;
    allowlist = normal_names net allowlist;
    attempts = 0;
    armed = false;
    addresses = [];
  }

  unfoldable pub arm : Resolver → EgressGuard → EgressGuard
  unfolding resolve_all
  arm resolver g = record g { addresses = resolve_all resolver g.allowlist; armed = true }

  unfoldable pub is_allowlisted : EgressGuard → String → Bool
  unfolding is_blank one_of
  is_allowlisted g name =
      is_blank name
      || (str_eq name "localhost" || (one_of name g.allowlist || one_of name g.addresses))

  -- `allows`, with the guard after it: an address that is not known makes it resolve its names again
  unfoldable pub allows : Resolver → EgressGuard → String → EgressGuard × Bool
  unfolding normalise_host is_allowlisted one_of resolve_all
  allows resolver g host =
      let name = normalise_host net host in
      let fresh = record g { addresses = resolve_all resolver g.allowlist } in
      if is_allowlisted g name then (g, true) else elim (net.ip_address name) [
        | none ↦ (g, false)
        | some ip ↦
            if ip.is_loopback || ip.is_unspecified
            then (g, true)
            else (fresh, one_of name fresh.addresses)
      ]

  abbrev is_strict : Mode → Bool
  is_strict m = elim m [ strict ↦ true | advisory ↦ false ]

  -- the end of `audit`, for a destination that was judged
  abbrev judged : EgressGuard × Bool → EgressGuard × Bool
  judged (g, true) = (g, false)
  judged (g, false) = (record g { attempts = g.attempts + 1 }, is_strict g.mode)

  -- `audit`, with whether it raises
  unfoldable pub audit : GuardedEvent → EgressGuard → EgressGuard × Bool
  unfolding allows
  audit m g = if not g.armed || m.unguarded then (g, false) else elim (destination m.event) [
    | none ↦ (g, false)
    | some host ↦ judged (allows m.resolver g host)
  ]

  -- `tripped`
  unfoldable pub tripped : EgressGuard → Bool
  tripped g = is_strict g.mode && ltb 0 g.attempts

  -- the events of the process, in their order
  unfoldable pub audit_all : List GuardedEvent → EgressGuard → EgressGuard
  unfolding audit
  audit_all [] g = g
  audit_all (m ∷ ms) g = audit_all ms (audit m g).0

  -- the events that were refused
  unfoldable pub refusals : List GuardedEvent → EgressGuard → ℕ
  unfolding audit
  refusals [] g = 0
  refusals (m ∷ ms) g =
      let later = refusals ms (audit m g).0 in if (audit m g).1 then later + 1 else later

  -- the gate of `evaluate` in server.py: whether it goes on to the evaluation
  unfoldable pub may_evaluate : Option EgressGuard → Bool
  unfolding tripped
  may_evaluate none = true
  may_evaluate (some g) = not (tripped g)
