-- ===== src/Sovereignty/Inside.antt =====
-- Proofs about a runtime that the whole start-up has launched in strict mode.
use mathlib.Core.Path.{subst}
use ski_framework.Prelude.{
  ◌≡◌, ◌⊎◌, inl, inr, refl, sym, ap, ◌∙◌, true, false, ◌||◌, String, some, List, [], ◌∷◌, All, In,
  Bool-cases, one_of,
}
use ski_framework.Value.Case.{lower, is_blank}
use ski_framework.Sovereignty.{
  strict, Network, Address, destinations, is_local_host, normalise_host, normal_names, lowered,
  egress_allowlist, resolve_mode,
}
use ski_framework.Sovereignty.Egress.{
  Resolver, EgressGuard, GuardedEvent, destination, audit, audit_all,
}
use ski_framework.Sovereignty.Start.{Deployment, launch}
use ski_framework.Sovereignty.Guarded.{IsInside, armed_guard, resolvers_of, passed-IsInside}
use ski_framework.Sovereignty.Strict.{IsSovereign, suffixes, start_up-result, strict_start}

module _ (net : Network) where
  normal_names-In :
      (hosts : List String) (x : String)
      → In x (normal_names net hosts)
      → (h : String) × In h hosts × (x ≡ normalise_host net h)
  unfolding normal_names
  normal_names-In [] x m = absurd m
  normal_names-In (h ∷ hosts) x m =
      let rest = normal_names-In hosts x in
      elim (Bool-cases (
        is_blank (normalise_host net h)
        || one_of (normalise_host net h) (normal_names net hosts))) [
          | inl e ↦ let (k, at_k, f) = rest (rw (e, normal_names) at m) in (k, inr at_k, f)
          | inr e ↦
              elim (rw (e, normal_names) at m)
                as (λ q. (k : String) × In k (h ∷ hosts) × (x ≡ normalise_host net k)) [
                  | inl f ↦ (h, inl refl, f)
                  | inr n ↦ let (k, at_k, f) = rest n in (k, inr at_k, f)
                ]
        ]

  lowered-In :
      (hosts : List String) (x : String)
      → In x (lowered net hosts)
      → (h : String) × In h hosts × (x ≡ lower net.lower_other h)
  unfolding lowered
  lowered-In [] x m = absurd m
  lowered-In (h ∷ hosts) x (inl e) = (h, inl refl, e)
  lowered-In (h ∷ hosts) x (inr m) = let (k, at_k, e) = lowered-In hosts x m in (k, inr at_k, e)

  same_guard : {g k : EgressGuard} → some k ≡ some g → g ≡ k
  same_guard h = cc h

  All-In : (P : String → Type 0) (hosts : List String) (h : String) → All P hosts → In h hosts → P h
  All-In P [] h all m = absurd m
  All-In P (k ∷ hosts) h all (inl e) = subst P (sym e) all.0
  All-In P (k ∷ hosts) h all (inr m) = All-In P hosts h all.1 m

  module _ (d : Deployment) where
    -- the name that the guard makes of a host inside the deployment
    abbrev IsLocalName : String → Type 0
    IsLocalName x =
        (h : String) × (is_local_host net h (suffixes net d) ≡ true)
        × (x ≡ normalise_host net (lower net.lower_other h))

    allowlist-IsLocalName :
        IsSovereign net d
        → (x : String) → In x (normal_names net (egress_allowlist net d.backend d.env))
        → IsLocalName x
    unfolding egress_allowlist
    allowlist-IsLocalName s x m =
        let (low, at_low, e) = normal_names-In (egress_allowlist net d.backend d.env) x m in
        let (h, at_h, f) = lowered-In (destinations net d.backend d.env) low at_low in
        (
          h,
          All-In (λ k. is_local_host net k (suffixes net d) ≡ true)
              (destinations net d.backend d.env) h s.inside at_h,
          e ∙ ap (normalise_host net) f,
        )

    launch-IsSovereign :
        (r : Resolver) (g : EgressGuard)
        → resolve_mode net d.env ≡ some strict
        → launch net d r ≡ some g
        → IsSovereign net d × (g ≡ armed_guard net (egress_allowlist net d.backend d.env) r)
    unfolding launch
    launch-IsSovereign r g mode h = elim (start_up-result net d) [
      | inl e ↦ absurd (cc (rw (mode, e, launch) at h))
      | inr e ↦ ((strict_start net d).0.0 e, same_guard (rw (mode, e, launch) at h))
    ]

    -- where a call stays within the deployment
    abbrev pub StaysInside : List Resolver → String → Type 0
    StaysInside resolvers name =
        (is_blank name ≡ true)
        ⊎ (name ≡ "localhost")
        ⊎ ((ip : Address) × (net.ip_address name ≡ some ip)
            × ((ip.is_loopback || ip.is_unspecified) ≡ true))
        ⊎ IsLocalName name
        ⊎ ((r : Resolver) × In r resolvers
            × ((x : String) × IsLocalName x × In name (normal_names net (r x))))

    inside-StaysInside :
        (resolvers : List Resolver) (name : String)
        → IsSovereign net d
        → IsInside net resolvers (normal_names net (egress_allowlist net d.backend d.env)) name
        → StaysInside resolvers name
    inside-StaysInside resolvers name s (inl e) = inl e
    inside-StaysInside resolvers name s (inr (inl e)) = inr (inl e)
    inside-StaysInside resolvers name s (inr (inr (inl e))) = inr (inr (inl e))
    inside-StaysInside resolvers name s (inr (inr (inr (inl m)))) =
        inr (inr (inr (inl (allowlist-IsLocalName s name m))))
    inside-StaysInside resolvers name s (inr (inr (inr (inr (r, at_r, (x, at_x, found)))))) =
        inr (inr (inr (inr (r, at_r, (x, allowlist-IsLocalName s x at_x, found)))))

    -- Let the start-up launch a runtime in strict mode, and let an event of a guarded thread with
    -- a destination pass its guard, after any events. Then the normalised destination is empty,
    -- `localhost`, a loopback or unspecified address, the name of a host that is inside the
    -- deployment, or an address that such a name had when the guard was armed or at the moment of
    -- one of the events.
    pub launched-StaysInside :
        (r : Resolver) (g : EgressGuard) (ms : List GuardedEvent) (m : GuardedEvent) (host : String)
        → resolve_mode net d.env ≡ some strict
        → launch net d r ≡ some g
        → m.unguarded ≡ false
        → destination m.event ≡ some host
        → (audit net m (audit_all net ms g)).1 ≡ false
        → StaysInside (m.resolver ∷ resolvers_of net ms (r ∷ [])) (normalise_host net host)
    launched-StaysInside r g ms m host mode started guarded to passes =
        let (s, same) = launch-IsSovereign r g mode started in
        inside-StaysInside (m.resolver ∷ resolvers_of net ms (r ∷ [])) (normalise_host net host) s (
          passed-IsInside net (egress_allowlist net d.backend d.env) r ms m host guarded to
            (subst (λ k. (audit net m (audit_all net ms k)).1 ≡ false) same passes))
