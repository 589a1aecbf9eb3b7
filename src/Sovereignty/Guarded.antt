-- ===== src/Sovereignty/Guarded.antt =====
-- Proofs about the egress guard over the events of a process.
use mathlib.Core.Path.{subst}
use ski_framework.Prelude.{
  ◌+◌, ◌≤◌, ◌<◌, ◌≡◌, ◌↔◌, ◌⊎◌, inl, inr, refl, ◌∙◌, true, false, ◌||◌, String, some, List, [], ◌∷◌,
  ◌++◌, arith, In, one_of, str_eq, eq_iff, Bool-cases, Option-cases, if◌then◌else◌,
}
use ski_framework.Value.Case.{is_blank}
use ski_framework.Graph.Texts.Members.{In-append_cases, one_of-In}
use ski_framework.Sovereignty.{strict, Network, Address, normalise_host, normal_names}
use ski_framework.Sovereignty.Egress.{
  Resolver, EgressGuard, GuardedEvent, destination, resolve_all, new_guard, arm, is_allowlisted,
  allows, audit, tripped, audit_all, refusals, may_evaluate,
}

module _ (net : Network) where
  -- an address that a name of the list has by one of the resolvers
  abbrev pub IsResolved : List Resolver → List String → String → Type 0
  IsResolved resolvers allowlist x =
      (r : Resolver) × In r resolvers
      × ((h : String) × In h allowlist × In x (normal_names net (r h)))

  resolve_all-In :
      (r : Resolver) (hosts : List String) (x : String)
      → In x (resolve_all net r hosts)
      → (h : String) × In h hosts × In x (normal_names net (r h))
  unfolding resolve_all
  resolve_all-In r [] x m = absurd m
  resolve_all-In r (h ∷ hosts) x m =
      elim (In-append_cases x (normal_names net (r h)) (resolve_all net r hosts) m) [
        | inl a ↦ (h, inl refl, a)
        | inr b ↦ let (k, at_k, found) = resolve_all-In r hosts x b in (k, inr at_k, found)
      ]

  -- what the guard of a strict runtime keeps
  record Watches (resolvers : List Resolver) (allowlist : List String) (g : EgressGuard)
      : Type 0 where
    in_strict : g.mode ≡ strict
    on : g.armed ≡ true
    names : g.allowlist ≡ allowlist
    known : (x : String) → In x g.addresses → IsResolved resolvers allowlist x

  later :
      (resolvers : List Resolver) (r : Resolver) (allowlist : List String) (x : String)
      → IsResolved resolvers allowlist x
      → IsResolved (r ∷ resolvers) allowlist x
  later resolvers r allowlist x (s, m, found) = (s, inr m, found)

  -- The guard after a judgement is the same, or has resolved its names again.
  allows-cases :
      (r : Resolver) (g : EgressGuard) (host : String)
      → ((allows net r g host).0 ≡ g)
        ⊎ ((allows net r g host).0 ≡ record g { addresses = resolve_all net r g.allowlist })
  unfolding allows
  allows-cases r g host = ground arith

  -- An event leaves the mode, the list and the arming as they are.
  audit-fields :
      (m : GuardedEvent) (g : EgressGuard)
      → ((audit net m g).0.mode ≡ g.mode)
        × ((audit net m g).0.armed ≡ g.armed)
        × ((audit net m g).0.allowlist ≡ g.allowlist)
  unfolding audit allows
  audit-fields m g = ground arith

  audit-addresses :
      (m : GuardedEvent) (g : EgressGuard)
      → ((audit net m g).0.addresses ≡ g.addresses)
        ⊎ ((audit net m g).0.addresses ≡ resolve_all net m.resolver g.allowlist)
  unfolding audit allows
  audit-addresses m g = ground arith

  -- In strict mode exactly the refused events are counted.
  audit-attempts :
      (m : GuardedEvent) (g : EgressGuard)
      → g.mode ≡ strict
      → (audit net m g).0.attempts ≡ (if (audit net m g).1 then g.attempts + 1 else g.attempts)
  unfolding audit allows
  audit-attempts m g s = ground arith

  attempts-refusals :
      (ms : List GuardedEvent) (g : EgressGuard)
      → g.mode ≡ strict
      → ((audit_all net ms g).attempts ≡ g.attempts + refusals net ms g)
        × ((audit_all net ms g).mode ≡ strict)
  unfolding audit_all refusals
  attempts-refusals [] g s = (omega arith, s)
  attempts-refusals (m ∷ ms) g s =
      let (mode, armed, names) = audit-fields m g in
      let rest = attempts-refusals ms (audit net m g).0 (mode ∙ s) in
      let counted = audit-attempts m g s in
      (
        elim (Bool-cases (audit net m g).1) [
          | inl e ↦
              let one : (audit net m g).0.attempts ≡ g.attempts + 1 = rw e at counted in
              rw (e, refusals) (omega (arith, rest.0, one))
          | inr e ↦
              let same : (audit net m g).0.attempts ≡ g.attempts = rw e at counted in
              rw (e, refusals) (omega (arith, rest.0, same))
        ],
        rest.1,
      )

  refusals-append :
      (ms more : List GuardedEvent) (g : EgressGuard)
      → refusals net ms g ≤ refusals net (ms ++ more) g
  unfolding refusals
  refusals-append [] more g = omega arith
  refusals-append (m ∷ ms) more g = ground (arith, refusals-append ms more (audit net m g).0)

  -- the guard of a strict runtime when it starts to serve
  abbrev pub armed_guard : List String → Resolver → EgressGuard
  armed_guard hosts r = arm net r (new_guard net strict hosts)

  gate :
      (hosts : List String) (r : Resolver) (ms : List GuardedEvent)
      → (may_evaluate net (some (audit_all net ms (armed_guard hosts r))) ≡ false)
        ↔ (0 < refusals net ms (armed_guard hosts r))
  unfolding tripped arm new_guard may_evaluate
  gate hosts r ms =
      let (sum, mode) = attempts-refusals ms (armed_guard hosts r) refl in ground arith

  -- Under the armed guard of a strict runtime, the gate of `evaluate` refuses exactly if an event
  -- before it was refused, and after that it refuses whatever events follow.
  pub evaluation_stops :
      (hosts : List String) (r : Resolver) (ms more : List GuardedEvent)
      → ((may_evaluate net (some (audit_all net ms (armed_guard hosts r))) ≡ false)
          ↔ (0 < refusals net ms (armed_guard hosts r)))
        × (0 < refusals net ms (armed_guard hosts r)
            → may_evaluate net (some (audit_all net (ms ++ more) (armed_guard hosts r))) ≡ false)
  evaluation_stops hosts r ms more = (
    gate hosts r ms,
    λ h.
        (gate hosts r (ms ++ more)).1
          (omega (arith, h, refusals-append ms more (armed_guard hosts r))),
  )

  audit-Watches :
      (resolvers : List Resolver) (allowlist : List String) (m : GuardedEvent) (g : EgressGuard)
      → Watches resolvers allowlist g
      → Watches (m.resolver ∷ resolvers) allowlist (audit net m g).0
  audit-Watches resolvers allowlist m g w =
      let (mode, armed, names) = audit-fields m g in
      record {
        in_strict = mode ∙ w.in_strict;
        on = armed ∙ w.on;
        names = names ∙ w.names;
        known = λ x n. elim (audit-addresses m g) [
          | inl same ↦ later resolvers m.resolver allowlist x (w.known x (subst (In x) same n))
          | inr fresh ↦
              let (h, at_h, found) =
                resolve_all-In m.resolver g.allowlist x (subst (In x) fresh n) in
              (m.resolver, inl refl, (h, subst (In h) w.names at_h, found))
        ];
      }

  -- the resolvers of the events, the last one in front
  unfoldable pub resolvers_of : List GuardedEvent → List Resolver → List Resolver
  resolvers_of [] resolvers = resolvers
  resolvers_of (m ∷ ms) resolvers = resolvers_of ms (m.resolver ∷ resolvers)

  audit_all-Watches :
      (resolvers : List Resolver) (allowlist : List String) (ms : List GuardedEvent)
      (g : EgressGuard)
      → Watches resolvers allowlist g
      → Watches (resolvers_of ms resolvers) allowlist (audit_all net ms g)
  unfolding audit_all resolvers_of
  audit_all-Watches resolvers allowlist [] g w = w
  audit_all-Watches resolvers allowlist (m ∷ ms) g w =
      audit_all-Watches (m.resolver ∷ resolvers) allowlist ms (audit net m g).0
        (audit-Watches resolvers allowlist m g w)

  -- a destination inside: this host, a name of the list, or an address that one of these has or had
  abbrev pub IsInside : List Resolver → List String → String → Type 0
  IsInside resolvers allowlist name =
      (is_blank name ≡ true)
      ⊎ (name ≡ "localhost")
      ⊎ ((ip : Address) × (net.ip_address name ≡ some ip)
          × ((ip.is_loopback || ip.is_unspecified) ≡ true))
      ⊎ In name allowlist
      ⊎ IsResolved resolvers allowlist name

  known-IsInside :
      (resolvers : List Resolver) (allowlist : List String) (g : EgressGuard) (name : String)
      → Watches resolvers allowlist g
      → is_allowlisted net g name ≡ true
      → IsInside resolvers allowlist name
  unfolding is_allowlisted
  known-IsInside resolvers allowlist g name w h = elim (Bool-cases (is_blank name)) [
    | inl e ↦ inl e
    | inr a ↦ elim (Bool-cases (str_eq name "localhost")) [
      | inl e ↦ inr (inl ((eq_iff name "localhost").0 e))
      | inr b ↦ elim (Bool-cases (one_of name g.allowlist)) [
        | inl e ↦ inr (inr (inr (inl (subst (In name) w.names ((one_of-In name g.allowlist).0 e)))))
        | inr c ↦ inr (
            inr (
              inr (
                inr (
                  w.known name
                    ((one_of-In name g.addresses).0 (rw (a, b, c, is_allowlisted) at h))))))
      ]
    ]
  ]

  wider :
      (resolvers : List Resolver) (r : Resolver) (allowlist : List String) (name : String)
      → IsInside resolvers allowlist name
      → IsInside (r ∷ resolvers) allowlist name
  wider resolvers r allowlist name (inl e) = inl e
  wider resolvers r allowlist name (inr (inl e)) = inr (inl e)
  wider resolvers r allowlist name (inr (inr (inl e))) = inr (inr (inl e))
  wider resolvers r allowlist name (inr (inr (inr (inl e)))) = inr (inr (inr (inl e)))
  wider resolvers r allowlist name (inr (inr (inr (inr e)))) =
      inr (inr (inr (inr (later resolvers r allowlist name e))))

  allows-IsInside :
      (resolvers : List Resolver) (allowlist : List String) (r : Resolver) (g : EgressGuard)
      (host : String)
      → Watches resolvers allowlist g
      → (allows net r g host).1 ≡ true
      → IsInside (r ∷ resolvers) allowlist (normalise_host net host)
  unfolding allows
  allows-IsInside resolvers allowlist r g host w h =
      let name = normalise_host net host in
      elim (Bool-cases (is_allowlisted net g name)) [
        | inl e ↦ wider resolvers r allowlist name (known-IsInside resolvers allowlist g name w e)
        | inr a ↦ elim (Option-cases (net.ip_address name)) [
          | inl e ↦ absurd (cc (rw (a, e, allows) at h))
          | inr (ip, e) ↦ elim (Bool-cases (ip.is_loopback || ip.is_unspecified)) [
            | inl f ↦ inr (inr (inl (ip, e, f)))
            | inr f ↦
                let listed =
                  (one_of-In name (resolve_all net r g.allowlist)).0 (rw (a, e, f, allows) at h) in
                let (k, at_k, found) = resolve_all-In r g.allowlist name listed in
                inr (inr (inr (inr (r, inl refl, (k, subst (In k) w.names at_k, found)))))
          ]
        ]
      ]

  armed-Watches :
      (hosts : List String) (r : Resolver)
      → Watches (r ∷ []) (normal_names net hosts) (armed_guard hosts r)
  unfolding arm new_guard
  armed-Watches hosts r = record {
    in_strict = refl;
    on = refl;
    names = refl;
    known = λ x n.
        let (h, at_h, found) = resolve_all-In r (normal_names net hosts) x n in
        (r, inl refl, (h, at_h, found));
  }

  audit-refuses :
      (m : GuardedEvent) (g : EgressGuard) (host : String)
      → g.mode ≡ strict
      → g.armed ≡ true
      → m.unguarded ≡ false
      → destination m.event ≡ some host
      → (allows net m.resolver g host).1 ≡ false
      → (audit net m g).1 ≡ true
  unfolding audit allows
  audit-refuses m g host s on guarded to h = ground arith

  -- Let an event of a guarded thread with a destination pass the armed guard of a strict runtime,
  -- after any events. Then the normalised destination is empty, `localhost`, a loopback or
  -- unspecified address, a name of the allowlist, or an address that a name of the allowlist had
  -- when the guard was armed or at the moment of one of the events.
  pub passed-IsInside :
      (hosts : List String) (r : Resolver) (ms : List GuardedEvent) (m : GuardedEvent)
      (host : String)
      → m.unguarded ≡ false
      → destination m.event ≡ some host
      → (audit net m (audit_all net ms (armed_guard hosts r))).1 ≡ false
      → IsInside
          (m.resolver ∷ resolvers_of ms (r ∷ []))
          (normal_names net hosts)
          (normalise_host net host)
  unfolding audit
  passed-IsInside hosts r ms m host guarded to passes =
      let g = audit_all net ms (armed_guard hosts r) in
      let w =
        audit_all-Watches (r ∷ []) (normal_names net hosts) ms (armed_guard hosts r)
          (armed-Watches hosts r) in
      elim (Bool-cases (allows net m.resolver g host).1) [
        | inl e ↦
            allows-IsInside (resolvers_of ms (r ∷ [])) (normal_names net hosts) m.resolver g host w
              e
        | inr e ↦ absurd (cc (passes, audit-refuses m g host w.in_strict w.on guarded to e))
      ]
