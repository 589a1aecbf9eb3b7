-- ===== src/Verifier/Breach.antt =====
-- `_Tally` and the loops of v3/verifier.py: a breach that the verifier itself establishes is
-- never masked.
use ski_framework.Prelude.{
  ◌≤◌, ◌<◌, String, ◌≡◌, refl, ◌⊎◌, inl, inr, Bool, true, false, Option, some, List, [], ◌∷◌, arith,
  In, In-append_left, In-append_right, one_of, is_empty, Bool-cases,
}
use ski_framework.Value.{Fields}
use ski_framework.Schema.{Assertion, Divergence}
use ski_framework.Verifier.Handlers.{Outcome}
use ski_framework.Verifier.Enumerate.{Candidate, has_unit_mismatch, obligation_probe}
use ski_framework.Verifier.Tally.{
  Tally, precheck, record_assertion, record_obligation, refuse, is_unflagged,
}
use ski_framework.Verifier.Verify.{
  tally_assertion, tally_assertions, tally_obligation, tally_obligations,
}

-- The verifier evaluates the candidate, and as breached.
abbrev pub Breaches : (Assertion → Outcome) → Candidate → Type 0
Breaches check c = (has_unit_mismatch c ≡ false) × (check (obligation_probe c) ≡ some false)

-- Every breach that was reported, and under a verdict that denies one every breach that was
-- found, stands behind a contradiction.
pub record IsSound (t : Tally) : Type 0 where
  pub reported : (is_empty t.breach_reported ≡ true) ⊎ (0 < t.contradictions)
  pub found :
      is_unflagged t.llm_verdict ≡ true → (is_empty t.breached ≡ true) ⊎ (0 < t.contradictions)

-- What a turn of either loop keeps.
pub record Keeps (t u : Tally) : Type 0 where
  pub sound : IsSound t → IsSound u
  pub breached : (k : String) → In k t.breached → In k u.breached
  pub grows : t.contradictions ≤ u.contradictions
  pub verdict : u.llm_verdict ≡ t.llm_verdict

Keeps-refl : (t : Tally) → Keeps t t
Keeps-refl t = record { sound = λ h. h; breached = λ k h. h; grows = omega arith; verdict = refl }

pub Keeps-trans : {t u v : Tally} → Keeps t u → Keeps u v → Keeps t v
Keeps-trans p q = record {
  sound = λ h. q.sound (p.sound h);
  breached = λ k h. q.breached k (p.breached k h);
  grows = omega (arith, p.grows, q.grows);
  verdict = cc (p.verdict, q.verdict);
}

one_of-empty : (id : String) (names : List String) → is_empty names ≡ true → one_of id names ≡ false
unfolding one_of
one_of-empty id [] h = refl
one_of-empty id (j ∷ names) h = cc

record_assertion-Keeps :
    (a : Assertion) (o : Outcome) (t : Tally) → Keeps t (record_assertion a o t)
unfolding record_assertion
record_assertion-Keeps a o t = record {
  sound = λ h. ground arith;
  breached = λ k h. ground arith;
  grows = ground arith;
  verdict = ground arith;
}

precheck-Keeps :
    (a : Assertion) (m : Option Fields) (obs : Option (List (String × Fields))) (t : Tally)
    → Keeps t (precheck a m obs t).0
unfolding precheck
precheck-Keeps a m obs t = record {
  sound = λ h. ground arith;
  breached = λ k h. ground arith;
  grows = ground arith;
  verdict = ground arith;
}

refuse-Keeps : (d : Divergence) (t : Tally) → Keeps t (refuse d t)
unfolding refuse
refuse-Keeps d t = record {
  sound = λ h. ground arith;
  breached = λ k h. h;
  grows = omega arith;
  verdict = refl;
}

module _ (id : String) (o : Outcome) (asserted : Bool) (t : Tally) where
  record_obligation-Keeps : Keeps t (record_obligation id o asserted t)
  unfolding record_obligation
  record_obligation-Keeps = record {
    sound = λ h. ground (arith, one_of-empty id t.breach_reported);
    breached = λ k h. ground (arith, In-append_left k t.breached (id ∷ []));
    grows = ground arith;
    verdict = ground arith;
  }

  record_obligation-finds : o ≡ some false → In id (record_obligation id o asserted t).breached
  unfolding record_obligation
  record_obligation-finds h = ground (arith, In-append_right id t.breached (id ∷ []) (inl refl))

  record_obligation-omitted :
      o ≡ some false → asserted ≡ false → 0 < (record_obligation id o asserted t).contradictions
  unfolding record_obligation
  record_obligation-omitted h k = ground arith

module _ (check : Assertion → Outcome) (m : Option Fields)
    (obs : Option (List (String × Fields))) where
  pub tally_assertion-Keeps :
      (a : Assertion) (t : Tally) → Keeps t (tally_assertion check m obs a t)
  unfolding tally_assertion
  tally_assertion-Keeps a t = elim (Bool-cases (precheck a m obs t).1) [
    | inl settled ↦ rw settled (precheck-Keeps a m obs t)
    | inr open_still ↦ rw open_still (
        Keeps-trans (precheck-Keeps a m obs t)
          (record_assertion-Keeps a (check a) (precheck a m obs t).0))
  ]

  pub tally_assertions-Keeps :
      (assertions : List Assertion) (t : Tally)
      → Keeps t (tally_assertions check m obs assertions t)
  unfolding tally_assertions
  tally_assertions-Keeps [] t = Keeps-refl t
  tally_assertions-Keeps (a ∷ rest) t =
      Keeps-trans (tally_assertion-Keeps a t)
        (tally_assertions-Keeps rest (tally_assertion check m obs a t))

module _ (check : Assertion → Outcome) (asserted : List String) where
  pub tally_obligation-Keeps :
      (c : Candidate) (t : Tally) → Keeps t (tally_obligation check asserted c t)
  unfolding tally_obligation
  tally_obligation-Keeps c t = elim (Bool-cases (has_unit_mismatch c)) [
    | inl e ↦ rw e (refuse-Keeps _ t)
    | inr e ↦ rw e (record_obligation-Keeps _ _ _ t)
  ]

  pub tally_obligations-Keeps :
      (cs : List Candidate) (t : Tally) → Keeps t (tally_obligations check asserted cs t)
  unfolding tally_obligations
  tally_obligations-Keeps [] t = Keeps-refl t
  tally_obligations-Keeps (c ∷ rest) t =
      Keeps-trans (tally_obligation-Keeps c t)
        (tally_obligations-Keeps rest (tally_obligation check asserted c t))

  tally_obligation-finds :
      (c : Candidate) (t : Tally)
      → Breaches check c
      → In c.id (tally_obligation check asserted c t).breached
  unfolding tally_obligation
  tally_obligation-finds c t h = rw h.0 (record_obligation-finds c.id _ _ t h.1)

  tally_obligation-omitted :
      (c : Candidate) (t : Tally)
      → Breaches check c
      → one_of c.id asserted ≡ false
      → 0 < (tally_obligation check asserted c t).contradictions
  unfolding tally_obligation
  tally_obligation-omitted c t h k = rw h.0 (record_obligation-omitted c.id _ _ t h.1 k)

  pub tally_obligations-finds :
      (c : Candidate) (cs : List Candidate) (t : Tally)
      → In c cs
      → Breaches check c
      → In c.id (tally_obligations check asserted cs t).breached
  unfolding tally_obligations
  tally_obligations-finds c [] t m h = absurd m
  tally_obligations-finds c (x ∷ rest) t (inl e) h =
      (tally_obligations-Keeps rest (tally_obligation check asserted x t)).breached c.id
        (rw e (tally_obligation-finds x t (rw e at h)))
  tally_obligations-finds c (x ∷ rest) t (inr m) h =
      tally_obligations-finds c rest (tally_obligation check asserted x t) m h

  pub tally_obligations-omitted :
      (c : Candidate) (cs : List Candidate) (t : Tally)
      → In c cs
      → Breaches check c
      → one_of c.id asserted ≡ false
      → 0 < (tally_obligations check asserted cs t).contradictions
  unfolding tally_obligations
  tally_obligations-omitted c [] t m h k = absurd m
  tally_obligations-omitted c (x ∷ rest) t (inl e) h k = omega (
    arith,
    (tally_obligations-Keeps rest (tally_obligation check asserted x t)).grows,
    tally_obligation-omitted x t (rw e at h) (rw e at k),
  )
  tally_obligations-omitted c (x ∷ rest) t (inr m) h k =
      tally_obligations-omitted c rest (tally_obligation check asserted x t) m h k
