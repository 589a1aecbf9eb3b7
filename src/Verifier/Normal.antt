-- ===== src/Verifier/Normal.antt =====
-- `normalize_satisfied` of v3/verifier.py: it changes nothing but `satisfied`, and once is enough.
use ski_framework.Prelude.{
  String, ◌≡◌, refl, Bool, true, false, Option, none, some, List, [], ◌∷◌, arith, All,
}
use ski_framework.Value.{Fields}
use ski_framework.Schema.{Assertion}
use ski_framework.Verifier.Predicates.{check_assertion}
use ski_framework.Verifier.Grounding.{violation}
use ski_framework.Verifier.Verify.{normalize_assertion, normalize_satisfied}

-- an assertion with its truth value blanked
abbrev pub claim : Assertion → Assertion
claim a = record a { satisfied = false }

abbrev pub claims : List Assertion → List Assertion
claims [] = []
claims (a ∷ rest) = claim a ∷ claims rest

module _ (m : Option Fields) (obs : Option (List (String × Fields))) where
  -- neither the grounding nor the check reads `satisfied`
  violation-satisfied :
      (a : Assertion) (b : Bool) → violation (record a { satisfied = b }) m obs ≡ violation a m obs
  unfolding violation
  violation-satisfied a b = refl

  check-satisfied :
      (a : Assertion) (b : Bool) → check_assertion (record a { satisfied = b }) ≡ check_assertion a
  unfolding check_assertion
  check-satisfied a b = refl

  normalize_assertion-claim : (a : Assertion) → claim (normalize_assertion m obs a).0 ≡ claim a
  unfolding normalize_assertion
  normalize_assertion-claim a = ground arith

  violation-normalize :
      (a : Assertion) → violation (normalize_assertion m obs a).0 m obs ≡ violation a m obs
  unfolding normalize_assertion
  violation-normalize a = ground (arith, violation-satisfied a true, violation-satisfied a false)

  check-normalize :
      (a : Assertion) → check_assertion (normalize_assertion m obs a).0 ≡ check_assertion a
  unfolding normalize_assertion
  check-normalize a = ground (arith, check-satisfied a true, check-satisfied a false)

  normalize_assertion_idem :
      (a : Assertion)
      → normalize_assertion m obs (normalize_assertion m obs a).0
        ≡ ((normalize_assertion m obs a).0, [])
  unfolding normalize_assertion
  normalize_assertion_idem a = ground (arith, violation-normalize a, check-normalize a)

  -- Grounded and decided, the assertion says what the check says.
  abbrev pub IsSettled : Assertion → Type 0
  IsSettled a = violation a m obs ≡ none → (b : Bool) → check_assertion a ≡ some b → a.satisfied ≡ b

  normalize_assertion-IsSettled : (a : Assertion) → IsSettled (normalize_assertion m obs a).0
  normalize_assertion-IsSettled a g b e =
      settled a (violation-normalize a) (check-normalize a) g b e
    where
      settled :
          (a : Assertion)
          → violation (normalize_assertion m obs a).0 m obs ≡ violation a m obs
          → check_assertion (normalize_assertion m obs a).0 ≡ check_assertion a
          → IsSettled (normalize_assertion m obs a).0
      settled a v c g b e = unfold normalize_assertion in ground arith

  -- The normalisation of the assertions changes nothing but `satisfied`, which afterwards is what
  -- the check says wherever the assertion is grounded and the check decides, and a second pass
  -- changes nothing and notes nothing.
  pub normalize_satisfied_lem :
      (assertions : List Assertion)
      → (claims (normalize_satisfied m obs assertions).0 ≡ claims assertions)
        × All IsSettled (normalize_satisfied m obs assertions).0
        × (normalize_satisfied m obs (normalize_satisfied m obs assertions).0
            ≡ ((normalize_satisfied m obs assertions).0, []))
  unfolding normalize_satisfied
  normalize_satisfied_lem [] = (refl, tt, refl)
  normalize_satisfied_lem (a ∷ rest) =
      let (same, settled, again) = normalize_satisfied_lem rest in
      (
        cc (normalize_assertion-claim a, same),
        (normalize_assertion-IsSettled a, settled),
        rw (normalize_assertion_idem a, again),
      )
