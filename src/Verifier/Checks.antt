-- ===== src/Verifier/Checks.antt =====
-- The handlers of v3/verifier.py: what they refuse to decide, and what they decide.
use mathlib.Core.Option
use ski_framework.Prelude.{
  String, ◌≡◌, refl, inl, inr, Bool, true, not, Option, none, some, List, [], ◌∷◌, arith, All,
  one_of, lookup, lookup-All, ◌&&◌, Option-cases,
}
use ski_framework.Value.{
  Value, null, bool, int, float, str, arr, obj, finite, infinity, not_a_number, nil, cons,
}
use ski_framework.Value.Numeric.{Frac, le_frac, lt_frac}
use ski_framework.Value.Numeric.Order.{lt_frac-eq-not}
use ski_framework.Schema.{Assertion}
use ski_framework.Verifier.Handlers.{
  Outcome, real, compare_real, bounds, both, within, check_must_not_exceed, check_must_be_at_least,
  check_must_be_below, check_must_be_above, check_must_be_within, check_must_be_one_of,
  check_must_not_be_one_of, check_must_equal, check_must_not_equal,
}
use ski_framework.Verifier.Predicates.{predicate_handlers, check_assertion}

-- A bool, a NaN or an infinity: Python compares each with a number, and none is a reading.
abbrev pub IsNoReading : Value → Type 0
IsNoReading (bool b) = Unit
IsNoReading (float (infinity up)) = Unit
IsNoReading (float not_a_number) = Unit
IsNoReading _ = ⊥

-- the predicates that compare numbers
abbrev pub real_predicates : List String
real_predicates =
    "must_not_exceed" ∷ "must_be_at_least" ∷ "must_be_below" ∷ "must_be_above" ∷ "must_be_within"
    ∷ []

real-none : (v : Value) → IsNoReading v → real v ≡ none
unfolding real
real-none (bool b) h = refl
real-none (float (infinity up)) h = refl
real-none (float not_a_number) h = refl
real-none null h = absurd h
real-none (int n) h = absurd h
real-none (float (finite m e)) h = absurd h
real-none (str s) h = absurd h
real-none (arr vs) h = absurd h
real-none (obj d) h = absurd h

module _ (test : Frac → Frac → Bool) (o v : Value) (n : IsNoReading o) where
  compare_real-none : compare_real test (real o) (real v) ≡ none
  compare_real-none = rw (real-none o n) (unfold compare_real in refl)

-- What is shown of each handler of the table.
abbrev Refuses : String → (Value → Value → Outcome) → Type 0
Refuses p handler =
    one_of p real_predicates ≡ true → (o v : Value) → IsNoReading o → handler o v ≡ none

handlers_refuse : All (λ e. Refuses e.0 e.1) predicate_handlers
unfolding one_of check_must_not_exceed check_must_be_at_least check_must_be_below
    check_must_be_above check_must_be_within
handlers_refuse = (
  (λ h o v n. compare_real-none _ o v n),
  (
    (λ h o v n. compare_real-none _ o v n),
    (
      (λ h o v n. compare_real-none _ o v n),
      (
        (λ h o v n. compare_real-none _ o v n),
        ((λ h o v n. rw (real-none o n)), ((λ h. cc), ((λ h. cc), ((λ h. cc), ((λ h. cc), tt))))),
      ),
    ),
  ),
)

-- An assertion of a predicate that compares numbers is undecided if what it observes is a bool, a
-- NaN or an infinity.
pub no_reading_undecided :
    (a : Assertion)
    → one_of a.predicate real_predicates ≡ true
    → IsNoReading a.observed
    → check_assertion a ≡ none
unfolding check_assertion
no_reading_undecided a h n = elim (Option-cases (lookup a.predicate predicate_handlers)) [
  | inl e ↦ rw (e, check_assertion)
  | inr (handler, e) ↦
      rw (e, check_assertion)
        (lookup-All Refuses predicate_handlers handlers_refuse a.predicate handler e h a.observed
          a.value n)
]

compare_real-complement :
    (x y : Option Frac)
    → compare_real lt_frac x y ≡ Option.map not (compare_real (λ a b. le_frac b a) x y)
unfolding compare_real
compare_real-complement (some a) (some b) = rw lt_frac-eq-not
compare_real-complement (some a) none = refl
compare_real-complement none y = refl

compare_real-complement_flip :
    (x y : Option Frac)
    → compare_real (λ a b. lt_frac b a) x y ≡ Option.map not (compare_real le_frac x y)
unfolding compare_real
compare_real-complement_flip (some a) (some b) = rw lt_frac-eq-not
compare_real-complement_flip (some a) none = refl
compare_real-complement_flip none y = refl

-- Each of the predicates must_be_below, must_be_above, must_not_equal and must_not_be_one_of is
-- decided exactly where its opposite is, and the other way round.
pub opposites :
    (o v : Value)
    → (check_must_be_below o v ≡ Option.map not (check_must_be_at_least o v))
      × (check_must_be_above o v ≡ Option.map not (check_must_not_exceed o v))
      × (check_must_not_equal o v ≡ Option.map not (check_must_equal o v))
      × (check_must_not_be_one_of o v ≡ Option.map not (check_must_be_one_of o v))
unfolding check_must_be_below check_must_be_at_least check_must_be_above check_must_not_exceed
    check_must_equal check_must_not_equal check_must_be_one_of check_must_not_be_one_of
opposites o v = (
  compare_real-complement (real o) (real v),
  compare_real-complement_flip (real o) (real v),
  ground arith,
  ground arith,
)

abbrev pub meet : Outcome → Outcome → Outcome
meet (some a) (some b) = some (a && b)
meet (some a) none = none
meet none b = none

within-meet :
    (x lo hi : Option Frac)
    → within x (both lo hi)
      ≡ meet (compare_real (λ a b. le_frac b a) x lo) (compare_real le_frac x hi)
unfolding compare_real
within-meet (some a) (some lo) (some hi) = refl
within-meet (some a) (some lo) none = refl
within-meet (some a) none hi = refl
within-meet none lo hi = refl

-- must_be_within a list of two bounds is the conjunction of must_be_at_least the first and
-- must_not_exceed the second, undecided where one of them is.
pub within_bounds :
    (o lo hi : Value)
    → check_must_be_within o (arr (cons lo (cons hi nil)))
      ≡ meet (check_must_be_at_least o lo) (check_must_not_exceed o hi)
unfolding check_must_be_within check_must_be_at_least check_must_not_exceed bounds
within_bounds o lo hi = within-meet (real o) (real lo) (real hi)
