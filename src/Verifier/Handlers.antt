-- ===== src/Verifier/Handlers.antt =====
-- The stateless predicate handlers of v3/verifier.py.
--
-- An outcome is the field `mechanically_satisfied` of `_CheckOutcome`: `none` where the verifier
-- cannot evaluate the predicate. Its `reason`, a text, is left out.
use ski_framework.Prelude.{
  Bool, true, false, not, ◌&&◌, ◌||◌, Option, none, some, List, [], any, is_empty, if◌then◌else◌,
}
use ski_framework.Value.{
  Value, int, float, arr, bool, finite, infinity, not_a_number, nil, cons, elements, eq_value,
  contains, is_bool,
}
use ski_framework.Value.Numeric.{Frac, of_int, of_dyadic, le_frac, lt_frac}
use mathlib.Core.Bool.{xor}

abbrev pub Outcome : Type 0
Outcome = Option Bool

-- `_is_real`, with the number: an int of any size or a finite float, and no bool.
unfoldable pub real : Value → Option Frac
real (int n) = some (of_int n)
real (float (finite m e)) = some (of_dyadic m e)
real _ = none

-- `_non_numeric`: no outcome unless both operands are real numbers.
unfoldable pub compare_real : (Frac → Frac → Bool) → Option Frac → Option Frac → Outcome
compare_real test (some a) (some b) = some (test a b)
compare_real test (some a) none = none
compare_real test none b = none

unfoldable pub check_must_not_exceed : Value → Value → Outcome
check_must_not_exceed observed value = compare_real le_frac (real observed) (real value)

unfoldable pub check_must_be_at_least : Value → Value → Outcome
check_must_be_at_least observed value =
    compare_real (λ a b. le_frac b a) (real observed) (real value)

unfoldable pub check_must_be_below : Value → Value → Outcome
check_must_be_below observed value = compare_real lt_frac (real observed) (real value)

unfoldable pub check_must_be_above : Value → Value → Outcome
check_must_be_above observed value = compare_real (λ a b. lt_frac b a) (real observed) (real value)

abbrev pub both : Option Frac → Option Frac → Option (Frac × Frac)
both (some lo) (some hi) = some (lo, hi)
both (some lo) none = none
both none hi = none

-- `value=[lo, hi]` of two real numbers
unfoldable pub bounds : Value → Option (Frac × Frac)
unfolding real
bounds (arr (cons lo (cons hi nil))) = both (real lo) (real hi)
bounds _ = none

abbrev pub within : Option Frac → Option (Frac × Frac) → Outcome
within (some a) (some (lo, hi)) = some (le_frac lo a && le_frac a hi)
within (some a) none = none
within none b = none

unfoldable pub check_must_be_within : Value → Value → Outcome
check_must_be_within observed value = within (real observed) (bounds value)

abbrev is_number : Value → Bool
is_number (bool b) = true
is_number (int n) = true
is_number (float x) = true
is_number _ = false

abbrev is_non_finite : Value → Bool
is_non_finite (float (infinity up)) = true
is_non_finite (float not_a_number) = true
is_non_finite _ = false

-- Equality would be decided by a bool taken for a number, or by a non-finite float.
unfoldable pub ambiguous_equality : Value → Value → Bool
ambiguous_equality a b =
    is_non_finite a
    || is_non_finite b
    || (is_number a && is_number b && xor (is_bool a) (is_bool b))

unfoldable pub check_must_equal : Value → Value → Outcome
check_must_equal observed value =
    if ambiguous_equality observed value then none else some (eq_value observed value)

unfoldable pub check_must_not_equal : Value → Value → Outcome
check_must_not_equal observed value =
    if ambiguous_equality observed value then none else some (not (eq_value observed value))

abbrev pub members : Value → List Value
members (arr vs) = elements vs
members _ = []

unfoldable pub check_must_be_one_of : Value → Value → Outcome
check_must_be_one_of observed value =
    if is_empty (members value) || any (ambiguous_equality observed) (members value)
    then none
    else some (contains observed (members value))

unfoldable pub check_must_not_be_one_of : Value → Value → Outcome
check_must_not_be_one_of observed value =
    if is_empty (members value) || any (ambiguous_equality observed) (members value)
    then none
    else some (not (contains observed (members value)))
