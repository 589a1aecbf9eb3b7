-- ===== src/Verifier/Predicates.antt =====
-- The predicates that v3/verifier.py knows, and the per-assertion check that dispatches on them.
use ski_framework.Prelude.{
  String, Bool, ◌||◌, Option, none, some, List, [], ◌∷◌, lookup, one_of, is_some,
}
use ski_framework.Value.{Value}
use ski_framework.Schema.{Assertion}
use ski_framework.Verifier.Handlers.{
  Outcome, check_must_not_exceed, check_must_be_at_least, check_must_be_below, check_must_be_above,
  check_must_be_within, check_must_be_one_of, check_must_not_be_one_of, check_must_equal,
  check_must_not_equal,
}
use ski_framework.Verifier.Window.{
  Context, check_must_average_within, check_must_not_exceed_in_window,
}

-- `_PREDICATE_HANDLERS`
abbrev pub predicate_handlers : List (String × (Value → Value → Outcome))
predicate_handlers =
    ("must_not_exceed", check_must_not_exceed)
    ∷ ("must_be_at_least", check_must_be_at_least)
    ∷ ("must_be_below", check_must_be_below)
    ∷ ("must_be_above", check_must_be_above)
    ∷ ("must_be_within", check_must_be_within)
    ∷ ("must_be_one_of", check_must_be_one_of)
    ∷ ("must_not_be_one_of", check_must_not_be_one_of)
    ∷ ("must_equal", check_must_equal)
    ∷ ("must_not_equal", check_must_not_equal)
    ∷ []

-- `_STATEFUL_HANDLERS`
abbrev pub stateful_handlers : List (String × (Context → Assertion → Outcome))
stateful_handlers =
    ("must_average_within", check_must_average_within)
    ∷ ("must_not_exceed_in_window", check_must_not_exceed_in_window)
    ∷ []

-- `_SPEC_OBLIGATION_TYPES`
abbrev pub spec_obligation_types : List String
spec_obligation_types =
    "must" ∷ "must_not" ∷ "must_not_exceed" ∷ "must_be_at_least" ∷ "must_be_below" ∷ "must_be_above"
    ∷ "must_be_within" ∷ "must_be_one_of" ∷ "must_not_be_one_of" ∷ "must_be_recorded_within"
    ∷ "should" ∷ "discretionary" ∷ []

-- membership in `_FORMALIZABLE_PREDICATES`
unfoldable pub is_formalizable : String → Bool
is_formalizable p = is_some (lookup p predicate_handlers) || is_some (lookup p stateful_handlers)

-- membership in `KNOWN_PREDICATES`
unfoldable pub is_known : String → Bool
unfolding is_formalizable
is_known p = one_of p spec_obligation_types || is_formalizable p

abbrev run_stateful : Option (Context → Assertion → Outcome) → Context → Assertion → Outcome
run_stateful none c a = none
run_stateful (some handler) c a = handler c a

-- `SymbolicVerifier.check_assertion`
unfoldable pub check_assertion : Assertion → Outcome
check_assertion a = elim (lookup a.predicate predicate_handlers) [
  | some handler ↦ handler a.observed a.value
  | none ↦ none
]

-- `SymbolicVerifier.acheck_assertion`
unfoldable pub acheck_assertion : Context → Assertion → Outcome
acheck_assertion c a = elim (lookup a.predicate predicate_handlers) [
  | some handler ↦ handler a.observed a.value
  | none ↦ run_stateful (lookup a.predicate stateful_handlers) c a
]
