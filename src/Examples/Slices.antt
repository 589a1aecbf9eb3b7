-- ===== src/Examples/Slices.antt =====
-- Slices of a knowledge graph.
use ski_framework.Value.Case.{lower, strip}
use ski_framework.Prelude.{
  arith, ℕ, ◌≤◌, String, ◌≡◌, refl, Bool, true, false, Option, none, some, List, [], ◌∷◌, one_of,
}
use ski_framework.Value.{str, arr, nil, cons, Fields, field, end, get, find}
use ski_framework.Scope.{
  Moment, aware, KnowledgeGraph, Scope, Snapshot, parse_iso_date, jurisdiction_applies,
  subject_applies, is_kept_rule, scope_to, rule_is_in_scope, any_matches, kept, normalise,
}
use ski_framework.Scope.Kept.{IsComparable, IsSlice, scope_to-IsSlice}
use ski_framework.Examples.Data.{limit}

-- A calendar with one date.
abbrev calendar : String → Option Moment
calendar s = some (aware 500)

abbrev keep_case : String → String
keep_case s = s

abbrev regional : Fields
regional =
    field "effective_date" (str "2026-01-01")
      (field "jurisdiction" (arr (cons (str "EU") nil)) limit)

abbrev elsewhere : Fields
elsewhere = field "jurisdiction" (str "us") limit

abbrev graph : KnowledgeGraph
graph = record {
  version = "1";
  rules = elsewhere ∷ regional ∷ [];
  definitions = none;
  metadata = end;
}

abbrev scope : Scope
scope = record { jurisdiction = some " EU "; as_of = 1000; subject = some "stack-1" }

abbrev slice : Snapshot
slice = record {
  version = "1";
  obligations = regional ∷ [];
  definitions = arr nil;
  scope = scope;
  n_in = 2;
  n_out = 1;
}

graph-slice : scope_to calendar keep_case graph scope ≡ some slice
unfolding scope_to ski_framework.Scope.kept is_kept_rule rule_is_in_scope parse_iso_date get
    jurisdiction_applies ski_framework.Prelude.one_of ski_framework.Scope.normalise
    ski_framework.Value.Case.lower ski_framework.Value.Case.strip ski_framework.Scope.any_matches
    subject_applies
graph-slice = refl

scope_to-IsSlice_example : IsSlice calendar keep_case graph scope slice
scope_to-IsSlice_example = scope_to-IsSlice calendar keep_case graph scope slice graph-slice

regional-kept : is_kept_rule calendar keep_case scope regional ≡ some true
unfolding is_kept_rule rule_is_in_scope parse_iso_date get jurisdiction_applies
    ski_framework.Scope.any_matches ski_framework.Prelude.one_of ski_framework.Scope.normalise
    ski_framework.Value.Case.lower ski_framework.Value.Case.strip subject_applies
regional-kept = refl

elsewhere-IsComparable : IsComparable calendar keep_case elsewhere
unfolding parse_iso_date get find
elsewhere-IsComparable = ((λ e. cc e), (λ e. cc e), (λ subjects e. cc e))

regional-IsComparable : IsComparable calendar keep_case regional
unfolding parse_iso_date get find
regional-IsComparable = ((λ e. cc e), (λ e. cc e), (λ subjects e. cc e))
