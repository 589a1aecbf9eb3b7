-- ===== src/Scope/Kept.antt =====
-- `scope_to` of kg_loader.py keeps exactly the rules that are in scope.
use mathlib.Core.Path.{subst}
use ski_framework.Prelude.{
  ◌≢◌, All, Option-cases, Bool-cases, none, ltb, ◌≤◌, ◌↔◌, String, ◌≡◌, refl, inl, inr, Bool, true,
  false, Option, some, List, [], ◌∷◌, arith, In, length, bind_some, some-injective, if◌then◌else◌,
}
use ski_framework.Value.{Value, contains, str, elements, arr, Items, Fields, get, find}
use ski_framework.Verifier.Window.{Time}
use ski_framework.Scope.Applies.{IsInScope, is_kept_rule_iff}
use ski_framework.Scope.{
  Moment, aware, naive, after, before, definitions_of, KnowledgeGraph, Scope, Snapshot,
  parse_iso_date, jurisdiction_applies, rule_is_in_scope, subject_applies, is_kept_rule, kept,
  scope_to,
}

after_total : (m : Option Moment) (t : Time) → m ≢ some naive → (b : Bool) × (after m t ≡ some b)
after_total none t h = (false, refl)
after_total (some (aware u)) t h = (ltb t u, refl)
after_total (some naive) t h = absurd (h refl)

before_total : (m : Option Moment) (t : Time) → m ≢ some naive → (b : Bool) × (before m t ≡ some b)
before_total none t h = (false, refl)
before_total (some (aware u)) t h = (ltb u t, refl)
before_total (some naive) t h = absurd (h refl)

module _ (from_iso : String → Option Moment) (lower_other : String → String) where
  -- The rule is one of the list, and the condition holds of it.
  abbrev pub IsKept : Scope → List Fields → Fields → Type 0
  IsKept scope rules rule =
      In rule rules × (is_kept_rule from_iso lower_other scope rule ≡ some true)

  abbrev IsExact : Scope → List Fields → List Fields → Type 0
  IsExact scope rules obligations =
      (length obligations ≤ length rules)
      × ((rule : Fields) → In rule obligations → IsKept scope rules rule)
      × ((rule : Fields) → IsKept scope rules rule → In rule obligations)

  keep_one :
      (scope : Scope) (first : Fields) (rules obligations : List Fields) (keep : Bool)
      → is_kept_rule from_iso lower_other scope first ≡ some keep
      → IsExact scope rules obligations
      → IsExact scope (first ∷ rules) (if keep then first ∷ obligations else obligations)
  keep_one scope first rules obligations keep e (short, sound, complete) =
      (ground (arith, short), sound' keep e, complete' keep e)
    where
      sound' :
          (keep : Bool)
          → is_kept_rule from_iso lower_other scope first ≡ some keep
          → (rule : Fields) → In rule (if keep then first ∷ obligations else obligations)
          → IsKept scope (first ∷ rules) rule
      sound' true e rule (inl same) = (inl same, rw same e)
      sound' true e rule (inr m) = let (there, ok) = sound rule m in (inr there, ok)
      sound' false e rule m = let (there, ok) = sound rule m in (inr there, ok)

      complete' :
          (keep : Bool)
          → is_kept_rule from_iso lower_other scope first ≡ some keep
          → (rule : Fields) → IsKept scope (first ∷ rules) rule
          → In rule (if keep then first ∷ obligations else obligations)
      complete' true e rule (inl same, ok) = inl same
      complete' true e rule (inr m, ok) = inr (complete rule (m, ok))
      complete' false e rule (inl same, ok) = absurd (cc (rw same at ok, e))
      complete' false e rule (inr m, ok) = complete rule (m, ok)

  kept-IsExact :
      (scope : Scope) (rules obligations : List Fields)
      → kept from_iso lower_other scope rules ≡ some obligations
      → IsExact scope rules obligations
  unfolding kept
  kept-IsExact scope [] obligations e =
      let none_kept : [] ≡ obligations = cc e in
      subst (IsExact scope []) none_kept (omega arith, (λ rule m. absurd m), (λ rule h. absurd h.0))
  kept-IsExact scope (first ∷ rules) obligations e =
      let (keep, decided, e') =
        bind_some (is_kept_rule from_iso lower_other scope first) _ obligations e in
      let (rest, rest_kept, e'') =
        bind_some (kept from_iso lower_other scope rules) _ obligations e' in
      let built : (if keep then first ∷ rest else rest) ≡ obligations = cc e'' in
      subst (IsExact scope (first ∷ rules)) built
        (keep_one scope first rules rest keep decided (kept-IsExact scope rules rest rest_kept))

  -- The snapshot has the rules of the graph that are in scope, and counts them.
  abbrev pub IsSlice : KnowledgeGraph → Scope → Snapshot → Type 0
  IsSlice kg scope snapshot =
      (snapshot.n_in ≡ length kg.rules)
      × (snapshot.n_out ≡ length snapshot.obligations)
      × (length snapshot.obligations ≤ length kg.rules)
      × ((rule : Fields)
          → In rule snapshot.obligations
            ↔ (In rule kg.rules × IsInScope from_iso lower_other scope rule))

  -- If scoping a graph gives a snapshot, its obligations are exactly the rules of the graph that
  -- are in scope: the effective date and the sunset date, where they can be read, have an offset
  -- and are not after and not before the time of the scope; no jurisdiction is asked for, the rule
  -- names none, or its text or a text of its list is universal or the one that is asked for, up to
  -- case and blanks; and no subject is asked for, the rule names none, or it has this one. The
  -- snapshot counts both, and has no more obligations than the graph has rules.
  pub scope_to-IsSlice :
      (kg : KnowledgeGraph) (scope : Scope) (snapshot : Snapshot)
      → scope_to from_iso lower_other kg scope ≡ some snapshot
      → IsSlice kg scope snapshot
  unfolding scope_to
  scope_to-IsSlice kg scope snapshot e =
      let (obligations, found, e') =
        bind_some (kept from_iso lower_other scope kg.rules) _ snapshot e in
      let (short, sound, complete) = kept-IsExact scope kg.rules obligations found in
      let meets = is_kept_rule_iff from_iso lower_other scope in
      subst (IsSlice kg scope) (some-injective e') (
        refl,
        refl,
        short,
        λ rule. (
          λ m. let (there, kept_one) = sound rule m in (there, (meets rule).0 kept_one),
          λ (there, in_scope). complete rule (there, (meets rule).1 in_scope),
        ),
      )

  -- The dates of the rule have an offset where they have a time, and its subjects are a list.
  abbrev pub IsComparable : Fields → Type 0
  IsComparable rule =
      (parse_iso_date from_iso lower_other (get "effective_date" rule) ≢ some naive)
      × (parse_iso_date from_iso lower_other (get "sunset_date" rule) ≢ some naive)
      × ((subjects : Value)
          → find "subjects" rule ≡ some subjects
          → (vs : Items) × (subjects ≡ arr vs))

  subject_total :
      (subject : Option String) (rule : Fields)
      → ((subjects : Value)
          → find "subjects" rule ≡ some subjects
          → (vs : Items) × (subjects ≡ arr vs))
      → (keep : Bool) × (subject_applies from_iso lower_other subject rule ≡ some keep)
  unfolding subject_applies
  subject_total none rule h = (true, refl)
  subject_total (some subject) rule h = elim (Option-cases (find "subjects" rule)) [
    | inl e ↦ (true, rw e refl)
    | inr (subjects, e) ↦
        let (vs, is_list) = h subjects e in
        (contains (str subject) (elements vs), rw (e, is_list) refl)
  ]

  is_kept_rule_total :
      (scope : Scope) (rule : Fields)
      → IsComparable rule
      → (keep : Bool) × (is_kept_rule from_iso lower_other scope rule ≡ some keep)
  unfolding is_kept_rule rule_is_in_scope subject_applies
  is_kept_rule_total scope rule (effective, sunset, listed) =
      let (pending, e) =
        after_total (parse_iso_date from_iso lower_other (get "effective_date" rule)) scope.as_of
          effective in
      let (ended, f) =
        before_total (parse_iso_date from_iso lower_other (get "sunset_date" rule)) scope.as_of
          sunset in
      let (applies, g) = subject_total scope.subject rule listed in
      let in_force =
        if ended
        then false
        else jurisdiction_applies from_iso lower_other scope.jurisdiction rule in
      elim (Bool-cases pending) [
        | inl late ↦ (false, rw (e, late) refl)
        | inr due ↦ (if in_force then applies else false, rw (e, due, f) (ground (arith, g)))
      ]

  kept_total :
      (scope : Scope) (rules : List Fields)
      → All IsComparable rules
      → (obligations : List Fields) × (kept from_iso lower_other scope rules ≡ some obligations)
  unfolding kept
  kept_total scope [] h = ([], refl)
  kept_total scope (rule ∷ rules) h =
      let (keep, e) = is_kept_rule_total scope rule h.0 in
      let (rest, f) = kept_total scope rules h.1 in
      (if keep then rule ∷ rest else rest, rw (e, f) refl)

  -- If every rule's effective and sunset dates have an offset where they can be read, and its
  -- subjects, where it has any, are a list, scoping the graph gives a snapshot.
  pub scope_to_total :
      (kg : KnowledgeGraph) (scope : Scope)
      → All IsComparable kg.rules
      → (snapshot : Snapshot) × (scope_to from_iso lower_other kg scope ≡ some snapshot)
  unfolding scope_to
  scope_to_total kg scope h =
      let (obligations, e) = kept_total scope kg.rules h in
      (
        record {
          version = kg.version;
          obligations = obligations;
          definitions = definitions_of from_iso lower_other kg.definitions kg.metadata;
          scope = scope;
          n_in = length kg.rules;
          n_out = length obligations;
        },
        rw e refl,
      )
