-- ===== src/Scope/Applies.antt =====
-- What it is for a rule to apply, said without the code: by its dates, its jurisdictions and its subjects.
use mathlib.Core.Path.{subst}
use ski_framework.Prelude.{
  ℕ, ◌≤◌, String, ◌≡◌, ◌≢◌, ◌↔◌, ◌⊎◌, inl, inr, refl, sym, ap, Bool, true, false, ◌||◌, Option,
  none, some, List, [], ◌∷◌, arith, In, is_some, one_of, ltb, str_eq, eq_iff, Bool-cases,
  Option-cases, some-injective,
}
use ski_framework.Graph.Texts.Members.{one_of-In}
use ski_framework.Value.{
  Value, null, bool, int, float, str, obj, arr, Items, cons, nil, Fields, find, get, elements,
  contains, eq_value,
}
use ski_framework.Verifier.Window.{Time}
use ski_framework.Scope.{
  Moment, aware, naive, after, before, Scope, universal_values, has_substring, parse_iso_date,
  normalise, matches, any_matches, applies_in, jurisdiction_applies, is_subject, subject_applies,
  rule_is_in_scope, is_kept_rule,
}

-- No moment, or one that is not after the time.
abbrev pub IsDue : Option Moment → Time → Type 0
IsDue m t = (m ≡ none) ⊎ ((u : Time) × (m ≡ some (aware u)) × (u ≤ t))

-- No moment, or one that is not before the time.
abbrev pub IsOpen : Option Moment → Time → Type 0
IsOpen m t = (m ≡ none) ⊎ ((u : Time) × (m ≡ some (aware u)) × (t ≤ u))

IsDue-after : (m : Option Moment) (t : Time) → (after m t ≡ some false) ↔ IsDue m t
IsDue-after none t = (λ h. inl refl, λ h. refl)
IsDue-after (some naive) t = (λ h. cc h, λ h. elim h [ inl e ↦ cc e | inr (u, e, l) ↦ cc e ])
IsDue-after (some (aware u)) t = (
  λ h. inr (u, refl, late u t (cc h)),
  λ h. elim h [
    | inl e ↦ cc e
    | inr (w, e, l) ↦ ap some (early u t (subst (λ (z : ℕ). z ≤ t) (cc e) l))
  ],
)
  where
    late : (u t : ℕ) → ltb t u ≡ false → u ≤ t
    late u t h = ground arith

    early : (u t : ℕ) → u ≤ t → ltb t u ≡ false
    early u t h = ground arith

IsOpen-before : (m : Option Moment) (t : Time) → (before m t ≡ some false) ↔ IsOpen m t
IsOpen-before none t = (λ h. inl refl, λ h. refl)
IsOpen-before (some naive) t = (λ h. cc h, λ h. elim h [ inl e ↦ cc e | inr (u, e, l) ↦ cc e ])
IsOpen-before (some (aware u)) t = (
  λ h. inr (u, refl, late u t (cc h)),
  λ h. elim h [
    | inl e ↦ cc e
    | inr (w, e, l) ↦ ap some (early u t (subst (λ (z : ℕ). t ≤ z) (cc e) l))
  ],
)
  where
    late : (u t : ℕ) → ltb u t ≡ false → t ≤ u
    late u t h = ground arith

    early : (u t : ℕ) → t ≤ u → ltb u t ≡ false
    early u t h = ground arith

-- A value that is no text is not the one that is looked for.
past :
    (s : String) (v : Value) (vs : List Value)
    → (str s ≢ v)
    → {b : Bool} → (b ≡ true) ↔ In (str s) vs
    → (b ≡ true) ↔ In (str s) (v ∷ vs)
past s v vs other rest =
    (λ h. inr (rest.0 h), λ m. elim m [ inl e ↦ absurd (other e) | inr n ↦ rest.1 n ])

contains-In : (s : String) (vs : List Value) → (contains (str s) vs ≡ true) ↔ In (str s) vs
unfolding contains eq_value
contains-In s [] = (λ h. cc h, λ m. absurd m)
contains-In s (str t ∷ vs) =
    let rest = contains-In s vs in
    elim (Bool-cases (str_eq s t)) [
      | inl e ↦ rw e (λ h. inl (ap str ((eq_iff s t).0 e)), λ h. refl)
      | inr e ↦ rw e (
        λ h. inr (rest.0 h),
        λ m. elim m [
          | inl same ↦ absurd (cc (e, (eq_iff s t).1 (text_injective same)))
          | inr n ↦ rest.1 n
        ],
      )
    ]
  where
    text_injective : {s t : String} → str s ≡ str t → s ≡ t
    text_injective e = cc e
contains-In s (null ∷ vs) = past s null vs (λ e. cc e) (contains-In s vs)
contains-In s (bool b ∷ vs) = past s (bool b) vs (λ e. cc e) (contains-In s vs)
contains-In s (int n ∷ vs) = past s (int n) vs (λ e. cc e) (contains-In s vs)
contains-In s (float x ∷ vs) = past s (float x) vs (λ e. cc e) (contains-In s vs)
contains-In s (obj d ∷ vs) = past s (obj d) vs (λ e. cc e) (contains-In s vs)
contains-In s (arr xs ∷ vs) = past s (arr xs) vs (λ e. cc e) (contains-In s vs)

-- The subjects of a rule have a subject: a list has it, an object has it as a key, or a text contains it.
abbrev pub HasSubject : String → Value → Type 0
HasSubject subject v =
    ((vs : Items) × (v ≡ arr vs) × In (str subject) (elements vs))
    ⊎ ((d : Fields) × (v ≡ obj d) × (is_some (find subject d) ≡ true))
    ⊎ ((t : String) × (v ≡ str t) × (has_substring subject t ≡ true))

-- No subject is asked for, the rule names none, or it has this one.
abbrev pub AppliesTo : Option String → Fields → Type 0
AppliesTo wanted rule =
    (wanted ≡ none)
    ⊎ (find "subjects" rule ≡ none)
    ⊎ ((subject : String) × (wanted ≡ some subject)
        × ((v : Value) × (find "subjects" rule ≡ some v) × HasSubject subject v))

module _ (from_iso : String → Option Moment) (lower_other : String → String) where
  -- Every jurisdiction, or the one that is asked for, in any spelling of its case and blanks.
  abbrev pub Matches : String → String → Type 0
  Matches j s =
      In (normalise from_iso lower_other s) universal_values
      ⊎ (normalise from_iso lower_other s ≡ normalise from_iso lower_other j)

  -- None is asked for, the rule names none, or its text or a text of its list matches.
  abbrev pub AppliesIn : Option String → Fields → Type 0
  AppliesIn wanted rule =
      (wanted ≡ none)
      ⊎ (get "jurisdiction" rule ≡ null)
      ⊎ ((j : String) × (wanted ≡ some j)
          × ((s : String) × ((get "jurisdiction" rule ≡ str s)
                ⊎ ((vs : Items) × (get "jurisdiction" rule ≡ arr vs) × In (str s) (elements vs)))
              × Matches j s))

  -- The rule is in force at the time, and applies in the jurisdiction and to the subject.
  abbrev pub IsInScope : Scope → Fields → Type 0
  IsInScope scope rule =
      IsDue (parse_iso_date from_iso lower_other (get "effective_date" rule)) scope.as_of
      × IsOpen (parse_iso_date from_iso lower_other (get "sunset_date" rule)) scope.as_of
      × AppliesIn scope.jurisdiction rule
      × AppliesTo scope.subject rule

  Matches-matches :
      (j s : String)
      → (matches from_iso lower_other (normalise from_iso lower_other j) s ≡ true) ↔ Matches j s
  Matches-matches j s =
      let universal = one_of-In (normalise from_iso lower_other s) universal_values in
      let same = eq_iff (normalise from_iso lower_other s) (normalise from_iso lower_other j) in
      let split =
        or-cases (one_of (normalise from_iso lower_other s) universal_values)
          (str_eq (normalise from_iso lower_other s) (normalise from_iso lower_other j)) in
      (
        λ h. elim (split.0 h) [ inl e ↦ inl (universal.0 e) | inr e ↦ inr (same.0 e) ],
        λ h. split.1 (elim h [ inl e ↦ inl (universal.1 e) | inr e ↦ inr (same.1 e) ]),
      )
    where
      or-cases : (a b : Bool) → (a || b ≡ true) ↔ ((a ≡ true) ⊎ (b ≡ true))
      or-cases a b = ground arith

  -- A text of the list matches.
  abbrev SomeMatches : String → Items → Type 0
  SomeMatches j vs = (s : String) × In (str s) (elements vs) × Matches j s

  no_text :
      (j : String) (v : Value) (vs : Items)
      → ((s : String) → str s ≢ v)
      → {b : Bool} → (b ≡ true) ↔ SomeMatches j vs
      → (b ≡ true) ↔ SomeMatches j (cons v vs)
  unfolding elements
  no_text j v vs other rest = (
    λ h. let (s, m, r) = rest.0 h in (s, inr m, r),
    λ (s, m, r). elim m [ inl e ↦ absurd (other s e) | inr n ↦ rest.1 (s, n, r) ],
  )

  SomeMatches-any :
      (j : String) (vs : Items)
      → (any_matches from_iso lower_other (normalise from_iso lower_other j) vs ≡ true)
        ↔ SomeMatches j vs
  unfolding any_matches elements
  SomeMatches-any j nil = (λ h. cc h, λ (s, m, r). absurd m)
  SomeMatches-any j (cons (str s) vs) =
      let rest = SomeMatches-any j vs in
      let here = Matches-matches j s in
      elim (Bool-cases (matches from_iso lower_other (normalise from_iso lower_other j) s)) [
        | inl e ↦ rw (any_matches, e) (λ h. (s, inl refl, here.0 e), λ h. refl)
        | inr e ↦
            rw (any_matches, e)
              (
                λ h. later (str s) vs (rest.0 h),
                λ (t, m, r). elim m [
                  | inl same ↦ absurd (cc (e, here.1 (subst (Matches j) (text_injective same) r)))
                  | inr n ↦ rest.1 (t, n, r)
                ],
              )
      ]
    where
      text_injective : {s t : String} → str s ≡ str t → s ≡ t
      text_injective e = cc e

      later : (v : Value) (vs : Items) → SomeMatches j vs → SomeMatches j (cons v vs)
      later v vs (t, m, r) = (t, inr m, r)
  SomeMatches-any j (cons null vs) = no_text j null vs (λ s e. cc e) (SomeMatches-any j vs)
  SomeMatches-any j (cons (bool b) vs) = no_text j (bool b) vs (λ s e. cc e) (SomeMatches-any j vs)
  SomeMatches-any j (cons (int n) vs) = no_text j (int n) vs (λ s e. cc e) (SomeMatches-any j vs)
  SomeMatches-any j (cons (float x) vs) =
      no_text j (float x) vs (λ s e. cc e) (SomeMatches-any j vs)
  SomeMatches-any j (cons (obj d) vs) = no_text j (obj d) vs (λ s e. cc e) (SomeMatches-any j vs)
  SomeMatches-any j (cons (arr xs) vs) = no_text j (arr xs) vs (λ s e. cc e) (SomeMatches-any j vs)

  HasSubject-is :
      (subject : String) (v : Value)
      → (is_subject from_iso lower_other subject v ≡ some true) ↔ HasSubject subject v
  HasSubject-is subject (arr vs) =
      let rest = contains-In subject (elements vs) in
      (
        λ h. inl (vs, refl, rest.0 (some-injective h)),
        λ h. elim h [
          | inl (ws, e, m) ↦ ap some (
              rest.1
                (subst (λ (z : Items). In (str subject) (elements z)) (sym (items_injective e)) m))
          | inr (inl (d, e, m)) ↦ cc e
          | inr (inr (t, e, m)) ↦ cc e
        ],
      )
    where
      items_injective : {vs ws : Items} → arr vs ≡ arr ws → vs ≡ ws
      items_injective e = cc e
  HasSubject-is subject (obj d) = (
    λ h. inr (inl (d, refl, some-injective h)),
    λ h. elim h [
      | inl (ws, e, m) ↦ cc e
      | inr (inl (f, e, m)) ↦
          ap some (subst (λ z. is_some (find subject z) ≡ true) (sym (fields_injective e)) m)
      | inr (inr (t, e, m)) ↦ cc e
    ],
  )
    where
      fields_injective : {c d : Fields} → obj c ≡ obj d → c ≡ d
      fields_injective e = cc e
  HasSubject-is subject (str s) = (
    λ h. inr (inr (s, refl, some-injective h)),
    λ h. elim h [
      | inl (ws, e, m) ↦ cc e
      | inr (inl (f, e, m)) ↦ cc e
      | inr (inr (t, e, m)) ↦
          ap some (subst (λ z. has_substring subject z ≡ true) (sym (text_injective e)) m)
    ],
  )
    where
      text_injective : {s t : String} → str s ≡ str t → s ≡ t
      text_injective e = cc e
  HasSubject-is subject null = (
    λ h. cc h,
    λ h. elim h [ inl (w, e, m) ↦ cc e | inr (inl (w, e, m)) ↦ cc e | inr (inr (w, e, m)) ↦ cc e ],
  )
  HasSubject-is subject (bool b) = (
    λ h. cc h,
    λ h. elim h [ inl (w, e, m) ↦ cc e | inr (inl (w, e, m)) ↦ cc e | inr (inr (w, e, m)) ↦ cc e ],
  )
  HasSubject-is subject (int n) = (
    λ h. cc h,
    λ h. elim h [ inl (w, e, m) ↦ cc e | inr (inl (w, e, m)) ↦ cc e | inr (inr (w, e, m)) ↦ cc e ],
  )
  HasSubject-is subject (float x) = (
    λ h. cc h,
    λ h. elim h [ inl (w, e, m) ↦ cc e | inr (inl (w, e, m)) ↦ cc e | inr (inr (w, e, m)) ↦ cc e ],
  )

  AppliesTo-subject :
      (wanted : Option String) (rule : Fields)
      → (subject_applies from_iso lower_other wanted rule ≡ some true) ↔ AppliesTo wanted rule
  unfolding subject_applies
  AppliesTo-subject none rule = (λ h. inl refl, λ h. refl)
  AppliesTo-subject (some subject) rule = elim (Option-cases (find "subjects" rule)) [
    | inl e ↦ rw e (λ h. inr (inl refl), λ h. refl)
    | inr (v, e) ↦
        let has = HasSubject-is subject v in
        rw e (
          λ h. inr (inr (subject, refl, (v, refl, has.0 h))),
          λ h. elim h [
            | inl none_wanted ↦ cc none_wanted
            | inr (inl none_named) ↦ cc none_named
            | inr (inr (wanted, same, (w, is, m))) ↦ has.1 (
                subst (λ z. HasSubject z v) (sym (some-injective same))
                  (subst (HasSubject wanted) (sym (some-injective is)) m))
          ],
        )
  ]

  -- The jurisdiction of a rule is none, or has a text that matches.
  abbrev Named : String → Value → Type 0
  Named j v =
      (v ≡ null)
      ⊎ ((s : String) × ((v ≡ str s) ⊎ ((vs : Items) × (v ≡ arr vs) × In (str s) (elements vs)))
          × Matches j s)

  no_name :
      (j : String) (v : Value)
      → v ≢ null
      → ((s : String) → v ≢ str s)
      → ((vs : Items) → v ≢ arr vs)
      → Named j v
      → ⊥
  no_name j v a b c (inl e) = a e
  no_name j v a b c (inr (s, inl e, m)) = b s e
  no_name j v a b c (inr (s, inr (vs, e, n), m)) = c vs e

  Named-applies :
      (j : String) (v : Value)
      → (applies_in from_iso lower_other (normalise from_iso lower_other j) v ≡ true) ↔ Named j v
  Named-applies j null = (λ h. inl refl, λ h. refl)
  Named-applies j (str s) =
      let here = Matches-matches j s in
      (
        λ h. inr (s, inl refl, here.0 h),
        λ h. elim h [
          | inl e ↦ cc e
          | inr (t, inl e, m) ↦ here.1 (subst (Matches j) (sym (text_injective e)) m)
          | inr (t, inr (vs, e, n), m) ↦ cc e
        ],
      )
    where
      text_injective : {s t : String} → str s ≡ str t → s ≡ t
      text_injective e = cc e
  Named-applies j (arr vs) =
      let some_one = SomeMatches-any j vs in
      (
        λ h. let (s, m, r) = some_one.0 h in inr (s, inr (vs, refl, m), r),
        λ h. elim h [
          | inl e ↦ cc e
          | inr (t, inl e, m) ↦ cc e
          | inr (t, inr (ws, e, n), m) ↦
              some_one.1
                (t, subst (λ (z : Items). In (str t) (elements z)) (sym (items_injective e)) n, m)
        ],
      )
    where
      items_injective : {vs ws : Items} → arr vs ≡ arr ws → vs ≡ ws
      items_injective e = cc e
  Named-applies j (bool b) =
      (λ h. cc h, λ h. absurd (no_name j (bool b) (λ e. cc e) (λ s e. cc e) (λ s e. cc e) h))
  Named-applies j (int n) =
      (λ h. cc h, λ h. absurd (no_name j (int n) (λ e. cc e) (λ s e. cc e) (λ s e. cc e) h))
  Named-applies j (float x) =
      (λ h. cc h, λ h. absurd (no_name j (float x) (λ e. cc e) (λ s e. cc e) (λ s e. cc e) h))
  Named-applies j (obj d) =
      (λ h. cc h, λ h. absurd (no_name j (obj d) (λ e. cc e) (λ s e. cc e) (λ s e. cc e) h))

  AppliesIn-jurisdiction :
      (wanted : Option String) (rule : Fields)
      → (jurisdiction_applies from_iso lower_other wanted rule ≡ true) ↔ AppliesIn wanted rule
  unfolding jurisdiction_applies
  AppliesIn-jurisdiction none rule = (λ h. inl refl, λ h. refl)
  AppliesIn-jurisdiction (some j) rule =
      let named = Named-applies j (get "jurisdiction" rule) in
      (
        λ h. elim (named.0 h) [
          | inl e ↦ inr (inl e)
          | inr (s, at, m) ↦ inr (inr (j, refl, (s, at, m)))
        ],
        λ h. elim h [
          | inl e ↦ cc e
          | inr (inl e) ↦ named.1 (inl e)
          | inr (inr (k, same, (s, at, m))) ↦
              named.1 (inr (s, at, subst (λ z. Matches z s) (sym (some-injective same)) m))
        ],
      )

  is_kept_rule-parts :
      (scope : Scope) (rule : Fields)
      → (is_kept_rule from_iso lower_other scope rule ≡ some true) ↔ (
          (after (parse_iso_date from_iso lower_other (get "effective_date" rule)) scope.as_of
            ≡ some false)
          × (before (parse_iso_date from_iso lower_other (get "sunset_date" rule)) scope.as_of
              ≡ some false)
          × (jurisdiction_applies from_iso lower_other scope.jurisdiction rule ≡ true)
          × (subject_applies from_iso lower_other scope.subject rule ≡ some true))
  unfolding is_kept_rule rule_is_in_scope
  is_kept_rule-parts scope rule = ground arith

  pub is_kept_rule_iff :
      (scope : Scope) (rule : Fields)
      → (is_kept_rule from_iso lower_other scope rule ≡ some true) ↔ IsInScope scope rule
  is_kept_rule_iff scope rule =
      let parts = is_kept_rule-parts scope rule in
      let due =
        IsDue-after (parse_iso_date from_iso lower_other (get "effective_date" rule)) scope.as_of in
      let still =
        IsOpen-before (parse_iso_date from_iso lower_other (get "sunset_date" rule)) scope.as_of in
      let here = AppliesIn-jurisdiction scope.jurisdiction rule in
      let it = AppliesTo-subject scope.subject rule in
      (
        λ h. let (a, b, c, d) = parts.0 h in (due.0 a, still.0 b, here.0 c, it.0 d),
        λ (a, b, c, d). parts.1 (due.1 a, still.1 b, here.1 c, it.1 d),
      )
