-- ===== src/Verifier/Inputs/Accepted.antt =====
-- What `measurement_input_errors` of v3/verifier.py leaves to the verifier: a reading that is a
-- number, or is taken for one, is a real number where a number is expected.
use mathlib.Core.Path.{subst}
use ski_framework.Prelude.{
  String, ◌≡◌, refl, sym, inl, inr, Bool, true, false, none, some, List, [], ◌∷◌, ◌++◌, arith, ◌||◌,
  All, In, is_some, is_empty, bind_some, Bool-cases, Option-cases, one_of, str_eq,
}
use ski_framework.Value.{
  Value, null, bool, int, float, str, arr, obj, finite, infinity, not_a_number, Fields, end, field,
  find, get, is_bool, text?, fields?,
}
use ski_framework.Value.Text.{split_dots, has_dot}
use ski_framework.Verifier.Handlers.{real}
use ski_framework.Verifier.Grounding.{split_unit}
use ski_framework.Verifier.Enumerate.{resolve_reading, walk, Candidate, candidate}
use ski_framework.Verifier.Inputs.{
  Step, key, non_finite_paths, paths_of_fields, is_plain_number, expects_number, bad_numbers,
  boolean_metric, boolean_errors, measurement_input_errors,
}

is_empty-append :
    {A : Type 0} (xs ys : List A)
    → is_empty (xs ++ ys) ≡ true
    → (is_empty xs ≡ true) × (is_empty ys ≡ true)
is_empty-append [] ys h = (refl, h)
is_empty-append (x ∷ xs) ys h = cc h

-- No number of the value is reported, whatever the path to the value is called.
abbrev pub IsFinite : Value → Type 0
IsFinite v = (path : List Step) × (is_empty (non_finite_paths v path) ≡ true)

find-IsFinite :
    (k : String) (d : Fields) (path : List Step) (v : Value)
    → is_empty (paths_of_fields d path) ≡ true
    → find k d ≡ some v
    → IsFinite v
unfolding find non_finite_paths
find-IsFinite k end path v h e = cc e
find-IsFinite k (field j w d) path v h e =
    let (first, later) =
      is_empty-append (non_finite_paths w (path ++ key j ∷ [])) (paths_of_fields d path) h in
    elim (Bool-cases (str_eq j k)) [
      | inl same ↦
          let found : w ≡ v = cc (rw same at e) in (path ++ key j ∷ [], rw (sym found) first)
      | inr other ↦ find-IsFinite k d path v later (rw other at e)
    ]

dict_of : (v : Value) (d : Fields) → fields? v ≡ some d → v ≡ obj d
dict_of v d e = ground arith

walk-IsFinite :
    (parts : List String) (v w : Value) → IsFinite v → walk parts v ≡ some w → IsFinite w
unfolding non_finite_paths
walk-IsFinite [] v w (path, h) e = let same : v ≡ w = cc e in (path, rw (sym same) h)
walk-IsFinite (part ∷ parts) v w (path, h) e =
    let (d, is_dict, e') = bind_some (fields? v) _ w e in
    let (inner, found, e'') = bind_some (find part d) _ w e' in
    walk-IsFinite parts inner w
      (find-IsFinite part d path inner (rw (dict_of v d is_dict) at h) found) e''

resolve_reading-IsFinite :
    (metric : String) (m : Fields) (raw : Value)
    → IsFinite (obj m)
    → resolve_reading metric m ≡ some raw
    → IsFinite raw
unfolding non_finite_paths resolve_reading
resolve_reading-IsFinite metric m raw (path, h) e = elim (Option-cases (find metric m)) [
  | inr (v, found) ↦
      find-IsFinite metric m path raw h (cc (found, (rw (found, resolve_reading) at e)))
  | inl missing ↦ elim (Bool-cases (has_dot metric)) [
    | inl dotted ↦
        walk-IsFinite (split_dots metric) (obj m) raw (path, h)
          (rw (missing, dotted, resolve_reading) at e)
    | inr plain ↦ cc (rw (missing, plain, resolve_reading) at e)
  ]
]

split_unit-IsFinite : (raw : Value) → IsFinite raw → IsFinite (split_unit raw).0
unfolding split_unit non_finite_paths
split_unit-IsFinite (obj d) (path, h) = elim (Option-cases (find "value" d)) [
  | inl missing ↦ rw (missing, split_unit) (path, h)
  | inr (v, found) ↦ rw (found, split_unit) (find-IsFinite "value" d path v h found)
]
split_unit-IsFinite null h = h
split_unit-IsFinite (bool b) h = h
split_unit-IsFinite (int n) h = h
split_unit-IsFinite (float x) h = h
split_unit-IsFinite (str s) h = h
split_unit-IsFinite (arr vs) h = h

-- the Python types that compare with a number
abbrev pub is_numeric : Value → Bool
is_numeric v = is_plain_number v || is_bool v

real-IsFinite :
    (v : Value) → IsFinite v → is_bool v ≡ false → is_numeric v ≡ true → is_some (real v) ≡ true
unfolding real non_finite_paths
real-IsFinite (int n) h b n' = refl
real-IsFinite (float (finite m e)) h b n = refl
real-IsFinite (float (infinity up)) (path, h) b n = cc h
real-IsFinite (float not_a_number) (path, h) b n = cc h
real-IsFinite null h b n = cc n
real-IsFinite (bool x) h b n = cc b
real-IsFinite (str s) h b n = cc n
real-IsFinite (arr vs) h b n = cc n
real-IsFinite (obj d) h b n = cc n

module _ (m : Fields) where
  -- Where the obligation expects a number, its reading is no boolean.
  abbrev IsUnpunned : Fields → Type 0
  IsUnpunned ob =
      (metric : String) (raw : Value)
      → text? (get "metric" ob) ≡ some metric
      → expects_number ob ≡ true
      → resolve_reading metric m ≡ some raw
      → is_bool (split_unit raw).0 ≡ false

  boolean_metric-none : (ob : Fields) → boolean_metric m [] ob ≡ none → IsUnpunned ob
  unfolding boolean_metric one_of
  boolean_metric-none ob h metric raw named expects found = ground (arith, h, named, expects, found)

  boolean_errors-empty :
      (obs : List Fields) → is_empty (boolean_errors m [] obs) ≡ true → All IsUnpunned obs
  unfolding boolean_errors
  boolean_errors-empty [] h = tt
  boolean_errors-empty (ob ∷ rest) h = elim (Option-cases (boolean_metric m [] ob)) [
    | inl e ↦ (boolean_metric-none ob e, boolean_errors-empty rest (rw (e, boolean_errors) at h))
    | inr (metric, e) ↦ cc (rw (e, boolean_errors) at h)
  ]

candidate_reading :
    (m : Fields) (id : String) (ob : Fields) (c : Candidate)
    → candidate m id ob ≡ some c
    → (text? (get "metric" ob) ≡ some c.metric) × (resolve_reading c.metric m ≡ some c.raw)
unfolding candidate
candidate_reading m id ob c e = ground arith

In-All : {A : Type 0} (P : A → Type 0) (x : A) (xs : List A) → All P xs → In x xs → P x
In-All P x [] h i = absurd i
In-All P x (y ∷ ys) h (inl e) = subst P (sym e) h.0
In-All P x (y ∷ ys) h (inr i) = In-All P x ys h.1 i

bad_numbers_empty :
    (paths : List (List Step)) → is_empty (bad_numbers paths) ≡ true → is_empty paths ≡ true
bad_numbers_empty [] h = refl
bad_numbers_empty (p ∷ paths) h = cc h

-- Let the input checks report no error for a measurement and its obligations. If one of these
-- obligations expects a number, and is a candidate whose reading (without its unit) is a number or
-- a bool, that reading is a real number: an int, or a finite float, and no bool.
pub accepted_reading-real :
    (m : Fields) (obs : List Fields) (id : String) (ob : Fields) (c : Candidate)
    → measurement_input_errors m obs ≡ []
    → In ob obs
    → candidate m id ob ≡ some c
    → expects_number ob ≡ true
    → is_numeric (split_unit c.raw).0 ≡ true
    → is_some (real (split_unit c.raw).0) ≡ true
unfolding measurement_input_errors non_finite_paths
accepted_reading-real m obs id ob c accepted offered mapped expects numeric =
    let (numbers, booleans) =
      is_empty-append (bad_numbers (paths_of_fields m [])) (boolean_errors m [] obs)
        (rw accepted refl) in
    let (named, found) : (text? (get "metric" ob) ≡ some c.metric)
        × (resolve_reading c.metric m ≡ some c.raw) =
      candidate_reading m id ob c mapped in
    let reading =
      resolve_reading-IsFinite c.metric m c.raw
        ([], bad_numbers_empty (paths_of_fields m []) numbers) found in
    let unpunned = In-All (IsUnpunned m) ob obs (boolean_errors-empty m obs booleans) offered in
    real-IsFinite (split_unit c.raw).0 (split_unit-IsFinite c.raw reading)
      (unpunned c.metric c.raw named expects found) numeric
