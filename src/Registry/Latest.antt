-- ===== src/Registry/Latest.antt =====
-- Proofs about `from_dict` and `resolve`, with what `resolve` should find said without dictionaries.
use ski_framework.Prelude.{
  String, ◌≡◌, refl, sym, ap, ◌∙◌, inl, inr, Bool, false, not, ◌&&◌, Option, none, some, List, [],
  ◌∷◌, ◌>>=◌, lookup, some-injective, str_eq, eq_iff, bind_some, Bool-cases, Option-cases,
  if◌then◌else◌, arith,
}
use ski_framework.Value.{
  Value, null, bool, int, float, str, obj, arr, Fields, field, end, cons, nil, get, text?,
}
use ski_framework.Value.Case.{is_blank}
use ski_framework.Registry.{
  set, rule_key, add_rule, index_rules, normalise_subject, compile_tags, from_dict, resolve_subject,
}

abbrev choose {ℓ κ} : {A : Type ℓ} {B : Type κ} → Option A → (A → Option B) → Option B → Option B
choose (some a) f d = f a
choose none f d = d

lookup-set {ℓ} :
    {V : Type ℓ} (k j : String) (v : V) (d : List (String × V))
    → lookup k (set j v d) ≡ (if str_eq j k then some v else lookup k d)
unfolding set lookup
lookup-set k j v [] = refl
lookup-set k j v ((i, w) ∷ d) = elim (Bool-cases (str_eq i j)) [
  | inl e ↦
      let same : str_eq i k ≡ str_eq j k = ap (λ x. str_eq x k) ((eq_iff i j).0 e) in
      rw (e, same) (elim (Bool-cases (str_eq j k)) [ inl f ↦ rw f refl | inr f ↦ rw f refl ])
  | inr e ↦ rw e (elim (Bool-cases (str_eq i k)) [
    | inl f ↦
        let differ : str_eq j k ≡ false = elim (Bool-cases (str_eq j k)) [
          | inl g ↦ absurd (cc (e, (eq_iff i j).1 ((eq_iff i k).0 f ∙ sym ((eq_iff j k).0 g))))
          | inr g ↦ g
        ] in
        rw (f, differ) refl
    | inr f ↦ rw f (lookup-set k j v d)
  ])
]

-- whether a rule has this id
unfoldable pub is_named : String → Value → Bool
is_named k v = elim (text? v) [ some s ↦ not (is_blank s) && str_eq s k | none ↦ false ]

-- the last rule with this id
unfoldable pub last_rule : String → List Fields → Option Fields
last_rule k [] = none
last_rule k (r ∷ rules) =
    choose (last_rule k rules) (λ s. some s) (if is_named k (get "id" r) then some r else none)

added :
    (k : String) (r : Fields) (index : List (String × Fields)) (v : Value) (key : Option String)
    → rule_key v ≡ some key
    → lookup k (add_rule key r index)
      ≡ choose (if is_named k v then some r else none) (λ s. some s) (lookup k index)
unfolding rule_key is_named
added k r index v none e = rw (unnamed v e) refl
  where
    unnamed : (v : Value) → rule_key v ≡ some none → is_named k v ≡ false
    unnamed (str s) e = ground arith
    unnamed null e = refl
    unnamed (bool b) e = refl
    unnamed (int n) e = refl
    unnamed (float d) e = refl
    unnamed (obj d) e = refl
    unnamed (arr vs) e = refl
added k r index v (some s) e =
    lookup-set k s r index
    ∙ rw (named v e) (elim (Bool-cases (str_eq s k)) [ inl f ↦ rw f refl | inr f ↦ rw f refl ])
  where
    named : (v : Value) → rule_key v ≡ some (some s) → is_named k v ≡ str_eq s k
    named (str t) e = ground arith
    named null e = absurd (cc e)
    named (bool b) e = absurd (cc e)
    named (int n) e = absurd (cc e)
    named (float d) e = absurd (cc e)
    named (obj end) e = absurd (cc e)
    named (obj (field j w d)) e = absurd (cc e)
    named (arr nil) e = absurd (cc e)
    named (arr (cons w vs)) e = absurd (cc e)

index_rules-last_rule :
    (k : String) (rules : List Fields) (index result : List (String × Fields))
    → index_rules rules index ≡ some result
    → lookup k result ≡ choose (last_rule k rules) (λ s. some s) (lookup k index)
unfolding index_rules last_rule
index_rules-last_rule k [] index result h = ap (lookup k) (sym (some-injective h))
index_rules-last_rule k (r ∷ rules) index result h =
    let (key, e, rest) =
      bind_some (rule_key (get "id" r)) (λ key. index_rules rules (add_rule key r index)) result
        h in
    index_rules-last_rule k rules (add_rule key r index) result rest
    ∙ elim (Option-cases (last_rule k rules)) [
      | inl f ↦ rw f (added k r index (get "id" r) key e)
      | inr (s, f) ↦ rw f refl
    ]

module _ (lower_other : String → String) where
  -- the id that the last tag of this subject is bound to
  unfoldable pub last_tag : String → List (String × String) → Option String
  last_tag n [] = none
  last_tag n ((raw_subject, rule_id) ∷ tags) =
      choose (last_tag n tags) (λ s. some s)
        (if str_eq (normalise_subject lower_other raw_subject) n then some rule_id else none)

  compile_tags-last_tag :
      (n : String) (index : List (String × Fields)) (tags : List (String × String))
      (compiled result : List (String × Fields))
      → compile_tags lower_other index tags compiled ≡ some result
      → lookup n result ≡ choose (last_tag n tags) (λ id. lookup id index) (lookup n compiled)
  unfolding compile_tags last_tag
  compile_tags-last_tag n index [] compiled result h = ap (lookup n) (sym (some-injective h))
  compile_tags-last_tag n index ((raw, id) ∷ tags) compiled result h =
      let (rule, found, rest) =
        bind_some (lookup id index)
          (λ rule.
            compile_tags lower_other index tags
              (set (normalise_subject lower_other raw) rule compiled))
          result h in
      compile_tags-last_tag n index tags (set (normalise_subject lower_other raw) rule compiled)
        result rest
      ∙ elim (Option-cases (last_tag n tags)) [
        | inl f ↦ rw f (
            lookup-set n (normalise_subject lower_other raw) rule compiled
            ∙ elim (Bool-cases (str_eq (normalise_subject lower_other raw) n)) [
              | inl same ↦ rw same (sym found)
              | inr other ↦ rw other refl
            ])
        | inr (s, f) ↦ rw f refl
      ]

  -- Where `from_dict` gives a registry, `resolve` of a subject gives the last rule with the id
  -- that the last tag of that subject names, where tags with the same normalised subject are the
  -- same tag; and it gives nothing where there is none.
  pub resolve_latest :
      (subject : String) (tags : List (String × String)) (rules : List Fields)
      (registry : List (String × Fields))
      → from_dict lower_other tags rules ≡ some registry
      → resolve_subject lower_other subject registry
        ≡ (do id ← last_tag (normalise_subject lower_other subject) tags; last_rule id rules)
  unfolding from_dict resolve_subject
  resolve_latest subject tags rules registry h =
      let (index, e, rest) =
        bind_some (index_rules rules []) (λ index. compile_tags lower_other index tags []) registry
          h in
      compile_tags-last_tag (normalise_subject lower_other subject) index tags [] registry rest
      ∙ elim (Option-cases (last_tag (normalise_subject lower_other subject) tags)) [
        | inl f ↦ rw f refl
        | inr (id, f) ↦ rw f (
            index_rules-last_rule id rules [] index e ∙ elim (Option-cases (last_rule id rules)) [
              | inl g ↦ rw g refl
              | inr (r, g) ↦ rw g refl
            ])
      ]
