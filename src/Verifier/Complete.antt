-- ===== src/Verifier/Complete.antt =====
-- `index_obligations` of v3/verifier.py loses nothing: an obligation that the verifier could
-- evaluate is indexed and enumerated, or reported as hidden.
use ski_framework.Prelude.{
  ℕ, ◌+◌, String, ◌≡◌, refl, ◌⊎◌, ◌||◌, inl, inr, false, Option, none, some, List, [], ◌∷◌, arith,
  In, is_empty, Bool-cases, Option-cases, lookup, str_eq, if◌then◌else◌,
}
use ski_framework.Value.{Value, Fields, get, text?}
use ski_framework.Schema.{hidden_obligation}
use ski_framework.Verifier.Enumerate.{
  Candidate, candidate, candidates, mappings, repeats_later, assign_before, index_key, index_from,
  index_obligations, Index, cons_some, index_entry, is_enumerable,
}

-- An id is only a name: it decides nothing about the candidate.
candidate-id :
    (m : Fields) (i j : String) (ob : Fields) (c : Candidate)
    → candidate m i ob ≡ some c
    → candidate m j ob ≡ some (record c { id = j })
unfolding candidate
candidate-id m i j ob c e = ground arith

module _ (m : Fields) where
  -- The index enumerates the candidate, under its own id.
  abbrev pub IsListed : Candidate → List (String × Fields) → Type 0
  IsListed c index = (id : String) × In (record c { id = id }) (candidates m index)

  In-cons_some :
      (x : Candidate) (o : Option Candidate) (cs : List Candidate) → In x cs → In x (cons_some o cs)
  In-cons_some x none cs h = h
  In-cons_some x (some c) cs h = inr h

  IsListed-cons :
      (c : Candidate) (e : String × Fields) (index : List (String × Fields))
      → IsListed c index
      → IsListed c (e ∷ index)
  unfolding candidates
  IsListed-cons c (j, ob) index (id, h) =
      (id, In-cons_some (record c { id = id }) (candidate m j ob) (candidates m index) h)

  -- An entry that the index holds is listed.
  IsListed-self :
      (c : Candidate) (i j : String) (ob : Fields) (index : List (String × Fields))
      → candidate m i ob ≡ some c
      → IsListed c ((j, ob) ∷ index)
  unfolding candidates
  IsListed-self c i j ob index e = (j, rw (candidate-id m i j ob c e) (inl refl))

  -- Listed by the index, or some entry is reported as hidden.
  abbrev pub IsKept : Candidate → Index → Type 0
  IsKept c index = IsListed c index.obligations ⊎ (is_empty index.violations ≡ false)

  -- The assignment of an entry, where no later one has its key.
  abbrev added : ℕ → Fields → Option String → Index → Index
  added position ob (some id) rest = record rest { obligations = (id, ob) ∷ rest.obligations }
  added position ob none rest =
      if is_enumerable (some m) ob
      then record rest { violations = hidden_obligation position ∷ rest.violations }
      else rest

  index_entry-added :
      (position : ℕ) (ob : Fields) (key : Option String) (rest : Index)
      → ((id : String) → key ≡ some id → lookup id rest.obligations ≡ none)
      → index_entry (some m) position ob key rest ≡ added position ob key rest
  unfolding assign_before
  index_entry-added position ob none rest h = refl
  index_entry-added position ob (some id) rest h = rw (h id refl, assign_before) refl

  index_key-cases :
      (ob : Fields) (rest : List Fields) (id : String)
      → index_key ob rest ≡ some id
      → (text? (get "id" ob) ≡ some id) × (repeats_later id rest ≡ false)
  unfolding index_key
  index_key-cases ob rest id h = ground arith

  later_free :
      (id : String) (ob : Fields) (entries : List Fields)
      → repeats_later id (ob ∷ entries) ≡ false
      → repeats_later id entries ≡ false
  unfolding repeats_later
  later_free id ob entries h = ground arith

  other_key :
      (id j : String) (ob : Fields) (entries : List Fields)
      → text? (get "id" ob) ≡ some j
      → repeats_later id (ob ∷ entries) ≡ false
      → str_eq j id ≡ false
  unfolding repeats_later
  other_key id j ob entries e h =
      let here : (str_eq j id || repeats_later id entries) ≡ false = rw (e, repeats_later) at h in
      ground arith

  -- A key that no entry has is not in the index.
  index_from-lookup :
      (position : ℕ) (entries : List Fields) (id : String)
      → repeats_later id entries ≡ false
      → lookup id (index_from (some m) position entries).obligations ≡ none
  unfolding index_from repeats_later lookup
  index_from-lookup position [] id h = refl
  index_from-lookup position (ob ∷ entries) id h =
      let rest = index_from (some m) (position + 1) entries in
      let fresh = index_from-lookup (position + 1) entries in
      let step =
        index_entry-added position ob (index_key ob entries) rest
          (λ j e. fresh j (index_key-cases ob entries j e).1) in
      rw (index_from, step)
        (elim (Option-cases (index_key ob entries)) [
          | inl e ↦ elim (Bool-cases (is_enumerable (some m) ob)) [
            | inl f ↦ rw (e, f) (fresh id (later_free id ob entries h))
            | inr f ↦ rw (e, f) (fresh id (later_free id ob entries h))
          ]
          | inr (j, e) ↦
              rw (e, lookup, other_key id j ob entries (index_key-cases ob entries j e).0 h)
                (fresh id (later_free id ob entries h))
        ])

  index_from-added :
      (position : ℕ) (ob : Fields) (entries : List Fields)
      → index_from (some m) position (ob ∷ entries)
        ≡ added position ob (index_key ob entries) (index_from (some m) (position + 1) entries)
  unfolding index_from
  index_from-added position ob entries =
      index_entry-added position ob (index_key ob entries)
        (index_from (some m) (position + 1) entries)
        (λ j e. index_from-lookup (position + 1) entries j (index_key-cases ob entries j e).1)

  added-IsKept :
      (c : Candidate) (i : String) (position : ℕ) (ob : Fields) (key : Option String) (rest : Index)
      → candidate m i ob ≡ some c
      → IsKept c (added position ob key rest)
  added-IsKept c i position ob (some j) rest e = inl (IsListed-self c i j ob rest.obligations e)
  added-IsKept c i position ob none rest e = rw (candidate-id m i "_" ob c e) (inr refl)

  added_keeps :
      (c : Candidate) (position : ℕ) (ob : Fields) (key : Option String) (rest : Index)
      → IsKept c rest
      → IsKept c (added position ob key rest)
  added_keeps c position ob (some j) rest (inl h) = inl (IsListed-cons c (j, ob) rest.obligations h)
  added_keeps c position ob (some j) rest (inr h) = inr h
  added_keeps c position ob none rest h = elim (Bool-cases (is_enumerable (some m) ob)) [
    | inl e ↦ rw e (inr refl)
    | inr e ↦ rw e h
  ]

  index_from-IsKept :
      (c : Candidate) (i : String) (ob : Fields) (position : ℕ) (entries : List Fields)
      → In ob entries
      → candidate m i ob ≡ some c
      → IsKept c (index_from (some m) position entries)
  unfolding index_from
  index_from-IsKept c i ob position [] h e = absurd h
  index_from-IsKept c i ob position (x ∷ entries) (inl same) e =
      rw (index_from-added position x entries) (
        added-IsKept c i position x (index_key x entries)
          (index_from (some m) (position + 1) entries) (rw same at e))
  index_from-IsKept c i ob position (x ∷ entries) (inr later) e =
      rw (index_from-added position x entries) (
        added_keeps c position x (index_key x entries) (index_from (some m) (position + 1) entries)
          (index_from-IsKept c i ob (position + 1) entries later e))

  -- If an entry of the slice is a candidate for the verifier's own evaluation, the index lists
  -- that candidate under some id, or reports a violation.
  pub index_complete :
      (c : Candidate) (i : String) (ob : Fields) (obligations : List Value)
      → In ob (mappings obligations)
      → candidate m i ob ≡ some c
      → IsKept c (index_obligations obligations (some m))
  unfolding index_obligations
  index_complete c i ob obligations h e = index_from-IsKept c i ob 0 (mappings obligations) h e
