-- ===== src/Evaluator/Floor.antt =====
-- What no answer of the model and no tier can lower: the floors of v3/evaluator.py, on every path.
use ski_framework.Prelude.{
  required, String, ◌≡◌, refl, ◌⊎◌, inl, inr, true, false, Option, none, some, List, [], ◌∷◌, arith,
  All, In, In-nonempty, lookup, lookup-All, Option-cases, bind_some, is_empty, is_empty-append_cons,
}
use ski_framework.Value.{Value, Fields}
use mathlib.Core.Path.{subst}
use ski_framework.Schema.{
  Verdict, null_unmapped, null_stale, discretionary, Envelope, Assertion, Divergence,
}
use ski_framework.Verifier.Handlers.{Outcome}
use ski_framework.Verifier.Window.{
  Context, check_must_average_within, check_must_not_exceed_in_window,
}
use ski_framework.Verifier.Predicates.{predicate_handlers, stateful_handlers, acheck_assertion}
use ski_framework.Verifier.Enumerate.{
  Candidate, candidate, candidates, mappings, enumerable_obligations, has_unit_mismatch,
  obligation_probe,
}
use ski_framework.Verifier.Tally.{VerificationReport, with_fail_closed, is_unflagged}
use ski_framework.Verifier.Verify.{averify_report}
use ski_framework.Verifier.Breach.{Breaches}
use ski_framework.Verifier.Reported.{breached-report_by}
use ski_framework.Verifier.Complete.{index_complete}
use ski_framework.Evaluator.{
  Output, Request, Setting, index_of, gate_of, report_of, drafted, verify_output, dispatch,
  discard_citations, refuse_contract, aevaluate, decide, judge,
}
use ski_framework.Evaluator.Freshness.{Gate, apply_freshness}
use ski_framework.Evaluator.FailClosed.{enforce_fail_closed, is_kept}
use ski_framework.Evaluator.Citations.{cited_node_ids, valid_node_ids, invalid_ids}

module _ (ctx : Context) where
  -- An obligation's id is only a name in the divergences: no check reads it.
  abbrev IgnoresId : String → (Context → Assertion → Outcome) → Type 0
  IgnoresId p handler =
      (a : Assertion) (id : String) → handler ctx (record a { obligation_id = id }) ≡ handler ctx a

  stateful_handlers_ignore_id : All (λ e. IgnoresId e.0 e.1) stateful_handlers
  unfolding check_must_average_within check_must_not_exceed_in_window
  stateful_handlers_ignore_id = ((λ a id. refl), ((λ a id. refl), tt))

  acheck_assertion-id :
      (a : Assertion) (id : String)
      → acheck_assertion ctx (record a { obligation_id = id }) ≡ acheck_assertion ctx a
  unfolding acheck_assertion
  acheck_assertion-id a id = elim (Option-cases (lookup a.predicate predicate_handlers)) [
    | inr (handler, e) ↦ rw (acheck_assertion, e)
    | inl e ↦ elim (Option-cases (lookup a.predicate stateful_handlers)) [
      | inl f ↦ rw (acheck_assertion, e, f)
      | inr (handler, f) ↦
          rw (acheck_assertion, e, f)
            (lookup-All IgnoresId stateful_handlers stateful_handlers_ignore_id a.predicate handler
              f a id)
    ]
  ]

  Breaches-id :
      (c : Candidate) (id : String)
      → Breaches (acheck_assertion ctx) c
      → Breaches (acheck_assertion ctx) (record c { id = id })
  unfolding has_unit_mismatch obligation_probe
  Breaches-id c id (unit, breached) =
      (unit, cc (breached, acheck_assertion-id (obligation_probe c) id))

with_fail_closed-open :
    (ds : List Divergence) (r : VerificationReport)
    → is_empty ds ≡ false
    → is_empty (with_fail_closed ds r).fail_closed ≡ false
unfolding with_fail_closed
with_fail_closed-open [] r h = cc h
with_fail_closed-open (d ∷ ds) r h = is_empty-append_cons r.fail_closed d ds

with_fail_closed-breached :
    (ds : List Divergence) (r : VerificationReport)
    → (with_fail_closed ds r).breached_obligations ≡ r.breached_obligations
unfolding with_fail_closed
with_fail_closed-breached [] r = refl
with_fail_closed-breached (d ∷ ds) r = refl

-- The report carries a breach, or something that is never set aside.
abbrev IsAlarmed : VerificationReport → Type 0
IsAlarmed r = (is_empty r.breached_obligations ≡ false) ⊎ (is_empty r.fail_closed ≡ false)

enforce-alarmed :
    (r : VerificationReport) (e : Envelope)
    → IsAlarmed r
    → is_unflagged (enforce_fail_closed r e).verdict ≡ false
unfolding enforce_fail_closed
enforce-alarmed r e h = ground arith

-- What the freshness gate decides is NULL_STALE or DISCRETIONARY.
apply_freshness-gated :
    (g : Gate) (e : Envelope)
    → ((apply_freshness (some g) e).verdict ≡ null_stale)
      ⊎ ((apply_freshness (some g) e).verdict ≡ discretionary)
unfolding apply_freshness
apply_freshness-gated g e = ground arith

-- A property of the two fail-closed verdicts that the floor gives to every envelope holds of what
-- is shipped.
module _ (s : Setting) (q : Request) (P : Verdict → Type 0) (of_stale : P null_stale)
    (of_discretionary : P discretionary)
    (floor : (v : Verdict) (assertions : List Assertion) (e : Envelope)
      → P (enforce_fail_closed (report_of q v assertions) e).verdict) where
  gated-shipped : (g : Gate) (e : Envelope) → P (apply_freshness (some g) e).verdict
  gated-shipped g e = elim (apply_freshness-gated g e) [
    | inl stale_eq ↦ rw stale_eq of_stale
    | inr discretionary_eq ↦ rw discretionary_eq of_discretionary
  ]

  fresh-shipped : (g : Option Gate) (e : Envelope) → P e.verdict → P (apply_freshness g e).verdict
  unfolding apply_freshness
  fresh-shipped none e h = h
  fresh-shipped (some g) e h = gated-shipped g e

  decide-shipped :
      (g : Option Gate) (v : Verdict) (assertions : List Assertion) (e : Envelope)
      → P (decide s q (report_of q v assertions) g e).verdict
  decide-shipped none v assertions e = floor v assertions _
  decide-shipped (some g) v assertions e = gated-shipped g e

  judge-shipped : (a : Option Output) → P (judge s q a).verdict
  unfolding refuse_contract verify_output
  judge-shipped none = fresh-shipped (gate_of q) _ of_discretionary
  judge-shipped (some o) = decide-shipped (gate_of q) _ _ (drafted q o)

  dispatch-shipped : (raw : Fields) (invalid : List Value) → P (dispatch s q raw invalid).verdict
  unfolding dispatch discard_citations
  dispatch-shipped raw [] = judge-shipped (s.parse raw)
  dispatch-shipped raw (id ∷ ids) = fresh-shipped (gate_of q) _ (floor null_unmapped [] _)

  pub aevaluate-shipped : (raw : Fields) (e : Envelope) → aevaluate s q raw ≡ some e → P e.verdict
  unfolding aevaluate
  aevaluate-shipped raw e shipped =
      let (valid, _, after_valid) =
        bind_some (valid_node_ids q.obligations q.definitions) _ e shipped in
      let (cited, _, after_cited) = bind_some (cited_node_ids raw) _ e after_valid in
      let (invalid, _, last) = bind_some (invalid_ids cited valid) _ e after_cited in
      let sent : dispatch s q raw invalid ≡ e = required _ _ _ last in
      subst (λ x. P x.verdict) sent (dispatch-shipped raw invalid)

enforce-kept :
    (r : VerificationReport) (e : Envelope)
    → is_empty r.fail_closed ≡ false
    → is_kept (enforce_fail_closed r e).verdict ≡ true
unfolding enforce_fail_closed
enforce-kept r e h = ground arith

-- The verifier's report always carries the alarm of a breach that it can evaluate.
module _ (q : Request) (c : Candidate) (i : String) (ob : Fields)
    (offered : In ob (mappings q.obligations)) (mapped : candidate q.measurement i ob ≡ some c)
    (breached : Breaches (acheck_assertion q.context) c) (v : Verdict)
    (assertions : List Assertion) where
  listed-IsAlarmed :
      (id : String)
      → In (record c { id = id }) (candidates q.measurement (index_of q).obligations)
      → IsAlarmed (report_of q v assertions)
  unfolding report_of averify_report enumerable_obligations
  listed-IsAlarmed id listed =
      let found =
        breached-report_by (acheck_assertion q.context) v (some q.measurement)
          (some (index_of q).obligations) assertions (record c { id = id }) listed
          (Breaches-id q.context c id breached) in
      inl (rw (with_fail_closed-breached (index_of q).violations) (In-nonempty id _ found))

  report-IsAlarmed : IsAlarmed (report_of q v assertions)
  unfolding report_of
  report-IsAlarmed = elim (index_complete q.measurement c i ob q.obligations offered mapped) [
    | inl (id, listed) ↦ listed-IsAlarmed id listed
    | inr hidden ↦ inr (with_fail_closed-open (index_of q).violations _ hidden)
  ]

-- Let an obligation of the slice map to a reading that the verifier's own check finds in breach,
-- with no mismatch of units. Whatever the model answers and whatever the tier is, an envelope that
-- the evaluator ships is neither CLEAR nor NULL_UNMAPPED.
pub breach_never_ships :
    (s : Setting) (q : Request) (c : Candidate) (i : String) (ob : Fields)
    → In ob (mappings q.obligations)
    → candidate q.measurement i ob ≡ some c
    → Breaches (acheck_assertion q.context) c
    → (raw : Fields) (e : Envelope) → aevaluate s q raw ≡ some e
    → is_unflagged e.verdict ≡ false
breach_never_ships s q c i ob offered mapped breached =
    aevaluate-shipped s q (λ v. is_unflagged v ≡ false) refl refl
      (λ v assertions e.
        enforce-alarmed (report_of q v assertions) e
          (report-IsAlarmed q c i ob offered mapped breached v assertions))

-- If the index of the slice has a violation (an entry that the verifier could evaluate has no
-- usable id, or one that a later entry has too), an envelope that the evaluator ships is
-- DISCRETIONARY or NULL_STALE.
pub hidden_never_ships :
    (s : Setting) (q : Request)
    → is_empty (index_of q).violations ≡ false
    → (raw : Fields) (e : Envelope) → aevaluate s q raw ≡ some e
    → is_kept e.verdict ≡ true
unfolding report_of
hidden_never_ships s q hidden =
    aevaluate-shipped s q (λ v. is_kept v ≡ true) refl refl
      (λ v assertions e.
        enforce-kept (report_of q v assertions) e
          (with_fail_closed-open (index_of q).violations _ hidden))
