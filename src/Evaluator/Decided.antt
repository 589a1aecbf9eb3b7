-- ===== src/Evaluator/Decided.antt =====
-- A CLEAR or a FLAG of v3/evaluator.py comes by one path only: the validated answer, past the
-- citations and the freshness gate, through the policy and the floor.
use mathlib.Core.Path.{subst}
use ski_framework.Prelude.{
  required, ◌≡◌, refl, Bool, true, false, Option, none, some, List, [], ◌∷◌, arith, bind_some,
}
use ski_framework.Value.{Value, Fields}
use ski_framework.Schema.{Verdict, clear, flag, Envelope}
use ski_framework.Verifier.Tally.{VerificationReport}
use ski_framework.Policy.{apply_risk_policy}
use ski_framework.Evaluator.{
  Output, Request, Setting, gate_of, report_for, drafted, verify_output, dispatch,
  discard_citations, refuse_contract, aevaluate, decide, judge,
}
use ski_framework.Evaluator.Freshness.{Gate, apply_freshness}
use ski_framework.Evaluator.FailClosed.{enforce_fail_closed}
use ski_framework.Evaluator.Citations.{cited_node_ids, valid_node_ids, invalid_ids}

-- CLEAR and FLAG
abbrev pub is_decided : Verdict → Bool
is_decided clear = true
is_decided flag = true
is_decided _ = false

apply_freshness-decided :
    (g : Option Gate) (e : Envelope)
    → is_decided (apply_freshness g e).verdict ≡ true
    → (g ≡ none) × (is_decided e.verdict ≡ true)
unfolding apply_freshness
apply_freshness-decided g e h = ground arith

pub enforce-decided :
    (r : VerificationReport) (e : Envelope)
    → is_decided (enforce_fail_closed r e).verdict ≡ true
    → enforce_fail_closed r e ≡ e
unfolding enforce_fail_closed
enforce-decided r e h = ground arith

discard-undecided :
    (q : Request) (id : Value) (ids : List Value)
    → ¬ (is_decided (discard_citations q (id ∷ ids)).verdict ≡ true)
unfolding discard_citations
discard-undecided q id ids h =
    let (_, enforced) = apply_freshness-decided (gate_of q) _ h in
    cc (rw (enforce-decided _ _ enforced) at enforced)

refuse-undecided : (q : Request) → ¬ (is_decided (refuse_contract q).verdict ≡ true)
unfolding refuse_contract
refuse-undecided q h = let (_, e) = apply_freshness-decided (gate_of q) _ h in cc e

module _ (s : Setting) (q : Request) where
  -- the envelope before the floor
  abbrev pub after_policy : Output → Envelope
  after_policy o = apply_risk_policy s.lower_other s.force_discretionary q.risk_tier (drafted q o)

  -- Every citation of the answer names a node of the slice.
  abbrev pub AreValid : Fields → Type 0
  AreValid raw =
      (valid : List Value) × (cited : List Value) × (valid_node_ids q.obligations q.definitions
        ≡ some valid)
      × (cited_node_ids raw ≡ some cited)
      × (invalid_ids cited valid ≡ some [])

  -- The one path, with the envelope that it ships.
  pub record IsPassed (raw : Fields) (e : Envelope) : Type 0 where
    pub output : Output
    pub parsed : s.parse raw ≡ some output
    pub fresh : gate_of q ≡ none
    pub floored : e ≡ enforce_fail_closed (report_for q output) (after_policy output)

  decide-decided :
      (r : VerificationReport) (g : Option Gate) (e : Envelope)
      → is_decided (decide s q r g e).verdict ≡ true
      → g ≡ none
  decide-decided r none e h = refl
  decide-decided r (some g) e h = let (no_gate, _) = apply_freshness-decided (some g) e h in no_gate

  judge-decided :
      (raw : Fields) (a : Option Output)
      → s.parse raw ≡ a
      → is_decided (judge s q a).verdict ≡ true
      → IsPassed raw (judge s q a)
  unfolding verify_output
  judge-decided raw none parsed h = absurd (refuse-undecided q h)
  judge-decided raw (some o) parsed h =
      let fresh = decide-decided (report_for q o) (gate_of q) (drafted q o) h in
      record { output = o; parsed = parsed; fresh = fresh; floored = rw fresh refl }

  dispatch-decided :
      (raw : Fields) (invalid : List Value)
      → is_decided (dispatch s q raw invalid).verdict ≡ true
      → (invalid ≡ []) × IsPassed raw (dispatch s q raw invalid)
  unfolding dispatch
  dispatch-decided raw [] h = (refl, judge-decided raw (s.parse raw) refl h)
  dispatch-decided raw (id ∷ ids) h = absurd (discard-undecided q id ids h)

  pub aevaluate-decided :
      (raw : Fields) (e : Envelope)
      → aevaluate s q raw ≡ some e
      → is_decided e.verdict ≡ true
      → AreValid raw × IsPassed raw e
  unfolding aevaluate
  aevaluate-decided raw e shipped h =
      let (valid, valid_eq, after_valid) =
        bind_some (valid_node_ids q.obligations q.definitions) _ e shipped in
      let (cited, cited_eq, after_cited) = bind_some (cited_node_ids raw) _ e after_valid in
      let (invalid, invalid_eq, last) = bind_some (invalid_ids cited valid) _ e after_cited in
      let sent : dispatch s q raw invalid ≡ e = required _ _ _ last in
      let (none_invalid, passed) = dispatch-decided raw invalid (cc (sent, h)) in
      (
        (valid, cited, valid_eq, cited_eq, cc (invalid_eq, none_invalid)),
        subst (IsPassed raw) sent passed,
      )
