-- ===== src/Evaluator/Stale.antt =====
-- The freshness gate of v3/evaluator.py: stale data decides the verdict on every path.
use mathlib.Core.Path.{subst}
use ski_framework.Prelude.{
  required, ◌≡◌, refl, ◌⊎◌, inl, inr, Bool, true, false, Option, none, some, List, [], ◌∷◌, arith,
  In, bind_some, Bool-cases,
}
use ski_framework.Value.{Value, Fields}
use ski_framework.Schema.{null_stale, Envelope}
use ski_framework.Verifier.Window.{Context}
use ski_framework.Verifier.Enumerate.{mappings}
use ski_framework.Evaluator.{
  Output, Request, Setting, gate_of, drafted, verify_output, dispatch, discard_citations,
  refuse_contract, aevaluate, judge,
}
use ski_framework.Evaluator.Freshness.{
  Gate, stale, undecidable, apply_freshness, is_gated, freshness_of, join, gate_over,
  freshness_gate,
}
use ski_framework.Evaluator.FailClosed.{is_kept}
use ski_framework.Evaluator.Citations.{cited_node_ids, valid_node_ids, invalid_ids}

join-stale : (o : Option Bool) → join o (some stale) ≡ some stale
join-stale none = refl
join-stale (some true) = refl
join-stale (some false) = refl

-- Gated, and answered so.
abbrev pub Answers : Context → Fields → Option Bool → Fields → Type 0
Answers c m answer ob = (is_gated m ob ≡ true) × (freshness_of c ob ≡ answer)

-- The gate has decided something.
abbrev IsRaised : Option Gate → Type 0
IsRaised g = (g ≡ some stale) ⊎ (g ≡ some undecidable)

join-IsRaised : (o : Option Bool) (g : Option Gate) → IsRaised g → IsRaised (join o g)
join-IsRaised (some true) g h = h
join-IsRaised (some false) g h = inl refl
join-IsRaised none g (inl e) = rw e (inl refl)
join-IsRaised none g (inr e) = rw e (inr refl)

join-unknown : (g : Option Gate) → IsRaised (join none g)
join-unknown none = inr refl
join-unknown (some stale) = inl refl
join-unknown (some undecidable) = inr refl

module _ (c : Context) (m : Fields) where
  gate_over-stale :
      (ob : Fields) (obs : List Fields)
      → In ob obs
      → Answers c m (some false) ob
      → gate_over c m obs ≡ some stale
  unfolding gate_over
  gate_over-stale ob [] h a = absurd h
  gate_over-stale ob (x ∷ rest) (inl same) (gated, answer) =
      rw (rw same at gated, rw same at answer) refl
  gate_over-stale ob (x ∷ rest) (inr later) a = elim (Bool-cases (is_gated m x)) [
    | inl gated ↦ rw (gated, gate_over-stale ob rest later a) (join-stale (freshness_of c x))
    | inr free ↦ rw free (gate_over-stale ob rest later a)
  ]

  gate_over-unknown :
      (ob : Fields) (obs : List Fields)
      → In ob obs
      → Answers c m none ob
      → IsRaised (gate_over c m obs)
  unfolding gate_over
  gate_over-unknown ob [] h a = absurd h
  gate_over-unknown ob (x ∷ rest) (inl same) (gated, answer) =
      rw (rw same at gated, rw same at answer) (join-unknown (gate_over c m rest))
  gate_over-unknown ob (x ∷ rest) (inr later) a = elim (Bool-cases (is_gated m x)) [
    | inl gated ↦
        rw gated (
          join-IsRaised (freshness_of c x) (gate_over c m rest) (gate_over-unknown ob rest later a))
    | inr free ↦ rw free (gate_over-unknown ob rest later a)
  ]

module _ (s : Setting) (q : Request) (g : Gate) (raised : gate_of q ≡ some g) where
  -- What is shipped is the gate's decision over some envelope.
  abbrev IsGated : Envelope → Type 0
  IsGated e = (before : Envelope) × (e ≡ apply_freshness (some g) before)

  judge-IsGated : (a : Option Output) → IsGated (judge s q a)
  unfolding refuse_contract verify_output
  judge-IsGated none = rw raised (_, refl)
  judge-IsGated (some o) = rw raised (drafted q o, refl)

  dispatch-IsGated : (raw : Fields) (invalid : List Value) → IsGated (dispatch s q raw invalid)
  unfolding dispatch discard_citations
  dispatch-IsGated raw [] = judge-IsGated (s.parse raw)
  dispatch-IsGated raw (id ∷ ids) = rw raised (_, refl)

  aevaluate-IsGated : (raw : Fields) (e : Envelope) → aevaluate s q raw ≡ some e → IsGated e
  unfolding aevaluate
  aevaluate-IsGated raw e shipped =
      let (valid, _, after_valid) =
        bind_some (valid_node_ids q.obligations q.definitions) _ e shipped in
      let (cited, _, after_cited) = bind_some (cited_node_ids raw) _ e after_valid in
      let (invalid, _, last) = bind_some (invalid_ids cited valid) _ e after_cited in
      let sent : dispatch s q raw invalid ≡ e = required _ _ _ last in
      subst IsGated sent (dispatch-IsGated raw invalid)

apply_freshness_stale : (e : Envelope) → (apply_freshness (some stale) e).verdict ≡ null_stale
unfolding apply_freshness
apply_freshness_stale e = refl

apply_freshness_kept :
    (g : Gate) (e : Envelope) → is_kept (apply_freshness (some g) e).verdict ≡ true
unfolding apply_freshness
apply_freshness_kept g e = ground arith

-- If an obligation of the slice that the freshness gate looks at has no fresh sample, then
-- whatever the model answers, an envelope that the evaluator ships is NULL_STALE.
pub stale_ships_null_stale :
    (s : Setting) (q : Request) (ob : Fields)
    → In ob (mappings q.obligations)
    → Answers q.context q.measurement (some false) ob
    → (raw : Fields) (e : Envelope) → aevaluate s q raw ≡ some e
    → e.verdict ≡ null_stale
unfolding freshness_gate
stale_ships_null_stale s q ob offered unanswered raw e shipped =
    let raised =
      gate_over-stale q.context q.measurement ob (mappings q.obligations) offered unanswered in
    let (before, same) = aevaluate-IsGated s q stale raised raw e shipped in
    rw same (apply_freshness_stale before)

raised-ships :
    (s : Setting) (q : Request) (g : Gate) (raw : Fields) (e : Envelope)
    → gate_of q ≡ some g
    → aevaluate s q raw ≡ some e
    → is_kept e.verdict ≡ true
raised-ships s q g raw e raised shipped =
    let (before, same) = aevaluate-IsGated s q g raised raw e shipped in
    rw same (apply_freshness_kept g before)

-- If the freshness of an obligation that the gate looks at could not be established, then whatever
-- the model answers, an envelope that the evaluator ships is DISCRETIONARY or NULL_STALE.
pub unknown_ships_kept :
    (s : Setting) (q : Request) (ob : Fields)
    → In ob (mappings q.obligations)
    → Answers q.context q.measurement none ob
    → (raw : Fields) (e : Envelope) → aevaluate s q raw ≡ some e
    → is_kept e.verdict ≡ true
unfolding freshness_gate
unknown_ships_kept s q ob offered unanswered raw e shipped =
    elim (gate_over-unknown q.context q.measurement ob (mappings q.obligations) offered
      unanswered) [
        | inl raised ↦ raised-ships s q stale raw e raised shipped
        | inr raised ↦ raised-ships s q undecidable raw e raised shipped
      ]
