-- ===== src/Evaluator/Freshness.antt =====
-- The freshness gate of v3/evaluator.py, and its override of an envelope's verdict.
use ski_framework.Prelude.{
  ℕ, String, Bool, true, false, not, ◌&&◌, Option, none, some, List, [], ◌∷◌, ◌++◌, ◌>>=◌, is_some,
  is_empty, if◌then◌else◌, ltb,
}
use ski_framework.Value.{Value, int, Fields, find, get, is_null, text?}
use ski_framework.Value.Numeric.{pos_part}
use ski_framework.Schema.{
  Verdict, null_stale, discretionary, Envelope, freshness_kept, freshness_remapped,
}
use ski_framework.Verifier.Window.{
  Time, WindowData, nothing, aggregate, sequence, stream, opaque, Buffer, Context, positive?,
}
use ski_framework.Verifier.Enumerate.{int?, mappings}
use ski_framework.Policy.{attest}

abbrev counts_sample : Option Value → Option Bool
counts_sample (some (int n)) = some (ltb 0 (pos_part n))
counts_sample _ = none

-- `_window_has_sample`; `none` where it raises
unfoldable pub window_has_sample : WindowData → Option Bool
window_has_sample nothing = some false
window_has_sample (sequence samples) = some (not (is_empty samples))
window_has_sample (aggregate count average peak) = counts_sample count
window_has_sample (stream samples) = none
window_has_sample opaque = none

-- The question that the gate asks of a buffer; `none` where the answer is an exception.
unfoldable pub ask_fresh : Buffer → String → Time → ℕ → Option Bool
unfolding window_has_sample
ask_fresh buffer subject as_of seconds = elim buffer.has_fresh_sample [
  | some ask ↦ ask subject as_of seconds
  | none ↦ do found ← buffer.window_query subject as_of seconds none; window_has_sample found
]

-- Whether a gated obligation has a fresh sample; `none` where that could not be established.
unfoldable pub freshness_of : Context → Fields → Option Bool
unfolding ask_fresh
freshness_of c ob = do
  seconds ← positive? (int? (get "requires_recent_within_seconds" ob))
  buffer ← c.buffer
  subject ← c.subject
  as_of ← c.as_of
  ask_fresh buffer subject as_of seconds

abbrev find_metric : Option String → Fields → Bool
find_metric none measurement = false
find_metric (some metric) measurement = is_some (find metric measurement)

-- the obligations that the list `gated` takes
unfoldable pub is_gated : Fields → Fields → Bool
is_gated measurement ob =
    not (is_null (get "requires_recent_within_seconds" ob))
    && find_metric (text? (get "metric" ob)) measurement

-- A decision of the gate: NULL_STALE, or DISCRETIONARY.
pub data Gate : Type 0 where
  stale undecidable : Gate

-- one more obligation: a stale one wins over an undecidable one
abbrev pub join : Option Bool → Option Gate → Option Gate
join (some true) g = g
join (some false) g = some stale
join none (some stale) = some stale
join none (some undecidable) = some undecidable
join none none = some undecidable

unfoldable pub gate_over : Context → Fields → List Fields → Option Gate
gate_over c measurement [] = none
gate_over c measurement (ob ∷ rest) =
    let later = gate_over c measurement rest in
    if is_gated measurement ob then join (freshness_of c ob) later else later

-- `_freshness_gate`
unfoldable pub freshness_gate : Context → Fields → List Value → Option Gate
freshness_gate c measurement obligations = gate_over c measurement (mappings obligations)

abbrev pub is_null_stale : Verdict → Bool
is_null_stale null_stale = true
is_null_stale _ = false

-- `_apply_freshness`
unfoldable pub apply_freshness : Option Gate → Envelope → Envelope
apply_freshness none e = e
apply_freshness (some stale) e = record e {
  verdict = null_stale;
  notes = e.notes ++ freshness_remapped e.verdict ∷ [];
}
apply_freshness (some undecidable) e =
    if is_null_stale e.verdict
    then record e { notes = e.notes ++ freshness_kept ∷ [] }
    else record e {
      verdict = discretionary;
      notes = e.notes ++ freshness_remapped e.verdict ∷ [];
      human_attestation = attest true e.human_attestation;
    }
