-- ===== src/Evaluator/FailClosed.antt =====
-- `_enforce_fail_closed` of v3/evaluator.py: the two floors that no tier can lower.
use ski_framework.Prelude.{
  Bool, true, false, not, ◌&&◌, Option, none, some, List, [], ◌∷◌, ◌++◌, is_empty, if◌then◌else◌,
}
use ski_framework.Value.{Fields, end, field}
use ski_framework.Schema.{
  Verdict, null_stale, discretionary, Envelope, Note, fail_closed_floor, breach_floor,
}
use ski_framework.Verifier.Tally.{is_unflagged, VerificationReport}
use ski_framework.Policy.{attestation_required}

-- membership in `_FAIL_CLOSED_KEEPS`
abbrev pub is_kept : Verdict → Bool
is_kept discretionary = true
is_kept null_stale = true
is_kept _ = false

-- `envelope.human_attestation or {...}`: an empty dict counts as none
abbrev pub or_required : Option Fields → Fields
or_required none = attestation_required
or_required (some end) = attestation_required
or_required (some (field k v d)) = field k v d

abbrev note_if : Bool → Note → List Note
note_if true n = n ∷ []
note_if false n = []

unfoldable pub floor_notes : Verdict → VerificationReport → List Note
floor_notes v r =
    note_if (not (is_empty r.fail_closed) && not (is_kept v)) fail_closed_floor
    ++ note_if (not (is_empty r.breached_obligations) && is_unflagged v) breach_floor

unfoldable pub enforce_fail_closed : VerificationReport → Envelope → Envelope
unfolding floor_notes
enforce_fail_closed r e = if is_empty (floor_notes e.verdict r) then e else record e {
  verdict = discretionary;
  notes = e.notes ++ floor_notes e.verdict r;
  human_attestation = some (or_required e.human_attestation);
}
