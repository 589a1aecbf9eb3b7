-- ===== src/Ledger/Reproduced.antt =====
-- The auditor reproduces, in format 5, a row that `append_v3` writes in format 5, and accepts its signature.
use text.Mathlib.TextPositions.{eq_refl}
use ski_framework.Prelude.{
  ℕ, ◌≡◌, refl, ap, ◌∙◌, inl, inr, true, Option, none, some, String, bind_intro, Option-cases,
}
use ski_framework.Hex.{Bytes}
use ski_framework.Ledger.{
  Line, entry_payload_v5, canonicalize_json_text, verdict_signing_bytes, evidence_hash, hexdigest,
}
use ski_framework.Ledger.Client.{base_row, line_of, columns_of, evidence_text, id_of, stored_json}
use ski_framework.Ledger.Tables.{Client, Evaluation, Transcript, Runtime, Signer}
use ski_framework.Ledger.Format.{
  Session, strip_column, same_text, stored_line, hashes_to, is_format5, evidence_format,
  entry_format, signed_message, envelope_matches,
}
use ski_framework.Ledger.Sealed.{row5}

same_text_refl : (t : Option String) → same_text t t ≡ true
same_text_refl none = refl
same_text_refl (some t) = eq_refl t

-- JSONB keeps the canonical form of a text that is stored.
abbrev pub Keeps : Runtime → String → Type 0
Keeps run t = canonicalize_json_text run.lib (run.jsonb t) ≡ canonicalize_json_text run.lib t

-- JSONB keeps the canonical forms of the texts that an evaluation stores: its envelope, and its
-- transcript where it has one.
abbrev pub IsKept : Runtime → Evaluation → Type 0
IsKept run e =
    Keeps run (run.dumps e.envelope_dump)
    × ((t : Transcript) → e.transcript ≡ some t → Keeps run (run.dumps t.dump))

module _ (run : Runtime) (session : Session)
    -- the auditor reads an instant as the client wrote it
    (same_zone : (t : ℕ) → session.isoformat t ≡ run.isoformat t) where
  stored_envelope :
      (t : String)
      → Keeps run t
      → evidence_hash run.lib (some (run.jsonb t)) ≡ evidence_hash run.lib (some t)
  unfolding evidence_hash
  stored_envelope t keeps = rw keeps refl

  stored_transcript :
      (o : Option Transcript)
      → ((t : Transcript) → o ≡ some t → Keeps run (run.dumps t.dump))
      → evidence_hash run.lib (stored_json run (evidence_text run o))
        ≡ evidence_hash run.lib (evidence_text run o)
  stored_transcript none keeps = refl
  stored_transcript (some t) keeps = stored_envelope (run.dumps t.dump) (keeps t refl)

  module _ (now : ℕ) (e : Evaluation) (c : Client) (s : Signer) (at : ℕ × String)
      -- the digests of the graph and the weights fill their columns
      (full_graph : strip_column e.kg_version_hash ≡ e.kg_version_hash)
      (full_weights : strip_column e.model_weight_hash ≡ e.model_weight_hash)
      (keeps : IsKept run e) where
    stored_line-line_of :
        (eh th eg : Option String) (payload message : Bytes)
        → stored_line run.lib session (row5 run now e c s at eg payload message) eh th
          ≡ line_of run now e at eh th
    unfolding stored_line line_of base_row
    stored_line-line_of eh th eg payload message = rw (same_zone now) refl

    row5-is_format5 :
        (eh : Option String) (payload message : Bytes) (line : Line)
        → entry_payload_v5 run.lib line (columns_of run e c) ≡ some payload
        → is_format5 run.lib session (row5 run now e c s at eh payload message) line ≡ some true
    unfolding is_format5 hashes_to base_row columns_of
    row5-is_format5 eh payload message line hp =
        rw (full_graph, full_weights, hp, eq_refl (hexdigest run.lib payload)) refl

    pub row5-evidence_format :
        (eh th : Option String) (payload message : Bytes)
        → evidence_hash run.lib (some (run.dumps e.envelope_dump)) ≡ some eh
        → evidence_hash run.lib (evidence_text run e.transcript) ≡ some th
        → entry_payload_v5 run.lib (line_of run now e at eh th) (columns_of run e c) ≡ some payload
        → evidence_format run.lib session (row5 run now e c s at eh payload message) ≡ some 5
    unfolding evidence_format base_row
    row5-evidence_format eh th payload message he ht hp =
        bind_intro _ _ eh _ (stored_envelope (run.dumps e.envelope_dump) keeps.0 ∙ he) (
          bind_intro _ _ th _ (stored_transcript e.transcript keeps.1 ∙ ht) (
            bind_intro _ _ true _
              (ap (is_format5 run.lib session (row5 run now e c s at eh payload message))
                  (stored_line-line_of eh th eh payload message)
                ∙ row5-is_format5 eh payload message (line_of run now e at eh th) hp)
              refl))

    pub row5-entry_format :
        (eh th : Option String) (payload message : Bytes)
        → evidence_format run.lib session (row5 run now e c s at eh payload message) ≡ some 5
        → entry_format run.lib session (row5 run now e c s at eh payload message) ≡ 5
    unfolding entry_format
    row5-entry_format eh th payload message five = rw (entry_format, five) refl

    pub row5-envelope_matches :
        (eh : Option String) (payload message : Bytes)
        → evidence_hash run.lib (some (run.dumps e.envelope_dump)) ≡ some eh
        → envelope_matches run.lib session (row5 run now e c s at eh payload message) ≡ true
    unfolding envelope_matches base_row
    row5-envelope_matches eh payload message he =
        rw (stored_envelope (run.dumps e.envelope_dump) keeps.0 ∙ he) (same_text_refl eh)

    -- the message that the auditor verifies is the one that was signed
    pub row5-signed_message :
        (eh : Option String) (payload message : Bytes)
        → ((t : Transcript)
            → e.transcript ≡ some t
            → session.transcript_id (run.jsonb (run.dumps t.dump)) ≡ some t.transcript_id)
        → verdict_signing_bytes run.lib at.0
            (hexdigest run.lib payload)
            e.telemetry_id
            (id_of run e.transcript)
          ≡ some message
        → signed_message run.lib session (row5 run now e c s at eh payload message) ≡ some message
    unfolding signed_message base_row
    row5-signed_message eh payload message named hm = elim (Option-cases e.transcript) [
      | inl without ↦ rw without (rw without at hm)
      | inr (t, is) ↦ rw (is, named t is) (rw is at hm)
    ]
