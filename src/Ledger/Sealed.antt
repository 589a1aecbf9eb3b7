-- ===== src/Ledger/Sealed.antt =====
-- A row that `append_v3` writes in format 5 is one that the auditor reproduces in format 5.
use mathlib.Core.Path.{subst}
use ski_framework.Prelude.{
  ℕ, ◌≡◌, ap, ◌∙◌, Bool, true, false, Option, some, String, if◌then◌else◌, bind_some,
  some-injective,
}
use ski_framework.Hex.{Bytes}
use ski_framework.Ledger.{Row, entry_payload_v5, verdict_signing_bytes, evidence_hash, hexdigest}
use ski_framework.Ledger.Client.{
  new_row, seal_v5, base_row, line_of, columns_of, signed, evidence_text, id_of,
}
use ski_framework.Ledger.Tables.{Client, Evaluation, Runtime, Signer}

module _ (run : Runtime) (now : ℕ) (e : Evaluation) (c : Client) (s : Signer)
    (at : ℕ × String) where
  -- the row, of the digest of its envelope, its payload and the signature or the message that is signed
  abbrev pub finish : Option String → Bytes → Option String × Option String → Row
  finish eh payload pair = record (base_row run now e at eh (hexdigest run.lib payload)) {
    tenant_id = some (columns_of run e c).tenant_id;
    kg_version_hash = (columns_of run e c).kg_version_hash;
    model_weight_hash = (columns_of run e c).model_weight_hash;
    schema_version = some (columns_of run e c).schema_version;
    verdict_signature = pair.0;
    verdict_signing_key_id = pair.1;
  }

  abbrev pub row5 : Option String → Bytes → Bytes → Row
  row5 eh payload message = finish eh payload (some (s.sign message), some s.key_id)

  -- what the client computed for it
  abbrev pub Sealed : Row → Type 0
  Sealed row =
      (eh : Option String) × (th : Option String) × (payload : Bytes) × (message : Bytes)
      × (evidence_hash run.lib (some (run.dumps e.envelope_dump)) ≡ some eh)
      × (evidence_hash run.lib (evidence_text run e.transcript) ≡ some th)
      × (entry_payload_v5 run.lib (line_of run now e at eh th) (columns_of run e c) ≡ some payload)
      × (verdict_signing_bytes run.lib at.0 (hexdigest run.lib payload) e.telemetry_id
            (id_of run e.transcript)
          ≡ some message)
      × (row5 eh payload message ≡ row)

  -- what was computed after the digests of the evidence
  abbrev Chained : Option String → Option String → Row → Type 0
  Chained eh th row =
      (payload : Bytes) × (message : Bytes) × (entry_payload_v5 run.lib (line_of run now e at eh th)
          (columns_of run e c)
        ≡ some payload)
      × (verdict_signing_bytes run.lib at.0 (hexdigest run.lib payload) e.telemetry_id
            (id_of run e.transcript)
          ≡ some message)
      × (row5 eh payload message ≡ row)

  seal_v5-Chained :
      (eh th : Option String) (row : Row)
      → seal_v5 run now e c (some s) at eh th ≡ some row
      → Chained eh th row
  unfolding seal_v5 signed
  seal_v5-Chained eh th row h =
      let payload =
        bind_some (entry_payload_v5 run.lib (line_of run now e at eh th) (columns_of run e c)) _ row
          h in
      let hash = hexdigest run.lib payload.0 in
      let sealed =
        bind_some (signed run (some s) at.0 hash e.telemetry_id (id_of run e.transcript)) _ row
          payload.2 in
      let message =
        bind_some (verdict_signing_bytes run.lib at.0 hash e.telemetry_id (id_of run e.transcript))
          _ sealed.0 sealed.1 in
      (
        payload.0,
        message.0,
        payload.1,
        message.1,
        ap (finish eh payload.0) (some-injective message.2) ∙ some-injective sealed.2,
      )

  choose-true :
      (b : Bool) (x y : Option Row) (r : Row)
      → b ≡ true
      → (if b then x else y) ≡ some r
      → x ≡ some r
  choose-true true x y r t h = h
  choose-true false x y r t h = cc t

  pub new_row-Sealed :
      (row : Row)
      → c.format5 ≡ true
      → c.signer ≡ some s
      → new_row run now e c at ≡ some row
      → Sealed row
  unfolding new_row
  new_row-Sealed row five keyed h =
      let eh = bind_some (evidence_hash run.lib (some (run.dumps e.envelope_dump))) _ row h in
      let th = bind_some (evidence_hash run.lib (evidence_text run e.transcript)) _ row eh.2 in
      let chained = seal_v5-Chained eh.0 th.0 row (
        subst (λ k. seal_v5 run now e c k at eh.0 th.0 ≡ some row) keyed
          (choose-true c.format5 _ _ row five th.2)) in
      (eh.0, th.0, chained.0, chained.1, eh.1, th.1, chained.2, chained.3, chained.4)
