-- ===== src/Ledger/Honest.antt =====
-- A ledger that a signing client writes verifies: ledger_client.py and audit_ledger/ledger.py together.
use ski_framework.Prelude.{
  ℕ, ◌+◌, ◌≤◌, ◌≡◌, refl, sym, ap, ◌∙◌, Bool, true, false, Option, none, some, List, [], ◌∷◌, ◌++◌,
  ◌==◌, ltb, if◌then◌else◌, ◌>>=◌, length, length-append, str_eq, arith, bind_some, bind_intro,
  some-injective,
}
use text.Mathlib.TextPositions.{eq_refl}
use mathlib.Core.Path.{subst}
use ski_framework.Hex.{Bytes}
use ski_framework.Ledger.{Row, genesis_hash}
use ski_framework.Ledger.Client.{new_row, base_row, append_v3}
use ski_framework.Ledger.Tables.{
  Client, Evaluation, Transcript, Runtime, Signer, Store, latest, next_position,
}
use ski_framework.Ledger.Keys.{
  Issue, issue, verdict_signature_invalid, untrusted_signing_key, Crypto, KeyRing, get_key,
  is_trusted, signature_valid,
}
use ski_framework.Ledger.Audit.{
  Progress, start, unless, verifies, in_order, signature_issues, position_issues, row_issues,
  check_row, check_rows,
}
use ski_framework.Ledger.Format.{
  Session, strip_column, entry_format, signed_message, envelope_matches,
}
use ski_framework.Ledger.Sealed.{new_row-Sealed}
use ski_framework.Ledger.Reproduced.{
  IsKept, row5-evidence_format, row5-entry_format, row5-envelope_matches, row5-signed_message,
}

latest-append : (rows : List Row) (r : Row) → latest (rows ++ (r ∷ [])) ≡ some r
unfolding latest
latest-append [] r = refl
latest-append (x ∷ []) r = refl
latest-append (x ∷ y ∷ rows) r = latest-append (y ∷ rows) r

-- no issue of a signature that verifies under a trusted key
accepted :
    (valid trusted : Bool) (n : ℕ)
    → valid ≡ true
    → trusted ≡ true
    → (elim valid as (λ _. Option (List Issue)) [
      | false ↦ some (issue verdict_signature_invalid n ∷ [])
      | true ↦ some (unless trusted untrusted_signing_key n)
    ])
      ≡ some []
accepted valid trusted n v t = rw (v, t) refl

-- the time of the last row
abbrev pub stamp : Option Row → Option ℕ
stamp none = none
stamp (some r) = some r.timestamp

-- What the loop has found of rows that are all in order: no issue, and each row counted.
abbrev pub IsClean : Progress → List Row → Type 0
IsClean p rows =
    (p.issues ≡ [])
    × (p.expected_seq ≡ (next_position (latest rows)).0)
    × (p.prev_hash ≡ (next_position (latest rows)).1)
    × (p.prev_timestamp ≡ stamp (latest rows))
    × (p.max_format ≤ 5)
    × (p.chain_link_verified ≡ length rows)
    × (p.entry_hash_verified ≡ length rows)
    × (p.verdict_signatures_verified ≡ length rows)

module _ (run : Runtime) (session : Session) (Key : Type 0) (crypto : Crypto Key)
    (ring : KeyRing Key) where
  check_rows-append :
      (rows : List Row) (p q : Progress) (r : Row)
      → check_rows run.lib session Key crypto ring p rows ≡ some q
      → check_rows run.lib session Key crypto ring p (rows ++ (r ∷ []))
        ≡ check_row run.lib session Key crypto ring q r
  unfolding check_rows
  check_rows-append [] p q r h = rw (some-injective h) (bind-some_id _)
    where
      bind-some_id : (m : Option Progress) → (m >>= λ x. some x) ≡ m
      bind-some_id none = refl
      bind-some_id (some x) = refl
  check_rows-append (x ∷ rows) p q r h =
      let first = bind_some (check_row run.lib session Key crypto ring p x) _ q h in
      bind_intro _ _ first.0 _ first.1 (check_rows-append rows first.0 q r first.2)

  -- a row of format 5 in its place, with its signature accepted
  abbrev IsInPlace : Progress → Row → Type 0
  IsInPlace p row =
      (entry_format run.lib session row ≡ 5)
      × (envelope_matches run.lib session row ≡ true)
      × (signature_issues run.lib session Key crypto ring row ≡ some [])
      × (row.sequence_number ≡ p.expected_seq)
      × (row.previous_hash ≡ p.prev_hash)
      × (in_order p.prev_timestamp row.timestamp ≡ true)

  position_issues-in_place :
      (row : Row)
      → entry_format run.lib session row ≡ 5
      → signature_issues run.lib session Key crypto ring row ≡ some []
      → position_issues run.lib session Key crypto ring row ≡ some []
  unfolding position_issues
  position_issues-in_place row five signed = rw (position_issues, five, signed) refl

  row_issues-in_place :
      (p : Progress) (row : Row)
      → p.max_format ≤ 5
      → IsInPlace p row
      → row_issues run.lib session Key crypto ring p row [] ≡ []
  unfolding row_issues
  row_issues-in_place p row low (five, env, signed, seq, link, order) =
      let sequence : (row.sequence_number == p.expected_seq) ≡ true = ground arith in
      let linked : str_eq row.previous_hash p.prev_hash ≡ true = rw link (eq_refl p.prev_hash) in
      let newer : ltb 5 p.max_format ≡ false = ground arith in
      rw (row_issues, five, sequence, linked, newer, env, order) refl

  -- the loop's variables after a row in its place
  abbrev advanced : Progress → Row → Progress
  advanced p row = record p {
    issues = [];
    prev_hash = row.entry_hash;
    prev_timestamp = some row.timestamp;
    expected_seq = row.sequence_number + 1;
    chain_link_verified = p.chain_link_verified + 1;
    entry_hash_verified = p.entry_hash_verified + 1;
    max_format = 5;
    verdict_signatures_verified = p.verdict_signatures_verified + 1;
    v5_entries = p.v5_entries + 1;
  }

  check_row-in_place :
      (p : Progress) (row : Row)
      → p.issues ≡ []
      → p.max_format ≤ 5
      → IsInPlace p row
      → check_row run.lib session Key crypto ring p row ≡ some (advanced p row)
  unfolding check_row
  check_row-in_place p row none_yet low (five, env, signed, seq, link, order) =
      let sequence : (row.sequence_number == p.expected_seq) ≡ true = ground arith in
      let linked : str_eq row.previous_hash p.prev_hash ≡ true = rw link (eq_refl p.prev_hash) in
      let newer : ltb 5 p.max_format ≡ false = ground arith in
      let best : (if ltb p.max_format 5 then 5 else p.max_format) ≡ 5 = ground arith in
      let signature = position_issues-in_place row five signed in
      let found = row_issues-in_place p row low (five, env, signed, seq, link, order) in
      bind_intro _ _ [] _ signature
        (rw (found, none_yet, five, sequence, linked, newer, order, best) refl)

  advanced-IsClean :
      (p : Progress) (rows : List Row) (row : Row)
      → IsClean p rows
      → IsClean (advanced p row) (rows ++ (row ∷ []))
  unfolding next_position
  advanced-IsClean p rows row (none_yet, seq, link, time, low, links, hashes, signatures) =
      let more = length-append rows (row ∷ []) in
      (
        refl,
        rw (latest-append rows row) refl,
        rw (latest-append rows row) refl,
        rw (latest-append rows row) refl,
        omega arith,
        omega (arith, links, more),
        omega (arith, hashes, more),
        omega (arith, signatures, more),
      )

  -- Rows that the auditor's loop goes through without an issue.
  abbrev pub IsAudited : List Row → Type 0
  IsAudited rows =
      (p : Progress) × (check_rows run.lib session Key crypto ring start rows ≡ some p)
      × IsClean p rows

  pub none-IsAudited : IsAudited []
  unfolding check_rows start latest next_position genesis_hash
  none-IsAudited = (start, refl, (refl, refl, refl, refl, omega arith, refl, refl, refl))

  module _ (s : Signer) (k : Key) (same_zone : (t : ℕ) → session.isoformat t ≡ run.isoformat t)
      (held : get_key Key run.lib crypto ring (some s.key_id) ≡ some k)
      (trusted : is_trusted Key run.lib crypto ring (some s.key_id) ≡ true)
      (signs : (m : Bytes) → signature_valid Key run.lib crypto k m (some (s.sign m)) ≡ true) where
    signed-empty :
        (row : Row) (message : Bytes)
        → signed_message run.lib session row ≡ some message
        → row.verdict_signature ≡ some (s.sign message)
        → row.verdict_signing_key_id ≡ some s.key_id
        → signature_issues run.lib session Key crypto ring row ≡ some []
    unfolding signature_issues
    signed-empty row message hm sig id = bind_intro _ _ message _ hm (
        accepted
          (verifies run.lib session Key crypto ring
            (get_key Key run.lib crypto ring row.verdict_signing_key_id) message
            row.verdict_signature)
          (is_trusted Key run.lib crypto ring row.verdict_signing_key_id) row.sequence_number
          (subst
            (λ o. verifies run.lib session Key crypto ring o message row.verdict_signature ≡ true)
            (sym (ap (get_key Key run.lib crypto ring) id ∙ held))
            (ap (signature_valid Key run.lib crypto k message) sig ∙ signs message))
          (ap (is_trusted Key run.lib crypto ring) id ∙ trusted))

    -- an evaluation whose columns hold what they are given
    abbrev pub IsRecorded : Evaluation → Type 0
    IsRecorded e =
        (strip_column e.kg_version_hash ≡ e.kg_version_hash)
        × (strip_column e.model_weight_hash ≡ e.model_weight_hash)
        × IsKept run e
        × ((t : Transcript)
            → e.transcript ≡ some t
            → session.transcript_id (run.jsonb (run.dumps t.dump)) ≡ some t.transcript_id)

    new_row-IsInPlace :
        (now : ℕ) (e : Evaluation) (c : Client) (rows : List Row) (p : Progress) (row : Row)
        → c.format5 ≡ true
        → c.signer ≡ some s
        → IsRecorded e
        → in_order (stamp (latest rows)) now ≡ true
        → IsClean p rows
        → new_row run now e c (next_position (latest rows)) ≡ some row
        → IsInPlace p row
    unfolding base_row
    new_row-IsInPlace now e c rows p row five keyed (graph, weights, kept, named) later clean h =
        let at = next_position (latest rows) in
        let (eh, th, payload, message, he, ht, hp, hm, is) =
          new_row-Sealed run now e c s at row five keyed h in
        let chained =
          row5-evidence_format run session same_zone now e c s at graph weights kept eh th payload
            message he ht hp in
        subst (λ x. IsInPlace p x) is
          (
            row5-entry_format run session same_zone now e c s at graph weights kept eh th payload
                message chained,
            row5-envelope_matches run session same_zone now e c s at graph weights kept eh payload
                message he,
            signed-empty _ message
                (row5-signed_message run session same_zone now e c s at graph weights kept eh
                  payload message named hm)
                refl refl,
            sym clean.1,
            sym clean.2,
            rw clean.3 later,
          )

    -- Let the client sign with a key that the auditor holds and trusts, and let the auditor read
    -- an instant as the client wrote it. Let the auditor's loop go through the rows of a table
    -- without an issue and count each, and let `append_v3` in format 5 add a row at a time that is
    -- not before the last one, for an evaluation of which JSONB keeps the canonical forms of the
    -- envelope and the transcript, and the columns hold the other values. Then the same holds of
    -- the table with the new row.
    pub append_v3-IsAudited :
        (now : ℕ) (e : Evaluation) (c : Client) (db after : Store)
        → c.format5 ≡ true
        → c.signer ≡ some s
        → IsRecorded e
        → in_order (stamp (latest db.entries)) now ≡ true
        → IsAudited db.entries
        → append_v3 run now e c db ≡ some after
        → IsAudited after.entries
    unfolding append_v3
    append_v3-IsAudited now e c db after five keyed recorded later (p, ran, clean) h =
        let (row, made, is) =
          bind_some (new_row run now e c (next_position (latest db.entries))) _ after h in
        let place =
          new_row-IsInPlace now e c db.entries p row five keyed recorded later clean made in
        subst (λ (d : Store). IsAudited d.entries) (some-injective is)
          (
            advanced p row,
            check_rows-append db.entries start p row ran
                ∙ check_row-in_place p row clean.0 clean.4 place,
            advanced-IsClean p db.entries row clean,
          )
