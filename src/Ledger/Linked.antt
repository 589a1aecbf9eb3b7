-- ===== src/Ledger/Linked.antt =====
-- What a ledger that audit_ledger/ledger.py finds valid is: a chain of rows whose hashes are those of
-- their contents.
use ski_framework.Prelude.{
  ℕ, ◌+◌, ◌≡◌, refl, sym, ap, ◌∙◌, ◌⊎◌, inl, inr, Bool, true, false, not, Option, none, some, List,
  [], ◌∷◌, ◌++◌, String, ◌==◌, is_empty, str_eq, eq_iff, arith, bind_some, some-injective,
  Bool-cases, Option-cases,
}
use ski_framework.Hex.{Bytes}
use ski_framework.Ledger.{
  Library, Line, Columns, Row, canonical_entry_payload, entry_payload_v4, entry_payload_v5,
  evidence_hash, hexdigest, genesis_hash,
}
use ski_framework.Ledger.Tables.{Checkpoint, entry_hashes}
use ski_framework.Ledger.Keys.{IssueType, Issue, Crypto, KeyRing, verify_checkpoints}
use ski_framework.Ledger.Audit.{
  Progress, Result, start, unless, in_order, position_issues, row_issues, check_row, check_rows,
  verify_with,
}
use ski_framework.Ledger.Format.{
  Session, strip_column, stored_line, hashes_to, is_format5, evidence_format, entry_format,
}

append-empty : {A : Type 0} (xs ys : List A) → xs ++ ys ≡ [] → (xs ≡ []) × (ys ≡ [])
append-empty [] ys e = (refl, e)
append-empty (x ∷ xs) ys e = cc e

unless-empty : (b : Bool) (t : IssueType) (n : ℕ) → unless b t n ≡ [] → b ≡ true
unless-empty true t n e = refl
unless-empty false t n e = cc e

is_empty-nil : {A : Type 0} (xs : List A) → is_empty xs ≡ true → xs ≡ []
is_empty-nil [] e = refl
is_empty-nil (x ∷ xs) e = cc e

not-true : (b : Bool) → not b ≡ true → b ≡ false
not-true b e = ground arith

eq_number : (a b : ℕ) → (a == b) ≡ true → a ≡ b
eq_number a b e = ground arith

module _ (lib : Library) (session : Session) where
  -- the stored hash is that of a payload
  abbrev Hashes : Row → Bytes → Type 0
  Hashes row payload = hexdigest lib payload ≡ row.entry_hash

  -- The stored hash is the digest of the row's content, in the format 3, 4 or 5.
  abbrev pub IsFormat3 : Row → Type 0
  IsFormat3 row = Hashes row (canonical_entry_payload lib (stored_line lib session row none none))

  abbrev pub IsFormat4 : Row → Type 0
  IsFormat4 row =
      (eh : Option String) × (th : Option String) × (payload : Bytes) × (evidence_hash lib
          row.envelope_json
        ≡ some eh)
      × (evidence_hash lib row.transcript_json ≡ some th)
      × (entry_payload_v4 lib (stored_line lib session row eh th) ≡ some payload)
      × Hashes row payload

  abbrev pub IsFormat5 : Row → Type 0
  IsFormat5 row =
      (eh : Option String) × (th : Option String) × (tenant : String) × (version : String)
      × (payload : Bytes) × (evidence_hash lib row.envelope_json ≡ some eh)
      × (evidence_hash lib row.transcript_json ≡ some th)
      × (row.tenant_id ≡ some tenant)
      × (row.schema_version ≡ some version)
      × (entry_payload_v5 lib (stored_line lib session row eh th) (record {
        tenant_id = tenant;
        kg_version_hash = strip_column row.kg_version_hash;
        model_weight_hash = strip_column row.model_weight_hash;
        schema_version = version;
      })
          ≡ some payload)
      × Hashes row payload

  abbrev pub IsReproduced : Row → Type 0
  IsReproduced row = IsFormat3 row ⊎ (IsFormat4 row ⊎ IsFormat5 row)

  hashes_to-Hashes :
      (row : Row) (payload : Bytes) → hashes_to lib session row payload ≡ true → Hashes row payload
  unfolding hashes_to
  hashes_to-Hashes row payload h = (eq_iff (hexdigest lib payload) row.entry_hash).0 h

  -- what a row of format 5 has, for a given line
  abbrev Chains5 : Row → Line → Type 0
  Chains5 row line =
      (tenant : String) × (version : String) × (payload : Bytes) × (row.tenant_id ≡ some tenant)
      × (row.schema_version ≡ some version)
      × (entry_payload_v5 lib line (record {
        tenant_id = tenant;
        kg_version_hash = strip_column row.kg_version_hash;
        model_weight_hash = strip_column row.model_weight_hash;
        schema_version = version;
      })
          ≡ some payload)
      × Hashes row payload

  is_format5-Chains5 :
      (row : Row) (line : Line) → is_format5 lib session row line ≡ some true → Chains5 row line
  unfolding is_format5
  is_format5-Chains5 row line h = elim (Option-cases row.tenant_id) [
    | inl missing ↦ cc (rw missing at h)
    | inr (tenant, t) ↦ elim (Option-cases row.schema_version) [
      | inl missing ↦ cc (rw (t, missing) at h)
      | inr (version, v) ↦
          let columns : Columns = record {
            tenant_id = tenant;
            kg_version_hash = strip_column row.kg_version_hash;
            model_weight_hash = strip_column row.model_weight_hash;
            schema_version = version;
          } in
          let found = bind_some (entry_payload_v5 lib line columns) _ true (rw (t, v) at h) in
          (
            tenant,
            version,
            found.0,
            t,
            v,
            found.1,
            hashes_to-Hashes row found.0 (some-injective found.2),
          )
    ]
  ]

  evidence_format-cases :
      (row : Row) (f : ℕ)
      → evidence_format lib session row ≡ some f
      → (IsFormat4 row ⊎ IsFormat5 row) ⊎ (f ≡ 3)
  unfolding evidence_format
  evidence_format-cases row f h =
      let e = bind_some (evidence_hash lib row.envelope_json) _ f h in
      let t = bind_some (evidence_hash lib row.transcript_json) _ f e.2 in
      let line = stored_line lib session row e.0 t.0 in
      let five = bind_some (is_format5 lib session row line) _ f t.2 in
      elim (Bool-cases five.0) [
        | inl is5 ↦
            let c = is_format5-Chains5 row line (five.1 ∙ ap some is5) in
            inl (inr (e.0, t.0, c.0, c.1, c.2, e.1, t.1, c.3, c.4, c.5, c.6))
        | inr older ↦
            let four = bind_some (entry_payload_v4 lib line) _ f (rw older at five.2) in
            elim (Bool-cases (hashes_to lib session row four.0)) [
              | inl same ↦
                  inl (inl (e.0, t.0, four.0, e.1, t.1, four.1, hashes_to-Hashes row four.0 same))
              | inr other ↦ inr (cc (rw other at four.2))
            ]
      ]

  entry_format-IsReproduced :
      (row : Row) → (entry_format lib session row == 0) ≡ false → IsReproduced row
  unfolding entry_format
  entry_format-IsReproduced row h = elim (Option-cases (evidence_format lib session row)) [
    | inl raised ↦
        elim (Bool-cases (
          hashes_to lib session row
            (canonical_entry_payload lib (stored_line lib session row none none)))) [
              | inl same ↦ inl (hashes_to-Hashes row _ same)
              | inr other ↦ cc (rw (entry_format, raised, other) at h)
            ]
    | inr (f, found) ↦ elim (evidence_format-cases row f found) [
      | inl chained ↦ inr chained
      | inr three ↦
          elim (Bool-cases (
            hashes_to lib session row
              (canonical_entry_payload lib (stored_line lib session row none none)))) [
                | inl same ↦ inl (hashes_to-Hashes row _ same)
                | inr other ↦ cc (rw (entry_format, found, three, other) at h)
              ]
    ]
  ]

  -- A chain from a hash, a time and a sequence number: each row follows the one before it, and its hash
  -- is that of its content.
  abbrev pub IsLinked : String → Option ℕ → ℕ → List Row → Type 0
  IsLinked hash time n [] = Unit
  IsLinked hash time n (row ∷ rows) =
      (row.sequence_number ≡ n)
      × (row.previous_hash ≡ hash)
      × (in_order time row.timestamp ≡ true)
      × IsReproduced row
      × IsLinked row.entry_hash (some row.timestamp) (row.sequence_number + 1) rows

  module _ (Key : Type 0) (crypto : Crypto Key) (ring : KeyRing Key) where
    row_issues-empty :
        (p : Progress) (row : Row) (signature : List Issue)
        → row_issues lib session Key crypto ring p row signature ≡ []
        → (row.sequence_number ≡ p.expected_seq)
          × (row.previous_hash ≡ p.prev_hash)
          × (in_order p.prev_timestamp row.timestamp ≡ true)
          × IsReproduced row
    unfolding row_issues
    row_issues-empty p row signature h =
        let f = entry_format lib session row in
        let a = append-empty _ _ h in
        let b = append-empty _ _ a.1 in
        let c = append-empty _ _ b.1 in
        let d = append-empty _ _ c.1 in
        let e = append-empty _ _ d.1 in
        let g = append-empty signature _ e.1 in
        (
          eq_number row.sequence_number p.expected_seq
              (unless-empty (row.sequence_number == p.expected_seq) _ _ a.0),
          (eq_iff row.previous_hash p.prev_hash).0
              (unless-empty (str_eq row.previous_hash p.prev_hash) _ _ b.0),
          unless-empty (in_order p.prev_timestamp row.timestamp) _ _ g.1,
          entry_format-IsReproduced row (not-true (f == 0) (unless-empty (not (f == 0)) _ _ c.0)),
        )

    check_row-fields :
        (p q : Progress) (row : Row)
        → check_row lib session Key crypto ring p row ≡ some q
        → (signature : List Issue) × (q.issues
            ≡ p.issues ++ row_issues lib session Key crypto ring p row signature)
          × (q.prev_hash ≡ row.entry_hash)
          × (q.prev_timestamp ≡ some row.timestamp)
          × (q.expected_seq ≡ row.sequence_number + 1)
    unfolding check_row
    check_row-fields p q row h =
        let s = bind_some (position_issues lib session Key crypto ring row) _ q h in
        let same = some-injective s.2 in
        (
          s.0,
          ap (λ (x : Progress). x.issues) (sym same),
          ap (λ (x : Progress). x.prev_hash) (sym same),
          ap (λ (x : Progress). x.prev_timestamp) (sym same),
          ap (λ (x : Progress). x.expected_seq) (sym same),
        )

    check_rows-IsLinked :
        (rows : List Row) (p q : Progress)
        → check_rows lib session Key crypto ring p rows ≡ some q
        → q.issues ≡ []
        → (p.issues ≡ []) × IsLinked p.prev_hash p.prev_timestamp p.expected_seq rows
    unfolding check_rows
    check_rows-IsLinked [] p q h clean =
        (ap (λ (x : Progress). x.issues) (some-injective h) ∙ clean, tt)
    check_rows-IsLinked (row ∷ rows) p q h clean =
        let first = bind_some (check_row lib session Key crypto ring p row) _ q h in
        let tail = check_rows-IsLinked rows first.0 q first.2 clean in
        let fields = check_row-fields p first.0 row first.1 in
        let parts = append-empty p.issues _ (sym fields.1 ∙ tail.0) in
        let here = row_issues-empty p row fields.0 parts.1 in
        (parts.0, (here.0, here.1, here.2, here.3, rw (fields.2, fields.3, fields.4) at tail.1))

    -- If a verification gives a valid result, the rows are a chain from the genesis hash and the
    -- sequence number 1: each row has the next number and the hash of the row before it, is not
    -- earlier than it, and stores the digest of its own content in the format 3, 4 or 5.
    pub verify_with-IsLinked :
        (rows : List Row) (checkpoints : List Checkpoint) (r : Result)
        → verify_with lib session Key crypto ring rows checkpoints ≡ some r
        → r.is_valid ≡ true
        → IsLinked genesis_hash none 1 rows
    unfolding verify_with start genesis_hash
    verify_with-IsLinked [] checkpoints r h valid = tt
    verify_with-IsLinked (row ∷ rows) checkpoints r h valid =
        let loop = bind_some (check_rows lib session Key crypto ring start (row ∷ rows)) _ r h in
        let last =
          bind_some (verify_checkpoints Key lib crypto checkpoints (entry_hashes (row ∷ rows)) ring)
            _ r loop.2 in
        let found = ap (λ (x : Result). x.is_valid) (some-injective last.2) ∙ valid in
        let clean = append-empty loop.0.issues _ (is_empty-nil _ found) in
        (check_rows-IsLinked (row ∷ rows) start loop.0 loop.1 clean.0).1
