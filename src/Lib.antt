-- ===== src/Lib.antt =====
-- The verdict path and the audit ledger of ski-framework: how a model's answer about a measurement
-- becomes a verdict envelope, and how the envelope is recorded so that an auditor can check it.
--
-- A measurement and the obligations of a scoped knowledge graph are given to a language model.
-- Its answer is never taken as it stands: the symbolic verifier checks what the answer asserts
-- and evaluates every mapped obligation itself, the evaluator guards the verdict and gates it on
-- fresh telemetry, the risk-tier policy may send it to human review, and a last floor holds back
-- what no tier may let through.
--
-- The ledger client hashes each verdict with its evidence, chains the hash to the entry before it,
-- and signs the entry's position; at intervals it signs the root of a tree over all hashes. The
-- auditor reads the rows, recomputes every hash, and checks the chain, the signatures and the roots.
-- All hashes are of canonical JSON.
--
-- Value: the JSON values that the Python code handles as `Any`, with Python's equality, `get`
--   and `in`; Value/Numeric, exact numbers as fractions; Value/Case and Value/Text, `strip`,
--   `lower` and `split` of texts.
-- Schema: tools/ski-schemas/src/ski_schemas/envelope.py. Messages (divergences and notes) are
--   values that say which message it is; their wording is left out.
-- Verifier: reference-implementation/src/ski_model/v3/verifier.py. Handlers and Window hold the
--   predicate handlers; Predicates the tables and `check_assertion`; Grounding
--   `_grounding_violation` and `_obligation_grounding_violation`; Enumerate
--   `_enumerable_obligations` and `index_obligations`; Tally `_Tally`; Verify
--   `normalize_satisfied`, `verify_report` and `averify_report`; Inputs
--   `measurement_input_errors`, with its proof in Inputs/Accepted. The other modules are proofs:
--   Checks and Peak of the handlers, Breach, Reported and Agreed of the reports, Normal of
--   the normalisation, Complete of the index.
-- Graph: `compile_graph` of reference-implementation/src/ski_model/kg_graph.py. Graph itself has the
--   nodes and edges, Compile the obligations, Texts the sets of texts; Descend, Edges, Compiled,
--   Owned, Tiered and Routed are proofs.
-- Loader: `KnowledgeGraph.from_dict` of reference-implementation/src/ski_model/kg_loader.py, with the
--   conversion of the flat shape (tools/ski-schemas/src/ski_schemas/kg_graph.py) in Loader/Flat and
--   its proofs in Loader/Trusted.
-- Sovereignty: reference-implementation/src/ski_model/sovereignty.py. Sovereignty itself has the hosts
--   and the checks, Start the stages of the start-up (`lifespan` of server.py in the same directory),
--   Egress the guard of the process and the gate of `evaluate`; Strict, Guarded and Inside are
--   proofs, the last of which joins the two.
-- Scope: `KnowledgeGraph.scope_to` of reference-implementation/src/ski_model/kg_loader.py, the
--   slice of the graph that a measurement is judged by, with its proofs in Scope/Kept and Scope/Applies.
-- Governor: `RiskTierGovernor` of reference-implementation/src/tag_registry/registry.py, with
--   its proof in Governor/Strictest.
-- Registry: `TagRegistry` of the same file, with its proof in Registry/Latest.
-- Policy: reference-implementation/src/ski_model/v3/policies/risk_tier.py, with its proofs in
--   Policy/Tiers.
-- Monitor: reference-implementation/src/ski_model/v3/agreement_monitor.py, the rolling window of
--   statuses, with its proofs in Monitor/Rolling.
-- Evaluator: `V3Evaluator.aevaluate_with_transcript` of
--   reference-implementation/src/ski_model/v3/evaluator.py; Missing is `_missing_telemetry`,
--   Freshness `_freshness_gate` and `_apply_freshness`, FailClosed `_enforce_fail_closed`, and
--   Citations the citation enforcement, Raises the exceptions on documents that nothing has
--   validated. Floor, Decided, Clear, TierOne, Shipped and Stale are
--   proofs over the whole evaluation.
-- Hex: bytes and their hexadecimal spelling, with the proof that it reads back in Hex/Roundtrip.
-- Merkle: tools/ski-schemas/src/ski_schemas/merkle.py. Shift, Slices, Split and Unfold are lemmas
--   on powers of two, slices, the two loops on numbers and the recursion of root and path; Climb,
--   Complete and Accepted follow `verify_inclusion` along a path; Hashed is the texts that are hashed; Injective, Binding and Pinned
--   tell what an accepted proof or an equal root shows.
-- Canonical: tools/ski-schemas/src/ski_schemas/canonical.py. Text and Number are the forms of texts
--   and numbers, Parse is `parse_json` and its hooks; Order and Reorder are proofs.
-- Ledger: tools/ski-schemas/src/ski_schemas/ledger.py and the row of `ledger_entries`.
--   Ledger/Tables, Client and Checkpoints: reference-implementation/src/ski_model/ledger_client.py.
--   Ledger/Keys: tools/audit-ledger/src/audit_ledger/evidence.py. Ledger/Format and Audit:
--   `verify_integrity` of tools/audit-ledger/src/audit_ledger/ledger.py. Linked is about ledgers that verify; Sealed,
--   Reproduced, Honest and Valid about ledgers that the client writes; Covered and Rewritten
--   about checkpoints.
-- Examples: concrete runs.
--
-- State: the verifier's tally is a record that each turn of a loop takes and gives back; the
-- evaluator has no state between calls. An exception that the code lets through is the value
-- `none` of `aevaluate`. The ledger client's fields and the tables are records
-- that each step takes and gives back; a step that raises leaves the tables as they were, and is
-- the value `none`. Most loops are structural recursion, over lists and over JSON values. Five have
-- fuel: `split_from` (the size, more than its logarithm), `halve` (the number that is halved, more
-- than its count of zeros), `root` and `path` (the count of leaves, not less than the depth), and `descend` (the roots and
-- the jurisdictions, each of which it takes off the stack at most once; out of fuel it gives nothing);
-- the theorems on accepted proofs and on `split` hold with that fuel. `decimal` prints an exponent
-- of at most 400 digits. Integers are unbounded, as Python's are; a finite double is the dyadic
-- rational that it stands for, and comparisons are exact, as Python's are.
--
-- Parameters: `parse`, the validation of the model's answer by pydantic; `lower_other`,
-- `str.lower` of a text that is not ASCII; `from_iso`, `datetime.fromisoformat`; `divide`, the
-- division of two integers into a double; `Buffer`, the answers of a telemetry buffer, which
-- do not change within one evaluation; SHA-256, with the hypothesis that it gives 32 bytes
-- where a theorem needs it; Unicode's NFC, `repr` and `float` of a number, `json.dumps` and
-- `json.loads`; the text that JSONB gives back, with the hypothesis that its canonical form is
-- kept; the clock and `isoformat`; `ip_address`, `urlsplit` and the answers of `getaddrinfo`; the loading of keys and the verification of signatures. A
-- table lists its rows in the order of their sequence numbers; a CHAR column holds texts of
-- its width; the constraints of the tables are not checked.
--
-- Not modelled: the prompt and the model's backends, the signing of transcripts, provenance, the
-- database of the telemetry buffer, the ledger's migrations, time-stamps and exported checkpoint
-- files, the reason of a verifier's outcome, the warnings and reports of the auditor, the replay of verdicts, the HTTP server but for
-- the two parts of it under Sovereignty, the PEM bundle of trust anchors, and the command-line tools,
-- which are input and output around the parts above; and the earlier rule evaluator
-- (reference-implementation/src/symbolic_evaluator), which the runtime builds and never calls.
pub mod Prelude
pub mod Value
pub mod Hex
pub mod Merkle
pub mod Canonical
pub mod Ledger
pub mod Schema
pub mod Verifier
pub mod Scope
pub mod Graph
pub mod Loader
pub mod Governor
pub mod Registry
pub mod Policy
pub mod Sovereignty
pub mod Monitor
pub mod Evaluator
pub mod Examples
