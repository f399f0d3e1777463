-- ===== src/Lib.antt =====
-- dent8: a memory of facts for agents, kept as an append-only log of events behind a firewall.
--
-- A fact is known only by its stream of events. `apply_event` folds one event into the fact's state, `replay_fact`
-- folds a stream, a policy leaves events out of the fold, and the firewall refuses an event that the fold refuses or
-- that supersedes a fact without a replacement of its rank. The store asks the firewall before it writes, chains each
-- event to the one before it by its hash, and indexes the log by fact.
--
-- The files and the code that they model:
-- - Prelude and its children: results, decimal numerals, maps in the order of their keys, signed 64-bit integers over
--   the native numbers, and the list lemmas that the parts share.
-- - Model: crates/dent8-core/src/ids.rs and model.rs. Ids has the identifiers and their tests for blank text, Level
--   confidence and authority, Lifetime the TTL, Event the kinds, the event and `validate`.
-- - State: crates/dent8-core/src/state.rs. Defs has the state and its read-time questions, Apply the transition; the
--   other children are about when it accepts (Admission), what it leaves alone (Frame), what sources can add to a
--   fact (Entrenchment) and when a fact is fresh (Freshness).
-- - Policy: crates/dent8-core/src/policy.rs.
-- - Hash: crates/dent8-core/src/hash.rs. Crates has the crates that it calls as a record of functions, Chain the
--   framing and the chain; Framing, Growth and Tamper are about them.
-- - Anchor: the keyed anchor of crates/dent8-core/src/anchor.rs. Compare is about its comparison of codes, History about
--   what a verified anchor says of a log, and Signed has the signed head.
-- - Replay: `replay_fact`, `replay_fact_with_policy` and `fold_fact` of crates/dent8-store/src/lib.rs, and in Diff its
--   `diff_states`; Store has the types of that file that the stores share.
-- - Firewall: crates/dent8-store/src/firewall.rs.
-- - Memory: `InMemoryEventStore` of crates/dent8-store/src/memory.rs. Index, Invariant, Safety and Standing are about
--   it, from one call to any run of calls.
-- - Receipts: `explain` and the other reads of crates/dent8-store/src/memory.rs. Grounded is about what they rest
--   on, Believed about the facts listed as believed.
-- - Subject: `SubjectProjection` and `replay_subject` of crates/dent8-store/src/lib.rs. Projection is about the facts
--   in it, Cycles about the ends of its walks, Chains and Members about the facts on a cycle of supersessions.
-- - Taint: `tainted_facts` of the same file. Search is about the search for an invalidated source, Roots about what it
--   finds and the report.
-- - Registry: crates/dent8-store/src/registry.rs, over any function that scans a store. Enforce is about what passes it.
-- - Sqlite: crates/dent8-store-sqlite/src/lib.rs, as a table of rows and the row of the allocator. Mirror is about the
--   table that holds the log of a store, Groups about what a batch touches, Batch about a batch, Reads about the reads,
--   Reserve about the numbers that the allocator hands out.
-- - Witness: crates/dent8-cli/src/witness.rs, its two lanes of signed heads. Ascending has the sequences of heads that do
--   not shrink, Heads and Publish are about the heads of events and their publication, Grants and Lane about the heads of
--   the grant log.
-- - ContentCheck: crates/dent8-core/src/content_check.rs. Flags is about its flags, Enforce about what it lets through.
-- - Identity: crates/dent8-cli/src/identity/records.rs. Text has the lines of its text, Entitle is about
--   entitled writes, Chained about the chain of the grant log.
-- - Status: the error codes of crates/dent8-cli/src/status.rs.
-- - Ops: crates/dent8-cli/src/ops.rs: the errors, `classify_challenge` and `with_write_retry`, and in Revise
--   `op_supersede`, in Incumbents `op_retract`, `op_reinforce` and `op_expire`. Challenges and Retry are about the first
--   two; Gate is about the gate on earned entrenchment, Ended about the facts that a batch ends, Superseded and Supersede
--   about a supersession, Close about a retraction and an expiration.
-- - Tests: concrete inputs, and the theorems at them.
--
-- State is passed explicitly: a call that changes the store answers with the new store, and a call that fails leaves
-- the caller with the old one, as the code does, which changes nothing before its last failing step. A panic is a
-- `Fault` of its own beside the errors. Loops are structural recursion on the stream, and two loops over graphs take
-- fuel: a walk along supersessions one more than the facts of the subject and one round to see the end, the search for a
-- source one for each edge and the first stack. Both are shown to be enough. Identifiers
-- are strings, times are integers with the bounds of `i64` written out in `checked_add`, digests and their hexadecimal
-- text are lists of bytes. Positions and counts are unbounded numbers: a vector's length is below 2 ^ 63, and a count
-- is at most a sum of such lengths.
--
-- Parameters: `Codec` stands for serde_json, sha2 and hex, and `IsLawful` says what the theorems use of them: the
-- length of a digest, that decoding undoes encoding, and that an encoding is shorter than 2 ^ 64. No theorem assumes
-- that SHA-256 has no collisions; a theorem about a changed log answers otherwise with two different messages of one
-- digest that the chains of the two logs hash at one position.
--
-- `Engine` stands for the JSON of a row and SQLite's own behaviour, `Ed25519` for the signatures and `Lines` for the text
-- of a grant log's lines; `IsFaithful`, `IsSigning` and `IsReadable` say of them that what is written reads back, in
-- one line, and that what is signed verifies. The scanner of the content check, the clock, the environment and the
-- leases of a write are arguments.
--
-- Not modelled: crates/dent8-store-postgres; of crates/dent8-store-sqlite its migrations, its leases and statements that
-- fail; of crates/dent8-cli the other operations of ops.rs, the write that records a survived challenge, the
-- check of the caller's authority before an operation, `verify_grant_records`, and the files, keys, servers, hooks and
-- reports around these; exports, evaluations and clients. Also the canonical form of JSON values, which is serde_json's;
-- the listing of subjects in memory.rs; the escapes of `{:?}`; the texts of messages, which are only printed; and event
-- ids at 2 ^ 63 and above, which the allocator is taken not to reach.
pub mod Prelude
pub mod Model
pub mod State
pub mod Policy
pub mod Replay
pub mod Hash
pub mod Store
pub mod Firewall
pub mod Memory
pub mod Subject
pub mod Taint
pub mod Registry
pub mod Anchor
pub mod Receipts
pub mod Sqlite
pub mod Witness
pub mod ContentCheck
pub mod Identity
pub mod Status
pub mod Ops
pub mod Tests
