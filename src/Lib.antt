-- ===== src/Lib.antt =====
-- A verification library of the sync client: the crates crates/surrealdb-sync-protocol and
-- crates/surrealdb-sync-client, which keep a durable journal of local writes (the outbox), their
-- outcomes, the rows that the server confirmed and the live subscription windows, and derive from
-- them what the application reads; and of the bounded helpers of crates/surrealdb-rn-core, which
-- put that client behind a bridge.
--
-- The parts, and how they interact. A `ClientRuntime` holds one `DurableClientState`. Each of its
-- calls prepares a transition from that state and a message: a whole new state with the revision
-- that it was prepared at. The caller persists the new state and installs it, which fails if the
-- state was changed in between. Every prepared state is checked by `validate`. Reads and
-- subscription views are computed from the installed state.
--
-- - Base: the parts of Rust that the crates use. Base/Results is Result with `?` as a bind, Base/Bytes
--   strings as lists of bytes in byte-wise order, Base/BTreeMap ordered maps as association lists
--   (`remove` drops every entry of the key), Base/Distinct the sets that find duplicates.
-- - Protocol: crates/surrealdb-sync-protocol/src/lib.rs. Protocol/Subscription: subscription.rs there.
-- - Client: the state types of crates/surrealdb-sync-client/src/lib.rs and subscriptions.rs.
--   Client/Commits and Client/Validate: the checks of lib.rs, with `validate_coverage` of read.rs.
--   Client/Slots: the tables of subscriptions.rs and their validation. Client/Remap: id mappings.
--   Client/Projection: optimistic rows. Client/Runtime: enqueue, push responses, conflict resolution,
--   prepare and install. Client/Runtime/Pull: pull batches, resets and bootstrap snapshots.
--   Client/Subscriptions with Window and View: start, cancel, window responses and views.
--   Client/Read: read.rs, and Read/Batch what a reader does with its batches.
-- - Client/History: the life of a journal as a list of events, one for each call that changes the
--   state. Client/History/Change is the abstract account of one change, which Refine compares with
--   the code; Steps, Kept, Frontier, Revision, Scope, Enqueue, Rows, Retried, Cancelled and Accept
--   follow from it; Resolve and Replacement are about the resolution of
--   conflicts.
--
-- - Protocol/Canonical: canonical.rs of the protocol crate. Budget checks a value's size, Scan walks
--   over encoded bytes, Cbor converts from and to the values of Ciborium, Codec encodes, decodes and
--   takes fingerprints. Sorting, Eased, Spent, RoundTrip, Types, Encode, Decode, Prefix, Fingerprint
--   and Identity are their theorems.
-- - Core: crates/surrealdb-rn-core/src. Core/ReadJournal is sync_read.rs, the bounded journal of
--   committed batches that a reader replays. Core/RuntimeState is the part of sync_client.rs that
--   installs a persisted transition and records its batch.
--   Core/Queue is sync_queue.rs, the window of pending commits. Core/View is sync_view.rs: selectors
--   and budgets, with Effective, Summary, Select and Page. Core/Json is the JSON value that it reads.
--   Core/Diagnostics is sync_diagnostics.rs, the counters of the runtime's phases.
--
-- How the state corresponds to the code. Structs are records and enums are data types with the
-- source's names in snake case. A method that takes `&self` is a function of the runtime, and
-- `&mut self` is state passing. Early returns are the error cases of a `Result`. A stored value is of
-- any type V with decidable equality, as the crates ask only Clone and Eq of it.
--
-- Bounds and fuel. Numbers are unbounded except where the code computes with them: `checked_add` and
-- `saturating_add` stop at 2^64 - 1, and the run of sequences of a pull batch wraps at 2^64 as it
-- does in release builds (a debug build panics there). `decimal` prints a number n with fuel n + 1,
-- more than its digits. The scan of encoded bytes counts down the nestings that the depth limit of 32
-- allows, 33 levels with the outermost. Loops over lists are structural; the loop of the read journal
-- that evicts batches is an option, none where the code would not return. A binary64 number is its
-- 64 bits. JSON numbers are texts, which the views never compare.
--
-- Parameters. The ciborium, sha2, serde_json and uuid crates are parameters: a codec is its writes and
-- its reads, a hash a function of bytes. The hypotheses on them are that ciborium reads back the bytes
-- of a value that it wrote, that serde_json reads the batches that it wrote, that a JSON string is at
-- least its text and two quotes, and that the hash has 32 bytes.
--
-- Not modelled: the HTTP and subscription codecs, the bootstrap transfer, the core's storage, state
-- encoding, subscription journal, threads and entry points, serialization, Display texts and the
-- bindings in other languages.
pub mod Base
pub mod Protocol
pub mod Client
pub mod Core
