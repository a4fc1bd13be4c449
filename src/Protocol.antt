-- ===== src/Protocol.antt =====
-- crates/surrealdb-sync-protocol/src/lib.rs: the wire types of `surrealdb-sync/1`. The string
-- newtypes are their text; a u64 is a number below `u64_mod` wherever the code adds to it.
-- The child module Subscription models subscription.rs.
pub mod Subscription
pub mod Canonical
mod Tests
use react_native_surrealdb.Base.{ℕ, Bool, Option, none, some, List, DecEq, nat_eq, ℕ_discrete}
use react_native_surrealdb.Base.Bytes.{Bytes}

abbrev pub PartitionId : Type 0
PartitionId = Bytes

abbrev pub ClientId : Type 0
ClientId = Bytes

abbrev pub ClientCommitId : Type 0
ClientCommitId = Bytes

abbrev pub Fingerprint : Type 0
Fingerprint = Bytes

abbrev pub RecordId : Type 0
RecordId = Bytes

abbrev pub ScopeIdentity : Type 0
ScopeIdentity = Bytes

abbrev pub OpaqueCheckpoint : Type 0
OpaqueCheckpoint = Bytes

pub data SchemaVersion : Type 0 where
  v1 : SchemaVersion

pub record CommitIdentity : Type 0 where
  pub client_commit_id : ClientCommitId
  pub fingerprint : Fingerprint

pub data BaseVersion : Type 0 where
  absent : BaseVersion
  exact : ℕ → BaseVersion

-- `upsert record_id base_version value reference` and `delete record_id base_version`.
pub data Operation (V : Type 0) : Type 0 where
  upsert : RecordId → BaseVersion → V → Option RecordId → Operation V
  delete : RecordId → ℕ → Operation V

abbrev pub record_id : {V : Type 0} → Operation V → RecordId
record_id (Operation.upsert id base value reference) = id
record_id (Operation.delete id base) = id

pub record ClientCommit (V : Type 0) : Type 0 where
  pub identity : CommitIdentity
  pub operations : List (Operation V)

pub record IdMapping : Type 0 where
  pub local_id : RecordId
  pub canonical_id : RecordId

-- `present value version reference` and `tombstone version`.
pub data RecordState (V : Type 0) : Type 0 where
  absent : RecordState V
  present : V → ℕ → Option RecordId → RecordState V
  tombstone : ℕ → RecordState V

abbrev pub version : {V : Type 0} → RecordState V → Option ℕ
version RecordState.absent = none
version (RecordState.present value n reference) = some n
version (RecordState.tombstone n) = some n

pub data RejectReason : Type 0 where
  invalid_operation commit_identity_mismatch unauthorized unsupported_schema_version : RejectReason

-- `accepted identity sequence id_mappings`, `conflict identity record_id authoritative` and
-- `rejected identity reason`.
pub data DurableOutcome (V : Type 0) : Type 0 where
  accepted : CommitIdentity → ℕ → List IdMapping → DurableOutcome V
  conflict : CommitIdentity → RecordId → RecordState V → DurableOutcome V
  rejected : CommitIdentity → RejectReason → DurableOutcome V

abbrev pub outcome_identity : {V : Type 0} → DurableOutcome V → CommitIdentity
outcome_identity (DurableOutcome.accepted identity sequence mappings) = identity
outcome_identity (DurableOutcome.conflict identity id authoritative) = identity
outcome_identity (DurableOutcome.rejected identity reason) = identity

pub record PushResponse (V : Type 0) : Type 0 where
  pub schema_version : SchemaVersion
  pub partition_id : PartitionId
  pub client_id : ClientId
  pub outcome : DurableOutcome V

pub record Cursor : Type 0 where
  pub epoch : ℕ
  pub sequence : ℕ

pub record ScopeSnapshot : Type 0 where
  pub identity : ScopeIdentity
  pub authorization_revision : ℕ
  pub subscription_revision : ℕ

pub record Checkpoint : Type 0 where
  pub token : OpaqueCheckpoint
  pub cursor : Cursor
  pub scope : ScopeSnapshot

pub record AppliedRecord (V : Type 0) : Type 0 where
  pub record_id : RecordId
  pub state : RecordState V

pub record PullCommit (V : Type 0) : Type 0 where
  pub sequence : ℕ
  pub source : Option CommitIdentity
  pub records : List (AppliedRecord V)

-- `start checkpoint`, `commit checkpoint commit` and `finish checkpoint` (the source's End).
pub data PullFrame (V : Type 0) : Type 0 where
  start : Checkpoint → PullFrame V
  commit : OpaqueCheckpoint → PullCommit V → PullFrame V
  finish : Checkpoint → PullFrame V

pub record PullBatch (V : Type 0) : Type 0 where
  pub frames : List (PullFrame V)

pub data ResetReason : Type 0 where
  checkpoint_expired epoch_changed authorization_changed subscription_changed : ResetReason
  scope_changed external_write_quarantined : ResetReason

pub record SnapshotRecord (V : Type 0) : Type 0 where
  pub record_id : RecordId
  pub state : RecordState V

pub record ResetSnapshot (V : Type 0) : Type 0 where
  pub reason : ResetReason
  pub checkpoint : Checkpoint
  pub records : List (SnapshotRecord V)

pub data PullResponse (V : Type 0) : Type 0 where
  batch : PullBatch V → PullResponse V
  reset : ResetSnapshot V → PullResponse V

-- Derived equality, where the code compares whole values.
pub CommitIdentity-discrete : Discrete CommitIdentity
CommitIdentity-discrete = hlevel ℕ_discrete

instance abbrev pub commit_identity_eq : DecEq CommitIdentity
commit_identity_eq = record { discrete = CommitIdentity-discrete }

pub ScopeSnapshot-discrete : Discrete ScopeSnapshot
ScopeSnapshot-discrete = hlevel ℕ_discrete

instance abbrev pub scope_snapshot_eq : DecEq ScopeSnapshot
scope_snapshot_eq = record { discrete = ScopeSnapshot-discrete }

pub Cursor-discrete : Discrete Cursor
Cursor-discrete = hlevel ℕ_discrete

instance abbrev pub cursor_eq : DecEq Cursor
cursor_eq = record { discrete = Cursor-discrete }

pub Checkpoint-discrete : Discrete Checkpoint
Checkpoint-discrete = hlevel ℕ_discrete

instance abbrev pub checkpoint_eq : DecEq Checkpoint
checkpoint_eq = record { discrete = Checkpoint-discrete }

module _ {V : Type 0} where
  pub RecordState-discrete : Discrete V → Discrete (RecordState V)
  RecordState-discrete d = hlevel (ℕ_discrete, d)

  instance abbrev pub record_state_eq : ⦃v : DecEq V⦄ → DecEq (RecordState V)
  record_state_eq ⦃v⦄ = record { discrete = RecordState-discrete v.discrete }

  pub DurableOutcome-discrete : Discrete V → Discrete (DurableOutcome V)
  DurableOutcome-discrete d = hlevel (ℕ_discrete, d)

  instance abbrev pub durable_outcome_eq : ⦃v : DecEq V⦄ → DecEq (DurableOutcome V)
  durable_outcome_eq ⦃v⦄ = record { discrete = DurableOutcome-discrete v.discrete }

  pub ClientCommit-discrete : Discrete V → Discrete (ClientCommit V)
  ClientCommit-discrete d = hlevel (ℕ_discrete, d)

  instance abbrev pub client_commit_eq : ⦃v : DecEq V⦄ → DecEq (ClientCommit V)
  client_commit_eq ⦃v⦄ = record { discrete = ClientCommit-discrete v.discrete }
