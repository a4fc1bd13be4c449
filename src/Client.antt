-- ===== src/Client.antt =====
-- crates/surrealdb-sync-client/src: the durable state of one client, its errors and the values
-- that its transitions exchange (lib.rs, with the types of subscriptions.rs and of read.rs that
-- the state holds). The child modules model the functions, one part of the crate each.
pub mod Commits
pub mod Slots
pub mod Validate
pub mod Remap
pub mod Projection
pub mod Runtime
pub mod Subscriptions
pub mod Read
pub mod History
mod Tests
use react_native_surrealdb.Base.{ℕ, Bool, Option, none, List, [], DecEq, nat_eq, ℕ_discrete}
use react_native_surrealdb.Base.Bytes.{Bytes}
use react_native_surrealdb.Base.BTreeMap.{BTreeMap}
use react_native_surrealdb.Protocol.{
  PartitionId, ClientId, ClientCommitId, RecordId, ScopeIdentity, OpaqueCheckpoint, CommitIdentity,
  ClientCommit, BaseVersion, IdMapping, RecordState, DurableOutcome, Cursor, ScopeSnapshot,
  Checkpoint,
}
use react_native_surrealdb.Protocol.Subscription.{
  SubscriptionRequest, SubscriptionRow, WindowCoverage,
}

-- A resolution names the replacement commit that took the conflicted commit's place.
pub data ConflictResolution : Type 0 where
  keep_server : ConflictResolution
  prefer_server_policy_v1 : ConflictResolution
  keep_local : CommitIdentity → ConflictResolution
  merge : CommitIdentity → ConflictResolution

pub data AutomaticConflictPolicy : Type 0 where
  manual prefer_server_v1 : AutomaticConflictPolicy

pub data ConflictResolutionRequest (V : Type 0) : Type 0 where
  keep_server : ConflictResolutionRequest V
  keep_local : ClientCommit V → ConflictResolutionRequest V
  merge : ClientCommit V → ConflictResolutionRequest V

pub record ResolvedCommit (V : Type 0) : Type 0 where
  pub local_commit : ClientCommit V
  pub outcome : DurableOutcome V
  pub resolution : Option ConflictResolution
  pub covered_by_reset : Bool

pub record ResetCoverage : Type 0 where
  pub cursor : Cursor
  pub scope : ScopeSnapshot

pub record SubscriptionSlot : Type 0 where
  pub generation : ℕ
  pub plan_fingerprint : Bytes
  pub scope : ScopeSnapshot
  pub frontier : Cursor
  pub view_revision : ℕ
  pub coverage : WindowCoverage
  pub ordered_ids : List RecordId
  pub token : OpaqueCheckpoint
  pub members : BTreeMap Bytes

pub record DurableSubscriptions (V : Type 0) : Type 0 where
  pub requests : BTreeMap SubscriptionRequest
  pub slots : BTreeMap SubscriptionSlot
  pub records : BTreeMap (SubscriptionRow V)
  pub cancelled : BTreeMap ℕ
  pub authorization_scope : Option ScopeSnapshot

pub record DurableClientState (V : Type 0) : Type 0 where
  pub partition_id : PartitionId
  pub client_id : ClientId
  pub requested_scope : ScopeIdentity
  pub subscription_revision : ℕ
  pub revision : ℕ
  pub confirmed : BTreeMap (RecordState V)
  pub outbox : List (ClientCommit V)
  pub outcomes : List (ResolvedCommit V)
  pub checkpoint : Option Checkpoint
  pub reset_coverage : Option ResetCoverage
  pub id_map : BTreeMap RecordId
  pub subscriptions : Option (DurableSubscriptions V)

abbrev pub empty_subscriptions : {V : Type 0} → DurableSubscriptions V
empty_subscriptions = record {
  requests = [];
  slots = [];
  records = [];
  cancelled = [];
  authorization_scope = none;
}

abbrev pub empty : {V : Type 0} → PartitionId → ClientId → ScopeIdentity → ℕ → DurableClientState V
empty partition client scope subscription_revision = record {
  partition_id = partition;
  client_id = client;
  requested_scope = scope;
  subscription_revision = subscription_revision;
  revision = 0;
  confirmed = [];
  outbox = [];
  outcomes = [];
  checkpoint = none;
  reset_coverage = none;
  id_map = [];
  subscriptions = none;
}

-- `present value base_version reference` and `deleted base_version`.
pub data OptimisticRecord (V : Type 0) : Type 0 where
  present : V → BaseVersion → Option RecordId → OptimisticRecord V
  deleted : ℕ → OptimisticRecord V

pub record PreparedTransition (V : Type 0) : Type 0 where
  pub base_revision : ℕ
  pub state : DurableClientState V

pub data ClientError : Type 0 where
  invalid_subscription subscription_cancelled empty_commit : ClientError
  duplicate_operation : RecordId → ClientError
  duplicate_commit_id : ClientCommitId → ClientError
  unknown_commit : ClientCommitId → ClientError
  unknown_conflict : ClientCommitId → ClientError
  conflict_already_resolved : ClientCommitId → ClientError
  invalid_conflict_resolution outcome_identity_mismatch envelope_mismatch : ClientError
  invalid_pull_framing checkpoint_mismatch scope_mismatch invalid_read_coverage : ClientError
  needs_new_scope_journal pending_quarantine_required cursor_epoch_mismatch : ClientError
  cursor_would_move_backward commit_sequence_gap : ClientError
  duplicate_snapshot_record : RecordId → ClientError
  invalid_snapshot_version : RecordId → ClientError
  absent_confirmed_record : RecordId → ClientError
  invalid_id_mapping : IdMapping → ClientError
  id_mapping_collision : RecordId → ClientError
  mapped_local_id_remains : RecordId → ClientError
  revision_exhausted : ClientError
  -- `stale_transition expected actual`.
  stale_transition : ℕ → ℕ → ClientError

pub record ClientRuntime (V : Type 0) : Type 0 where
  pub state : DurableClientState V

module _ {V : Type 0} where
  pub ResolvedCommit-discrete : Discrete V → Discrete (ResolvedCommit V)
  ResolvedCommit-discrete d = hlevel (ℕ_discrete, d)

  pub DurableClientState-discrete : Discrete V → Discrete (DurableClientState V)
  DurableClientState-discrete d = hlevel (ℕ_discrete, d)

  instance abbrev pub durable_client_state_eq : ⦃v : DecEq V⦄ → DecEq (DurableClientState V)
  durable_client_state_eq ⦃v⦄ = record { discrete = DurableClientState-discrete v.discrete }

  pub OptimisticRecord-discrete : Discrete V → Discrete (OptimisticRecord V)
  OptimisticRecord-discrete d = hlevel (ℕ_discrete, d)
