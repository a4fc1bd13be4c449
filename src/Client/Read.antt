-- ===== src/Client/Read.antt =====
-- surrealdb-sync-client/src/read.rs: the local read protocol. A snapshot joins confirmed rows,
-- optimistic rows, pending commits, conflicts and receipts by record; a committed batch is the
-- difference of two snapshots.
pub mod Batch
use react_native_surrealdb.Base.{
  ℕ, Bool, true, false, ◌&&◌, Option, none, some, List, [], ◌∷◌, ◌++◌, DecEq, ◌==◌, ◌!=◌, nat_eq,
  ℕ_discrete, if◌then◌else◌, Result, ok, ◌>>◌, fail_if,
}
use react_native_surrealdb.Base.Bytes.{bytes_eq}
use react_native_surrealdb.Base.BTreeMap.{BTreeMap, get, insert, keys}
use react_native_surrealdb.Protocol.{
  PartitionId, RecordId, ScopeIdentity, CommitIdentity, Operation, record_id, ClientCommit,
  RecordState, DurableOutcome, Cursor,
}
use react_native_surrealdb.Client.{
  ClientError, ConflictResolution, ResolvedCommit, DurableClientState, OptimisticRecord,
  PreparedTransition, ClientRuntime,
}
use react_native_surrealdb.Client.Commits.{has_unsettled_intent}
use react_native_surrealdb.Client.Projection.{optimistic_projection}

abbrev pub read_protocol_version : ℕ
read_protocol_version = 1

pub record ReadScopeV1 : Type 0 where
  pub partition_id : PartitionId
  pub scope_identity : ScopeIdentity
  pub subscription_revision : ℕ
  pub authorization_revision : Option ℕ

pub data ReadReadinessV1 : Type 0 where
  local_available_awaiting_coverage authorized_scope_as_of : ReadReadinessV1

pub data ReadCoverageV1 : Type 0 where
  unknown : ReadCoverageV1
  authorized_reset : Cursor → ReadCoverageV1

pub record ReadMetadataV1 : Type 0 where
  pub revision : ℕ
  pub scope : ReadScopeV1
  pub as_of : Option Cursor
  pub readiness : ReadReadinessV1
  pub coverage : ReadCoverageV1

pub data ReadConfirmedAbsenceV1 : Type 0 where
  not_absent unknown absent_within_authorized_scope : ReadConfirmedAbsenceV1

pub record ReadConflictV1 : Type 0 where
  pub identity : CommitIdentity
  pub resolution : Option ConflictResolution

pub data ReadAcceptedStatusV1 : Type 0 where
  covered_by_authorized_reset awaiting_pull_epoch_unknown : ReadAcceptedStatusV1

pub record ReadAcceptedV1 : Type 0 where
  pub identity : CommitIdentity
  pub sequence : ℕ
  pub status : ReadAcceptedStatusV1

pub record ReadRowV1 (V : Type 0) : Type 0 where
  pub record_id : RecordId
  pub confirmed : RecordState V
  pub confirmed_absence : ReadConfirmedAbsenceV1
  pub optimistic : Option (OptimisticRecord V)
  pub pending : List CommitIdentity
  pub conflicts : List ReadConflictV1
  pub accepted : List ReadAcceptedV1

pub record ReadSnapshotV1 (V : Type 0) : Type 0 where
  pub protocol_version : ℕ
  pub metadata : ReadMetadataV1
  pub rows : BTreeMap (ReadRowV1 V)

-- `upsert row` and `remove record_id`.
pub data ReadRowChangeV1 (V : Type 0) : Type 0 where
  upsert : ReadRowV1 V → ReadRowChangeV1 V
  remove : RecordId → ReadRowChangeV1 V

pub record CommittedReadBatchV1 (V : Type 0) : Type 0 where
  pub protocol_version : ℕ
  pub before_revision : ℕ
  pub revision : ℕ
  pub metadata : ReadMetadataV1
  pub changes : List (ReadRowChangeV1 V)

pub data ScopeTransitionDecisionV1 : Type 0 where
  unchanged needs_new_scope_journal pending_quarantine_required : ScopeTransitionDecisionV1

-- The ids of two key lists, in increasing order and once each.
abbrev pub insert_keys : List RecordId → BTreeMap (Unit {0}) → BTreeMap (Unit {0})
insert_keys [] ids = ids
insert_keys (id ∷ rest) ids = insert_keys rest (insert id tt ids)

abbrev pub is_authorized_reset : ReadCoverageV1 → Bool
is_authorized_reset ReadCoverageV1.unknown = false
is_authorized_reset (ReadCoverageV1.authorized_reset cursor) = true

module _ {V : Type 0} where
  pub ReadRowV1-discrete : Discrete V → Discrete (ReadRowV1 V)
  ReadRowV1-discrete d = hlevel (ℕ_discrete, d)

  instance abbrev pub read_row_eq : ⦃v : DecEq V⦄ → DecEq (ReadRowV1 V)
  read_row_eq ⦃v⦄ = record { discrete = ReadRowV1-discrete v.discrete }

  abbrev pub is_complete : DurableClientState V → Bool
  is_complete state = elim state.reset_coverage [ none ↦ false | some coverage ↦ true ]

  unfoldable pub metadata : DurableClientState V → ReadMetadataV1
  metadata state = record {
    revision = state.revision;
    scope = record {
      partition_id = state.partition_id;
      scope_identity = state.requested_scope;
      subscription_revision = state.subscription_revision;
      authorization_revision = elim state.checkpoint [
        | none ↦ none
        | some checkpoint ↦ some checkpoint.scope.authorization_revision
      ];
    };
    as_of = elim state.checkpoint [ none ↦ none | some checkpoint ↦ some checkpoint.cursor ];
    readiness =
        if is_complete state
        then ReadReadinessV1.authorized_scope_as_of
        else ReadReadinessV1.local_available_awaiting_coverage;
    coverage = elim state.reset_coverage [
      | none ↦ ReadCoverageV1.unknown
      | some coverage ↦ ReadCoverageV1.authorized_reset coverage.cursor
    ];
  }

  abbrev pub empty_row : RecordId → Bool → ReadRowV1 V
  empty_row id complete = record {
    record_id = id;
    confirmed = RecordState.absent;
    confirmed_absence =
        if complete
        then ReadConfirmedAbsenceV1.absent_within_authorized_scope
        else ReadConfirmedAbsenceV1.unknown;
    optimistic = none;
    pending = [];
    conflicts = [];
    accepted = [];
  }

  -- `rows.entry(id).or_insert_with(|| empty_row(id, complete))`, then the edit.
  unfoldable pub edit_row :
      Bool
      → RecordId
      → (ReadRowV1 V → ReadRowV1 V)
      → BTreeMap (ReadRowV1 V)
      → BTreeMap (ReadRowV1 V)
  edit_row complete id edit rows = elim (get id rows) [
    | none ↦ insert id (edit (empty_row id complete)) rows
    | some row ↦ insert id (edit row) rows
  ]

  abbrev pub set_optimistic : OptimisticRecord V → ReadRowV1 V → ReadRowV1 V
  set_optimistic optimistic row = record row { optimistic = some optimistic }

  abbrev pub add_pending : CommitIdentity → ReadRowV1 V → ReadRowV1 V
  add_pending identity row = record row { pending = row.pending ++ identity ∷ [] }

  abbrev pub accepted_entry : ResolvedCommit V → ℕ → ReadAcceptedV1
  accepted_entry resolved sequence = record {
    identity = resolved.local_commit.identity;
    sequence = sequence;
    status =
        if resolved.covered_by_reset
        then ReadAcceptedStatusV1.covered_by_authorized_reset
        else ReadAcceptedStatusV1.awaiting_pull_epoch_unknown;
  }

  abbrev pub add_accepted : ReadAcceptedV1 → ReadRowV1 V → ReadRowV1 V
  add_accepted entry row = record row { accepted = row.accepted ++ entry ∷ [] }

  abbrev pub conflict_entry : ResolvedCommit V → ReadConflictV1
  conflict_entry resolved = record {
    identity = resolved.local_commit.identity;
    resolution = resolved.resolution;
  }

  abbrev pub add_conflict : ReadConflictV1 → ReadRowV1 V → ReadRowV1 V
  add_conflict entry row = record row { conflicts = row.conflicts ++ entry ∷ [] }

  unfoldable pub confirmed_rows :
      Bool → BTreeMap (ReadRowV1 V) → BTreeMap (RecordState V) → BTreeMap (ReadRowV1 V)
  confirmed_rows complete rows [] = rows
  confirmed_rows complete rows ((id, confirmed) ∷ rest) =
      confirmed_rows complete
        (insert id
          (record (empty_row id complete) {
            confirmed = confirmed;
            confirmed_absence = ReadConfirmedAbsenceV1.not_absent;
          })
          rows)
        rest

  unfoldable pub optimistic_rows :
      Bool → BTreeMap (ReadRowV1 V) → BTreeMap (OptimisticRecord V) → BTreeMap (ReadRowV1 V)
  optimistic_rows complete rows [] = rows
  optimistic_rows complete rows ((id, optimistic) ∷ rest) =
      optimistic_rows complete (edit_row complete id (set_optimistic optimistic) rows) rest

  -- One edit for each operation of a commit.
  unfoldable pub edit_rows :
      Bool
      → (ReadRowV1 V → ReadRowV1 V)
      → BTreeMap (ReadRowV1 V)
      → List (Operation V)
      → BTreeMap (ReadRowV1 V)
  edit_rows complete edit rows [] = rows
  edit_rows complete edit rows (op ∷ ops) =
      edit_rows complete edit (edit_row complete (record_id op) edit rows) ops

  unfoldable pub pending_rows :
      Bool → BTreeMap (ReadRowV1 V) → List (ClientCommit V) → BTreeMap (ReadRowV1 V)
  pending_rows complete rows [] = rows
  pending_rows complete rows (commit ∷ commits) =
      pending_rows complete
        (edit_rows complete (add_pending commit.identity) rows commit.operations) commits

  abbrev pub outcome_edit : ResolvedCommit V → DurableOutcome V → ReadRowV1 V → ReadRowV1 V
  outcome_edit resolved (DurableOutcome.accepted identity sequence mappings) =
      add_accepted (accepted_entry resolved sequence)
  outcome_edit resolved (DurableOutcome.conflict identity id authoritative) =
      add_conflict (conflict_entry resolved)
  outcome_edit resolved (DurableOutcome.rejected identity reason) = λ row. row

  abbrev pub is_rejected : DurableOutcome V → Bool
  is_rejected (DurableOutcome.accepted identity sequence mappings) = false
  is_rejected (DurableOutcome.conflict identity id authoritative) = false
  is_rejected (DurableOutcome.rejected identity reason) = true

  unfoldable pub outcome_rows :
      Bool → BTreeMap (ReadRowV1 V) → List (ResolvedCommit V) → BTreeMap (ReadRowV1 V)
  outcome_rows complete rows [] = rows
  outcome_rows complete rows (resolved ∷ outcomes) =
      outcome_rows complete
        (if is_rejected resolved.outcome
          then rows
          else edit_rows complete (outcome_edit resolved resolved.outcome) rows
              resolved.local_commit.operations)
        outcomes

  unfoldable pub snapshot : DurableClientState V → ReadSnapshotV1 V
  snapshot state =
      let complete = is_complete state in
      record {
        protocol_version = read_protocol_version;
        metadata = metadata state;
        rows =
            outcome_rows complete
              (pending_rows complete
                (optimistic_rows complete (confirmed_rows complete [] state.confirmed)
                  (optimistic_projection state))
                state.outbox)
              state.outcomes;
      }

  unfoldable pub row : ReadSnapshotV1 V → RecordId → ReadRowV1 V
  row self id = elim (get id self.rows) [
    | none ↦ empty_row id (is_authorized_reset self.metadata.coverage)
    | some found ↦ found
  ]

  unfoldable pub scope_transition_decision :
      ClientRuntime V → ScopeIdentity → ℕ → ScopeTransitionDecisionV1
  scope_transition_decision self requested_scope subscription_revision =
      if requested_scope == self.state.requested_scope
        && subscription_revision == self.state.subscription_revision
      then ScopeTransitionDecisionV1.unchanged
      else if has_unsettled_intent self.state
      then ScopeTransitionDecisionV1.pending_quarantine_required
      else ScopeTransitionDecisionV1.needs_new_scope_journal

module _ {V : Type 0} ⦃v : DecEq V⦄ where
  abbrev pub same_row : Option (ReadRowV1 V) → Option (ReadRowV1 V) → Bool
  same_row none none = true
  same_row none (some b) = false
  same_row (some a) none = false
  same_row (some a) (some b) = a == b

  abbrev pub row_change : RecordId → Option (ReadRowV1 V) → ReadRowChangeV1 V
  row_change id none = ReadRowChangeV1.remove id
  row_change id (some found) = ReadRowChangeV1.upsert found

  unfoldable pub row_changes :
      BTreeMap (ReadRowV1 V) → BTreeMap (ReadRowV1 V) → List RecordId → List (ReadRowChangeV1 V)
  row_changes before after [] = []
  row_changes before after (id ∷ ids) =
      if same_row (get id before) (get id after)
      then row_changes before after ids
      else row_change id (get id after) ∷ row_changes before after ids

  -- The ids of both snapshots.
  abbrev pub both_keys : BTreeMap (ReadRowV1 V) → BTreeMap (ReadRowV1 V) → List RecordId
  both_keys before after = keys (insert_keys (keys before ++ keys after) [])

  unfoldable pub batch_of : ReadSnapshotV1 V → ReadSnapshotV1 V → CommittedReadBatchV1 V
  batch_of before after = record {
    protocol_version = read_protocol_version;
    before_revision = before.metadata.revision;
    revision = after.metadata.revision;
    metadata = after.metadata;
    changes = row_changes before.rows after.rows (both_keys before.rows after.rows);
  }

  unfoldable pub committed_batch :
      DurableClientState V → DurableClientState V → Option (CommittedReadBatchV1 V)
  committed_batch before after =
      if before.revision == after.revision
      then none
      else some (batch_of (snapshot before) (snapshot after))

  unfoldable pub install_with_read_batch :
      ClientRuntime V
      → PreparedTransition V
      → Result ClientError (Option (CommittedReadBatchV1 V) × ClientRuntime V)
  install_with_read_batch self prepared =
      fail_if (prepared.base_revision != self.state.revision)
        (ClientError.stale_transition prepared.base_revision self.state.revision)
      >> ok (committed_batch self.state prepared.state, record { state = prepared.state })
