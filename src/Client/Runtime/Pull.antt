-- ===== src/Client/Runtime/Pull.antt =====
-- surrealdb-sync-client/src/lib.rs, the transitions that replace confirmed rows: an incremental
-- pull batch, a reset snapshot and a bootstrap snapshot.
pub mod Frames
pub mod Rows
use react_native_surrealdb.Base.{
  ℕ, ◌+◌, ◌-◌, ◌%◌, ◌<◌, Bool, true, false, not, ◌&&◌, ◌||◌, Option, none, some, List, [], ◌∷◌, map,
  DecEq, ◌==◌, ◌!=◌, nat_eq, ltb, leb, any, is_empty, head, last, init, contains, u64_mod,
  saturating_add, if◌then◌else◌, Result, ok, err, ◌>>=◌, ◌>>◌, fail_if, ok_or, try_for_each,
}
use react_native_surrealdb.Base.Bytes.{Bytes, bytes_eq}
use react_native_surrealdb.Base.BTreeMap.{BTreeMap, insert, remove}
use react_native_surrealdb.Protocol.{
  RecordId, OpaqueCheckpoint, RecordState, DurableOutcome, Cursor, scope_snapshot_eq, Checkpoint,
  checkpoint_eq, AppliedRecord, PullCommit, PullFrame, PullBatch, SnapshotRecord, ResetSnapshot,
  PullResponse,
}
use react_native_surrealdb.Client.{
  ClientError, ResolvedCommit, DurableClientState, PreparedTransition, ClientRuntime, ResetCoverage,
}
use react_native_surrealdb.Client.Commits.{is_accepted, has_unsettled_intent}
use react_native_surrealdb.Client.Slots.{guard_subscription_scope}
use react_native_surrealdb.Client.Validate.{validate_scope, is_absent}
use react_native_surrealdb.Client.Runtime.{prepare}

-- Release arithmetic on u64, as the sequence loop uses it.
abbrev pub wrapping_suc : ℕ → ℕ
wrapping_suc n = (n + 1) % u64_mod

abbrev pub wrapping_pred : ℕ → ℕ
wrapping_pred n = (n + u64_mod - 1) % u64_mod

-- A received frontier against the installed one: the same scope and epoch, and no step back.
unfoldable pub validate_position : Option Checkpoint → Checkpoint → Result ClientError (Unit {0})
validate_position none finish = ok tt
validate_position (some current) finish = do
  fail_if (finish.scope != current.scope) ClientError.scope_mismatch
  fail_if (finish.cursor.epoch != current.cursor.epoch) ClientError.cursor_epoch_mismatch
  fail_if (ltb finish.cursor.sequence current.cursor.sequence)
      ClientError.cursor_would_move_backward

-- The installed sequence, if the epoch is the same.
unfoldable pub current_sequence : Option Checkpoint → Checkpoint → ℕ
current_sequence none finish = 0
current_sequence (some current) finish =
    if current.cursor.epoch == finish.cursor.epoch then current.cursor.sequence else 0

-- The guards of a snapshot against the installed checkpoint.
unfoldable pub moves_backward : Cursor → Cursor → Bool
moves_backward current incoming =
    ltb incoming.epoch current.epoch
    || incoming.epoch == current.epoch && ltb incoming.sequence current.sequence

module _ {V : Type 0} where
  abbrev pub start_checkpoint : Option (PullFrame V) → Option Checkpoint
  start_checkpoint none = none
  start_checkpoint (some (PullFrame.start checkpoint)) = some checkpoint
  start_checkpoint (some (PullFrame.commit token commit)) = none
  start_checkpoint (some (PullFrame.finish checkpoint)) = none

  abbrev pub finish_checkpoint : Option (PullFrame V) → Option Checkpoint
  finish_checkpoint none = none
  finish_checkpoint (some (PullFrame.start checkpoint)) = none
  finish_checkpoint (some (PullFrame.commit token commit)) = none
  finish_checkpoint (some (PullFrame.finish checkpoint)) = some checkpoint

  -- `&frames[1..len - 1]`.
  abbrev pub middle : List (PullFrame V) → List (PullFrame V)
  middle [] = []
  middle (frame ∷ frames) = init frames

  unfoldable pub collect_commits :
      OpaqueCheckpoint → List (PullFrame V) → Result ClientError (List (PullCommit V))
  collect_commits token [] = ok []
  collect_commits token (PullFrame.start checkpoint ∷ frames) = err ClientError.invalid_pull_framing
  collect_commits token (PullFrame.finish checkpoint ∷ frames) =
      err ClientError.invalid_pull_framing
  collect_commits token (PullFrame.commit checkpoint commit ∷ frames) =
      fail_if (checkpoint != token) ClientError.checkpoint_mismatch
      >> (collect_commits token frames >>= λ commits. ok (commit ∷ commits))

  -- `windows(2)`: each commit follows the one before it.
  unfoldable pub check_windows : List (PullCommit V) → Result ClientError (Unit {0})
  check_windows [] = ok tt
  check_windows (a ∷ []) = ok tt
  check_windows (a ∷ b ∷ commits) =
      fail_if (b.sequence != saturating_add a.sequence 1) ClientError.commit_sequence_gap
      >> check_windows (b ∷ commits)

  unfoldable pub check_last : List (PullCommit V) → ℕ → Result ClientError (Unit {0})
  check_last commits sequence = elim (last commits) [
    | none ↦ ok tt
    | some commit ↦ fail_if (commit.sequence != sequence) ClientError.commit_sequence_gap
  ]

  -- The expected sequence after the loop.
  unfoldable pub count_commits : ℕ → List (PullCommit V) → Result ClientError ℕ
  count_commits expected [] = ok expected
  count_commits expected (commit ∷ commits) =
      fail_if (commit.sequence != expected) ClientError.commit_sequence_gap
      >> count_commits (wrapping_suc expected) commits

  unfoldable pub check_complete : ℕ → ℕ → List (PullCommit V) → Result ClientError (Unit {0})
  check_complete current sequence commits =
      if ltb current sequence
      then (count_commits (current + 1) commits >>= λ expected.
          fail_if (wrapping_pred expected != sequence) ClientError.commit_sequence_gap)
      else ok tt

  unfoldable pub validate_pull_batch :
      DurableClientState V → PullBatch V → Result ClientError (Checkpoint × List (PullCommit V))
  validate_pull_batch state batch = do
    start ← ok_or (start_checkpoint (head batch.frames)) ClientError.invalid_pull_framing
    finish ← ok_or (finish_checkpoint (last batch.frames)) ClientError.invalid_pull_framing
    fail_if (start != finish) ClientError.checkpoint_mismatch
    validate_scope state finish
    validate_position state.checkpoint finish
    commits ← collect_commits finish.token (middle batch.frames)
    check_windows commits
    check_last commits finish.cursor.sequence
    check_complete (current_sequence state.checkpoint finish) finish.cursor.sequence commits
    ok (finish, commits)

  unfoldable pub apply_record :
      BTreeMap (RecordState V) → AppliedRecord V → BTreeMap (RecordState V)
  apply_record confirmed applied =
      if is_absent applied.state
      then remove applied.record_id confirmed
      else insert applied.record_id applied.state confirmed

  unfoldable pub apply_records :
      BTreeMap (RecordState V) → List (AppliedRecord V) → BTreeMap (RecordState V)
  apply_records confirmed [] = confirmed
  apply_records confirmed (applied ∷ rest) = apply_records (apply_record confirmed applied) rest

  unfoldable pub apply_commits :
      BTreeMap (RecordState V) → List (PullCommit V) → BTreeMap (RecordState V)
  apply_commits confirmed [] = confirmed
  apply_commits confirmed (commit ∷ commits) =
      apply_commits (apply_records confirmed commit.records) commits

  unfoldable pub same_epoch : DurableClientState V → Checkpoint → Bool
  same_epoch state checkpoint = elim state.checkpoint [
    | none ↦ false
    | some current ↦ current.cursor.epoch == checkpoint.cursor.epoch
  ]

  unfoldable pub check_against :
      DurableClientState V → Checkpoint → Option Checkpoint → Result ClientError (Unit {0})
  check_against state incoming none = ok tt
  check_against state incoming (some current) = do
    fail_if (moves_backward current.cursor incoming.cursor) ClientError.cursor_would_move_backward
    fail_if (ltb incoming.scope.authorization_revision current.scope.authorization_revision)
        ClientError.scope_mismatch
    fail_if (incoming.scope != current.scope && has_unsettled_intent state)
        ClientError.pending_quarantine_required
    fail_if (incoming.scope != current.scope && not (is_empty state.outcomes))
        ClientError.needs_new_scope_journal

  unfoldable pub check_replacement :
      DurableClientState V → Checkpoint → Result ClientError (Unit {0})
  check_replacement state incoming = check_against state incoming state.checkpoint

  -- The rows of a snapshot, each record once; `seen` are the records read so far.
  unfoldable pub snapshot_rows :
      List RecordId
      → BTreeMap (RecordState V)
      → List (SnapshotRecord V)
      → Result ClientError (BTreeMap (RecordState V))
  snapshot_rows seen confirmed [] = ok confirmed
  snapshot_rows seen confirmed (row ∷ rows) =
      fail_if (contains row.record_id seen) (ClientError.duplicate_snapshot_record row.record_id)
      >> snapshot_rows (row.record_id ∷ seen)
          (if is_absent row.state then confirmed else insert row.record_id row.state confirmed) rows

  -- A reset covers the accepted commits of another epoch, or up to its frontier.
  unfoldable pub is_covered : Bool → ℕ → DurableOutcome V → Bool
  is_covered same sequence outcome = elim outcome [
    | DurableOutcome.accepted identity accepted_sequence mappings ↦
        not same || leb accepted_sequence sequence
    | _ ↦ false
  ]

  abbrev pub cover : Bool → ℕ → ResolvedCommit V → ResolvedCommit V
  cover same sequence resolved = record resolved {
    covered_by_reset = resolved.covered_by_reset || is_covered same sequence resolved.outcome;
  }

  abbrev pub replace_rows :
      DurableClientState V → Checkpoint → BTreeMap (RecordState V) → DurableClientState V
  replace_rows state checkpoint confirmed = record state {
    confirmed = confirmed;
    outcomes = map (cover (same_epoch state checkpoint) checkpoint.cursor.sequence) state.outcomes;
    reset_coverage = some (record { cursor = checkpoint.cursor; scope = checkpoint.scope });
    checkpoint = some checkpoint;
  }

  -- A bootstrap row is present or a tombstone, at a positive version.
  unfoldable pub check_bootstrap_record : SnapshotRecord V → Result ClientError (Unit {0})
  check_bootstrap_record row = elim row.state [
    | RecordState.absent ↦ err (ClientError.absent_confirmed_record row.record_id)
    | RecordState.present value version reference ↦
        fail_if (version == 0) (ClientError.invalid_snapshot_version row.record_id)
    | RecordState.tombstone version ↦
        fail_if (version == 0) (ClientError.invalid_snapshot_version row.record_id)
  ]

module _ {V : Type 0} ⦃v : DecEq V⦄ where
  -- At the installed sequence a batch may only renew the opaque token.
  unfoldable pub pull_at_frontier :
      ClientRuntime V
      → Checkpoint
      → Checkpoint
      → List (PullCommit V)
      → Result ClientError (PreparedTransition V)
  pull_at_frontier self current checkpoint commits =
      if checkpoint == current
      then prepare self self.state
      else fail_if (not (is_empty commits)) ClientError.invalid_pull_framing
        >> prepare self (record (self.state) { checkpoint = some checkpoint })

  unfoldable pub pull_forward :
      ClientRuntime V → Checkpoint → List (PullCommit V) → Result ClientError (PreparedTransition V)
  pull_forward self checkpoint commits = prepare self (record (self.state) {
    confirmed = apply_commits self.state.confirmed commits;
    checkpoint = some checkpoint;
  })

  unfoldable pub pull_from :
      ClientRuntime V
      → Option Checkpoint
      → Checkpoint
      → List (PullCommit V)
      → Result ClientError (PreparedTransition V)
  pull_from self none checkpoint commits = pull_forward self checkpoint commits
  pull_from self (some current) checkpoint commits =
      if checkpoint.cursor.sequence == current.cursor.sequence
      then pull_at_frontier self current checkpoint commits
      else pull_forward self checkpoint commits

  unfoldable pub prepare_pull_batch :
      ClientRuntime V → PullBatch V → Result ClientError (PreparedTransition V)
  prepare_pull_batch self batch = do
    validated ← validate_pull_batch self.state batch
    guard_subscription_scope self.state validated.0.scope
    pull_from self self.state.checkpoint validated.0 validated.1

  unfoldable pub prepare_snapshot :
      ClientRuntime V
      → Checkpoint
      → List (SnapshotRecord V)
      → Result ClientError (PreparedTransition V)
  prepare_snapshot self checkpoint rows = do
    validate_scope self.state checkpoint
    guard_subscription_scope self.state checkpoint.scope
    check_replacement self.state checkpoint
    confirmed ← snapshot_rows [] [] rows
    prepare self (replace_rows self.state checkpoint confirmed)

  unfoldable pub prepare_reset :
      ClientRuntime V → ResetSnapshot V → Result ClientError (PreparedTransition V)
  prepare_reset self snapshot = prepare_snapshot self snapshot.checkpoint snapshot.records

  unfoldable pub prepare_bootstrap_snapshot :
      ClientRuntime V
      → Checkpoint
      → List (SnapshotRecord V)
      → Result ClientError (PreparedTransition V)
  prepare_bootstrap_snapshot self checkpoint rows = do
    fail_if
        (not (same_epoch self.state checkpoint)
          && any (λ resolved. is_accepted resolved.outcome) self.state.outcomes)
        ClientError.needs_new_scope_journal
    try_for_each check_bootstrap_record rows
    prepare_snapshot self checkpoint rows

  unfoldable pub prepare_pull_response :
      ClientRuntime V → PullResponse V → Result ClientError (PreparedTransition V)
  prepare_pull_response self (PullResponse.batch batch) = prepare_pull_batch self batch
  prepare_pull_response self (PullResponse.reset snapshot) = prepare_reset self snapshot
