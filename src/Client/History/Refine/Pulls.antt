-- ===== src/Client/History/Refine/Pulls.antt =====
-- Pull batches, resets and bootstrap snapshots, as changes of the state.
use react_native_surrealdb.Base.{
  ◌≡◌, refl, not, ◌&&◌, Option, none, some, List, [], arith, DecEq, nat_eq, ◌==◌, IfSome, any,
  try_for_each, is_empty, ok, fail_if, Ensures, Ensures-bind, Ensures-seq, Ensures-if,
}
use react_native_surrealdb.Base.Bytes.{bytes_eq}
use react_native_surrealdb.Protocol.{
  commit_identity_eq, durable_outcome_eq, Checkpoint, scope_snapshot_eq, checkpoint_eq, PullCommit,
  PullBatch, PullResponse, SnapshotRecord,
}
use react_native_surrealdb.Protocol.Subscription.{subscription_request_eq}
use react_native_surrealdb.Client.{DurableClientState, durable_client_state_eq, ClientRuntime}
use react_native_surrealdb.Client.Commits.{is_accepted}
use react_native_surrealdb.Client.Validate.{validate_scope}
use react_native_surrealdb.Client.Slots.{guard_subscription_scope}
use react_native_surrealdb.Client.Runtime.Pull.{
  snapshot_rows, same_epoch, check_bootstrap_record, validate_pull_batch, check_against,
  check_replacement, pull_at_frontier, pull_forward, pull_from, prepare_pull_batch,
  prepare_snapshot, prepare_reset, prepare_bootstrap_snapshot, prepare_pull_response,
}
use react_native_surrealdb.Client.Runtime.Pull.Frames.{Follows, validate_pull_batch-IsFramed}
use react_native_surrealdb.Client.Subscriptions.Window.{ids_eq}
use react_native_surrealdb.Client.History.Change.{
  MayReplace, unchanged, pulled, reset, IsChange, Change-rule,
}

module _ {V : Type 0} ⦃v : DecEq V⦄ where
  forward-IsChange :
      (self : ClientRuntime V) (checkpoint : Checkpoint) (commits : List (PullCommit V))
      → IfSome (Follows checkpoint) self.state.checkpoint
      → Ensures (IsChange self) (pull_forward self checkpoint commits)
  unfolding pull_forward
  forward-IsChange self checkpoint commits f = Change-rule self _ (pulled checkpoint _ f refl)

  frontier-IsChange :
      (self : ClientRuntime V) (current checkpoint : Checkpoint) (commits : List (PullCommit V))
      → IfSome (Follows checkpoint) self.state.checkpoint
      → Ensures (IsChange self) (pull_at_frontier self current checkpoint commits)
  unfolding pull_at_frontier
  frontier-IsChange self current checkpoint commits f =
      Ensures-if (checkpoint == current) (λ _. Change-rule self _ (unchanged refl))
        λ _.
          Ensures-seq (fail_if (not (is_empty commits)) _)
            λ _. Change-rule self _ (pulled checkpoint self.state.confirmed f refl)

  pull_from-IsChange :
      (self : ClientRuntime V) (o : Option Checkpoint) (checkpoint : Checkpoint)
      (commits : List (PullCommit V))
      → IfSome (Follows checkpoint) self.state.checkpoint
      → Ensures (IsChange self) (pull_from self o checkpoint commits)
  unfolding pull_from
  pull_from-IsChange self none checkpoint commits f = forward-IsChange self checkpoint commits f
  pull_from-IsChange self (some current) checkpoint commits f =
      Ensures-if (checkpoint.cursor.sequence == current.cursor.sequence)
        (λ _. frontier-IsChange self current checkpoint commits f)
        (λ _. forward-IsChange self checkpoint commits f)

  batch-IsChange :
      (self : ClientRuntime V) (batch : PullBatch V)
      → Ensures (IsChange self) (prepare_pull_batch self batch)
  unfolding prepare_pull_batch
  batch-IsChange self batch = Ensures-bind (validate_pull_batch self.state batch) λ r h.
      Ensures-seq (guard_subscription_scope self.state r.0.scope) λ _.
        pull_from-IsChange self self.state.checkpoint r.0 r.1
          (validate_pull_batch-IsFramed self.state batch h).follows

  check_against-MayReplace :
      (state : DurableClientState V) (incoming : Checkpoint) (o : Option Checkpoint)
      → check_against state incoming o ≡ ok tt
      → IfSome (MayReplace state incoming) o
  unfolding check_against
  check_against-MayReplace state incoming none h = tt
  check_against-MayReplace state incoming (some current) h =
      (ground arith, ground arith, λ changed. (ground arith, ground arith))

  snapshot-IsChange :
      (self : ClientRuntime V) (checkpoint : Checkpoint) (rows : List (SnapshotRecord V))
      → Ensures (IsChange self) (prepare_snapshot self checkpoint rows)
  unfolding prepare_snapshot check_replacement
  snapshot-IsChange self checkpoint rows = Ensures-seq (validate_scope self.state checkpoint) λ _.
      Ensures-seq (guard_subscription_scope self.state checkpoint.scope) λ _.
        Ensures-seq (check_replacement self.state checkpoint) λ h.
          Ensures-bind (snapshot_rows [] [] rows) λ confirmed _. Change-rule self _ (
            reset checkpoint confirmed
              (check_against-MayReplace self.state checkpoint self.state.checkpoint h) refl)

  pub bootstrap-IsChange :
      (self : ClientRuntime V) (checkpoint : Checkpoint) (rows : List (SnapshotRecord V))
      → Ensures (IsChange self) (prepare_bootstrap_snapshot self checkpoint rows)
  unfolding prepare_bootstrap_snapshot
  bootstrap-IsChange self checkpoint rows =
      Ensures-seq
        (fail_if
          (not (same_epoch self.state checkpoint)
            && any (λ resolved. is_accepted resolved.outcome) self.state.outcomes)
          _)
        λ _.
          Ensures-seq (try_for_each check_bootstrap_record rows)
            λ _. snapshot-IsChange self checkpoint rows

  pub pull-IsChange :
      (self : ClientRuntime V) (response : PullResponse V)
      → Ensures (IsChange self) (prepare_pull_response self response)
  unfolding prepare_pull_response prepare_reset
  pull-IsChange self (PullResponse.batch batch) = batch-IsChange self batch
  pull-IsChange self (PullResponse.reset snapshot) =
      snapshot-IsChange self snapshot.checkpoint snapshot.records
