-- ===== src/Client/History/Refine.antt =====
-- The refinement of the transitions of surrealdb-sync-client/src by the abstract changes.
mod Local
mod Pulls
mod Windows
use react_native_surrealdb.Base.{
  ℕ, ◌+◌, ◌≤◌, ◌<◌, ◌≡◌, refl, sym, ◌≢◌, ◌⊎◌, inl, inr, Bool, true, false, not, ◌||◌, ◌&&◌, Option,
  none, some, List, [], ◌∷◌, ◌++◌, arith, DecEq, nat_eq, ◌==◌, ◌!=◌, IfSome, find, extract, head,
  last, any, try_for_each, is_empty, Result, ok, err, ◌>>=◌, ◌>>◌, fail_if, fail_if_iff, ok_or,
  Ensures, holds, fails, Ensures-bind, Ensures-seq, Ensures-if, ensures_ok, Ensures-map, >>=-eq-ok,
  >>-eq-ok, Option-cases, checked_add, u64_mod, ltb, leb, length,
}
use react_native_surrealdb.Base.BTreeMap.{BTreeMap, get}
use react_native_surrealdb.Base.Bytes.{Bytes, bytes_eq}
use react_native_surrealdb.Protocol.{
  ClientCommitId, ClientCommit, commit_identity_eq, RecordState, DurableOutcome, outcome_identity,
  durable_outcome_eq, Checkpoint, OpaqueCheckpoint, scope_snapshot_eq, checkpoint_eq, PushResponse,
  PullCommit, PullBatch, PullResponse, SnapshotRecord,
}
use react_native_surrealdb.Protocol.Subscription.{
  SubscriptionRequest, subscription_request_eq, SubscriptionResponse, WindowResponseKind,
  valid_subscription_text, validate_subscription_response,
}
use react_native_surrealdb.Client.{
  ClientError, AutomaticConflictPolicy, ConflictResolution, ConflictResolutionRequest,
  ResolvedCommit, DurableClientState, durable_client_state_eq, DurableSubscriptions,
  SubscriptionSlot, PreparedTransition, ClientRuntime,
}
use react_native_surrealdb.Client.Commits.{
  commit_id, resolved_id, identity_exists, has_unsettled_intent, validate_commit, is_accepted,
  validate_replacement_identity, same_intent, resolution_request_matches,
}
use react_native_surrealdb.Client.Validate.{validate, validate_scope}
use react_native_surrealdb.Client.Slots.{guard_subscription_scope, is_cancelled, ordered}
use react_native_surrealdb.Client.Remap.{accepted_mappings, apply_id_mappings, remap_all}
use react_native_surrealdb.Client.Runtime.{
  is_conflict_of, resolve_first, rebased, conflict_record, automatic_resolution, next_revision,
  prepare, prepare_enqueue, settle_pending, settle, prepare_push_response_with_policy,
  prepare_replacement, resolve, resolve_again, prepare_resolve_conflict, is_foreign,
}
use react_native_surrealdb.Client.Runtime.Pull.{
  start_checkpoint, finish_checkpoint, snapshot_rows, same_epoch, check_bootstrap_record,
  validate_position, moves_backward, validate_pull_batch, check_against, check_replacement,
  replace_rows, pull_at_frontier, pull_forward, pull_from, prepare_pull_batch, prepare_snapshot,
  prepare_reset, prepare_bootstrap_snapshot, prepare_pull_response, apply_commits,
}
use react_native_surrealdb.Client.Runtime.Pull.Frames.{Follows, validate_pull_batch-IsFramed}
use react_native_surrealdb.Client.Subscriptions.{
  subscriptions_of, with_subscriptions, limit_reached, request_id, request_generation, is_own_start,
  barriers_full, has_newer_request, start_window_request, start_over, prepare_start_subscription,
  prepare_cancel_subscription,
}
use react_native_surrealdb.Client.Subscriptions.Window.{
  start_window, response_matches, guard_window_scope, initial_rows, apply_changes, is_installed,
  store_rows, install_window, replace_window, respond, is_cancelled_response,
  prepare_subscription_response, ids_eq,
}
use react_native_surrealdb.Client.History.{Event, transition}
use react_native_surrealdb.Client.History.Change.{
  MayReplace, Change, unchanged, enqueued, settled, closed, replaced, pulled, reset, rewindowed,
  IsChange, Change-rule,
}
use Local.{enqueue-IsChange, push-IsChange, resolve_conflict-IsChange}
use Pulls.{pull-IsChange, bootstrap-IsChange}
use Windows.{start-IsChange, cancel-IsChange, window-IsChange}

module _ {V : Type 0} ⦃v : DecEq V⦄ where
  -- A prepared transition of any kind is a Change of the state, which `prepare` gave its revision.
  pub transition-IsChange :
      (self : ClientRuntime V) (event : Event V) → Ensures (IsChange self) (transition self event)
  unfolding transition
  transition-IsChange self (Event.enqueue commit) = enqueue-IsChange self commit
  transition-IsChange self (Event.push response policy) = push-IsChange self response policy
  transition-IsChange self (Event.resolve id request) = resolve_conflict-IsChange self id request
  transition-IsChange self (Event.pull response) = pull-IsChange self response
  transition-IsChange self (Event.bootstrap checkpoint rows) =
      bootstrap-IsChange self checkpoint rows
  transition-IsChange self (Event.start request) = start-IsChange self request
  transition-IsChange self (Event.cancel id generation) = cancel-IsChange self id generation
  transition-IsChange self (Event.window response) = window-IsChange self response
