-- ===== src/Client/History.antt =====
-- The life of one journal: each call of `ClientRuntime` in surrealdb-sync-client/src as an event,
-- prepared and, once its state was persisted, installed. An event that fails changes nothing.
-- The child modules prove what every history keeps.
pub mod Change
pub mod Refine
pub mod Steps
pub mod Kept
pub mod Frontier
pub mod Revision
pub mod Scope
pub mod Enqueue
pub mod Rows
pub mod Retried
pub mod Cancelled
pub mod Accept
pub mod Replacement
pub mod Resolve
use react_native_surrealdb.Base.{ℕ, List, [], ◌∷◌, DecEq, Result, ok, err, ◌>>=◌, ◌>>◌}
use react_native_surrealdb.Base.Bytes.{Bytes}
use react_native_surrealdb.Protocol.{
  ClientCommitId, ClientCommit, PushResponse, PullResponse, Checkpoint, SnapshotRecord,
}
use react_native_surrealdb.Protocol.Subscription.{SubscriptionRequest, SubscriptionResponse}
use react_native_surrealdb.Client.{
  ClientError, AutomaticConflictPolicy, ConflictResolutionRequest, PreparedTransition,
  ClientRuntime,
}
use react_native_surrealdb.Client.Runtime.{
  install, prepare_enqueue, prepare_push_response_with_policy, prepare_resolve_conflict,
}
use react_native_surrealdb.Client.Runtime.Pull.{prepare_pull_response, prepare_bootstrap_snapshot}
use react_native_surrealdb.Client.Subscriptions.{
  prepare_start_subscription, prepare_cancel_subscription,
}
use react_native_surrealdb.Client.Subscriptions.Window.{prepare_subscription_response}

pub data Event (V : Type 0) : Type 0 where
  enqueue : ClientCommit V → Event V
  push : PushResponse V → AutomaticConflictPolicy → Event V
  resolve : ClientCommitId → ConflictResolutionRequest V → Event V
  pull : PullResponse V → Event V
  bootstrap : Checkpoint → List (SnapshotRecord V) → Event V
  start : SubscriptionRequest → Event V
  cancel : Bytes → ℕ → Event V
  window : SubscriptionResponse V → Event V

module _ {V : Type 0} ⦃v : DecEq V⦄ where
  unfoldable pub transition : ClientRuntime V → Event V → Result ClientError (PreparedTransition V)
  transition self (Event.enqueue commit) = prepare_enqueue self commit
  transition self (Event.push response policy) =
      prepare_push_response_with_policy self response policy
  transition self (Event.resolve id request) = prepare_resolve_conflict self id request
  transition self (Event.pull response) = prepare_pull_response self response
  transition self (Event.bootstrap checkpoint rows) =
      prepare_bootstrap_snapshot self checkpoint rows
  transition self (Event.start request) = prepare_start_subscription self request
  transition self (Event.cancel id generation) = prepare_cancel_subscription self id generation
  transition self (Event.window response) = prepare_subscription_response self response

  abbrev pub after : ClientRuntime V → Result ClientError (ClientRuntime V) → ClientRuntime V
  after self (ok next) = next
  after self (err e) = self

  unfoldable pub step : ClientRuntime V → Event V → ClientRuntime V
  step self event = after self (transition self event >>= install self)

  unfoldable pub run : ClientRuntime V → List (Event V) → ClientRuntime V
  run self [] = self
  run self (event ∷ events) = run (step self event) events
