-- ===== src/Client/Subscriptions.antt =====
-- surrealdb-sync-client/src/subscriptions.rs, the subscription transitions of `ClientRuntime`: start
-- and cancel. The child modules model the window response and what is read back.
pub mod Window
pub mod View
use react_native_surrealdb.Base.{
  ℕ, ◌+◌, ◌*◌, ◌<◌, Bool, true, false, not, ◌&&◌, ◌||◌, Option, none, some, List, [], ◌∷◌, ◌++◌,
  map, DecEq, ◌==◌, ◌!=◌, nat_eq, ltb, leb, max, any, all, is_empty, length, contains, checked_add,
  if◌then◌else◌, Result, ok, err, ◌>>=◌, ◌>>◌, fail_if, ok_or, try_fold, keep, ℕ_discrete,
}
use react_native_surrealdb.Base.Bytes.{Bytes, bytes_eq}
use react_native_surrealdb.Base.BTreeMap.{BTreeMap, get, contains_key, insert, remove, keys}
use react_native_surrealdb.Protocol.{
  RecordId, record_id, OpaqueCheckpoint, ScopeSnapshot, scope_snapshot_eq, Cursor, cursor_eq,
  Checkpoint, ClientCommit,
}
use react_native_surrealdb.Protocol.Subscription.{
  max_subscriptions, max_window_rows, kind, scalar_kind_eq, SubscriptionCommand, identity, is_start,
  SubscriptionRequest, subscription_request_eq, WindowCoverage, window_coverage_eq, SubscriptionRow,
  subscription_row_eq, MembershipChange, change_id, WindowResponseKind, SubscriptionResponse,
  valid_subscription_text, validate_subscription_request, validate_subscription_response, distinct,
}
use react_native_surrealdb.Client.{
  ClientError, DurableClientState, DurableSubscriptions, SubscriptionSlot, empty_subscriptions,
  PreparedTransition, ClientRuntime,
}
use react_native_surrealdb.Client.Projection.{all_operations}
use react_native_surrealdb.Client.Slots.{
  invalid, cache_key, collect_records, ordered, scope_change_error, guard_subscription_scope,
  is_cancelled,
}
use react_native_surrealdb.Client.Validate.{validate_coverage}
use react_native_surrealdb.Client.Runtime.{prepare}

abbrev pub request_id : SubscriptionRequest → Bytes
request_id request = (identity request.command).0

abbrev pub request_generation : SubscriptionRequest → ℕ
request_generation request = (identity request.command).1

unfoldable pub raise_barrier : Bytes → ℕ → BTreeMap ℕ → BTreeMap ℕ
raise_barrier id generation cancelled = elim (get id cancelled) [
  | none ↦ insert id generation cancelled
  | some barrier ↦ insert id (max barrier generation) cancelled
]

module _ {V : Type 0} where
  -- `subscriptions.get_or_insert_with(Default::default)`.
  abbrev pub subscriptions_of : DurableClientState V → DurableSubscriptions V
  subscriptions_of state = elim state.subscriptions [
    | none ↦ empty_subscriptions
    | some subs ↦ subs
  ]

  abbrev pub with_subscriptions :
      DurableClientState V → DurableSubscriptions V → DurableClientState V
  with_subscriptions state subs = record state { subscriptions = some subs }

  -- The barrier rises, and the request and the window are dropped.
  unfoldable pub cancelled_at : Bytes → ℕ → DurableSubscriptions V → DurableSubscriptions V
  cancelled_at id generation subs = record subs {
    cancelled = raise_barrier id generation subs.cancelled;
    slots = remove id subs.slots;
    requests = remove id subs.requests;
  }

  unfoldable pub started : SubscriptionRequest → DurableSubscriptions V → DurableSubscriptions V
  started request subs = record subs {
    slots = remove (request_id request) subs.slots;
    requests = insert (request_id request) request subs.requests;
  }

  unfoldable pub is_own_start : DurableClientState V → SubscriptionRequest → Bool
  is_own_start state request =
      validate_subscription_request request
      && is_start request.command
      && request.partition_id == state.partition_id
      && request.client_id == state.client_id
      && request.requested_scope == state.requested_scope
      && request.subscription_revision == state.subscription_revision

  unfoldable pub barriers_full : DurableSubscriptions V → Bytes → Bool
  barriers_full subs id =
      not (contains_key id subs.cancelled) && leb max_subscriptions (length subs.cancelled)

  unfoldable pub has_newer_request : DurableSubscriptions V → Bytes → ℕ → Bool
  has_newer_request subs id generation = elim (get id subs.requests) [
    | none ↦ false
    | some request ↦ ltb generation (identity request.command).1
  ]

  abbrev pub limit_reached : DurableSubscriptions V → Bytes → Bool
  limit_reached subs id =
      not (contains_key id subs.requests)
      && not (contains_key id subs.cancelled)
      && leb max_subscriptions (length (distinct (keys subs.requests ++ keys subs.cancelled)))

module _ {V : Type 0} ⦃v : DecEq V⦄ where
  -- A new or newer request takes the place of the window and of the request before it.
  unfoldable pub start_window_request :
      ClientRuntime V → SubscriptionRequest → Result ClientError (PreparedTransition V)
  start_window_request self request =
      fail_if (limit_reached (subscriptions_of self.state) (request_id request)) invalid
      >> prepare self (
          with_subscriptions self.state
            (collect_records (started request (subscriptions_of self.state))))

  -- Against the request that is installed under the same id, if there is one.
  unfoldable pub start_over :
      ClientRuntime V
      → SubscriptionRequest
      → Option SubscriptionRequest
      → Result ClientError (PreparedTransition V)
  start_over self request none = start_window_request self request
  start_over self request (some previous) =
      if previous == request
      then prepare self (with_subscriptions self.state (subscriptions_of self.state))
      else (fail_if (leb (request_generation request) (request_generation previous)) invalid
          >> start_window_request self request)

  unfoldable pub prepare_start_subscription :
      ClientRuntime V → SubscriptionRequest → Result ClientError (PreparedTransition V)
  prepare_start_subscription self request = do
    fail_if (not (is_own_start self.state request)) invalid
    fail_if
        (is_cancelled (subscriptions_of self.state) (request_id request)
          (request_generation request))
        ClientError.subscription_cancelled
    start_over self request (get (request_id request) (subscriptions_of self.state).requests)

  unfoldable pub prepare_cancel_subscription :
      ClientRuntime V → Bytes → ℕ → Result ClientError (PreparedTransition V)
  prepare_cancel_subscription self id generation = do
    fail_if (not (valid_subscription_text id) || generation == 0) invalid
    fail_if (barriers_full (subscriptions_of self.state) id) invalid
    fail_if (has_newer_request (subscriptions_of self.state) id generation) invalid
    prepare self (
        with_subscriptions self.state
          (collect_records (cancelled_at id generation (subscriptions_of self.state))))
