-- ===== src/Client/History/Refine/Windows.antt =====
-- The subscription transitions, as changes of the state.
use react_native_surrealdb.Base.{
  ℕ, refl, not, ◌||◌, Option, none, some, [], DecEq, nat_eq, ◌==◌, ◌!=◌, fail_if, ok_or, Ensures,
  fails, Ensures-bind, Ensures-seq, Ensures-if, ltb, leb, length,
}
use react_native_surrealdb.Base.BTreeMap.{get}
use react_native_surrealdb.Base.Bytes.{Bytes, bytes_eq}
use react_native_surrealdb.Protocol.{
  commit_identity_eq, durable_outcome_eq, OpaqueCheckpoint, scope_snapshot_eq, checkpoint_eq,
}
use react_native_surrealdb.Protocol.Subscription.{
  SubscriptionRequest, subscription_request_eq, SubscriptionResponse, valid_subscription_text,
  validate_subscription_response,
}
use react_native_surrealdb.Client.{
  durable_client_state_eq, DurableSubscriptions, SubscriptionSlot, ClientRuntime,
}
use react_native_surrealdb.Client.Slots.{is_cancelled, ordered}
use react_native_surrealdb.Client.Runtime.{prepare}
use react_native_surrealdb.Client.Subscriptions.{
  subscriptions_of, with_subscriptions, limit_reached, request_id, request_generation, is_own_start,
  barriers_full, has_newer_request, start_window_request, start_over, prepare_start_subscription,
  prepare_cancel_subscription,
}
use react_native_surrealdb.Client.Subscriptions.Window.{
  start_window, response_matches, guard_window_scope, initial_rows, apply_changes, is_installed,
  store_rows, install_window, replace_window, respond, is_cancelled_response,
  prepare_subscription_response, ids_eq,
}
use react_native_surrealdb.Client.History.Change.{unchanged, rewindowed, IsChange, Change-rule}

module _ {V : Type 0} ⦃v : DecEq V⦄ where
  windows_rule :
      (self : ClientRuntime V) (subs : DurableSubscriptions V)
      → Ensures (IsChange self) (prepare self (with_subscriptions self.state subs))
  windows_rule self subs = Change-rule self _ (rewindowed subs refl)

  start_window-IsChange :
      (self : ClientRuntime V) (request : SubscriptionRequest)
      → Ensures (IsChange self) (start_window_request self request)
  unfolding start_window_request
  start_window-IsChange self request =
      Ensures-seq (fail_if (limit_reached (subscriptions_of self.state) (request_id request)) _)
        λ _. windows_rule self _

  start_over-IsChange :
      (self : ClientRuntime V) (request : SubscriptionRequest) (o : Option SubscriptionRequest)
      → Ensures (IsChange self) (start_over self request o)
  unfolding start_over
  start_over-IsChange self request none = start_window-IsChange self request
  start_over-IsChange self request (some previous) =
      Ensures-if (previous == request) (λ _. windows_rule self _)
        λ _.
          Ensures-seq (fail_if (leb (request_generation request) (request_generation previous)) _)
            λ _. start_window-IsChange self request

  pub start-IsChange :
      (self : ClientRuntime V) (request : SubscriptionRequest)
      → Ensures (IsChange self) (prepare_start_subscription self request)
  unfolding prepare_start_subscription
  start-IsChange self request = Ensures-seq (fail_if (not (is_own_start self.state request)) _) λ _.
      Ensures-seq
        (fail_if
          (is_cancelled (subscriptions_of self.state) (request_id request)
            (request_generation request))
          _)
        λ _. start_over-IsChange self request _

  pub cancel-IsChange :
      (self : ClientRuntime V) (id : Bytes) (generation : ℕ)
      → Ensures (IsChange self) (prepare_cancel_subscription self id generation)
  unfolding prepare_cancel_subscription
  cancel-IsChange self id generation =
      Ensures-seq (fail_if (not (valid_subscription_text id) || generation == 0) _) λ _.
        Ensures-seq (fail_if (barriers_full (subscriptions_of self.state) id) _) λ _.
          Ensures-seq (fail_if (has_newer_request (subscriptions_of self.state) id generation) _)
            λ _. windows_rule self _

  install_window-IsChange :
      (self : ClientRuntime V) (current : DurableSubscriptions V) (r : SubscriptionResponse V)
      (token : OpaqueCheckpoint) (previous : Option SubscriptionSlot) (limit : ℕ)
      → Ensures (IsChange self) (install_window self current r token previous limit)
  unfolding install_window
  install_window-IsChange self current r token previous limit =
      Ensures-bind (initial_rows current r previous r.response) λ start _.
        Ensures-bind (apply_changes r [] start r.changes) λ rows _.
          Ensures-seq
            (fail_if (ltb limit (length rows) || ordered rows r.coverage != r.ordered_ids) _)
            λ _.
              Ensures-bind (store_rows r.frontier.epoch current.records [] rows)
                λ stored _. windows_rule self _

  replace_window-IsChange :
      (self : ClientRuntime V) (current : DurableSubscriptions V) (r : SubscriptionResponse V)
      (token : OpaqueCheckpoint) (limit : ℕ) (o : Option SubscriptionSlot)
      → Ensures (IsChange self) (replace_window self current r token limit o)
  unfolding replace_window
  replace_window-IsChange self current r token limit none =
      install_window-IsChange self current r token none limit
  replace_window-IsChange self current r token limit (some slot) =
      Ensures-if (r.view_revision == slot.view_revision)
        (λ _.
          Ensures-if (is_installed current r slot) (λ _. Change-rule self _ (unchanged refl))
            (λ _. fails))
        (λ _. install_window-IsChange self current r token (some slot) limit)

  respond-IsChange :
      (self : ClientRuntime V) (current : DurableSubscriptions V) (r : SubscriptionResponse V)
      (limit : ℕ)
      → Ensures (IsChange self) (respond self current r limit)
  unfolding respond
  respond-IsChange self current r limit = Ensures-bind (ok_or r.token _) λ token _.
      Ensures-seq (fail_if (not (valid_subscription_text token)) _) λ _.
        Ensures-seq (guard_window_scope self.state r (get r.subscription_id current.slots))
          λ _. replace_window-IsChange self current r token limit _

  pub window-IsChange :
      (self : ClientRuntime V) (r : SubscriptionResponse V)
      → Ensures (IsChange self) (prepare_subscription_response self r)
  unfolding prepare_subscription_response
  window-IsChange self r = Ensures-seq (fail_if (not (validate_subscription_response r)) _) λ _.
      Ensures-bind (ok_or self.state.subscriptions _) λ current _.
        Ensures-seq (fail_if (is_cancelled current r.subscription_id r.generation) _) λ _.
          Ensures-bind (ok_or (get r.subscription_id current.requests) _) λ request _.
            Ensures-bind (ok_or (start_window request.command) _) λ window _.
              Ensures-seq
                (fail_if (not (response_matches self.state r request window.0 window.1)) _)
                λ _.
                  Ensures-if (is_cancelled_response r.response)
                    (λ _. cancel-IsChange self r.subscription_id r.generation)
                    (λ _. respond-IsChange self current r window.1)
