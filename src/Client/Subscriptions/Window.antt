-- ===== src/Client/Subscriptions/Window.antt =====
-- surrealdb-sync-client/src/subscriptions.rs, `prepare_subscription_response`: a snapshot or a
-- delta of one ordered window, checked against the installed window and stored in the row cache.
use react_native_surrealdb.Base.{
  ℕ, ◌*◌, Bool, true, false, not, ◌&&◌, ◌||◌, Option, none, some, List, [], ◌∷◌, DecEq, ◌==◌, ◌!=◌,
  nat_eq, ltb, leb, all, length, contains, checked_add, if◌then◌else◌, Result, ok, err, ◌>>=◌, ◌>>◌,
  fail_if, ok_or, try_fold, ℕ_discrete,
}
use react_native_surrealdb.Base.Bytes.{Bytes, bytes_eq}
use react_native_surrealdb.Base.BTreeMap.{BTreeMap, get, contains_key, insert, remove}
use react_native_surrealdb.Protocol.{RecordId, OpaqueCheckpoint, scope_snapshot_eq, cursor_eq}
use react_native_surrealdb.Protocol.Subscription.{
  max_window_rows, kind, scalar_kind_eq, SubscriptionCommand, identity, SubscriptionRequest,
  subscription_request_eq, window_coverage_eq, SubscriptionRow, subscription_row_eq,
  MembershipChange, change_id, WindowResponseKind, SubscriptionResponse, valid_subscription_text,
  validate_subscription_response,
}
use react_native_surrealdb.Client.{
  ClientError, DurableClientState, DurableSubscriptions, SubscriptionSlot, PreparedTransition,
  ClientRuntime,
}
use react_native_surrealdb.Client.Slots.{
  invalid, cache_key, collect_records, ordered, scope_change_error, guard_subscription_scope,
  is_cancelled,
}
use react_native_surrealdb.Client.Runtime.{prepare}
use react_native_surrealdb.Client.Subscriptions.{with_subscriptions, prepare_cancel_subscription}

-- `Vec<RecordId>` equality.
pub ids-discrete : Discrete (List RecordId)
ids-discrete = hlevel ℕ_discrete

instance abbrev pub ids_eq : DecEq (List RecordId)
ids_eq = record { discrete = ids-discrete }

abbrev pub same_token : Option OpaqueCheckpoint → OpaqueCheckpoint → Bool
same_token none token = false
same_token (some other) token = other == token

abbrev pub start_window : SubscriptionCommand → Option (Bytes × ℕ)
start_window (SubscriptionCommand.start id generation definition_id parameters limit) =
    some (definition_id, limit)
start_window (SubscriptionCommand.resume id generation token) = none
start_window (SubscriptionCommand.cancel id generation) = none

abbrev pub is_delta : WindowResponseKind → Bool
is_delta (WindowResponseKind.snapshot reason) = false
is_delta (WindowResponseKind.delta before_revision) = true
is_delta WindowResponseKind.cancelled = false

module _ {V : Type 0} where
  unfoldable pub response_matches :
      DurableClientState V → SubscriptionResponse V → SubscriptionRequest → Bytes → ℕ → Bool
  response_matches state r request definition_id limit =
      r.partition_id == state.partition_id
      && r.client_id == state.client_id
      && r.generation == (identity request.command).1
      && r.scope.identity == state.requested_scope
      && r.scope.subscription_revision == state.subscription_revision
      && r.coverage.definition_id == definition_id
      && r.coverage.limit == limit
      && not (r.frontier.epoch == 0)
      && not (r.view_revision == 0)
      && leb (length r.changes) (max_window_rows * 2)
      && leb (length r.ordered_ids) limit
      && valid_subscription_text r.plan_fingerprint

  -- The scope of the checkpoint and of the installed window must not change.
  unfoldable pub guard_window_scope :
      DurableClientState V
      → SubscriptionResponse V
      → Option SubscriptionSlot
      → Result ClientError (Unit {0})
  guard_window_scope state r previous = do
    guard_subscription_scope state r.scope
    elim state.checkpoint [
      | none ↦ ok tt
      | some checkpoint ↦ fail_if (checkpoint.scope != r.scope) (scope_change_error state)
    ]
    elim previous [
      | none ↦ ok tt
      | some slot ↦ do
        fail_if (r.scope != slot.scope) (scope_change_error state)
        fail_if
            (ltb r.frontier.epoch slot.frontier.epoch
              || r.frontier.epoch == slot.frontier.epoch
                && ltb r.frontier.sequence slot.frontier.sequence
              || ltb r.view_revision slot.view_revision)
            invalid
    ]

  -- The cached rows that the members of a window name.
  unfoldable pub window_rows :
      BTreeMap (SubscriptionRow V)
      → BTreeMap Bytes
      → Result ClientError (BTreeMap (SubscriptionRow V))
  window_rows records =
      try_fold
        (λ rows member. do
          row ← ok_or (get member.1 records) invalid
          ok (insert member.0 row rows))
        []

  -- The rows that a response starts from.
  unfoldable pub initial_rows :
      DurableSubscriptions V
      → SubscriptionResponse V
      → Option SubscriptionSlot
      → WindowResponseKind
      → Result ClientError (BTreeMap (SubscriptionRow V))
  initial_rows current r previous (WindowResponseKind.snapshot reason) = ok []
  initial_rows current r previous WindowResponseKind.cancelled = err invalid
  initial_rows current r previous (WindowResponseKind.delta before_revision) = do
    slot ← ok_or previous invalid
    fail_if (before_revision != slot.view_revision) invalid
    after ← ok_or (checked_add before_revision 1) invalid
    fail_if
        (r.view_revision != after
          || r.plan_fingerprint != slot.plan_fingerprint
          || r.frontier.epoch != slot.frontier.epoch
          || r.coverage != slot.coverage)
        invalid
    window_rows current.records slot.members

  abbrev pub take_row :
      Bool
      → RecordId
      → BTreeMap (SubscriptionRow V)
      → Result ClientError (BTreeMap (SubscriptionRow V))
  take_row delta id rows =
      fail_if (not delta || not (contains_key id rows)) invalid >> ok (remove id rows)

  -- One change of a response; versions of a row never go back, and a deletion is newer.
  unfoldable pub apply_change :
      SubscriptionResponse V
      → BTreeMap (SubscriptionRow V)
      → MembershipChange V
      → Result ClientError (BTreeMap (SubscriptionRow V))
  apply_change r rows (MembershipChange.upsert row) = do
    fail_if (row.version == 0 || kind row.sort_key != r.coverage.order_kind) invalid
    fail_if
        (elim (get row.record_id rows) [
          | none ↦ false
          | some previous ↦ ltb row.version previous.version
        ])
        invalid
    ok (insert row.record_id row rows)
  apply_change r rows (MembershipChange.leave id) = take_row (is_delta r.response) id rows
  apply_change r rows (MembershipChange.delete id version) = do
    fail_if (elim (get id rows) [ none ↦ false | some previous ↦ leb version previous.version ])
        invalid
    take_row (is_delta r.response) id rows

  unfoldable pub apply_changes :
      SubscriptionResponse V
      → List RecordId
      → BTreeMap (SubscriptionRow V)
      → List (MembershipChange V)
      → Result ClientError (BTreeMap (SubscriptionRow V))
  apply_changes r touched rows [] = ok rows
  apply_changes r touched rows (change ∷ changes) = do
    fail_if
        (not (valid_subscription_text (change_id change)) || contains (change_id change) touched)
        invalid
    rows' ← apply_change r rows change
    apply_changes r (change_id change ∷ touched) rows' changes

  abbrev pub slot_of : SubscriptionResponse V → OpaqueCheckpoint → BTreeMap Bytes → SubscriptionSlot
  slot_of r token members = record {
    generation = r.generation;
    plan_fingerprint = r.plan_fingerprint;
    scope = r.scope;
    frontier = r.frontier;
    view_revision = r.view_revision;
    coverage = r.coverage;
    ordered_ids = r.ordered_ids;
    token = token;
    members = members;
  }

abbrev pub is_cancelled_response : WindowResponseKind → Bool
is_cancelled_response (WindowResponseKind.snapshot reason) = false
is_cancelled_response (WindowResponseKind.delta before_revision) = false
is_cancelled_response WindowResponseKind.cancelled = true

module _ {V : Type 0} ⦃v : DecEq V⦄ where
  abbrev pub same_row : Option (SubscriptionRow V) → SubscriptionRow V → Bool
  same_row none row = false
  same_row (some stored) row = stored == row

  abbrev pub change_is_installed :
      DurableSubscriptions V → SubscriptionSlot → MembershipChange V → Bool
  change_is_installed current slot (MembershipChange.upsert row) =
      elim (get row.record_id slot.members) [
        | none ↦ false
        | some key ↦ same_row (get key current.records) row
      ]
  change_is_installed current slot (MembershipChange.leave id) = not (contains_key id slot.members)
  change_is_installed current slot (MembershipChange.delete id version) =
      not (contains_key id slot.members)

  -- A repeated response, at the installed view revision.
  unfoldable pub is_installed :
      DurableSubscriptions V → SubscriptionResponse V → SubscriptionSlot → Bool
  is_installed current r slot =
      r.scope == slot.scope
      && r.frontier == slot.frontier
      && r.plan_fingerprint == slot.plan_fingerprint
      && r.coverage == slot.coverage
      && r.ordered_ids == slot.ordered_ids
      && same_token r.token slot.token
      && all (change_is_installed current slot) r.changes

  abbrev pub conflicts_with_cache : Option (SubscriptionRow V) → SubscriptionRow V → Bool
  conflicts_with_cache none row = false
  conflicts_with_cache (some stored) row = stored != row

  -- The rows join the cache under their keys, which the members of the window name.
  unfoldable pub store_rows :
      ℕ
      → BTreeMap (SubscriptionRow V)
      → BTreeMap Bytes
      → BTreeMap (SubscriptionRow V)
      → Result ClientError (BTreeMap (SubscriptionRow V) × BTreeMap Bytes)
  store_rows epoch records members [] = ok (records, members)
  store_rows epoch records members ((id, row) ∷ rows) =
      fail_if (conflicts_with_cache (get (cache_key epoch row) records) row) invalid
      >> store_rows epoch (insert (cache_key epoch row) row records)
          (insert id (cache_key epoch row) members) rows

  unfoldable pub install_window :
      ClientRuntime V
      → DurableSubscriptions V
      → SubscriptionResponse V
      → OpaqueCheckpoint
      → Option SubscriptionSlot
      → ℕ
      → Result ClientError (PreparedTransition V)
  install_window self current r token previous limit = do
    start ← initial_rows current r previous r.response
    rows ← apply_changes r [] start r.changes
    fail_if (ltb limit (length rows) || ordered rows r.coverage != r.ordered_ids) invalid
    stored ← store_rows r.frontier.epoch current.records [] rows
    prepare self (
        with_subscriptions self.state (
          collect_records (record current {
            authorization_scope = some r.scope;
            records = stored.0;
            slots = insert r.subscription_id (slot_of r token stored.1) current.slots;
          })))

  -- At the installed view revision only a repetition is accepted, and changes nothing.
  unfoldable pub replace_window :
      ClientRuntime V
      → DurableSubscriptions V
      → SubscriptionResponse V
      → OpaqueCheckpoint
      → ℕ
      → Option SubscriptionSlot
      → Result ClientError (PreparedTransition V)
  replace_window self current r token limit none = install_window self current r token none limit
  replace_window self current r token limit (some slot) =
      if r.view_revision == slot.view_revision
      then (if is_installed current r slot then prepare self self.state else err invalid)
      else install_window self current r token (some slot) limit

  unfoldable pub respond :
      ClientRuntime V
      → DurableSubscriptions V
      → SubscriptionResponse V
      → ℕ
      → Result ClientError (PreparedTransition V)
  respond self current r limit = do
    token ← ok_or r.token invalid
    fail_if (not (valid_subscription_text token)) invalid
    guard_window_scope self.state r (get r.subscription_id current.slots)
    replace_window self current r token limit (get r.subscription_id current.slots)

  unfoldable pub prepare_subscription_response :
      ClientRuntime V → SubscriptionResponse V → Result ClientError (PreparedTransition V)
  prepare_subscription_response self r = do
    fail_if (not (validate_subscription_response r)) invalid
    current ← ok_or self.state.subscriptions invalid
    fail_if (is_cancelled current r.subscription_id r.generation) ClientError.subscription_cancelled
    request ← ok_or (get r.subscription_id current.requests) invalid
    window ← ok_or (start_window request.command) invalid
    fail_if (not (response_matches self.state r request window.0 window.1)) invalid
    (if is_cancelled_response r.response
        then prepare_cancel_subscription self r.subscription_id r.generation
        else respond self current r window.1)
