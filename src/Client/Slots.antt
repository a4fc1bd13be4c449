-- ===== src/Client/Slots.antt =====
-- surrealdb-sync-client/src/subscriptions.rs: the row cache shared by the subscription slots, the
-- window order, the scope guard and the checks of `DurableSubscriptions::validate`.
use react_native_surrealdb.Base.{
  ℕ, ◌*◌, Ordering, Bool, true, false, not, ◌&&◌, ◌||◌, Option, none, some, List, [], ◌∷◌, ◌++◌,
  map, ◌==◌, ◌!=◌, nat_eq, ltb, leb, any, is_empty, length, contains, if◌then◌else◌, Result, ok,
  err, ◌>>=◌, ◌>>◌, fail_if, ok_or, try_for_each, try_fold,
}
use react_native_surrealdb.Base.Bytes.{
  Bytes, bytes_eq, compare_bytes, then_with, reverse_ordering, decimal,
}
use react_native_surrealdb.Base.BTreeMap.{BTreeMap, get, contains_key, insert, keys, values, retain}
use react_native_surrealdb.Protocol.{RecordId, ScopeSnapshot, scope_snapshot_eq}
use react_native_surrealdb.Protocol.Subscription.{
  max_subscriptions, max_window_rows, QueryScalar, kind, compare_scalar, SortDirection,
  sort_direction_eq, SubscriptionCommand, identity, is_start, SubscriptionRequest, WindowCoverage,
  SubscriptionRow, scalar_kind_eq, valid_subscription_text, validate_subscription_request, distinct,
}
use react_native_surrealdb.Client.{
  ClientError, DurableClientState, DurableSubscriptions, SubscriptionSlot,
}
use react_native_surrealdb.Client.Commits.{has_unsettled_intent}

abbrev pub invalid : ClientError
invalid = ClientError.invalid_subscription

-- The keys of the cached rows that some slot refers to.
abbrev pub used_by_slots : BTreeMap SubscriptionSlot → List Bytes
used_by_slots [] = []
used_by_slots ((id, slot) ∷ slots) = values slot.members ++ used_by_slots slots

abbrev pub validate_barrier : Bytes × ℕ → Result ClientError (Unit {0})
validate_barrier (id, barrier) = fail_if (not (valid_subscription_text id) || barrier == 0) invalid

abbrev pub matches_start : SubscriptionCommand → WindowCoverage → Bool
matches_start (SubscriptionCommand.start id generation definition_id parameters limit) coverage =
    definition_id == coverage.definition_id && limit == coverage.limit
matches_start (SubscriptionCommand.resume id generation token) coverage = true
matches_start (SubscriptionCommand.cancel id generation) coverage = true

abbrev pub sort_text_is_valid : QueryScalar → Bool
sort_text_is_valid (QueryScalar.bool b) = true
sort_text_is_valid (QueryScalar.int n) = true
sort_text_is_valid (QueryScalar.text t) = valid_subscription_text t

module _ {V : Type 0} where
  -- `{epoch}:{version}:{length of the id}:{id}`.
  unfoldable pub cache_key : ℕ → SubscriptionRow V → Bytes
  cache_key epoch row =
      decimal epoch
      ++ (58
          ∷ (decimal row.version
              ++ (58 ∷ (decimal (length row.record_id) ++ (58 ∷ row.record_id)))))

  unfoldable pub collect_records : DurableSubscriptions V → DurableSubscriptions V
  collect_records state = record state {
    records = retain (λ key. contains key (used_by_slots state.slots)) state.records;
  }

  -- The comparison of `ordered` and of the window check.
  unfoldable pub compare_rows : SortDirection → SubscriptionRow V → SubscriptionRow V → Ordering
  compare_rows SortDirection.ascending a b =
      then_with (compare_scalar a.sort_key b.sort_key) (compare_bytes a.record_id b.record_id)
  compare_rows SortDirection.descending a b =
      then_with (reverse_ordering (compare_scalar a.sort_key b.sort_key))
        (compare_bytes a.record_id b.record_id)

  -- The standard library's stable sort, as an insertion sort from the back.
  unfoldable pub insert_row :
      SortDirection → SubscriptionRow V → List (SubscriptionRow V) → List (SubscriptionRow V)
  insert_row direction row [] = row ∷ []
  insert_row direction row (other ∷ rows) = elim (compare_rows direction row other) [
    | Ordering.gt ↦ other ∷ insert_row direction row rows
    | _ ↦ row ∷ other ∷ rows
  ]

  unfoldable pub sort_rows : SortDirection → List (SubscriptionRow V) → List (SubscriptionRow V)
  sort_rows direction [] = []
  sort_rows direction (row ∷ rows) = insert_row direction row (sort_rows direction rows)

  unfoldable pub ordered : BTreeMap (SubscriptionRow V) → WindowCoverage → List RecordId
  ordered rows coverage = map (λ row. row.record_id) (sort_rows coverage.direction (values rows))

  -- While intent is unsettled a change of the authorized scope asks for quarantine, else for a
  -- new journal.
  unfoldable pub scope_change_error : DurableClientState V → ClientError
  scope_change_error state =
      if has_unsettled_intent state
      then ClientError.pending_quarantine_required
      else ClientError.needs_new_scope_journal

  abbrev pub authorization_scope : DurableClientState V → Option ScopeSnapshot
  authorization_scope state = elim state.subscriptions [
    | none ↦ none
    | some subs ↦ subs.authorization_scope
  ]

  unfoldable pub guard_subscription_scope :
      DurableClientState V → ScopeSnapshot → Result ClientError (Unit {0})
  guard_subscription_scope state scope = elim (authorization_scope state) [
    | none ↦ ok tt
    | some previous ↦ fail_if (previous != scope) (scope_change_error state)
  ]

  abbrev pub validate_request :
      DurableClientState V → Bytes × SubscriptionRequest → Result ClientError (Unit {0})
  validate_request owner (id, request) =
      fail_if
        (not (validate_subscription_request request)
          || not (is_start request.command)
          || (identity request.command).0 != id
          || request.partition_id != owner.partition_id
          || request.client_id != owner.client_id
          || request.requested_scope != owner.requested_scope
          || request.subscription_revision != owner.subscription_revision)
        invalid

  abbrev pub validate_authorization :
      DurableSubscriptions V → DurableClientState V → Result ClientError (Unit {0})
  validate_authorization subs owner = elim subs.authorization_scope [
    | none ↦ fail_if (not (is_empty subs.slots)) invalid
    | some scope ↦
        fail_if
          (scope.identity != owner.requested_scope
            || scope.subscription_revision != owner.subscription_revision
            || elim owner.checkpoint [ none ↦ false | some checkpoint ↦ checkpoint.scope != scope ])
          invalid
  ]

  -- A cancellation barrier that covers the generation.
  abbrev pub is_cancelled : DurableSubscriptions V → Bytes → ℕ → Bool
  is_cancelled subs id generation = elim (get id subs.cancelled) [
    | none ↦ false
    | some barrier ↦ leb generation barrier
  ]

  abbrev pub is_authorized : DurableSubscriptions V → ScopeSnapshot → Bool
  is_authorized subs scope = elim subs.authorization_scope [
    | none ↦ false
    | some authorized ↦ authorized == scope
  ]

  -- The checks of one slot before its members are read.
  unfoldable pub slot_is_consistent :
      DurableSubscriptions V
      → DurableClientState V
      → Bytes
      → SubscriptionSlot
      → SubscriptionRequest
      → Bool
  slot_is_consistent subs owner id slot request =
      is_authorized subs slot.scope
      && (identity request.command).1 == slot.generation
      && not (is_cancelled subs id slot.generation)
      && not (slot.frontier.epoch == 0)
      && not (slot.view_revision == 0)
      && slot.scope.identity == owner.requested_scope
      && slot.scope.subscription_revision == owner.subscription_revision
      && valid_subscription_text slot.plan_fingerprint
      && valid_subscription_text slot.token
      && not (slot.coverage.limit == 0)
      && leb slot.coverage.limit max_window_rows
      && leb (length slot.members) slot.coverage.limit
      && matches_start request.command slot.coverage
      && valid_subscription_text slot.coverage.order_field

  unfoldable pub row_is_consistent : SubscriptionSlot → RecordId → Bytes → SubscriptionRow V → Bool
  row_is_consistent slot id key row =
      valid_subscription_text id
      && sort_text_is_valid row.sort_key
      && row.record_id == id
      && cache_key slot.frontier.epoch row == key
      && kind row.sort_key == slot.coverage.order_kind
      && not (row.version == 0)

  -- The rows of a slot by record, each read from the cache and checked.
  unfoldable pub slot_rows :
      DurableSubscriptions V → SubscriptionSlot → Result ClientError (BTreeMap (SubscriptionRow V))
  slot_rows subs slot =
      try_fold
        (λ rows member. do
          row ← ok_or (get member.1 subs.records) invalid
          fail_if (not (row_is_consistent slot member.0 member.1 row)) invalid
          ok (insert member.0 row rows))
        [] slot.members

  -- `windows(2)`: each pair of neighbours is present and strictly increasing.
  unfoldable pub windows_increase :
      SortDirection → BTreeMap (SubscriptionRow V) → List RecordId → Result ClientError (Unit {0})
  windows_increase direction rows [] = ok tt
  windows_increase direction rows (a ∷ []) = ok tt
  windows_increase direction rows (a ∷ b ∷ ids) = do
    row_a ← ok_or (get a rows) invalid
    row_b ← ok_or (get b rows) invalid
    elim (compare_rows direction row_a row_b) [
      | Ordering.lt ↦ windows_increase direction rows (b ∷ ids)
      | _ ↦ err invalid
    ]

  unfoldable pub validate_slot :
      DurableSubscriptions V
      → DurableClientState V
      → List Bytes
      → Bytes × SubscriptionSlot
      → Result ClientError (List Bytes)
  validate_slot subs owner used (id, slot) = do
    request ← ok_or (get id subs.requests) invalid
    fail_if (not (slot_is_consistent subs owner id slot request)) invalid
    rows ← slot_rows subs slot
    fail_if
        (length rows != length slot.ordered_ids
          || length (distinct slot.ordered_ids) != length rows
          || any (λ member. not (contains_key member rows)) slot.ordered_ids)
        invalid
    windows_increase slot.coverage.direction rows slot.ordered_ids
    ok (values slot.members ++ used)

  unfoldable pub validate_subscriptions :
      DurableSubscriptions V → DurableClientState V → Result ClientError (Unit {0})
  validate_subscriptions subs owner = do
    fail_if
        (ltb max_subscriptions (length subs.requests)
          || ltb max_subscriptions (length subs.cancelled)
          || ltb max_subscriptions (length subs.slots)
          || ltb (max_subscriptions * max_window_rows) (length subs.records))
        invalid
    try_for_each (validate_request owner) subs.requests
    try_for_each validate_barrier subs.cancelled
    fail_if (ltb max_subscriptions (length (distinct (keys subs.requests ++ keys subs.cancelled))))
        invalid
    validate_authorization subs owner
    used ← try_fold (validate_slot subs owner) [] subs.slots
    fail_if (any (λ key. not (contains key used)) (keys subs.records)) invalid
