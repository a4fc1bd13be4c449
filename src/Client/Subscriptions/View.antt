-- ===== src/Client/Subscriptions/View.antt =====
-- surrealdb-sync-client/src/subscriptions.rs, what is read back: the request to resume or cancel a
-- subscription, and the rows of its installed window.
use react_native_surrealdb.Base.{
  ℕ, Bool, true, false, not, ◌&&◌, Option, none, some, List, [], ◌∷◌, map, ◌==◌, nat_eq,
  if◌then◌else◌, Result, ok, err, keep,
}
use react_native_surrealdb.Base.Bytes.{Bytes, bytes_eq}
use react_native_surrealdb.Base.BTreeMap.{BTreeMap, get, contains_key, insert, keys}
use react_native_surrealdb.Protocol.{
  RecordId, record_id, ScopeSnapshot, scope_snapshot_eq, Cursor, cursor_eq,
}
use react_native_surrealdb.Protocol.Subscription.{
  scalar_kind_eq, SubscriptionCommand, SubscriptionRequest, subscription_request_eq, WindowCoverage,
  window_coverage_eq, SubscriptionRow, subscription_row_eq,
}
use react_native_surrealdb.Client.{
  DurableClientState, DurableSubscriptions, SubscriptionSlot, ClientRuntime,
}
use react_native_surrealdb.Client.Projection.{all_operations}
use react_native_surrealdb.Client.Validate.{validate_coverage}

pub record SubscriptionViewMetadata : Type 0 where
  pub revision : ℕ
  pub subscription_id : Bytes
  pub generation : ℕ
  pub plan_fingerprint : Bytes
  pub scope : ScopeSnapshot
  pub frontier : Cursor
  pub view_revision : ℕ
  pub coverage : WindowCoverage

pub record InstalledSubscription (V : Type 0) : Type 0 where
  pub metadata : SubscriptionViewMetadata
  pub rows : List (SubscriptionRow V)
  pub pending_outside_window : Option (List RecordId)

-- The ids that the outbox touches, in increasing order and once each.
abbrev pub insert_all : List RecordId → BTreeMap (Unit {0}) → BTreeMap (Unit {0})
insert_all [] ids = ids
insert_all (id ∷ rest) ids = insert_all rest (insert id tt ids)

abbrev pub is_ok {ℓ} : {E : Type 0} {A : Type ℓ} → Result E A → Bool
is_ok (ok a) = true
is_ok (err e) = false

module _ {V : Type 0} where
  unfoldable pub subscription_request : ClientRuntime V → Bytes → Option SubscriptionRequest
  subscription_request self id = elim self.state.subscriptions [
    | none ↦ none
    | some subs ↦ elim (get id subs.requests) [
      | some request ↦ elim (get id subs.slots) [
        | none ↦ some request
        | some slot ↦
            some (record request {
              command = SubscriptionCommand.resume id slot.generation slot.token;
            })
      ]
      | none ↦ elim (get id subs.cancelled) [
        | none ↦ none
        | some generation ↦ some (record {
          partition_id = self.state.partition_id;
          client_id = self.state.client_id;
          requested_scope = self.state.requested_scope;
          subscription_revision = self.state.subscription_revision;
          command = SubscriptionCommand.cancel id generation;
        })
      ]
    ]
  ]

  abbrev pub window_rows_in_order :
      BTreeMap Bytes → BTreeMap (SubscriptionRow V) → List RecordId → List (SubscriptionRow V)
  window_rows_in_order members records [] = []
  window_rows_in_order members records (id ∷ ids) = elim (get id members) [
    | none ↦ window_rows_in_order members records ids
    | some key ↦ elim (get key records) [
      | none ↦ window_rows_in_order members records ids
      | some row ↦ row ∷ window_rows_in_order members records ids
    ]
  ]

  unfoldable pub pending_ids : DurableClientState V → SubscriptionSlot → List RecordId
  pending_ids state slot = keys (
      insert_all
        (keep (λ id. not (contains_key id slot.members))
          (map record_id (all_operations state.outbox)))
        [])

  unfoldable pub can_enumerate_intent : DurableClientState V → ScopeSnapshot → Bool
  can_enumerate_intent state scope =
      is_ok (validate_coverage state)
      && elim state.reset_coverage [ none ↦ false | some coverage ↦ coverage.scope == scope ]
      && elim state.checkpoint [ none ↦ false | some checkpoint ↦ checkpoint.scope == scope ]

  unfoldable pub installed_view :
      DurableClientState V
      → DurableSubscriptions V
      → Bytes
      → SubscriptionSlot
      → InstalledSubscription V
  installed_view state subs id slot = record {
    metadata = record {
      revision = state.revision;
      subscription_id = id;
      generation = slot.generation;
      plan_fingerprint = slot.plan_fingerprint;
      scope = slot.scope;
      frontier = slot.frontier;
      view_revision = slot.view_revision;
      coverage = slot.coverage;
    };
    rows = window_rows_in_order slot.members subs.records slot.ordered_ids;
    pending_outside_window =
        if can_enumerate_intent state slot.scope then some (pending_ids state slot) else none;
  }

  unfoldable pub subscription_snapshot : ClientRuntime V → Bytes → Option (InstalledSubscription V)
  subscription_snapshot self id = elim self.state.subscriptions [
    | none ↦ none
    | some subs ↦ elim (get id subs.slots) [
      | none ↦ none
      | some slot ↦ some (installed_view self.state subs id slot)
    ]
  ]
