-- ===== src/Protocol/Subscription.antt =====
-- crates/surrealdb-sync-protocol/src/subscription.rs: the ordered-window subscription messages
-- and the checks of requests and responses.
use react_native_surrealdb.Base.{
  ℕ, ◌*◌, compare, Ordering, Bool, true, false, not, ◌&&◌, Option, none, some, List, [], ◌∷◌, DecEq,
  nat_eq, ◌==◌, ltb, leb, all, map, length, is_empty, contains, ℕ_discrete, if◌then◌else◌,
}
use react_native_surrealdb.Base.Bytes.{Bytes, bytes_eq, compare_bytes}
use react_native_surrealdb.Base.BTreeMap.{BTreeMap}
use react_native_surrealdb.Protocol.{
  PartitionId, ClientId, RecordId, ScopeIdentity, OpaqueCheckpoint, ScopeSnapshot, Cursor,
}

abbrev pub max_subscriptions : ℕ
max_subscriptions = 32

abbrev pub max_window_rows : ℕ
max_window_rows = 32

abbrev pub max_parameters : ℕ
max_parameters = 8

abbrev pub max_subscription_text : ℕ
max_subscription_text = 256

-- i64: `negsuc n` is -(n + 1).
pub data ℤ : Type 0 where
  pos : ℕ → ℤ
  negsuc : ℕ → ℤ

abbrev pub compare_ℤ : ℤ → ℤ → Ordering
compare_ℤ (ℤ.pos a) (ℤ.pos b) = compare a b
compare_ℤ (ℤ.pos a) (ℤ.negsuc b) = Ordering.gt
compare_ℤ (ℤ.negsuc a) (ℤ.pos b) = Ordering.lt
compare_ℤ (ℤ.negsuc a) (ℤ.negsuc b) = compare b a

pub data QueryScalar : Type 0 where
  bool : Bool → QueryScalar
  int : ℤ → QueryScalar
  text : Bytes → QueryScalar

pub data ScalarKind : Type 0 where
  bool int text : ScalarKind

abbrev pub kind : QueryScalar → ScalarKind
kind (QueryScalar.bool b) = ScalarKind.bool
kind (QueryScalar.int n) = ScalarKind.int
kind (QueryScalar.text t) = ScalarKind.text

abbrev pub compare_bool : Bool → Bool → Ordering
compare_bool false false = Ordering.eq
compare_bool false true = Ordering.lt
compare_bool true false = Ordering.gt
compare_bool true true = Ordering.eq

-- The derived order: by variant first.
abbrev pub compare_scalar : QueryScalar → QueryScalar → Ordering
compare_scalar (QueryScalar.bool a) (QueryScalar.bool b) = compare_bool a b
compare_scalar (QueryScalar.bool a) (QueryScalar.int b) = Ordering.lt
compare_scalar (QueryScalar.bool a) (QueryScalar.text b) = Ordering.lt
compare_scalar (QueryScalar.int a) (QueryScalar.bool b) = Ordering.gt
compare_scalar (QueryScalar.int a) (QueryScalar.int b) = compare_ℤ a b
compare_scalar (QueryScalar.int a) (QueryScalar.text b) = Ordering.lt
compare_scalar (QueryScalar.text a) (QueryScalar.bool b) = Ordering.gt
compare_scalar (QueryScalar.text a) (QueryScalar.int b) = Ordering.gt
compare_scalar (QueryScalar.text a) (QueryScalar.text b) = compare_bytes a b

pub data SortDirection : Type 0 where
  ascending descending : SortDirection

-- `start subscription_id generation definition_id parameters limit`,
-- `resume subscription_id generation token` and `cancel subscription_id generation`.
pub data SubscriptionCommand : Type 0 where
  start : Bytes → ℕ → Bytes → BTreeMap QueryScalar → ℕ → SubscriptionCommand
  resume : Bytes → ℕ → OpaqueCheckpoint → SubscriptionCommand
  cancel : Bytes → ℕ → SubscriptionCommand

abbrev pub identity : SubscriptionCommand → Bytes × ℕ
identity (SubscriptionCommand.start id generation definition parameters limit) = (id, generation)
identity (SubscriptionCommand.resume id generation token) = (id, generation)
identity (SubscriptionCommand.cancel id generation) = (id, generation)

abbrev pub is_start : SubscriptionCommand → Bool
is_start (SubscriptionCommand.start id generation definition parameters limit) = true
is_start (SubscriptionCommand.resume id generation token) = false
is_start (SubscriptionCommand.cancel id generation) = false

pub record SubscriptionRequest : Type 0 where
  pub partition_id : PartitionId
  pub client_id : ClientId
  pub requested_scope : ScopeIdentity
  pub subscription_revision : ℕ
  pub command : SubscriptionCommand

pub record WindowCoverage : Type 0 where
  pub definition_id : Bytes
  pub limit : ℕ
  pub order_field : Bytes
  pub order_kind : ScalarKind
  pub direction : SortDirection

pub record SubscriptionRow (V : Type 0) : Type 0 where
  pub record_id : RecordId
  pub value : V
  pub version : ℕ
  pub sort_key : QueryScalar

-- `upsert row`, `leave record_id` and `delete record_id version`.
pub data MembershipChange (V : Type 0) : Type 0 where
  upsert : SubscriptionRow V → MembershipChange V
  leave : RecordId → MembershipChange V
  delete : RecordId → ℕ → MembershipChange V

pub data WindowResetReason : Type 0 where
  initial expired stale epoch_changed plan_changed : WindowResetReason

-- `snapshot reason`, `delta before_revision` and `cancelled`.
pub data WindowResponseKind : Type 0 where
  snapshot : WindowResetReason → WindowResponseKind
  delta : ℕ → WindowResponseKind
  cancelled : WindowResponseKind

pub record SubscriptionResponse (V : Type 0) : Type 0 where
  pub partition_id : PartitionId
  pub client_id : ClientId
  pub subscription_id : Bytes
  pub generation : ℕ
  pub plan_fingerprint : Bytes
  pub scope : ScopeSnapshot
  pub frontier : Cursor
  pub view_revision : ℕ
  pub coverage : WindowCoverage
  pub response : WindowResponseKind
  pub token : Option OpaqueCheckpoint
  pub ordered_ids : List RecordId
  pub changes : List (MembershipChange V)

-- The record that a change is about.
abbrev pub change_id : {V : Type 0} → MembershipChange V → RecordId
change_id (MembershipChange.upsert row) = row.record_id
change_id (MembershipChange.leave id) = id
change_id (MembershipChange.delete id version) = id

unfoldable pub valid_subscription_text : Bytes → Bool
valid_subscription_text value = not (is_empty value) && leb (length value) max_subscription_text

abbrev pub scalar_text_fits : QueryScalar → Bool
scalar_text_fits (QueryScalar.bool b) = true
scalar_text_fits (QueryScalar.int n) = true
scalar_text_fits (QueryScalar.text t) = leb (length t) max_subscription_text

unfoldable pub validate_command : SubscriptionCommand → Bool
validate_command (SubscriptionCommand.start id generation definition_id parameters limit) =
    valid_subscription_text definition_id
    && ltb 0 limit
    && leb limit max_window_rows
    && leb (length parameters) max_parameters
    && all (λ p. valid_subscription_text p.0 && scalar_text_fits p.1) parameters
validate_command (SubscriptionCommand.resume id generation token) = valid_subscription_text token
validate_command (SubscriptionCommand.cancel id generation) = true

unfoldable pub validate_subscription_request : SubscriptionRequest → Bool
validate_subscription_request request =
    let (id, generation) = identity request.command in
    valid_subscription_text request.partition_id
    && valid_subscription_text request.client_id
    && valid_subscription_text request.requested_scope
    && valid_subscription_text id
    && not (generation == 0)
    && validate_command request.command

-- The distinct elements, as collected into a BTreeSet; only the number is used.
abbrev pub distinct : List Bytes → List Bytes
distinct [] = []
distinct (x ∷ xs) = if contains x xs then distinct xs else x ∷ distinct xs

pub WindowCoverage-discrete : Discrete WindowCoverage
WindowCoverage-discrete = hlevel ℕ_discrete

instance abbrev pub window_coverage_eq : DecEq WindowCoverage
window_coverage_eq = record { discrete = WindowCoverage-discrete }

pub ScalarKind-discrete : Discrete ScalarKind
ScalarKind-discrete = hlevel

instance abbrev pub scalar_kind_eq : DecEq ScalarKind
scalar_kind_eq = record { discrete = ScalarKind-discrete }

pub SortDirection-discrete : Discrete SortDirection
SortDirection-discrete = hlevel

instance abbrev pub sort_direction_eq : DecEq SortDirection
sort_direction_eq = record { discrete = SortDirection-discrete }

pub SubscriptionRequest-discrete : Discrete SubscriptionRequest
SubscriptionRequest-discrete = hlevel ℕ_discrete

instance abbrev pub subscription_request_eq : DecEq SubscriptionRequest
subscription_request_eq = record { discrete = SubscriptionRequest-discrete }

module _ {V : Type 0} where
  pub SubscriptionRow-discrete : Discrete V → Discrete (SubscriptionRow V)
  SubscriptionRow-discrete d = hlevel (ℕ_discrete, d)

  instance abbrev pub subscription_row_eq : ⦃v : DecEq V⦄ → DecEq (SubscriptionRow V)
  subscription_row_eq ⦃v⦄ = record { discrete = SubscriptionRow-discrete v.discrete }

  -- The shape that each kind of response has.
  unfoldable pub response_shape : SubscriptionResponse V → WindowResponseKind → Bool
  response_shape r WindowResponseKind.cancelled =
      elim r.token [ none ↦ true | some t ↦ false ] && is_empty r.ordered_ids && is_empty r.changes
  response_shape r (WindowResponseKind.snapshot reason) =
      elim r.token [ none ↦ false | some t ↦ true ]
      && all (λ change. elim change [ MembershipChange.upsert row ↦ true | _ ↦ false ]) r.changes
  response_shape r (WindowResponseKind.delta before) = elim r.token [ none ↦ false | some t ↦ true ]

  unfoldable pub validate_change : ScalarKind → MembershipChange V → Bool
  validate_change order_kind (MembershipChange.upsert row) =
      valid_subscription_text row.record_id
      && ltb 0 row.version
      && kind row.sort_key == order_kind
      && scalar_text_fits row.sort_key
  validate_change order_kind (MembershipChange.leave id) = valid_subscription_text id
  validate_change order_kind (MembershipChange.delete id version) =
      valid_subscription_text id && ltb 0 version

  unfoldable pub validate_subscription_response : SubscriptionResponse V → Bool
  validate_subscription_response r =
      response_shape r r.response
      && length (distinct (map change_id r.changes)) == length r.changes
      && length (distinct r.ordered_ids) == length r.ordered_ids
      && valid_subscription_text r.partition_id
      && valid_subscription_text r.client_id
      && valid_subscription_text r.subscription_id
      && ltb 0 r.generation
      && valid_subscription_text r.plan_fingerprint
      && ltb 0 r.frontier.epoch
      && ltb 0 r.view_revision
      && valid_subscription_text r.scope.identity
      && valid_subscription_text r.coverage.definition_id
      && valid_subscription_text r.coverage.order_field
      && ltb 0 r.coverage.limit
      && leb r.coverage.limit max_window_rows
      && leb (length r.ordered_ids) r.coverage.limit
      && all valid_subscription_text r.ordered_ids
      && leb (length r.changes) (max_window_rows * 2)
      && elim r.token [ none ↦ true | some t ↦ valid_subscription_text t ]
      && all (validate_change r.coverage.order_kind) r.changes
