-- ===== src/Client/Tests.antt =====
-- Concrete runs of surrealdb-sync-client: the theorems at sample journals, and executable tests.
use react_native_surrealdb.Base.{
  contains, ℕ, Option, ℕ_discrete, suc, ◌+◌, ◌≡◌, refl, ◌↔◌, true, false, none, some, List, [], ◌∷◌,
  nat_eq, length, try_for_each, ok, Ensures, IfSome, arith,
}
use react_native_surrealdb.Base.Bytes.{bytes, bytes_eq}
use react_native_surrealdb.Base.BTreeMap.{get}
use react_native_surrealdb.Protocol.{
  CommitIdentity, BaseVersion, Operation, ClientCommit, IdMapping, RecordState, SchemaVersion,
  DurableOutcome, PushResponse, ScopeSnapshot, Checkpoint, PullCommit, PullBatch, PullResponse,
  ResetReason, ResetSnapshot,
}
use react_native_surrealdb.Client.{
  AutomaticConflictPolicy, ConflictResolutionRequest, DurableClientState, ClientRuntime, empty,
}
use react_native_surrealdb.Client.Commits.{validate_commit, validate_operations, identity_exists}
use react_native_surrealdb.Client.History.Accept.{enqueued_state, enqueue-ok}
use react_native_surrealdb.Client.Validate.{
  validate, validate_scope, validate_outbox, validate_outcomes, validate_conflict_resolutions,
  validate_checkpoint, validate_coverage, validate_windows, validate_id_map,
  validate_no_mapped_local_ids, validate_resolution,
}
use react_native_surrealdb.Client.Validate.WellFormed.{
  WellFormed, validate_commit-IsCommit, validate_iff,
}
use react_native_surrealdb.Client.Remap.{apply_id_mapping, apply_id_mappings}
use react_native_surrealdb.Client.Remap.Kept.{Keeps, apply_id_mappings-Keeps}
use react_native_surrealdb.Client.Remap.Gone.{sent_mappings}
use react_native_surrealdb.Client.Remap.Free.{IsFree, apply_id_mapping-IsFree}
use react_native_surrealdb.Client.Projection.{optimistic_projection}
use react_native_surrealdb.Client.Projection.Effective.{
  last_on, over, latest, Uncovered, reads, get-optimistic_projection,
}
use react_native_surrealdb.Client.Runtime.Pull.{
  prepare_pull_batch, prepare_reset, validate_pull_batch, current_sequence,
}
use react_native_surrealdb.Client.Runtime.Pull.Frames.{
  frame, IsRun, validate_pull_batch-IsRun, frame-validate_pull_batch,
}
use react_native_surrealdb.Client.Read.{snapshot, committed_batch}
use react_native_surrealdb.Client.Read.Batch.{apply_changes, committed_batch-apply}
use react_native_surrealdb.Protocol.Subscription.{
  SubscriptionResponse, ScalarKind, SortDirection, WindowResponseKind, WindowResetReason,
  validate_subscription_response, response_shape, valid_subscription_text,
}
use react_native_surrealdb.Client.Subscriptions.{prepare_cancel_subscription}
use react_native_surrealdb.Client.History.Cancelled.{Cancelled, cancel-Cancelled}
use react_native_surrealdb.Client.History.{Event, transition, run}
use react_native_surrealdb.Client.History.Resolve.{Resolved, resolve_conflict-Resolved}
use react_native_surrealdb.Client.History.Steps.{run-WellFormed}
use react_native_surrealdb.Client.History.Kept.{Adds, run-Adds}
use react_native_surrealdb.Client.Runtime.{
  prepare_enqueue, prepare_push_response_with_policy, prepare_resolve_conflict,
}
use react_native_surrealdb.Client.History.Retried.{push-again}
use react_native_surrealdb.Client.History.Enqueue.{enqueue-reads}
use react_native_surrealdb.Client.History.Rows.{
  Pulled, pull-Pulled, Replayed, pull-Replayed, IsReset, prepare_reset-IsReset,
}
use react_native_surrealdb.Client.History.Revision.{ExcludedBy, install-second, Within, run-Within}
use react_native_surrealdb.Client.History.Frontier.{FrontierLe, run-FrontierLe}

-- A journal of records whose values are numbers.
abbrev fresh : DurableClientState ℕ
fresh = empty (bytes "home") (bytes "phone") (bytes "family") 1

abbrev first_id : CommitIdentity
first_id = record { client_commit_id = bytes "c1"; fingerprint = bytes "f1" }

abbrev note : Operation ℕ
note = Operation.upsert (bytes "local:1") BaseVersion.absent 7 none

abbrev first_commit : ClientCommit ℕ
first_commit = record { identity = first_id; operations = note ∷ [] }

abbrev accept : PushResponse ℕ
accept = record {
  schema_version = SchemaVersion.v1;
  partition_id = bytes "home";
  client_id = bytes "phone";
  outcome =
      DurableOutcome.accepted first_id 1
        (record { local_id = bytes "local:1"; canonical_id = bytes "note:1" } ∷ []);
}

abbrev family : ScopeSnapshot
family = record { identity = bytes "family"; authorization_revision = 3; subscription_revision = 1 }

abbrev tip : Checkpoint
tip = record { token = bytes "t"; cursor = record { epoch = 1; sequence = 1 }; scope = family }

abbrev pulled_commit : PullCommit ℕ
pulled_commit = record {
  sequence = 1;
  source = some first_id;
  records = record { record_id = bytes "note:1"; state = RecordState.present 7 1 none } ∷ [];
}

abbrev pulled_batch : PullBatch ℕ
pulled_batch = record { frames = frame tip (pulled_commit ∷ []) }

abbrev life : List (Event ℕ)
life =
    Event.enqueue first_commit
    ∷ Event.push accept AutomaticConflictPolicy.manual
    ∷ Event.pull (PullResponse.batch pulled_batch)
    ∷ []

abbrev runtime : ClientRuntime ℕ
runtime = record { state = fresh }

abbrev made_up : IdMapping
made_up = record { local_id = bytes "local:1"; canonical_id = bytes "note:1" }

-- A row under a made-up id, with a pending write on top.
abbrev busy : DurableClientState ℕ
busy = record fresh {
  confirmed = (bytes "local:1", RecordState.present 5 1 none) ∷ [];
  outbox = first_commit ∷ [];
}

-- The same with a commit that the server accepted, whose mapping has the made-up id.
abbrev settled_busy : DurableClientState ℕ
settled_busy = record busy {
  outcomes =
      (record {
        local_commit = first_commit;
        outcome = accept.outcome;
        resolution = none;
        covered_by_reset = false;
      })
      ∷ [];
}

fresh_is_valid : validate fresh ≡ ok tt
unfolding validate validate_outbox validate_outcomes validate_conflict_resolutions
    validate_checkpoint validate_coverage validate_windows validate_id_map
    validate_no_mapped_local_ids validate_resolution try_for_each
fresh_is_valid = refl

validate_iff_example : (validate busy ≡ ok tt) ↔ WellFormed busy
validate_iff_example = validate_iff busy

run-WellFormed_example : WellFormed (run runtime life).state
run-WellFormed_example = run-WellFormed runtime life ((validate_iff fresh).0 fresh_is_valid)

first_commit_is_valid : validate_commit first_commit ≡ ok tt
unfolding validate_commit validate_operations contains
first_commit_is_valid = refl

enqueue-ok_example :
    prepare_enqueue (record { state = fresh }) first_commit
    ≡ ok (record { base_revision = 0; state = enqueued_state fresh first_commit })
unfolding identity_exists
enqueue-ok_example =
    enqueue-ok fresh first_commit ((validate_iff fresh).0 fresh_is_valid)
      ((validate_commit-IsCommit first_commit).0 first_commit_is_valid) refl tt (omega arith)

run-Adds_example : Adds (length life) fresh (run runtime life).state
run-Adds_example = run-Adds runtime life

in_scope : validate_scope fresh tip ≡ ok tt
unfolding validate_scope
in_scope = ground arith

frame-validate_pull_batch_example :
    validate_pull_batch fresh pulled_batch ≡ ok (tip, pulled_commit ∷ [])
unfolding current_sequence
frame-validate_pull_batch_example =
    frame-validate_pull_batch fresh tip (pulled_commit ∷ []) in_scope tt (omega arith) (refl, tt)
      refl

validate_pull_batch-IsRun_example :
    (pulled_batch.frames ≡ frame tip (pulled_commit ∷ []))
    × Unit {0}
    × IsRun (suc (current_sequence none tip)) (pulled_commit ∷ [])
    × (current_sequence none tip + 1 ≡ 1)
unfolding current_sequence
validate_pull_batch-IsRun_example =
    validate_pull_batch-IsRun fresh pulled_batch {r = (tip, pulled_commit ∷ [])} (omega arith)
      (omega arith)
      (frame-validate_pull_batch fresh tip (pulled_commit ∷ []) in_scope tt (omega arith) (refl, tt)
        refl)

pull-Pulled_example :
    Ensures
      (λ p. Pulled fresh tip (pulled_commit ∷ []) (bytes "note:1") p.state)
      (prepare_pull_batch runtime pulled_batch)
unfolding current_sequence
pull-Pulled_example =
    pull-Pulled runtime pulled_batch tip (pulled_commit ∷ []) (bytes "note:1")
      (frame-validate_pull_batch fresh tip (pulled_commit ∷ []) in_scope tt (omega arith) (refl, tt)
        refl)
      tt

-- The journal after the pull, and a server that has nothing more to send.
abbrev at_tip : DurableClientState ℕ
at_tip = record fresh {
  confirmed = (bytes "note:1", RecordState.present 7 1 none) ∷ [];
  checkpoint = some tip;
}

abbrev empty_batch : PullBatch ℕ
empty_batch = record { frames = frame tip [] }

stays_in_scope : validate_scope at_tip tip ≡ ok tt
unfolding validate_scope
stays_in_scope = ground arith

empty_batch_is_valid : validate_pull_batch at_tip empty_batch ≡ ok (tip, [])
unfolding current_sequence
empty_batch_is_valid =
    frame-validate_pull_batch at_tip tip [] stays_in_scope (refl, refl, omega arith) (omega arith)
      tt (ground arith)

pull-Replayed_example :
    Ensures
      (λ p. Replayed at_tip tip p.state)
      (prepare_pull_batch (record { state = at_tip }) empty_batch)
pull-Replayed_example =
    pull-Replayed (record { state = at_tip }) empty_batch tip tip [] empty_batch_is_valid refl refl

abbrev snapshot_of_one : ResetSnapshot ℕ
snapshot_of_one = record {
  reason = ResetReason.epoch_changed;
  checkpoint = tip;
  records = record { record_id = bytes "note:2"; state = RecordState.present 9 4 none } ∷ [];
}

-- A journal with a checkpoint is reset at it, pulls the next commit, and then meets an old batch.
abbrev next_tip : Checkpoint
next_tip = record tip { cursor = record { epoch = 1; sequence = 2 } }

abbrev next_batch : PullBatch ℕ
next_batch = record {
  frames = frame next_tip (record pulled_commit { sequence = 2; source = none } ∷ []);
}

abbrev reset_and_life : List (Event ℕ)
reset_and_life =
    Event.pull (PullResponse.reset snapshot_of_one)
    ∷ Event.pull (PullResponse.batch next_batch)
    ∷ life

run-FrontierLe_example :
    FrontierLe (some tip) (run (record { state = at_tip }) reset_and_life).state.checkpoint
run-FrontierLe_example = run-FrontierLe (record { state = at_tip }) reset_and_life

prepare_reset-IsReset_example :
    Ensures
      (λ p. IsReset at_tip tip snapshot_of_one.records (bytes "note:1") p.state)
      (prepare_reset (record { state = at_tip }) snapshot_of_one)
prepare_reset-IsReset_example =
    prepare_reset-IsReset (record { state = at_tip }) snapshot_of_one (bytes "note:1")

enqueue-reads_example :
    Ensures
      (λ p.
        (get (bytes "local:1") (optimistic_projection p.state)
          ≡ over
              (last_on (bytes "local:1") (note ∷ []))
              (get (bytes "local:1") (optimistic_projection at_tip)))
        × (p.state.outbox ≡ first_commit ∷ [])
        × (p.state.revision ≡ 1))
      (prepare_enqueue (record { state = at_tip }) first_commit)
enqueue-reads_example = enqueue-reads (record { state = at_tip }) first_commit (bytes "local:1")

install-second_example :
    Ensures
      (λ p. Ensures (ExcludedBy runtime p) (transition runtime (Event.cancel (bytes "w") 1)))
      (transition runtime (Event.enqueue first_commit))
install-second_example =
    install-second runtime (Event.enqueue first_commit) (Event.cancel (bytes "w") 1)

run-Within_example : Within 3 fresh (run runtime life).state
run-Within_example = run-Within runtime life

apply_id_mapping-IsFree_example :
    Ensures
      (λ t.
        IsFree (bytes "local:1") t
        × (sent_mappings t.outcomes ≡ sent_mappings settled_busy.outcomes))
      (apply_id_mapping settled_busy made_up)
unfolding get
apply_id_mapping-IsFree_example = apply_id_mapping-IsFree settled_busy made_up refl

apply_id_mappings-Keeps_example : Ensures (Keeps busy) (apply_id_mappings busy (made_up ∷ []))
apply_id_mappings-Keeps_example = apply_id_mappings-Keeps busy (made_up ∷ [])

-- Nothing is pending, and the server's commit was not pulled yet.
abbrev only_settled : DurableClientState ℕ
only_settled = record settled_busy { outbox = [] }

get-optimistic_projection_example :
    (o : Option (Operation ℕ)) × Uncovered only_settled (bytes "local:1") only_settled.outcomes o
    × (get (bytes "local:1") (optimistic_projection only_settled)
        ≡ reads
            (latest (bytes "local:1") only_settled.outbox)
            o
            (get (bytes "local:1") only_settled.confirmed))
get-optimistic_projection_example =
    get-optimistic_projection only_settled (bytes "local:1") (refl, tt)

-- The journal at the tip, one revision later than `busy`.
abbrev later : DurableClientState ℕ
later = record at_tip { revision = 1 }

committed_batch-apply_example :
    IfSome
      (λ batch.
        (get (bytes "note:1") (apply_changes batch.changes (snapshot busy).rows)
          ≡ get (bytes "note:1") (snapshot later).rows)
        × (batch.before_revision ≡ 0)
        × (batch.revision ≡ 1))
      (committed_batch busy later)
committed_batch-apply_example = committed_batch-apply busy later (bytes "note:1")

push-again_example :
    Ensures
      (λ p.
        prepare_push_response_with_policy
          (record { state = p.state })
          accept
          AutomaticConflictPolicy.prefer_server_v1
        ≡ ok (record { base_revision = p.state.revision; state = p.state }))
      (prepare_push_response_with_policy
        (record { state = busy })
        accept
        AutomaticConflictPolicy.manual)
push-again_example =
    push-again (record { state = busy }) accept AutomaticConflictPolicy.manual
      AutomaticConflictPolicy.prefer_server_v1

-- A late snapshot for a window that was cancelled.
abbrev late : SubscriptionResponse ℕ
late = record {
  partition_id = bytes "home";
  client_id = bytes "phone";
  subscription_id = bytes "w";
  generation = 1;
  plan_fingerprint = bytes "p";
  scope = family;
  frontier = record { epoch = 1; sequence = 1 };
  view_revision = 1;
  coverage = record {
    definition_id = bytes "d";
    limit = 1;
    order_field = bytes "f";
    order_kind = ScalarKind.int;
    direction = SortDirection.ascending;
  };
  response = WindowResponseKind.snapshot WindowResetReason.initial;
  token = some (bytes "t");
  ordered_ids = [];
  changes = [];
}

late_is_valid : validate_subscription_response late ≡ true
unfolding validate_subscription_response response_shape valid_subscription_text ℕ_discrete
late_is_valid = refl

cancel-Cancelled_example :
    Ensures (λ p. Cancelled late p.state) (prepare_cancel_subscription runtime (bytes "w") 1)
cancel-Cancelled_example = cancel-Cancelled runtime 1 late (omega arith) late_is_valid

-- A commit that ended in a conflict, and a commit that is merged with the server's row.
abbrev conflicted : DurableClientState ℕ
conflicted = record fresh {
  outcomes =
      (record {
        local_commit = first_commit;
        outcome = DurableOutcome.conflict first_id (bytes "local:1") (RecordState.present 9 4 none);
        resolution = none;
        covered_by_reset = false;
      })
      ∷ [];
}

abbrev merged : ConflictResolutionRequest ℕ
merged = ConflictResolutionRequest.merge (record {
  identity = record { client_commit_id = bytes "c2"; fingerprint = bytes "f2" };
  operations = Operation.upsert (bytes "local:1") (BaseVersion.exact 4) 8 none ∷ [];
})

resolve_conflict-Resolved_example :
    Ensures
      (λ p. Resolved conflicted (bytes "c1") merged p.state)
      (prepare_resolve_conflict (record { state = conflicted }) (bytes "c1") merged)
resolve_conflict-Resolved_example =
    resolve_conflict-Resolved (record { state = conflicted }) (bytes "c1") merged
