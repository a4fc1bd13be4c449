-- ===== src/Client/History/Refine/Local.antt =====
-- Enqueue, push responses and conflict resolution, as changes of the state.
use react_native_surrealdb.Base.{
  ◌≡◌, refl, not, ◌||◌, Option, none, some, List, arith, DecEq, nat_eq, ◌==◌, find, extract, ok,
  fail_if, fail_if_iff, ok_or, Ensures, fails, Ensures-bind, Ensures-seq, Ensures-if,
}
use react_native_surrealdb.Base.Bytes.{bytes_eq}
use react_native_surrealdb.Protocol.{
  ClientCommitId, ClientCommit, commit_identity_eq, DurableOutcome, outcome_identity,
  durable_outcome_eq, scope_snapshot_eq, checkpoint_eq, PushResponse,
}
use react_native_surrealdb.Protocol.Subscription.{subscription_request_eq}
use react_native_surrealdb.Client.{
  AutomaticConflictPolicy, ConflictResolution, ConflictResolutionRequest, ResolvedCommit,
  durable_client_state_eq, ClientRuntime,
}
use react_native_surrealdb.Client.Commits.{
  resolved_id, validate_commit, validate_replacement_identity, same_intent,
  resolution_request_matches,
}
use react_native_surrealdb.Client.Remap.{accepted_mappings, apply_id_mappings, remap_all}
use react_native_surrealdb.Client.Runtime.{
  is_conflict_of, rebased, conflict_record, automatic_resolution, prepare_enqueue, settle_pending,
  settle, prepare_push_response_with_policy, prepare_replacement, resolve, resolve_again,
  prepare_resolve_conflict, is_foreign,
}
use react_native_surrealdb.Client.Subscriptions.Window.{ids_eq}
use react_native_surrealdb.Client.History.Change.{
  unchanged, enqueued, settled, closed, replaced, IsChange, Change-rule,
}

module _ {V : Type 0} ⦃v : DecEq V⦄ where
  pub enqueue-IsChange :
      (self : ClientRuntime V) (commit : ClientCommit V)
      → Ensures (IsChange self) (prepare_enqueue self commit)
  unfolding prepare_enqueue
  enqueue-IsChange self commit = Ensures-seq (validate_commit commit) λ _.
      Ensures-seq (fail_if _ _)
        λ fresh. Change-rule self _ (enqueued commit ((fail_if_iff _ _).0 fresh) refl)

  settle_pending-IsChange :
      (self : ClientRuntime V) (outcome : DurableOutcome V) (policy : AutomaticConflictPolicy)
      (o : Option (ClientCommit V × List (ClientCommit V)))
      → extract (λ commit. commit.identity == outcome_identity outcome) self.state.outbox ≡ o
      → Ensures (IsChange self) (settle_pending self outcome policy o)
  unfolding settle_pending
  settle_pending-IsChange self outcome policy none e = fails
  settle_pending-IsChange self outcome policy (some (pending, rest)) e =
      Ensures-bind
        (apply_id_mappings (record (self.state) { outbox = rest }) (accepted_mappings outcome))
        λ next mapped. Change-rule self _ (
          settled pending rest outcome
            (automatic_resolution policy (remap_all (accepted_mappings outcome) pending) outcome)
            next e mapped refl)

  settle-IsChange :
      (self : ClientRuntime V) (outcome : DurableOutcome V) (policy : AutomaticConflictPolicy)
      (o : Option (ResolvedCommit V))
      → Ensures (IsChange self) (settle self outcome policy o)
  unfolding settle
  settle-IsChange self outcome policy none = settle_pending-IsChange self outcome policy _ refl
  settle-IsChange self outcome policy (some resolved) =
      Ensures-if (resolved.outcome == outcome) (λ _. Change-rule self _ (unchanged refl))
        (λ _. fails)

  replacement-IsChange :
      (self : ClientRuntime V) (id : ClientCommitId) (resolution : ConflictResolution)
      (replacement : ClientCommit V)
      → validate_replacement_identity self.state replacement ≡ ok tt
      → Ensures (IsChange self) (prepare_replacement self id resolution replacement)
  unfolding prepare_replacement validate_replacement_identity
  replacement-IsChange self id resolution replacement new =
      Change-rule self _ (replaced id resolution replacement (ground arith) refl)

  resolve-IsChange :
      (self : ClientRuntime V) (id : ClientCommitId) (r : ResolvedCommit V)
      (request : ConflictResolutionRequest V)
      → Ensures (IsChange self) (resolve self id r request)
  unfolding resolve
  resolve-IsChange self id r ConflictResolutionRequest.keep_server =
      Change-rule self _ (closed id ConflictResolution.keep_server refl)
  resolve-IsChange self id r (ConflictResolutionRequest.keep_local replacement) =
      Ensures-seq (validate_replacement_identity self.state replacement) λ new.
        Ensures-seq
          (fail_if
            (not (same_intent r.local_commit replacement)
              || not (rebased replacement (conflict_record r.outcome)))
            _)
          λ _.
            replacement-IsChange self id (ConflictResolution.keep_local replacement.identity)
              replacement new
  resolve-IsChange self id r (ConflictResolutionRequest.merge replacement) =
      Ensures-seq (validate_replacement_identity self.state replacement) λ new.
        Ensures-seq (fail_if (not (rebased replacement (conflict_record r.outcome))) _) λ _.
          replacement-IsChange self id (ConflictResolution.merge replacement.identity) replacement
            new

  resolve_again-IsChange :
      (self : ClientRuntime V) (id : ClientCommitId) (r : ResolvedCommit V)
      (request : ConflictResolutionRequest V) (o : Option ConflictResolution)
      → Ensures (IsChange self) (resolve_again self id r request o)
  unfolding resolve_again
  resolve_again-IsChange self id r request none = resolve-IsChange self id r request
  resolve_again-IsChange self id r request (some resolution) =
      Ensures-if (resolution_request_matches self.state resolution request)
        (λ _. Change-rule self _ (unchanged refl)) (λ _. fails)

  pub resolve_conflict-IsChange :
      (self : ClientRuntime V) (id : ClientCommitId) (request : ConflictResolutionRequest V)
      → Ensures (IsChange self) (prepare_resolve_conflict self id request)
  unfolding prepare_resolve_conflict
  resolve_conflict-IsChange self id request =
      Ensures-bind (ok_or (find (is_conflict_of id) self.state.outcomes) _)
        λ r _. resolve_again-IsChange self id r request r.resolution

  pub push-IsChange :
      (self : ClientRuntime V) (response : PushResponse V) (policy : AutomaticConflictPolicy)
      → Ensures (IsChange self) (prepare_push_response_with_policy self response policy)
  unfolding prepare_push_response_with_policy
  push-IsChange self response policy = Ensures-seq (fail_if (is_foreign self response) _) λ _.
      settle-IsChange self response.outcome policy (
        find
          (λ resolved. resolved_id resolved == (outcome_identity response.outcome).client_commit_id)
          self.state.outcomes)
