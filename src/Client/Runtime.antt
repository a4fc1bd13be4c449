-- ===== src/Client/Runtime.antt =====
-- surrealdb-sync-client/src/lib.rs, `ClientRuntime`: open, prepare, install and the local
-- transitions (enqueue, push response, conflict resolution). The child module Pull models the
-- transitions that replace confirmed rows.
pub mod Pull
use react_native_surrealdb.Base.{
  ℕ, Bool, true, false, not, ◌&&◌, ◌||◌, Option, none, some, List, [], ◌∷◌, ◌++◌, DecEq, ◌==◌, ◌!=◌,
  nat_eq, find, extract, update_first, checked_add, if◌then◌else◌, Result, ok, err, ◌>>=◌, ◌>>◌,
  fail_if, ok_or,
}
use react_native_surrealdb.Base.Bytes.{Bytes, bytes_eq}
use react_native_surrealdb.Base.BTreeMap.{BTreeMap}
use react_native_surrealdb.Protocol.{
  ClientCommitId, CommitIdentity, commit_identity_eq, RecordId, ClientCommit, RecordState,
  DurableOutcome, durable_outcome_eq, outcome_identity, PushResponse, SchemaVersion,
}
use react_native_surrealdb.Client.{
  ClientError, AutomaticConflictPolicy, ConflictResolution, ConflictResolutionRequest,
  ResolvedCommit, DurableClientState, durable_client_state_eq, PreparedTransition, ClientRuntime,
  OptimisticRecord,
}
use react_native_surrealdb.Client.Commits.{
  is_conflict, commit_id, resolved_id, validate_commit, identity_exists, prefer_server_eligible,
  validate_replacement_identity, same_intent, commit_matches_authoritative_base,
  resolution_request_matches,
}
use react_native_surrealdb.Client.Validate.{validate}
use react_native_surrealdb.Client.Remap.{accepted_mappings, apply_id_mappings, remap_all}
use react_native_surrealdb.Client.Projection.{optimistic_projection}

-- `schema_version == SchemaVersion::V1`.
abbrev pub is_supported : SchemaVersion → Bool
is_supported SchemaVersion.v1 = true

abbrev pub prefers_server : AutomaticConflictPolicy → Bool
prefers_server AutomaticConflictPolicy.manual = false
prefers_server AutomaticConflictPolicy.prefer_server_v1 = true

module _ {V : Type 0} where
  unfoldable pub «open» : DurableClientState V → Result ClientError (ClientRuntime V)
  «open» state = validate state >> ok (record { state = state })

  unfoldable pub optimistic : ClientRuntime V → BTreeMap (OptimisticRecord V)
  optimistic self = optimistic_projection self.state

  unfoldable pub install :
      ClientRuntime V → PreparedTransition V → Result ClientError (ClientRuntime V)
  install self prepared =
      fail_if (prepared.base_revision != self.state.revision)
        (ClientError.stale_transition prepared.base_revision self.state.revision)
      >> ok (record { state = prepared.state })

  -- The durable outcome of the named commit is a conflict.
  abbrev pub is_conflict_of : ClientCommitId → ResolvedCommit V → Bool
  is_conflict_of id resolved = resolved_id resolved == id && is_conflict resolved.outcome

  abbrev pub resolve_first :
      ClientCommitId → ConflictResolution → List (ResolvedCommit V) → List (ResolvedCommit V)
  resolve_first id resolution =
      update_first (is_conflict_of id)
        (λ resolved. record resolved { resolution = some resolution })

  -- The conflict's record and authoritative state; the lookup matched only conflicts.
  abbrev pub conflict_record : DurableOutcome V → Option (RecordId × RecordState V)
  conflict_record (DurableOutcome.accepted identity sequence mappings) = none
  conflict_record (DurableOutcome.conflict identity id authoritative) = some (id, authoritative)
  conflict_record (DurableOutcome.rejected identity reason) = none

  -- The envelope of another protocol version, partition or client.
  unfoldable pub is_foreign : ClientRuntime V → PushResponse V → Bool
  is_foreign self response =
      not (is_supported response.schema_version)
      || response.partition_id != self.state.partition_id
      || response.client_id != self.state.client_id

  abbrev pub rebased : ClientCommit V → Option (RecordId × RecordState V) → Bool
  rebased replacement none = false
  rebased replacement (some (id, authoritative)) =
      commit_matches_authoritative_base replacement id authoritative

  unfoldable pub automatic_resolution :
      AutomaticConflictPolicy → ClientCommit V → DurableOutcome V → Option ConflictResolution
  automatic_resolution policy commit outcome =
      if prefers_server policy && prefer_server_eligible commit outcome
      then some ConflictResolution.prefer_server_policy_v1
      else none

module _ {V : Type 0} ⦃v : DecEq V⦄ where
  -- A changed state takes the next revision; the result is validated in either case.
  unfoldable pub next_revision :
      DurableClientState V → DurableClientState V → Result ClientError (DurableClientState V)
  next_revision state next =
      if next == state
      then ok next
      else ok_or (checked_add state.revision 1) ClientError.revision_exhausted >>= λ revision.
          ok (record next { revision = revision })

  unfoldable pub prepare :
      ClientRuntime V → DurableClientState V → Result ClientError (PreparedTransition V)
  prepare self next = do
    next' ← next_revision self.state next
    validate next'
    ok (record { base_revision = self.state.revision; state = next' })

  unfoldable pub prepare_enqueue :
      ClientRuntime V → ClientCommit V → Result ClientError (PreparedTransition V)
  prepare_enqueue self commit = do
    validate_commit commit
    fail_if (identity_exists self.state (commit_id commit))
        (ClientError.duplicate_commit_id (commit_id commit))
    prepare self (record (self.state) { outbox = self.state.outbox ++ commit ∷ [] })

  -- The part of a push response for a commit that has no outcome yet.
  unfoldable pub settle_pending :
      ClientRuntime V
      → DurableOutcome V
      → AutomaticConflictPolicy
      → Option (ClientCommit V × List (ClientCommit V))
      → Result ClientError (PreparedTransition V)
  settle_pending self outcome policy none =
      err (ClientError.unknown_commit (outcome_identity outcome).client_commit_id)
  settle_pending self outcome policy (some (pending, outbox)) = do
    next ← apply_id_mappings (record (self.state) { outbox = outbox }) (accepted_mappings outcome)
    let local_commit = remap_all (accepted_mappings outcome) pending
    let resolved : ResolvedCommit V = record {
      local_commit = local_commit;
      outcome = outcome;
      resolution = automatic_resolution policy local_commit outcome;
      covered_by_reset = false;
    }
    prepare self (record next { outcomes = next.outcomes ++ resolved ∷ [] })

  unfoldable pub settle :
      ClientRuntime V
      → DurableOutcome V
      → AutomaticConflictPolicy
      → Option (ResolvedCommit V)
      → Result ClientError (PreparedTransition V)
  settle self outcome policy (some resolved) =
      if resolved.outcome == outcome
      then prepare self self.state
      else err ClientError.outcome_identity_mismatch
  settle self outcome policy none =
      settle_pending self outcome policy
        (extract (λ commit. commit.identity == outcome_identity outcome) self.state.outbox)

  unfoldable pub prepare_push_response_with_policy :
      ClientRuntime V
      → PushResponse V
      → AutomaticConflictPolicy
      → Result ClientError (PreparedTransition V)
  prepare_push_response_with_policy self response policy =
      fail_if (is_foreign self response) ClientError.envelope_mismatch
      >> settle self response.outcome policy (
          find
            (λ resolved.
              resolved_id resolved == (outcome_identity response.outcome).client_commit_id)
            self.state.outcomes)

  unfoldable pub prepare_push_response :
      ClientRuntime V → PushResponse V → Result ClientError (PreparedTransition V)
  prepare_push_response self response =
      prepare_push_response_with_policy self response AutomaticConflictPolicy.manual

  -- The conflict is closed, and a replacement joins the outbox.
  unfoldable pub prepare_replacement :
      ClientRuntime V
      → ClientCommitId
      → ConflictResolution
      → ClientCommit V
      → Result ClientError (PreparedTransition V)
  prepare_replacement self id resolution replacement = prepare self (record (self.state) {
    outcomes = resolve_first id resolution self.state.outcomes;
    outbox = self.state.outbox ++ replacement ∷ [];
  })

  unfoldable pub resolve :
      ClientRuntime V
      → ClientCommitId
      → ResolvedCommit V
      → ConflictResolutionRequest V
      → Result ClientError (PreparedTransition V)
  resolve self id conflicted ConflictResolutionRequest.keep_server =
      prepare self (record (self.state) {
        outcomes = resolve_first id ConflictResolution.keep_server self.state.outcomes;
      })
  resolve self id conflicted (ConflictResolutionRequest.keep_local replacement) = do
    validate_replacement_identity self.state replacement
    fail_if
        (not (same_intent conflicted.local_commit replacement)
          || not (rebased replacement (conflict_record conflicted.outcome)))
        ClientError.invalid_conflict_resolution
    prepare_replacement self id (ConflictResolution.keep_local replacement.identity) replacement
  resolve self id conflicted (ConflictResolutionRequest.merge replacement) = do
    validate_replacement_identity self.state replacement
    fail_if (not (rebased replacement (conflict_record conflicted.outcome)))
        ClientError.invalid_conflict_resolution
    prepare_replacement self id (ConflictResolution.merge replacement.identity) replacement

  -- A conflict that has a resolution accepts the request that it came from, and no other.
  unfoldable pub resolve_again :
      ClientRuntime V
      → ClientCommitId
      → ResolvedCommit V
      → ConflictResolutionRequest V
      → Option ConflictResolution
      → Result ClientError (PreparedTransition V)
  resolve_again self id conflicted request none = resolve self id conflicted request
  resolve_again self id conflicted request (some resolution) =
      if resolution_request_matches self.state resolution request
      then prepare self self.state
      else err (ClientError.conflict_already_resolved id)

  unfoldable pub prepare_resolve_conflict :
      ClientRuntime V
      → ClientCommitId
      → ConflictResolutionRequest V
      → Result ClientError (PreparedTransition V)
  prepare_resolve_conflict self id request = do
    conflicted ←
        ok_or (find (is_conflict_of id) self.state.outcomes) (ClientError.unknown_conflict id)
    resolve_again self id conflicted request conflicted.resolution
