-- ===== src/Client/Validate.antt =====
-- `DurableClientState::validate` of surrealdb-sync-client/src/lib.rs, and `validate_coverage` of
-- read.rs. The child modules prove what a validated state satisfies.
pub mod WellFormed
use react_native_surrealdb.Base.{
  ℕ, ◌<◌, Bool, true, false, not, ◌&&◌, ◌||◌, Option, none, some, List, [], ◌∷◌, map, DecEq, ◌==◌,
  ◌!=◌, nat_eq, ltb, any, is_empty, contains, if◌then◌else◌, Result, ok, err, ◌>>=◌, ◌>>◌, fail_if,
  ok_or, try_for_each,
}
use react_native_surrealdb.Base.Bytes.{Bytes, bytes_eq}
use react_native_surrealdb.Base.BTreeMap.{BTreeMap, contains_key, keys}
use react_native_surrealdb.Protocol.{
  ClientCommitId, CommitIdentity, commit_identity_eq, RecordId, Operation, ClientCommit,
  RecordState, DurableOutcome, outcome_identity, Checkpoint, scope_snapshot_eq, IdMapping,
}
use react_native_surrealdb.Client.{
  ClientError, ConflictResolution, ResolvedCommit, DurableClientState, DurableSubscriptions,
  ResetCoverage,
}
use react_native_surrealdb.Client.Commits.{
  is_accepted, is_conflict, commit_id, resolved_id, validate_commit, prefer_server_eligible,
}
use react_native_surrealdb.Client.Slots.{validate_subscriptions}

unfoldable pub validate_id_map : BTreeMap RecordId → Result ClientError (Unit {0})
validate_id_map id_map =
    try_for_each
      (λ entry.
        fail_if (entry.0 == entry.1 || contains_key entry.1 id_map)
          (ClientError.invalid_id_mapping (record { local_id = entry.0; canonical_id = entry.1 })))
      id_map

abbrev pub coverage_fits : ResetCoverage → Checkpoint → Bool
coverage_fits coverage checkpoint =
    not (coverage.cursor.epoch == 0)
    && coverage.cursor.epoch == checkpoint.cursor.epoch
    && not (ltb checkpoint.cursor.sequence coverage.cursor.sequence)
    && coverage.scope == checkpoint.scope

abbrev pub mentions : RecordId → Option RecordId → Bool
mentions id none = false
mentions id (some reference) = reference == id

module _ {V : Type 0} where
  -- The two identity loops, with the identities seen so far.
  unfoldable pub validate_outbox :
      List ClientCommitId → List (ClientCommit V) → Result ClientError (List ClientCommitId)
  validate_outbox ids [] = ok ids
  validate_outbox ids (commit ∷ commits) = do
    validate_commit commit
    fail_if (contains (commit_id commit) ids) (ClientError.duplicate_commit_id (commit_id commit))
    validate_outbox (commit_id commit ∷ ids) commits

  unfoldable pub validate_resolved : ResolvedCommit V → Result ClientError (Unit {0})
  validate_resolved resolved = do
    validate_commit resolved.local_commit
    fail_if (resolved.covered_by_reset && not (is_accepted resolved.outcome))
        ClientError.invalid_read_coverage
    fail_if (outcome_identity resolved.outcome != resolved.local_commit.identity)
        ClientError.outcome_identity_mismatch

  unfoldable pub validate_outcomes :
      List ClientCommitId → List (ResolvedCommit V) → Result ClientError (Unit {0})
  validate_outcomes ids [] = ok tt
  validate_outcomes ids (resolved ∷ outcomes) = do
    validate_resolved resolved
    fail_if (contains (resolved_id resolved) ids)
        (ClientError.duplicate_commit_id (resolved_id resolved))
    validate_outcomes (resolved_id resolved ∷ ids) outcomes

  -- A replacement is another commit, which the state holds.
  unfoldable pub validate_replacement :
      DurableClientState V → ResolvedCommit V → CommitIdentity → Result ClientError (Unit {0})
  validate_replacement state resolved replacement =
      fail_if
        (replacement == resolved.local_commit.identity
          || (not (any (λ commit. commit.identity == replacement) state.outbox)
              && not (any (λ other. other.local_commit.identity == replacement) state.outcomes)))
        ClientError.invalid_conflict_resolution

  unfoldable pub validate_resolution_of :
      DurableClientState V → ResolvedCommit V → ConflictResolution → Result ClientError (Unit {0})
  validate_resolution_of state resolved ConflictResolution.keep_server = ok tt
  validate_resolution_of state resolved ConflictResolution.prefer_server_policy_v1 =
      fail_if (not (prefer_server_eligible resolved.local_commit resolved.outcome))
        ClientError.invalid_conflict_resolution
  validate_resolution_of state resolved (ConflictResolution.keep_local replacement) =
      validate_replacement state resolved replacement
  validate_resolution_of state resolved (ConflictResolution.merge replacement) =
      validate_replacement state resolved replacement

  unfoldable pub validate_optional_resolution :
      DurableClientState V
      → ResolvedCommit V
      → Option ConflictResolution
      → Result ClientError (Unit {0})
  validate_optional_resolution state resolved none = ok tt
  validate_optional_resolution state resolved (some resolution) =
      fail_if (not (is_conflict resolved.outcome)) ClientError.invalid_conflict_resolution
      >> validate_resolution_of state resolved resolution

  -- The body of the loop of `validate_conflict_resolutions`.
  unfoldable pub validate_resolution :
      DurableClientState V → ResolvedCommit V → Result ClientError (Unit {0})
  validate_resolution state resolved =
      validate_optional_resolution state resolved resolved.resolution

  unfoldable pub validate_conflict_resolutions :
      DurableClientState V → Result ClientError (Unit {0})
  validate_conflict_resolutions state = try_for_each (validate_resolution state) state.outcomes

  unfoldable pub validate_scope : DurableClientState V → Checkpoint → Result ClientError (Unit {0})
  validate_scope state checkpoint =
      fail_if
        (checkpoint.scope.identity != state.requested_scope
          || checkpoint.scope.subscription_revision != state.subscription_revision)
        ClientError.scope_mismatch

  abbrev pub is_absent : RecordState V → Bool
  is_absent RecordState.absent = true
  is_absent (RecordState.present value version reference) = false
  is_absent (RecordState.tombstone version) = false

  unfoldable pub validate_checkpoint : DurableClientState V → Result ClientError (Unit {0})
  validate_checkpoint state =
      try_for_each
        (λ entry. fail_if (is_absent entry.1) (ClientError.absent_confirmed_record entry.0))
        state.confirmed
      >> elim state.checkpoint [
        | none ↦ ok tt
        | some checkpoint ↦
            fail_if (is_empty checkpoint.token || checkpoint.cursor.epoch == 0)
              ClientError.checkpoint_mismatch
            >> validate_scope state checkpoint
      ]

  unfoldable pub validate_coverage : DurableClientState V → Result ClientError (Unit {0})
  validate_coverage state = elim state.reset_coverage [
    | none ↦ ok tt
    | some coverage ↦ ok_or state.checkpoint ClientError.invalid_read_coverage >>= λ checkpoint.
        fail_if (not (coverage_fits coverage checkpoint)) ClientError.invalid_read_coverage
  ]

  abbrev pub state_contains_id : RecordState V → RecordId → Bool
  state_contains_id RecordState.absent id = false
  state_contains_id (RecordState.present value version reference) id = mentions id reference
  state_contains_id (RecordState.tombstone version) id = false

  abbrev pub operation_contains_id : Operation V → RecordId → Bool
  operation_contains_id (Operation.upsert rid base value reference) id =
      rid == id || mentions id reference
  operation_contains_id (Operation.delete rid base) id = rid == id

  unfoldable pub commit_contains_id : ClientCommit V → RecordId → Bool
  commit_contains_id commit id = any (λ op. operation_contains_id op id) commit.operations

  abbrev pub outcome_contains_id : DurableOutcome V → RecordId → Bool
  outcome_contains_id (DurableOutcome.accepted identity sequence mappings) id = false
  outcome_contains_id (DurableOutcome.conflict identity rid authoritative) id =
      rid == id || state_contains_id authoritative id
  outcome_contains_id (DurableOutcome.rejected identity reason) id = false

  -- Whether a record id stands anywhere in the confirmed rows, the outbox or the outcomes.
  unfoldable pub contains_id : DurableClientState V → RecordId → Bool
  contains_id state id =
      any (λ entry. entry.0 == id || state_contains_id entry.1 id) state.confirmed
      || any (λ commit. commit_contains_id commit id) state.outbox
      || any
          (λ resolved.
            commit_contains_id resolved.local_commit id || outcome_contains_id resolved.outcome id)
          state.outcomes

  unfoldable pub validate_no_mapped_local_ids : DurableClientState V → Result ClientError (Unit {0})
  validate_no_mapped_local_ids state =
      try_for_each (λ id. fail_if (contains_id state id) (ClientError.mapped_local_id_remains id))
        (keys state.id_map)

  unfoldable pub validate_windows :
      DurableClientState V → Option (DurableSubscriptions V) → Result ClientError (Unit {0})
  validate_windows state none = ok tt
  validate_windows state (some subs) = validate_subscriptions subs state

  unfoldable pub validate : DurableClientState V → Result ClientError (Unit {0})
  validate state = do
    ids ← validate_outbox [] state.outbox
    validate_outcomes ids state.outcomes
    validate_conflict_resolutions state
    validate_checkpoint state
    validate_coverage state
    validate_windows state state.subscriptions
    validate_id_map state.id_map
    validate_no_mapped_local_ids state
