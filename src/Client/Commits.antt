-- ===== src/Client/Commits.antt =====
-- surrealdb-sync-client/src/lib.rs, the helpers over commits and outcomes: validate_commit,
-- identity_exists, prefer_server_eligible, same_intent, commit_matches_authoritative_base and
-- the tests for an unresolved conflict.
use react_native_surrealdb.Base.{
  ℕ, Bool, true, false, ◌&&◌, ◌||◌, Option, none, some, List, [], ◌∷◌, DecEq, ◌==◌, nat_eq, ltb,
  any, map, is_empty, contains, find, if◌then◌else◌, Result, ok, err, ◌>>◌,
}
use react_native_surrealdb.Base.Bytes.{bytes_eq}
use react_native_surrealdb.Protocol.{
  ClientCommitId, commit_identity_eq, RecordId, BaseVersion, Operation, record_id, ClientCommit,
  RecordState, DurableOutcome, client_commit_eq,
}
use react_native_surrealdb.Client.{
  ClientError, ResolvedCommit, DurableClientState, ConflictResolution, ConflictResolutionRequest,
}

abbrev pub is_accepted : {V : Type 0} → DurableOutcome V → Bool
is_accepted (DurableOutcome.accepted identity sequence mappings) = true
is_accepted (DurableOutcome.conflict identity id authoritative) = false
is_accepted (DurableOutcome.rejected identity reason) = false

abbrev pub is_conflict : {V : Type 0} → DurableOutcome V → Bool
is_conflict (DurableOutcome.accepted identity sequence mappings) = false
is_conflict (DurableOutcome.conflict identity id authoritative) = true
is_conflict (DurableOutcome.rejected identity reason) = false

abbrev pub is_none {ℓ} : {A : Type ℓ} → Option A → Bool
is_none none = true
is_none (some a) = false

abbrev pub commit_id : {V : Type 0} → ClientCommit V → ClientCommitId
commit_id c = c.identity.client_commit_id

abbrev pub resolved_id : {V : Type 0} → ResolvedCommit V → ClientCommitId
resolved_id r = r.local_commit.identity.client_commit_id

-- Every commit that the state holds, pending ones first.
abbrev pub outbox_ids : {V : Type 0} → DurableClientState V → List ClientCommitId
outbox_ids s = map commit_id s.outbox

abbrev pub outcome_ids : {V : Type 0} → DurableClientState V → List ClientCommitId
outcome_ids s = map resolved_id s.outcomes

module _ {V : Type 0} where
  -- The loop of `validate_commit` over the operations, with the records seen so far.
  unfoldable pub validate_operations :
      List RecordId → List (Operation V) → Result ClientError (Unit {0})
  validate_operations seen [] = ok tt
  validate_operations seen (op ∷ ops) =
      if contains (record_id op) seen
      then err (ClientError.duplicate_operation (record_id op))
      else validate_operations (record_id op ∷ seen) ops

  unfoldable pub validate_commit : ClientCommit V → Result ClientError (Unit {0})
  validate_commit commit =
      if is_empty commit.operations
      then err ClientError.empty_commit
      else validate_operations [] commit.operations

  unfoldable pub identity_exists : DurableClientState V → ClientCommitId → Bool
  identity_exists state id =
      any (λ commit. commit_id commit == id) state.outbox
      || any (λ resolved. resolved_id resolved == id) state.outcomes

  -- The test that guards a change of scope: intent that has not been settled.
  abbrev pub is_unresolved_conflict : ResolvedCommit V → Bool
  is_unresolved_conflict resolved = is_conflict resolved.outcome && is_none resolved.resolution

  unfoldable pub has_unsettled_intent : DurableClientState V → Bool
  has_unsettled_intent state =
      (if is_empty state.outbox then false else true) || any is_unresolved_conflict state.outcomes

  -- One upsert against an exact version, on the conflicted record, which the server has passed.
  unfoldable pub eligible_operations : List (Operation V) → RecordId → ℕ → Bool
  eligible_operations (Operation.upsert id (BaseVersion.exact base) value reference ∷ [])
        conflict_id version =
      id == conflict_id && ltb 0 base && ltb base version
  eligible_operations _ conflict_id version = false

  unfoldable pub prefer_server_eligible : ClientCommit V → DurableOutcome V → Bool
  prefer_server_eligible commit
        (DurableOutcome.conflict identity id (RecordState.present value version reference)) =
      eligible_operations commit.operations id version
  prefer_server_eligible commit outcome = false

  abbrev pub base_matches : Operation V → RecordState V → Bool
  base_matches (Operation.upsert id BaseVersion.absent value reference) RecordState.absent = true
  base_matches (Operation.upsert id BaseVersion.absent value reference)
        (RecordState.present v n r) =
      false
  base_matches (Operation.upsert id BaseVersion.absent value reference) (RecordState.tombstone n) =
      false
  base_matches (Operation.upsert id (BaseVersion.exact base) value reference) RecordState.absent =
      false
  base_matches (Operation.upsert id (BaseVersion.exact base) value reference)
        (RecordState.present v n r) =
      base == n
  base_matches (Operation.upsert id (BaseVersion.exact base) value reference)
        (RecordState.tombstone n) =
      base == n
  base_matches (Operation.delete id base) RecordState.absent = false
  base_matches (Operation.delete id base) (RecordState.present v n r) = base == n
  base_matches (Operation.delete id base) (RecordState.tombstone n) = false

  unfoldable pub commit_matches_authoritative_base :
      ClientCommit V → RecordId → RecordState V → Bool
  commit_matches_authoritative_base commit conflict_id authoritative =
      elim (find (λ op. record_id op == conflict_id) commit.operations) [
        | none ↦ false
        | some op ↦ base_matches op authoritative
      ]

  unfoldable pub validate_replacement_identity :
      DurableClientState V → ClientCommit V → Result ClientError (Unit {0})
  validate_replacement_identity state replacement =
      validate_commit replacement
      >> (if identity_exists state (commit_id replacement)
          then err (ClientError.duplicate_commit_id (commit_id replacement))
          else ok tt)

abbrev pub same_reference : Option RecordId → Option RecordId → Bool
same_reference none none = true
same_reference none (some b) = false
same_reference (some a) none = false
same_reference (some a) (some b) = a == b

module _ {V : Type 0} ⦃v : DecEq V⦄ where
  abbrev pub same_operation : Operation V → Operation V → Bool
  same_operation (Operation.upsert id base value reference)
        (Operation.upsert id' base' value' reference') =
      id == id' && value == value' && same_reference reference reference'
  same_operation (Operation.upsert id base value reference) (Operation.delete id' base') = false
  same_operation (Operation.delete id base) (Operation.upsert id' base' value' reference') = false
  same_operation (Operation.delete id base) (Operation.delete id' base') = id == id'

  -- Equal lengths, and the pairs of operations agree but for their base versions.
  unfoldable pub same_operations : List (Operation V) → List (Operation V) → Bool
  same_operations [] [] = true
  same_operations [] (op' ∷ ops') = false
  same_operations (op ∷ ops) [] = false
  same_operations (op ∷ ops) (op' ∷ ops') = same_operation op op' && same_operations ops ops'

  unfoldable pub same_intent : ClientCommit V → ClientCommit V → Bool
  same_intent original replacement = same_operations original.operations replacement.operations

  -- A replacement that the state still holds, in either list.
  unfoldable pub is_durable : DurableClientState V → ClientCommit V → Bool
  is_durable state replacement =
      any (λ commit. commit == replacement) state.outbox
      || any (λ resolved. resolved.local_commit == replacement) state.outcomes

  unfoldable pub resolution_request_matches :
      DurableClientState V → ConflictResolution → ConflictResolutionRequest V → Bool
  resolution_request_matches state ConflictResolution.keep_server
        ConflictResolutionRequest.keep_server =
      true
  resolution_request_matches state ConflictResolution.prefer_server_policy_v1
        ConflictResolutionRequest.keep_server =
      true
  resolution_request_matches state (ConflictResolution.keep_local identity)
        (ConflictResolutionRequest.keep_local replacement) =
      identity == replacement.identity && is_durable state replacement
  resolution_request_matches state (ConflictResolution.merge identity)
        (ConflictResolutionRequest.merge replacement) =
      identity == replacement.identity && is_durable state replacement
  resolution_request_matches state resolution request = false
