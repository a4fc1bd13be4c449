-- ===== src/Client/Projection.antt =====
-- surrealdb-sync-client/src/lib.rs: optimistic_operations and optimistic_projection. The
-- optimistic rows are derived from the confirmed ones, accepted but unpulled commits and the
-- outbox, in this order.
pub mod Effective
use react_native_surrealdb.Base.{
  ℕ, ◌<◌, Bool, true, false, not, ◌&&◌, Option, none, some, List, [], ◌∷◌, ◌++◌, ltb, if◌then◌else◌,
}
use react_native_surrealdb.Base.BTreeMap.{BTreeMap, insert}
use react_native_surrealdb.Protocol.{
  BaseVersion, Operation, record_id, ClientCommit, RecordState, DurableOutcome, Checkpoint,
}
use react_native_surrealdb.Client.{ResolvedCommit, DurableClientState, OptimisticRecord}

module _ {V : Type 0} where
  unfoldable pub applied_sequence : DurableClientState V → ℕ
  applied_sequence state = elim state.checkpoint [
    | none ↦ 0
    | some checkpoint ↦ checkpoint.cursor.sequence
  ]

  -- An accepted commit that neither a reset nor a pull has covered yet.
  abbrev pub is_unpulled : ℕ → ResolvedCommit V → Bool
  is_unpulled applied resolved = elim resolved.outcome [
    | DurableOutcome.accepted identity sequence mappings ↦
        not resolved.covered_by_reset && ltb applied sequence
    | _ ↦ false
  ]

  abbrev pub accepted_not_pulled : ℕ → List (ResolvedCommit V) → List (ClientCommit V)
  accepted_not_pulled applied [] = []
  accepted_not_pulled applied (resolved ∷ outcomes) =
      if is_unpulled applied resolved
      then resolved.local_commit ∷ accepted_not_pulled applied outcomes
      else accepted_not_pulled applied outcomes

  abbrev pub all_operations : List (ClientCommit V) → List (Operation V)
  all_operations [] = []
  all_operations (commit ∷ commits) = commit.operations ++ all_operations commits

  unfoldable pub optimistic_operations : DurableClientState V → List (Operation V)
  optimistic_operations state =
      all_operations (accepted_not_pulled (applied_sequence state) state.outcomes ++ state.outbox)

  abbrev pub confirmed_record : RecordState V → Option (OptimisticRecord V)
  confirmed_record RecordState.absent = none
  confirmed_record (RecordState.present value version reference) =
      some (OptimisticRecord.present value (BaseVersion.exact version) reference)
  confirmed_record (RecordState.tombstone version) = some (OptimisticRecord.deleted version)

  unfoldable pub confirmed_projection : BTreeMap (RecordState V) → BTreeMap (OptimisticRecord V)
  confirmed_projection [] = []
  confirmed_projection ((id, state) ∷ confirmed) = elim (confirmed_record state) [
    | none ↦ confirmed_projection confirmed
    | some row ↦ (id, row) ∷ confirmed_projection confirmed
  ]

  abbrev pub operation_record : Operation V → OptimisticRecord V
  operation_record (Operation.upsert id base value reference) =
      OptimisticRecord.present value base reference
  operation_record (Operation.delete id base) = OptimisticRecord.deleted base

  unfoldable pub apply_operations :
      BTreeMap (OptimisticRecord V) → List (Operation V) → BTreeMap (OptimisticRecord V)
  apply_operations projection [] = projection
  apply_operations projection (op ∷ ops) =
      apply_operations (insert (record_id op) (operation_record op) projection) ops

  unfoldable pub optimistic_projection : DurableClientState V → BTreeMap (OptimisticRecord V)
  optimistic_projection state =
      apply_operations (confirmed_projection state.confirmed) (optimistic_operations state)
