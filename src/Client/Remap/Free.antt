-- ===== src/Client/Remap/Free.antt =====
-- After an id mapping of surrealdb-sync-client/src/lib.rs: where the local id does not stand.
use react_native_surrealdb.Base.{
  ◌≡◌, ◌≢◌, false, Bool, ◌||◌, Option, none, some, List, [], ◌∷◌, arith, DecEq, ◌==◌, any, All,
  Ensures, Ensures-map,
}
use react_native_surrealdb.Base.Bytes.{bytes_eq}
use react_native_surrealdb.Base.BTreeMap.{get}
use react_native_surrealdb.Protocol.{
  RecordId, IdMapping, Operation, ClientCommit, RecordState, DurableOutcome,
}
use react_native_surrealdb.Client.{DurableClientState}
use react_native_surrealdb.Client.Validate.{
  mentions, state_contains_id, operation_contains_id, commit_contains_id, outcome_contains_id,
  contains_id,
}
use react_native_surrealdb.Client.Remap.{apply_id_mapping}
use react_native_surrealdb.Client.Remap.Gone.{sent_mappings, apply_id_mapping-gone}

any-All {ℓ} :
    {A : Type ℓ} (p : A → Bool) (P : A → Type 0) (xs : List A)
    → ((x : A) → p x ≡ false → P x)
    → any p xs ≡ false
    → All P xs
any-All p P [] f h = tt
any-All p P (x ∷ xs) f h = (f x (ground (arith, h)), any-All p P xs f (ground (arith, h)))

-- A reference is to another record.
abbrev pub ReferenceFree : RecordId → Option RecordId → Type 0
ReferenceFree id none = Unit
ReferenceFree id (some other) = other ≢ id

mentions-ReferenceFree :
    (id : RecordId) (o : Option RecordId) → mentions id o ≡ false → ReferenceFree id o
mentions-ReferenceFree id none h = tt
mentions-ReferenceFree id (some other) h = ground (arith, h)

module _ {V : Type 0} where
  abbrev pub StateFree : RecordId → RecordState V → Type 0
  StateFree id RecordState.absent = Unit
  StateFree id (RecordState.present value version reference) = ReferenceFree id reference
  StateFree id (RecordState.tombstone version) = Unit

  abbrev pub OperationFree : RecordId → Operation V → Type 0
  OperationFree id (Operation.upsert rid base value reference) =
      (rid ≢ id) × ReferenceFree id reference
  OperationFree id (Operation.delete rid base) = rid ≢ id

  abbrev pub OutcomeFree : RecordId → DurableOutcome V → Type 0
  OutcomeFree id (DurableOutcome.accepted identity sequence mappings) = Unit
  OutcomeFree id (DurableOutcome.conflict identity rid authoritative) =
      (rid ≢ id) × StateFree id authoritative
  OutcomeFree id (DurableOutcome.rejected identity reason) = Unit

  -- No row, operation or conflict is on the record or refers to it.
  abbrev pub IsFree : RecordId → DurableClientState V → Type 0
  IsFree id state =
      All (λ e. (e.0 ≢ id) × StateFree id e.1) state.confirmed
      × All (λ c. All (OperationFree id) c.operations) state.outbox
      × All (λ r. All (OperationFree id) r.local_commit.operations × OutcomeFree id r.outcome)
          state.outcomes

  state_contains_id-StateFree :
      (id : RecordId) (state : RecordState V)
      → state_contains_id state id ≡ false
      → StateFree id state
  state_contains_id-StateFree id RecordState.absent h = tt
  state_contains_id-StateFree id (RecordState.present value version reference) h =
      mentions-ReferenceFree id reference h
  state_contains_id-StateFree id (RecordState.tombstone version) h = tt

  operation_contains_id-OperationFree :
      (id : RecordId) (op : Operation V) → operation_contains_id op id ≡ false → OperationFree id op
  operation_contains_id-OperationFree id (Operation.upsert rid base value reference) h =
      (ground (arith, h), mentions-ReferenceFree id reference (ground (arith, h)))
  operation_contains_id-OperationFree id (Operation.delete rid base) h = ground (arith, h)

  outcome_contains_id-OutcomeFree :
      (id : RecordId) (outcome : DurableOutcome V)
      → outcome_contains_id outcome id ≡ false
      → OutcomeFree id outcome
  outcome_contains_id-OutcomeFree id (DurableOutcome.accepted identity sequence mappings) h = tt
  outcome_contains_id-OutcomeFree id (DurableOutcome.conflict identity rid authoritative) h =
      (ground (arith, h), state_contains_id-StateFree id authoritative (ground (arith, h)))
  outcome_contains_id-OutcomeFree id (DurableOutcome.rejected identity reason) h = tt

  commit_contains_id-OperationFree :
      (id : RecordId) (commit : ClientCommit V)
      → commit_contains_id commit id ≡ false
      → All (OperationFree id) commit.operations
  unfolding commit_contains_id
  commit_contains_id-OperationFree id commit h =
      any-All (λ op. operation_contains_id op id) (OperationFree id) commit.operations
        (operation_contains_id-OperationFree id) h

  contains_id-IsFree :
      (id : RecordId) (state : DurableClientState V)
      → contains_id state id ≡ false
      → IsFree id state
  unfolding contains_id
  contains_id-IsFree id state h = (
    any-All (λ e. e.0 == id || state_contains_id e.1 id) (λ e. (e.0 ≢ id) × StateFree id e.1)
        state.confirmed
        (λ e g. (ground (arith, g), state_contains_id-StateFree id e.1 (ground (arith, g))))
        (ground (arith, h)),
    any-All (λ c. commit_contains_id c id) (λ c. All (OperationFree id) c.operations) state.outbox
        (commit_contains_id-OperationFree id) (ground (arith, h)),
    any-All (λ r. commit_contains_id r.local_commit id || outcome_contains_id r.outcome id)
        (λ r. All (OperationFree id) r.local_commit.operations × OutcomeFree id r.outcome)
        state.outcomes
        (λ r g. (
          commit_contains_id-OperationFree id r.local_commit (ground (arith, g)),
          outcome_contains_id-OutcomeFree id r.outcome (ground (arith, g)),
        ))
        (ground (arith, h)),
  )

module _ {V : Type 0} ⦃v : DecEq V⦄ where
  -- When an id mapping whose local id is not in the id map yet is applied, the local id is no
  -- longer a confirmed row or its reference, a record or reference of a pending or settled commit,
  -- or the record of a conflict or its state's reference; the id mappings that accepted outcomes
  -- hold stay as they were, and they alone of the rows, commits and outcomes may still name it.
  pub apply_id_mapping-IsFree :
      (state : DurableClientState V) (mapping : IdMapping)
      → get mapping.local_id state.id_map ≡ none
      → Ensures
          (λ t.
            IsFree mapping.local_id t × (sent_mappings t.outcomes ≡ sent_mappings state.outcomes))
          (apply_id_mapping state mapping)
  apply_id_mapping-IsFree state mapping new =
      Ensures-map (apply_id_mapping-gone state mapping new)
        λ t h. (contains_id-IsFree mapping.local_id t h.0, h.1)
