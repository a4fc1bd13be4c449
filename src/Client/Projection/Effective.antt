-- ===== src/Client/Projection/Effective.antt =====
-- What `optimistic_projection` of surrealdb-sync-client/src/lib.rs shows of one record, without its
-- maps: its last pending operation, the last one that nothing has covered, or the confirmed row.
use react_native_surrealdb.Base.{
  ℕ, ◌<◌, ◌↔◌, ◌⊎◌, inl, inr, sym, ap, ◌∙◌, true, not, Bool, subst, ◌&&◌, ◌++◌, ltb, Bool-cases,
  ◌≡◌, refl, false, Option, none, some, List, [], ◌∷◌, arith, ◌==◌, if◌then◌else◌, All,
}
use react_native_surrealdb.Base.Bytes.{bytes_eq}
use react_native_surrealdb.Base.BTreeMap.{BTreeMap, get, insert, get-insert}
use react_native_surrealdb.Protocol.{
  RecordId, CommitIdentity, IdMapping, BaseVersion, Operation, record_id, ClientCommit, RecordState,
  DurableOutcome, Checkpoint,
}
use react_native_surrealdb.Client.{ResolvedCommit, DurableClientState, OptimisticRecord}
use react_native_surrealdb.Client.Validate.{is_absent}
use react_native_surrealdb.Client.Projection.{
  confirmed_record, confirmed_projection, operation_record, apply_operations, optimistic_operations,
  optimistic_projection, applied_sequence, is_unpulled, accepted_not_pulled, all_operations,
}

-- The server's commits were not pulled up to this sequence.
abbrev Behind : Option Checkpoint → ℕ → Type 0
Behind none sequence = 0 < sequence
Behind (some checkpoint) sequence = checkpoint.cursor.sequence < sequence

module _ {V : Type 0} where
  -- The last operation on a record.
  abbrev pub last_on : RecordId → List (Operation V) → Option (Operation V)
  last_on id [] = none
  last_on id (op ∷ ops) = elim (last_on id ops) [
    | some later ↦ some later
    | none ↦ if id == record_id op then some op else none
  ]

  abbrev pub confirmed_row : Option (RecordState V) → Option (OptimisticRecord V)
  confirmed_row none = none
  confirmed_row (some state) = confirmed_record state

  abbrev pub over : Option (Operation V) → Option (OptimisticRecord V) → Option (OptimisticRecord V)
  over none row = row
  over (some op) row = some (operation_record op)

  abbrev later_of : Option (Operation V) → Option (Operation V) → Option (Operation V)
  later_of none earlier = earlier
  later_of (some op) earlier = some op

  -- The last operation on a record in a list of commits.
  abbrev pub latest : RecordId → List (ClientCommit V) → Option (Operation V)
  latest id [] = none
  latest id (commit ∷ commits) = later_of (latest id commits) (last_on id commit.operations)

  -- A commit that the server accepted and that neither a pull nor a reset has covered.
  abbrev IsUncovered : DurableClientState V → ResolvedCommit V → Type 0
  IsUncovered state resolved =
      (identity : CommitIdentity) × (sequence : ℕ) × (mappings : List IdMapping) × (resolved.outcome
        ≡ DurableOutcome.accepted identity sequence mappings)
      × (resolved.covered_by_reset ≡ false)
      × Behind state.checkpoint sequence

  -- The last operation on a record in the uncovered commits among some outcomes.
  abbrev pub Uncovered :
      DurableClientState V → RecordId → List (ResolvedCommit V) → Option (Operation V) → Type 0
  Uncovered state id [] o = o ≡ none
  Uncovered state id (resolved ∷ outcomes) o =
      (later : Option (Operation V)) × Uncovered state id outcomes later
      × ((IsUncovered state resolved
            × (o ≡ later_of later (last_on id resolved.local_commit.operations)))
          ⊎ (¬ IsUncovered state resolved × (o ≡ later)))

  -- The row that an operation writes, and the one that a confirmed state shows.
  abbrev written : Operation V → OptimisticRecord V
  written (Operation.upsert id base value reference) = OptimisticRecord.present value base reference
  written (Operation.delete id base) = OptimisticRecord.deleted base

  abbrev stored : Option (RecordState V) → Option (OptimisticRecord V)
  stored none = none
  stored (some RecordState.absent) = none
  stored (some (RecordState.present value version reference)) =
      some (OptimisticRecord.present value (BaseVersion.exact version) reference)
  stored (some (RecordState.tombstone version)) = some (OptimisticRecord.deleted version)

  -- What a record reads as: its pending operation, its uncovered one, or its confirmed state.
  abbrev pub reads :
      Option (Operation V)
      → Option (Operation V)
      → Option (RecordState V)
      → Option (OptimisticRecord V)
  reads (some pending) uncovered confirmed = some (written pending)
  reads none (some uncovered) confirmed = some (written uncovered)
  reads none none confirmed = stored confirmed

  operation_record-written : (op : Operation V) → operation_record op ≡ written op
  operation_record-written (Operation.upsert id base value reference) = refl
  operation_record-written (Operation.delete id base) = refl

  confirmed_row-stored : (o : Option (RecordState V)) → confirmed_row o ≡ stored o
  confirmed_row-stored none = refl
  confirmed_row-stored (some RecordState.absent) = refl
  confirmed_row-stored (some (RecordState.present value version reference)) = refl
  confirmed_row-stored (some (RecordState.tombstone version)) = refl

  over-reads :
      (pending uncovered : Option (Operation V)) (confirmed : Option (RecordState V))
      → over (later_of pending uncovered) (confirmed_row confirmed)
        ≡ reads pending uncovered confirmed
  over-reads (some op) uncovered confirmed = ap some (operation_record-written op)
  over-reads none (some op) confirmed = ap some (operation_record-written op)
  over-reads none none confirmed = confirmed_row-stored confirmed

  pub get-apply_operations :
      (id : RecordId) (projection : BTreeMap (OptimisticRecord V)) (ops : List (Operation V))
      → get id (apply_operations projection ops) ≡ over (last_on id ops) (get id projection)
  unfolding apply_operations
  get-apply_operations id projection [] = refl
  get-apply_operations id projection (op ∷ ops) = ground (
    arith,
    get-apply_operations id (insert (record_id op) (operation_record op) projection) ops,
    get-insert id (record_id op) (operation_record op) projection,
  )

  get-confirmed_projection :
      (id : RecordId) (confirmed : BTreeMap (RecordState V))
      → All (λ e. is_absent e.1 ≡ false) confirmed
      → get id (confirmed_projection confirmed) ≡ confirmed_row (get id confirmed)
  unfolding confirmed_projection get
  get-confirmed_projection id [] h = refl
  get-confirmed_projection id ((j, RecordState.absent) ∷ rest) h = cc (h.0)
  get-confirmed_projection id ((j, RecordState.present value version reference) ∷ rest) h =
      ground (arith, get-confirmed_projection id rest h.1)
  get-confirmed_projection id ((j, RecordState.tombstone version) ∷ rest) h =
      ground (arith, get-confirmed_projection id rest h.1)

  last_on-append :
      (id : RecordId) (xs ys : List (Operation V))
      → last_on id (xs ++ ys) ≡ later_of (last_on id ys) (last_on id xs)
  last_on-append id [] ys = ground arith
  last_on-append id (x ∷ xs) ys = ground (arith, last_on-append id xs ys)

  latest-all_operations :
      (id : RecordId) (commits : List (ClientCommit V))
      → last_on id (all_operations commits) ≡ latest id commits
  latest-all_operations id [] = refl
  latest-all_operations id (c ∷ cs) =
      last_on-append id c.operations (all_operations cs)
      ∙ ap (λ o. later_of o (last_on id c.operations)) (latest-all_operations id cs)

  latest-append :
      (id : RecordId) (xs ys : List (ClientCommit V))
      → latest id (xs ++ ys) ≡ later_of (latest id ys) (latest id xs)
  latest-append id [] ys = ground arith
  latest-append id (x ∷ xs) ys = ground (arith, latest-append id xs ys)

  ltb-Behind :
      (state : DurableClientState V) (sequence : ℕ)
      → (ltb (applied_sequence state) sequence ≡ true) ↔ Behind state.checkpoint sequence
  unfolding applied_sequence
  ltb-Behind state sequence = behind state.checkpoint
    where
      behind :
          (o : Option Checkpoint)
          → (ltb (elim o [ none ↦ 0 | some checkpoint ↦ checkpoint.cursor.sequence ]) sequence
              ≡ true)
            ↔ Behind o sequence
      behind none = (λ h. ground (arith, h), λ h. ground (arith, h))
      behind (some checkpoint) = (λ h. ground (arith, h), λ h. ground (arith, h))

  same_sequence :
      {a b : CommitIdentity} {n m : ℕ} {xs ys : List IdMapping}
      → ◌≡◌ {A = DurableOutcome V} (DurableOutcome.accepted a n xs) (DurableOutcome.accepted b m ys)
      → n ≡ m
  same_sequence h = cc

  outcome_test :
      (state : DurableClientState V) (covered : Bool) (outcome : DurableOutcome V)
      → ((elim outcome as (λ _. Bool) [
        | DurableOutcome.accepted identity sequence mappings ↦
            not covered && ltb (applied_sequence state) sequence
        | _ ↦ false
      ])
          ≡ true)
        ↔ ((identity : CommitIdentity) × (sequence : ℕ) × (mappings : List IdMapping) × (outcome
              ≡ DurableOutcome.accepted identity sequence mappings)
            × (covered ≡ false)
            × Behind state.checkpoint sequence)
  outcome_test state covered (DurableOutcome.accepted identity sequence mappings) = (
    λ h. (
      identity,
      sequence,
      mappings,
      refl,
      ground (arith, h),
      (ltb-Behind state sequence).0 (ground (arith, h)),
    ),
    λ (i, n, ms, same, uncovered, behind).
        let test =
          (ltb-Behind state sequence).1
            (subst (Behind state.checkpoint) (sym (same_sequence same)) behind) in
        ground (arith, test, uncovered),
  )
  outcome_test state covered (DurableOutcome.conflict identity id authoritative) =
      (λ h. absurd (cc h), λ (i, n, ms, same, uncovered, behind). absurd (cc same))
  outcome_test state covered (DurableOutcome.rejected identity reason) =
      (λ h. absurd (cc h), λ (i, n, ms, same, uncovered, behind). absurd (cc same))

  is_unpulled-IsUncovered :
      (state : DurableClientState V) (r : ResolvedCommit V)
      → (is_unpulled (applied_sequence state) r ≡ true) ↔ IsUncovered state r
  is_unpulled-IsUncovered state r = outcome_test state r.covered_by_reset r.outcome

  accepted_not_pulled-Uncovered :
      (state : DurableClientState V) (id : RecordId) (outcomes : List (ResolvedCommit V))
      → Uncovered state id outcomes
          (latest id (accepted_not_pulled (applied_sequence state) outcomes))
  accepted_not_pulled-Uncovered state id [] = refl
  accepted_not_pulled-Uncovered state id (r ∷ outcomes) =
      let rest = accepted_not_pulled-Uncovered state id outcomes in
      elim (Bool-cases (is_unpulled (applied_sequence state) r)) [
        | inl p ↦ rw p (_, rest, inl ((is_unpulled-IsUncovered state r).0 p, refl))
        | inr p ↦ rw p (
          _,
          rest,
          inr (λ u. absurd (ground (arith, p, (is_unpulled-IsUncovered state r).1 u)), refl),
        )
      ]

  -- In a state that stores no absent row, a record reads in the optimistic projection as the last
  -- write to it in the outbox; or else as the last write to it in the commits that were accepted
  -- with a sequence behind the checkpoint's (behind 0 without a checkpoint) and that no reset has
  -- covered; or else as its confirmed row.
  pub get-optimistic_projection :
      (state : DurableClientState V) (id : RecordId)
      → All (λ e. is_absent e.1 ≡ false) state.confirmed
      → (o : Option (Operation V)) × Uncovered state id state.outcomes o
        × (get id (optimistic_projection state)
            ≡ reads (latest id state.outbox) o (get id state.confirmed))
  unfolding optimistic_projection optimistic_operations
  get-optimistic_projection state id h =
      let open_commits = accepted_not_pulled (applied_sequence state) state.outcomes in
      (
        latest id open_commits,
        accepted_not_pulled-Uncovered state id state.outcomes,
        get-apply_operations id (confirmed_projection state.confirmed)
              (all_operations (open_commits ++ state.outbox))
            ∙ ap (λ o. over o (get id (confirmed_projection state.confirmed)))
                (latest-all_operations id (open_commits ++ state.outbox)
                  ∙ latest-append id open_commits state.outbox)
            ∙ ap (over (later_of (latest id state.outbox) (latest id open_commits)))
                (get-confirmed_projection id state.confirmed h)
            ∙ over-reads (latest id state.outbox) (latest id open_commits) (get id state.confirmed),
      )
