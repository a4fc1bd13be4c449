-- ===== src/Client/Remap/Gone.antt =====
-- What an id mapping of surrealdb-sync-client/src/lib.rs leaves of the local id in the state.
use react_native_surrealdb.Base.{
  ◌≡◌, refl, sym, ◌≢◌, false, ◌||◌, Option, none, some, List, [], ◌∷◌, map, arith, DecEq, ◌==◌, any,
  All, Ensures, holds, fails, Option-cases, inl, inr, Ensures-bind, Ensures-if, ensures_ok,
}
use react_native_surrealdb.Base.Bytes.{Bytes, bytes_eq}
use react_native_surrealdb.Base.BTreeMap.{BTreeMap, get, contains_key, insert, remove, map_values}
use react_native_surrealdb.Protocol.{
  RecordId, IdMapping, Operation, ClientCommit, RecordState, record_state_eq, DurableOutcome,
}
use react_native_surrealdb.Client.{ResolvedCommit, DurableClientState}
use react_native_surrealdb.Client.Validate.{
  mentions, state_contains_id, operation_contains_id, commit_contains_id, outcome_contains_id,
  contains_id,
}
use react_native_surrealdb.Client.Remap.{
  remap_record_id, remap_reference, remap_state, remap_operation, remap_commit, remap_outcome,
  accepted_mappings, remap_resolved, rename_everywhere, place_canonical, take_local, move_confirmed,
  map_local_id, apply_id_mapping,
}

-- No entry has the key.
abbrev Without {ℓ} : {A : Type ℓ} → Bytes → BTreeMap A → Type 0
Without k = All λ e. (e.0 == k) ≡ false

module _ {ℓ} {A : Type ℓ} where
  remove-Without : (k : Bytes) (m : BTreeMap A) → Without k (remove k m)
  unfolding remove
  remove-Without k [] = tt
  remove-Without k ((j, a) ∷ m) = ground (arith, remove-Without k m)

  get-Without : (k : Bytes) (m : BTreeMap A) → get k m ≡ none → Without k m
  unfolding get
  get-Without k [] h = tt
  get-Without k ((j, a) ∷ m) h = ground (arith, get-Without k m)

  insert-Without :
      (k j : Bytes) (a : A) (m : BTreeMap A) → j ≢ k → Without k m → Without k (insert j a m)
  unfolding insert
  insert-Without k j a [] n w = (ground arith, tt)
  insert-Without k j a ((i, b) ∷ m) n w = ground (arith, insert-Without k j a m n w.1)

module _ (mapping : IdMapping) (apart : mapping.local_id ≢ mapping.canonical_id) where
  remap_record_id-gone : (id : RecordId) → (remap_record_id mapping id == mapping.local_id) ≡ false
  unfolding remap_record_id
  remap_record_id-gone id = ground arith

  remap_reference-gone :
      (o : Option RecordId) → mentions mapping.local_id (remap_reference mapping o) ≡ false
  remap_reference-gone none = refl
  remap_reference-gone (some id) = remap_record_id-gone id

-- The id mappings of each outcome.
abbrev pub sent_mappings : {V : Type 0} → List (ResolvedCommit V) → List (List IdMapping)
sent_mappings = map (λ r. accepted_mappings r.outcome)

module _ {V : Type 0} (mapping : IdMapping) (apart : mapping.local_id ≢ mapping.canonical_id) where
  remap_state-gone :
      (state : RecordState V)
      → state_contains_id (remap_state mapping state) mapping.local_id ≡ false
  remap_state-gone RecordState.absent = refl
  remap_state-gone (RecordState.present value version reference) =
      remap_reference-gone mapping apart reference
  remap_state-gone (RecordState.tombstone version) = refl

  remap_operations-gone :
      (ops : List (Operation V))
      → any (λ op. operation_contains_id op mapping.local_id) (map (remap_operation mapping) ops)
        ≡ false
  remap_operations-gone [] = refl
  remap_operations-gone (Operation.upsert id base value reference ∷ ops) = ground (
    arith,
    remap_record_id-gone mapping apart id,
    remap_reference-gone mapping apart reference,
    remap_operations-gone ops,
  )
  remap_operations-gone (Operation.delete id base ∷ ops) =
      ground (arith, remap_record_id-gone mapping apart id, remap_operations-gone ops)

  remap_commit-gone :
      (commit : ClientCommit V)
      → commit_contains_id (remap_commit mapping commit) mapping.local_id ≡ false
  unfolding commit_contains_id remap_commit
  remap_commit-gone commit = remap_operations-gone commit.operations

  remap_outcome-gone :
      (outcome : DurableOutcome V)
      → outcome_contains_id (remap_outcome mapping outcome) mapping.local_id ≡ false
  remap_outcome-gone (DurableOutcome.accepted identity sequence mappings) = refl
  remap_outcome-gone (DurableOutcome.conflict identity id authoritative) =
      ground (arith, remap_record_id-gone mapping apart id, remap_state-gone authoritative)
  remap_outcome-gone (DurableOutcome.rejected identity reason) = refl

  remap_outcome-sent :
      (outcome : DurableOutcome V)
      → accepted_mappings (remap_outcome mapping outcome) ≡ accepted_mappings outcome
  remap_outcome-sent (DurableOutcome.accepted identity sequence mappings) = refl
  remap_outcome-sent (DurableOutcome.conflict identity id authoritative) = refl
  remap_outcome-sent (DurableOutcome.rejected identity reason) = refl

  confirmed-gone :
      (confirmed : BTreeMap (RecordState V))
      → Without mapping.local_id confirmed
      → any
          (λ e. e.0 == mapping.local_id || state_contains_id e.1 mapping.local_id)
          (map_values (remap_state mapping) confirmed)
        ≡ false
  confirmed-gone [] w = refl
  confirmed-gone ((id, state) ∷ rest) w =
      let one = w.0 in ground (arith, remap_state-gone state, confirmed-gone rest w.1)

  outbox-gone :
      (commits : List (ClientCommit V))
      → any (λ c. commit_contains_id c mapping.local_id) (map (remap_commit mapping) commits)
        ≡ false
  outbox-gone [] = refl
  outbox-gone (c ∷ cs) = ground (arith, remap_commit-gone c, outbox-gone cs)

  outcomes-gone :
      (outcomes : List (ResolvedCommit V))
      → any
          (λ r.
            commit_contains_id r.local_commit mapping.local_id
            || outcome_contains_id r.outcome mapping.local_id)
          (map (remap_resolved mapping) outcomes)
        ≡ false
  unfolding remap_resolved
  outcomes-gone [] = refl
  outcomes-gone (r ∷ rs) =
      ground
        (arith, remap_commit-gone r.local_commit, remap_outcome-gone r.outcome, outcomes-gone rs)

  -- The mappings of the accepted outcomes are what the server sent.
  remap_resolved-sent :
      (outcomes : List (ResolvedCommit V))
      → sent_mappings (map (remap_resolved mapping) outcomes) ≡ sent_mappings outcomes
  unfolding remap_resolved
  remap_resolved-sent [] = refl
  remap_resolved-sent (r ∷ rs) = cc (remap_outcome-sent r.outcome, remap_resolved-sent rs)

  rename_everywhere-sent :
      (confirmed : BTreeMap (RecordState V)) (state : DurableClientState V)
      → sent_mappings (rename_everywhere mapping confirmed state).outcomes
        ≡ sent_mappings state.outcomes
  unfolding rename_everywhere
  rename_everywhere-sent confirmed state = remap_resolved-sent state.outcomes

  rename_everywhere-gone :
      (confirmed : BTreeMap (RecordState V)) (state : DurableClientState V)
      → Without mapping.local_id confirmed
      → contains_id (rename_everywhere mapping confirmed state) mapping.local_id ≡ false
  unfolding contains_id rename_everywhere
  rename_everywhere-gone confirmed state w =
      ground
        (arith, confirmed-gone confirmed w, outbox-gone state.outbox, outcomes-gone state.outcomes)

module _ {V : Type 0} ⦃v : DecEq V⦄ where
  place_canonical-Without :
      (mapping : IdMapping) (local_state : RecordState V) (rest : BTreeMap (RecordState V))
      (o : Option (RecordState V))
      → mapping.local_id ≢ mapping.canonical_id
      → Without mapping.local_id rest
      → Ensures (Without mapping.local_id) (place_canonical mapping local_state rest o)
  unfolding place_canonical
  place_canonical-Without mapping local_state rest none n w =
      holds
        (insert-Without mapping.local_id mapping.canonical_id local_state rest (λ e. n (sym e)) w)
  place_canonical-Without mapping local_state rest (some canonical_state) n w =
      Ensures-if (canonical_state == local_state) (λ same. holds w) (λ other. fails)

  take_local-Without :
      (mapping : IdMapping) (confirmed : BTreeMap (RecordState V))
      → mapping.local_id ≢ mapping.canonical_id
      → Ensures
          (Without mapping.local_id)
          (take_local mapping confirmed (get mapping.local_id confirmed))
  unfolding take_local
  take_local-Without mapping confirmed n = elim (Option-cases (get mapping.local_id confirmed)) [
    | inl absent ↦ rw (absent) (holds (get-Without mapping.local_id confirmed absent))
    | inr row ↦ rw (row.1) (
        place_canonical-Without mapping row.0 (remove mapping.local_id confirmed)
          (get mapping.canonical_id (remove mapping.local_id confirmed)) n
          (remove-Without mapping.local_id confirmed))
  ]

  -- The code's test finds the local id no more, and the accepted outcomes keep their mappings.
  pub apply_id_mapping-gone :
      (state : DurableClientState V) (mapping : IdMapping)
      → get mapping.local_id state.id_map ≡ none
      → Ensures
          (λ t.
            (contains_id t mapping.local_id ≡ false)
            × (sent_mappings t.outcomes ≡ sent_mappings state.outcomes))
          (apply_id_mapping state mapping)
  unfolding apply_id_mapping map_local_id move_confirmed
  apply_id_mapping-gone state mapping new =
      Ensures-if
        (mapping.local_id == mapping.canonical_id || contains_key mapping.canonical_id state.id_map)
        (λ bad. fails)
        (λ good.
          let apart : mapping.local_id ≢ mapping.canonical_id = ground arith in
          rw (new) (
            Ensures-bind (take_local mapping state.confirmed (get mapping.local_id state.confirmed))
              λ confirmed e. holds (
                rename_everywhere-gone mapping apart confirmed state
                    (ensures_ok (take_local-Without mapping state.confirmed apart) e),
                rename_everywhere-sent mapping apart confirmed state,
              )))
