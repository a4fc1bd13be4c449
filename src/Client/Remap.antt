-- ===== src/Client/Remap.antt =====
-- surrealdb-sync-client/src/lib.rs, id mappings: an accepted push tells the canonical id of a
-- record that the client made up. apply_id_mapping and the functions that it calls.
pub mod Kept
pub mod Gone
pub mod Free
use react_native_surrealdb.Base.{
  Bool, true, false, ◌||◌, Option, none, some, List, [], ◌∷◌, map, DecEq, ◌==◌, ◌!=◌, if◌then◌else◌,
  Result, ok, err, ◌>>=◌, ◌>>◌, fail_if, try_fold,
}
use react_native_surrealdb.Base.Bytes.{Bytes, bytes_eq}
use react_native_surrealdb.Base.BTreeMap.{BTreeMap, get, contains_key, insert, remove, map_values}
use react_native_surrealdb.Protocol.{
  RecordId, IdMapping, Operation, ClientCommit, RecordState, record_state_eq, DurableOutcome,
}
use react_native_surrealdb.Client.{ClientError, ResolvedCommit, DurableClientState}

unfoldable pub remap_record_id : IdMapping → RecordId → RecordId
remap_record_id mapping id = if id == mapping.local_id then mapping.canonical_id else id

abbrev pub remap_reference : IdMapping → Option RecordId → Option RecordId
remap_reference mapping none = none
remap_reference mapping (some reference) = some (remap_record_id mapping reference)

module _ {V : Type 0} where
  abbrev pub remap_state : IdMapping → RecordState V → RecordState V
  remap_state mapping RecordState.absent = RecordState.absent
  remap_state mapping (RecordState.present value version reference) =
      RecordState.present value version (remap_reference mapping reference)
  remap_state mapping (RecordState.tombstone version) = RecordState.tombstone version

  abbrev pub remap_operation : IdMapping → Operation V → Operation V
  remap_operation mapping (Operation.upsert id base value reference) =
      Operation.upsert (remap_record_id mapping id) base value (remap_reference mapping reference)
  remap_operation mapping (Operation.delete id base) =
      Operation.delete (remap_record_id mapping id) base

  unfoldable pub remap_commit : IdMapping → ClientCommit V → ClientCommit V
  remap_commit mapping commit = record commit {
    operations = map (remap_operation mapping) commit.operations;
  }

  abbrev pub remap_outcome : IdMapping → DurableOutcome V → DurableOutcome V
  remap_outcome mapping (DurableOutcome.accepted identity sequence mappings) =
      DurableOutcome.accepted identity sequence mappings
  remap_outcome mapping (DurableOutcome.conflict identity id authoritative) =
      DurableOutcome.conflict identity (remap_record_id mapping id)
        (remap_state mapping authoritative)
  remap_outcome mapping (DurableOutcome.rejected identity reason) =
      DurableOutcome.rejected identity reason

  unfoldable pub remap_resolved : IdMapping → ResolvedCommit V → ResolvedCommit V
  remap_resolved mapping resolved = record resolved {
    local_commit = remap_commit mapping resolved.local_commit;
    outcome = remap_outcome mapping resolved.outcome;
  }

  -- `accepted_mappings`, as the loop over a commit's mappings uses it.
  abbrev pub accepted_mappings : DurableOutcome V → List IdMapping
  accepted_mappings (DurableOutcome.accepted identity sequence mappings) = mappings
  accepted_mappings (DurableOutcome.conflict identity id authoritative) = []
  accepted_mappings (DurableOutcome.rejected identity reason) = []

  unfoldable pub remap_all : List IdMapping → ClientCommit V → ClientCommit V
  remap_all [] commit = commit
  remap_all (mapping ∷ mappings) commit = remap_all mappings (remap_commit mapping commit)

  -- The rewriting that follows the move of the confirmed row.
  unfoldable pub rename_everywhere :
      IdMapping → BTreeMap (RecordState V) → DurableClientState V → DurableClientState V
  rename_everywhere mapping confirmed state = record state {
    confirmed = map_values (remap_state mapping) confirmed;
    outbox = map (remap_commit mapping) state.outbox;
    outcomes = map (remap_resolved mapping) state.outcomes;
    id_map =
        insert mapping.local_id mapping.canonical_id
          (map_values (remap_record_id mapping) state.id_map);
  }

module _ {V : Type 0} ⦃v : DecEq V⦄ where
  -- By the row that stands at the canonical id already.
  unfoldable pub place_canonical :
      IdMapping
      → RecordState V
      → BTreeMap (RecordState V)
      → Option (RecordState V)
      → Result ClientError (BTreeMap (RecordState V))
  place_canonical mapping local_state rest none = ok (insert mapping.canonical_id local_state rest)
  place_canonical mapping local_state rest (some canonical_state) =
      if canonical_state == local_state
      then ok rest
      else err (ClientError.id_mapping_collision mapping.canonical_id)

  -- By the row that stands at the local id.
  unfoldable pub take_local :
      IdMapping
      → BTreeMap (RecordState V)
      → Option (RecordState V)
      → Result ClientError (BTreeMap (RecordState V))
  take_local mapping confirmed none = ok confirmed
  take_local mapping confirmed (some local_state) =
      let rest = remove mapping.local_id confirmed in
      place_canonical mapping local_state rest (get mapping.canonical_id rest)

  -- The confirmed row moves to its canonical id, where an equal row may already stand.
  unfoldable pub move_confirmed :
      IdMapping → BTreeMap (RecordState V) → Result ClientError (BTreeMap (RecordState V))
  move_confirmed mapping confirmed = take_local mapping confirmed (get mapping.local_id confirmed)

  -- By what the id map says of the local id already.
  unfoldable pub map_local_id :
      DurableClientState V → IdMapping → Option RecordId → Result ClientError (DurableClientState V)
  map_local_id state mapping (some existing) =
      if existing == mapping.canonical_id
      then ok state
      else err (ClientError.invalid_id_mapping mapping)
  map_local_id state mapping none = move_confirmed mapping state.confirmed >>= λ confirmed.
      ok (rename_everywhere mapping confirmed state)

  unfoldable pub apply_id_mapping :
      DurableClientState V → IdMapping → Result ClientError (DurableClientState V)
  apply_id_mapping state mapping =
      if mapping.local_id == mapping.canonical_id || contains_key mapping.canonical_id state.id_map
      then err (ClientError.invalid_id_mapping mapping)
      else map_local_id state mapping (get mapping.local_id state.id_map)

  unfoldable pub apply_id_mappings :
      DurableClientState V → List IdMapping → Result ClientError (DurableClientState V)
  apply_id_mappings = try_fold apply_id_mapping
