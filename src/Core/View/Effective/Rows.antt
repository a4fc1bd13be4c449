-- ===== src/Core/View/Effective/Rows.antt =====
-- sync_view.rs: the effective rows are the present rows of the client's optimistic projection.
use react_native_surrealdb.Base.{
  ◌+◌, ◌≡◌, refl, true, false, Option, none, some, List, [], ◌∷◌, ◌++◌, map, length, ltb, All,
  fail_if, Ensures, Ensures-bind, Ensures-seq, Ensures-map, holds, ensures_ok, arith,
}
use react_native_surrealdb.Base.Bytes.{Bytes, bytes_eq}
use react_native_surrealdb.Base.BTreeMap.{BTreeMap, get, insert, get-insert, get-remove}
use react_native_surrealdb.Base.BTreeMap.Sorted.{
  Absent, DistinctKeys, IsSorted, IsSorted-DistinctKeys,
}
use react_native_surrealdb.Protocol.{Operation, record_id, RecordId, RecordState}
use react_native_surrealdb.Client.{DurableClientState, OptimisticRecord}
use react_native_surrealdb.Client.Projection.{
  optimistic_operations, confirmed_projection, operation_record, apply_operations,
  optimistic_projection,
}
use react_native_surrealdb.Core.{NativeSyncError}
use react_native_surrealdb.Core.Json.{Json}
use react_native_surrealdb.Core.View.{Work, visit, charge_bytes, charge_value}
use react_native_surrealdb.Core.View.Effective.{
  effective_confirmed, charge_commits, visit_each, overlay, overlay_all, effective,
}

-- The value of a row that is not deleted.
abbrev pub present_value : Option (OptimisticRecord Json) → Option Json
present_value none = none
present_value (some (OptimisticRecord.present value base reference)) = some value
present_value (some (OptimisticRecord.deleted version)) = none

Agrees : BTreeMap (OptimisticRecord Json) → BTreeMap Json → Type 0
Agrees projection rows = (id : RecordId) → get id rows ≡ present_value (get id projection)

overlay-Agrees :
    (op : Operation Json) (projection : BTreeMap (OptimisticRecord Json)) (rows : BTreeMap Json)
    → Agrees projection rows
    → Agrees (insert (record_id op) (operation_record op) projection) (overlay op rows)
unfolding Agrees
overlay-Agrees (Operation.upsert k base value reference) projection rows h id = ground (
  arith,
  get-insert id k value rows,
  get-insert id k (OptimisticRecord.present value base reference) projection,
  h id,
)
overlay-Agrees (Operation.delete k base) projection rows h id =
    ground (
      arith,
      get-remove id k rows,
      get-insert id k (OptimisticRecord.deleted base) projection,
      h id,
    )

overlay_all-Agrees :
    (ops : List (Operation Json)) (projection : BTreeMap (OptimisticRecord Json))
    (rows : BTreeMap Json) (work : Work)
    → Agrees projection rows
    → Ensures (λ r. Agrees (apply_operations projection ops) r.0) (overlay_all ops rows work)
unfolding overlay_all apply_operations
overlay_all-Agrees [] projection rows work h = holds h
overlay_all-Agrees (op ∷ ops) projection rows work h = Ensures-bind (visit true work) λ next _.
    overlay_all-Agrees ops (insert (record_id op) (operation_record op) projection)
      (overlay op rows) next (overlay-Agrees op projection rows h)

Missing : BTreeMap (RecordState Json) → BTreeMap Json → Type 0
Missing confirmed rows = All (λ e. get e.0 rows ≡ none) confirmed

abbrev or_else : Option Json → Option Json → Option Json
or_else none b = b
or_else (some a) b = some a

get-confirmed_projection :
    (k : Bytes) (confirmed : BTreeMap (RecordState Json))
    → Absent k confirmed
    → get k (confirmed_projection confirmed) ≡ none
unfolding get confirmed_projection
get-confirmed_projection k [] h = refl
get-confirmed_projection k ((j, RecordState.absent) ∷ confirmed) h =
    get-confirmed_projection k confirmed h.1
get-confirmed_projection k ((j, RecordState.present value version reference) ∷ confirmed) h =
    ground (arith, h.0, get-confirmed_projection k confirmed h.1)
get-confirmed_projection k ((j, RecordState.tombstone version) ∷ confirmed) h =
    ground (arith, h.0, get-confirmed_projection k confirmed h.1)

Missing-insert :
    (confirmed : BTreeMap (RecordState Json)) (k : Bytes) (value : Json) (rows : BTreeMap Json)
    → Absent k confirmed
    → Missing confirmed rows
    → Missing confirmed (insert k value rows)
unfolding Missing
Missing-insert [] k value rows h m = tt
Missing-insert (e ∷ confirmed) k value rows h m = (
  ground (arith, get-insert e.0 k value rows, h.0, m.0),
  Missing-insert confirmed k value rows h.1 m.1,
)

Joins : BTreeMap (RecordState Json) → BTreeMap Json → BTreeMap Json → Type 0
Joins confirmed rows result =
    (id : RecordId)
    → get id result
      ≡ or_else (get id rows) (present_value (get id (confirmed_projection confirmed)))

effective_confirmed-Joins :
    (confirmed : BTreeMap (RecordState Json)) (rows : BTreeMap Json) (work : Work)
    → DistinctKeys confirmed
    → Missing confirmed rows
    → Ensures (λ r. Joins confirmed rows r.0) (effective_confirmed confirmed rows work)
unfolding effective_confirmed confirmed_projection Joins Missing get
effective_confirmed-Joins [] rows work d m = holds (λ id. ground arith)
effective_confirmed-Joins ((k, RecordState.present value version reference) ∷ confirmed) rows work d
      m =
    Ensures-bind (visit false work) λ visited _.
      Ensures-seq (fail_if (ltb 4096 (length k)) NativeSyncError.read_output_too_large) λ _.
        Ensures-bind (charge_bytes (length k) visited) λ named _.
          Ensures-bind (charge_value value 0 named) λ charged _.
            Ensures-map
              (effective_confirmed-Joins confirmed (insert k value rows) charged d.1
                (Missing-insert confirmed k value rows d.0 m.1))
              λ r h id. ground (arith, h id, get-insert id k value rows, m.0)
effective_confirmed-Joins ((k, RecordState.absent) ∷ confirmed) rows work d m =
    Ensures-bind (visit false work) λ visited _.
      Ensures-seq (fail_if (ltb 4096 (length k)) NativeSyncError.read_output_too_large) λ _.
        Ensures-bind (charge_bytes (length k) visited)
          λ named _. effective_confirmed-Joins confirmed rows named d.1 m.1
effective_confirmed-Joins ((k, RecordState.tombstone version) ∷ confirmed) rows work d m =
    Ensures-bind (visit false work) λ visited _.
      Ensures-seq (fail_if (ltb 4096 (length k)) NativeSyncError.read_output_too_large) λ _.
        Ensures-bind (charge_bytes (length k) visited) λ named _.
          Ensures-map (effective_confirmed-Joins confirmed rows named d.1 m.1)
            λ r h id. ground (arith, h id, m.0, get-confirmed_projection k confirmed d.0)

nothing_yet : (confirmed : BTreeMap (RecordState Json)) → Missing confirmed []
unfolding Missing get
nothing_yet [] = tt
nothing_yet (e ∷ confirmed) = (refl, nothing_yet confirmed)

-- When the effective rows of a state whose confirmed rows are in the order of their keys are
-- computed within the budget, each record has the value that it has in the optimistic projection
-- of the client, and none where it is deleted or missing there.
pub effective-Agrees :
    (state : DurableClientState Json) (work : Work)
    → IsSorted state.confirmed
    → Ensures
        (λ r. (id : RecordId) → get id r.0 ≡ present_value (get id (optimistic_projection state)))
        (effective state work)
unfolding effective optimistic_projection Agrees Joins Missing get
effective-Agrees state work s =
    Ensures-bind (effective_confirmed state.confirmed [] work) λ confirmed e.
      let distinct = IsSorted-DistinctKeys state.confirmed s in
      let joined =
        ensures_ok
          (effective_confirmed-Joins state.confirmed [] work distinct (nothing_yet state.confirmed))
          e in
      Ensures-bind
        (charge_commits (map (λ o. o.local_commit) state.outcomes ++ state.outbox) confirmed.1)
        λ charged _.
          Ensures-bind (visit_each (length state.outcomes + length state.outbox) charged)
            λ visited _.
              overlay_all-Agrees (optimistic_operations state)
                (confirmed_projection state.confirmed) confirmed.0 visited joined
