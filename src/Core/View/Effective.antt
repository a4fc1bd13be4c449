-- ===== src/Core/View/Effective.antt =====
-- sync_view.rs: effective, the present rows of a state, which is charged for all of its history.
pub mod Rows
use react_native_surrealdb.Base.{
  ℕ, zero, suc, ◌+◌, Bool, true, false, Option, none, some, List, [], ◌∷◌, ◌++◌, map, length, ltb,
  Result, ok, err, ◌>>=◌, ◌>>◌, fail_if,
}
use react_native_surrealdb.Base.Bytes.{Bytes}
use react_native_surrealdb.Base.BTreeMap.{BTreeMap, insert, remove}
use react_native_surrealdb.Protocol.{Operation, record_id, ClientCommit, RecordState}
use react_native_surrealdb.Client.{DurableClientState}
use react_native_surrealdb.Client.Projection.{optimistic_operations}
use react_native_surrealdb.Core.{NativeSyncError}
use react_native_surrealdb.Core.Json.{Json}
use react_native_surrealdb.Core.View.{Work, visit, charge_bytes, charge_value}

unfoldable pub effective_confirmed :
    BTreeMap (RecordState Json)
    → BTreeMap Json
    → Work
    → Result NativeSyncError (BTreeMap Json × Work)
effective_confirmed [] rows work = ok (rows, work)
effective_confirmed ((id, RecordState.present value version reference) ∷ confirmed) rows work = do
  visited ← visit false work
  fail_if (ltb 4096 (length id)) NativeSyncError.read_output_too_large
  named ← charge_bytes (length id) visited
  charged ← charge_value value 0 named
  effective_confirmed confirmed (insert id value rows) charged
effective_confirmed ((id, _) ∷ confirmed) rows work = do
  visited ← visit false work
  fail_if (ltb 4096 (length id)) NativeSyncError.read_output_too_large
  named ← charge_bytes (length id) visited
  effective_confirmed confirmed rows named

abbrev pub charge_upsert : Operation Json → Work → Result NativeSyncError Work
charge_upsert (Operation.upsert id base value reference) work = charge_value value 0 work
charge_upsert (Operation.delete id base) work = ok work

unfoldable pub charge_operations : List (Operation Json) → Work → Result NativeSyncError Work
charge_operations [] work = ok work
charge_operations (op ∷ ops) work = do
  visited ← visit true work
  named ← charge_bytes (length (record_id op)) visited
  charged ← charge_upsert op named
  charge_operations ops charged

unfoldable pub charge_commits : List (ClientCommit Json) → Work → Result NativeSyncError Work
charge_commits [] work = ok work
charge_commits (commit ∷ commits) work = do
  visited ← visit true work
  named ← charge_bytes (length commit.identity.client_commit_id) visited
  printed ← charge_bytes (length commit.identity.fingerprint) named
  charged ← charge_operations commit.operations printed
  charge_commits commits charged

unfoldable pub visit_each : ℕ → Work → Result NativeSyncError Work
visit_each zero work = ok work
visit_each (suc n) work = visit true work >>= visit_each n

abbrev pub overlay : Operation Json → BTreeMap Json → BTreeMap Json
overlay (Operation.upsert id base value reference) rows = insert id value rows
overlay (Operation.delete id base) rows = remove id rows

unfoldable pub overlay_all :
    List (Operation Json) → BTreeMap Json → Work → Result NativeSyncError (BTreeMap Json × Work)
overlay_all [] rows work = ok (rows, work)
overlay_all (op ∷ ops) rows work = visit true work >>= overlay_all ops (overlay op rows)

unfoldable pub effective :
    DurableClientState Json → Work → Result NativeSyncError (BTreeMap Json × Work)
effective state work = do
  confirmed ← effective_confirmed state.confirmed [] work
  charged ← charge_commits (map (λ o. o.local_commit) state.outcomes ++ state.outbox) confirmed.1
  visited ← visit_each (length state.outcomes + length state.outbox) charged
  overlay_all (optimistic_operations state) confirmed.0 visited
