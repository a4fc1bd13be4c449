-- ===== src/Core/View/Summary.antt =====
-- sync_view.rs: summaries, the statuses of the commits that touch the rows of a page.
use react_native_surrealdb.Base.{
  ℕ, ◌+◌, Bool, true, false, Option, none, some, List, [], ◌∷◌, ◌++◌, length, contains, nat_eq,
  if◌then◌else◌, Result, ok, ◌>>=◌,
}
use react_native_surrealdb.Base.Bytes.{Bytes, bytes_eq, decimal}
use react_native_surrealdb.Base.BTreeMap.{BTreeMap, get, insert, keys}
use react_native_surrealdb.Protocol.{
  RecordId, CommitIdentity, Operation, record_id, ClientCommit, DurableOutcome,
}
use react_native_surrealdb.Client.{ConflictResolution, ResolvedCommit, DurableClientState}
use react_native_surrealdb.Core.{NativeSyncError}
use react_native_surrealdb.Core.Json.{Json}
use react_native_surrealdb.Core.View.{Work, visit, charge_bytes}

-- The statuses of one record's commits, in the order of the history.
pub record Accepted : Type 0 where
  pub identity : CommitIdentity
  pub sequence : Bytes
  pub covered_by_reset : Bool

pub record Conflict : Type 0 where
  pub identity : CommitIdentity
  pub resolution : Option ConflictResolution

pub record Summary : Type 0 where
  pub pending : List CommitIdentity
  pub conflicts : List Conflict
  pub accepted : List Accepted

abbrev pub empty_summary : Summary
empty_summary = record { pending = []; conflicts = []; accepted = [] }

abbrev pub edit_summary : (Summary → Summary) → RecordId → BTreeMap Summary → BTreeMap Summary
edit_summary edit id rows = elim (get id rows) [
  | none ↦ rows
  | some found ↦ insert id (edit found) rows
]

abbrev pub identity_size : CommitIdentity → ℕ
identity_size identity = length identity.client_commit_id + length identity.fingerprint

unfoldable pub summarize_pending :
    CommitIdentity
    → List (Operation Json)
    → BTreeMap Summary
    → Work
    → Result NativeSyncError (BTreeMap Summary × Work)
summarize_pending identity [] rows work = ok (rows, work)
summarize_pending identity (op ∷ ops) rows work = do
  visited ← visit true work
  charged ←
      (if contains (record_id op) (keys rows)
        then charge_bytes (identity_size identity) visited
        else ok visited)
  summarize_pending identity ops
      (edit_summary (λ row. record row { pending = row.pending ++ identity ∷ [] }) (record_id op)
        rows)
      charged

unfoldable pub summarize_outbox :
    List (ClientCommit Json)
    → BTreeMap Summary
    → Work
    → Result NativeSyncError (BTreeMap Summary × Work)
summarize_outbox [] rows work = ok (rows, work)
summarize_outbox (commit ∷ commits) rows work = do
  visited ← visit true work
  done ← summarize_pending commit.identity commit.operations rows visited
  summarize_outbox commits done.0 done.1

-- A replacement's identity is charged as well.
abbrev pub charge_resolution : Option ConflictResolution → Work → Result NativeSyncError Work
charge_resolution (some (ConflictResolution.keep_local replacement)) work =
    charge_bytes (identity_size replacement) work
charge_resolution (some (ConflictResolution.merge replacement)) work =
    charge_bytes (identity_size replacement) work
charge_resolution _ work = ok work

abbrev pub outcome_summary : ResolvedCommit Json → DurableOutcome Json → Summary → Summary
outcome_summary resolved (DurableOutcome.accepted identity sequence mappings) row = record row {
  accepted =
      row.accepted
      ++ (record {
        identity = resolved.local_commit.identity;
        sequence = decimal sequence;
        covered_by_reset = resolved.covered_by_reset;
      })
        ∷ [];
}
outcome_summary resolved (DurableOutcome.conflict identity id authoritative) row = record row {
  conflicts =
      row.conflicts
      ++ (record { identity = resolved.local_commit.identity; resolution = resolved.resolution })
        ∷ [];
}
outcome_summary resolved (DurableOutcome.rejected identity reason) row = row

abbrev pub charge_resolved : ResolvedCommit Json → Bool → Work → Result NativeSyncError Work
charge_resolved resolved false work = ok work
charge_resolved resolved true work =
    charge_bytes (identity_size resolved.local_commit.identity) work
    >>= charge_resolution resolved.resolution

unfoldable pub summarize_resolved :
    ResolvedCommit Json
    → List (Operation Json)
    → BTreeMap Summary
    → Work
    → Result NativeSyncError (BTreeMap Summary × Work)
summarize_resolved resolved [] rows work = ok (rows, work)
summarize_resolved resolved (op ∷ ops) rows work = do
  visited ← visit true work
  charged ← charge_resolved resolved (contains (record_id op) (keys rows)) visited
  summarize_resolved resolved ops
      (edit_summary (outcome_summary resolved resolved.outcome) (record_id op) rows) charged

unfoldable pub summarize_outcomes :
    List (ResolvedCommit Json)
    → BTreeMap Summary
    → Work
    → Result NativeSyncError (BTreeMap Summary × Work)
summarize_outcomes [] rows work = ok (rows, work)
summarize_outcomes (resolved ∷ outcomes) rows work = do
  visited ← visit true work
  done ← summarize_resolved resolved resolved.local_commit.operations rows visited
  summarize_outcomes outcomes done.0 done.1

abbrev pub empty_summaries : List RecordId → BTreeMap Summary
empty_summaries [] = []
empty_summaries (id ∷ ids) = insert id empty_summary (empty_summaries ids)

unfoldable pub summaries :
    DurableClientState Json
    → List RecordId
    → Work
    → Result NativeSyncError (BTreeMap Summary × Work)
summaries state ids work = do
  pending ← summarize_outbox state.outbox (empty_summaries ids) work
  summarize_outcomes state.outcomes pending.0 pending.1
