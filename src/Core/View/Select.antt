-- ===== src/Core/View/Select.antt =====
-- sync_view.rs: the loops that count the rows of a selector and take those of a page.
pub mod Paging
pub mod Chosen
use react_native_surrealdb.Base.{
  ℕ, zero, suc, ◌+◌, Bool, true, false, not, ◌&&◌, ◌||◌, Option, none, some, List, [], ◌∷◌, ◌++◌,
  map, length, is_empty, all, any, contains, last, ltb, leb, ◌==◌, ◌!=◌, nat_eq, compare, Ordering,
  if◌then◌else◌, Result, ok, err, ◌>>=◌, ◌>>◌, fail_if, ok_or,
}
use react_native_surrealdb.Base.Bytes.{Bytes, bytes_eq, compare_bytes, decimal}
use react_native_surrealdb.Base.BTreeMap.{BTreeMap, get, insert, keys}
use react_native_surrealdb.Protocol.{
  RecordId, CommitIdentity, Operation, record_id, ClientCommit, DurableOutcome,
}
use react_native_surrealdb.Client.{
  ConflictResolution, ResolvedCommit, DurableClientState, ClientRuntime,
}
use react_native_surrealdb.Client.Read.{ReadScopeV1, ReadMetadataV1, metadata}
use react_native_surrealdb.Core.{NativeSyncError}
use react_native_surrealdb.Core.Json.{Json}
use react_native_surrealdb.Core.ReadJournal.{ReadJournal, epoch_value, issued_view_cursor}
use react_native_surrealdb.Core.View.{
  Selector, Work, no_work, visit, charge_bytes, charge_value, path_valid, validate_selector, field,
  matches, max_input,
}
use react_native_surrealdb.Core.View.Effective.{effective}

unfoldable pub count_matches :
    Selector → BTreeMap Json → ℕ → Work → Result NativeSyncError (ℕ × Work)
count_matches selector [] count work = ok (count, work)
count_matches selector ((id, value) ∷ rows) count work = do
  visited ← visit false work
  found ← matches selector value visited
  count_matches selector rows (if found.0 then count + 1 else count) found.1

-- `id.0 <= *last`.
abbrev pub at_most : Bytes → Option Bytes → Bool
at_most id none = false
at_most id (some last_id) = elim (compare_bytes id last_id) [ Ordering.gt ↦ false | _ ↦ true ]

-- Whether a row is on the page's side of the cursor and matches.
unfoldable pub is_selected :
    Selector → Option Bytes → Bytes → Json → Work → Result NativeSyncError (Bool × Work)
is_selected selector after id value work =
    let found = matches selector value work in if at_most id after then ok (false, work) else found

-- One row of the loop, with what the rest of the loop gives for the places that are left.
abbrev pub select_next :
    Bool
    → ℕ
    → (ℕ → Result NativeSyncError (BTreeMap Json × Bool × Work))
    → Bytes × Json
    → Work
    → Result NativeSyncError (BTreeMap Json × Bool × Work)
select_next false limit next row work = next limit
select_next true zero next row work = ok ([], true, work)
select_next true (suc left) next row work = next left >>= λ rest. ok (row ∷ rest.0, rest.1, rest.2)

-- The rows that are taken, whether there are more, and the work.
unfoldable pub select :
    Selector
    → Option Bytes
    → BTreeMap Json
    → ℕ
    → Work
    → Result NativeSyncError (BTreeMap Json × Bool × Work)
select selector after [] limit work = ok ([], false, work)
select selector after ((id, value) ∷ rows) limit work = do
  visited ← visit false work
  found ← is_selected selector after id value visited
  select_next found.0 limit (λ left. select selector after rows left found.1) (id, value) found.1
