-- ===== src/Core/View/Page.antt =====
-- sync_view.rs: read, which counts the rows that a selector matches or returns a page of them.
-- serde_json and the random token of a cursor are parameters.
use react_native_surrealdb.Base.{
  ℕ, Bool, true, false, not, ◌&&◌, ◌||◌, Option, none, some, List, [], ◌∷◌, length, is_empty, all,
  any, last, ltb, leb, ◌==◌, ◌!=◌, nat_eq, if◌then◌else◌, Result, ok, ◌>>=◌, ◌>>◌, fail_if, ok_or,
}
use react_native_surrealdb.Base.Bytes.{Bytes, bytes_eq, decimal}
use react_native_surrealdb.Base.BTreeMap.{BTreeMap, get, keys}
use react_native_surrealdb.Protocol.{RecordId}
use react_native_surrealdb.Client.{ClientRuntime}
use react_native_surrealdb.Client.Read.{ReadScopeV1, ReadMetadataV1, metadata}
use react_native_surrealdb.Core.{NativeSyncError}
use react_native_surrealdb.Core.Json.{Json}
use react_native_surrealdb.Core.ReadJournal.{ReadJournal, epoch_value, issued_view_cursor}
use react_native_surrealdb.Core.View.{
  Selector, Work, no_work, charge_value, path_valid, validate_selector, field, max_input,
}
use react_native_surrealdb.Core.View.Effective.{effective}
use react_native_surrealdb.Core.View.Summary.{Summary, summaries}
use react_native_surrealdb.Core.View.Select.{count_matches, select}

-- A page's projection, limit and cursor.
pub record PageRequest : Type 0 where
  pub projection : List (List Bytes)
  pub limit : ℕ
  pub cursor : Option Bytes

pub data RequestKind : Type 0 where
  count_rows : RequestKind
  page_of : PageRequest → RequestKind

pub record Request : Type 0 where
  pub protocol_version : ℕ
  pub selector : Selector
  pub kind : RequestKind

-- With the scope as the JSON that was parsed.
pub record Cursor : Type 0 where
  pub token : Bytes
  pub process_epoch : Bytes
  pub revision : Bytes
  pub scope : Json
  pub query : Bytes
  pub last_record_id : Bytes

-- What the read calls of serde_json and uuid: requests and cursors are parsed, cursors and queries
-- written; a scope is written with its counters in decimal; JSON values are compared.
pub record Serde : Type 0 where
  pub read_request : Bytes → Option Request
  pub read_cursor : Bytes → Option Cursor
  pub write_cursor : Cursor → Option Bytes
  pub write_query : Selector → List (List Bytes) → ℕ → Option Bytes
  pub write_scope : ReadScopeV1 → Json
  pub json_eq : Json → Json → Bool
  pub token : Bytes

pub record FieldValue : Type 0 where
  pub path : List Bytes
  pub value : Option Json

pub record PageRow : Type 0 where
  pub record_id : RecordId
  pub fields : List FieldValue
  pub summary : Option Summary

pub data Answer : Type 0 where
  stale_cursor : ReadMetadataV1 → Answer
  counted : ℕ → ReadMetadataV1 → Work → Answer
  paged : List PageRow → Option Bytes → ReadMetadataV1 → Work → Answer

abbrev pub charge_found : Option Json → Work → Result NativeSyncError Work
charge_found none work = ok work
charge_found (some value) work = charge_value value 0 work

unfoldable pub project_fields :
    List (List Bytes) → Json → Work → Result NativeSyncError (List FieldValue × Work)
project_fields [] value work = ok ([], work)
project_fields (path ∷ projection) value work = do
  found ← field path value work
  charged ← charge_found found.0 found.1
  rest ← project_fields projection value charged
  ok ((record { path = path; value = found.0 }) ∷ rest.0, rest.1)

unfoldable pub project_rows :
    List (List Bytes)
    → BTreeMap Summary
    → BTreeMap Json
    → Work
    → Result NativeSyncError (List PageRow × Work)
project_rows projection summary [] work = ok ([], work)
project_rows projection summary ((id, value) ∷ rows) work = do
  fields ← project_fields projection value work
  rest ← project_rows projection summary rows fields.1
  ok ((record { record_id = id; fields = fields.0; summary = get id summary }) ∷ rest.0, rest.1)

abbrev pub same_path : List Bytes → List Bytes → Bool
same_path [] [] = true
same_path [] (other ∷ others) = false
same_path (name ∷ names) [] = false
same_path (name ∷ names) (other ∷ others) = name == other && same_path names others

-- `unique.len() == projection.len()`.
abbrev pub nodup_paths : List (List Bytes) → Bool
nodup_paths [] = true
nodup_paths (path ∷ paths) = not (any (λ other. same_path path other) paths) && nodup_paths paths

-- The shape of a page request.
unfoldable pub page_valid : PageRequest → Bool
page_valid page =
    leb 1 page.limit
    && leb page.limit 64
    && not (is_empty page.projection)
    && leb (length page.projection) 16
    && all path_valid page.projection
    && nodup_paths page.projection

module _ (serde : Serde) where
  unfoldable pub query_of : Selector → RequestKind → Result NativeSyncError Bytes
  query_of selector RequestKind.count_rows = ok []
  query_of selector (RequestKind.page_of page) = do
    fail_if (not (page_valid page)) NativeSyncError.invalid_input
    ok_or (serde.write_query selector page.projection page.limit) NativeSyncError.internal

  -- A cursor of another epoch, revision or scope, or one that was not issued here, is stale, which
  -- is `none`.
  unfoldable pub resume_from :
      ClientRuntime Json
      → ReadJournal
      → Bytes
      → Bytes
      → Cursor
      → Result NativeSyncError (Option Bytes)
  resume_from runtime journal query raw cursor =
      if cursor.process_epoch != epoch_value journal.epoch
        || cursor.revision != decimal runtime.state.revision
        || not (serde.json_eq cursor.scope (serde.write_scope (metadata runtime.state).scope))
        || not (issued_view_cursor journal raw)
      then ok none
      else fail_if (cursor.query != query) NativeSyncError.invalid_input
        >> ok (some cursor.last_record_id)

  unfoldable pub resume :
      ClientRuntime Json → ReadJournal → Bytes → Bytes → Result NativeSyncError (Option Bytes)
  resume runtime journal query raw = do
    fail_if (ltb 8192 (length raw)) NativeSyncError.invalid_input
    cursor ← ok_or (serde.read_cursor raw) NativeSyncError.invalid_input
    written ← ok_or (serde.write_cursor cursor) NativeSyncError.internal
    fail_if (written != raw) NativeSyncError.invalid_input
    resume_from runtime journal query raw cursor

  unfoldable pub count_answer : ClientRuntime Json → Selector → Result NativeSyncError Answer
  count_answer runtime selector = do
    rows ← effective runtime.state no_work
    done ← count_matches selector rows.0 0 rows.1
    ok (Answer.counted done.0 (metadata runtime.state) done.1)

  -- The cursor of the next page.
  unfoldable pub next_cursor :
      ClientRuntime Json
      → ReadJournal
      → Bytes
      → BTreeMap Json
      → Bool
      → Result NativeSyncError (Option Bytes)
  next_cursor runtime journal query selected false = ok none
  next_cursor runtime journal query selected true = do
    row ← ok_or (last selected) NativeSyncError.internal
    text ←
        ok_or
          (serde.write_cursor (record {
            token = serde.token;
            process_epoch = epoch_value journal.epoch;
            revision = decimal runtime.state.revision;
            scope = serde.write_scope (metadata runtime.state).scope;
            query = query;
            last_record_id = row.0;
          }))
          NativeSyncError.internal
    fail_if (ltb 8192 (length text)) NativeSyncError.read_output_too_large
    ok (some text)

  unfoldable pub page_answer :
      ClientRuntime Json
      → ReadJournal
      → Selector
      → PageRequest
      → Bytes
      → Option Bytes
      → Result NativeSyncError Answer
  page_answer runtime journal selector page query after = do
    rows ← effective runtime.state no_work
    selected ← select selector after rows.0 page.limit rows.1
    summary ← summaries runtime.state (keys selected.0) selected.2
    projected ← project_rows page.projection summary.0 selected.0 summary.1
    cursor ← next_cursor runtime journal query selected.0 selected.1
    ok (Answer.paged projected.0 cursor (metadata runtime.state) projected.1)

  abbrev pub resumed :
      ClientRuntime Json
      → ReadJournal
      → Selector
      → PageRequest
      → Bytes
      → Option Bytes
      → Result NativeSyncError Answer
  resumed runtime journal selector page query none =
      ok (Answer.stale_cursor (metadata runtime.state))
  resumed runtime journal selector page query (some after) =
      page_answer runtime journal selector page query (some after)

  -- What is answered, once the query is known.
  abbrev pub answer_request :
      ClientRuntime Json
      → ReadJournal
      → Selector
      → RequestKind
      → Bytes
      → Result NativeSyncError Answer
  answer_request runtime journal selector RequestKind.count_rows query =
      count_answer runtime selector
  answer_request runtime journal selector (RequestKind.page_of page) query = elim page.cursor [
    | none ↦ page_answer runtime journal selector page query none
    | some raw ↦ resume runtime journal query raw >>= resumed runtime journal selector page query
  ]

  unfoldable pub read : ClientRuntime Json → ReadJournal → Bytes → Result NativeSyncError Answer
  read runtime journal input = do
    fail_if (ltb max_input (length input)) NativeSyncError.invalid_input
    request ← ok_or (serde.read_request input) NativeSyncError.invalid_input
    fail_if (request.protocol_version != 1) NativeSyncError.invalid_input
    validate_selector request.selector
    fail_if
        (ltb 4096 (length runtime.state.partition_id)
          || ltb 4096 (length runtime.state.requested_scope))
        NativeSyncError.read_output_too_large
    query ← query_of request.selector request.kind
    fail_if (ltb 4096 (length query)) NativeSyncError.invalid_input
    answer_request runtime journal request.selector request.kind query
