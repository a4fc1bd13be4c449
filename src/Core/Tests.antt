-- ===== src/Core/Tests.antt =====
-- Concrete runs of the core's bounded helpers: the theorems at sample journals, queues and views.
use react_native_surrealdb.Base.{
  ℕ, ◌+◌, ◌≤◌, ◌≡◌, ◌↔◌, refl, true, none, some, List, [], ◌∷◌, ◌++◌, map, length, length-append,
  take, min, ltb, leb, nat_eq, false, ok, Ensures, arith,
}
use react_native_surrealdb.Base.Bytes.{bytes as ascii}
use react_native_surrealdb.Base.BTreeMap.{BTreeMap, get}
use react_native_surrealdb.Protocol.{BaseVersion, Operation, ClientCommit, RecordId, RecordState}
use react_native_surrealdb.Client.{DurableClientState, ClientRuntime, empty}
use react_native_surrealdb.Client.Read.{CommittedReadBatchV1, metadata}
use react_native_surrealdb.Client.Projection.{optimistic_projection}
use react_native_surrealdb.Core.ReadJournal.{
  Batch, JournalEpoch, ReadJournal, epoch_value, record_batch, remember_view_cursor,
  issued_view_cursor, max_view_cursor_bytes, changes_from,
}
use react_native_surrealdb.Core.ReadJournal as Journal
use react_native_surrealdb.Core.ReadJournal.Bounds.{IsBounded, record_batch-IsBounded}
use react_native_surrealdb.Core.ReadJournal.Cursors.{remember_view_cursor-IsBounded}
use react_native_surrealdb.Core.ReadJournal.Numbers.{epoch_value-injective}
use react_native_surrealdb.Core.ReadJournal.Replay.{IsJournal}
use react_native_surrealdb.Core.ReadJournal.Answer.{Answers}
use react_native_surrealdb.Core.ReadJournal.Reader.{
  changes_from-Answers, catch_up, catch_up-current,
}
use react_native_surrealdb.Core.RuntimeState.{RuntimeState}
use react_native_surrealdb.Core.Queue.{NativePendingWindow, Serializer, window, admits}
use react_native_surrealdb.Core.Queue.Fits.{admits_iff}
use react_native_surrealdb.Core.Queue.Window.{QuotesTexts, raw_of, strings_size, window-Shown}
use react_native_surrealdb.Core.Diagnostics.{Phase}
use react_native_surrealdb.Core.Diagnostics.Saturation.{record_all, record_all-min, total, max_u64}
use react_native_surrealdb.Core.Json.{Json}
use react_native_surrealdb.Core.View.{Selector, no_work}
use react_native_surrealdb.Core.View.Effective.{effective}
use react_native_surrealdb.Core.View.Effective.Rows.{present_value, effective-Agrees}
use react_native_surrealdb.Core.View.Select.{count_matches, select}
use react_native_surrealdb.Core.View.Select.Chosen.{
  Selects, OnPage, Filtered, count_matches-Chosen, select-Chosen,
}

-- A journal of records whose values are numbers, at its second revision.
abbrev state : DurableClientState ℕ
state = record (empty (ascii "home") (ascii "phone") (ascii "family") 1) { revision = 2 }

abbrev runtime : ClientRuntime ℕ
runtime = record { state = state }

-- A serializer that forgets what it writes.
abbrev json : Journal.Json ℕ ℕ
json = record {
  write_batch = λ batch. some (ascii "{}");
  read_snapshot = λ runtime. some 0;
  read_cursor = λ text. none;
  read_batch = λ text. some 1;
}

abbrev first_epoch : JournalEpoch
first_epoch = record { prefix = ascii "p"; generation = 3 }

abbrev journal : ReadJournal
journal = record {
  epoch = first_epoch;
  batches =
      (record { before = 0; revision = 1; json = ascii "{}" })
      ∷ (record { before = 1; revision = 2; json = ascii "{}" })
      ∷ [];
  bytes = 4;
  view_cursors = [];
}

journal-IsBounded : IsBounded journal
journal-IsBounded = record {
  counted = refl;
  few = omega arith;
  small = omega arith;
  few_cursors = omega arith;
  small_cursors = omega arith;
}

journal-IsJournal : IsJournal json 2 journal
journal-IsJournal = record {
  bounded = journal-IsBounded;
  linked = (omega arith, refl, (omega arith, refl, tt));
  readable = ((1, refl), ((1, refl), tt));
}

abbrev batch : CommittedReadBatchV1 ℕ
batch = record {
  protocol_version = 1;
  before_revision = 2;
  revision = 3;
  metadata = metadata state;
  changes = [];
}

record_batch-IsBounded_example :
    (next : ReadJournal) × (record_batch json journal (some batch) ≡ some next) × IsBounded next
record_batch-IsBounded_example = record_batch-IsBounded json journal (some batch) journal-IsBounded

remember_view_cursor-IsBounded_example :
    let next = remember_view_cursor journal (ascii "cursor") in
    IsBounded next
    × (issued_view_cursor next (ascii "cursor")
        ≡ leb (length (ascii "cursor")) max_view_cursor_bytes)
    × (next.batches ≡ journal.batches)
remember_view_cursor-IsBounded_example =
    remember_view_cursor-IsBounded journal (ascii "cursor") journal-IsBounded

epoch_value-injective_example : first_epoch.generation ≡ first_epoch.generation
epoch_value-injective_example =
    epoch_value-injective first_epoch first_epoch.generation (omega arith) (omega arith) refl

changes_from-Answers_example :
    Answers json journal runtime
      (ascii "p:3")
      1
      5
      (changes_from json journal runtime (ascii "p:3") 1 5)
changes_from-Answers_example =
    changes_from-Answers json journal runtime (ascii "p:3") 1 5 0 journal-IsJournal (omega arith)
      refl

catch_up-current_example : catch_up json journal runtime 1 2 0 ≡ some 2
catch_up-current_example =
    catch_up-current json 2 journal runtime 1 0 0 journal-IsJournal (omega arith) (omega arith) refl
      (omega arith) (omega arith)

abbrev note : ClientCommit ℕ
note = record {
  identity = record { client_commit_id = ascii "c1"; fingerprint = ascii "f1" };
  operations = Operation.upsert (ascii "local:1") BaseVersion.absent 7 none ∷ [];
}

abbrev slot : RuntimeState ℕ
slot = record {
  runtime = some runtime;
  journal = journal;
  subscription_journal = record { epoch = first_epoch; histories = [] };
  recovery_required = false;
}

-- A commit is a digit, and a string is quoted without escapes.
abbrev digits : Serializer ℕ
digits = record {
  write_value = λ n. (((48 + n) ∷ []) ∷ [], true);
  write_text = λ text. (ascii "'" ∷ text ∷ ascii "'" ∷ [], true);
}

digits-QuotesTexts : QuotesTexts digits
digits-QuotesTexts text = omega (arith, length-append text (ascii "'"))

admits_iff_example : (admits digits (1 ∷ 2 ∷ []) 3 4 20 ≡ ok tt) ↔ (
    (shown : NativePendingWindow) × (window digits 9 (1 ∷ 2 ∷ 3 ∷ []) 4 20 ≡ ok shown)
    × (shown.remaining_count ≡ 0))
admits_iff_example = admits_iff digits (1 ∷ 2 ∷ []) 3 9 4 20

window-Shown_example :
    Ensures
      (λ w.
        (shown : List ℕ) × (rest : List ℕ) × (1 ∷ 2 ∷ 3 ∷ [] ≡ shown ++ rest)
        × (w.commits ≡ map (raw_of digits) shown)
        × (length shown ≤ 4)
        × (w.bytes ≡ 2 + strings_size digits w.commits)
        × (w.bytes ≤ 8)
        × (w.remaining_count ≡ length rest))
      (window digits 9 (1 ∷ 2 ∷ 3 ∷ []) 4 8)
window-Shown_example = window-Shown digits digits-QuotesTexts (1 ∷ 2 ∷ 3 ∷ []) 9 4 8

-- A state with a confirmed row and a pending one.
abbrev notes : DurableClientState Json
notes = record (empty (ascii "home") (ascii "phone") (ascii "family") 1) {
  confirmed = (ascii "note:1", RecordState.present (Json.string (ascii "old")) 4 none) ∷ [];
  outbox =
      (record {
        identity = record { client_commit_id = ascii "c1"; fingerprint = ascii "f1" };
        operations =
            Operation.upsert (ascii "note:2") BaseVersion.absent (Json.string (ascii "new")) none
            ∷ [];
      })
      ∷ [];
}

effective-Agrees_example :
    Ensures
      (λ r. (id : RecordId) → get id r.0 ≡ present_value (get id (optimistic_projection notes)))
      (effective notes no_work)
effective-Agrees_example = effective-Agrees notes no_work (tt, tt)

abbrev rows : BTreeMap Json
rows =
    (ascii "note:1", Json.string (ascii "old"))
    ∷ (ascii "note:2", Json.string (ascii "new"))
    ∷ (ascii "note:3", Json.string (ascii "new"))
    ∷ []

abbrev is_new : Selector
is_new = Selector.eq [] (Json.string (ascii "new"))

count_matches-Chosen_example :
    Ensures
      (λ r.
        (chosen : BTreeMap Json) × Filtered (λ row. Selects is_new row.1) rows chosen
        × (r.0 ≡ 0 + length chosen))
      (count_matches is_new rows 0 no_work)
count_matches-Chosen_example = count_matches-Chosen is_new rows 0 no_work

select-Chosen_example :
    Ensures
      (λ r.
        (chosen : BTreeMap Json) × Filtered (OnPage is_new (some (ascii "note:2"))) rows chosen
        × (r.0 ≡ take 1 chosen)
        × (r.1 ≡ ltb 1 (length chosen)))
      (select is_new (some (ascii "note:2")) rows 1 no_work)
select-Chosen_example = select-Chosen is_new (some (ascii "note:2")) rows 1 no_work

-- A phase whose nanoseconds are close to the largest counter.
abbrev nearly_full : Phase
nearly_full = record { count = 1; ns = 18446744073709551610; latest_ns = 0 }

abbrev measured : List ℕ
measured = 4 ∷ 9 ∷ []

record_all-min_example :
    ((record_all nearly_full measured).count ≡ min (nearly_full.count + length measured) max_u64)
    × ((record_all nearly_full measured).ns ≡ min (nearly_full.ns + total measured) max_u64)
record_all-min_example = record_all-min measured nearly_full (omega arith) (omega arith)
