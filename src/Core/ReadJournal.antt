-- ===== src/Core/ReadJournal.antt =====
-- sync_read.rs: the bounded journal of committed read batches, which a reader with a cursor replays.
-- serde_json is a parameter, as is the random prefix of an epoch.
pub mod Bounds
pub mod Cursors
pub mod Numbers
pub mod Replay
pub mod Answer
pub mod Reader
use react_native_surrealdb.Base.{
  ℕ, zero, suc, ◌+◌, ◌*◌, ◌-◌, Bool, true, false, not, ◌&&◌, ◌||◌, Option, none, some, List, [],
  ◌∷◌, ◌++◌, length, take, is_empty, any, ltb, leb, DecEq, ◌==◌, ◌!=◌, nat_eq, checked_add, u64_mod,
  if◌then◌else◌, Result, ok, err, ◌>>=◌, ◌>>◌, fail_if, ok_or,
}
use react_native_surrealdb.Base.Bytes.{Bytes, bytes as ascii, bytes_eq, decimal}
use react_native_surrealdb.Client.{ClientRuntime}
use react_native_surrealdb.Client.Read.{CommittedReadBatchV1}
use react_native_surrealdb.Core.{NativeSyncError}

abbrev pub max_batches : ℕ
max_batches = 128

abbrev pub max_journal_bytes : ℕ
max_journal_bytes = 4194304

abbrev pub max_view_cursors : ℕ
max_view_cursors = 64

abbrev pub max_view_cursor_bytes : ℕ
max_view_cursor_bytes = 262144

-- The reader's cursor, as it is parsed and as it is written.
pub record Cursor : Type 0 where
  pub process_epoch : Bytes
  pub revision : Bytes

pub record Batch : Type 0 where
  pub before : ℕ
  pub revision : ℕ
  pub json : Bytes

pub record JournalEpoch : Type 0 where
  pub prefix : Bytes
  pub generation : ℕ

pub record ReadJournal : Type 0 where
  pub epoch : JournalEpoch
  pub batches : List Batch
  pub bytes : ℕ
  pub view_cursors : List Bytes

-- `JournalEpoch::value`.
unfoldable pub epoch_value : JournalEpoch → Bytes
epoch_value self = self.prefix ++ ascii ":" ++ decimal self.generation

unfoldable pub advance : JournalEpoch → Result NativeSyncError JournalEpoch
advance self = do
  generation ← ok_or (checked_add self.generation 1) NativeSyncError.recovery_required
  ok (record self { generation = generation })

unfoldable pub rotate : ReadJournal → Result NativeSyncError ReadJournal
rotate self = do
  epoch ← advance self.epoch
  ok (record { epoch = epoch; batches = []; bytes = 0; view_cursors = [] })

unfoldable pub cursor_at : ReadJournal → ℕ → Cursor
cursor_at self revision = record {
  process_epoch = epoch_value self.epoch;
  revision = decimal revision;
}

unfoldable pub issued_view_cursor : ReadJournal → Bytes → Bool
issued_view_cursor self cursor = any (λ issued. issued == cursor) self.view_cursors

abbrev pub total_length : List Bytes → ℕ
total_length [] = 0
total_length (text ∷ texts) = length text + total_length texts

-- The condition of the loop that makes room.
abbrev pub view_cursors_full : ℕ → List Bytes → Bool
view_cursors_full size cursors =
    leb max_view_cursors (length cursors) || ltb max_view_cursor_bytes (total_length cursors + size)

-- `none` when the queue ran empty and the cursor still does not fit.
unfoldable pub make_room : ℕ → List Bytes → Option (List Bytes)
make_room size [] = if view_cursors_full size [] then none else some []
make_room size (oldest ∷ cursors) =
    let later = make_room size cursors in
    if view_cursors_full size (oldest ∷ cursors) then later else some (oldest ∷ cursors)

-- The queue after room was made, or after it ran empty.
abbrev pub remembered : ReadJournal → Bytes → Option (List Bytes) → ReadJournal
remembered self cursor none = record self { view_cursors = [] }
remembered self cursor (some kept) = record self { view_cursors = kept ++ cursor ∷ [] }

unfoldable pub remember_view_cursor : ReadJournal → Bytes → ReadJournal
remember_view_cursor self cursor =
    remembered self cursor (make_room (length cursor) self.view_cursors)

-- The condition of the loop that evicts batches.
abbrev pub journal_full : ℕ → ℕ → List Batch → Bool
journal_full size bytes batches =
    leb max_batches (length batches) || ltb max_journal_bytes (bytes + size)

-- The batches that are left and their bytes. On an empty queue with a full journal the source's
-- loop never ends, which is `none`.
unfoldable pub evict : ℕ → ℕ → List Batch → Option (List Batch × ℕ)
evict size bytes [] = if journal_full size bytes [] then none else some ([], bytes)
evict size bytes (oldest ∷ batches) =
    let later = evict size (bytes - length oldest.json) batches in
    if journal_full size bytes (oldest ∷ batches) then later else some (oldest ∷ batches, bytes)

-- `s.parse::<u64>()`: an optional plus sign and digits, checked.
abbrev pub is_digit : ℕ → Bool
is_digit c = leb 48 c && ltb c 58

unfoldable pub parse_digits : ℕ → Bytes → Option ℕ
parse_digits value [] = some value
parse_digits value (c ∷ text) =
    let rest = parse_digits (value * 10 + (c - 48)) text in
    if is_digit c && ltb (value * 10 + (c - 48)) u64_mod then rest else none

unfoldable pub parse_u64 : Bytes → Option ℕ
parse_u64 [] = none
parse_u64 (c ∷ text) =
    if c == 43
    then (if is_empty text then none else parse_digits 0 text)
    else parse_digits 0 (c ∷ text)

-- `.position(|batch| batch.before == revision)` and `.skip(…)`: what starts at the revision.
abbrev pub starting_at : ℕ → List Batch → List Batch
starting_at revision [] = []
starting_at revision (batch ∷ batches) =
    if batch.before == revision then batch ∷ batches else starting_at revision batches

-- What `changes` answers, before it is written as JSON.
pub data Changes (J : Type 0) : Type 0 where
  reset_required : J → Cursor → Changes J
  batches : List J → Cursor → Changes J

-- What the journal calls of serde_json: a batch with its counters as decimal strings, a snapshot in
-- the same form, and the parsers of a cursor and of a stored batch.
pub record Json (V J : Type 0) : Type 0 where
  pub write_batch : CommittedReadBatchV1 V → Option Bytes
  pub read_snapshot : ClientRuntime V → Option J
  pub read_cursor : Bytes → Option Cursor
  pub read_batch : Bytes → Option J

module _ {V J : Type 0} (json : Json V J) where
  unfoldable pub bootstrap : ReadJournal → ClientRuntime V → Result NativeSyncError (J × Cursor)
  bootstrap self runtime = do
    snapshot ← ok_or (json.read_snapshot runtime) NativeSyncError.internal
    ok (snapshot, cursor_at self runtime.state.revision)

  -- A batch whose text is too large empties the journal.
  abbrev pub bounded_text : Option Bytes → Option Bytes
  bounded_text none = none
  bounded_text (some text) = if leb (length text) max_journal_bytes then some text else none

  abbrev pub push_batch :
      ReadJournal → CommittedReadBatchV1 V → Bytes → Option (List Batch × ℕ) → Option ReadJournal
  push_batch self batch text none = none
  push_batch self batch text (some (kept, bytes)) = some (record self {
    batches =
        kept
        ++ (record { before = batch.before_revision; revision = batch.revision; json = text }) ∷ [];
    bytes = bytes + length text;
  })

  -- `none` is a call that does not return.
  unfoldable pub record_batch : ReadJournal → Option (CommittedReadBatchV1 V) → Option ReadJournal
  record_batch self none = some self
  record_batch self (some batch) = elim (bounded_text (json.write_batch batch)) [
    | none ↦ some (record self { batches = []; bytes = 0 })
    | some text ↦ push_batch self batch text (evict (length text) self.bytes self.batches)
  ]

  -- The values of a run of batches, each of which starts where the one before it ended.
  unfoldable pub replay : ℕ → List Batch → Result NativeSyncError (List J × ℕ)
  replay after [] = ok ([], after)
  replay after (batch ∷ rest) = do
    fail_if (batch.before != after) NativeSyncError.internal
    value ← ok_or (json.read_batch batch.json) NativeSyncError.internal
    values ← replay batch.revision rest
    ok (value ∷ values.0, values.1)

  -- Whether the batches from a revision on cannot be given.
  abbrev pub out_of_reach : ReadJournal → ClientRuntime V → Bytes → ℕ → Bool
  out_of_reach self runtime process_epoch revision =
      process_epoch != epoch_value self.epoch
      || ltb runtime.state.revision revision
      || (ltb revision runtime.state.revision && is_empty (starting_at revision self.batches))

  -- The batches that a reader at a revision is given.
  abbrev pub batches_from : ReadJournal → ClientRuntime V → ℕ → ℕ → List Batch
  batches_from self runtime revision limit =
      if ltb revision runtime.state.revision
      then take limit (starting_at revision self.batches)
      else []

  -- `changes`, once the cursor's revision was parsed.
  unfoldable pub changes_from :
      ReadJournal → ClientRuntime V → Bytes → ℕ → ℕ → Result NativeSyncError (Changes J)
  changes_from self runtime process_epoch revision limit =
      if out_of_reach self runtime process_epoch revision
      then (bootstrap self runtime >>= λ start. ok (Changes.reset_required start.0 start.1))
      else (replay revision (batches_from self runtime revision limit) >>= λ done.
          ok (Changes.batches done.0 (cursor_at self done.1)))

  unfoldable pub changes :
      ReadJournal → ClientRuntime V → Bytes → ℕ → Result NativeSyncError (Changes J)
  changes self runtime text limit = do
    fail_if (leb limit 0 || ltb max_batches limit || ltb 4096 (length text))
        NativeSyncError.invalid_input
    cursor ← ok_or (json.read_cursor text) NativeSyncError.invalid_input
    revision ← ok_or (parse_u64 cursor.revision) NativeSyncError.invalid_input
    fail_if (decimal revision != cursor.revision) NativeSyncError.invalid_input
    changes_from self runtime cursor.process_epoch revision limit
