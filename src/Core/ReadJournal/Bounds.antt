-- ===== src/Core/ReadJournal/Bounds.antt =====
-- sync_read.rs: the journal stays within its bounds, and the loop that makes room for a batch ends.
use react_native_surrealdb.Base.{
  ℕ, ◌+◌, ◌-◌, ◌≤◌, ◌<◌, ◌⊎◌, ◌≡◌, refl, ap, Bool-cases, inl, inr, Option, none, some, Option-cases,
  List, [], ◌∷◌, ◌++◌, length, length-append, ltb, leb, ok, ◌>>=◌, Ensures, Ensures-bind, holds,
  fails, ensures_ok, ok_or, u64_mod, checked_add, arith,
}
use react_native_surrealdb.Base.Bytes.{Bytes, bytes_eq}
use react_native_surrealdb.Client.Read.{CommittedReadBatchV1}
use react_native_surrealdb.Core.{NativeSyncError}
use react_native_surrealdb.Core.ReadJournal.{
  Batch, JournalEpoch, ReadJournal, Json, max_batches, max_journal_bytes, max_view_cursors,
  max_view_cursor_bytes, total_length, journal_full, evict, advance, rotate, bounded_text,
  push_batch, record_batch,
}

abbrev pub batch_bytes : List Batch → ℕ
batch_bytes [] = 0
batch_bytes (batch ∷ batches) = length batch.json + batch_bytes batches

-- The counter is the size of the batches, and each queue is within its two limits.
pub record IsBounded (journal : ReadJournal) : Type 0 where
  pub counted : journal.bytes ≡ batch_bytes journal.batches
  pub few : length journal.batches ≤ max_batches
  pub small : journal.bytes ≤ max_journal_bytes
  pub few_cursors : length journal.view_cursors ≤ max_view_cursors
  pub small_cursors : total_length journal.view_cursors ≤ max_view_cursor_bytes

batch_bytes-append : (xs ys : List Batch) → batch_bytes (xs ++ ys) ≡ batch_bytes xs + batch_bytes ys
batch_bytes-append [] ys = omega arith
batch_bytes-append (x ∷ xs) ys = omega (arith, batch_bytes-append xs ys)

-- What is left after the eviction: the newest batches, with room for another one.
pub record Room (size : ℕ) (batches kept : List Batch) (bytes : ℕ) : Type 0 where
  pub dropped : List Batch
  pub suffix : batches ≡ dropped ++ kept
  pub counted : bytes ≡ batch_bytes kept
  pub few : length kept < max_batches
  pub small : bytes + size ≤ max_journal_bytes

-- A text that fits an empty journal finds room.
pub evict-Room :
    (size bytes : ℕ) (batches : List Batch)
    → size ≤ max_journal_bytes
    → bytes ≡ batch_bytes batches
    → (kept : List Batch) × (left : ℕ) × (evict size bytes batches ≡ some (kept, left))
      × Room size batches kept left
unfolding evict
evict-Room size bytes [] h e = (
  [],
  bytes,
  ground arith,
  record { dropped = []; suffix = refl; counted = e; few = omega arith; small = omega arith },
)
evict-Room size bytes (oldest ∷ batches) h e =
    elim (Bool-cases (journal_full size bytes (oldest ∷ batches))) [
      | inl p ↦
          let (kept, left, q, room) =
            evict-Room size (bytes - length oldest.json) batches h (omega (arith, e)) in
          (
            kept,
            left,
            rw p q,
            record {
              dropped = oldest ∷ room.dropped;
              suffix = ap (λ t. oldest ∷ t) room.suffix;
              counted = room.counted;
              few = room.few;
              small = room.small;
            },
          )
      | inr p ↦ (
        oldest ∷ batches,
        bytes,
        rw p refl,
        record {
          dropped = [];
          suffix = refl;
          counted = e;
          few = ground (arith, p);
          small = ground (arith, p);
        },
      )
    ]

abbrev pub entry_of : {V : Type 0} → CommittedReadBatchV1 V → Bytes → Batch
entry_of batch text = record {
  before = batch.before_revision;
  revision = batch.revision;
  json = text;
}

module _ {V J : Type 0} (json : Json V J) where
  -- The text of a batch, when it is small enough to be kept.
  bounded_text-leb :
      (o : Option Bytes)
      → (bounded_text json o ≡ none)
        ⊎ ((text : Bytes) × (bounded_text json o ≡ some text) × (length text ≤ max_journal_bytes))
  bounded_text-leb none = inl refl
  bounded_text-leb (some text) = elim (Bool-cases (leb (length text) max_journal_bytes)) [
    | inl p ↦ inr (text, rw p refl, ground (arith, p))
    | inr p ↦ inl (rw p refl)
  ]

  push_batch-IsBounded :
      (self : ReadJournal) (batch : CommittedReadBatchV1 V) (text : Bytes) (kept : List Batch)
      (left : ℕ)
      → IsBounded self
      → Room (length text) self.batches kept left
      → (next : ReadJournal) × (push_batch json self batch text (some (kept, left)) ≡ some next)
        × IsBounded next
  push_batch-IsBounded self batch text kept left b room =
      let entry = entry_of batch text in
      let size = batch_bytes-append kept (entry ∷ []) in
      let count = length-append kept (entry ∷ []) in
      (
        _,
        refl,
        record {
          counted = omega (arith, size, room.counted);
          few = omega (arith, count, room.few);
          small = room.small;
          few_cursors = b.few_cursors;
          small_cursors = b.small_cursors;
        },
      )

  -- A batch is refused, which empties the journal, or it stands behind the batches that are left.
  pub record_batch-cases :
      (self : ReadJournal) (batch : CommittedReadBatchV1 V)
      → IsBounded self
      → (record_batch json self (some batch) ≡ some (record self { batches = []; bytes = 0 }))
        ⊎ ((text : Bytes) × (kept : List Batch) × (left : ℕ) × (json.write_batch batch ≡ some text)
            × Room (length text) self.batches kept left
            × (record_batch json self (some batch)
                ≡ some (record self {
                  batches = kept ++ entry_of batch text ∷ [];
                  bytes = left + length text;
                })))
  unfolding record_batch
  record_batch-cases self batch b = elim (Option-cases (json.write_batch batch)) [
    | inl w ↦ inl (rw (record_batch, w) refl)
    | inr (text, w) ↦ elim (Bool-cases (leb (length text) max_journal_bytes)) [
      | inl p ↦
          let (kept, left, q, room) =
            evict-Room (length text) self.bytes self.batches (ground (arith, p)) b.counted in
          inr (text, kept, left, w, room, rw (record_batch, w, p, q) refl)
      | inr p ↦ inl (rw (record_batch, w, p) refl)
    ]
  ]

  -- On a journal within its bounds, recording a batch of any size returns: the loop that makes
  -- room ends, and the journal keeps at most 128 batches and 4 MiB, with the exact sum of their
  -- sizes as its counter.
  pub record_batch-IsBounded :
      (self : ReadJournal) (batch : Option (CommittedReadBatchV1 V))
      → IsBounded self
      → (next : ReadJournal) × (record_batch json self batch ≡ some next) × IsBounded next
  unfolding record_batch
  record_batch-IsBounded self none b = (self, refl, b)
  record_batch-IsBounded self (some batch) b = elim (bounded_text-leb (json.write_batch batch)) [
    | inl p ↦ (
      record self { batches = []; bytes = 0 },
      rw (record_batch, p) refl,
      record {
        counted = refl;
        few = omega arith;
        small = omega arith;
        few_cursors = b.few_cursors;
        small_cursors = b.small_cursors;
      },
    )
    | inr (text, p, h) ↦
        let (kept, left, q, room) = evict-Room (length text) self.bytes self.batches h b.counted in
        let (next, r, c) = push_batch-IsBounded self batch text kept left b room in
        (next, rw (record_batch, p, q) r, c)
  ]

-- An epoch is followed by the next one.
advance_lem :
    (epoch : JournalEpoch)
    → Ensures (λ next. next.generation ≡ epoch.generation + 1) (advance epoch)
unfolding advance
advance_lem epoch = elim (Bool-cases (ltb (epoch.generation + 1) u64_mod)) [
  | inl p ↦ rw p (holds refl)
  | inr p ↦ rw p fails
]

pub rotate-IsBounded :
    (self : ReadJournal)
    → Ensures
        (λ next.
          IsBounded next
          × (next.batches ≡ [])
          × (next.view_cursors ≡ [])
          × (next.epoch.generation ≡ self.epoch.generation + 1))
        (rotate self)
unfolding rotate advance
rotate-IsBounded self =
    Ensures-bind
      (ok_or (checked_add self.epoch.generation 1) NativeSyncError.recovery_required
        >>= λ generation. ok (record (self.epoch) { generation = generation }))
      λ epoch e. holds (
        record {
          counted = refl;
          few = omega arith;
          small = omega arith;
          few_cursors = omega arith;
          small_cursors = omega arith;
        },
        refl,
        refl,
        ensures_ok (advance_lem self.epoch) e,
      )
