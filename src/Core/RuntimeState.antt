-- ===== src/Core/RuntimeState.antt =====
-- sync_client.rs: the runtime's slot, and how a transition that was persisted is installed in it and
-- its batch recorded. Of the slot's fields those are here that these steps read or change; of
-- sync_subscription.rs it has what is emptied when the runtime is given up; the windows' batches,
-- which are recorded next, are not modelled.
pub mod Install
use react_native_surrealdb.Base.{
  ℕ, Bool, true, Option, none, some, map, List, [], ◌∷◌, keep, length, ltb, if◌then◌else◌, DecEq,
  Result, ok, err, ◌>>=◌, ok_or,
}
use react_native_surrealdb.Base.Bytes.{Bytes}
use react_native_surrealdb.Base.BTreeMap.{BTreeMap}
use react_native_surrealdb.Client.{
  DurableClientState, PreparedTransition, ClientRuntime, ClientError,
}
use react_native_surrealdb.Client.Commits.{is_unresolved_conflict}
use react_native_surrealdb.Client.Read.{CommittedReadBatchV1, install_with_read_batch}
use react_native_surrealdb.Core.{NativeSyncError}
use react_native_surrealdb.Core.ReadJournal.{
  Batch, JournalEpoch, ReadJournal, Json, advance, rotate, record_batch,
}

pub record NativeSyncStatus : Type 0 where
  pub revision : ℕ
  pub pending_count : ℕ
  pub outcome_count : ℕ
  pub conflict_count : ℕ
  pub cursor_epoch : Option ℕ
  pub cursor_sequence : Option ℕ

-- A window's batches have the fields of the read journal's.
pub record History : Type 0 where
  pub batches : List Batch
  pub bytes : ℕ

pub record SubscriptionJournal : Type 0 where
  pub epoch : JournalEpoch
  pub histories : BTreeMap History

pub record RuntimeState (V : Type 0) : Type 0 where
  pub runtime : Option (ClientRuntime V)
  pub journal : ReadJournal
  pub subscription_journal : SubscriptionJournal
  pub recovery_required : Bool

-- `SubscriptionJournal::rotate`.
unfoldable pub rotate_histories : SubscriptionJournal → Result NativeSyncError SubscriptionJournal
rotate_histories self = do epoch ← advance self.epoch; ok (record { epoch = epoch; histories = [] })

-- `u32::try_from(…)`.
abbrev pub count_u32 : ℕ → Result NativeSyncError ℕ
count_u32 n = ok_or (if ltb n 4294967296 then some n else none) NativeSyncError.internal

-- A call whose error is dropped changed nothing when it failed.
abbrev or_same {ℓ} : {A : Type ℓ} → A → Result NativeSyncError A → A
or_same a (ok next) = next
or_same a (err e) = a

module _ {V : Type 0} where
  unfoldable pub status : ClientRuntime V → Result NativeSyncError NativeSyncStatus
  status runtime = do
    pending_count ← count_u32 (length runtime.state.outbox)
    outcome_count ← count_u32 (length runtime.state.outcomes)
    conflict_count ← count_u32 (length (keep is_unresolved_conflict runtime.state.outcomes))
    ok (record {
      revision = runtime.state.revision;
      pending_count = pending_count;
      outcome_count = outcome_count;
      conflict_count = conflict_count;
      cursor_epoch = elim runtime.state.checkpoint [ none ↦ none | some c ↦ some c.cursor.epoch ];
      cursor_sequence = elim runtime.state.checkpoint [
        | none ↦ none
        | some c ↦ some c.cursor.sequence
      ];
    })

  unfoldable pub invalidate_runtime : RuntimeState V → RuntimeState V
  invalidate_runtime slot = record {
    runtime = none;
    recovery_required = true;
    journal = or_same slot.journal (rotate slot.journal);
    subscription_journal =
        or_same slot.subscription_journal (rotate_histories slot.subscription_journal);
  }

module _ {V J : Type 0} (json : Json V J) ⦃v : DecEq V⦄ where
  -- The batch is recorded when the status was made; `none` is a call that does not return.
  abbrev pub record_installed :
      RuntimeState V
      → Result NativeSyncError NativeSyncStatus
      → Option ReadJournal
      → Option (Result NativeSyncError NativeSyncStatus × RuntimeState V)
  record_installed slot (err e) recorded =
      some (err NativeSyncError.recovery_required, invalidate_runtime slot)
  record_installed slot (ok status) none = none
  record_installed slot (ok status) (some journal) =
      some (ok status, record slot { journal = journal })

  -- What follows once the transition was installed, or was refused.
  abbrev pub after_install :
      RuntimeState V
      → Result ClientError (Option (CommittedReadBatchV1 V) × ClientRuntime V)
      → Option (Result NativeSyncError NativeSyncStatus × RuntimeState V)
  after_install slot (err e) = some (err NativeSyncError.recovery_required, invalidate_runtime slot)
  after_install slot (ok (batch, next)) =
      record_installed (record slot { runtime = some next }) (status next)
        (record_batch json slot.journal batch)

  unfoldable pub install_and_record :
      RuntimeState V
      → PreparedTransition V
      → Option (Result NativeSyncError NativeSyncStatus × RuntimeState V)
  install_and_record slot prepared = elim slot.runtime [
    | none ↦ some (err NativeSyncError.recovery_required, invalidate_runtime slot)
    | some runtime ↦ after_install slot (install_with_read_batch runtime prepared)
  ]
