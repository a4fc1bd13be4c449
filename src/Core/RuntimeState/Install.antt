-- ===== src/Core/RuntimeState/Install.antt =====
-- sync_client.rs: what a slot is after a transition was installed and its batch recorded.
use react_native_surrealdb.Base.{
  ◌+◌, ◌≤◌, ◌<◌, ◌⊎◌, true, [], length, u64_mod, Result, err, ◌≡◌, none, some, DecEq, nat_eq, ok,
}
use react_native_surrealdb.Client.{DurableClientState, PreparedTransition}
use react_native_surrealdb.Core.{NativeSyncError}
use react_native_surrealdb.Core.ReadJournal.{ReadJournal, Json}
use react_native_surrealdb.Core.RuntimeState.{
  NativeSyncStatus, RuntimeState, status, install_and_record,
}
use react_native_surrealdb.Core.ReadJournal.Replay.{IsJournal}

-- The counts that a status reports as 32-bit numbers.
abbrev pub Countable : {V : Type 0} → DurableClientState V → Type 0
Countable state = (length state.outbox < 4294967296) × (length state.outcomes < 4294967296)

-- A journal that was given up: it is emptied under the next epoch, or stays when there is none.
abbrev pub GivenUp : ReadJournal → ReadJournal → Type 0
GivenUp journal next =
    ((next.batches ≡ []) × (next.epoch.generation ≡ journal.epoch.generation + 1))
    ⊎ ((u64_mod ≤ journal.epoch.generation + 1) × (next ≡ journal))

module _ {V : Type 0} where
  -- What a status says of a state.
  abbrev pub IsStatus : DurableClientState V → NativeSyncStatus → Type 0
  IsStatus state status =
      (status.revision ≡ state.revision)
      × (status.pending_count ≡ length state.outbox)
      × (status.outcome_count ≡ length state.outcomes)

module _ {V J : Type 0} (json : Json V J) ⦃v : DecEq V⦄ where
  -- The slot after a transition to a state: with it and its batch, or given up.
  abbrev pub Settled :
      RuntimeState V
      → DurableClientState V
      → Result NativeSyncError NativeSyncStatus
      → RuntimeState V
      → Type 0
  Settled slot state result next =
      (Countable state
        × (report : NativeSyncStatus) × (result ≡ ok report)
        × IsStatus state report
        × (next.runtime ≡ some (record { state = state }))
        × (next.recovery_required ≡ slot.recovery_required)
        × IsJournal json state.revision next.journal)
      ⊎ (¬ Countable state
          × (result ≡ err NativeSyncError.recovery_required)
          × (next.runtime ≡ none)
          × (next.recovery_required ≡ true)
          × GivenUp slot.journal next.journal)

  abbrev Returns : RuntimeState V → PreparedTransition V → Type 0
  Returns slot p =
      (result : Result NativeSyncError NativeSyncStatus) × (next : RuntimeState V)
      × (install_and_record json slot p ≡ some (result, next))
      × Settled slot p.state result next
