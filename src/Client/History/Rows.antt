-- ===== src/Client/History/Rows.antt =====
-- surrealdb-sync-client/src/lib.rs, prepare_pull_batch and prepare_snapshot: the confirmed rows and
-- the frontier that a client has after it.
use react_native_surrealdb.Base.{
  ◌≡◌, ◌≢◌, refl, sym, subst, Option, none, some, List, [], arith, DecEq, nat_eq, ◌==◌, is_empty,
  not, contains, ok, fail_if, IfSome, Ensures, Ensures-seq, Ensures-bind, Ensures-if,
}
use react_native_surrealdb.Base.BTreeMap.{get}
use react_native_surrealdb.Protocol.{
  RecordId, Checkpoint, checkpoint_eq, PullCommit, PullBatch, ResetSnapshot, SnapshotRecord,
}
use react_native_surrealdb.Client.{DurableClientState, ClientRuntime}
use react_native_surrealdb.Client.Slots.{guard_subscription_scope}
use react_native_surrealdb.Client.Validate.{validate_scope}
use react_native_surrealdb.Client.Runtime.Pull.{
  validate_pull_batch, pull_at_frontier, pull_forward, pull_from, prepare_pull_batch,
  check_replacement, snapshot_rows, prepare_snapshot, prepare_reset,
}
use react_native_surrealdb.Client.Runtime.Pull.Rows.{
  last_applied, all_records, get-apply_commits, snapshot_row, get-snapshot_rows,
}
use react_native_surrealdb.Client.History.Steps.{prepared}

module _ {V : Type 0} ⦃v : DecEq V⦄ where
  -- The frontier moved, and each record is as the received commits leave it.
  abbrev pub Pulled :
      DurableClientState V
      → Checkpoint
      → List (PullCommit V)
      → RecordId
      → DurableClientState V
      → Type 0
  Pulled s finish commits id t =
      (t.checkpoint ≡ some finish)
      × (get id t.confirmed ≡ last_applied id (all_records commits) (get id s.confirmed))
      × (t.outbox ≡ s.outbox)

  pull_forward-Pulled :
      (self : ClientRuntime V) (finish : Checkpoint) (commits : List (PullCommit V)) (id : RecordId)
      → Ensures
          (λ p. Pulled self.state finish commits id p.state)
          (pull_forward self finish commits)
  unfolding pull_forward
  pull_forward-Pulled self finish commits id =
      prepared (Pulled self.state finish commits id) self _
        λ n. (refl, get-apply_commits id self.state.confirmed commits, refl)

  pull_from-Pulled :
      (self : ClientRuntime V) (o : Option Checkpoint) (finish : Checkpoint)
      (commits : List (PullCommit V)) (id : RecordId)
      → IfSome (λ current. finish.cursor.sequence ≢ current.cursor.sequence) o
      → Ensures (λ p. Pulled self.state finish commits id p.state) (pull_from self o finish commits)
  unfolding pull_from
  pull_from-Pulled self none finish commits id n = pull_forward-Pulled self finish commits id
  pull_from-Pulled self (some current) finish commits id n =
      Ensures-if (finish.cursor.sequence == current.cursor.sequence)
        (λ same. absurd (n (ground arith))) (λ moved. pull_forward-Pulled self finish commits id)

  -- Whenever a batch is prepared that was accepted with a frontier whose sequence differs from
  -- that of an installed checkpoint, the state's checkpoint is that frontier, each confirmed
  -- record is as the last received state of it leaves it (absent meaning no row) or as before, and
  -- the outbox is as before.
  pub pull-Pulled :
      (self : ClientRuntime V) (batch : PullBatch V) (finish : Checkpoint)
      (commits : List (PullCommit V)) (id : RecordId)
      → validate_pull_batch self.state batch ≡ ok (finish, commits)
      → IfSome (λ current. finish.cursor.sequence ≢ current.cursor.sequence) self.state.checkpoint
      → Ensures (λ p. Pulled self.state finish commits id p.state) (prepare_pull_batch self batch)
  unfolding prepare_pull_batch
  pull-Pulled self batch finish commits id e n = rw e (
      Ensures-seq (guard_subscription_scope self.state finish.scope)
        λ _. pull_from-Pulled self self.state.checkpoint finish commits id n)

  -- At the installed frontier nothing is applied again; at most the checkpoint is renewed.
  abbrev pub Replayed : DurableClientState V → Checkpoint → DurableClientState V → Type 0
  Replayed s finish t =
      (t.confirmed ≡ s.confirmed)
      × (t.outbox ≡ s.outbox)
      × (t.outcomes ≡ s.outcomes)
      × (t.checkpoint ≡ some finish)

  pull_at_frontier-Replayed :
      (self : ClientRuntime V) (current finish : Checkpoint) (commits : List (PullCommit V))
      → self.state.checkpoint ≡ some current
      → Ensures
          (λ p. Replayed self.state finish p.state)
          (pull_at_frontier self current finish commits)
  unfolding pull_at_frontier
  pull_at_frontier-Replayed self current finish commits e =
      Ensures-if (finish == current)
        (λ same.
          let f : finish ≡ current = ground arith in
          prepared (Replayed self.state finish) self _
            λ n. (refl, refl, refl, subst (λ c. self.state.checkpoint ≡ some c) (sym f) e))
        (λ other.
          Ensures-seq (fail_if (not (is_empty commits)) _)
            λ _. prepared (Replayed self.state finish) self _ λ n. (refl, refl, refl, refl))

  pull_from-Replayed :
      (self : ClientRuntime V) (current finish : Checkpoint) (commits : List (PullCommit V))
      → self.state.checkpoint ≡ some current
      → finish.cursor.sequence ≡ current.cursor.sequence
      → Ensures
          (λ p. Replayed self.state finish p.state)
          (pull_from self (some current) finish commits)
  unfolding pull_from
  pull_from-Replayed self current finish commits c s =
      Ensures-if (finish.cursor.sequence == current.cursor.sequence)
        (λ _. pull_at_frontier-Replayed self current finish commits c)
        (λ other. absurd (ground arith))

  -- Whenever a batch is prepared that was accepted at the installed sequence, the confirmed rows,
  -- the outbox and the outcomes are as before, and the checkpoint is that of the batch.
  pub pull-Replayed :
      (self : ClientRuntime V) (batch : PullBatch V) (current finish : Checkpoint)
      (commits : List (PullCommit V))
      → validate_pull_batch self.state batch ≡ ok (finish, commits)
      → self.state.checkpoint ≡ some current
      → finish.cursor.sequence ≡ current.cursor.sequence
      → Ensures (λ p. Replayed self.state finish p.state) (prepare_pull_batch self batch)
  unfolding prepare_pull_batch
  pull-Replayed self batch current finish commits e c s = rw e (
      Ensures-seq (guard_subscription_scope self.state finish.scope) λ _.
        subst
          (λ o. Ensures (λ p. Replayed self.state finish p.state) (pull_from self o finish commits))
          (sym c) (pull_from-Replayed self current finish commits c s))

  -- Exactly the rows of a snapshot, and its frontier as the covered one.
  abbrev pub IsReset :
      DurableClientState V
      → Checkpoint
      → List (SnapshotRecord V)
      → RecordId
      → DurableClientState V
      → Type 0
  IsReset s finish rows id t =
      (get id t.confirmed ≡ snapshot_row id rows)
      × (t.checkpoint ≡ some finish)
      × (t.reset_coverage ≡ some (record { cursor = finish.cursor; scope = finish.scope }))
      × (t.outbox ≡ s.outbox)

  -- Whenever a reset is prepared, each record reads as the snapshot has it and no other row is
  -- left, the checkpoint and the reset coverage are those of the snapshot, and the outbox is as
  -- before.
  pub prepare_reset-IsReset :
      (self : ClientRuntime V) (snapshot : ResetSnapshot V) (id : RecordId)
      → Ensures
          (λ p. IsReset self.state snapshot.checkpoint snapshot.records id p.state)
          (prepare_reset self snapshot)
  unfolding prepare_reset prepare_snapshot get contains
  prepare_reset-IsReset self snapshot id =
      Ensures-seq (validate_scope self.state snapshot.checkpoint) λ _.
        Ensures-seq (guard_subscription_scope self.state snapshot.checkpoint.scope) λ _.
          Ensures-seq (check_replacement self.state snapshot.checkpoint) λ _.
            Ensures-bind (snapshot_rows [] [] snapshot.records) λ confirmed e.
              prepared (IsReset self.state snapshot.checkpoint snapshot.records id) self _
                λ n. (get-snapshot_rows id [] [] snapshot.records refl refl e, refl, refl, refl)
