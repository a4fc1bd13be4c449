-- ===== src/Client/History/Enqueue.antt =====
-- surrealdb-sync-client/src/lib.rs, `prepare_enqueue` against `optimistic_projection`: a client
-- reads its own writes.
use react_native_surrealdb.Base.{
  ℕ, suc, ◌≡◌, refl, sym, ap, ◌≢◌, inl, inr, List, [], ◌∷◌, ◌++◌, length, length-append, arith,
  DecEq, nat_eq, fail_if, Ensures, Ensures-seq, Ensures-of,
}
use mathlib.Core.List.{append_assoc, append-nil}
use react_native_surrealdb.Base.Bytes.{bytes_eq}
use react_native_surrealdb.Base.BTreeMap.{BTreeMap, get, insert}
use react_native_surrealdb.Protocol.{RecordId, Operation, record_id, ClientCommit}
use react_native_surrealdb.Client.{
  OptimisticRecord, DurableClientState, durable_client_state_eq, ClientRuntime,
}
use react_native_surrealdb.Client.Commits.{commit_id, identity_exists, validate_commit}
use react_native_surrealdb.Client.Projection.{
  accepted_not_pulled, applied_sequence, all_operations, operation_record, apply_operations,
  confirmed_projection, optimistic_operations, optimistic_projection,
}
use react_native_surrealdb.Client.Projection.Effective.{last_on, over, get-apply_operations}
use react_native_surrealdb.Client.History.Steps.{prepare_lem}
use react_native_surrealdb.Client.Runtime.{prepare, prepare_enqueue}

module _ {V : Type 0} where
  apply_operations-append :
      (projection : BTreeMap (OptimisticRecord V)) (xs ys : List (Operation V))
      → apply_operations projection (xs ++ ys)
        ≡ apply_operations (apply_operations projection xs) ys
  unfolding apply_operations
  apply_operations-append projection [] ys = refl
  apply_operations-append projection (x ∷ xs) ys =
      apply_operations-append (insert (record_id x) (operation_record x) projection) xs ys

  all_operations-append :
      (xs : List (ClientCommit V)) (commit : ClientCommit V)
      → all_operations (xs ++ commit ∷ []) ≡ all_operations xs ++ commit.operations
  all_operations-append [] commit = append-nil commit.operations
  all_operations-append (x ∷ xs) commit =
      rw (all_operations-append xs commit)
        (sym (append_assoc x.operations (all_operations xs) commit.operations))

  operations-enqueued :
      (s : DurableClientState V) (commit : ClientCommit V) (n : ℕ)
      → optimistic_operations (record s { outbox = s.outbox ++ commit ∷ []; revision = n })
        ≡ optimistic_operations s ++ commit.operations
  unfolding optimistic_operations applied_sequence
  operations-enqueued s commit n =
      let accepted = accepted_not_pulled (applied_sequence s) s.outcomes in
      rw (sym (append_assoc accepted s.outbox (commit ∷ [])))
        (all_operations-append (accepted ++ s.outbox) commit)

  get-enqueued :
      (s : DurableClientState V) (commit : ClientCommit V) (n : ℕ) (id : RecordId)
      → get id (optimistic_projection (record s { outbox = s.outbox ++ commit ∷ []; revision = n }))
        ≡ over (last_on id commit.operations) (get id (optimistic_projection s))
  unfolding optimistic_projection
  get-enqueued s commit n id =
      rw
        (
          operations-enqueued s commit n,
          apply_operations-append (confirmed_projection s.confirmed) (optimistic_operations s)
              commit.operations,
        )
        (get-apply_operations id (optimistic_projection s) commit.operations)

longer : {A : Type 0} (xs : List A) (x : A) → (xs ++ x ∷ []) ≢ xs
longer xs x e = omega (arith, length-append xs (x ∷ []), ap length e)

module _ {V : Type 0} ⦃v : DecEq V⦄ where
  -- Whenever an enqueued commit is prepared, each record reads in the optimistic projection as the
  -- commit's last operation on it, or as before when it has none; the commit is the last of the
  -- outbox, and the revision is the next.
  pub enqueue-reads :
      (self : ClientRuntime V) (commit : ClientCommit V) (id : RecordId)
      → Ensures
          (λ p.
            (get id (optimistic_projection p.state)
              ≡ over (last_on id commit.operations) (get id (optimistic_projection self.state)))
            × (p.state.outbox ≡ self.state.outbox ++ commit ∷ [])
            × (p.state.revision ≡ suc self.state.revision))
          (prepare_enqueue self commit)
  unfolding prepare_enqueue
  enqueue-reads self commit id = Ensures-seq (validate_commit commit) λ _.
      Ensures-seq (fail_if (identity_exists self.state (commit_id commit)) _) λ _.
        Ensures-of (prepare self _) λ p h. elim (prepare_lem self _ h).2 [
          | inl (same, e) ↦ absurd (longer self.state.outbox commit (ap (λ s. s.outbox) same))
          | inr (e, _) ↦ (
            rw e (get-enqueued self.state commit (suc self.state.revision) id),
            ap (λ s. s.outbox) e,
            ap (λ s. s.revision) e,
          )
        ]
