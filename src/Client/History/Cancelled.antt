-- ===== src/Client/History/Cancelled.antt =====
-- surrealdb-sync-client/src/subscriptions.rs: what a cancelled window's barrier refuses.
use react_native_surrealdb.Base.{
  ℕ, ◌≤◌, ◌≡◌, refl, true, not, ◌||◌, none, some, arith, DecEq, nat_eq, ◌==◌, max, err, fail_if,
  Ensures, Ensures-seq, inl, inr, Option-cases,
}
use react_native_surrealdb.Base.Bytes.{Bytes, bytes_eq}
use react_native_surrealdb.Base.BTreeMap.{BTreeMap, get, get-insert, get-remove}
use react_native_surrealdb.Protocol.Subscription.{
  SubscriptionResponse, valid_subscription_text, validate_subscription_response,
}
use react_native_surrealdb.Client.{
  ClientError, DurableSubscriptions, DurableClientState, ClientRuntime,
}
use react_native_surrealdb.Client.Slots.{invalid, is_cancelled, collect_records}
use react_native_surrealdb.Client.Subscriptions.{
  raise_barrier, cancelled_at, subscriptions_of, barriers_full, has_newer_request,
  prepare_cancel_subscription,
}
use react_native_surrealdb.Client.Subscriptions.Window.{prepare_subscription_response}
use react_native_surrealdb.Client.History.Steps.{prepared}

raise_barrier-covers :
    (id : Bytes) (generation : ℕ) (cancelled : BTreeMap ℕ)
    → (barrier : ℕ) × (get id (raise_barrier id generation cancelled) ≡ some barrier)
      × (generation ≤ barrier)
unfolding raise_barrier
raise_barrier-covers id generation cancelled = elim (Option-cases (get id cancelled)) [
  | inl absent ↦ (
    generation,
    rw (raise_barrier, absent) (ground (arith, get-insert id id generation cancelled)),
    omega arith,
  )
  | inr (barrier, e) ↦ (
    max barrier generation,
    rw (raise_barrier, e) (ground (arith, get-insert id id (max barrier generation) cancelled)),
    omega arith,
  )
]

module _ {V : Type 0} ⦃v : DecEq V⦄ where
  -- A response at or below a barrier.
  barrier-refuses :
      (self : ClientRuntime V) (subs : DurableSubscriptions V) (r : SubscriptionResponse V)
      (barrier : ℕ)
      → self.state.subscriptions ≡ some subs
      → get r.subscription_id subs.cancelled ≡ some barrier
      → r.generation ≤ barrier
      → validate_subscription_response r ≡ true
      → prepare_subscription_response self r ≡ err ClientError.subscription_cancelled
  unfolding prepare_subscription_response
  barrier-refuses self subs r barrier s b le valid =
      let low : is_cancelled subs r.subscription_id r.generation ≡ true = ground arith in
      rw (valid, s) (rw low refl)

  -- The window is gone, and the response cannot bring it back.
  abbrev pub Cancelled : SubscriptionResponse V → DurableClientState V → Type 0
  Cancelled r t =
      (get r.subscription_id (subscriptions_of t).slots ≡ none)
      × (get r.subscription_id (subscriptions_of t).requests ≡ none)
      × (prepare_subscription_response (record { state = t }) r
          ≡ err ClientError.subscription_cancelled)

  -- Whenever the cancellation of a window is prepared, its slot and its request are gone, and a
  -- valid response for it whose generation is not above the cancelled one is refused as cancelled
  -- in the state that results.
  pub cancel-Cancelled :
      (self : ClientRuntime V) (generation : ℕ) (r : SubscriptionResponse V)
      → r.generation ≤ generation
      → validate_subscription_response r ≡ true
      → Ensures
          (λ p. Cancelled r p.state)
          (prepare_cancel_subscription self r.subscription_id generation)
  unfolding prepare_cancel_subscription cancelled_at collect_records
  cancel-Cancelled self generation r le valid =
      let subs = subscriptions_of self.state in
      let c = raise_barrier-covers r.subscription_id generation subs.cancelled in
      Ensures-seq
        (fail_if (not (valid_subscription_text r.subscription_id) || generation == 0) invalid)
        λ _. Ensures-seq (fail_if (barriers_full subs r.subscription_id) invalid) λ _.
          Ensures-seq (fail_if (has_newer_request subs r.subscription_id generation) invalid) λ _.
            prepared (Cancelled r) self _ λ n. (
              ground (arith, get-remove r.subscription_id r.subscription_id subs.slots),
              ground (arith, get-remove r.subscription_id r.subscription_id subs.requests),
              barrier-refuses _ _ r c.0 refl c.1 (omega (arith, c.2, le)) valid,
            )
