-- ===== src/Client/History/Steps.antt =====
-- What each event of a journal's life does to its state: nothing, or a change that is validated
-- and takes the next revision; and what a history keeps by that.
use react_native_surrealdb.Base.{
  suc, ◌<◌, ◌≡◌, refl, sym, ap, subst, ◌⊎◌, inl, inr, false, List, [], ◌∷◌, arith, DecEq, nat_eq,
  ◌!=◌, Result, ok, err, ◌>>=◌, >>=-eq-ok, >>-eq-ok, ok-injective, ensures_ok, Ensures-of, Ensures,
  ◌∙◌, ℕ, u64_mod,
}
use react_native_surrealdb.Client.{
  ClientError, DurableClientState, durable_client_state_eq, PreparedTransition, ClientRuntime,
}
use react_native_surrealdb.Client.Validate.{validate}
use react_native_surrealdb.Client.Validate.WellFormed.{WellFormed, validate_iff}
use react_native_surrealdb.Client.Runtime.{next_revision, prepare, install}
use react_native_surrealdb.Client.History.{Event, transition, after, step, run}
use react_native_surrealdb.Client.History.Change.{Change, IsChange}
use react_native_surrealdb.Client.History.Refine.{transition-IsChange}

module _ {V : Type 0} ⦃v : DecEq V⦄ where
  -- The revision counts the changes, and an equal state keeps it.
  abbrev pub Advances : DurableClientState V → DurableClientState V → DurableClientState V → Type 0
  Advances s next t =
      ((next ≡ s) × (t ≡ s))
      ⊎ ((t ≡ record next { revision = suc s.revision }) × (suc s.revision < u64_mod))

  next_revision-Advances :
      (s next : DurableClientState V) {t : DurableClientState V}
      → next_revision s next ≡ ok t
      → Advances s next t
  unfolding next_revision
  next_revision-Advances s next h = elim (durable_client_state_eq.discrete next s) [
    | yes same ↦ inl (same, ground arith)
    | no other ↦ inr (ground arith, ground arith)
  ]

  pub prepare_lem :
      (self : ClientRuntime V) (next : DurableClientState V) {p : PreparedTransition V}
      → prepare self next ≡ ok p
      → (p.base_revision ≡ self.state.revision)
        × (validate p.state ≡ ok tt)
        × Advances self.state next p.state
  unfolding prepare
  prepare_lem self next {p} h =
      let a = >>=-eq-ok (next_revision self.state next) _ h in
      let b = >>-eq-ok (validate a.0) _ a.2 in
      let e = ok-injective b.1 in
      (
        ap (λ q. q.base_revision) (sym e),
        subst (λ q. validate q.state ≡ ok tt) e b.0,
        subst (λ q. Advances self.state next q.state) e
            (next_revision-Advances self.state next a.1),
      )

  -- A prepared state is the proposed one, but for its revision.
  pub prepared {ℓ} :
      (P : DurableClientState V → Type ℓ) (self : ClientRuntime V) (next : DurableClientState V)
      → ((n : ℕ) → P (record next { revision = n }))
      → Ensures (λ p. P p.state) (prepare self next)
  prepared P self next h = Ensures-of (prepare self next) λ p e. elim (prepare_lem self next e).2 [
    | inl (same, kept) ↦ subst P (same ∙ sym kept) (h next.revision)
    | inr (moved, _) ↦ subst P (sym moved) (h (suc self.state.revision))
  ]

  -- What is handed out was validated.
  pub transition-valid :
      (self : ClientRuntime V) (event : Event V) {p : PreparedTransition V}
      → transition self event ≡ ok p
      → validate p.state ≡ ok tt
  transition-valid self event h =
      let c = ensures_ok (transition-IsChange self event) h in (prepare_lem self c.0 c.2).1

  -- A case rule for one event.
  pub step_cases {ℓ} :
      (P : ClientRuntime V → Type ℓ) (self : ClientRuntime V) (event : Event V)
      → P self
      → ((next t : DurableClientState V)
          → Change self.state next
          → Advances self.state next t
          → validate t ≡ ok tt
          → P (record { state = t }))
      → P (step self event)
  unfolding step install
  step_cases P self event same moved =
      go (transition self event) (λ p e. ensures_ok (transition-IsChange self event) e)
    where
      go :
          (r : Result ClientError (PreparedTransition V))
          → ((p : PreparedTransition V) → r ≡ ok p → IsChange self p)
          → P (after self (r >>= install self))
      go (err e) f = same
      go (ok p) f =
          let c = f p refl in
          let l = prepare_lem self c.0 c.2 in
          let e : (p.base_revision != self.state.revision) ≡ false = ground (arith, l.0) in
          rw e (moved c.0 p.state c.1 l.2 l.1)

  -- Every history keeps the state well formed: from a runtime whose state is WellFormed, any list
  -- of events (each prepared and installed when it succeeds, and without effect when it fails)
  -- leads to a WellFormed state.
  pub run-WellFormed :
      (self : ClientRuntime V) (events : List (Event V))
      → WellFormed self.state
      → WellFormed (run self events).state
  unfolding run
  run-WellFormed self [] w = w
  run-WellFormed self (event ∷ events) w = run-WellFormed (step self event) events (
      step_cases (λ rt. WellFormed rt.state) self event w
        (λ next t change advances valid. (validate_iff t).0 valid))
