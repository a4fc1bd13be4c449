-- ===== src/Client/History/Revision.antt =====
-- surrealdb-sync-client/src/lib.rs, `prepare` and `install`: revisions as the guard against lost
-- updates.
use react_native_surrealdb.Base.{
  ℕ, suc, ◌+◌, ◌⊎◌, ◌≤◌, ◌<◌, ◌≡◌, refl, ap, ◌≢◌, inl, inr, List, [], ◌∷◌, arith, DecEq, nat_eq, ok,
  err, ensures_ok, Ensures-of, Ensures, length, u64_mod,
}
use react_native_surrealdb.Client.{
  ClientError, DurableClientState, durable_client_state_eq, PreparedTransition, ClientRuntime,
}
use react_native_surrealdb.Client.Runtime.{install}
use react_native_surrealdb.Client.History.{Event, transition, step, run}
use react_native_surrealdb.Client.History.Change.{
  Change, unchanged, enqueued, settled, closed, replaced, pulled, reset, rewindowed,
}
use react_native_surrealdb.Client.History.Refine.{transition-IsChange}
use react_native_surrealdb.Client.History.Steps.{prepare_lem, step_cases}
use react_native_surrealdb.Client.Remap.{accepted_mappings}
use react_native_surrealdb.Client.Remap.Kept.{apply_id_mappings-Keeps}

module _ {V : Type 0} ⦃v : DecEq V⦄ where
  -- Installing succeeds only at the revision that the transition was prepared at.
  install_fresh :
      (self : ClientRuntime V) (p : PreparedTransition V)
      → p.base_revision ≡ self.state.revision
      → install self p ≡ ok (record { state = p.state })
  unfolding install
  install_fresh self p h = ground arith

  install_stale :
      (self : ClientRuntime V) (p : PreparedTransition V)
      → p.base_revision ≢ self.state.revision
      → install self p ≡ err (ClientError.stale_transition p.base_revision self.state.revision)
  unfolding install
  install_stale self p h = ground arith

  -- What a prepared transition's revision is.
  transition-revision :
      (self : ClientRuntime V) (event : Event V) {p : PreparedTransition V}
      → transition self event ≡ ok p
      → p.state ≢ self.state
      → (p.base_revision ≡ self.state.revision) × (p.state.revision ≡ suc self.state.revision)
  transition-revision self event {p} h n =
      let c = ensures_ok (transition-IsChange self event) h in
      let l = prepare_lem self c.0 c.2 in
      (l.0, elim l.2 [ inl (same, e) ↦ absurd (n e) | inr (e, _) ↦ ap (λ s. s.revision) e ])

  transition-base_revision :
      (self : ClientRuntime V) (event : Event V) {p : PreparedTransition V}
      → transition self event ≡ ok p
      → p.base_revision ≡ self.state.revision
  transition-base_revision self event h =
      let c = ensures_ok (transition-IsChange self event) h in
      let l = prepare_lem self c.0 c.2 in l.0

  -- After the first of two transitions that were prepared at one state was installed, the state is
  -- the same, or the second is refused.
  abbrev pub ExcludedBy : ClientRuntime V → PreparedTransition V → PreparedTransition V → Type 0
  ExcludedBy self p q =
      (install self p ≡ ok (record { state = p.state }))
      × ((p.state ≡ self.state)
          ⊎ (install (record { state = p.state }) q
              ≡ err (ClientError.stale_transition self.state.revision (suc self.state.revision))))

  -- No update is lost: of any two transitions that were prepared at one state, the first can be
  -- installed; it then left the state as it was, or the second is refused as stale, with the old
  -- and the next revision.
  pub install-second :
      (self : ClientRuntime V) (first second : Event V)
      → Ensures (λ p. Ensures (ExcludedBy self p) (transition self second)) (transition self first)
  install-second self first second = Ensures-of (transition self first) λ p h.
      Ensures-of (transition self second) λ q k.
        let b = transition-base_revision self second k in
        (
          install_fresh self p (transition-base_revision self first h),
          elim (durable_client_state_eq.discrete p.state self.state) [
            | yes same ↦ inl same
            | no n ↦
                let a = transition-revision self first h n in
                let stale = install_stale (record { state = p.state }) q (omega (arith, a.1, b)) in
                inr (cc (stale, a.1, b))
          ],
        )

  Change-revision : (s t : DurableClientState V) → Change s t → t.revision ≡ s.revision
  Change-revision s t (unchanged e) = ap (λ x. x.revision) e
  Change-revision s t (enqueued commit fresh e) = ap (λ x. x.revision) e
  Change-revision s t (settled pending rest outcome resolution next taken mapped e) =
      let k = ensures_ok (apply_id_mappings-Keeps _ (accepted_mappings outcome)) mapped in
      cc (k.revision, ap (λ x. x.revision) e)
  Change-revision s t (closed id resolution e) = ap (λ x. x.revision) e
  Change-revision s t (replaced id resolution commit fresh e) = ap (λ x. x.revision) e
  Change-revision s t (pulled checkpoint confirmed f e) = ap (λ x. x.revision) e
  Change-revision s t (reset checkpoint confirmed f e) = ap (λ x. x.revision) e
  Change-revision s t (rewindowed subs e) = ap (λ x. x.revision) e

  -- The revisions that at most `n` events can lead to.
  abbrev pub Within : ℕ → DurableClientState V → DurableClientState V → Type 0
  Within n s t =
      ((t.revision ≡ s.revision) × (t ≡ s))
      ⊎ ((s.revision < t.revision) × (t.revision ≤ s.revision + n) × (t.revision < u64_mod))

  step-Within :
      (self : ClientRuntime V) (event : Event V) → Within 1 self.state (step self event).state
  step-Within self event =
      step_cases (λ rt. Within 1 self.state rt.state) self event (inl (refl, refl))
        λ next t change advances valid. elim advances [
          | inl (same, e) ↦ inl (ap (λ x. x.revision) e, e)
          | inr (e, below) ↦
              let r : t.revision ≡ suc self.state.revision = ap (λ x. x.revision) e in
              inr (omega arith, omega arith, omega arith)
        ]

  Within-trans :
      (n : ℕ) (a b c : DurableClientState V) → Within 1 a b → Within n b c → Within (suc n) a c
  Within-trans n a b c p q = ground arith

  -- After any list of events the state is the same with the same revision, or its revision is
  -- greater, by at most the number of events, and below 2^64.
  pub run-Within :
      (self : ClientRuntime V) (events : List (Event V))
      → Within (length events) self.state (run self events).state
  unfolding run
  run-Within self [] = inl (refl, refl)
  run-Within self (event ∷ events) =
      Within-trans (length events) self.state (step self event).state _ (step-Within self event)
        (run-Within (step self event) events)
