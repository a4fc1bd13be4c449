-- ===== src/Client/History/Kept.antt =====
-- No commit is lost: each event of a journal keeps the identities of all commits that the state
-- holds, pending or with an outcome, and adds at most one.
use mathlib.Core.List.{map-append, append_assoc, perm_append_singleton}
use mathlib.Core.List.Perm
use react_native_surrealdb.Base.{
  ℕ, ◌≤◌, ◌≡◌, refl, ap, ◌∙◌, inl, inr, Bool, Option, none, some, List, [], ◌∷◌, ◌++◌, map, Perm,
  arith, DecEq, length, length-append, extract, extract_cons, Bool-cases, ensures_ok,
}
use react_native_surrealdb.Protocol.{
  CommitIdentity, commit_identity_eq, ClientCommitId, ClientCommit,
}
use react_native_surrealdb.Client.{
  ConflictResolution, ResolvedCommit, DurableClientState, ClientRuntime,
}
use react_native_surrealdb.Client.Remap.{accepted_mappings}
use react_native_surrealdb.Client.Remap.Kept.{
  commit_identity, resolved_identity, apply_id_mappings-Keeps, identity-remap_all,
}
use react_native_surrealdb.Client.Runtime.{resolve_first, is_conflict_of}
use react_native_surrealdb.Client.Runtime.Pull.{cover}
use react_native_surrealdb.Client.Validate.WellFormed.{identities}
use react_native_surrealdb.Client.History.{Event, step, run}
use react_native_surrealdb.Client.History.Change.{
  Change, unchanged, enqueued, settled, closed, replaced, pulled, reset, rewindowed,
}
use react_native_surrealdb.Client.History.Steps.{step_cases}

module _ {V : Type 0} where
  -- The commits of one state, and at most `n` new ones.
  abbrev pub Adds : ℕ → DurableClientState V → DurableClientState V → Type 0
  Adds n s t =
      (new : List CommitIdentity) × (length new ≤ n) × Perm (identities t) (new ++ identities s)

  Adds-none :
      (s t : DurableClientState V)
      → map commit_identity t.outbox ≡ map commit_identity s.outbox
      → map resolved_identity t.outcomes ≡ map resolved_identity s.outcomes
      → Adds 1 s t
  Adds-none s t p q = ([], omega arith, rw (p, q) (Perm.refl _))

  Adds-one :
      (s t : DurableClientState V) (commit : ClientCommit V)
      → t.outbox ≡ s.outbox ++ commit ∷ []
      → map resolved_identity t.outcomes ≡ map resolved_identity s.outcomes
      → Adds 1 s t
  Adds-one s t commit p q = (
    commit.identity ∷ [],
    omega arith,
    rw (p, q, map-append commit_identity s.outbox (commit ∷ []))
        (Perm.append_right _
          (perm_append_singleton commit.identity (map commit_identity s.outbox))),
  )

  identities-resolve_first :
      (id : ClientCommitId) (resolution : ConflictResolution) (outcomes : List (ResolvedCommit V))
      → map resolved_identity (resolve_first id resolution outcomes)
        ≡ map resolved_identity outcomes
  identities-resolve_first id resolution [] = refl
  identities-resolve_first id resolution (r ∷ rs) = elim (Bool-cases (is_conflict_of id r)) [
    | inl p ↦ rw p refl
    | inr p ↦ rw p (ap (◌∷◌ r.local_commit.identity) (identities-resolve_first id resolution rs))
  ]

  identities-cover :
      (same : Bool) (sequence : ℕ) (outcomes : List (ResolvedCommit V))
      → map resolved_identity (map (cover same sequence) outcomes) ≡ map resolved_identity outcomes
  identities-cover same sequence [] = refl
  identities-cover same sequence (r ∷ rs) =
      ap (◌∷◌ r.local_commit.identity) (identities-cover same sequence rs)

  extract_cons-inv :
      (x : ClientCommit V) (o : Option (ClientCommit V × List (ClientCommit V)))
      {c : ClientCommit V} {rest : List (ClientCommit V)}
      → extract_cons x o ≡ some (c, rest)
      → (later : List (ClientCommit V)) × (o ≡ some (c, later)) × (rest ≡ x ∷ later)
  extract_cons-inv x none h = cc
  extract_cons-inv x (some (y, later)) h = (later, ground arith, ground arith)

  pub extract-perm :
      (p : ClientCommit V → Bool) (commits : List (ClientCommit V)) {c : ClientCommit V}
      {rest : List (ClientCommit V)}
      → extract p commits ≡ some (c, rest)
      → Perm (map commit_identity commits) (c.identity ∷ map commit_identity rest)
  extract-perm p [] h = cc
  extract-perm p (x ∷ xs) {c} {rest} h = elim (Bool-cases (p x)) [
    | inl first ↦
        let e : some (x, xs) ≡ some (c, rest) = rw first at h in
        let same : map commit_identity (x ∷ xs) ≡ c.identity ∷ map commit_identity rest =
          ground arith in
        rw same (Perm.refl _)
    | inr later ↦
        let e : extract_cons x (extract p xs) ≡ some (c, rest) = rw later at h in
        let r = extract_cons-inv x (extract p xs) e in
        rw r.2 (
          Perm.trans (Perm.cons x.identity (extract-perm p xs r.1))
            (Perm.swap c.identity x.identity _))
  ]

  settled_perm :
      (s t next : DurableClientState V) (pending : ClientCommit V) (rest : List (ClientCommit V))
      (resolved : ResolvedCommit V)
      → Perm (map commit_identity s.outbox) (pending.identity ∷ map commit_identity rest)
      → map commit_identity next.outbox ≡ map commit_identity rest
      → map resolved_identity next.outcomes ≡ map resolved_identity s.outcomes
      → resolved.local_commit.identity ≡ pending.identity
      → t ≡ record next { outcomes = next.outcomes ++ resolved ∷ [] }
      → Adds 1 s t
  settled_perm s t next pending rest resolved taken a b c e =
      let end = map-append resolved_identity next.outcomes (resolved ∷ []) in
      (
        [],
        omega arith,
        rw (e, end, a, b, c, ← append_assoc)
            (Perm.trans
              (perm_append_singleton pending.identity
                (map commit_identity rest ++ map resolved_identity s.outcomes))
              (Perm.append_right (map resolved_identity s.outcomes) (Perm.symm taken))),
      )

module _ {V : Type 0} ⦃v : DecEq V⦄ where
  Change-Adds : (s t : DurableClientState V) → Change s t → Adds 1 s t
  Change-Adds s t (unchanged e) =
      Adds-none s t (ap (λ x. map commit_identity x.outbox) e)
        (ap (λ x. map resolved_identity x.outcomes) e)
  Change-Adds s t (enqueued commit fresh e) =
      Adds-one s t commit (ap (λ x. x.outbox) e) (ap (λ x. map resolved_identity x.outcomes) e)
  Change-Adds s t (settled pending rest outcome resolution next taken mapped e) =
      let k = ensures_ok (apply_id_mappings-Keeps _ (accepted_mappings outcome)) mapped in
      settled_perm s t next pending rest _ (extract-perm _ s.outbox taken) k.pending k.settled
        (identity-remap_all (accepted_mappings outcome) pending) e
  Change-Adds s t (closed id resolution e) =
      Adds-none s t (ap (λ x. map commit_identity x.outbox) e) (
        ap (λ x. map resolved_identity x.outcomes) e
        ∙ identities-resolve_first id resolution s.outcomes)
  Change-Adds s t (replaced id resolution commit fresh e) =
      Adds-one s t commit (ap (λ x. x.outbox) e) (
        ap (λ x. map resolved_identity x.outcomes) e
        ∙ identities-resolve_first id resolution s.outcomes)
  Change-Adds s t (pulled checkpoint confirmed f e) =
      Adds-none s t (ap (λ x. map commit_identity x.outbox) e)
        (ap (λ x. map resolved_identity x.outcomes) e)
  Change-Adds s t (reset checkpoint confirmed f e) =
      Adds-none s t (ap (λ x. map commit_identity x.outbox) e)
        (ap (λ x. map resolved_identity x.outcomes) e ∙ identities-cover _ _ s.outcomes)
  Change-Adds s t (rewindowed subs e) =
      Adds-none s t (ap (λ x. map commit_identity x.outbox) e)
        (ap (λ x. map resolved_identity x.outcomes) e)

  -- One event.
  pub step-Adds :
      (self : ClientRuntime V) (event : Event V) → Adds 1 self.state (step self event).state
  step-Adds self event =
      step_cases (λ rt. Adds 1 self.state rt.state) self event ([], omega arith, Perm.refl _)
        λ next t change advances valid. elim advances [
          | inl (same, e) ↦ rw e ([], omega arith, Perm.refl _)
          | inr (e, _) ↦ rw e (Change-Adds self.state next change)
        ]

  -- No commit is lost: after any list of events the identities of the pending and resolved commits
  -- are a permutation of those before, with at most one new identity for each event.
  pub run-Adds :
      (self : ClientRuntime V) (events : List (Event V))
      → Adds (length events) self.state (run self events).state
  unfolding run
  run-Adds self [] = ([], omega arith, Perm.refl _)
  run-Adds self (event ∷ events) =
      let one = step-Adds self event in
      let rest = run-Adds (step self event) events in
      (
        rest.0 ++ one.0,
        omega (arith, length-append rest.0 one.0, one.1, rest.1),
        Perm.trans rest.2 (
            rw (append_assoc rest.0 one.0 (identities self.state)) (Perm.append_left rest.0 one.2)),
      )
