-- ===== src/Client/History/Resolve.antt =====
-- surrealdb-sync-client/src/lib.rs, prepare_resolve_conflict: which outcome a resolution closes, and
-- what it does when that is closed already.
use mathlib.Core.List.{append-nil}
use react_native_surrealdb.Base.{
  ◌≡◌, refl, ap, ◌∙◌, subst, ◌⊎◌, inl, inr, ◌↔◌, Bool, true, false, not, ◌||◌, Option, none, some,
  List, [], ◌∷◌, ◌++◌, arith, DecEq, nat_eq, ◌==◌, find, map, update_first, All, Bool-cases, ok,
  fail_if, fail_if_iff, ok_or, Ensures, Ensures-bind, Ensures-seq, Ensures-if, Ensures-map, fails,
  holds, ok-injective,
}
use react_native_surrealdb.Base.Bytes.{bytes_eq}
use react_native_surrealdb.Protocol.{
  ClientCommitId, CommitIdentity, commit_identity_eq, RecordId, ClientCommit, RecordState,
  DurableOutcome,
}
use react_native_surrealdb.Client.{
  ClientError, ConflictResolution, ConflictResolutionRequest, ResolvedCommit, DurableClientState,
  durable_client_state_eq, ClientRuntime,
}
use react_native_surrealdb.Client.Commits.{
  is_conflict, commit_id, resolved_id, identity_exists, validate_replacement_identity, same_intent,
  resolution_request_matches,
}
use react_native_surrealdb.Client.Validate.{validate}
use react_native_surrealdb.Client.Runtime.{
  is_conflict_of, resolve_first, rebased, conflict_record, next_revision, prepare,
  prepare_replacement, resolve, resolve_again, prepare_resolve_conflict,
}
use react_native_surrealdb.Client.History.Replacement.{
  some_injective, IsBasedOn, rebased-IsBasedOn, intent, same_intent-intent, Matches,
  resolution_request_matches-Matches,
}
use react_native_surrealdb.Client.History.Steps.{prepared}

All-map :
    {A : Type 0} {P Q : A → Type 0} (xs : List A) → ((x : A) → P x → Q x) → All P xs → All Q xs
All-map [] f h = tt
All-map (x ∷ xs) f h = (f x h.0, All-map xs f h.1)

-- The first element that passes, in its place.
find-split :
    {A : Type 0} (p : A → Bool) (xs : List A) {x : A}
    → find p xs ≡ some x
    → (before : List A) × (after : List A) × (xs ≡ before ++ x ∷ after)
      × (p x ≡ true)
      × All (λ y. p y ≡ false) before
      × ((f : A → A) → update_first p f xs ≡ before ++ f x ∷ after)
find-split p [] h = absurd (cc h)
find-split p (y ∷ ys) {x} h = elim (Bool-cases (p y)) [
  | inl t ↦
      let e : y ≡ x = some_injective (rw t at h) in
      (
        [],
        ys,
        ap (λ z. z ∷ ys) e,
        subst (λ z. p z ≡ true) e t,
        tt,
        λ f. rw t (ap (λ z. f z ∷ ys) e),
      )
  | inr other ↦
      let (before, after, e, passes, others, updated) = find-split p ys (rw other at h) in
      (
        y ∷ before,
        after,
        ap (λ l. y ∷ l) e,
        passes,
        (other, others),
        λ f. rw other (ap (λ l. y ∷ l) (updated f)),
      )
]

module _ {V : Type 0} where
  -- A commit with this id that ended in a conflict.
  abbrev pub IsConflictOf : ClientCommitId → ResolvedCommit V → Type 0
  IsConflictOf id r =
      (resolved_id r ≡ id)
      × ((identity : CommitIdentity) × (record_id : RecordId) × (state : RecordState V) × (r.outcome
            ≡ DurableOutcome.conflict identity record_id state))

  -- The resolution that a request asks for, and the commits that it puts in the outbox.
  abbrev pub answer_of : ConflictResolutionRequest V → ConflictResolution
  answer_of ConflictResolutionRequest.keep_server = ConflictResolution.keep_server
  answer_of (ConflictResolutionRequest.keep_local c) = ConflictResolution.keep_local c.identity
  answer_of (ConflictResolutionRequest.merge c) = ConflictResolution.merge c.identity

  abbrev pub replacements : ConflictResolutionRequest V → List (ClientCommit V)
  replacements ConflictResolutionRequest.keep_server = []
  replacements (ConflictResolutionRequest.keep_local c) = c ∷ []
  replacements (ConflictResolutionRequest.merge c) = c ∷ []

  is_conflict-conflict :
      (outcome : DurableOutcome V)
      → (is_conflict outcome ≡ true) ↔ (
          (identity : CommitIdentity) × (record_id : RecordId) × (state : RecordState V) × (outcome
            ≡ DurableOutcome.conflict identity record_id state))
  is_conflict-conflict (DurableOutcome.accepted identity sequence mappings) =
      (λ h. absurd (cc h), λ (i, id, state, e). absurd (cc e))
  is_conflict-conflict (DurableOutcome.conflict identity id state) =
      (λ h. (identity, id, state, refl), λ h. refl)
  is_conflict-conflict (DurableOutcome.rejected identity reason) =
      (λ h. absurd (cc h), λ (i, id, state, e). absurd (cc e))

  is_conflict_of-IsConflictOf :
      (id : ClientCommitId) (r : ResolvedCommit V)
      → (is_conflict_of id r ≡ true) ↔ IsConflictOf id r
  is_conflict_of-IsConflictOf id r =
      let iff = is_conflict-conflict r.outcome in
      (
        λ h. (ground (arith, h), iff.0 (ground (arith, h))),
        λ h. let same = h.0 in let conflict = iff.1 h.1 in ground (arith, same, conflict),
      )

ok_or-some : {A : Type 0} {a : A} (e : ClientError) (o : Option A) → ok_or o e ≡ ok a → o ≡ some a
ok_or-some e none h = absurd (cc h)
ok_or-some e (some b) h = ap some (ok-injective h)

module _ {V : Type 0} ⦃v : DecEq V⦄ where
  -- What a request to close a conflict must bring: a replacement is a new commit that is based on
  -- the conflict, and one that keeps the local intent has the same operations but for their bases.
  abbrev pub MayClose :
      DurableClientState V → ResolvedCommit V → ConflictResolutionRequest V → Type 0
  MayClose s r ConflictResolutionRequest.keep_server = Unit
  MayClose s r (ConflictResolutionRequest.keep_local c) =
      (identity_exists s (commit_id c) ≡ false)
      × (map intent r.local_commit.operations ≡ map intent c.operations)
      × IsBasedOn r.outcome c
  MayClose s r (ConflictResolutionRequest.merge c) =
      (identity_exists s (commit_id c) ≡ false) × IsBasedOn r.outcome c

  -- The state that follows a conflict's resolution.
  abbrev Closes :
      DurableClientState V
      → ClientCommitId
      → ResolvedCommit V
      → ConflictResolutionRequest V
      → DurableClientState V
      → Type 0
  Closes s id r request t =
      MayClose s r request
      × (t ≡ record s {
        outcomes = resolve_first id (answer_of request) s.outcomes;
        outbox = s.outbox ++ replacements request;
        revision = t.revision;
      })

  prepare-Closes :
      (self : ClientRuntime V) (id : ClientCommitId) (r : ResolvedCommit V)
      (request : ConflictResolutionRequest V)
      → MayClose self.state r request
      → Ensures
          (λ p. Closes self.state id r request p.state)
          (prepare self (record (self.state) {
            outcomes = resolve_first id (answer_of request) self.state.outcomes;
            outbox = self.state.outbox ++ replacements request;
          }))
  prepare-Closes self id r request m =
      prepared (λ t. Closes self.state id r request t) self _ (λ n. (m, refl))

  resolve-Closes :
      (self : ClientRuntime V) (id : ClientCommitId) (r : ResolvedCommit V)
      (request : ConflictResolutionRequest V)
      → Ensures (λ p. Closes self.state id r request p.state) (resolve self id r request)
  unfolding resolve prepare_replacement validate_replacement_identity
  resolve-Closes self id r ConflictResolutionRequest.keep_server =
      subst
        (λ box.
          Ensures (λ p. Closes self.state id r ConflictResolutionRequest.keep_server p.state)
            (prepare self (record (self.state) {
              outcomes = resolve_first id ConflictResolution.keep_server self.state.outcomes;
              outbox = box;
            })))
        (append-nil self.state.outbox)
        (prepare-Closes self id r ConflictResolutionRequest.keep_server tt)
  resolve-Closes self id r (ConflictResolutionRequest.keep_local c) =
      Ensures-seq (validate_replacement_identity self.state c) λ new.
        Ensures-seq
          (fail_if
            (not (same_intent r.local_commit c) || not (rebased c (conflict_record r.outcome)))
            ClientError.invalid_conflict_resolution)
          λ based.
            let passed = (fail_if_iff _ _).0 based in
            prepare-Closes self id r (ConflictResolutionRequest.keep_local c) (
              ground arith,
              same_intent-intent r.local_commit c (ground (arith, passed)),
              rebased-IsBasedOn r.outcome c (ground (arith, passed)),
            )
  resolve-Closes self id r (ConflictResolutionRequest.merge c) =
      Ensures-seq (validate_replacement_identity self.state c) λ new.
        Ensures-seq
          (fail_if (not (rebased c (conflict_record r.outcome)))
            ClientError.invalid_conflict_resolution)
          λ based.
            let passed = (fail_if_iff _ _).0 based in
            prepare-Closes self id r (ConflictResolutionRequest.merge c)
              (ground arith, rebased-IsBasedOn r.outcome c (ground (arith, passed)))

  prepare-unchanged :
      (self : ClientRuntime V) → Ensures (λ p. p.state ≡ self.state) (prepare self self.state)
  unfolding prepare next_revision
  prepare-unchanged self =
      let same : (self.state == self.state) ≡ true = ground arith in
      rw same (Ensures-seq (validate self.state) λ _. holds refl)

  -- A conflict that was open is closed, or a conflict that was closed in this way is left as it is.
  abbrev pub Resolved :
      DurableClientState V
      → ClientCommitId
      → ConflictResolutionRequest V
      → DurableClientState V
      → Type 0
  Resolved s id request t =
      (before : List (ResolvedCommit V)) × (r : ResolvedCommit V) × (after : List
        (ResolvedCommit V))
      × (s.outcomes ≡ before ++ r ∷ after)
      × IsConflictOf id r
      × All (λ b. ¬ IsConflictOf id b) before
      × (((r.resolution ≡ none)
            × MayClose s r request
            × (t ≡ record s {
              outcomes = before ++ record r { resolution = some (answer_of request) } ∷ after;
              outbox = s.outbox ++ replacements request;
              revision = t.revision;
            }))
          ⊎ ((resolution : ConflictResolution) × (r.resolution ≡ some resolution)
              × Matches s resolution request
              × (t ≡ s)))

  Again :
      DurableClientState V
      → ClientCommitId
      → ResolvedCommit V
      → ConflictResolutionRequest V
      → Option ConflictResolution
      → DurableClientState V
      → Type 0
  Again s id r request o t =
      ((o ≡ none) × Closes s id r request t)
      ⊎ ((resolution : ConflictResolution) × (o ≡ some resolution)
          × Matches s resolution request
          × (t ≡ s))

  resolve_again-Again :
      (self : ClientRuntime V) (id : ClientCommitId) (r : ResolvedCommit V)
      (request : ConflictResolutionRequest V) (o : Option ConflictResolution)
      → Ensures (λ p. Again self.state id r request o p.state) (resolve_again self id r request o)
  unfolding resolve_again Again
  resolve_again-Again self id r request none =
      Ensures-map (resolve-Closes self id r request) λ p c. inl (refl, c)
  resolve_again-Again self id r request (some resolution) =
      Ensures-if (resolution_request_matches self.state resolution request)
        (λ same. Ensures-map (prepare-unchanged self) λ p kept. inr (
          resolution,
          refl,
          resolution_request_matches-Matches self.state resolution request same,
          kept,
        ))
        (λ _. fails)

  -- Whenever a conflict's resolution is prepared, the first outcome that is a conflict of the
  -- named commit was open and is now closed in the requested way, at its place and with nothing
  -- else changed but the outbox, which a replacement joins at its end, and the revision; or it was
  -- closed before as the request asks (by the user or the policy, the replacement still being
  -- held), and the state is unchanged. A replacement has a new id and an operation on the
  -- conflict's record whose base is the version there; one that keeps the local intent has its
  -- operations, in order and but for their bases.
  pub resolve_conflict-Resolved :
      (self : ClientRuntime V) (id : ClientCommitId) (request : ConflictResolutionRequest V)
      → Ensures
          (λ p. Resolved self.state id request p.state)
          (prepare_resolve_conflict self id request)
  unfolding prepare_resolve_conflict Again
  resolve_conflict-Resolved self id request =
      Ensures-bind
        (ok_or (find (is_conflict_of id) self.state.outcomes) (ClientError.unknown_conflict id))
        λ r found.
          let (before, after, e, passes, others, updated) =
            find-split (is_conflict_of id) self.state.outcomes
              (ok_or-some _ (find (is_conflict_of id) self.state.outcomes) found) in
          let place =
            updated (λ resolved. record resolved { resolution = some (answer_of request) }) in
          Ensures-map (resolve_again-Again self id r request r.resolution) λ p again. (
            before,
            r,
            after,
            e,
            (is_conflict_of-IsConflictOf id r).0 passes,
            All-map before
                (λ b f c. absurd (ground (arith, f, (is_conflict_of-IsConflictOf id b).1 c)))
                others,
            elim again [
              | inl (open_still, (may, t)) ↦ inl (
                open_still,
                may,
                t
                    ∙ ap
                        (λ l. record (self.state) {
                          outcomes = l;
                          outbox = self.state.outbox ++ replacements request;
                          revision = p.state.revision;
                        })
                        place,
              )
              | inr closed ↦ inr closed
            ],
          )
