-- ===== src/Client/History/Retried.antt =====
-- surrealdb-sync-client/src/lib.rs, prepare_push_response_with_policy: a response that is delivered
-- again.
use react_native_surrealdb.Base.{
  Bool, ◌≡◌, ◌∙◌, refl, sym, ap, true, false, Option, none, some, List, [], ◌∷◌, ◌++◌, map, arith,
  DecEq, nat_eq, ◌==◌, find, extract, ok, fail_if, Ensures, fails, inl, inr, Ensures-seq,
  Ensures-bind, Ensures-if, Ensures-of, ensures_ok, Bool-cases, extract_cons, fail_if_iff,
}
use react_native_surrealdb.Base.Bytes.{bytes_eq}
use react_native_surrealdb.Protocol.{
  commit_identity_eq, ClientCommitId, ClientCommit, durable_outcome_eq, outcome_identity,
  PushResponse,
}
use react_native_surrealdb.Client.{
  ClientError, AutomaticConflictPolicy, ResolvedCommit, DurableClientState, durable_client_state_eq,
  ClientRuntime,
}
use react_native_surrealdb.Client.Commits.{resolved_id}
use react_native_surrealdb.Client.Validate.{validate}
use react_native_surrealdb.Client.Remap.{accepted_mappings, apply_id_mappings}
use react_native_surrealdb.Client.Remap.Kept.{
  resolved_identity, identity-remap_all, apply_id_mappings-Keeps,
}
use react_native_surrealdb.Client.Runtime.{
  is_foreign, next_revision, prepare, settle_pending, settle, prepare_push_response_with_policy,
}
use react_native_surrealdb.Client.History.Steps.{transition-valid, prepared}
use react_native_surrealdb.Client.History.{Event, transition}

module _ {V : Type 0} where
  abbrev has_id : ClientCommitId → ResolvedCommit V → Bool
  has_id id resolved = resolved_id resolved == id

  -- The lookup of an outcome reads only identities.
  find-identity :
      (id : ClientCommitId) (xs ys : List (ResolvedCommit V))
      → map resolved_identity ys ≡ map resolved_identity xs
      → find (has_id id) xs ≡ none
      → find (has_id id) ys ≡ none
  find-identity id [] [] e h = refl
  find-identity id [] (y ∷ ys) e h = cc
  find-identity id (x ∷ xs) [] e h = refl
  find-identity id (x ∷ xs) (y ∷ ys) e h =
      let heads : y.local_commit.identity ≡ x.local_commit.identity = cc in
      let tails : map resolved_identity ys ≡ map resolved_identity xs = cc in
      ground (arith, find-identity id xs ys tails)

  find-append :
      (id : ClientCommitId) (xs : List (ResolvedCommit V)) (resolved : ResolvedCommit V)
      → find (has_id id) xs ≡ none
      → resolved_id resolved ≡ id
      → find (has_id id) (xs ++ resolved ∷ []) ≡ some resolved
  find-append id [] resolved h e = ground arith
  find-append id (x ∷ xs) resolved h e = ground (arith, find-append id xs resolved)

  extract-test :
      (test : ClientCommit V → Bool) (xs : List (ClientCommit V)) {x : ClientCommit V}
      {rest : List (ClientCommit V)}
      → extract test xs ≡ some (x, rest)
      → test x ≡ true
  extract-test test [] h = cc
  extract-test test (y ∷ ys) {x} {rest} h = elim (Bool-cases (test y)) [
    | inl yes_y ↦
        let e : some (y, ys) ≡ some (x, rest) = (rw yes_y at h) in
        let same : y ≡ x = cc in ap test (sym same) ∙ yes_y
    | inr no_y ↦
        let e : extract_cons y (extract test ys) ≡ some (x, rest) = (rw no_y at h) in
        later y (extract test ys) (λ z r q. extract-test test ys {x = z} {rest = r} q) e
  ]
    where
      later :
          (y : ClientCommit V) (o : Option (ClientCommit V × List (ClientCommit V)))
          → ((z : ClientCommit V) (r : List (ClientCommit V)) → o ≡ some (z, r) → test z ≡ true)
          → {x : ClientCommit V} {rest : List (ClientCommit V)} → extract_cons y o ≡ some (x, rest)
          → test x ≡ true
      later y none f e = cc
      later y (some (z, r)) f {x} {rest} e =
          let same : z ≡ x = cc in ap test (sym same) ∙ f z r refl

module _ {V : Type 0} ⦃v : DecEq V⦄ where
  -- The state has the outcome of the response, for its own partition and client.
  abbrev pub Records : PushResponse V → DurableClientState V → Type 0
  Records response t =
      (is_foreign (record { state = t }) response ≡ false)
      × ((resolved : ResolvedCommit V) × (find
              (has_id (outcome_identity response.outcome).client_commit_id) t.outcomes
            ≡ some resolved)
          × (resolved.outcome ≡ response.outcome))

  settle_pending-Records :
      (self : ClientRuntime V) (response : PushResponse V) (policy : AutomaticConflictPolicy)
      → is_foreign self response ≡ false
      → find (has_id (outcome_identity response.outcome).client_commit_id) self.state.outcomes
        ≡ none
      → (o : Option (ClientCommit V × List (ClientCommit V)))
      → extract (λ commit. commit.identity == outcome_identity response.outcome) self.state.outbox
        ≡ o
      → Ensures (λ p. Records response p.state) (settle_pending self response.outcome policy o)
  unfolding settle_pending is_foreign
  settle_pending-Records self response policy own new none e = fails
  settle_pending-Records self response policy own new (some (pending, outbox)) e =
      Ensures-bind
        (apply_id_mappings (record (self.state) { outbox = outbox })
          (accepted_mappings response.outcome))
        λ next h.
          let k =
            ensures_ok
              (apply_id_mappings-Keeps (record (self.state) { outbox = outbox })
                (accepted_mappings response.outcome))
              h in
          let i = extract-test _ self.state.outbox e in
          let id = identity-remap_all (accepted_mappings response.outcome) pending in
          prepared (Records response) self _ λ n. (
            ground (arith, k.partition_id, k.client_id, own),
            (
              _,
              find-append _ next.outcomes _
                  (find-identity _ self.state.outcomes next.outcomes k.settled new) ground
                  (arith, i, ap (λ c. c.client_commit_id) id),
              refl,
            ),
          )

  settle-Records :
      (self : ClientRuntime V) (response : PushResponse V) (policy : AutomaticConflictPolicy)
      → is_foreign self response ≡ false
      → (o : Option (ResolvedCommit V))
      → find (has_id (outcome_identity response.outcome).client_commit_id) self.state.outcomes ≡ o
      → Ensures (λ p. Records response p.state) (settle self response.outcome policy o)
  unfolding settle is_foreign
  settle-Records self response policy own none found =
      settle_pending-Records self response policy own found _ refl
  settle-Records self response policy own (some resolved) found =
      Ensures-if (resolved.outcome == response.outcome)
        (λ same.
          prepared (Records response) self self.state λ n. (own, (resolved, found, ground arith)))
        (λ other. fails)

  push-Records :
      (self : ClientRuntime V) (response : PushResponse V) (policy : AutomaticConflictPolicy)
      → Ensures
          (λ p. Records response p.state)
          (prepare_push_response_with_policy self response policy)
  unfolding prepare_push_response_with_policy
  push-Records self response policy =
      Ensures-seq (fail_if (is_foreign self response) ClientError.envelope_mismatch) λ h.
        settle-Records self response policy
          ((fail_if_iff (is_foreign self response) ClientError.envelope_mismatch).0 h) _ refl

  prepare-same :
      (t : DurableClientState V)
      → validate t ≡ ok tt
      → prepare (record { state = t }) t ≡ ok (record { base_revision = t.revision; state = t })
  unfolding prepare next_revision
  prepare-same t valid = let same : (t == t) ≡ true = ground arith in rw (same, valid) refl

  settle-again :
      (t : DurableClientState V) (response : PushResponse V) (policy : AutomaticConflictPolicy)
      (resolved : ResolvedCommit V)
      → validate t ≡ ok tt
      → resolved.outcome ≡ response.outcome
      → settle (record { state = t }) response.outcome policy (some resolved)
        ≡ ok (record { base_revision = t.revision; state = t })
  unfolding settle
  settle-again t response policy resolved valid e =
      let same : (resolved.outcome == response.outcome) ≡ true = ground arith in
      rw same (prepare-same t valid)

  Records-again :
      (t : DurableClientState V) (response : PushResponse V) (policy : AutomaticConflictPolicy)
      → validate t ≡ ok tt
      → Records response t
      → prepare_push_response_with_policy (record { state = t }) response policy
        ≡ ok (record { base_revision = t.revision; state = t })
  unfolding prepare_push_response_with_policy
  Records-again t response policy valid (own, (resolved, found, same)) =
      rw (own, found) (settle-again t response policy resolved valid same)

  -- Whenever a push response is prepared under some policy, preparing the same response again in
  -- the state that results, under any policy, succeeds and leaves that state as it is.
  pub push-again :
      (self : ClientRuntime V) (response : PushResponse V) (policy later : AutomaticConflictPolicy)
      → Ensures
          (λ p.
            prepare_push_response_with_policy (record { state = p.state }) response later
            ≡ ok (record { base_revision = p.state.revision; state = p.state }))
          (prepare_push_response_with_policy self response policy)
  unfolding transition
  push-again self response policy later =
      Ensures-of (prepare_push_response_with_policy self response policy) λ p h.
        Records-again p.state response later (transition-valid self (Event.push response policy) h)
          (ensures_ok (push-Records self response policy) h)
