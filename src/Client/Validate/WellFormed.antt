-- ===== src/Client/Validate/WellFormed.antt =====
-- What `DurableClientState::validate` of surrealdb-sync-client/src/lib.rs accepts, stated without
-- its loops, and the proof that it accepts exactly that.
use react_native_surrealdb.Base.{
  ◌≤◌, ◌≡◌, refl, sym, subst, ◌≢◌, ◌↔◌, true, false, Option, none, some, List, [], ◌∷◌, ◌++◌, map,
  Nodup, arith, All, All-map, Bool-cases, IfSome, Mem, any-Mem-append, if◌then◌else◌, not, ◌||◌,
  inl, inr, is_empty, contains, ◌==◌, ok, err, fail_if, fail_if_iff, >>=-eq-ok, >>-eq-ok,
  ok-injective, try_for_each, try_for_each-All,
}
use react_native_surrealdb.Base.Bytes.{Bytes, bytes_eq}
use react_native_surrealdb.Base.BTreeMap.{BTreeMap, get, contains_key, keys}
use react_native_surrealdb.Base.Distinct.{Fresh, Fresh-Nodup, Fresh-append, add_seen}
use react_native_surrealdb.Protocol.{
  ClientCommitId, CommitIdentity, commit_identity_eq, RecordId, Operation, record_id, ClientCommit,
  RecordState, outcome_identity, Checkpoint,
}
use react_native_surrealdb.Client.{
  ClientError, ConflictResolution, ResolvedCommit, DurableClientState, DurableSubscriptions,
  ResetCoverage,
}
use react_native_surrealdb.Client.Commits.{
  is_accepted, is_conflict, commit_id, resolved_id, validate_operations, validate_commit,
  prefer_server_eligible, outbox_ids, outcome_ids,
}
use react_native_surrealdb.Client.Slots.{validate_subscriptions}
use react_native_surrealdb.Client.Validate.{
  validate_outbox, validate_resolved, validate_outcomes, validate_replacement,
  validate_resolution_of, validate_optional_resolution, validate_resolution,
  validate_conflict_resolutions, validate_scope, is_absent, validate_checkpoint, validate_coverage,
  validate_id_map, contains_id, validate_no_mapped_local_ids, validate_windows, validate,
}

-- A reset covers a frontier of the installed epoch and scope, not past the checkpoint.
abbrev pub Covers : Option Checkpoint → ResetCoverage → Type 0
Covers none coverage = ⊥
Covers (some checkpoint) coverage =
    (coverage.cursor.epoch ≢ 0)
    × (coverage.cursor.epoch ≡ checkpoint.cursor.epoch)
    × (coverage.cursor.sequence ≤ checkpoint.cursor.sequence)
    × (coverage.scope ≡ checkpoint.scope)

validate_id_map_iff :
    (id_map : BTreeMap RecordId)
    → (validate_id_map id_map ≡ ok tt) ↔ All (λ e. (e.0 ≢ e.1) × (get e.1 id_map ≡ none)) id_map
unfolding validate_id_map
validate_id_map_iff id_map =
    let loop =
      try_for_each-All
        (λ (e : Bytes × RecordId).
          fail_if (e.0 == e.1 || contains_key e.1 id_map)
            (ClientError.invalid_id_mapping (record { local_id = e.0; canonical_id = e.1 })))
        id_map in
    (
      λ h. All-map _ _ id_map (λ e p. (ground arith, ground arith)) (loop.0 h),
      λ h. loop.1 (All-map _ _ id_map (λ e p. ground arith) h),
    )

module _ {V : Type 0} where
  -- A commit has operations, on distinct records.
  abbrev pub IsCommit : ClientCommit V → Type 0
  IsCommit commit = (commit.operations ≢ []) × Nodup (map record_id commit.operations)

  -- A resolved commit keeps the identity that its outcome names; only a receipt can be covered.
  abbrev pub IsResolved : ResolvedCommit V → Type 0
  IsResolved resolved =
      IsCommit resolved.local_commit
      × (resolved.covered_by_reset ≡ true → is_accepted resolved.outcome ≡ true)
      × (outcome_identity resolved.outcome ≡ resolved.local_commit.identity)

  -- The identities of all commits that the state holds.
  abbrev pub identities : DurableClientState V → List CommitIdentity
  identities state =
      map (λ c. c.identity) state.outbox ++ map (λ r. r.local_commit.identity) state.outcomes

  abbrev pub IsResolution : DurableClientState V → ResolvedCommit V → ConflictResolution → Type 0
  IsResolution state resolved ConflictResolution.keep_server = Unit
  IsResolution state resolved ConflictResolution.prefer_server_policy_v1 =
      prefer_server_eligible resolved.local_commit resolved.outcome ≡ true
  IsResolution state resolved (ConflictResolution.keep_local replacement) =
      (replacement ≢ resolved.local_commit.identity) × Mem replacement (identities state)
  IsResolution state resolved (ConflictResolution.merge replacement) =
      (replacement ≢ resolved.local_commit.identity) × Mem replacement (identities state)

  -- Only a conflict has a resolution, and the replacement that it names is held.
  abbrev pub HasResolution : DurableClientState V → ResolvedCommit V → Type 0
  HasResolution state resolved =
      IfSome
        (λ resolution.
          (is_conflict resolved.outcome ≡ true) × IsResolution state resolved resolution)
        resolved.resolution

  abbrev pub IsInScope : DurableClientState V → Checkpoint → Type 0
  IsInScope state checkpoint =
      (checkpoint.scope.identity ≡ state.requested_scope)
      × (checkpoint.scope.subscription_revision ≡ state.subscription_revision)

  abbrev pub IsCheckpoint : DurableClientState V → Checkpoint → Type 0
  IsCheckpoint state checkpoint =
      (checkpoint.token ≢ []) × (checkpoint.cursor.epoch ≢ 0) × IsInScope state checkpoint

  -- What `validate` is for. The subscription tables are as `validate_subscriptions` has them.
  pub record WellFormed (state : DurableClientState V) : Type 0 where
    pub distinct_ids : Nodup (outbox_ids state ++ outcome_ids state)
    pub pending : All IsCommit state.outbox
    pub resolved : All IsResolved state.outcomes
    pub resolutions : All (HasResolution state) state.outcomes
    pub no_absent_rows : All (λ e. is_absent e.1 ≡ false) state.confirmed
    pub checkpoint : IfSome (IsCheckpoint state) state.checkpoint
    pub coverage : IfSome (Covers state.checkpoint) state.reset_coverage
    pub windows : IfSome (λ subs. validate_subscriptions subs state ≡ ok tt) state.subscriptions
    pub id_map_flat : All (λ e. (e.0 ≢ e.1) × (get e.1 state.id_map ≡ none)) state.id_map
    pub local_ids_gone : All (λ id. contains_id state id ≡ false) (keys state.id_map)

  pub validate_operations-Fresh :
      (seen : List RecordId) (ops : List (Operation V))
      → (validate_operations seen ops ≡ ok tt) ↔ Fresh seen (map record_id ops)
  unfolding validate_operations
  validate_operations-Fresh seen [] = (λ _. tt, λ _. refl)
  validate_operations-Fresh seen (op ∷ ops) =
      let rest = validate_operations-Fresh (record_id op ∷ seen) ops in
      elim (Bool-cases (contains (record_id op) seen)) [
        | inl old ↦ (λ h. ground arith, λ h. ground arith)
        | inr new ↦ (λ h. (new, rest.0 (rw new at h)), λ h. rw new (rest.1 h.1))
      ]

  pub validate_commit-IsCommit :
      (commit : ClientCommit V) → (validate_commit commit ≡ ok tt) ↔ IsCommit commit
  unfolding validate_commit
  validate_commit-IsCommit commit = go commit.operations
    where
      go :
          (ops : List (Operation V))
          → ((if is_empty ops then err ClientError.empty_commit else validate_operations [] ops)
              ≡ ok tt)
            ↔ ((ops ≢ []) × Nodup (map record_id ops))
      go [] = (λ h. cc, λ h. absurd (h.0 refl))
      go (op ∷ ops) = (
        λ h. (λ e. cc, (Fresh-Nodup _).0 ((validate_operations-Fresh [] (op ∷ ops)).0 h)),
        λ h. (validate_operations-Fresh [] (op ∷ ops)).1 ((Fresh-Nodup _).1 h.1),
      )

  validate_outbox_to :
      (ids : List ClientCommitId) (commits : List (ClientCommit V)) {r : List ClientCommitId}
      → validate_outbox ids commits ≡ ok r
      → All IsCommit commits
        × Fresh ids (map commit_id commits)
        × (r ≡ add_seen ids (map commit_id commits))
  unfolding validate_outbox
  validate_outbox_to ids [] h = (tt, tt, sym (ok-injective h))
  validate_outbox_to ids (c ∷ cs) h =
      let a = >>-eq-ok (validate_commit c) _ h in
      let b = >>-eq-ok (fail_if _ _) _ a.1 in
      let r = validate_outbox_to (commit_id c ∷ ids) cs b.1 in
      (((validate_commit-IsCommit c).0 a.0, r.0), ((fail_if_iff _ _).0 b.0, r.1), r.2)

  validate_outbox_from :
      (ids : List ClientCommitId) (commits : List (ClientCommit V))
      → All IsCommit commits
      → Fresh ids (map commit_id commits)
      → validate_outbox ids commits ≡ ok (add_seen ids (map commit_id commits))
  unfolding validate_outbox
  validate_outbox_from ids [] h f = refl
  validate_outbox_from ids (c ∷ cs) h f =
      rw ((validate_commit-IsCommit c).1 h.0, f.0)
        (validate_outbox_from (commit_id c ∷ ids) cs h.1 f.1)

  validate_resolved-IsResolved :
      (r : ResolvedCommit V) → (validate_resolved r ≡ ok tt) ↔ IsResolved r
  unfolding validate_resolved
  validate_resolved-IsResolved r = (
    λ h.
        let a = >>-eq-ok (validate_commit r.local_commit) _ h in
        ((validate_commit-IsCommit r.local_commit).0 a.0, λ e. ground arith, ground arith),
    λ h. let e = (validate_commit-IsCommit r.local_commit).1 h.0 in ground arith,
  )

  validate_outcomes_iff :
      (ids : List ClientCommitId) (outcomes : List (ResolvedCommit V))
      → (validate_outcomes ids outcomes ≡ ok tt)
        ↔ (All IsResolved outcomes × Fresh ids (map resolved_id outcomes))
  unfolding validate_outcomes
  validate_outcomes_iff ids [] = (λ _. (tt, tt), λ _. refl)
  validate_outcomes_iff ids (r ∷ rs) = (
    λ h.
        let a = >>-eq-ok (validate_resolved r) _ h in
        let b = >>-eq-ok (fail_if _ _) _ a.1 in
        let rest = (validate_outcomes_iff (resolved_id r ∷ ids) rs).0 b.1 in
        (((validate_resolved-IsResolved r).0 a.0, rest.0), ((fail_if_iff _ _).0 b.0, rest.1)),
    λ h.
        rw ((validate_resolved-IsResolved r).1 h.0.0, h.1.0)
          ((validate_outcomes_iff (resolved_id r ∷ ids) rs).1 (h.0.1, h.1.1)),
  )

  validate_replacement_iff :
      (state : DurableClientState V) (r : ResolvedCommit V) (id : CommitIdentity)
      → (validate_replacement state r id ≡ ok tt)
        ↔ ((id ≢ r.local_commit.identity) × Mem id (identities state))
  unfolding validate_replacement
  validate_replacement_iff state r id =
      let held =
        any-Mem-append (λ (c : ClientCommit V). c.identity)
          (λ (r : ResolvedCommit V). r.local_commit.identity) id state.outbox state.outcomes in
      (λ h. (ground arith, held.0 (ground arith)), λ h. let found = held.1 h.1 in ground arith)

  validate_resolution_of_iff :
      (state : DurableClientState V) (r : ResolvedCommit V) (resolution : ConflictResolution)
      → (validate_resolution_of state r resolution ≡ ok tt) ↔ IsResolution state r resolution
  unfolding validate_resolution_of
  validate_resolution_of_iff state r ConflictResolution.keep_server = (λ _. tt, λ _. refl)
  validate_resolution_of_iff state r ConflictResolution.prefer_server_policy_v1 =
      (λ h. ground arith, λ h. ground arith)
  validate_resolution_of_iff state r (ConflictResolution.keep_local id) =
      validate_replacement_iff state r id
  validate_resolution_of_iff state r (ConflictResolution.merge id) =
      validate_replacement_iff state r id

  validate_optional_resolution_iff :
      (state : DurableClientState V) (r : ResolvedCommit V) (o : Option ConflictResolution)
      → (validate_optional_resolution state r o ≡ ok tt)
        ↔ IfSome (λ resolution. (is_conflict r.outcome ≡ true) × IsResolution state r resolution) o
  unfolding validate_optional_resolution
  validate_optional_resolution_iff state r none = (λ _. tt, λ _. refl)
  validate_optional_resolution_iff state r (some resolution) = (
    λ h.
        let a = >>-eq-ok (fail_if (not (is_conflict r.outcome)) _) _ h in
        (ground arith, (validate_resolution_of_iff state r resolution).0 a.1),
    λ h. rw h.0 ((validate_resolution_of_iff state r resolution).1 h.1),
  )

  validate_conflict_resolutions_iff :
      (state : DurableClientState V)
      → (validate_conflict_resolutions state ≡ ok tt) ↔ All (HasResolution state) state.outcomes
  unfolding validate_conflict_resolutions validate_resolution
  validate_conflict_resolutions_iff state =
      let loop = try_for_each-All (validate_resolution state) state.outcomes in
      (
        λ h.
            All-map _ _ state.outcomes
              (λ r. (validate_optional_resolution_iff state r r.resolution).0) (loop.0 h),
        λ h. loop.1 (
            All-map _ _ state.outcomes
              (λ r. (validate_optional_resolution_iff state r r.resolution).1) h),
      )

  validate_checkpoint_iff :
      (state : DurableClientState V)
      → (validate_checkpoint state ≡ ok tt) ↔ (
          All (λ e. is_absent e.1 ≡ false) state.confirmed
          × IfSome (IsCheckpoint state) state.checkpoint)
  unfolding validate_checkpoint validate_scope
  validate_checkpoint_iff state =
      let rows =
        try_for_each-All
          (λ (e : Bytes × RecordState V).
            fail_if (is_absent e.1) (ClientError.absent_confirmed_record e.0))
          state.confirmed in
      (
        λ h.
            let a = >>-eq-ok (try_for_each _ state.confirmed) _ h in
            (All-map _ _ state.confirmed (λ e. (fail_if_iff _ _).0) (rows.0 a.0), ground arith),
        λ h.
            let e = rows.1 (All-map _ _ state.confirmed (λ e. (fail_if_iff _ _).1) h.0) in
            let c = h.1 in ground arith,
      )

  validate_coverage_iff :
      (state : DurableClientState V)
      → (validate_coverage state ≡ ok tt) ↔ IfSome (Covers state.checkpoint) state.reset_coverage
  unfolding validate_coverage
  validate_coverage_iff state = (λ h. ground arith, λ h. ground arith)

  validate_no_mapped_local_ids_iff :
      (state : DurableClientState V)
      → (validate_no_mapped_local_ids state ≡ ok tt)
        ↔ All (λ id. contains_id state id ≡ false) (keys state.id_map)
  unfolding validate_no_mapped_local_ids
  validate_no_mapped_local_ids_iff state =
      let loop =
        try_for_each-All
          (λ (id : RecordId).
            fail_if (contains_id state id) (ClientError.mapped_local_id_remains id))
          (keys state.id_map) in
      (
        λ h. All-map _ _ (keys state.id_map) (λ id. (fail_if_iff _ _).0) (loop.0 h),
        λ h. loop.1 (All-map _ _ (keys state.id_map) (λ id. (fail_if_iff _ _).1) h),
      )

  validate_windows_iff :
      (state : DurableClientState V) (o : Option (DurableSubscriptions V))
      → (validate_windows state o ≡ ok tt)
        ↔ IfSome (λ subs. validate_subscriptions subs state ≡ ok tt) o
  unfolding validate_windows
  validate_windows_iff state none = (λ _. tt, λ _. refl)
  validate_windows_iff state (some subs) = (λ h. h, λ h. h)

  validate-WellFormed : (state : DurableClientState V) → validate state ≡ ok tt → WellFormed state
  unfolding validate
  validate-WellFormed state h =
      let a = >>=-eq-ok (validate_outbox [] state.outbox) _ h in
      let box = validate_outbox_to [] state.outbox a.1 in
      let b = >>-eq-ok (validate_outcomes a.0 state.outcomes) _ a.2 in
      let settled = (validate_outcomes_iff a.0 state.outcomes).0 b.0 in
      let c = >>-eq-ok (validate_conflict_resolutions state) _ b.1 in
      let d = >>-eq-ok (validate_checkpoint state) _ c.1 in
      let rows = (validate_checkpoint_iff state).0 d.0 in
      let e = >>-eq-ok (validate_coverage state) _ d.1 in
      let f = >>-eq-ok (validate_windows state state.subscriptions) _ e.1 in
      let g = >>-eq-ok (validate_id_map state.id_map) _ f.1 in
      record {
        distinct_ids = (Fresh-Nodup _).0 (
            (Fresh-append [] (outbox_ids state) (outcome_ids state)).1
              (box.1, subst (λ ids. Fresh ids (outcome_ids state)) box.2 settled.1));
        pending = box.0;
        resolved = settled.0;
        resolutions = (validate_conflict_resolutions_iff state).0 c.0;
        no_absent_rows = rows.0;
        checkpoint = rows.1;
        coverage = (validate_coverage_iff state).0 e.0;
        windows = (validate_windows_iff state state.subscriptions).0 f.0;
        id_map_flat = (validate_id_map_iff state.id_map).0 g.0;
        local_ids_gone = (validate_no_mapped_local_ids_iff state).0 g.1;
      }

  validate_of_WellFormed :
      (state : DurableClientState V) → WellFormed state → validate state ≡ ok tt
  unfolding validate
  validate_of_WellFormed state w =
      let fresh =
        (Fresh-append [] (outbox_ids state) (outcome_ids state)).0
          ((Fresh-Nodup _).1 w.distinct_ids) in
      rw
        (
          validate_outbox_from [] state.outbox w.pending fresh.0,
          (validate_outcomes_iff _ state.outcomes).1 (w.resolved, fresh.1),
          (validate_conflict_resolutions_iff state).1 w.resolutions,
          (validate_checkpoint_iff state).1 (w.no_absent_rows, w.checkpoint),
          (validate_coverage_iff state).1 w.coverage,
          (validate_windows_iff state state.subscriptions).1 w.windows,
          (validate_id_map_iff state.id_map).1 w.id_map_flat,
        )
        ((validate_no_mapped_local_ids_iff state).1 w.local_ids_gone)

  -- A state is accepted by validate exactly when it is WellFormed: commit ids are distinct,
  -- pending and resolved commits have operations on distinct records, resolutions fit their
  -- conflicts, no absent row is stored, the checkpoint and the reset coverage fit the state, the
  -- subscription tables pass validate_subscriptions, the id map is flat and no mapped local id
  -- remains.
  pub validate_iff : (state : DurableClientState V) → (validate state ≡ ok tt) ↔ WellFormed state
  validate_iff state = (validate-WellFormed state, validate_of_WellFormed state)
