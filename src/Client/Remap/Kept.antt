-- ===== src/Client/Remap/Kept.antt =====
-- What an id mapping of surrealdb-sync-client/src/lib.rs leaves alone: the identities of all
-- commits, in their order, and everything that is not about record ids.
use react_native_surrealdb.Base.{
  ◌≡◌, refl, ap, ◌∙◌, ◌||◌, Option, none, some, List, [], ◌∷◌, map, DecEq, ◌==◌, try_fold, Ensures,
  holds, fails, Ensures-bind, Ensures-if, ensures_ok, Ensures-map,
}
use react_native_surrealdb.Base.Bytes.{bytes_eq}
use react_native_surrealdb.Base.BTreeMap.{contains_key}
use react_native_surrealdb.Protocol.{IdMapping, ClientCommit, RecordId, CommitIdentity}
use react_native_surrealdb.Client.{ResolvedCommit, DurableClientState}
use react_native_surrealdb.Client.Remap.{
  remap_commit, remap_resolved, remap_all, rename_everywhere, move_confirmed, map_local_id,
  apply_id_mapping, apply_id_mappings,
}

module _ {V : Type 0} where
  abbrev pub commit_identity : ClientCommit V → CommitIdentity
  commit_identity commit = commit.identity

  abbrev pub resolved_identity : ResolvedCommit V → CommitIdentity
  resolved_identity resolved = resolved.local_commit.identity

  -- The commits and the frontier are those of the other state.
  pub record Keeps (s t : DurableClientState V) : Type 0 where
    pub partition_id : t.partition_id ≡ s.partition_id
    pub client_id : t.client_id ≡ s.client_id
    pub pending : map commit_identity t.outbox ≡ map commit_identity s.outbox
    pub settled : map resolved_identity t.outcomes ≡ map resolved_identity s.outcomes
    pub checkpoint : t.checkpoint ≡ s.checkpoint
    pub reset_coverage : t.reset_coverage ≡ s.reset_coverage
    pub subscriptions : t.subscriptions ≡ s.subscriptions
    pub revision : t.revision ≡ s.revision

  pub Keeps-refl : (s : DurableClientState V) → Keeps s s
  Keeps-refl s = record {
    partition_id = refl;
    client_id = refl;
    pending = refl;
    settled = refl;
    checkpoint = refl;
    reset_coverage = refl;
    subscriptions = refl;
    revision = refl;
  }

  Keeps-trans : {s t u : DurableClientState V} → Keeps s t → Keeps t u → Keeps s u
  Keeps-trans a b = record {
    partition_id = b.partition_id ∙ a.partition_id;
    client_id = b.client_id ∙ a.client_id;
    pending = b.pending ∙ a.pending;
    settled = b.settled ∙ a.settled;
    checkpoint = b.checkpoint ∙ a.checkpoint;
    reset_coverage = b.reset_coverage ∙ a.reset_coverage;
    subscriptions = b.subscriptions ∙ a.subscriptions;
    revision = b.revision ∙ a.revision;
  }

  commits-remap :
      (mapping : IdMapping) (commits : List (ClientCommit V))
      → map commit_identity (map (remap_commit mapping) commits) ≡ map commit_identity commits
  unfolding remap_commit
  commits-remap mapping [] = refl
  commits-remap mapping (c ∷ cs) = ap (◌∷◌ c.identity) (commits-remap mapping cs)

  outcomes-remap :
      (mapping : IdMapping) (outcomes : List (ResolvedCommit V))
      → map resolved_identity (map (remap_resolved mapping) outcomes)
        ≡ map resolved_identity outcomes
  unfolding remap_resolved remap_commit
  outcomes-remap mapping [] = refl
  outcomes-remap mapping (r ∷ rs) = ap (◌∷◌ r.local_commit.identity) (outcomes-remap mapping rs)

  pub identity-remap_all :
      (mappings : List IdMapping) (commit : ClientCommit V)
      → (remap_all mappings commit).identity ≡ commit.identity
  unfolding remap_all remap_commit
  identity-remap_all [] commit = refl
  identity-remap_all (mapping ∷ mappings) commit =
      identity-remap_all mappings (remap_commit mapping commit)

module _ {V : Type 0} ⦃v : DecEq V⦄ where
  map_local_id-Keeps :
      (state : DurableClientState V) (mapping : IdMapping) (o : Option RecordId)
      → Ensures (Keeps state) (map_local_id state mapping o)
  unfolding map_local_id rename_everywhere
  map_local_id-Keeps state mapping none =
      Ensures-bind (move_confirmed mapping state.confirmed) λ confirmed _. holds (record {
        partition_id = refl;
        client_id = refl;
        pending = commits-remap mapping state.outbox;
        settled = outcomes-remap mapping state.outcomes;
        checkpoint = refl;
        reset_coverage = refl;
        subscriptions = refl;
        revision = refl;
      })
  map_local_id-Keeps state mapping (some existing) =
      Ensures-if (existing == mapping.canonical_id) (λ _. holds (Keeps-refl state)) (λ _. fails)

  apply_id_mapping-Keeps :
      (state : DurableClientState V) (mapping : IdMapping)
      → Ensures (Keeps state) (apply_id_mapping state mapping)
  unfolding apply_id_mapping
  apply_id_mapping-Keeps state mapping =
      Ensures-if
        (mapping.local_id == mapping.canonical_id || contains_key mapping.canonical_id state.id_map)
        (λ _. fails) λ _. map_local_id-Keeps state mapping _

  -- When id mappings are applied, the identities of the pending and resolved commits and their
  -- order, the partition and client ids, the checkpoint, the reset coverage, the subscriptions and
  -- the revision are as before.
  pub apply_id_mappings-Keeps :
      (state : DurableClientState V) (mappings : List IdMapping)
      → Ensures (Keeps state) (apply_id_mappings state mappings)
  unfolding apply_id_mappings try_fold
  apply_id_mappings-Keeps state [] = holds (Keeps-refl state)
  apply_id_mappings-Keeps state (mapping ∷ mappings) =
      Ensures-bind (apply_id_mapping state mapping) λ next e.
        Ensures-map (apply_id_mappings-Keeps next mappings)
          (λ t k. Keeps-trans (ensures_ok (apply_id_mapping-Keeps state mapping) e) k)
