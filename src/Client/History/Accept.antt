-- ===== src/Client/History/Accept.antt =====
-- surrealdb-sync-client/src/lib.rs, prepare_enqueue: when it succeeds, and with what.
use react_native_surrealdb.Base.{
  Bool, suc, ◌<◌, ◌∙◌, ◌≡◌, ◌≢◌, refl, ap, false, ◌||◌, none, some, List, [], ◌∷◌, ◌++◌, map, Mem,
  Nodup, Perm, arith, DecEq, nat_eq, ◌==◌, any, All, All-map, All-append, IfSome, Option, ok,
  any-Mem-append, length, length-append, checked_add, u64_mod,
}
use mathlib.Core.List.{map-append, Nodup-cons, perm_append_singleton, mem-cons}
use mathlib.Core.Logic.Or
use mathlib.Core.List.Perm
use react_native_surrealdb.Base.Bytes.{bytes_eq}
use react_native_surrealdb.Base.BTreeMap.{keys}
use react_native_surrealdb.Protocol.{CommitIdentity, commit_identity_eq, RecordId, ClientCommit}
use react_native_surrealdb.Client.{
  ConflictResolution, ResolvedCommit, DurableClientState, durable_client_state_eq,
  DurableSubscriptions,
}
use react_native_surrealdb.Client.Commits.{
  commit_id, resolved_id, identity_exists, outbox_ids, outcome_ids,
}
use react_native_surrealdb.Client.Slots.{validate_subscriptions, validate_slot, slot_is_consistent}
use react_native_surrealdb.Client.Validate.{validate, contains_id, commit_contains_id}
use react_native_surrealdb.Client.Validate.WellFormed.{
  WellFormed, IsCommit, IsResolution, identities, validate_iff, validate_commit-IsCommit,
}
use react_native_surrealdb.Client.Runtime.{next_revision, prepare, prepare_enqueue}

enqueued_perm : {A : Type 0} (xs ys : List A) (a : A) → Perm (a ∷ (xs ++ ys)) ((xs ++ a ∷ []) ++ ys)
enqueued_perm xs ys a = Perm.append_right ys (Perm.symm (perm_append_singleton a xs))

IfSome-map :
    {A : Type 0} {P Q : A → Type 0} (o : Option A) → ((a : A) → P a → Q a) → IfSome P o → IfSome Q o
IfSome-map none f h = h
IfSome-map (some a) f h = f a h

any-append :
    {A : Type 0} (p : A → Bool) (xs : List A) (x : A) → any p (xs ++ x ∷ []) ≡ (any p xs || p x)
any-append p [] x = ground arith
any-append p (y ∷ ys) x = ground (arith, any-append p ys x)

All-both :
    {A : Type 0} {P Q R : A → Type 0} (xs : List A)
    → ((a : A) → P a → Q a → R a)
    → All P xs
    → All Q xs
    → All R xs
All-both [] f p q = tt
All-both (x ∷ xs) f p q = (f x p.0 q.0, All-both xs f p.1 q.1)

module _ {V : Type 0} where
  -- The state after the commit was appended.
  abbrev pub enqueued_state : DurableClientState V → ClientCommit V → DurableClientState V
  enqueued_state s commit = record s { outbox = s.outbox ++ commit ∷ []; revision = suc s.revision }

  windows-enqueued :
      (s : DurableClientState V) (commit : ClientCommit V) (subs : DurableSubscriptions V)
      → validate_subscriptions subs (enqueued_state s commit) ≡ validate_subscriptions subs s
  unfolding validate_subscriptions validate_slot slot_is_consistent
  windows-enqueued s commit subs = refl

  distinct-enqueued :
      (s : DurableClientState V) (commit : ClientCommit V)
      → identity_exists s (commit_id commit) ≡ false
      → Nodup (outbox_ids s ++ outcome_ids s)
      → Nodup (outbox_ids (enqueued_state s commit) ++ outcome_ids s)
  unfolding identity_exists
  distinct-enqueued s commit new d =
      let apart : ¬ Mem (commit_id commit) (outbox_ids s ++ outcome_ids s) = λ m.
        let old =
          (any-Mem-append commit_id resolved_id (commit_id commit) s.outbox s.outcomes).1 m in
        cc in
      rw (map-append commit_id s.outbox (commit ∷ [])) (
        Perm.nodup (enqueued_perm (outbox_ids s) (outcome_ids s) (commit_id commit))
          (Nodup-cons.1 (apart, d)))

  Mem-enqueued :
      (s : DurableClientState V) (commit : ClientCommit V) (i : CommitIdentity)
      → Mem i (identities s)
      → Mem i (identities (enqueued_state s commit))
  Mem-enqueued s commit i m =
      rw (map-append (λ (c : ClientCommit V). c.identity) s.outbox (commit ∷ [])) (
        (Perm.mem_iff (enqueued_perm (map (λ c. c.identity) s.outbox) _ commit.identity)).0
          (mem-cons.1 (Or.inr m)))

  IsResolution-enqueued :
      (s : DurableClientState V) (commit : ClientCommit V) (resolved : ResolvedCommit V)
      (resolution : ConflictResolution)
      → IsResolution s resolved resolution
      → IsResolution (enqueued_state s commit) resolved resolution
  IsResolution-enqueued s commit resolved ConflictResolution.keep_server h = h
  IsResolution-enqueued s commit resolved ConflictResolution.prefer_server_policy_v1 h = h
  IsResolution-enqueued s commit resolved (ConflictResolution.keep_local replacement) h =
      (h.0, Mem-enqueued s commit replacement h.1)
  IsResolution-enqueued s commit resolved (ConflictResolution.merge replacement) h =
      (h.0, Mem-enqueued s commit replacement h.1)

  contains_id-enqueued :
      (s : DurableClientState V) (commit : ClientCommit V) (id : RecordId)
      → contains_id s id ≡ false
      → commit_contains_id commit id ≡ false
      → contains_id (enqueued_state s commit) id ≡ false
  unfolding contains_id
  contains_id-enqueued s commit id h k =
      ground (arith, any-append (λ c. commit_contains_id c id) s.outbox commit)

  WellFormed-enqueued :
      (s : DurableClientState V) (commit : ClientCommit V)
      → WellFormed s
      → IsCommit commit
      → identity_exists s (commit_id commit) ≡ false
      → All (λ id. commit_contains_id commit id ≡ false) (keys s.id_map)
      → WellFormed (enqueued_state s commit)
  WellFormed-enqueued s commit w c new gone = record {
    distinct_ids = distinct-enqueued s commit new w.distinct_ids;
    pending = (All-append IsCommit s.outbox (commit ∷ [])).1 (w.pending, (c, tt));
    resolved = w.resolved;
    resolutions =
        All-map _ _ s.outcomes
          (λ r h. IfSome-map r.resolution (λ q g. (g.0, IsResolution-enqueued s commit r q g.1)) h)
          w.resolutions;
    no_absent_rows = w.no_absent_rows;
    checkpoint = w.checkpoint;
    coverage = w.coverage;
    windows = IfSome-map s.subscriptions (λ subs h. windows-enqueued s commit subs ∙ h) w.windows;
    id_map_flat = w.id_map_flat;
    local_ids_gone = All-both (keys s.id_map) (contains_id-enqueued s commit) w.local_ids_gone gone;
  }

module _ {V : Type 0} ⦃v : DecEq V⦄ where
  prepare-enqueued :
      (s : DurableClientState V) (commit : ClientCommit V)
      → suc s.revision < u64_mod
      → validate (enqueued_state s commit) ≡ ok tt
      → prepare (record { state = s }) (record s { outbox = s.outbox ++ commit ∷ [] })
        ≡ ok (record { base_revision = s.revision; state = enqueued_state s commit })
  unfolding prepare next_revision
  prepare-enqueued s commit below valid =
      let longer : (s.outbox ++ commit ∷ []) ≢ s.outbox =
        λ e. omega (arith, length-append s.outbox (commit ∷ []), ap length e) in
      let changed : (record s { outbox = s.outbox ++ commit ∷ [] } == s) ≡ false =
        elim (durable_client_state_eq.discrete (record s { outbox = s.outbox ++ commit ∷ [] }) s) [
          | yes same ↦ absurd (longer (ap (λ t. t.outbox) same))
          | no other ↦ ground arith
        ] in
      let next : checked_add s.revision 1 ≡ some (suc s.revision) = ground arith in
      rw (changed, next, valid) refl

  -- In a well-formed state, a commit with operations on distinct records, a new commit id and no
  -- mapped local id is enqueued when the next revision is below 2^64: it joins the end of the
  -- outbox, the revision is the next, and nothing else changes.
  pub enqueue-ok :
      (s : DurableClientState V) (commit : ClientCommit V)
      → WellFormed s
      → IsCommit commit
      → identity_exists s (commit_id commit) ≡ false
      → All (λ id. commit_contains_id commit id ≡ false) (keys s.id_map)
      → suc s.revision < u64_mod
      → prepare_enqueue (record { state = s }) commit
        ≡ ok (record { base_revision = s.revision; state = enqueued_state s commit })
  unfolding prepare_enqueue
  enqueue-ok s commit w c new gone below =
      rw ((validate_commit-IsCommit commit).1 c, new)
        (prepare-enqueued s commit below
          ((validate_iff (enqueued_state s commit)).1 (WellFormed-enqueued s commit w c new gone)))
