-- ===== src/Client/History/Change.antt =====
-- The forms that a transition of `ClientRuntime` in surrealdb-sync-client/src takes: the fields that
-- may change, with the guards that the lemmas on histories use.
use react_native_surrealdb.Base.{
  ◌≤◌, ◌≡◌, refl, ◌≢◌, false, Option, some, List, [], ◌∷◌, ◌++◌, DecEq, nat_eq, ◌==◌, IfSome,
  extract, Result, ok, err, Ensures, holds, fails,
}
use react_native_surrealdb.Base.BTreeMap.{BTreeMap}
use react_native_surrealdb.Base.Bytes.{bytes_eq}
use react_native_surrealdb.Protocol.{
  ClientCommitId, ClientCommit, commit_identity_eq, RecordState, DurableOutcome, outcome_identity,
  durable_outcome_eq, Checkpoint, scope_snapshot_eq, checkpoint_eq,
}
use react_native_surrealdb.Protocol.Subscription.{subscription_request_eq}
use react_native_surrealdb.Client.{
  ClientError, ConflictResolution, DurableClientState, durable_client_state_eq,
  DurableSubscriptions, PreparedTransition, ClientRuntime,
}
use react_native_surrealdb.Client.Commits.{commit_id, identity_exists, has_unsettled_intent}
use react_native_surrealdb.Client.Remap.{accepted_mappings, apply_id_mappings, remap_all}
use react_native_surrealdb.Client.Runtime.{resolve_first, prepare}
use react_native_surrealdb.Client.Runtime.Pull.{moves_backward, replace_rows}
use react_native_surrealdb.Client.Runtime.Pull.Frames.{Follows}
use react_native_surrealdb.Client.Subscriptions.Window.{ids_eq}

module _ {V : Type 0} where
  -- A snapshot does not go back either; it changes the scope only of a journal with no commits.
  abbrev pub MayReplace : DurableClientState V → Checkpoint → Checkpoint → Type 0
  MayReplace state incoming current =
      (moves_backward current.cursor incoming.cursor ≡ false)
      × (current.scope.authorization_revision ≤ incoming.scope.authorization_revision)
      × (incoming.scope ≢ current.scope
          → (has_unsettled_intent state ≡ false) × (state.outcomes ≡ []))

module _ {V : Type 0} ⦃v : DecEq V⦄ where
  pub data Change (s t : DurableClientState V) : Type 0 where
    unchanged : t ≡ s → Change s t
    enqueued :
        (commit : ClientCommit V)
        → identity_exists s (commit_id commit) ≡ false
        → t ≡ record s { outbox = s.outbox ++ commit ∷ [] }
        → Change s t
    settled :
        (pending : ClientCommit V) (rest : List (ClientCommit V)) (outcome : DurableOutcome V)
        (resolution : Option ConflictResolution) (next : DurableClientState V)
        → extract (λ commit. commit.identity == outcome_identity outcome) s.outbox
          ≡ some (pending, rest)
        → apply_id_mappings (record s { outbox = rest }) (accepted_mappings outcome) ≡ ok next
        → t ≡ record next {
          outcomes =
              next.outcomes
              ++ record {
                local_commit = remap_all (accepted_mappings outcome) pending;
                outcome = outcome;
                resolution = resolution;
                covered_by_reset = false;
              }
                ∷ [];
        }
        → Change s t
    closed :
        (id : ClientCommitId) (resolution : ConflictResolution)
        → t ≡ record s { outcomes = resolve_first id resolution s.outcomes }
        → Change s t
    replaced :
        (id : ClientCommitId) (resolution : ConflictResolution) (commit : ClientCommit V)
        → identity_exists s (commit_id commit) ≡ false
        → t ≡ record s {
          outcomes = resolve_first id resolution s.outcomes;
          outbox = s.outbox ++ commit ∷ [];
        }
        → Change s t
    pulled :
        (checkpoint : Checkpoint) (confirmed : BTreeMap (RecordState V))
        → IfSome (Follows checkpoint) s.checkpoint
        → t ≡ record s { confirmed = confirmed; checkpoint = some checkpoint }
        → Change s t
    reset :
        (checkpoint : Checkpoint) (confirmed : BTreeMap (RecordState V))
        → IfSome (MayReplace s checkpoint) s.checkpoint
        → t ≡ replace_rows s checkpoint confirmed
        → Change s t
    rewindowed :
        (subs : DurableSubscriptions V) → t ≡ record s { subscriptions = some subs } → Change s t

  -- A prepared transition comes from a change, through `prepare`.
  abbrev pub IsChange : ClientRuntime V → PreparedTransition V → Type 0
  IsChange self p =
      (next : DurableClientState V) × Change self.state next × (prepare self next ≡ ok p)

  pub Change-rule :
      (self : ClientRuntime V) (next : DurableClientState V)
      → Change self.state next
      → Ensures (IsChange self) (prepare self next)
  Change-rule self next c = go (prepare self next) (λ p e. (next, c, e))
    where
      go :
          (r : Result ClientError (PreparedTransition V))
          → ((p : PreparedTransition V) → r ≡ ok p → IsChange self p)
          → Ensures (IsChange self) r
      go (ok p) f = holds (f p refl)
      go (err e) f = fails
