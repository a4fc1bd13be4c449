-- ===== src/Client/History/Scope.antt =====
-- surrealdb-sync-client/src/lib.rs, scopes: what a change of the authorized scope does to intent
-- that was recorded under the old one.
use react_native_surrealdb.Base.{◌≡◌, ◌⊎◌, false, Option, none, some, [], nat_eq}
use react_native_surrealdb.Protocol.{Checkpoint}
use react_native_surrealdb.Client.{DurableClientState}
use react_native_surrealdb.Client.Commits.{has_unsettled_intent}
use react_native_surrealdb.Client.History.Change.{Change}

module _ {V : Type 0} where
  -- From one checkpoint to the next in a state: the scope stays, or there was no intent that a
  -- new scope could strand.
  abbrev pub ScopeGuarded : DurableClientState V → Option Checkpoint → Option Checkpoint → Type 0
  ScopeGuarded s none o = Unit
  ScopeGuarded s (some a) none = ⊥
  ScopeGuarded s (some a) (some b) =
      (b.scope ≡ a.scope) ⊎ ((has_unsettled_intent s ≡ false) × (s.outcomes ≡ []))
