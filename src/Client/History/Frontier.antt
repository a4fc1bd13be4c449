-- ===== src/Client/History/Frontier.antt =====
-- The confirmed frontier of a journal moves forward only, its revision counts the changes, and its
-- owner and scope stay; while intent is unsettled the authorized scope of the checkpoint stays too.
use react_native_surrealdb.Base.{
  ◌≤◌, ◌<◌, ◌≡◌, refl, sym, ap, subst, ◌⊎◌, inl, inr, false, Option, none, some, List, [], ◌∷◌,
  arith, DecEq, IfSome, ensures_ok,
}
use react_native_surrealdb.Protocol.{Checkpoint, Cursor}
use react_native_surrealdb.Client.{DurableClientState, ClientRuntime}
use react_native_surrealdb.Client.Remap.{accepted_mappings}
use react_native_surrealdb.Client.Remap.Kept.{apply_id_mappings-Keeps}
use react_native_surrealdb.Client.Runtime.Pull.{moves_backward}
use react_native_surrealdb.Client.Runtime.Pull.Frames.{Follows}
use react_native_surrealdb.Client.History.{Event, step, run}
use react_native_surrealdb.Client.History.Change.{
  MayReplace, Change, unchanged, enqueued, settled, closed, replaced, pulled, reset, rewindowed,
}
use react_native_surrealdb.Client.History.Steps.{step_cases}

-- Epochs first, then sequences.
abbrev pub CursorLe : Cursor → Cursor → Type 0
CursorLe a b = (a.epoch < b.epoch) ⊎ ((a.epoch ≡ b.epoch) × (a.sequence ≤ b.sequence))

-- A frontier that was reached is never given up.
abbrev pub FrontierLe : Option Checkpoint → Option Checkpoint → Type 0
FrontierLe none o = Unit
FrontierLe (some a) none = ⊥
FrontierLe (some a) (some b) = CursorLe a.cursor b.cursor

FrontierLe-refl : (o : Option Checkpoint) → FrontierLe o o
FrontierLe-refl none = tt
FrontierLe-refl (some a) = inr (refl, omega arith)

FrontierLe-trans : (a b c : Option Checkpoint) → FrontierLe a b → FrontierLe b c → FrontierLe a c
FrontierLe-trans none b c p q = tt
FrontierLe-trans (some a) none c p q = absurd p
FrontierLe-trans (some a) (some b) none p q = q
FrontierLe-trans (some a) (some b) (some c) p q = ground arith

at : (a b c : Option Checkpoint) → c ≡ b → FrontierLe a b → FrontierLe a c
at a b c e f = subst (FrontierLe a) (sym e) f

Follows-FrontierLe :
    (o : Option Checkpoint) (checkpoint : Checkpoint)
    → IfSome (Follows checkpoint) o
    → FrontierLe o (some checkpoint)
Follows-FrontierLe none checkpoint f = tt
Follows-FrontierLe (some a) checkpoint f = ground arith

not-moves_backward : (a b : Cursor) → moves_backward a b ≡ false → CursorLe a b
unfolding moves_backward
not-moves_backward a b h = ground arith

module _ {V : Type 0} where
  MayReplace-FrontierLe :
      (s : DurableClientState V) (o : Option Checkpoint) (checkpoint : Checkpoint)
      → IfSome (MayReplace s checkpoint) o
      → FrontierLe o (some checkpoint)
  MayReplace-FrontierLe s none checkpoint f = tt
  MayReplace-FrontierLe s (some a) checkpoint f = not-moves_backward a.cursor checkpoint.cursor f.0

module _ {V : Type 0} ⦃v : DecEq V⦄ where
  stays :
      (s t : DurableClientState V)
      → t.checkpoint ≡ s.checkpoint
      → FrontierLe s.checkpoint t.checkpoint
  stays s t e = at s.checkpoint s.checkpoint t.checkpoint e (FrontierLe-refl s.checkpoint)

  Change-FrontierLe :
      (s t : DurableClientState V) → Change s t → FrontierLe s.checkpoint t.checkpoint
  Change-FrontierLe s t (unchanged e) = stays s t (ap (λ x. x.checkpoint) e)
  Change-FrontierLe s t (enqueued commit fresh e) = stays s t (ap (λ x. x.checkpoint) e)
  Change-FrontierLe s t (settled pending rest outcome resolution next taken mapped e) =
      let k = ensures_ok (apply_id_mappings-Keeps _ (accepted_mappings outcome)) mapped in
      stays s t (cc (k.checkpoint, ap (λ x. x.checkpoint) e))
  Change-FrontierLe s t (closed id resolution e) = stays s t (ap (λ x. x.checkpoint) e)
  Change-FrontierLe s t (replaced id resolution commit fresh e) =
      stays s t (ap (λ x. x.checkpoint) e)
  Change-FrontierLe s t (pulled checkpoint confirmed f e) =
      at _ _ t.checkpoint (ap (λ x. x.checkpoint) e) (Follows-FrontierLe s.checkpoint checkpoint f)
  Change-FrontierLe s t (reset checkpoint confirmed f e) =
      at _ _ t.checkpoint (ap (λ x. x.checkpoint) e)
        (MayReplace-FrontierLe s s.checkpoint checkpoint f)
  Change-FrontierLe s t (rewindowed subs e) = stays s t (ap (λ x. x.checkpoint) e)

  step-FrontierLe :
      (self : ClientRuntime V) (event : Event V)
      → FrontierLe self.state.checkpoint (step self event).state.checkpoint
  step-FrontierLe self event =
      step_cases (λ rt. FrontierLe self.state.checkpoint rt.state.checkpoint) self event
        (FrontierLe-refl self.state.checkpoint)
        λ next t change advances valid. elim advances [
          | inl (same, e) ↦ stays self.state t (ap (λ x. x.checkpoint) e)
          | inr (e, _) ↦
              at _ _ t.checkpoint (ap (λ x. x.checkpoint) e)
                (Change-FrontierLe self.state next change)
        ]

  -- After any list of events, whatever the server sends and in whatever order, an installed
  -- checkpoint is still there and its cursor is not smaller, epochs compared before sequences.
  pub run-FrontierLe :
      (self : ClientRuntime V) (events : List (Event V))
      → FrontierLe self.state.checkpoint (run self events).state.checkpoint
  unfolding run
  run-FrontierLe self [] = FrontierLe-refl self.state.checkpoint
  run-FrontierLe self (event ∷ events) =
      FrontierLe-trans _ (step self event).state.checkpoint _ (step-FrontierLe self event)
        (run-FrontierLe (step self event) events)
