-- ===== src/Core/ReadJournal/Reader.antt =====
-- sync_read.rs: a reader that asks for changes again and again.
use mathlib.Core.List.{append-nil}
use react_native_surrealdb.Base.{
  sym, ◌>>=◌, ensures_ok, ℕ, zero, suc, ◌+◌, ◌≤◌, ◌<◌, ◌≡◌, ◌⊎◌, refl, ap, subst, false, Bool-cases,
  inl, inr, Option, none, some, take, List, [], ◌∷◌, is_empty, All, All-append, ltb, nat_eq, Result,
  ok, err, u64_mod, arith,
}
use react_native_surrealdb.Base.Bytes.{Bytes, bytes_eq}
use react_native_surrealdb.Client.{ClientRuntime}
use react_native_surrealdb.Core.{NativeSyncError}
use react_native_surrealdb.Core.ReadJournal.{
  Batch, ReadJournal, Json, Changes, parse_u64, epoch_value, cursor_at, starting_at, bootstrap,
  replay, out_of_reach, changes_from,
}
use react_native_surrealdb.Core.ReadJournal.Answer.{
  Answers, take-PartOf, replay-Replays, out_of_reach-OutOfReach,
}
use react_native_surrealdb.Core.ReadJournal.Numbers.{parse_u64-decimal}
use react_native_surrealdb.Core.ReadJournal.Replay.{
  IsLinked, IsLinked-suffix, starting_at_linked, Readable, replay-take, IsJournal,
}

nonempty_lem : (run : List Batch) → run ≡ [] → is_empty run ≡ false → ⊥
nonempty_lem [] q e = cc e
nonempty_lem (batch ∷ run) q e = cc q

take_some :
    (limit : ℕ) (run : List Batch) → 0 < limit → is_empty run ≡ false → take limit run ≡ [] → ⊥
take_some limit [] l e t = cc e
take_some zero (batch ∷ run) l e t = omega arith
take_some (suc limit) (batch ∷ run) l e t = cc t

module _ {V J : Type 0} (json : Json V J) where
  Answers-replay :
      (self : ReadJournal) (runtime : ClientRuntime V) (process_epoch : Bytes) (revision limit : ℕ)
      → IsJournal json runtime.state.revision self
      → 0 < limit
      → process_epoch ≡ epoch_value self.epoch
      → revision < runtime.state.revision
      → is_empty (starting_at revision self.batches) ≡ false
      → Answers json self runtime process_epoch revision limit (
          replay json revision (take limit (starting_at revision self.batches)) >>= λ done.
          ok (Changes.batches done.0 (cursor_at self done.1)))
  Answers-replay self runtime process_epoch revision limit h l same k e =
      let current = runtime.state.revision in
      let run = starting_at revision self.batches in
      elim (starting_at_linked revision current self.batches h.linked) [
        | inl q ↦ absurd (nonempty_lem run q e)
        | inr (dropped, q, s) ↦
            let linked =
              IsLinked-suffix current dropped run (subst (IsLinked current) q h.linked) in
            let texts =
              ((All-append (Readable json) dropped run).0
                (subst (All (Readable json)) q h.readable)).1 in
            let (values, next, p, lo, hi, strict) =
              replay-take json run current limit linked texts in
            let done : replay json revision (take limit run) ≡ ok (values, next) =
              subst (λ n. replay json n (take limit run) ≡ ok (values, next)) s p in
            let later : revision < next = elim strict [
              | inl t ↦ absurd (take_some limit run l e t)
              | inr t ↦ omega (arith, s, t)
            ] in
            inr (
              same,
              take limit run,
              values,
              next,
              take-PartOf limit self.batches dropped run q,
              ensures_ok (replay-Replays json (take limit run) revision) done,
              ap (λ r. r >>= λ done. ok (Changes.batches done.0 (cursor_at self done.1))) done,
              omega (arith, later),
              hi,
              inr later,
            )
      ]

  -- On a journal whose batches are linked up to the runtime's revision, with a snapshot that can
  -- be written and a limit of at least one, the changes from a revision are never an error. When
  -- the cursor has another epoch, is ahead of the runtime, or is where no batch starts, they are
  -- the snapshot at the runtime's revision. Otherwise they are the values of consecutive batches
  -- of the journal from the reader's revision on, the limit's number or all that are left, and the
  -- cursor behind them, which is greater than the reader's unless that is the runtime's.
  pub changes_from-Answers :
      (self : ReadJournal) (runtime : ClientRuntime V) (process_epoch : Bytes) (revision limit : ℕ)
      (snapshot : J)
      → IsJournal json runtime.state.revision self
      → 0 < limit
      → json.read_snapshot runtime ≡ some snapshot
      → Answers json self runtime process_epoch revision limit
          (changes_from json self runtime process_epoch revision limit)
  unfolding changes_from bootstrap replay
  changes_from-Answers self runtime process_epoch revision limit snapshot h l w =
      elim (Bool-cases (out_of_reach json self runtime process_epoch revision)) [
        | inl o ↦ inl (
          out_of_reach-OutOfReach json self runtime process_epoch revision o,
          snapshot,
          rw (o, w) refl,
          w,
        )
        | inr o ↦
            let same : process_epoch ≡ epoch_value self.epoch = ground (arith, o) in
            elim (Bool-cases (ltb revision runtime.state.revision)) [
              | inl p ↦
                  let e : is_empty (starting_at revision self.batches) ≡ false =
                    ground (arith, o, p) in
                  rw (o, p)
                    (Answers-replay self runtime process_epoch revision limit h l same
                      (ground (arith, p)) e)
              | inr p ↦
                  let current : revision ≡ runtime.state.revision = ground (arith, o, p) in
                  inr (
                    same,
                    [],
                    [],
                    revision,
                    (self.batches, [], sym (append-nil self.batches), omega arith, inl refl),
                    (refl, refl),
                    rw (o, p) refl,
                    omega arith,
                    omega (arith, current),
                    inl current,
                  )
            ]
      ]

  -- The revision of an answer's cursor.
  abbrev pub answered : Result NativeSyncError (Changes J) → Option ℕ
  answered (err e) = none
  answered (ok (Changes.reset_required snapshot cursor)) = parse_u64 cursor.revision
  answered (ok (Changes.batches values cursor)) = parse_u64 cursor.revision

  -- A reader that goes on from the cursor of the last answer, for a number of calls.
  unfoldable pub catch_up : ReadJournal → ClientRuntime V → ℕ → ℕ → ℕ → Option ℕ
  catch_up self runtime limit zero revision = some revision
  catch_up self runtime limit (suc calls) revision =
      elim (answered (changes_from json self runtime (epoch_value self.epoch) revision limit)) [
        | none ↦ none
        | some next ↦ catch_up self runtime limit calls next
      ]

  answered-Answers :
      (self : ReadJournal) (runtime : ClientRuntime V) (process_epoch : Bytes) (revision limit : ℕ)
      (answer : Result NativeSyncError (Changes J))
      → Answers json self runtime process_epoch revision limit answer
      → runtime.state.revision < u64_mod
      → revision ≤ runtime.state.revision
      → (next : ℕ) × (answered answer ≡ some next)
        × (next ≤ runtime.state.revision)
        × ((revision < next) ⊎ (next ≡ runtime.state.revision))
  unfolding cursor_at
  answered-Answers self runtime process_epoch revision limit answer (inl (o, snapshot, e, w)) b l =
      (
        runtime.state.revision,
        rw e (parse_u64-decimal runtime.state.revision b),
        omega arith,
        inr refl,
      )
  answered-Answers self runtime process_epoch revision limit answer
        (inr (same, run, values, next, part, replays, e, lo, hi, strict)) b l =
      (
        next,
        rw e (parse_u64-decimal next (omega arith)),
        hi,
        elim strict [ inl s ↦ inr (omega (arith, s, lo, hi)) | inr s ↦ inl s ],
      )

  -- On a journal whose batches are linked up to the runtime's revision, a reader that asks for at
  -- least one batch at a time, from a revision that is not ahead, and goes on from the cursor of
  -- each answer is at the runtime's revision after as many calls as there are revisions between,
  -- when the snapshot can be written and the revision is below 2^64.
  pub catch_up-current :
      (calls : ℕ) (self : ReadJournal) (runtime : ClientRuntime V) (limit revision : ℕ)
      (snapshot : J)
      → IsJournal json runtime.state.revision self
      → runtime.state.revision < u64_mod
      → 0 < limit
      → json.read_snapshot runtime ≡ some snapshot
      → revision ≤ runtime.state.revision
      → runtime.state.revision ≤ revision + calls
      → catch_up self runtime limit calls revision ≡ some runtime.state.revision
  unfolding catch_up
  catch_up-current zero self runtime limit revision snapshot h b l w lo hi = ap some (omega arith)
  catch_up-current (suc calls) self runtime limit revision snapshot h b l w lo hi =
      let answer = changes_from json self runtime (epoch_value self.epoch) revision limit in
      let (next, e, below, step) =
        answered-Answers self runtime (epoch_value self.epoch) revision limit answer
          (changes_from-Answers self runtime (epoch_value self.epoch) revision limit snapshot h l w)
          b lo in
      rw (catch_up, e)
        (catch_up-current calls self runtime limit next snapshot h b l w below
          (elim step [ inl s ↦ omega (arith, s, hi) | inr s ↦ omega (arith, s) ]))
