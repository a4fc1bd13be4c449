-- ===== src/Client/Runtime/Pull/Frames.antt =====
-- `validate_pull_batch` of surrealdb-sync-client/src/lib.rs: which batches it accepts, and that it
-- accepts every complete one. Sequences are u64: the loop's wrap-around at the largest value
-- never lets an incomplete batch pass.
use react_native_surrealdb.Base.{
  ℕ, suc, ◌+◌, ◌≤◌, ◌<◌, ◌≡◌, refl, ap, subst, true, Option, none, some, List, [], ◌∷◌, ◌++◌, map,
  arith, nat_eq, ◌!=◌, IfSome, length, head, last, init-last, last-append, init-append, ltb,
  u64_mod, saturating_add, ok, ◌>>=◌, fail_if, ok_or, >>=-eq-ok, >>-eq-ok, ok-injective,
}
use react_native_surrealdb.Base.Bytes.{bytes_eq}
use react_native_surrealdb.Protocol.{
  OpaqueCheckpoint, Checkpoint, checkpoint_eq, scope_snapshot_eq, PullCommit, PullFrame, PullBatch,
}
use react_native_surrealdb.Client.{ClientError, DurableClientState}
use react_native_surrealdb.Client.Validate.{validate_scope}
use react_native_surrealdb.Client.Runtime.Pull.{
  validate_position, current_sequence, start_checkpoint, finish_checkpoint, middle, collect_commits,
  check_windows, check_last, count_commits, check_complete, validate_pull_batch, wrapping_suc,
  wrapping_pred,
}

-- A pull stays in the scope and the epoch, and does not go back.
abbrev pub Follows : Checkpoint → Checkpoint → Type 0
Follows incoming current =
    (incoming.scope ≡ current.scope)
    × (incoming.cursor.epoch ≡ current.cursor.epoch)
    × (current.cursor.sequence ≤ incoming.cursor.sequence)

position-Follows :
    (o : Option Checkpoint) (finish : Checkpoint)
    → validate_position o finish ≡ ok tt
    → IfSome (Follows finish) o
unfolding validate_position
position-Follows none finish h = tt
position-Follows (some current) finish h = (ground arith, ground arith, ground arith)

Follows-position :
    (o : Option Checkpoint) (finish : Checkpoint)
    → IfSome (Follows finish) o
    → validate_position o finish ≡ ok tt
unfolding validate_position
Follows-position none finish h = refl
Follows-position (some current) finish h = ground arith

module _ {V : Type 0} where
  -- Consecutive sequences from a given one.
  abbrev pub IsRun : ℕ → List (PullCommit V) → Type 0
  IsRun n [] = Unit
  IsRun n (commit ∷ commits) = (commit.sequence ≡ n) × IsRun (suc n) commits

  -- The frames that carry some commits under a checkpoint.
  abbrev pub frame : Checkpoint → List (PullCommit V) → List (PullFrame V)
  frame finish commits =
      PullFrame.start finish
      ∷ (map (PullFrame.commit finish.token) commits ++ PullFrame.finish finish ∷ [])

  -- Nothing is missing between the installed frontier and the received one.
  abbrev pub IsComplete : ℕ → ℕ → List (PullCommit V) → Type 0
  IsComplete current sequence commits =
      current < sequence → IsRun (suc current) commits × (current + length commits ≡ sequence)

  pub record IsFramed (state : DurableClientState V) (batch : PullBatch V) (finish : Checkpoint)
      (commits : List (PullCommit V)) : Type 0 where
    pub frames : batch.frames ≡ frame finish commits
    pub in_scope : validate_scope state finish ≡ ok tt
    pub follows : IfSome (Follows finish) state.checkpoint
    pub complete :
        finish.cursor.sequence < u64_mod
        → IsComplete (current_sequence state.checkpoint finish) finish.cursor.sequence commits

  collect_commits-map :
      (token : OpaqueCheckpoint) (frames : List (PullFrame V)) {commits : List (PullCommit V)}
      → collect_commits token frames ≡ ok commits
      → frames ≡ map (PullFrame.commit token) commits
  unfolding collect_commits
  collect_commits-map token [] h = ap (map (PullFrame.commit token)) (ok-injective h)
  collect_commits-map token (PullFrame.start checkpoint ∷ frames) h = cc
  collect_commits-map token (PullFrame.finish checkpoint ∷ frames) h = cc
  collect_commits-map token (PullFrame.commit checkpoint commit ∷ frames) h =
      let a = >>-eq-ok (fail_if (checkpoint != token) _) _ h in
      let b = >>=-eq-ok (collect_commits token frames) _ a.1 in
      let rest = collect_commits-map token frames b.1 in ground arith

  map-collect_commits :
      (token : OpaqueCheckpoint) (commits : List (PullCommit V))
      → collect_commits token (map (PullFrame.commit token) commits) ≡ ok commits
  unfolding collect_commits
  map-collect_commits token [] = refl
  map-collect_commits token (commit ∷ commits) = ground (arith, map-collect_commits token commits)

  finish-of :
      (o : Option (PullFrame V)) {finish : Checkpoint}
      → finish_checkpoint o ≡ some finish
      → o ≡ some (PullFrame.finish finish)
  finish-of none h = cc
  finish-of (some (PullFrame.start checkpoint)) h = cc
  finish-of (some (PullFrame.commit token commit)) h = cc
  finish-of (some (PullFrame.finish checkpoint)) h = cc

  frames-of :
      (frames : List (PullFrame V)) {start finish : Checkpoint} (commits : List (PullCommit V))
      → start_checkpoint (head frames) ≡ some start
      → finish_checkpoint (last frames) ≡ some finish
      → start ≡ finish
      → middle frames ≡ map (PullFrame.commit finish.token) commits
      → frames ≡ frame finish commits
  frames-of [] commits a b c d = cc
  frames-of (PullFrame.commit token commit ∷ frames) commits a b c d = cc
  frames-of (PullFrame.finish checkpoint ∷ frames) commits a b c d = cc
  frames-of (PullFrame.start checkpoint ∷ []) commits a b c d = cc
  frames-of (PullFrame.start checkpoint ∷ f ∷ frames) commits a b c d =
      let e = init-last (f ∷ frames) (finish-of (last (f ∷ frames)) b) in cc

  -- The loop and the check behind it, from an expected sequence `n`.
  count_commits-IsRun :
      (n sequence : ℕ) (commits : List (PullCommit V)) {m : ℕ}
      → 0 < n
      → n < u64_mod
      → check_windows commits ≡ ok tt
      → count_commits n commits ≡ ok m
      → wrapping_pred m ≡ sequence
      → sequence < u64_mod
      → IsRun n commits × (n + length commits ≡ suc sequence)
  unfolding count_commits check_windows
  count_commits-IsRun n sequence [] p q w h e b = let m = ok-injective h in (tt, omega arith)
  count_commits-IsRun n sequence (c ∷ []) p q w h e b =
      let a = >>-eq-ok (fail_if (c.sequence != n) _) _ h in
      let m = ok-injective a.1 in ((ground arith, tt), omega arith)
  count_commits-IsRun n sequence (c ∷ d ∷ commits) {m = m} p q w h e b =
      let a = >>-eq-ok (fail_if (c.sequence != n) _) _ h in
      let x = >>-eq-ok (fail_if (d.sequence != saturating_add c.sequence 1) _) _ w in
      let here : c.sequence ≡ n = ground arith in
      let next : d.sequence ≡ saturating_add n 1 = ground arith in
      let y = >>-eq-ok (fail_if (d.sequence != wrapping_suc n) _) _ a.1 in
      let again : d.sequence ≡ wrapping_suc n = ground arith in
      let small : suc n < u64_mod = ground arith in
      let same : wrapping_suc n ≡ suc n = omega arith in
      let r =
        count_commits-IsRun (suc n) sequence (d ∷ commits) (omega arith) small x.1
          (subst (λ k. count_commits k (d ∷ commits) ≡ ok m) same a.1) e b in
      ((here, r.0), omega (arith, r.1))

  check_complete-IsComplete :
      (current sequence : ℕ) (commits : List (PullCommit V))
      → check_windows commits ≡ ok tt
      → check_complete current sequence commits ≡ ok tt
      → sequence < u64_mod
      → IsComplete current sequence commits
  unfolding check_complete
  check_complete-IsComplete current sequence commits w h b ahead =
      let behind : ltb current sequence ≡ true = ground arith in
      let h' : (count_commits (current + 1) commits >>= λ expected.
      fail_if (wrapping_pred expected != sequence) ClientError.commit_sequence_gap)
          ≡ ok tt =
        ground arith in
      let a = >>=-eq-ok (count_commits (current + 1) commits) _ h' in
      let e : wrapping_pred a.0 ≡ sequence = ground (arith, a.2) in
      let same : current + 1 ≡ suc current = omega arith in
      let r =
        count_commits-IsRun (suc current) sequence commits (omega arith) (omega arith) w
          (subst (λ k. count_commits k commits ≡ ok a.0) same a.1) e b in
      (r.0, omega (arith, r.1))

  -- A batch that is accepted has this shape, and lacks no commit.
  pub validate_pull_batch-IsFramed :
      (state : DurableClientState V) (batch : PullBatch V) {r : Checkpoint × List (PullCommit V)}
      → validate_pull_batch state batch ≡ ok r
      → IsFramed state batch r.0 r.1
  unfolding validate_pull_batch
  validate_pull_batch-IsFramed state batch {r} h =
      let a = >>=-eq-ok (ok_or (start_checkpoint (head batch.frames)) _) _ h in
      let b = >>=-eq-ok (ok_or (finish_checkpoint (last batch.frames)) _) _ a.2 in
      let c = >>-eq-ok (fail_if (a.0 != b.0) _) _ b.2 in
      let d = >>-eq-ok (validate_scope state b.0) _ c.1 in
      let e = >>-eq-ok (validate_position state.checkpoint b.0) _ d.1 in
      let f = >>=-eq-ok (collect_commits b.0.token (middle batch.frames)) _ e.1 in
      let w = >>-eq-ok (check_windows f.0) _ f.2 in
      let l = >>-eq-ok (check_last f.0 b.0.cursor.sequence) _ w.1 in
      let k =
        >>-eq-ok (check_complete (current_sequence state.checkpoint b.0) b.0.cursor.sequence f.0) _
          l.1 in
      let whole : IsFramed state batch b.0 f.0 = record {
        frames =
            frames-of batch.frames {start = a.0} {finish = b.0} f.0 (ground (arith, a.1))
              (ground (arith, b.1)) (ground (arith, c.0))
              (collect_commits-map b.0.token (middle batch.frames) f.1);
        in_scope = d.0;
        follows = position-Follows state.checkpoint b.0 e.0;
        complete = check_complete-IsComplete _ _ f.0 w.0 k.0;
      } in
      subst (λ (p : Checkpoint × List (PullCommit V)). IsFramed state batch p.0 p.1)
        (ok-injective k.1) whole

  -- An accepted batch whose frontier is below 2^64 and ahead of the installed sequence consists of
  -- a start frame, its commits under the frontier's token and an end frame; it stays in the scope
  -- and epoch of an installed checkpoint, and its commits are numbered without a gap from the next
  -- sequence up to the frontier.
  pub validate_pull_batch-IsRun :
      (state : DurableClientState V) (batch : PullBatch V) {r : Checkpoint × List (PullCommit V)}
      → r.0.cursor.sequence < u64_mod
      → current_sequence state.checkpoint r.0 < r.0.cursor.sequence
      → validate_pull_batch state batch ≡ ok r
      → (batch.frames ≡ frame r.0 r.1)
        × IfSome (Follows r.0) state.checkpoint
        × IsRun (suc (current_sequence state.checkpoint r.0)) r.1
        × (current_sequence state.checkpoint r.0 + length r.1 ≡ r.0.cursor.sequence)
  validate_pull_batch-IsRun state batch below ahead h =
      let framed = validate_pull_batch-IsFramed state batch h in
      let whole = framed.complete below ahead in (framed.frames, framed.follows, whole.0, whole.1)

  -- The other way: a run passes the checks on its sequences.
  IsRun-count_commits :
      (n : ℕ) (commits : List (PullCommit V))
      → n + length commits < u64_mod
      → IsRun n commits
      → count_commits n commits ≡ ok (n + length commits)
  unfolding count_commits
  IsRun-count_commits n [] b r = ap ok (omega arith)
  IsRun-count_commits n (c ∷ commits) b r =
      let same : wrapping_suc n ≡ suc n = omega arith in
      let rest = IsRun-count_commits (suc n) commits (omega arith) r.1 in
      let sum : suc n + length commits ≡ n + suc (length commits) = omega arith in
      rw (r.0, same, rest, sum) (ground arith)

  IsRun-check_windows :
      (n : ℕ) (commits : List (PullCommit V))
      → n + length commits < u64_mod
      → IsRun n commits
      → check_windows commits ≡ ok tt
  unfolding check_windows
  IsRun-check_windows n [] b r = refl
  IsRun-check_windows n (c ∷ []) b r = refl
  IsRun-check_windows n (c ∷ d ∷ commits) b r =
      let rest = IsRun-check_windows (suc n) (d ∷ commits) (omega arith) r.1 in
      let one = r.0 in let two = r.1.0 in ground arith

  IsRun-last :
      (n sequence : ℕ) (commits : List (PullCommit V))
      → IsRun n commits
      → n + length commits ≡ suc sequence
      → check_last commits sequence ≡ ok tt
  unfolding check_last
  IsRun-last n sequence [] r e = refl
  IsRun-last n sequence (c ∷ []) r e = let one = r.0 in ground arith
  IsRun-last n sequence (c ∷ d ∷ commits) r e =
      IsRun-last (suc n) sequence (d ∷ commits) r.1 (omega arith)

  -- A batch that frames its commits between a start and an end frame is accepted, with its
  -- frontier and its commits in order, when the frontier is in scope, follows an installed
  -- checkpoint and has a sequence of at most 2^64 - 2, and the commits are numbered without a gap
  -- from the next sequence up to the frontier.
  pub frame-validate_pull_batch :
      (state : DurableClientState V) (finish : Checkpoint) (commits : List (PullCommit V))
      → validate_scope state finish ≡ ok tt
      → IfSome (Follows finish) state.checkpoint
      → suc finish.cursor.sequence < u64_mod
      → IsRun (suc (current_sequence state.checkpoint finish)) commits
      → current_sequence state.checkpoint finish + length commits ≡ finish.cursor.sequence
      → validate_pull_batch state (record { frames = frame finish commits }) ≡ ok (finish, commits)
  unfolding validate_pull_batch check_complete
  frame-validate_pull_batch state finish commits s f b r e =
      let n = current_sequence state.checkpoint finish in
      let inner = map (PullFrame.commit finish.token) commits in
      let l : last (frame finish commits) ≡ some (PullFrame.finish finish) =
        last-append (PullFrame.start finish ∷ inner) (PullFrame.finish finish) in
      let m = init-append inner (PullFrame.finish finish) in
      let p = Follows-position state.checkpoint finish f in
      let c = map-collect_commits finish.token commits in
      let w = IsRun-check_windows (suc n) commits (omega arith) r in
      let t = IsRun-last (suc n) finish.cursor.sequence commits r (omega arith) in
      let k = IsRun-count_commits (suc n) commits (omega arith) r in
      let one : n + 1 ≡ suc n = omega arith in rw (l, m) (ground (arith, s, p, c, w, t, k, one))
