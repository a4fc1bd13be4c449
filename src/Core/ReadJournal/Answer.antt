-- ===== src/Core/ReadJournal/Answer.antt =====
-- sync_read.rs: what an answer to a reader with a cursor is.
use react_native_surrealdb.Base.{
  ℕ, zero, suc, ◌≤◌, ◌<◌, ◌≡◌, ◌≢◌, ◌⊎◌, refl, ap, ◌∙◌, true, Bool-cases, inl, inr, some, take,
  List, [], ◌∷◌, ◌++◌, length, is_empty, All, ◌==◌, ◌!=◌, ltb, nat_eq, Result, ok, fail_if, ok_or,
  fail_if_iff, arith, Ensures, ensures_ok, holds, Ensures-bind, Ensures-seq, ok-injective, Option,
  none,
}
use react_native_surrealdb.Base.Bytes.{Bytes, bytes_eq}
use react_native_surrealdb.Client.{ClientRuntime}
use react_native_surrealdb.Core.{NativeSyncError}
use react_native_surrealdb.Core.ReadJournal.{
  Batch, ReadJournal, Json, Changes, epoch_value, cursor_at, starting_at, replay, out_of_reach,
}

-- The journal cannot take a reader on: its cursor is of another epoch or ahead of the runtime, or
-- no batch starts where the reader is.
abbrev pub OutOfReach : ReadJournal → ℕ → Bytes → ℕ → Type 0
OutOfReach self current process_epoch revision =
    (process_epoch ≢ epoch_value self.epoch)
    ⊎ (current < revision)
    ⊎ ((revision < current) × All (λ batch. batch.before ≢ revision) self.batches)

-- A part of the journal: as many batches as the limit allows.
abbrev pub PartOf : ℕ → List Batch → List Batch → Type 0
PartOf limit batches run =
    (dropped : List Batch) × (rest : List Batch) × (batches ≡ dropped ++ (run ++ rest))
    × (length run ≤ limit)
    × ((rest ≡ []) ⊎ (length run ≡ limit))

starting_at-missing :
    (revision : ℕ) (batches : List Batch)
    → is_empty (starting_at revision batches) ≡ true
    → All (λ batch. batch.before ≢ revision) batches
starting_at-missing revision [] h = tt
starting_at-missing revision (batch ∷ batches) h = elim (Bool-cases (batch.before == revision)) [
  | inl p ↦ absurd (ground (arith, p, h))
  | inr p ↦ (ground (arith, p), starting_at-missing revision batches (ground (arith, p, h)))
]

pub take-PartOf :
    (limit : ℕ) (batches dropped run : List Batch)
    → batches ≡ dropped ++ run
    → PartOf limit batches (take limit run)
take-PartOf limit batches dropped run e =
    let (rest, split, few, most) = parts limit run in
    (dropped, rest, e ∙ ap (λ t. dropped ++ t) split, few, most)
  where
    parts :
        (limit : ℕ) (run : List Batch)
        → (rest : List Batch) × (run ≡ take limit run ++ rest)
          × (length (take limit run) ≤ limit)
          × ((rest ≡ []) ⊎ (length (take limit run) ≡ limit))
    parts limit [] = ([], refl, omega arith, inl refl)
    parts zero (batch ∷ run) = (batch ∷ run, refl, omega arith, inr refl)
    parts (suc limit) (batch ∷ run) =
        let (rest, split, few, most) = parts limit run in
        (
          rest,
          ap (λ t. batch ∷ t) split,
          omega (arith, few),
          elim most [ inl e ↦ inl e | inr e ↦ inr (ap suc e) ],
        )

ok_or-some :
    {A : Type 0} {a : A} (o : Option A) → ok_or o NativeSyncError.internal ≡ ok a → o ≡ some a
ok_or-some none h = absurd (cc h)
ok_or-some (some b) h = ap some (ok-injective h)

module _ {V J : Type 0} (json : Json V J) where
  pub out_of_reach-OutOfReach :
      (self : ReadJournal) (runtime : ClientRuntime V) (process_epoch : Bytes) (revision : ℕ)
      → out_of_reach json self runtime process_epoch revision ≡ true
      → OutOfReach self runtime.state.revision process_epoch revision
  out_of_reach-OutOfReach self runtime process_epoch revision h =
      elim (Bool-cases (process_epoch != epoch_value self.epoch)) [
        | inl p ↦ inl (ground (arith, p))
        | inr p ↦ elim (Bool-cases (ltb runtime.state.revision revision)) [
          | inl q ↦ inr (inl (ground (arith, q)))
          | inr q ↦
              let late : ltb revision runtime.state.revision ≡ true = ground (arith, h, p, q) in
              inr (
                inr (
                  ground (arith, late),
                  starting_at-missing revision self.batches (ground (arith, h, p, q)),
                ))
        ]
      ]

  -- The values of a run of batches, each of which starts where the one before it ended, from a
  -- revision to another one.
  abbrev pub Replays : ℕ → List Batch → List J → ℕ → Type 0
  Replays revision [] values next = (values ≡ []) × (next ≡ revision)
  Replays revision (batch ∷ run) values next =
      (value : J) × (later : List J) × (batch.before ≡ revision)
      × (json.read_batch batch.json ≡ some value)
      × (values ≡ value ∷ later)
      × Replays batch.revision run later next

  pub replay-Replays :
      (run : List Batch) (revision : ℕ)
      → Ensures (λ r. Replays revision run r.0 r.1) (replay json revision run)
  unfolding replay
  replay-Replays [] revision = holds (refl, refl)
  replay-Replays (batch ∷ run) revision =
      Ensures-seq (fail_if (batch.before != revision) NativeSyncError.internal) λ starts.
        Ensures-bind (ok_or (json.read_batch batch.json) NativeSyncError.internal) λ value e.
          Ensures-bind (replay json batch.revision run) λ later r. holds (
            value,
            later.0,
            ground (arith, (fail_if_iff _ _).0 starts),
            ok_or-some (json.read_batch batch.json) e,
            refl,
            ensures_ok (replay-Replays run batch.revision) r,
          )

  -- What an answer is. When the cursor is out of reach it is the whole snapshot, at the runtime's
  -- revision. Otherwise it has the values of a part of the journal that starts at the reader's
  -- revision, with a cursor at its end, which is behind the reader's unless that was the runtime's.
  abbrev pub Answers :
      ReadJournal → ClientRuntime V → Bytes → ℕ → ℕ → Result NativeSyncError (Changes J) → Type 0
  Answers self runtime process_epoch revision limit answer =
      (OutOfReach self runtime.state.revision process_epoch revision
        × (snapshot : J) × (answer
            ≡ ok (Changes.reset_required snapshot (cursor_at self runtime.state.revision)))
        × (json.read_snapshot runtime ≡ some snapshot))
      ⊎ ((process_epoch ≡ epoch_value self.epoch)
          × (run : List Batch) × (values : List J) × (next : ℕ) × PartOf limit self.batches run
          × Replays revision run values next
          × (answer ≡ ok (Changes.batches values (cursor_at self next)))
          × (revision ≤ next)
          × (next ≤ runtime.state.revision)
          × ((revision ≡ runtime.state.revision) ⊎ (revision < next)))
