-- ===== src/Core/ReadJournal/Replay.antt =====
-- sync_read.rs: what a reader with a cursor is given.
use react_native_surrealdb.Base.{
  ℕ, zero, suc, ◌≤◌, ◌<◌, ◌≡◌, ◌⊎◌, refl, sym, ap, subst, false, Bool-cases, inl, inr, Option, none,
  some, take, List, [], ◌∷◌, ◌++◌, All, All-append, ◌==◌, ◌!=◌, nat_eq, ok, arith,
}
use react_native_surrealdb.Base.Bytes.{Bytes, bytes_eq}
use react_native_surrealdb.Client.Read.{CommittedReadBatchV1}
use react_native_surrealdb.Core.ReadJournal.{
  Batch, ReadJournal, Json, record_batch, starting_at, replay,
}
use react_native_surrealdb.Core.ReadJournal.Bounds.{
  IsBounded, entry_of, record_batch-cases, record_batch-IsBounded,
}

-- Where a run of batches starts, when it ends at a revision.
abbrev pub start_of : ℕ → List Batch → ℕ
start_of current [] = current
start_of current (batch ∷ batches) = batch.before

-- Each batch takes the rows from one revision to a later one, where the next batch starts; the last
-- one ends at the current revision.
abbrev pub IsLinked : ℕ → List Batch → Type 0
IsLinked current [] = Unit
IsLinked current (batch ∷ batches) =
    (batch.before < batch.revision)
    × (batch.revision ≡ start_of current batches)
    × IsLinked current batches

pub IsLinked-suffix :
    (current : ℕ) (dropped kept : List Batch)
    → IsLinked current (dropped ++ kept)
    → IsLinked current kept
IsLinked-suffix current [] kept h = h
IsLinked-suffix current (batch ∷ dropped) kept h = IsLinked-suffix current dropped kept h.2

IsLinked-snoc :
    (batches : List Batch) (last : Batch)
    → IsLinked last.before batches
    → last.before < last.revision
    → IsLinked last.revision (batches ++ last ∷ [])
IsLinked-snoc [] last h l = (l, refl, tt)
IsLinked-snoc (batch ∷ []) last h l = (h.0, h.1, (l, refl, tt))
IsLinked-snoc (batch ∷ next ∷ batches) last h l =
    (h.0, h.1, IsLinked-snoc (next ∷ batches) last h.2 l)

start_of-le :
    (current : ℕ) (batches : List Batch)
    → IsLinked current batches
    → start_of current batches ≤ current
start_of-le current [] h = omega arith
start_of-le current (batch ∷ batches) h = omega (arith, h.0, h.1, start_of-le current batches h.2)

same_number : (n : ℕ) → (n != n) ≡ false
same_number n = ground arith

pub starting_at_linked :
    (revision current : ℕ) (batches : List Batch)
    → IsLinked current batches
    → (starting_at revision batches ≡ [])
      ⊎ ((dropped : List Batch) × (batches ≡ dropped ++ starting_at revision batches)
          × (start_of current (starting_at revision batches) ≡ revision))
starting_at_linked revision current [] h = inl refl
starting_at_linked revision current (batch ∷ batches) h =
    elim (Bool-cases (batch.before == revision)) [
      | inl p ↦ rw p (inr ([], refl, ground (arith, p)))
      | inr p ↦ elim (starting_at_linked revision current batches h.2) [
        | inl q ↦ rw p (inl q)
        | inr (dropped, q, s) ↦ rw p (inr (batch ∷ dropped, ap (λ t. batch ∷ t) q, s))
      ]
    ]

same_next : {o : Option ReadJournal} {a b : ReadJournal} → o ≡ some a → o ≡ some b → a ≡ b
same_next h k = cc

module _ {V J : Type 0} (json : Json V J) where
  -- The text of a batch that serde_json wrote is one that it reads.
  abbrev pub Readable : Batch → Type 0
  Readable batch = (value : J) × (json.read_batch batch.json ≡ some value)

  pub replay-take :
      (batches : List Batch) (current limit : ℕ)
      → IsLinked current batches
      → All Readable batches
      → (values : List J) × (next : ℕ) × (replay json
            (start_of current batches)
            (take limit batches)
          ≡ ok (values, next))
        × (start_of current batches ≤ next)
        × (next ≤ current)
        × ((take limit batches ≡ []) ⊎ (start_of current batches < next))
  unfolding replay
  replay-take [] current limit h r = ([], current, refl, omega arith, omega arith, inl refl)
  replay-take (batch ∷ batches) current zero h r =
      ([], batch.before, refl, omega arith, start_of-le current (batch ∷ batches) h, inl refl)
  replay-take (batch ∷ batches) current (suc limit) h r =
      let (value, v) = r.0 in
      let (values, next, p, lo, hi, _) = replay-take batches current limit h.2 r.1 in
      let q = subst (λ n. replay json n (take limit batches) ≡ ok (values, next)) (sym h.1) p in
      (
        value ∷ values,
        next,
        rw (same_number batch.before, v, q) refl,
        omega (arith, h.0, h.1, lo),
        hi,
        inr (omega (arith, h.0, h.1, lo)),
      )

  -- serde_json reads the batches that it wrote.
  abbrev pub ReadsBatches : Type 0
  ReadsBatches =
      (batch : CommittedReadBatchV1 V) (text : Bytes)
      → json.write_batch batch ≡ some text
      → (value : J) × (json.read_batch text ≡ some value)

  -- What the loops keep: the bounds, and a run of batches up to the runtime's revision.
  pub record IsJournal (current : ℕ) (self : ReadJournal) : Type 0 where
    pub bounded : IsBounded self
    pub linked : IsLinked current self.batches
    pub readable : All Readable self.batches

  pub record_batch-IsJournal :
      (self : ReadJournal) (batch : CommittedReadBatchV1 V)
      → ReadsBatches
      → IsJournal batch.before_revision self
      → batch.before_revision < batch.revision
      → (next : ReadJournal) × (record_batch json self (some batch) ≡ some next)
        × IsJournal batch.revision next
  record_batch-IsJournal self batch reads h l =
      let (next, p, b) = record_batch-IsBounded json self (some batch) h.bounded in
      elim (record_batch-cases json self batch h.bounded) [
        | inl e ↦ (
          next,
          p,
          record {
            bounded = b;
            linked = subst (λ j. IsLinked batch.revision j.batches) (same_next e p) tt;
            readable = subst (λ j. All Readable j.batches) (same_next e p) tt;
          },
        )
        | inr (text, kept, left, w, room, e) ↦
            let parts = subst (IsLinked batch.before_revision) room.suffix h.linked in
            let texts = subst (All Readable) room.suffix h.readable in
            (
              next,
              p,
              record {
                bounded = b;
                linked =
                    subst (λ j. IsLinked batch.revision j.batches) (same_next e p)
                      (IsLinked-snoc kept (entry_of batch text)
                        (IsLinked-suffix batch.before_revision room.dropped kept parts) l);
                readable =
                    subst (λ j. All Readable j.batches) (same_next e p)
                      ((All-append Readable kept (entry_of batch text ∷ [])).1 (
                        ((All-append Readable room.dropped kept).0 texts).1,
                        (reads batch text w, tt),
                      ));
              },
            )
      ]

  pub record_none-IsJournal :
      (self : ReadJournal) (current : ℕ)
      → IsJournal current self
      → (next : ReadJournal) × (record_batch json self none ≡ some next) × IsJournal current next
  unfolding record_batch
  record_none-IsJournal self current h = (self, refl, h)
