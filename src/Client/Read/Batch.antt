-- ===== src/Client/Read/Batch.antt =====
-- surrealdb-sync-client/src/read.rs, committed_batch: a reader that holds the rows of one revision
-- and applies the batch has the rows of the next.
use react_native_surrealdb.Base.{
  ◌≡◌, refl, sym, ◌∙◌, Bool, true, false, ◌||◌, Option, none, some, List, [], ◌∷◌, ◌++◌, arith,
  DecEq, nat_eq, ◌==◌, if◌then◌else◌, contains, IfSome, inl, inr, ◌⊎◌, Bool-cases, Option-cases,
}
use react_native_surrealdb.Base.Bytes.{bytes_eq, compare_bytes_eq}
use react_native_surrealdb.Base.BTreeMap.{
  BTreeMap, get, insert, remove, keys, get-insert, get-remove,
}
use react_native_surrealdb.Protocol.{
  RecordId, Operation, record_id, RecordState, ClientCommit, DurableOutcome,
}
use react_native_surrealdb.Client.{DurableClientState, OptimisticRecord, ResolvedCommit}
use react_native_surrealdb.Client.Projection.{optimistic_projection}
use react_native_surrealdb.Client.Read.{
  metadata, ReadRowV1, read_row_eq, ReadRowChangeV1, insert_keys, empty_row, edit_row,
  set_optimistic, add_pending, outcome_edit, is_rejected, confirmed_rows, optimistic_rows,
  edit_rows, pending_rows, outcome_rows, snapshot, same_row, row_change, row_changes, both_keys,
  batch_of, committed_batch,
}

contains-insert :
    (j k : RecordId) (m : BTreeMap (Unit {0}))
    → contains j (keys (insert k tt m)) ≡ (j == k || contains j (keys m))
unfolding insert contains
contains-insert j k [] = refl
contains-insert j k ((i, b) ∷ m) = ground (arith, compare_bytes_eq k i, contains-insert j k m)

contains-insert_keys :
    (j : RecordId) (ids : List RecordId) (m : BTreeMap (Unit {0}))
    → contains j (keys (insert_keys ids m)) ≡ (contains j ids || contains j (keys m))
unfolding contains
contains-insert_keys j [] m = refl
contains-insert_keys j (id ∷ ids) m =
    ground (arith, contains-insert_keys j ids (insert id tt m), contains-insert j id m)

contains-append :
    (j : RecordId) (xs ys : List RecordId)
    → contains j (xs ++ ys) ≡ (contains j xs || contains j ys)
unfolding contains
contains-append j [] ys = refl
contains-append j (x ∷ xs) ys = ground (arith, contains-append j xs ys)

get-keys :
    {A : Type 0} (j : RecordId) (m : BTreeMap A) → contains j (keys m) ≡ false → get j m ≡ none
unfolding get contains
get-keys j [] h = refl
get-keys j ((i, a) ∷ m) h = ground (arith, get-keys j m)

module _ {V : Type 0} where
  -- Every row stands under its own record id.
  abbrev pub Keyed : BTreeMap (ReadRowV1 V) → Type 0
  Keyed rows = (id : RecordId) → IfSome (λ row. row.record_id ≡ id) (get id rows)

  Keyed-insert :
      (id : RecordId) (row : ReadRowV1 V) (rows : BTreeMap (ReadRowV1 V))
      → row.record_id ≡ id
      → Keyed rows
      → Keyed (insert id row rows)
  Keyed-insert id row rows e k j = rw (get-insert j id row rows) (elim (Bool-cases (j == id)) [
    | inl same ↦ rw same (e ∙ sym (ground arith))
    | inr other ↦ rw other (k j)
  ])

  Keyed-edit_row :
      (complete : Bool) (id : RecordId) (edit : ReadRowV1 V → ReadRowV1 V)
      (rows : BTreeMap (ReadRowV1 V))
      → ((row : ReadRowV1 V) → (edit row).record_id ≡ row.record_id)
      → Keyed rows
      → Keyed (edit_row complete id edit rows)
  unfolding edit_row
  Keyed-edit_row complete id edit rows same k = elim (Option-cases (get id rows)) [
    | inl absent ↦
        rw (edit_row, absent)
          (Keyed-insert id (edit (empty_row id complete)) rows (same (empty_row id complete)) k)
    | inr (found, e) ↦
        let own : IfSome (λ row. row.record_id ≡ id) (get id rows) = k id in
        rw (edit_row, e) (Keyed-insert id (edit found) rows (same found ∙ (rw e at own)) k)
  ]

  Keyed-edit_rows :
      (complete : Bool) (edit : ReadRowV1 V → ReadRowV1 V) (rows : BTreeMap (ReadRowV1 V))
      (ops : List (Operation V))
      → ((row : ReadRowV1 V) → (edit row).record_id ≡ row.record_id)
      → Keyed rows
      → Keyed (edit_rows complete edit rows ops)
  unfolding edit_rows
  Keyed-edit_rows complete edit rows [] same k = k
  Keyed-edit_rows complete edit rows (op ∷ ops) same k =
      Keyed-edit_rows complete edit (edit_row complete (record_id op) edit rows) ops same
        (Keyed-edit_row complete (record_id op) edit rows same k)

  Keyed-confirmed_rows :
      (complete : Bool) (confirmed : BTreeMap (RecordState V)) (rows : BTreeMap (ReadRowV1 V))
      → Keyed rows
      → Keyed (confirmed_rows complete rows confirmed)
  unfolding confirmed_rows
  Keyed-confirmed_rows complete [] rows k = k
  Keyed-confirmed_rows complete ((id, state) ∷ rest) rows k =
      Keyed-confirmed_rows complete rest _ (Keyed-insert id _ rows refl k)

  Keyed-optimistic_rows :
      (complete : Bool) (projection : BTreeMap (OptimisticRecord V)) (rows : BTreeMap (ReadRowV1 V))
      → Keyed rows
      → Keyed (optimistic_rows complete rows projection)
  unfolding optimistic_rows
  Keyed-optimistic_rows complete [] rows k = k
  Keyed-optimistic_rows complete ((id, optimistic) ∷ rest) rows k =
      Keyed-optimistic_rows complete rest _
        (Keyed-edit_row complete id (set_optimistic optimistic) rows (λ row. refl) k)

  Keyed-pending_rows :
      (complete : Bool) (commits : List (ClientCommit V)) (rows : BTreeMap (ReadRowV1 V))
      → Keyed rows
      → Keyed (pending_rows complete rows commits)
  unfolding pending_rows
  Keyed-pending_rows complete [] rows k = k
  Keyed-pending_rows complete (commit ∷ commits) rows k = Keyed-pending_rows complete commits _ (
      Keyed-edit_rows complete (add_pending commit.identity) rows commit.operations (λ row. refl) k)

  outcome_edit-record_id :
      (resolved : ResolvedCommit V) (outcome : DurableOutcome V) (row : ReadRowV1 V)
      → (outcome_edit resolved outcome row).record_id ≡ row.record_id
  outcome_edit-record_id resolved (DurableOutcome.accepted identity sequence mappings) row = refl
  outcome_edit-record_id resolved (DurableOutcome.conflict identity id authoritative) row = refl
  outcome_edit-record_id resolved (DurableOutcome.rejected identity reason) row = refl

  Keyed-outcome_rows :
      (complete : Bool) (outcomes : List (ResolvedCommit V)) (rows : BTreeMap (ReadRowV1 V))
      → Keyed rows
      → Keyed (outcome_rows complete rows outcomes)
  unfolding outcome_rows
  Keyed-outcome_rows complete [] rows k = k
  Keyed-outcome_rows complete (resolved ∷ outcomes) rows k =
      Keyed-outcome_rows complete outcomes _
        (elim (is_rejected resolved.outcome)
          as (λ b. Keyed (
            if b
            then rows
            else edit_rows complete (outcome_edit resolved resolved.outcome) rows
                resolved.local_commit.operations)) [
                  | true ↦ k
                  | false ↦
                      Keyed-edit_rows complete (outcome_edit resolved resolved.outcome) rows
                        resolved.local_commit.operations
                        (outcome_edit-record_id resolved resolved.outcome) k
                ])

  snapshot-Keyed : (state : DurableClientState V) → Keyed (snapshot state).rows
  unfolding snapshot get
  snapshot-Keyed state = Keyed-outcome_rows _ state.outcomes _ (
      Keyed-pending_rows _ state.outbox _ (
        Keyed-optimistic_rows _ (optimistic_projection state) _
          (Keyed-confirmed_rows _ state.confirmed [] (λ id. tt))))

  -- What a reader does with the changes of a batch.
  abbrev pub apply_changes :
      List (ReadRowChangeV1 V) → BTreeMap (ReadRowV1 V) → BTreeMap (ReadRowV1 V)
  apply_changes [] rows = rows
  apply_changes (ReadRowChangeV1.upsert row ∷ changes) rows =
      apply_changes changes (insert row.record_id row rows)
  apply_changes (ReadRowChangeV1.remove id ∷ changes) rows = apply_changes changes (remove id rows)

module _ {V : Type 0} ⦃v : DecEq V⦄ where
  same_row-eq : (a b : Option (ReadRowV1 V)) → same_row a b ≡ true → a ≡ b
  same_row-eq none none h = refl
  same_row-eq none (some b) h = cc
  same_row-eq (some a) none h = cc
  same_row-eq (some a) (some b) h = ground arith

  -- A reader on the way: each row is as before the batch or as after it.
  abbrev Between : BTreeMap (ReadRowV1 V) → BTreeMap (ReadRowV1 V) → BTreeMap (ReadRowV1 V) → Type 0
  Between before after rows =
      (i : RecordId) → (get i rows ≡ get i before) ⊎ (get i rows ≡ get i after)

  -- The reader has taken over the row of one record.
  abbrev Took :
      RecordId → BTreeMap (ReadRowV1 V) → BTreeMap (ReadRowV1 V) → BTreeMap (ReadRowV1 V) → Type 0
  Took id after rows next =
      (i : RecordId) → get i next ≡ (if i == id then get id after else get i rows)

  Took-Between :
      (id : RecordId) (before after rows next : BTreeMap (ReadRowV1 V))
      → Took id after rows next
      → Between before after rows
      → Between before after next
  Took-Between id before after rows next t b i = elim (bytes_eq.discrete i id) [
    | yes same ↦ inr (ground (arith, t i))
    | no other ↦ elim (b i) [
      | inl old ↦ inl (ground (arith, t i))
      | inr new ↦ inr (ground (arith, t i))
    ]
  ]

  apply_row_change :
      (after rows : BTreeMap (ReadRowV1 V)) (id : RecordId)
      → Keyed after
      → (next : BTreeMap (ReadRowV1 V)) × ((changes : List (ReadRowChangeV1 V))
          → apply_changes (row_change id (get id after) ∷ changes) rows
            ≡ apply_changes changes next)
        × Took id after rows next
  apply_row_change after rows id k = elim (Option-cases (get id after)) [
    | inl absent ↦
        (remove id rows, λ changes. rw absent refl, λ i. rw absent (get-remove i id rows))
    | inr (row, e) ↦
        let own : IfSome (λ r. r.record_id ≡ id) (get id after) = k id in
        let own' : row.record_id ≡ id = rw e at own in
        (insert id row rows, λ changes. rw (e, own') refl, λ i. rw e (get-insert i id row rows))
  ]

  get-row_changes :
      (before after rows : BTreeMap (ReadRowV1 V)) (ids : List RecordId) (j : RecordId)
      → Keyed after
      → Between before after rows
      → get j (apply_changes (row_changes before after ids) rows)
        ≡ (if contains j ids then get j after else get j rows)
  unfolding row_changes contains
  get-row_changes before after rows [] j k b = refl
  get-row_changes before after rows (id ∷ ids) j k b =
      elim (Bool-cases (same_row (get id before) (get id after))) [
        | inl same ↦
            let e = same_row-eq (get id before) (get id after) same in
            let rest = get-row_changes before after rows ids j k b in
            rw same
              (elim (b id) [ inl old ↦ ground (arith, rest) | inr new ↦ ground (arith, rest) ])
        | inr other ↦
            let c = apply_row_change after rows id k in
            let rest =
              get-row_changes before after c.0 ids j k
                (Took-Between id before after rows c.0 c.2 b) in
            rw (other, c.1 (row_changes before after ids)) (ground (arith, rest, c.2 j))
      ]

  get-batch_of :
      (before after : BTreeMap (ReadRowV1 V)) (j : RecordId)
      → Keyed after
      → get j (apply_changes (row_changes before after (both_keys before after)) before)
        ≡ get j after
  unfolding contains
  get-batch_of before after j k =
      let g = get-row_changes before after before (both_keys before after) j k (λ i. inl refl) in
      let c : contains j (both_keys before after)
          ≡ (contains j (keys before) || contains j (keys after)) =
        ground (
          arith,
          contains-insert_keys j (keys before ++ keys after) [],
          contains-append j (keys before) (keys after),
        ) in
      ground (arith, g, c, get-keys j before, get-keys j after)

  -- Whenever two states have a committed batch, applying its changes in order to the rows of the
  -- first snapshot gives each record the row that the second snapshot has for it, and the batch
  -- names the revisions of the two states.
  pub committed_batch-apply :
      (before after : DurableClientState V) (id : RecordId)
      → IfSome
          (λ batch.
            (get id (apply_changes batch.changes (snapshot before).rows)
              ≡ get id (snapshot after).rows)
            × (batch.before_revision ≡ before.revision)
            × (batch.revision ≡ after.revision))
          (committed_batch before after)
  unfolding committed_batch batch_of snapshot metadata
  committed_batch-apply before after id = elim (Bool-cases (before.revision == after.revision)) [
    | inl same ↦ rw same tt
    | inr other ↦ rw other (
      get-batch_of (snapshot before).rows (snapshot after).rows id (snapshot-Keyed after),
      refl,
      refl,
    )
  ]
