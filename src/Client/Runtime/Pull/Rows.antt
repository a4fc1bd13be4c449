-- ===== src/Client/Runtime/Pull/Rows.antt =====
-- What each record of surrealdb-sync-client/src/lib.rs reads as after a pull batch or a snapshot
-- replaced confirmed rows.
use react_native_surrealdb.Base.{
  ◌≡◌, ◌∙◌, refl, sym, ap, false, true, Option, none, some, List, [], ◌∷◌, ◌++◌, arith, nat_eq,
  ◌==◌, if◌then◌else◌, contains, ok, fail_if, >>-eq-ok, ok-injective,
}
use react_native_surrealdb.Base.Bytes.{bytes_eq}
use react_native_surrealdb.Base.BTreeMap.{BTreeMap, get, insert, get-insert, get-remove}
use react_native_surrealdb.Protocol.{
  RecordId, RecordState, AppliedRecord, PullCommit, SnapshotRecord,
}
use react_native_surrealdb.Client.Validate.{is_absent}
use react_native_surrealdb.Client.Runtime.Pull.{
  apply_record, apply_records, apply_commits, snapshot_rows,
}

module _ {V : Type 0} where
  -- An absent state is stored as no row.
  abbrev pub stored : RecordState V → Option (RecordState V)
  stored state = if is_absent state then none else some state

  -- The last state that some applied records give to a record, or else the row before them.
  abbrev pub last_applied :
      RecordId → List (AppliedRecord V) → Option (RecordState V) → Option (RecordState V)
  last_applied id [] row = row
  last_applied id (applied ∷ rest) row =
      last_applied id rest (if id == applied.record_id then stored applied.state else row)

  abbrev pub all_records : List (PullCommit V) → List (AppliedRecord V)
  all_records [] = []
  all_records (commit ∷ commits) = commit.records ++ all_records commits

  get-apply_record :
      (id : RecordId) (confirmed : BTreeMap (RecordState V)) (applied : AppliedRecord V)
      → get id (apply_record confirmed applied)
        ≡ (if id == applied.record_id then stored applied.state else get id confirmed)
  unfolding apply_record
  get-apply_record id confirmed applied = ground (
    arith,
    get-insert id applied.record_id applied.state confirmed,
    get-remove id applied.record_id confirmed,
  )

  get-apply_records :
      (id : RecordId) (confirmed : BTreeMap (RecordState V)) (records : List (AppliedRecord V))
      → get id (apply_records confirmed records) ≡ last_applied id records (get id confirmed)
  unfolding apply_records
  get-apply_records id confirmed [] = refl
  get-apply_records id confirmed (applied ∷ rest) =
      rw (← get-apply_record id confirmed applied)
        (get-apply_records id (apply_record confirmed applied) rest)

  apply_records-append :
      (confirmed : BTreeMap (RecordState V)) (xs ys : List (AppliedRecord V))
      → apply_records confirmed (xs ++ ys) ≡ apply_records (apply_records confirmed xs) ys
  unfolding apply_records
  apply_records-append confirmed [] ys = refl
  apply_records-append confirmed (x ∷ xs) ys = apply_records-append (apply_record confirmed x) xs ys

  apply_commits-records :
      (confirmed : BTreeMap (RecordState V)) (commits : List (PullCommit V))
      → apply_commits confirmed commits ≡ apply_records confirmed (all_records commits)
  unfolding apply_commits apply_records
  apply_commits-records confirmed [] = refl
  apply_commits-records confirmed (commit ∷ commits) =
      rw (apply_records-append confirmed commit.records (all_records commits))
        (apply_commits-records (apply_records confirmed commit.records) commits)

  -- Commits are applied in order, the records of each in order.
  pub get-apply_commits :
      (id : RecordId) (confirmed : BTreeMap (RecordState V)) (commits : List (PullCommit V))
      → get id (apply_commits confirmed commits)
        ≡ last_applied id (all_records commits) (get id confirmed)
  get-apply_commits id confirmed commits =
      rw (apply_commits-records confirmed commits)
        (get-apply_records id confirmed (all_records commits))

  -- The state that a snapshot has for a record.
  abbrev pub snapshot_row : RecordId → List (SnapshotRecord V) → Option (RecordState V)
  snapshot_row id [] = none
  snapshot_row id (row ∷ rows) =
      if id == row.record_id then stored row.state else snapshot_row id rows

  keeps_seen :
      (id : RecordId) (seen : List RecordId) (confirmed : BTreeMap (RecordState V))
      (rows : List (SnapshotRecord V)) {result : BTreeMap (RecordState V)}
      → contains id seen ≡ true
      → snapshot_rows seen confirmed rows ≡ ok result
      → get id result ≡ get id confirmed
  unfolding snapshot_rows contains
  keeps_seen id seen confirmed [] old h = ap (get id) (sym (ok-injective h))
  keeps_seen id seen confirmed (row ∷ rows) old h =
      let a = >>-eq-ok (fail_if (contains row.record_id seen) _) _ h in
      let k =
        keeps_seen id (row.record_id ∷ seen)
          (if is_absent row.state then confirmed else insert row.record_id row.state confirmed) rows
          (ground arith) a.1 in
      ground (arith, a.0, k, get-insert id row.record_id row.state confirmed)

  pub get-snapshot_rows :
      (id : RecordId) (seen : List RecordId) (confirmed : BTreeMap (RecordState V))
      (rows : List (SnapshotRecord V)) {result : BTreeMap (RecordState V)}
      → get id confirmed ≡ none
      → contains id seen ≡ false
      → snapshot_rows seen confirmed rows ≡ ok result
      → get id result ≡ snapshot_row id rows
  unfolding snapshot_rows contains
  get-snapshot_rows id seen confirmed [] none_yet new h =
      ap (get id) (sym (ok-injective h)) ∙ none_yet
  get-snapshot_rows id seen confirmed (row ∷ rows) none_yet new h =
      let a = >>-eq-ok (fail_if (contains row.record_id seen) _) _ h in
      let next =
        if is_absent row.state then confirmed else insert row.record_id row.state confirmed in
      let g = get-insert id row.record_id row.state confirmed in
      elim (bytes_eq.discrete id row.record_id) [
        | yes same ↦
            let k = keeps_seen id (row.record_id ∷ seen) next rows (ground arith) a.1 in
            ground (arith, k, g)
        | no other ↦
            let k =
              get-snapshot_rows id (row.record_id ∷ seen) next rows (ground (arith, g))
                (ground arith) a.1 in
            ground (arith, k)
      ]
