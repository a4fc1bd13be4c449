-- ===== src/Core/Queue.antt =====
-- sync_queue.rs: the window of pending commits that is shown to the application within a budget of
-- bytes, and the test that admits a commit to a queue. serde_json's serializer is a parameter.
pub mod Fits
pub mod Writer
pub mod Window
use react_native_surrealdb.Base.{
  ℕ, zero, suc, ◌+◌, ◌-◌, Bool, true, false, not, ◌&&◌, ◌||◌, Option, none, some, List, [], ◌∷◌,
  ◌++◌, length, take, is_empty, all, ltb, leb, ◌==◌, nat_eq, if◌then◌else◌, Result, ok, err, ◌>>=◌,
  ◌>>◌, fail_if,
}
use react_native_surrealdb.Base.Bytes.{Bytes}
use react_native_surrealdb.Base.Utf8.{is_utf8}
use react_native_surrealdb.Core.{NativeSyncError}

abbrev pub max_commits : ℕ
max_commits = 64

abbrev pub max_bytes : ℕ
max_bytes = 4194304

pub record NativePendingWindow : Type 0 where
  pub revision : ℕ
  pub commits : List Bytes
  pub bytes : ℕ
  pub remaining_count : ℕ
  pub first_commit_too_large : Bool

unfoldable pub limits : ℕ → ℕ → Result NativeSyncError (Unit {0})
limits count bytes =
    fail_if (count == 0 || ltb max_commits count || not (leb 2 bytes && leb bytes max_bytes))
      NativeSyncError.invalid_input

-- `serde_json::to_writer`: its writes for a commit and for a string, and whether it then succeeds.
pub record Serializer (T : Type 0) : Type 0 where
  pub write_value : T → List Bytes × Bool
  pub write_text : Bytes → List Bytes × Bool

pub record BudgetWriter : Type 0 where
  pub bytes : Bytes
  pub limit : ℕ

-- A write that does not fit fails; subtraction of naturals saturates.
unfoldable pub write : BudgetWriter → Bytes → Option BudgetWriter
write self input =
    if ltb (self.limit - length self.bytes) (length input)
    then none
    else some (record self { bytes = self.bytes ++ input })

abbrev pub write_all : BudgetWriter → List Bytes → Option BudgetWriter
write_all self [] = some self
write_all self (input ∷ inputs) = elim (write self input) [
  | none ↦ none
  | some next ↦ write_all next inputs
]

unfoldable pub bounded_json : List Bytes × Bool → ℕ → Option Bytes
bounded_json writes limit = elim (write_all (record { bytes = []; limit = limit }) writes.0) [
  | none ↦ none
  | some writer ↦ if writes.1 then some writer.bytes else none
]

-- `usize::from`.
abbrev pub usize_from : Bool → ℕ
usize_from false = 0
usize_from true = 1

module _ {T : Type 0} (json : Serializer T) where
  -- A commit as a JSON text, and the size of that text as a JSON string behind a comma or not;
  -- `none` when one of the two does not fit.
  unfoldable pub charge : ℕ → ℕ → T → Result NativeSyncError (Option (Bytes × ℕ))
  charge available comma value = elim (bounded_json (json.write_value value) available) [
    | none ↦ ok none
    | some raw ↦
        fail_if (not (is_utf8 raw)) NativeSyncError.internal
        >> elim (bounded_json (json.write_text raw) (available - comma)) [
          | none ↦ ok none
          | some quoted ↦ ok (some (raw, length quoted + comma))
        ]
  ]

  -- The loop of `window`: the commits and their bytes, and whether the first one was too large.
  unfoldable pub fill : ℕ → List T → ℕ → List Bytes → Result NativeSyncError (List Bytes × ℕ × Bool)
  fill budget [] bytes commits = ok (commits, bytes, false)
  fill budget (value ∷ items) bytes commits =
      charge (budget - bytes) (usize_from (not (is_empty commits))) value >>= λ charged.
      elim charged [
        | none ↦ ok (commits, bytes, is_empty commits)
        | some (raw, cost) ↦ fill budget items (bytes + cost) (commits ++ raw ∷ [])
      ]

  unfoldable pub window : ℕ → List T → ℕ → ℕ → Result NativeSyncError NativePendingWindow
  window revision items count budget = do
    limits count budget
    filled ← fill budget (take count items) 2 []
    fail_if (leb 4294967296 (length items - length filled.0)) NativeSyncError.internal
    ok (record {
      revision = revision;
      commits = filled.0;
      bytes = filled.1;
      remaining_count = length items - length filled.0;
      first_commit_too_large = filled.2;
    })

  -- The loop of `admits`.
  unfoldable pub admit : ℕ → List T → ℕ → Bool → Result NativeSyncError (Unit {0})
  admit budget [] charged seen = ok tt
  admit budget (value ∷ items) charged seen =
      charge (budget - charged) (usize_from seen) value >>= λ cost. elim cost [
        | none ↦ err NativeSyncError.queue_capacity
        | some (raw, size) ↦ admit budget items (charged + size) true
      ]

  unfoldable pub admits : List T → T → ℕ → ℕ → Result NativeSyncError (Unit {0})
  admits items candidate count budget = do
    limits count budget
    fail_if (leb count (length items)) NativeSyncError.queue_capacity
    admit budget (items ++ candidate ∷ []) 2 false
