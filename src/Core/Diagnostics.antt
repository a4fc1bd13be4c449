-- ===== src/Core/Diagnostics.antt =====
-- sync_diagnostics.rs: measurements of the runtime's phases. Atomic counters are numbers, a clock's
-- reading is a number of nanoseconds, and a lock that was tried is a test.
pub mod Saturation
use react_native_surrealdb.Base.{
  ℕ, ◌+◌, ◌%◌, Bool, Option, none, some, ltb, u64_mod, saturating_add, if◌then◌else◌,
}

pub record NativeSyncOperationSpan : Type 0 where
  pub operation_ordinal : ℕ
  pub runtime_lock_wait_ns : ℕ
  pub runtime_lock_hold_ns : ℕ
  pub storage_ns : ℕ
  pub state_encoding_ns : ℕ

pub record NativeSyncDiagnostics : Type 0 where
  pub schema_version : ℕ
  pub latest_completed_operation : Option NativeSyncOperationSpan
  pub span_publish_drops : ℕ
  pub runtime_lock_acquisitions : ℕ
  pub runtime_lock_wait_ns : ℕ
  pub runtime_lock_hold_ns : ℕ
  pub storage_attempts : ℕ
  pub storage_ns : ℕ
  pub storage_errors : ℕ
  pub state_encoding_attempts : ℕ
  pub state_encoding_ns : ℕ

pub record Phase : Type 0 where
  pub count : ℕ
  pub ns : ℕ
  pub latest_ns : ℕ

pub record SyncDiagnostics : Type 0 where
  pub runtime_wait : Phase
  pub runtime_hold : Phase
  pub storage : Phase
  pub state_encoding : Phase
  pub storage_errors : ℕ
  pub latest : Option NativeSyncOperationSpan
  pub span_drops : ℕ

-- `u64::try_from(…).unwrap_or(u64::MAX)`.
abbrev pub clamp : ℕ → ℕ
clamp elapsed = if ltb elapsed u64_mod then elapsed else 18446744073709551615

unfoldable pub record_phase : Phase → ℕ → Phase
record_phase self elapsed = record {
  count = saturating_add self.count 1;
  ns = saturating_add self.ns (clamp elapsed);
  latest_ns = clamp elapsed;
}

-- The ordinal of the operation that begins, and the measurements after it.
unfoldable pub begin_operation : SyncDiagnostics → ℕ × SyncDiagnostics
begin_operation self = (
  self.runtime_wait.count,
  record self {
    storage = record (self.storage) { latest_ns = 0 };
    state_encoding = record (self.state_encoding) { latest_ns = 0 };
  },
)

-- With whether the lock of the latest span was free; `fetch_add` wraps.
unfoldable pub complete_operation : Bool → SyncDiagnostics → ℕ → ℕ → ℕ → SyncDiagnostics
complete_operation free self ordinal wait_ns elapsed =
    if free
    then record self {
      latest = some (record {
        operation_ordinal = ordinal;
        runtime_lock_wait_ns = wait_ns;
        runtime_lock_hold_ns = clamp elapsed;
        storage_ns = self.storage.latest_ns;
        state_encoding_ns = self.state_encoding.latest_ns;
      });
    }
    else record self { span_drops = (self.span_drops + 1) % u64_mod }

unfoldable pub snapshot_diagnostics : Bool → SyncDiagnostics → NativeSyncDiagnostics
snapshot_diagnostics free self = record {
  schema_version = 1;
  latest_completed_operation = if free then self.latest else none;
  span_publish_drops = self.span_drops;
  runtime_lock_acquisitions = self.runtime_wait.count;
  runtime_lock_wait_ns = self.runtime_wait.ns;
  runtime_lock_hold_ns = self.runtime_hold.ns;
  storage_attempts = self.storage.count;
  storage_ns = self.storage.ns;
  storage_errors = self.storage_errors;
  state_encoding_attempts = self.state_encoding.count;
  state_encoding_ns = self.state_encoding.ns;
}
