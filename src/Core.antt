-- ===== src/Core.antt =====
-- crates/surrealdb-rn-core/src: the native runtime around the sync client. The child modules are
-- its bounded in-memory helpers: the read journal, the pending queue window, the measurements and
-- the local views.
pub mod ReadJournal
pub mod RuntimeState
pub mod Queue
pub mod Diagnostics
pub mod Json
pub mod View
mod Tests
use react_native_surrealdb.Base.{ℕ}

-- sync_client.rs: what the bridge reports.
pub data NativeSyncError : Type 0 where
  closed invalid_input protocol persistence recovery_required : NativeSyncError
  requires_embedded_database read_output_too_large needs_new_scope_journal : NativeSyncError
  pending_quarantine_required subscription_cancelled invalid_subscription : NativeSyncError
  internal queue_capacity : NativeSyncError
