-- ===== src/State.antt =====
-- api/internal/state: the aggregator.
pub mod Types
pub mod Codec
pub mod Shares
pub mod Blocks
pub mod Reconcile
pub mod Refresh
pub mod Restore
