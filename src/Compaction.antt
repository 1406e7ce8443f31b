-- ===== src/Compaction.antt =====
-- src/application/compaction.ts: when a remote compaction runs, what the process keeps of it, and
-- the checkpoint that it leaves.
pub mod Phases
pub mod Threshold
pub mod Exclusion
pub mod Store
pub mod Accounting
pub mod Items
pub mod Checkpoint
pub mod Strict
pub mod Output
pub mod Saved
pub mod Checked
pub mod Persisted
pub mod Keys
mod Examples
