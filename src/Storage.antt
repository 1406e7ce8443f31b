-- ===== src/Storage.antt =====
-- src/infrastructure/configuration/file-config-repository.ts: the file of the configuration and its
-- backup.
pub mod Disk
pub mod Repository
pub mod Triples
pub mod Atomic
pub mod Saving
pub mod Loading
pub mod Creating
pub mod Undone
pub mod Listeners
pub mod Service
mod Examples
