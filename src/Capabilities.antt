-- ===== src/Capabilities.antt =====
-- src/domain/capability.ts and src/application/resolve-effective-capabilities.ts: what the native
-- bridge says of a model and its tools, and the capabilities that result.
pub mod Metadata
pub mod Resolve
pub mod Backed
pub mod Saved
pub mod Keyed
mod Examples
