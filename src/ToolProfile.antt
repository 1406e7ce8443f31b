-- ===== src/ToolProfile.antt =====
-- src/integration/pi/codex-tool-profile.ts: which of Pi's tools are active while Codex is.
pub mod Names
pub mod Ownership
pub mod Sets
pub mod Restored
pub mod RoundTrip
pub mod State
pub mod Coordinator
pub mod Safety
pub mod Profiles
pub mod Restore
mod Examples
