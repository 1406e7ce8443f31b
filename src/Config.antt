-- ===== src/Config.antt =====
-- src/domain/config.ts: the configuration, its parser, and the checks against capabilities.
pub mod Schema
pub mod Issues
pub mod Parse
pub mod Encode
pub mod Complete
pub mod Valid
pub mod RoundTrip
pub mod Context
pub mod Evaluate
pub mod Save
pub mod Gate
pub mod Strict
mod Examples
