-- ===== src/Bridge.antt =====
-- src/infrastructure/codex-bridge: the client of the native bridge.
pub mod Frames
pub mod Stream
pub mod Lines
pub mod Identity
pub mod Messages
pub mod Client
pub mod Route
pub mod Calls
pub mod Table
pub mod Closing
pub mod Tracking
pub mod Routed
pub mod Called
pub mod Reached
pub mod Promises
pub mod Ended
pub mod Drained
mod Examples
