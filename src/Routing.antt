-- ===== src/Routing.antt =====
-- src/integration/pi: how a request of a Pi session finds the provider of its extension instance,
-- and how the payload that goes out is approved.
pub mod Tokens
pub mod Router
pub mod Bindings
pub mod Dispatch
pub mod Reached
pub mod Guard
pub mod Approval
pub mod Liveness
mod Examples
