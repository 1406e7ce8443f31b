-- ===== src/Settings.antt =====
-- src/ui/terminal/settings-model.ts: the model of the settings overlay.
pub mod Rows
pub mod Model
pub mod Keys
pub mod Moves
pub mod Guarded
pub mod Closing
pub mod Clean
pub mod Saving
mod Examples
