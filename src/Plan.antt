-- ===== src/Plan.antt =====
-- The update_plan tool: src/domain/plan.ts and src/application/update-plan.ts.
pub mod Update
pub mod Accepted
mod Examples
