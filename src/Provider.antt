-- ===== src/Provider.antt =====
-- Which models the adaptor serves (src/domain/provider-activation.ts, src/application/
-- provider-activation.ts) and the routes that it registers for them (src/integration/pi/
-- provider-dispatcher.ts).
pub mod Activation
pub mod Routes
pub mod Registered
mod Examples
