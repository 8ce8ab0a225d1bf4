-- ===== src/ControlPlane.antt =====
-- The control-plane document that the services read: config/control-plane/default.yaml, served by
-- apps/control-plane (`Service`); `Summary` compares what it publishes with what the policy decides.
pub mod Document
pub mod Service
pub mod Summary
mod Examples
