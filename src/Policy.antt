-- ===== src/Policy.antt =====
-- apps/policy-engine. `Engine` has the requests, the response and the two evaluations
-- (schemas.py, service.py); the other modules prove what they decide.
pub mod Engine
pub mod Release
pub mod Amounts
pub mod Agreement
mod Examples
pub mod Api
