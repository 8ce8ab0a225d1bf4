-- ===== src/Worker/Metadata.antt =====
-- What the start writes into a task's metadata, and what the policy engine and the resume read from it
-- (services/workflow-worker/src/workflow_worker/service.py and
-- apps/policy-engine/src/policy_engine/service.py).
use control_architecture.Contracts.Json.{Json}
