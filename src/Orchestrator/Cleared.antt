-- ===== src/Orchestrator/Cleared.antt =====
-- The orchestrator with the policy engine behind its client: what holds of every payment whose resume
-- reaches the worker (apps/orchestrator-api/src/orchestrator_api/service.py and policy_client.py,
-- apps/policy-engine/src/policy_engine/service.py).
use control_architecture.Base.{string_eq}
use control_architecture.ControlPlane.Document.{ControlPlaneConfig}
use control_architecture.Policy.Engine.{evaluate_release}
use control_architecture.Consumer.Network.{Delivery}
use control_architecture.Orchestrator.Models.{OrchestratorClients}
use control_architecture.Orchestrator.Clients.{evaluate_release_over}

-- The clients, with the policy engine's release evaluation behind the network.
abbrev pub with_policy_engine :
    {S : Type 0}
    → (S → Delivery × S)
    → ControlPlaneConfig
    → OrchestratorClients S
    → OrchestratorClients S
with_policy_engine network config c = record c {
  evaluate_release = evaluate_release_over network config;
}
