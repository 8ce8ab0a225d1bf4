-- ===== src/Orchestrator/Errors.antt =====
-- How an error of a service comes to the orchestrator's caller
-- (apps/orchestrator-api/src/orchestrator_api/service.py, main.py and workflow_client.py,
-- services/workflow-worker/src/workflow_worker/capability_client.py and main.py,
-- apps/capability-gateway/src/capability_gateway/main.py).
use control_architecture.Base.{String, some, ◌≢◌, Result, string_eq}
use control_architecture.Contracts.Http.{DetailedError, service_detail}
use control_architecture.Gateway.Store.{GatewayFault}
use control_architecture.Gateway.Api.{gateway_reply, gateway_failure}
use control_architecture.Worker.Service.{caught}
use control_architecture.Worker.Capability.{capability_read}
use control_architecture.Worker.Api.{worker_reply}
use control_architecture.Orchestrator.Models.{workflow_failed}
use control_architecture.Orchestrator.Clients.{workflow_read}
use control_architecture.Orchestrator.Api.{orchestrator_reply}

-- What the orchestrator's caller sees of an answer of the gateway that ends the workflow: it is read by
-- the worker's client, raised by the worker, read by the orchestrator's client, and raised again.
abbrev pub surfaced :
    {A : Type 0} → String → String → Result GatewayFault A → Result DetailedError A
surfaced gateway_message worker_message r = orchestrator_reply (
    workflow_failed (
      workflow_read worker_message
        (worker_reply (caught (capability_read gateway_message (gateway_reply r))))))

-- What is expected of it: the gateway's own error, and for an exception that the gateway does not
-- take, the message of the worker's client.
abbrev pub expected_failure : String → GatewayFault → DetailedError
expected_failure gateway_message (GatewayFault.gateway_error e) =
    gateway_failure (GatewayFault.gateway_error e)
expected_failure gateway_message _ = record {
  status_code = 500;
  detail = some (service_detail gateway_message (some "gateway_error"));
}

-- An error's class is a text that is not empty.
abbrev pub IsNamed : GatewayFault → Type 0
IsNamed (GatewayFault.gateway_error e) = e.error_class ≢ ""
IsNamed _ = Unit
