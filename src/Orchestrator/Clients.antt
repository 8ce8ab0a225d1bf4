-- ===== src/Orchestrator/Clients.antt =====
-- The orchestrator's clients of the policy engine and of the workflow worker
-- (apps/orchestrator-api/src/orchestrator_api/policy_client.py and workflow_client.py), over the
-- endpoints of those services. What becomes of a request is read from the state.
use control_architecture.Base.{String, Option, none, [], ◌∷◌, Result, ok, err, format, Exec}
use control_architecture.Contracts.Http.{HttpError, DetailedError, detail_from_response}
use control_architecture.ControlPlane.Document.{ControlPlaneConfig}
use control_architecture.Policy.Engine.{
  IntakeDecisionRequest, ReleaseDecisionRequest, PolicyDecisionResponse,
}
use control_architecture.Policy.Api.{post_intake, post_release_decision}
use control_architecture.Consumer.Network.{Delivery}
use control_architecture.Worker.Service.{WorkflowResumeRequest, WorkflowExecutionResponse}
use control_architecture.Worker.Requests.{WorkflowStartRequest}
use control_architecture.Orchestrator.Models.{PolicyEngineError, WorkflowWorkerError}

abbrev pub policy_error : String → HttpError → PolicyEngineError
policy_error failure_message e = record {
  message = failure_message;
  status_code = e.status_code;
  error_class = none;
}

-- `_request` of the policy client: the policy engine has no state.
unfoldable pub policy_request :
    Delivery
    → String
    → Result HttpError PolicyDecisionResponse
    → Result PolicyEngineError PolicyDecisionResponse
policy_request Delivery.delivered failure_message (ok d) = ok d
policy_request Delivery.delivered failure_message (err e) = err (policy_error failure_message e)
policy_request Delivery.lost_request failure_message r =
    err (record { message = failure_message; status_code = 502; error_class = none })
policy_request Delivery.lost_response failure_message r =
    err (record { message = failure_message; status_code = 502; error_class = none })

abbrev workflow_client_error : String × Option String → DetailedError → WorkflowWorkerError
workflow_client_error detail e = record {
  message = detail.0;
  status_code = e.status_code;
  error_class = detail.1;
}

-- The answer that the worker's client reads.
abbrev pub workflow_read :
    {A : Type 0} → String → Result DetailedError A → Result WorkflowWorkerError A
workflow_read failure_message (ok a) = ok a
workflow_read failure_message (err e) =
    err (workflow_client_error (detail_from_response e.detail failure_message) e)

abbrev pub workflow_lost : String → WorkflowWorkerError
workflow_lost failure_message = record {
  message = failure_message;
  status_code = 502;
  error_class = none;
}

module _ {S : Type 0} (network : S → Delivery × S) where
  unfoldable pub evaluate_intake_over :
      ControlPlaneConfig → IntakeDecisionRequest → Exec S PolicyEngineError PolicyDecisionResponse
  unfolding policy_request
  evaluate_intake_over config p s =
      let (d, s') = network s in
      (
        policy_request d "Failed to evaluate intake policy in policy-engine."
            (post_intake config p),
        s',
      )

  unfoldable pub evaluate_release_over :
      ControlPlaneConfig → ReleaseDecisionRequest → Exec S PolicyEngineError PolicyDecisionResponse
  unfolding policy_request
  evaluate_release_over config p s =
      let (d, s') = network s in
      (
        policy_request d "Failed to evaluate release policy in policy-engine."
            (post_release_decision config p),
        s',
      )

  -- `_request` of the worker's client.
  abbrev pub workflow_exchange :
      {A : Type 0} → Delivery → String → Exec S DetailedError A → Exec S WorkflowWorkerError A
  workflow_exchange Delivery.delivered failure_message handler s =
      let (r, s') = handler s in (workflow_read failure_message r, s')
  workflow_exchange Delivery.lost_request failure_message handler s =
      (err (workflow_lost failure_message), s)
  workflow_exchange Delivery.lost_response failure_message handler s =
      (err (workflow_lost failure_message), (handler s).1)

  unfoldable pub workflow_request :
      {A : Type 0} → String → Exec S DetailedError A → Exec S WorkflowWorkerError A
  workflow_request failure_message handler s =
      let (d, s') = network s in workflow_exchange d failure_message handler s'

  unfoldable pub start_workflow_over :
      (WorkflowStartRequest → Exec S DetailedError WorkflowExecutionResponse)
      → WorkflowStartRequest
      → Exec S WorkflowWorkerError WorkflowExecutionResponse
  unfolding workflow_request
  start_workflow_over post p =
      workflow_request "Failed to start domestic payment workflow in workflow-worker." (post p)

  unfoldable pub resume_workflow_over :
      (String → WorkflowResumeRequest → Exec S DetailedError WorkflowExecutionResponse)
      → String
      → WorkflowResumeRequest
      → Exec S WorkflowWorkerError WorkflowExecutionResponse
  unfolding workflow_request
  resume_workflow_over post id p =
      workflow_request
        (format ("Failed to resume domestic payment workflow for task " ∷ id ∷ "." ∷ []))
        (post id p)
