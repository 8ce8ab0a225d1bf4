-- ===== src/Worker/Service.antt =====
-- The workflow worker's messages, clients and errors (services/workflow-worker/src/workflow_worker/
-- schemas.py, memory_client.py, capability_client.py and service.py). A response of a client has the
-- shape of the endpoint that it calls.
use control_architecture.Base.{
  ℕ, zero, suc, String, Bool, true, false, Option, none, some, List, [], ◌∷◌, ◌==◌, string_eq, ◌&&◌,
  Result, ok, err, format, or_text, Exec,
}
use control_architecture.Contracts.Literals.{DelegationStatus, ReleaseMode, delegation_status_eq}
use control_architecture.Contracts.Json.{Json}
use control_architecture.Contracts.Envelopes.{DelegationResponseEnvelope}
use control_architecture.Contracts.Tasks.{
  TaskDetailView, ArtifactView, ArtifactCreateRequest, DelegatedWorkView,
  DelegatedWorkCreateRequest, DelegatedWorkUpdateRequest,
}
use control_architecture.Context.Models.{TaskCreateRequest, TaskStatePatchRequest}
use control_architecture.Gateway.Types.{
  DomesticPaymentInstructionRequest, DomesticPaymentInstructionResponse,
  BeneficiaryValidationRequest, BeneficiaryValidationResponse, ReleaseApprovedPaymentRequest,
  ReleaseApprovedPaymentResponse,
}

-- WorkflowWorkerError
pub record WorkflowWorkerError : Type 0 where
  pub message : String
  pub status_code : ℕ
  pub error_class : String

-- What the clients raise: CapabilityGatewayError and MemoryServiceError.
pub data ClientFault : Type 0 where
  capability_error : String → ℕ → Option String → ClientFault
  memory_error : String → ℕ → ClientFault

-- What the service raises: its own error, or one of Python's or pydantic's that nothing takes.
pub data WorkerFault : Type 0 where
  workflow_error : WorkflowWorkerError → WorkerFault
  attribute_error validation_error value_error : WorkerFault

-- The two `except` clauses.
abbrev pub worker_fault : ClientFault → WorkerFault
worker_fault (ClientFault.capability_error message status_code error_class) =
    WorkerFault.workflow_error (record {
      message = message;
      status_code = status_code;
      error_class = or_text error_class "gateway_error";
    })
worker_fault (ClientFault.memory_error message status_code) =
    WorkerFault.workflow_error
      (record { message = message; status_code = status_code; error_class = "memory_error" })

abbrev pub caught : {A : Type 0} → Result ClientFault A → Result WorkerFault A
caught (ok a) = ok a
caught (err e) = err (worker_fault e)

-- The operations of the memory client and of the capability client on a state `S`.
pub record WorkerClients (S : Type 0) : Type 0 where
  pub create_task : TaskCreateRequest → Exec S ClientFault TaskDetailView
  pub get_task : String → Exec S ClientFault TaskDetailView
  pub patch_task_state : String → TaskStatePatchRequest → Exec S ClientFault TaskDetailView
  pub create_artifact : String → ArtifactCreateRequest → Exec S ClientFault ArtifactView
  pub create_delegation : String → DelegatedWorkCreateRequest → Exec S ClientFault DelegatedWorkView
  pub update_delegation : String → DelegatedWorkUpdateRequest → Exec S ClientFault DelegatedWorkView
  pub create_instruction :
      DomesticPaymentInstructionRequest → Exec S ClientFault DomesticPaymentInstructionResponse
  pub validate_beneficiary :
      BeneficiaryValidationRequest → Exec S ClientFault BeneficiaryValidationResponse
  pub release_payment :
      ReleaseApprovedPaymentRequest → Exec S ClientFault ReleaseApprovedPaymentResponse

pub record WorkflowResumeRequest : Type 0 where
  pub approved_by : String
  pub approval_note : Option String
  pub idempotency_key : Option String
  pub release_mode : ReleaseMode

pub record WorkflowProgress : Type 0 where
  pub workflow_id : String
  pub workflow_state : String
  pub next_action : String
  pub last_capability : Option String

pub record WorkflowExecutionResponse : Type 0 where
  pub task : TaskDetailView
  pub workflow : WorkflowProgress
  pub artifacts_created : List String
  pub release_result : Option ReleaseApprovedPaymentResponse

abbrev pub state_conflict : String → WorkerFault
state_conflict message =
    WorkerFault.workflow_error
      (record { message = message; status_code = 409; error_class = "state_conflict" })

abbrev pub default_workflow_id : String → String
default_workflow_id task_id = format ("wf_" ∷ task_id ∷ [])

-- `task.task_metadata.get("workflow_id", default)`, as a text; `none` is what does not validate as one.
abbrev pub workflow_id_of : String → Option Json → Option String
workflow_id_of task_id none = some (default_workflow_id task_id)
workflow_id_of task_id (some (Json.str s)) = some s
workflow_id_of task_id (some _) = none

-- text[:n]
abbrev pub prefix_of : ℕ → String → String
prefix_of zero s = ""
prefix_of (suc n) String.[] = ""
prefix_of (suc n) (String.◌∷◌ c s) = String.◌∷◌ c (prefix_of n s)

-- With the digest of texts, in hexadecimal.
abbrev pub default_idempotency_key : (String → String) → String → String
default_idempotency_key sha256 task_id = format ("release-" ∷ prefix_of 16 (sha256 task_id) ∷ [])

abbrev later_match : DelegatedWorkView → Option DelegatedWorkView → Bool → Option DelegatedWorkView
later_match w (some later) b = some later
later_match w none true = some w
later_match w none false = none

-- The last delegation for the action with the status.
unfoldable pub find_latest_delegation :
    String → DelegationStatus → List DelegatedWorkView → Option DelegatedWorkView
find_latest_delegation action status [] = none
find_latest_delegation action status (w ∷ r) =
    later_match w (find_latest_delegation action status r)
      ((w.delegated_action == action) && (w.status == status))

-- `response_envelope.payload.approval_request_id`, or None without an envelope.
abbrev pub approval_request_id_of :
    Option DelegationResponseEnvelope → Result WorkerFault (Option String)
approval_request_id_of none = ok none
approval_request_id_of (some (DelegationResponseEnvelope.beneficiary_validation_result b p)) =
    err WorkerFault.attribute_error
approval_request_id_of (some (DelegationResponseEnvelope.approval_routing_result b p)) =
    ok (some p.approval_request_id)
approval_request_id_of (some (DelegationResponseEnvelope.approval_routing_callback b p)) =
    ok (some p.approval_request_id)
