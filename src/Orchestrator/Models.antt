-- ===== src/Orchestrator/Models.antt =====
-- The messages, the errors and the clients of the orchestrator
-- (apps/orchestrator-api/src/orchestrator_api/schemas.py, service.py, memory_client.py,
-- policy_client.py and workflow_client.py).
use control_architecture.Base.{ℕ, String, Option, some, List, Result, ok, err, Exec}
use control_architecture.Contracts.Literals.{ReleaseMode}
use control_architecture.Contracts.Tasks.{TaskDetailView, ArtifactView, ArtifactCreateRequest}
use control_architecture.Gateway.Types.{ReleaseApprovedPaymentResponse}
use control_architecture.Policy.Engine.{
  IntakeDecisionRequest, ReleaseDecisionRequest, PolicyDecisionResponse,
}
use control_architecture.Worker.Service.{
  WorkflowResumeRequest, WorkflowProgress, WorkflowExecutionResponse,
}
use control_architecture.Worker.Requests.{DomesticPaymentIntakePayload, WorkflowStartRequest}

-- The fields are those of the worker's payload.
abbrev pub DomesticPaymentIntakeRequest : Type 0
DomesticPaymentIntakeRequest = DomesticPaymentIntakePayload

abbrev pub WorkflowProgressResponse : Type 0
WorkflowProgressResponse = WorkflowProgress

pub record DomesticPaymentIntakeResponse : Type 0 where
  pub task : TaskDetailView
  pub policy_decision : PolicyDecisionResponse
  pub available_capabilities : List String
  pub selected_agents : List String
  pub workflow : WorkflowProgressResponse

pub record DomesticPaymentResumeRequest : Type 0 where
  pub approved_by : String
  pub approval_note : Option String
  pub idempotency_key : Option String
  pub release_mode : ReleaseMode
  pub principal_scopes : List String

pub record DomesticPaymentResumeResponse : Type 0 where
  pub task : TaskDetailView
  pub workflow : WorkflowProgressResponse
  pub release_result : Option ReleaseApprovedPaymentResponse

pub record OrchestrationServiceError : Type 0 where
  pub message : String
  pub status_code : ℕ
  pub error_class : Option String

-- What the three clients raise.
pub record MemoryServiceError : Type 0 where
  pub message : String

pub record PolicyEngineError : Type 0 where
  pub message : String
  pub status_code : ℕ
  pub error_class : Option String

pub record WorkflowWorkerError : Type 0 where
  pub message : String
  pub status_code : ℕ
  pub error_class : Option String

-- The `except` clauses.
abbrev pub memory_failed :
    {A : Type 0} → Result MemoryServiceError A → Result OrchestrationServiceError A
memory_failed (ok a) = ok a
memory_failed (err e) =
    err (record { message = e.message; status_code = 502; error_class = some "memory_error" })

abbrev pub policy_failed :
    {A : Type 0} → Result PolicyEngineError A → Result OrchestrationServiceError A
policy_failed (ok a) = ok a
policy_failed (err e) =
    err (record { message = e.message; status_code = e.status_code; error_class = e.error_class })

abbrev pub workflow_failed :
    {A : Type 0} → Result WorkflowWorkerError A → Result OrchestrationServiceError A
workflow_failed (ok a) = ok a
workflow_failed (err e) =
    err (record { message = e.message; status_code = e.status_code; error_class = e.error_class })

-- A call whose errors are translated.
abbrev pub translated :
    {S : Type 0} {E : Type 0} {F : Type 0} {A : Type 0}
    → (Result E A → Result F A)
    → Exec S E A
    → Exec S F A
translated f m s = let (r, s') = m s in (f r, s')

-- The operations of the clients that the service uses, on a state `S`.
pub record OrchestratorClients (S : Type 0) : Type 0 where
  pub get_task : String → Exec S MemoryServiceError TaskDetailView
  pub create_artifact : String → ArtifactCreateRequest → Exec S MemoryServiceError ArtifactView
  pub evaluate_intake : IntakeDecisionRequest → Exec S PolicyEngineError PolicyDecisionResponse
  pub evaluate_release : ReleaseDecisionRequest → Exec S PolicyEngineError PolicyDecisionResponse
  pub start_workflow : WorkflowStartRequest → Exec S WorkflowWorkerError WorkflowExecutionResponse
  pub resume_workflow :
      String → WorkflowResumeRequest → Exec S WorkflowWorkerError WorkflowExecutionResponse
