-- ===== src/Orchestrator/Api.antt =====
-- The endpoints of the orchestrator (apps/orchestrator-api/src/orchestrator_api/main.py). The health
-- and metadata endpoints only report settings.
use control_architecture.Base.{String, some, Result, ok, err, Exec}
use control_architecture.Contracts.Tasks.{TaskDetailView}
use control_architecture.Contracts.Http.{DetailedError, service_detail}
use control_architecture.Orchestrator.Models.{
  DomesticPaymentIntakeRequest, DomesticPaymentIntakeResponse, DomesticPaymentResumeRequest,
  DomesticPaymentResumeResponse, OrchestrationServiceError, OrchestratorClients,
}
use control_architecture.Orchestrator.Service.{
  OrchestrationService, create_domestic_payment_task, resume_task, get_task,
}

abbrev pub orchestrator_reply :
    {A : Type 0} → Result OrchestrationServiceError A → Result DetailedError A
orchestrator_reply (ok a) = ok a
orchestrator_reply (err e) =
    err (record {
      status_code = e.status_code;
      detail = some (service_detail e.message e.error_class);
    })

module _ {S : Type 0} (c : OrchestratorClients S) (o : OrchestrationService) where
  unfoldable pub post_domestic_payment :
      DomesticPaymentIntakeRequest → Exec S DetailedError DomesticPaymentIntakeResponse
  post_domestic_payment p s =
      let (r, s') = create_domestic_payment_task c o p s in (orchestrator_reply r, s')

  unfoldable pub post_resume :
      String → DomesticPaymentResumeRequest → Exec S DetailedError DomesticPaymentResumeResponse
  post_resume id p s = let (r, s') = resume_task c o id p s in (orchestrator_reply r, s')

  unfoldable pub read_task : String → Exec S DetailedError TaskDetailView
  read_task id s = let (r, s') = get_task c o id s in (orchestrator_reply r, s')
