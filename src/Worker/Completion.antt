-- ===== src/Worker/Completion.antt =====
-- What a resume that answers has called (services/workflow-worker/src/workflow_worker/service.py,
-- resume_domestic_payment_workflow).
use control_architecture.Base.{String, List, ◌∷◌}
use control_architecture.Contracts.Literals.{task_status_eq}
use control_architecture.Worker.Service.{
  WorkerClients, WorkflowResumeRequest, WorkflowExecutionResponse,
}
use control_architecture.Worker.Resume.{Worker}
use control_architecture.Worker.Trace.{Event}
use control_architecture.Worker.Answers.{Answers}
use control_architecture.Worker.Settlement.{IsResumed}

module _ {S : Type 0} (c : WorkerClients S) (w : Worker) (id : String)
    (p : WorkflowResumeRequest) where
  -- What the answer and the calls after the load are.
  abbrev IsApproved : WorkflowExecutionResponse → List Event → Type 0
  IsApproved x log = IsResumed x (Event.task_loaded ∷ log)
