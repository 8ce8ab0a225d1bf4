-- ===== src/Orchestrator/Platform.antt =====
-- The orchestrator over the policy engine, the workflow worker and the services behind them
-- (apps/orchestrator-api/src/orchestrator_api/main.py, which makes the clients and the service).
use control_architecture.Base.{ℕ, String, List, [], ◌∷◌, Exec}
use control_architecture.ControlPlane.Document.{ControlPlaneConfig}
use control_architecture.Consumer.Network.{Delivery}
use control_architecture.Contracts.Http.{DetailedError}
use control_architecture.Worker.Service.{WorkflowResumeRequest, WorkflowExecutionResponse}
use control_architecture.Worker.Requests.{WorkflowStartRequest}
use control_architecture.Worker.Resume.{Worker}
use control_architecture.Worker.Agents.{StartContext}
use control_architecture.Worker.System.{System, Services, sent}
use control_architecture.Worker.Clients.{worker_clients}
use control_architecture.Worker.Api
use control_architecture.Orchestrator.Models.{
  DomesticPaymentIntakeRequest, DomesticPaymentResumeRequest, OrchestratorClients,
}
use control_architecture.Orchestrator.Service.{OrchestrationService}
use control_architecture.Orchestrator.Clients.{
  evaluate_intake_over, evaluate_release_over, start_workflow_over, resume_workflow_over,
}
use control_architecture.Orchestrator.Memory.{load_task, submit_artifact}
use control_architecture.Orchestrator.Api.{post_domestic_payment, post_resume, read_task}

-- The services, the policy engine's document, the orchestrator, and the worker with what the envelopes
-- of each request are made of.
pub record Platform : Type 0 where
  pub services : Services
  pub config : ControlPlaneConfig
  pub orchestrator : OrchestrationService
  pub start_context : ℕ → StartContext
  pub worker : ℕ → Worker

-- What becomes of the next request.
abbrev pub next_delivery : Services → System → Delivery × System
next_delivery v y = (v.network.delivery y.world.requests, sent y)

module _ (f : Platform) where
  abbrev pub worker_start :
      WorkflowStartRequest → Exec System DetailedError WorkflowExecutionResponse
  worker_start p y =
      Api.post_start (worker_clients f.services) (f.start_context y.world.requests) p y

  abbrev pub worker_resume :
      String → WorkflowResumeRequest → Exec System DetailedError WorkflowExecutionResponse
  worker_resume id p y =
      Api.post_resume (worker_clients f.services) (f.worker y.world.requests) id p y

  abbrev pub orchestrator_clients : OrchestratorClients System
  orchestrator_clients = record {
    get_task = load_task f.services;
    create_artifact = submit_artifact f.services;
    evaluate_intake = evaluate_intake_over (next_delivery f.services) f.config;
    evaluate_release = evaluate_release_over (next_delivery f.services) f.config;
    start_workflow = start_workflow_over (next_delivery f.services) worker_start;
    resume_workflow = resume_workflow_over (next_delivery f.services) worker_resume;
  }

-- The requests that the orchestrator takes.
pub data Request : Type 0 where
  intake : DomesticPaymentIntakeRequest → Request
  resume : String → DomesticPaymentResumeRequest → Request
  read : String → Request

unfoldable pub serve : Platform → Request → System → System
serve f (Request.intake p) y = (post_domestic_payment (orchestrator_clients f) f.orchestrator p y).1
serve f (Request.resume id p) y = (post_resume (orchestrator_clients f) f.orchestrator id p y).1
serve f (Request.read id) y = (read_task (orchestrator_clients f) f.orchestrator id y).1

unfoldable pub serve_all : Platform → List Request → System → System
serve_all f [] y = y
serve_all f (q ∷ r) y = serve_all f r (serve f q y)
