-- ===== src/Worker/Api.antt =====
-- The endpoints of the workflow worker (services/workflow-worker/src/workflow_worker/main.py): the
-- start and the resume, with an error of the service as a response.
use control_architecture.Base.{String, some, Result, ok, err, Exec}
use control_architecture.Contracts.Http.{DetailedError, server_failure, service_detail}
use control_architecture.Worker.Service.{
  WorkerFault, WorkerClients, WorkflowResumeRequest, WorkflowExecutionResponse,
}
use control_architecture.Worker.Resume.{Worker, resume_domestic_payment_workflow}
use control_architecture.Worker.Requests.{WorkflowStartRequest}
use control_architecture.Worker.Agents.{StartContext}
use control_architecture.Worker.Start.{start_domestic_payment_workflow}

abbrev pub worker_failure : WorkerFault → DetailedError
worker_failure (WorkerFault.workflow_error e) = record {
  status_code = e.status_code;
  detail = some (service_detail e.message (some e.error_class));
}
worker_failure _ = server_failure

abbrev pub worker_reply : {A : Type 0} → Result WorkerFault A → Result DetailedError A
worker_reply (ok a) = ok a
worker_reply (err e) = err (worker_failure e)

module _ {S : Type 0} (c : WorkerClients S) where
  unfoldable pub post_start :
      StartContext → WorkflowStartRequest → Exec S DetailedError WorkflowExecutionResponse
  post_start x p s = let (r, s') = start_domestic_payment_workflow c x p s in (worker_reply r, s')

  unfoldable pub post_resume :
      Worker → String → WorkflowResumeRequest → Exec S DetailedError WorkflowExecutionResponse
  post_resume w id p s =
      let (r, s') = resume_domestic_payment_workflow c w id p s in (worker_reply r, s')
