-- ===== src/Orchestrator/Sound.antt =====
-- The whole system: any requests to the orchestrator, over the policy engine, the worker and the
-- services (apps/orchestrator-api/src/orchestrator_api/service.py, memory_client.py and
-- workflow_client.py).
use control_architecture.Base.{ℕ, String, List, [], ◌∷◌, refl, Exec, Keeps, still-Keeps, seq-Keeps}
use control_architecture.Contracts.Http.{DetailedError}
use control_architecture.Contracts.Tasks.{ArtifactCreateRequest}
use control_architecture.Provenance.Calls.{Operation, step}
use control_architecture.Provenance.Api.{create_artifact}
use control_architecture.Consumer.Network.{Delivery}
use control_architecture.Worker.Service.{WorkflowResumeRequest}
use control_architecture.Worker.Requests.{WorkflowStartRequest}
use control_architecture.Worker.Api.{post_start, post_resume}
use control_architecture.Worker.System.{System, Services, sent}
use control_architecture.Worker.Clients.{worker_clients}
use control_architecture.Worker.Sound.{Sound, send-Keeps, evidence_step, clients-Keep}
use control_architecture.Worker.KeepStart.{start-Keeps}
use control_architecture.Worker.KeepResume
use control_architecture.Worker.Empty.{empty_system, empty-Sound}
use control_architecture.Orchestrator.Api
use control_architecture.Orchestrator.Clients.{
  workflow_exchange, workflow_request, start_workflow_over, resume_workflow_over,
  evaluate_intake_over, evaluate_release_over,
}
use control_architecture.Orchestrator.Memory.{
  checked_request, load_records, load_task, submit_artifact,
}
use control_architecture.Orchestrator.Platform.{
  Platform, next_delivery, orchestrator_clients, Request, serve, serve_all,
}
use control_architecture.Orchestrator.Keep.{ClientsKeep, intake-Keeps, resume-Keeps, get_task-Keeps}

module _ (v : Services) where
  records-Keeps : (id : String) → Keeps Sound (load_records v id)
  unfolding load_records
  records-Keeps id = send-Keeps v.network _ _ _ (λ i y h. h)

  load-Keeps : (id : String) → Keeps Sound (load_task v id)
  unfolding load_task checked_request
  load-Keeps id =
      seq-Keeps Sound _ _ (send-Keeps v.network _ _ _ (λ i y h. h))
        λ t. seq-Keeps Sound _ _ (records-Keeps id) λ r. still-Keeps Sound _ (λ y. refl)

  artifact-Keeps : (id : String) (q : ArtifactCreateRequest) → Keeps Sound (submit_artifact v id q)
  unfolding submit_artifact checked_request create_artifact step
  artifact-Keeps id q =
      send-Keeps v.network _ _ _
        λ i y h. evidence_step v (Operation.artifact (v.network.clock i) id q) _ _ _ h

  -- A request to the worker whose handler keeps it.
  exchange_keeps :
      {A : Type 0} (x : Delivery) (m : String) (handler : Exec System DetailedError A)
      → ((y : System) → Sound y → Sound (handler y).1)
      → (y : System) → Sound y
      → Sound (workflow_exchange (next_delivery v) x m handler y).1
  exchange_keeps Delivery.delivered m handler k y h = k y h
  exchange_keeps Delivery.lost_request m handler k y h = h
  exchange_keeps Delivery.lost_response m handler k y h = k y h

module _ (f : Platform) where
  worker_start_step :
      (p : WorkflowStartRequest) (n : ℕ) (y : System)
      → Sound y
      → Sound (post_start (worker_clients f.services) (f.start_context n) p y).1
  unfolding post_start Keeps
  worker_start_step p n y h =
      start-Keeps Sound (worker_clients f.services) (clients-Keep f.services) (f.start_context n) p
        y h

  worker_resume_step :
      (id : String) (p : WorkflowResumeRequest) (n : ℕ) (y : System)
      → Sound y
      → Sound (post_resume (worker_clients f.services) (f.worker n) id p y).1
  unfolding post_resume Keeps
  worker_resume_step id p n y h =
      KeepResume.resume-Keeps Sound (worker_clients f.services) (clients-Keep f.services)
        (f.worker n) id p y h

  orchestrator_clients-Keep : ClientsKeep Sound (orchestrator_clients f)
  unfolding Keeps evaluate_intake_over evaluate_release_over start_workflow_over
      resume_workflow_over workflow_request
  orchestrator_clients-Keep = record {
    get_task = load-Keeps f.services;
    create_artifact = artifact-Keeps f.services;
    evaluate_intake = λ q y h. h;
    evaluate_release = λ q y h. h;
    start_workflow = λ q y h.
        exchange_keeps f.services _ _ _ (λ z. worker_start_step q z.world.requests z) (sent y) h;
    resume_workflow = λ id q y h.
        exchange_keeps f.services _ _ _ (λ z. worker_resume_step id q z.world.requests z) (sent y)
          h;
  }

  serve_keeps : (q : Request) (y : System) → Sound y → Sound (serve f q y)
  unfolding serve Api.post_domestic_payment Api.post_resume Api.read_task Keeps
  serve_keeps (Request.intake p) y h =
      intake-Keeps Sound _ orchestrator_clients-Keep f.orchestrator p y h
  serve_keeps (Request.resume id p) y h =
      resume-Keeps Sound _ orchestrator_clients-Keep f.orchestrator id p y h
  serve_keeps (Request.read id) y h =
      get_task-Keeps Sound _ orchestrator_clients-Keep f.orchestrator id y h

  serve_all_keeps : (qs : List Request) (y : System) → Sound y → Sound (serve_all f qs y)
  unfolding serve_all
  serve_all_keeps [] y h = h
  serve_all_keeps (q ∷ r) y h = serve_all_keeps r (serve f q y) (serve_keeps q y h)

  -- Whatever requests the orchestrator takes, and whichever requests and responses are lost between it,
  -- the policy engine, the worker and the services: the outbox replays to the task table, every
  -- completed event has a transition in the state history and no event has two, and the gateway's
  -- payment records are coherent.
  pub platform-Sound : (qs : List Request) → Sound (serve_all f qs empty_system)
  platform-Sound qs = serve_all_keeps qs empty_system (empty-Sound f.services)
