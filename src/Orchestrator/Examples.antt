-- ===== src/Orchestrator/Examples.antt =====
-- The orchestrator with clients that answer the same each time.
use control_architecture.Base.{
  String, true, none, List, [], ◌∷◌, ◌≡◌, ◌≢◌, ◌⊎◌, Result, refl, ok, string_discrete, find,
  string_eq,
}
use control_architecture.Contracts.Literals.{PolicyDecisionType}
use control_architecture.Contracts.Tasks.{TaskDetailView}
use control_architecture.Policy.Engine.{PolicyDecisionResponse, ReleaseDecisionRequest}
use control_architecture.Gateway.Store.{GatewayFault}
use control_architecture.Consumer.Network.{Delivery}
use control_architecture.Orchestrator.Registry.{get_capability}
use control_architecture.Orchestrator.Service.{
  intake_decision_request, worker_request, intake_capability, intake_decided,
  create_domestic_payment_task, resume_decided, resume_loaded, resume_task,
}
use control_architecture.Orchestrator.Trace.{logging, reached_worker}
use control_architecture.Orchestrator.Gate.{intake_gated}
use control_architecture.Orchestrator.Models.{
  OrchestrationServiceError, DomesticPaymentResumeResponse,
}
use control_architecture.Orchestrator.Sent.{
  Sent, nothing_sent, recording, IsHalted, IsSameRelease, resume_sends,
}
use control_architecture.Worker.Service.{WorkflowResumeRequest}
use control_architecture.Worker.StartFixtures.{start_context}
use control_architecture.Worker.Fixtures.{worker, services}
use control_architecture.Worker.Sound.{Sound}
use control_architecture.Worker.Empty.{empty_system}
use control_architecture.Orchestrator.Fixtures.{
  clients, live_config, service, resume_request, intake_request,
}
use control_architecture.Orchestrator.Platform.{Platform, Request, serve_all}
use control_architecture.Orchestrator.Sound.{platform-Sound}

intake_reaches :
    reached_worker
      (create_domestic_payment_task (logging clients) service intake_request (tt, [])).1.1
    ≡ true
unfolding create_domestic_payment_task intake_decided intake_capability get_capability find
    string_discrete reached_worker
intake_reaches = refl

intake_gated_example :
    (d : PolicyDecisionResponse) × ((clients.evaluate_intake
        (intake_decision_request intake_request)
        tt).0
      ≡ ok d)
    × (d.decision ≢ PolicyDecisionType.deny)
    × (get_capability d.recommended_next_capability service.snapshot ≢ none)
intake_gated_example = intake_gated clients service intake_request tt intake_reaches

abbrev delivers : Unit {0} → Delivery × Unit {0}
delivers u = (Delivery.delivered, u)

abbrev no_text : String
no_text = ""

abbrev sent : Result OrchestrationServiceError DomesticPaymentResumeResponse × (Unit {0} × Sent)
sent = resume_task (recording clients) service "task_1" resume_request (tt, nothing_sent)

-- The worker is sent the key that the request has.
sent_once : sent.1.1.resumed ≡ ("task_1", worker_request resume_request "release-key-1") ∷ []
unfolding resume_task resume_loaded resume_decided string_discrete
sent_once = refl

resume_sends_example :
    IsHalted worker clients service "task_1" resume_request sent
    ⊎ ((task : TaskDetailView) × (q : ReleaseDecisionRequest) × (r : WorkflowResumeRequest)
        × ((clients.get_task "task_1" tt).0 ≡ ok task)
        × (sent.1.1.evaluated ≡ q ∷ [])
        × (sent.1.1.resumed ≡ ("task_1", r) ∷ [])
        × IsSameRelease worker "task_1" task q r)
resume_sends_example = resume_sends worker clients service "task_1" resume_request tt

abbrev duplicate : String
duplicate = "duplicate_request"

abbrev refusal : GatewayFault
refusal =
    GatewayFault.gateway_error
      (record { message = "The key was used."; status_code = 409; error_class = duplicate })

abbrev platform : Platform
platform = record {
  services = services;
  config = live_config;
  orchestrator = service;
  start_context = λ k. start_context;
  worker = λ k. worker;
}

-- The payment is submitted to the rail, and the response to the completion of its last event is lost.
abbrev requests : List Request
requests =
    Request.intake intake_request
    ∷ Request.resume "task_tii" resume_request
    ∷ Request.read "task_tii"
    ∷ []

platform-Sound_example : Sound (serve_all platform requests empty_system)
platform-Sound_example = platform-Sound platform requests
