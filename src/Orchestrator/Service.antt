-- ===== src/Orchestrator/Service.antt =====
-- The intake and the resume of a payment
-- (apps/orchestrator-api/src/orchestrator_api/service.py), over the operations of the clients.
use control_architecture.Base.{
  String, Bool, true, false, Option, none, some, List, [], ◌∷◌, string_eq, map, select, is_in,
  format, or_text, Exec, ◌>>=◌, pure, raise,
}
use control_architecture.Contracts.Literals.{
  PolicyDecisionType, ArtifactTrustLevel, rail_text, task_status_text, approval_status_text,
  beneficiary_status_text,
}
use control_architecture.Contracts.Envelopes.{ArtifactContent, ReleasePolicyDecisionArtifactContent}
use control_architecture.Contracts.Tasks.{TaskDetailView, ArtifactCreateRequest}
use control_architecture.Policy.Engine.{
  IntakeDecisionRequest, ReleaseDecisionRequest, PolicyDecisionResponse,
}
use control_architecture.Worker.Service.{
  WorkflowResumeRequest, WorkflowExecutionResponse, default_idempotency_key,
}
use control_architecture.Worker.Requests.{WorkflowStartRequest}
use control_architecture.Orchestrator.Models.{
  DomesticPaymentIntakeRequest, DomesticPaymentIntakeResponse, DomesticPaymentResumeRequest,
  DomesticPaymentResumeResponse, OrchestrationServiceError, memory_failed, policy_failed,
  workflow_failed, translated, OrchestratorClients,
}
use control_architecture.Orchestrator.Registry.{
  CapabilityDescriptor, RegistrySnapshot, get_capability, get_agent,
}

-- The service: its registry, its name, and the digest of texts in hexadecimal.
pub record OrchestrationService : Type 0 where
  pub snapshot : RegistrySnapshot
  pub app_name : String
  pub sha256 : String → String

abbrev served_categories : List String
served_categories = "draft" ∷ "validation" ∷ "approval" ∷ "inquiry" ∷ "execution" ∷ []

unfoldable pub list_available_capabilities : OrchestrationService → List String
list_available_capabilities o =
    map (λ (c : CapabilityDescriptor). c.id)
      (select (λ c. is_in c.category served_categories) o.snapshot.capabilities)

abbrev is_present {ℓ} : {A : Type ℓ} → Option A → Bool
is_present none = false
is_present (some a) = true

unfoldable pub list_selected_agents : OrchestrationService → List String
unfolding get_agent
list_selected_agents o =
    select (λ id. is_present (get_agent id o.snapshot))
      ("agent.payment_orchestrator" ∷ "agent.compliance_screening" ∷ "agent.approval_router" ∷ [])

abbrev pub policy_denied : PolicyDecisionResponse → OrchestrationServiceError
policy_denied d = record {
  message = d.reason;
  status_code = 403;
  error_class = some "policy_denied";
}

abbrev pub policy_escalation : PolicyDecisionResponse → OrchestrationServiceError
policy_escalation d = record {
  message = d.reason;
  status_code = 409;
  error_class = some "policy_escalation_required";
}

abbrev pub policy_simulation : PolicyDecisionResponse → OrchestrationServiceError
policy_simulation d = record {
  message = d.reason;
  status_code = 409;
  error_class = some "policy_simulation_only";
}

abbrev pub registry_error : String → OrchestrationServiceError
registry_error id = record {
  message = format ("Required capability " ∷ id ∷ " is missing from the registry." ∷ []);
  status_code = 500;
  error_class = some "registry_error";
}

abbrev pub intake_decision_request : DomesticPaymentIntakeRequest → IntakeDecisionRequest
intake_decision_request p = record {
  customer_id = p.customer_id;
  rail = rail_text p.rail;
  amount_usd = p.amount_usd;
  principal = record { actor_id = some p.initiated_by; scopes = p.principal_scopes };
  trace_id = p.trace_id;
}

abbrev pub decision_content : PolicyDecisionResponse → ReleasePolicyDecisionArtifactContent
decision_content d = record {
  decision = d.decision;
  reason = d.reason;
  approval_profile = d.approval_profile;
  execution_mode = d.execution_mode;
  recommended_next_capability = d.recommended_next_capability;
  requires_manual_escalation = d.requires_manual_escalation;
}

abbrev pub release_decision_request :
    TaskDetailView → DomesticPaymentResumeRequest → String → ReleaseDecisionRequest
release_decision_request task p key = record {
  payment = record {
    task_id = task.task_id;
    payment_id = task.payment_id;
    amount_usd = task.amount_usd;
    rail = rail_text task.rail;
    status = task_status_text task.status;
    approval_status = approval_status_text task.approval_status;
    beneficiary_status = beneficiary_status_text task.beneficiary_status;
    task_metadata = task.task_metadata;
  };
  principal = record { actor_id = some p.approved_by; scopes = p.principal_scopes };
  request = record {
    approved_by = p.approved_by;
    approval_note = p.approval_note;
    approval_outcome = "approved";
    idempotency_key = key;
    release_mode = p.release_mode;
  };
  trace_id = task.provenance.trace_id;
}

abbrev pub decision_artifact : OrchestrationService → PolicyDecisionResponse → ArtifactCreateRequest
decision_artifact o d = record {
  artifact_type = "release_policy_decision";
  artifact_ref = none;
  content = ArtifactContent.release_policy_decision (decision_content d);
  trust_level = ArtifactTrustLevel.trusted;
  created_by = o.app_name;
}

abbrev pub worker_request : DomesticPaymentResumeRequest → String → WorkflowResumeRequest
worker_request p key = record {
  approved_by = p.approved_by;
  approval_note = p.approval_note;
  idempotency_key = some key;
  release_mode = p.release_mode;
}

abbrev pub resume_key : OrchestrationService → String → DomesticPaymentResumeRequest → String
resume_key o task_id p = or_text p.idempotency_key (default_idempotency_key o.sha256 task_id)

abbrev pub resume_response : WorkflowExecutionResponse → DomesticPaymentResumeResponse
resume_response r = record {
  task = r.task;
  workflow = r.workflow;
  release_result = r.release_result;
}

module _ {S : Type 0} (c : OrchestratorClients S) (o : OrchestrationService) where
  abbrev pub start_request :
      DomesticPaymentIntakeRequest → PolicyDecisionResponse → WorkflowStartRequest
  start_request p d = record {
    request = p;
    policy_decision = decision_content d;
    selected_agents = list_selected_agents o;
    available_capabilities = list_available_capabilities o;
  }

  abbrev pub intake_response :
      PolicyDecisionResponse → WorkflowExecutionResponse → DomesticPaymentIntakeResponse
  intake_response d r = record {
    task = r.task;
    policy_decision = d;
    available_capabilities = list_available_capabilities o;
    selected_agents = list_selected_agents o;
    workflow = r.workflow;
  }

  -- The start of the workflow, where the registry has the capability.
  unfoldable pub intake_capability :
      DomesticPaymentIntakeRequest
      → PolicyDecisionResponse
      → Option CapabilityDescriptor
      → Exec S OrchestrationServiceError DomesticPaymentIntakeResponse
  intake_capability p d none = raise (registry_error d.recommended_next_capability)
  intake_capability p d (some k) =
      translated workflow_failed (c.start_workflow (start_request p d)) >>= λ r.
      pure (intake_response d r)

  unfoldable pub intake_decided :
      DomesticPaymentIntakeRequest
      → PolicyDecisionResponse
      → PolicyDecisionType
      → Exec S OrchestrationServiceError DomesticPaymentIntakeResponse
  unfolding intake_capability get_capability
  intake_decided p d PolicyDecisionType.deny = raise (policy_denied d)
  intake_decided p d PolicyDecisionType.allow =
      intake_capability p d (get_capability d.recommended_next_capability o.snapshot)
  intake_decided p d PolicyDecisionType.escalate =
      intake_capability p d (get_capability d.recommended_next_capability o.snapshot)
  intake_decided p d PolicyDecisionType.simulate =
      intake_capability p d (get_capability d.recommended_next_capability o.snapshot)

  unfoldable pub create_domestic_payment_task :
      DomesticPaymentIntakeRequest → Exec S OrchestrationServiceError DomesticPaymentIntakeResponse
  unfolding intake_decided
  create_domestic_payment_task p =
      translated policy_failed (c.evaluate_intake (intake_decision_request p)) >>= λ d.
      intake_decided p d d.decision

  unfoldable pub resume_decided :
      String
      → DomesticPaymentResumeRequest
      → PolicyDecisionResponse
      → PolicyDecisionType
      → Exec S OrchestrationServiceError DomesticPaymentResumeResponse
  resume_decided id p d PolicyDecisionType.deny = raise (policy_denied d)
  resume_decided id p d PolicyDecisionType.escalate = raise (policy_escalation d)
  resume_decided id p d PolicyDecisionType.simulate = raise (policy_simulation d)
  resume_decided id p d PolicyDecisionType.allow =
      translated memory_failed (c.create_artifact id (decision_artifact o d)) >>= λ a.
      (translated workflow_failed (c.resume_workflow id (worker_request p (resume_key o id p)))
        >>= λ r. pure (resume_response r))

  unfoldable pub resume_loaded :
      String
      → DomesticPaymentResumeRequest
      → TaskDetailView
      → Exec S OrchestrationServiceError DomesticPaymentResumeResponse
  unfolding resume_decided
  resume_loaded id p task =
      translated policy_failed
        (c.evaluate_release (release_decision_request task p (resume_key o id p)))
      >>= λ d. resume_decided id p d d.decision

  unfoldable pub resume_task :
      String
      → DomesticPaymentResumeRequest
      → Exec S OrchestrationServiceError DomesticPaymentResumeResponse
  unfolding resume_loaded
  resume_task id p = translated memory_failed (c.get_task id) >>= resume_loaded id p

  unfoldable pub get_task : String → Exec S OrchestrationServiceError TaskDetailView
  get_task id = translated memory_failed (c.get_task id)
