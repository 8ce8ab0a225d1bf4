-- ===== src/Worker/Router.antt =====
-- The delegation router of the workflow worker
-- (services/workflow-worker/src/workflow_worker/delegation.py). A function takes the time and the
-- random parts of the identifiers that it makes, in the order in which the code makes them.
use control_architecture.Base.{
  ℕ, ◌+◌, String, Bool, Option, none, List, [], ◌∷◌, ◌==◌, if◌then◌else◌, string_eq, format,
  or_text,
}
use control_architecture.Contracts.Literals.{ApprovalStatus, DelegationStatus}
use control_architecture.Contracts.Envelopes.{
  Time, seconds, ApprovalRequestArtifactContent, ApprovalDecisionArtifactContent,
  CommonMessageEnvelopeBase, DelegationRequestEnvelope, DelegationResponseEnvelope,
}

abbrev pub parent_agent_id : String
parent_agent_id = "agent.payment_orchestrator"

abbrev pub compliance_agent_id : String
compliance_agent_id = "agent.compliance_screening"

abbrev pub approval_router_agent_id : String
approval_router_agent_id = "agent.approval_router"

abbrev pub approval_capability_id : String
approval_capability_id = "domestic_payment.request_payment_approval"

-- The readings and random parts that an envelope is made of. The clock is read twice in a request
-- and in a callback, and the first random part of `trace` is used where no trace id is given.
pub record EnvelopeTokens : Type 0 where
  pub message : String
  pub correlation : String
  pub timestamp : Time
  pub later : Time
  pub trace : String
  pub span : String

abbrev pub new_id : String → String → String
new_id prefix token = format (prefix ∷ "_" ∷ token ∷ [])

abbrev pub default_ttl_seconds : ℕ
default_ttl_seconds = 900

-- What a request envelope says besides its payload.
pub record RequestFields : Type 0 where
  pub workflow_id : String
  pub task_id : String
  pub delegated_agent_id : String
  pub scope : List String
  pub trace_id : Option String
  pub human_approval_required : Bool

unfoldable pub request_fields : EnvelopeTokens → RequestFields → CommonMessageEnvelopeBase
request_fields k p = record {
  message_id = new_id "msg" k.message;
  correlation_id = new_id "corr" k.correlation;
  task_id = p.task_id;
  workflow_id = p.workflow_id;
  timestamp = k.timestamp;
  source = record {
    principal_type = "agent";
    principal_id = parent_agent_id;
    tenant_id = none;
    session_id = none;
  };
  delegation = record {
    delegated_by = parent_agent_id;
    delegation_chain = parent_agent_id ∷ p.delegated_agent_id ∷ [];
    scope = p.scope;
    expires_at = k.later + seconds default_ttl_seconds;
  };
  target = record { target_type = "agent"; target_id = p.delegated_agent_id; version = "v1" };
  trust = record {
    classification = "bounded_delegation";
    human_approval_required = p.human_approval_required;
    policy_context_id = none;
  };
  trace = record {
    trace_id = or_text p.trace_id (new_id "trace" k.trace);
    span_id = new_id "span" k.span;
  };
}

abbrev pub envelope_base : DelegationRequestEnvelope → CommonMessageEnvelopeBase
envelope_base (DelegationRequestEnvelope.beneficiary_validation_request b p) = b
envelope_base (DelegationRequestEnvelope.approval_routing_request b p) = b

-- The fields of an answer to a request, from an agent.
unfoldable pub response_fields :
    EnvelopeTokens → String → DelegationRequestEnvelope → CommonMessageEnvelopeBase
response_fields k source_agent_id e = record {
  message_id = new_id "msg" k.message;
  correlation_id = (envelope_base e).correlation_id;
  task_id = (envelope_base e).task_id;
  workflow_id = (envelope_base e).workflow_id;
  timestamp = k.timestamp;
  source = record {
    principal_type = "agent";
    principal_id = source_agent_id;
    tenant_id = none;
    session_id = none;
  };
  delegation = (envelope_base e).delegation;
  target = record { target_type = "agent"; target_id = parent_agent_id; version = "v1" };
  trust = (envelope_base e).trust;
  trace = record { trace_id = (envelope_base e).trace.trace_id; span_id = new_id "span" k.span };
}

-- DelegatedExecutionResult, with the payload of the request's kind.
pub record DelegatedExecutionResult (A : Type 0) : Type 0 where
  pub status : DelegationStatus
  pub response_envelope : DelegationResponseEnvelope
  pub payload : A

abbrev pub required_approvals : String → ℕ
required_approvals approval_profile = if approval_profile == "dual_approval" then 2 else 1

-- The approval request that the router makes.
unfoldable pub approval_request : String → String → ApprovalRequestArtifactContent
approval_request token approval_profile = record {
  approval_request_id = new_id "apr" token;
  approval_status = ApprovalStatus.pending;
  approval_profile = approval_profile;
  required_approvals = required_approvals approval_profile;
  route = "human_approval_queue";
}

unfoldable pub approval_decision :
    EnvelopeTokens → String → String → Option String → ApprovalDecisionArtifactContent
approval_decision k approval_request_id approved_by approval_note = record {
  approval_request_id = approval_request_id;
  approval_status = ApprovalStatus.approved;
  approved_by = approved_by;
  approval_note = approval_note;
  approved_at = k.later;
}

unfoldable pub build_approval_completion_envelope :
    EnvelopeTokens
    → DelegationRequestEnvelope
    → String
    → String
    → Option String
    → DelegationResponseEnvelope
unfolding response_fields approval_decision
build_approval_completion_envelope k e approval_request_id approved_by approval_note =
    DelegationResponseEnvelope.approval_routing_callback
      (response_fields k approval_router_agent_id e)
      (approval_decision k approval_request_id approved_by approval_note)
