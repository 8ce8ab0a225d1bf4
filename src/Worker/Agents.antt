-- ===== src/Worker/Agents.antt =====
-- What the delegated agents answer (services/workflow-worker/src/workflow_worker/delegation.py, execute).
use control_architecture.Base.{String, ◌==◌, if◌then◌else◌, string_eq, Result, ok, err}
use control_architecture.Contracts.Literals.{DelegationStatus, validation_status_eq}
use control_architecture.Contracts.Envelopes.{
  ApprovalRequestArtifactContent, BeneficiaryValidationResultPayload, CommonMessageEnvelopeBase,
  BeneficiaryValidationRequestPayload, ApprovalRoutingRequestPayload, DelegationRequestEnvelope,
  DelegationResponseEnvelope,
}
use control_architecture.Gateway.Types.{BeneficiaryValidationRequest, BeneficiaryValidationResponse}
use control_architecture.Worker.Router.{
  EnvelopeTokens, response_fields, approval_request, compliance_agent_id, approval_router_agent_id,
  DelegatedExecutionResult,
}
use control_architecture.Worker.Service.{WorkerFault}

-- The name of the worker and the readings that its envelopes are made of.
pub record StartContext : Type 0 where
  pub app_name : String
  pub validation_request : EnvelopeTokens
  pub validation_response : EnvelopeTokens
  pub routing_request : EnvelopeTokens
  pub routing_response : EnvelopeTokens
  pub approval_token : String

-- capability_request.model_dump(), as the gateway reads it
abbrev pub gateway_request : BeneficiaryValidationRequestPayload → BeneficiaryValidationRequest
gateway_request p = record {
  task_id = p.capability_request.task_id;
  payment_id = p.capability_request.payment_id;
  customer_id = p.capability_request.customer_id;
  beneficiary_id = p.capability_request.beneficiary_id;
  amount_usd = p.capability_request.amount_usd;
  rail = p.capability_request.rail;
  trace_id = p.capability_request.trace_id;
}

abbrev pub validation_payload : BeneficiaryValidationResponse → BeneficiaryValidationResultPayload
validation_payload r = record {
  capability_id = r.capability_id;
  side_effect_class = r.side_effect_class;
  validation_result = r.result;
}

-- `execute` of an approval routing request: it calls no client.
unfoldable pub execute_routing :
    EnvelopeTokens
    → String
    → CommonMessageEnvelopeBase
    → ApprovalRoutingRequestPayload
    → Result WorkerFault (DelegatedExecutionResult ApprovalRequestArtifactContent)
unfolding response_fields
execute_routing k token b p =
    let payload = approval_request token p.approval_profile in
    if b.target.target_id == approval_router_agent_id
    then ok (record {
      status = DelegationStatus.pending;
      response_envelope =
          DelegationResponseEnvelope.approval_routing_result
            (response_fields k approval_router_agent_id
              (DelegationRequestEnvelope.approval_routing_request b p))
            payload;
      payload = payload;
    })
    else err WorkerFault.value_error

unfoldable pub validation_execution :
    StartContext
    → CommonMessageEnvelopeBase
    → BeneficiaryValidationRequestPayload
    → BeneficiaryValidationResponse
    → DelegatedExecutionResult BeneficiaryValidationResultPayload
unfolding response_fields
validation_execution x b q r = record {
  status = DelegationStatus.completed;
  response_envelope =
      DelegationResponseEnvelope.beneficiary_validation_result
        (response_fields x.validation_response compliance_agent_id
          (DelegationRequestEnvelope.beneficiary_validation_request b q))
        (validation_payload r);
  payload = validation_payload r;
}
