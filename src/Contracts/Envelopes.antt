-- ===== src/Contracts/Envelopes.antt =====
-- The messages between the parent agent and its delegates
-- (packages/shared-contracts/src/shared_contracts/tasks.py). A `datetime` is a number of
-- microseconds, an amount a number of cents.
use control_architecture.Base.{ℕ, ◌*◌, String, Option, List, Bool}
use control_architecture.Contracts.Literals.{
  Rail, TaskStatus, ApprovalStatus, BeneficiaryValidationStatus, PolicyDecisionType,
  MockRailOutcome,
}

abbrev pub Time : Type 0
Time = ℕ

abbrev pub Cents : Type 0
Cents = ℕ

-- timedelta(seconds=n)
abbrev pub seconds : ℕ → Time
seconds n = n * 1000000

pub record ProvenanceSeed : Type 0 where
  pub initiated_by : String
  pub last_updated_by : Option String
  pub policy_context_id : Option String
  pub trace_id : Option String

pub record MessageSource : Type 0 where
  pub principal_type : String
  pub principal_id : String
  pub tenant_id : Option String
  pub session_id : Option String

pub record DelegationContext : Type 0 where
  pub delegated_by : String
  pub delegation_chain : List String
  pub scope : List String
  pub expires_at : Time

pub record MessageTarget : Type 0 where
  pub target_type : String
  pub target_id : String
  pub version : String

pub record TrustContext : Type 0 where
  pub classification : String
  pub human_approval_required : Bool
  pub policy_context_id : Option String

pub record TraceContext : Type 0 where
  pub trace_id : String
  pub span_id : String

pub record ApprovalTaskSummary : Type 0 where
  pub task_id : String
  pub payment_id : String
  pub customer_id : String
  pub amount_usd : Cents
  pub rail : Rail

pub record BeneficiaryValidationCapabilityRequest : Type 0 where
  pub task_id : String
  pub payment_id : String
  pub customer_id : String
  pub beneficiary_id : String
  pub amount_usd : Cents
  pub rail : Rail
  pub trace_id : Option String

pub record BeneficiaryValidationArtifactContent : Type 0 where
  pub beneficiary_id : String
  pub status : BeneficiaryValidationStatus
  pub reason : Option String
  pub validated_at : Time

-- The field `delegated_action` of this and of the next record is the constant "approval_routing".
pub record ApprovalRequestArtifactContent : Type 0 where
  pub approval_request_id : String
  pub approval_status : ApprovalStatus
  pub approval_profile : String
  pub required_approvals : ℕ
  pub route : String

pub record ApprovalDecisionArtifactContent : Type 0 where
  pub approval_request_id : String
  pub approval_status : ApprovalStatus
  pub approved_by : String
  pub approval_note : Option String
  pub approved_at : Time

pub record ReleasePolicyDecisionArtifactContent : Type 0 where
  pub decision : PolicyDecisionType
  pub reason : String
  pub approval_profile : String
  pub execution_mode : String
  pub recommended_next_capability : String
  pub requires_manual_escalation : Bool

pub record PaymentReleaseResultArtifactContent : Type 0 where
  pub payment_id : String
  pub status : TaskStatus
  pub rail : Option Rail
  pub updated_at : Time
  pub error_class : Option String
  pub explanation : Option String
  pub mock_rail_outcome : MockRailOutcome
  pub idempotency_key : String

pub data ArtifactContent : Type 0 where
  beneficiary_validation : BeneficiaryValidationArtifactContent → ArtifactContent
  approval_request : ApprovalRequestArtifactContent → ArtifactContent
  approval_decision : ApprovalDecisionArtifactContent → ArtifactContent
  release_policy_decision : ReleasePolicyDecisionArtifactContent → ArtifactContent
  payment_release_result : PaymentReleaseResultArtifactContent → ArtifactContent

pub record CommonMessageEnvelopeBase : Type 0 where
  pub message_id : String
  pub correlation_id : String
  pub task_id : String
  pub workflow_id : String
  pub timestamp : Time
  pub source : MessageSource
  pub delegation : DelegationContext
  pub target : MessageTarget
  pub trust : TrustContext
  pub trace : TraceContext

pub record BeneficiaryValidationRequestPayload : Type 0 where
  pub capability_request : BeneficiaryValidationCapabilityRequest

pub record ApprovalRoutingRequestPayload : Type 0 where
  pub approval_profile : String
  pub task_summary : ApprovalTaskSummary

pub record BeneficiaryValidationResultPayload : Type 0 where
  pub capability_id : String
  pub side_effect_class : String
  pub validation_result : BeneficiaryValidationArtifactContent

-- The discriminated unions: `message_type` is the constructor.
pub data DelegationRequestEnvelope : Type 0 where
  beneficiary_validation_request :
      CommonMessageEnvelopeBase → BeneficiaryValidationRequestPayload → DelegationRequestEnvelope
  approval_routing_request :
      CommonMessageEnvelopeBase → ApprovalRoutingRequestPayload → DelegationRequestEnvelope

pub data DelegationResponseEnvelope : Type 0 where
  beneficiary_validation_result :
      CommonMessageEnvelopeBase → BeneficiaryValidationResultPayload → DelegationResponseEnvelope
  approval_routing_result :
      CommonMessageEnvelopeBase → ApprovalRequestArtifactContent → DelegationResponseEnvelope
  approval_routing_callback :
      CommonMessageEnvelopeBase → ApprovalDecisionArtifactContent → DelegationResponseEnvelope
