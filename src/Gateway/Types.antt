-- ===== src/Gateway/Types.antt =====
-- The messages of the capability gateway
-- (apps/capability-gateway/src/capability_gateway/schemas.py). Its literals are those of the shared
-- contracts; a `date` is its ISO text.
use control_architecture.Base.{String, Bool, Option}
use control_architecture.Contracts.Literals.{
  Rail, TaskStatus, BeneficiaryStatus, ApprovalStatus, MockRailOutcome, ReleaseMode,
}
use control_architecture.Contracts.Envelopes.{Time, Cents, BeneficiaryValidationArtifactContent}

pub record TaskProvenance : Type 0 where
  pub initiated_by : String
  pub last_updated_by : String
  pub policy_context_id : Option String
  pub trace_id : Option String

pub record DomesticPaymentTask : Type 0 where
  pub task_id : String
  pub payment_id : String
  pub customer_id : String
  pub rail : Rail
  pub amount_usd : Cents
  pub status : TaskStatus
  pub beneficiary_status : BeneficiaryStatus
  pub approval_status : ApprovalStatus
  pub provenance : TaskProvenance

pub record DomesticPaymentInstructionRequest : Type 0 where
  pub customer_id : String
  pub source_account_id : String
  pub beneficiary_id : String
  pub amount_usd : Cents
  pub rail : Rail
  pub requested_execution_date : String
  pub memo : Option String
  pub initiated_by : String
  pub trace_id : Option String

pub record BeneficiaryValidationRequest : Type 0 where
  pub task_id : String
  pub payment_id : String
  pub customer_id : String
  pub beneficiary_id : String
  pub amount_usd : Cents
  pub rail : Rail
  pub trace_id : Option String

-- The key has at least 8 characters, which the endpoint tests (Gateway/Api).
pub record ReleaseApprovedPaymentRequest : Type 0 where
  pub payment_id : String
  pub task_id : String
  pub idempotency_key : String
  pub released_by : String
  pub release_mode : ReleaseMode

-- Its fields are those of the shared `BeneficiaryValidationArtifactContent`, as which the worker
-- reads it.
abbrev pub BeneficiaryValidationResult : Type 0
BeneficiaryValidationResult = BeneficiaryValidationArtifactContent

pub record PaymentStatusResponse : Type 0 where
  pub payment_id : String
  pub status : TaskStatus
  pub rail : Option Rail
  pub updated_at : Time
  pub error_class : Option String
  pub explanation : Option String

pub record DomesticPaymentInstructionResponse : Type 0 where
  pub capability_id : String
  pub side_effect_class : String
  pub instruction_id : String
  pub task : DomesticPaymentTask
  pub payment_status : PaymentStatusResponse

pub record BeneficiaryValidationResponse : Type 0 where
  pub capability_id : String
  pub side_effect_class : String
  pub result : BeneficiaryValidationResult
  pub task : DomesticPaymentTask

pub record ReleaseApprovedPaymentResponse : Type 0 where
  pub capability_id : String
  pub side_effect_class : String
  pub idempotency_key : String
  pub idempotency_replayed : Bool
  pub mock_rail_outcome : MockRailOutcome
  pub result : PaymentStatusResponse
  pub task : DomesticPaymentTask

pub record PaymentStatusEnvelope : Type 0 where
  pub capability_id : String
  pub side_effect_class : String
  pub payment_status : PaymentStatusResponse
