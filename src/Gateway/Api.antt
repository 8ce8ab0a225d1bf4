-- ===== src/Gateway/Api.antt =====
-- The endpoints of the capability gateway (apps/capability-gateway/src/capability_gateway/main.py):
-- the operations, with an error of the service as a response.
use control_architecture.Base.{
  String, Bool, some, Result, ok, err, ltb, length, codes, if◌then◌else◌,
}
use control_architecture.Contracts.Json.{Json, Items}
use control_architecture.Contracts.Envelopes.{Time}
use control_architecture.Contracts.Http.{DetailedError, server_failure, service_detail}
use control_architecture.Gateway.Types.{
  DomesticPaymentInstructionRequest, DomesticPaymentInstructionResponse,
  BeneficiaryValidationRequest, BeneficiaryValidationResponse, ReleaseApprovedPaymentRequest,
  ReleaseApprovedPaymentResponse, PaymentStatusEnvelope,
}
use control_architecture.Gateway.Store.{GatewayFault, GatewayService, GatewayStore}
use control_architecture.Gateway.Service.{
  InstructionTokens, create_instruction, validate_beneficiary, get_payment_status,
}
use control_architecture.Gateway.Release.{release_approved_payment}

abbrev pub gateway_failure : GatewayFault → DetailedError
gateway_failure (GatewayFault.gateway_error e) = record {
  status_code = e.status_code;
  detail = some (service_detail e.message (some e.error_class));
}
gateway_failure GatewayFault.validation_error = server_failure
gateway_failure GatewayFault.key_error = server_failure

abbrev pub gateway_reply : {A : Type 0} → Result GatewayFault A → Result DetailedError A
gateway_reply (ok a) = ok a
gateway_reply (err e) = err (gateway_failure e)

abbrev pub GatewayResponse : Type 0 → Type 0
GatewayResponse A = Result DetailedError A × GatewayStore

unfoldable pub post_instruction :
    GatewayService
    → Time
    → InstructionTokens
    → DomesticPaymentInstructionRequest
    → GatewayStore
    → GatewayResponse DomesticPaymentInstructionResponse
post_instruction g now tokens p s =
    let (r, s') = create_instruction g now tokens p s in (gateway_reply r, s')

unfoldable pub post_validation :
    GatewayService
    → Time
    → BeneficiaryValidationRequest
    → GatewayStore
    → GatewayResponse BeneficiaryValidationResponse
post_validation g now p s = let (r, s') = validate_beneficiary g now p s in (gateway_reply r, s')

-- `Field(min_length=8)` on the idempotency key.
abbrev pub has_short_key : ReleaseApprovedPaymentRequest → Bool
has_short_key p = ltb (length (codes p.idempotency_key)) 8

-- The body does not validate: the detail is a list, whose items no client reads.
abbrev pub short_key : DetailedError
short_key = record { status_code = 422; detail = some (Json.arr Items.nil) }

unfoldable pub post_release :
    GatewayService
    → Time
    → ReleaseApprovedPaymentRequest
    → GatewayStore
    → GatewayResponse ReleaseApprovedPaymentResponse
post_release g now p s =
    let (r, s') = release_approved_payment g now p s in
    if has_short_key p then (err short_key, s) else (gateway_reply r, s')

unfoldable pub read_payment_status :
    GatewayService → String → GatewayStore → Result DetailedError PaymentStatusEnvelope
read_payment_status g payment_id s = gateway_reply (get_payment_status g payment_id s)
