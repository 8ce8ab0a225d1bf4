-- ===== src/Worker/Capability.antt =====
-- The worker's client of the capability gateway
-- (services/workflow-worker/src/workflow_worker/capability_client.py).
use control_architecture.Base.{ℕ, String, Option, none, Result, ok, err, Exec}
use control_architecture.Contracts.Http.{DetailedError, detail_from_response}
use control_architecture.Gateway.Types.{
  DomesticPaymentInstructionRequest, DomesticPaymentInstructionResponse,
  BeneficiaryValidationRequest, BeneficiaryValidationResponse, ReleaseApprovedPaymentRequest,
  ReleaseApprovedPaymentResponse,
}
use control_architecture.Gateway.Store.{GatewayStore}
use control_architecture.Gateway.Api.{
  GatewayResponse, post_instruction, post_validation, post_release,
}
use control_architecture.Worker.Service.{ClientFault}
use control_architecture.Worker.System.{System, Services, send}

abbrev capability_fault : String × Option String → DetailedError → ClientFault
capability_fault detail e = ClientFault.capability_error detail.0 e.status_code detail.1

-- How an answer of the gateway is read.
abbrev pub capability_read : {A : Type 0} → String → Result DetailedError A → Result ClientFault A
capability_read failure_message (ok a) = ok a
capability_read failure_message (err e) =
    err (capability_fault (detail_from_response e.detail failure_message) e)

abbrev pub on_store :
    {A : Type 0} → (GatewayStore → GatewayResponse A) → System → Result DetailedError A × System
on_store h y = let (r, s) = h y.store in (r, record y { store = s })

module _ (v : Services) where
  unfoldable pub capability_request :
      {A : Type 0}
      → String
      → (ℕ → System → Result DetailedError A × System)
      → Exec System ClientFault A
  capability_request failure_message handler =
      send v.network (capability_read failure_message)
        (ClientFault.capability_error failure_message 502 none) handler

  unfoldable pub create_instruction :
      DomesticPaymentInstructionRequest → Exec System ClientFault DomesticPaymentInstructionResponse
  create_instruction p =
      capability_request "Failed to create a domestic payment instruction in capability-gateway."
        (λ i. on_store (post_instruction v.gateway (v.network.clock i) (v.instruction_tokens i) p))

  unfoldable pub validate_beneficiary :
      BeneficiaryValidationRequest → Exec System ClientFault BeneficiaryValidationResponse
  validate_beneficiary p =
      capability_request "Failed to validate beneficiary details in capability-gateway."
        (λ i. on_store (post_validation v.gateway (v.network.clock i) p))

  unfoldable pub release_payment :
      ReleaseApprovedPaymentRequest → Exec System ClientFault ReleaseApprovedPaymentResponse
  release_payment p =
      capability_request "Failed to release payment through capability-gateway."
        (λ i. on_store (post_release v.gateway (v.network.clock i) p))
