-- ===== src/Gateway/Store.antt =====
-- The state of the capability gateway, its registry entries and its errors
-- (apps/capability-gateway/src/capability_gateway/service.py).
use control_architecture.Base.{
  format, ℕ, String, Bool, true, false, Option, none, some, List, [], ◌∷◌, ◌==◌, if◌then◌else◌,
  string_eq, Result, ok, err, or_value, select, get, put,
}
use control_architecture.Contracts.Literals.{release_mode_eq, validation_status_eq}
use control_architecture.ControlPlane.Document.{ControlPlaneConfig}
use control_architecture.Gateway.Types.{
  DomesticPaymentTask, ReleaseApprovedPaymentResponse, PaymentStatusResponse,
}

abbrev pub capability_create_instruction : String
capability_create_instruction = "domestic_payment.create_instruction"

abbrev pub capability_validate_beneficiary : String
capability_validate_beneficiary = "domestic_payment.validate_beneficiary_account"

abbrev pub capability_release_payment : String
capability_release_payment = "domestic_payment.release_approved_payment"

abbrev pub capability_check_status : String
capability_check_status = "domestic_payment.check_payment_status"

-- In the order of `sorted`.
abbrev pub expected_capability_ids : List String
expected_capability_ids =
    capability_check_status ∷ capability_create_instruction ∷ capability_release_payment
    ∷ capability_validate_beneficiary ∷ []

pub record GatewayError : Type 0 where
  pub message : String
  pub status_code : ℕ
  pub error_class : String

-- What an operation raises: its own error, a pydantic ValidationError, or a KeyError.
pub data GatewayFault : Type 0 where
  gateway_error : GatewayError → GatewayFault
  validation_error key_error : GatewayFault

-- An entry of the capability registry, with the keys that the service reads.
pub record Capability : Type 0 where
  pub id : String
  pub owner : Option String
  pub side_effect_class : Option String
  pub dry_run_supported : Option Bool

pub record GatewayPaymentRecord : Type 0 where
  pub instruction_id : String
  pub task : DomesticPaymentTask
  pub payment_status : PaymentStatusResponse
  pub source_account_id : String
  pub beneficiary_id : String
  pub requested_execution_date : String
  pub memo : Option String

pub record IdempotencyRecord : Type 0 where
  pub fingerprint : String
  pub response : ReleaseApprovedPaymentResponse

-- InMemoryGatewayStore: its three dicts.
pub record GatewayStore : Type 0 where
  pub by_payment_id : List (String × GatewayPaymentRecord)
  pub by_task_id : List (String × GatewayPaymentRecord)
  pub idempotency_records : List (String × IdempotencyRecord)

abbrev pub empty_store : GatewayStore
empty_store = record { by_payment_id = []; by_task_id = []; idempotency_records = [] }

unfoldable pub put_record : GatewayPaymentRecord → GatewayStore → GatewayStore
put_record r s = record s {
  by_payment_id = put r.task.payment_id r s.by_payment_id;
  by_task_id = put r.task.task_id r s.by_task_id;
}

unfoldable pub put_idempotency_record : String → IdempotencyRecord → GatewayStore → GatewayStore
put_idempotency_record k r s = record s { idempotency_records = put k r s.idempotency_records }

pub record GatewayService : Type 0 where
  pub config : ControlPlaneConfig
  pub app_name : String
  pub capabilities : List (String × Capability)
  pub ambiguous_status : String
  -- hashlib.sha256 of an encoded text, in hexadecimal
  pub sha256 : String → String

-- The dict comprehension of `_load_capabilities`: a later entry with the same id wins.
unfoldable pub own_capabilities :
    String → List (String × Capability) → List Capability → List (String × Capability)
own_capabilities app d [] = d
own_capabilities app d (e ∷ r) =
    own_capabilities app
      (if elim e.owner [ none ↦ false | some o ↦ o == app ] then put e.id e d else d) r

unfoldable pub missing_capabilities : List (String × Capability) → List String
missing_capabilities d =
    select (λ k. elim (get k d) [ none ↦ true | some _ ↦ false ]) expected_capability_ids

abbrev has_all :
    List String → List (String × Capability) → Result (List String) (List (String × Capability))
has_all [] d = ok d
has_all (k ∷ r) d = err (k ∷ r)

-- The error holds the missing names, in the order of the message.
unfoldable pub load_capabilities :
    String → List Capability → Result (List String) (List (String × Capability))
unfolding own_capabilities missing_capabilities
load_capabilities app registry =
    let d = own_capabilities app [] registry in has_all (missing_capabilities d) d

abbrev pub ambiguous_response_action : ControlPlaneConfig → String
ambiguous_response_action c = or_value c.control_plane.ambiguous_response_action "pending_reconcile"

abbrev pub rail_denied : String → GatewayFault
rail_denied rail = GatewayFault.gateway_error (record {
  message = format ("Rail " ∷ rail ∷ " is outside the configured PoC rail scope." ∷ []);
  status_code = 403;
  error_class = "policy_denied";
})

abbrev pub no_record : GatewayFault
no_record = GatewayFault.gateway_error (record {
  message = "No gateway payment record matched the supplied task and payment identifiers.";
  status_code = 404;
  error_class = "state_conflict";
})

abbrev pub no_payment : GatewayFault
no_payment = GatewayFault.gateway_error (record {
  message = "No gateway payment record matched the supplied payment identifier.";
  status_code = 404;
  error_class = "state_conflict";
})

abbrev pub dry_run_unsupported : GatewayFault
dry_run_unsupported = GatewayFault.gateway_error (record {
  message = "The release capability does not support dry_run mode in this PoC configuration.";
  status_code = 409;
  error_class = "state_conflict";
})

abbrev pub duplicate_request : GatewayFault
duplicate_request = GatewayFault.gateway_error (record {
  message = "The idempotency key has already been used for a different release request.";
  status_code = 409;
  error_class = "duplicate_request";
})

-- `self._capabilities[id]["side_effect_class"]`
unfoldable pub side_effect_class : GatewayService → String → Option String
side_effect_class g id = elim (get id g.capabilities) [ none ↦ none | some c ↦ c.side_effect_class ]
