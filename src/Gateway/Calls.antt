-- ===== src/Gateway/Calls.antt =====
-- Sequences of calls of the gateway's endpoints (apps/capability-gateway/src/capability_gateway/
-- main.py and service.py).
use control_architecture.Base.{
  String, none, List, [], ◌∷◌, ◌≡◌, ◌≢◌, refl, Result, ok, err, string_eq, arith,
}
use control_architecture.Contracts.Envelopes.{Time}
use control_architecture.Gateway.Types.{
  DomesticPaymentInstructionRequest, DomesticPaymentInstructionResponse,
  BeneficiaryValidationRequest, BeneficiaryValidationResponse, ReleaseApprovedPaymentRequest,
  ReleaseApprovedPaymentResponse, PaymentStatusEnvelope,
}
use control_architecture.Gateway.Store.{
  GatewayFault, GatewayService, GatewayStore, side_effect_class, capability_create_instruction,
  capability_validate_beneficiary, capability_release_payment,
}
use control_architecture.Gateway.Service.{
  InstructionTokens, create_instruction, validate_beneficiary, get_payment_status,
}
use control_architecture.Gateway.Release.{release_approved_payment, submit_release}

-- A request to one of the four endpoints, with the time and the random tokens that it meets.
pub data Call : Type 0 where
  create : Time → InstructionTokens → DomesticPaymentInstructionRequest → Call
  validate : Time → BeneficiaryValidationRequest → Call
  release : Time → ReleaseApprovedPaymentRequest → Call
  status : String → Call

pub data Reply : Type 0 where
  created : DomesticPaymentInstructionResponse → Reply
  validation : BeneficiaryValidationResponse → Reply
  released : ReleaseApprovedPaymentResponse → Reply
  payment : PaymentStatusEnvelope → Reply

abbrev pub map_ok : {A : Type 0} → (A → Reply) → Result GatewayFault A → Result GatewayFault Reply
map_ok f (ok a) = ok (f a)
map_ok f (err e) = err e

unfoldable pub call :
    GatewayService → Call → GatewayStore → Result GatewayFault Reply × GatewayStore
call g (Call.create now tokens p) s =
    let (r, s') = create_instruction g now tokens p s in (map_ok Reply.created r, s')
call g (Call.validate now p) s =
    let (r, s') = validate_beneficiary g now p s in (map_ok Reply.validation r, s')
call g (Call.release now p) s =
    let (r, s') = release_approved_payment g now p s in (map_ok Reply.released r, s')
call g (Call.status payment_id) s = (map_ok Reply.payment (get_payment_status g payment_id s), s)

unfoldable pub run : GatewayService → List Call → GatewayStore → GatewayStore
run g [] s = s
run g (c ∷ r) s = run g r (call g c s).1

-- What holds initially and is kept by every call holds after any calls.
pub run_induction {ℓ} :
    (P : GatewayStore → Type ℓ) (g : GatewayService)
    → ((c : Call) (s : GatewayStore) → P s → P (call g c s).1)
    → (calls : List Call) (s : GatewayStore) → P s
    → P (run g calls s)
unfolding run
run_induction P g keep [] s h = h
run_induction P g keep (c ∷ r) s h = run_induction P g keep r (call g c s).1 (keep c s h)

-- The registry entries of the three capabilities that write say their side effect class.
pub record IsClassified (g : GatewayService) : Type 0 where
  pub create : side_effect_class g capability_create_instruction ≢ none
  pub validate : side_effect_class g capability_validate_beneficiary ≢ none
  pub release : side_effect_class g capability_release_payment ≢ none

-- Where the registry classifies the capabilities, a call that raises leaves the store as it was.
pub call_error_unchanged :
    (g : GatewayService) (c : Call) (s : GatewayStore) (e : GatewayFault)
    → IsClassified g
    → (call g c s).0 ≡ err e
    → (call g c s).1 ≡ s
unfolding call create_instruction validate_beneficiary release_approved_payment submit_release
call_error_unchanged g (Call.create now tokens p) s e k h = ground (arith, k.create)
call_error_unchanged g (Call.validate now p) s e k h = ground (arith, k.validate)
call_error_unchanged g (Call.release now p) s e k h = ground (arith, k.release)
call_error_unchanged g (Call.status payment_id) s e k h = refl
