-- ===== src/Gateway/Service.antt =====
-- The operations of the capability gateway, but for the release, which is in `Release`
-- (apps/capability-gateway/src/capability_gateway/service.py). An operation takes the time that
-- `_utcnow` reads and the random parts of new identifiers, and returns its result, or what it
-- raises, with the store that it leaves.
use control_architecture.Base.{
  String, Option, none, some, [], ◌∷◌, ◌==◌, if◌then◌else◌, string_eq, Result, ok, err, format,
  or_value, is_in, get,
}
use control_architecture.Contracts.Literals.{
  TaskStatus, BeneficiaryStatus, ApprovalStatus, BeneficiaryValidationStatus, release_mode_eq,
  validation_status_eq, rail_text,
}
use control_architecture.Contracts.Envelopes.{Time}
use control_architecture.Gateway.Types.{
  DomesticPaymentTask, DomesticPaymentInstructionRequest, DomesticPaymentInstructionResponse,
  BeneficiaryValidationRequest, BeneficiaryValidationResponse, PaymentStatusEnvelope,
}
use control_architecture.Gateway.Rail.{validate_beneficiary as rail_validate}
use control_architecture.Gateway.Store.{
  rail_denied, no_record, no_payment, side_effect_class, capability_create_instruction,
  capability_validate_beneficiary, capability_check_status, GatewayFault, GatewayPaymentRecord,
  GatewayStore, put_record, GatewayService,
}

abbrev pub Outcome : Type 0 → Type 0
Outcome A = Result GatewayFault A × GatewayStore

-- The result of a call whose response reads the side effect class after the store was written.
abbrev pub answer : {A : Type 0} → Option String → (String → A) → GatewayStore → Outcome A
answer none f s = (err GatewayFault.key_error, s)
answer (some c) f s = (ok (f c), s)

-- The random parts of the identifiers that `create_instruction` makes.
pub record InstructionTokens : Type 0 where
  pub task : String
  pub payment : String
  pub instruction : String

abbrev pub new_identifier : String → String → String
new_identifier prefix token = format (prefix ∷ "_" ∷ token ∷ [])

unfoldable pub instruction_record :
    GatewayService
    → Time
    → InstructionTokens
    → DomesticPaymentInstructionRequest
    → GatewayPaymentRecord
instruction_record g now tokens p = record {
  instruction_id = new_identifier "instr" tokens.instruction;
  task = record {
    task_id = new_identifier "task" tokens.task;
    payment_id = new_identifier "pay" tokens.payment;
    customer_id = p.customer_id;
    rail = p.rail;
    amount_usd = p.amount_usd;
    status = TaskStatus.received;
    beneficiary_status = BeneficiaryStatus.unknown;
    approval_status = ApprovalStatus.pending;
    provenance = record {
      initiated_by = p.initiated_by;
      last_updated_by = g.app_name;
      policy_context_id = none;
      trace_id = p.trace_id;
    };
  };
  payment_status = record {
    payment_id = new_identifier "pay" tokens.payment;
    status = TaskStatus.received;
    rail = some p.rail;
    updated_at = now;
    error_class = none;
    explanation = some "The mock capability gateway accepted the payment instruction.";
  };
  source_account_id = p.source_account_id;
  beneficiary_id = p.beneficiary_id;
  requested_execution_date = p.requested_execution_date;
  memo = p.memo;
}

unfoldable pub create_instruction :
    GatewayService
    → Time
    → InstructionTokens
    → DomesticPaymentInstructionRequest
    → GatewayStore
    → Outcome DomesticPaymentInstructionResponse
unfolding instruction_record put_record
create_instruction g now tokens p s =
    let r = instruction_record g now tokens p in
    if is_in (rail_text p.rail) (or_value g.config.environment.rail_scope [])
    then answer (side_effect_class g capability_create_instruction)
        (λ c. record {
          capability_id = capability_create_instruction;
          side_effect_class = c;
          instruction_id = r.instruction_id;
          task = r.task;
          payment_status = r.payment_status;
        })
        (put_record r s)
    else (err (rail_denied (rail_text p.rail)), s)

-- The record of a payment, if it is that of the task too.
unfoldable pub matching_record : String → String → GatewayStore → Option GatewayPaymentRecord
matching_record payment_id task_id s = elim (get payment_id s.by_payment_id) [
  | none ↦ none
  | some r ↦ if r.task.task_id == task_id then some r else none
]

abbrev pub beneficiary_task_status : BeneficiaryValidationStatus → BeneficiaryStatus
beneficiary_task_status BeneficiaryValidationStatus.validated = BeneficiaryStatus.approved
beneficiary_task_status BeneficiaryValidationStatus.rejected = BeneficiaryStatus.rejected
beneficiary_task_status BeneficiaryValidationStatus.needs_review = BeneficiaryStatus.needs_review

abbrev pub copy_task :
    DomesticPaymentTask
    → Option TaskStatus
    → Option BeneficiaryStatus
    → Option ApprovalStatus
    → String
    → Option String
    → DomesticPaymentTask
copy_task t status beneficiary_status approval_status last_updated_by trace_id = record t {
  status = or_value status t.status;
  beneficiary_status = or_value beneficiary_status t.beneficiary_status;
  approval_status = or_value approval_status t.approval_status;
  provenance = record t.provenance {
    last_updated_by = last_updated_by;
    trace_id = elim trace_id [ none ↦ t.provenance.trace_id | some x ↦ some x ];
  };
}

-- The record after a validation.
unfoldable pub validated_record :
    GatewayService
    → Time
    → BeneficiaryValidationRequest
    → GatewayPaymentRecord
    → GatewayPaymentRecord
validated_record g now p r =
    let result = rail_validate p.beneficiary_id now in
    let good = result.status == BeneficiaryValidationStatus.validated in
    let status = if good then TaskStatus.validated else TaskStatus.exception in
    record r {
      task =
          copy_task r.task (some status) (some (beneficiary_task_status result.status)) none
            g.app_name p.trace_id;
      payment_status = record {
        payment_id = r.task.payment_id;
        status = status;
        rail = some r.task.rail;
        updated_at = now;
        error_class = if good then none else some "state_conflict";
        explanation = result.reason;
      };
    }

unfoldable pub validate_beneficiary :
    GatewayService
    → Time
    → BeneficiaryValidationRequest
    → GatewayStore
    → Outcome BeneficiaryValidationResponse
unfolding validated_record put_record matching_record
validate_beneficiary g now p s = elim (matching_record p.payment_id p.task_id s) [
  | none ↦ (err no_record, s)
  | some r ↦
      answer (side_effect_class g capability_validate_beneficiary)
        (λ c. record {
          capability_id = capability_validate_beneficiary;
          side_effect_class = c;
          result = rail_validate p.beneficiary_id now;
          task = (validated_record g now p r).task;
        })
        (put_record (validated_record g now p r) s)
]

unfoldable pub get_payment_status :
    GatewayService → String → GatewayStore → Result GatewayFault PaymentStatusEnvelope
get_payment_status g payment_id s = elim (get payment_id s.by_payment_id) [
  | none ↦ err no_payment
  | some r ↦ elim (side_effect_class g capability_check_status) [
    | none ↦ err GatewayFault.key_error
    | some c ↦ ok (record {
      capability_id = capability_check_status;
      side_effect_class = c;
      payment_status = r.payment_status;
    })
  ]
]
