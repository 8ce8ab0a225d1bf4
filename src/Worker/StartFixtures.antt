-- ===== src/Worker/StartFixtures.antt =====
-- A start's request and its clients, for the runs on concrete inputs (services/workflow-worker).
use control_architecture.Base.{String, false, none, some, [], ◌∷◌, pure, string_eq, nat_eq}
use control_architecture.Contracts.Literals.{
  Rail, TaskStatus, BeneficiaryStatus, ApprovalStatus, PolicyDecisionType,
  BeneficiaryValidationStatus, MockRailOutcome,
}
use control_architecture.Gateway.Types.{
  DomesticPaymentInstructionResponse, BeneficiaryValidationResponse, ReleaseApprovedPaymentResponse,
}
use control_architecture.Worker.Service.{WorkerClients}
use control_architecture.Worker.Requests.{WorkflowStartRequest}
use control_architecture.Worker.Agents.{StartContext}
use control_architecture.Worker.Fixtures.{tokens, clients}

abbrev pub start_context : StartContext
start_context = record {
  app_name = "workflow-worker";
  validation_request = tokens;
  validation_response = tokens;
  routing_request = tokens;
  routing_response = tokens;
  approval_token = "a1";
}

abbrev pub profile : String
profile = "single_approval"

abbrev pub start_request : WorkflowStartRequest
start_request = record {
  request = record {
    customer_id = "cust_1";
    source_account_id = "acct_1";
    beneficiary_id = "ben_1";
    amount_usd = 250000;
    rail = Rail.ach;
    requested_execution_date = "2026-03-22";
    initiated_by = "user.ops";
    memo = none;
    trace_id = none;
    principal_scopes = "release:domestic_payment" ∷ [];
  };
  policy_decision = record {
    decision = PolicyDecisionType.allow;
    reason = "The payment is within the configured intake thresholds.";
    approval_profile = profile;
    execution_mode = "live";
    recommended_next_capability = "domestic_payment.validate_beneficiary_account";
    requires_manual_escalation = false;
  };
  selected_agents = [];
  available_capabilities = [];
}

abbrev pub created_instruction : DomesticPaymentInstructionResponse
created_instruction = record {
  capability_id = "domestic_payment.create_instruction";
  side_effect_class = "none";
  instruction_id = "instr_1";
  task = record {
    task_id = "task_1";
    payment_id = "pay_1";
    customer_id = "cust_1";
    rail = Rail.ach;
    amount_usd = 250000;
    status = TaskStatus.received;
    beneficiary_status = BeneficiaryStatus.unknown;
    approval_status = ApprovalStatus.pending;
    provenance = record {
      initiated_by = "user.ops";
      last_updated_by = "capability-gateway";
      policy_context_id = none;
      trace_id = none;
    };
  };
  payment_status = record {
    payment_id = "pay_1";
    status = TaskStatus.received;
    rail = some Rail.ach;
    updated_at = 1;
    error_class = none;
    explanation = none;
  };
}

abbrev pub validated_beneficiary : BeneficiaryValidationResponse
validated_beneficiary = record {
  capability_id = "domestic_payment.validate_beneficiary_account";
  side_effect_class = "none";
  result = record {
    beneficiary_id = "ben_1";
    status = BeneficiaryValidationStatus.validated;
    reason = none;
    validated_at = 2;
  };
  task = created_instruction.task;
}

abbrev pub released_payment : ReleaseApprovedPaymentResponse
released_payment = record {
  capability_id = "domestic_payment.release_approved_payment";
  side_effect_class = "irreversible-financial-action";
  idempotency_key = "release-key-1";
  idempotency_replayed = false;
  mock_rail_outcome = MockRailOutcome.success;
  result = record created_instruction.payment_status { status = TaskStatus.settlement_pending };
  task = created_instruction.task;
}

-- Clients whose gateway answers.
abbrev pub answering_clients : WorkerClients (Unit {0})
answering_clients = record clients {
  create_instruction = λ q. pure created_instruction;
  validate_beneficiary = λ q. pure validated_beneficiary;
  release_payment = λ q. pure released_payment;
}
