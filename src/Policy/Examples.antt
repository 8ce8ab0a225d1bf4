-- ===== src/Policy/Examples.antt =====
-- The policy evaluations on concrete requests.
use control_architecture.Base.{
  String, true, none, some, [], ◌∷◌, ◌≡◌, ◌<◌, ◌≤◌, ◌↔◌, ◌⊎◌, is_in, string_eq, refl, ok, err,
  arith, string_discrete,
}
use control_architecture.Contracts.Literals.{PolicyDecisionType, ReleaseMode, ReleaseMode-discrete}
use control_architecture.Contracts.Json.{Json, Fields, get_field}
use control_architecture.Contracts.Envelopes.{Cents}
use control_architecture.ControlPlane.Document.{ControlPlaneConfig, default_config}
use control_architecture.Policy.Engine.{
  IntakeDecisionRequest, ReleaseDecisionRequest, PolicyDecisionResponse, PolicyFault,
  evaluate_intake, evaluate_release, release_profile, recorded_decision, profile_or, decide_release,
  release_response, high_risk_threshold,
}
use control_architecture.Policy.Release.{IsCleared, release_exact}
use control_architecture.Policy.Amounts.{release_monotone}
use control_architecture.Policy.Agreement.{Bounds, intake_bounds_release, manual_escalation_iff}

-- A document that lets releases run.
abbrev live_config : ControlPlaneConfig
live_config = record default_config {
  environment = record default_config.environment { default_mode = some "live" };
}

abbrev recorded_name : String
recorded_name = "dual_approval"

abbrev recorded : Fields
recorded = Fields.field "approval_profile" (Json.str recorded_name) Fields.end

abbrev release_of : Cents → Fields → ReleaseDecisionRequest
release_of amount task_metadata = record {
  payment = record {
    task_id = "task_1";
    payment_id = "pay_1";
    amount_usd = amount;
    rail = "ach";
    status = "awaiting_approval";
    approval_status = "pending";
    beneficiary_status = "approved";
    task_metadata = task_metadata;
  };
  principal = record { actor_id = some "user.ops"; scopes = "release:domestic_payment" ∷ [] };
  request = record {
    approved_by = "user.ops";
    approval_note = none;
    approval_outcome = "approved";
    idempotency_key = "release-key-1";
    release_mode = ReleaseMode.execute;
  };
  trace_id = none;
}

abbrev intake_of : Cents → IntakeDecisionRequest
intake_of amount = record {
  customer_id = "cust_1";
  rail = "ach";
  amount_usd = amount;
  principal = record { actor_id = some "agent.intake"; scopes = [] };
  trace_id = none;
}

abbrev small_release : ReleaseDecisionRequest
small_release = release_of 250000 Fields.end

abbrev large_release : ReleaseDecisionRequest
large_release = release_of 12000000 Fields.end

abbrev answer_of : ReleaseDecisionRequest → String → PolicyDecisionResponse
answer_of p profile = release_response live_config p profile

small_allowed :
    evaluate_release live_config small_release ≡ ok (answer_of small_release "single_approval")
unfolding evaluate_release release_profile recorded_decision profile_or get_field
small_allowed = refl

large_escalated :
    evaluate_release live_config large_release ≡ ok (answer_of large_release "dual_approval")
unfolding evaluate_release release_profile recorded_decision profile_or get_field
large_escalated = refl

small_decision : (decide_release live_config small_release).0 ≡ PolicyDecisionType.allow
unfolding decide_release is_in string_discrete ReleaseMode-discrete
small_decision = refl

large_decision : (decide_release live_config large_release).0 ≡ PolicyDecisionType.escalate
unfolding decide_release is_in string_discrete ReleaseMode-discrete
large_decision = refl

-- Metadata whose recorded decision is a text makes the evaluation raise.
bad_metadata :
    evaluate_release live_config
      (release_of 250000 (Fields.field "policy_decision" (Json.str "allow") Fields.end))
    ≡ err PolicyFault.attribute_error
unfolding evaluate_release release_profile recorded_decision profile_or get_field string_discrete
bad_metadata = refl

release_exact_example :
    (((answer_of small_release "single_approval").decision ≡ PolicyDecisionType.allow)
      ↔ (IsCleared live_config small_release × (250000 < high_risk_threshold live_config)))
    × (((answer_of small_release "single_approval").decision ≡ PolicyDecisionType.escalate)
        ↔ (IsCleared live_config small_release × (high_risk_threshold live_config ≤ 250000)))
release_exact_example =
    release_exact live_config small_release (answer_of small_release "single_approval")
      small_allowed

release_monotone_example :
    ((answer_of small_release "single_approval").decision
      ≡ (answer_of large_release "dual_approval").decision)
    ⊎ (((answer_of large_release "dual_approval").decision ≡ PolicyDecisionType.escalate)
        × ((answer_of small_release "single_approval").decision ≡ PolicyDecisionType.allow))
release_monotone_example =
    release_monotone live_config large_release 250000 (answer_of large_release "dual_approval")
      (answer_of small_release "single_approval") (omega arith) large_escalated small_allowed

-- The intake had recorded dual approval.
abbrev recorded_release : ReleaseDecisionRequest
recorded_release = release_of 250000 (Fields.field "policy_decision" (Json.obj recorded) Fields.end)

intake_bounds_release_example :
    Bounds
      (evaluate_intake live_config (intake_of 250000)).decision
      (answer_of small_release "single_approval").decision
intake_bounds_release_example =
    intake_bounds_release live_config (intake_of 250000) small_release
      (answer_of small_release "single_approval") refl refl small_allowed

manual_escalation_iff_example :
    (((evaluate_intake live_config (intake_of 12000000)).requires_manual_escalation ≡ true)
      ↔ ((evaluate_intake live_config (intake_of 12000000)).decision ≡ PolicyDecisionType.escalate))
    × (((answer_of large_release "dual_approval").requires_manual_escalation ≡ true)
        ↔ ((answer_of large_release "dual_approval").decision ≡ PolicyDecisionType.escalate))
manual_escalation_iff_example =
    manual_escalation_iff live_config (intake_of 12000000) large_release
      (answer_of large_release "dual_approval") large_escalated
