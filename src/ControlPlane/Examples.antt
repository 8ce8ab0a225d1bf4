-- ===== src/ControlPlane/Examples.antt =====
-- The summary of the repository's control-plane document.
use control_architecture.Base.{none, some, [], ◌≡◌}
use control_architecture.ControlPlane.Document.{default_config}
use control_architecture.ControlPlane.Service.{control_summary}
use control_architecture.ControlPlane.Summary.{expected_decision, expected_profile, summary_decides}
use control_architecture.Policy.Engine.{IntakeDecisionRequest, evaluate_intake}

abbrev large_intake : IntakeDecisionRequest
large_intake = record {
  customer_id = "cust_1";
  rail = "ach";
  amount_usd = 12000000;
  principal = record { actor_id = some "agent.intake"; scopes = [] };
  trace_id = none;
}

summary_decides_example :
    ((evaluate_intake default_config large_intake).decision
      ≡ expected_decision (control_summary default_config) large_intake)
    × ((evaluate_intake default_config large_intake).approval_profile
        ≡ expected_profile (control_summary default_config) large_intake)
summary_decides_example = summary_decides default_config large_intake
