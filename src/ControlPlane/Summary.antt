-- ===== src/ControlPlane/Summary.antt =====
-- The summary that the control plane publishes, and the decisions that the policy engine takes from the
-- same document (apps/control-plane/src/control_plane/service.py and
-- apps/policy-engine/src/policy_engine/service.py).
use control_architecture.Base.{
  String, not, ◌≡◌, refl, ◌==◌, string_eq, string_discrete, is_in, leb, if◌then◌else◌, none, some,
  Option, or_value, Bool-cases, inl, inr, [],
}
use control_architecture.Contracts.Literals.{PolicyDecisionType}
use control_architecture.ControlPlane.Document.{ControlPlaneConfig}
use control_architecture.ControlPlane.Service.{ControlSummaryResponse, control_summary}
use control_architecture.Policy.Engine.{IntakeDecisionRequest, evaluate_intake}

-- What a reader of the summary expects of an intake.
abbrev pub expected_decision : ControlSummaryResponse → IntakeDecisionRequest → PolicyDecisionType
expected_decision s p =
    if not (is_in p.rail s.rail_scope)
    then PolicyDecisionType.deny
    else if s.default_mode == "read_only"
    then PolicyDecisionType.simulate
    else if leb s.high_risk_escalation_threshold_usd p.amount_usd
    then PolicyDecisionType.escalate
    else PolicyDecisionType.allow

abbrev pub expected_profile : ControlSummaryResponse → IntakeDecisionRequest → String
expected_profile s p =
    if not (is_in p.rail s.rail_scope)
    then "unsupported"
    else if leb s.dual_approval_threshold_usd p.amount_usd
    then "dual_approval"
    else "single_approval"

-- A missing mode is "unknown" in the summary and "dry_run" in the policy engine: neither is read-only.
same_mode :
    (mode : Option String)
    → (or_value mode "dry_run" == "read_only") ≡ (or_value mode "unknown" == "read_only")
unfolding string_discrete
same_mode none = refl
same_mode (some m) = refl

-- The policy engine decides an intake, and picks its approval profile, as the summary lets expect,
-- whichever keys the document has.
pub summary_decides :
    (c : ControlPlaneConfig) (p : IntakeDecisionRequest)
    → ((evaluate_intake c p).decision ≡ expected_decision (control_summary c) p)
      × ((evaluate_intake c p).approval_profile ≡ expected_profile (control_summary c) p)
unfolding evaluate_intake control_summary
summary_decides c p =
    let mode = same_mode c.environment.default_mode in
    elim (Bool-cases (is_in p.rail (or_value c.environment.rail_scope []))) [
      | inr out ↦ rw out (refl, refl)
      | inl within ↦
          elim (Bool-cases (or_value c.environment.default_mode "unknown" == "read_only")) [
            | inl read_only ↦ rw (within, mode, read_only) (refl, refl)
            | inr other ↦
                elim (Bool-cases (
                  leb (or_value c.control_plane.high_risk_escalation_threshold_usd 0)
                    p.amount_usd)) [
                      | inl high ↦ rw (within, mode, other, high) (refl, refl)
                      | inr low ↦ rw (within, mode, other, low) (refl, refl)
                    ]
          ]
    ]
