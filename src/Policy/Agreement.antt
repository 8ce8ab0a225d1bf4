-- ===== src/Policy/Agreement.antt =====
-- The intake evaluation beside the release evaluation
-- (apps/policy-engine/src/policy_engine/service.py).
use control_architecture.Base.{true, ◌≡◌, ◌↔◌, ◌⊎◌, arith, ok}
use control_architecture.Contracts.Literals.{PolicyDecisionType}
use control_architecture.ControlPlane.Document.{ControlPlaneConfig}
use control_architecture.Policy.Engine.{
  IntakeDecisionRequest, ReleaseDecisionRequest, PolicyDecisionResponse, evaluate_intake,
  decide_release, evaluate_release,
}
use control_architecture.Policy.Release.{evaluate_release-ok}

-- The release decisions that an intake decision leaves open.
abbrev pub Bounds : PolicyDecisionType → PolicyDecisionType → Type 0
Bounds PolicyDecisionType.deny d = d ≡ PolicyDecisionType.deny
Bounds PolicyDecisionType.simulate d = d ≡ PolicyDecisionType.simulate
Bounds PolicyDecisionType.escalate d =
    (d ≡ PolicyDecisionType.deny) ⊎ (d ≡ PolicyDecisionType.escalate)
Bounds PolicyDecisionType.allow d = (d ≡ PolicyDecisionType.deny) ⊎ (d ≡ PolicyDecisionType.allow)

decide-intake :
    (c : ControlPlaneConfig) (i : IntakeDecisionRequest) (p : ReleaseDecisionRequest)
    → i.rail ≡ p.payment.rail
    → i.amount_usd ≡ p.payment.amount_usd
    → Bounds (evaluate_intake c i).decision (decide_release c p).0
unfolding evaluate_intake decide_release
decide-intake c i p same_rail same_amount = rw (same_rail, same_amount) (ground arith)

module _ (c : ControlPlaneConfig) where
  -- Under one configuration, for one rail and amount, the intake decision bounds the release
  -- decision: denied stays denied, simulated is simulated, escalated is denied or escalated, and
  -- allowed is denied or allowed.
  pub intake_bounds_release :
      (i : IntakeDecisionRequest) (p : ReleaseDecisionRequest) (r : PolicyDecisionResponse)
      → i.rail ≡ p.payment.rail
      → i.amount_usd ≡ p.payment.amount_usd
      → evaluate_release c p ≡ ok r
      → Bounds (evaluate_intake c i).decision r.decision
  intake_bounds_release i p r same_rail same_amount h =
      rw (evaluate_release-ok c p r h) (decide-intake c i p same_rail same_amount)

  intake_escalation :
      (i : IntakeDecisionRequest)
      → ((evaluate_intake c i).requires_manual_escalation ≡ true)
        ↔ ((evaluate_intake c i).decision ≡ PolicyDecisionType.escalate)
  unfolding evaluate_intake
  intake_escalation i = ground arith

  decide-escalation :
      (p : ReleaseDecisionRequest)
      → ((decide_release c p).2 ≡ true) ↔ ((decide_release c p).0 ≡ PolicyDecisionType.escalate)
  unfolding decide_release
  decide-escalation p = ground arith

  -- Both evaluations ask for a manual escalation exactly when they decide to escalate.
  pub manual_escalation_iff :
      (i : IntakeDecisionRequest) (p : ReleaseDecisionRequest) (r : PolicyDecisionResponse)
      → evaluate_release c p ≡ ok r
      → (((evaluate_intake c i).requires_manual_escalation ≡ true)
          ↔ ((evaluate_intake c i).decision ≡ PolicyDecisionType.escalate))
        × ((r.requires_manual_escalation ≡ true) ↔ (r.decision ≡ PolicyDecisionType.escalate))
  manual_escalation_iff i p r h =
      (intake_escalation i, rw (evaluate_release-ok c p r h) (decide-escalation p))
