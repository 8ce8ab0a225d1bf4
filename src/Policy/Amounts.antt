-- ===== src/Policy/Amounts.antt =====
-- How a release decision depends on the amount, and the profile that a response carries
-- (apps/policy-engine/src/policy_engine/service.py, evaluate_release).
use control_architecture.Base.{◌⊎◌, String, ◌≡◌, ◌≢◌, ◌≤◌, arith, ok, some}
use control_architecture.Contracts.Literals.{PolicyDecisionType}
use control_architecture.Contracts.Json.{Json, Fields, get_field}
use control_architecture.Contracts.Envelopes.{Cents}
use control_architecture.ControlPlane.Document.{ControlPlaneConfig}
use control_architecture.Policy.Engine.{
  release_response, ReleaseDecisionRequest, PolicyDecisionResponse, decide_release,
  evaluate_release, profile_or, recorded_decision,
}
use control_architecture.Policy.Release.{evaluate_release-ok}

-- The same request for another amount.
abbrev pub with_amount : Cents → ReleaseDecisionRequest → ReleaseDecisionRequest
with_amount b p = record p { payment = record p.payment { amount_usd = b } }

module _ (c : ControlPlaneConfig) (p : ReleaseDecisionRequest) (b : Cents) where
  decide-with_amount :
      b ≤ p.payment.amount_usd
      → ((decide_release c (with_amount b p)).0 ≡ (decide_release c p).0)
        ⊎ (((decide_release c p).0 ≡ PolicyDecisionType.escalate)
            × ((decide_release c (with_amount b p)).0 ≡ PolicyDecisionType.allow))
  unfolding decide_release
  decide-with_amount h = ground arith

  -- Lowering the amount of a release leaves its decision, or turns an escalation into an allowance.
  pub release_monotone :
      (r s : PolicyDecisionResponse)
      → b ≤ p.payment.amount_usd
      → evaluate_release c p ≡ ok r
      → evaluate_release c (with_amount b p) ≡ ok s
      → (s.decision ≡ r.decision)
        ⊎ ((r.decision ≡ PolicyDecisionType.escalate) × (s.decision ≡ PolicyDecisionType.allow))
  release_monotone r s le h k =
      rw (evaluate_release-ok c p r h, evaluate_release-ok c (with_amount b p) s k)
        (decide-with_amount le)

-- A profile recorded at intake, if it is a text and not empty, is the profile of the release
-- decision, whatever the thresholds are by then.
pub release-recorded_profile :
    (c : ControlPlaneConfig) (p : ReleaseDecisionRequest) (d : Fields) (s : String)
    → get_field "policy_decision" p.payment.task_metadata ≡ some (Json.obj d)
    → get_field "approval_profile" d ≡ some (Json.str s)
    → s ≢ ""
    → evaluate_release c p ≡ ok (release_response c p s)
unfolding evaluate_release recorded_decision profile_or
release-recorded_profile c p d s h k ne = rw h (rw k (ground arith))
