-- ===== src/Policy/Release.antt =====
-- When a release is allowed (apps/policy-engine/src/policy_engine/service.py, evaluate_release).
use mathlib.Core.List.{Memᴰ}
use control_architecture.Base.{◌⊎◌, ◌↔◌, ◌≤◌, ok, true, ◌≡◌, ◌≢◌, ◌<◌, arith, is_in_iff}
use control_architecture.Contracts.Literals.{PolicyDecisionType, ReleaseMode}
use control_architecture.ControlPlane.Document.{ControlPlaneConfig}
use control_architecture.Policy.Engine.{
  PolicyDecisionResponse, evaluate_release, release_response, ReleaseDecisionRequest, allowed_rails,
  default_mode, high_risk_threshold, required_scope, dry_run_supported, decide_release,
}

-- What has to hold of a release request besides its amount.
pub record IsCleared (c : ControlPlaneConfig) (p : ReleaseDecisionRequest) : Type 0 where
  pub rail_in_scope : Memᴰ p.payment.rail (allowed_rails c)
  pub executing : default_mode c ≢ "read_only"
  pub mode_supported : (p.request.release_mode ≢ ReleaseMode.dry_run) ⊎ (dry_run_supported c ≡ true)
  pub awaiting_approval : p.payment.status ≡ "awaiting_approval"
  pub beneficiary_approved : p.payment.beneficiary_status ≡ "approved"
  pub human_approved : p.request.approval_outcome ≡ "approved"
  pub has_key : p.request.idempotency_key ≢ ""
  pub scope_held : Memᴰ (required_scope c) p.principal.scopes

module _ (c : ControlPlaneConfig) (p : ReleaseDecisionRequest) where
  decide-allow-IsCleared :
      (decide_release c p).0 ≡ PolicyDecisionType.allow
      → IsCleared c p × (p.payment.amount_usd < high_risk_threshold c)
  unfolding decide_release
  decide-allow-IsCleared h = (
    record {
      rail_in_scope = (is_in_iff _ _).0 (ground arith);
      executing = ground arith;
      mode_supported = ground arith;
      awaiting_approval = ground arith;
      beneficiary_approved = ground arith;
      human_approved = ground arith;
      has_key = ground arith;
      scope_held = (is_in_iff _ _).0 (ground arith);
    },
    ground arith,
  )

  decide-cleared_allow :
      IsCleared c p
      → p.payment.amount_usd < high_risk_threshold c
      → (decide_release c p).0 ≡ PolicyDecisionType.allow
  unfolding decide_release
  decide-cleared_allow k h = ground (
    arith,
    (is_in_iff _ _).1 k.rail_in_scope,
    (is_in_iff _ _).1 k.scope_held,
    k.mode_supported,
    k.executing,
    k.has_key,
  )

  decide-escalate-IsCleared :
      (decide_release c p).0 ≡ PolicyDecisionType.escalate
      → IsCleared c p × (high_risk_threshold c ≤ p.payment.amount_usd)
  unfolding decide_release
  decide-escalate-IsCleared h = (
    record {
      rail_in_scope = (is_in_iff _ _).0 (ground arith);
      executing = ground arith;
      mode_supported = ground arith;
      awaiting_approval = ground arith;
      beneficiary_approved = ground arith;
      human_approved = ground arith;
      has_key = ground arith;
      scope_held = (is_in_iff _ _).0 (ground arith);
    },
    ground arith,
  )

  decide-cleared_escalate :
      IsCleared c p
      → high_risk_threshold c ≤ p.payment.amount_usd
      → (decide_release c p).0 ≡ PolicyDecisionType.escalate
  unfolding decide_release
  decide-cleared_escalate k h = ground (
    arith,
    (is_in_iff _ _).1 k.rail_in_scope,
    (is_in_iff _ _).1 k.scope_held,
    k.mode_supported,
    k.executing,
    k.has_key,
  )

  -- A response carries the decision, and differs in the profile alone.
  pub evaluate_release-ok :
      (r : PolicyDecisionResponse)
      → evaluate_release c p ≡ ok r
      → r ≡ release_response c p r.approval_profile
  unfolding evaluate_release
  evaluate_release-ok r h = ground arith

  -- A release evaluation that answers allows the payment exactly when the request is cleared (rail
  -- in scope, not read-only, mode supported, task awaiting approval, beneficiary and human approval
  -- given, idempotency key present, scope held) and the amount is below the high-risk threshold; it
  -- asks for escalation exactly when the request is cleared and the amount is not below it.
  pub release_exact :
      (r : PolicyDecisionResponse)
      → evaluate_release c p ≡ ok r
      → ((r.decision ≡ PolicyDecisionType.allow)
          ↔ (IsCleared c p × (p.payment.amount_usd < high_risk_threshold c)))
        × ((r.decision ≡ PolicyDecisionType.escalate)
            ↔ (IsCleared c p × (high_risk_threshold c ≤ p.payment.amount_usd)))
  release_exact r h = rw (evaluate_release-ok r h) (
    (decide-allow-IsCleared, λ k. decide-cleared_allow k.0 k.1),
    (decide-escalate-IsCleared, λ k. decide-cleared_escalate k.0 k.1),
  )
