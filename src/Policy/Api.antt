-- ===== src/Policy/Api.antt =====
-- The endpoints of the policy engine (apps/policy-engine/src/policy_engine/main.py).
use control_architecture.Base.{Result, ok, err}
use control_architecture.Contracts.Http.{HttpError, server_error}
use control_architecture.ControlPlane.Document.{ControlPlaneConfig}
use control_architecture.Policy.Engine.{
  IntakeDecisionRequest, ReleaseDecisionRequest, PolicyDecisionResponse, PolicyFault,
  evaluate_intake, evaluate_release,
}

unfoldable pub post_intake :
    ControlPlaneConfig → IntakeDecisionRequest → Result HttpError PolicyDecisionResponse
post_intake c p = ok (evaluate_intake c p)

-- What a release evaluation raises is taken by no handler.
abbrev pub evaluated :
    Result PolicyFault PolicyDecisionResponse → Result HttpError PolicyDecisionResponse
evaluated (ok d) = ok d
evaluated (err e) = err server_error

unfoldable pub post_release_decision :
    ControlPlaneConfig → ReleaseDecisionRequest → Result HttpError PolicyDecisionResponse
post_release_decision c p = evaluated (evaluate_release c p)
