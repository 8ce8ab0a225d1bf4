-- ===== src/Policy/Engine.antt =====
-- The decisions of the policy engine (apps/policy-engine/src/policy_engine/service.py).
use control_architecture.Base.{
  String, Bool, true, false, Option, none, some, List, [], ◌∷◌, ◌==◌, if◌then◌else◌, string_eq,
  Result, ok, err, leb, format, or_value, is_in, not, ◌&&◌,
}
use control_architecture.Contracts.Literals.{PolicyDecisionType, ReleaseMode, release_mode_eq}
use control_architecture.Contracts.Json.{Json, Items, Fields, get_field}
use control_architecture.Contracts.Envelopes.{Cents}
use control_architecture.ControlPlane.Document.{ControlPlaneConfig}

pub record PrincipalContext : Type 0 where
  pub actor_id : Option String
  pub scopes : List String

pub record IntakeDecisionRequest : Type 0 where
  pub customer_id : String
  pub rail : String
  pub amount_usd : Cents
  pub principal : PrincipalContext
  pub trace_id : Option String

pub record PaymentContext : Type 0 where
  pub task_id : String
  pub payment_id : String
  pub amount_usd : Cents
  pub rail : String
  pub status : String
  pub approval_status : String
  pub beneficiary_status : String
  pub task_metadata : Fields

pub record ReleaseRequestContext : Type 0 where
  pub approved_by : String
  pub approval_note : Option String
  pub approval_outcome : String
  pub idempotency_key : String
  pub release_mode : ReleaseMode

pub record ReleaseDecisionRequest : Type 0 where
  pub payment : PaymentContext
  pub principal : PrincipalContext
  pub request : ReleaseRequestContext
  pub trace_id : Option String

pub record PolicyDecisionResponse : Type 0 where
  pub decision : PolicyDecisionType
  pub reason : String
  pub approval_profile : String
  pub execution_mode : String
  pub recommended_next_capability : String
  pub requires_manual_escalation : Bool

-- What a release evaluation raises: metadata that is no dict where one is read, or a recorded
-- profile that is no text.
pub data PolicyFault : Type 0 where
  attribute_error validation_error : PolicyFault

abbrev pub intake_capability_id : String
intake_capability_id = "domestic_payment.validate_beneficiary_account"

abbrev pub release_capability_id : String
release_capability_id = "domestic_payment.release_approved_payment"

-- The values that both evaluations read from the document, with their defaults.
abbrev pub allowed_rails : ControlPlaneConfig → List String
allowed_rails c = or_value c.environment.rail_scope []

abbrev pub default_mode : ControlPlaneConfig → String
default_mode c = or_value c.environment.default_mode "dry_run"

abbrev pub dual_approval_threshold : ControlPlaneConfig → Cents
dual_approval_threshold c = or_value c.control_plane.dual_approval_threshold_usd 0

abbrev pub high_risk_threshold : ControlPlaneConfig → Cents
high_risk_threshold c = or_value c.control_plane.high_risk_escalation_threshold_usd 0

abbrev pub required_scope : ControlPlaneConfig → String
required_scope c = or_value c.release_approved_payment.requires_scope "release:domestic_payment"

abbrev pub dry_run_supported : ControlPlaneConfig → Bool
dry_run_supported c = or_value c.release_approved_payment.dry_run_supported false

abbrev pub threshold_profile : ControlPlaneConfig → Cents → String
threshold_profile c amount =
    if leb (dual_approval_threshold c) amount then "dual_approval" else "single_approval"

unfoldable pub evaluate_intake : ControlPlaneConfig → IntakeDecisionRequest → PolicyDecisionResponse
evaluate_intake c p =
    let approval_profile = threshold_profile c p.amount_usd in
    if not (is_in p.rail (allowed_rails c))
    then record {
      decision = PolicyDecisionType.deny;
      reason = format ("Rail " ∷ p.rail ∷ " is outside the configured PoC rail scope." ∷ []);
      approval_profile = "unsupported";
      execution_mode = default_mode c;
      recommended_next_capability = "";
      requires_manual_escalation = false;
    }
    else if default_mode c == "read_only"
    then record {
      decision = PolicyDecisionType.simulate;
      reason = "The environment is running in read-only mode, so intake is simulated only.";
      approval_profile = approval_profile;
      execution_mode = default_mode c;
      recommended_next_capability = intake_capability_id;
      requires_manual_escalation = false;
    }
    else if leb (high_risk_threshold c) p.amount_usd
    then record {
      decision = PolicyDecisionType.escalate;
      reason = "The payment amount exceeds the high-risk escalation threshold.";
      approval_profile = approval_profile;
      execution_mode = default_mode c;
      recommended_next_capability = intake_capability_id;
      requires_manual_escalation = true;
    }
    else record {
      decision = PolicyDecisionType.allow;
      reason = "The payment is within the configured intake thresholds.";
      approval_profile = approval_profile;
      execution_mode = default_mode c;
      recommended_next_capability = intake_capability_id;
      requires_manual_escalation = false;
    }

-- `value or fallback`, then used as a text.
unfoldable pub profile_or : Json → String → Result PolicyFault String
profile_or Json.null fallback = ok fallback
profile_or (Json.bool true) fallback = err PolicyFault.validation_error
profile_or (Json.bool false) fallback = ok fallback
profile_or (Json.num n) fallback = if leb n 0 then ok fallback else err PolicyFault.validation_error
profile_or (Json.str s) fallback = if s == "" then ok fallback else ok s
profile_or (Json.arr Items.nil) fallback = ok fallback
profile_or (Json.arr (Items.cons v r)) fallback = err PolicyFault.validation_error
profile_or (Json.obj Fields.end) fallback = ok fallback
profile_or (Json.obj (Fields.field k v r)) fallback = err PolicyFault.validation_error

-- `decision.get("approval_profile")` of `task_metadata.get("policy_decision", {})`
unfoldable pub recorded_decision : Option Json → Result PolicyFault Json
recorded_decision none = ok Json.null
recorded_decision (some (Json.obj d)) = ok (or_value (get_field "approval_profile" d) Json.null)
recorded_decision (some _) = err PolicyFault.attribute_error

pub profile_of_recorded : Result PolicyFault Json → String → Result PolicyFault String
profile_of_recorded (ok v) fallback = profile_or v fallback
profile_of_recorded (err e) fallback = err e

unfoldable pub release_profile : ControlPlaneConfig → PaymentContext → Result PolicyFault String
unfolding profile_of_recorded
release_profile c p =
    profile_of_recorded (recorded_decision (get_field "policy_decision" p.task_metadata))
      (threshold_profile c p.amount_usd)

-- The early returns, in their order, once the profile is known. The last component is
-- `requires_manual_escalation`.
unfoldable pub decide_release :
    ControlPlaneConfig → ReleaseDecisionRequest → PolicyDecisionType × String × Bool
decide_release c p =
    if not (is_in p.payment.rail (allowed_rails c))
    then (
      PolicyDecisionType.deny,
      format ("Rail " ∷ p.payment.rail ∷ " is outside the configured PoC rail scope." ∷ []),
      false,
    )
    else if default_mode c == "read_only"
    then (
      PolicyDecisionType.simulate,
      "The environment is running in read-only mode, so release is simulated only.", false,
    )
    else if (p.request.release_mode == ReleaseMode.dry_run) && not (dry_run_supported c)
    then (
      PolicyDecisionType.deny,
      "The release capability does not support dry_run mode in this PoC configuration.", false,
    )
    else if not (p.payment.status == "awaiting_approval")
    then (
      PolicyDecisionType.deny,
      format (
          "Task " ∷ p.payment.task_id ∷ " is in state " ∷ p.payment.status
          ∷ " and cannot be released." ∷ []),
      false,
    )
    else if not (p.payment.beneficiary_status == "approved")
    then (
      PolicyDecisionType.deny, "Beneficiary validation is not approved, so release is blocked.",
      false,
    )
    else if not (p.request.approval_outcome == "approved")
    then (
      PolicyDecisionType.deny, "Release can only proceed after an approved human decision.", false,
    )
    else if p.request.idempotency_key == ""
    then (PolicyDecisionType.deny, "Release requires an idempotency key.", false)
    else if not (is_in (required_scope c) p.principal.scopes)
    then (
      PolicyDecisionType.deny,
      format ("Principal is missing required scope " ∷ required_scope c ∷ "." ∷ []),
      false,
    )
    else if leb (high_risk_threshold c) p.payment.amount_usd
    then (
      PolicyDecisionType.escalate,
      "The payment amount exceeds the high-risk release escalation threshold.", true,
    )
    else (PolicyDecisionType.allow, "Release satisfies the configured policy checks.", false)

abbrev pub release_response :
    ControlPlaneConfig → ReleaseDecisionRequest → String → PolicyDecisionResponse
release_response c p profile = record {
  decision = (decide_release c p).0;
  reason = (decide_release c p).1;
  approval_profile = profile;
  execution_mode = default_mode c;
  recommended_next_capability = release_capability_id;
  requires_manual_escalation = (decide_release c p).2;
}

abbrev respond :
    ControlPlaneConfig
    → ReleaseDecisionRequest
    → Result PolicyFault String
    → Result PolicyFault PolicyDecisionResponse
respond c p (ok profile) = ok (release_response c p profile)
respond c p (err e) = err e

unfoldable pub evaluate_release :
    ControlPlaneConfig → ReleaseDecisionRequest → Result PolicyFault PolicyDecisionResponse
unfolding release_profile
evaluate_release c p = respond c p (release_profile c p.payment)
