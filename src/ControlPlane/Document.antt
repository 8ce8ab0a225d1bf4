-- ===== src/ControlPlane/Document.antt =====
-- The control-plane document (config/control-plane), with the keys that the services read. The code
-- reads each key by `get` with a default, so each is optional, and a section that is missing is one
-- with no key. A key that is present is taken to have the type that it has in the repository's
-- document; thresholds are in cents.
use control_architecture.Base.{String, Bool, Option, some, List, [], ◌∷◌, true, false}
use control_architecture.Contracts.Envelopes.{Cents}

pub record Environment : Type 0 where
  pub name : Option String
  pub region : Option String
  pub rail_scope : Option (List String)
  pub default_mode : Option String

pub record ControlPlaneSection : Type 0 where
  pub policy_engine : Option String
  pub dual_approval_threshold_usd : Option Cents
  pub high_risk_escalation_threshold_usd : Option Cents
  pub ambiguous_response_action : Option String
  pub kill_switch_enabled : Option Bool

pub record ReleaseCapability : Type 0 where
  pub requires_scope : Option String
  pub approval_required : Option Bool
  pub idempotency_key_required : Option Bool
  pub dry_run_supported : Option Bool

pub record ControlPlaneConfig : Type 0 where
  pub environment : Environment
  pub control_plane : ControlPlaneSection
  pub release_approved_payment : ReleaseCapability

-- config/control-plane/default.yaml
abbrev pub default_config : ControlPlaneConfig
default_config = record {
  environment = record {
    name = some "poc-local";
    region = some "us-east-1";
    rail_scope = some ("ach" ∷ "same_day_ach" ∷ "internal_transfer" ∷ []);
    default_mode = some "dry_run";
  };
  control_plane = record {
    policy_engine = some "opa";
    dual_approval_threshold_usd = some 5000000;
    high_risk_escalation_threshold_usd = some 10000000;
    ambiguous_response_action = some "pending_reconcile";
    kill_switch_enabled = some true;
  };
  release_approved_payment = record {
    requires_scope = some "release:domestic_payment";
    approval_required = some true;
    idempotency_key_required = some true;
    dry_run_supported = some false;
  };
}
