-- ===== src/ControlPlane/Service.antt =====
-- The control-plane service (apps/control-plane/src/control_plane/service.py and schemas.py), which
-- publishes the control-plane document and the two registries. Its CapabilityDescriptor and
-- AgentDescriptor have the fields of the orchestrator's.
use control_architecture.Base.{String, Bool, false, Option, List, [], ◌∷◌, format, or_value, map}
use control_architecture.Contracts.Envelopes.{Time, Cents}
use control_architecture.ControlPlane.Document.{ControlPlaneConfig}
use control_architecture.Orchestrator.Registry.{CapabilityDescriptor, AgentDescriptor}

-- A document's name, and the path, the bytes and the time of its file.
pub record SourceDocument : Type 0 where
  pub name : String
  pub path : String
  pub content : String
  pub modified_at : Time

pub record DocumentVersionResponse : Type 0 where
  pub name : String
  pub source_path : String
  pub sha256 : String
  pub last_modified_at : Time

pub record VersionSnapshotResponse : Type 0 where
  pub snapshot_sha256 : String
  pub documents : List DocumentVersionResponse

pub record ControlSummaryResponse : Type 0 where
  pub environment_name : String
  pub region : Option String
  pub default_mode : String
  pub rail_scope : List String
  pub policy_engine : String
  pub kill_switch_enabled : Bool
  pub dual_approval_threshold_usd : Cents
  pub high_risk_escalation_threshold_usd : Cents
  pub ambiguous_response_action : String
  pub release_scope : Option String
  pub release_requires_human_approval : Bool
  pub release_idempotency_required : Bool
  pub release_dry_run_supported : Bool

pub record ControlPlaneSnapshotResponse : Type 0 where
  pub control_plane : ControlPlaneConfig
  pub capabilities : List CapabilityDescriptor
  pub agents : List AgentDescriptor
  pub versions : VersionSnapshotResponse

pub record ControlPlaneService : Type 0 where
  pub app_name : String
  pub document : ControlPlaneConfig
  pub capabilities : List CapabilityDescriptor
  pub agents : List AgentDescriptor
  pub versions : VersionSnapshotResponse

module _ (sha256 : String → String) where
  abbrev version_of : SourceDocument → DocumentVersionResponse
  version_of s = record {
    name = s.name;
    source_path = s.path;
    sha256 = sha256 s.content;
    last_modified_at = s.modified_at;
  }

  -- What the digest of the snapshot is taken of: each name with the digest of its file.
  unfoldable digest_parts : List SourceDocument → List String
  digest_parts [] = []
  digest_parts (s ∷ r) = s.name ∷ sha256 s.content ∷ digest_parts r

  unfoldable pub compute_versions : List SourceDocument → VersionSnapshotResponse
  unfolding digest_parts
  compute_versions ss = record {
    snapshot_sha256 = sha256 (format (digest_parts ss));
    documents = map version_of ss;
  }

  unfoldable pub control_plane_service :
      String
      → ControlPlaneConfig
      → List CapabilityDescriptor
      → List AgentDescriptor
      → List SourceDocument
      → ControlPlaneService
  control_plane_service app_name document capabilities agents sources = record {
    app_name = app_name;
    document = document;
    capabilities = capabilities;
    agents = agents;
    versions = compute_versions sources;
  }

unfoldable pub control_summary : ControlPlaneConfig → ControlSummaryResponse
control_summary c = record {
  environment_name = or_value c.environment.name "unknown";
  region = c.environment.region;
  default_mode = or_value c.environment.default_mode "unknown";
  rail_scope = or_value c.environment.rail_scope [];
  policy_engine = or_value c.control_plane.policy_engine "unknown";
  kill_switch_enabled = or_value c.control_plane.kill_switch_enabled false;
  dual_approval_threshold_usd = or_value c.control_plane.dual_approval_threshold_usd 0;
  high_risk_escalation_threshold_usd =
      or_value c.control_plane.high_risk_escalation_threshold_usd 0;
  ambiguous_response_action = or_value c.control_plane.ambiguous_response_action "unknown";
  release_scope = c.release_approved_payment.requires_scope;
  release_requires_human_approval = or_value c.release_approved_payment.approval_required false;
  release_idempotency_required = or_value c.release_approved_payment.idempotency_key_required false;
  release_dry_run_supported = or_value c.release_approved_payment.dry_run_supported false;
}

unfoldable pub snapshot : ControlPlaneService → ControlPlaneSnapshotResponse
snapshot s = record {
  control_plane = s.document;
  capabilities = s.capabilities;
  agents = s.agents;
  versions = s.versions;
}
