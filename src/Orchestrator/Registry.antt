-- ===== src/Orchestrator/Registry.antt =====
-- The capability and agent registry of the orchestrator
-- (apps/orchestrator-api/src/orchestrator_api/registry.py).
use control_architecture.Base.{
  ℕ, String, Bool, Option, none, some, List, ◌==◌, string_eq, find, truthy, if◌then◌else◌, or_value,
  Result, ok, err,
}
use control_architecture.ControlPlane.Document.{ControlPlaneConfig}

pub record CapabilityDescriptor : Type 0 where
  pub id : String
  pub version : String
  pub owner : String
  pub category : String
  pub side_effect_class : String
  pub required_scopes : List String
  pub input_schema : Option String
  pub output_schema : Option String
  pub timeout_ms : Option ℕ
  pub retry_policy : Option String
  pub requires_human_approval : Option Bool
  pub idempotency : Option String
  pub compensation_action : Option String

pub record AgentDescriptor : Type 0 where
  pub agent_id : String
  pub name : String
  pub purpose : String
  pub supported_tasks : List String
  pub accepts_scopes : List String
  pub trust_tier : String
  pub supported_transports : List String
  pub callback_mode : Option String
  pub max_task_ttl_seconds : Option ℕ
  pub requires_provenance : Bool
  pub execution_authority : Option String

pub record RegistrySnapshot : Type 0 where
  pub control_plane : ControlPlaneConfig
  pub capabilities : List CapabilityDescriptor
  pub agents : List AgentDescriptor

unfoldable pub get_capability : String → RegistrySnapshot → Option CapabilityDescriptor
get_capability capability_id r = find (λ c. c.id == capability_id) r.capabilities

unfoldable pub get_agent : String → RegistrySnapshot → Option AgentDescriptor
get_agent agent_id r = find (λ a. a.agent_id == agent_id) r.agents

-- What the request for the snapshot comes to: a snapshot, or an HTTPError or a ValueError.
abbrev pub fetched : {E : Type 0} → Result E RegistrySnapshot → Option RegistrySnapshot
fetched (ok r) = some r
fetched (err e) = none

-- The control plane is asked only if it has a URL.
unfoldable pub snapshot_from_control_plane :
    {E : Type 0} → Option String → Result E RegistrySnapshot → Option RegistrySnapshot
snapshot_from_control_plane base_url response = if truthy base_url then fetched response else none

-- The files are read only if the control plane has given no snapshot.
unfoldable pub load_registry_snapshot :
    {E : Type 0} → Option String → Result E RegistrySnapshot → RegistrySnapshot → RegistrySnapshot
unfolding snapshot_from_control_plane
load_registry_snapshot base_url response files =
    or_value (snapshot_from_control_plane base_url response) files
