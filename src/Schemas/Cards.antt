-- ===== src/Schemas/Cards.antt =====
-- Agent cards of kin-node/kin/schemas.py. Fields with one admissible value (the versions) and the
-- card's `presentation`, which no modelled code reads, are left out.
use kin_gateway.Prelude.{ℕ, String, Bool, List}

pub data NetworkAccess : Type 0 where
  network_deny network_allow : NetworkAccess

pub data Filesystem : Type 0 where
  no_files read_only read_write_with_approval : Filesystem

pub data Shell : Type 0 where
  shell_deny shell_approval_required : Shell

pub record AgentBoundaries : Type 0 where
  pub network_access : NetworkAccess
  pub filesystem : Filesystem
  pub shell : Shell
  pub max_runtime_seconds : ℕ
  pub max_artifact_bytes : ℕ

pub data AutonomyLevel : Type 0 where
  never always_ask always_allow : AutonomyLevel

pub record AgentAutonomy : Type 0 where
  pub relay_information : AutonomyLevel
  pub propose_actions : AutonomyLevel
  pub execute_local_actions : AutonomyLevel

pub data AdapterConfig : Type 0 where
  embedded : String → String → AdapterConfig
  webhook : String → String → AdapterConfig
  local_command : String → String → AdapterConfig
  sdk : String → AdapterConfig

pub record AgentCapabilities : Type 0 where
  pub tags : List String
  pub accepts : List String
  pub produces : List String

pub record AgentCard : Type 0 where
  pub id : String
  pub name : String
  pub description : String
  pub adapter : AdapterConfig
  pub capabilities : AgentCapabilities
  pub boundaries : AgentBoundaries
  pub autonomy : AgentAutonomy

pub data AgentAvailability : Type 0 where
  ready busy reserved needs_key needs_workspace : AgentAvailability
  waiting_for_approval offline policy_blocked : AgentAvailability

pub record PublishedAgentCard : Type 0 where
  pub agent_id : String
  pub name : String
  pub description : String
  pub capabilities : AgentCapabilities
  pub availability : AgentAvailability
  pub requires_owner_acceptance : Bool
