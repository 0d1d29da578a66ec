-- ===== src/Policy/Evaluator.antt =====
-- kin-node/kin/policy/evaluator.py. The `reason` texts of a result are left out.
use Prim.Native.String.{◌++◌ as concat}
use kin_gateway.Prelude.{
  str_lt, String, Bool, true, false, Option, none, some, if◌then◌else◌, Result, ok, err,
}
use kin_gateway.Json.{Json, object, Members, end, member, lookup, as_text}
use kin_gateway.Schemas.Approvals.{
  ActionClass, informational_relay, session_participation, artifact_receipt, workspace_read,
  workspace_write, shell_network_external, action_class_value, RiskLabel, low, medium, high,
  critical, DecisionKind, approve_once, deny, edit_constraints, always_allow_bounded,
  ApprovalRequest, ApprovalDecision,
}
use kin_gateway.Schemas.Cards.{
  NetworkAccess, network_deny, Filesystem, no_files, read_only, read_write_with_approval, Shell,
  shell_deny, AutonomyLevel, never, always_ask, always_allow, AgentCard,
}
use kin_gateway.Schemas.Timestamp.{is_timestamp}

pub data PolicyDecision : Type 0 where
  allowed denied requires_approval : PolicyDecision

pub record PolicyResult : Type 0 where
  pub decision : PolicyDecision
  pub approval_request : Option ApprovalRequest

-- pydantic refuses a field of the approval request.
pub data PolicyFault : Type 0 where
  invalid_request : PolicyFault

-- ACTION_CLASS_RISK_MAP
unfoldable pub risk_of_class : ActionClass → RiskLabel
risk_of_class informational_relay = low
risk_of_class session_participation = medium
risk_of_class artifact_receipt = low
risk_of_class workspace_read = medium
risk_of_class workspace_write = high
risk_of_class shell_network_external = critical

-- ACTION_CLASS_TO_AUTONOMY_FIELD, and the card's level in that field.
unfoldable pub autonomy_level : AgentCard → ActionClass → Option AutonomyLevel
autonomy_level card informational_relay = some card.autonomy.relay_information
autonomy_level card _ = none

shell_and_network_denied : Shell → NetworkAccess → Bool
shell_and_network_denied shell_deny network_deny = true
shell_and_network_denied _ _ = false

writes_denied : Filesystem → Bool
writes_denied no_files = true
writes_denied read_only = true
writes_denied read_write_with_approval = false

reads_denied : Filesystem → Bool
reads_denied no_files = true
reads_denied _ = false

-- Step 1: the hard boundaries.
unfoldable pub boundary_denies : AgentCard → ActionClass → Bool
unfolding shell_and_network_denied writes_denied reads_denied
boundary_denies card shell_network_external =
    shell_and_network_denied card.boundaries.shell card.boundaries.network_access
boundary_denies card workspace_write = writes_denied card.boundaries.filesystem
boundary_denies card workspace_read = reads_denied card.boundaries.filesystem
boundary_denies card _ = false

-- prior_approval_expires_at is None or now < prior_approval_expires_at
unfoldable pub not_expired : String → Option String → Bool
not_expired now none = true
not_expired now (some at) = str_lt now at

prior_kind : DecisionKind → String → Option String → Option PolicyDecision
unfolding not_expired
prior_kind always_allow_bounded now expires = if not_expired now expires then some allowed else none
prior_kind approve_once now expires = if not_expired now expires then some allowed else none
prior_kind deny now expires = some denied
prior_kind edit_constraints now expires = none

-- Step 2: what a prior decision settles.
unfoldable pub prior_settles :
    Option ApprovalDecision → String → Option String → Option PolicyDecision
unfolding prior_kind
prior_settles none now expires = none
prior_settles (some prior) now expires = prior_kind prior.decision now expires

-- Step 3: what the card's autonomy settles.
autonomy_settles : Option AutonomyLevel → Option PolicyDecision
autonomy_settles none = none
autonomy_settles (some always_allow) = some allowed
autonomy_settles (some never) = some denied
autonomy_settles (some always_ask) = none

-- session_context.get("session_id", "sess-unknown"); a request takes a string alone.
unfoldable pub context_session : Option Json → Option String
context_session none = some "sess-unknown"
context_session (some v) = as_text v

abbrev settled : PolicyDecision → Result PolicyFault PolicyResult
settled d = ok (record { decision = d; approval_request = none })

unfoldable pub request_for : AgentCard → ActionClass → Members → String → String → ApprovalRequest
unfolding action_class_value risk_of_class is_timestamp
request_for card class context now session = record {
  approval_id = concat "req-" (concat session (concat "-" (action_class_value class)));
  session_id = session;
  agent_id = card.id;
  action_class = class;
  risk_label = risk_of_class class;
  requested_scope = member "session_context" (object context) end;
  expires_at = if is_timestamp now then now else "2026-07-23T12:00:00.000Z";
}

ask : AgentCard → ActionClass → Members → String → Option String → Result PolicyFault PolicyResult
ask card class context now none = err invalid_request
ask card class context now (some session) = ok (record {
  decision = requires_approval;
  approval_request = some (request_for card class context now session);
})

-- The first of the steps that settles the matter, and the owner otherwise.
unfoldable pub evaluate_action :
    AgentCard
    → ActionClass
    → Members
    → String
    → Option ApprovalDecision
    → Option String
    → Result PolicyFault PolicyResult
unfolding boundary_denies prior_settles autonomy_level autonomy_settles ask
evaluate_action card class context now prior expires =
    if boundary_denies card class then settled denied else elim (prior_settles prior now expires) [
      | some d ↦ settled d
      | none ↦ elim (autonomy_settles (autonomy_level card class)) [
        | some d ↦ settled d
        | none ↦ ask card class context now (context_session (lookup context "session_id"))
      ]
    ]
