-- ===== src/Schemas/Approvals.antt =====
-- Action classes, decisions, and the approval messages of kin-node/kin/schemas.py. The summary and
-- reason texts of a request are left out.
use kin_gateway.Prelude.{String, ◌≡◌, refl, Option, none, some, str_eq, if◌then◌else◌}
use kin_gateway.Json.{Members}

pub data ActionClass : Type 0 where
  informational_relay session_participation artifact_receipt workspace_read : ActionClass
  workspace_write shell_network_external : ActionClass

-- action_class.value
unfoldable pub action_class_value : ActionClass → String
action_class_value informational_relay = "informational_relay"
action_class_value session_participation = "session_participation"
action_class_value artifact_receipt = "artifact_receipt"
action_class_value workspace_read = "workspace_read"
action_class_value workspace_write = "workspace_write"
action_class_value shell_network_external = "shell_network_external"

pub data RiskLabel : Type 0 where
  low medium high critical : RiskLabel

pub data DecisionKind : Type 0 where
  approve_once deny edit_constraints always_allow_bounded : DecisionKind

-- decision.value, and DecisionKind(value)
unfoldable pub decision_value : DecisionKind → String
decision_value approve_once = "approve_once"
decision_value deny = "deny"
decision_value edit_constraints = "edit_constraints"
decision_value always_allow_bounded = "always_allow_bounded"

unfoldable pub decision_of_value : String → Option DecisionKind
decision_of_value s =
    if str_eq s "approve_once"
    then some approve_once
    else if str_eq s "deny"
    then some deny
    else if str_eq s "edit_constraints"
    then some edit_constraints
    else if str_eq s "always_allow_bounded"
    then some always_allow_bounded
    else none

pub record ApprovalRequest : Type 0 where
  pub approval_id : String
  pub session_id : String
  pub agent_id : String
  pub action_class : ActionClass
  pub risk_label : RiskLabel
  pub requested_scope : Members
  pub expires_at : String

pub record ApprovalDecision : Type 0 where
  pub approval_id : String
  pub session_id : String
  pub decision : DecisionKind
  pub decided_by : String
  pub decided_at : String
  pub constraints : Option Members

-- Writing a decision's value and reading it back gives the decision.
pub decision_of_value-decision_value :
    (d : DecisionKind) → decision_of_value (decision_value d) ≡ some d
unfolding decision_of_value decision_value
decision_of_value-decision_value approve_once = refl
decision_of_value-decision_value deny = refl
decision_of_value-decision_value edit_constraints = refl
decision_of_value-decision_value always_allow_bounded = refl
