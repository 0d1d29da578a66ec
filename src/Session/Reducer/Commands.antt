-- ===== src/Session/Reducer/Commands.antt =====
-- process_node_command and process_owner_command of kin-node/kin/session/reducer.py.
use kin_gateway.Prelude.{
  String, ◌⊎◌, inl, inr, not, ◌&&◌, Option, none, some, [], ◌∷◌, str_eq, if◌then◌else◌, str_in,
}
use kin_gateway.Json.{Json, Members, lookup, as_text}
use kin_gateway.Session.State.{
  SessionState, is_owner_username, ErrorCode, terminal_state_immutable, invalid_state_transition,
  unknown_node_command, unauthorized_owner, invalid_approval_decision, unknown_owner_action,
  Outcome, reject, accept,
}
use kin_gateway.Session.Status.{
  Status, queued, delivered, peer_review, active, awaiting_owner_approval, awaiting_peer, paused,
  failed, cancelled, expired, status_eq, is_valid_transition, is_terminal_state, is_resumable_state,
}

-- NODE_COMMAND_MAP.get(command)
unfoldable pub node_command_target : String → Option Status
node_command_target command =
    if str_eq command "mark_queued"
    then some queued
    else if str_eq command "mark_delivered"
    then some delivered
    else if str_eq command "mark_peer_review"
    then some peer_review
    else if str_eq command "mark_active"
    then some active
    else if str_eq command "mark_expired"
    then some expired
    else if str_eq command "mark_failed"
    then some failed
    else if str_eq command "mark_awaiting_peer"
    then some awaiting_peer
    else if str_eq command "mark_awaiting_owner_approval"
    then some awaiting_owner_approval
    else none

node_move : SessionState → Option Status → Outcome
node_move state none = reject state unknown_node_command
node_move state (some target) =
    if not (is_valid_transition state.status target)
    then reject state invalid_state_transition
    else accept (record state { status = target })

unfoldable pub process_node_command : SessionState → String → Outcome
unfolding node_move
process_node_command state command =
    if is_terminal_state state.status
    then reject state terminal_state_immutable
    else node_move state (node_command_target command)

-- The status for an approval decision; only a string can equal one of the four names.
decision_text_target : Option String → Option Status
decision_text_target none = none
decision_text_target (some d) =
    if str_in d ("approve_once" ∷ "always_allow_bounded" ∷ "edit_constraints" ∷ [])
    then some active
    else if str_eq d "deny"
    then some paused
    else none

field_text : Option Json → Option String
field_text none = none
field_text (some v) = as_text v

-- (payload or {}).get("decision")
decision_field : Option Members → Option String
unfolding field_text
decision_field none = none
decision_field (some payload) = field_text (lookup payload "decision")

unfoldable pub decision_target : Option Members → Option Status
unfolding decision_field decision_text_target
decision_target payload = decision_text_target (decision_field payload)

abbrev pub Target : Type 0
Target = ErrorCode ⊎ Status

or_invalid : Option Status → Target
or_invalid none = inl invalid_approval_decision
or_invalid (some s) = inr s

-- The chain of tests on the action: an error code or the target status.
unfoldable pub owner_action_target : String → Option Members → Target
unfolding or_invalid
owner_action_target action payload =
    if str_eq action "owner_pause"
    then inr paused
    else if str_eq action "owner_resume"
    then inr active
    else if str_eq action "owner_cancel"
    then inr cancelled
    else if str_eq action "owner_approval_decision"
    then or_invalid (decision_target payload)
    else inl unknown_owner_action

owner_move : SessionState → Target → Outcome
owner_move state (inl code) = reject state code
owner_move state (inr target) =
    if not (status_eq target state.status) && not (is_valid_transition state.status target)
    then reject state invalid_state_transition
    else accept (record state {
      status = target;
      last_resumable_status =
          if is_resumable_state target then some state.status else state.last_resumable_status;
    })

unfoldable pub process_owner_command : SessionState → String → String → Option Members → Outcome
unfolding owner_move
process_owner_command state owner action payload =
    if not (is_owner_username state owner)
    then reject state unauthorized_owner
    else if is_terminal_state state.status
    then reject state terminal_state_immutable
    else owner_move state (owner_action_target action payload)
