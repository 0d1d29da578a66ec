-- ===== src/Policy/Examples.antt =====
-- A card, a session and its approvals, and the theorems of the policy at concrete inputs.
use kin_gateway.Prelude.{
  get, put, str_lt, str_le, String, ◌≡◌, refl, ◌≢◌, ◌↔◌, inl, inr, true, Option, none, some, List,
  [], ◌∷◌, ok, err,
}
use kin_gateway.Json.{null, object, end}
use kin_gateway.Policy.Decide.{
  class_of_value, DecisionInput, enum_member, plain_text, of_input, Decide, final_constraints,
  some_or, decision_payload, trial_ok, open_approval, decide_checks, finish, record_moved,
  after_move, after_checks, decide_approval,
}
use kin_gateway.Policy.Decided.{decision_moves_session}
use kin_gateway.Policy.Evaluator.{
  allowed, requires_approval, PolicyResult, autonomy_level, boundary_denies, not_expired,
  prior_settles, context_session, request_for, evaluate_action,
}
use kin_gateway.Policy.Machine.{PolicyCall, evaluate_one, record_one, policy_calls}
use kin_gateway.Policy.Once.{decide_once}
use kin_gateway.Policy.Pending.{pending_blocks}
use kin_gateway.Policy.Record.{
  has_approval_id, decide_row, record_approval_decision, create_pending_approval,
}
use kin_gateway.Policy.SingleUse.{approve_once_single_use}
use kin_gateway.Policy.Store.{
  is_text, unconsumed, is_prior, decided_later, later_row, newest, find_prior, invalid_model,
  already_decided, prior_of_row, consume, is_allowed, use_up, with_prior, evaluate_with,
  evaluate_action_for_session,
}
use kin_gateway.Policy.Terms.{Stands, approval_terms_stay}
use kin_gateway.Policy.Verdicts.{Allows, verdict, allowed_iff, IsTighter, tightening}
use kin_gateway.Schemas.Approvals.{
  informational_relay, workspace_read, workspace_write, action_class_value, approve_once, deny,
  decision_value, decision_of_value, ApprovalRequest, ApprovalDecision,
}
use kin_gateway.Schemas.Cards.{
  network_deny, Filesystem, read_only, read_write_with_approval, shell_deny, AgentBoundaries, never,
  always_ask, always_allow, sdk, AgentCard,
}
use kin_gateway.Schemas.Timestamp.{is_timestamp}
use kin_gateway.Session.Reconstruct.{
  row_participants, state_of_row, find_session, reconstruct_session_state,
}
use kin_gateway.Session.Reducer.Commands.{
  decision_target, owner_action_target, process_owner_command,
}
use kin_gateway.Session.State.{SessionState, is_owner_username, accept}
use kin_gateway.Session.Status.{
  awaiting_owner_approval, status_eq, is_valid_transition, is_terminal_state, is_resumable_state,
}
use kin_gateway.Storage.Services.{Services, Stamp}
use kin_gateway.Storage.Tables.{SessionRow, ApprovalRow, Db, has_session}
use kin_gateway.Transport.Transitions.{
  set_status, persist, apply_to, apply_owner_command_transition,
}

abbrev sample_services : Services
sample_services = record {
  sha256 = λ s. s;
  loads = λ s. some (object end);
  dumps = λ j. "{}";
  seal = λ nonce plain. plain;
  unseal = λ token. some token;
  unseal-seal = λ nonce plain. refl;
}

abbrev stamp_of : String → Stamp
stamp_of id = record { uuid = id; now = "2026-07-23T12:00:00Z"; nonce = "n" }

abbrev boundaries_of : Filesystem → AgentBoundaries
boundaries_of files = record {
  network_access = network_deny;
  filesystem = files;
  shell = shell_deny;
  max_runtime_seconds = 300;
  max_artifact_bytes = 1_000_000;
}

abbrev sample_card : AgentCard
sample_card = record {
  id = "a1";
  name = "Planner";
  description = "plans";
  adapter = sdk "x";
  capabilities = record { tags = []; accepts = []; produces = [] };
  boundaries = boundaries_of read_write_with_approval;
  autonomy = record {
    relay_information = always_allow;
    propose_actions = always_ask;
    execute_local_actions = never;
  };
}

abbrev midday : String
midday = "2026-07-23T12:00:00Z"

abbrev tomorrow : String
tomorrow = "2026-07-24T12:00:00Z"

allowed_iff_example :
    (evaluate_action sample_card informational_relay end midday none none ≡ verdict allowed)
    ↔ Allows sample_card informational_relay midday none none
allowed_iff_example = allowed_iff sample_card informational_relay end midday none none

abbrev granted : ApprovalDecision
granted = record {
  approval_id = "p1";
  session_id = "s1";
  decision = approve_once;
  decided_by = "owner";
  decided_at = midday;
  constraints = none;
}

tighter : IsTighter (boundaries_of read_only) (boundaries_of read_write_with_approval)
tighter = record { files = inr (inr refl); network = inl refl; shell = inl refl }

read_allowed :
    evaluate_action
      (record sample_card { boundaries = boundaries_of read_only })
      workspace_read
      end
      midday
      (some granted)
      (some tomorrow)
    ≡ verdict allowed
unfolding evaluate_action boundary_denies prior_settles not_expired str_lt
read_allowed = refl

tightening_example :
    evaluate_action sample_card workspace_read end midday (some granted) (some tomorrow)
    ≡ verdict allowed
tightening_example =
    tightening sample_card (boundaries_of read_only) workspace_read end midday (some granted)
      (some tomorrow) tighter read_allowed

abbrev asked_result : PolicyResult
asked_result = record {
  decision = requires_approval;
  approval_request = some (request_for sample_card workspace_write end midday "sess-unknown");
}

write_asks : evaluate_action sample_card workspace_write end midday none none ≡ ok asked_result
unfolding evaluate_action boundary_denies prior_settles autonomy_level context_session
write_asks = refl

abbrev sample_session : SessionRow
sample_session = record {
  session_id = "s1";
  initiator_username = "ana";
  receiver_username = "bo";
  status = awaiting_owner_approval;
  sender_agent_id = some "a1";
  receiver_agent_id = some "b1";
  turn_limit = 12;
  updated_at = midday;
  session_type = "ask";
  objective = none;
  runtime_budget_seconds = null;
  artifact_bytes_budget = null;
  cost_budget_estimate = null;
  cumulative_artifact_bytes = 0;
  created_at = midday;
  expires_at = none;
}

abbrev approval_row : Option String → ApprovalRow
approval_row decision_text = record {
  approval_id = "p1";
  session_id = "s1";
  agent_id = some "a1";
  action_class = "workspace_read";
  request_json = none;
  decision = decision_text;
  decided_at = elim decision_text [ none ↦ none | some d ↦ some midday ];
  expires_at = tomorrow;
  consumed_at = none;
}

abbrev db_with : List ApprovalRow → Db
db_with rows = record {
  identity = some "ana";
  contacts = [];
  outbound_envelope_queue = [];
  artifacts = [];
  peer_agent_cards = [];
  sessions = sample_session ∷ [];
  session_events = [];
  approvals = rows;
  audit_events = [];
}

abbrev allowed_result : PolicyResult
allowed_result = record { decision = allowed; approval_request = none }

abbrev two_approvals : Db
two_approvals = db_with (
    approval_row (some "approve_once")
    ∷ record (approval_row (some "approve_once")) {
      approval_id = "p2";
      decided_at = some "2026-07-22";
    }
    ∷ [])

abbrev after_use : Db
after_use = consume "p1" midday two_approvals

once_used :
    evaluate_action_for_session sample_card workspace_read end "s1" midday two_approvals
    ≡ (ok allowed_result, after_use)
unfolding evaluate_action_for_session evaluate_with with_prior use_up is_allowed consume
    prior_of_row is_timestamp find_prior newest later_row decided_later is_prior is_text unconsumed
    evaluate_action boundary_denies prior_settles not_expired str_lt action_class_value
    decision_of_value
once_used = refl

first_prior :
    find_prior "s1" "a1" workspace_read midday two_approvals
    ≡ some (approval_row (some "approve_once"))
unfolding find_prior newest later_row decided_later is_prior is_text unconsumed str_lt
    action_class_value
first_prior = refl

abbrev second_approval : ApprovalRow
second_approval = record (approval_row (some "approve_once")) {
  approval_id = "p2";
  decided_at = some "2026-07-22";
}

-- An evaluation of another session, and a new decision of the approval that was used.
abbrev calls_between : List PolicyCall
calls_between =
    evaluate_one sample_card workspace_read end "s9" midday
    ∷ record_one (stamp_of "x8") granted (some "a1") workspace_read tomorrow none
    ∷ []

still_second :
    find_prior "s1" "a1" workspace_read midday
      (policy_calls sample_services calls_between after_use)
    ≡ some second_approval
unfolding policy_calls find_prior evaluate_action_for_session record_approval_decision newest
    is_prior decide_row action_class_value str_lt decision_value
still_second = refl

approve_once_single_use_example : second_approval.approval_id ≢ "p1"
approve_once_single_use_example =
    approve_once_single_use sample_services sample_card workspace_read end "s1" midday two_approvals
      after_use allowed_result (approval_row (some "approve_once")) calls_between "s1" "a1"
      workspace_read midday second_approval once_used refl first_prior refl still_second refl

abbrev sample_request : ApprovalRequest
sample_request = request_for sample_card workspace_read end midday "s1"

abbrev pending_db : Db
pending_db =
    (create_pending_approval sample_services (stamp_of "x1") sample_request "a1" workspace_read
      tomorrow "{}" (db_with [])).1

pending_created :
    create_pending_approval sample_services
      (stamp_of "x1")
      sample_request
      "a1"
      workspace_read
      tomorrow
      "{}"
      (db_with [])
    ≡ (ok "req-s1-workspace_read", pending_db)
unfolding create_pending_approval has_session request_for action_class_value
pending_created = refl

nothing_prior : find_prior sample_request.session_id "a1" workspace_read midday (db_with []) ≡ none
unfolding find_prior newest
nothing_prior = refl

is_before_tomorrow : str_lt midday tomorrow ≡ true
unfolding str_lt
is_before_tomorrow = refl

pending_blocks_example :
    evaluate_action_for_session sample_card workspace_read end sample_request.session_id midday
      pending_db
    ≡ (err invalid_model, pending_db)
pending_blocks_example =
    pending_blocks sample_services (stamp_of "x1") sample_request sample_card workspace_read end
      tomorrow "{}" "req-s1-workspace_read" midday (db_with []) pending_db pending_created
      is_before_tomorrow nothing_prior

abbrev decide_p1 : DecisionInput → Decide
decide_p1 input = record {
  approval_id = "p1";
  session_id = "s1";
  decision = input;
  owner_username = "ana";
  now = midday;
  reason = some "no";
  constraints = none;
}

abbrev undecided : Db
undecided = db_with (approval_row none ∷ [])

abbrev once_decided : ApprovalDecision
once_decided = record granted { decided_by = "ana" }

abbrev decided_db : Db
decided_db =
    (decide_approval sample_services (stamp_of "m1") (stamp_of "x1")
      (decide_p1 (plain_text "approve_once")) undecided).1

owner_decides :
    decide_approval sample_services
      (stamp_of "m1")
      (stamp_of "x1")
      (decide_p1 (plain_text "approve_once"))
      undecided
    ≡ (ok once_decided, decided_db)
unfolding decide_approval after_checks after_move record_moved finish decide_checks open_approval
    some_or trial_ok of_input decision_of_value decision_value is_timestamp final_constraints
    has_approval_id class_of_value str_le reconstruct_session_state find_session state_of_row
    row_participants process_owner_command owner_action_target decision_target
    apply_owner_command_transition apply_to persist record_approval_decision is_owner_username
    is_valid_transition is_terminal_state is_resumable_state status_eq put get
owner_decides = refl

decision_moves_session_example :
    (state new : SessionState) × (reconstruct_session_state sample_services undecided "s1"
      ≡ some state)
    × (process_owner_command state "ana" "owner_approval_decision"
          (some (decision_payload approve_once))
        ≡ accept new)
    × (decided_db.sessions ≡ (set_status "s1" new.status midday undecided).sessions)
decision_moves_session_example =
    decision_moves_session sample_services (stamp_of "m1") (stamp_of "x1")
      (decide_p1 (plain_text "approve_once")) once_decided undecided decided_db owner_decides

decide_once_example :
    decide_approval sample_services
      (stamp_of "m2")
      (stamp_of "x2")
      (decide_p1 (enum_member deny))
      (policy_calls sample_services calls_between decided_db)
    ≡ (err already_decided, policy_calls sample_services calls_between decided_db)
unfolding of_input
decide_once_example =
    decide_once sample_services (stamp_of "m1") (stamp_of "x1") (stamp_of "m2") (stamp_of "x2")
      (decide_p1 (plain_text "approve_once")) (decide_p1 (enum_member deny)) once_decided undecided
      decided_db calls_between deny owner_decides refl refl refl

approval_terms_stay_example :
    Stands "p1"
      (approval_row (some "approve_once"))
      (policy_calls sample_services calls_between two_approvals).approvals
unfolding has_approval_id
approval_terms_stay_example =
    approval_terms_stay sample_services calls_between two_approvals "p1"
      (approval_row (some "approve_once")) refl
