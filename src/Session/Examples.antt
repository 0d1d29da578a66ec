-- ===== src/Session/Examples.antt =====
-- Concrete runs of the reducer, and the theorems about it at concrete inputs.
use kin_gateway.Prelude.{
  get, put, ℕ, ◌≤◌, String, ◌≡◌, refl, ◌≢◌, ◌↔◌, ◌⊎◌, false, none, some, [], ◌∷◌, arith, Dict,
}
use kin_gateway.Json.{end}
use kin_gateway.Session.Admission.{process_peer_envelope_iff}
use kin_gateway.Session.Authority.{receiver_cannot_cancel}
use kin_gateway.Session.Conditions.{IsAdmitted}
use kin_gateway.Session.Machine.{peer, node, handle, run}
use kin_gateway.Session.Message.{MessageKind, task_request, acceptance, cancel, Envelope}
use kin_gateway.Session.Reducer.Commands.{node_command_target, process_node_command}
use kin_gateway.Session.Reducer.Peer.{
  participant_check, sequence_check, transition_check, turn_limit_hit, accepted_participants,
  accepted_state, process_peer_envelope,
}
use kin_gateway.Session.Refusals.{Verdict, handle_verdict, run_terminal}
use kin_gateway.Session.Replay.{no_replay}
use kin_gateway.Session.State.{
  ParticipantInfo, SessionState, unauthorized_agent, unauthorized_role_action, unknown_node_command,
  ReducerResult, reject, accept,
}
use kin_gateway.Session.Status.{Status, draft, active, completed, is_terminal_state}
use kin_gateway.Session.Steps.{Move, handle_moves}
use kin_gateway.Session.Turns.{run_turns}

abbrev member_info : String → ParticipantInfo
member_info agent = record { agent_id = agent; role = "owner" }

abbrev two_owners : Dict ParticipantInfo
two_owners = ("ana", member_info "a1") ∷ ("bo", member_info "b1") ∷ []

abbrev base_session : Status → Dict ParticipantInfo → SessionState
base_session status people = record {
  session_id = "s1";
  initiator_username = "ana";
  receiver_username = "bo";
  status = status;
  current_turn = 0;
  max_turns = 12;
  actor_sequences = [];
  participants = people;
  last_resumable_status = none;
  events = [];
}

abbrev envelope : MessageKind → String → String → ℕ → Envelope
envelope kind user agent n = record {
  session_id = "s1";
  sequence = n;
  actor_username = user;
  actor_agent_id = agent;
  timestamp = "2026-07-23T12:00:00Z";
  kind = kind;
  content_hash = "";
  payload = end;
  signature = none;
}

-- Bo, the receiver, accepts a draft session with another agent than the registered one.
abbrev acceptance_of_bo : Envelope
acceptance_of_bo = envelope acceptance "bo" "b2" 1

abbrev accepted_session : SessionState
accepted_session =
    accepted_state (base_session draft two_owners) acceptance_of_bo
      (put two_owners "bo" (record { agent_id = "b2"; role = "receiver" }))

bo_accepts :
    process_peer_envelope (base_session draft two_owners) acceptance_of_bo ≡ accept accepted_session
unfolding process_peer_envelope participant_check sequence_check transition_check turn_limit_hit
    accepted_participants accepted_state is_terminal_state put get
bo_accepts = refl

handle_moves_example : Move draft accepted_session.status
unfolding handle
handle_moves_example =
    handle_moves (base_session draft two_owners) (peer acceptance_of_bo) accepted_session bo_accepts

no_replay_example :
    process_peer_envelope (run accepted_session (node "mark_active" ∷ [])) acceptance_of_bo
    ≢ accept accepted_session
no_replay_example =
    no_replay (base_session draft two_owners) acceptance_of_bo acceptance_of_bo accepted_session
      accepted_session (node "mark_active" ∷ []) bo_accepts refl refl

receiver_cannot_cancel_example :
    (process_peer_envelope accepted_session (envelope cancel "bo" "b2" 2)
      ≡ reject accepted_session unauthorized_role_action)
    ⊎ (process_peer_envelope accepted_session (envelope cancel "bo" "b2" 2)
        ≡ reject accepted_session unauthorized_agent)
unfolding accepted_state
receiver_cannot_cancel_example =
    receiver_cannot_cancel (base_session draft two_owners) acceptance_of_bo
      (envelope cancel "bo" "b2" 2) accepted_session bo_accepts refl refl refl refl refl

run_terminal_example :
    run (base_session completed two_owners) (peer acceptance_of_bo ∷ node "mark_active" ∷ [])
    ≡ base_session completed two_owners
unfolding is_terminal_state
run_terminal_example =
    run_terminal (base_session completed two_owners)
      (peer acceptance_of_bo ∷ node "mark_active" ∷ []) refl

abbrev unknown_command_result : ReducerResult
unknown_command_result = record {
  success = false;
  new_state = base_session active two_owners;
  error_code = some unknown_node_command;
}

handle_verdict_example : Verdict (base_session active two_owners) unknown_command_result
unfolding handle process_node_command node_command_target is_terminal_state
handle_verdict_example =
    handle_verdict (base_session active two_owners) (node "mark_nothing") unknown_command_result
      refl

run_turns_example :
    (run
      (base_session draft two_owners)
      (peer (envelope task_request "ana" "a1" 1) ∷ [])).current_turn
    ≤ (run
        (base_session draft two_owners)
        (peer (envelope task_request "ana" "a1" 1) ∷ [])).max_turns
run_turns_example =
    run_turns (base_session draft two_owners) (peer (envelope task_request "ana" "a1" 1) ∷ [])
      (omega arith)

owner_cancels :
    process_peer_envelope (base_session active two_owners) (envelope cancel "ana" "a1" 1)
    ≡ accept
        (accepted_state (base_session active two_owners) (envelope cancel "ana" "a1" 1) two_owners)
unfolding process_peer_envelope participant_check sequence_check transition_check turn_limit_hit
    accepted_participants accepted_state is_terminal_state get
owner_cancels = refl

process_peer_envelope_iff_example :
    (process_peer_envelope (base_session draft two_owners) acceptance_of_bo
      ≡ accept accepted_session)
    ↔ IsAdmitted (base_session draft two_owners) acceptance_of_bo accepted_session
process_peer_envelope_iff_example =
    process_peer_envelope_iff (base_session draft two_owners) acceptance_of_bo accepted_session
