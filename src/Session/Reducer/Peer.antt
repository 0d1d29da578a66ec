-- ===== src/Session/Reducer/Peer.antt =====
-- process_peer_envelope of kin-node/kin/session/reducer.py.
use kin_gateway.Prelude.{
  get, put, ℕ, ◌+◌, String, Bool, not, ◌&&◌, Option, none, some, [], ◌∷◌, ◌++◌, str_eq, leb, ◌==◌,
  if◌then◌else◌, or_else, is_empty, Dict,
}
use kin_gateway.Json.{text, lookup, get_or_next, as_text}
use kin_gateway.Session.Message.{
  Envelope, peer_kind_transition, consumes_turn, is_owner_only, is_acceptance,
}
use kin_gateway.Session.State.{
  ParticipantInfo, dumped, SessionState, ErrorCode, terminal_state_immutable, session_id_mismatch,
  unauthorized_actor, unauthorized_agent, unauthorized_role_action, duplicate_sequence,
  out_of_order_sequence, invalid_state_transition, turn_limit_exceeded, unbound_local,
  validation_error, Outcome, raised, reject, accept,
}
use kin_gateway.Session.Status.{
  Status, draft, sent, queued, delivered, peer_review, status_eq, status_in, is_valid_transition,
  is_terminal_state, is_resumable_state,
}

-- is_unaccepted_receiver_accept
unfoldable pub unaccepted_receiver_accept : SessionState → Envelope → Bool
unfolding is_acceptance status_in
unaccepted_receiver_accept state e =
    is_acceptance e.kind
    && str_eq e.actor_username state.receiver_username
    && status_in state.status (draft ∷ sent ∷ queued ∷ delivered ∷ peer_review ∷ [])

-- Steps 3 and 4 for the participant that the actor's name gives.
unfoldable pub registered_check :
    SessionState → Envelope → Option ParticipantInfo → Option ErrorCode
unfolding unaccepted_receiver_accept is_owner_only
registered_check state e none = some unauthorized_actor
registered_check state e (some info) =
    if not (str_eq e.actor_agent_id info.agent_id) && not (unaccepted_receiver_accept state e)
    then some unauthorized_agent
    else if is_owner_only e.kind && not (str_eq info.role "owner")
    then some unauthorized_role_action
    else none

-- Steps 3 and 4 are skipped where no participant is registered.
unfoldable pub participant_check : SessionState → Envelope → Option ErrorCode
unfolding registered_check get
participant_check state e =
    if is_empty state.participants
    then none
    else registered_check state e (get state.participants e.actor_username)

-- state.actor_sequences.get(name, 0)
unfoldable pub last_sequence : SessionState → String → ℕ
unfolding get
last_sequence state user = or_else (get state.actor_sequences user) 0

-- Step 5.
unfoldable pub sequence_check : SessionState → Envelope → Option ErrorCode
unfolding last_sequence
sequence_check state e =
    let last = last_sequence state e.actor_username in
    if e.sequence == last
    then some duplicate_sequence
    else if not (e.sequence == last + 1)
    then some out_of_order_sequence
    else none

-- Step 6: the status that the kind asks for, or the present one.
unfoldable pub target_status : SessionState → Envelope → Status
unfolding peer_kind_transition
target_status state e = or_else (peer_kind_transition e.kind) state.status

-- Step 6. The exemption is a local that only the participant branch binds: reading it where no
-- participant is registered is an error of the interpreter.
unfoldable pub transition_check : SessionState → Envelope → Option Outcome
unfolding target_status unaccepted_receiver_accept is_valid_transition status_eq
transition_check state e =
    let target = target_status state e in
    if not (status_eq target state.status) && not (is_valid_transition state.status target)
    then (if is_empty state.participants
        then some (raised unbound_local)
        else if unaccepted_receiver_accept state e
        then none
        else some (reject state invalid_state_transition))
    else none

-- Step 7.
unfoldable pub turn_limit_hit : SessionState → Envelope → Bool
unfolding consumes_turn is_terminal_state target_status
turn_limit_hit state e =
    consumes_turn e.kind
    && leb state.max_turns state.current_turn
    && not (is_terminal_state (target_status state e))

-- Step 8.
unfoldable pub next_resumable : SessionState → Status → Option Status
unfolding is_resumable_state
next_resumable state target =
    if is_resumable_state target
    then (if is_resumable_state state.status
        then state.last_resumable_status
        else some state.status)
    else state.last_resumable_status

-- acc_ag_id; `none` where it is no string, which the strict model refuses.
unfoldable pub accepting_agent : Envelope → Option String
accepting_agent e = as_text (
    get_or_next (lookup e.payload "accepting_agent_id")
      (get_or_next (lookup e.payload "receiver_agent_id") (text e.actor_agent_id)))

-- new_participants; `none` where ParticipantInfo cannot be made.
unfoldable pub accepted_participants : SessionState → Envelope → Option (Dict ParticipantInfo)
unfolding accepting_agent is_acceptance put
accepted_participants state e =
    if is_acceptance e.kind
    then elim (accepting_agent e) [
      | none ↦ none
      | some agent ↦ some (
          put state.participants e.actor_username (record {
            agent_id = agent;
            role = if str_eq e.actor_username state.receiver_username then "receiver" else "owner";
          }))
    ]
    else some state.participants

-- updated_state
unfoldable pub accepted_state : SessionState → Envelope → Dict ParticipantInfo → SessionState
unfolding target_status next_resumable consumes_turn put
accepted_state state e people = record {
  session_id = state.session_id;
  initiator_username = state.initiator_username;
  receiver_username = state.receiver_username;
  status = target_status state e;
  current_turn = if consumes_turn e.kind then state.current_turn + 1 else state.current_turn;
  max_turns = state.max_turns;
  actor_sequences = put state.actor_sequences e.actor_username e.sequence;
  participants = people;
  last_resumable_status = next_resumable state (target_status state e);
  events = state.events ++ dumped e ∷ [];
}

unfoldable pub conclude : SessionState → Envelope → Option (Dict ParticipantInfo) → Outcome
conclude state e none = raised validation_error
conclude state e (some people) = accept (accepted_state state e people)

unfoldable pub process_peer_envelope : SessionState → Envelope → Outcome
unfolding conclude
process_peer_envelope state e =
    if is_terminal_state state.status
    then reject state terminal_state_immutable
    else if not (str_eq e.session_id state.session_id)
    then reject state session_id_mismatch
    else elim (participant_check state e) [
      | some code ↦ reject state code
      | none ↦ elim (sequence_check state e) [
        | some code ↦ reject state code
        | none ↦ elim (transition_check state e) [
          | some outcome ↦ outcome
          | none ↦
              if turn_limit_hit state e
              then reject state turn_limit_exceeded
              else conclude state e (accepted_participants state e)
        ]
      ]
    ]
