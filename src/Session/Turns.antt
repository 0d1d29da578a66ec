-- ===== src/Session/Turns.antt =====
-- The turn budget, and what a call never changes (kin-node/kin/session/reducer.py).
use kin_gateway.Prelude.{◌≤◌, ◌≡◌, refl, ◌∙◌, inl, inr, true, false, List, [], ◌∷◌, arith, Dict}
use kin_gateway.Session.Acceptance.{process_peer_envelope-IsAccepted}
use kin_gateway.Session.Machine.{Op, peer, node, owner, handle, step, run}
use kin_gateway.Session.Message.{Envelope, consumes_turn}
use kin_gateway.Session.Reducer.Commands.{process_node_command, process_owner_command}
use kin_gateway.Session.Reducer.Peer.{target_status, turn_limit_hit, accepted_state}
use kin_gateway.Session.Refusals.{step_cases}
use kin_gateway.Session.State.{ParticipantInfo, SessionState, accept}
use kin_gateway.Session.Status.{is_terminal_state}

-- The kinds that consume a turn ask for a status that is not terminal, so the limit binds.
turn_target :
    (state : SessionState) (e : Envelope)
    → consumes_turn e.kind ≡ true
    → is_terminal_state (target_status state e) ≡ false
unfolding consumes_turn target_status is_terminal_state
turn_target state e h = ground arith

abbrev pub WithinTurns : SessionState → Type 0
WithinTurns state = state.current_turn ≤ state.max_turns

peer_turns :
    (state : SessionState) (e : Envelope) (people : Dict ParticipantInfo)
    → turn_limit_hit state e ≡ false
    → WithinTurns state
    → WithinTurns (accepted_state state e people)
unfolding turn_limit_hit accepted_state
peer_turns state e people h w = ground (arith, turn_target state e)

handle_turns :
    (state : SessionState) (op : Op) (new : SessionState)
    → handle state op ≡ accept new
    → WithinTurns state
    → WithinTurns new
unfolding handle process_node_command process_owner_command
handle_turns state (peer e) new h w =
    let a = process_peer_envelope-IsAccepted state e new h in
    rw a.updated (peer_turns state e a.people a.turns w)
handle_turns state (node command) new h w = ground arith
handle_turns state (owner user action payload) new h w = ground arith

step_turns : (state : SessionState) (op : Op) → WithinTurns state → WithinTurns (step state op)
step_turns state op w = elim (step_cases state op) [
  | inl same ↦ rw same w
  | inr (new, done, there) ↦ rw there (handle_turns state op new done w)
]

-- From a session within its turn budget, no sequence of envelopes and commands takes it past the
-- budget.
pub run_turns :
    (state : SessionState) (ops : List Op)
    → state.current_turn ≤ state.max_turns
    → (run state ops).current_turn ≤ (run state ops).max_turns
unfolding run
run_turns state [] w = w
run_turns state (op ∷ ops) w = run_turns (step state op) ops (step_turns state op w)

-- The identity of a session and its turn limit.
pub record SameSession (a b : SessionState) : Type 0 where
  pub session : a.session_id ≡ b.session_id
  pub initiator : a.initiator_username ≡ b.initiator_username
  pub receiver : a.receiver_username ≡ b.receiver_username
  pub limit : a.max_turns ≡ b.max_turns

accepted_same :
    (state : SessionState) (e : Envelope) (people : Dict ParticipantInfo)
    → SameSession (accepted_state state e people) state
unfolding accepted_state
accepted_same state e people = record {
  session = refl;
  initiator = refl;
  receiver = refl;
  limit = refl;
}

handle_same :
    (state : SessionState) (op : Op) (new : SessionState)
    → handle state op ≡ accept new
    → SameSession new state
unfolding handle process_node_command process_owner_command
handle_same state (peer e) new h =
    let a = process_peer_envelope-IsAccepted state e new h in
    rw a.updated (accepted_same state e a.people)
handle_same state (node command) new h = ground arith
handle_same state (owner user action payload) new h = ground arith

step_same : (state : SessionState) (op : Op) → SameSession (step state op) state
step_same state op = elim (step_cases state op) [
  | inl same ↦ rw same (record { session = refl; initiator = refl; receiver = refl; limit = refl })
  | inr (new, done, there) ↦ rw there (handle_same state op new done)
]

-- No sequence of envelopes and commands changes a session's id, its two users or its turn limit.
pub run_same : (state : SessionState) (ops : List Op) → SameSession (run state ops) state
unfolding run
run_same state [] = record { session = refl; initiator = refl; receiver = refl; limit = refl }
run_same state (op ∷ ops) =
    let later = run_same (step state op) ops in
    let first = step_same state op in
    record {
      session = later.session ∙ first.session;
      initiator = later.initiator ∙ first.initiator;
      receiver = later.receiver ∙ first.receiver;
      limit = later.limit ∙ first.limit;
    }
