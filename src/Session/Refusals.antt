-- ===== src/Session/Refusals.antt =====
-- What the reducer's three entry points return besides a new state: error results leave the state
-- as it was, and a terminal session is immutable (kin-node/kin/session/reducer.py).
use kin_gateway.Prelude.{
  String, ◌≡◌, refl, ◌⊎◌, inl, inr, true, false, Option, none, some, List, [], ◌∷◌, arith,
  Option-cases, is_some,
}
use kin_gateway.Json.{Members}
use kin_gateway.Session.Machine.{Op, peer, node, owner, handle, step, run}
use kin_gateway.Session.Message.{Envelope}
use kin_gateway.Session.Reducer.Commands.{process_node_command, process_owner_command}
use kin_gateway.Session.Reducer.Peer.{transition_check, process_peer_envelope}
use kin_gateway.Session.State.{
  SessionState, invalid_state_transition, unbound_local, ReducerResult, Outcome, returned, raised,
  reject, accept,
}
use kin_gateway.Session.Status.{is_terminal_state}

abbrev pub Verdict : SessionState → ReducerResult → Type 0
Verdict state r =
    ((r.success ≡ true) × (r.error_code ≡ none))
    ⊎ ((r.success ≡ false) × (is_some r.error_code ≡ true) × (r.new_state ≡ state))

transition_check_cases :
    (state : SessionState) (e : Envelope) (o : Outcome)
    → transition_check state e ≡ some o
    → (o ≡ raised unbound_local) ⊎ (o ≡ reject state invalid_state_transition)
unfolding transition_check
transition_check_cases state e o h = ground arith

peer-Verdict :
    (state : SessionState) (e : Envelope) (r : ReducerResult)
    → process_peer_envelope state e ≡ returned r
    → Verdict state r
unfolding process_peer_envelope
peer-Verdict state e r h = elim (Option-cases (transition_check state e)) [
  | inl t ↦ ground arith
  | inr (o, t) ↦ ground (arith, transition_check_cases state e o t)
]

node-Verdict :
    (state : SessionState) (command : String) (r : ReducerResult)
    → process_node_command state command ≡ returned r
    → Verdict state r
unfolding process_node_command
node-Verdict state command r h = ground arith

pub owner-Verdict :
    (state : SessionState) (user action : String) (payload : Option Members) (r : ReducerResult)
    → process_owner_command state user action payload ≡ returned r
    → Verdict state r
unfolding process_owner_command
owner-Verdict state user action payload r h = ground arith

-- A call that returns either succeeds with no error code, or fails with an error code and the
-- state that it was given.
pub handle_verdict :
    (state : SessionState) (op : Op) (r : ReducerResult)
    → handle state op ≡ returned r
    → ((r.success ≡ true) × (r.error_code ≡ none))
      ⊎ ((r.success ≡ false) × (is_some r.error_code ≡ true) × (r.new_state ≡ state))
unfolding handle
handle_verdict state (peer e) r h = peer-Verdict state e r h
handle_verdict state (node command) r h = node-Verdict state command r h
handle_verdict state (owner user action payload) r h = owner-Verdict state user action payload r h

step_of_outcome :
    (state : SessionState) (op : Op) (o : Outcome)
    → handle state op ≡ o
    → (step state op ≡ state)
      ⊎ ((new : SessionState) × (handle state op ≡ accept new) × (step state op ≡ new))
unfolding step
step_of_outcome state op (raised f) h = inl (rw h)
step_of_outcome state op (returned r) h = elim (handle_verdict state op r h) [
  | inl good ↦ inr (r.new_state, ground (arith, good.0, good.1), rw h)
  | inr bad ↦ inl (rw h bad.2)
]

-- A step goes on from an accepted state or leaves the state as it was.
pub step_cases :
    (state : SessionState) (op : Op)
    → (step state op ≡ state)
      ⊎ ((new : SessionState) × (handle state op ≡ accept new) × (step state op ≡ new))
step_cases state op = step_of_outcome state op (handle state op) refl

step_terminal :
    (state : SessionState) (op : Op) → is_terminal_state state.status ≡ true → step state op ≡ state
unfolding step handle process_peer_envelope process_node_command process_owner_command
step_terminal state (peer e) h = rw h
step_terminal state (node command) h = rw h
step_terminal state (owner user action payload) h = ground arith

-- Once a session is in a terminal status, no sequence of envelopes and commands changes it.
pub run_terminal :
    (state : SessionState) (ops : List Op)
    → is_terminal_state state.status ≡ true
    → run state ops ≡ state
unfolding run
run_terminal state [] h = refl
run_terminal state (op ∷ ops) h = rw (step_terminal state op h) (run_terminal state ops h)
