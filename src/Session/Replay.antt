-- ===== src/Session/Replay.antt =====
-- Sequence numbers: they grow for each actor, so no envelope is accepted twice
-- (kin-node/kin/session/reducer.py).
use kin_gateway.Prelude.{
  ◌≤◌, String, ◌≡◌, refl, ◌≢◌, inl, inr, List, [], ◌∷◌, arith, str_eq, eq_iff, eq_refl,
  if◌then◌else◌, Dict, get-put,
}
use kin_gateway.Session.Acceptance.{process_peer_envelope-IsAccepted}
use kin_gateway.Session.Machine.{Op, peer, node, owner, handle, step, run}
use kin_gateway.Session.Message.{Envelope}
use kin_gateway.Session.Reducer.Commands.{process_node_command, process_owner_command}
use kin_gateway.Session.Reducer.Peer.{last_sequence, accepted_state, process_peer_envelope}
use kin_gateway.Session.Refusals.{step_cases}
use kin_gateway.Session.State.{ParticipantInfo, SessionState, accept}

last_sequence_accepted :
    (state : SessionState) (e : Envelope) (people : Dict ParticipantInfo) (user : String)
    → last_sequence (accepted_state state e people) user
      ≡ (if str_eq e.actor_username user then e.sequence else last_sequence state user)
unfolding last_sequence accepted_state
last_sequence_accepted state e people user =
    ground (arith, get-put state.actor_sequences e.actor_username user e.sequence)

peer_sequences :
    (state : SessionState) (e : Envelope) (new : SessionState) (user : String)
    → process_peer_envelope state e ≡ accept new
    → last_sequence state user ≤ last_sequence new user
peer_sequences state e new user h =
    let a = process_peer_envelope-IsAccepted state e new h in
    rw a.updated (
      ground (
        arith,
        last_sequence_accepted state e a.people user,
        a.sequence,
        eq_iff e.actor_username user,
      ))

command_sequences :
    (state : SessionState) (op : Op) (user : String)
    → ((e : Envelope) → op ≢ peer e)
    → last_sequence (step state op) user ≡ last_sequence state user
unfolding step handle process_node_command process_owner_command last_sequence
command_sequences state (peer e) user h = absurd (h e refl)
command_sequences state (node command) user h = ground arith
command_sequences state (owner who action payload) user h = ground arith

peer_step_sequences :
    (state : SessionState) (e : Envelope) (user : String)
    → last_sequence state user ≤ last_sequence (step state (peer e)) user
unfolding handle
peer_step_sequences state e user = elim (step_cases state (peer e)) [
  | inl same ↦ rw same (omega arith)
  | inr (new, done, there) ↦ rw there (peer_sequences state e new user done)
]

-- No call lowers the last sequence number of an actor.
pub step_sequences :
    (state : SessionState) (op : Op) (user : String)
    → last_sequence state user ≤ last_sequence (step state op) user
step_sequences state (peer e) user = peer_step_sequences state e user
step_sequences state (node command) user =
    omega (arith, command_sequences state (node command) user (λ e. λ q. cc))
step_sequences state (owner who action payload) user =
    omega (arith, command_sequences state (owner who action payload) user (λ e. λ q. cc))

run_sequences :
    (state : SessionState) (ops : List Op) (user : String)
    → last_sequence state user ≤ last_sequence (run state ops) user
unfolding run
run_sequences state [] user = omega arith
run_sequences state (op ∷ ops) user =
    omega (arith, step_sequences state op user, run_sequences (step state op) ops user)

accepted_sequence :
    (state : SessionState) (e : Envelope) (new : SessionState)
    → process_peer_envelope state e ≡ accept new
    → last_sequence new e.actor_username ≡ e.sequence
accepted_sequence state e new h =
    let a = process_peer_envelope-IsAccepted state e new h in
    rw a.updated (
      ground
        (arith, last_sequence_accepted state e a.people e.actor_username, eq_refl e.actor_username))

-- An envelope that was accepted once is not accepted again, nor is any other with its actor and
-- sequence number, whatever envelopes and commands come between.
pub no_replay :
    (state : SessionState) (e again : Envelope) (new last : SessionState) (ops : List Op)
    → process_peer_envelope state e ≡ accept new
    → again.actor_username ≡ e.actor_username
    → again.sequence ≡ e.sequence
    → process_peer_envelope (run new ops) again ≢ accept last
no_replay state e again new last ops h actor number replayed =
    let later = process_peer_envelope-IsAccepted (run new ops) again last replayed in
    let grown = run_sequences new ops e.actor_username in
    let first = accepted_sequence state e new h in ground (arith, later.sequence, actor)
