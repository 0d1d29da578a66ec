-- ===== src/Session/Steps.antt =====
-- One reducer call, whichever of the three it is (kin-node/kin/session/reducer.py): what it
-- leaves alone, what it may do to the status, and what a refusal returns.
use kin_gateway.Prelude.{String, ◌≡◌, sym, subst, ◌⊎◌, inl, inr, true, Option, none, arith}
use kin_gateway.Json.{Members}
use kin_gateway.Session.Acceptance.{process_peer_envelope-IsAccepted}
use kin_gateway.Session.Machine.{Op, peer, node, owner, handle}
use kin_gateway.Session.Message.{Envelope}
use kin_gateway.Session.Reducer.Commands.{process_node_command, process_owner_command}
use kin_gateway.Session.Reducer.Peer.{
  unaccepted_receiver_accept, target_status, transition_check, accepted_state,
  process_peer_envelope,
}
use kin_gateway.Session.State.{SessionState, accept}
use kin_gateway.Session.Status.{
  Status, draft, accepted, status_eq, is_valid_transition, status_eq_iff,
}

-- The moves that a call can make: none, one of the matrix, or the receiver's early acceptance.
pub data Move : Status → Status → Type 0 where
  stay : {s : Status} → Move s s
  along : {s t : Status} → is_valid_transition s t ≡ true → Move s t
  early : Move draft accepted

Move-of_test : (s t : Status) → (status_eq t s ≡ true) ⊎ (is_valid_transition s t ≡ true) → Move s t
Move-of_test s t (inl q) = subst (λ u. Move s u) (sym ((status_eq_iff t s).0 q)) stay
Move-of_test s t (inr v) = along v

-- The exemption of the receiver's acceptance adds one move to the matrix.
unaccepted_move :
    (state : SessionState) (e : Envelope)
    → unaccepted_receiver_accept state e ≡ true
    → (is_valid_transition state.status (target_status state e) ≡ true)
      ⊎ ((state.status ≡ draft) × (target_status state e ≡ accepted))
unfolding unaccepted_receiver_accept is_valid_transition target_status
unaccepted_move state e h = ground arith

check_move :
    (state : SessionState) (e : Envelope)
    → transition_check state e ≡ none
    → ((status_eq (target_status state e) state.status ≡ true)
        ⊎ (is_valid_transition state.status (target_status state e) ≡ true))
      ⊎ (unaccepted_receiver_accept state e ≡ true)
unfolding transition_check
check_move state e h = ground arith

accepted-Move : (s t : Status) → s ≡ draft → t ≡ accepted → Move s t
accepted-Move s t p q = subst (λ a. Move a t) (sym p) (subst (λ b. Move draft b) (sym q) early)

peer-Move :
    (state : SessionState) (e : Envelope)
    → transition_check state e ≡ none
    → Move state.status (target_status state e)
peer-Move state e h = elim (check_move state e h) [
  | inl plain ↦ Move-of_test state.status (target_status state e) plain
  | inr exempt ↦ elim (unaccepted_move state e exempt) [
    | inl v ↦ along v
    | inr d ↦ accepted-Move state.status (target_status state e) d.0 d.1
  ]
]

peer_step-Move :
    (state : SessionState) (e : Envelope) (new : SessionState)
    → process_peer_envelope state e ≡ accept new
    → Move state.status new.status
unfolding accepted_state
peer_step-Move state e new h =
    let a = process_peer_envelope-IsAccepted state e new h in
    subst (λ (s : SessionState). Move state.status s.status) (sym a.updated)
      (peer-Move state e a.transition)

node_status :
    (state : SessionState) (command : String) (new : SessionState)
    → process_node_command state command ≡ accept new
    → is_valid_transition state.status new.status ≡ true
unfolding process_node_command
node_status state command new h = ground arith

owner_status :
    (state : SessionState) (user action : String) (payload : Option Members) (new : SessionState)
    → process_owner_command state user action payload ≡ accept new
    → (status_eq new.status state.status ≡ true)
      ⊎ (is_valid_transition state.status new.status ≡ true)
unfolding process_owner_command
owner_status state user action payload new h = ground arith

-- A call that succeeds keeps the status, moves it along the transition matrix, or takes a draft
-- session straight to accepted.
pub handle_moves :
    (state : SessionState) (op : Op) (new : SessionState)
    → handle state op ≡ accept new
    → Move state.status new.status
unfolding handle
handle_moves state (peer e) new h = peer_step-Move state e new h
handle_moves state (node command) new h = along (node_status state command new h)
handle_moves state (owner user action payload) new h =
    Move-of_test state.status new.status (owner_status state user action payload new h)
