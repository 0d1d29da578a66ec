-- ===== src/Session/Acceptance.antt =====
-- When process_peer_envelope accepts an envelope, and the state that it then returns
-- (kin-node/kin/session/reducer.py).
use kin_gateway.Prelude.{
  ◌+◌, ◌≡◌, ◌≢◌, inl, inr, false, none, some, arith, eq_iff, Option-cases, Dict,
}
use kin_gateway.Session.Message.{Envelope}
use kin_gateway.Session.Reducer.Peer.{
  participant_check, last_sequence, sequence_check, transition_check, turn_limit_hit,
  accepted_participants, accepted_state, process_peer_envelope,
}
use kin_gateway.Session.State.{ParticipantInfo, SessionState, Outcome, accept}
use kin_gateway.Session.Status.{is_terminal_state}

-- Every check passes, and `new` is the updated state.
pub record IsAccepted (state : SessionState) (e : Envelope) (new : SessionState) : Type 0 where
  pub live : is_terminal_state state.status ≡ false
  pub same_session : e.session_id ≡ state.session_id
  pub participant : participant_check state e ≡ none
  pub sequence : e.sequence ≡ last_sequence state e.actor_username + 1
  pub transition : transition_check state e ≡ none
  pub turns : turn_limit_hit state e ≡ false
  pub people : Dict ParticipantInfo
  pub recorded : accepted_participants state e ≡ some people
  pub updated : new ≡ accepted_state state e people

transition_check_outcome :
    (state : SessionState) (e : Envelope) (o : Outcome) (new : SessionState)
    → transition_check state e ≡ some o
    → o ≢ accept new
unfolding transition_check
transition_check_outcome state e o new h k = ground arith

pub sequence_of_check :
    (state : SessionState) (e : Envelope)
    → sequence_check state e ≡ none
    → e.sequence ≡ last_sequence state e.actor_username + 1
unfolding sequence_check
sequence_of_check state e h = ground arith

pub sequence_check_of_next :
    (state : SessionState) (e : Envelope)
    → e.sequence ≡ last_sequence state e.actor_username + 1
    → sequence_check state e ≡ none
unfolding sequence_check
sequence_check_of_next state e h = ground arith

-- An accepted envelope has passed every check.
pub process_peer_envelope-IsAccepted :
    (state : SessionState) (e : Envelope) (new : SessionState)
    → process_peer_envelope state e ≡ accept new
    → IsAccepted state e new
unfolding process_peer_envelope
process_peer_envelope-IsAccepted state e new h = elim (Option-cases (transition_check state e)) [
  | inr (o, t) ↦ absurd (transition_check_outcome state e o new t (ground arith))
  | inl t ↦ elim (Option-cases (accepted_participants state e)) [
    | inl q ↦ absurd (ground arith)
    | inr (people, q) ↦ record {
      live = ground arith;
      same_session = ground (arith, eq_iff e.session_id state.session_id);
      participant = ground arith;
      sequence = ground (arith, sequence_of_check state e);
      transition = t;
      turns = ground arith;
      people = people;
      recorded = q;
      updated = ground arith;
    }
  ]
]

-- An envelope that passes every check is accepted.
pub IsAccepted-accepted :
    (state : SessionState) (e : Envelope) (new : SessionState)
    → IsAccepted state e new
    → process_peer_envelope state e ≡ accept new
unfolding process_peer_envelope
IsAccepted-accepted state e new a = ground (
  arith,
  a.recorded,
  a.updated,
  eq_iff e.session_id state.session_id,
  sequence_check_of_next state e,
)
