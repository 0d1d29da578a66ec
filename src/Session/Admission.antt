-- ===== src/Session/Admission.antt =====
-- The checks of process_peer_envelope (kin-node/kin/session/reducer.py) against the conditions of
-- Session.Conditions: transitions, turns, participants and the new state, and all of them together.
use kin_gateway.Prelude.{
  put, ◌+◌, ◌<◌, ◌≡◌, refl, sym, ◌∙◌, ◌↔◌, ◌⊎◌, inl, inr, true, false, not, ◌&&◌, none, some, [],
  ◌∷◌, ◌++◌, arith, if◌then◌else◌, Bool-cases, Option-cases, is_empty, Dict,
}
use kin_gateway.Session.Acceptance.{process_peer_envelope-IsAccepted, IsAccepted-accepted}
use kin_gateway.Session.Conditions.{
  ReceiverAccepts, wanted, Recorded, unchanged, joined, IsAdmitted, receiver_accepts,
  accepts_receiver, speaker_of_check, check_of_speaker,
}
use kin_gateway.Session.Message.{Envelope, consumes_turn, is_acceptance}
use kin_gateway.Session.Reducer.Peer.{
  last_sequence, target_status, transition_check, turn_limit_hit, next_resumable, accepting_agent,
  accepted_participants, accepted_state, process_peer_envelope,
}
use kin_gateway.Session.State.{ParticipantInfo, dumped, SessionState, accept}
use kin_gateway.Session.Status.{
  status_eq, is_valid_transition, is_terminal_state, is_resumable_state, status_eq_iff,
}

module _ (state : SessionState) (e : Envelope) where
  transition_of_check :
      transition_check state e ≡ none
      → (wanted state e ≡ state.status)
        ⊎ (is_valid_transition state.status (wanted state e) ≡ true)
        ⊎ ((is_empty state.participants ≡ false) × ReceiverAccepts state e)
  unfolding transition_check target_status
  transition_of_check h = elim (Bool-cases (status_eq (wanted state e) state.status)) [
    | inl stays ↦ inl (ground (arith, stays, status_eq_iff (wanted state e) state.status))
    | inr moves ↦ elim (Bool-cases (is_valid_transition state.status (wanted state e))) [
      | inl valid ↦ inr (inl valid)
      | inr forbidden ↦ inr (
          inr (
            ground (arith, moves, forbidden),
            receiver_accepts state e (ground (arith, moves, forbidden)),
          ))
    ]
  ]

  check_of_transition :
      (wanted state e ≡ state.status)
        ⊎ (is_valid_transition state.status (wanted state e) ≡ true)
        ⊎ ((is_empty state.participants ≡ false) × ReceiverAccepts state e)
      → transition_check state e ≡ none
  unfolding transition_check target_status
  check_of_transition (inl stays) =
      ground (arith, stays, status_eq_iff (wanted state e) state.status)
  check_of_transition (inr (inl valid)) = ground (arith, valid)
  check_of_transition (inr (inr (there, in_time))) =
      ground (arith, there, accepts_receiver state e in_time)

  turns_of_check :
      turn_limit_hit state e ≡ false
      → consumes_turn e.kind ≡ true
      → (state.current_turn < state.max_turns) ⊎ (is_terminal_state (wanted state e) ≡ true)
  unfolding turn_limit_hit target_status
  turns_of_check h turn = elim (Bool-cases (is_terminal_state (wanted state e))) [
    | inl over ↦ inr over
    | inr goes_on_there ↦ inl (ground (arith, h, turn, goes_on_there))
  ]

  check_of_turns :
      (consumes_turn e.kind ≡ true
        → (state.current_turn < state.max_turns) ⊎ (is_terminal_state (wanted state e) ≡ true))
      → turn_limit_hit state e ≡ false
  unfolding turn_limit_hit target_status
  check_of_turns free = elim (Bool-cases (consumes_turn e.kind)) [
    | inr no_turn ↦ rw no_turn refl
    | inl turn ↦ elim (free turn) [
      | inl room ↦ ground (arith, turn, room)
      | inr over ↦ ground (arith, turn, over)
    ]
  ]

  Recorded-of_people :
      (people : Dict ParticipantInfo)
      → accepted_participants state e ≡ some people
      → Recorded state e people
  unfolding accepted_participants
  Recorded-of_people people h = elim (Bool-cases (is_acceptance e.kind)) [
    | inr differs ↦ unchanged differs (ground (arith, differs))
    | inl accepting ↦ elim (Option-cases (accepting_agent e)) [
      | inl unnamed_agent ↦ absurd (ground (arith, accepting, unnamed_agent))
      | inr (named, q) ↦ joined named accepting q (ground (arith, accepting, q))
    ]
  ]

  people_of_Recorded :
      (people : Dict ParticipantInfo)
      → Recorded state e people
      → accepted_participants state e ≡ some people
  unfolding accepted_participants
  people_of_Recorded people (unchanged differs same) = rw (differs, same) refl
  people_of_Recorded people (joined named accepting q same) = rw (accepting, q, same) refl

  next_state :
      (people : Dict ParticipantInfo)
      → accepted_state state e people ≡ record state {
        status = wanted state e;
        current_turn = if consumes_turn e.kind then state.current_turn + 1 else state.current_turn;
        actor_sequences = put state.actor_sequences e.actor_username e.sequence;
        participants = people;
        last_resumable_status =
            if is_resumable_state (wanted state e) && not (is_resumable_state state.status)
            then some state.status
            else state.last_resumable_status;
        events = state.events ++ dumped e ∷ [];
      }
  unfolding accepted_state target_status next_resumable
  next_state people = elim (Bool-cases (is_resumable_state (wanted state e))) [
    | inr differs ↦ rw differs refl
    | inl resumable ↦ elim (Bool-cases (is_resumable_state state.status)) [
      | inl already ↦ rw (resumable, already) refl
      | inr fresh ↦ rw (resumable, fresh) refl
    ]
  ]

-- An envelope is accepted exactly where: the session is not over and is the envelope's; no
-- participant is registered, or the actor is one, with its agent (or as the receiver accepting an
-- early session) and as an owner where the kind wants one; the sequence number is the actor's last
-- one plus 1; the kind leaves the status, moves it inside the matrix, or is such an acceptance where
-- participants are registered; a kind that takes a turn finds one free or ends the session; and an
-- acceptance names its agent by a text. The new state is then the old one with the status, the turn,
-- the sequence number, the participants, the resumable status and the event written as IsAdmitted
-- states.
pub process_peer_envelope_iff :
    (state : SessionState) (e : Envelope) (new : SessionState)
    → (process_peer_envelope state e ≡ accept new) ↔ IsAdmitted state e new
unfolding last_sequence
process_peer_envelope_iff state e new = (
  λ h.
      let a = process_peer_envelope-IsAccepted state e new h in
      record {
        live = a.live;
        same_session = a.same_session;
        speaker = speaker_of_check state e a.participant;
        sequence = a.sequence;
        transition = transition_of_check state e a.transition;
        turns = turns_of_check state e a.turns;
        people = a.people;
        recorded = Recorded-of_people state e a.people a.recorded;
        updated = a.updated ∙ next_state state e a.people;
      },
  λ c. IsAccepted-accepted state e new (record {
    live = c.live;
    same_session = c.same_session;
    participant = check_of_speaker state e c.speaker;
    sequence = c.sequence;
    transition = check_of_transition state e c.transition;
    turns = check_of_turns state e c.turns;
    people = c.people;
    recorded = people_of_Recorded state e c.people c.recorded;
    updated = c.updated ∙ sym (next_state state e c.people);
  }),
)
