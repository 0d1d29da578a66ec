-- ===== src/Session/Conditions.antt =====
-- The conditions under which process_peer_envelope (kin-node/kin/session/reducer.py) accepts an
-- envelope, written without the reducer's own checks, and the state that an accepted envelope
-- gives. The proofs here are on the receiver's acceptance and on the participants.
use kin_gateway.Prelude.{
  get, put, ◌+◌, ◌<◌, String, ◌≡◌, refl, ◌⊎◌, inl, inr, true, false, not, ◌&&◌, Option, none, some,
  [], ◌∷◌, ◌++◌, arith, str_eq, eq_iff, if◌then◌else◌, Bool-cases, or_else, is_empty, Dict,
}
use kin_gateway.Session.Message.{
  Envelope, peer_kind_transition, consumes_turn, is_owner_only, is_acceptance,
}
use kin_gateway.Session.Reducer.Peer.{
  unaccepted_receiver_accept, registered_check, participant_check, accepting_agent,
}
use kin_gateway.Session.State.{ParticipantInfo, dumped, SessionState}
use kin_gateway.Session.Status.{
  Status, draft, sent, queued, delivered, peer_review, status_in, is_valid_transition,
  is_terminal_state, is_resumable_state,
}

-- The receiver accepts a session that it has not accepted yet.
pub record ReceiverAccepts (state : SessionState) (e : Envelope) : Type 0 where
  pub accepts : is_acceptance e.kind ≡ true
  pub by_receiver : e.actor_username ≡ state.receiver_username
  pub in_time : status_in state.status (draft ∷ sent ∷ queued ∷ delivered ∷ peer_review ∷ []) ≡ true

-- The registered participant sends with its own agent, but for such an acceptance, and is an owner
-- where the kind wants one.
pub record Speaks (state : SessionState) (e : Envelope) : Type 0 where
  pub info : ParticipantInfo
  pub registered : get state.participants e.actor_username ≡ some info
  pub agent : (e.actor_agent_id ≡ info.agent_id) ⊎ ReceiverAccepts state e
  pub owner : is_owner_only e.kind ≡ true → info.role ≡ "owner"

abbrev pub wanted : SessionState → Envelope → Status
wanted state e = or_else (peer_kind_transition e.kind) state.status

-- What the state keeps of the participants: an acceptance records its actor with the agent that it
-- names, as the receiver or as an owner.
pub data Recorded (state : SessionState) (e : Envelope) (people : Dict ParticipantInfo)
    : Type 0 where
  unchanged : is_acceptance e.kind ≡ false → people ≡ state.participants → Recorded state e people
  joined :
      (named : String)
      → is_acceptance e.kind ≡ true
      → accepting_agent e ≡ some named
      → people
        ≡ put state.participants e.actor_username (record {
          agent_id = named;
          role = if str_eq e.actor_username state.receiver_username then "receiver" else "owner";
        })
      → Recorded state e people

pub record IsAdmitted (state : SessionState) (e : Envelope) (new : SessionState) : Type 0 where
  pub live : is_terminal_state state.status ≡ false
  pub same_session : e.session_id ≡ state.session_id
  pub speaker : (state.participants ≡ []) ⊎ Speaks state e
  pub sequence : e.sequence ≡ or_else (get state.actor_sequences e.actor_username) 0 + 1
  pub transition :
      (wanted state e ≡ state.status)
      ⊎ (is_valid_transition state.status (wanted state e) ≡ true)
      ⊎ ((is_empty state.participants ≡ false) × ReceiverAccepts state e)
  pub turns :
      consumes_turn e.kind ≡ true
      → (state.current_turn < state.max_turns) ⊎ (is_terminal_state (wanted state e) ≡ true)
  pub people : Dict ParticipantInfo
  pub recorded : Recorded state e people
  pub updated : new ≡ record state {
    status = wanted state e;
    current_turn = if consumes_turn e.kind then state.current_turn + 1 else state.current_turn;
    actor_sequences = put state.actor_sequences e.actor_username e.sequence;
    participants = people;
    last_resumable_status =
        if is_resumable_state (wanted state e) && not (is_resumable_state state.status)
        then some state.status
        else state.last_resumable_status;
    events = state.events ++ dumped e ∷ [];
  }

pub receiver_accepts :
    (state : SessionState) (e : Envelope)
    → unaccepted_receiver_accept state e ≡ true
    → ReceiverAccepts state e
unfolding unaccepted_receiver_accept
receiver_accepts state e h = record {
  accepts = ground arith;
  by_receiver = ground (arith, eq_iff e.actor_username state.receiver_username);
  in_time = ground arith;
}

pub accepts_receiver :
    (state : SessionState) (e : Envelope)
    → ReceiverAccepts state e
    → unaccepted_receiver_accept state e ≡ true
unfolding unaccepted_receiver_accept
accepts_receiver state e a =
    ground
      (arith, a.accepts, a.by_receiver, a.in_time, eq_iff e.actor_username state.receiver_username)

module _ (state : SessionState) (e : Envelope) where
  Speaks-of_check :
      (o : Option ParticipantInfo)
      → get state.participants e.actor_username ≡ o
      → registered_check state e o ≡ none
      → Speaks state e
  unfolding registered_check
  Speaks-of_check none q h = absurd (ground arith)
  Speaks-of_check (some info) q h = record {
    info = info;
    registered = q;
    agent = elim (Bool-cases (str_eq e.actor_agent_id info.agent_id)) [
      | inl same ↦ inl (ground (arith, same, eq_iff e.actor_agent_id info.agent_id))
      | inr differs ↦ inr (receiver_accepts state e (ground (arith, differs)))
    ];
    owner = λ only. ground (arith, only, eq_iff info.role "owner");
  }

  check_of_Speaks : Speaks state e → participant_check state e ≡ none
  unfolding participant_check registered_check
  check_of_Speaks s = elim s.agent [
    | inl same ↦ ground (
      arith,
      s.registered,
      same,
      s.owner,
      eq_iff e.actor_agent_id s.info.agent_id,
      eq_iff s.info.role "owner",
    )
    | inr in_time ↦
        ground (
          arith,
          s.registered,
          accepts_receiver state e in_time,
          s.owner,
          eq_iff s.info.role "owner",
        )
  ]

  pub speaker_of_check :
      participant_check state e ≡ none → (state.participants ≡ []) ⊎ Speaks state e
  unfolding participant_check
  speaker_of_check h = elim (Bool-cases (is_empty state.participants)) [
    | inl alone ↦ inl (ground (arith, alone))
    | inr some_there ↦
        inr (Speaks-of_check (get state.participants e.actor_username) refl (rw some_there at h))
  ]

  pub check_of_speaker :
      (state.participants ≡ []) ⊎ Speaks state e → participant_check state e ≡ none
  unfolding participant_check
  check_of_speaker (inl alone) = rw alone refl
  check_of_speaker (inr s) = check_of_Speaks s
