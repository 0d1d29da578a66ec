-- ===== src/Session/Authority.antt =====
-- Who may do what: owner-only kinds, the receiver's role after acceptance, and the owner's
-- commands (kin-node/kin/session/reducer.py).
use kin_gateway.Prelude.{
  get, put, String, ◌≡◌, refl, ◌≢◌, ◌⊎◌, inl, inr, true, false, none, some, [], ◌∷◌, arith, str_eq,
  eq_iff, if◌then◌else◌, Option-cases, is_empty, Dict, get-put_self,
}
use kin_gateway.Session.Acceptance.{process_peer_envelope-IsAccepted}
use kin_gateway.Session.Machine.{owner, handle, step, run}
use kin_gateway.Session.Message.{acceptance, cancel, Envelope, is_owner_only, is_acceptance}
use kin_gateway.Session.Reducer.Commands.{owner_action_target, process_owner_command}
use kin_gateway.Session.Reducer.Peer.{
  unaccepted_receiver_accept, participant_check, target_status, accepting_agent,
  accepted_participants, accepted_state, process_peer_envelope,
}
use kin_gateway.Session.State.{
  ParticipantInfo, SessionState, is_owner_username, unauthorized_agent, unauthorized_role_action,
  reject, accept,
}
use kin_gateway.Session.Status.{
  active, status_eq, is_valid_transition, is_terminal_state, is_resumable_state,
}

participant_owner :
    (state : SessionState) (e : Envelope)
    → participant_check state e ≡ none
    → is_owner_only e.kind ≡ true
    → is_empty state.participants ≡ false
    → (info : ParticipantInfo) × (get state.participants e.actor_username ≡ some info)
      × (info.role ≡ "owner")
unfolding participant_check
participant_owner state e h only some_one =
    elim (Option-cases (get state.participants e.actor_username)) [
      | inl q ↦ absurd (ground arith)
      | inr (info, q) ↦ (info, q, ground (arith, eq_iff info.role "owner"))
    ]

-- Where participants are registered, an accepted cancellation or approval decision comes from a
-- participant whose role is "owner".
pub owner_only_needs_owner :
    (state : SessionState) (e : Envelope) (new : SessionState)
    → process_peer_envelope state e ≡ accept new
    → is_owner_only e.kind ≡ true
    → is_empty state.participants ≡ false
    → (info : ParticipantInfo) × (get state.participants e.actor_username ≡ some info)
      × (info.role ≡ "owner")
owner_only_needs_owner state e new h only registered =
    participant_owner state e (process_peer_envelope-IsAccepted state e new h).participant only
      registered

put_not_empty {ℓ} : {V : Type ℓ} (d : Dict V) (k : String) (v : V) → is_empty (put d k v) ≡ false
unfolding put
put_not_empty [] k v = refl
put_not_empty ((j, w) ∷ d) k v = ground arith

abbrev as_receiver : String → ParticipantInfo
as_receiver agent = record { agent_id = agent; role = "receiver" }

receiver_recorded :
    (state : SessionState) (e : Envelope) (people : Dict ParticipantInfo) (agent : String)
    → e.kind ≡ acceptance
    → e.actor_username ≡ state.receiver_username
    → accepting_agent e ≡ some agent
    → accepted_participants state e ≡ some people
    → people ≡ put state.participants e.actor_username (as_receiver agent)
unfolding accepted_participants is_acceptance
receiver_recorded state e people agent kind actor a h =
    ground (arith, eq_iff e.actor_username state.receiver_username)

no_agent_unrecorded :
    (state : SessionState) (e : Envelope) (people : Dict ParticipantInfo)
    → e.kind ≡ acceptance
    → accepting_agent e ≡ none
    → accepted_participants state e ≢ some people
unfolding accepted_participants is_acceptance
no_agent_unrecorded state e people kind a h = ground arith

receiver_role :
    (state : SessionState) (e : Envelope) (people : Dict ParticipantInfo)
    → e.kind ≡ acceptance
    → e.actor_username ≡ state.receiver_username
    → accepted_participants state e ≡ some people
    → (agent : String) × (is_empty people ≡ false)
      × (get people e.actor_username ≡ some (as_receiver agent))
receiver_role state e people kind actor h = elim (Option-cases (accepting_agent e)) [
  | inl q ↦ absurd (no_agent_unrecorded state e people kind q h)
  | inr (agent, q) ↦
      let put_there = receiver_recorded state e people agent kind actor q h in
      (
        agent,
        rw put_there (put_not_empty state.participants e.actor_username (as_receiver agent)),
        rw put_there (get-put_self state.participants e.actor_username (as_receiver agent)),
      )
]

cancel_refused :
    (state : SessionState) (c : Envelope) (agent : String)
    → is_terminal_state state.status ≡ false
    → c.kind ≡ cancel
    → c.session_id ≡ state.session_id
    → is_empty state.participants ≡ false
    → get state.participants c.actor_username ≡ some (as_receiver agent)
    → process_peer_envelope state c
      ≡ reject state
          (if str_eq c.actor_agent_id agent then unauthorized_role_action else unauthorized_agent)
unfolding process_peer_envelope participant_check is_owner_only unaccepted_receiver_accept
cancel_refused state c agent live kind same registered there =
    ground (arith, eq_iff c.session_id state.session_id)

-- In the state that the receiver's acceptance gives, the reducer refuses every cancellation envelope
-- of the receiver's that names the session: for its role, or for its agent.
pub receiver_cannot_cancel :
    (state : SessionState) (e c : Envelope) (new : SessionState)
    → process_peer_envelope state e ≡ accept new
    → e.kind ≡ acceptance
    → e.actor_username ≡ state.receiver_username
    → c.kind ≡ cancel
    → c.actor_username ≡ e.actor_username
    → c.session_id ≡ new.session_id
    → (process_peer_envelope new c ≡ reject new unauthorized_role_action)
      ⊎ (process_peer_envelope new c ≡ reject new unauthorized_agent)
unfolding accepted_state target_status is_terminal_state
receiver_cannot_cancel state e c new h kind actor wants by same =
    let a = process_peer_envelope-IsAccepted state e new h in
    let role = receiver_role state e a.people kind actor a.recorded in
    ground (arith, a.updated, role.1, role.2, cancel_refused new c role.0)

-- An owner pauses an active session and resumes it: the session is as before, but for the
-- remembered resumable status.
pub pause_resume :
    (state : SessionState) (user : String)
    → is_owner_username state user ≡ true
    → state.status ≡ active
    → run state (owner user "owner_pause" none ∷ owner user "owner_resume" none ∷ [])
      ≡ record state { last_resumable_status = some active }
unfolding run step handle process_owner_command owner_action_target is_terminal_state
    is_valid_transition is_resumable_state status_eq is_owner_username
pause_resume state user h s = ground arith
