-- ===== src/Transport/Transitions.antt =====
-- _apply_node_command_transition and _apply_owner_command_transition of
-- kin-node/kin/transport/v11.py.
use kin_gateway.Prelude.{
  String, ◌≡◌, refl, inl, inr, Option, none, some, str_eq, if◌then◌else◌, Bool-cases, Option-cases,
  update_where,
}
use kin_gateway.Audit.Writer.{write_audit_event}
use kin_gateway.Json.{Members}
use kin_gateway.Session.Reconstruct.{reconstruct_session_state}
use kin_gateway.Session.Reducer.Commands.{process_node_command, process_owner_command}
use kin_gateway.Session.State.{SessionState, Fault, ReducerResult, Outcome, returned, raised}
use kin_gateway.Session.Status.{Status}
use kin_gateway.Storage.Services.{Services, Stamp}
use kin_gateway.Storage.Tables.{SessionRow, Db}

-- UPDATE sessions SET status = ?, updated_at = ? WHERE session_id = ?
unfoldable pub set_status : String → Status → String → Db → Db
set_status session status now db = record db {
  sessions =
      update_where (λ (r : SessionRow). str_eq r.session_id session)
        (λ r. record r { status = status; updated_at = now }) db.sessions;
}

-- What a transition gives: the new state, `none` for a refusal, or what the reducer raised.
pub data Applied : Type 0 where
  moved : SessionState → Applied
  refused : Applied
  broke : Fault → Applied

persist_result : Stamp → String → SessionState → ReducerResult → Db → Applied × Db
unfolding write_audit_event set_status
persist_result st session state r db =
    if r.success
    then (
      moved r.new_state,
      write_audit_event st "session_status_updated" (some session) none (some session)
          (set_status session r.new_state.status st.now db),
    )
    else (refused, write_audit_event st "session_status_rejected" (some session) none none db)

unfoldable pub persist : Stamp → String → SessionState → Outcome → Db → Applied × Db
unfolding persist_result
persist st session state (raised f) db = (broke f, db)
persist st session state (returned r) db = persist_result st session state r db

-- The rest of a transition for the state that was read, if there is one.
unfoldable pub apply_to :
    Stamp → String → (SessionState → Outcome) → Option SessionState → Db → Applied × Db
unfolding persist
apply_to st session command none db = (refused, db)
apply_to st session command (some state) db = persist st session state (command state) db

unfoldable pub apply_node_command_transition :
    Services → Stamp → String → String → Db → Applied × Db
unfolding apply_to
apply_node_command_transition sv st session command db =
    apply_to st session (λ state. process_node_command state command)
      (reconstruct_session_state sv db session) db

unfoldable pub apply_owner_command_transition :
    Services → Stamp → String → String → String → Option Members → Db → Applied × Db
unfolding apply_to
apply_owner_command_transition sv st session user action payload db =
    apply_to st session (λ state. process_owner_command state user action payload)
      (reconstruct_session_state sv db session) db

persist_keeps :
    (st : Stamp) (session : String) (state : SessionState) (o : Outcome) (db : Db)
    → ((persist st session state o db).1.session_events ≡ db.session_events)
      × ((persist st session state o db).1.outbound_envelope_queue ≡ db.outbound_envelope_queue)
unfolding persist persist_result write_audit_event set_status
persist_keeps st session state (raised f) db = (refl, refl)
persist_keeps st session state (returned r) db = elim (Bool-cases r.success) [
  | inl done ↦ rw done (refl, refl)
  | inr bad ↦ rw bad (refl, refl)
]

-- A node command writes no event, and leaves the queue as it is.
pub node_command_keeps :
    (sv : Services) (st : Stamp) (session command : String) (db : Db)
    → ((apply_node_command_transition sv st session command db).1.session_events
        ≡ db.session_events)
      × ((apply_node_command_transition sv st session command db).1.outbound_envelope_queue
          ≡ db.outbound_envelope_queue)
unfolding apply_node_command_transition apply_to
node_command_keeps sv st session command db =
    elim (Option-cases (reconstruct_session_state sv db session)) [
      | inl gone ↦ rw gone (refl, refl)
      | inr (s, found) ↦ rw found (persist_keeps st session s (process_node_command s command) db)
    ]

persist-approvals :
    (st : Stamp) (session : String) (state : SessionState) (o : Outcome) (db : Db)
    → (persist st session state o db).1.approvals ≡ db.approvals
unfolding persist persist_result write_audit_event set_status
persist-approvals st session state (raised f) db = refl
persist-approvals st session state (returned r) db = elim (Bool-cases r.success) [
  | inl done ↦ rw done refl
  | inr bad ↦ rw bad refl
]

-- An owner command leaves the approvals as they are.
pub owner_command-approvals :
    (sv : Services) (st : Stamp) (session user action : String) (payload : Option Members) (db : Db)
    → (apply_owner_command_transition sv st session user action payload db).1.approvals
      ≡ db.approvals
unfolding apply_owner_command_transition apply_to
owner_command-approvals sv st session user action payload db =
    elim (Option-cases (reconstruct_session_state sv db session)) [
      | inl gone ↦ rw gone refl
      | inr (s, found) ↦
          rw found (persist-approvals st session s (process_owner_command s user action payload) db)
    ]
