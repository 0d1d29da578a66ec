-- ===== src/Transport/Ingest/Store.antt =====
-- Steps 3 to 5 of ingest_envelope in kin-node/kin/transport/v11.py: the state of the session, the
-- reducer, the event and the new status.
use kin_gateway.Prelude.{
  String, inl, inr, Bool, true, false, not, ◌&&◌, Option, none, some, [], ◌∷◌, str_eq,
  if◌then◌else◌, or_else, update_where, truthy?, Result, ok, err,
}
use kin_gateway.Audit.Writer.{
  value, WriterFault, Appended, sequence_reuse_mismatch, NewEvent, append_session_event,
}
use kin_gateway.Json.{object}
use kin_gateway.Session.Message.{
  MessageKind, task_request, acceptance, decline, clarification, artifact_offer, final_result,
  kind_value, Envelope, is_acceptance,
}
use kin_gateway.Session.Reconstruct.{reconstruct_session_state}
use kin_gateway.Session.Reducer.Commands.{process_node_command}
use kin_gateway.Session.Reducer.Peer.{accepting_agent, process_peer_envelope}
use kin_gateway.Session.State.{SessionState, Outcome, returned, raised}
use kin_gateway.Session.Status.{sent, queued, delivered, accepted, status_eq, status_in}
use kin_gateway.Storage.Tables.{SessionRow, Db}
use kin_gateway.Transport.Ingest.Bootstrap.{draft_state, Ended, new_session, insert_session}
use kin_gateway.Transport.Ingest.Model.{
  Env, Moment, sequence_reuse, session_state_load_failed, reduced, ack_delivered, ack_rejected,
  in_writer, in_reducer, Ingested, goes_on, failed_with, ack_of,
}
use kin_gateway.Transport.Transitions.{set_status}

-- UPDATE sessions SET receiver_agent_id = ? WHERE session_id = ?
unfoldable pub set_receiver_agent : String → String → Db → Db
set_receiver_agent session agent db = record db {
  sessions =
      update_where (λ (r : SessionRow). str_eq r.session_id session)
        (λ r. record r { receiver_agent_id = some agent }) db.sessions;
}

state_after : SessionState → Outcome → SessionState
state_after s (returned r) = if r.success then r.new_state else s
state_after s (raised f) = s

-- A node command whose refusal leaves the state.
unfoldable pub try_command : SessionState → String → SessionState
unfolding state_after process_node_command
try_command s command = state_after s (process_node_command s command)

unfoldable pub is_reply : MessageKind → Bool
is_reply acceptance = true
is_reply decline = true
is_reply clarification = true
is_reply _ = false

-- A reply to a request that was queued or delivered: it is under review now.
unfoldable pub advance : SessionState → Envelope → SessionState
unfolding status_in status_eq is_reply try_command
advance s e =
    if status_in s.status (queued ∷ delivered ∷ []) && is_reply e.kind
    then (if status_eq s.status queued
        then try_command (try_command s "mark_delivered") "mark_peer_review"
        else try_command s "mark_peer_review")
    else s

is_request : MessageKind → Bool
is_request task_request = true
is_request _ = false

arrived : SessionState → Envelope → SessionState
unfolding try_command is_request status_eq
arrived s e =
    let there = try_command s "mark_delivered" in
    if is_request e.kind && status_eq there.status delivered
    then try_command there "mark_peer_review"
    else there

-- final_state, where the envelope is a peer's or the node's own.
unfoldable pub final_state : Bool → SessionState → Envelope → SessionState
unfolding arrived try_command status_eq
final_state own s e =
    let there = if status_eq s.status sent && not own then arrived s e else s in
    if status_eq there.status accepted && not own then try_command there "mark_active" else there

unfoldable pub has_tail : Bool → MessageKind → Bool
has_tail own final_result = true
has_tail own artifact_offer = not own
has_tail own _ = false

-- The arguments of append_session_event.
unfoldable pub event_of : Envelope → NewEvent
unfolding kind_value
event_of e = record {
  session_id = e.session_id;
  actor_username = e.actor_username;
  actor_agent_id = some e.actor_agent_id;
  kind = kind_value e.kind;
  visibility = "peer_visible";
  payload = value (object e.payload);
  signature = e.signature;
  sequence = some e.sequence;
}

unfoldable pub is_own : Db → Envelope → Bool
is_own db e = str_eq e.actor_username (or_else db.identity "")

unfoldable pub store_status : Moment → Envelope → SessionState → Db → Ingested × Db
unfolding final_state has_tail is_own set_status
store_status m e s db =
    let own = is_own db e in
    (
      if has_tail own e.kind then goes_on e else ack_of m e ack_delivered,
      set_status e.session_id (final_state own s e).status m.now_str db,
    )

-- Step 5 and what follows; only a rejection by the writer ends the call.
unfoldable pub after_append :
    Moment → Envelope → SessionState → Result WriterFault Appended × Db → Ingested × Db
unfolding store_status ack_of
after_append m e s (err f, db) = (failed_with (in_writer f), db)
after_append m e s (ok sequence_reuse_mismatch, db) = (ack_of m e (ack_rejected sequence_reuse), db)
after_append m e s (ok a, db) = store_status m e s db

unfoldable pub lock_agent : Envelope → Db → Db
unfolding is_acceptance accepting_agent set_receiver_agent
lock_agent e db =
    if is_acceptance e.kind && truthy? (accepting_agent e)
    then set_receiver_agent e.session_id (or_else (accepting_agent e) "") db
    else db

unfoldable pub store_event : Env → Moment → Envelope → SessionState → Db → Ingested × Db
unfolding after_append lock_agent event_of append_session_event
store_event env m e s db =
    after_append m e s
      (append_session_event env.services m.event m.audit (event_of e) (lock_agent e db))

-- Step 4.
unfoldable pub after_reducer : Env → Moment → Envelope → Outcome → Db → Ingested × Db
unfolding store_event ack_of
after_reducer env m e (raised f) db = (failed_with (in_reducer f), db)
after_reducer env m e (returned r) db =
    if r.success
    then store_event env m e r.new_state db
    else (ack_of m e (ack_rejected (reduced r.error_code)), db)

unfoldable pub reduce_envelope : Env → Moment → Envelope → SessionState → Db → Ingested × Db
unfolding after_reducer advance process_peer_envelope
reduce_envelope env m e s db = after_reducer env m e (process_peer_envelope (advance s e) e) db

unfoldable pub start_session :
    Env → Moment → Envelope → Result Ended SessionRow → Db → Ingested × Db
unfolding ack_of insert_session draft_state reduce_envelope
start_session env m e (err (inl code)) db = (ack_of m e (ack_rejected code), db)
start_session env m e (err (inr fault)) db = (failed_with fault, db)
start_session env m e (ok r) db = reduce_envelope env m e (draft_state e r) (insert_session r db)

unfoldable pub load_session : Env → Moment → Envelope → Option SessionState → Db → Ingested × Db
unfolding ack_of reduce_envelope
load_session env m e none db = (ack_of m e (ack_rejected session_state_load_failed), db)
load_session env m e (some s) db = reduce_envelope env m e s db

-- Step 3: `known` says whether the session has a row.
unfoldable pub state_step : Env → Moment → Bool → Envelope → Db → Ingested × Db
unfolding start_session new_session load_session reconstruct_session_state
state_step env m false e db = start_session env m e (new_session env m e db) db
state_step env m true e db =
    load_session env m e (reconstruct_session_state env.services db e.session_id) db
