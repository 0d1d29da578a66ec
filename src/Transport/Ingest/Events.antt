-- ===== src/Transport/Ingest/Events.antt =====
-- What the steps of ingest_envelope of kin-node/kin/transport/v11.py do to the event log.
use kin_gateway.Prelude.{
  ◌≡◌, refl, ◌∙◌, ◌⊎◌, inl, inr, true, none, [], ◌∷◌, ◌++◌, arith, Bool-cases, find_first, Result,
  ok, err,
}
use kin_gateway.Audit.Order.{Added, append-Added}
use kin_gateway.Audit.Writer.{
  has_sequence, WriterFault, next_order, Appended, appended, was_duplicate, sequence_reuse_mismatch,
  event_row, append_session_event,
}
use kin_gateway.Session.Machine.{peer, handle}
use kin_gateway.Session.Message.{Envelope}
use kin_gateway.Session.Reducer.Peer.{process_peer_envelope}
use kin_gateway.Session.Refusals.{handle_verdict}
use kin_gateway.Session.State.{SessionState, ReducerResult, Outcome, returned, raised, accept}
use kin_gateway.Storage.Tables.{Db}
use kin_gateway.Transport.Ingest.Model.{Env, Moment}
use kin_gateway.Transport.Ingest.Store.{
  set_receiver_agent, event_of, store_status, after_append, lock_agent, store_event, after_reducer,
}
use kin_gateway.Transport.Transitions.{set_status}

-- One row stands at the end of the log, for an envelope that the reducer accepts, and it is the
-- first of its actor with the sequence number in the session.
pub record Stores (env : Env) (m : Moment) (e : Envelope) (state : SessionState) (db out : Db)
    : Type 0 where
  pub new : SessionState
  pub accepted : process_peer_envelope state e ≡ accept new
  pub unused :
      find_first (has_sequence e.session_id e.actor_username e.sequence) db.session_events ≡ none
  pub row :
      out.session_events
      ≡ db.session_events
        ++ event_row env.services m.event (event_of e) (next_order db.session_events e.session_id)
          ∷ []

pub same_log-Stores :
    (env : Env) (m : Moment) (e : Envelope) (state : SessionState) (db before out : Db)
    → db.session_events ≡ before.session_events
    → Stores env m e state db out
    → Stores env m e state before out
same_log-Stores env m e state db before out h s = record {
  new = s.new;
  accepted = s.accepted;
  unused = rw (← h) s.unused;
  row = rw (← h) s.row;
}

pub lock_agent-events :
    (e : Envelope) (db : Db) → (lock_agent e db).session_events ≡ db.session_events
unfolding lock_agent set_receiver_agent
lock_agent-events e db = ground arith

after_append-events :
    (m : Moment) (e : Envelope) (s : SessionState) (r : Result WriterFault Appended) (db : Db)
    → (after_append m e s (r, db)).1.session_events ≡ db.session_events
unfolding after_append store_status set_status
after_append-events m e s (err f) db = refl
after_append-events m e s (ok sequence_reuse_mismatch) db = refl
after_append-events m e s (ok (appended id n)) db = refl
after_append-events m e s (ok (was_duplicate id)) db = refl

module _ (env : Env) (m : Moment) (e : Envelope) where
  append_events :
      (db locked : Db)
      → locked.session_events ≡ db.session_events
      → ((append_session_event env.services m.event m.audit (event_of e) locked).1.session_events
          ≡ db.session_events)
        ⊎ Added env.services m.event
            (event_of e)
            db
            (append_session_event env.services m.event m.audit (event_of e) locked).1
  append_events db locked h = elim (append-Added env.services m.event m.audit (event_of e) locked) [
    | inl same ↦ inl (same ∙ h)
    | inr added ↦ inr (record { row = rw (← h) added.row; unused = rw (← h) added.unused })
  ]

  store_events :
      (state new : SessionState) (db : Db)
      → process_peer_envelope state e ≡ accept new
      → (((store_event env m e new db).1.session_events ≡ db.session_events)
          ⊎ Stores env m e state db (store_event env m e new db).1)
  unfolding store_event event_of
  store_events state new db h =
      let appending =
        append_session_event env.services m.event m.audit (event_of e) (lock_agent e db) in
      let kept = after_append-events m e new appending.0 appending.1 in
      elim (append_events db (lock_agent e db) (lock_agent-events e db)) [
        | inl same ↦ inl (kept ∙ same)
        | inr added ↦ inr (record {
          new = new;
          accepted = h;
          row = kept ∙ added.row;
          unused = added.unused e.sequence refl;
        })
      ]

  returned_accepts :
      (state : SessionState) (r : ReducerResult)
      → r.success ≡ true
      → process_peer_envelope state e ≡ returned r
      → returned r ≡ accept r.new_state
  unfolding handle process_peer_envelope
  returned_accepts state r succeeds h = elim (handle_verdict state (peer e) r h) [
    | inl (good, code) ↦ ground (arith, good, code)
    | inr (bad, code, same) ↦ absurd (ground (arith, bad, succeeds))
  ]

  pub reducer_events :
      (state : SessionState) (o : Outcome) (db : Db)
      → process_peer_envelope state e ≡ o
      → (((after_reducer env m e o db).1.session_events ≡ db.session_events)
          ⊎ Stores env m e state db (after_reducer env m e o db).1)
  unfolding after_reducer
  reducer_events state (raised f) db h = inl refl
  reducer_events state (returned r) db h = elim (Bool-cases r.success) [
    | inr fails ↦ rw fails (inl refl)
    | inl succeeds ↦
        rw succeeds (store_events state r.new_state db (h ∙ returned_accepts state r succeeds h))
  ]
