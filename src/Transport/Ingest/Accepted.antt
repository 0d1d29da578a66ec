-- ===== src/Transport/Ingest/Accepted.antt =====
-- An envelope that passes every check of ingest_envelope (kin-node/kin/transport/v11.py): what its
-- call stores and answers where the call ends with the commit of the session's status.
use kin_gateway.Prelude.{◌≡◌, [], ◌∷◌, ◌++◌, Result, ok}
use kin_gateway.Audit.Writer.{WriterFault, next_order, Appended, appended, event_row}
use kin_gateway.Session.Message.{answer, Envelope}
use kin_gateway.Session.State.{SessionState}
use kin_gateway.Storage.Services.{Services}
use kin_gateway.Storage.Tables.{Db}
use kin_gateway.Transport.Ingest.Model.{Env, Moment, ack_delivered, Ingested, ack_of}
use kin_gateway.Transport.Ingest.Store.{final_state, event_of, is_own, lock_agent}
use kin_gateway.Transport.Transitions.{set_status}

-- What is stored and answered for an accepted envelope, with the status that the session then has.
pub record IsStored (env : Env) (m : Moment) (e : Envelope) (new : SessionState) (db out : Db)
    (a : Ingested) : Type 0 where
  pub answer : a ≡ ack_of m e ack_delivered
  pub row :
      out.session_events
      ≡ db.session_events
        ++ event_row env.services m.event (event_of e) (next_order db.session_events e.session_id)
          ∷ []
  pub status :
      out.sessions
      ≡ (set_status e.session_id
          (final_state (is_own db e) new e).status
          m.now_str
          (lock_agent e db)).sessions

module _ (env : Env) (m : Moment) (e : Envelope) where
  -- What the writer gives for a new event of a session that exists.
  IsAppended : Db → Result WriterFault Appended × Db → Type 0
  IsAppended db (a, out) =
      (a ≡ ok (appended m.event.uuid (next_order db.session_events e.session_id)))
      × (out.session_events
          ≡ db.session_events
            ++ event_row env.services m.event (event_of e)
                (next_order db.session_events e.session_id)
              ∷ [])
      × (out.sessions ≡ db.sessions)
      × (out.identity ≡ db.identity)
