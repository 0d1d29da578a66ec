-- ===== src/Transport/Ingest/Drafts.antt =====
-- The row that a first request leaves when the reducer of kin-node/kin/session/reducer.py refuses
-- it (ingest_envelope of kin-node/kin/transport/v11.py commits the row before it calls the reducer).
use kin_gateway.Prelude.{
  ◌≤◌, String, ◌≡◌, refl, ◌≢◌, true, false, none, some, [], ◌∷◌, arith, eq_refl, is_some,
  find_first, ok,
}
use kin_gateway.Audit.Writer.{has_sequence, check_found, check_sequence_conflict}
use kin_gateway.Gateway.Mirror.Fetch.{made}
use kin_gateway.Json.{Members}
use kin_gateway.Schemas.Envelope.{VerifiedEnvelope}
use kin_gateway.Schemas.Verification.{IsVerified, IsVerified-iff}
use kin_gateway.Session.Message.{task_request, Envelope}
use kin_gateway.Session.Reconstruct.{find_session}
use kin_gateway.Session.Reducer.Peer.{participant_check, sequence_check, process_peer_envelope}
use kin_gateway.Session.State.{out_of_order_sequence, reject}
use kin_gateway.Session.Status.{is_terminal_state}
use kin_gateway.Storage.Tables.{SessionRow, Db}
use kin_gateway.Transport.Ingest.Bootstrap.{draft_state, new_session, insert_session}
use kin_gateway.Transport.Ingest.Model.{Env, Moment, reduced, ack_rejected, ack_of}
use kin_gateway.Transport.Ingest.Pipeline.{
  after_conflict, conflict_step, after_verify, verify_step, has_kind, unknown_session, ingest_texts,
  text_field, three_texts, ingest_to_commit,
}
use kin_gateway.Transport.Ingest.Store.{
  advance, after_reducer, reduce_envelope, start_session, state_step,
}

-- No reply is a first request.
draft_stays : (r : SessionRow) (e : Envelope) → advance (draft_state e r) e ≡ draft_state e r
unfolding advance draft_state
draft_stays r e = refl

draft_participant : (r : SessionRow) (e : Envelope) → participant_check (draft_state e r) e ≡ none
unfolding participant_check draft_state
draft_participant r e = ground (arith, eq_refl e.actor_username, eq_refl e.actor_agent_id)

draft_refused :
    (r : SessionRow) (e : Envelope)
    → e.sequence ≢ 1
    → 1 ≤ e.sequence
    → process_peer_envelope (draft_state e r) e ≡ reject (draft_state e r) out_of_order_sequence
unfolding process_peer_envelope sequence_check is_terminal_state draft_state
draft_refused r e other_number positive =
    ground (arith, draft_participant r e, eq_refl e.session_id)

refused_at_reducer :
    (env : Env) (m : Moment) (e : Envelope) (db : Db) (r : SessionRow)
    → new_session env m e db ≡ ok r
    → e.sequence ≢ 1
    → 1 ≤ e.sequence
    → (state_step env m false e db)
      ≡ (ack_of m e (ack_rejected (reduced (some out_of_order_sequence))), insert_session r db)
unfolding state_step start_session reduce_envelope after_reducer
refused_at_reducer env m e db r h other_number positive =
    rw (h, start_session, reduce_envelope, draft_stays r e, draft_refused r e other_number positive)
      refl

-- A body with its three texts, of a task request for a session that the node does not know, from a
-- paired sender, that is verified with the sender as the only participant, with a sequence number
-- that is not stored and a payload that makes a session: where the sequence number is above 1, it is
-- rejected as out of order and adds no event; yet the row of its session stays in the database, as a
-- draft.
pub refused_request_leaves_draft :
    (env : Env) (m : Moment) (body : Members) (v : VerifiedEnvelope) (session actor agent : String)
    (db : Db) (r : SessionRow)
    → three_texts
        (text_field body "session_id")
        (text_field body "actor_username")
        (text_field body "actor_agent_id")
      ≡ some (session, actor, agent)
    → find_session db session ≡ none
    → has_kind body task_request ≡ true
    → is_some (env.key_of actor) ≡ true
    → IsVerified env.crypto env.key_of body session ((actor, agent) ∷ []) v
    → find_first
        (has_sequence v.envelope.session_id v.envelope.actor_username v.envelope.sequence)
        db.session_events
      ≡ none
    → new_session env m v.envelope db ≡ ok r
    → v.envelope.sequence ≢ 1
    → 1 ≤ v.envelope.sequence
    → ingest_to_commit env m body db ≡ (
      ack_of m v.envelope (ack_rejected (reduced (some out_of_order_sequence))),
      insert_session r db,
    )
unfolding ingest_to_commit ingest_texts unknown_session verify_step after_verify conflict_step
    check_sequence_conflict check_found after_conflict
refused_request_leaves_draft env m body v session actor agent db r texts gone asks paired verified
      free made other_number positive =
    rw
      (
        ingest_to_commit,
        texts,
        ingest_texts,
        gone,
        unknown_session,
        asks,
        paired,
        verify_step,
        (IsVerified-iff env.crypto env.key_of body ((actor, agent) ∷ []) session v).1 verified,
        after_verify,
        conflict_step,
        check_sequence_conflict,
        free,
      )
      (refused_at_reducer env m v.envelope db r made other_number positive)
