-- ===== src/Transport/Ingest/Authentic.antt =====
-- What ingest_envelope of kin-node/kin/transport/v11.py adds to the log of a session before the
-- point where an accepted final result or an artifact that a peer offers adds rows of its own.
use kin_gateway.Prelude.{
  String, ◌≡◌, refl, ◌∙◌, ◌⊎◌, inl, inr, true, false, none, some, [], ◌∷◌, arith, Bool-cases,
  Option-cases, is_some, Dict, ok,
}
use kin_gateway.Json.{Members}
use kin_gateway.Schemas.Envelope.{VerifiedEnvelope}
use kin_gateway.Schemas.Verification.{IsVerified}
use kin_gateway.Session.Message.{task_request, acceptance, Envelope}
use kin_gateway.Session.Reconstruct.{find_session, reconstruct_session_state}
use kin_gateway.Session.State.{SessionState}
use kin_gateway.Storage.Tables.{SessionRow, Db}
use kin_gateway.Transport.Ingest.Bootstrap.{draft_state, new_session}
use kin_gateway.Transport.Ingest.Events.{Stores, same_log-Stores}
use kin_gateway.Transport.Ingest.Model.{Env, Moment, ends, participant_map, lazy_expiry}
use kin_gateway.Transport.Ingest.Pipeline.{
  verify_step, has_kind, unknown_session, known_session, ingest_texts, text_field, three_texts,
  ingest_to_commit,
}
use kin_gateway.Transport.Ingest.Stages.{verify_events}
use kin_gateway.Transport.Ingest.Store.{advance}
use kin_gateway.Transport.Transitions.{node_command_keeps}

-- The state that the code gives to the reducer: that of a session that the envelope starts, or that
-- of the session's rows after the lazy expiry.
pub data Given (env : Env) (m : Moment) (e : Envelope) (db : Db) (state : SessionState)
    : Type 0 where
  created :
      (r : SessionRow)
      → find_session db e.session_id ≡ none
      → new_session env m e db ≡ ok r
      → state ≡ advance (draft_state e r) e
      → Given env m e db state
  loaded :
      (r : SessionRow) (after : Db) (s : SessionState)
      → find_session db e.session_id ≡ some r
      → lazy_expiry env m r db ≡ some after
      → reconstruct_session_state env.services after e.session_id ≡ some s
      → state ≡ advance s e
      → Given env m e db state

-- One row is added to the log: its envelope is verified, the reducer accepts it in the session's
-- state, and no event of its actor had its sequence number.
pub record IsAuthentic (env : Env) (m : Moment) (body : Members) (db out : Db) : Type 0 where
  pub v : VerifiedEnvelope
  pub session : String
  pub people : Dict String
  pub state : SessionState
  pub passes : IsVerified env.crypto env.key_of body session people v
  pub given : Given env m v.envelope db state
  pub stores : Stores env m v.envelope state db out

module _ (env : Env) (m : Moment) (body : Members) where
  abbrev KeptOrAuthentic : Db → Db → Type 0
  KeptOrAuthentic db out = (out.session_events ≡ db.session_events) ⊎ IsAuthentic env m body db out

  lazy_expiry-events :
      (r : SessionRow) (db after : Db)
      → lazy_expiry env m r db ≡ some after
      → after.session_events ≡ db.session_events
  unfolding lazy_expiry
  lazy_expiry-events r db after h =
      ground (arith, (node_command_keeps env.services m.expiry r.session_id "mark_expired" db).0)

  sender_events :
      (session : String) (people : Dict String) (db : Db)
      → find_session db session ≡ none
      → KeptOrAuthentic db (verify_step env m false body session people db).1
  sender_events session people db gone = elim (verify_events env m body false session people db) [
    | inl same ↦ inl same
    | inr (v, passes, inl same) ↦ inl same
    | inr (v, passes, inr (state, (r, new, given), stores)) ↦ inr (record {
      v = v;
      session = session;
      people = people;
      state = state;
      passes = passes;
      given = created r (rw passes.same_session gone) new given;
      stores = stores;
    })
  ]

  unknown_events :
      (session actor agent : String) (db : Db)
      → find_session db session ≡ none
      → KeptOrAuthentic db (unknown_session env m body session actor agent db).1
  unfolding unknown_session
  unknown_events session actor agent db gone = elim (Bool-cases (has_kind body task_request)) [
    | inr no_request ↦ rw no_request (inl refl)
    | inl asks ↦ elim (Bool-cases (is_some (env.key_of actor))) [
      | inr unpaired ↦ rw (asks, unpaired) (inl refl)
      | inl paired ↦ rw (asks, paired) (sender_events session ((actor, agent) ∷ []) db gone)
    ]
  ]

  known_events :
      (r : SessionRow) (session actor agent : String) (db after : Db)
      → find_session db session ≡ some r
      → lazy_expiry env m r db ≡ some after
      → KeptOrAuthentic db (known_session env m body r session actor agent (some after) db).1
  unfolding known_session
  known_events r session actor agent db after found lazy =
      elim (verify_events env m body true session
        (participant_map r (has_kind body acceptance) actor agent) after) [
          | inl same ↦ inl (same ∙ lazy_expiry-events r db after lazy)
          | inr (v, passes, inl same) ↦ inl (same ∙ lazy_expiry-events r db after lazy)
          | inr (v, passes, inr (state, (s, read, given), stores)) ↦ inr (record {
            v = v;
            session = session;
            people = participant_map r (has_kind body acceptance) actor agent;
            state = state;
            passes = passes;
            given = loaded r after s (rw passes.same_session found) lazy read given;
            stores =
                same_log-Stores env m v.envelope state after db _
                  (lazy_expiry-events r db after lazy) stores;
          })
        ]

  session_events :
      (r : SessionRow) (session actor agent : String) (db : Db)
      → find_session db session ≡ some r
      → KeptOrAuthentic db
          (known_session env m body r session actor agent (lazy_expiry env m r db) db).1
  unfolding known_session
  session_events r session actor agent db found = elim (Option-cases (lazy_expiry env m r db)) [
    | inl bad ↦ rw bad (inl refl)
    | inr (after, lazy) ↦ rw lazy (known_events r session actor agent db after found lazy)
  ]

  text_events :
      (session actor agent : String) (db : Db)
      → KeptOrAuthentic db (ingest_texts env m body session actor agent db).1
  unfolding ingest_texts
  text_events session actor agent db = elim (Option-cases (find_session db session)) [
    | inl gone ↦ rw (ingest_texts, gone) (unknown_events session actor agent db gone)
    | inr (r, found) ↦ rw (ingest_texts, found) (session_events r session actor agent db found)
  ]

  pub commit_events : (db : Db) → KeptOrAuthentic db (ingest_to_commit env m body db).1
  unfolding ingest_to_commit
  commit_events db =
      elim (Option-cases (
        three_texts (text_field body "session_id") (text_field body "actor_username")
          (text_field body "actor_agent_id"))) [
            | inl bad ↦ rw (ingest_to_commit, bad) (inl refl)
            | inr ((session, actor, agent), read) ↦
                rw (ingest_to_commit, read) (text_events session actor agent db)
          ]

  -- A call of ingest_envelope that is over with the commit of the session's status or before it, so
  -- every call but those that accept a final result or an artifact that a peer offers, leaves the
  -- log of events as it was, or adds exactly one row at its end. Then the body is an envelope for
  -- the session whose content hash is that of its payload and whose signature holds under the
  -- trusted key of its actor; the reducer accepts it in the state of the session; and no event of
  -- the actor in the session had its sequence number.
  pub stored-IsAuthentic :
      (db : Db)
      → ends (ingest_to_commit env m body db).0 ≡ true
      → ((ingest_to_commit env m body db).1.session_events ≡ db.session_events)
        ⊎ IsAuthentic env m body db (ingest_to_commit env m body db).1
  stored-IsAuthentic db over = commit_events db
