-- ===== src/Transport/Ingest/Stages.antt =====
-- What the checks and the reducer of ingest_envelope in kin-node/kin/transport/v11.py do to the log.
use kin_gateway.Prelude.{
  String, ◌≡◌, refl, ◌⊎◌, inl, inr, Bool, true, false, Option, none, some, arith, find_first, Dict,
  Result, ok, err,
}
use kin_gateway.Audit.Writer.{
  value, write_audit_event, has_sequence, compare_payloads, check_found, check_sequence_conflict,
}
use kin_gateway.Json.{object, Members}
use kin_gateway.Schemas.Envelope.{VerifyError, VerifiedEnvelope, verify_and_build_envelope}
use kin_gateway.Schemas.Verification.{IsVerified, IsVerified-iff}
use kin_gateway.Session.Message.{Envelope}
use kin_gateway.Session.Reconstruct.{reconstruct_session_state}
use kin_gateway.Session.Reducer.Peer.{process_peer_envelope}
use kin_gateway.Session.State.{SessionState}
use kin_gateway.Storage.Tables.{SessionRow, EventRow, Db}
use kin_gateway.Transport.Ingest.Bootstrap.{draft_state, Ended, new_session, insert_session}
use kin_gateway.Transport.Ingest.Events.{Stores, same_log-Stores, reducer_events}
use kin_gateway.Transport.Ingest.Model.{Env, Moment}
use kin_gateway.Transport.Ingest.Pipeline.{after_conflict, conflict_step, after_verify, verify_step}
use kin_gateway.Transport.Ingest.Store.{
  advance, reduce_envelope, start_session, load_session, state_step,
}

-- The state for the reducer where the session is known, or is not.
abbrev pub StepState : Env → Moment → Envelope → Bool → Db → SessionState → Type 0
StepState env m e false db state =
    (r : SessionRow) × (new_session env m e db ≡ ok r) × (state ≡ advance (draft_state e r) e)
StepState env m e true db state =
    (s : SessionState) × (reconstruct_session_state env.services db e.session_id ≡ some s)
    × (state ≡ advance s e)

abbrev pub Stepped : Env → Moment → Envelope → Bool → Db → Db → Type 0
Stepped env m e known db out =
    (out.session_events ≡ db.session_events)
    ⊎ ((state : SessionState) × StepState env m e known db state × Stores env m e state db out)

module _ (env : Env) (m : Moment) (e : Envelope) where
  start_events :
      (n : Result Ended SessionRow) (db : Db)
      → new_session env m e db ≡ n
      → Stepped env m e false db (start_session env m e n db).1
  unfolding start_session reduce_envelope insert_session
  start_events (err (inl code)) db h = inl refl
  start_events (err (inr fault)) db h = inl refl
  start_events (ok r) db h =
      let state = advance (draft_state e r) e in
      elim (reducer_events env m e state (process_peer_envelope state e) (insert_session r db)
        refl) [
          | inl same ↦ inl same
          | inr new ↦ inr (
            state,
            (r, h, refl),
            same_log-Stores env m e state (insert_session r db) db _ refl new,
          )
        ]

  load_events :
      (o : Option SessionState) (db : Db)
      → reconstruct_session_state env.services db e.session_id ≡ o
      → Stepped env m e true db (load_session env m e o db).1
  unfolding load_session reduce_envelope
  load_events none db h = inl refl
  load_events (some s) db h =
      let state = advance s e in
      elim (reducer_events env m e state (process_peer_envelope state e) db refl) [
        | inl same ↦ inl same
        | inr new ↦ inr (state, (s, h, refl), new)
      ]

  step_events : (known : Bool) (db : Db) → Stepped env m e known db (state_step env m known e db).1
  unfolding state_step
  step_events false db = start_events (new_session env m e db) db refl
  step_events true db = load_events (reconstruct_session_state env.services db e.session_id) db refl

  -- A sequence number that the actor has used adds no event.
  found_events :
      (known : Bool) (r : EventRow) (db : Db)
      → (after_conflict env m known e (
          check_found env.services m.check e.session_id e.actor_username
            (value (object e.payload))
            db
            (some r))).1.session_events
        ≡ db.session_events
  unfolding after_conflict check_found compare_payloads write_audit_event
  found_events known r db = ground arith

  conflict_events :
      (known : Bool) (o : Option EventRow) (db : Db)
      → Stepped env m e known db
          (after_conflict env m known e (
            check_found env.services m.check e.session_id e.actor_username
              (value (object e.payload))
              db
              o)).1
  unfolding after_conflict check_found
  conflict_events known none db = step_events known db
  conflict_events known (some r) db = inl (found_events known r db)

module _ (env : Env) (m : Moment) (body : Members) where
  IsVerified-events :
      (known : Bool) (session : String) (people : Dict String) (db : Db)
      (r : Result VerifyError VerifiedEnvelope)
      → verify_and_build_envelope env.crypto env.key_of body session people ≡ r
      → ((after_verify env m known body session r db).1.session_events ≡ db.session_events)
        ⊎ ((v : VerifiedEnvelope) × IsVerified env.crypto env.key_of body session people v
            × Stepped env m v.envelope known db (after_verify env m known body session r db).1)
  unfolding after_verify conflict_step check_sequence_conflict
  IsVerified-events known session people db (err x) h = inl refl
  IsVerified-events known session people db (ok v) h = inr (
    v,
    (IsVerified-iff env.crypto env.key_of body people session v).0 h,
    conflict_events env m v.envelope known
        (find_first
          (has_sequence v.envelope.session_id v.envelope.actor_username v.envelope.sequence)
          db.session_events)
        db,
  )

  pub verify_events :
      (known : Bool) (session : String) (people : Dict String) (db : Db)
      → ((verify_step env m known body session people db).1.session_events ≡ db.session_events)
        ⊎ ((v : VerifiedEnvelope) × IsVerified env.crypto env.key_of body session people v
            × Stepped env m v.envelope known db (verify_step env m known body session people db).1)
  unfolding verify_step
  verify_events known session people db =
      IsVerified-events known session people db
        (verify_and_build_envelope env.crypto env.key_of body session people) refl
