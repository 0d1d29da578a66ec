-- ===== src/Transport/Ingest/Pipeline.antt =====
-- The steps of ingest_envelope of kin-node/kin/transport/v11.py. A body whose session_id,
-- actor_username or actor_agent_id is no text is outside the model, as `invalid_value`: its call
-- raises, or is rejected by the check of the fields.
use kin_gateway.Prelude.{
  String, Bool, true, false, not, Option, none, some, [], ◌∷◌, if◌then◌else◌, is_some, Dict, Result,
  ok, err,
}
use kin_gateway.Audit.Writer.{
  value, Conflict, new_sequence, duplicate, conflict, WriterFault, check_sequence_conflict,
}
use kin_gateway.Json.{object, Members, lookup, as_text}
use kin_gateway.Schemas.Envelope.{
  VerifyError, text_of, is_text_value, VerifiedEnvelope, verify_and_build_envelope,
}
use kin_gateway.Session.Message.{MessageKind, task_request, acceptance, kind_value, Envelope}
use kin_gateway.Session.Reconstruct.{find_session}
use kin_gateway.Storage.Tables.{SessionRow, Db}
use kin_gateway.Transport.Ingest.Model.{
  Env, Moment, session_not_found, unpaired_sender, sequence_reuse, verification, ack_delivered,
  ack_rejected, in_writer, invalid_value, Ingested, failed_with, ack_of, reject_body,
  participant_map, lazy_expiry,
}
use kin_gateway.Transport.Ingest.Store.{state_step}

-- Step 2.
unfoldable pub after_conflict :
    Env → Moment → Bool → Envelope → Result WriterFault Conflict × Db → Ingested × Db
unfolding ack_of state_step
after_conflict env m known e (err f, db) = (failed_with (in_writer f), db)
after_conflict env m known e (ok new_sequence, db) = state_step env m known e db
after_conflict env m known e (ok (duplicate id), db) = (ack_of m e ack_delivered, db)
after_conflict env m known e (ok (conflict id), db) = (ack_of m e (ack_rejected sequence_reuse), db)

unfoldable pub conflict_step : Env → Moment → Bool → Envelope → Db → Ingested × Db
unfolding after_conflict check_sequence_conflict
conflict_step env m known e db = after_conflict env m known e (
    check_sequence_conflict env.services m.check e.session_id e.actor_username e.sequence
      (value (object e.payload)) db)

unfoldable pub after_verify :
    Env
    → Moment
    → Bool
    → Members
    → String
    → Result VerifyError VerifiedEnvelope
    → Db
    → Ingested × Db
unfolding reject_body conflict_step
after_verify env m known body session (err x) db =
    (reject_body env m body session (verification x), db)
after_verify env m known body session (ok v) db = conflict_step env m known v.envelope db

-- Step 1.
unfoldable pub verify_step :
    Env → Moment → Bool → Members → String → Dict String → Db → Ingested × Db
unfolding after_verify verify_and_build_envelope
verify_step env m known body session people db =
    after_verify env m known body session
      (verify_and_build_envelope env.crypto env.key_of body session people) db

unfoldable pub has_kind : Members → MessageKind → Bool
unfolding is_text_value kind_value
has_kind body k = is_text_value (lookup body "kind") (kind_value k)

unfoldable pub unknown_session :
    Env → Moment → Members → String → String → String → Db → Ingested × Db
unfolding has_kind reject_body verify_step
unknown_session env m body session actor agent db =
    if not (has_kind body task_request)
    then (reject_body env m body session session_not_found, db)
    else if not (is_some (env.key_of actor))
    then (reject_body env m body session unpaired_sender, db)
    else verify_step env m false body session ((actor, agent) ∷ []) db

unfoldable pub known_session :
    Env → Moment → Members → SessionRow → String → String → String → Option Db → Db → Ingested × Db
unfolding has_kind participant_map verify_step
known_session env m body r session actor agent none db = (failed_with invalid_value, db)
known_session env m body r session actor agent (some after) db =
    verify_step env m true body session (participant_map r (has_kind body acceptance) actor agent)
      after

unfoldable pub ingest_texts : Env → Moment → Members → String → String → String → Db → Ingested × Db
unfolding unknown_session known_session lazy_expiry find_session
ingest_texts env m body session actor agent db = elim (find_session db session) [
  | none ↦ unknown_session env m body session actor agent db
  | some r ↦ known_session env m body r session actor agent (lazy_expiry env m r db) db
]

-- body.get(key, "")
unfoldable pub text_field : Members → String → Option String
unfolding text_of
text_field body key = elim (lookup body key) [ none ↦ some "" | some v ↦ as_text v ]

unfoldable pub three_texts :
    Option String → Option String → Option String → Option (String × String × String)
three_texts (some a) (some b) (some c) = some (a, b, c)
three_texts _ _ _ = none

unfoldable pub ingest_to_commit : Env → Moment → Members → Db → Ingested × Db
unfolding ingest_texts three_texts text_field
ingest_to_commit env m body db =
    elim (three_texts (text_field body "session_id") (text_field body "actor_username")
      (text_field body "actor_agent_id")) [
        | none ↦ (failed_with invalid_value, db)
        | some (session, actor, agent) ↦ ingest_texts env m body session actor agent db
      ]
