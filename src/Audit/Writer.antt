-- ===== src/Audit/Writer.antt =====
-- kin-node/kin/audit/writer.py.
use Prim.Native.String.{◌++◌ as concat}
use kin_gateway.Prelude.{
  ℕ, ◌+◌, max, String, Bool, true, false, not, ◌&&◌, Option, none, some, List, [], ◌∷◌, ◌++◌,
  str_eq, leb, ◌==◌, if◌then◌else◌, or_else, find_first, truthy?, str_in, Result, ok, err,
}
use kin_gateway.Json.{Json}
use kin_gateway.Storage.Services.{Services, Stamp, encrypt_field, decrypt_field}
use kin_gateway.Storage.Tables.{EventRow, Db, has_session}

-- The `payload` argument: None, a string, or any other JSON value.
pub data Payload : Type 0 where
  absent : Payload
  raw : String → Payload
  value : Json → Payload

unfoldable pub canonical_payload_hash : Services → Payload → String
canonical_payload_hash sv absent = ""
canonical_payload_hash sv (raw s) = elim (sv.loads s) [
  | some v ↦ sv.sha256 (sv.dumps v)
  | none ↦ sv.sha256 s
]
canonical_payload_hash sv (value v) = sv.sha256 (sv.dumps v)

-- payload_str
unfoldable pub payload_text : Services → Payload → Option String
payload_text sv absent = none
payload_text sv (raw s) = some s
payload_text sv (value v) = some (sv.dumps v)

-- `correlation_id or session_id or audit_id`
correlation : Option String → Option String → String → String
correlation cid session audit =
    if truthy? cid
    then or_else cid audit
    else if truthy? session
    then or_else session audit
    else audit

unfoldable pub write_audit_event :
    Stamp → String → Option String → Option String → Option String → Db → Db
unfolding correlation
write_audit_event st category session actor cid db = record db {
  audit_events =
      db.audit_events
      ++ record {
        audit_id = st.uuid;
        correlation_id = correlation cid session st.uuid;
        session_id = session;
        category = category;
        actor_username = actor;
        created_at = st.now;
      }
        ∷ [];
}

pub data Conflict : Type 0 where
  new_sequence : Conflict
  duplicate : String → Conflict
  conflict : String → Conflict

sequence_is : Option ℕ → ℕ → Bool
sequence_is none n = false
sequence_is (some m) n = m == n

-- The WHERE clause of the lookup.
unfoldable pub has_sequence : String → String → ℕ → EventRow → Bool
unfolding sequence_is
has_sequence session actor n r =
    str_eq r.session_id session && str_eq r.actor_username actor && sequence_is r.sequence n

unfoldable pub existing_payload : Option String → Payload
existing_payload none = absent
existing_payload (some s) = raw s

pub data WriterFault : Type 0 where
  decrypt_error : WriterFault
  invalid_event : WriterFault
  integrity_error : WriterFault

unfoldable pub compare_payloads :
    Services
    → Stamp
    → String
    → String
    → Payload
    → Db
    → String
    → Option (Option String)
    → Result WriterFault Conflict × Db
unfolding canonical_payload_hash existing_payload
compare_payloads sv st session actor payload db id none = (err decrypt_error, db)
compare_payloads sv st session actor payload db id (some saved) =
    if str_eq (canonical_payload_hash sv payload)
      (canonical_payload_hash sv (existing_payload saved))
    then (
      ok (duplicate id),
      write_audit_event st "duplicate_delivery" (some session) (some actor) (some session) db,
    )
    else (
      ok (conflict id),
      write_audit_event st "security_rejection" (some session) (some actor) (some session) db,
    )

unfoldable pub check_found :
    Services
    → Stamp
    → String
    → String
    → Payload
    → Db
    → Option EventRow
    → Result WriterFault Conflict × Db
unfolding compare_payloads decrypt_field
check_found sv st session actor payload db none = (ok new_sequence, db)
check_found sv st session actor payload db (some r) =
    compare_payloads sv st session actor payload db r.event_id (decrypt_field sv r.payload_json)

unfoldable pub check_sequence_conflict :
    Services → Stamp → String → String → ℕ → Payload → Db → Result WriterFault Conflict × Db
unfolding check_found has_sequence
check_sequence_conflict sv st session actor n payload db =
    check_found sv st session actor payload db
      (find_first (has_sequence session actor n) db.session_events)

-- COALESCE(MAX(event_order), -1) + 1 over the rows of the session
unfoldable pub next_order : List EventRow → String → ℕ
next_order [] session = 0
next_order (r ∷ rs) session =
    let rest = next_order rs session in
    if str_eq r.session_id session then max (r.event_order + 1) rest else rest

-- The kinds that SessionEvent accepts: MessageKind and InternalEventKind.
unfoldable pub is_event_kind : String → Bool
is_event_kind kind = str_in kind (
    "task_request" ∷ "acceptance" ∷ "decline" ∷ "clarification" ∷ "plan" ∷ "proposal"
    ∷ "counterproposal" ∷ "finding" ∷ "question" ∷ "answer" ∷ "artifact_offer" ∷ "artifact_accept"
    ∷ "approval_request" ∷ "approval_decision" ∷ "status_event" ∷ "final_result" ∷ "cancel"
    ∷ "participant_changed" ∷ "message" ∷ "envelope_received" ∷ "public_msg" ∷ "private_note"
    ∷ "outbound_envelope_queued" ∷ "activity" ∷ "adapter_error" ∷ "checkpoint" ∷ "decision"
    ∷ "outcome" ∷ "rerun_created" ∷ [])

sequence_valid : Option ℕ → Bool
sequence_valid none = true
sequence_valid (some n) = leb 1 n

-- SessionEvent.model_validate(event_data)
unfoldable pub event_is_valid : String → String → Option ℕ → Bool
unfolding is_event_kind sequence_valid
event_is_valid kind visibility sequence =
    is_event_kind kind
    && str_in visibility ("peer_visible" ∷ "local_only" ∷ [])
    && sequence_valid sequence

pub data Appended : Type 0 where
  appended : String → ℕ → Appended
  was_duplicate : String → Appended
  sequence_reuse_mismatch : Appended

-- The arguments of append_session_event.
pub record NewEvent : Type 0 where
  pub session_id : String
  pub actor_username : String
  pub actor_agent_id : Option String
  pub kind : String
  pub visibility : String
  pub payload : Payload
  pub signature : Option String
  pub sequence : Option ℕ

unfoldable pub event_row : Services → Stamp → NewEvent → ℕ → EventRow
unfolding encrypt_field payload_text
event_row sv st ev order = record {
  event_id = st.uuid;
  session_id = ev.session_id;
  event_order = order;
  sequence = ev.sequence;
  actor_username = ev.actor_username;
  actor_agent_id = ev.actor_agent_id;
  kind = ev.kind;
  visibility = ev.visibility;
  payload_json = encrypt_field sv st.nonce (payload_text sv ev.payload);
  signature = ev.signature;
  created_at = st.now;
}

-- The rest of append_session_event, after the check of the sequence number. The insertion fails
-- where the foreign key to the session does.
unfoldable pub insert_event :
    Services → Stamp → Stamp → NewEvent → Db → Result WriterFault Appended × Db
insert_event sv st audit ev db =
    let order = next_order db.session_events ev.session_id in
    if not (event_is_valid ev.kind ev.visibility ev.sequence)
    then (err invalid_event, db)
    else if not (has_session db ev.session_id)
    then (err integrity_error, db)
    else (
      ok (appended st.uuid order),
      write_audit_event audit (concat "session_event_" ev.kind) (some ev.session_id)
          (some ev.actor_username) (some ev.session_id)
          (record db { session_events = db.session_events ++ event_row sv st ev order ∷ [] }),
    )

unfoldable pub after_check :
    Services
    → Stamp
    → Stamp
    → NewEvent
    → Result WriterFault Conflict × Db
    → Result WriterFault Appended × Db
after_check sv st audit ev (err f, db) = (err f, db)
after_check sv st audit ev (ok new_sequence, db) = insert_event sv st audit ev db
after_check sv st audit ev (ok (duplicate id), db) = (ok (was_duplicate id), db)
after_check sv st audit ev (ok (conflict id), db) = (ok sequence_reuse_mismatch, db)

unfoldable pub append_checked :
    Services → Stamp → Stamp → NewEvent → Option ℕ → Db → Result WriterFault Appended × Db
unfolding after_check check_sequence_conflict
append_checked sv st audit ev none db = insert_event sv st audit ev db
append_checked sv st audit ev (some n) db =
    after_check sv st audit ev
      (check_sequence_conflict sv audit ev.session_id ev.actor_username n ev.payload db)

-- `st` stamps the event, `audit` the audit row.
unfoldable pub append_session_event :
    Services → Stamp → Stamp → NewEvent → Db → Result WriterFault Appended × Db
unfolding append_checked
append_session_event sv st audit ev db = append_checked sv st audit ev ev.sequence db
