-- ===== src/Transport/Ingest/Model.antt =====
-- What ingest_envelope of kin-node/kin/transport/v11.py is given and what it answers
-- (TransportAcknowledgement of kin-node/kin/schemas.py), the participants that it expects, and the
-- lazy expiry of a session.
use kin_gateway.Prelude.{
  get, put, ℕ, String, Bool, true, false, not, ◌&&◌, ◌||◌, Option, none, some, [], str_eq, leb,
  if◌then◌else◌, is_some, or_else, truthy, truthy?, Dict,
}
use kin_gateway.Audit.Writer.{WriterFault}
use kin_gateway.Json.{Json, integer, text, Members, lookup, as_text}
use kin_gateway.Schemas.Encoding.{Crypto}
use kin_gateway.Schemas.Envelope.{VerifyError}
use kin_gateway.Session.Message.{Envelope}
use kin_gateway.Session.State.{ErrorCode, Fault}
use kin_gateway.Session.Status.{is_terminal_state}
use kin_gateway.Storage.Services.{Services, Stamp}
use kin_gateway.Storage.Tables.{SessionRow, Db}
use kin_gateway.Transport.Transitions.{apply_node_command_transition}

-- What the function uses of other code: `key_of` is the argument get_public_key_fn, `lax_int` how
-- pydantic reads an int, `instant_of` is datetime.fromisoformat of a text without its final Z, in
-- UTC, and `expiry_text` the text of an instant that the code gives by isoformat.
pub record Env : Type 0 where
  pub services : Services
  pub crypto : Crypto
  pub key_of : String → Option String
  pub lax_int : Json → Option ℕ
  pub instant_of : String → Option ℕ
  pub expiry_text : ℕ → String

-- The instant of a call in microseconds and as _iso_now writes it, and the stamps of its writes.
pub record Moment : Type 0 where
  pub now : ℕ
  pub now_str : String
  pub expiry : Stamp
  pub check : Stamp
  pub nonce : String
  pub event : Stamp
  pub audit : Stamp

-- error_code
pub data RejectCode : Type 0 where
  session_not_found unpaired_sender sequence_reuse invalid_session_type : RejectCode
  session_state_load_failed rejection_failed : RejectCode
  verification : VerifyError → RejectCode
  reduced : Option ErrorCode → RejectCode

pub data AckStatus : Type 0 where
  ack_delivered : AckStatus
  ack_rejected : RejectCode → AckStatus

pub record Acknowledgement : Type 0 where
  pub envelope_session_id : String
  pub envelope_sequence : ℕ
  pub status : AckStatus
  pub received_at : String
  pub verified_hash : String

pub data IngestFault : Type 0 where
  in_writer : WriterFault → IngestFault
  in_reducer : Fault → IngestFault
  -- pydantic refuses the acknowledgement
  invalid_acknowledgement : IngestFault
  -- an expiry that is no instant, or a value that a column or a text operation refuses
  invalid_value : IngestFault

-- `goes_on` is the point where the code has committed the session's status and goes on with the
-- outcome card of a final result, or with the artifact that a peer offers.
pub data Ingested : Type 0 where
  acknowledged : Acknowledgement → Ingested
  goes_on : Envelope → Ingested
  failed_with : IngestFault → Ingested

-- The call is over with this answer.
unfoldable pub ends : Ingested → Bool
ends (goes_on e) = false
ends _ = true

-- The acknowledgement of an envelope that was read.
unfoldable pub ack_of : Moment → Envelope → AckStatus → Ingested
ack_of m e status = acknowledged (record {
  envelope_session_id = e.session_id;
  envelope_sequence = e.sequence;
  status = status;
  received_at = m.now_str;
  verified_hash = e.content_hash;
})

ack_fields : Moment → String → RejectCode → Option ℕ → Option String → Ingested
ack_fields m session code (some n) (some hash) =
    if leb 1 n
    then acknowledged (record {
      envelope_session_id = session;
      envelope_sequence = n;
      status = ack_rejected code;
      received_at = m.now_str;
      verified_hash = hash;
    })
    else failed_with invalid_acknowledgement
ack_fields m session code _ _ = failed_with invalid_acknowledgement

json_or : Option Json → Json → Json
json_or none d = d
json_or (some v) d = v

-- The rejection of a raw body, which quotes its sequence and its content hash: pydantic refuses a
-- sequence below 1 and a hash that is no text.
unfoldable pub reject_body : Env → Moment → Members → String → RejectCode → Ingested
unfolding ack_fields json_or
reject_body env m body session code =
    ack_fields m session code (env.lax_int (json_or (lookup body "sequence") (integer false 0)))
      (as_text (json_or (lookup body "content_hash") (text "")))

add_agent : String → Option String → Dict String → Dict String
unfolding put
add_agent user none people = people
add_agent user (some agent) people = if truthy agent then put people user agent else people

-- The entry of the actor itself, where it has none.
add_actor : String → String → Dict String → Dict String
unfolding get put
add_actor actor agent people = if is_some (get people actor) then people else put people actor agent

-- participant_map for a session that exists.
unfoldable pub participant_map : SessionRow → Bool → String → String → Dict String
unfolding add_agent add_actor
participant_map r accepts actor agent =
    let initiator = add_agent r.initiator_username r.sender_agent_id [] in
    add_actor actor agent (
      if not accepts || str_eq actor r.initiator_username
      then add_agent r.receiver_username r.receiver_agent_id initiator
      else initiator)

expires_now : Env → Moment → SessionRow → Option Bool
unfolding is_terminal_state
expires_now env m r =
    if truthy? r.expires_at
    then elim (env.instant_of (or_else r.expires_at "")) [
      | none ↦ none
      | some t ↦ some (leb t m.now && not (is_terminal_state r.status))
    ]
    else some false

-- The session expires when an envelope comes after its time; `none` is an exception.
unfoldable pub lazy_expiry : Env → Moment → SessionRow → Db → Option Db
unfolding expires_now apply_node_command_transition
lazy_expiry env m r db = elim (expires_now env m r) [
  | none ↦ none
  | some false ↦ some db
  | some true ↦
      some (apply_node_command_transition env.services m.expiry r.session_id "mark_expired" db).1
]
