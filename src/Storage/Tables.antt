-- ===== src/Storage/Tables.antt =====
-- Tables of kin-node/kin/storage/migrations.py that the modelled components read and write, with
-- the columns that they read. Rows stand in the order of insertion. A column that may be NULL is an
-- Option. The summary and payload columns of audit_events hold texts for a reader and are left out.
use kin_gateway.Prelude.{ℕ, String, Bool, Option, List, str_eq, any}
use kin_gateway.Json.{Json}
use kin_gateway.Session.Status.{Status}

pub record SessionRow : Type 0 where
  pub session_id : String
  pub initiator_username : String
  pub receiver_username : String
  pub status : Status
  pub sender_agent_id : Option String
  pub receiver_agent_id : Option String
  pub turn_limit : ℕ
  pub updated_at : String
  pub session_type : String
  pub objective : Option String
  pub runtime_budget_seconds : Json
  pub artifact_bytes_budget : Json
  pub cost_budget_estimate : Json
  pub cumulative_artifact_bytes : ℕ
  pub created_at : String
  pub expires_at : Option String

pub record EventRow : Type 0 where
  pub event_id : String
  pub session_id : String
  pub event_order : ℕ
  pub sequence : Option ℕ
  pub actor_username : String
  pub actor_agent_id : Option String
  pub kind : String
  pub visibility : String
  pub payload_json : Option String
  pub signature : Option String
  pub created_at : String

pub record ApprovalRow : Type 0 where
  pub approval_id : String
  pub session_id : String
  pub agent_id : Option String
  pub action_class : String
  pub request_json : Option String
  pub decision : Option String
  pub decided_at : Option String
  pub expires_at : String
  pub consumed_at : Option String

pub record AuditRow : Type 0 where
  pub audit_id : String
  pub correlation_id : String
  pub session_id : Option String
  pub category : String
  pub actor_username : Option String
  pub created_at : String

pub record ContactRow : Type 0 where
  pub username : String
  pub endpoint : Option String
  pub x25519_public_key : Option String
  pub public_key : Option String
  pub fingerprint_verified_at : Option String

-- delivery_state
pub data DeliveryState : Type 0 where
  pending sent_direct relayed rejected_by_peer abandoned out_of_time : DeliveryState

pub record QueueRow : Type 0 where
  pub queue_id : String
  pub session_id : String
  pub sequence : ℕ
  pub recipient_username : String
  pub envelope_json_enc : String
  pub delivery_state : DeliveryState
  pub attempt_count : ℕ
  pub next_retry_at : String
  pub last_error : Option String
  pub updated_at : String

pub record ArtifactRow : Type 0 where
  pub artifact_id : String
  pub session_id : String
  pub sha256 : String
  pub mime_type : String
  pub bytes_encrypted : String
  pub metadata_json : String
  pub offered_by : String
  pub created_at : String

-- status: 'fresh' or 'stale'
pub data CardStatus : Type 0 where
  fresh_card stale_card : CardStatus

pub record PeerCardRow : Type 0 where
  pub peer_username : String
  pub agent_id : String
  pub card_json : String
  pub content_hash : String
  pub status : CardStatus
  pub first_seen_at : String
  pub last_seen_at : String

-- `identity` is the username of the one row that the identity table has, if it has one.
pub record Db : Type 0 where
  pub identity : Option String
  pub contacts : List ContactRow
  pub sessions : List SessionRow
  pub session_events : List EventRow
  pub approvals : List ApprovalRow
  pub audit_events : List AuditRow
  pub outbound_envelope_queue : List QueueRow
  pub artifacts : List ArtifactRow
  pub peer_agent_cards : List PeerCardRow

-- A session row with the id exists, as the foreign keys ask.
unfoldable pub has_session : Db → String → Bool
has_session db id = any (λ (r : SessionRow). str_eq r.session_id id) db.sessions
