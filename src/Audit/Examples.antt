-- ===== src/Audit/Examples.antt =====
-- Two appends to a log, and the theorems about the log at concrete inputs.
use kin_gateway.Prelude.{String, ◌≡◌, refl, none, some, [], ◌∷◌, ok}
use kin_gateway.Audit.Duplicates.{redelivered, redelivery}
use kin_gateway.Audit.Order.{IsLog, append-IsLog}
use kin_gateway.Audit.Writer.{
  value, write_audit_event, has_sequence, check_found, check_sequence_conflict, next_order,
  is_event_kind, event_is_valid, appended, NewEvent, insert_event, after_check, append_checked,
  append_session_event,
}
use kin_gateway.Json.{Json, null, text}
use kin_gateway.Session.Status.{active}
use kin_gateway.Storage.Services.{Services, Stamp}
use kin_gateway.Storage.Tables.{SessionRow, Db, has_session}

abbrev greeting : Json
greeting = text "hello"

abbrev sample_services : Services
sample_services = record {
  sha256 = λ s. s;
  loads = λ s. some greeting;
  dumps = λ j. "\"hello\"";
  seal = λ nonce plain. plain;
  unseal = λ token. some token;
  unseal-seal = λ nonce plain. refl;
}

abbrev stamp_of : String → Stamp
stamp_of id = record { uuid = id; now = "2026-07-23T12:00:00Z"; nonce = "n" }

abbrev sample_session : SessionRow
sample_session = record {
  session_id = "s1";
  initiator_username = "ana";
  receiver_username = "bo";
  status = active;
  sender_agent_id = some "a1";
  receiver_agent_id = some "b1";
  turn_limit = 12;
  updated_at = "2026-07-23T12:00:00Z";
  session_type = "ask";
  objective = none;
  runtime_budget_seconds = null;
  artifact_bytes_budget = null;
  cost_budget_estimate = null;
  cumulative_artifact_bytes = 0;
  created_at = "2026-07-23T12:00:00Z";
  expires_at = none;
}

abbrev empty_log : Db
empty_log = record {
  identity = some "ana";
  contacts = [];
  outbound_envelope_queue = [];
  artifacts = [];
  peer_agent_cards = [];
  sessions = sample_session ∷ [];
  session_events = [];
  approvals = [];
  audit_events = [];
}

abbrev hello_event : NewEvent
hello_event = record {
  session_id = "s1";
  actor_username = "ana";
  actor_agent_id = some "a1";
  kind = "question";
  visibility = "peer_visible";
  payload = value greeting;
  signature = none;
  sequence = some 1;
}

abbrev logged : Db
logged =
    (append_session_event sample_services (stamp_of "e1") (stamp_of "x1") hello_event empty_log).1

hello_appended :
    append_session_event sample_services (stamp_of "e1") (stamp_of "x1") hello_event empty_log
    ≡ (ok (appended "e1" 0), logged)
unfolding append_session_event append_checked check_sequence_conflict check_found after_check
    insert_event event_is_valid is_event_kind has_session next_order has_sequence write_audit_event
hello_appended = refl

append-IsLog_example :
    IsLog
      (append_session_event sample_services
        (stamp_of "e1")
        (stamp_of "x1")
        hello_event
        empty_log).1.session_events
append-IsLog_example =
    append-IsLog sample_services (stamp_of "e1") (stamp_of "x1") hello_event empty_log tt

redelivery_example :
    ((append_session_event sample_services (stamp_of "e2") (stamp_of "x2") hello_event logged).0
      ≡ ok (redelivered sample_services (value greeting) (value greeting) "e1"))
    × ((append_session_event sample_services
          (stamp_of "e2")
          (stamp_of "x2")
          hello_event
          logged).1.session_events
        ≡ logged.session_events)
redelivery_example =
    redelivery sample_services (stamp_of "e1") (stamp_of "x1") (stamp_of "e2") (stamp_of "x2")
      hello_event hello_event empty_log logged "e1" 0 1 (λ j e. cc e) hello_appended refl refl refl
      refl
