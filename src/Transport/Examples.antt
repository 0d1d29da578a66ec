-- ===== src/Transport/Examples.antt =====
-- A session between alice and bob, an envelope of alice's, and the theorems of the receive pipeline
-- at them.
use kin_gateway.Prelude.{
  get, ℕ, ◌*◌, ◌≤◌, String, ◌≡◌, refl, sym, ap, ◌∙◌, ◌↔◌, ◌⊎◌, true, false, none, some, [], ◌∷◌,
  Memᴰ, arith, eq_iff, ok,
}
use kin_gateway.Audit.Order.{IsLog}
use kin_gateway.Audit.Writer.{event_is_valid, event_row, insert_event}
use kin_gateway.Json.{null, integer, text, object, Members, end, member}
use kin_gateway.Schemas.Encoding.{Crypto, urlsafe_b64encode, compute_content_hash}
use kin_gateway.Schemas.Envelope.{
  model_validate, verify_envelope_signature, VerifiedEnvelope, verify_and_build_envelope,
}
use kin_gateway.Schemas.Verification.{IsVerified, IsVerified-iff}
use kin_gateway.Session.Message.{task_request, proposal, Envelope}
use kin_gateway.Session.Reconstruct.{state_of_row, find_session}
use kin_gateway.Session.Reducer.Peer.{
  participant_check, sequence_check, transition_check, turn_limit_hit, accepted_participants,
  accepted_state,
}
use kin_gateway.Session.State.{dumped, SessionState, out_of_order_sequence}
use kin_gateway.Session.Status.{draft, active}
use kin_gateway.Storage.Services.{Services, Stamp}
use kin_gateway.Storage.Tables.{SessionRow, pending, relayed, QueueRow, Db, has_session}
use kin_gateway.Transport.Ingest.Authentic.{IsAuthentic, stored-IsAuthentic}
use kin_gateway.Transport.Ingest.Bootstrap.{draft_row, new_session, insert_session}
use kin_gateway.Transport.Ingest.Drafts.{refused_request_leaves_draft}
use kin_gateway.Transport.Ingest.Log.{ingest_all, all_end, ingest_all-IsLog}
use kin_gateway.Transport.Ingest.Model.{
  Env, Moment, reduced, ack_rejected, ends, ack_of, participant_map,
}
use kin_gateway.Transport.Ingest.Pipeline.{has_kind, text_field, three_texts, ingest_to_commit}
use kin_gateway.Transport.Queue.Backoff.{backoff_seconds, backoff_bounds}
use kin_gateway.Transport.Queue.Retry.{replied, Courier, SweepTime, is_due, retry_outbound_queue}
use kin_gateway.Transport.Queue.Undue.{UniqueIds, undue_rows_stay}

abbrev services : Services
services = record {
  sha256 = λ s. s;
  loads = λ s. some (object end);
  dumps = λ j. "{}";
  seal = λ nonce plain. plain;
  unseal = λ token. some token;
  unseal-seal = λ nonce plain. refl;
}

abbrev hash_43 : String
hash_43 = "AbcdefghijklmnopqrstuvwxyzABCDEFGHIJKLMNO12"

abbrev crypto : Crypto
crypto = record {
  jcs_dumps = λ ms. some "{}";
  sha256_digest = λ s. s;
  b64_body = λ s. hash_43;
  b64_padding = λ s. 1;
  urlsafe_b64decode = λ s. some s;
  ed25519_verify = λ key sig jcs. true;
}

abbrev env : Env
env = record {
  services = services;
  crypto = crypto;
  key_of = λ user. some "6b6579";
  lax_int = λ j. some 1;
  instant_of = λ s. some 1_000;
  expiry_text = λ n. "2026-07-30T12:00:00Z";
}

abbrev stamp_of : String → Stamp
stamp_of id = record { uuid = id; now = "2026-07-23T12:00:00Z"; nonce = "n" }

abbrev moment : Moment
moment = record {
  now = 500;
  now_str = "2026-07-23T12:00:00Z";
  expiry = stamp_of "x1";
  check = stamp_of "x2";
  nonce = "n";
  event = stamp_of "ev1";
  audit = stamp_of "x3";
}

abbrev active_row : SessionRow
active_row = record {
  session_id = "s1";
  initiator_username = "alice";
  receiver_username = "bob";
  status = active;
  sender_agent_id = some "a1";
  receiver_agent_id = some "b1";
  turn_limit = 12;
  updated_at = "2026-07-23T11:00:00Z";
  session_type = "ask";
  objective = none;
  runtime_budget_seconds = null;
  artifact_bytes_budget = null;
  cost_budget_estimate = null;
  cumulative_artifact_bytes = 0;
  created_at = "2026-07-23T11:00:00Z";
  expires_at = some "2026-07-30T11:00:00Z";
}

abbrev bobs_db : Db
bobs_db = record {
  identity = some "bob";
  contacts = [];
  sessions = active_row ∷ [];
  session_events = [];
  approvals = [];
  audit_events = [];
  outbound_envelope_queue = [];
  artifacts = [];
  peer_agent_cards = [];
}

abbrev hello : Members
hello = member "content" (text "hello") end

abbrev proposal_1 : Envelope
proposal_1 = record {
  session_id = "s1";
  sequence = 1;
  actor_username = "alice";
  actor_agent_id = "a1";
  timestamp = "2026-07-23T12:00:00Z";
  kind = proposal;
  content_hash = hash_43;
  payload = hello;
  signature = some "sig";
}

abbrev wire : String → ℕ → Members
wire kind_text n = member "schema_version" (text "1.1") (
    member "protocol_version" (text "1.1") (
      member "session_id" (text "s1") (
        member "sequence" (integer false n) (
          member "actor_username" (text "alice") (
            member "actor_agent_id" (text "a1") (
              member "timestamp" (text "2026-07-23T12:00:00Z") (
                member "kind" (text kind_text) (
                  member "content_hash" (text hash_43)
                    (member "payload" (object hello) (member "signature" (text "sig") end))))))))))

abbrev verified_1 : VerifiedEnvelope
verified_1 = record {
  envelope = proposal_1;
  actor_public_key = "6b6579";
  verified_at = "2026-07-23T12:00:00Z";
}

abbrev active_state : SessionState
active_state = record {
  session_id = "s1";
  initiator_username = "alice";
  receiver_username = "bob";
  status = active;
  current_turn = 0;
  max_turns = 12;
  actor_sequences = [];
  participants =
      ("alice", record { agent_id = "a1"; role = "owner" })
      ∷ ("bob", record { agent_id = "b1"; role = "owner" })
      ∷ [];
  last_resumable_status = none;
  events = [];
}

abbrev state_1 : SessionState
state_1 = record active_state {
  current_turn = 1;
  actor_sequences = ("alice", 1) ∷ [];
  events = dumped proposal_1 ∷ [];
}

IsVerified-iff_example :
    (verify_and_build_envelope crypto env.key_of
        (wire "proposal" 1)
        "s1"
        (participant_map active_row false "alice" "a1")
      ≡ ok verified_1)
    ↔ IsVerified crypto env.key_of
        (wire "proposal" 1)
        "s1"
        (participant_map active_row false "alice" "a1")
        verified_1
IsVerified-iff_example =
    IsVerified-iff crypto env.key_of (wire "proposal" 1)
      (participant_map active_row false "alice" "a1") "s1" verified_1

stored-IsAuthentic_example :
    ((ingest_to_commit env moment (wire "proposal" 1) bobs_db).1.session_events ≡ [])
    ⊎ IsAuthentic env moment
        (wire "proposal" 1)
        bobs_db
        (ingest_to_commit env moment (wire "proposal" 1) bobs_db).1
unfolding ends ingest_to_commit urlsafe_b64encode state_of_row participant_check sequence_check
    transition_check turn_limit_hit accepted_participants insert_event event_is_valid has_session
stored-IsAuthentic_example = stored-IsAuthentic env moment (wire "proposal" 1) bobs_db refl

ingest_all-IsLog_example :
    IsLog
      (ingest_all env
        ((moment, wire "proposal" 1) ∷ (moment, wire "question" 2) ∷ [])
        bobs_db).session_events
unfolding all_end urlsafe_b64encode state_of_row participant_check sequence_check transition_check
    turn_limit_hit accepted_participants insert_event event_is_valid has_session event_row
    accepted_state
ingest_all-IsLog_example =
    ingest_all-IsLog env ((moment, wire "proposal" 1) ∷ (moment, wire "question" 2) ∷ []) bobs_db
      refl tt

abbrev request_2 : Envelope
request_2 = record proposal_1 { sequence = 2; kind = task_request }

abbrev asked_db : Db
asked_db = record bobs_db { sessions = [] }

abbrev verified_2 : VerifiedEnvelope
verified_2 = record verified_1 { envelope = request_2 }

IsVerified-2 :
    IsVerified crypto env.key_of (wire "task_request" 2) "s1" (("alice", "a1") ∷ []) verified_2
unfolding model_validate compute_content_hash verify_envelope_signature urlsafe_b64encode get
IsVerified-2 = record {
  fields = refl;
  same_session = refl;
  hashed = refl;
  participant = refl;
  trusted = refl;
  present = refl;
  signed = refl;
  time = refl;
}

abbrev draft_2 : SessionRow
draft_2 = record active_row {
  status = draft;
  receiver_agent_id = none;
  updated_at = "2026-07-23T12:00:00Z";
  objective = some "";
  created_at = "2026-07-23T12:00:00Z";
  expires_at = some "2026-07-30T12:00:00Z";
}

refused_request_leaves_draft_example :
    ingest_to_commit env moment (wire "task_request" 2) asked_db ≡ (
      ack_of moment request_2 (ack_rejected (reduced (some out_of_order_sequence))),
      insert_session draft_2 asked_db,
    )
unfolding find_session text_field three_texts has_kind new_session draft_row
refused_request_leaves_draft_example =
    refused_request_leaves_draft env moment (wire "task_request" 2) verified_2 "s1" "alice" "a1"
      asked_db draft_2 refl refl refl refl IsVerified-2 refl refl (omega arith) (omega arith)

abbrev courier : Courier
courier = record {
  services = services;
  instant_of = λ s. some 1_000;
  retry_text = λ n. "2026-07-23T12:00:10Z";
  from_hex = λ s. some s;
  public_key = λ s. some s;
  post = λ endpoint envelope. replied 200 "";
  relay = none;
}

abbrev sweep_time : SweepTime
sweep_time = record { now = 500; now_str = "2026-07-23T12:00:00Z"; stamp = stamp_of "x4" }

abbrev waiting : QueueRow
waiting = record {
  queue_id = "q1";
  session_id = "s1";
  sequence = 1;
  recipient_username = "alice";
  envelope_json_enc = "{}";
  delivery_state = pending;
  attempt_count = 0;
  next_retry_at = "2026-07-23T11:59:00Z";
  last_error = none;
  updated_at = "2026-07-23T11:59:00Z";
}

abbrev settled : QueueRow
settled = record waiting { queue_id = "q2"; delivery_state = relayed }

abbrev queue_db : Db
queue_db = record bobs_db { outbound_envelope_queue = waiting ∷ settled ∷ [] }

ids_differ : UniqueIds (waiting ∷ settled ∷ [])
ids_differ a b (Memᴰ.head p) (Memᴰ.head q) same = p ∙ sym q
ids_differ a b (Memᴰ.head p) (Memᴰ.tail (Memᴰ.head q)) same =
    let e : "q1" ≡ "q2" =
      ap (λ (r : QueueRow). r.queue_id) (sym p) ∙ same ∙ ap (λ (r : QueueRow). r.queue_id) q in
    absurd (ground (arith, e, eq_iff "q1" "q2"))
ids_differ a b (Memᴰ.tail (Memᴰ.head p)) (Memᴰ.head q) same =
    let e : "q2" ≡ "q1" =
      ap (λ (r : QueueRow). r.queue_id) (sym p) ∙ same ∙ ap (λ (r : QueueRow). r.queue_id) q in
    absurd (ground (arith, e, eq_iff "q2" "q1"))
ids_differ a b (Memᴰ.tail (Memᴰ.head p)) (Memᴰ.tail (Memᴰ.head q)) same = p ∙ sym q
ids_differ a b (Memᴰ.head p) (Memᴰ.tail (Memᴰ.tail m)) same = elim m [ ]
ids_differ a b (Memᴰ.tail (Memᴰ.head p)) (Memᴰ.tail (Memᴰ.tail m)) same = elim m [ ]
ids_differ a b (Memᴰ.tail (Memᴰ.tail m)) _ same = elim m [ ]

undue_rows_stay_example :
    Memᴰ settled (retry_outbound_queue courier sweep_time queue_db).1.outbound_envelope_queue
unfolding is_due
undue_rows_stay_example =
    undue_rows_stay courier sweep_time queue_db settled ids_differ (Memᴰ.tail (Memᴰ.head refl)) refl

backoff_bounds_example :
    (backoff_seconds 1 ≡ 10)
    × (3 ≤ 8 → backoff_seconds 4 ≡ 2 * backoff_seconds 3)
    × (10 ≤ 3 → backoff_seconds 3 ≡ 3_600)
    × (backoff_seconds 3 ≤ 3_600)
backoff_bounds_example = backoff_bounds 3 (omega arith)
