-- ===== src/Transport/Queue/Retry.antt =====
-- retry_outbound_queue of kin-node/kin/transport/v11.py: one sweep over the due envelopes.
use kin_gateway.Prelude.{
  str_le, ℕ, ◌+◌, ◌*◌, String, Bool, true, false, ◌&&◌, Option, none, some, List, [], ◌∷◌, str_eq,
  ltb, leb, ◌==◌, if◌then◌else◌, or_else, keep, update_where, truthy, truthy?, Result, ok, err,
}
use kin_gateway.Json.{Json}
use kin_gateway.Session.Reconstruct.{find_session}
use kin_gateway.Session.Status.{is_terminal_state}
use kin_gateway.Storage.Services.{Services, Stamp, decrypt_field}
use kin_gateway.Storage.Tables.{
  SessionRow, DeliveryState, pending, sent_direct, relayed, rejected_by_peer, abandoned,
  out_of_time, QueueRow, Db,
}
use kin_gateway.Transport.Queue.Backoff.{backoff_seconds}
use kin_gateway.Transport.Queue.Contacts.{ContactInfo, resolve_peer_contact_info}
use kin_gateway.Transport.Transitions.{apply_node_command_transition}

-- An HTTP answer with its status and text, an httpx.RequestError, or another exception.
pub data PostReply : Type 0 where
  replied : ℕ → String → PostReply
  request_error : String → PostReply
  crashed : PostReply

-- What the sweep uses of other code. `post` is POST {endpoint}/v1.1/sessions with an envelope.
-- `relay` encrypts an envelope for a recipient's key and posts it to the recipient's mailbox; it is
-- there where the caller gives a relay, a username and a private key.
pub record Courier : Type 0 where
  pub services : Services
  pub instant_of : String → Option ℕ
  pub retry_text : ℕ → String
  pub from_hex : String → Option String
  pub public_key : String → Option String
  pub post : String → Json → PostReply
  pub relay : Option (String → String → Json → PostReply)

pub record SweepTime : Type 0 where
  pub now : ℕ
  pub now_str : String
  pub stamp : Stamp

pub record Counts : Type 0 where
  pub delivered_count : ℕ
  pub failed_count : ℕ

-- An exception ends the sweep.
pub data SweepFault : Type 0 where
  sweep_raised : SweepFault

-- UPDATE outbound_envelope_queue SET … WHERE queue_id = ?
unfoldable pub update_queue : String → (QueueRow → QueueRow) → Db → Db
update_queue id f db = record db {
  outbound_envelope_queue =
      update_where (λ (r : QueueRow). str_eq r.queue_id id) f db.outbound_envelope_queue;
}

unfoldable pub set_delivery : DeliveryState → String → String → Db → Db
unfolding update_queue
set_delivery state id now =
    update_queue id (λ r. record r { delivery_state = state; updated_at = now })

unfoldable pub set_error : String → String → String → Db → Db
unfolding update_queue
set_error error id now =
    update_queue id (λ r. record r { last_error = some error; updated_at = now })

-- How far the delivery of one envelope got.
pub data Delivery : Type 0 where
  arrived_at : Delivery
  turned_down : Delivery
  not_sent : Delivery
  broke_off : Delivery

unfoldable pub node_command : Courier → SweepTime → QueueRow → String → Db → Db
unfolding apply_node_command_transition
node_command c t q command db =
    (apply_node_command_transition c.services t.stamp q.session_id command db).1

unfoldable pub direct_reply : Courier → SweepTime → QueueRow → PostReply → Db → Delivery × Db
unfolding set_delivery set_error node_command
direct_reply c t q (replied code answer_text) db =
    if code == 200
    then (
      arrived_at,
      node_command c t q "mark_delivered" (set_delivery sent_direct q.queue_id t.now_str db),
    )
    else if leb 400 code && ltb code 500
    then (
      turned_down,
      node_command c t q "mark_failed" (
          update_queue q.queue_id
            (λ r. record r {
              delivery_state = rejected_by_peer;
              last_error = some answer_text;
              updated_at = t.now_str;
            })
            db),
    )
    else (not_sent, db)
direct_reply c t q (request_error e) db = (not_sent, set_error e q.queue_id t.now_str db)
direct_reply c t q crashed db = (broke_off, db)

unfoldable pub try_direct :
    Courier → SweepTime → QueueRow → Json → Option String → Db → Delivery × Db
unfolding direct_reply
try_direct c t q envelope endpoint db =
    if truthy? endpoint
    then direct_reply c t q (c.post (or_else endpoint "") envelope) db
    else (not_sent, db)

unfoldable pub relay_reply : SweepTime → QueueRow → PostReply → Db → Delivery × Db
unfolding set_delivery set_error
relay_reply t q (replied code answer_text) db =
    if code == 200
    then (arrived_at, set_delivery relayed q.queue_id t.now_str db)
    else (not_sent, db)
relay_reply t q (request_error e) db = (not_sent, set_error e q.queue_id t.now_str db)
relay_reply t q crashed db = (broke_off, db)

unfoldable pub relay_with :
    SweepTime
    → QueueRow
    → Json
    → Option (String → String → Json → PostReply)
    → Option String
    → Db
    → Delivery × Db
unfolding relay_reply
relay_with t q envelope (some send) (some key) db =
    if truthy key
    then relay_reply t q (send q.recipient_username key envelope) db
    else (not_sent, db)
relay_with t q envelope _ _ db = (not_sent, db)

-- The relay is tried where the direct post did not arrive.
unfoldable pub try_relay :
    Courier → SweepTime → QueueRow → Json → Option String → Delivery × Db → Delivery × Db
unfolding relay_with
try_relay c t q envelope key (not_sent, db) = relay_with t q envelope c.relay key db
try_relay c t q envelope key (d, db) = (d, db)

-- Both ways, one after the other.
unfoldable pub send_envelope :
    Courier → SweepTime → QueueRow → Json → ContactInfo → Db → Delivery × Db
unfolding try_relay try_direct
send_envelope c t q envelope info db =
    try_relay c t q envelope info.x25519 (try_direct c t q envelope info.endpoint db)

-- The attempt is counted and the next one is put off.
unfoldable pub postpone : Courier → SweepTime → QueueRow → Db → Db
unfolding update_queue backoff_seconds
postpone c t q db =
    let attempts = q.attempt_count + 1 in
    update_queue q.queue_id
      (λ r. record r {
        attempt_count = attempts;
        next_retry_at = c.retry_text (t.now + backoff_seconds attempts * 1_000_000);
        updated_at = t.now_str;
      })
      db

unfoldable pub after_send :
    Courier → SweepTime → QueueRow → Counts → Delivery × Db → Result SweepFault Counts × Db
unfolding postpone
after_send c t q n (arrived_at, db) =
    (ok (record n { delivered_count = n.delivered_count + 1 }), db)
after_send c t q n (turned_down, db) = (ok (record n { failed_count = n.failed_count + 1 }), db)
after_send c t q n (not_sent, db) = (ok n, postpone c t q db)
after_send c t q n (broke_off, db) = (err sweep_raised, db)

-- json.loads(decrypt_field(vault_key, enc_json))
unfoldable pub opened : Services → String → Option Json
unfolding decrypt_field
opened sv token = elim (decrypt_field sv (some token)) [
  | some (some plain) ↦ sv.loads plain
  | _ ↦ none
]

unfoldable pub dispatch :
    Courier
    → SweepTime
    → QueueRow
    → Counts
    → Option Json
    → Option ContactInfo
    → Db
    → Result SweepFault Counts × Db
unfolding after_send send_envelope
dispatch c t q n (some envelope) (some info) db =
    after_send c t q n (send_envelope c t q envelope info db)
dispatch c t q n _ _ db = (err sweep_raised, db)

-- Whether the session's time is over; `none` is an exception.
unfoldable pub time_is_over : Courier → SweepTime → Option String → Option Bool
time_is_over c t expires =
    if truthy? expires
    then elim (c.instant_of (or_else expires "")) [ none ↦ none | some e ↦ some (leb e t.now) ]
    else some false

unfoldable pub sweep_live :
    Courier → SweepTime → QueueRow → Counts → Option Bool → Db → Result SweepFault Counts × Db
unfolding set_delivery node_command dispatch opened resolve_peer_contact_info
sweep_live c t q n none db = (err sweep_raised, db)
sweep_live c t q n (some true) db =
    (ok n, node_command c t q "mark_expired" (set_delivery out_of_time q.queue_id t.now_str db))
sweep_live c t q n (some false) db =
    dispatch c t q n (opened c.services q.envelope_json_enc)
      (resolve_peer_contact_info c.from_hex c.public_key db q.recipient_username) db

-- The session's present status is a terminal one.
unfoldable pub is_over : Option SessionRow → Bool
unfolding is_terminal_state
is_over none = false
is_over (some r) = is_terminal_state r.status

-- The body of the loop, for a row and the expiry of its session when the sweep began.
unfoldable pub sweep_row :
    Courier → SweepTime → QueueRow × Option String → Counts → Db → Result SweepFault Counts × Db
unfolding sweep_live time_is_over is_over find_session set_delivery
sweep_row c t (q, expires) n db =
    if is_over (find_session db q.session_id)
    then (ok n, set_delivery abandoned q.queue_id t.now_str db)
    else sweep_live c t q n (time_is_over c t expires) db

unfoldable pub sweep_rows :
    Courier
    → SweepTime
    → List (QueueRow × Option String)
    → Result SweepFault Counts × Db
    → Result SweepFault Counts × Db
unfolding sweep_row
sweep_rows c t [] (r, db) = (r, db)
sweep_rows c t (q ∷ qs) (err f, db) = (err f, db)
sweep_rows c t (q ∷ qs) (ok n, db) = sweep_rows c t qs (sweep_row c t q n db)

is_pending : DeliveryState → Bool
is_pending pending = true
is_pending _ = false

-- delivery_state = 'pending' AND next_retry_at <= ?
unfoldable pub is_due : SweepTime → QueueRow → Bool
unfolding is_pending str_le
is_due t q = is_pending q.delivery_state && str_le q.next_retry_at t.now_str

-- The join with the sessions.
unfoldable pub with_expiry : Db → List QueueRow → List (QueueRow × Option String)
unfolding find_session
with_expiry db [] = []
with_expiry db (q ∷ qs) =
    let rest = with_expiry db qs in
    elim (find_session db q.session_id) [ none ↦ rest | some r ↦ (q, r.expires_at) ∷ rest ]

unfoldable pub retry_outbound_queue : Courier → SweepTime → Db → Result SweepFault Counts × Db
unfolding sweep_rows with_expiry is_due
retry_outbound_queue c t db =
    sweep_rows c t (with_expiry db (keep (is_due t) db.outbound_envelope_queue))
      (ok (record { delivered_count = 0; failed_count = 0 }), db)
