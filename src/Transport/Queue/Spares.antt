-- ===== src/Transport/Queue/Spares.antt =====
-- An attempt to deliver one envelope leaves the other rows of the queue alone
-- (retry_outbound_queue of kin-node/kin/transport/v11.py).
use kin_gateway.Prelude.{
  String, ◌≢◌, inl, inr, Bool, true, false, ◌&&◌, Option, none, some, List, [], ◌∷◌, Memᴰ, arith,
  str_eq, eq_iff, ltb, leb, ◌==◌, Bool-cases, or_else, update_where, truthy, truthy?,
}
use kin_gateway.Json.{Json}
use kin_gateway.Session.Reconstruct.{find_session}
use kin_gateway.Storage.Tables.{QueueRow, Db}
use kin_gateway.Transport.Queue.Contacts.{ContactInfo, resolve_peer_contact_info}
use kin_gateway.Transport.Queue.Retry.{
  PostReply, replied, request_error, crashed, Courier, SweepTime, Counts, update_queue,
  set_delivery, set_error, Delivery, arrived_at, turned_down, not_sent, broke_off, node_command,
  direct_reply, try_direct, relay_reply, relay_with, try_relay, send_envelope, postpone, after_send,
  opened, dispatch, time_is_over, sweep_live, is_over, sweep_row,
}
use kin_gateway.Transport.Transitions.{node_command_keeps}

-- The rows with another id keep their place in the table.
abbrev pub Spares : String → Db → Db → Type 0
Spares id db out =
    (q : QueueRow)
    → q.queue_id ≢ id
    → Memᴰ q db.outbound_envelope_queue
    → Memᴰ q out.outbound_envelope_queue

update_spares :
    (id : String) (f : QueueRow → QueueRow) (rows : List QueueRow) (q : QueueRow)
    → q.queue_id ≢ id
    → Memᴰ q rows
    → Memᴰ q (update_where (λ (r : QueueRow). str_eq r.queue_id id) f rows)
update_spares id f [] q differs m = elim m [ ]
update_spares id f (r ∷ rs) q differs (Memᴰ.head e) = elim (Bool-cases (str_eq r.queue_id id)) [
  | inl same ↦ absurd (ground (arith, e, eq_iff r.queue_id id))
  | inr other_id ↦ rw other_id (Memᴰ.head e)
]
update_spares id f (r ∷ rs) q differs (Memᴰ.tail m) = Memᴰ.tail (update_spares id f rs q differs m)

update_queue-Spares :
    (id : String) (f : QueueRow → QueueRow) (db : Db) → Spares id db (update_queue id f db)
unfolding update_queue
update_queue-Spares id f db q differs m = update_spares id f db.outbound_envelope_queue q differs m

module _ (c : Courier) (t : SweepTime) (q : QueueRow) where
  node_command-Spares :
      (command : String) (before db : Db)
      → Spares q.queue_id before db
      → Spares q.queue_id before (node_command c t q command db)
  unfolding node_command
  node_command-Spares command before db h =
      rw (node_command_keeps c.services t.stamp q.session_id command db).1 h

  direct_reply-Spares : (r : PostReply) (db : Db) → Spares q.queue_id db (direct_reply c t q r db).1
  unfolding direct_reply set_delivery set_error
  direct_reply-Spares crashed db = λ p d m. m
  direct_reply-Spares (request_error e) db = update_queue-Spares q.queue_id _ db
  direct_reply-Spares (replied code answer_text) db = elim (Bool-cases (code == 200)) [
    | inl good ↦
        rw good (node_command-Spares "mark_delivered" db _ (update_queue-Spares q.queue_id _ db))
    | inr bad ↦ elim (Bool-cases (leb 400 code && ltb code 500)) [
      | inl down ↦
          rw (bad, down)
            (node_command-Spares "mark_failed" db _ (update_queue-Spares q.queue_id _ db))
      | inr up ↦ rw (bad, up) (λ p d m. m)
    ]
  ]

  try_direct-Spares :
      (envelope : Json) (endpoint : Option String) (db : Db)
      → Spares q.queue_id db (try_direct c t q envelope endpoint db).1
  unfolding try_direct
  try_direct-Spares envelope endpoint db = elim (Bool-cases (truthy? endpoint)) [
    | inl there ↦ rw there (direct_reply-Spares (c.post (or_else endpoint "") envelope) db)
    | inr gone ↦ rw gone (λ p d m. m)
  ]

  relay_reply-Spares : (r : PostReply) (db : Db) → Spares q.queue_id db (relay_reply t q r db).1
  unfolding relay_reply set_delivery set_error
  relay_reply-Spares crashed db = λ p d m. m
  relay_reply-Spares (request_error e) db = update_queue-Spares q.queue_id _ db
  relay_reply-Spares (replied code answer_text) db = elim (Bool-cases (code == 200)) [
    | inl good ↦ rw good (update_queue-Spares q.queue_id _ db)
    | inr bad ↦ rw bad (λ p d m. m)
  ]

  relay_with-Spares :
      (envelope : Json) (send : Option (String → String → Json → PostReply)) (key : Option String)
      (db : Db)
      → Spares q.queue_id db (relay_with t q envelope send key db).1
  unfolding relay_with
  relay_with-Spares envelope none key db = λ p d m. m
  relay_with-Spares envelope (some send) none db = λ p d m. m
  relay_with-Spares envelope (some send) (some key) db = elim (Bool-cases (truthy key)) [
    | inl there ↦ rw there (relay_reply-Spares (send q.recipient_username key envelope) db)
    | inr gone ↦ rw gone (λ p d m. m)
  ]

  try_relay-Spares :
      (envelope : Json) (key : Option String) (before : Db) (d : Delivery × Db)
      → Spares q.queue_id before d.1
      → Spares q.queue_id before (try_relay c t q envelope key d).1
  unfolding try_relay
  try_relay-Spares envelope key before (arrived_at, db) h = h
  try_relay-Spares envelope key before (turned_down, db) h = h
  try_relay-Spares envelope key before (broke_off, db) h = h
  try_relay-Spares envelope key before (not_sent, db) h =
      λ p d m. relay_with-Spares envelope c.relay key db p d (h p d m)

  after_send-Spares :
      (n : Counts) (before : Db) (d : Delivery × Db)
      → Spares q.queue_id before d.1
      → Spares q.queue_id before (after_send c t q n d).1
  unfolding after_send postpone
  after_send-Spares n before (arrived_at, db) h = h
  after_send-Spares n before (turned_down, db) h = h
  after_send-Spares n before (broke_off, db) h = h
  after_send-Spares n before (not_sent, db) h =
      λ p d m. update_queue-Spares q.queue_id _ db p d (h p d m)

  dispatch-Spares :
      (n : Counts) (envelope : Option Json) (info : Option ContactInfo) (db : Db)
      → Spares q.queue_id db (dispatch c t q n envelope info db).1
  unfolding dispatch send_envelope
  dispatch-Spares n none info db = λ p d m. m
  dispatch-Spares n (some envelope) none db = λ p d m. m
  dispatch-Spares n (some envelope) (some info) db = after_send-Spares n db _ (
      try_relay-Spares envelope info.x25519 db (try_direct c t q envelope info.endpoint db)
        (try_direct-Spares envelope info.endpoint db))

  sweep_live-Spares :
      (n : Counts) (over : Option Bool) (db : Db)
      → Spares q.queue_id db (sweep_live c t q n over db).1
  unfolding sweep_live set_delivery
  sweep_live-Spares n none db = λ p d m. m
  sweep_live-Spares n (some true) db =
      node_command-Spares "mark_expired" db _ (update_queue-Spares q.queue_id _ db)
  sweep_live-Spares n (some false) db =
      dispatch-Spares n (opened c.services q.envelope_json_enc)
        (resolve_peer_contact_info c.from_hex c.public_key db q.recipient_username) db

  pub sweep_row-Spares :
      (expires : Option String) (n : Counts) (db : Db)
      → Spares q.queue_id db (sweep_row c t (q, expires) n db).1
  unfolding sweep_row set_delivery
  sweep_row-Spares expires n db = elim (Bool-cases (is_over (find_session db q.session_id))) [
    | inl over ↦ rw (sweep_row, over) (update_queue-Spares q.queue_id _ db)
    | inr live ↦ rw (sweep_row, live) (sweep_live-Spares n (time_is_over c t expires) db)
  ]
