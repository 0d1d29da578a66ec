-- ===== src/Audit/Duplicates.antt =====
-- Redelivery: an event that was appended is recognised by its actor and sequence number
-- (append_session_event and check_sequence_conflict of kin-node/kin/audit/writer.py).
use kin_gateway.Prelude.{
  ℕ, String, ◌≡◌, refl, sym, ◌∙◌, ◌≢◌, inl, inr, true, Option, some, [], ◌∷◌, ◌++◌, arith, str_eq,
  eq_refl, if◌then◌else◌, Option-cases, find_first_snoc, find_first, ok,
}
use kin_gateway.Audit.Order.{check_free}
use kin_gateway.Audit.Writer.{
  Payload, absent, raw, value, canonical_payload_hash, payload_text, write_audit_event,
  has_sequence, existing_payload, check_found, check_sequence_conflict, next_order, Appended,
  appended, was_duplicate, sequence_reuse_mismatch, NewEvent, event_row, insert_event, after_check,
  append_checked, append_session_event,
}
use kin_gateway.Json.{Json}
use kin_gateway.Storage.Services.{Services, Stamp, decrypt_field-encrypt_field}
use kin_gateway.Storage.Tables.{EventRow, Db}

-- A payload and the string that is stored for it have one hash, where the JSON codec reads back
-- what it wrote for it.
hash_of_stored :
    (sv : Services) (p : Payload)
    → ((j : Json) → p ≡ value j → sv.loads (sv.dumps j) ≡ some j)
    → canonical_payload_hash sv (existing_payload (payload_text sv p)) ≡ canonical_payload_hash sv p
unfolding canonical_payload_hash payload_text existing_payload
hash_of_stored sv absent codec = refl
hash_of_stored sv (raw s) codec = refl
hash_of_stored sv (value j) codec = rw (codec j refl)

insert_appends :
    (sv : Services) (st audit : Stamp) (ev : NewEvent) (db after : Db) (id : String) (o : ℕ)
    → insert_event sv st audit ev db ≡ (ok (appended id o), after)
    → (id ≡ st.uuid)
      × (after.session_events
          ≡ db.session_events
            ++ event_row sv st ev (next_order db.session_events ev.session_id) ∷ [])
unfolding insert_event write_audit_event
insert_appends sv st audit ev db after id o h = ground arith

found_not_appended :
    (sv : Services) (st audit : Stamp) (ev : NewEvent) (db after : Db) (r : EventRow) (id : String)
    (o : ℕ)
    → after_check sv st audit ev
        (check_found sv audit ev.session_id ev.actor_username ev.payload db (some r))
      ≢ (ok (appended id o), after)
unfolding after_check check_found
found_not_appended sv st audit ev db after r id o h = ground arith

row_has_sequence :
    (sv : Services) (st : Stamp) (ev : NewEvent) (n o : ℕ)
    → ev.sequence ≡ some n
    → has_sequence ev.session_id ev.actor_username n (event_row sv st ev o) ≡ true
unfolding has_sequence event_row
row_has_sequence sv st ev n o h = ground (arith, eq_refl ev.session_id, eq_refl ev.actor_username)

-- An appended event is the one that its actor and sequence number lead to.
appended_found :
    (sv : Services) (st audit : Stamp) (ev : NewEvent) (db after : Db) (id : String) (o n : ℕ)
    → append_checked sv st audit ev (some n) db ≡ (ok (appended id o), after)
    → ev.sequence ≡ some n
    → (id ≡ st.uuid)
      × (find_first (has_sequence ev.session_id ev.actor_username n) after.session_events
          ≡ some (event_row sv st ev (next_order db.session_events ev.session_id)))
unfolding append_checked check_sequence_conflict
appended_found sv st audit ev db after id o n h e =
    elim (Option-cases
      (find_first (has_sequence ev.session_id ev.actor_username n) db.session_events)) [
        | inr (r, found) ↦
            absurd (found_not_appended sv st audit ev db after r id o (rw found at h))
        | inl free ↦
            let inserted = rw (check_free sv st audit ev db) at (rw free at h) in
            let (same_id, rows) = insert_appends sv st audit ev db after id o inserted in
            (
              same_id,
              rw rows (
                  find_first_snoc (has_sequence ev.session_id ev.actor_username n) db.session_events
                    (event_row sv st ev (next_order db.session_events ev.session_id)) free
                    (row_has_sequence sv st ev n (next_order db.session_events ev.session_id) e)),
            )
      ]

abbrev pub redelivered : Services → Payload → Payload → String → Appended
redelivered sv again first id =
    if str_eq (canonical_payload_hash sv again) (canonical_payload_hash sv first)
    then was_duplicate id
    else sequence_reuse_mismatch

found_outcome :
    (sv : Services) (st st' audit' : Stamp) (ev again : NewEvent) (after : Db) (o : ℕ)
    → ((j : Json) → ev.payload ≡ value j → sv.loads (sv.dumps j) ≡ some j)
    → let out = after_check sv st' audit' again (
        check_found sv audit' again.session_id again.actor_username again.payload after
          (some (event_row sv st ev o))) in
      (out.0 ≡ ok (redelivered sv again.payload ev.payload st.uuid))
      × (out.1.session_events ≡ after.session_events)
unfolding after_check check_found event_row write_audit_event
found_outcome sv st st' audit' ev again after o codec =
    rw (decrypt_field-encrypt_field sv st.nonce (payload_text sv ev.payload))
      (ground (arith, hash_of_stored sv ev.payload codec))

append_at :
    (sv : Services) (st audit : Stamp) (ev : NewEvent) (db : Db) (s : Option ℕ)
    → ev.sequence ≡ s
    → append_session_event sv st audit ev db ≡ append_checked sv st audit ev s db
unfolding append_session_event
append_at sv st audit ev db s e = λ i. append_checked sv st audit ev (e i) db

checked_found :
    (sv : Services) (st audit : Stamp) (ev : NewEvent) (db : Db) (n : ℕ) (r : EventRow)
    → find_first (has_sequence ev.session_id ev.actor_username n) db.session_events ≡ some r
    → append_checked sv st audit ev (some n) db
      ≡ after_check sv st audit ev
          (check_found sv audit ev.session_id ev.actor_username ev.payload db (some r))
unfolding append_checked check_sequence_conflict
checked_found sv st audit ev db n r q = λ i.
    after_check sv st audit ev
      (check_found sv audit ev.session_id ev.actor_username ev.payload db (q i))

-- Once an event with a sequence number was appended, a call with its session, actor and sequence
-- number adds nothing to the log: it reports the duplicate of that event if the two payloads have
-- one canonical hash, and the misuse of the sequence number if not. The JSON codec is to read back
-- what it wrote for the event's payload.
pub redelivery :
    (sv : Services) (st audit st' audit' : Stamp) (ev again : NewEvent) (db after : Db)
    (id : String) (o n : ℕ)
    → ((j : Json) → ev.payload ≡ value j → sv.loads (sv.dumps j) ≡ some j)
    → append_session_event sv st audit ev db ≡ (ok (appended id o), after)
    → ev.sequence ≡ some n
    → again.sequence ≡ some n
    → again.session_id ≡ ev.session_id
    → again.actor_username ≡ ev.actor_username
    → ((append_session_event sv st' audit' again after).0
        ≡ ok (redelivered sv again.payload ev.payload id))
      × ((append_session_event sv st' audit' again after).1.session_events ≡ after.session_events)
redelivery sv st audit st' audit' ev again db after id o n codec h e e' session actor =
    let first = sym (append_at sv st audit ev db (some n) e) ∙ h in
    let (same_id, found) = appended_found sv st audit ev db after id o n first e in
    let order = next_order db.session_events ev.session_id in
    let hit : find_first (has_sequence again.session_id again.actor_username n) after.session_events
        ≡ some (event_row sv st ev order) =
      rw (session, actor) found in
    rw (append_at sv st' audit' again after (some n) e') (
      rw (checked_found sv st' audit' again after n (event_row sv st ev order) hit)
        (rw same_id (found_outcome sv st st' audit' ev again after order codec)))
