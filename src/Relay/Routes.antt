-- ===== src/Relay/Routes.antt =====
-- kin-relay/kin_relay/routes.py. `now` is the clock in microseconds.
use Prim.Native.String.{◌++◌ as concat}
use kin_gateway.Prelude.{
  str_lt, str_le, ℕ, ◌+◌, ◌-◌, String, Bool, false, not, ◌&&◌, ◌||◌, Option, none, some, List, [],
  ◌∷◌, ◌++◌, map, str_eq, ltb, ◌==◌, if◌then◌else◌, is_some, length, is_empty, keep, find_first,
  update_where, truthy, Result, ok, err,
}
use kin_gateway.Relay.Model.{
  Entry, Mail, RelayDb, RegisterRequest, LookupResponse, InboxMessage, Externals, Headers,
  HttpError, bad_request, unauthorized, not_found, conflict_key,
}

unfoldable pub find_entry : String → RelayDb → Option Entry
find_entry user db = find_first (λ (e : Entry). str_eq e.username user) db.directory

-- The UPDATE of a registered user: the public key stays.
unfoldable pub update_entry : RegisterRequest → Entry → Entry
update_entry body e = record e {
  endpoint = body.endpoint;
  x25519_public_key = body.x25519_public_key;
}

register_found : RegisterRequest → RelayDb → Option Entry → Result HttpError (Unit {0}) × RelayDb
unfolding update_entry
register_found body db none = (
  ok tt,
  record db {
    directory =
        db.directory
        ++ record {
          username = body.username;
          public_key = body.public_key;
          x25519_public_key = body.x25519_public_key;
          endpoint = body.endpoint;
        }
          ∷ [];
  },
)
register_found body db (some e) =
    if not (str_eq e.public_key body.public_key) then (err conflict_key, db) else (
      ok tt,
      record db {
        directory =
            update_where (λ (x : Entry). str_eq x.username body.username) (update_entry body)
              db.directory;
      },
    )

unfoldable pub register_endpoint : RegisterRequest → RelayDb → Result HttpError (Unit {0}) × RelayDb
unfolding register_found
register_endpoint body db = register_found body db (find_entry body.username db)

unfoldable pub lookup_endpoint : String → RelayDb → Result HttpError LookupResponse
lookup_endpoint user db = elim (find_entry user db) [
  | none ↦ err not_found
  | some e ↦ ok (record {
    public_key = e.public_key;
    x25519_public_key = e.x25519_public_key;
    endpoint = e.endpoint;
  })
]

-- timedelta(days=7)
abbrev pub retention : ℕ
retention = 604_800_000_000

unfoldable pub new_mail : Externals → ℕ → String → String → String → RelayDb → Mail
new_mail ex now user sender blob db = record {
  message_id = db.next_id;
  username = user;
  sender_username = sender;
  encrypted_blob = blob;
  received_at = ex.iso now;
  expires_at = ex.iso (now + retention);
}

unfoldable pub deliver_to_mailbox :
    Externals → ℕ → String → String → String → RelayDb → Result HttpError (Unit {0}) × RelayDb
unfolding new_mail
deliver_to_mailbox ex now user sender blob db =
    if is_some (find_entry user db)
    then (
      ok tt,
      record db {
        mailbox = db.mailbox ++ new_mail ex now user sender blob db ∷ [];
        next_id = db.next_id + 1;
      },
    )
    else (err not_found, db)

-- REPLAY_WINDOW_MINUTES * 60 seconds
abbrev pub replay_window : ℕ
replay_window = 300_000_000

abbrev pub distance : ℕ → ℕ → ℕ
distance a b = (a - b) + (b - a)

-- `signed_message or f"{x_username}:{x_timestamp}"`
message_or : Option String → String → String
message_or none d = d
message_or (some s) d = if truthy s then s else d

verified :
    Externals → String → String → String → Option String → Option Entry → Result HttpError String
unfolding message_or
verified ex user sig stamp message none = err unauthorized
verified ex user sig stamp message (some e) =
    if ex.verify e.public_key sig (message_or message (concat user (concat ":" stamp)))
    then ok user
    else err unauthorized

in_window :
    Externals
    → ℕ
    → String
    → String
    → String
    → Option String
    → RelayDb
    → Option ℕ
    → Result HttpError String
unfolding verified
in_window ex now user sig stamp message db none = err bad_request
in_window ex now user sig stamp message db (some t) =
    if ltb replay_window (distance now t)
    then err unauthorized
    else verified ex user sig stamp message (find_entry user db)

with_headers :
    Externals
    → ℕ
    → Option String
    → RelayDb
    → Option String
    → Option String
    → Option String
    → Result HttpError String
unfolding in_window
with_headers ex now message db none sig stamp = err bad_request
with_headers ex now message db (some user) none stamp = err bad_request
with_headers ex now message db (some user) (some sig) none = err bad_request
with_headers ex now message db (some user) (some sig) (some stamp) =
    in_window ex now user sig stamp message db (ex.parse_time stamp)

unfoldable pub authenticate_inbox_request :
    Externals → ℕ → Headers → Option String → RelayDb → Result HttpError String
unfolding with_headers
authenticate_inbox_request ex now h message db =
    with_headers ex now message db h.x_username h.x_signature h.x_timestamp

-- The rows that the cleanup deletes, and those that the query selects.
unfoldable pub is_stale : String → String → Mail → Bool
is_stale user now m = str_eq m.username user && str_lt m.expires_at now

unfoldable pub is_current : String → String → Mail → Bool
is_current user now m = str_eq m.username user && str_le now m.expires_at

-- ORDER BY received_at ASC
unfoldable pub insert_received : Mail → List Mail → List Mail
insert_received x [] = x ∷ []
insert_received x (m ∷ ms) =
    if str_le x.received_at m.received_at then x ∷ m ∷ ms else m ∷ insert_received x ms

unfoldable pub by_received : List Mail → List Mail
unfolding insert_received
by_received [] = []
by_received (m ∷ ms) = insert_received m (by_received ms)

unfoldable pub to_message : Mail → InboxMessage
to_message m = record {
  message_id = m.message_id;
  sender_username = m.sender_username;
  encrypted_blob = m.encrypted_blob;
}

-- The cleanup is committed only where a message is returned: the handler returns before the commit
-- where none is, and closing the connection rolls the deletion back.
unfoldable pub fetch_rows : String → String → RelayDb → List InboxMessage × RelayDb
fetch_rows user now db =
    let rest = keep (λ m. not (is_stale user now m)) db.mailbox in
    let rows = by_received (keep (is_current user now) rest) in
    if is_empty rows then ([], db) else (map to_message rows, record db { mailbox = rest })

unfoldable pub inbox_of :
    Externals
    → ℕ
    → RelayDb
    → Result HttpError String
    → Result HttpError (List InboxMessage) × RelayDb
inbox_of ex now db (err e) = (err e, db)
inbox_of ex now db (ok user) =
    let (messages, out) = fetch_rows user (ex.iso now) db in (ok messages, out)

unfoldable pub fetch_inbox :
    Externals → ℕ → Headers → RelayDb → Result HttpError (List InboxMessage) × RelayDb
fetch_inbox ex now h db = inbox_of ex now db (authenticate_inbox_request ex now h none db)

id_in : ℕ → List ℕ → Bool
id_in n [] = false
id_in n (x ∷ xs) = n == x || id_in n xs

unfoldable pub is_acked : String → List ℕ → Mail → Bool
unfolding id_in
is_acked user ids m = str_eq m.username user && id_in m.message_id ids

unfoldable pub acked : List ℕ → RelayDb → Result HttpError String → Result HttpError ℕ × RelayDb
acked ids db (err e) = (err e, db)
acked [] db (ok user) = (ok 0, db)
acked ids db (ok user) = (
  ok (length (keep (is_acked user ids) db.mailbox)),
  record db { mailbox = keep (λ m. not (is_acked user ids m)) db.mailbox },
)

shown : Option String → String
shown none = "None"
shown (some s) = s

-- The message that an acknowledgement signs binds its ids.
unfoldable pub ack_message : Externals → Headers → List ℕ → String
unfolding shown
ack_message ex h ids =
    concat (shown h.x_username)
      (concat ":" (concat (shown h.x_timestamp) (concat ":" (ex.ack_text ids))))

-- The answer counts the rows that were deleted.
unfoldable pub acknowledge_inbox :
    Externals → ℕ → Headers → List ℕ → RelayDb → Result HttpError ℕ × RelayDb
acknowledge_inbox ex now h ids db =
    acked ids db (authenticate_inbox_request ex now h (some (ack_message ex h ids)) db)
