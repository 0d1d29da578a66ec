-- ===== src/Relay/Examples.antt =====
-- The relay on a small directory, and its theorems at concrete inputs.
use kin_gateway.Prelude.{
  str_lt, str_le, ℕ, ◌≤◌, String, ◌≡◌, refl, ◌⊎◌, true, false, none, some, List, [], ◌∷◌, Memᴰ,
  arith, str_eq, leb, if◌then◌else◌, ok,
}
use kin_gateway.Relay.Delivery.{delivered_is_shown}
use kin_gateway.Relay.Directory.{key_is_permanent}
use kin_gateway.Relay.Inbox.{inbox_is_own}
use kin_gateway.Relay.Machine.{register, deliver, fetch, acknowledge, serve, serve_all}
use kin_gateway.Relay.Mailbox.{Removes, mail_stays}
use kin_gateway.Relay.Model.{
  Entry, Mail, RelayDb, RegisterRequest, LookupResponse, InboxMessage, Externals, Headers,
}
use kin_gateway.Relay.Routes.{
  find_entry, lookup_endpoint, new_mail, deliver_to_mailbox, authenticate_inbox_request, is_stale,
  is_current, insert_received, by_received, to_message, fetch_rows, inbox_of, fetch_inbox,
}

abbrev noon : String
noon = "2026-07-23T12:00:00+00:00"

abbrev a_week_on : String
a_week_on = "2026-07-30T12:00:00+00:00"

-- A clock with two texts.
abbrev clock_text : ℕ → String
clock_text n = if leb n 1_000_000 then noon else a_week_on

noon_first : (str_le noon a_week_on ≡ true) × (str_lt a_week_on noon ≡ false)
unfolding str_le str_lt
noon_first = (refl, refl)

noon_self : (str_le noon noon ≡ true) × (str_lt noon noon ≡ false)
unfolding str_le str_lt
noon_self = (refl, refl)

week_self : (str_le a_week_on a_week_on ≡ true) × (str_lt a_week_on a_week_on ≡ false)
unfolding str_le str_lt
week_self = (refl, refl)

clock_ordered :
    (a b : ℕ)
    → a ≤ b
    → (str_le (clock_text a) (clock_text b) ≡ true) × (str_lt (clock_text b) (clock_text a) ≡ false)
clock_ordered a b h = ground (arith, noon_first, noon_self, week_self)

abbrev sample_externals : Externals
sample_externals = record {
  iso = clock_text;
  parse_time = λ s. some 500;
  verify = λ key sig signed. str_eq sig key;
  ack_text = λ ids. "[1]";
  iso-ordered = clock_ordered;
}

abbrev ana_entry : Entry
ana_entry = record {
  username = "ana";
  public_key = "k1";
  x25519_public_key = "x1";
  endpoint = "https://ana.example";
}

abbrev old_mail : Mail
old_mail = record {
  message_id = 1;
  username = "ana";
  sender_username = "bo";
  encrypted_blob = "blob1";
  received_at = noon;
  expires_at = noon;
}

abbrev sample_relay : RelayDb
sample_relay = record { directory = ana_entry ∷ []; mailbox = old_mail ∷ []; next_id = 2 }

abbrev empty_relay : RelayDb
empty_relay = record { directory = ana_entry ∷ []; mailbox = []; next_id = 2 }

abbrev ana_headers : Headers
ana_headers = record { x_username = some "ana"; x_signature = some "k1"; x_timestamp = some noon }

abbrev ana_found : LookupResponse
ana_found = record { public_key = "k1"; x25519_public_key = "x1"; endpoint = "https://ana.example" }

abbrev other_key : RegisterRequest
other_key = record {
  username = "ana";
  public_key = "k2";
  x25519_public_key = "x2";
  endpoint = "https://ana.example";
}

ana_listed : lookup_endpoint "ana" sample_relay ≡ ok ana_found
unfolding lookup_endpoint find_entry
ana_listed = refl

key_is_permanent_example :
    (later : LookupResponse) × (lookup_endpoint "ana" (
        serve_all sample_externals sample_relay
          (register other_key ∷ deliver 100 "ana" "bo" "blob2" ∷ fetch 100 ana_headers ∷ []))
      ≡ ok later)
    × (later.public_key ≡ "k1")
key_is_permanent_example =
    key_is_permanent sample_externals sample_relay
      (register other_key ∷ deliver 100 "ana" "bo" "blob2" ∷ fetch 100 ana_headers ∷ []) "ana"
      ana_found ana_listed

mail_stays_example :
    Memᴰ old_mail
      (serve sample_externals sample_relay (acknowledge 100 ana_headers (7 ∷ []))).mailbox
    ⊎ Removes sample_externals sample_relay old_mail (acknowledge 100 ana_headers (7 ∷ []))
mail_stays_example =
    mail_stays sample_externals sample_relay (acknowledge 100 ana_headers (7 ∷ [])) old_mail
      (Memᴰ.head refl)

ana_fetches :
    fetch_inbox sample_externals 100 ana_headers sample_relay
    ≡ (ok (to_message old_mail ∷ []), sample_relay)
unfolding fetch_inbox inbox_of authenticate_inbox_request fetch_rows is_stale is_current by_received
    insert_received to_message find_entry str_lt str_le
ana_fetches = refl

inbox_is_own_example :
    (m : Mail) × Memᴰ m sample_relay.mailbox
    × (to_message m ≡ to_message old_mail)
    × (authenticate_inbox_request sample_externals 100 ana_headers none sample_relay
        ≡ ok m.username)
    × (str_le noon m.expires_at ≡ true)
inbox_is_own_example =
    inbox_is_own sample_externals 100 ana_headers sample_relay sample_relay
      (to_message old_mail ∷ []) (to_message old_mail) ana_fetches (Memᴰ.head refl)

abbrev queued : RelayDb
queued = record {
  directory = ana_entry ∷ [];
  mailbox = new_mail sample_externals 100 "ana" "bo" "blob2" empty_relay ∷ [];
  next_id = 3;
}

bo_delivers :
    deliver_to_mailbox sample_externals 100 "ana" "bo" "blob2" empty_relay ≡ (ok tt, queued)
unfolding deliver_to_mailbox find_entry
bo_delivers = refl

ana_authenticated :
    authenticate_inbox_request sample_externals 2_000_000 ana_headers none queued ≡ ok "ana"
unfolding authenticate_inbox_request find_entry
ana_authenticated = refl

delivered_is_shown_example :
    (messages : List InboxMessage) × ((fetch_inbox sample_externals 2_000_000 ana_headers queued).0
      ≡ ok messages)
    × Memᴰ (to_message (new_mail sample_externals 100 "ana" "bo" "blob2" empty_relay)) messages
delivered_is_shown_example =
    delivered_is_shown sample_externals 100 2_000_000 "ana" "bo" "blob2" ana_headers empty_relay
      queued bo_delivers ana_authenticated (omega arith)

-- At the later time the old message has expired, and nothing is shown.
expired_fetch :
    fetch_inbox sample_externals 2_000_000 ana_headers sample_relay ≡ (ok [], sample_relay)
unfolding fetch_inbox inbox_of authenticate_inbox_request fetch_rows is_stale is_current by_received
    find_entry str_lt str_le
expired_fetch = refl
