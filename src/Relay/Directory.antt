-- ===== src/Relay/Directory.antt =====
-- Names in the directory are permanent (register_endpoint of kin-relay/kin_relay/routes.py).
use mathlib.Core.Option
use kin_gateway.Prelude.{
  ℕ, String, ◌≡◌, refl, ◌≢◌, inl, inr, Option, none, some, List, [], ◌∷◌, ◌++◌, arith, str_eq,
  eq_iff, Option-cases, find_first, update_where, Result, ok, err,
}
use kin_gateway.Relay.Machine.{
  Request, register, look_up, deliver, fetch, acknowledge, serve, serve_all,
}
use kin_gateway.Relay.Model.{
  Entry, RelayDb, RegisterRequest, LookupResponse, Externals, HttpError, conflict_key,
}
use kin_gateway.Relay.Routes.{
  find_entry, update_entry, register_endpoint, lookup_endpoint, deliver_to_mailbox,
  authenticate_inbox_request, fetch_rows, inbox_of, fetch_inbox, acked, ack_message,
  acknowledge_inbox,
}

-- The key that the directory lists for a user.
abbrev key_in : String → List Entry → Option String
key_in user es =
    Option.map (λ (e : Entry). e.public_key) (find_first (λ (x : Entry). str_eq x.username user) es)

update_keeps_keys :
    (body : RegisterRequest) (name user : String) (es : List Entry)
    → key_in user (update_where (λ (x : Entry). str_eq x.username name) (update_entry body) es)
      ≡ key_in user es
unfolding update_entry
update_keeps_keys body name user [] = refl
update_keeps_keys body name user (x ∷ xs) = ground (arith, update_keeps_keys body name user xs)

append_keeps_key :
    (user k : String) (es : List Entry) (x : Entry)
    → key_in user es ≡ some k
    → key_in user (es ++ x ∷ []) ≡ some k
append_keeps_key user k [] x h = cc
append_keeps_key user k (e ∷ es) x h = ground (arith, append_keeps_key user k es x)

register_keeps_key :
    (body : RegisterRequest) (user k : String) (db : RelayDb)
    → key_in user db.directory ≡ some k
    → key_in user (register_endpoint body db).1.directory ≡ some k
unfolding register_endpoint
register_keeps_key body user k db h = elim (Option-cases (find_entry body.username db)) [
  | inl missing ↦ rw missing (
      append_keeps_key user k db.directory
        (record {
          username = body.username;
          public_key = body.public_key;
          x25519_public_key = body.x25519_public_key;
          endpoint = body.endpoint;
        })
        h)
  | inr (e, found) ↦
      rw found (ground (arith, update_keeps_keys body body.username user db.directory))
]

inbox_directory :
    (ex : Externals) (now : ℕ) (db : RelayDb) (who : Result HttpError String)
    → (inbox_of ex now db who).1.directory ≡ db.directory
unfolding inbox_of fetch_rows
inbox_directory ex now db (err e) = refl
inbox_directory ex now db (ok user) = ground arith

acked_directory :
    (ids : List ℕ) (db : RelayDb) (who : Result HttpError String)
    → (acked ids db who).1.directory ≡ db.directory
unfolding acked
acked_directory [] db (err e) = refl
acked_directory (n ∷ ns) db (err e) = refl
acked_directory [] db (ok user) = refl
acked_directory (n ∷ ns) db (ok user) = refl

serve_keeps_key :
    (ex : Externals) (db : RelayDb) (r : Request) (user k : String)
    → key_in user db.directory ≡ some k
    → key_in user (serve ex db r).directory ≡ some k
unfolding serve deliver_to_mailbox fetch_inbox acknowledge_inbox
serve_keeps_key ex db (register body) user k h = register_keeps_key body user k db h
serve_keeps_key ex db (look_up who) user k h = h
serve_keeps_key ex db (deliver now who sender blob) user k h = ground arith
serve_keeps_key ex db (fetch now headers) user k h =
    rw (inbox_directory ex now db (authenticate_inbox_request ex now headers none db)) h
serve_keeps_key ex db (acknowledge now headers ids) user k h =
    rw
      (acked_directory ids db
        (authenticate_inbox_request ex now headers (some (ack_message ex headers ids)) db))
      h

run_keeps_key :
    (ex : Externals) (db : RelayDb) (rs : List Request) (user k : String)
    → key_in user db.directory ≡ some k
    → key_in user (serve_all ex db rs).directory ≡ some k
unfolding serve_all
run_keeps_key ex db [] user k h = h
run_keeps_key ex db (r ∷ rs) user k h =
    run_keeps_key ex (serve ex db r) rs user k (serve_keeps_key ex db r user k h)

listed_key :
    (user : String) (db : RelayDb) (found : LookupResponse)
    → lookup_endpoint user db ≡ ok found
    → key_in user db.directory ≡ some found.public_key
unfolding lookup_endpoint find_entry
listed_key user db found h = ground arith

lookup_of_key :
    (user k : String) (db : RelayDb)
    → key_in user db.directory ≡ some k
    → (found : LookupResponse) × (lookup_endpoint user db ≡ ok found) × (found.public_key ≡ k)
unfolding lookup_endpoint find_entry
lookup_of_key user k db h =
    elim (Option-cases (find_first (λ (x : Entry). str_eq x.username user) db.directory)) [
      | inl missing ↦ absurd (ground (arith, missing))
      | inr (e, there) ↦ (
        record {
          public_key = e.public_key;
          x25519_public_key = e.x25519_public_key;
          endpoint = e.endpoint;
        },
        ground (arith, there),
        ground (arith, there),
      )
    ]

-- Once the directory lists a public key for a user, it lists that key for that user after any
-- sequence of requests.
pub key_is_permanent :
    (ex : Externals) (db : RelayDb) (rs : List Request) (user : String) (found : LookupResponse)
    → lookup_endpoint user db ≡ ok found
    → (later : LookupResponse) × (lookup_endpoint user (serve_all ex db rs) ≡ ok later)
      × (later.public_key ≡ found.public_key)
key_is_permanent ex db rs user found h =
    lookup_of_key user found.public_key (serve_all ex db rs)
      (run_keeps_key ex db rs user found.public_key (listed_key user db found h))

-- A second key for a registered user is refused, and changes nothing.
pub other_key_refused :
    (body : RegisterRequest) (db : RelayDb) (found : LookupResponse)
    → lookup_endpoint body.username db ≡ ok found
    → body.public_key ≢ found.public_key
    → register_endpoint body db ≡ (err conflict_key, db)
unfolding lookup_endpoint register_endpoint
other_key_refused body db found h ne = elim (Option-cases (find_entry body.username db)) [
  | inl missing ↦ absurd (ground (arith, missing))
  | inr (e, there) ↦ ground (arith, there, eq_iff e.public_key body.public_key)
]
