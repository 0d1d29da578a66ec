-- ===== src/Relay/Model.antt =====
-- Tables and messages of kin-relay/kin_relay/db.py and models.py, and what the relay takes from
-- other packages. Rows stand in the order of insertion; the default registration time is not read.
use kin_gateway.Prelude.{str_lt, str_le, ℕ, ◌≤◌, String, ◌≡◌, Bool, true, false, Option, List}

pub record Entry : Type 0 where
  pub username : String
  pub public_key : String
  pub x25519_public_key : String
  pub endpoint : String

pub record Mail : Type 0 where
  pub message_id : ℕ
  pub username : String
  pub sender_username : String
  pub encrypted_blob : String
  pub received_at : String
  pub expires_at : String

-- `next_id` is what AUTOINCREMENT gives next.
pub record RelayDb : Type 0 where
  pub directory : List Entry
  pub mailbox : List Mail
  pub next_id : ℕ

pub record RegisterRequest : Type 0 where
  pub username : String
  pub public_key : String
  pub x25519_public_key : String
  pub endpoint : String

pub record LookupResponse : Type 0 where
  pub public_key : String
  pub x25519_public_key : String
  pub endpoint : String

pub record InboxMessage : Type 0 where
  pub message_id : ℕ
  pub sender_username : String
  pub encrypted_blob : String

-- datetime (times count microseconds), Ed25519 over hexadecimal keys and signatures, and the JSON
-- text of an acknowledgement. `parse_time` reads a time with no zone as UTC.
pub record Externals : Type 0 where
  pub iso : ℕ → String
  pub parse_time : String → Option ℕ
  pub verify : String → String → String → Bool
  pub ack_text : List ℕ → String
  -- The text of a UTC time does not stand after that of a later one.
  pub iso-ordered :
      (a b : ℕ) → a ≤ b → (str_le (iso a) (iso b) ≡ true) × (str_lt (iso b) (iso a) ≡ false)

-- The identity headers of a request.
pub record Headers : Type 0 where
  pub x_username : Option String
  pub x_signature : Option String
  pub x_timestamp : Option String

-- HTTPException, by its status code.
pub data HttpError : Type 0 where
  bad_request unauthorized not_found conflict_key : HttpError
