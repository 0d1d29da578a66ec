-- ===== src/Schemas/Envelope.antt =====
-- SessionEnvelope of kin-node/kin/schemas.py as pydantic reads it from a JSON object, its signature,
-- and verify_and_build_envelope. A trusted contact's public key is its text in hexadecimal.
use kin_gateway.Prelude.{
  get, ℕ, zero, suc, String, Bool, true, false, ◌&&◌, ◌||◌, Option, none, some, List, [], ◌∷◌,
  str_eq, leb, ◌==◌, if◌then◌else◌, codes, truthy, truthy?, str_in, Dict, Result, ok, ◌>>=◌, ◌>>◌,
  ensure, want,
}
use kin_gateway.Json.{Json, null, integer, text, object, Members, end, member, lookup, as_text}
use kin_gateway.Schemas.Encoding.{Crypto, base64url_decode, compute_content_hash}
use kin_gateway.Schemas.Timestamp.{is_timestamp}
use kin_gateway.Session.Message.{MessageKind, kind_of_value, Envelope}

-- The keys of the model, which forbids all others.
abbrev envelope_fields : List String
envelope_fields =
    "schema_version" ∷ "protocol_version" ∷ "session_id" ∷ "sequence" ∷ "actor_username"
    ∷ "actor_agent_id" ∷ "timestamp" ∷ "kind" ∷ "content_hash" ∷ "payload" ∷ "signature" ∷ []

only_fields : List String → Members → Bool
only_fields names end = true
only_fields names (member k v ms) = let rest = only_fields names ms in str_in k names && rest

pub data VerifyError : Type 0 where
  structural_schema_invalid wrong_session payload_canonicalization_failed : VerifyError
  content_hash_mismatch unknown_actor wrong_agent public_key_not_found : VerifyError
  invalid_signature : VerifyError

unfoldable pub text_of : Option Json → Option String
text_of none = none
text_of (some v) = as_text v

unfoldable pub is_text_value : Option Json → String → Bool
unfolding text_of
is_text_value v s = elim (text_of v) [ none ↦ false | some t ↦ str_eq t s ]

-- validate_strict_int_sequence
unfoldable pub sequence_of : Option Json → Option ℕ
sequence_of (some (integer false n)) = if leb 1 n then some n else none
sequence_of _ = none

object_of : Option Json → Option Members
object_of (some (object ms)) = some ms
object_of _ = none

kind_of_text : Option String → Option MessageKind
unfolding kind_of_value
kind_of_text none = none
kind_of_text (some s) = kind_of_value s

-- `str | None = None`: the outer `none` is a value of another type.
signature_of : Option Json → Option (Option String)
signature_of none = some none
signature_of (some null) = some none
signature_of (some (text s)) = some (some s)
signature_of _ = none

timestamp_of : Option String → Option String
unfolding is_timestamp
timestamp_of none = none
timestamp_of (some s) = if is_timestamp s then some s else none

hash_char : ℕ → Bool
hash_char c =
    (leb b'a' c && leb c b'z')
    || (leb b'A' c && leb c b'Z')
    || (leb b'0' c && leb c b'9')
    || c == b'_'
    || c == b'-'

-- `[a-zA-Z0-9_-]{n}$`, where `$` also stands before a line feed at the end.
hash_chars : ℕ → List ℕ → Bool
unfolding hash_char
hash_chars zero [] = true
hash_chars zero (c ∷ []) = c == 10
hash_chars zero (c ∷ d ∷ cs) = false
hash_chars (suc n) [] = false
hash_chars (suc n) (c ∷ cs) = let rest = hash_chars n cs in hash_char c && rest

-- CONTENT_HASH_REGEX
content_hash_of : Option String → Option String
unfolding hash_chars
content_hash_of none = none
content_hash_of (some s) = if hash_chars 43 (codes s) then some s else none

-- SessionEnvelope.model_validate(body)
unfoldable pub model_validate : Members → Result VerifyError Envelope
unfolding only_fields is_text_value text_of sequence_of object_of kind_of_text signature_of
    timestamp_of content_hash_of
model_validate body = do
  ensure (only_fields envelope_fields body) structural_schema_invalid
  ensure (is_text_value (lookup body "schema_version") "1.1") structural_schema_invalid
  ensure (is_text_value (lookup body "protocol_version") "1.1") structural_schema_invalid
  session ← want structural_schema_invalid (text_of (lookup body "session_id"))
  sequence ← want structural_schema_invalid (sequence_of (lookup body "sequence"))
  actor ← want structural_schema_invalid (text_of (lookup body "actor_username"))
  agent ← want structural_schema_invalid (text_of (lookup body "actor_agent_id"))
  timestamp ← want structural_schema_invalid (timestamp_of (text_of (lookup body "timestamp")))
  kind ← want structural_schema_invalid (kind_of_text (text_of (lookup body "kind")))
  hash ← want structural_schema_invalid (content_hash_of (text_of (lookup body "content_hash")))
  payload ← want structural_schema_invalid (object_of (lookup body "payload"))
  signature ← want structural_schema_invalid (signature_of (lookup body "signature"))
  ok (record {
    session_id = session;
    sequence = sequence;
    actor_username = actor;
    actor_agent_id = agent;
    timestamp = timestamp;
    kind = kind;
    content_hash = hash;
    payload = payload;
    signature = signature;
  })

-- {k: v for k, v in d.items() if k != key}
unfoldable pub without : Members → String → Members
without end key = end
without (member k v ms) key =
    let rest = without ms key in if str_eq k key then rest else member k v rest

verify_bytes : Crypto → String → Option String → Option String → Bool
verify_bytes cr key (some sig) (some jcs) = cr.ed25519_verify key sig jcs
verify_bytes cr key _ _ = false

-- A signature that is no text makes the decoding raise, and the answer is False.
unfoldable pub verify_envelope_signature : Crypto → Members → String → Bool
unfolding verify_bytes text_of without base64url_decode
verify_envelope_signature cr body key = elim (text_of (lookup body "signature")) [
  | none ↦ false
  | some sig ↦
      truthy sig
      && verify_bytes cr key (base64url_decode cr sig) (cr.jcs_dumps (without body "signature"))
]

pub record VerifiedEnvelope : Type 0 where
  pub envelope : Envelope
  pub actor_public_key : String
  pub verified_at : String

-- Stages 4 to 6. `key_of` is get_public_key_fn, and `people` the map from usernames to agents.
unfoldable pub verify_actor :
    Crypto
    → (String → Option String)
    → Members
    → Dict String
    → Envelope
    → Result VerifyError VerifiedEnvelope
unfolding verify_envelope_signature get
verify_actor cr key_of body people e = do
  agent ← want unknown_actor (get people e.actor_username)
  ensure (str_eq e.actor_agent_id agent) wrong_agent
  key ← want public_key_not_found (key_of e.actor_username)
  ensure (truthy? e.signature && verify_envelope_signature cr body key) invalid_signature
  ok (record { envelope = e; actor_public_key = key; verified_at = e.timestamp })

-- Stages 2 and 3.
unfoldable pub verify_content : Crypto → String → Envelope → Result VerifyError (Unit {0})
unfolding compute_content_hash
verify_content cr session e = do
  ensure (str_eq e.session_id session) wrong_session
  expected ← want payload_canonicalization_failed (compute_content_hash cr e.payload)
  ensure (str_eq e.content_hash expected) content_hash_mismatch

unfoldable pub verify_and_build_envelope :
    Crypto
    → (String → Option String)
    → Members
    → String
    → Dict String
    → Result VerifyError VerifiedEnvelope
unfolding model_validate verify_content verify_actor
verify_and_build_envelope cr key_of body session people = do
  e ← model_validate body
  verify_content cr session e
  verify_actor cr key_of body people e
