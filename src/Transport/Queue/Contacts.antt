-- ===== src/Transport/Queue/Contacts.antt =====
-- _resolve_peer_contact_info of kin-node/kin/transport/v11.py.
use kin_gateway.Prelude.{
  String, Option, none, some, str_eq, if◌then◌else◌, find_first, truthy, truthy?,
}
use kin_gateway.Storage.Tables.{ContactRow, Db}

-- A peer's endpoint and its two public keys.
pub record ContactInfo : Type 0 where
  pub endpoint : Option String
  pub x25519 : Option String
  pub ed25519 : Option String

abbrev no_contact : ContactInfo
no_contact = record { endpoint = none; x25519 = none; ed25519 = none }

-- `f(x) if x else None`; the outer `none` is an exception of `f`.
key_or_none : (String → Option String) → Option String → Option (Option String)
key_or_none f none = some none
key_or_none f (some s) =
    if truthy s then elim (f s) [ none ↦ none | some k ↦ some (some k) ] else some none

contact_info : ContactRow → Option (Option String) → Option (Option String) → Option ContactInfo
contact_info r (some x) (some e) = some (record { endpoint = r.endpoint; x25519 = x; ed25519 = e })
contact_info r _ _ = none

-- Only a contact whose fingerprint was verified counts. `from_hex` is bytes.fromhex, and
-- `public_key` the public key that a text in hexadecimal gives; they may raise.
unfoldable pub resolve_peer_contact_info :
    (String → Option String) → (String → Option String) → Db → String → Option ContactInfo
unfolding key_or_none contact_info
resolve_peer_contact_info from_hex public_key db user =
    elim (find_first (λ (r : ContactRow). str_eq r.username user) db.contacts) [
      | none ↦ some no_contact
      | some r ↦
          if truthy? r.fingerprint_verified_at
          then contact_info r (key_or_none from_hex r.x25519_public_key)
              (key_or_none public_key r.public_key)
          else some no_contact
    ]
