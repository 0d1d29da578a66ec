-- ===== src/Storage/Services.antt =====
-- What the writers use of other packages: SHA-256, the JSON codec, and the vault's authenticated
-- encryption under the profile's key. `unseal` is `none` where decryption raises.
use kin_gateway.Prelude.{String, ◌≡◌, refl, Option, none, some}
use kin_gateway.Json.{Json}

pub record Services : Type 0 where
  pub sha256 : String → String
  pub loads : String → Option Json
  pub dumps : Json → String
  pub seal : String → String → String
  pub unseal : String → Option String
  -- What the vault sealed under its key, whatever the nonce, it opens again.
  pub unseal-seal : (nonce plain : String) → unseal (seal nonce plain) ≡ some plain

-- A call's fresh values: uuid4(), the clock and os.urandom.
pub record Stamp : Type 0 where
  pub uuid : String
  pub now : String
  pub nonce : String

-- encrypt_field and decrypt_field of kin-node/kin/storage/vault.py: NULL stays NULL.
unfoldable pub encrypt_field : Services → String → Option String → Option String
encrypt_field sv nonce none = none
encrypt_field sv nonce (some plain) = some (sv.seal nonce plain)

-- The outer `none` is an exception.
unfoldable pub decrypt_field : Services → Option String → Option (Option String)
decrypt_field sv none = some none
decrypt_field sv (some token) = elim (sv.unseal token) [ none ↦ none | some t ↦ some (some t) ]

pub decrypt_field-encrypt_field :
    (sv : Services) (nonce : String) (plain : Option String)
    → decrypt_field sv (encrypt_field sv nonce plain) ≡ some plain
unfolding decrypt_field encrypt_field
decrypt_field-encrypt_field sv nonce none = refl
decrypt_field-encrypt_field sv nonce (some plain) = rw (sv.unseal-seal nonce plain)
