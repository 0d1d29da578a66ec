-- ===== src/Schemas/Signing.antt =====
-- sign_envelope of kin-node/kin/schemas.py, and what it signs passes verify_envelope_signature.
use mathlib.Core.Option.{some-injective}
use kin_gateway.Prelude.{
  String, ◌≡◌, inl, inr, true, Option, none, some, arith, str_eq, eq_refl, if◌then◌else◌,
  Option-cases, truthy,
}
use kin_gateway.Json.{Json, text, Members, end, member, lookup}
use kin_gateway.Schemas.Encoding.{Crypto, base64url_encode, IsBase64, decode-encode_lem}
use kin_gateway.Schemas.Envelope.{without, verify_envelope_signature}

-- A private key of the package `cryptography`: `sign`, and its public key in hexadecimal.
pub record PrivateKey : Type 0 where
  pub sign : String → String
  pub public_key : String

-- sign_envelope; `none` where rfc8785 raises.
unfoldable pub sign_envelope : Crypto → PrivateKey → Members → Option String
unfolding without base64url_encode
sign_envelope cr k body = elim (cr.jcs_dumps (without body "signature")) [
  | none ↦ none
  | some jcs ↦ some (base64url_encode cr (k.sign jcs))
]

-- d[key] = v
unfoldable pub set_member : Members → String → Json → Members
set_member end key v = member key v end
set_member (member k w ms) key v =
    let rest = set_member ms key v in if str_eq k key then member k v ms else member k w rest

-- What the documentation of Ed25519 says: a signature holds under the key's own public key.
abbrev pub KeySigns : Crypto → PrivateKey → Type 0
KeySigns cr k = (jcs : String) → cr.ed25519_verify k.public_key (k.sign jcs) jcs ≡ true

without-set_member :
    (body : Members) (key : String) (v : Json)
    → without (set_member body key v) key ≡ without body key
unfolding without set_member
without-set_member end key v = ground (arith, eq_refl key)
without-set_member (member k w ms) key v = ground (arith, without-set_member ms key v)

lookup-set_member :
    (body : Members) (key : String) (v : Json) → lookup (set_member body key v) key ≡ some v
unfolding set_member
lookup-set_member end key v = ground (arith, eq_refl key)
lookup-set_member (member k w ms) key v = ground (arith, lookup-set_member ms key v)

-- An envelope that is signed, and given the signature as its member "signature" in place of the
-- one it may have, passes the verification under the signer's public key. The
-- signature is not the empty text.
pub signed_verifies :
    (cr : Crypto) (k : PrivateKey) (body : Members) (sig : String)
    → IsBase64 cr
    → KeySigns cr k
    → truthy sig ≡ true
    → sign_envelope cr k body ≡ some sig
    → verify_envelope_signature cr (set_member body "signature" (text sig)) k.public_key ≡ true
unfolding sign_envelope verify_envelope_signature
signed_verifies cr k body sig codec signs present h =
    elim (Option-cases (cr.jcs_dumps (without body "signature"))) [
      | inl fails ↦ ground (arith, fails)
      | inr (jcs, found) ↦
          let e =
            some-injective (base64url_encode cr (k.sign jcs)) sig
              (rw (sign_envelope, found) at h) in
          rw
            (
              verify_envelope_signature,
              lookup-set_member body "signature" (text sig),
              without-set_member body "signature" (text sig),
              found,
              present,
              ← e,
              decode-encode_lem cr (k.sign jcs) codec,
            )
            (signs jcs)
    ]
