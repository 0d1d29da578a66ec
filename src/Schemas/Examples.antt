-- ===== src/Schemas/Examples.antt =====
-- A codec of four characters for a byte, and a signature that passes under it.
use kin_gateway.Prelude.{◌%◌, String, ◌≡◌, refl, ap, true, some, arith, str_eq}
use kin_gateway.Json.{text, end}
use kin_gateway.Schemas.Encoding.{
  Crypto, add_equals, strip_before, rstrip_equals, str_length, urlsafe_b64encode, IsBase64,
}
use kin_gateway.Schemas.Envelope.{verify_envelope_signature}
use kin_gateway.Schemas.Signing.{PrivateKey, sign_envelope, set_member, signed_verifies}

-- Each byte, followed by three fixed characters.
quads : String → String
quads String.[] = ""
quads (String.◌∷◌ c s) = String.◌∷◌ c (String.◌∷◌ "A" (String.◌∷◌ "A" (String.◌∷◌ "A" (quads s))))

-- The first character of each group.
heads : String → String
heads (String.◌∷◌ c (String.◌∷◌ x (String.◌∷◌ y (String.◌∷◌ z s)))) = String.◌∷◌ c (heads s)
heads s = ""

strip_letter : (s : String) → strip_before "A" s ≡ String.◌∷◌ "A" s
unfolding strip_before
strip_letter String.[] = refl
strip_letter (String.◌∷◌ c s) = refl

quads_stripped : (s : String) → rstrip_equals (quads s) ≡ quads s
unfolding rstrip_equals quads
quads_stripped String.[] = refl
quads_stripped (String.◌∷◌ c s) = rw (quads_stripped s, strip_letter (quads s)) refl

quads_length : (s : String) → str_length (quads s) % 4 ≡ 0
unfolding str_length quads
quads_length String.[] = omega arith
quads_length (String.◌∷◌ c s) = omega (arith, quads_length s)

heads-quads : (s : String) → heads (add_equals (quads s) 0) ≡ s
unfolding heads quads add_equals
heads-quads String.[] = refl
heads-quads (String.◌∷◌ c s) = ap (λ (r : String). String.◌∷◌ c r) (heads-quads s)

quad_crypto : Crypto
unfolding quads heads
quad_crypto = record {
  jcs_dumps = λ ms. some "{}";
  sha256_digest = λ s. s;
  b64_body = quads;
  b64_padding = λ s. 0;
  urlsafe_b64decode = λ s. some (heads s);
  ed25519_verify = λ key sig jcs. str_eq sig "sig";
}

quad_crypto-IsBase64 : IsBase64 quad_crypto
unfolding quad_crypto urlsafe_b64encode
quad_crypto-IsBase64 = record {
  body_stripped = quads_stripped;
  padding_short = λ s. omega arith;
  padding_fills = λ s. omega (arith, quads_length s);
  decode-encode = λ s. ap (λ (r : String). some r) (heads-quads s);
}

abbrev my_key : PrivateKey
my_key = record { sign = λ jcs. "sig"; public_key = "6b6579" }

signed_verifies_example :
    verify_envelope_signature quad_crypto
      (set_member end "signature" (text "sAAAiAAAgAAA"))
      "6b6579"
    ≡ true
unfolding sign_envelope quad_crypto urlsafe_b64encode
signed_verifies_example =
    signed_verifies quad_crypto my_key end "sAAAiAAAgAAA" quad_crypto-IsBase64 (λ jcs. refl) refl
      refl
