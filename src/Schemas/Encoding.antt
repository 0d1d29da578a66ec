-- ===== src/Schemas/Encoding.antt =====
-- base64url_encode, base64url_decode, canonical_jcs and compute_content_hash of
-- kin-node/kin/schemas.py. Bytes stand as texts of the code points 0 to 255. A text of JSON needs
-- no run of validate_json_primitives: every value of `Json` passes it.
use Prim.Native.Char.{Char, code}
use kin_gateway.Prelude.{
  ℕ, zero, suc, ◌+◌, ◌-◌, ◌%◌, ◌<◌, String, ◌≡◌, refl, Bool, Option, none, some, arith, ◌==◌,
  if◌then◌else◌,
}
use kin_gateway.Json.{Members}

-- The packages that the module calls: rfc8785.dumps (`none` where it raises), hashlib.sha256,
-- base64 over the URL-safe alphabet (the characters before the padding, and how many `=` follow),
-- and Ed25519.
pub record Crypto : Type 0 where
  pub jcs_dumps : Members → Option String
  pub sha256_digest : String → String
  pub b64_body : String → String
  pub b64_padding : String → ℕ
  pub urlsafe_b64decode : String → Option String
  pub ed25519_verify : String → String → String → Bool

equals_signs : ℕ → String
equals_signs zero = ""
equals_signs (suc n) = String.◌∷◌ "=" (equals_signs n)

-- s + "=" * n
unfoldable pub add_equals : String → ℕ → String
unfolding equals_signs
add_equals String.[] n = equals_signs n
add_equals (String.◌∷◌ c s) n = String.◌∷◌ c (add_equals s n)

-- A character before a text without trailing `=`.
unfoldable pub strip_before : Char → String → String
strip_before c String.[] = if code c == b'=' then "" else String.◌∷◌ c ""
strip_before c (String.◌∷◌ d s) = String.◌∷◌ c (String.◌∷◌ d s)

-- s.rstrip("=")
unfoldable pub rstrip_equals : String → String
unfolding strip_before
rstrip_equals String.[] = ""
rstrip_equals (String.◌∷◌ c s) = strip_before c (rstrip_equals s)

-- len(s)
unfoldable pub str_length : String → ℕ
str_length String.[] = 0
str_length (String.◌∷◌ c s) = suc (str_length s)

-- base64.urlsafe_b64encode(data).decode("ascii")
unfoldable pub urlsafe_b64encode : Crypto → String → String
unfolding add_equals
urlsafe_b64encode cr bytes = add_equals (cr.b64_body bytes) (cr.b64_padding bytes)

unfoldable pub base64url_encode : Crypto → String → String
unfolding rstrip_equals
base64url_encode cr bytes = rstrip_equals (urlsafe_b64encode cr bytes)

-- -n % 4
missing : ℕ → ℕ
missing n = (4 - n % 4) % 4

unfoldable pub base64url_decode : Crypto → String → Option String
unfolding add_equals missing str_length
base64url_decode cr encoded =
    cr.urlsafe_b64decode (add_equals encoded (missing (str_length encoded)))

unfoldable pub compute_content_hash : Crypto → Members → Option String
unfolding base64url_encode
compute_content_hash cr payload = elim (cr.jcs_dumps payload) [
  | none ↦ none
  | some jcs ↦ some (base64url_encode cr (cr.sha256_digest jcs))
]

-- What the documentation of base64 says: no `=` ends the characters before the padding, the
-- padding fills a group of four, and decoding gives the encoded bytes.
pub record IsBase64 (cr : Crypto) : Type 0 where
  pub body_stripped : (bytes : String) → rstrip_equals (cr.b64_body bytes) ≡ cr.b64_body bytes
  pub padding_short : (bytes : String) → cr.b64_padding bytes < 4
  pub padding_fills :
      (bytes : String) → (str_length (cr.b64_body bytes) + cr.b64_padding bytes) % 4 ≡ 0
  pub decode-encode :
      (bytes : String) → cr.urlsafe_b64decode (urlsafe_b64encode cr bytes) ≡ some bytes

rstrip_padding : (n : ℕ) → rstrip_equals (equals_signs n) ≡ ""
unfolding rstrip_equals equals_signs
rstrip_padding zero = refl
rstrip_padding (suc n) = rw (rstrip_padding n) refl

rstrip-add_equals : (s : String) (n : ℕ) → rstrip_equals (add_equals s n) ≡ rstrip_equals s
unfolding rstrip_equals add_equals
rstrip-add_equals String.[] n = rstrip_padding n
rstrip-add_equals (String.◌∷◌ c s) n = rw (rstrip-add_equals s n) refl

missing_padding : (n k : ℕ) → k < 4 → (n + k) % 4 ≡ 0 → missing n ≡ k
unfolding missing
missing_padding n k short fills = omega arith

-- The padding that base64url_encode strips is the padding that base64url_decode adds.
pub decode-encode_lem :
    (cr : Crypto) (bytes : String)
    → IsBase64 cr
    → base64url_decode cr (base64url_encode cr bytes) ≡ some bytes
unfolding base64url_decode base64url_encode urlsafe_b64encode
decode-encode_lem cr bytes codec =
    rw
      (
        rstrip-add_equals (cr.b64_body bytes) (cr.b64_padding bytes),
        codec.body_stripped bytes,
        base64url_decode,
        missing_padding (str_length (cr.b64_body bytes)) (cr.b64_padding bytes)
            (codec.padding_short bytes) (codec.padding_fills bytes),
      )
      (codec.decode-encode bytes)
