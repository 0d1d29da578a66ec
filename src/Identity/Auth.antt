-- ===== src/Identity/Auth.antt =====
-- kin-node/kin/identity/auth.py. The UTF-8 bytes that are signed stand for their text.
use Prim.Native.String.{◌++◌ as concat}
use kin_gateway.Prelude.{
  ℕ, ◌-◌, ◌*◌, String, Bool, false, Option, none, some, [], ◌∷◌, str_eq, leb, if◌then◌else◌,
  is_some, truthy, Dict, Result, ok, ◌>>=◌, ◌>>◌, ensure, want,
}
use kin_gateway.Schemas.Encoding.{Crypto, base64url_encode, base64url_decode}
use kin_gateway.Schemas.Signing.{PrivateKey}

-- `lower` is str.lower, `instant_of` reads an ISO time without its final Z as microseconds in UTC,
-- and `time_text` is isoformat with the Z that the code puts in place of the offset.
pub record AuthEnv : Type 0 where
  pub crypto : Crypto
  pub lower : String → String
  pub instant_of : String → Option ℕ
  pub time_text : ℕ → String

pub data AuthError : Type 0 where
  missing_headers invalid_time out_of_window key_not_found bad_signature : AuthError

-- f"{username}:{timestamp}"
unfoldable pub canonical_text : String → String → String
canonical_text user time = concat user (concat ":" time)

unfoldable pub create_signed_auth_headers : AuthEnv → PrivateKey → String → ℕ → Dict String
unfolding canonical_text base64url_encode
create_signed_auth_headers env k user now =
    let time = env.time_text now in
    ("X-Username", user)
    ∷ ("X-Timestamp", time)
    ∷ ("X-Signature", base64url_encode env.crypto (k.sign (canonical_text user time)))
    ∷ []

-- {k.lower(): v for k, v in headers.items()}.get(name): the last of the headers with a name counts.
unfoldable pub header : AuthEnv → Dict String → String → Option String
header env [] name = none
header env ((k, v) ∷ headers) name =
    let rest = header env headers name in
    if is_some rest then rest else (if str_eq (env.lower k) name then some v else none)

-- A header that is there and not empty.
unfoldable pub non_empty : Option String → Option String
non_empty none = none
non_empty (some s) = if truthy s then some s else none

-- abs(a - b)
unfoldable pub time_distance : ℕ → ℕ → ℕ
time_distance a b = if leb a b then b - a else a - b

unfoldable pub signature_holds : Crypto → String → Option String → String → Bool
signature_holds cr key (some sig) signed_text = cr.ed25519_verify key sig signed_text
signature_holds cr key none signed_text = false

-- What was signed, once the three headers are there.
unfoldable pub check_signed :
    AuthEnv → (String → Option String) → ℕ → ℕ → String → String → String → Result AuthError String
unfolding time_distance signature_holds base64url_decode canonical_text
check_signed env key_of now max_age user time sig = do
  at ← want invalid_time (env.instant_of time)
  ensure (leb (time_distance now at) (max_age * 1_000_000)) out_of_window
  key ← want key_not_found (key_of user)
  ensure
      (signature_holds env.crypto key (base64url_decode env.crypto sig) (canonical_text user time))
      bad_signature
  ok user

-- The answer is the authenticated username; `max_age` is in seconds.
unfoldable pub verify_signed_auth_headers :
    AuthEnv → (String → Option String) → ℕ → ℕ → Dict String → Result AuthError String
unfolding check_signed non_empty header
verify_signed_auth_headers env key_of now max_age headers = do
  user ← want missing_headers (non_empty (header env headers "x-username"))
  time ← want missing_headers (non_empty (header env headers "x-timestamp"))
  sig ← want missing_headers (non_empty (header env headers "x-signature"))
  check_signed env key_of now max_age user time sig
