-- ===== src/Identity/Examples.antt =====
-- Headers that a key signs, and the theorem of the header check at them.
use kin_gateway.Prelude.{String, ◌≡◌, ◌↔◌, true, some, [], ◌∷◌, Dict, ok}
use kin_gateway.Identity.Auth.{AuthEnv, verify_signed_auth_headers}
use kin_gateway.Identity.Signed.{IsAuthenticated, IsAuthenticated-iff}

abbrev auth_env : AuthEnv
auth_env = record {
  crypto = record {
    jcs_dumps = λ ms. some "{}";
    sha256_digest = λ s. s;
    b64_body = λ s. s;
    b64_padding = λ s. 0;
    urlsafe_b64decode = λ s. some s;
    ed25519_verify = λ key sig signed_text. true;
  };
  lower = λ s. s;
  instant_of = λ s. some 1_000;
  time_text = λ n. "2026-07-23T12:00:00Z";
}

abbrev signed_headers : Dict String
signed_headers =
    ("x-username", "alice") ∷ ("x-timestamp", "2026-07-23T12:00:00Z") ∷ ("x-signature", "c2ln") ∷ []

IsAuthenticated-iff_example :
    (verify_signed_auth_headers auth_env (λ user. some "6b6579") 500 300 signed_headers
      ≡ ok "alice")
    ↔ IsAuthenticated auth_env (λ user. some "6b6579") 500 300 signed_headers "alice"
IsAuthenticated-iff_example =
    IsAuthenticated-iff auth_env (λ user. some "6b6579") 500 300 signed_headers "alice"
