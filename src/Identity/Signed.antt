-- ===== src/Identity/Signed.antt =====
-- What verify_signed_auth_headers of kin-node/kin/identity/auth.py accepts.
use kin_gateway.Prelude.{
  ℕ, ◌*◌, ◌≤◌, String, ◌≡◌, ◌↔◌, inl, inr, true, Option, some, arith, Option-cases, Dict, ok,
}
use kin_gateway.Identity.Auth.{
  AuthEnv, canonical_text, header, non_empty, time_distance, signature_holds, check_signed,
  verify_signed_auth_headers,
}
use kin_gateway.Schemas.Encoding.{base64url_decode}

-- The conditions under which three header values authenticate their user.
pub record IsSigned (env : AuthEnv) (key_of : String → Option String) (now max_age : ℕ)
    (user time sig : String) : Type 0 where
  pub key : String
  pub at : ℕ
  pub bytes : String
  pub trusted : key_of user ≡ some key
  pub read : env.instant_of time ≡ some at
  pub within : time_distance now at ≤ max_age * 1_000_000
  pub decoded : base64url_decode env.crypto sig ≡ some bytes
  pub signed : env.crypto.ed25519_verify key bytes (canonical_text user time) ≡ true

module _ (env : AuthEnv) (key_of : String → Option String) (now max_age : ℕ) where
  check_sound :
      (user time sig who : String)
      → check_signed env key_of now max_age user time sig ≡ ok who
      → (who ≡ user) × IsSigned env key_of now max_age user time sig
  unfolding check_signed signature_holds
  check_sound user time sig who h = elim (Option-cases (env.instant_of time)) [
    | inl no_time ↦ absurd (ground (arith, no_time))
    | inr (at, read) ↦ elim (Option-cases (key_of user)) [
      | inl no_key ↦ absurd (ground (arith, read, no_key))
      | inr (key, trusted) ↦ elim (Option-cases (base64url_decode env.crypto sig)) [
        | inl no_bytes ↦ absurd (ground (arith, read, trusted, no_bytes))
        | inr (bytes, decoded) ↦ (
          ground (arith, read, trusted, decoded),
          record {
            key = key;
            at = at;
            bytes = bytes;
            trusted = trusted;
            read = read;
            within = ground (arith, read, trusted, decoded);
            decoded = decoded;
            signed = ground (arith, read, trusted, decoded);
          },
        )
      ]
    ]
  ]

  check_complete :
      (user time sig : String)
      → IsSigned env key_of now max_age user time sig
      → check_signed env key_of now max_age user time sig ≡ ok user
  unfolding check_signed signature_holds
  check_complete user time sig s = ground (arith, s.read, s.trusted, s.decoded, s.within, s.signed)

  -- What an answer of the header check rests on.
  pub record IsAuthenticated (headers : Dict String) (who : String) : Type 0 where
    pub time : String
    pub sig : String
    pub user_header : non_empty (header env headers "x-username") ≡ some who
    pub time_header : non_empty (header env headers "x-timestamp") ≡ some time
    pub sig_header : non_empty (header env headers "x-signature") ≡ some sig
    pub holds : IsSigned env key_of now max_age who time sig

  headers_sound :
      (headers : Dict String) (who : String)
      → verify_signed_auth_headers env key_of now max_age headers ≡ ok who
      → IsAuthenticated headers who
  unfolding verify_signed_auth_headers
  headers_sound headers who h = elim (Option-cases (non_empty (header env headers "x-username"))) [
    | inl no_user ↦ absurd (ground (arith, no_user))
    | inr (user, u) ↦ elim (Option-cases (non_empty (header env headers "x-timestamp"))) [
      | inl no_time ↦ absurd (ground (arith, u, no_time))
      | inr (time, t) ↦ elim (Option-cases (non_empty (header env headers "x-signature"))) [
        | inl no_sig ↦ absurd (ground (arith, u, t, no_sig))
        | inr (sig, s) ↦
            let checked : check_signed env key_of now max_age user time sig ≡ ok who =
              ground (arith, u, t, s) in
            let (same, good) = check_sound user time sig who checked in
            record {
              time = time;
              sig = sig;
              user_header = rw same u;
              time_header = t;
              sig_header = s;
              holds = rw same good;
            }
      ]
    ]
  ]

  headers_complete :
      (headers : Dict String) (who : String)
      → IsAuthenticated headers who
      → verify_signed_auth_headers env key_of now max_age headers ≡ ok who
  unfolding verify_signed_auth_headers
  headers_complete headers who a =
      ground
        (arith, a.user_header, a.time_header, a.sig_header, check_complete who a.time a.sig a.holds)

  -- A user is authenticated exactly when the three headers are there, the time stands within
  -- `max_age` seconds of now on either side, and the signature over the user and the time holds
  -- under the user's trusted key.
  pub IsAuthenticated-iff :
      (headers : Dict String) (who : String)
      → (verify_signed_auth_headers env key_of now max_age headers ≡ ok who)
        ↔ IsAuthenticated headers who
  IsAuthenticated-iff headers who = (headers_sound headers who, headers_complete headers who)
