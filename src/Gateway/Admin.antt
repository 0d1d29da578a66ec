-- ===== src/Gateway/Admin.antt =====
-- kin_gateway/admin.py: the guard of the private administration application.
use mathlib.Core.Option.{some-injective}
use kin_gateway.Prelude.{
  ℕ, String, ◌≡◌, refl, ap, ◌∙◌, inl, inr, Bool, true, false, ◌&&◌, Option, none, some, List, [],
  ◌∷◌, arith, ltb, if◌then◌else◌, Bool-cases, is_some, codes, truthy,
}
use kin_gateway.Gateway.Credentials.{SecretProvider}
use kin_gateway.Gateway.Headers.{codes_eq}
use kin_gateway.Gateway.Routes.{strip_prefix}

pub data Authentication : Type 0 where
  token_authentication mtls_authentication : Authentication

pub record AdminPlaneSettings : Type 0 where
  pub authentication : Authentication
  pub token_secret_ref : Option String

-- `peer_certificate`: bool(ssl_object.getpeercert()), `none` where there is no such object or the
-- call raises.
pub record AdminRequest : Type 0 where
  pub path : String
  pub authorization : Option String
  pub peer_certificate : Option Bool

-- The codes behind a prefix.
unfoldable pub bearer_token : Option String → Option (List ℕ)
bearer_token none = none
bearer_token (some header) = strip_prefix (codes "Bearer ") (codes header)

certificate_given : Option Bool → Bool
certificate_given none = false
certificate_given (some b) = b

-- bool(expected) and secrets.compare_digest(supplied, expected), whose answer is equality; it
-- raises on text that is not ASCII (`none`).
is_ascii : List ℕ → Bool
is_ascii [] = true
is_ascii (c ∷ cs) = ltb c 128 && is_ascii cs

unfoldable pub compare_digest : List ℕ → List ℕ → Option Bool
unfolding is_ascii
compare_digest a b = if is_ascii a && is_ascii b then some (codes_eq a b) else none

matches_secret : List ℕ → Option String → Option Bool
matches_secret supplied none = some false
matches_secret supplied (some expected) =
    if truthy expected then compare_digest supplied (codes expected) else some false

unfoldable pub ref_or_empty : Option String → String
ref_or_empty none = ""
ref_or_empty (some s) = s

token_matches : AdminPlaneSettings → Option SecretProvider → Option (List ℕ) → Option Bool
unfolding matches_secret ref_or_empty
token_matches settings secrets none = some false
token_matches settings none (some supplied) = some false
token_matches settings (some secrets) (some supplied) =
    matches_secret supplied (secrets (ref_or_empty settings.token_secret_ref))

authorized_by :
    Authentication → AdminPlaneSettings → Option SecretProvider → AdminRequest → Option Bool
unfolding certificate_given token_matches
authorized_by mtls_authentication settings secrets r = some (certificate_given r.peer_certificate)
authorized_by token_authentication settings secrets r =
    token_matches settings secrets (bearer_token r.authorization)

-- _is_authorized; `none` is an exception.
unfoldable pub is_authorized :
    AdminPlaneSettings → Option SecretProvider → AdminRequest → Option Bool
unfolding authorized_by
is_authorized settings secrets r = authorized_by settings.authentication settings secrets r

pub data AdminAnswer : Type 0 where
  call_next authentication_required admin_error : AdminAnswer

unfoldable pub guarded : Option Bool → AdminAnswer
guarded (some true) = call_next
guarded (some false) = authentication_required
guarded none = admin_error

-- authenticate_admin
unfoldable pub authenticate_admin :
    AdminPlaneSettings → Option SecretProvider → AdminRequest → AdminAnswer
unfolding guarded
authenticate_admin settings secrets r =
    if is_some (strip_prefix (codes "/admin/") (codes r.path))
    then guarded (is_authorized settings secrets r)
    else call_next

-- create_admin_app: ValueError (`false`) where a token is asked for and no provider is given.
unfoldable pub can_create_admin_app : AdminPlaneSettings → Option SecretProvider → Bool
can_create_admin_app settings secrets = elim settings.authentication [
  | mtls_authentication ↦ true
  | token_authentication ↦ is_some secrets
]

-- Who an authorized request comes from: over mutual TLS a peer with a certificate, and else one
-- that states the non-empty secret of the settings as its token.
abbrev pub Credentialed :
    Authentication → AdminPlaneSettings → Option SecretProvider → AdminRequest → Type 0
Credentialed mtls_authentication settings secrets r = r.peer_certificate ≡ some true
Credentialed token_authentication settings none r = ⊥
Credentialed token_authentication settings (some secrets) r =
    (secret : String) × (secrets (ref_or_empty settings.token_secret_ref) ≡ some secret)
    × (truthy secret ≡ true)
    × (bearer_token r.authorization ≡ some (codes secret))

codes_eq_of : (a b : List ℕ) → codes_eq a b ≡ true → a ≡ b
unfolding codes_eq
codes_eq_of [] [] h = refl
codes_eq_of [] (d ∷ ds) h = cc
codes_eq_of (c ∷ cs) [] h = cc
codes_eq_of (c ∷ cs) (d ∷ ds) h = ground (arith, codes_eq_of cs ds)

digest_equal : (a b : List ℕ) → compare_digest a b ≡ some true → a ≡ b
unfolding compare_digest
digest_equal a b h = codes_eq_of a b (ground arith)

matched :
    (supplied : List ℕ) (expected : Option String)
    → matches_secret supplied expected ≡ some true
    → (secret : String) × (expected ≡ some secret)
      × (truthy secret ≡ true)
      × (supplied ≡ codes secret)
unfolding matches_secret
matched supplied none h = absurd (ground arith)
matched supplied (some expected) h = elim (Bool-cases (truthy expected)) [
  | inl full ↦ (expected, refl, full, digest_equal supplied (codes expected) (ground (arith, full)))
  | inr empty ↦ absurd (ground (arith, empty))
]

token-Credentialed :
    (settings : AdminPlaneSettings) (secrets : Option SecretProvider) (r : AdminRequest)
    (token : Option (List ℕ))
    → bearer_token r.authorization ≡ token
    → token_matches settings secrets token ≡ some true
    → Credentialed token_authentication settings secrets r
unfolding token_matches
token-Credentialed settings none r none q h = absurd (ground arith)
token-Credentialed settings none r (some t) q h = absurd (ground arith)
token-Credentialed settings (some secrets) r none q h = absurd (ground arith)
token-Credentialed settings (some secrets) r (some t) q h =
    let (secret, held, full, same) =
      matched t (secrets (ref_or_empty settings.token_secret_ref)) h in
    (secret, held, full, q ∙ ap some same)

certified : (peer_says : Option Bool) → certificate_given peer_says ≡ true → peer_says ≡ some true
unfolding certificate_given
certified none h = cc
certified (some b) h = ap some h

authorized_by-Credentialed :
    (kind_of : Authentication) (settings : AdminPlaneSettings) (secrets : Option SecretProvider)
    (r : AdminRequest)
    → authorized_by kind_of settings secrets r ≡ some true
    → Credentialed kind_of settings secrets r
unfolding authorized_by
authorized_by-Credentialed mtls_authentication settings secrets r h =
    certified r.peer_certificate (some-injective _ true h)
authorized_by-Credentialed token_authentication settings secrets r h =
    token-Credentialed settings secrets r (bearer_token r.authorization) refl h

guard_passed : (o : Option Bool) → guarded o ≡ call_next → o ≡ some true
unfolding guarded
guard_passed none h = cc
guard_passed (some true) h = refl
guard_passed (some false) h = cc

-- A request for a path under /admin/ reaches the application only where it is credentialed in the
-- way that the settings ask for.
pub admin_needs_credential :
    (settings : AdminPlaneSettings) (secrets : Option SecretProvider) (r : AdminRequest)
    → is_some (strip_prefix (codes "/admin/") (codes r.path)) ≡ true
    → authenticate_admin settings secrets r ≡ call_next
    → Credentialed settings.authentication settings secrets r
unfolding authenticate_admin is_authorized
admin_needs_credential settings secrets r under h =
    authorized_by-Credentialed settings.authentication settings secrets r
      (guard_passed (authorized_by settings.authentication settings secrets r) (rw under at h))
