-- ===== src/Gateway/Credentials.antt =====
-- kin_gateway/upstream/credentials.py. A secret provider is a function that raises (`none`) where
-- the reference is unavailable.
use Prim.Native.String.{◌++◌ as concat}
use kin_gateway.Prelude.{
  get, ◌≤◌, String, ◌≡◌, sym, subst, Bool, true, false, not, ◌&&◌, Option, none, some, [], ◌∷◌,
  arith, if◌then◌else◌, length, truthy, Dict, Result, ok, err,
}
use kin_gateway.Gateway.Headers.{
  Mode, private_mode, header_mode, UpstreamCredentialSettings, header_is_valid,
}

abbrev pub SecretProvider : Type 0
SecretProvider = String → Option String

-- MappingSecretProvider.get_secret
unfoldable pub mapping_secret_provider : Dict String → SecretProvider
mapping_secret_provider secrets ref = get secrets ref

pub data CredentialError : Type 0 where
  -- UpstreamCredentialError: the secret is unavailable, empty, or no header value
  secret_unavailable secret_empty secret_invalid : CredentialError
  -- ValueError at construction
  invalid_configuration : CredentialError

pub data Provider : Type 0 where
  no_credential : Provider
  static_header : String → String → Provider
  secret_backed : String → String → String → Provider

-- StaticHeaderCredentialProvider.__post_init__
unfoldable pub make_static : String → String → Result CredentialError Provider
make_static name held =
    if header_is_valid name held then ok (static_header name held) else err invalid_configuration

-- SecretBackedCredentialProvider.__post_init__
unfoldable pub make_secret_backed : String → String → String → Result CredentialError Provider
make_secret_backed name ref prefix =
    if header_is_valid name (if truthy prefix then prefix else "placeholder") && truthy ref
    then ok (secret_backed name ref prefix)
    else err invalid_configuration

secret_header : String → String → Option String → Result CredentialError (Dict String)
secret_header name prefix none = err secret_unavailable
secret_header name prefix (some secret) =
    if not (truthy secret)
    then err secret_empty
    else if header_is_valid name (concat prefix secret)
    then ok ((name, concat prefix secret) ∷ [])
    else err secret_invalid

-- headers_for of the three providers.
unfoldable pub headers_for : SecretProvider → Provider → Result CredentialError (Dict String)
unfolding secret_header
headers_for secrets no_credential = ok []
headers_for secrets (static_header name held) = ok ((name, held) ∷ [])
headers_for secrets (secret_backed name ref prefix) = secret_header name prefix (secrets ref)

text_or_empty : Option String → String
text_or_empty none = ""
text_or_empty (some s) = s

build_for : Mode → UpstreamCredentialSettings → Bool → Result CredentialError Provider
unfolding make_secret_backed text_or_empty
build_for private_mode s has_secrets = ok no_credential
build_for header_mode s false = err invalid_configuration
build_for header_mode s true =
    make_secret_backed (text_or_empty s.header_name) (text_or_empty s.secret_ref) s.value_prefix

-- `has_secrets`: a secret provider is given.
unfoldable pub build_upstream_credential_provider :
    UpstreamCredentialSettings → Bool → Result CredentialError Provider
unfolding build_for
build_upstream_credential_provider s has_secrets = build_for s.mode s has_secrets

-- Each header that a provider adds has a name that is no reserved one and a value with no line
-- break.
abbrev pub IsSafe : Dict String → Type 0
IsSafe [] = Unit
IsSafe ((name, held) ∷ rest) = (header_is_valid name held ≡ true) × IsSafe rest

-- What a provider that the settings give is: none, or one that reads the secret store.
IsFromSettings : Provider → Type 0
IsFromSettings (static_header name held) = ⊥
IsFromSettings _ = Unit

built_of :
    (mode : Mode) (s : UpstreamCredentialSettings) (has_secrets : Bool) (p : Provider)
    → build_for mode s has_secrets ≡ ok p
    → IsFromSettings p
unfolding build_for make_secret_backed IsFromSettings
built_of private_mode s has_secrets no_credential b = tt
built_of private_mode s has_secrets (static_header name held) b = cc
built_of private_mode s has_secrets (secret_backed name ref prefix) b = tt
built_of header_mode s false no_credential b = tt
built_of header_mode s false (static_header name held) b = cc
built_of header_mode s false (secret_backed name ref prefix) b = tt
built_of header_mode s true no_credential b = tt
built_of header_mode s true (static_header name held) b = ground arith
built_of header_mode s true (secret_backed name ref prefix) b = tt

secret_header_one :
    (name prefix secret : String) (hs : Dict String)
    → secret_header name prefix (some secret) ≡ ok hs
    → (header_is_valid name (concat prefix secret) ≡ true)
      × (hs ≡ (name, concat prefix secret) ∷ [])
unfolding secret_header
secret_header_one name prefix secret hs h = ground arith

secret_header-IsSafe :
    (name prefix : String) (secret : Option String) (hs : Dict String)
    → secret_header name prefix secret ≡ ok hs
    → IsSafe hs × (length hs ≤ 1)
unfolding secret_header
secret_header-IsSafe name prefix none hs h = cc
secret_header-IsSafe name prefix (some secret) hs h =
    let (good, one) = secret_header_one name prefix secret hs h in
    subst (λ (z : Dict String). IsSafe z × (length z ≤ 1)) (sym one) ((good, tt), omega arith)

headers-IsSafe :
    (p : Provider) (secrets : SecretProvider) (hs : Dict String)
    → IsFromSettings p
    → headers_for secrets p ≡ ok hs
    → IsSafe hs × (length hs ≤ 1)
unfolding headers_for IsFromSettings
headers-IsSafe no_credential secrets [] f h = (tt, omega arith)
headers-IsSafe no_credential secrets (x ∷ hs) f h = cc
headers-IsSafe (static_header name held) secrets hs f h = absurd f
headers-IsSafe (secret_backed name ref prefix) secrets hs f h =
    secret_header-IsSafe name prefix (secrets ref) hs h

-- Whatever the settings and the secret store, what a provider built from the settings supplies is
-- at most one header, and that header is valid.
pub built_headers-IsSafe :
    (s : UpstreamCredentialSettings) (has_secrets : Bool) (p : Provider) (secrets : SecretProvider)
    (hs : Dict String)
    → build_upstream_credential_provider s has_secrets ≡ ok p
    → headers_for secrets p ≡ ok hs
    → IsSafe hs × (length hs ≤ 1)
unfolding build_upstream_credential_provider
built_headers-IsSafe s has_secrets p secrets hs b h =
    headers-IsSafe p secrets hs (built_of s.mode s has_secrets p b) h
