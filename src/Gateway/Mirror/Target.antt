-- ===== src/Gateway/Mirror/Target.antt =====
-- _origin and _validated_target of kin_gateway/agent_card.py: where the card may be fetched from.
use Prim.Native.String.{◌++◌ as concat}
use kin_gateway.Prelude.{
  ℕ, String, ◌≡◌, refl, ◌⊎◌, inl, inr, Bool, true, not, ◌||◌, Option, none, some, List, [], ◌∷◌,
  arith, str_eq, eq_iff, ◌==◌, if◌then◌else◌, Bool-cases, is_some, any, truthy, str_in, Dict,
  Result, ok, err,
}

-- The parts of a URL that are read.
pub record Url : Type 0 where
  pub scheme : String
  pub hostname : Option String
  pub username : Option String
  pub password : Option String
  pub port : Option ℕ

-- urlsplit (`none` where it or its port raises), urljoin, str.lower on hosts, ipaddress, the
-- resolver (`none` where it raises), httpx.URL.copy_with, and the text of a port.
pub record UrlLibraries : Type 0 where
  pub urlsplit : String → Option Url
  pub urljoin : String → String → String
  pub lower : String → String
  pub ip_literal : String → Option String
  pub resolve : String → ℕ → Option (List String)
  pub is_global : String → Bool
  pub copy_with_host : String → String → String
  pub port_text : ℕ → String

pub data MirrorError : Type 0 where
  target_invalid target_has_credentials https_required unresolved private_address : MirrorError
  no_location redirect_limit origin_changed too_large : MirrorError
  -- any other exception, "Upstream Agent Card is invalid"
  card_invalid : MirrorError

pub record Origin : Type 0 where
  pub scheme : String
  pub host : String
  pub port : ℕ

-- parsed.port or default_port
port_or : Option ℕ → ℕ → ℕ
port_or none d = d
port_or (some n) d = if n == 0 then d else n

default_port : String → ℕ
default_port scheme_text = if str_eq scheme_text "https" then 443 else 80

origin_of_host : UrlLibraries → Url → Option String → Result MirrorError Origin
unfolding port_or default_port
origin_of_host lib u none = err target_invalid
origin_of_host lib u (some host) =
    if not (truthy host)
    then err target_invalid
    else if is_some u.username || is_some u.password
    then err target_has_credentials
    else ok (record {
      scheme = u.scheme;
      host = lib.lower host;
      port = port_or u.port (default_port u.scheme);
    })

origin_of_url : UrlLibraries → Option Url → Result MirrorError Origin
unfolding origin_of_host
origin_of_url lib none = err card_invalid
origin_of_url lib (some u) =
    if str_in u.scheme ("http" ∷ "https" ∷ [])
    then origin_of_host lib u u.hostname
    else err target_invalid

-- _origin
unfoldable pub origin : UrlLibraries → String → Result MirrorError Origin
unfolding origin_of_url
origin lib url = origin_of_url lib (lib.urlsplit url)

-- The URL that is connected to, the Host header and the server name.
pub record CardTarget : Type 0 where
  pub fetch_url : String
  pub target_headers : Dict String
  pub sni_hostname : Option String

abbrev pub host_or_empty : Option String → String
host_or_empty none = ""
host_or_empty (some h) = h

lowered : UrlLibraries → List String → List String
lowered lib [] = []
lowered lib (h ∷ hs) = lib.lower h ∷ lowered lib hs

unfoldable pub is_trusted : UrlLibraries → List String → String → Bool
unfolding lowered
is_trusted lib trusted_hosts host = str_in (lib.lower host) (lowered lib trusted_hosts)

authority : UrlLibraries → String → Option ℕ → String
authority lib host none = host
authority lib host (some n) = if n == 443 then host else concat host (concat ":" (lib.port_text n))

-- not addresses or any(not address.is_global for address in addresses)
pinned_target :
    UrlLibraries → String → String → Option ℕ → List String → Result MirrorError CardTarget
unfolding authority
pinned_target lib url host port_number [] = err private_address
pinned_target lib url host port_number (a ∷ more) =
    if any (λ (x : String). not (lib.is_global x)) (a ∷ more)
    then err private_address
    else ok (record {
      fetch_url = lib.copy_with_host url a;
      target_headers = ("Host", authority lib host port_number) ∷ [];
      sni_hostname = some host;
    })

addresses_of : UrlLibraries → String → ℕ → Option String → Option (List String)
addresses_of lib host port_number (some literal) = some (literal ∷ [])
addresses_of lib host port_number none = lib.resolve host port_number

resolved_target :
    UrlLibraries → String → String → Option ℕ → Option (List String) → Result MirrorError CardTarget
unfolding pinned_target
resolved_target lib url host port_number none = err unresolved
resolved_target lib url host port_number (some addresses) =
    pinned_target lib url host port_number addresses

target_of_url : UrlLibraries → List String → String → Option Url → Result MirrorError CardTarget
unfolding resolved_target addresses_of port_or
target_of_url lib trusted_hosts url none = err card_invalid
target_of_url lib trusted_hosts url (some u) =
    let host = host_or_empty u.hostname in
    if is_trusted lib trusted_hosts host
    then ok (record { fetch_url = url; target_headers = []; sni_hostname = none })
    else if not (str_eq u.scheme "https")
    then err https_required
    else resolved_target lib url host u.port
        (addresses_of lib host (port_or u.port 443) (lib.ip_literal host))

-- _validated_target
unfoldable pub validated_target :
    UrlLibraries → List String → String → Result MirrorError CardTarget
unfolding target_of_url
validated_target lib trusted_hosts url = target_of_url lib trusted_hosts url (lib.urlsplit url)

-- A target of a URL: the URL itself, whose host is trusted, or, under https, the URL pinned to an
-- address that is global.
abbrev pub IsAllowed : UrlLibraries → List String → String → CardTarget → Type 0
IsAllowed lib trusted_hosts url t =
    (u : Url) × (lib.urlsplit url ≡ some u)
    × (((is_trusted lib trusted_hosts (host_or_empty u.hostname) ≡ true) × (t.fetch_url ≡ url))
        ⊎ ((u.scheme ≡ "https")
            × (a : String) × (lib.is_global a ≡ true)
            × (t.fetch_url ≡ lib.copy_with_host url a)))

pinned_global :
    (lib : UrlLibraries) (url host : String) (port_number : Option ℕ) (addresses : List String)
    (t : CardTarget)
    → pinned_target lib url host port_number addresses ≡ ok t
    → (a : String) × (lib.is_global a ≡ true) × (t.fetch_url ≡ lib.copy_with_host url a)
unfolding pinned_target
pinned_global lib url host port_number [] t h = absurd (ground arith)
pinned_global lib url host port_number (a ∷ more) t h = (a, ground arith, ground arith)

resolved_global :
    (lib : UrlLibraries) (url host : String) (port_number : Option ℕ)
    (addresses : Option (List String)) (t : CardTarget)
    → resolved_target lib url host port_number addresses ≡ ok t
    → (a : String) × (lib.is_global a ≡ true) × (t.fetch_url ≡ lib.copy_with_host url a)
unfolding resolved_target
resolved_global lib url host port_number none t h = absurd (ground arith)
resolved_global lib url host port_number (some found) t h =
    pinned_global lib url host port_number found t h

target_of_url-IsAllowed :
    (lib : UrlLibraries) (trusted_hosts : List String) (url : String) (o : Option Url)
    (t : CardTarget)
    → lib.urlsplit url ≡ o
    → target_of_url lib trusted_hosts url o ≡ ok t
    → IsAllowed lib trusted_hosts url t
unfolding target_of_url
target_of_url-IsAllowed lib trusted_hosts url none t q h = absurd (ground arith)
target_of_url-IsAllowed lib trusted_hosts url (some u) t q h =
    let host = host_or_empty u.hostname in
    elim (Bool-cases (is_trusted lib trusted_hosts host)) [
      | inl holds ↦ (u, q, inl (holds, ground (arith, holds)))
      | inr fails ↦ elim (Bool-cases (str_eq u.scheme "https")) [
        | inr plain ↦ absurd (ground (arith, fails, plain))
        | inl secure ↦
            let (a, global, there) =
              resolved_global lib url host u.port
                (addresses_of lib host (port_or u.port 443) (lib.ip_literal host)) t
                (rw (fails, secure) at h) in
            (u, q, inr ((eq_iff u.scheme "https").0 secure, a, global, there))
      ]
    ]

pub validated_target-IsAllowed :
    (lib : UrlLibraries) (trusted_hosts : List String) (url : String) (t : CardTarget)
    → validated_target lib trusted_hosts url ≡ ok t
    → IsAllowed lib trusted_hosts url t
unfolding validated_target
validated_target-IsAllowed lib trusted_hosts url t h =
    target_of_url-IsAllowed lib trusted_hosts url (lib.urlsplit url) t refl h
