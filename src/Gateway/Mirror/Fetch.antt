-- ===== src/Gateway/Mirror/Fetch.antt =====
-- _bounded_body and _fetch_document of kin_gateway/agent_card.py.
use kin_gateway.Prelude.{
  ℕ, zero, suc, String, Bool, not, ◌&&◌, Option, none, some, List, [], ◌∷◌, ◌++◌, str_eq, ltb, ◌==◌,
  if◌then◌else◌, length, truthy, Dict, Result, ok, err, ◌>>=◌,
}
use kin_gateway.Gateway.Credentials.{CredentialError}
use kin_gateway.Gateway.Mirror.Target.{
  UrlLibraries, MirrorError, no_location, redirect_limit, origin_changed, too_large, card_invalid,
  Origin, origin, CardTarget, validated_target,
}

pub record CardRequest : Type 0 where
  pub logical_url : String
  pub target : CardTarget
  pub credentials : Dict String

-- A response: `status_ok` is false where raise_for_status raises, and the chunks are the bytes of
-- the decompressed body.
pub record CardResponse : Type 0 where
  pub is_redirect : Bool
  pub location : Option String
  pub status_ok : Bool
  pub content_length : Option String
  pub chunks : List (List ℕ)

-- The transport (`none` where it raises) and int(text) (`none` where it raises; a negative number
-- counts as 0, which is below every limit as that is).
pub record CardLibraries : Type 0 where
  pub urls : UrlLibraries
  pub respond : CardRequest → Option CardResponse
  pub int_of : String → Option ℕ

-- AgentCardMirrorSettings
pub record MirrorSettings : Type 0 where
  pub trusted_private_hosts : List String
  pub max_redirects : ℕ
  pub max_response_bytes : ℕ

-- The loop over the chunks, from the body read so far.
unfoldable pub read_chunks : ℕ → List ℕ → List (List ℕ) → Result MirrorError (List ℕ)
read_chunks limit body [] = ok body
read_chunks limit body (c ∷ cs) =
    let rest = read_chunks limit (body ++ c) cs in
    if ltb limit (length (body ++ c)) then err too_large else rest

unfoldable pub length_declared : ℕ → Option ℕ → List (List ℕ) → Result MirrorError (List ℕ)
length_declared limit none chunk_list = err card_invalid
length_declared limit (some n) chunk_list =
    if ltb limit n then err too_large else read_chunks limit [] chunk_list

unfoldable pub declared :
    CardLibraries → ℕ → Option String → List (List ℕ) → Result MirrorError (List ℕ)
unfolding length_declared
declared lib limit none chunk_list = read_chunks limit [] chunk_list
declared lib limit (some s) chunk_list = length_declared limit (lib.int_of s) chunk_list

-- _bounded_body
unfoldable pub bounded_body : CardLibraries → ℕ → CardResponse → Result MirrorError (List ℕ)
unfolding declared
bounded_body lib limit r = declared lib limit r.content_length r.chunks

-- An answer, with the requests that were made for it.
abbrev pub Fetched : Type 0
Fetched = Result MirrorError (List ℕ) × List CardRequest

-- The URL of a redirect: a location is given, the limit is not reached, and the origin is the same.
unfoldable pub same_origin :
    CardLibraries → Origin → String → Result MirrorError Origin → Result MirrorError String
same_origin lib first url (err e) = err e
same_origin lib first url (ok o) =
    if str_eq o.scheme first.scheme && str_eq o.host first.host && o.port == first.port
    then ok url
    else err origin_changed

unfoldable pub location_given :
    CardLibraries → ℕ → String → Option String → Result MirrorError String
location_given lib left url none = err no_location
location_given lib left url (some location) =
    if not (truthy location)
    then err no_location
    else if left == 0
    then err redirect_limit
    else ok (lib.urls.urljoin url location)

unfoldable pub redirected :
    CardLibraries → Origin → ℕ → String → Option String → Result MirrorError String
unfolding location_given same_origin
redirected lib first left url location = do
  joined ← location_given lib left url location
  same_origin lib first joined (origin lib.urls joined)

unfoldable pub made : CardRequest → Fetched → Fetched
made r (a, rs) = (a, r ∷ rs)

unfoldable pub follow : (String → Fetched) → Result MirrorError String → Fetched
follow next (err e) = (err e, [])
follow next (ok url) = next url

unfoldable pub answered :
    CardLibraries
    → MirrorSettings
    → Origin
    → ℕ
    → String
    → (String → Fetched)
    → Option CardResponse
    → Fetched
unfolding follow
answered lib s first left url next none = (err card_invalid, [])
answered lib s first left url next (some r) =
    if r.is_redirect
    then follow next (redirected lib first left url r.location)
    else if not r.status_ok
    then (err card_invalid, [])
    else (bounded_body lib s.max_response_bytes r, [])

unfoldable pub requested :
    CardLibraries
    → MirrorSettings
    → Origin
    → ℕ
    → String
    → (String → Fetched)
    → Result MirrorError CardTarget
    → Result CredentialError (Dict String)
    → Fetched
unfolding made answered
requested lib s first left url next (err e) creds = (err e, [])
requested lib s first left url next (ok t) (err e) = (err card_invalid, [])
requested lib s first left url next (ok t) (ok hs) =
    let r : CardRequest = record { logical_url = url; target = t; credentials = hs } in
    made r (answered lib s first left url next (lib.respond r))

-- The loop of _fetch_document, with `left` redirects to go.
unfoldable pub fetch_from :
    CardLibraries
    → MirrorSettings
    → Result CredentialError (Dict String)
    → Origin
    → ℕ
    → String
    → Fetched
unfolding requested
fetch_from lib s creds first zero url =
    requested lib s first zero url (λ next_url. (err redirect_limit, []))
      (validated_target lib.urls s.trusted_private_hosts url) creds
fetch_from lib s creds first (suc n) url =
    requested lib s first (suc n) url (λ next_url. fetch_from lib s creds first n next_url)
      (validated_target lib.urls s.trusted_private_hosts url) creds

fetch_with :
    CardLibraries
    → MirrorSettings
    → Result CredentialError (Dict String)
    → String
    → Result MirrorError Origin
    → Fetched
unfolding fetch_from
fetch_with lib s creds url (err e) = (err e, [])
fetch_with lib s creds url (ok first) = fetch_from lib s creds first s.max_redirects url

-- _fetch_document, to the body that json.loads reads; an error stops _refresh.
unfoldable pub fetch_document :
    CardLibraries → MirrorSettings → Result CredentialError (Dict String) → String → Fetched
unfolding fetch_with
fetch_document lib s creds url = fetch_with lib s creds url (origin lib.urls url)
