-- ===== src/Gateway/Mirror/Guarded.antt =====
-- What the mirror requests and reads while it fetches a card (kin_gateway/agent_card.py).
use kin_gateway.Prelude.{
  ℕ, zero, suc, ◌≤◌, String, ◌≡◌, refl, sym, ap, ◌∙◌, ◌⊎◌, inl, inr, Option, none, some, List, [],
  ◌∷◌, ◌++◌, arith, eq_iff, ltb, Bool-cases, Option-cases, length, All, Dict, Result, ok, err,
  Result-cases,
}
use kin_gateway.Gateway.Credentials.{CredentialError}
use kin_gateway.Gateway.Mirror.Fetch.{
  CardRequest, CardResponse, CardLibraries, MirrorSettings, read_chunks, length_declared, declared,
  bounded_body, Fetched, same_origin, location_given, redirected, made, follow, answered, requested,
  fetch_from, fetch_document,
}
use kin_gateway.Gateway.Mirror.Target.{
  MirrorError, redirect_limit, Origin, origin, CardTarget, validated_target, IsAllowed,
  validated_target-IsAllowed,
}

-- A request for a URL of the first URL's origin, at a target that is allowed for it.
abbrev pub IsGuarded : CardLibraries → MirrorSettings → Origin → CardRequest → Type 0
IsGuarded lib s first r =
    (origin lib.urls r.logical_url ≡ ok first)
    × IsAllowed lib.urls s.trusted_private_hosts r.logical_url r.target

-- A bounded number of guarded requests, and a body within the limit.
abbrev pub IsBounded : CardLibraries → MirrorSettings → Origin → ℕ → Fetched → Type 0
IsBounded lib s first m f =
    All (IsGuarded lib s first) f.1
    × (length f.1 ≤ m)
    × ((body : List ℕ) → f.0 ≡ ok body → length body ≤ s.max_response_bytes)

read_within :
    (limit : ℕ) (read : List ℕ) (cs : List (List ℕ)) (body : List ℕ)
    → length read ≤ limit
    → read_chunks limit read cs ≡ ok body
    → length body ≤ limit
unfolding read_chunks
read_within limit read [] body w h = ground (arith, w)
read_within limit read (c ∷ cs) body w h = elim (Bool-cases (ltb limit (length (read ++ c)))) [
  | inl over ↦ absurd (ground (arith, over))
  | inr within ↦
      read_within limit (read ++ c) cs body (ground (arith, within)) (ground (arith, within))
]

bounded_within :
    (lib : CardLibraries) (limit : ℕ) (r : CardResponse) (body : List ℕ)
    → bounded_body lib limit r ≡ ok body
    → length body ≤ limit
unfolding bounded_body declared length_declared
bounded_within lib limit r body h = elim (Option-cases r.content_length) [
  | inl absent_length ↦ read_within limit [] r.chunks body (omega arith) (rw absent_length at h)
  | inr (s, given) ↦ elim (Option-cases (lib.int_of s)) [
    | inl bad ↦ absurd (ground (arith, given, bad))
    | inr (n, good) ↦ read_within limit [] r.chunks body (omega arith) (ground (arith, given, good))
  ]
]

origin_path : (a b : Origin) → a.scheme ≡ b.scheme → a.host ≡ b.host → a.port ≡ b.port → a ≡ b
origin_path a b p q r = λ i. record { scheme = p i; host = q i; port = r i }

same_origin_fields :
    (lib : CardLibraries) (first o : Origin) (url joined : String)
    → same_origin lib first url (ok o) ≡ ok joined
    → (url ≡ joined) × (o.scheme ≡ first.scheme) × (o.host ≡ first.host) × (o.port ≡ first.port)
unfolding same_origin
same_origin_fields lib first o url joined h =
    ground (arith, eq_iff o.scheme first.scheme, eq_iff o.host first.host)

same_origin_of :
    (lib : CardLibraries) (first : Origin) (url joined : String) (o : Result MirrorError Origin)
    → origin lib.urls url ≡ o
    → same_origin lib first url o ≡ ok joined
    → origin lib.urls joined ≡ ok first
unfolding same_origin
same_origin_of lib first url joined (err e) q h = absurd (ground arith)
same_origin_of lib first url joined (ok o) q h =
    let (same, p, host, port) = same_origin_fields lib first o url joined h in
    ap (origin lib.urls) (sym same) ∙ q ∙ ap ok (origin_path o first p host port)

redirected-origin :
    (lib : CardLibraries) (first : Origin) (left : ℕ) (url : String) (location : Option String)
    (joined : String)
    → redirected lib first left url location ≡ ok joined
    → origin lib.urls joined ≡ ok first
unfolding redirected
redirected-origin lib first left url location joined h =
    elim (Result-cases (location_given lib left url location)) [
      | inl (u, given) ↦ same_origin_of lib first u joined (origin lib.urls u) refl (rw given at h)
      | inr (e, given) ↦ absurd (ground (arith, given))
    ]

module _ (lib : CardLibraries) (s : MirrorSettings) (first : Origin) (next : String → Fetched)
    (m : ℕ)
    (later : (u : String) → origin lib.urls u ≡ ok first → IsBounded lib s first m (next u)) where
  followed :
      (left : ℕ) (url : String) (location : Option String) (r : Result MirrorError String)
      → redirected lib first left url location ≡ r
      → IsBounded lib s first m (follow next r)
  unfolding follow
  followed left url location (err e) q = (tt, omega arith, λ body h. absurd (ground arith))
  followed left url location (ok u) q = later u (redirected-origin lib first left url location u q)

  answered-IsBounded :
      (left : ℕ) (url : String) (o : Option CardResponse)
      → IsBounded lib s first m (answered lib s first left url next o)
  unfolding answered bounded_body
  answered-IsBounded left url none = (tt, omega arith, λ body h. absurd (ground arith))
  answered-IsBounded left url (some r) = elim (Bool-cases r.is_redirect) [
    | inl holds ↦
        rw holds (followed left url r.location (redirected lib first left url r.location) refl)
    | inr fails ↦ elim (Bool-cases r.status_ok) [
      | inr bad ↦ rw (fails, bad) (tt, omega arith, λ body h. absurd (ground arith))
      | inl good ↦
          rw (fails, good)
            (tt, omega arith, λ body h. bounded_within lib s.max_response_bytes r body h)
    ]
  ]

  made-IsBounded :
      (r : CardRequest) (f : Fetched)
      → IsGuarded lib s first r
      → IsBounded lib s first m f
      → IsBounded lib s first (suc m) (made r f)
  unfolding made
  made-IsBounded r (a, rs) g (all_good, count, body) = ((g, all_good), omega (arith, count), body)

  requested-IsBounded :
      (left : ℕ) (url : String) (t : Result MirrorError CardTarget)
      (creds : Result CredentialError (Dict String))
      → origin lib.urls url ≡ ok first
      → validated_target lib.urls s.trusted_private_hosts url ≡ t
      → IsBounded lib s first (suc m) (requested lib s first left url next t creds)
  unfolding requested
  requested-IsBounded left url (err e) creds q v =
      (tt, omega arith, λ body h. absurd (ground arith))
  requested-IsBounded left url (ok t) (err e) q v =
      (tt, omega arith, λ body h. absurd (ground arith))
  requested-IsBounded left url (ok t) (ok hs) q v =
      let r : CardRequest = record { logical_url = url; target = t; credentials = hs } in
      made-IsBounded r (answered lib s first left url next (lib.respond r))
        (q, validated_target-IsAllowed lib.urls s.trusted_private_hosts url t v)
        (answered-IsBounded left url (lib.respond r))

fetch_from-IsBounded :
    (lib : CardLibraries) (s : MirrorSettings) (creds : Result CredentialError (Dict String))
    (first : Origin) (n : ℕ) (url : String)
    → origin lib.urls url ≡ ok first
    → IsBounded lib s first (suc n) (fetch_from lib s creds first n url)
unfolding fetch_from
fetch_from-IsBounded lib s creds first zero url q =
    requested-IsBounded lib s first (λ next_url. (err redirect_limit, [])) 0
      (λ u o. (tt, omega arith, λ body h. absurd (ground arith))) zero url
      (validated_target lib.urls s.trusted_private_hosts url) creds q refl
fetch_from-IsBounded lib s creds first (suc n) url q =
    requested-IsBounded lib s first (λ next_url. fetch_from lib s creds first n next_url) (suc n)
      (λ u o. fetch_from-IsBounded lib s creds first n u o) (suc n) url
      (validated_target lib.urls s.trusted_private_hosts url) creds q refl

-- Fetching the card of a URL makes at most one request more than the redirects that are allowed,
-- each for a URL of the first URL's origin and at a trusted host or, under https, at a global
-- address; the body that it gives is within the size limit. Where the first URL has no origin,
-- nothing is requested.
pub fetch_is_guarded :
    (lib : CardLibraries) (s : MirrorSettings) (creds : Result CredentialError (Dict String))
    (url : String)
    → ((first : Origin) × (origin lib.urls url ≡ ok first)
        × IsBounded lib s first (suc s.max_redirects) (fetch_document lib s creds url))
      ⊎ ((e : MirrorError) × (fetch_document lib s creds url ≡ (err e, [])))
unfolding fetch_document
fetch_is_guarded lib s creds url = elim (Result-cases (origin lib.urls url)) [
  | inl (first, q) ↦
      inl (first, q, rw q (fetch_from-IsBounded lib s creds first s.max_redirects url q))
  | inr (e, q) ↦ inr (e, rw q)
]
