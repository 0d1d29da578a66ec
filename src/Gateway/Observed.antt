-- ===== src/Gateway/Observed.antt =====
-- What the proxy handlers tell the observer (kin_gateway/app.py, kin_gateway/sessions.py).
use kin_gateway.Prelude.{
  get, ℕ, String, ◌≡◌, refl, ◌≢◌, ◌⊎◌, inl, inr, Bool, true, false, ◌||◌, Option, none, some, List,
  [], ◌∷◌, arith, Bool-cases, Option-cases, codes, Dict, Result, ok, err,
}
use kin_gateway.Gateway.Credentials.{CredentialError}
use kin_gateway.Gateway.Headers.{selected_headers, forwarded_response_headers}
use kin_gateway.Gateway.Mirror.Fetch.{made}
use kin_gateway.Gateway.Proxy.{
  stream_outcome, uncaught, after_complete, close_session, stream_reply, buffered_reply, forward,
  as_members, request_of, request_method_of, request_id, jsonrpc_path, after_stream_test,
  after_tracker, after_loads, proxy_jsonrpc, RestTarget, rest_target, after_guards, with_tracker,
  proxy_rest,
}
use kin_gateway.Gateway.Routes.{
  is_nonstreaming_rest_operation, is_streaming_rest_operation, RestError,
  push_notification_not_supported, unsupported_operation, version_not_supported,
  known_unsupported_rest_error, supports_a2a_version,
}
use kin_gateway.Gateway.Tracker.{
  Libraries, ExternalTaskSession, deterministic_request_hash, task_id_from_response, Tracker,
  new_tracker, session_record, complete,
}
use kin_gateway.Gateway.Wire.{
  Sent, Reply, StreamReply, Received, received, http_error, other_error, Upstream, Gateway, Caller,
  Moments, Answer, jsonrpc_version_error, rest_error, http_exception, forwarded_reply,
  forwarded_stream, internal_error, Run,
}
use kin_gateway.Json.{Json, Members}
use kin_gateway.Registry.Local.{written}

-- The outcome that is recorded with an answer.
abbrev pub Fits : Answer → String → Type 0
Fits (jsonrpc_version_error j) o = o ≡ "unsupported_version"
Fits (rest_error version_not_supported) o = o ≡ "unsupported_version"
Fits (rest_error _) o = o ≡ "unsupported_operation"
Fits (http_exception n) o =
    ((n ≡ 502) × (o ≡ "upstream_unavailable")) ⊎ ((n ≡ 404) × (o ≡ "unsupported_operation"))
Fits (forwarded_reply n hs body) o = o ≡ "forwarded"
Fits (forwarded_stream n hs cs e) o = o ≡ stream_outcome e
Fits internal_error o = ⊥

-- One record: under the id of the request, of the gateway's upstream, with the answer's outcome.
abbrev pub OneRecord : Gateway → Moments → Answer → List ExternalTaskSession → Type 0
OneRecord g at a [] = ⊥
OneRecord g at a (r ∷ []) = (r.session_id ≡ at.id) × (r.upstream ≡ g.base_url) × Fits a r.outcome
OneRecord g at a _ = ⊥

-- Either that, or an exception that no handler catches, with no record.
abbrev pub ToldOrRaised : Gateway → Moments → Run → Type 0
ToldOrRaised g at r =
    OneRecord g at r.answer r.records ⊎ ((r.answer ≡ internal_error) × (r.records ≡ []))

-- A tracker of the request, not completed.
IsFresh : Gateway → Moments → Tracker → Type 0
IsFresh g at t =
    (t.session_id ≡ at.id) × (t.upstream ≡ g.base_url) × (t.completed ≡ false) × (t.observed ≡ true)

never_version : (path : List ℕ) → known_unsupported_rest_error path ≢ some version_not_supported
unfolding known_unsupported_rest_error
never_version path h = ground arith

module _ (lib : Libraries) (g : Gateway) (at : Moments) where
  closed :
      (t : Tracker) (outcome : String) (body : Option String) (sent_list : List Sent) (a : Answer)
      → IsFresh g at t
      → Fits a outcome
      → ToldOrRaised g at (close_session lib t at outcome body sent_list a)
  unfolding close_session after_complete complete session_record IsFresh uncaught
  closed t outcome body sent_list a (id, base, fresh, seen) f =
      elim (Option-cases (task_id_from_response lib body)) [
        | inl deep ↦ rw (fresh, deep) (inr (refl, refl))
        | inr (task, read) ↦ rw (fresh, read, seen) (inl (id, base, f))
      ]

  stream_told :
      (t : Tracker) (s : Sent) (o : Received StreamReply)
      → IsFresh g at t
      → ToldOrRaised g at (stream_reply lib t at s o)
  unfolding stream_reply uncaught
  stream_told t s other_error h = inr (refl, refl)
  stream_told t s http_error h =
      closed t "upstream_unavailable" none (s ∷ []) (http_exception 502) h (inl (refl, refl))
  stream_told t s (received r) h =
      closed t (stream_outcome r.ending) none (s ∷ [])
        (forwarded_stream r.status (selected_headers r.headers forwarded_response_headers) r.chunks
          r.ending)
        h refl

  buffered_told :
      (t : Tracker) (s : Sent) (o : Received Reply)
      → IsFresh g at t
      → ToldOrRaised g at (buffered_reply lib t at s o)
  unfolding buffered_reply uncaught
  buffered_told t s other_error h = inr (refl, refl)
  buffered_told t s http_error h =
      closed t "upstream_unavailable" none (s ∷ []) (http_exception 502) h (inl (refl, refl))
  buffered_told t s (received r) h =
      closed t "forwarded" (some r.content) (s ∷ [])
        (forwarded_reply r.status (selected_headers r.headers forwarded_response_headers) r.content)
        h refl

  forward_told :
      (up : Upstream) (t : Tracker) (stream : Bool) (method_name url : String) (c : Caller)
      (creds : Result CredentialError (Dict String))
      → IsFresh g at t
      → ToldOrRaised g at (forward lib up g t at stream method_name url c creds)
  unfolding forward
  forward_told up t stream method_name url c (err e) h =
      closed t "upstream_unavailable" none [] (http_exception 502) h (inl (refl, refl))
  forward_told up t true method_name url c (ok creds) h = stream_told t _ _ h
  forward_told up t false method_name url c (ok creds) h = buffered_told t _ _ h

  guards_told :
      (up : Upstream) (t : Tracker) (method_name : String) (p : RestTarget) (c : Caller)
      (e : Option RestError)
      → known_unsupported_rest_error (codes p.rest_path) ≡ e
      → IsFresh g at t
      → ToldOrRaised g at (after_guards lib up g t at method_name p c e)
  unfolding after_guards
  guards_told up t method_name p c (some push_notification_not_supported) q h =
      closed t "unsupported_operation" none [] (rest_error push_notification_not_supported) h refl
  guards_told up t method_name p c (some unsupported_operation) q h =
      closed t "unsupported_operation" none [] (rest_error unsupported_operation) h refl
  guards_told up t method_name p c (some version_not_supported) q h =
      absurd (never_version (codes p.rest_path) q)
  guards_told up t method_name p c none q h =
      let stream = is_streaming_rest_operation method_name (codes p.rest_path) in
      let plain = is_nonstreaming_rest_operation method_name (codes p.rest_path) in
      elim (Bool-cases (stream || plain)) [
        | inr unserved ↦
            rw unserved
              (closed t "unsupported_operation" none [] (http_exception 404) h (inr (refl, refl)))
        | inl served ↦ elim (Bool-cases (supports_a2a_version lib (get c.headers "a2a-version"))) [
          | inr bad ↦
              rw (served, bad)
                (closed t "unsupported_version" none [] (rest_error version_not_supported) h refl)
          | inl good ↦ rw (served, good) (forward_told up t stream method_name _ c _ h)
        ]
      ]

tracker-IsFresh :
    (lib : Libraries) (g : Gateway) (at : Moments) (transport_name method_name target : String)
    (headers : Dict String) (body : String) (t : Tracker)
    → g.observed ≡ true
    → new_tracker lib g.observed at.id at.start transport_name method_name target g.base_url headers
        body
      ≡ some t
    → IsFresh g at t
unfolding new_tracker IsFresh
tracker-IsFresh lib g at transport_name method_name target headers body t seen made =
    elim (Option-cases
      (deterministic_request_hash lib transport_name method_name target headers body)) [
        | inl bad ↦ absurd (ground (arith, bad))
        | inr (hash, good) ↦ (
          ground (arith, good),
          ground (arith, good),
          ground (arith, good),
          ground (arith, good, seen),
        )
      ]

rest_told :
    (lib : Libraries) (up : Upstream) (g : Gateway) (at : Moments) (method_name : String)
    (p : RestTarget) (c : Caller) (o : Option Tracker)
    → ((t : Tracker) → o ≡ some t → IsFresh g at t)
    → ToldOrRaised g at (with_tracker lib up g at method_name p c o)
unfolding with_tracker uncaught
rest_told lib up g at method_name p c none fresh = inr (refl, refl)
rest_told lib up g at method_name p c (some t) fresh =
    guards_told lib g at up t method_name p c (known_unsupported_rest_error (codes p.rest_path))
      refl (fresh t refl)

-- Where there is an observer, a REST request, however it is refused or its response ends, makes
-- one record, whose outcome is the answer's, or ends in an exception with no record.
pub rest_recorded_once :
    (lib : Libraries) (up : Upstream) (g : Gateway) (at : Moments) (method_name : String)
    (p : RestTarget) (c : Caller)
    → g.observed ≡ true
    → ToldOrRaised g at (proxy_rest lib up g at method_name p c)
unfolding proxy_rest
rest_recorded_once lib up g at method_name p c seen =
    rest_told lib up g at method_name p c _ (λ t made.
      tracker-IsFresh lib g at "HTTP+JSON" method_name (rest_target p) c.headers c.body t seen made)

stream_test_told :
    (lib : Libraries) (up : Upstream) (g : Gateway) (t : Tracker) (at : Moments) (c : Caller)
    (stream : Option Bool)
    → IsFresh g at t
    → ToldOrRaised g at (after_stream_test lib up g t at c stream)
unfolding after_stream_test uncaught
stream_test_told lib up g t at c none h = inr (refl, refl)
stream_test_told lib up g t at c (some stream) h = forward_told lib g at up t stream "POST" _ c _ h

jsonrpc_told :
    (lib : Libraries) (up : Upstream) (g : Gateway) (at : Moments) (c : Caller)
    (request : Option Members) (o : Option Tracker)
    → ((t : Tracker) → o ≡ some t → IsFresh g at t)
    → ToldOrRaised g at (after_tracker lib up g at c request o)
unfolding after_tracker uncaught
jsonrpc_told lib up g at c request none fresh = inr (refl, refl)
jsonrpc_told lib up g at c request (some t) fresh =
    elim (Bool-cases (supports_a2a_version lib (get c.headers "a2a-version"))) [
      | inl good ↦ rw good (stream_test_told lib up g t at c _ (fresh t refl))
      | inr bad ↦ elim (Bool-cases (lib.renders (request_id request))) [
        | inl written ↦
            rw (bad, written)
              (closed lib g at t "unsupported_version" none []
                (jsonrpc_version_error (request_id request)) (fresh t refl) refl)
        | inr unwritten ↦ rw (bad, unwritten) (inr (refl, refl))
      ]
    ]

loaded_told :
    (lib : Libraries) (up : Upstream) (g : Gateway) (at : Moments) (c : Caller) (o : Option Json)
    → g.observed ≡ true
    → ToldOrRaised g at (after_loads lib up g at c o)
unfolding after_loads uncaught
loaded_told lib up g at c none seen = inr (refl, refl)
loaded_told lib up g at c (some j) seen = jsonrpc_told lib up g at c (as_members j) _ (λ t made.
    tracker-IsFresh lib g at "JSONRPC" (request_method_of (as_members j)) jsonrpc_path c.headers
      c.body t seen made)

-- Where there is an observer, a JSON-RPC request makes one record, whose outcome is the answer's,
-- or ends in an exception with no record.
pub jsonrpc_recorded_once :
    (lib : Libraries) (up : Upstream) (g : Gateway) (at : Moments) (c : Caller)
    → g.observed ≡ true
    → ToldOrRaised g at (proxy_jsonrpc lib up g at c)
unfolding proxy_jsonrpc
jsonrpc_recorded_once lib up g at c seen =
    loaded_told lib up g at c (request_of (lib.loads c.body)) seen
