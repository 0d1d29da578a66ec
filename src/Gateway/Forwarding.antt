-- ===== src/Gateway/Forwarding.antt =====
-- What the proxy handlers send upstream and tell the observer (kin_gateway/app.py).
use Prim.Native.String.{◌++◌ as concat}
use kin_gateway.Prelude.{
  get, String, ◌≡◌, refl, inl, inr, Bool, true, false, ◌||◌, Option, none, some, List, [], ◌∷◌,
  if◌then◌else◌, Bool-cases, codes, str_in, Dict, Result, ok, err,
}
use kin_gateway.Gateway.Credentials.{CredentialError, headers_for}
use kin_gateway.Gateway.Headers.{forwarded_request_headers, selected-get}
use kin_gateway.Gateway.Proxy.{
  uncaught, after_complete, close_session, stream_reply, buffered_reply, to_upstream, forward,
  as_members, request_of, request_id, jsonrpc_path, after_stream_test, after_tracker, after_loads,
  proxy_jsonrpc, RestTarget, after_guards, with_tracker, proxy_rest,
}
use kin_gateway.Gateway.Routes.{
  is_nonstreaming_rest_operation, is_streaming_rest_operation, RestError,
  known_unsupported_rest_error, supports_a2a_version,
}
use kin_gateway.Gateway.Tracker.{Libraries, Tracker}
use kin_gateway.Gateway.Wire.{
  Sent, Reply, StreamReply, Received, received, http_error, other_error, Upstream, Gateway, Caller,
  Moments,
}
use kin_gateway.Json.{Json, Members}
use kin_gateway.Registry.Local.{written}

-- What is sent upstream for a caller: of the caller's headers only the allowed ones, each with its
-- value, the caller's body, and the credentials of the gateway's provider.
pub record IsForwarded (lib : Libraries) (g : Gateway) (c : Caller) (s : Sent) : Type 0 where
  pub version : supports_a2a_version lib (get c.headers "a2a-version") ≡ true
  pub allowed_only :
      (name : String)
      → get s.headers name
        ≡ (if str_in name forwarded_request_headers then get c.headers name else none)
  pub same_body : s.content ≡ c.body
  pub own_credentials : headers_for g.secrets g.provider ≡ ok s.credentials

-- At most one request was sent, and it is of that kind.
abbrev pub SendsSafely : Libraries → Gateway → Caller → List Sent → Type 0
SendsSafely lib g c [] = Unit
SendsSafely lib g c (s ∷ []) = IsForwarded lib g c s
SendsSafely lib g c _ = ⊥

to_upstream_safe :
    (lib : Libraries) (g : Gateway) (method_name url : String) (c : Caller) (creds : Dict String)
    → headers_for g.secrets g.provider ≡ ok creds
    → supports_a2a_version lib (get c.headers "a2a-version") ≡ true
    → IsForwarded lib g c (to_upstream g method_name url c creds)
unfolding to_upstream
to_upstream_safe lib g method_name url c creds q v = record {
  version = v;
  allowed_only = λ n. selected-get c.headers forwarded_request_headers n;
  same_body = refl;
  own_credentials = q;
}

stream_safe :
    (lib : Libraries) (g : Gateway) (c : Caller) (t : Tracker) (at : Moments) (s : Sent)
    (r : Received StreamReply)
    → IsForwarded lib g c s
    → SendsSafely lib g c (stream_reply lib t at s r).sent
unfolding stream_reply close_session after_complete uncaught
stream_safe lib g c t at s other_error h = h
stream_safe lib g c t at s http_error h = h
stream_safe lib g c t at s (received r) h = h

buffered_safe :
    (lib : Libraries) (g : Gateway) (c : Caller) (t : Tracker) (at : Moments) (s : Sent)
    (r : Received Reply)
    → IsForwarded lib g c s
    → SendsSafely lib g c (buffered_reply lib t at s r).sent
unfolding buffered_reply close_session after_complete uncaught
buffered_safe lib g c t at s other_error h = h
buffered_safe lib g c t at s http_error h = h
buffered_safe lib g c t at s (received r) h = h

forward_safe :
    (lib : Libraries) (up : Upstream) (g : Gateway) (t : Tracker) (at : Moments) (stream : Bool)
    (method_name url : String) (c : Caller) (creds : Result CredentialError (Dict String))
    → headers_for g.secrets g.provider ≡ creds
    → supports_a2a_version lib (get c.headers "a2a-version") ≡ true
    → SendsSafely lib g c (forward lib up g t at stream method_name url c creds).sent
unfolding forward close_session after_complete
forward_safe lib up g t at stream method_name url c (err e) q v = tt
forward_safe lib up g t at true method_name url c (ok creds) q v =
    stream_safe lib g c t at _ _ (to_upstream_safe lib g method_name url c creds q v)
forward_safe lib up g t at false method_name url c (ok creds) q v =
    buffered_safe lib g c t at _ _ (to_upstream_safe lib g method_name url c creds q v)

stream_test_safe :
    (lib : Libraries) (up : Upstream) (g : Gateway) (t : Tracker) (at : Moments) (c : Caller)
    (stream : Option Bool)
    → supports_a2a_version lib (get c.headers "a2a-version") ≡ true
    → SendsSafely lib g c (after_stream_test lib up g t at c stream).sent
unfolding after_stream_test uncaught
stream_test_safe lib up g t at c none v = tt
stream_test_safe lib up g t at c (some stream) v =
    forward_safe lib up g t at stream "POST" (concat g.base_url jsonrpc_path) c
      (headers_for g.secrets g.provider) refl v

tracked_safe :
    (lib : Libraries) (up : Upstream) (g : Gateway) (at : Moments) (c : Caller)
    (request : Option Members) (o : Option Tracker)
    → SendsSafely lib g c (after_tracker lib up g at c request o).sent
unfolding after_tracker close_session after_complete uncaught
tracked_safe lib up g at c request none = tt
tracked_safe lib up g at c request (some t) =
    elim (Bool-cases (supports_a2a_version lib (get c.headers "a2a-version"))) [
      | inl good ↦ rw good (stream_test_safe lib up g t at c _ good)
      | inr bad ↦ elim (Bool-cases (lib.renders (request_id request))) [
        | inl written ↦ rw (bad, written) tt
        | inr unwritten ↦ rw (bad, unwritten) tt
      ]
    ]

loaded_safe :
    (lib : Libraries) (up : Upstream) (g : Gateway) (at : Moments) (c : Caller) (o : Option Json)
    → SendsSafely lib g c (after_loads lib up g at c o).sent
unfolding after_loads uncaught
loaded_safe lib up g at c none = tt
loaded_safe lib up g at c (some j) = tracked_safe lib up g at c (as_members j) _

-- Serving a JSON-RPC request sends at most one request upstream, and only where the caller states
-- a supported version: with the caller's body, of the caller's headers the allowed ones only, and
-- the credentials of the gateway's own provider.
pub jsonrpc_forwards_safely :
    (lib : Libraries) (up : Upstream) (g : Gateway) (at : Moments) (c : Caller)
    → SendsSafely lib g c (proxy_jsonrpc lib up g at c).sent
unfolding proxy_jsonrpc
jsonrpc_forwards_safely lib up g at c = loaded_safe lib up g at c (request_of (lib.loads c.body))

guards_safe :
    (lib : Libraries) (up : Upstream) (g : Gateway) (t : Tracker) (at : Moments)
    (method_name : String) (p : RestTarget) (c : Caller) (e : Option RestError)
    → SendsSafely lib g c (after_guards lib up g t at method_name p c e).sent
unfolding after_guards close_session after_complete
guards_safe lib up g t at method_name p c (some e) = tt
guards_safe lib up g t at method_name p c none =
    let stream = is_streaming_rest_operation method_name (codes p.rest_path) in
    let plain = is_nonstreaming_rest_operation method_name (codes p.rest_path) in
    elim (Bool-cases (stream || plain)) [
      | inr unserved ↦ rw unserved tt
      | inl served ↦ elim (Bool-cases (supports_a2a_version lib (get c.headers "a2a-version"))) [
        | inr bad ↦ rw (served, bad) tt
        | inl good ↦
            rw (served, good)
              (forward_safe lib up g t at stream method_name
                (lib.join_url g.base_url p.raw_path p.query) c (headers_for g.secrets g.provider)
                refl good)
      ]
    ]

tracked_rest_safe :
    (lib : Libraries) (up : Upstream) (g : Gateway) (at : Moments) (method_name : String)
    (p : RestTarget) (c : Caller) (o : Option Tracker)
    → SendsSafely lib g c (with_tracker lib up g at method_name p c o).sent
unfolding with_tracker uncaught
tracked_rest_safe lib up g at method_name p c none = tt
tracked_rest_safe lib up g at method_name p c (some t) =
    guards_safe lib up g t at method_name p c (known_unsupported_rest_error (codes p.rest_path))

-- Serving a REST request sends at most one request upstream, and only where the caller states a
-- supported version: with the caller's body, of the caller's headers the allowed ones only, and the
-- credentials of the gateway's own provider.
pub rest_forwards_safely :
    (lib : Libraries) (up : Upstream) (g : Gateway) (at : Moments) (method_name : String)
    (p : RestTarget) (c : Caller)
    → SendsSafely lib g c (proxy_rest lib up g at method_name p c).sent
unfolding proxy_rest
rest_forwards_safely lib up g at method_name p c = tracked_rest_safe lib up g at method_name p c _
