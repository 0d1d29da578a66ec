-- ===== src/Gateway/Proxy.antt =====
-- The two proxy handlers of kin_gateway/app.py, each run to the end of the response's body.
use Prim.Native.String.{◌++◌ as concat}
use kin_gateway.Prelude.{
  get, String, Bool, true, false, not, ◌||◌, Option, none, some, List, [], ◌∷◌, str_eq,
  if◌then◌else◌, codes, truthy, Dict, Result, ok, err,
}
use kin_gateway.Gateway.Credentials.{CredentialError, headers_for}
use kin_gateway.Gateway.Headers.{
  selected_headers, forwarded_request_headers, forwarded_response_headers,
}
use kin_gateway.Gateway.Routes.{
  is_nonstreaming_rest_operation, is_streaming_rest_operation, RestError, version_not_supported,
  known_unsupported_rest_error, supports_a2a_version,
}
use kin_gateway.Gateway.Tracker.{
  Loaded, parsed, no_json, too_deep, Libraries, ExternalTaskSession, Tracker, new_tracker, complete,
}
use kin_gateway.Gateway.Wire.{
  cancelled, Sent, StreamEnd, finished, timed_out, broken, other_exception, Reply, StreamReply,
  Received, received, http_error, other_error, Upstream, Gateway, Caller, Moments, Answer,
  jsonrpc_version_error, rest_error, http_exception, forwarded_reply, forwarded_stream,
  internal_error, Run,
}
use kin_gateway.Json.{Json, null, text, array, object, Members, end, lookup}

unfoldable pub stream_outcome : StreamEnd → String
stream_outcome finished = "forwarded"
stream_outcome timed_out = "upstream_timeout"
stream_outcome cancelled = "client_disconnected"
stream_outcome broken = "upstream_disconnected"
stream_outcome other_exception = "forwarded"

-- An exception that no handler catches ends the request; the observer is told nothing.
unfoldable pub uncaught : List Sent → Run
uncaught sent_list = record { answer = internal_error; sent = sent_list; records = [] }

answer_after : Answer → Option (Tracker × List ExternalTaskSession) → Answer
answer_after result none = internal_error
answer_after result (some told) = result

told_after : Option (Tracker × List ExternalTaskSession) → List ExternalTaskSession
told_after none = []
told_after (some (t, records)) = records

unfoldable pub after_complete :
    List Sent → Answer → Option (Tracker × List ExternalTaskSession) → Run
unfolding answer_after told_after
after_complete sent_list result o = record {
  answer = answer_after result o;
  sent = sent_list;
  records = told_after o;
}

-- The answer, after `complete` is awaited.
unfoldable pub close_session :
    Libraries → Tracker → Moments → String → Option String → List Sent → Answer → Run
unfolding after_complete complete
close_session lib t at outcome body sent_list result =
    after_complete sent_list result (complete lib t at.stop outcome body)

unfoldable pub stream_reply : Libraries → Tracker → Moments → Sent → Received StreamReply → Run
unfolding stream_outcome close_session uncaught
stream_reply lib t at s other_error = uncaught (s ∷ [])
stream_reply lib t at s http_error =
    close_session lib t at "upstream_unavailable" none (s ∷ []) (http_exception 502)
stream_reply lib t at s (received r) =
    close_session lib t at (stream_outcome r.ending) none (s ∷ []) (
      forwarded_stream r.status (selected_headers r.headers forwarded_response_headers) r.chunks
        r.ending)

unfoldable pub buffered_reply : Libraries → Tracker → Moments → Sent → Received Reply → Run
unfolding close_session uncaught
buffered_reply lib t at s other_error = uncaught (s ∷ [])
buffered_reply lib t at s http_error =
    close_session lib t at "upstream_unavailable" none (s ∷ []) (http_exception 502)
buffered_reply lib t at s (received r) =
    close_session lib t at "forwarded" (some r.content) (s ∷ [])
      (forwarded_reply r.status (selected_headers r.headers forwarded_response_headers) r.content)

unfoldable pub to_upstream : Gateway → String → String → Caller → Dict String → Sent
to_upstream g method_name url c creds = record {
  method = method_name;
  url = url;
  headers = selected_headers c.headers forwarded_request_headers;
  credentials = creds;
  content = c.body;
}

-- streaming_upstream_response, or the buffered request, once the credential headers are known.
unfoldable pub forward :
    Libraries
    → Upstream
    → Gateway
    → Tracker
    → Moments
    → Bool
    → String
    → String
    → Caller
    → Result CredentialError (Dict String)
    → Run
unfolding close_session to_upstream stream_reply buffered_reply
forward lib up g t at stream method_name url c (err e) =
    close_session lib t at "upstream_unavailable" none [] (http_exception 502)
forward lib up g t at true method_name url c (ok creds) =
    let s = to_upstream g method_name url c creds in stream_reply lib t at s (up.streamed s)
forward lib up g t at false method_name url c (ok creds) =
    let s = to_upstream g method_name url c creds in buffered_reply lib t at s (up.buffered s)

-- isinstance(jsonrpc_request, dict)
unfoldable pub as_members : Json → Option Members
as_members (object ms) = some ms
as_members _ = none

-- jsonrpc_request: text that is no JSON counts as {}, and `none` is the RecursionError.
unfoldable pub request_of : Loaded → Option Json
request_of (parsed j) = some j
request_of no_json = some (object end)
request_of too_deep = none

-- A `method` in the set of streaming methods; the outer `none` is the TypeError of a value that
-- has no hash.
unfoldable pub streams : Option Json → Option Bool
streams none = some false
streams (some (text s)) = some (str_eq s "SendStreamingMessage" || str_eq s "SubscribeToTask")
streams (some (array xs)) = none
streams (some (object ms)) = none
streams (some _) = some false

unfoldable pub is_stream_request : Option Members → Option Bool
unfolding streams
is_stream_request none = some false
is_stream_request (some ms) = streams (lookup ms "method")

method_or_post : Option Json → String
method_or_post (some (text s)) = s
method_or_post _ = "POST"

unfoldable pub request_method_of : Option Members → String
unfolding method_or_post
request_method_of none = "POST"
request_method_of (some ms) = method_or_post (lookup ms "method")

unfoldable pub request_id : Option Members → Json
request_id none = null
request_id (some ms) = elim (lookup ms "id") [ none ↦ null | some j ↦ j ]

unfoldable pub jsonrpc_path : String
jsonrpc_path = "/a2a/jsonrpc"

unfoldable pub after_stream_test :
    Libraries → Upstream → Gateway → Tracker → Moments → Caller → Option Bool → Run
unfolding forward uncaught
after_stream_test lib up g t at c none = uncaught []
after_stream_test lib up g t at c (some stream) =
    let url = concat g.base_url jsonrpc_path in
    forward lib up g t at stream "POST" url c (headers_for g.secrets g.provider)

-- proxy_jsonrpc, once its tracker is made.
unfoldable pub after_tracker :
    Libraries → Upstream → Gateway → Moments → Caller → Option Members → Option Tracker → Run
unfolding after_stream_test close_session uncaught
after_tracker lib up g at c request none = uncaught []
after_tracker lib up g at c request (some t) =
    if supports_a2a_version lib (get c.headers "a2a-version")
    then after_stream_test lib up g t at c (is_stream_request request)
    else if lib.renders (request_id request)
    then close_session lib t at "unsupported_version" none []
        (jsonrpc_version_error (request_id request))
    else uncaught []

unfoldable pub after_loads : Libraries → Upstream → Gateway → Moments → Caller → Option Json → Run
unfolding after_tracker uncaught
after_loads lib up g at c none = uncaught []
after_loads lib up g at c (some j) =
    let request = as_members j in
    after_tracker lib up g at c request (
      new_tracker lib g.observed at.id at.start "JSONRPC" (request_method_of request) jsonrpc_path
        g.base_url c.headers c.body)

-- proxy_jsonrpc
unfoldable pub proxy_jsonrpc : Libraries → Upstream → Gateway → Moments → Caller → Run
unfolding after_loads request_of
proxy_jsonrpc lib up g at c = after_loads lib up g at c (request_of (lib.loads c.body))

-- The parts of a REST request's URL: the decoded path below /a2a/rest, the raw path and the query.
pub record RestTarget : Type 0 where
  pub rest_path : String
  pub raw_path : String
  pub query : String

unfoldable pub rest_target : RestTarget → String
rest_target p = if truthy p.query then concat p.raw_path (concat "?" p.query) else p.raw_path

unfoldable pub after_guards :
    Libraries
    → Upstream
    → Gateway
    → Tracker
    → Moments
    → String
    → RestTarget
    → Caller
    → Option RestError
    → Run
unfolding forward close_session
after_guards lib up g t at method_name p c (some e) =
    close_session lib t at "unsupported_operation" none [] (rest_error e)
after_guards lib up g t at method_name p c none =
    let stream = is_streaming_rest_operation method_name (codes p.rest_path) in
    let plain = is_nonstreaming_rest_operation method_name (codes p.rest_path) in
    let url = lib.join_url g.base_url p.raw_path p.query in
    if not (stream || plain)
    then close_session lib t at "unsupported_operation" none [] (http_exception 404)
    else if not (supports_a2a_version lib (get c.headers "a2a-version"))
    then close_session lib t at "unsupported_version" none [] (rest_error version_not_supported)
    else forward lib up g t at stream method_name url c (headers_for g.secrets g.provider)

unfoldable pub with_tracker :
    Libraries → Upstream → Gateway → Moments → String → RestTarget → Caller → Option Tracker → Run
unfolding after_guards uncaught
with_tracker lib up g at method_name p c none = uncaught []
with_tracker lib up g at method_name p c (some t) =
    after_guards lib up g t at method_name p c (known_unsupported_rest_error (codes p.rest_path))

-- proxy_rest
unfoldable pub proxy_rest :
    Libraries → Upstream → Gateway → Moments → String → RestTarget → Caller → Run
unfolding with_tracker rest_target
proxy_rest lib up g at method_name p c = with_tracker lib up g at method_name p c (
    new_tracker lib g.observed at.id at.start "HTTP+JSON" method_name (rest_target p) g.base_url
      c.headers c.body)
