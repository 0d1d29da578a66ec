-- ===== src/Gateway/Examples.antt =====
-- The gateway before a small agent, and its theorems at concrete inputs.
use kin_gateway.Prelude.{
  get, ◌≤◌, String, ◌≡◌, refl, ◌⊎◌, true, Option, none, some, [], ◌∷◌, str_eq, if◌then◌else◌,
  is_some, length, codes, truthy, Dict, ok, err,
}
use kin_gateway.Gateway.Admin.{
  token_authentication, AdminPlaneSettings, AdminRequest, bearer_token, compare_digest,
  ref_or_empty, is_authorized, call_next, guarded, authenticate_admin, admin_needs_credential,
}
use kin_gateway.Gateway.Credentials.{
  SecretProvider, mapping_secret_provider, secret_backed, make_secret_backed, headers_for,
  build_upstream_credential_provider, IsSafe, built_headers-IsSafe,
}
use kin_gateway.Gateway.Forwarding.{SendsSafely, jsonrpc_forwards_safely, rest_forwards_safely}
use kin_gateway.Gateway.Headers.{
  lower_code, lower_codes, is_name_code, is_header_token, codes_eq, is_reserved, header_mode,
  UpstreamCredentialSettings, settings_are_valid, header_is_valid, selected_headers,
}
use kin_gateway.Gateway.Mirror.Fetch.{
  CardLibraries, MirrorSettings, read_chunks, declared, bounded_body, same_origin, location_given,
  redirected, made, follow, answered, requested, fetch_from, fetch_document,
}
use kin_gateway.Gateway.Mirror.Guarded.{IsBounded, fetch_is_guarded}
use kin_gateway.Gateway.Mirror.Target.{
  Url, MirrorError, Origin, origin, is_trusted, validated_target,
}
use kin_gateway.Gateway.Proxy.{
  close_session, stream_reply, to_upstream, forward, proxy_jsonrpc, RestTarget, after_guards,
  proxy_rest,
}
use kin_gateway.Gateway.Routes.{
  strip_prefix, is_segment, is_segment_then, is_task, is_nonstreaming_rest_operation,
  is_streaming_rest_operation, is_push_config, known_unsupported_rest_error, supports_a2a_version,
}
use kin_gateway.Gateway.Tracker.{parsed, Libraries, new_tracker}
use kin_gateway.Gateway.Wire.{
  broken, received, Upstream, Gateway, Caller, Moments, forwarded_stream,
}
use kin_gateway.Json.{text, object, end, member}

abbrev sample_libraries : Libraries
sample_libraries = record {
  sha256 = λ s. s;
  loads = λ s. parsed (object (member "method" (text "SendMessage") end));
  dumps_sorted = λ j. some "{}";
  renders = λ j. true;
  release = λ s. if str_eq s "1.0" then some (1 ∷ 0 ∷ []) else none;
  join_url = λ base path query. path;
}

abbrev sample_secrets : SecretProvider
sample_secrets = mapping_secret_provider (("upstream-key", "s3cret") ∷ [])

abbrev sample_gateway : Gateway
sample_gateway = record {
  base_url = "https://agent.example";
  provider = secret_backed "x-api-key" "upstream-key" "";
  secrets = sample_secrets;
  observed = true;
}

-- An agent that answers what is buffered, and whose streams break.
abbrev sample_agent : Upstream
sample_agent = record {
  buffered = λ s. received (record { status = 200; headers = []; content = "{}" });
  streamed =
      λ s. received (record { status = 200; headers = []; chunks = "data" ∷ []; ending = broken });
}

abbrev sample_caller : Caller
sample_caller = record {
  headers = ("a2a-version", "1.0") ∷ ("authorization", "Bearer mine") ∷ [];
  body = "{}";
}

abbrev sample_moments : Moments
sample_moments = record { id = "t1"; start = "12:00"; stop = "12:01" }

abbrev subscription : RestTarget
subscription = record {
  rest_path = "tasks/7:subscribe";
  raw_path = "/a2a/rest/tasks/7:subscribe";
  query = "";
}

-- The subscription is forwarded, and its stream breaks.
subscription_streams :
    (proxy_rest sample_libraries sample_agent sample_gateway sample_moments "GET" subscription
      sample_caller).answer
    ≡ forwarded_stream 200 [] ("data" ∷ []) broken
unfolding proxy_rest after_guards known_unsupported_rest_error is_streaming_rest_operation
    is_nonstreaming_rest_operation is_task is_push_config is_segment is_segment_then strip_prefix
    codes_eq supports_a2a_version forward headers_for mapping_secret_provider header_is_valid
    settings_are_valid is_header_token is_reserved is_name_code lower_code lower_codes
    selected_headers get to_upstream stream_reply close_session new_tracker
subscription_streams = refl

rest_forwards_safely_example :
    SendsSafely sample_libraries sample_gateway sample_caller
      (proxy_rest sample_libraries sample_agent sample_gateway sample_moments "GET" subscription
        sample_caller).sent
rest_forwards_safely_example =
    rest_forwards_safely sample_libraries sample_agent sample_gateway sample_moments "GET"
      subscription sample_caller

jsonrpc_forwards_safely_example :
    SendsSafely sample_libraries sample_gateway sample_caller
      (proxy_jsonrpc sample_libraries sample_agent sample_gateway sample_moments sample_caller).sent
jsonrpc_forwards_safely_example =
    jsonrpc_forwards_safely sample_libraries sample_agent sample_gateway sample_moments
      sample_caller

abbrev token_settings : AdminPlaneSettings
token_settings = record {
  authentication = token_authentication;
  token_secret_ref = some "upstream-key";
}

abbrev health_request : AdminRequest
health_request = record {
  path = "/admin/health";
  authorization = some "Bearer s3cret";
  peer_certificate = none;
}

health_under_admin : is_some (strip_prefix (codes "/admin/") (codes "/admin/health")) ≡ true
unfolding strip_prefix
health_under_admin = refl

health_reached : authenticate_admin token_settings (some sample_secrets) health_request ≡ call_next
unfolding authenticate_admin guarded is_authorized bearer_token compare_digest strip_prefix codes_eq
    mapping_secret_provider get ref_or_empty
health_reached = refl

admin_needs_credential_example :
    (secret : String) × (sample_secrets (ref_or_empty (some "upstream-key")) ≡ some secret)
    × (truthy secret ≡ true)
    × (bearer_token (some "Bearer s3cret") ≡ some (codes secret))
admin_needs_credential_example =
    admin_needs_credential token_settings (some sample_secrets) health_request health_under_admin
      health_reached

abbrev key_settings : UpstreamCredentialSettings
key_settings = record {
  mode = header_mode;
  header_name = some "x-api-key";
  secret_ref = some "upstream-key";
  value_prefix = "";
}

key_provider :
    build_upstream_credential_provider key_settings true
    ≡ ok (secret_backed "x-api-key" "upstream-key" "")
unfolding build_upstream_credential_provider make_secret_backed header_is_valid settings_are_valid
    is_header_token is_reserved is_name_code lower_code lower_codes codes_eq
key_provider = refl

key_header :
    headers_for sample_secrets (secret_backed "x-api-key" "upstream-key" "")
    ≡ ok (("x-api-key", "s3cret") ∷ [])
unfolding headers_for mapping_secret_provider get header_is_valid settings_are_valid is_header_token
    is_reserved is_name_code lower_code lower_codes codes_eq
key_header = refl

abbrev key_headers : Dict String
key_headers = ("x-api-key", "s3cret") ∷ []

built_headers-IsSafe_example : IsSafe key_headers × (length key_headers ≤ 1)
built_headers-IsSafe_example =
    built_headers-IsSafe key_settings true (secret_backed "x-api-key" "upstream-key" "")
      sample_secrets key_headers key_provider key_header

abbrev split_card_url : String → Option Url
split_card_url s = some (record {
  scheme = "https";
  hostname = some "agent.example";
  username = none;
  password = none;
  port = none;
})

-- A host with one address, and an agent whose card stands behind one redirect.
abbrev card_libraries : CardLibraries
card_libraries = record {
  urls = record {
    urlsplit = split_card_url;
    urljoin = λ base location. location;
    lower = λ s. s;
    ip_literal = λ s. none;
    resolve = λ host port. some ("203.0.113.7" ∷ []);
    is_global = λ a. true;
    copy_with_host = λ url a. a;
    port_text = λ n. "443";
  };
  respond = λ r. some (record {
    is_redirect = str_eq r.logical_url "https://agent.example/card";
    location = some "https://agent.example/card2";
    status_ok = true;
    content_length = none;
    chunks = (123 ∷ 125 ∷ []) ∷ [];
  });
  int_of = λ s. none;
}

abbrev card_settings : MirrorSettings
card_settings = record { trusted_private_hosts = []; max_redirects = 3; max_response_bytes = 1024 }

card_fetched :
    (fetch_document card_libraries card_settings (ok []) "https://agent.example/card").0
    ≡ ok (123 ∷ 125 ∷ [])
unfolding fetch_document fetch_from requested made answered follow redirected location_given
    same_origin bounded_body declared read_chunks validated_target origin is_trusted
card_fetched = refl

fetch_is_guarded_example :
    ((first : Origin) × (origin card_libraries.urls "https://agent.example/card" ≡ ok first)
      × IsBounded card_libraries card_settings first 4
          (fetch_document card_libraries card_settings (ok []) "https://agent.example/card"))
    ⊎ ((e : MirrorError) × (fetch_document card_libraries card_settings
            (ok [])
            "https://agent.example/card"
          ≡ (err e, [])))
fetch_is_guarded_example =
    fetch_is_guarded card_libraries card_settings (ok []) "https://agent.example/card"
