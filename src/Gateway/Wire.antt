-- ===== src/Gateway/Wire.antt =====
-- What passes between a caller, the proxy handlers of kin_gateway/app.py and the protected agent.
use kin_gateway.Prelude.{ℕ, String, Bool, List, Dict}
use kin_gateway.Gateway.Credentials.{SecretProvider, Provider}
use kin_gateway.Gateway.Routes.{RestError}
use kin_gateway.Gateway.Tracker.{ExternalTaskSession}
use kin_gateway.Json.{Json}

-- What is sent upstream: the selected headers of the caller, and the provider's headers, which the
-- client adds.
pub record Sent : Type 0 where
  pub method : String
  pub url : String
  pub headers : Dict String
  pub credentials : Dict String
  pub content : String

-- How the body of a streamed response ends: in full, by the read timeout, by the caller's
-- disconnection, by an HTTPError, or by another exception.
pub data StreamEnd : Type 0 where
  finished timed_out cancelled broken other_exception : StreamEnd

pub record Reply : Type 0 where
  pub status : ℕ
  pub headers : Dict String
  pub content : String

pub record StreamReply : Type 0 where
  pub status : ℕ
  pub headers : Dict String
  pub chunks : List String
  pub ending : StreamEnd

-- What a request to the protected agent gives: a response, an HTTPError, or another exception (the
-- cancellation of the handler among them).
pub data Received {ℓ} (A : Type ℓ) : Type ℓ where
  received : A → Received A
  http_error other_error : Received A

-- The protected agent over httpx.
pub record Upstream : Type 0 where
  pub buffered : Sent → Received Reply
  pub streamed : Sent → Received StreamReply

pub record Gateway : Type 0 where
  pub base_url : String
  pub provider : Provider
  pub secrets : SecretProvider
  pub observed : Bool

pub record Caller : Type 0 where
  pub headers : Dict String
  pub body : String

-- uuid4() and the clock at the start and the end of the request.
pub record Moments : Type 0 where
  pub id : String
  pub start : String
  pub stop : String

pub data Answer : Type 0 where
  jsonrpc_version_error : Json → Answer
  rest_error : RestError → Answer
  -- HTTPException
  http_exception : ℕ → Answer
  forwarded_reply : ℕ → Dict String → String → Answer
  forwarded_stream : ℕ → Dict String → List String → StreamEnd → Answer
  -- an exception that no handler catches
  internal_error : Answer

pub record Run : Type 0 where
  pub answer : Answer
  pub sent : List Sent
  pub records : List ExternalTaskSession
