-- ===== src/Gateway/Tracker.antt =====
-- kin_gateway/sessions.py: the record of one proxied request. Bytes are strings, and the header
-- names that the server gives are in lower case.
use mathlib.Core.Option
use kin_gateway.Prelude.{
  ℕ, String, Bool, true, false, Option, none, some, List, [], ◌∷◌, if◌then◌else◌, truthy, Dict,
}
use kin_gateway.Gateway.Headers.{selected_headers}
use kin_gateway.Json.{Json, text, object, Members, end, member, lookup}

-- What json.loads gives: a value, a ValueError, or the RecursionError of a text that nests too deep.
pub data Loaded : Type 0 where
  parsed : Json → Loaded
  no_json too_deep : Loaded

-- SHA-256, the JSON codec, `Version(text).release` of packaging (`none` where it raises), and the
-- URL that httpx makes of a base, a raw path and a query. `dumps_sorted` writes UTF-8, and is `none`
-- for a lone surrogate; `renders` says whether a JSONResponse can be made of a value.
pub record Libraries : Type 0 where
  pub sha256 : String → String
  pub loads : String → Loaded
  pub dumps_sorted : Json → Option String
  pub renders : Json → Bool
  pub release : String → Option (List ℕ)
  pub join_url : String → String → String → String

pub record ExternalTaskSession : Type 0 where
  pub session_id : String
  pub a2a_task_id : Option String
  pub transport : String
  pub request_method : String
  pub request_hash : String
  pub upstream : String
  pub started_at : String
  pub ended_at : String
  pub outcome : String

abbrev pub hashed_headers : List String
hashed_headers = "a2a-version" ∷ "a2a-extensions" ∷ "accept" ∷ "content-type" ∷ "last-event-id" ∷ []

members_of : Dict String → Members
members_of [] = end
members_of ((k, v) ∷ d) = member k (text v) (members_of d)

unfoldable pub request_envelope : Libraries → String → String → String → Dict String → String → Json
unfolding members_of
request_envelope lib transport_name method target headers body = object (
    member "body_sha256" (text (lib.sha256 body)) (
      member "headers" (object (members_of (selected_headers headers hashed_headers))) (
        member "request_method" (text method)
          (member "target" (text target) (member "transport" (text transport_name) end)))))

unfoldable pub deterministic_request_hash :
    Libraries → String → String → String → Dict String → String → Option String
unfolding request_envelope
deterministic_request_hash lib transport_name method target headers body =
    Option.map lib.sha256
      (lib.dumps_sorted (request_envelope lib transport_name method target headers body))

-- document.get(key, document), and `none` where that is no dict
member_or_self : Members → String → Option Members
member_or_self ms key = elim (lookup ms key) [
  | none ↦ some ms
  | some (object inner) ↦ some inner
  | some _ ↦ none
]

task_id_text : Option Json → Option String
task_id_text (some (text s)) = if truthy s then some s else none
task_id_text _ = none

task_id_of : Json → Option String
unfolding member_or_self task_id_text
task_id_of (object document) = elim (member_or_self document "result") [
  | none ↦ none
  | some candidate ↦ elim (member_or_self candidate "task") [
    | none ↦ none
    | some task ↦ task_id_text (lookup task "id")
  ]
]
task_id_of _ = none

task_id_loaded : Loaded → Option (Option String)
unfolding task_id_of
task_id_loaded (parsed j) = some (task_id_of j)
task_id_loaded no_json = some none
task_id_loaded too_deep = none

-- _task_id_from_response; the outer `none` is the RecursionError.
unfoldable pub task_id_from_response : Libraries → Option String → Option (Option String)
unfolding task_id_loaded
task_id_from_response lib none = some none
task_id_from_response lib (some body) =
    if truthy body then task_id_loaded (lib.loads body) else some none

-- ExternalTaskSessionTracker; `observed`: an observer is given.
pub record Tracker : Type 0 where
  pub observed : Bool
  pub session_id : String
  pub transport : String
  pub request_method : String
  pub upstream : String
  pub started_at : String
  pub request_hash : String
  pub completed : Bool

-- __init__, with the fresh uuid4() and the clock's time; `none` where the hash raises.
unfoldable pub new_tracker :
    Libraries
    → Bool
    → String
    → String
    → String
    → String
    → String
    → String
    → Dict String
    → String
    → Option Tracker
unfolding deterministic_request_hash
new_tracker lib observed id now transport_name method target base headers body =
    Option.map
      (λ (hash : String). record {
        observed = observed;
        session_id = id;
        transport = transport_name;
        request_method = method;
        upstream = base;
        started_at = now;
        request_hash = hash;
        completed = false;
      })
      (deterministic_request_hash lib transport_name method target headers body)

unfoldable pub session_record : Tracker → String → String → Option String → ExternalTaskSession
session_record t now outcome task = record {
  session_id = t.session_id;
  a2a_task_id = task;
  transport = t.transport;
  request_method = t.request_method;
  request_hash = t.request_hash;
  upstream = t.upstream;
  started_at = t.started_at;
  ended_at = now;
  outcome = outcome;
}

told : Tracker → String → String → Option String → Tracker × List ExternalTaskSession
unfolding session_record
told t now outcome task = (
  record t { completed = true },
  if t.observed then session_record t now outcome task ∷ [] else [],
)

-- complete: what the observer is told; its failure is dropped. `none` is an exception.
unfoldable pub complete :
    Libraries
    → Tracker
    → String
    → String
    → Option String
    → Option (Tracker × List ExternalTaskSession)
unfolding told task_id_from_response
complete lib t now outcome body =
    if t.completed
    then some (t, [])
    else Option.map (told t now outcome) (task_id_from_response lib body)
