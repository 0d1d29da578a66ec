-- ===== src/Gateway/Routes.antt =====
-- Versions and paths of kin_gateway/app.py: which requests the data plane serves.
use kin_gateway.Prelude.{
  ℕ, String, Bool, true, false, not, ◌&&◌, ◌||◌, Option, none, some, List, [], ◌∷◌, str_eq, ◌==◌,
  if◌then◌else◌, is_empty, codes, truthy,
}
use kin_gateway.Gateway.Headers.{codes_eq}
use kin_gateway.Gateway.Tracker.{Libraries}

-- strip_prefix p s: what follows `p` in `s`
unfoldable pub strip_prefix : List ℕ → List ℕ → Option (List ℕ)
strip_prefix [] cs = some cs
strip_prefix (p ∷ ps) [] = none
strip_prefix (p ∷ ps) (c ∷ cs) = let rest = strip_prefix ps cs in if p == c then rest else none

-- [^/]+
has_slash : List ℕ → Bool
has_slash [] = false
has_slash (c ∷ cs) = c == b'/' || has_slash cs

unfoldable pub is_segment : List ℕ → Bool
unfolding has_slash
is_segment cs = not (is_empty cs) && not (has_slash cs)

-- [^/]+ followed by the given end
unfoldable pub is_segment_then : List ℕ → List ℕ → Bool
unfolding has_slash
is_segment_then ending [] = false
is_segment_then ending (c ∷ cs) =
    let rest = is_segment_then ending cs in not (c == b'/') && (codes_eq cs ending || rest)

after_tasks : (List ℕ → Bool) → Option (List ℕ) → Bool
after_tasks test none = false
after_tasks test (some rest) = test rest

unfoldable pub is_task : (List ℕ → Bool) → List ℕ → Bool
unfolding after_tasks
is_task test path = after_tasks test (strip_prefix (codes "tasks/") path)

-- _is_nonstreaming_rest_operation
unfoldable pub is_nonstreaming_rest_operation : String → List ℕ → Bool
is_nonstreaming_rest_operation method path =
    (str_eq method "POST" && codes_eq path (codes "message:send"))
    || (str_eq method "GET" && codes_eq path (codes "tasks"))
    || (str_eq method "GET" && is_task is_segment path)
    || (str_eq method "POST" && is_task (is_segment_then (codes ":cancel")) path)

-- _is_streaming_rest_operation
unfoldable pub is_streaming_rest_operation : String → List ℕ → Bool
is_streaming_rest_operation method path =
    (str_eq method "POST" && codes_eq path (codes "message:stream"))
    || ((str_eq method "GET" || str_eq method "POST")
        && is_task (is_segment_then (codes ":subscribe")) path)

-- [^/]+/pushNotificationConfigs(?:/[^/]+)?, once a code is read
push_tail : Option (List ℕ) → Bool
push_tail none = false
push_tail (some []) = true
push_tail (some (c ∷ cs)) = c == b'/' && is_segment cs

unfoldable pub is_push_config : List ℕ → Bool
unfolding push_tail
is_push_config [] = false
is_push_config (c ∷ cs) =
    let rest = is_push_config cs in
    not (c == b'/') && (push_tail (strip_prefix (codes "/pushNotificationConfigs") cs) || rest)

pub data RestError : Type 0 where
  push_notification_not_supported unsupported_operation version_not_supported : RestError

-- _known_unsupported_rest_error
unfoldable pub known_unsupported_rest_error : List ℕ → Option RestError
known_unsupported_rest_error path =
    if is_task is_push_config path
    then some push_notification_not_supported
    else if codes_eq path (codes "extendedAgentCard")
    then some unsupported_operation
    else none

is_profile : Option (List ℕ) → Bool
is_profile (some (major ∷ minor ∷ more)) = major == 1 && minor == 0
is_profile _ = false

-- _supports_a2a_version
unfoldable pub supports_a2a_version : Libraries → Option String → Bool
unfolding is_profile
supports_a2a_version lib none = false
supports_a2a_version lib (some v) = truthy v && is_profile (lib.release v)
