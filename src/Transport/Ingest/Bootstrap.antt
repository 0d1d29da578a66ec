-- ===== src/Transport/Ingest/Bootstrap.antt =====
-- The session that a first TASK_REQUEST creates (ingest_envelope of
-- kin-node/kin/transport/v11.py, step 3). A goal, a peer or an agent of a type that its column or
-- the encryption refuses raises; so does, here, a number that stands for the peer or the agent.
use kin_gateway.Prelude.{
  ℕ, ◌+◌, String, ◌⊎◌, inl, inr, Bool, true, false, ◌&&◌, Option, none, some, [], ◌∷◌, ◌++◌, str_eq,
  ltb, leb, if◌then◌else◌, or_else, truthy, str_in, Result, ok, ◌>>=◌, ◌>>◌, ensure, want,
}
use kin_gateway.Json.{
  Json, null, boolean, integer, float, text, array, object, Members, is_truthy, lookup, as_text,
}
use kin_gateway.Session.Message.{Envelope}
use kin_gateway.Session.State.{SessionState}
use kin_gateway.Session.Status.{draft}
use kin_gateway.Storage.Services.{Services, encrypt_field}
use kin_gateway.Storage.Tables.{SessionRow, Db}
use kin_gateway.Transport.Ingest.Model.{
  Env, Moment, RejectCode, invalid_session_type, IngestFault, invalid_value,
}

-- SessionType(v)
unfoldable pub session_type_of : Option Json → Option String
session_type_of none = some "ask"
session_type_of (some (text s)) =
    if str_in s
      ("ask" ∷ "research" ∷ "debate" ∷ "build_pipeline" ∷ "review" ∷ "delegate_subtask" ∷ [])
    then some s
    else none
session_type_of _ = none

-- raw_max_turns; True is the integer 1.
unfoldable pub turn_limit_of : Option Json → ℕ
turn_limit_of (some (integer false n)) = if leb 1 n && leb n 12 then n else 12
turn_limit_of (some (boolean true)) = 1
turn_limit_of _ = 12

-- payload.get(key, default), and whether a column can hold it: an integer that 64 bits do not hold
-- raises, as a list and a dict do.
budget_of : Option Json → Json → Json
budget_of none d = d
budget_of (some v) d = v

is_column_value : Json → Bool
is_column_value (array vs) = false
is_column_value (object ms) = false
is_column_value (integer false n) = ltb n 9_223_372_036_854_775_808
is_column_value (integer true n) = leb n 9_223_372_036_854_775_808
is_column_value _ = true

-- encrypt_field(vault_key, payload.get("goal", ""))
objective_of : Services → String → Option Json → Option (Option String)
unfolding encrypt_field
objective_of sv nonce none = some (encrypt_field sv nonce (some ""))
objective_of sv nonce (some null) = some none
objective_of sv nonce (some (text s)) = some (encrypt_field sv nonce (some s))
objective_of sv nonce _ = none

-- payload.get("peer_username", "")
peer_of : Option Json → Option String
peer_of none = some ""
peer_of (some v) = as_text v

-- requested_agent_id if requested_agent_id else None
requested_of : Option Json → Option (Option String)
requested_of none = some none
requested_of (some (text s)) = some (if truthy s then some s else none)
requested_of (some v) = if is_truthy v then none else some none

-- The budgets of a session: the two kinds that build have defaults.
pub record Budgets : Type 0 where
  pub runtime : Json
  pub artifact_bytes : Json
  pub cost : Json

default_for : Bool → Json → Json
default_for builds v = if builds then v else null

unfoldable pub budgets_of : String → Members → Budgets
unfolding budget_of default_for
budgets_of kind_of_session payload =
    let builds = str_in kind_of_session ("build_pipeline" ∷ "delegate_subtask" ∷ []) in
    record {
      runtime =
          budget_of (lookup payload "runtime_budget_seconds")
            (default_for builds (integer false 86_400));
      artifact_bytes =
          budget_of (lookup payload "artifact_bytes_budget")
            (default_for builds (integer false 50_000_000));
      cost =
          budget_of (lookup payload "cost_budget_estimate")
            (default_for builds (float false 100 false 0));
    }

budgets_fit : Budgets → Bool
unfolding is_column_value
budgets_fit b =
    is_column_value b.runtime && is_column_value b.artifact_bytes && is_column_value b.cost

-- DEFAULT_EXPIRY_TTL_SECONDS, in microseconds
abbrev expiry_ttl : ℕ
expiry_ttl = 604_800_000_000

unfoldable pub draft_row :
    Env → Moment → Envelope → String → String → Option String → Option String → Budgets → SessionRow
unfolding turn_limit_of
draft_row env m e session_type receiver goal agent b = record {
  session_id = e.session_id;
  initiator_username = e.actor_username;
  receiver_username = receiver;
  status = draft;
  sender_agent_id = some e.actor_agent_id;
  receiver_agent_id = agent;
  turn_limit = turn_limit_of (lookup e.payload "max_turns");
  updated_at = m.now_str;
  session_type = session_type;
  objective = goal;
  runtime_budget_seconds = b.runtime;
  artifact_bytes_budget = b.artifact_bytes;
  cost_budget_estimate = b.cost;
  cumulative_artifact_bytes = 0;
  created_at = m.now_str;
  expires_at = some (env.expiry_text (m.now + expiry_ttl));
}

-- The state of the new session, which the code builds from the same values.
unfoldable pub draft_state : Envelope → SessionRow → SessionState
draft_state e r = record {
  session_id = e.session_id;
  initiator_username = r.initiator_username;
  receiver_username = r.receiver_username;
  status = draft;
  current_turn = 0;
  max_turns = r.turn_limit;
  actor_sequences = [];
  participants = (e.actor_username, record { agent_id = e.actor_agent_id; role = "owner" }) ∷ [];
  last_resumable_status = none;
  events = [];
}

-- What ends a call: a rejection or an exception.
abbrev pub Ended : Type 0
Ended = RejectCode ⊎ IngestFault

unfoldable pub new_session : Env → Moment → Envelope → Db → Result Ended SessionRow
unfolding session_type_of objective_of peer_of requested_of budgets_of budgets_fit draft_row
new_session env m e db = do
  session_type ←
      want (inl invalid_session_type) (session_type_of (lookup e.payload "collaboration_mode"))
  receiver ← want (inr invalid_value) (
      if str_eq e.actor_username (or_else db.identity "")
      then peer_of (lookup e.payload "peer_username")
      else some (or_else db.identity ""))
  goal ← want (inr invalid_value) (objective_of env.services m.nonce (lookup e.payload "goal"))
  agent ← want (inr invalid_value) (requested_of (lookup e.payload "requested_agent_id"))
  ensure (budgets_fit (budgets_of session_type e.payload)) (inr invalid_value)
  ok (draft_row env m e session_type receiver goal agent (budgets_of session_type e.payload))

-- INSERT INTO sessions
unfoldable pub insert_session : SessionRow → Db → Db
insert_session r db = record db { sessions = db.sessions ++ r ∷ [] }
