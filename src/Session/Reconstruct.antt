-- ===== src/Session/Reconstruct.antt =====
-- reconstruct_session_state of kin-node/kin/session/reducer.py: the reducer's state from the rows
-- of a session. A dictionary's order of keys is not read by the reducer and is that of the rows.
use kin_gateway.Prelude.{
  get, put, ℕ, ◌+◌, max, String, Bool, ◌&&◌, Option, none, some, List, [], ◌∷◌, map, str_eq, leb,
  ◌==◌, if◌then◌else◌, or_else, keep, find_first, truthy, str_in, Dict,
}
use kin_gateway.Json.{Json, text, object, end, member}
use kin_gateway.Session.State.{ParticipantInfo, Event, stored, SessionState}
use kin_gateway.Storage.Services.{Services}
use kin_gateway.Storage.Tables.{SessionRow, EventRow, Db}

-- TURN_CONSUMING_KINDS by their values
abbrev turn_kinds : List String
turn_kinds =
    "task_request" ∷ "proposal" ∷ "counterproposal" ∷ "finding" ∷ "question" ∷ "answer"
    ∷ "artifact_offer" ∷ "artifact_accept" ∷ []

-- `x or d` for a nullable text
text_or : Option String → String → String
text_or none d = d
text_or (some s) d = if truthy s then s else d

abbrev owner_info : String → ParticipantInfo
owner_info agent = record { agent_id = agent; role = "owner" }

add_owner : String → Option String → Dict ParticipantInfo → Dict ParticipantInfo
unfolding text_or put
add_owner user agent people =
    if truthy user then put people user (owner_info (text_or agent user)) else people

unfoldable pub row_participants : SessionRow → Dict ParticipantInfo
unfolding add_owner
row_participants r =
    add_owner r.receiver_username r.receiver_agent_id
      (add_owner r.initiator_username r.sender_agent_id [])

-- MAX(sequence) for each actor with a name
raise_sequence : String → Option ℕ → Dict ℕ → Dict ℕ
unfolding get put
raise_sequence user none seqs = seqs
raise_sequence user (some n) seqs =
    if truthy user then put seqs user (max n (or_else (get seqs user) 0)) else seqs

unfoldable pub max_sequences : List EventRow → String → Dict ℕ
unfolding raise_sequence
max_sequences [] session = []
max_sequences (r ∷ rs) session =
    let rest = max_sequences rs session in
    if str_eq r.session_id session then raise_sequence r.actor_username r.sequence rest else rest

-- COUNT(*) of the session's events of a turn-consuming kind
unfoldable pub turn_count : List EventRow → String → ℕ
turn_count [] session = 0
turn_count (r ∷ rs) session =
    let rest = turn_count rs session in
    if str_eq r.session_id session && str_in r.kind turn_kinds then rest + 1 else rest

-- ORDER BY event_order ASC
insert_ordered : EventRow → List EventRow → List EventRow
insert_ordered x [] = x ∷ []
insert_ordered x (r ∷ rs) =
    if leb x.event_order r.event_order then x ∷ r ∷ rs else r ∷ insert_ordered x rs

unfoldable pub by_order : List EventRow → List EventRow
unfolding insert_ordered
by_order [] = []
by_order (r ∷ rs) = insert_ordered r (by_order rs)

raw_payload : String → Json
raw_payload token = object (member "raw" (text token) end)

loaded_payload : Services → String → Option String → Json
unfolding raw_payload
loaded_payload sv token none = raw_payload token
loaded_payload sv token (some plain) = elim (sv.loads plain) [
  | none ↦ raw_payload token
  | some j ↦ j
]

-- The payload of a row; what cannot be opened or read is shown raw.
row_payload : Services → Option String → Json
unfolding loaded_payload
row_payload sv none = object end
row_payload sv (some token) =
    if truthy token then loaded_payload sv token (sv.unseal token) else object end

unfoldable pub row_event : Services → EventRow → Event
unfolding row_payload
row_event sv r = stored (record {
  event_id = r.event_id;
  sequence = r.sequence;
  actor_username = r.actor_username;
  kind = r.kind;
  visibility = r.visibility;
  payload = row_payload sv r.payload_json;
  created_at = r.created_at;
})

unfoldable pub of_session : String → EventRow → Bool
of_session session r = str_eq r.session_id session

unfoldable pub state_of_row : Services → Db → SessionRow → SessionState
unfolding row_participants max_sequences turn_count by_order row_event of_session
state_of_row sv db r = record {
  session_id = r.session_id;
  initiator_username = r.initiator_username;
  receiver_username = r.receiver_username;
  status = r.status;
  current_turn = turn_count db.session_events r.session_id;
  max_turns = if r.turn_limit == 0 then 12 else r.turn_limit;
  actor_sequences = max_sequences db.session_events r.session_id;
  participants = row_participants r;
  last_resumable_status = none;
  events = map (row_event sv) (by_order (keep (of_session r.session_id) db.session_events));
}

unfoldable pub find_session : Db → String → Option SessionRow
find_session db session = find_first (λ (r : SessionRow). str_eq r.session_id session) db.sessions

unfoldable pub reconstruct_session_state : Services → Db → String → Option SessionState
unfolding find_session
reconstruct_session_state sv db session = elim (find_session db session) [
  | none ↦ none
  | some r ↦ some (state_of_row sv db r)
]
