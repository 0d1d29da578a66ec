-- ===== src/Session/State.antt =====
-- The state of the reducer and what a call of it gives back
-- (kin-node/kin/session/reducer.py: ParticipantInfo, SessionState, ReducerResult).
-- The texts of the error messages are left out.
use kin_gateway.Prelude.{
  ℕ, String, Bool, true, false, ◌&&◌, ◌||◌, Option, none, some, List, [], ◌∷◌, str_eq, Dict,
}
use kin_gateway.Json.{Json}
use kin_gateway.Session.Message.{Envelope}
use kin_gateway.Session.Status.{Status}

pub record ParticipantInfo : Type 0 where
  pub agent_id : String
  pub role : String

-- An entry of `events`: the dump of an accepted envelope, or a row of the database.
pub record StoredEvent : Type 0 where
  pub event_id : String
  pub sequence : Option ℕ
  pub actor_username : String
  pub kind : String
  pub visibility : String
  pub payload : Json
  pub created_at : String

pub data Event : Type 0 where
  dumped : Envelope → Event
  stored : StoredEvent → Event

pub record SessionState : Type 0 where
  pub session_id : String
  pub initiator_username : String
  pub receiver_username : String
  pub status : Status
  pub current_turn : ℕ
  pub max_turns : ℕ
  pub actor_sequences : Dict ℕ
  pub participants : Dict ParticipantInfo
  pub last_resumable_status : Option Status
  pub events : List Event

-- Whether a participant with the role "owner" goes by a name.
is_owner_participant : String → Dict ParticipantInfo → Bool
is_owner_participant user [] = false
is_owner_participant user ((name, info) ∷ rest) =
    (str_eq info.role "owner" && str_eq user name) || is_owner_participant user rest

-- user in state.owner_usernames
unfoldable pub is_owner_username : SessionState → String → Bool
unfolding is_owner_participant
is_owner_username state user =
    str_eq user state.initiator_username
    || str_eq user state.receiver_username
    || is_owner_participant user state.participants

pub data ErrorCode : Type 0 where
  terminal_state_immutable session_id_mismatch unauthorized_actor unauthorized_agent : ErrorCode
  unauthorized_role_action duplicate_sequence out_of_order_sequence : ErrorCode
  invalid_state_transition turn_limit_exceeded unknown_node_command : ErrorCode
  unauthorized_owner invalid_approval_decision unknown_owner_action : ErrorCode

-- What Python raises where the reducer does not return.
pub data Fault : Type 0 where
  -- a local variable is read before a value is bound to it
  unbound_local : Fault
  -- pydantic refuses the fields of a model
  validation_error : Fault

pub record ReducerResult : Type 0 where
  pub success : Bool
  pub new_state : SessionState
  pub error_code : Option ErrorCode

pub data Outcome : Type 0 where
  returned : ReducerResult → Outcome
  raised : Fault → Outcome

abbrev pub reject : SessionState → ErrorCode → Outcome
reject state code = returned (record { success = false; new_state = state; error_code = some code })

abbrev pub accept : SessionState → Outcome
accept state = returned (record { success = true; new_state = state; error_code = none })
