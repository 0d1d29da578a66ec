-- ===== src/Session/Message.antt =====
-- kin-node/kin/schemas.py: message kinds and the signed envelope; the status that a kind asks for,
-- and the kinds that consume a turn or want an owner (kin-node/kin/session/reducer.py).
-- The two version fields of an envelope have one admissible value each and are left out.
use kin_gateway.Prelude.{
  ℕ, String, Bool, true, false, Option, none, some, List, [], ◌∷◌, str_eq, find_first,
}
use kin_gateway.Json.{Members}
use kin_gateway.Session.Status.{
  Status, sent, needs_clarification, accepted, active, awaiting_owner_approval, completed,
  cancelled, declined,
}

pub data MessageKind : Type 0 where
  task_request acceptance decline clarification plan proposal counterproposal : MessageKind
  finding question answer artifact_offer artifact_accept : MessageKind
  approval_request approval_decision status_event final_result cancel : MessageKind
  participant_changed : MessageKind

-- kind.value, and MessageKind(value)
unfoldable pub kind_value : MessageKind → String
kind_value task_request = "task_request"
kind_value acceptance = "acceptance"
kind_value decline = "decline"
kind_value clarification = "clarification"
kind_value plan = "plan"
kind_value proposal = "proposal"
kind_value counterproposal = "counterproposal"
kind_value finding = "finding"
kind_value question = "question"
kind_value answer = "answer"
kind_value artifact_offer = "artifact_offer"
kind_value artifact_accept = "artifact_accept"
kind_value approval_request = "approval_request"
kind_value approval_decision = "approval_decision"
kind_value status_event = "status_event"
kind_value final_result = "final_result"
kind_value cancel = "cancel"
kind_value participant_changed = "participant_changed"

abbrev all_kinds : List MessageKind
all_kinds =
    task_request ∷ acceptance ∷ decline ∷ clarification ∷ plan ∷ proposal ∷ counterproposal
    ∷ finding ∷ question ∷ answer ∷ artifact_offer ∷ artifact_accept ∷ approval_request
    ∷ approval_decision ∷ status_event ∷ final_result ∷ cancel ∷ participant_changed ∷ []

unfoldable pub kind_of_value : String → Option MessageKind
unfolding kind_value
kind_of_value s = find_first (λ k. str_eq (kind_value k) s) all_kinds

pub record Envelope : Type 0 where
  pub session_id : String
  pub sequence : ℕ
  pub actor_username : String
  pub actor_agent_id : String
  pub timestamp : String
  pub kind : MessageKind
  pub content_hash : String
  pub payload : Members
  pub signature : Option String

-- PEER_KIND_TRANSITION_MAP
unfoldable pub peer_kind_transition : MessageKind → Option Status
peer_kind_transition task_request = some sent
peer_kind_transition acceptance = some accepted
peer_kind_transition decline = some declined
peer_kind_transition clarification = some needs_clarification
peer_kind_transition proposal = some active
peer_kind_transition counterproposal = some active
peer_kind_transition finding = some active
peer_kind_transition question = some active
peer_kind_transition answer = some active
peer_kind_transition artifact_offer = some active
peer_kind_transition artifact_accept = some active
peer_kind_transition approval_request = some awaiting_owner_approval
peer_kind_transition final_result = some completed
peer_kind_transition cancel = some cancelled
peer_kind_transition status_event = none
peer_kind_transition plan = some active
peer_kind_transition participant_changed = none
peer_kind_transition approval_decision = none

-- TURN_CONSUMING_KINDS
unfoldable pub consumes_turn : MessageKind → Bool
consumes_turn task_request = true
consumes_turn proposal = true
consumes_turn counterproposal = true
consumes_turn finding = true
consumes_turn question = true
consumes_turn answer = true
consumes_turn artifact_offer = true
consumes_turn artifact_accept = true
consumes_turn _ = false

-- OWNER_ONLY_KINDS
unfoldable pub is_owner_only : MessageKind → Bool
is_owner_only cancel = true
is_owner_only approval_decision = true
is_owner_only _ = false

-- envelope.kind == MessageKind.ACCEPTANCE
unfoldable pub is_acceptance : MessageKind → Bool
is_acceptance acceptance = true
is_acceptance _ = false
