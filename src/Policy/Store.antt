-- ===== src/Policy/Store.antt =====
-- kin-node/kin/policy/persistence.py: approvals in the database.
use kin_gateway.Prelude.{
  str_lt, String, Bool, true, false, not, ◌&&◌, Option, none, some, List, [], ◌∷◌, str_eq,
  if◌then◌else◌, keep, update_where, truthy, Result, ok, err,
}
use kin_gateway.Json.{Members}
use kin_gateway.Policy.Evaluator.{
  PolicyDecision, allowed, PolicyResult, PolicyFault, invalid_request, evaluate_action,
}
use kin_gateway.Schemas.Approvals.{
  ActionClass, action_class_value, DecisionKind, decision_of_value, ApprovalDecision,
}
use kin_gateway.Schemas.Cards.{AgentCard}
use kin_gateway.Schemas.Timestamp.{is_timestamp}
use kin_gateway.Storage.Tables.{ApprovalRow, Db}

unfoldable pub is_text : Option String → String → Bool
is_text none s = false
is_text (some t) s = str_eq t s

-- `decision != 'approve_once' OR consumed_at IS NULL`, with SQL's NULL: a pending row passes
-- through its empty `consumed_at`.
unfoldable pub unconsumed : ApprovalRow → Bool
unconsumed r = elim r.consumed_at [
  | none ↦ true
  | some t ↦ elim r.decision [ none ↦ false | some d ↦ not (str_eq d "approve_once") ]
]

-- The WHERE clause of the lookup of a prior approval.
unfoldable pub is_prior : String → String → ActionClass → String → ApprovalRow → Bool
unfolding is_text unconsumed
is_prior session agent class now r =
    str_eq r.session_id session
    && is_text r.agent_id agent
    && str_eq r.action_class (action_class_value class)
    && str_lt now r.expires_at
    && unconsumed r

-- The first decided later than the second; NULL stands last.
unfoldable pub decided_later : Option String → Option String → Bool
decided_later none _ = false
decided_later (some s) none = true
decided_later (some s) (some t) = str_lt t s

unfoldable pub later_row : ApprovalRow → Option ApprovalRow → ApprovalRow
unfolding decided_later
later_row r none = r
later_row r (some best) = if decided_later best.decided_at r.decided_at then best else r

-- ORDER BY decided_at DESC LIMIT 1; between equal times SQL has no rule, and the first row stands.
unfoldable pub newest : List ApprovalRow → Option ApprovalRow
unfolding later_row
newest [] = none
newest (r ∷ rs) = some (later_row r (newest rs))

unfoldable pub find_prior : String → String → ActionClass → String → Db → Option ApprovalRow
find_prior session agent class now db =
    newest (keep (is_prior session agent class now) db.approvals)

pub data PolicyError : Type 0 where
  -- pydantic refuses the stored decision, its time, or the approval request
  invalid_model : PolicyError
  -- DecisionKind(…) or ActionClass(…) of an unknown value
  unknown_value : PolicyError
  approval_not_found : PolicyError
  already_decided : PolicyError
  approval_expired : PolicyError
  invalid_decision_value : PolicyError
  transition_refused : PolicyError
  integrity_error : PolicyError
  reducer_fault : PolicyError

decision_model : ApprovalRow → String → Option DecisionKind → Result PolicyError ApprovalDecision
decision_model r at none = err invalid_model
decision_model r at (some kind) =
    if is_timestamp at
    then ok (record {
      approval_id = r.approval_id;
      session_id = r.session_id;
      decision = kind;
      decided_by = "owner";
      decided_at = at;
      constraints = none;
    })
    else err invalid_model

stored_kind : Option String → Option DecisionKind
unfolding decision_of_value
stored_kind none = none
stored_kind (some d) = decision_of_value d

-- `decided_at or now`
decided_or : Option String → String → String
decided_or none now = now
decided_or (some at) now = if truthy at then at else now

-- The ApprovalDecision that is made of a row.
unfoldable pub prior_of_row : ApprovalRow → String → Result PolicyError ApprovalDecision
unfolding stored_kind decision_model decided_or
prior_of_row r now = decision_model r (decided_or r.decided_at now) (stored_kind r.decision)

-- UPDATE approvals SET consumed_at = ? WHERE approval_id = ?
unfoldable pub consume : String → String → Db → Db
consume id now db = record db {
  approvals =
      update_where (λ (r : ApprovalRow). str_eq r.approval_id id)
        (λ r. record r { consumed_at = some now }) db.approvals;
}

unfoldable pub is_allowed : PolicyDecision → Bool
is_allowed allowed = true
is_allowed _ = false

lift_policy : Result PolicyFault PolicyResult → Result PolicyError PolicyResult
lift_policy (ok r) = ok r
lift_policy (err invalid_request) = err invalid_model

-- The result, with an approval used up where it was good for one action.
unfoldable pub use_up :
    Result PolicyFault PolicyResult
    → ApprovalRow
    → String
    → Db
    → Result PolicyError PolicyResult × Db
unfolding is_allowed consume is_text
use_up (err invalid_request) r now db = (err invalid_model, db)
use_up (ok res) r now db =
    if is_allowed res.decision && is_text r.decision "approve_once"
    then (ok res, consume r.approval_id now db)
    else (ok res, db)

unfoldable pub with_prior :
    AgentCard
    → ActionClass
    → Members
    → String
    → Db
    → ApprovalRow
    → Result PolicyError ApprovalDecision
    → Result PolicyError PolicyResult × Db
unfolding use_up
with_prior card class context now db r (err f) = (err f, db)
with_prior card class context now db r (ok prior) =
    use_up (evaluate_action card class context now (some prior) (some r.expires_at)) r now db

unfoldable pub evaluate_with :
    AgentCard
    → ActionClass
    → Members
    → String
    → Db
    → Option ApprovalRow
    → Result PolicyError PolicyResult × Db
unfolding with_prior lift_policy
evaluate_with card class context now db none =
    (lift_policy (evaluate_action card class context now none none), db)
evaluate_with card class context now db (some r) =
    with_prior card class context now db r (prior_of_row r now)

unfoldable pub evaluate_action_for_session :
    AgentCard → ActionClass → Members → String → String → Db → Result PolicyError PolicyResult × Db
unfolding evaluate_with
evaluate_action_for_session card class context session now db =
    evaluate_with card class context now db (find_prior session card.id class now db)
