-- ===== src/Policy/Machine.antt =====
-- Any sequence of calls on the stored approvals (kin-node/kin/policy/persistence.py), and what one
-- call does to the table.
use kin_gateway.Prelude.{
  String, ◌≡◌, refl, subst, inl, inr, false, ◌&&◌, Option, none, some, List, [], ◌∷◌, ◌++◌,
  Bool-cases, update_where, any, Result, ok, err,
}
use kin_gateway.Audit.Writer.{write_audit_event}
use kin_gateway.Json.{Members}
use kin_gateway.Policy.Decide.{
  class_of_value, Decide, decision_payload, decide_checks, finish, record_moved, after_move,
  after_checks, decide_approval,
}
use kin_gateway.Policy.Evaluator.{PolicyResult, PolicyFault, invalid_request, evaluate_action}
use kin_gateway.Policy.Record.{
  has_approval_id, decide_row, new_row, record_approval_decision, pending_row,
  create_pending_approval,
}
use kin_gateway.Policy.Store.{
  is_text, find_prior, PolicyError, prior_of_row, consume, is_allowed, use_up, with_prior,
  evaluate_with, evaluate_action_for_session,
}
use kin_gateway.Schemas.Approvals.{ActionClass, ApprovalRequest, ApprovalDecision}
use kin_gateway.Schemas.Cards.{AgentCard}
use kin_gateway.Storage.Services.{Services, Stamp, encrypt_field}
use kin_gateway.Storage.Tables.{ApprovalRow, Db, has_session}
use kin_gateway.Transport.Transitions.{
  Applied, moved, refused, broke, apply_owner_command_transition, owner_command-approvals,
}

-- The four operations that write approvals, with their arguments.
pub data PolicyCall : Type 0 where
  evaluate_one : AgentCard → ActionClass → Members → String → String → PolicyCall
  request_one : Stamp → ApprovalRequest → String → ActionClass → String → String → PolicyCall
  record_one :
      Stamp → ApprovalDecision → Option String → ActionClass → String → Option String → PolicyCall
  decide_one : Stamp → Stamp → Decide → PolicyCall

-- The database after a call, whether it returns or raises.
unfoldable pub policy_call : Services → PolicyCall → Db → Db
unfolding evaluate_action_for_session create_pending_approval record_approval_decision
    decide_approval
policy_call sv (evaluate_one card class context session now) db =
    (evaluate_action_for_session card class context session now db).1
policy_call sv (request_one st q agent class expires dumped_request) db =
    (create_pending_approval sv st q agent class expires dumped_request db).1
policy_call sv (record_one st d agent class expires request) db =
    (record_approval_decision sv st d agent class expires request db).1
policy_call sv (decide_one ms st a) db = (decide_approval sv ms st a db).1

unfoldable pub policy_calls : Services → List PolicyCall → Db → Db
unfolding policy_call
policy_calls sv [] db = db
policy_calls sv (c ∷ cs) db = policy_calls sv cs (policy_call sv c db)

abbrev pub consume_row : String → ApprovalRow → ApprovalRow
consume_row now r = record r { consumed_at = some now }

-- What a call does to the rows: nothing, the two UPDATEs, or a row with an id that is new.
pub data Change (old new : List ApprovalRow) : Type 0 where
  same_rows : new ≡ old → Change old new
  used_row :
      (used_id : String) (used_at : String)
      → new ≡ update_where (has_approval_id used_id) (consume_row used_at) old
      → Change old new
  redecided_row :
      (d : ApprovalDecision) (request : Option String)
      → new ≡ update_where (has_approval_id d.approval_id) (decide_row d request) old
      → Change old new
  added_row :
      (r : ApprovalRow)
      → any (has_approval_id r.approval_id) old ≡ false
      → new ≡ old ++ r ∷ []
      → Change old new

use_up-Change :
    (res : Result PolicyFault PolicyResult) (r : ApprovalRow) (now : String) (db : Db)
    → Change db.approvals (use_up res r now db).1.approvals
unfolding use_up consume has_approval_id
use_up-Change (err invalid_request) r now db = same_rows refl
use_up-Change (ok res) r now db =
    elim (Bool-cases (is_allowed res.decision && is_text r.decision "approve_once")) [
      | inl once ↦ rw once (used_row r.approval_id now refl)
      | inr more ↦ rw more (same_rows refl)
    ]

with_prior-Change :
    (card : AgentCard) (class : ActionClass) (context : Members) (now : String) (db : Db)
    (r : ApprovalRow) (prior : Result PolicyError ApprovalDecision)
    → Change db.approvals (with_prior card class context now db r prior).1.approvals
unfolding with_prior
with_prior-Change card class context now db r (err f) = same_rows refl
with_prior-Change card class context now db r (ok prior) =
    use_up-Change (evaluate_action card class context now (some prior) (some r.expires_at)) r now db

evaluate-Change :
    (card : AgentCard) (class : ActionClass) (context : Members) (now : String) (db : Db)
    (row : Option ApprovalRow)
    → Change db.approvals (evaluate_with card class context now db row).1.approvals
unfolding evaluate_with
evaluate-Change card class context now db none = same_rows refl
evaluate-Change card class context now db (some r) =
    with_prior-Change card class context now db r (prior_of_row r now)

create-Change :
    (sv : Services) (st : Stamp) (q : ApprovalRequest) (agent : String) (class : ActionClass)
    (expires dumped_request : String) (db : Db)
    → Change db.approvals
        (create_pending_approval sv st q agent class expires dumped_request db).1.approvals
unfolding create_pending_approval write_audit_event pending_row
create-Change sv st q agent class expires dumped_request db =
    elim (Bool-cases (any (has_approval_id q.approval_id) db.approvals)) [
      | inl used ↦ rw used (same_rows refl)
      | inr free ↦ elim (Bool-cases (has_session db q.session_id)) [
        | inl there ↦
            rw (free, there)
              (added_row (pending_row sv st q agent class expires dumped_request) free refl)
        | inr gone ↦ rw (free, gone) (same_rows refl)
      ]
    ]

record-Change :
    (sv : Services) (st : Stamp) (d : ApprovalDecision) (agent : Option String)
    (class : ActionClass) (expires : String) (request : Option String) (db : Db)
    → Change db.approvals
        (record_approval_decision sv st d agent class expires request db).1.approvals
unfolding record_approval_decision write_audit_event new_row
record-Change sv st d agent class expires request db =
    let sealed = encrypt_field sv st.nonce request in
    elim (Bool-cases (any (has_approval_id d.approval_id) db.approvals)) [
      | inl used ↦ rw used (redecided_row d sealed refl)
      | inr free ↦ elim (Bool-cases (has_session db d.session_id)) [
        | inl there ↦ rw (free, there) (added_row (new_row d agent class expires sealed) free refl)
        | inr gone ↦ rw (free, gone) (same_rows refl)
      ]
    ]

finish-Change :
    (d : ApprovalDecision) (o : Result PolicyError (Unit {0}) × Db) (old : List ApprovalRow)
    → Change old o.1.approvals
    → Change old (finish d o).1.approvals
unfolding finish
finish-Change d (err e, db) old h = h
finish-Change d (ok u, db) old h = h

recorded-Change :
    (sv : Services) (st : Stamp) (r : ApprovalRow) (d : ApprovalDecision) (c : Option ActionClass)
    (db : Db)
    → Change db.approvals (record_moved sv st r d c db).1.approvals
unfolding record_moved
recorded-Change sv st r d none db = same_rows refl
recorded-Change sv st r d (some class) db =
    finish-Change d (record_approval_decision sv st d r.agent_id class r.expires_at none db)
      db.approvals (record-Change sv st d r.agent_id class r.expires_at none db)

moved-Change :
    (sv : Services) (st : Stamp) (r : ApprovalRow) (d : ApprovalDecision) (m : Applied × Db)
    → Change m.1.approvals (after_move sv st r d m).1.approvals
unfolding after_move
moved-Change sv st r d (refused, db) = same_rows refl
moved-Change sv st r d (broke f, db) = same_rows refl
moved-Change sv st r d (moved state, db) =
    recorded-Change sv st r d (class_of_value r.action_class) db

checked-Change :
    (sv : Services) (ms st : Stamp) (a : Decide)
    (checks : Result PolicyError (ApprovalRow × ApprovalDecision)) (db : Db)
    → Change db.approvals (after_checks sv ms st a checks db).1.approvals
unfolding after_checks
checked-Change sv ms st a (err e) db = same_rows refl
checked-Change sv ms st a (ok (r, d)) db =
    let m =
      apply_owner_command_transition sv ms a.session_id a.owner_username "owner_approval_decision"
        (some (decision_payload d.decision)) db in
    subst (λ (old : List ApprovalRow). Change old (after_move sv st r d m).1.approvals)
      (owner_command-approvals sv ms a.session_id a.owner_username "owner_approval_decision"
        (some (decision_payload d.decision)) db)
      (moved-Change sv st r d m)

pub call-Change :
    (sv : Services) (c : PolicyCall) (db : Db) → Change db.approvals (policy_call sv c db).approvals
unfolding policy_call evaluate_action_for_session decide_approval
call-Change sv (evaluate_one card class context session now) db =
    evaluate-Change card class context now db (find_prior session card.id class now db)
call-Change sv (request_one st q agent class expires dumped_request) db =
    create-Change sv st q agent class expires dumped_request db
call-Change sv (record_one st d agent class expires request) db =
    record-Change sv st d agent class expires request db
call-Change sv (decide_one ms st a) db = checked-Change sv ms st a (decide_checks sv a db) db

-- What each change of the rows keeps, any sequence of calls keeps.
pub calls_keep :
    (P : List ApprovalRow → Type 0)
    → ((old new : List ApprovalRow) → Change old new → P old → P new)
    → (sv : Services) (cs : List PolicyCall) (db : Db) → P db.approvals
    → P (policy_calls sv cs db).approvals
unfolding policy_calls
calls_keep P keeps sv [] db h = h
calls_keep P keeps sv (c ∷ cs) db h =
    calls_keep P keeps sv cs (policy_call sv c db) (keeps _ _ (call-Change sv c db) h)
