-- ===== src/Policy/Decided.antt =====
-- decide_approval of kin-node/kin/policy/persistence.py: what a decision that succeeds has done.
use kin_gateway.Prelude.{
  str_le, String, ◌≡◌, refl, ◌∙◌, subst, inl, inr, false, Option, none, some, arith, eq_iff,
  Option-cases, find_first, Result, ok, err,
}
use kin_gateway.Audit.Writer.{write_audit_event}
use kin_gateway.Json.{Members}
use kin_gateway.Policy.Decide.{
  class_of_value, Decide, decision_payload, open_approval, decide_checks, finish, record_moved,
  after_move, after_checks, decide_approval,
}
use kin_gateway.Policy.Record.{has_approval_id, record_approval_decision}
use kin_gateway.Policy.Store.{PolicyError}
use kin_gateway.Schemas.Approvals.{ActionClass, ApprovalDecision}
use kin_gateway.Session.Reconstruct.{reconstruct_session_state}
use kin_gateway.Session.Reducer.Commands.{process_owner_command}
use kin_gateway.Session.Refusals.{Verdict, owner-Verdict}
use kin_gateway.Session.State.{SessionState, Outcome, returned, raised, accept}
use kin_gateway.Storage.Services.{Services, Stamp}
use kin_gateway.Storage.Tables.{ApprovalRow, Db}
use kin_gateway.Transport.Transitions.{
  set_status, Applied, moved, refused, broke, persist, apply_to, apply_owner_command_transition,
}

pub checks_open :
    (sv : Services) (a : Decide) (db : Db) (r : ApprovalRow) (d : ApprovalDecision)
    → decide_checks sv a db ≡ ok (r, d)
    → (open_approval a db ≡ ok r) × (d.approval_id ≡ a.approval_id) × (d.session_id ≡ a.session_id)
unfolding decide_checks
checks_open sv a db r d h = ground arith

pub open_row :
    (a : Decide) (db : Db) (r : ApprovalRow)
    → open_approval a db ≡ ok r
    → (find_first (has_approval_id a.approval_id) db.approvals ≡ some r)
      × (r.session_id ≡ a.session_id)
      × (r.decision ≡ none)
      × (str_le r.expires_at a.now ≡ false)
unfolding open_approval
open_row a db r h = elim (Option-cases (find_first (has_approval_id a.approval_id) db.approvals)) [
  | inl missing ↦ absurd (ground arith)
  | inr (x, found) ↦ ground (arith, found, eq_iff x.session_id a.session_id)
]

abbrev pub Verdicts : SessionState → Outcome → Type 0
Verdicts state (raised f) = Unit
Verdicts state (returned r) = Verdict state r

-- What a successful transition has done to the database.
pub record Moved (st : Stamp) (session : String) (o : Outcome) (new : SessionState) (db out : Db)
    : Type 0 where
  pub accepted_new : o ≡ accept new
  pub sessions : out.sessions ≡ (set_status session new.status st.now db).sessions
  pub approvals : out.approvals ≡ db.approvals

persist_moved :
    (st : Stamp) (session : String) (state new : SessionState) (o : Outcome) (db out : Db)
    → Verdicts state o
    → persist st session state o db ≡ (moved new, out)
    → Moved st session o new db out
unfolding persist write_audit_event set_status
persist_moved st session state new (raised f) db out v h = cc
persist_moved st session state new (returned r) db out v h = record {
  accepted_new = ground arith;
  sessions = ground arith;
  approvals = ground arith;
}

-- A decision goes through: the checks, the transition and the record, in this order.
pub record WentThrough (sv : Services) (ms st : Stamp) (a : Decide) (d : ApprovalDecision)
    (db after : Db) : Type 0 where
  pub row : ApprovalRow
  pub checks : decide_checks sv a db ≡ ok (row, d)
  pub new : SessionState
  pub between : Db
  pub transition :
      apply_owner_command_transition sv ms a.session_id a.owner_username "owner_approval_decision"
        (some (decision_payload d.decision))
        db
      ≡ (moved new, between)
  pub class : ActionClass
  pub known : class_of_value row.action_class ≡ some class
  pub recorded :
      record_approval_decision sv st d row.agent_id class row.expires_at none between
      ≡ (ok tt, after)

recorded_of_finish :
    (d d' : ApprovalDecision) (o : Result PolicyError (Unit {0}) × Db) (after : Db)
    → finish d o ≡ (ok d', after)
    → (d ≡ d') × (o ≡ (ok tt, after))
unfolding finish
recorded_of_finish d d' (ok u, db) after h = ground arith
recorded_of_finish d d' (err e, db) after h = cc

abbrev transition_of : Services → Stamp → Decide → ApprovalDecision → Db → Applied × Db
transition_of sv ms a d db =
    apply_owner_command_transition sv ms a.session_id a.owner_username "owner_approval_decision"
      (some (decision_payload d.decision)) db

through_record :
    (sv : Services) (ms st : Stamp) (a : Decide) (d d' : ApprovalDecision) (row : ApprovalRow)
    (db between after : Db) (new : SessionState) (c : Option ActionClass)
    → decide_checks sv a db ≡ ok (row, d)
    → transition_of sv ms a d db ≡ (moved new, between)
    → class_of_value row.action_class ≡ c
    → record_moved sv st row d c between ≡ (ok d', after)
    → WentThrough sv ms st a d' db after
unfolding record_moved
through_record sv ms st a d d' row db between after new none checks t known h =
    absurd (ground arith)
through_record sv ms st a d d' row db between after new (some class) checks t known h =
    let (same, done) = recorded_of_finish d d' _ after h in
    subst (λ (x : ApprovalDecision). WentThrough sv ms st a x db after) same
      (record {
        row = row;
        checks = checks;
        new = new;
        between = between;
        transition = t;
        class = class;
        known = known;
        recorded = done;
      })

through_move :
    (sv : Services) (ms st : Stamp) (a : Decide) (d d' : ApprovalDecision) (row : ApprovalRow)
    (db after : Db) (m : Applied × Db)
    → decide_checks sv a db ≡ ok (row, d)
    → transition_of sv ms a d db ≡ m
    → after_move sv st row d m ≡ (ok d', after)
    → WentThrough sv ms st a d' db after
unfolding after_move
through_move sv ms st a d d' row db after (refused, x) checks t h = absurd (ground arith)
through_move sv ms st a d d' row db after (broke f, x) checks t h = absurd (ground arith)
through_move sv ms st a d d' row db after (moved new, between) checks t h =
    through_record sv ms st a d d' row db between after new (class_of_value row.action_class) checks
      t refl h

through_checks :
    (sv : Services) (ms st : Stamp) (a : Decide) (d' : ApprovalDecision) (db after : Db)
    (c : Result PolicyError (ApprovalRow × ApprovalDecision))
    → decide_checks sv a db ≡ c
    → after_checks sv ms st a c db ≡ (ok d', after)
    → WentThrough sv ms st a d' db after
unfolding after_checks
through_checks sv ms st a d' db after (err e) checks h = absurd (ground arith)
through_checks sv ms st a d' db after (ok (row, d)) checks h =
    through_move sv ms st a d d' row db after (transition_of sv ms a d db) checks refl h

pub decided_through :
    (sv : Services) (ms st : Stamp) (a : Decide) (d : ApprovalDecision) (db after : Db)
    → decide_approval sv ms st a db ≡ (ok d, after)
    → WentThrough sv ms st a d db after
unfolding decide_approval
decided_through sv ms st a d db after h =
    through_checks sv ms st a d db after (decide_checks sv a db) refl h

Verdicts-of :
    (state : SessionState) (user : String) (payload : Option Members) (o : Outcome)
    → process_owner_command state user "owner_approval_decision" payload ≡ o
    → Verdicts state o
Verdicts-of state user payload (raised f) h = tt
Verdicts-of state user payload (returned r) h =
    owner-Verdict state user "owner_approval_decision" payload r h

pub transition_moved :
    (st : Stamp) (session user : String) (payload : Option Members) (s : Option SessionState)
    (new : SessionState) (db out : Db)
    → apply_to st session
        (λ state. process_owner_command state user "owner_approval_decision" payload)
        s
        db
      ≡ (moved new, out)
    → (state : SessionState) × (s ≡ some state)
      × Moved st session
          (process_owner_command state user "owner_approval_decision" payload)
          new
          db
          out
unfolding apply_to
transition_moved st session user payload none new db out h = absurd (ground arith)
transition_moved st session user payload (some state) new db out h = (
  state,
  refl,
  persist_moved st session state new
      (process_owner_command state user "owner_approval_decision" payload) db out
      (Verdicts-of state user payload _ refl) h,
)

recorded_sessions :
    (sv : Services) (st : Stamp) (d : ApprovalDecision) (agent : Option String)
    (class : ActionClass) (expires : String) (db after : Db)
    → record_approval_decision sv st d agent class expires none db ≡ (ok tt, after)
    → after.sessions ≡ db.sessions
unfolding record_approval_decision write_audit_event
recorded_sessions sv st d agent class expires db after h = ground arith

-- A decision that succeeds moves the session by the owner's command: the stored status becomes the
-- one that the reducer gives for the reconstructed state.
pub decision_moves_session :
    (sv : Services) (ms st : Stamp) (a : Decide) (d : ApprovalDecision) (db after : Db)
    → decide_approval sv ms st a db ≡ (ok d, after)
    → (state new : SessionState) × (reconstruct_session_state sv db a.session_id ≡ some state)
      × (process_owner_command state a.owner_username "owner_approval_decision"
            (some (decision_payload d.decision))
          ≡ accept new)
      × (after.sessions ≡ (set_status a.session_id new.status ms.now db).sessions)
unfolding apply_owner_command_transition
decision_moves_session sv ms st a d db after h =
    let w = decided_through sv ms st a d db after h in
    let (state, read, m) =
      transition_moved ms a.session_id a.owner_username (some (decision_payload d.decision))
        (reconstruct_session_state sv db a.session_id) w.new db w.between w.transition in
    (
      state,
      w.new,
      read,
      m.accepted_new,
      recorded_sessions sv st d w.row.agent_id w.class w.row.expires_at w.between after w.recorded
          ∙ m.sessions,
    )
