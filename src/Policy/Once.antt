-- ===== src/Policy/Once.antt =====
-- An approval is decided once (decide_approval of kin-node/kin/policy/persistence.py).
use mathlib.Core.Option
use kin_gateway.Prelude.{
  String, ◌≡◌, refl, sym, ap, ◌∙◌, subst, true, Option, none, some, List, [], ◌∷◌, arith, eq_iff,
  if◌then◌else◌, is_some, find_first_append, find_first, update_where, any, ok, err,
}
use kin_gateway.Audit.Writer.{write_audit_event}
use kin_gateway.Policy.Decide.{
  of_input, Decide, decision_payload, open_approval, decide_checks, after_checks, decide_approval,
}
use kin_gateway.Policy.Decided.{checks_open, open_row, decided_through, transition_moved}
use kin_gateway.Policy.Machine.{
  PolicyCall, policy_calls, consume_row, Change, same_rows, used_row, redecided_row, added_row,
  calls_keep,
}
use kin_gateway.Policy.Record.{has_approval_id, decide_row, record_approval_decision}
use kin_gateway.Policy.Store.{already_decided}
use kin_gateway.Policy.Terms.{found_update}
use kin_gateway.Schemas.Approvals.{ActionClass, DecisionKind, ApprovalDecision}
use kin_gateway.Session.Reconstruct.{reconstruct_session_state}
use kin_gateway.Storage.Services.{Services, Stamp, encrypt_field}
use kin_gateway.Storage.Tables.{ApprovalRow, Db}
use kin_gateway.Transport.Queue.Retry.{opened}
use kin_gateway.Transport.Transitions.{apply_owner_command_transition}

decided_row_found :
    (d : ApprovalDecision) (request : Option String) (rs : List ApprovalRow)
    → (find_first
        (has_approval_id d.approval_id)
        (update_where (has_approval_id d.approval_id) (decide_row d request) rs))
      ≡ Option.map (decide_row d request) (find_first (has_approval_id d.approval_id) rs)
unfolding has_approval_id decide_row
decided_row_found d request [] = refl
decided_row_found d request (r ∷ rs) = ground (arith, decided_row_found d request rs)

found_any :
    (id : String) (rs : List ApprovalRow) (r : ApprovalRow)
    → find_first (has_approval_id id) rs ≡ some r
    → any (has_approval_id id) rs ≡ true
found_any id [] r h = cc
found_any id (x ∷ xs) r h = ground (arith, found_any id xs r)

recorded_rows :
    (sv : Services) (st : Stamp) (d : ApprovalDecision) (agent : Option String)
    (class : ActionClass) (expires : String) (db after : Db)
    → any (has_approval_id d.approval_id) db.approvals ≡ true
    → record_approval_decision sv st d agent class expires none db ≡ (ok tt, after)
    → after.approvals
      ≡ update_where (has_approval_id d.approval_id) (decide_row d none) db.approvals
unfolding record_approval_decision write_audit_event encrypt_field
recorded_rows sv st d agent class expires db after there h = ground arith

decided_row :
    (sv : Services) (st : Stamp) (d : ApprovalDecision) (agent : Option String)
    (class : ActionClass) (expires : String) (db after : Db) (row : ApprovalRow)
    → find_first (has_approval_id d.approval_id) db.approvals ≡ some row
    → record_approval_decision sv st d agent class expires none db ≡ (ok tt, after)
    → find_first (has_approval_id d.approval_id) after.approvals ≡ some (decide_row d none row)
decided_row sv st d agent class expires db after row found h =
    rw
      (recorded_rows sv st d agent class expires db after
        (found_any d.approval_id db.approvals row found) h)
      (decided_row_found d none db.approvals ∙ ap (Option.map (decide_row d none)) found)

-- The row of a decided approval afterwards.
decided_left :
    (sv : Services) (ms st : Stamp) (a : Decide) (d : ApprovalDecision) (db after : Db)
    → decide_approval sv ms st a db ≡ (ok d, after)
    → (row : ApprovalRow) × (row.session_id ≡ a.session_id)
      × (find_first (has_approval_id a.approval_id) after.approvals ≡ some (decide_row d none row))
unfolding apply_owner_command_transition
decided_left sv ms st a d db after h =
    let w = decided_through sv ms st a d db after h in
    let (opened, id, session) = checks_open sv a db w.row d w.checks in
    let (found, in_session, undecided, in_time) = open_row a db w.row opened in
    let (state, read, m) =
      transition_moved ms a.session_id a.owner_username (some (decision_payload d.decision))
        (reconstruct_session_state sv db a.session_id) w.new db w.between w.transition in
    let there : find_first (has_approval_id d.approval_id) w.between.approvals ≡ some w.row =
      rw (m.approvals, id) found in
    (
      w.row,
      in_session,
      subst
          (λ (k : String).
            find_first (has_approval_id k) after.approvals ≡ some (decide_row d none w.row))
          id
          (decided_row sv st d w.row.agent_id w.class w.row.expires_at w.between after w.row there
            w.recorded),
    )

closed_checks :
    (sv : Services) (a : Decide) (db : Db) (k : DecisionKind) (row : ApprovalRow)
    → of_input a.decision ≡ some k
    → find_first (has_approval_id a.approval_id) db.approvals ≡ some row
    → row.session_id ≡ a.session_id
    → is_some row.decision ≡ true
    → decide_checks sv a db ≡ err already_decided
unfolding decide_checks open_approval
closed_checks sv a db k row input found session decided =
    ground (arith, eq_iff row.session_id a.session_id)

-- The row that the lookup of the id finds is of the session and decided.
record IsDecided (id session : String) (rows : List ApprovalRow) : Type 0 where
  row : ApprovalRow
  found : find_first (has_approval_id id) rows ≡ some row
  in_session : row.session_id ≡ session
  decided : is_some row.decision ≡ true

update-IsDecided :
    (id session at_id : String) (f : ApprovalRow → ApprovalRow)
    → ((r : ApprovalRow) → (f r).approval_id ≡ r.approval_id)
    → ((r : ApprovalRow) → (f r).session_id ≡ r.session_id)
    → ((r : ApprovalRow) → is_some r.decision ≡ true → is_some (f r).decision ≡ true)
    → (rows : List ApprovalRow) → IsDecided id session rows
    → IsDecided id session (update_where (has_approval_id at_id) f rows)
update-IsDecided id session at_id f same same_session stays rows h = record {
  row = if has_approval_id at_id h.row then f h.row else h.row;
  found =
      found_update id at_id f same rows
      ∙ ap (Option.map (λ r. if has_approval_id at_id r then f r else r)) h.found;
  in_session = ground (arith, same_session h.row, h.in_session);
  decided = ground (arith, stays h.row, h.decided);
}

Change-IsDecided :
    (id session : String) (old new : List ApprovalRow)
    → Change old new
    → IsDecided id session old
    → IsDecided id session new
unfolding decide_row
Change-IsDecided id session old new (same_rows e) h = rw e h
Change-IsDecided id session old new (used_row at_id now e) h =
    rw e
      (update-IsDecided id session at_id (consume_row now) (λ r. refl) (λ r. refl) (λ r d. d) old h)
Change-IsDecided id session old new (redecided_row d request e) h = rw e (
    update-IsDecided id session d.approval_id (decide_row d request) (λ r. refl) (λ r. refl)
      (λ r u. refl) old h)
Change-IsDecided id session old new (added_row r free e) h = rw e (record {
  row = h.row;
  found = find_first_append (has_approval_id id) old (r ∷ []) h.row h.found;
  in_session = h.in_session;
  decided = h.decided;
})

-- An approval is decided once: when a decision has succeeded, then after any calls of the four
-- functions that write approvals (evaluations, requests, records and decisions), a decision of the
-- same approval in the same session, made with a known decision value, is refused as already
-- decided and changes nothing.
pub decide_once :
    (sv : Services) (ms st ms' st' : Stamp) (a again : Decide) (d : ApprovalDecision)
    (db after : Db) (calls : List PolicyCall) (k : DecisionKind)
    → decide_approval sv ms st a db ≡ (ok d, after)
    → again.approval_id ≡ a.approval_id
    → again.session_id ≡ a.session_id
    → of_input again.decision ≡ some k
    → decide_approval sv ms' st' again (policy_calls sv calls after)
      ≡ (err already_decided, policy_calls sv calls after)
unfolding decide_approval after_checks decide_row
decide_once sv ms st ms' st' a again d db after calls k h same_id same_session input =
    let (row, session, left) = decided_left sv ms st a d db after h in
    let first : IsDecided a.approval_id a.session_id after.approvals = record {
      row = decide_row d none row;
      found = left;
      in_session = session;
      decided = refl;
    } in
    let still =
      calls_keep (IsDecided a.approval_id a.session_id)
        (Change-IsDecided a.approval_id a.session_id) sv calls after first in
    rw
      (closed_checks sv again (policy_calls sv calls after) k still.row input
        (subst
          (λ (id : String).
            find_first (has_approval_id id) (policy_calls sv calls after).approvals
            ≡ some still.row)
          (sym same_id) still.found)
        (still.in_session ∙ sym same_session) still.decided)
      refl
