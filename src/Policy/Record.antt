-- ===== src/Policy/Record.antt =====
-- record_approval_decision and create_pending_approval of kin-node/kin/policy/persistence.py.
use kin_gateway.Prelude.{
  String, Bool, not, ◌||◌, Option, none, some, [], ◌∷◌, ◌++◌, str_eq, if◌then◌else◌, update_where,
  any, Result, ok, err,
}
use kin_gateway.Audit.Writer.{write_audit_event}
use kin_gateway.Policy.Store.{PolicyError, integrity_error}
use kin_gateway.Schemas.Approvals.{
  ActionClass, action_class_value, decision_value, ApprovalRequest, ApprovalDecision,
}
use kin_gateway.Storage.Services.{Services, Stamp, encrypt_field}
use kin_gateway.Storage.Tables.{ApprovalRow, Db, has_session}

unfoldable pub has_approval_id : String → ApprovalRow → Bool
has_approval_id id r = str_eq r.approval_id id

coalesce : Option String → Option String → Option String
coalesce none old = old
coalesce (some s) old = some s

-- The UPDATE of a row that exists: its expiry stays.
unfoldable pub decide_row : ApprovalDecision → Option String → ApprovalRow → ApprovalRow
unfolding coalesce
decide_row d request r = record r {
  decision = some (decision_value d.decision);
  decided_at = some d.decided_at;
  request_json = coalesce request r.request_json;
}

unfoldable pub new_row :
    ApprovalDecision → Option String → ActionClass → String → Option String → ApprovalRow
new_row d agent class expires request = record {
  approval_id = d.approval_id;
  session_id = d.session_id;
  agent_id = agent;
  action_class = action_class_value class;
  request_json = request;
  decision = some (decision_value d.decision);
  decided_at = some d.decided_at;
  expires_at = expires;
  consumed_at = none;
}

log_decision : Stamp → ApprovalDecision → Db → Db
unfolding write_audit_event
log_decision st d db =
    write_audit_event st "approval_decision" (some d.session_id) (some d.decided_by)
      (some d.session_id) db

-- `st` stamps the audit row and seals the request.
unfoldable pub record_approval_decision :
    Services
    → Stamp
    → ApprovalDecision
    → Option String
    → ActionClass
    → String
    → Option String
    → Db
    → Result PolicyError (Unit {0}) × Db
unfolding log_decision
record_approval_decision sv st d agent class expires request db =
    let sealed = encrypt_field sv st.nonce request in
    if any (has_approval_id d.approval_id) db.approvals
    then (
      ok tt,
      log_decision st d (record db {
        approvals = update_where (has_approval_id d.approval_id) (decide_row d sealed) db.approvals;
      }),
    )
    else if has_session db d.session_id
    then (
      ok tt,
      log_decision st d
          (record db { approvals = db.approvals ++ new_row d agent class expires sealed ∷ [] }),
    )
    else (err integrity_error, db)

unfoldable pub pending_row :
    Services → Stamp → ApprovalRequest → String → ActionClass → String → String → ApprovalRow
unfolding encrypt_field
pending_row sv st q agent class expires dumped_request = record {
  approval_id = q.approval_id;
  session_id = q.session_id;
  agent_id = some agent;
  action_class = action_class_value class;
  request_json = encrypt_field sv st.nonce (some dumped_request);
  decision = none;
  decided_at = none;
  expires_at = expires;
  consumed_at = none;
}

-- The insertion fails on a used approval id and on a session that is not there. `dumped_request` is
-- the request's JSON.
unfoldable pub create_pending_approval :
    Services
    → Stamp
    → ApprovalRequest
    → String
    → ActionClass
    → String
    → String
    → Db
    → Result PolicyError String × Db
unfolding pending_row write_audit_event has_approval_id
create_pending_approval sv st q agent class expires dumped_request db =
    if any (has_approval_id q.approval_id) db.approvals || not (has_session db q.session_id)
    then (err integrity_error, db)
    else (
      ok q.approval_id,
      write_audit_event st "approval_request" (some q.session_id) (some agent) (some q.session_id)
          (record db {
            approvals = db.approvals ++ pending_row sv st q agent class expires dumped_request ∷ [];
          }),
    )
