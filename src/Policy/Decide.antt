-- ===== src/Policy/Decide.antt =====
-- decide_approval of kin-node/kin/policy/persistence.py.
use Prim.Native.Char.{Char, code}
use kin_gateway.Prelude.{
  str_le, ℕ, String, Bool, not, ◌&&◌, ◌||◌, Option, none, some, str_eq, leb, ◌==◌, if◌then◌else◌,
  is_some, find_first, truthy, Result, ok, err, ◌>>=◌, ◌>>◌, ensure,
}
use kin_gateway.Json.{text, Members, end, member}
use kin_gateway.Policy.Record.{has_approval_id, record_approval_decision}
use kin_gateway.Policy.Store.{
  PolicyError, invalid_model, unknown_value, approval_not_found, already_decided, approval_expired,
  invalid_decision_value, transition_refused, reducer_fault,
}
use kin_gateway.Schemas.Approvals.{
  ActionClass, informational_relay, session_participation, artifact_receipt, workspace_read,
  workspace_write, shell_network_external, DecisionKind, deny, edit_constraints, decision_value,
  decision_of_value, ApprovalDecision,
}
use kin_gateway.Schemas.Timestamp.{is_timestamp}
use kin_gateway.Session.Reconstruct.{reconstruct_session_state}
use kin_gateway.Session.Reducer.Commands.{process_owner_command}
use kin_gateway.Session.State.{Outcome, returned, raised}
use kin_gateway.Storage.Services.{Services, Stamp}
use kin_gateway.Storage.Tables.{ApprovalRow, Db}
use kin_gateway.Transport.Transitions.{
  Applied, moved, refused, broke, apply_owner_command_transition,
}

unfoldable pub class_of_value : String → Option ActionClass
class_of_value s =
    if str_eq s "informational_relay"
    then some informational_relay
    else if str_eq s "session_participation"
    then some session_participation
    else if str_eq s "artifact_receipt"
    then some artifact_receipt
    else if str_eq s "workspace_read"
    then some workspace_read
    else if str_eq s "workspace_write"
    then some workspace_write
    else if str_eq s "shell_network_external"
    then some shell_network_external
    else none

-- str.strip(): the code points that Python counts as white space.
is_space : ℕ → Bool
is_space c =
    (leb 9 c && leb c 13)
    || (leb 28 c && leb c 32)
    || c == 133
    || c == 160
    || c == 5760
    || (leb 8192 c && leb c 8202)
    || c == 8232
    || c == 8233
    || c == 8239
    || c == 8287
    || c == 12288

strip_left : String → String
unfolding is_space
strip_left String.[] = String.[]
strip_left (String.◌∷◌ c s) =
    let rest = strip_left s in if is_space (code c) then rest else String.◌∷◌ c s

drop_blank : Char → String → String
unfolding is_space
drop_blank c String.[] = if is_space (code c) then String.[] else String.◌∷◌ c String.[]
drop_blank c rest = String.◌∷◌ c rest

strip_right : String → String
unfolding drop_blank
strip_right String.[] = String.[]
strip_right (String.◌∷◌ c s) = drop_blank c (strip_right s)

unfoldable pub strip : String → String
unfolding strip_left strip_right
strip s = strip_right (strip_left s)

-- The `decision` argument: a member of the enum, or a string.
pub data DecisionInput : Type 0 where
  enum_member : DecisionKind → DecisionInput
  plain_text : String → DecisionInput

unfoldable pub of_input : DecisionInput → Option DecisionKind
of_input (enum_member d) = some d
of_input (plain_text s) = decision_of_value s

-- The arguments of decide_approval.
pub record Decide : Type 0 where
  pub approval_id : String
  pub session_id : String
  pub decision : DecisionInput
  pub owner_username : String
  pub now : String
  pub reason : Option String
  pub constraints : Option Members

deny_constraints : Option String → Result PolicyError (Option Members)
unfolding strip
deny_constraints none = err invalid_decision_value
deny_constraints (some r) =
    if truthy (strip r)
    then ok (some (member "reason" (text (strip r)) end))
    else err invalid_decision_value

edited_constraints : Option Members → Result PolicyError (Option Members)
edited_constraints none = err invalid_decision_value
edited_constraints (some end) = err invalid_decision_value
edited_constraints (some ms) = ok (some ms)

unfoldable pub final_constraints :
    DecisionKind → Option String → Option Members → Result PolicyError (Option Members)
unfolding deny_constraints edited_constraints
final_constraints deny reason constraints = deny_constraints reason
final_constraints edit_constraints reason constraints = edited_constraints constraints
final_constraints _ reason constraints = ok constraints

unfoldable pub some_or {ℓ} : {A : Type ℓ} → Option A → PolicyError → Result PolicyError A
some_or none e = err e
some_or (some a) e = ok a

abbrev pub decision_payload : DecisionKind → Members
decision_payload d = member "decision" (text (decision_value d)) end

unfoldable pub trial_ok : Outcome → Result PolicyError (Unit {0})
trial_ok (raised f) = err reducer_fault
trial_ok (returned r) = if r.success then ok tt else err transition_refused

-- The row of the approval, if it is open for a decision.
unfoldable pub open_approval : Decide → Db → Result PolicyError ApprovalRow
unfolding some_or
open_approval a db = do
  r ← some_or (find_first (has_approval_id a.approval_id) db.approvals) approval_not_found
  ensure (str_eq r.session_id a.session_id) approval_not_found
  ensure (not (is_some r.decision)) already_decided
  ensure (not (str_le r.expires_at a.now)) approval_expired
  ok r

-- All that is checked before anything is written.
unfoldable pub decide_checks :
    Services → Decide → Db → Result PolicyError (ApprovalRow × ApprovalDecision)
unfolding some_or
decide_checks sv a db = do
  d ← some_or (of_input a.decision) unknown_value
  r ← open_approval a db
  limits ← final_constraints d a.reason a.constraints
  state ← some_or (reconstruct_session_state sv db a.session_id) approval_not_found
  trial_ok (
      process_owner_command state a.owner_username "owner_approval_decision"
        (some (decision_payload d)))
  ensure (is_timestamp a.now) invalid_model
  ok (
    r,
    record {
      approval_id = a.approval_id;
      session_id = a.session_id;
      decision = d;
      decided_by = a.owner_username;
      decided_at = a.now;
      constraints = limits;
    },
  )

abbrev pub Decided : Type 0
Decided = Result PolicyError ApprovalDecision × Db

unfoldable pub finish : ApprovalDecision → Result PolicyError (Unit {0}) × Db → Decided
finish d (err e, db) = (err e, db)
finish d (ok _, db) = (ok d, db)

unfoldable pub record_moved :
    Services → Stamp → ApprovalRow → ApprovalDecision → Option ActionClass → Db → Decided
record_moved sv st r d none db = (err unknown_value, db)
record_moved sv st r d (some class) db =
    finish d (record_approval_decision sv st d r.agent_id class r.expires_at none db)

-- The session moves first, and the decision is recorded then.
unfoldable pub after_move :
    Services → Stamp → ApprovalRow → ApprovalDecision → Applied × Db → Decided
after_move sv st r d (refused, db) = (err transition_refused, db)
after_move sv st r d (broke f, db) = (err reducer_fault, db)
after_move sv st r d (moved state, db) = record_moved sv st r d (class_of_value r.action_class) db

unfoldable pub after_checks :
    Services
    → Stamp
    → Stamp
    → Decide
    → Result PolicyError (ApprovalRow × ApprovalDecision)
    → Db
    → Decided
after_checks sv move_stamp st a (err e) db = (err e, db)
after_checks sv move_stamp st a (ok (r, d)) db = after_move sv st r d (
    apply_owner_command_transition sv move_stamp a.session_id a.owner_username
      "owner_approval_decision" (some (decision_payload d.decision)) db)

unfoldable pub decide_approval : Services → Stamp → Stamp → Decide → Db → Decided
decide_approval sv move_stamp st a db = after_checks sv move_stamp st a (decide_checks sv a db) db
