-- ===== src/Policy/Pending.antt =====
-- Pending requests and decisions in the table of approvals (kin-node/kin/policy/persistence.py).
use kin_gateway.Prelude.{
  str_lt, String, ◌≡◌, refl, Bool, true, none, some, List, [], ◌∷◌, ◌++◌, arith, eq_refl, keep, ok,
  err,
}
use kin_gateway.Json.{Members}
use kin_gateway.Policy.Record.{pending_row, create_pending_approval}
use kin_gateway.Policy.Store.{
  is_prior, newest, find_prior, invalid_model, prior_of_row, evaluate_with,
  evaluate_action_for_session,
}
use kin_gateway.Schemas.Approvals.{ActionClass, action_class_value, ApprovalRequest}
use kin_gateway.Schemas.Cards.{AgentCard}
use kin_gateway.Storage.Services.{Services, Stamp}
use kin_gateway.Storage.Tables.{ApprovalRow, Db}

prior_of_pending :
    (row : ApprovalRow) (now : String)
    → row.decision ≡ none
    → prior_of_row row now ≡ err invalid_model
unfolding prior_of_row
prior_of_pending row now h = ground arith

evaluate_pending :
    (card : AgentCard) (class : ActionClass) (context : Members) (now : String) (db : Db)
    (row : ApprovalRow)
    → row.decision ≡ none
    → evaluate_with card class context now db (some row) ≡ (err invalid_model, db)
unfolding evaluate_with
evaluate_pending card class context now db row h = rw (prior_of_pending row now h)

keep_snoc_hit {ℓ} :
    {A : Type ℓ} (p : A → Bool) (xs : List A) (x : A)
    → p x ≡ true
    → keep p (xs ++ x ∷ []) ≡ keep p xs ++ x ∷ []
keep_snoc_hit p [] x h = rw h
keep_snoc_hit p (y ∷ ys) x h = ground (arith, keep_snoc_hit p ys x h)

newest-none : (rs : List ApprovalRow) → newest rs ≡ none → rs ≡ []
unfolding newest
newest-none [] h = refl
newest-none (r ∷ rs) h = cc

newest_alone : (rs : List ApprovalRow) (x : ApprovalRow) → rs ≡ [] → newest (rs ++ x ∷ []) ≡ some x
unfolding newest
newest_alone rs x h = rw h

pending_is_prior :
    (sv : Services) (st : Stamp) (q : ApprovalRequest) (agent : String) (class : ActionClass)
    (expires dumped_request now : String)
    → str_lt now expires ≡ true
    → is_prior q.session_id agent class now (pending_row sv st q agent class expires dumped_request)
      ≡ true
unfolding is_prior pending_row
pending_is_prior sv st q agent class expires dumped_request now live =
    ground (arith, eq_refl q.session_id, eq_refl agent, eq_refl (action_class_value class))

created_rows :
    (sv : Services) (st : Stamp) (q : ApprovalRequest) (agent : String) (class : ActionClass)
    (expires dumped_request id : String) (db after : Db)
    → create_pending_approval sv st q agent class expires dumped_request db ≡ (ok id, after)
    → after.approvals ≡ db.approvals ++ pending_row sv st q agent class expires dumped_request ∷ []
unfolding create_pending_approval
created_rows sv st q agent class expires dumped_request id db after h = ground arith

created_found :
    (sv : Services) (st : Stamp) (q : ApprovalRequest) (agent : String) (class : ActionClass)
    (expires dumped_request id now : String) (db after : Db)
    → create_pending_approval sv st q agent class expires dumped_request db ≡ (ok id, after)
    → str_lt now expires ≡ true
    → find_prior q.session_id agent class now db ≡ none
    → find_prior q.session_id agent class now after
      ≡ some (pending_row sv st q agent class expires dumped_request)
unfolding find_prior
created_found sv st q agent class expires dumped_request id now db after h live free =
    let row = pending_row sv st q agent class expires dumped_request in
    let test = is_prior q.session_id agent class now in
    rw (created_rows sv st q agent class expires dumped_request id db after h) (
      rw
        (keep_snoc_hit test db.approvals row
          (pending_is_prior sv st q agent class expires dumped_request now live))
        (newest_alone (keep test db.approvals) row (newest-none (keep test db.approvals) free)))

-- Where no earlier approval applies, an evaluation of the action of a pending request raises, and
-- changes nothing, in the database that its creation has returned, at every time before the request
-- expires: the lookup finds the undecided row, and no decision can be made of it.
pub pending_blocks :
    (sv : Services) (st : Stamp) (q : ApprovalRequest) (card : AgentCard) (class : ActionClass)
    (context : Members) (expires dumped_request id now : String) (db after : Db)
    → create_pending_approval sv st q card.id class expires dumped_request db ≡ (ok id, after)
    → str_lt now expires ≡ true
    → find_prior q.session_id card.id class now db ≡ none
    → evaluate_action_for_session card class context q.session_id now after
      ≡ (err invalid_model, after)
unfolding evaluate_action_for_session pending_row
pending_blocks sv st q card class context expires dumped_request id now db after h live free =
    rw (created_found sv st q card.id class expires dumped_request id now db after h live free) (
      evaluate_pending card class context now after
        (pending_row sv st q card.id class expires dumped_request) refl)
