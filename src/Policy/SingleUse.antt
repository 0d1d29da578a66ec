-- ===== src/Policy/SingleUse.antt =====
-- Approvals in use: what an evaluation against the stored approvals grants, and how often
-- (evaluate_action_for_session of kin-node/kin/policy/persistence.py).
use kin_gateway.Prelude.{
  String, ◌≡◌, refl, ◌∙◌, ◌≢◌, inl, inr, Bool, true, false, not, ◌||◌, some, List, [], ◌∷◌, ◌++◌,
  Memᴰ, arith, str_eq, eq_iff, eq_refl, Bool-cases, Option-cases, is_some, mem_keep, keep,
  update_where, any, all, ok, Result-cases,
}
use kin_gateway.Json.{Members}
use kin_gateway.Policy.Evaluator.{allowed, PolicyResult}
use kin_gateway.Policy.Machine.{
  PolicyCall, policy_calls, consume_row, Change, same_rows, used_row, redecided_row, added_row,
  calls_keep,
}
use kin_gateway.Policy.Record.{has_approval_id, decide_row}
use kin_gateway.Policy.Store.{
  unconsumed, is_prior, decided_later, newest, find_prior, prior_of_row, consume, evaluate_with,
  evaluate_action_for_session,
}
use kin_gateway.Schemas.Approvals.{ActionClass}
use kin_gateway.Schemas.Cards.{AgentCard}
use kin_gateway.Storage.Services.{Services}
use kin_gateway.Storage.Tables.{ApprovalRow, Db}

newest_mem : (rs : List ApprovalRow) (r : ApprovalRow) → newest rs ≡ some r → Memᴰ r rs
unfolding newest
newest_mem [] r h = cc
newest_mem (x ∷ xs) r h = elim (Option-cases (newest xs)) [
  | inl alone ↦ Memᴰ.head (ground (arith, alone))
  | inr (best, more) ↦ elim (Bool-cases (decided_later best.decided_at x.decided_at)) [
    | inl later ↦ Memᴰ.tail (newest_mem xs r (ground (arith, more)))
    | inr earlier ↦ Memᴰ.head (ground (arith, more))
  ]
]

-- A row with the id is used.
abbrev used_one : String → ApprovalRow → Bool
used_one id r = not (has_approval_id id r) || is_some r.consumed_at

-- Every row with the id is used, and there is one.
record IsUsed (id : String) (rows : List ApprovalRow) : Type 0 where
  every : all (used_one id) rows ≡ true
  there : any (has_approval_id id) rows ≡ true

used_kept :
    (id at_id : String) (f : ApprovalRow → ApprovalRow)
    → ((r : ApprovalRow) → (f r).approval_id ≡ r.approval_id)
    → ((r : ApprovalRow) → is_some r.consumed_at ≡ true → is_some (f r).consumed_at ≡ true)
    → (rows : List ApprovalRow) → all (used_one id) rows ≡ true
    → all (used_one id) (update_where (has_approval_id at_id) f rows) ≡ true
unfolding has_approval_id
used_kept id at_id f same stays [] h = refl
used_kept id at_id f same stays (r ∷ rs) h =
    ground (arith, same r, stays r, used_kept id at_id f same stays rs)

any_kept :
    (id at_id : String) (f : ApprovalRow → ApprovalRow)
    → ((r : ApprovalRow) → (f r).approval_id ≡ r.approval_id)
    → (rows : List ApprovalRow)
    → any (has_approval_id id) (update_where (has_approval_id at_id) f rows)
      ≡ any (has_approval_id id) rows
unfolding has_approval_id
any_kept id at_id f same [] = refl
any_kept id at_id f same (r ∷ rs) = ground (arith, same r, any_kept id at_id f same rs)

used_snoc :
    (id : String) (rows : List ApprovalRow) (r : ApprovalRow)
    → all (used_one id) rows ≡ true
    → has_approval_id id r ≡ false
    → all (used_one id) (rows ++ r ∷ []) ≡ true
used_snoc id [] r h differs = rw differs refl
used_snoc id (q ∷ qs) r h differs = ground (arith, used_snoc id qs r, differs)

any_snoc :
    (id : String) (rows : List ApprovalRow) (r : ApprovalRow)
    → any (has_approval_id id) rows ≡ true
    → any (has_approval_id id) (rows ++ r ∷ []) ≡ true
any_snoc id [] r h = cc
any_snoc id (q ∷ qs) r h = ground (arith, any_snoc id qs r)

other_id :
    (id : String) (rows : List ApprovalRow) (r : ApprovalRow)
    → any (has_approval_id r.approval_id) rows ≡ false
    → any (has_approval_id id) rows ≡ true
    → has_approval_id id r ≡ false
unfolding has_approval_id
other_id id rows r free there = elim (Bool-cases (str_eq r.approval_id id)) [
  | inr differs ↦ differs
  | inl same ↦
      let e : r.approval_id ≡ id = ground (arith, eq_iff r.approval_id id, same) in
      absurd (ground (arith, e, free, there))
]

Change-IsUsed :
    (id : String) (old new : List ApprovalRow) → Change old new → IsUsed id old → IsUsed id new
unfolding decide_row
Change-IsUsed id old new (same_rows e) h = rw e h
Change-IsUsed id old new (used_row at_id now e) h = rw e (record {
  every = used_kept id at_id (consume_row now) (λ r. refl) (λ r u. refl) old h.every;
  there = any_kept id at_id (consume_row now) (λ r. refl) old ∙ h.there;
})
Change-IsUsed id old new (redecided_row d request e) h = rw e (record {
  every = used_kept id d.approval_id (decide_row d request) (λ r. refl) (λ r u. u) old h.every;
  there = any_kept id d.approval_id (decide_row d request) (λ r. refl) old ∙ h.there;
})
Change-IsUsed id old new (added_row r free e) h = rw e (record {
  every = used_snoc id old r h.every (other_id id old r free h.there);
  there = any_snoc id old r h.there;
})

consumed_all :
    (id now : String) (rows : List ApprovalRow)
    → all (used_one id) (update_where (has_approval_id id) (consume_row now) rows) ≡ true
unfolding has_approval_id
consumed_all id now [] = refl
consumed_all id now (r ∷ rs) = ground (arith, consumed_all id now rs)

any_mem :
    (rows : List ApprovalRow) (r : ApprovalRow)
    → Memᴰ r rows
    → any (has_approval_id r.approval_id) rows ≡ true
unfolding has_approval_id
any_mem [] r m = elim m [ ]
any_mem (q ∷ qs) r (Memᴰ.head e) = ground (arith, e, eq_refl r.approval_id)
any_mem (q ∷ qs) r (Memᴰ.tail m) = ground (arith, any_mem qs r m)

used_mem :
    (id : String) (rows : List ApprovalRow) (q : ApprovalRow)
    → all (used_one id) rows ≡ true
    → Memᴰ q rows
    → used_one id q ≡ true
used_mem id [] q h m = elim m [ ]
used_mem id (r ∷ rs) q h (Memᴰ.head e) = ground (arith, e)
used_mem id (r ∷ rs) q h (Memᴰ.tail m) = used_mem id rs q (ground arith) m

-- What the lookup finds is a row of the table that its WHERE clause admits.
find_prior_holds :
    (session agent : String) (class : ActionClass) (now : String) (db : Db) (q : ApprovalRow)
    → find_prior session agent class now db ≡ some q
    → Memᴰ q db.approvals × (is_prior session agent class now q ≡ true)
unfolding find_prior
find_prior_holds session agent class now db q h =
    mem_keep (is_prior session agent class now) db.approvals q
      (newest_mem (keep (is_prior session agent class now) db.approvals) q h)

prior_unused :
    (session agent : String) (class : ActionClass) (now : String) (q : ApprovalRow)
    → is_prior session agent class now q ≡ true
    → q.decision ≡ some "approve_once"
    → is_some q.consumed_at ≡ false
unfolding is_prior unconsumed
prior_unused session agent class now q h d = elim (Option-cases q.consumed_at) [
  | inl none_yet ↦ rw none_yet refl
  | inr (t, used) ↦ absurd (ground (arith, used, eq_refl "approve_once"))
]

used_up :
    (card : AgentCard) (class : ActionClass) (context : Members) (now : String) (db after : Db)
    (r : PolicyResult) (row : ApprovalRow)
    → evaluate_with card class context now db (some row) ≡ (ok r, after)
    → r.decision ≡ allowed
    → row.decision ≡ some "approve_once"
    → after ≡ consume row.approval_id now db
unfolding evaluate_with
used_up card class context now db after r row h d once =
    elim (Result-cases (prior_of_row row now)) [
      | inr (f, bad) ↦ absurd (ground (arith, bad))
      | inl (prior, good) ↦ ground (arith, good, eq_refl "approve_once")
    ]

IsUsed-after :
    (card : AgentCard) (class : ActionClass) (context : Members) (session now : String)
    (db after : Db) (r : PolicyResult) (row : ApprovalRow)
    → evaluate_action_for_session card class context session now db ≡ (ok r, after)
    → r.decision ≡ allowed
    → find_prior session card.id class now db ≡ some row
    → row.decision ≡ some "approve_once"
    → IsUsed row.approval_id after.approvals
unfolding evaluate_action_for_session consume has_approval_id
IsUsed-after card class context session now db after r row h d found once =
    let spent = used_up card class context now db after r row (rw found at h) d once in
    let there = (find_prior_holds session card.id class now db row found).0 in
    rw spent (record {
      every = consumed_all row.approval_id now db.approvals;
      there =
          any_kept row.approval_id row.approval_id (consume_row now) (λ q. refl) db.approvals
          ∙ any_mem db.approvals row there;
    })

-- A one-time approval is used up by the evaluation that it allows: after any calls of the four
-- functions that write approvals (evaluations, requests, records and decisions), no evaluation, for
-- whatever session, agent, class and time, finds an approval with its id that allows one action.
pub approve_once_single_use :
    (sv : Services) (card : AgentCard) (class : ActionClass) (context : Members)
    (session now : String) (db after : Db) (r : PolicyResult) (row : ApprovalRow)
    (calls : List PolicyCall) (session' agent' : String) (class' : ActionClass) (later : String)
    (q : ApprovalRow)
    → evaluate_action_for_session card class context session now db ≡ (ok r, after)
    → r.decision ≡ allowed
    → find_prior session card.id class now db ≡ some row
    → row.decision ≡ some "approve_once"
    → find_prior session' agent' class' later (policy_calls sv calls after) ≡ some q
    → q.decision ≡ some "approve_once"
    → q.approval_id ≢ row.approval_id
unfolding has_approval_id
approve_once_single_use sv card class context session now db after r row calls session' agent'
      class' later q h d found once again once' same =
    let used =
      calls_keep (IsUsed row.approval_id) (Change-IsUsed row.approval_id) sv calls after
        (IsUsed-after card class context session now db after r row h d found once) in
    let (there, admitted) =
      find_prior_holds session' agent' class' later (policy_calls sv calls after) q again in
    ground (
      arith,
      eq_iff q.approval_id row.approval_id,
      prior_unused session' agent' class' later q admitted once',
      used_mem row.approval_id (policy_calls sv calls after).approvals q used.every there,
    )
