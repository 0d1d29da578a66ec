-- ===== src/Policy/Terms.antt =====
-- What an approval stands for never changes (kin-node/kin/policy/persistence.py).
use mathlib.Core.Option
use kin_gateway.Prelude.{
  String, ◌≡◌, refl, ap, ◌∙◌, inl, inr, true, some, List, [], ◌∷◌, arith, if◌then◌else◌, Bool-cases,
  is_some, find_first_append, find_first, update_where,
}
use kin_gateway.Policy.Machine.{
  PolicyCall, policy_calls, consume_row, Change, same_rows, used_row, redecided_row, added_row,
  calls_keep,
}
use kin_gateway.Policy.Record.{has_approval_id, decide_row}
use kin_gateway.Storage.Services.{Services}
use kin_gateway.Storage.Tables.{ApprovalRow, Db}

pub found_update :
    (id at_id : String) (f : ApprovalRow → ApprovalRow)
    → ((r : ApprovalRow) → (f r).approval_id ≡ r.approval_id)
    → (rows : List ApprovalRow)
    → find_first (has_approval_id id) (update_where (has_approval_id at_id) f rows)
      ≡ Option.map
          (λ r. if has_approval_id at_id r then f r else r)
          (find_first (has_approval_id id) rows)
unfolding has_approval_id
found_update id at_id f same [] = refl
found_update id at_id f same (r ∷ rs) = ground (arith, same r, found_update id at_id f same rs)

-- The second row is for the same action of the same agent in the same session, expires at the same
-- time, and is decided and used where the first one is.
pub record KeepsTerms (r q : ApprovalRow) : Type 0 where
  pub session : q.session_id ≡ r.session_id
  pub agent : q.agent_id ≡ r.agent_id
  pub class : q.action_class ≡ r.action_class
  pub expiry : q.expires_at ≡ r.expires_at
  pub decided : is_some r.decision ≡ true → is_some q.decision ≡ true
  pub used : is_some r.consumed_at ≡ true → is_some q.consumed_at ≡ true

-- The row that the lookup of the id finds keeps the terms of a row.
abbrev pub Stands : String → ApprovalRow → List ApprovalRow → Type 0
Stands id r rows =
    (q : ApprovalRow) × (find_first (has_approval_id id) rows ≡ some q) × KeepsTerms r q

update_Stands :
    (id at_id : String) (f : ApprovalRow → ApprovalRow) (r : ApprovalRow)
    → ((q : ApprovalRow) → (f q).approval_id ≡ q.approval_id)
    → ((q : ApprovalRow) → KeepsTerms r q → KeepsTerms r (f q))
    → (rows : List ApprovalRow) → Stands id r rows
    → Stands id r (update_where (has_approval_id at_id) f rows)
update_Stands id at_id f r same keeps rows (q, found, k) =
    let there =
      found_update id at_id f same rows
      ∙ ap (Option.map (λ z. if has_approval_id at_id z then f z else z)) found in
    elim (Bool-cases (has_approval_id at_id q)) [
      | inl hit ↦ (f q, there ∙ rw hit refl, keeps q k)
      | inr miss ↦ (q, there ∙ rw miss refl, k)
    ]

Change-Stands :
    (id : String) (r : ApprovalRow) (old new : List ApprovalRow)
    → Change old new
    → Stands id r old
    → Stands id r new
unfolding decide_row
Change-Stands id r old new (same_rows e) h = rw e h
Change-Stands id r old new (used_row at_id now e) h = rw e (
    update_Stands id at_id (consume_row now) r (λ q. refl)
      (λ q k. record {
        session = k.session;
        agent = k.agent;
        class = k.class;
        expiry = k.expiry;
        decided = k.decided;
        used = λ u. refl;
      })
      old h)
Change-Stands id r old new (redecided_row d request e) h = rw e (
    update_Stands id d.approval_id (decide_row d request) r (λ q. refl)
      (λ q k. record {
        session = k.session;
        agent = k.agent;
        class = k.class;
        expiry = k.expiry;
        decided = λ u. refl;
        used = k.used;
      })
      old h)
Change-Stands id r old new (added_row x free e) (q, found, k) =
    rw e (q, find_first_append (has_approval_id id) old (x ∷ []) q found, k)

-- Over any calls of the four functions that write approvals (evaluations, requests, records and
-- decisions), the approval that an id finds is still found: for the same session, agent and class of
-- action and with the same expiry; and where it was decided or used, it stays so.
pub approval_terms_stay :
    (sv : Services) (calls : List PolicyCall) (db : Db) (id : String) (r : ApprovalRow)
    → find_first (has_approval_id id) db.approvals ≡ some r
    → Stands id r (policy_calls sv calls db).approvals
approval_terms_stay sv calls db id r found =
    calls_keep (Stands id r) (Change-Stands id r) sv calls db (
      r,
      found,
      record {
        session = refl;
        agent = refl;
        class = refl;
        expiry = refl;
        decided = λ u. u;
        used = λ u. u;
      },
    )
