-- ===== src/Registry/Off.antt =====
-- Rows of the table `agents` that are disabled (kin-node/kin/agent_registry/registry.py).
use kin_gateway.Prelude.{
  String, ◌≡◌, refl, Bool, true, false, not, ◌||◌, some, List, [], ◌∷◌, ◌++◌, arith, str_eq, eq_iff,
  if◌then◌else◌, is_some, keep, update_where, any, all,
}
use kin_gateway.Registry.Local.{AgentRow, find_agent, insert_by_id, by_id}

-- The id has a row, and no row of it is enabled.
unfoldable pub row_off : String → AgentRow → Bool
row_off id r = if str_eq r.agent_id id then not r.enabled else true

abbrev pub IsOff : String → List AgentRow → Type 0
IsOff id agents = (is_some (find_agent agents id) ≡ true) × (all (row_off id) agents ≡ true)

module _ (id at_id : String) (f : AgentRow → AgentRow)
    (ids : (r : AgentRow) → (f r).agent_id ≡ r.agent_id) where
  pub found_update :
      (rows : List AgentRow)
      → is_some (find_agent rows id) ≡ true
      → is_some (find_agent (update_where (λ (r : AgentRow). str_eq r.agent_id at_id) f rows) id)
        ≡ true
  unfolding find_agent
  found_update [] h = h
  found_update (r ∷ rows) h = ground (arith, ids r, h, found_update rows)

  pub off_update :
      (rows : List AgentRow)
      → ((r : AgentRow) → str_eq at_id id ≡ true → (f r).enabled ≡ false)
      → all (row_off id) rows ≡ true
      → all (row_off id) (update_where (λ (r : AgentRow). str_eq r.agent_id at_id) f rows) ≡ true
  unfolding row_off
  off_update [] off h = h
  off_update (r ∷ rows) off h = ground (
    arith,
    ids r,
    off r,
    off_update rows off,
    eq_iff r.agent_id at_id,
    eq_iff at_id id,
    eq_iff r.agent_id id,
  )

pub found_off :
    (id : String) (rows : List AgentRow) (r : AgentRow)
    → all (row_off id) rows ≡ true
    → find_agent rows id ≡ some r
    → r.enabled ≡ false
unfolding row_off find_agent
found_off id [] r off h = cc
found_off id (q ∷ qs) r off h = ground (arith, found_off id qs r)

pub found_append :
    (id : String) (rows : List AgentRow) (x : AgentRow)
    → is_some (find_agent rows id) ≡ true
    → is_some (find_agent (rows ++ x ∷ []) id) ≡ true
unfolding find_agent
found_append id [] x h = cc
found_append id (r ∷ rows) x h = ground (arith, found_append id rows x)

pub off_append :
    (id : String) (rows : List AgentRow) (x : AgentRow)
    → str_eq x.agent_id id ≡ false
    → all (row_off id) rows ≡ true
    → all (row_off id) (rows ++ x ∷ []) ≡ true
unfolding row_off
off_append id [] x differs h = ground (arith, differs)
off_append id (r ∷ rows) x differs h = ground (arith, off_append id rows x differs)

pub all_switched_off :
    (id : String) (f : AgentRow → AgentRow) (rows : List AgentRow)
    → ((r : AgentRow) → (f r).enabled ≡ false)
    → all (row_off id) (update_where (λ (r : AgentRow). str_eq r.agent_id id) f rows) ≡ true
unfolding row_off
all_switched_off id f [] off = refl
all_switched_off id f (r ∷ rows) off = ground (arith, off r, all_switched_off id f rows off)

any_insert :
    (p : AgentRow → Bool) (x : AgentRow) (rows : List AgentRow)
    → any p (insert_by_id x rows) ≡ (p x || any p rows)
unfolding insert_by_id
any_insert p x [] = refl
any_insert p x (r ∷ rows) = ground (arith, any_insert p x rows)

pub any-by_id : (p : AgentRow → Bool) (rows : List AgentRow) → any p (by_id rows) ≡ any p rows
unfolding by_id
any-by_id p [] = refl
any-by_id p (r ∷ rows) = rw (any_insert p r (by_id rows), any-by_id p rows) refl

pub off_unlisted :
    (id : String) (rows : List AgentRow)
    → all (row_off id) rows ≡ true
    → any (λ (r : AgentRow). str_eq r.agent_id id) (keep (λ (r : AgentRow). r.enabled) rows) ≡ false
unfolding row_off
off_unlisted id [] h = refl
off_unlisted id (r ∷ rows) h = ground (arith, off_unlisted id rows)
