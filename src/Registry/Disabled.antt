-- ===== src/Registry/Disabled.antt =====
-- An agent that its owner disabled stays disabled over registrations
-- (kin-node/kin/agent_registry/registry.py).
use kin_gateway.Prelude.{
  String, ◌≡◌, refl, ◌∙◌, inl, inr, Bool, true, false, Option, none, some, List, [], ◌∷◌, arith,
  str_eq, eq_iff, Bool-cases, Option-cases, is_some, keep, update_where, any, all, All, Result, ok,
  err,
}
use kin_gateway.Registry.Local.{
  AgentRow, Surroundings, find_agent, target_enabled, written, blank_row, register_row,
  register_card, list_cards, SwitchError, switched, switch_to, set_enabled,
}
use kin_gateway.Registry.Off.{
  row_off, IsOff, found_update, off_update, found_off, found_append, off_append, all_switched_off,
  any-by_id, off_unlisted,
}
use kin_gateway.Schemas.Cards.{AgentCard, AgentAvailability, policy_blocked}
use kin_gateway.Storage.Services.{Stamp}

-- The calls on the registry: register_card with its `enabled`, and set_enabled with False or True. A
-- call that raises writes nothing.
pub data AgentStep : Type 0 where
  register_again : Stamp → AgentCard → Option Bool → Option String → AgentStep
  switch_off : Stamp → String → AgentStep
  switch_on : Stamp → String → Option String → AgentStep

or_same : Result SwitchError (List AgentRow) → List AgentRow → List AgentRow
or_same (ok out) agents = out
or_same (err e) agents = agents

unfoldable pub agent_step : Surroundings → AgentStep → List AgentRow → List AgentRow
unfolding or_same register_card set_enabled
agent_step env (register_again st card enabled profile) agents =
    register_card env st card enabled profile agents
agent_step env (switch_off st id) agents = or_same (set_enabled env st id false none agents) agents
agent_step env (switch_on st id profile) agents =
    or_same (set_enabled env st id true profile agents) agents

unfoldable pub agent_steps : Surroundings → List AgentStep → List AgentRow → List AgentRow
unfolding agent_step
agent_steps env [] agents = agents
agent_steps env (s ∷ steps) agents = agent_steps env steps (agent_step env s agents)

-- The agent is not switched on: neither by set_enabled, nor by a registration that says so.
abbrev pub IsLeftOff : String → AgentStep → Type 0
IsLeftOff id (register_again st card (some true) profile) = str_eq card.id id ≡ false
IsLeftOff id (switch_on st other_id profile) = str_eq other_id id ≡ false
IsLeftOff id _ = Unit

switched-IsOff :
    (id other_id : String) (st : Stamp) (on : Bool) (a : Result SwitchError AgentAvailability)
    (agents : List AgentRow)
    → (str_eq other_id id ≡ true → on ≡ false)
    → IsOff id agents
    → IsOff id (or_same (switch_to st other_id on a agents) agents)
unfolding or_same switch_to
switched-IsOff id other_id st on (err e) agents off h = h
switched-IsOff id other_id st on (ok a) agents off h = (
  found_update id other_id _ (λ r. refl) agents h.0,
  off_update id other_id _ (λ r. refl) agents (λ r same. off same) h.1,
)

set_enabled-IsOff :
    (env : Surroundings) (id other_id : String) (st : Stamp) (on : Bool) (profile : Option String)
    (agents : List AgentRow)
    → (str_eq other_id id ≡ true → on ≡ false)
    → IsOff id agents
    → IsOff id (or_same (set_enabled env st other_id on profile agents) agents)
unfolding set_enabled or_same
set_enabled-IsOff env id other_id st on profile agents off h =
    elim (Option-cases (find_agent agents other_id)) [
      | inl gone ↦ rw (set_enabled, gone) h
      | inr (r, found) ↦
          rw (set_enabled, found)
            (switched-IsOff id other_id st on (switched env on profile r.local_card_json) agents off
              h)
    ]

new_differs :
    (id new : String) (rows : List AgentRow)
    → find_agent rows new ≡ none
    → is_some (find_agent rows id) ≡ true
    → str_eq new id ≡ false
new_differs id new rows free there = elim (Bool-cases (str_eq new id)) [
  | inr differs ↦ differs
  | inl same ↦
      let e : new ≡ id = ground (arith, eq_iff new id, same) in
      absurd (ground (arith, e, free, there))
]

same_off :
    (id at_id : String) (rows : List AgentRow) (row : AgentRow)
    → find_agent rows at_id ≡ some row
    → str_eq at_id id ≡ true
    → all (row_off id) rows ≡ true
    → row.enabled ≡ false
same_off id at_id rows row found same off =
    let e : at_id ≡ id = ground (arith, eq_iff at_id id, same) in
    found_off id rows row off (rw (← e) found)

-- Such a registration does not enable a disabled agent.
target_off :
    (id : String) (st : Stamp) (card : AgentCard) (enabled : Option Bool) (profile : Option String)
    (row : AgentRow)
    → IsLeftOff id (register_again st card enabled profile)
    → str_eq card.id id ≡ true
    → row.enabled ≡ false
    → target_enabled enabled row.enabled ≡ false
unfolding target_enabled
target_off id st card none profile row left same off = off
target_off id st card (some false) profile row left same off = refl
target_off id st card (some true) profile row left same off = absurd (ground (arith, left, same))

register-IsOff :
    (env : Surroundings) (id : String) (st : Stamp) (card : AgentCard) (enabled : Option Bool)
    (profile : Option String) (o : Option AgentRow) (agents : List AgentRow)
    → IsLeftOff id (register_again st card enabled profile)
    → find_agent agents card.id ≡ o
    → IsOff id agents
    → IsOff id (register_row env st card enabled profile o agents)
unfolding register_row written target_enabled blank_row
register-IsOff env id st card enabled profile none agents left found h = (
  found_append id agents _ h.0,
  off_append id agents _ (new_differs id card.id agents found h.0) h.1,
)
register-IsOff env id st card enabled profile (some row) agents left found h = (
  found_update id card.id _ (λ r. refl) agents h.0,
  off_update id card.id _ (λ r. refl) agents
      (λ r same.
        target_off id st card enabled profile row left same
          (same_off id card.id agents row found same h.1))
      h.1,
)

step-IsOff :
    (env : Surroundings) (id : String) (s : AgentStep) (agents : List AgentRow)
    → IsLeftOff id s
    → IsOff id agents
    → IsOff id (agent_step env s agents)
unfolding agent_step register_card
step-IsOff env id (register_again st card enabled profile) agents left h =
    register-IsOff env id st card enabled profile (find_agent agents card.id) agents left refl h
step-IsOff env id (switch_off st other_id) agents left h =
    set_enabled-IsOff env id other_id st false none agents (λ same. refl) h
step-IsOff env id (switch_on st other_id profile) agents left h =
    set_enabled-IsOff env id other_id st true profile agents
      (λ same. absurd (ground (arith, left, same))) h

steps-IsOff :
    (env : Surroundings) (id : String) (steps : List AgentStep) (agents : List AgentRow)
    → All (IsLeftOff id) steps
    → IsOff id agents
    → IsOff id (agent_steps env steps agents)
unfolding agent_steps
steps-IsOff env id [] agents left h = h
steps-IsOff env id (s ∷ steps) agents left h =
    steps-IsOff env id steps (agent_step env s agents) left.1 (step-IsOff env id s agents left.0 h)

disable-IsOff :
    (env : Surroundings) (id : String) (st : Stamp) (agents out : List AgentRow)
    → set_enabled env st id false none agents ≡ ok out
    → IsOff id out
unfolding set_enabled switched switch_to
disable-IsOff env id st agents out h = elim (Option-cases (find_agent agents id)) [
  | inl gone ↦ absurd (ground (arith, gone))
  | inr (r, found) ↦
      let f = λ (q : AgentRow). record q {
        enabled = false;
        availability = policy_blocked;
        updated_at = st.now;
      } in
      let e : update_where (λ (q : AgentRow). str_eq q.agent_id id) f agents ≡ out =
        ground (arith, found) in
      rw (← e) (
        found_update id id f (λ q. refl) agents (rw found refl),
        all_switched_off id f agents (λ q. refl),
      )
]

-- Once set_enabled has disabled an agent, the list of enabled agents does not have it after any
-- registrations of cards, its own with `enabled` None or False among them, and any switching of
-- agents on and off, as long as the agent itself is neither switched on nor registered with
-- `enabled` True.
pub disabled_stays_unlisted :
    (env : Surroundings) (id : String) (st : Stamp) (agents out : List AgentRow)
    (steps : List AgentStep)
    → set_enabled env st id false none agents ≡ ok out
    → All (IsLeftOff id) steps
    → any (λ (r : AgentRow). str_eq r.agent_id id) (list_cards false (agent_steps env steps out))
      ≡ false
unfolding list_cards
disabled_stays_unlisted env id st agents out steps switched_it left =
    let still =
      steps-IsOff env id steps out left (disable-IsOff env id st agents out switched_it) in
    any-by_id (λ (r : AgentRow). str_eq r.agent_id id)
      (keep (λ (r : AgentRow). r.enabled) (agent_steps env steps out))
    ∙ off_unlisted id (agent_steps env steps out) still.1
