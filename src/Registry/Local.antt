-- ===== src/Registry/Local.antt =====
-- The local agents of a node: kin-node/kin/agent_registry/registry.py (publish_card, register_card,
-- list_cards, set_enabled) and availability.py, over the table `agents`.
use kin_gateway.Prelude.{
  str_le, ℕ, ◌+◌, String, Bool, true, false, Option, none, some, List, [], ◌∷◌, ◌++◌, str_eq,
  if◌then◌else◌, is_some, keep, find_first, update_where, truthy, Result, ok, err,
}
use kin_gateway.Schemas.Cards.{
  AdapterConfig, embedded, webhook, local_command, sdk, AgentCard, AgentAvailability, ready,
  needs_key, needs_workspace, policy_blocked, PublishedAgentCard,
}
use kin_gateway.Storage.Services.{Services, Stamp, encrypt_field, decrypt_field}

pub record AgentRow : Type 0 where
  pub agent_id : String
  pub name : String
  pub adapter_type : String
  pub local_card_json : Option String
  pub published_card_json : Option String
  pub enabled : Bool
  pub availability : AgentAvailability
  pub created_at : String
  pub updated_at : String
  pub card_version : ℕ

-- What the registry uses of other code: the JSON of cards (`card_of_json` is `none` where it
-- raises), the keychain's secret of a profile's agent, and whether a directory is there.
pub record Surroundings : Type 0 where
  pub services : Services
  pub local_json : AgentCard → String
  pub published_json : PublishedAgentCard → String
  pub card_of_json : String → Option AgentCard
  pub webhook_secret : String → String → Option String
  pub is_dir : String → Bool

unfoldable pub publish_card : AgentCard → PublishedAgentCard
publish_card card = record {
  agent_id = card.id;
  name = card.name;
  description = card.description;
  capabilities = card.capabilities;
  availability = ready;
  requires_owner_acceptance = true;
}

-- card.adapter.type
unfoldable pub adapter_kind : AdapterConfig → String
adapter_kind (embedded provider model) = "embedded"
adapter_kind (webhook url credential) = "webhook"
adapter_kind (local_command command directory) = "local_command"
adapter_kind (sdk entry_point) = "sdk"

environment_ready :
    Surroundings → String → String → AdapterConfig → AgentAvailability → AgentAvailability
environment_ready env profile id (webhook url credential) otherwise =
    if is_some (env.webhook_secret profile id) then otherwise else needs_key
environment_ready env profile id (local_command command directory) otherwise =
    if env.is_dir directory then otherwise else needs_workspace
environment_ready env profile id adapter otherwise = otherwise

unfoldable pub compute_availability :
    Surroundings → AgentCard → String → AgentAvailability → Bool → AgentAvailability
unfolding environment_ready
compute_availability env card profile otherwise false = policy_blocked
compute_availability env card profile otherwise true =
    environment_ready env profile card.id card.adapter otherwise

-- WHERE agent_id = ?
unfoldable pub find_agent : List AgentRow → String → Option AgentRow
find_agent agents id = find_first (λ (r : AgentRow). str_eq r.agent_id id) agents

-- pub_card.availability
unfoldable pub card_availability :
    Surroundings → AgentCard → Option String → Bool → AgentAvailability
unfolding compute_availability publish_card
card_availability env card none on = (publish_card card).availability
card_availability env card (some profile) on = compute_availability env card profile ready on

unfoldable pub target_enabled : Option Bool → Bool → Bool
target_enabled none stays = stays
target_enabled (some on) stays = on

-- The columns that a registration writes.
unfoldable pub written :
    Surroundings → Stamp → AgentCard → Option String → Bool → AgentRow → AgentRow
unfolding card_availability adapter_kind publish_card encrypt_field
written env st card profile on r =
    let availability = card_availability env card profile on in
    record r {
      name = card.name;
      adapter_type = adapter_kind card.adapter;
      local_card_json = encrypt_field env.services st.nonce (some (env.local_json card));
      published_card_json =
          some (env.published_json (record (publish_card card) { availability = availability }));
      enabled = on;
      availability = availability;
      updated_at = st.now;
    }

unfoldable pub blank_row : Stamp → AgentCard → AgentRow
blank_row st card = record {
  agent_id = card.id;
  name = card.name;
  adapter_type = "";
  local_card_json = none;
  published_card_json = none;
  enabled = true;
  availability = ready;
  created_at = st.now;
  updated_at = st.now;
  card_version = 1;
}

unfoldable pub register_row :
    Surroundings
    → Stamp
    → AgentCard
    → Option Bool
    → Option String
    → Option AgentRow
    → List AgentRow
    → List AgentRow
unfolding written blank_row target_enabled
register_row env st card enabled profile none agents =
    agents ++ written env st card profile (target_enabled enabled true) (blank_row st card) ∷ []
register_row env st card enabled profile (some row) agents =
    update_where (λ (r : AgentRow). str_eq r.agent_id card.id)
      (λ r. record (written env st card profile (target_enabled enabled row.enabled) r) {
        card_version = row.card_version + 1;
      })
      agents

-- `enabled` and `profile_name` are None where they are `none`.
unfoldable pub register_card :
    Surroundings → Stamp → AgentCard → Option Bool → Option String → List AgentRow → List AgentRow
unfolding register_row find_agent
register_card env st card enabled profile agents =
    register_row env st card enabled profile (find_agent agents card.id) agents

-- ORDER BY agent_id ASC
unfoldable pub insert_by_id : AgentRow → List AgentRow → List AgentRow
unfolding str_le
insert_by_id x [] = x ∷ []
insert_by_id x (r ∷ rs) =
    let rest = insert_by_id x rs in if str_le x.agent_id r.agent_id then x ∷ r ∷ rs else r ∷ rest

unfoldable pub by_id : List AgentRow → List AgentRow
unfolding insert_by_id
by_id [] = []
by_id (r ∷ rs) = insert_by_id r (by_id rs)

-- The rows that are listed; their published JSON is shown as it is stored.
unfoldable pub list_cards : Bool → List AgentRow → List AgentRow
unfolding by_id
list_cards true agents = by_id agents
list_cards false agents = by_id (keep (λ (r : AgentRow). r.enabled) agents)

pub data SwitchError : Type 0 where
  agent_missing : SwitchError
  -- the stored card cannot be opened or read
  card_broken : SwitchError

-- AgentCard.model_validate_json(decrypt_field(vault_key, token)), where it is needed.
stored_availability :
    Surroundings → String → Option (Option String) → Result SwitchError AgentAvailability
unfolding compute_availability
stored_availability env profile none = err card_broken
stored_availability env profile (some none) = ok ready
stored_availability env profile (some (some json)) =
    if truthy json
    then elim (env.card_of_json json) [
      | none ↦ err card_broken
      | some card ↦ ok (compute_availability env card profile ready true)
    ]
    else ok ready

-- new_avail; `profile` is given where both the profile and the vault's key are.
unfoldable pub switched :
    Surroundings → Bool → Option String → Option String → Result SwitchError AgentAvailability
unfolding stored_availability decrypt_field
switched env false profile token = ok policy_blocked
switched env true (some profile) (some token) =
    stored_availability env profile (decrypt_field env.services (some token))
switched env true profile token = ok ready

unfoldable pub switch_to :
    Stamp
    → String
    → Bool
    → Result SwitchError AgentAvailability
    → List AgentRow
    → Result SwitchError (List AgentRow)
switch_to st id on (err e) agents = err e
switch_to st id on (ok a) agents = ok (
    update_where (λ (r : AgentRow). str_eq r.agent_id id)
      (λ r. record r { enabled = on; availability = a; updated_at = st.now }) agents)

unfoldable pub set_enabled :
    Surroundings
    → Stamp
    → String
    → Bool
    → Option String
    → List AgentRow
    → Result SwitchError (List AgentRow)
unfolding find_agent switched switch_to
set_enabled env st id on profile agents = elim (find_agent agents id) [
  | none ↦ err agent_missing
  | some r ↦ switch_to st id on (switched env on profile r.local_card_json) agents
]
