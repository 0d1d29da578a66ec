-- ===== src/Registry/Examples.antt =====
-- A peer's card that changes, and what the review does.
use kin_gateway.Prelude.{
  ◌≡◌, refl, true, false, none, some, List, [], ◌∷◌, arith, str_eq, eq_iff, any,
}
use kin_gateway.Json.{object, end}
use kin_gateway.Registry.Disabled.{register_again, agent_steps, disabled_stays_unlisted}
use kin_gateway.Registry.Local.{AgentRow, Surroundings, list_cards, set_enabled}
use kin_gateway.Registry.PeerCards.{CardCodec, find_card, is_stale_card}
use kin_gateway.Registry.Review.{CardStep, publish, review, card_steps, stale_until_reviewed}
use kin_gateway.Schemas.Cards.{
  network_deny, read_only, shell_deny, never, always_ask, always_allow, sdk, AgentCard, ready,
  policy_blocked, PublishedAgentCard,
}
use kin_gateway.Schemas.Encoding.{urlsafe_b64encode, compute_content_hash}
use kin_gateway.Storage.Services.{Stamp}
use kin_gateway.Storage.Tables.{fresh_card, PeerCardRow, Db}

abbrev codec : CardCodec
codec = record {
  crypto = record {
    jcs_dumps = λ ms. some "{}";
    sha256_digest = λ s. s;
    b64_body = λ s. "newhash";
    b64_padding = λ s. 1;
    urlsafe_b64decode = λ s. some s;
    ed25519_verify = λ key sig jcs. true;
  };
  dump = λ card. end;
  dump_json = λ card. "{}";
}

abbrev planner : PublishedAgentCard
planner = record {
  agent_id = "a1";
  name = "Planner";
  description = "plans";
  capabilities = record { tags = []; accepts = []; produces = [] };
  availability = ready;
  requires_owner_acceptance = true;
}

abbrev known_card : PeerCardRow
known_card = record {
  peer_username = "alice";
  agent_id = "a1";
  card_json = "{}";
  content_hash = "oldhash";
  status = fresh_card;
  first_seen_at = "2026-07-23T11:00:00Z";
  last_seen_at = "2026-07-23T11:00:00Z";
}

abbrev cards_db : Db
cards_db = record {
  identity = some "bob";
  contacts = [];
  sessions = [];
  session_events = [];
  approvals = [];
  audit_events = [];
  outbound_envelope_queue = [];
  artifacts = [];
  peer_agent_cards = known_card ∷ [];
}

abbrev later_steps : List CardStep
later_steps = publish "2026-07-23T13:00:00Z" "alice" planner ∷ review "alice" "a2" ∷ []

stale_until_reviewed_example :
    is_stale_card
      (card_steps codec (publish "2026-07-23T12:00:00Z" "alice" planner ∷ later_steps) cards_db)
      "alice"
      "a1"
    ≡ true
unfolding find_card compute_content_hash urlsafe_b64encode
stale_until_reviewed_example =
    stale_until_reviewed codec "alice" "a1" "2026-07-23T12:00:00Z" planner cards_db known_card
      "newhash" later_steps refl refl refl
      (λ same. ground (arith, same, eq_iff "oldhash" "newhash")) (tt, (refl, tt))

-- The review makes the card fresh.
review_makes_fresh :
    is_stale_card
      (card_steps codec
        (publish "2026-07-23T12:00:00Z" "alice" planner ∷ review "alice" "a1" ∷ [])
        cards_db)
      "alice"
      "a1"
    ≡ false
unfolding is_stale_card find_card compute_content_hash urlsafe_b64encode card_steps
review_makes_fresh = refl

abbrev surroundings : Surroundings
surroundings = record {
  services = record {
    sha256 = λ s. s;
    loads = λ s. some (object end);
    dumps = λ j. "{}";
    seal = λ nonce plain. plain;
    unseal = λ token. some token;
    unseal-seal = λ nonce plain. refl;
  };
  local_json = λ card. "{}";
  published_json = λ card. "{}";
  card_of_json = λ s. none;
  webhook_secret = λ profile id. none;
  is_dir = λ path. true;
}

abbrev stamp : Stamp
stamp = record { uuid = "u1"; now = "2026-07-23T12:00:00Z"; nonce = "n" }

abbrev planner_row : AgentRow
planner_row = record {
  agent_id = "a1";
  name = "Planner";
  adapter_type = "sdk";
  local_card_json = some "{}";
  published_card_json = some "{}";
  enabled = true;
  availability = ready;
  created_at = "2026-07-23T11:00:00Z";
  updated_at = "2026-07-23T11:00:00Z";
  card_version = 1;
}

abbrev planner_card : AgentCard
planner_card = record {
  id = "a1";
  name = "Planner";
  description = "plans";
  adapter = sdk "x:y";
  capabilities = record { tags = []; accepts = []; produces = [] };
  boundaries = record {
    network_access = network_deny;
    filesystem = read_only;
    shell = shell_deny;
    max_runtime_seconds = 300;
    max_artifact_bytes = 1_000_000;
  };
  autonomy = record {
    relay_information = always_allow;
    propose_actions = always_ask;
    execute_local_actions = never;
  };
}

disabled_stays_unlisted_example :
    any
      (λ (r : AgentRow). str_eq r.agent_id "a1")
      (list_cards false (
        agent_steps surroundings
          (register_again stamp planner_card none none
            ∷ register_again stamp planner_card (some false) none
            ∷ [])
          (record planner_row {
            enabled = false;
            availability = policy_blocked;
            updated_at = "2026-07-23T12:00:00Z";
          }
            ∷ [])))
    ≡ false
unfolding set_enabled
disabled_stays_unlisted_example =
    disabled_stays_unlisted surroundings "a1" stamp (planner_row ∷ []) _
      (register_again stamp planner_card none none
        ∷ register_again stamp planner_card (some false) none
        ∷ [])
      refl (tt, (tt, tt))
