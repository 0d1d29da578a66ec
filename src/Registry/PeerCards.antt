-- ===== src/Registry/PeerCards.antt =====
-- kin-node/kin/agent_registry/peer_cards.py.
use kin_gateway.Prelude.{
  String, Bool, true, false, ◌&&◌, Option, none, some, [], ◌∷◌, ◌++◌, str_eq, if◌then◌else◌,
  find_first, update_where,
}
use kin_gateway.Json.{Members}
use kin_gateway.Schemas.Cards.{PublishedAgentCard}
use kin_gateway.Schemas.Encoding.{Crypto, compute_content_hash}
use kin_gateway.Storage.Tables.{CardStatus, fresh_card, stale_card, PeerCardRow, Db}

-- model_dump and model_dump_json of a card, and the content hash that compute_content_hash of
-- kin-node/kin/schemas.py then gives (`none` where it raises).
pub record CardCodec : Type 0 where
  pub crypto : Crypto
  pub dump : PublishedAgentCard → Members
  pub dump_json : PublishedAgentCard → String

pub data Cached : Type 0 where
  was_fresh was_stale was_unchanged : Cached

-- WHERE peer_username = ? AND agent_id = ?
unfoldable pub is_card_of : String → String → PeerCardRow → Bool
is_card_of peer_name agent r = str_eq r.peer_username peer_name && str_eq r.agent_id agent

unfoldable pub update_cards : String → String → (PeerCardRow → PeerCardRow) → Db → Db
unfolding is_card_of
update_cards peer_name agent f db = record db {
  peer_agent_cards = update_where (is_card_of peer_name agent) f db.peer_agent_cards;
}

unfoldable pub find_card : Db → String → String → Option PeerCardRow
unfolding is_card_of
find_card db peer_name agent = find_first (is_card_of peer_name agent) db.peer_agent_cards

unfoldable pub cache_found :
    String → String → String → String → String → Option PeerCardRow → Db → Cached × Db
unfolding update_cards
cache_found peer_name agent json hash now none db = (
  was_fresh,
  record db {
    peer_agent_cards =
        db.peer_agent_cards
        ++ record {
          peer_username = peer_name;
          agent_id = agent;
          card_json = json;
          content_hash = hash;
          status = fresh_card;
          first_seen_at = now;
          last_seen_at = now;
        }
          ∷ [];
  },
)
cache_found peer_name agent json hash now (some r) db =
    if str_eq r.content_hash hash
    then (was_unchanged, update_cards peer_name agent (λ c. record c { last_seen_at = now }) db)
    else (
      was_stale,
      update_cards peer_name agent
          (λ c. record c {
            card_json = json;
            content_hash = hash;
            status = stale_card;
            last_seen_at = now;
          })
          db,
    )

-- The outer `none` is an exception of the hash.
unfoldable pub cache_peer_card :
    CardCodec → String → String → PublishedAgentCard → Db → Option (Cached × Db)
unfolding cache_found find_card compute_content_hash
cache_peer_card codec now peer_name card db =
    elim (compute_content_hash codec.crypto (codec.dump card)) [
      | none ↦ none
      | some hash ↦ some (
          cache_found peer_name card.agent_id (codec.dump_json card) hash now
            (find_card db peer_name card.agent_id) db)
    ]

unfoldable pub mark_reviewed : String → String → Db → Db
unfolding update_cards
mark_reviewed peer_name agent db =
    update_cards peer_name agent (λ c. record c { status = fresh_card }) db

unfoldable pub status_is_stale : CardStatus → Bool
status_is_stale fresh_card = false
status_is_stale stale_card = true

unfoldable pub row_is_stale : Option PeerCardRow → Bool
unfolding status_is_stale
row_is_stale none = false
row_is_stale (some r) = status_is_stale r.status

unfoldable pub is_stale_card : Db → String → String → Bool
unfolding row_is_stale find_card
is_stale_card db peer_name agent = row_is_stale (find_card db peer_name agent)
