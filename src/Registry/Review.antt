-- ===== src/Registry/Review.antt =====
-- A changed card of a peer stays stale until its owner's review
-- (kin-node/kin/agent_registry/peer_cards.py).
use kin_gateway.Prelude.{
  String, ◌≡◌, refl, ◌≢◌, inl, inr, true, false, ◌&&◌, Option, none, some, List, [], ◌∷◌, ◌++◌,
  arith, str_eq, eq_iff, if◌then◌else◌, Bool-cases, Option-cases, find_first_append, find_first,
  update_where, All,
}
use kin_gateway.Registry.PeerCards.{
  CardCodec, is_card_of, update_cards, find_card, cache_found, cache_peer_card, mark_reviewed,
  status_is_stale, row_is_stale, is_stale_card,
}
use kin_gateway.Schemas.Cards.{PublishedAgentCard}
use kin_gateway.Schemas.Encoding.{compute_content_hash}
use kin_gateway.Storage.Tables.{PeerCardRow, Db}

-- What happens to the cached cards: a peer publishes a card at an instant, or the local owner
-- reviews one.
pub data CardStep : Type 0 where
  publish : String → String → PublishedAgentCard → CardStep
  review : String → String → CardStep

-- Where the hash raises, nothing is written.
unfoldable pub card_step : CardCodec → CardStep → Db → Db
unfolding cache_peer_card mark_reviewed
card_step codec (publish now peer_name card) db =
    elim (cache_peer_card codec now peer_name card db) [ none ↦ db | some (a, out) ↦ out ]
card_step codec (review peer_name agent) db = mark_reviewed peer_name agent db

unfoldable pub card_steps : CardCodec → List CardStep → Db → Db
unfolding card_step
card_steps codec [] db = db
card_steps codec (s ∷ steps) db = card_steps codec steps (card_step codec s db)

-- The owner does not review this card.
abbrev pub IsUnreviewed : String → String → CardStep → Type 0
IsUnreviewed peer_name agent (publish now other_peer card) = Unit
IsUnreviewed peer_name agent (review other_peer other_agent) =
    (str_eq other_peer peer_name && str_eq other_agent agent) ≡ false

-- An update that leaves the keys of a row.
abbrev KeepsKeys : (PeerCardRow → PeerCardRow) → Type 0
KeepsKeys f =
    (r : PeerCardRow) → ((f r).peer_username ≡ r.peer_username) × ((f r).agent_id ≡ r.agent_id)

module _ (peer_name agent at_peer at_agent : String) (f : PeerCardRow → PeerCardRow)
    (keys : KeepsKeys f) where
  same_card : (r : PeerCardRow) → is_card_of peer_name agent (f r) ≡ is_card_of peer_name agent r
  unfolding is_card_of
  same_card r = rw ((keys r).0, (keys r).1) refl

  -- The update is of another card, or leaves a stale status stale.
  abbrev KeepsStale : Type 0
  KeepsStale =
      (r : PeerCardRow)
      → is_card_of peer_name agent r ≡ true
      → is_card_of at_peer at_agent r ≡ true
      → status_is_stale r.status ≡ true
      → status_is_stale (f r).status ≡ true

  stale_head :
      (r : PeerCardRow) (rows later : List PeerCardRow)
      → KeepsStale
      → (row_is_stale (find_first (is_card_of peer_name agent) rows) ≡ true
          → row_is_stale (find_first (is_card_of peer_name agent) later) ≡ true)
      → row_is_stale (find_first (is_card_of peer_name agent) (r ∷ rows)) ≡ true
      → row_is_stale (
          find_first
            (is_card_of peer_name agent)
            ((if is_card_of at_peer at_agent r then f r else r) ∷ later))
        ≡ true
  unfolding row_is_stale
  stale_head r rows later keeps rest h = elim (Bool-cases (is_card_of at_peer at_agent r)) [
    | inr apart ↦ rw apart (ground (arith, h, rest))
    | inl here ↦
        rw (here, same_card r)
          (elim (Bool-cases (is_card_of peer_name agent r)) [
            | inl mine ↦ rw mine (keeps r mine here (rw mine at h))
            | inr not_mine ↦ rw not_mine (rest (rw not_mine at h))
          ])
  ]

  stale_update :
      (rows : List PeerCardRow)
      → KeepsStale
      → row_is_stale (find_first (is_card_of peer_name agent) rows) ≡ true
      → row_is_stale (
          find_first
            (is_card_of peer_name agent)
            (update_where (is_card_of at_peer at_agent) f rows))
        ≡ true
  stale_update [] keeps h = h
  stale_update (r ∷ rows) keeps h = stale_head r rows _ keeps (stale_update rows keeps) h

stale_append :
    (peer_name agent : String) (rows more : List PeerCardRow)
    → row_is_stale (find_first (is_card_of peer_name agent) rows) ≡ true
    → row_is_stale (find_first (is_card_of peer_name agent) (rows ++ more)) ≡ true
unfolding row_is_stale
stale_append peer_name agent rows more h =
    elim (Option-cases (find_first (is_card_of peer_name agent) rows)) [
      | inl gone ↦ absurd (ground (arith, gone))
      | inr (r, found) ↦
          rw (find_first_append (is_card_of peer_name agent) rows more r found) (rw found at h)
    ]

module _ (codec : CardCodec) (peer_name agent : String) where
  found_stale :
      (at_peer at_agent json hash now : String) (o : Option PeerCardRow) (db : Db)
      → is_stale_card db peer_name agent ≡ true
      → is_stale_card (cache_found at_peer at_agent json hash now o db).1 peer_name agent ≡ true
  unfolding cache_found is_stale_card find_card update_cards
  found_stale at_peer at_agent json hash now none db h =
      stale_append peer_name agent db.peer_agent_cards _ h
  found_stale at_peer at_agent json hash now (some r) db h =
      elim (Bool-cases (str_eq r.content_hash hash)) [
        | inl same ↦ rw same (
            stale_update peer_name agent at_peer at_agent _ (λ q. (refl, refl)) db.peer_agent_cards
              (λ q mine here stale. stale) h)
        | inr changed ↦ rw changed (
            stale_update peer_name agent at_peer at_agent _ (λ q. (refl, refl)) db.peer_agent_cards
              (λ q mine here stale. refl) h)
      ]

  reviewed_other :
      (p a at_peer at_agent : String)
      → (str_eq at_peer peer_name && str_eq at_agent agent) ≡ false
      → (str_eq p peer_name && str_eq a agent) ≡ true
      → (str_eq p at_peer && str_eq a at_agent) ≢ true
  reviewed_other p a at_peer at_agent fine mine here = ground (
    arith,
    eq_iff p peer_name,
    eq_iff a agent,
    eq_iff p at_peer,
    eq_iff a at_agent,
    eq_iff at_peer peer_name,
    eq_iff at_agent agent,
  )

  step_stale :
      (s : CardStep) (db : Db)
      → IsUnreviewed peer_name agent s
      → is_stale_card db peer_name agent ≡ true
      → is_stale_card (card_step codec s db) peer_name agent ≡ true
  unfolding card_step cache_peer_card mark_reviewed update_cards is_stale_card find_card is_card_of
  step_stale (publish now at_peer card) db fine h =
      elim (Option-cases (compute_content_hash codec.crypto (codec.dump card))) [
        | inl no_hash ↦ rw (card_step, no_hash) h
        | inr (hash, hashed) ↦
            rw (card_step, hashed)
              (found_stale at_peer card.agent_id (codec.dump_json card) hash now
                (find_card db at_peer card.agent_id) db h)
      ]
  step_stale (review at_peer at_agent) db fine h =
      stale_update peer_name agent at_peer at_agent _ (λ q. (refl, refl)) db.peer_agent_cards
        (λ q mine here stale.
          absurd (reviewed_other q.peer_username q.agent_id at_peer at_agent fine mine here))
        h

  changed_rows :
      (f : PeerCardRow → PeerCardRow) (rows : List PeerCardRow) (r : PeerCardRow)
      → KeepsKeys f
      → ((q : PeerCardRow) → status_is_stale (f q).status ≡ true)
      → find_first (is_card_of peer_name agent) rows ≡ some r
      → row_is_stale (
          find_first
            (is_card_of peer_name agent)
            (update_where (is_card_of peer_name agent) f rows))
        ≡ true
  unfolding row_is_stale
  changed_rows f [] r keys stale h = cc
  changed_rows f (q ∷ qs) r keys stale h = elim (Bool-cases (is_card_of peer_name agent q)) [
    | inl mine ↦ rw (mine, same_card peer_name agent peer_name agent f keys q, mine) (stale q)
    | inr apart ↦ rw (apart, apart) (changed_rows f qs r keys stale (rw apart at h))
  ]

  changed_step :
      (now : String) (card : PublishedAgentCard) (db : Db) (r : PeerCardRow) (hash : String)
      → card.agent_id ≡ agent
      → find_card db peer_name agent ≡ some r
      → compute_content_hash codec.crypto (codec.dump card) ≡ some hash
      → r.content_hash ≢ hash
      → is_stale_card (card_step codec (publish now peer_name card) db) peer_name agent ≡ true
  unfolding card_step cache_peer_card cache_found update_cards is_stale_card find_card
  changed_step now card db r hash same found hashed differs =
      let changed : str_eq r.content_hash hash ≡ false =
        ground (arith, eq_iff r.content_hash hash) in
      rw (card_step, hashed, same, found, changed)
        (changed_rows _ db.peer_agent_cards r (λ q. (refl, refl)) (λ q. refl) found)

  stale_stays :
      (steps : List CardStep) (db : Db)
      → All (IsUnreviewed peer_name agent) steps
      → is_stale_card db peer_name agent ≡ true
      → is_stale_card (card_steps codec steps db) peer_name agent ≡ true
  unfolding card_steps
  stale_stays [] db fine h = h
  stale_stays (s ∷ steps) db fine h =
      stale_stays steps (card_step codec s db) fine.1 (step_stale s db fine.0 h)

  -- Where a peer publishes a card of an agent with another content hash than the cached one, the
  -- card is stale from then on, over any cards that peers publish, its own among them, and any
  -- reviews of other cards: only its owner's review makes it fresh.
  pub stale_until_reviewed :
      (now : String) (card : PublishedAgentCard) (db : Db) (r : PeerCardRow) (hash : String)
      (steps : List CardStep)
      → card.agent_id ≡ agent
      → find_card db peer_name agent ≡ some r
      → compute_content_hash codec.crypto (codec.dump card) ≡ some hash
      → r.content_hash ≢ hash
      → All (IsUnreviewed peer_name agent) steps
      → is_stale_card (card_steps codec (publish now peer_name card ∷ steps) db) peer_name agent
        ≡ true
  unfolding card_steps
  stale_until_reviewed now card db r hash steps same found hashed differs fine =
      stale_stays steps (card_step codec (publish now peer_name card) db) fine
        (changed_step now card db r hash same found hashed differs)
