-- ===== src/Schemas/Verification.antt =====
-- When verify_and_build_envelope of kin-node/kin/schemas.py accepts a raw envelope.
use kin_gateway.Prelude.{
  get, String, ◌≡◌, refl, ◌↔◌, inl, inr, true, Option, some, arith, eq_iff, Option-cases, truthy?,
  Dict, Result, ok, err, ◌>>◌, Result-cases,
}
use kin_gateway.Gateway.Mirror.Fetch.{made}
use kin_gateway.Json.{Members}
use kin_gateway.Schemas.Encoding.{Crypto, compute_content_hash}
use kin_gateway.Schemas.Envelope.{
  VerifyError, model_validate, verify_envelope_signature, VerifiedEnvelope, verify_actor,
  verify_content, verify_and_build_envelope,
}
use kin_gateway.Session.Message.{Envelope}

-- Every stage passes: the fields, the session, the content hash, the actor and its agent, and the
-- signature under the key of the actor.
pub record IsVerified (cr : Crypto) (key_of : String → Option String) (body : Members)
    (session : String) (people : Dict String) (v : VerifiedEnvelope) : Type 0 where
  pub fields : model_validate body ≡ ok v.envelope
  pub same_session : v.envelope.session_id ≡ session
  pub hashed : compute_content_hash cr v.envelope.payload ≡ some v.envelope.content_hash
  pub participant : get people v.envelope.actor_username ≡ some v.envelope.actor_agent_id
  pub trusted : key_of v.envelope.actor_username ≡ some v.actor_public_key
  pub present : truthy? v.envelope.signature ≡ true
  pub signed : verify_envelope_signature cr body v.actor_public_key ≡ true
  pub time : v.verified_at ≡ v.envelope.timestamp

content_iff :
    (cr : Crypto) (session : String) (e : Envelope)
    → (verify_content cr session e ≡ ok tt)
      ↔ ((e.session_id ≡ session) × (compute_content_hash cr e.payload ≡ some e.content_hash))
unfolding verify_content
content_iff cr session e = elim (Option-cases (compute_content_hash cr e.payload)) [
  | inl gone ↦ ground (arith, gone, eq_iff e.session_id session)
  | inr (h, made) ↦ ground (arith, made, eq_iff e.session_id session, eq_iff e.content_hash h)
]

module _ (cr : Crypto) (key_of : String → Option String) (body : Members)
    (people : Dict String) where
  actor_iff :
      (e : Envelope) (v : VerifiedEnvelope)
      → (verify_actor cr key_of body people e ≡ ok v) ↔ (
          (v.envelope ≡ e)
          × (get people e.actor_username ≡ some e.actor_agent_id)
          × (key_of e.actor_username ≡ some v.actor_public_key)
          × (truthy? e.signature ≡ true)
          × (verify_envelope_signature cr body v.actor_public_key ≡ true)
          × (v.verified_at ≡ e.timestamp))
  unfolding verify_actor
  actor_iff e v = elim (Option-cases (get people e.actor_username)) [
    | inl gone ↦ ground (arith, gone)
    | inr (agent, made) ↦ elim (Option-cases (key_of e.actor_username)) [
      | inl unknown ↦ ground (arith, unknown, made, eq_iff e.actor_agent_id agent)
      | inr (key, found) ↦ ground (arith, made, found, eq_iff e.actor_agent_id agent)
    ]
  ]

  after_content :
      (session : String) (e : Envelope) (v : VerifiedEnvelope) (c : Result VerifyError (Unit {0}))
      → verify_content cr session e ≡ c
      → ((verify_content cr session e >> verify_actor cr key_of body people e) ≡ ok v)
        ↔ ((verify_content cr session e ≡ ok tt) × (verify_actor cr key_of body people e ≡ ok v))
  after_content session e v (ok tt) h = rw h (ground arith)
  after_content session e v (err x) h = rw h (ground arith)

  IsVerified-sound :
      (session : String) (e : Envelope) (v : VerifiedEnvelope)
      → model_validate body ≡ ok e
      → verify_content cr session e ≡ ok tt
      → verify_actor cr key_of body people e ≡ ok v
      → IsVerified cr key_of body session people v
  IsVerified-sound session e v read content actor =
      let (same, found, trusted, present, signed, time) = (actor_iff e v).0 actor in
      let (same_session, hashed) = (content_iff cr session e).0 content in
      record {
        fields = rw same read;
        same_session = rw same same_session;
        hashed = rw same hashed;
        participant = rw same found;
        trusted = rw same trusted;
        present = rw same present;
        signed = signed;
        time = rw same time;
      }

  IsVerified-complete :
      (session : String) (v : VerifiedEnvelope)
      → IsVerified cr key_of body session people v
      → verify_and_build_envelope cr key_of body session people ≡ ok v
  unfolding verify_and_build_envelope
  IsVerified-complete session v q = rw q.fields (
      (after_content session v.envelope v _ refl).1 (
        (content_iff cr session v.envelope).1 (q.same_session, q.hashed),
        (actor_iff v.envelope v).1 (refl, q.participant, q.trusted, q.present, q.signed, q.time),
      ))

  -- verify_and_build_envelope accepts a raw envelope exactly when its fields are those of an
  -- envelope, it names the session, its content hash is that of its payload, the map of participants
  -- gives its actor its agent, and it carries a signature that holds under the actor's trusted key.
  pub IsVerified-iff :
      (session : String) (v : VerifiedEnvelope)
      → (verify_and_build_envelope cr key_of body session people ≡ ok v)
        ↔ IsVerified cr key_of body session people v
  unfolding verify_and_build_envelope
  IsVerified-iff session v = (
    (λ h. elim (Result-cases (model_validate body)) [
      | inl (e, read) ↦
          let (content, actor) = (after_content session e v _ refl).0 (rw read at h) in
          IsVerified-sound session e v read content actor
      | inr (x, bad) ↦ let broken = rw bad at h in cc
    ]),
    IsVerified-complete session v,
  )
