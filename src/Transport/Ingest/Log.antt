-- ===== src/Transport/Ingest/Log.antt =====
-- The log of events over a sequence of calls of ingest_envelope (kin-node/kin/transport/v11.py)
-- that end with the commit of the session's status or before it.
use mathlib.Core.Option.{some-injective}
use kin_gateway.Prelude.{ℕ, ◌≡◌, subst, inl, inr, Bool, true, ◌&&◌, none, List, [], ◌∷◌, find_first}
use kin_gateway.Audit.Order.{IsLog, Added, Added-IsLog}
use kin_gateway.Audit.Writer.{has_sequence}
use kin_gateway.Json.{Members}
use kin_gateway.Session.Message.{Envelope}
use kin_gateway.Session.State.{SessionState}
use kin_gateway.Storage.Tables.{Db}
use kin_gateway.Transport.Ingest.Authentic.{commit_events}
use kin_gateway.Transport.Ingest.Events.{Stores}
use kin_gateway.Transport.Ingest.Model.{Env, Moment, ends}
use kin_gateway.Transport.Ingest.Pipeline.{ingest_to_commit}
use kin_gateway.Transport.Ingest.Store.{event_of}

-- One call after another, each at its moment.
unfoldable pub ingest_all : Env → List (Moment × Members) → Db → Db
unfolding ingest_to_commit
ingest_all env [] db = db
ingest_all env ((m, body) ∷ calls) db = ingest_all env calls (ingest_to_commit env m body db).1

-- Each of the calls is over with the commit of the session's status or before it.
unfoldable pub all_end : Env → List (Moment × Members) → Db → Bool
unfolding ingest_to_commit ends
all_end env [] db = true
all_end env ((m, body) ∷ calls) db =
    ends (ingest_to_commit env m body db).0 && all_end env calls (ingest_to_commit env m body db).1

Stores-Added :
    (env : Env) (m : Moment) (e : Envelope) (state : SessionState) (db out : Db)
    → Stores env m e state db out
    → Added env.services m.event (event_of e) db out
unfolding event_of
Stores-Added env m e state db out s = record {
  row = s.row;
  unused = λ n q.
      subst
        (λ (k : ℕ).
          find_first (has_sequence e.session_id e.actor_username k) db.session_events ≡ none)
        (some-injective e.sequence n q) s.unused;
}

ingest-IsLog :
    (env : Env) (m : Moment) (body : Members) (db : Db)
    → IsLog db.session_events
    → IsLog (ingest_to_commit env m body db).1.session_events
ingest-IsLog env m body db l = elim (commit_events env m body db) [
  | inl same ↦ rw same l
  | inr a ↦
      Added-IsLog env.services m.event (event_of a.v.envelope) db _
        (Stores-Added env m a.v.envelope a.state db _ a.stores) l
]

kept-IsLog :
    (env : Env) (calls : List (Moment × Members)) (db : Db)
    → IsLog db.session_events
    → IsLog (ingest_all env calls db).session_events
unfolding ingest_all
kept-IsLog env [] db l = l
kept-IsLog env ((m, body) ∷ calls) db l =
    kept-IsLog env calls (ingest_to_commit env m body db).1 (ingest-IsLog env m body db l)

-- Over any bodies that are received one after another, where no call accepts a final result or an
-- artifact that a peer offers (those add rows of their own), a log of events that is in order stays
-- in order: positions in a session grow, and no sequence number of an actor is stored twice in a
-- session.
pub ingest_all-IsLog :
    (env : Env) (calls : List (Moment × Members)) (db : Db)
    → all_end env calls db ≡ true
    → IsLog db.session_events
    → IsLog (ingest_all env calls db).session_events
ingest_all-IsLog env calls db over l = kept-IsLog env calls db l
