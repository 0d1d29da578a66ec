-- ===== src/Relay/Machine.antt =====
-- The relay under a sequence of requests (kin-relay/kin_relay/routes.py).
use kin_gateway.Prelude.{ℕ, String, List, [], ◌∷◌}
use kin_gateway.Relay.Model.{RelayDb, RegisterRequest, Externals, Headers}
use kin_gateway.Relay.Routes.{register_endpoint, deliver_to_mailbox, fetch_inbox, acknowledge_inbox}

pub data Request : Type 0 where
  register : RegisterRequest → Request
  look_up : String → Request
  deliver : ℕ → String → String → String → Request
  fetch : ℕ → Headers → Request
  acknowledge : ℕ → Headers → List ℕ → Request

unfoldable pub serve : Externals → RelayDb → Request → RelayDb
serve ex db (register body) = (register_endpoint body db).1
serve ex db (look_up user) = db
serve ex db (deliver now user sender blob) = (deliver_to_mailbox ex now user sender blob db).1
serve ex db (fetch now h) = (fetch_inbox ex now h db).1
serve ex db (acknowledge now h ids) = (acknowledge_inbox ex now h ids db).1

unfoldable pub serve_all : Externals → RelayDb → List Request → RelayDb
serve_all ex db [] = db
serve_all ex db (r ∷ rs) = serve_all ex (serve ex db r) rs
