-- ===== src/Session/Machine.antt =====
-- A session under a sequence of reducer calls: the caller goes on from the state that a call
-- returns, and from the state it had where the call raises (kin-node/kin/session/reducer.py).
use kin_gateway.Prelude.{String, Option, List, [], ◌∷◌}
use kin_gateway.Json.{Members}
use kin_gateway.Session.Message.{Envelope}
use kin_gateway.Session.Reducer.Commands.{process_node_command, process_owner_command}
use kin_gateway.Session.Reducer.Peer.{process_peer_envelope}
use kin_gateway.Session.State.{SessionState, Outcome, returned, raised}

pub data Op : Type 0 where
  peer : Envelope → Op
  node : String → Op
  owner : String → String → Option Members → Op

unfoldable pub handle : SessionState → Op → Outcome
handle state (peer e) = process_peer_envelope state e
handle state (node command) = process_node_command state command
handle state (owner user action payload) = process_owner_command state user action payload

abbrev pub settle : SessionState → Outcome → SessionState
settle state (returned r) = r.new_state
settle state (raised f) = state

unfoldable pub step : SessionState → Op → SessionState
step state op = settle state (handle state op)

unfoldable pub run : SessionState → List Op → SessionState
run state [] = state
run state (op ∷ ops) = run (step state op) ops
