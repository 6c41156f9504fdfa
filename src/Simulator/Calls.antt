-- ===== src/Simulator/Calls.antt =====
-- Histories of the calls of NetworkSimulator (src/NodeSimulator.cpp), with the rounds of its nodes'
-- threads and the messages that arrive at them between the calls.
use peer_to_peer_network_ove.Prelude.{ℕ, Option, String, ◌∷◌, [], List}
use peer_to_peer_network_ove.Common.{NodeId, Message, TimePoint}
use peer_to_peer_network_ove.Outcome.{Action, ret, ◌>>=◌, ◌>>◌}
use peer_to_peer_network_ove.Network.{Poco}
use peer_to_peer_network_ove.Simulator.Member.{Timers, thread_round, receive}
use peer_to_peer_network_ove.Simulator.{
  NetworkSimulator, at_node, create_node, remove_node, start_all_nodes, stop_all_nodes,
  test_dynamic_node_addition, test_node_removal, test_node_failure, test_network_integrity,
}

-- The calls that change the simulator, and what its nodes do by themselves.
pub data Call : Type 0 where
  creates : Option String → NodeId → ℕ → Call
  removes : NodeId → Call
  starts_all stops_all removes_last fails_last checks_integrity : Call
  adds : Option String → NodeId → Call
  goes_round : ℕ → TimePoint → Timers → Call
  receives : ℕ → Message → Call

abbrev discard : {A : Type 0} → Action NetworkSimulator A → Action NetworkSimulator (Unit {0})
discard m = m >>= λ _. ret tt

module _ (env : ℕ → Poco) where
  unfoldable pub perform : Call → TimePoint → Action NetworkSimulator (Unit {0})
  perform (creates hostname id port) now = discard (create_node hostname id port now)
  perform (removes id) now = discard (remove_node env now id)
  perform starts_all now = start_all_nodes env now
  perform stops_all now = stop_all_nodes env now
  perform removes_last now = test_node_removal env now
  perform fails_last now = test_node_failure env now
  perform checks_integrity now = test_network_integrity env now
  perform (adds hostname id) now = test_dynamic_node_addition env now hostname id
  perform (goes_round h steady timers) now =
      discard (at_node h (thread_round (env h) steady now timers))
  perform (receives h m) now = at_node h (receive (env h) m now)

  -- The calls with the times at which they are made.
  unfoldable pub run : List (Call × TimePoint) → Action NetworkSimulator (Unit {0})
  unfolding perform
  run [] = ret tt
  run ((c, now) ∷ cs) = perform c now >> run cs
