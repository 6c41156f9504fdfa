-- ===== src/Simulator/Removal.antt =====
-- removeNode of NetworkSimulator (src/NodeSimulator.cpp).
use peer_to_peer_network_ove.Prelude.{◌≡◌, ℕ, lookup, some, arith}
use peer_to_peer_network_ove.Outcome.{Action, ok}
use peer_to_peer_network_ove.Simulator.Member.{SimulatedNode}
use peer_to_peer_network_ove.Simulator.{NetworkSimulator, put, at_node}

-- A call that returns on an object that exists.
pub at_node-ok :
    {A : Type 0} (h : ℕ) (m : Action SimulatedNode A) (sim : NetworkSimulator) (n s : SimulatedNode)
    (a : A)
    → lookup h sim.nodes ≡ some n
    → m n ≡ ok (a, s)
    → at_node h m sim ≡ ok (a, record sim { nodes = put h s sim.nodes })
unfolding at_node
at_node-ok h m sim n s a found e = ground (arith, e)
