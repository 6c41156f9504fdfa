-- ===== src/Simulator/Stopping.antt =====
-- stopAllNodes of NetworkSimulator (src/NodeSimulator.cpp).
use peer_to_peer_network_ove.Prelude.{ℕ, Bool, true, not, lookup, none, some}
use peer_to_peer_network_ove.Simulator.{NetworkSimulator}

-- The object with a number does not run, if there is one.
abbrev pub is_stopped : ℕ → NetworkSimulator → Bool
is_stopped j sim = elim (lookup j sim.nodes) [ none ↦ true | some n ↦ not n.running ]
