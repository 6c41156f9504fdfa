-- ===== src/World.antt =====
-- The objects that the managers share by std::shared_ptr (src/NodeSimulator.cpp and src/main.cpp make
-- them): the local node, the NetworkManager and the TopologyManager. No other object holds a mutex
-- while it calls these, but for those that are modelled with theirs.
pub mod Isolation
use peer_to_peer_network_ove.Outcome.{Action, ok, fault}
use peer_to_peer_network_ove.Node.{Node}
use peer_to_peer_network_ove.Network.{Network}
use peer_to_peer_network_ove.Topology.{Topology}

pub record World : Type 0 where
  pub node : Node
  pub network : Network
  pub topology : Topology

abbrev pub on_topology : {A : Type 0} → Action Topology A → Action World A
on_topology m w = elim (m w.topology) [
  | fault e ↦ fault e
  | ok (a, t) ↦ ok (a, record w { topology = t })
]

abbrev pub on_network : {A : Type 0} → (Network → A × Network) → Action World A
on_network f w = let (a, n) = f w.network in ok (a, record w { network = n })

abbrev pub on_node : {A : Type 0} → (Node → Node × A) → Action World A
on_node f w = let (n, a) = f w.node in ok (a, record w { node = n })
