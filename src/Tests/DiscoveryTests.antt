-- ===== src/Tests/DiscoveryTests.antt =====
-- src/NodeDiscovery.cpp on a topology of three nodes, one of them the local node.
use peer_to_peer_network_ove.Prelude.{◌≡◌, refl, true, false, [], ◌∷◌}
use peer_to_peer_network_ove.Prelude.Int.{pos}
use peer_to_peer_network_ove.Outcome.{ok}
use peer_to_peer_network_ove.Topology.{get_node_address_body}
use peer_to_peer_network_ove.Discovery.{Discovery, discover_peers}
use peer_to_peer_network_ove.Discovery.Peers.{discover_peers-take}
use peer_to_peer_network_ove.Tests.ManagerTests.{manager}

abbrev pub discovery : Discovery
discovery = record {
  world = manager.world;
  discovery_active = false;
  discovered_nodes = [];
  discovery_timestamps = [];
  on_peer_discovered = true;
  on_discovery_failed = false;
  discovery_notices = [];
}

-- No node is asked for, and one is found.
discover_peers-take_example :
    (s : Discovery) × (discover_peers (pos 0) 5 discovery ≡ ok (2 ∷ [], s))
    × (s.world ≡ discovery.world)
unfolding get_node_address_body
discover_peers-take_example = discover_peers-take (pos 0) 5 discovery refl
