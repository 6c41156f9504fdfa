-- ===== src/Tests/ManagerTests.antt =====
-- src/DynamicNodeManager.cpp on a manager of three nodes, one of which is removed.
use peer_to_peer_network_ove.Prelude.{◌≡◌, refl, true, false, [], ◌∷◌, erase, arith}
use peer_to_peer_network_ove.Prelude.Int.{pos}
use peer_to_peer_network_ove.Outcome.{fault, deadlock}
use peer_to_peer_network_ove.Topology.{Topology, remove_node_body}
use peer_to_peer_network_ove.Manager.{NodeInfo, Manager, active, detect_failed_nodes, remove_node}
use peer_to_peer_network_ove.Manager.Deadlock.{detect_failed_nodes-deadlock, remove_node-deadlock}
use peer_to_peer_network_ove.Tests.NodeTests.{here_address, there_address}
use peer_to_peer_network_ove.Tests.TopologyTests.{fresh}
use peer_to_peer_network_ove.Tests.RouterTests.{router}
use peer_to_peer_network_ove.Tests.NetworkTests.{good_sockets}

abbrev pub three_nodes : Topology
three_nodes = record fresh {
  node_registry = (1, here_address) ∷ (2, there_address) ∷ (3, here_address) ∷ [];
  adjacency_list = (1, []) ∷ (2, []) ∷ (3, []) ∷ [];
}

abbrev pub second : NodeInfo
second = record {
  node_id = 2;
  address = there_address;
  state = active;
  last_seen = 0;
  join_time = 0;
  failure_count = 0;
}

abbrev pub manager : Manager
manager = record {
  world = record router.world { topology = three_nodes };
  nodes_mutex = false;
  node_registry = (2, second) ∷ [];
  failure_detection_active = false;
  on_node_added = false;
  on_node_removed = false;
  on_node_failed = false;
  on_network_repaired = false;
  manager_notices = [];
}

detect_failed_nodes-deadlock_example :
    detect_failed_nodes good_sockets (pos 90) 5 manager ≡ fault deadlock
detect_failed_nodes-deadlock_example =
    detect_failed_nodes-deadlock good_sockets (pos 90) 5 manager refl

remove_node-deadlock_example : remove_node good_sockets 2 true manager ≡ fault deadlock
unfolding remove_node_body erase
remove_node-deadlock_example =
    remove_node-deadlock good_sockets 2 true manager refl refl refl (omega arith)
