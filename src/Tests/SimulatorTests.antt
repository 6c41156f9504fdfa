-- ===== src/Tests/SimulatorTests.antt =====
-- A run of src/NodeSimulator.cpp with two nodes: the second one joins by the first.
use peer_to_peer_network_ove.Prelude.{ℕ, true, false, none, [], ◌∷◌}
use peer_to_peer_network_ove.Common.{NetworkAddress}
use peer_to_peer_network_ove.Node.{new_node}
use peer_to_peer_network_ove.Network.{Network, new_network}
use peer_to_peer_network_ove.Topology
use peer_to_peer_network_ove.Topology.{Topology}
use peer_to_peer_network_ove.World.{World}
use peer_to_peer_network_ove.Overlay.{overlay_of}
use peer_to_peer_network_ove.Registration.{registered}
use peer_to_peer_network_ove.Simulator.{NetworkSimulator, SimulatedNode}
use peer_to_peer_network_ove.Simulator.Calls.{Call, creates, starts_all}
use peer_to_peer_network_ove.Prelude.{List}

abbrev address_at : ℕ → NetworkAddress
address_at port = record { host = "localhost"; port = port }

abbrev network_after : ℕ → Network
network_after calls = record {
  active_connections = [];
  server_running = true;
  sent_message_count = 0;
  poco_calls = calls;
  sent_bytes = [];
}

abbrev world_of : ℕ → ℕ → Network → World
world_of id port n = record {
  node = new_node id (address_at port) 0;
  network = n;
  topology = record {
    local_id = id;
    node_registry = (id, address_at port) ∷ [];
    adjacency_list = (id, []) ∷ [];
    bootstrap_nodes = [];
    topology_mutex = false;
  };
}

abbrev first_node : SimulatedNode
first_node = record {
  node_id = 1;
  address = address_at 8888;
  running = true;
  overlay = record (overlay_of (world_of 1 8888 new_network)) {
    world = world_of 1 8888 (network_after 1);
  };
}

abbrev second_node : SimulatedNode
second_node =
    let o = overlay_of (world_of 2 8889 new_network) in
    record {
      node_id = 2;
      address = address_at 8889;
      running = true;
      overlay = record o {
        world = world_of 2 8889 (network_after 3);
        discovery = record o.discovery { world = world_of 2 8889 (network_after 2) };
        registration = record o.registration {
          world = world_of 2 8889 (network_after 3);
          registration_status = registered;
        };
      };
    }

abbrev two_nodes : NetworkSimulator
two_nodes = record {
  nodes = (0, first_node) ∷ (1, second_node) ∷ [];
  node_map = (1, 0) ∷ (2, 1) ∷ [];
  running = true;
  next = 2;
}

abbrev calls : List (Call × ℕ)
calls = (creates none 1 8888, 0) ∷ (creates none 2 8889, 0) ∷ (starts_all, 1) ∷ []
