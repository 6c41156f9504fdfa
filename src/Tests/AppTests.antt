-- ===== src/Tests/AppTests.antt =====
-- A run of src/main.cpp: a node is started without a bootstrap node, the user adds a node by the menu,
-- and maintenance becomes due.
use peer_to_peer_network_ove.Prelude.{
  contains, ℕ, ◌≡◌, ◌≤◌, refl, true, false, none, some, [], ◌∷◌, insert, arith,
}
use peer_to_peer_network_ove.Prelude.Int.{pos}
use peer_to_peer_network_ove.Common.{max_peers, elapsed_seconds}
use peer_to_peer_network_ove.Outcome.{ok, fault, deadlock}
use peer_to_peer_network_ove.Node.{new_node, add_peer, has_peer, get_peer_count}
use peer_to_peer_network_ove.Network.{Network, new_network, start_server, connect_to_peer}
use peer_to_peer_network_ove.Topology
use peer_to_peer_network_ove.Topology.{
  Topology, new_topology, add_node_body, lock_guard, get_all_node_ids,
}
use peer_to_peer_network_ove.World.{World}
use peer_to_peer_network_ove.Topology.Graph.{has_edge}
use peer_to_peer_network_ove.Overlay.{overlay_of, new_overlay}
use peer_to_peer_network_ove.Router.{update_routing_table, route_loop}
use peer_to_peer_network_ove.Manager.{
  new_info, active, node_added, add_node, add_body, finish_add, validate_node_addition, lock_nodes,
}
use peer_to_peer_network_ove.Manager.Repair.{add_and_connect}
use peer_to_peer_network_ove.App.{
  App, Answers, app_of, new_app, start_up, begin_services, join_bootstrap, in_discovery,
  run_callbacks, handle_main_menu_option, submenu, handle_node_management_option, main_round, world,
  shut_down,
}
use peer_to_peer_network_ove.App.History.{
  reached-IsStable, Launch, Reaches, started_at, starts, chooses, reached-isolated,
}
use peer_to_peer_network_ove.App.Ending.{reached-shut_down}
use peer_to_peer_network_ove.App.Callback.{discover_peers-adds_none}
use peer_to_peer_network_ove.Discovery
use peer_to_peer_network_ove.App.Upkeep.{main_round-deadlock}
use peer_to_peer_network_ove.Tests.NodeTests.{there_address}
use peer_to_peer_network_ove.Tests.NetworkTests.{good_sockets}

abbrev launch : Launch
launch = record {
  hostname = some "here";
  id = 1;
  arguments = record { port = 8888; bootstrap = none };
  born = 0;
}

abbrev own_topology : Topology
own_topology = record {
  local_id = 1;
  node_registry = (1, record { host = "here"; port = 8888 }) ∷ [];
  adjacency_list = (1, []) ∷ [];
  bootstrap_nodes = [];
  topology_mutex = false;
}

abbrev own_world : Network → World
own_world n = record {
  node = new_node 1 (record { host = "here"; port = 8888 }) 0;
  network = n;
  topology = own_topology;
}

abbrev made_app : App
made_app = app_of (overlay_of (own_world new_network))

made : new_app (some "here") 1 8888 0 ≡ ok made_app
unfolding new_app new_overlay Topology.add_node lock_guard add_node_body new_topology insert
made = refl

-- The server runs after one call of Poco.
abbrev serving : ℕ → Network
serving calls = record {
  active_connections = [];
  server_running = true;
  sent_message_count = 0;
  poco_calls = calls;
  sent_bytes = [];
}

abbrev started_app : App
started_app =
    let w = own_world (serving 1) in
    record made_app {
      overlay = record made_app.overlay {
        world = w;
        manager = record made_app.overlay.manager { world = w; failure_detection_active = true };
        discovery = record made_app.overlay.discovery { world = w; discovery_active = true };
      };
    }

started : start_up good_sockets launch.arguments 5 made_app ≡ ok (true, started_app)
unfolding start_up begin_services join_bootstrap in_discovery run_callbacks update_routing_table
    route_loop get_all_node_ids lock_guard start_server new_network
started = refl

history : Reaches good_sockets (λ _. []) launch (started_at 0) started_app
history = starts made_app started_app 0 5 made started

reached-isolated_example :
    ((world started_app).network.sent_bytes ≡ [])
    × ((world started_app).network.active_connections ≡ [])
    × ((u v : ℕ) → has_edge (world started_app).topology.adjacency_list u v ≡ false)
    × (get_peer_count (world started_app).node ≤ max_peers)
    × (contains 1 started_app.overlay.manager.node_registry ≡ false)
reached-isolated_example = reached-isolated good_sockets (λ _. []) launch history

-- Option 3.1 of the menu, for node 2.
abbrev answers : Answers
answers = record {
  host = "t";
  port = 8889;
  node_id = 2;
  graceful = pos 1;
  text = [];
  size = 0;
  data_type = "";
  id = 0;
  random = 0;
}

abbrev joined_world : World
joined_world = record {
  node = record (own_world (serving 2)).node {
    peer_ids = 2 ∷ [];
    peer_addresses = there_address ∷ [];
  };
  network = serving 2;
  topology = record own_topology {
    node_registry = (1, record { host = "here"; port = 8888 }) ∷ (2, there_address) ∷ [];
    adjacency_list = (1, []) ∷ (2, []) ∷ [];
  };
}

abbrev joined_app : App
joined_app = record started_app {
  overlay = record started_app.overlay {
    world = joined_world;
    manager = record started_app.overlay.manager {
      world = joined_world;
      node_registry = (2, new_info 2 there_address active 7) ∷ [];
      manager_notices = node_added 2 there_address ∷ [];
    };
  };
}

chosen :
    handle_main_menu_option good_sockets
      (λ _. [])
      7
      (pos 3)
      ((pos 1, answers) ∷ (pos 0, answers) ∷ [])
      started_app
    ≡ ok (tt, joined_app)
unfolding handle_main_menu_option submenu handle_node_management_option add_node add_body finish_add
    validate_node_addition lock_nodes Topology.add_node lock_guard add_node_body insert
    add_and_connect add_peer has_peer get_peer_count connect_to_peer
chosen = refl

joined_history : Reaches good_sockets (λ _. []) launch (started_at 0) joined_app
joined_history =
    chooses (started_at 0) started_app joined_app 7 (pos 3)
      ((pos 1, answers) ∷ (pos 0, answers) ∷ []) history refl chosen

main_round-deadlock_example :
    main_round good_sockets (λ _. 9) 60000000000 8 (started_at 0) joined_app ≡ fault deadlock
unfolding elapsed_seconds
main_round-deadlock_example =
    main_round-deadlock good_sockets (λ _. []) launch (started_at 0) joined_app (λ _. 9) 60000000000
      8 joined_history refl refl (omega arith)

reached-shut_down_example :
    (u : App) × (shut_down good_sockets (λ _. 9) 8 joined_app ≡ ok (tt, u))
    × ((world u).network.server_running ≡ false)
    × ((world u).node.is_active ≡ false)
    × (u.overlay.manager.failure_detection_active ≡ false)
    × (u.overlay.discovery.discovery_active ≡ false)
    × (u.reliable.failed_messages ≡ 1)
    × ((world u).topology ≡ joined_world.topology)
reached-shut_down_example =
    reached-shut_down good_sockets (λ _. []) launch (started_at 0) joined_app (λ _. 9) 8
      joined_history

-- Node 2 is a peer already, so there is nobody to discover.
discover_peers-adds_none_example :
    (u : App) × (in_discovery good_sockets 9 (Discovery.discover_peers (pos 10) 9) joined_app
      ≡ ok ([], u))
    × (world u ≡ joined_world)
    × (u.overlay.manager.node_registry ≡ joined_app.overlay.manager.node_registry)
discover_peers-adds_none_example =
    discover_peers-adds_none 1 good_sockets (pos 10) 9 joined_app
      (reached-IsStable good_sockets (λ _. []) launch joined_history)
