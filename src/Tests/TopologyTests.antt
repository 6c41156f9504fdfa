-- ===== src/Tests/TopologyTests.antt =====
-- src/TopologyManager.cpp on a graph of four nodes and on the histories of a new object.
use peer_to_peer_network_ove.Prelude.{◌≡◌, refl, false, List, [], ◌∷◌, arith, insert, insert_set}
use peer_to_peer_network_ove.Outcome.{ok, fault, deadlock}
use peer_to_peer_network_ove.Topology.{
  Topology, new_topology, add_node, add_node_body, remove_node_from_graph, add_edge, remove_edge,
  find_path, is_topology_connected, validate_topology, check_network_integrity,
}
use peer_to_peer_network_ove.Topology.Search
use peer_to_peer_network_ove.Topology.Search.{Adjacency, neighbors}
use peer_to_peer_network_ove.Topology.Graph.{
  IsWellFormed, new_topology-IsWellFormed, add_node_body-IsWellFormed,
  remove_node_from_graph-IsWellFormed, add_edge-IsWellFormed, remove_edge-IsWellFormed,
}
use peer_to_peer_network_ove.Topology.Connectivity.{
  is_topology_connected-counts, validate_topology_lem, check_network_integrity-counts,
}
use peer_to_peer_network_ove.Topology.Calls.{Call, adds, run, perform, run-IsIdle}
use peer_to_peer_network_ove.Topology.Keeping.{IsIdle}
use peer_to_peer_network_ove.Topology.Isolation.{run-find_path}
use peer_to_peer_network_ove.Tests.NodeTests.{here_address, there_address}
use peer_to_peer_network_ove.Topology.{repair_topology}
use peer_to_peer_network_ove.Topology.Connectivity.{repair_topology-deadlock}

-- 1 - 2 - 3, and 4 apart.
abbrev line : Adjacency
line = (1, 2 ∷ []) ∷ (2, 1 ∷ 3 ∷ []) ∷ (3, 2 ∷ []) ∷ (4, []) ∷ []

find_path-line :
    (Search.find_path line 1 3 ≡ ok (1 ∷ 2 ∷ 3 ∷ [])) × (Search.find_path line 1 4 ≡ ok [])
unfolding Search.find_path insert insert_set
find_path-line = (refl, refl)

abbrev pub fresh : Topology
fresh = record {
  local_id = 1;
  node_registry = [];
  adjacency_list = [];
  bootstrap_nodes = [];
  topology_mutex = false;
}

pub fresh-IsWellFormed : IsWellFormed fresh
unfolding new_topology
fresh-IsWellFormed = new_topology-IsWellFormed 1

pair : Topology
pair = (add_node_body 2 there_address (add_node_body 1 here_address fresh).1).1

pair-IsWellFormed : IsWellFormed pair
unfolding pair
pair-IsWellFormed =
    add_node_body-IsWellFormed (add_node_body 1 here_address fresh).1
      (add_node_body-IsWellFormed fresh fresh-IsWellFormed 1 here_address) 2 there_address

remove_node_from_graph-IsWellFormed_run : IsWellFormed (remove_node_from_graph 2 pair)
remove_node_from_graph-IsWellFormed_run =
    remove_node_from_graph-IsWellFormed pair pair-IsWellFormed 2

add_edge-IsWellFormed_run : IsWellFormed (add_edge 1 2 pair)
unfolding pair add_node_body insert
add_edge-IsWellFormed_run = add_edge-IsWellFormed pair pair-IsWellFormed 1 2 refl refl

remove_edge-IsWellFormed_run : IsWellFormed (remove_edge 1 2 pair)
remove_edge-IsWellFormed_run = remove_edge-IsWellFormed pair pair-IsWellFormed 1 2

is_topology_connected-counts_example : is_topology_connected pair ≡ ok (false, pair)
unfolding pair add_node_body insert
is_topology_connected-counts_example = is_topology_connected-counts pair refl

validate_topology_lem_run : validate_topology pair ≡ ok (tt, pair)
unfolding pair add_node_body insert
validate_topology_lem_run = validate_topology_lem pair pair-IsWellFormed refl

check_network_integrity-counts_run : check_network_integrity pair ≡ ok (false, pair)
unfolding pair add_node_body insert
check_network_integrity-counts_run = check_network_integrity-counts pair pair-IsWellFormed refl

abbrev history : List Call
history = adds 1 here_address ∷ adds 2 there_address ∷ []

run-history : run history (new_topology 1) ≡ ok (tt, pair)
unfolding run perform new_topology add_node pair add_node_body insert
run-history = refl

run-IsIdle_example : IsIdle pair
run-IsIdle_example = run-IsIdle 1 history pair run-history

run-find_path_example : find_path 1 2 pair ≡ ok ([], pair)
run-find_path_example = run-find_path 1 history pair 1 2 run-history (omega arith)

repair_topology-deadlock_example : repair_topology pair ≡ fault deadlock
repair_topology-deadlock_example = repair_topology-deadlock pair
