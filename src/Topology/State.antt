-- ===== src/Topology/State.antt =====
-- The state of TopologyManager (include/TopologyManager.h) and the bodies of its methods
-- (src/TopologyManager.cpp), as they run under the mutex.
use peer_to_peer_network_ove.Prelude.{
  suc, ◌==◌, ltb, if◌then◌else◌, Bool, true, false, not, ◌&&◌, none, some, List, [], ◌∷◌, length,
  take, is_empty, Map, insert_set, erase_set, lookup, contains, insert, erase, map_values, keys,
}
use peer_to_peer_network_ove.Prelude.Int.{ℤ, pos, negsuc}
use peer_to_peer_network_ove.Common.{NodeId, NetworkAddress, no_address}
use peer_to_peer_network_ove.Topology.Search
use peer_to_peer_network_ove.Outcome.{
  Outcome, Action, ok, fault, deadlock, length_error, dangling_iterator, out_of_fuel,
}

pub record Topology : Type 0 where
  pub local_id : NodeId
  pub node_registry : Map NetworkAddress
  pub adjacency_list : Search.Adjacency
  pub bootstrap_nodes : List NetworkAddress
  -- held by the calling thread
  pub topology_mutex : Bool

-- The constructor.
unfoldable pub new_topology : NodeId → Topology
new_topology id = record {
  local_id = id;
  node_registry = [];
  adjacency_list = [];
  bootstrap_nodes = [];
  topology_mutex = false;
}

-- std::lock_guard over the body of a method. A std::mutex is not recursive.
unfoldable pub lock_guard : {A : Type 0} → Action Topology A → Action Topology A
lock_guard body t =
    if t.topology_mutex then fault deadlock else elim (body (record t { topology_mutex = true })) [
      | fault e ↦ fault e
      | ok (a, u) ↦ ok (a, record u { topology_mutex = false })
    ]

-- The bodies of the methods, under the mutex.

unfoldable pub add_node_body : NodeId → NetworkAddress → Topology → Bool × Topology
add_node_body k address t = if contains k t.node_registry then (false, t) else (
  true,
  record t {
    node_registry = insert k address t.node_registry;
    adjacency_list = insert k [] t.adjacency_list;
  },
)

unfoldable pub remove_node_from_graph : NodeId → Topology → Topology
remove_node_from_graph k t = record t {
  node_registry = erase k t.node_registry;
  adjacency_list = map_values (erase_set k) (erase k t.adjacency_list);
}

unfoldable pub remove_node_body : NodeId → Topology → Bool × Topology
unfolding remove_node_from_graph
remove_node_body k t =
    if contains k t.node_registry then (true, remove_node_from_graph k t) else (false, t)

unfoldable pub update_node_address_body : NodeId → NetworkAddress → Topology → Bool × Topology
update_node_address_body k address t =
    if contains k t.node_registry
    then (true, record t { node_registry = insert k address t.node_registry })
    else (false, t)

-- `adjacencyList_[from].insert(to)`: a missing entry is created.
abbrev pub link : NodeId → NodeId → Search.Adjacency → Search.Adjacency
link from to adj = insert from (insert_set to (Search.neighbors adj from)) adj

unfoldable pub add_edge : NodeId → NodeId → Topology → Topology
add_edge from to t =
    if from == to
    then t
    else record t { adjacency_list = link to from (link from to t.adjacency_list) }

-- `it->second.erase(to)` where there is an entry.
abbrev pub unlink : NodeId → NodeId → Search.Adjacency → Search.Adjacency
unlink from to adj = elim (lookup from adj) [
  | none ↦ adj
  | some s ↦ insert from (erase_set to s) adj
]

unfoldable pub remove_edge : NodeId → NodeId → Topology → Topology
remove_edge from to t = record t {
  adjacency_list = unlink to from (unlink from to t.adjacency_list);
}

unfoldable pub get_node_address_body : NodeId → Topology → NetworkAddress
get_node_address_body k t = elim (lookup k t.node_registry) [
  | none ↦ no_address
  | some address ↦ address
]

-- The nodes that the loop of discoverPeers collects.
unfoldable pub available_peers : NodeId → NodeId → List NodeId → List NodeId
available_peers requesting self [] = []
available_peers requesting self (k ∷ ks) =
    if not (k == requesting) && not (k == self)
    then k ∷ available_peers requesting self ks
    else available_peers requesting self ks

-- `if (size > maxPeers) resize(maxPeers)`: a negative `maxPeers` becomes a huge size_t.
unfoldable pub limit_peers : List NodeId → ℤ → Outcome (List NodeId)
limit_peers peers (negsuc m) = fault length_error
limit_peers peers (pos m) = ok (if ltb m (length peers) then take m peers else peers)

-- All entries of the adjacency list stand in the registry.
unfoldable pub no_orphans : Topology → Search.Adjacency → Bool
no_orphans t [] = true
no_orphans t ((k, _) ∷ adj) = contains k t.node_registry && no_orphans t adj

-- The first orphan is erased under the range-for loop, which then advances a dangling iterator.
unfoldable pub validate_body : Action Topology (Unit {0})
unfolding no_orphans
validate_body t = if no_orphans t t.adjacency_list then ok (tt, t) else fault dangling_iterator

-- The search starts at `nodeRegistry_.begin()->first`, with the same node as its target.
unfoldable pub connected_from_first : List NodeId → Topology → Outcome Bool
connected_from_first [] t = ok true
connected_from_first (first ∷ rest) t =
    elim (Search.has_path_dfs (suc (length (Search.targets t.adjacency_list))) t.adjacency_list
      first first []) [
        | none ↦ fault out_of_fuel
        | some (found, visited) ↦ ok (length visited == length t.node_registry)
      ]

unfoldable pub is_topology_connected_body : Topology → Outcome Bool
unfolding connected_from_first
is_topology_connected_body t =
    if is_empty t.node_registry
    then ok true
    else if length t.node_registry == 1
    then ok true
    else connected_from_first (keys t.node_registry) t
