-- ===== src/Topology.antt =====
-- include/TopologyManager.h and src/TopologyManager.cpp: the public methods. Each takes the mutex,
-- but addBootstrapNode and getBootstrapNodes.
pub mod Ring
pub mod Search
pub mod Graph
pub mod Connectivity
pub mod Keeping
pub mod Calls
pub mod Isolation
pub mod Queries
mod State
unfoldable pub use State.*
use peer_to_peer_network_ove.Prelude.{
  ℕ, ◌++◌, if◌then◌else◌, Bool, true, false, List, [], ◌∷◌, length, lookup, contains, keys,
}
use peer_to_peer_network_ove.Prelude.Int.{ℤ}
use peer_to_peer_network_ove.Common.{NodeId, NetworkAddress}
use peer_to_peer_network_ove.Outcome.{Outcome, Action, ok, fault, ret, ◌>>=◌, ◌>>◌}

-- The public methods.

abbrev pub pure_body : {A : Type 0} → (Topology → A × Topology) → Action Topology A
pure_body f t = ok (f t)

abbrev pub query : {A : Type 0} → (Topology → Outcome A) → Action Topology A
query f t = elim (f t) [ fault e ↦ fault e | ok a ↦ ok (a, t) ]

unfoldable pub add_node : NodeId → NetworkAddress → Action Topology Bool
unfolding lock_guard
add_node k address = lock_guard (pure_body (add_node_body k address))

pub register_node : NodeId → NetworkAddress → Action Topology Bool
unfolding add_node
register_node k address = add_node k address

unfoldable pub remove_node : NodeId → Action Topology Bool
unfolding lock_guard
remove_node k = lock_guard (pure_body (remove_node_body k))

pub update_node_address : NodeId → NetworkAddress → Action Topology Bool
unfolding lock_guard
update_node_address k address = lock_guard (pure_body (update_node_address_body k address))

unfoldable pub discover_peers : NodeId → ℤ → Action Topology (List NodeId)
unfolding lock_guard
discover_peers requesting max =
    lock_guard
      (query λ t. limit_peers (available_peers requesting t.local_id (keys t.node_registry)) max)

unfoldable pub node_exists : NodeId → Action Topology Bool
unfolding lock_guard
node_exists k = lock_guard (query λ t. ok (contains k t.node_registry))

unfoldable pub get_node_address : NodeId → Action Topology NetworkAddress
unfolding lock_guard
get_node_address k = lock_guard (query λ t. ok (get_node_address_body k t))

unfoldable pub get_all_node_ids : Action Topology (List NodeId)
unfolding lock_guard
get_all_node_ids = lock_guard (query λ t. ok (keys t.node_registry))

pub get_network_size : Action Topology ℕ
unfolding lock_guard
get_network_size = lock_guard (query λ t. ok (length t.node_registry))

unfoldable pub find_path : NodeId → NodeId → Action Topology (List NodeId)
unfolding lock_guard
find_path from to = lock_guard (query λ t. Search.find_path t.adjacency_list from to)

pub get_neighbors : NodeId → Action Topology (List NodeId)
unfolding lock_guard
get_neighbors k = lock_guard (query λ t. ok (Search.neighbors t.adjacency_list k))

-- buildAdjacencyList has an empty body.
pub update_topology : Action Topology (Unit {0})
unfolding lock_guard
update_topology = lock_guard (ret tt)

pub validate_topology : Action Topology (Unit {0})
unfolding lock_guard
validate_topology = lock_guard validate_body

pub is_topology_connected : Action Topology Bool
unfolding lock_guard
is_topology_connected = lock_guard (query is_topology_connected_body)

pub check_network_integrity : Action Topology Bool
check_network_integrity = do validate_topology; is_topology_connected

-- The loop that joins each node to the next one, and the last to the first: the nodes from
-- position `i` on.
unfoldable pub connect_ring : List NodeId → NodeId → Topology → Topology
unfolding add_edge
connect_ring [] first t = t
connect_ring (k ∷ []) first t = add_edge k first t
connect_ring (k ∷ next ∷ ks) first t = connect_ring (next ∷ ks) first (add_edge k next t)

unfoldable pub repair_ring : List NodeId → Topology → Topology
unfolding connect_ring
repair_ring [] t = t
repair_ring (k ∷ []) t = t
repair_ring (k ∷ next ∷ ks) t = connect_ring (k ∷ next ∷ ks) k t

-- The lock is held while the three locking methods are called.
pub repair_topology : Action Topology (Unit {0})
unfolding lock_guard validate_topology is_topology_connected get_all_node_ids
repair_topology = lock_guard do
  validate_topology
  connected ← is_topology_connected
  if connected then ret tt else (do ids ← get_all_node_ids; λ t. ok (tt, repair_ring ids t))

pub add_bootstrap_node : NetworkAddress → Topology → Topology
add_bootstrap_node address t = record t { bootstrap_nodes = t.bootstrap_nodes ++ address ∷ [] }
