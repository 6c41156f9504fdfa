-- ===== src/Topology/Connectivity.antt =====
-- isTopologyConnected, validateTopology, checkNetworkIntegrity and repairTopology
-- (src/TopologyManager.cpp).
use peer_to_peer_network_ove.Prelude.{
  ℕ, suc, Bool-cases, inl, inr, ap, ◌≤◌, leb, ◌≡◌, refl, true, false, some, List, [], ◌∷◌, length,
  Map, keys, contains, arith, insert_set,
}
use peer_to_peer_network_ove.Common.{NodeId}
use peer_to_peer_network_ove.Outcome.{ok, fault, deadlock}
use peer_to_peer_network_ove.Topology.{
  Topology, no_orphans, connected_from_first, is_topology_connected_body, is_topology_connected,
  validate_topology, check_network_integrity, repair_topology, validate_body,
}
use peer_to_peer_network_ove.Topology.Search.{Adjacency, has_path_dfs, targets}
use peer_to_peer_network_ove.Topology.Graph.{IsWellFormed, is_registered}
use peer_to_peer_network_ove.Prelude.{ap}

-- The search from a node to itself stops at once.
has_path_dfs_self :
    (fuel : ℕ) (adj : Adjacency) (u : NodeId)
    → has_path_dfs (suc fuel) adj u u [] ≡ some (true, u ∷ [])
unfolding has_path_dfs insert_set
has_path_dfs_self fuel adj u = ground arith

connected_body :
    (t : Topology) (ks : List NodeId)
    → length ks ≡ length t.node_registry
    → 2 ≤ length t.node_registry
    → connected_from_first ks t ≡ ok false
unfolding connected_from_first
connected_body t [] e h = absurd (omega arith)
connected_body t (k ∷ ks) e h =
    rw
      (
        has_path_dfs_self (length (targets t.adjacency_list)) t.adjacency_list k,
        connected_from_first,
      )
      (ground arith)

length-keys {ℓ} : {V : Type ℓ} (m : Map V) → length (keys m) ≡ length m
length-keys [] = refl
length-keys ((k, v) ∷ m) = ap suc (length-keys m)

-- The state in which a method's body runs.
abbrev held : Topology → Topology
held t = record t { topology_mutex = true }

is_topology_connected_body-counts :
    (t : Topology) → is_topology_connected_body t ≡ ok (leb (length t.node_registry) 1)
unfolding is_topology_connected_body
is_topology_connected_body-counts t = elim (Bool-cases (leb (length t.node_registry) 1)) [
  | inl few ↦ ground arith
  | inr many ↦
      ground (
        arith,
        connected_body t (keys t.node_registry) (length-keys t.node_registry) (ground arith),
      )
]

-- With the mutex free isTopologyConnected returns, and its answer is true exactly if at most one
-- node is registered, whatever the edges are. The topology is unchanged.
pub is_topology_connected-counts :
    (t : Topology)
    → t.topology_mutex ≡ false
    → is_topology_connected t ≡ ok (leb (length t.node_registry) 1, t)
unfolding is_topology_connected
is_topology_connected-counts t free = ground (arith, is_topology_connected_body-counts (held t))

no_orphans-IsWellFormed :
    (t : Topology) (adj : Adjacency)
    → ((u : NodeId) → contains u adj ≡ true → is_registered t u ≡ true)
    → no_orphans t adj ≡ true
unfolding no_orphans
no_orphans-IsWellFormed t [] h = refl
no_orphans-IsWellFormed t ((k, s) ∷ adj) h =
    ground (arith, h k, no_orphans-IsWellFormed t adj (λ u m. h u (ground arith)))

-- In a well-formed topology whose mutex is free validateTopology finds no orphan and changes nothing.
pub validate_topology_lem :
    (t : Topology) → IsWellFormed t → t.topology_mutex ≡ false → validate_topology t ≡ ok (tt, t)
unfolding validate_topology validate_body
validate_topology_lem t w free = ground (
  arith,
  no_orphans-IsWellFormed (held t) t.adjacency_list (λ u m. ground (arith, w.same_nodes u)),
)

-- repairTopology deadlocks in every state: it holds the mutex when it calls validateTopology, and
-- no later line is reached.
pub repair_topology-deadlock : (t : Topology) → repair_topology t ≡ fault deadlock
unfolding repair_topology
repair_topology-deadlock t = ground arith

-- In a well-formed topology whose mutex is free checkNetworkIntegrity returns, and it reports
-- integrity exactly if at most one node is registered.
pub check_network_integrity-counts :
    (t : Topology)
    → IsWellFormed t
    → t.topology_mutex ≡ false
    → check_network_integrity t ≡ ok (leb (length t.node_registry) 1, t)
unfolding check_network_integrity
check_network_integrity-counts t w free =
    ground (arith, validate_topology_lem t w free, is_topology_connected-counts t free)
