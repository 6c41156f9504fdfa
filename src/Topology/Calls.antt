-- ===== src/Topology/Calls.antt =====
-- Histories of calls of TopologyManager (src/TopologyManager.cpp), from a fresh object.
use peer_to_peer_network_ove.Prelude.{◌≡◌, List, [], ◌∷◌}
use peer_to_peer_network_ove.Prelude.Int.{ℤ}
use peer_to_peer_network_ove.Common.{NodeId, NetworkAddress}
use peer_to_peer_network_ove.Outcome.{Action, ok, ret, ◌>>=◌, ◌>>◌}
use peer_to_peer_network_ove.Topology.{
  Topology, new_topology, add_node, register_node, remove_node, update_node_address, discover_peers,
  node_exists, get_node_address, get_all_node_ids, get_network_size, find_path, get_neighbors,
  update_topology, validate_topology, is_topology_connected, check_network_integrity,
  repair_topology, add_bootstrap_node,
}
use peer_to_peer_network_ove.Outcome.Holds.{Keeps, Holds-ok, >>=-Keeps}
use peer_to_peer_network_ove.Topology.Keeping.{
  IsIdle, new_topology-IsIdle, add_node-Keeps, update_node_address-Keeps, remove_node-Keeps,
  discover_peers-Keeps, node_exists-Keeps, get_node_address-Keeps, get_neighbors-Keeps,
  get_all_node_ids-Keeps, get_network_size-Keeps, update_topology-Keeps, validate_topology-Keeps,
  is_topology_connected-Keeps, check_network_integrity-Keeps, repair_topology-Keeps,
  find_path-Keeps, add_bootstrap_node-IsIdle,
}

-- The public methods.
pub data Call : Type 0 where
  adds registers updates_address : NodeId → NetworkAddress → Call
  removes : NodeId → Call
  discovers : NodeId → ℤ → Call
  asks_exists asks_address asks_neighbors : NodeId → Call
  asks_ids asks_size updates validates asks_connected checks repairs : Call
  asks_path : NodeId → NodeId → Call
  bootstraps : NetworkAddress → Call

abbrev discard : {A : Type 0} → Action Topology A → Action Topology (Unit {0})
discard m = m >>= λ _. ret tt

unfoldable pub perform : Call → Action Topology (Unit {0})
perform (adds k a) = discard (add_node k a)
perform (registers k a) = discard (register_node k a)
perform (updates_address k a) = discard (update_node_address k a)
perform (removes k) = discard (remove_node k)
perform (discovers k m) = discard (discover_peers k m)
perform (asks_exists k) = discard (node_exists k)
perform (asks_address k) = discard (get_node_address k)
perform (asks_neighbors k) = discard (get_neighbors k)
perform asks_ids = discard get_all_node_ids
perform asks_size = discard get_network_size
perform updates = update_topology
perform validates = validate_topology
perform asks_connected = discard is_topology_connected
perform checks = discard check_network_integrity
perform repairs = repair_topology
perform (asks_path u v) = discard (find_path u v)
perform (bootstraps a) = λ t. ok (tt, add_bootstrap_node a t)

unfoldable pub run : List Call → Action Topology (Unit {0})
run [] = ret tt
run (c ∷ cs) = perform c >> run cs

discard-Keeps : {A : Type 0} (m : Action Topology A) → Keeps IsIdle m → Keeps IsIdle (discard m)
discard-Keeps m keep = >>=-Keeps IsIdle m (λ _. ret tt) keep (λ a t h. h)

-- Every call that returns keeps the invariant; a call that faults ends the history.
perform-Keeps : (c : Call) → Keeps IsIdle (perform c)
unfolding perform register_node
perform-Keeps (adds k a) = discard-Keeps (add_node k a) (add_node-Keeps k a)
perform-Keeps (registers k a) = discard-Keeps (register_node k a) (add_node-Keeps k a)
perform-Keeps (updates_address k a) =
    discard-Keeps (update_node_address k a) (update_node_address-Keeps k a)
perform-Keeps (removes k) = discard-Keeps (remove_node k) (remove_node-Keeps k)
perform-Keeps (discovers k m) = discard-Keeps (discover_peers k m) (discover_peers-Keeps k m)
perform-Keeps (asks_exists k) = discard-Keeps (node_exists k) (node_exists-Keeps k)
perform-Keeps (asks_address k) = discard-Keeps (get_node_address k) (get_node_address-Keeps k)
perform-Keeps (asks_neighbors k) = discard-Keeps (get_neighbors k) (get_neighbors-Keeps k)
perform-Keeps asks_ids = discard-Keeps get_all_node_ids get_all_node_ids-Keeps
perform-Keeps asks_size = discard-Keeps get_network_size get_network_size-Keeps
perform-Keeps updates = update_topology-Keeps
perform-Keeps validates = validate_topology-Keeps
perform-Keeps asks_connected = discard-Keeps is_topology_connected is_topology_connected-Keeps
perform-Keeps checks = discard-Keeps check_network_integrity check_network_integrity-Keeps
perform-Keeps repairs = repair_topology-Keeps
perform-Keeps (asks_path from to) = discard-Keeps (find_path from to) (find_path-Keeps from to)
perform-Keeps (bootstraps a) = add_bootstrap_node-IsIdle a

run-Keeps : (cs : List Call) → Keeps IsIdle (run cs)
unfolding run
run-Keeps [] = λ t h. h
run-Keeps (c ∷ cs) =
    >>=-Keeps IsIdle (perform c) (λ _. run cs) (perform-Keeps c) (λ _. run-Keeps cs)

-- After any history of calls that returns, the mutex is free, registry and adjacency list have the
-- same nodes, and the graph has no edge: only repairTopology adds edges, and it never returns.
pub run-IsIdle :
    (id : NodeId) (cs : List Call) (t : Topology) → run cs (new_topology id) ≡ ok (tt, t) → IsIdle t
run-IsIdle id cs t e =
    Holds-ok IsIdle tt t (run-Keeps cs (new_topology id) (new_topology-IsIdle id)) e
