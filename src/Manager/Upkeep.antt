-- ===== src/Manager/Upkeep.antt =====
-- detectFailedNodes, maintainNetworkIntegrity and the queries of src/DynamicNodeManager.cpp keep what
-- is settled.
use peer_to_peer_network_ove.Topology.Graph.{IsWellFormed}
use peer_to_peer_network_ove.Topology.Connectivity.{validate_topology_lem}
use peer_to_peer_network_ove.Prelude.{◌≤◌, none, some, lookup}
use peer_to_peer_network_ove.Manager.{no_info}
use peer_to_peer_network_ove.Prelude.{false, sym, subst}
use peer_to_peer_network_ove.Prelude.Int.{ℤ}
use peer_to_peer_network_ove.Common.{NodeId, TimePoint, node_timeout_sec}
use peer_to_peer_network_ove.Outcome.{ok, fault, deadlock, ret, ◌>>=◌}
use peer_to_peer_network_ove.Outcome.Holds.{Holds, Keeps, Holds-if, >>=-Keeps}
use peer_to_peer_network_ove.Network.{Poco}
use peer_to_peer_network_ove.Topology
use peer_to_peer_network_ove.Topology.Keeping
use peer_to_peer_network_ove.World.{on_topology}
use peer_to_peer_network_ove.World.Isolation.{on_topology-Keeps}
use peer_to_peer_network_ove.Manager.{
  NodeState, failed, active, in_world, detect_failed_nodes, maintain_network_integrity,
}
use peer_to_peer_network_ove.Manager.Deadlock.{
  repair_if_disconnected-deadlock, has_active, detect_failed_nodes-deadlock,
}
use peer_to_peer_network_ove.Manager.Repair.{repair_if_disconnected, ensure_connectivity}
use peer_to_peer_network_ove.Manager.Repair.Isolation.{
  repair_if_disconnected-Keeps, ensure_connectivity-Keeps,
}
use peer_to_peer_network_ove.Manager.{lookup}
use peer_to_peer_network_ove.Manager.Settled.{IsSettled, in_world-Keeps, lock_nodes-Keeps}
use peer_to_peer_network_ove.Manager.{
  get_node_info, get_nodes_by_state, get_failed_nodes, get_active_node_count, get_failed_node_count,
  get_all_node_info,
}
use peer_to_peer_network_ove.Manager.{nodes_in_state}
use peer_to_peer_network_ove.Manager.{length}
use peer_to_peer_network_ove.Manager.{infos}
use peer_to_peer_network_ove.Manager.{Manager}
use peer_to_peer_network_ove.Prelude.{◌≡◌}
use peer_to_peer_network_ove.Prelude.{arith}

module _ (id : NodeId) (env : Poco) where
  pub detect_failed_nodes-Keeps :
      (seconds : ℤ) (now : TimePoint)
      → Keeps (IsSettled id false) (detect_failed_nodes env seconds now)
  detect_failed_nodes-Keeps seconds now g h =
      subst (Holds (IsSettled id false)) (sym (detect_failed_nodes-deadlock env seconds now g h.1))
        (Holds-if (IsSettled id false) (has_active g.node_registry) (fault deadlock) (ok (tt, g)) tt
          h)

  pub maintain_network_integrity-Keeps :
      (now : TimePoint) → Keeps (IsSettled id false) (maintain_network_integrity env now)
  unfolding maintain_network_integrity
  maintain_network_integrity-Keeps now =
      let P = IsSettled id false in
      let validate = on_topology Topology.validate_topology in
      let detect = detect_failed_nodes env node_timeout_sec now in
      let last = λ (_ : Unit {0}). in_world (ensure_connectivity env) in
      >>=-Keeps P (in_world validate)
        (λ _. in_world repair_if_disconnected >>= λ _. detect >>= last)
        (in_world-Keeps id false validate
          (on_topology-Keeps id Topology.validate_topology Keeping.validate_topology-Keeps))
        (λ _.
          >>=-Keeps P (in_world repair_if_disconnected) (λ _. detect >>= last)
            (in_world-Keeps id false repair_if_disconnected (repair_if_disconnected-Keeps id))
            (λ _. >>=-Keeps P detect last (detect_failed_nodes-Keeps node_timeout_sec now) (λ _.
              in_world-Keeps id false (ensure_connectivity env)
                (ensure_connectivity-Keeps id env))))

-- maintainNetworkIntegrity, with the topology's mutex free and the topology well-formed, locks
-- topologyMutex_ twice if two or more nodes are in the topology.
pub maintain_network_integrity-deadlock :
    (env : Poco) (now : TimePoint) (g : Manager)
    → g.world.topology.topology_mutex ≡ false
    → IsWellFormed g.world.topology
    → 2 ≤ length g.world.topology.node_registry
    → maintain_network_integrity env now g ≡ fault deadlock
unfolding maintain_network_integrity
maintain_network_integrity-deadlock env now g free w many = ground (
  arith,
  validate_topology_lem g.world.topology w free,
  repair_if_disconnected-deadlock env g.world free many,
)

module _ (id : NodeId) where
  pub get_node_info-Keeps : (k : NodeId) → Keeps (IsSettled id false) (get_node_info k)
  unfolding get_node_info
  get_node_info-Keeps k =
      lock_nodes-Keeps id
        (λ g. ok (elim (lookup k g.node_registry) [ none ↦ no_info | some info ↦ info ], g))
        (λ g h. h)

  pub get_nodes_by_state-Keeps :
      (state : NodeState) → Keeps (IsSettled id false) (get_nodes_by_state state)
  unfolding get_nodes_by_state
  get_nodes_by_state-Keeps state =
      lock_nodes-Keeps id (λ g. ok (nodes_in_state state g.node_registry, g)) (λ g h. h)

  pub get_failed_nodes-Keeps : Keeps (IsSettled id false) get_failed_nodes
  unfolding get_failed_nodes
  get_failed_nodes-Keeps = get_nodes_by_state-Keeps failed

  count-Keeps :
      (state : NodeState)
      → Keeps (IsSettled id false) (get_nodes_by_state state >>= λ nodes. ret (length nodes))
  count-Keeps state =
      >>=-Keeps (IsSettled id false) (get_nodes_by_state state) (λ nodes. ret (length nodes))
        (get_nodes_by_state-Keeps state) (λ nodes g h. h)

  pub get_active_node_count-Keeps : Keeps (IsSettled id false) get_active_node_count
  unfolding get_active_node_count
  get_active_node_count-Keeps = count-Keeps active

  pub get_failed_node_count-Keeps : Keeps (IsSettled id false) get_failed_node_count
  unfolding get_failed_node_count
  get_failed_node_count-Keeps = count-Keeps failed

  pub get_all_node_info-Keeps : Keeps (IsSettled id false) get_all_node_info
  unfolding get_all_node_info
  get_all_node_info-Keeps = lock_nodes-Keeps id (λ g. ok (infos g.node_registry, g)) (λ g h. h)
