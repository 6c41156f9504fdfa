-- ===== src/Manager/Deadlock.antt =====
-- The calls of src/DynamicNodeManager.cpp that lock a mutex that they hold.
use peer_to_peer_network_ove.Prelude.{
  ◌≤◌, ◌≡◌, ◌∙◌, refl, ap, sym, subst, inl, inr, if◌then◌else◌, Bool, true, false, ◌||◌, List, [],
  ◌∷◌, length, Map, erase, contains, arith, Bool-cases,
}
use peer_to_peer_network_ove.Prelude.Int.{ℤ}
use peer_to_peer_network_ove.Common.{NodeId, TimePoint}
use peer_to_peer_network_ove.Outcome.{Fault, Action, ok, fault, deadlock, bind_ok, bind_fault}
use peer_to_peer_network_ove.Network.{Poco, disconnect_from_peer}
use peer_to_peer_network_ove.Node.{remove_peer}
use peer_to_peer_network_ove.Topology.{Topology, remove_node_body, remove_node_from_graph}
use peer_to_peer_network_ove.Topology.Connectivity.{
  is_topology_connected-counts, repair_topology-deadlock,
}
use peer_to_peer_network_ove.Topology.Queries.{remove_node_free}
use peer_to_peer_network_ove.World.{World}
use peer_to_peer_network_ove.Manager.{
  NodeInfo, NodeState, leaving, failed, node_removed, node_failed, tell, Manager, lock_nodes,
  change_info, is_active, increment_failure_count, detect_loop, remove_all, leave_body, expel_body,
  detect_failed_nodes, take_out, repair_network_after_node_removal, remove_node,
  remove_node_gracefully, remove_node_forced,
}
use peer_to_peer_network_ove.Manager.Repair.{repair_if_disconnected}

-- Some node is ACTIVE.
abbrev pub has_active : Map NodeInfo → Bool
has_active [] = false
has_active ((k, info) ∷ entries) = is_active info || has_active entries

lock_nodes_free :
    {A : Type 0} (body : Action Manager A) (g : Manager)
    → g.nodes_mutex ≡ false
    → lock_nodes body g ≡ elim (body (record g { nodes_mutex = true })) [
      | fault e ↦ fault e
      | ok (a, u) ↦ ok (a, record u { nodes_mutex = false })
    ]
unfolding lock_nodes
lock_nodes_free body g free = ground arith

lock_nodes-fault :
    {A : Type 0} (body : Action Manager A) (g : Manager) (e : Fault)
    → g.nodes_mutex ≡ false
    → body (record g { nodes_mutex = true }) ≡ fault e
    → lock_nodes body g ≡ fault e
lock_nodes-fault body g e free h = lock_nodes_free body g free ∙ rw (h)

lock_nodes-ok :
    {A : Type 0} (body : Action Manager A) (g : Manager) (a : A) (u : Manager)
    → g.nodes_mutex ≡ false
    → body (record g { nodes_mutex = true }) ≡ ok (a, u)
    → lock_nodes body g ≡ ok (a, record u { nodes_mutex = false })
lock_nodes-ok body g a u free h = lock_nodes_free body g free ∙ rw (h)

pub change_info-world :
    (k : NodeId) (f : NodeInfo → NodeInfo) (g : Manager) → (change_info k f g).world ≡ g.world
unfolding change_info
change_info-world k f g = ground arith

module _ (env : Poco) where
  detect_loop-locked :
      (seconds : ℤ) (now : TimePoint) (entries : Map NodeInfo) (g : Manager)
      → g.nodes_mutex ≡ true
      → detect_loop env seconds now entries g
        ≡ (if has_active entries then fault deadlock else ok ([], g))
  unfolding detect_loop increment_failure_count
  detect_loop-locked seconds now [] g held = refl
  detect_loop-locked seconds now ((k, info) ∷ entries) g held =
      ground (arith, detect_loop-locked seconds now entries g held)

  -- detectFailedNodes, called without the lock, locks nodesMutex_ twice exactly if some node is
  -- ACTIVE; otherwise it changes nothing. So it never removes a node.
  pub detect_failed_nodes-deadlock :
      (seconds : ℤ) (now : TimePoint) (g : Manager)
      → g.nodes_mutex ≡ false
      → detect_failed_nodes env seconds now g
        ≡ (if has_active g.node_registry then fault deadlock else ok (tt, g))
  unfolding detect_failed_nodes remove_all
  detect_failed_nodes-deadlock seconds now g free =
      let held = record g { nodes_mutex = true } in
      let locked = detect_loop-locked seconds now g.node_registry held refl in
      let body = λ (s : Manager). detect_loop env seconds now s.node_registry s in
      let next = λ (gone : List NodeId). remove_all env gone in
      elim (Bool-cases (has_active g.node_registry)) [
        | inl some_active ↦
            bind_fault (lock_nodes body) next g deadlock
              (lock_nodes-fault body g deadlock free (locked ∙ rw (some_active)))
            ∙ rw (some_active)
        | inr none_active ↦
            bind_ok (lock_nodes body) next g [] (record held { nodes_mutex = false })
              (lock_nodes-ok body g [] held free (locked ∙ rw (none_active)))
            ∙ rw (none_active) (ap (λ b. ok (tt, record g { nodes_mutex = b })) (sym free))
      ]

  pub repair_if_disconnected-deadlock :
      (w : World)
      → w.topology.topology_mutex ≡ false
      → 2 ≤ length w.topology.node_registry
      → repair_if_disconnected w ≡ fault deadlock
  unfolding repair_if_disconnected
  repair_if_disconnected-deadlock w free many =
      ground
        (arith, is_topology_connected-counts w.topology free, repair_topology-deadlock w.topology)

  take_out-topology :
      (state : NodeState) (k : NodeId) (g : Manager)
      → g.world.topology.topology_mutex ≡ false
      → (s : Manager) × (take_out env state k g ≡ ok (tt, s))
        × (s.world.topology ≡ (remove_node_body k g.world.topology).1)
  unfolding take_out
  take_out-topology state k g free =
      let s = change_info k (λ info. record info { state = state }) g in
      let same = change_info-world k (λ info. record info { state = state }) g in
      let removed =
        remove_node_free s.world.topology
          (ap (λ (w : World). w.topology.topology_mutex) same ∙ free) k in
      (
        record s {
          world = record s.world {
            node = (remove_peer s.world.node k).0;
            network = (disconnect_from_peer k s.world.network).1;
            topology = (remove_node_body k s.world.topology).1;
          };
          node_registry = erase k s.node_registry;
        },
        ground (arith, removed),
        ap (λ (w : World). (remove_node_body k w.topology).1) same,
      )

  remove_node_body-mutex :
      (k : NodeId) (t : Topology) → (remove_node_body k t).1.topology_mutex ≡ t.topology_mutex
  unfolding remove_node_body remove_node_from_graph
  remove_node_body-mutex k t = ground arith

  repair-deadlock :
      (k : NodeId) (g : Manager)
      → g.world.topology.topology_mutex ≡ false
      → 2 ≤ length g.world.topology.node_registry
      → repair_network_after_node_removal env k g ≡ fault deadlock
  unfolding repair_network_after_node_removal
  repair-deadlock k g free many = ground (arith, repair_if_disconnected-deadlock g.world free many)

  module _ (k : NodeId) (g : Manager) (free : g.world.topology.topology_mutex ≡ false)
      (known : contains k g.node_registry ≡ true)
      (many : 2 ≤ length (remove_node_body k g.world.topology).1.node_registry) where
    still_stuck :
        (s : Manager)
        → s.world.topology ≡ (remove_node_body k g.world.topology).1
        → repair_network_after_node_removal env k s ≡ fault deadlock
    still_stuck s same =
        repair-deadlock k s
          (ap (λ (t : Topology). t.topology_mutex) same
            ∙ remove_node_body-mutex k g.world.topology
            ∙ free)
          (subst (λ (t : Topology). 2 ≤ length t.node_registry) (sym same) many)

    leave_body-deadlock : leave_body env k g ≡ fault deadlock
    unfolding leave_body
    leave_body-deadlock =
        let (s, out, same) = take_out-topology leaving k g free in
        ground (arith, still_stuck (tell s.on_node_removed (node_removed k) s) same)

    expel_body-deadlock : expel_body env k g ≡ fault deadlock
    unfolding expel_body
    expel_body-deadlock =
        let (s, out, same) = take_out-topology failed k g free in
        ground (arith, still_stuck (tell s.on_node_failed (node_failed k) s) same)

  -- removeNode of a node that the manager has, gracefully or not, locks topologyMutex_ twice if two
  -- or more nodes are left in the topology; both mutexes are free when it is called.
  pub remove_node-deadlock :
      (k : NodeId) (graceful : Bool) (g : Manager)
      → g.nodes_mutex ≡ false
      → g.world.topology.topology_mutex ≡ false
      → contains k g.node_registry ≡ true
      → 2 ≤ length (remove_node_body k g.world.topology).1.node_registry
      → remove_node env k graceful g ≡ fault deadlock
  unfolding remove_node remove_node_gracefully remove_node_forced
  remove_node-deadlock k true g nodes_free free known many =
      let held = record g { nodes_mutex = true } in
      lock_nodes-fault (leave_body env k) g deadlock nodes_free
        (leave_body-deadlock k held free known many)
  remove_node-deadlock k false g nodes_free free known many =
      let held = record g { nodes_mutex = true } in
      lock_nodes-fault (expel_body env k) g deadlock nodes_free
        (expel_body-deadlock k held free known many)
