-- ===== src/Manager/Removal.antt =====
-- removeNode of src/DynamicNodeManager.cpp keeps what is settled, and never finds the local node.
use peer_to_peer_network_ove.Prelude.{◌≡◌, ◌&&◌, Bool, true, false, contains, erase, List, arith}
use peer_to_peer_network_ove.Common.{NodeId}
use peer_to_peer_network_ove.Outcome.{ok, fault, ◌>>=◌}
use peer_to_peer_network_ove.Outcome.Holds.{Holds, Keeps, Holds-if, Holds-then, >>=-Keeps}
use peer_to_peer_network_ove.Node.{remove_peer}
use peer_to_peer_network_ove.Network.{Poco, disconnect_from_peer}
use peer_to_peer_network_ove.Network.Isolation.{disconnect_from_peer-IsSilent}
use peer_to_peer_network_ove.Topology
use peer_to_peer_network_ove.Topology.Keeping
use peer_to_peer_network_ove.World.{World, on_topology, on_network}
use peer_to_peer_network_ove.World.Isolation.{
  on_topology-Keeps, on_network-Keeps, remove_peer-IsIsolated,
}
use peer_to_peer_network_ove.Manager.{
  Manager, NodeInfo, NodeState, leaving, failed, node_removed, node_failed, network_repaired, tell,
  in_world, lock_nodes, change_info, take_out, repair_network_after_node_removal, leave_body,
  expel_body, remove_node, remove_node_gracefully, remove_node_forced,
}
use peer_to_peer_network_ove.Manager.Repair.{
  repair_if_disconnected, find_replacement_connections, establish_replacement_connections,
}
use peer_to_peer_network_ove.Manager.Repair.Isolation.{
  repair_if_disconnected-Keeps, find_replacement_connections-Keeps,
  establish_replacement_connections-Keeps,
}
use peer_to_peer_network_ove.Manager.Settled.{
  IsSettled, in_world-Keeps, lock_nodes-Keeps, change_info-IsSettled, erase-unregistered,
}

module _ (id : NodeId) (env : Poco) where
  take_out-Keeps :
      (state : NodeState) (k : NodeId) → Keeps (IsSettled id true) (take_out env state k)
  unfolding take_out
  take_out-Keeps state k g h =
      let f = λ (info : NodeInfo). record info { state = state } in
      let drop = λ (w : World). ok (tt, record w { node = (remove_peer w.node k).0 }) in
      let P = IsSettled id true in
      let cut = on_network (disconnect_from_peer k) in
      let remove = on_topology (Topology.remove_node k) in
      let last = λ (s : Manager). ok (tt, record s { node_registry = erase k s.node_registry }) in
      >>=-Keeps P (in_world drop) (λ _. in_world cut >>= λ _. in_world remove >>= λ _. last)
        (in_world-Keeps id true drop (remove_peer-IsIsolated id k))
        (λ _.
          >>=-Keeps P (in_world cut) (λ _. in_world remove >>= λ _. last)
            (in_world-Keeps id true cut
              (on_network-Keeps id (disconnect_from_peer k) (disconnect_from_peer-IsSilent k)))
            (λ _.
              >>=-Keeps P (in_world remove) (λ _. last)
                (in_world-Keeps id true remove
                  (on_topology-Keeps id (Topology.remove_node k) (Keeping.remove_node-Keeps k)))
                (λ _ s q. (q.0, q.1, erase-unregistered id k s q.2))))
        (change_info k f g) (change_info-IsSettled id k f g h)

  repair-Keeps : (k : NodeId) → Keeps (IsSettled id true) (repair_network_after_node_removal env k)
  unfolding repair_network_after_node_removal
  repair-Keeps k =
      let P = IsSettled id true in
      let find = find_replacement_connections k in
      let establish = λ (ks : List NodeId). establish_replacement_connections env ks false in
      let check = on_topology Topology.check_network_integrity in
      let last = λ (integrity : Bool) (g : Manager).
        ok (integrity, tell (integrity && g.on_network_repaired) network_repaired g) in
      let rest = λ (ks : List NodeId). in_world (establish ks) >>= λ _. in_world check >>= last in
      >>=-Keeps P (in_world repair_if_disconnected) (λ _. in_world find >>= rest)
        (in_world-Keeps id true repair_if_disconnected (repair_if_disconnected-Keeps id))
        (λ _.
          >>=-Keeps P (in_world find) rest
            (in_world-Keeps id true find (find_replacement_connections-Keeps id k))
            (λ ks.
              >>=-Keeps P (in_world (establish ks)) (λ _. in_world check >>= last)
                (in_world-Keeps id true (establish ks)
                  (establish_replacement_connections-Keeps id env ks false))
                (λ _.
                  >>=-Keeps P (in_world check) last
                    (in_world-Keeps id true check (
                      on_topology-Keeps id Topology.check_network_integrity
                        Keeping.check_network_integrity-Keeps))
                    (λ _ s q. q))))

  -- What leave_body and expel_body have in common.
  removal-Keeps :
      (state : NodeState) (k : NodeId) (note : Manager → Manager)
      → ((s : Manager) → IsSettled id true s → IsSettled id true (note s))
      → (g : Manager) → IsSettled id true g
      → Holds (IsSettled id true) (
          (take_out env state k >>= λ _ (s : Manager).
          elim (repair_network_after_node_removal env k (note s)) [
            | fault e ↦ fault e
            | ok (repaired, u) ↦ ok (true, u)
          ])
            g)
  removal-Keeps state k note keep g h =
      let P = IsSettled id true in
      Holds-then P P (take_out env state k g)
        (λ _ s. elim (repair_network_after_node_removal env k (note s)) [
          | fault e ↦ fault e
          | ok (repaired, u) ↦ ok (true, u)
        ])
        (take_out-Keeps state k g h)
        (λ _ s q.
          Holds-then P P (repair_network_after_node_removal env k (note s)) (λ r u. ok (true, u))
            (repair-Keeps k (note s) (keep s q)) (λ _ u r. r))

  leave_body-Keeps : (k : NodeId) → Keeps (IsSettled id true) (leave_body env k)
  unfolding leave_body
  leave_body-Keeps k g h =
      Holds-if (IsSettled id true) (contains k g.node_registry) _ (ok (false, g))
        (removal-Keeps leaving k (λ s. tell s.on_node_removed (node_removed k) s) (λ s q. q) g h) h

  expel_body-Keeps : (k : NodeId) → Keeps (IsSettled id true) (expel_body env k)
  unfolding expel_body
  expel_body-Keeps k g h =
      Holds-if (IsSettled id true) (contains k g.node_registry) _ (ok (false, g))
        (removal-Keeps failed k (λ s. tell s.on_node_failed (node_failed k) s) (λ s q. q) g h) h

  pub remove_node-Keeps :
      (k : NodeId) (graceful : Bool) → Keeps (IsSettled id false) (remove_node env k graceful)
  unfolding remove_node remove_node_gracefully remove_node_forced
  remove_node-Keeps k true = lock_nodes-Keeps id (leave_body env k) (leave_body-Keeps k)
  remove_node-Keeps k false = lock_nodes-Keeps id (expel_body env k) (expel_body-Keeps k)

  -- A node that is not managed is not found.
  pub remove_node-unmanaged :
      (k : NodeId) (graceful : Bool) (g : Manager)
      → g.nodes_mutex ≡ false
      → contains k g.node_registry ≡ false
      → remove_node env k graceful g ≡ ok (false, g)
  unfolding remove_node remove_node_gracefully remove_node_forced leave_body expel_body lock_nodes
  remove_node-unmanaged k true g free h = ground arith
  remove_node-unmanaged k false g free h = ground arith

  pub remove_node_gracefully-unmanaged :
      (k : NodeId) (g : Manager)
      → g.nodes_mutex ≡ false
      → contains k g.node_registry ≡ false
      → remove_node_gracefully env k g ≡ ok (false, g)
  unfolding remove_node
  remove_node_gracefully-unmanaged k g free h = remove_node-unmanaged k true g free h
