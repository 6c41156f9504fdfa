-- ===== src/Manager/Repair/Isolation.antt =====
-- The parts of src/DynamicNodeManager.cpp that work on the shared objects alone keep them isolated.
use peer_to_peer_network_ove.Prelude.{
  ◌==◌, ltb, leb, if◌then◌else◌, ◌||◌, Bool, true, false, List, [], ◌∷◌,
}
use peer_to_peer_network_ove.Common.{NodeId, NetworkAddress, max_peers}
use peer_to_peer_network_ove.Outcome.{ok}
use peer_to_peer_network_ove.Outcome.Holds.{Keeps, Holds-if, >>=-Keeps}
use peer_to_peer_network_ove.Node.{add_peer, has_peer, get_peer_count}
use peer_to_peer_network_ove.Network.{Poco, connect_to_peer}
use peer_to_peer_network_ove.Network.Isolation.{connect_to_peer-IsSilent}
use peer_to_peer_network_ove.Topology
use peer_to_peer_network_ove.Topology.Keeping.{
  get_all_node_ids-Keeps, get_node_address-Keeps, is_topology_connected-Keeps,
  repair_topology-Keeps,
}
use peer_to_peer_network_ove.World.{World, on_topology}
use peer_to_peer_network_ove.World.Isolation.{
  IsIsolated, on_topology-Keeps, with_network, add_peer-IsIsolated,
}
use peer_to_peer_network_ove.Manager.Repair.{
  repair_unless, repair_if_disconnected, replacements_in, find_replacement_connections,
  add_and_connect, replace_one, establish_replacement_connections, connect_loop, connect_more,
  ensure_connectivity,
}
use peer_to_peer_network_ove.Prelude.{arith}

module _ (id : NodeId) where
  abbrev P : World → Type 0
  P = IsIsolated id

  repair_unless-Keeps : (connected : Bool) → Keeps P (repair_unless connected)
  unfolding repair_unless
  repair_unless-Keeps true = λ w h. h
  repair_unless-Keeps false = on_topology-Keeps id Topology.repair_topology repair_topology-Keeps

  pub repair_if_disconnected-Keeps : Keeps P repair_if_disconnected
  unfolding repair_if_disconnected
  repair_if_disconnected-Keeps =
      >>=-Keeps P (on_topology Topology.is_topology_connected) repair_unless
        (on_topology-Keeps id Topology.is_topology_connected is_topology_connected-Keeps)
        repair_unless-Keeps

  pub find_replacement_connections-Keeps : (k : NodeId) → Keeps P (find_replacement_connections k)
  unfolding find_replacement_connections
  find_replacement_connections-Keeps k =
      >>=-Keeps P (on_topology Topology.get_all_node_ids)
        (λ nodes w. ok (replacements_in w.node k nodes, w))
        (on_topology-Keeps id Topology.get_all_node_ids get_all_node_ids-Keeps) (λ nodes w h. h)

  module _ (env : Poco) where
    pub add_and_connect-IsIsolated :
        (k : NodeId) (a : NetworkAddress) (w : World) → P w → P (add_and_connect env k a w).1
    unfolding add_and_connect
    add_and_connect-IsIsolated k a w h =
        let s : World = record w { node = (add_peer w.node k a).0 } in
        with_network id s (connect_to_peer env a w.network).1 (add_peer-IsIsolated id k a w h)
          (connect_to_peer-IsSilent env a w.network h.silent)

    replace_one-IsIsolated :
        (k : NodeId) (a : NetworkAddress) (w : World) → P w → P (replace_one env k a w).1
    unfolding replace_one
    replace_one-IsIsolated k a w h = ground (arith, add_and_connect-IsIsolated k a w h)

    pub establish_replacement_connections-Keeps :
        (ks : List NodeId) (success : Bool)
        → Keeps P (establish_replacement_connections env ks success)
    unfolding establish_replacement_connections
    establish_replacement_connections-Keeps [] success = λ w h. h
    establish_replacement_connections-Keeps (k ∷ ks) success = λ w h.
        let more = establish_replacement_connections env ks in
        let next = λ (a : NetworkAddress) (u : World).
          let r = replace_one env k a u in if r.0 then more true r.1 else more success r.1 in
        Holds-if P (leb max_peers (get_peer_count w.node)) (ok (success, w)) _ h (
          >>=-Keeps P (on_topology (Topology.get_node_address k)) next
            (on_topology-Keeps id (Topology.get_node_address k) (get_node_address-Keeps k))
            (λ a u q.
              let r = replace_one env k a u in
              let kept = replace_one-IsIsolated k a u q in
              Holds-if P r.0 (more true r.1) (more success r.1)
                (establish_replacement_connections-Keeps ks true r.1 kept)
                (establish_replacement_connections-Keeps ks success r.1 kept))
            w h)

    connect_loop-Keeps : (ks : List NodeId) → Keeps P (connect_loop env ks)
    unfolding connect_loop
    connect_loop-Keeps [] = λ w h. h
    connect_loop-Keeps (k ∷ ks) = λ w h.
        let rest = connect_loop env ks in
        let next = λ (a : NetworkAddress) (u : World).
          if a.port == 0 then rest u else rest (add_and_connect env k a u).1 in
        Holds-if P (k == w.node.node_id || has_peer w.node k) (rest w) _ (connect_loop-Keeps ks w h)
          (Holds-if P (leb max_peers (get_peer_count w.node)) (ok (tt, w)) _ h (
            >>=-Keeps P (on_topology (Topology.get_node_address k)) next
              (on_topology-Keeps id (Topology.get_node_address k) (get_node_address-Keeps k))
              (λ a u q.
                Holds-if P (a.port == 0) (rest u) (rest (add_and_connect env k a u).1)
                  (connect_loop-Keeps ks u q)
                  (connect_loop-Keeps ks (add_and_connect env k a u).1
                    (add_and_connect-IsIsolated k a u q)))
              w h))

    connect_more-Keeps : (some_room : Bool) → Keeps P (connect_more env some_room)
    unfolding connect_more
    connect_more-Keeps false = λ w h. h
    connect_more-Keeps true =
        >>=-Keeps P (on_topology Topology.get_all_node_ids) (connect_loop env)
          (on_topology-Keeps id Topology.get_all_node_ids get_all_node_ids-Keeps) connect_loop-Keeps

    pub ensure_connectivity-Keeps : Keeps P (ensure_connectivity env)
    unfolding ensure_connectivity
    ensure_connectivity-Keeps =
        >>=-Keeps P (λ w. connect_more env (ltb (get_peer_count w.node) max_peers) w)
          (λ _. on_topology Topology.is_topology_connected)
          (λ w h. connect_more-Keeps (ltb (get_peer_count w.node) max_peers) w h)
          (λ _. on_topology-Keeps id Topology.is_topology_connected is_topology_connected-Keeps)
