-- ===== src/Discovery/Isolation.antt =====
-- The calls of src/NodeDiscovery.cpp keep the shared objects isolated.
use peer_to_peer_network_ove.Prelude.{
  suc, ◌==◌, ◌||◌, not, if◌then◌else◌, mem, ℕ, Bool, true, false, List, [], ◌∷◌,
}
use peer_to_peer_network_ove.Prelude.Int.{ℤ, pos}
use peer_to_peer_network_ove.Common.{NodeId, NetworkAddress, TimePoint, max_peers}
use peer_to_peer_network_ove.Outcome.{Action, ok, ret, ◌>>=◌}
use peer_to_peer_network_ove.Outcome.Holds.{Keeps, Holds-if, Holds-then, >>=-Keeps, if-Keeps}
use peer_to_peer_network_ove.Network.{Poco, connect_to_peer}
use peer_to_peer_network_ove.Network.Isolation.{connect_to_peer-IsSilent}
use peer_to_peer_network_ove.Topology
use peer_to_peer_network_ove.Topology.Keeping
use peer_to_peer_network_ove.World.{World, on_topology, on_network}
use peer_to_peer_network_ove.World.Isolation.{IsIsolated, on_topology-Keeps, on_network-Keeps}
use peer_to_peer_network_ove.Discovery.{
  Discovery, in_world, tell, peer_discovered, add_discovered_node, validate_node_address, is_enough,
  discover_loop, discover_peers, report_failed, connect_to_bootstrap_node, connect_any,
  finish_discovery, discover_network,
}
use peer_to_peer_network_ove.Discovery.{discovery_failed}

module _ (id : NodeId) where
  abbrev P : Discovery → Type 0
  P d = IsIsolated id d.world

  in_world-Keeps :
      {A : Type 0} (m : Action World A) → Keeps (IsIsolated id) m → Keeps P (in_world m)
  in_world-Keeps m keep d h =
      Holds-then (IsIsolated id) P (m d.world) (λ a w. ok (a, record d { world = w }))
        (keep d.world h) (λ a w q. q)

  -- The loop of discoverPeers.
  discover_loop-Keeps :
      (max : ℤ) (now : TimePoint) (ks : List NodeId) (n : ℕ) → Keeps P (discover_loop max now ks n)
  unfolding discover_loop add_discovered_node
  discover_loop-Keeps max now [] n = λ d h. h
  discover_loop-Keeps max now (k ∷ ks) n = λ d h.
      let rest = discover_loop max now ks n in
      let tail = if is_enough max (suc n) then ret [] else discover_loop max now ks (suc n) in
      let found = λ (a : NetworkAddress) (u : Discovery).
        tell u.on_peer_discovered (peer_discovered k a) (add_discovered_node k a now u) in
      let next = λ (a : NetworkAddress) (u : Discovery).
        if a.port == 0 then rest u else (tail >>= λ others. ret (k ∷ others)) (found a u) in
      let ask = on_topology (Topology.get_node_address k) in
      Holds-if P (k == d.world.node.node_id || mem k d.world.node.peer_ids) (rest d)
        ((in_world ask >>= next) d) (discover_loop-Keeps max now ks n d h)
        (>>=-Keeps P (in_world ask) next
          (in_world-Keeps ask
            (on_topology-Keeps id (Topology.get_node_address k) (Keeping.get_node_address-Keeps k)))
          (λ a u q. Holds-if P (a.port == 0) (rest u) _ (discover_loop-Keeps max now ks n u q) (
            >>=-Keeps P tail (λ others. ret (k ∷ others))
              (if-Keeps P (is_enough max (suc n)) (ret []) (discover_loop max now ks (suc n))
                (λ v r. r) (discover_loop-Keeps max now ks (suc n)))
              (λ others v r. r) (found a u) q))
          d h)

  pub discover_peers-Keeps : (max : ℤ) (now : TimePoint) → Keeps P (discover_peers max now)
  unfolding discover_peers
  discover_peers-Keeps max now =
      let ask = on_topology Topology.get_all_node_ids in
      >>=-Keeps P (in_world ask) (λ nodes. discover_loop max now nodes 0)
        (in_world-Keeps ask
          (on_topology-Keeps id Topology.get_all_node_ids Keeping.get_all_node_ids-Keeps))
        (λ nodes. discover_loop-Keeps max now nodes 0)

  report_failed-IsIsolated :
      (addresses : List NetworkAddress) (d : Discovery) → P d → P (report_failed addresses d)
  unfolding report_failed
  report_failed-IsIsolated [] d h = h
  report_failed-IsIsolated (a ∷ others) d h =
      report_failed-IsIsolated others (tell d.on_discovery_failed (discovery_failed a) d) h

  module _ (env : Poco) where
    connect_to_bootstrap_node-Keeps :
        (a : NetworkAddress) → Keeps P (connect_to_bootstrap_node env a)
    unfolding connect_to_bootstrap_node
    connect_to_bootstrap_node-Keeps a d h =
        let connect = on_network (connect_to_peer env a) in
        Holds-if P (not (validate_node_address a d)) (ok (false, d)) (in_world connect d) h (
          in_world-Keeps connect
            (on_network-Keeps id (connect_to_peer env a) (connect_to_peer-IsSilent env a)) d h)

    connect_any-Keeps : (addresses : List NetworkAddress) → Keeps P (connect_any env addresses)
    unfolding connect_any
    connect_any-Keeps [] = λ d h. h
    connect_any-Keeps (a ∷ others) =
        let rest = connect_any env others in
        >>=-Keeps P (connect_to_bootstrap_node env a)
          (λ connected. if connected then ret true else rest) (connect_to_bootstrap_node-Keeps a)
          (λ connected. if-Keeps P connected (ret true) rest (λ d h. h) (connect_any-Keeps others))

    finish_discovery-Keeps :
        (addresses : List NetworkAddress) (now : TimePoint) (connected : Bool)
        → Keeps P (finish_discovery env addresses now connected)
    unfolding finish_discovery
    finish_discovery-Keeps addresses now false d h = report_failed-IsIsolated addresses d h
    finish_discovery-Keeps addresses now true d h =
        >>=-Keeps P (discover_peers (pos max_peers) now) (λ peers. ret true)
          (discover_peers-Keeps (pos max_peers) now) (λ peers u q. q) d h

    pub discover_network-Keeps :
        (addresses : List NetworkAddress) (now : TimePoint)
        → Keeps P (discover_network env addresses now)
    unfolding discover_network
    discover_network-Keeps [] now = λ d h. h
    discover_network-Keeps (a ∷ others) now =
        >>=-Keeps P (connect_any env (a ∷ others)) (finish_discovery env (a ∷ others) now)
          (connect_any-Keeps (a ∷ others)) (finish_discovery-Keeps (a ∷ others) now)
