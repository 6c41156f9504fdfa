-- ===== src/Overlay/Settled.antt =====
-- What the calls of all managers of one node keep, and the start of it: the managers that
-- SimulatedNode (src/NodeSimulator.cpp) and src/main.cpp make.
use peer_to_peer_network_ove.Prelude.{◌≡◌, refl, false, List, [], ◌∷◌, contains}
use peer_to_peer_network_ove.Common.{NodeId, NetworkAddress, Message, TimePoint}
use peer_to_peer_network_ove.Outcome.{Action, ok}
use peer_to_peer_network_ove.Outcome.Holds.{Holds, Holds-ok, Holds-then, Keeps}
use peer_to_peer_network_ove.Node.{new_node}
use peer_to_peer_network_ove.Network.{Poco, new_network}
use peer_to_peer_network_ove.Network.Isolation.{new_network-IsSilent, send-unconnected}
use peer_to_peer_network_ove.Topology.{new_topology, add_node_body}
use peer_to_peer_network_ove.Topology.Queries.{add_node_free}
use peer_to_peer_network_ove.Topology.Keeping.{new_topology-IsIdle, add_node-Keeps}
use peer_to_peer_network_ove.World.{World}
use peer_to_peer_network_ove.World.Isolation.{IsIsolated}
use peer_to_peer_network_ove.Discovery.{Discovery}
use peer_to_peer_network_ove.Registration.{Registration}
use peer_to_peer_network_ove.Manager.{Manager}
use peer_to_peer_network_ove.Manager.Settled.{IsSettled}
use peer_to_peer_network_ove.Overlay.{
  Overlay, in_world, in_discovery, in_registration, in_manager, overlay_of, new_overlay, send_each,
}
use peer_to_peer_network_ove.Prelude.{arith}
use peer_to_peer_network_ove.Prelude.{subst}
use peer_to_peer_network_ove.Prelude.{sym}
use peer_to_peer_network_ove.Topology.Keeping.{IsIdle}

-- Between two calls: the shared objects are isolated, the manager's mutex is free, and the manager
-- does not manage the local node.
abbrev pub IsStable : NodeId → Overlay → Type 0
IsStable id o =
    IsIsolated id o.world
    × (o.manager.nodes_mutex ≡ false)
    × (contains id o.manager.node_registry ≡ false)

module _ (id : NodeId) where
  pub in_world-Keeps :
      {A : Type 0} (m : Action World A) → Keeps (IsIsolated id) m → Keeps (IsStable id) (in_world m)
  in_world-Keeps m keep o h =
      Holds-then (IsIsolated id) (IsStable id) (m o.world) (λ a w. ok (a, record o { world = w }))
        (keep o.world h.0) (λ a w q. (q, h.1, h.2))

  pub in_discovery-Keeps :
      {A : Type 0} (m : Action Discovery A)
      → Keeps (λ d. IsIsolated id d.world) m
      → Keeps (IsStable id) (in_discovery m)
  in_discovery-Keeps m keep o h =
      let d = record o.discovery { world = o.world } in
      Holds-then (λ (u : Discovery). IsIsolated id u.world) (IsStable id) (m d)
        (λ a u. ok (a, record o { world = u.world; discovery = u })) (keep d h.0)
        (λ a u q. (q, h.1, h.2))

  pub in_registration-Keeps :
      {A : Type 0} (m : Action Registration A)
      → Keeps (λ r. IsIsolated id r.world) m
      → Keeps (IsStable id) (in_registration m)
  in_registration-Keeps m keep o h =
      let r = record o.registration { world = o.world } in
      Holds-then (λ (u : Registration). IsIsolated id u.world) (IsStable id) (m r)
        (λ a u. ok (a, record o { world = u.world; registration = u })) (keep r h.0)
        (λ a u q. (q, h.1, h.2))

  pub in_manager-Keeps :
      {A : Type 0} (m : Action Manager A)
      → Keeps (IsSettled id false) m
      → Keeps (IsStable id) (in_manager m)
  in_manager-Keeps m keep o h =
      let g = record o.manager { world = o.world } in
      Holds-then (IsSettled id false) (IsStable id) (m g)
        (λ a u. ok (a, record o { world = u.world; manager = u })) (keep g h) (λ a u q. q)

  -- Over a silent network the messages to the peers are lost, and change nothing.
  pub send_each-lost :
      (env : Poco) (make : NodeId → World → Message) (peers : List NodeId) (w : World)
      → IsIsolated id w
      → send_each env make peers w ≡ ok (tt, w)
  unfolding send_each
  send_each-lost env make [] w h = refl
  send_each-lost env make (peer ∷ peers) w h = ground (
    arith,
    send-unconnected env peer (make peer w) w.network h.silent.0,
    send_each-lost env make peers w h,
  )

  pub send_each-Keeps :
      (env : Poco) (make : NodeId → World → Message) (peers : List NodeId)
      → Keeps (IsIsolated id) (send_each env make peers)
  send_each-Keeps env make peers w h =
      subst (Holds (IsIsolated id)) (sym (send_each-lost env make peers w h)) h

  -- The managers can be made, and are stable.
  pub new_overlay-IsStable :
      (address : NetworkAddress) (now : TimePoint)
      → (o : Overlay) × (new_overlay id address now ≡ ok o) × IsStable id o
  unfolding new_overlay
  new_overlay-IsStable address now =
      let t = (add_node_body id address (new_topology id)).1 in
      let added = add_node_free (new_topology id) (new_topology-IsIdle id).free id address in
      let w : World = record {
        node = new_node id address now;
        network = new_network;
        topology = t;
      } in
      (
        overlay_of w,
        ground (arith, added),
        (
          record {
            same = refl;
            peers = record { parallel = refl; distinct = tt; bounded = omega arith };
            idle =
                Holds-ok IsIdle (add_node_body id address (new_topology id)).0 t
                  (add_node-Keeps id address (new_topology id) (new_topology-IsIdle id)) added;
            silent = new_network-IsSilent;
          },
          refl,
          refl,
        ),
      )
