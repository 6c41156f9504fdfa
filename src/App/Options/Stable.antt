-- ===== src/App/Options/Stable.antt =====
-- The menu handlers of src/main.cpp keep the managers stable, whatever the user types.
pub mod Sending
use text.Mathlib.Text.{◌==◌ as str_eq}
use peer_to_peer_network_ove.Prelude.{subst, sym, ℕ, ◌==◌, if◌then◌else◌, false, List, [], ◌∷◌}
use peer_to_peer_network_ove.Prelude.Int.{ℤ, pos}
use peer_to_peer_network_ove.Common.{NodeId, NetworkAddress, TimePoint, max_peers, node_timeout_sec}
use peer_to_peer_network_ove.Outcome.{Action, ok, ret, ◌>>=◌, ◌>>◌}
use peer_to_peer_network_ove.Outcome.Holds.{Keeps, >>=-Keeps, if-Keeps}
use peer_to_peer_network_ove.Network.{Poco}
use peer_to_peer_network_ove.Network.Isolation.{IsSilent}
use peer_to_peer_network_ove.Topology
use peer_to_peer_network_ove.Topology.Keeping.{
  IsIdle, get_node_address-Keeps, get_network_size-Keeps,
}
use peer_to_peer_network_ove.World.{on_topology}
use peer_to_peer_network_ove.World.Isolation.{IsIsolated, on_topology-Keeps}
use peer_to_peer_network_ove.Overlay.{in_world, in_registration, in_manager}
use peer_to_peer_network_ove.Overlay.Settled
use peer_to_peer_network_ove.Discovery.{
  Discovery, discover_network, discover_peers, get_discovered_nodes, start_periodic_discovery,
  stop_periodic_discovery,
}
use peer_to_peer_network_ove.Discovery.Isolation.{discover_network-Keeps, discover_peers-Keeps}
use peer_to_peer_network_ove.Registration.{Registration, register_with_network, register_with_node}
use peer_to_peer_network_ove.Registration.Isolation.{
  register_with_network-Keeps, register_with_node-Keeps,
}
use peer_to_peer_network_ove.Manager.{
  Manager, add_node, remove_node, get_all_node_info, get_node_info, detect_failed_nodes,
  get_failed_nodes, maintain_network_integrity, get_active_node_count, get_failed_node_count,
}
use peer_to_peer_network_ove.Manager.Settled.{IsSettled, add_node-Keeps}
use peer_to_peer_network_ove.Manager.Removal.{remove_node-Keeps}
use peer_to_peer_network_ove.Manager.Upkeep.{
  detect_failed_nodes-Keeps, maintain_network_integrity-Keeps, get_node_info-Keeps,
  get_failed_nodes-Keeps, get_active_node_count-Keeps, get_failed_node_count-Keeps,
  get_all_node_info-Keeps,
}
use peer_to_peer_network_ove.Router.{
  route_message, flood_message, get_routing_table, update_routing_table, is_reachable,
  get_hop_count,
}
use peer_to_peer_network_ove.Router.State.{direct, shortest_path}
use peer_to_peer_network_ove.Router.Isolation.{
  route_message-Keeps, flood_message-Keeps, get_routing_table-Keeps, update_routing_table-Keeps,
  is_reachable-Keeps, get_hop_count-Keeps,
}
use peer_to_peer_network_ove.Reliable.{send_reliable_message, retry_pending_messages}
use peer_to_peer_network_ove.Reliable.Isolation.{
  send_reliable_message-network, retry_pending_messages-IsSilent,
}
use peer_to_peer_network_ove.Exchange.{send_data, cancel_transfer}
use peer_to_peer_network_ove.Exchange.Isolation.{send_data-Keeps, cancel_transfer-Keeps}
use peer_to_peer_network_ove.Exchange.State.{DataChunk, Exchange}
use peer_to_peer_network_ove.App.State.{
  App, in_overlay, in_discovery, in_router, in_exchange, in_reliable,
}
use peer_to_peer_network_ove.App.State.Stable.{
  IsStableApp, in_overlay-Keeps, in_router-Keeps, in_exchange-Keeps, in_reliable-Keeps,
  in_discovery-Keeps,
}
use peer_to_peer_network_ove.App.Options.{
  Answers, is_option, nothing, ignore, asked_address, addresses, text_message,
  handle_discovery_option, register_known, handle_registration_option,
  handle_node_management_option, handle_routing_option, handle_reliable_messaging_option, sample,
  handle_data_exchange_option,
}

module _ (id : NodeId) where
  abbrev P : App → Type 0
  P = IsStableApp id

  pub ignore-Keeps : {A : Type 0} (m : Action App A) → Keeps P m → Keeps P (ignore m)
  ignore-Keeps m keep = >>=-Keeps P m (λ _. ret tt) keep (λ _ s h. h)

  pub manager-Keeps :
      {A : Type 0} (m : Action Manager A)
      → Keeps (IsSettled id false) m
      → Keeps P (in_overlay (in_manager m))
  manager-Keeps m keep = in_overlay-Keeps id (in_manager m) (Settled.in_manager-Keeps id m keep)

  managing-Keeps :
      {A : Type 0} (m : Action Manager A)
      → Keeps (IsSettled id false) m
      → Keeps P (ignore (in_overlay (in_manager m)))
  managing-Keeps m keep = ignore-Keeps (in_overlay (in_manager m)) (manager-Keeps m keep)

  registering-Keeps :
      {A : Type 0} (m : Action Registration A)
      → Keeps (λ r. IsIsolated id r.world) m
      → Keeps P (ignore (in_overlay (in_registration m)))
  registering-Keeps m keep =
      ignore-Keeps (in_overlay (in_registration m))
        (in_overlay-Keeps id (in_registration m) (Settled.in_registration-Keeps id m keep))

  topology-Keeps :
      {A : Type 0} (m : Action Topology.Topology A)
      → Keeps IsIdle m
      → Keeps P (in_overlay (in_world (on_topology m)))
  topology-Keeps m keep =
      in_overlay-Keeps id (in_world (on_topology m))
        (Settled.in_world-Keeps id (on_topology m) (on_topology-Keeps id m keep))

  addresses-Keeps : (ks : List NodeId) → Keeps P (addresses ks)
  unfolding addresses
  addresses-Keeps [] = λ s h. h
  addresses-Keeps (k ∷ ks) =
      let ask = in_overlay (in_world (on_topology (Topology.get_node_address k))) in
      >>=-Keeps P ask (λ _. addresses ks)
        (topology-Keeps (Topology.get_node_address k) (get_node_address-Keeps k))
        (λ _. addresses-Keeps ks)

  pub nothing-Keeps : Keeps P nothing
  nothing-Keeps s h = h

  -- Option 7 of the node management, and option 6 of the routing.
  statistics-Keeps : Keeps P (
      in_overlay (in_manager get_active_node_count) >>= λ _.
      in_overlay (in_manager get_failed_node_count) >>= λ _.
      in_overlay (in_world (on_topology Topology.get_network_size)) >>= λ _. nothing)
  statistics-Keeps =
      let failed = in_overlay (in_manager get_failed_node_count) in
      let size = in_overlay (in_world (on_topology Topology.get_network_size)) in
      >>=-Keeps P (in_overlay (in_manager get_active_node_count))
        (λ _. failed >>= λ _. size >>= λ _. nothing)
        (manager-Keeps get_active_node_count (get_active_node_count-Keeps id))
        (λ _.
          >>=-Keeps P failed (λ _. size >>= λ _. nothing)
            (manager-Keeps get_failed_node_count (get_failed_node_count-Keeps id))
            (λ _.
              ignore-Keeps size (topology-Keeps Topology.get_network_size get_network_size-Keeps)))

  module _ (env : Poco) (now : TimePoint) where
    pub handle_discovery_option-Keeps :
        (option : ℤ) (a : Answers) → Keeps P (handle_discovery_option env now option a)
    unfolding handle_discovery_option
    handle_discovery_option-Keeps option a =
        let network = discover_network env (asked_address a ∷ []) now in
        let peers = discover_peers (pos max_peers) now in
        let starts = λ (d : Discovery). ok (tt, start_periodic_discovery d) in
        let stops = λ (d : Discovery). ok (tt, stop_periodic_discovery d) in
        if-Keeps P (is_option 1 option) _ _
          (ignore-Keeps (in_discovery env now network) (
            in_discovery-Keeps id env now network
              (discover_network-Keeps id env (asked_address a ∷ []) now)))
          (if-Keeps P (is_option 2 option) _ _
            (>>=-Keeps P (in_discovery env now peers) addresses
              (in_discovery-Keeps id env now peers (discover_peers-Keeps id (pos max_peers) now))
              addresses-Keeps)
            (if-Keeps P (is_option 3 option) _ _
              (λ s h. addresses-Keeps (get_discovered_nodes s.overlay.discovery) s h)
              (if-Keeps P (is_option 4 option) _ _ (in_discovery-Keeps id env now starts (λ d h. h))
                (if-Keeps P (is_option 5 option) _ _
                  (in_discovery-Keeps id env now stops (λ d h. h)) nothing-Keeps))))

    register_known-Keeps : (a : NetworkAddress) → Keeps P (register_known env now a)
    unfolding register_known
    register_known-Keeps a =
        if-Keeps P (a.port == 0) nothing _ nothing-Keeps
          (registering-Keeps (register_with_node env a now) (register_with_node-Keeps id env a now))

    pub handle_registration_option-Keeps :
        (option : ℤ) (a : Answers) → Keeps P (handle_registration_option env now option a)
    unfolding handle_registration_option
    handle_registration_option-Keeps option a =
        let ask = Topology.get_node_address a.node_id in
        if-Keeps P (is_option 1 option) _ _
          (registering-Keeps (register_with_network env (asked_address a))
            (register_with_network-Keeps id env (asked_address a)))
          (if-Keeps P (is_option 2 option) _ _
            (>>=-Keeps P (in_overlay (in_world (on_topology ask))) (register_known env now)
              (topology-Keeps ask (get_node_address-Keeps a.node_id)) register_known-Keeps)
            nothing-Keeps)

    pub handle_node_management_option-Keeps :
        (option : ℤ) (a : Answers) → Keeps P (handle_node_management_option env now option a)
    unfolding handle_node_management_option
    handle_node_management_option-Keeps option a =
        let k = if a.node_id == 0 then a.random else a.node_id in
        let detect = detect_failed_nodes env node_timeout_sec now in
        if-Keeps P (is_option 1 option) _ _
          (managing-Keeps (add_node env k (asked_address a) now)
            (add_node-Keeps id env k (asked_address a) now))
          (if-Keeps P (is_option 2 option) _ _
            (managing-Keeps (remove_node env a.node_id (is_option 1 a.graceful))
              (remove_node-Keeps id env a.node_id (is_option 1 a.graceful)))
            (if-Keeps P (is_option 3 option) _ _
              (managing-Keeps get_all_node_info (get_all_node_info-Keeps id))
              (if-Keeps P (is_option 4 option) _ _
                (managing-Keeps (get_node_info a.node_id) (get_node_info-Keeps id a.node_id))
                (if-Keeps P (is_option 5 option) _ _
                  (managing-Keeps (detect >> get_failed_nodes) (
                    >>=-Keeps (IsSettled id false) detect (λ _. get_failed_nodes)
                      (detect_failed_nodes-Keeps id env node_timeout_sec now)
                      (λ _. get_failed_nodes-Keeps id)))
                  (if-Keeps P (is_option 6 option) _ _
                    (managing-Keeps (maintain_network_integrity env now)
                      (maintain_network_integrity-Keeps id env now))
                    (if-Keeps P (is_option 7 option) _ _ statistics-Keeps nothing-Keeps))))))
