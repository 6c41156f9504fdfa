-- ===== src/App/Ending.antt =====
-- The end of the program (src/main.cpp), and the reliable messages that main sends to the peers.
use peer_to_peer_network_ove.App.History.{Launch, Reaches, reached-IsStable}
use peer_to_peer_network_ove.Exchange.State.{DataChunk}
use peer_to_peer_network_ove.App.{LoopTimers}
use peer_to_peer_network_ove.Prelude.{
  ◌≡◌, ◌∙◌, refl, ap, sym, subst, ◌+◌, ℕ, false, List, [], ◌∷◌, length, contains, arith,
}
use peer_to_peer_network_ove.Common.{NodeId, TimePoint}
use peer_to_peer_network_ove.Outcome.{ok, ◌>>=◌, ◌>>◌, bind_ok}
use peer_to_peer_network_ove.Network.{Poco, Network, stop_server}
use peer_to_peer_network_ove.Network.Isolation.{stop_server-running}
use peer_to_peer_network_ove.Node.{set_active}
use peer_to_peer_network_ove.World.{World}
use peer_to_peer_network_ove.Discovery.{stop_periodic_discovery}
use peer_to_peer_network_ove.Manager.{remove_node_gracefully, stop_failure_detection}
use peer_to_peer_network_ove.Handler.{create_leave_notification}
use peer_to_peer_network_ove.Reliable.{send_reliable_message}
use peer_to_peer_network_ove.Reliable.Isolation.{
  send_reliable_message-network, send_reliable_message-failed,
}
use peer_to_peer_network_ove.Overlay.{Overlay, in_world, in_manager}
use peer_to_peer_network_ove.Overlay.Settled.{IsStable}
use peer_to_peer_network_ove.App.State.Stable.{IsStableApp}
use peer_to_peer_network_ove.App.{
  App, in_overlay, in_discovery, world, set_world, send_reliably, shut_down,
}
use peer_to_peer_network_ove.Manager.Removal.{remove_node_gracefully-unmanaged}

module _ (id : NodeId) (env : Poco) (draw : NodeId → ℕ) (now : TimePoint) where
  -- Each message to a peer fails, and only that is counted.
  pub send_reliably-failed :
      (make : NodeId → World → _) (peers : List NodeId) (s : App)
      → IsStableApp id s
      → (u : App) × (send_reliably env make draw now peers s ≡ ok (tt, u))
        × (u.overlay ≡ s.overlay)
        × (u.reliable.failed_messages ≡ s.reliable.failed_messages + length peers)
  unfolding send_reliably
  send_reliably-failed make [] s h = (s, refl, refl, omega arith)
  send_reliably-failed make (peer ∷ peers) s h =
      let m = make peer (world s) in
      let r = record s.reliable { network = (world s).network } in
      let after = (send_reliable_message env peer m (draw peer) now r).1 in
      let s1 = record (set_world (record (world s) { network = after.network }) s) {
        reliable = after;
      } in
      let kept : s1.overlay ≡ s.overlay =
        ap (λ (n : Network). record s.overlay { world = record (world s) { network = n } })
          (send_reliable_message-network env now peer m (draw peer) r h.0.silent) in
      let (u, ends, same, count) =
        send_reliably-failed make peers s1 (subst (IsStable id) (sym kept) h) in
      (
        u,
        ends,
        same ∙ kept,
        count
            ∙ ap (λ n. n + length peers)
                (send_reliable_message-failed env now peer m (draw peer) r h.0.silent)
            ∙ omega arith,
      )

  -- The end of the program always returns, from stable managers: the server and the services are
  -- stopped and the node is inactive, but each leave notification failed, and the topology is as before.
  pub shut_down-ends :
      (s : App)
      → IsStableApp id s
      → (u : App) × (shut_down env draw now s ≡ ok (tt, u))
        × ((world u).network.server_running ≡ false)
        × ((world u).node.is_active ≡ false)
        × (u.overlay.manager.failure_detection_active ≡ false)
        × (u.overlay.discovery.discovery_active ≡ false)
        × (u.reliable.failed_messages ≡ s.reliable.failed_messages + length (world s).node.peer_ids)
        × ((world u).topology ≡ (world s).topology)
  unfolding shut_down in_discovery
  shut_down-ends s h =
      let o = s.overlay in
      let s2 = record s {
        overlay = record o {
          discovery =
              stop_periodic_discovery
                (record o.discovery { world = o.world; discovery_notices = [] });
          manager = stop_failure_detection (record o.manager { world = o.world });
        };
      } in
      let notify = λ (t : App).
        send_reliably env (create_leave_notification now) draw now (world t).node.peer_ids t in
      let remove = λ (t : App).
        in_overlay (in_manager (remove_node_gracefully env (world t).node.node_id)) t in
      let finish =
        in_overlay (in_world λ w. ok (tt, record w { network = stop_server w.network }))
        >> in_overlay (in_world λ w. ok (tt, record w { node = set_active w.node false })) in
      let (s3, sent, same, count) =
        send_reliably-failed (create_leave_notification now) o.world.node.peer_ids s2 h in
      let g = record s3.overlay.manager { world = world s3 } in
      let q : IsStable id s3.overlay = subst (IsStable id) (sym same) h in
      let unmanaged = subst (λ k. contains k g.node_registry ≡ false) (sym q.0.same) q.2 in
      let removed =
        remove_node_gracefully-unmanaged id env (world s3).node.node_id g q.1 unmanaged in
      let s4 = record s3 { overlay = record s3.overlay { manager = g } } in
      let u = record s4 {
        overlay = record s4.overlay {
          world = record (world s3) {
            network = stop_server (world s3).network;
            node = set_active (world s3).node false;
          };
        };
      } in
      (
        u,
        bind_ok notify (λ _. remove >>= λ _. finish) s2 tt s3 sent
            ∙ bind_ok remove (λ _. finish) s3 false s4 (ground (arith, removed)),
        stop_server-running (world s3).network,
        refl,
        ap (λ (v : Overlay). v.manager.failure_detection_active) same,
        ap (λ (v : Overlay). v.discovery.discovery_active) same,
        count,
        ap (λ (v : Overlay). v.world.topology) same,
      )

-- From every state that the program reaches its end returns: the server and the services are stopped
-- and the node is inactive. Each leave notification to a peer fails, and the topology is as before:
-- the local node is not removed from it.
pub reached-shut_down :
    (env : Poco) (object_bytes : DataChunk → List ℕ) (launch : Launch) (t : LoopTimers) (s : App)
    (draw : NodeId → ℕ) (now : TimePoint)
    → Reaches env object_bytes launch t s
    → (u : App) × (shut_down env draw now s ≡ ok (tt, u))
      × ((world u).network.server_running ≡ false)
      × ((world u).node.is_active ≡ false)
      × (u.overlay.manager.failure_detection_active ≡ false)
      × (u.overlay.discovery.discovery_active ≡ false)
      × (u.reliable.failed_messages ≡ s.reliable.failed_messages + length (world s).node.peer_ids)
      × ((world u).topology ≡ (world s).topology)
reached-shut_down env object_bytes launch t s draw now r =
    shut_down-ends launch.id env draw now s (reached-IsStable env object_bytes launch r)
