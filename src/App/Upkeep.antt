-- ===== src/App/Upkeep.antt =====
-- The rounds of the loop of main (src/main.cpp) in which the network is maintained.
use peer_to_peer_network_ove.Prelude.{
  ◌≡◌, ◌≤◌, ◌∙◌, refl, ap, sym, subst, ℕ, Bool, true, false, length, arith,
}
use peer_to_peer_network_ove.Prelude.Int.{pos}
use peer_to_peer_network_ove.Common.{NodeId, TimePoint, heartbeat_interval_sec}
use peer_to_peer_network_ove.Outcome.{ok, fault, deadlock}
use peer_to_peer_network_ove.Network.{Poco}
use peer_to_peer_network_ove.World.{World}
use peer_to_peer_network_ove.Handler.{create_heartbeat}
use peer_to_peer_network_ove.Manager.Upkeep.{maintain_network_integrity-deadlock}
use peer_to_peer_network_ove.Router.Table.{update_routing_table-entries}
use peer_to_peer_network_ove.Overlay.{Overlay, is_over}
use peer_to_peer_network_ove.Overlay.Settled.{IsStable}
use peer_to_peer_network_ove.Exchange.State.{DataChunk}
use peer_to_peer_network_ove.App.State.Stable.{IsStableApp}
use peer_to_peer_network_ove.App.{
  App, LoopTimers, world, set_world, beat, update_routes, maintain, main_round,
}
use peer_to_peer_network_ove.App.Ending.{send_reliably-failed}
use peer_to_peer_network_ove.App.History.{Launch, Reaches, reached-IsStable}
use peer_to_peer_network_ove.App.{List}

module _ (id : NodeId) (env : Poco) where
  -- Heartbeats and the routing table leave the shared objects alone.
  beat-world :
      (due : Bool) (draw : NodeId → ℕ) (now : TimePoint) (s : App)
      → IsStableApp id s
      → (u : App) × (beat env due draw now s ≡ ok (tt, u)) × (u.overlay ≡ s.overlay)
  unfolding beat
  beat-world false draw now s h = (s, refl, refl)
  beat-world true draw now s h =
      let (u, ends, same, count) =
        send_reliably-failed id env draw now (create_heartbeat now) (world s).node.peer_ids s h in
      (u, ends, same)

  update_routes-world :
      (due : Bool) (now : TimePoint) (s : App)
      → IsStableApp id s
      → (u : App) × (update_routes env due now s ≡ ok (tt, u)) × (u.overlay ≡ s.overlay)
  unfolding update_routes
  update_routes-world false now s h = (s, refl, refl)
  update_routes-world true now s h =
      let r = record s.router { world = world s } in
      let (v, ends, same, table) = update_routing_table-entries now r h.0.idle.free in
      (
        record (set_world v.world s) { router = v },
        ground (arith, ends),
        ap (λ (w : World). record s.overlay { world = w }) same,
      )

  maintain-deadlock :
      (now : TimePoint) (s : App)
      → IsStableApp id s
      → 2 ≤ length (world s).topology.node_registry
      → maintain env true now s ≡ fault deadlock
  unfolding maintain
  maintain-deadlock now s h many = ground (
    arith,
    maintain_network_integrity-deadlock env now (record s.overlay.manager { world = world s })
        h.0.idle.free h.0.idle.quiet.well_formed many,
  )

-- In every state that the program reaches: once a second node is in the topology, the round of the main
-- loop in which maintenance is due (60 seconds after the last one) locks topologyMutex_ twice.
pub main_round-deadlock :
    (env : Poco) (object_bytes : DataChunk → List ℕ) (launch : Launch) (t : LoopTimers) (s : App)
    (draw : NodeId → ℕ) (steady now : TimePoint)
    → Reaches env object_bytes launch t s
    → s.running ≡ true
    → is_over (pos 60) steady t.last_maintenance ≡ true
    → 2 ≤ length (world s).topology.node_registry
    → main_round env draw steady now t s ≡ fault deadlock
unfolding main_round
main_round-deadlock env object_bytes launch t s draw steady now r running due many =
    let h = reached-IsStable env object_bytes launch r in
    let b = is_over heartbeat_interval_sec steady t.last_heartbeat in
    let u = is_over (pos 30) steady t.last_routing_update in
    let (s1, beaten, same1) = beat-world launch.id env b draw now s h in
    let h1 = subst (IsStable launch.id) (sym same1) h in
    let (s2, updated, same2) = update_routes-world launch.id env u now s1 h1 in
    let h2 = subst (IsStable launch.id) (sym same2) h1 in
    let still =
      subst (λ (o : Overlay). 2 ≤ length o.world.topology.node_registry) (sym (same2 ∙ same1))
        many in
    let stuck = maintain-deadlock launch.id env now s2 h2 still in
    ground (arith, beaten, updated, stuck)
