-- ===== src/Simulator/Member/Sound.antt =====
-- What the calls of SimulatedNode (src/NodeSimulator.cpp) keep, and that leaving and stopping return.
use peer_to_peer_network_ove.Prelude.{
  ℕ, Option, String, ◌≡◌, refl, sym, subst, Bool, true, false, inl, inr, if◌then◌else◌, ◌==◌,
  contains, Bool-cases, ◌∷◌, [], arith,
}
use peer_to_peer_network_ove.Prelude.Int.{pos}
use peer_to_peer_network_ove.Common.{
  NodeId, NetworkAddress, Message, TimePoint, heartbeat_interval_sec,
}
use peer_to_peer_network_ove.Outcome.{Action, ok, ret, ◌>>=◌, ◌>>◌}
use peer_to_peer_network_ove.Outcome.Holds.{Keeps, Holds-then, Holds-if, >>=-Keeps}
use peer_to_peer_network_ove.Network.{Poco, start_server, stop_server}
use peer_to_peer_network_ove.Network.Isolation.{
  start_server-IsSilent, stop_server-running, stop_server-IsSilent,
}
use peer_to_peer_network_ove.World.{on_network}
use peer_to_peer_network_ove.World.Isolation.{on_network-Keeps, with_network}
use peer_to_peer_network_ove.Discovery.{discover_network}
use peer_to_peer_network_ove.Discovery.Isolation.{discover_network-Keeps}
use peer_to_peer_network_ove.Registration.{register_with_network}
use peer_to_peer_network_ove.Registration.Isolation.{register_with_network-Keeps}
use peer_to_peer_network_ove.Manager.{maintain_network_integrity}
use peer_to_peer_network_ove.Manager.Removal.{remove_node-unmanaged}
use peer_to_peer_network_ove.Manager.Upkeep.{maintain_network_integrity-Keeps}
use peer_to_peer_network_ove.Handler.{create_leave_notification, create_heartbeat, process_message}
use peer_to_peer_network_ove.Handler.Isolation.{process_message-Keeps}
use peer_to_peer_network_ove.Overlay.{
  Overlay, local_address, in_world, in_discovery, in_manager, is_over, send_each,
}
use peer_to_peer_network_ove.Overlay.Settled
use peer_to_peer_network_ove.Overlay.Settled.{
  IsStable, new_overlay-IsStable, send_each-lost, send_each-Keeps,
}
use peer_to_peer_network_ove.Simulator.Member.{
  SimulatedNode, new_simulated_node, Timers, in_overlay, finish_start, start, finish_join,
  join_network, leave_network, stop, beat, maintain, thread_round, receive,
}
use peer_to_peer_network_ove.Outcome.Holds.{if-Keeps}

-- The node keeps its identifier, and its managers are stable.
abbrev pub IsSoundNode : NodeId → SimulatedNode → Type 0
IsSoundNode id s = (s.node_id ≡ id) × IsStable id s.overlay

module _ (id : NodeId) where
  pub in_overlay-Keeps :
      {A : Type 0} (m : Action Overlay A)
      → Keeps (IsStable id) m
      → Keeps (IsSoundNode id) (in_overlay m)
  in_overlay-Keeps m keep s h =
      Holds-then (IsStable id) (IsSoundNode id) (m s.overlay)
        (λ a o. ok (a, record s { overlay = o })) (keep s.overlay h.1) (λ a o q. (h.0, q))

  module _ (env : Poco) where
    finish_start-Keeps : (started : Bool) → Keeps (IsSoundNode id) (finish_start env started)
    unfolding finish_start
    finish_start-Keeps false s h = h
    finish_start-Keeps true s h = h

    pub start-Keeps : Keeps (IsSoundNode id) (start env)
    unfolding start
    start-Keeps s h =
        let open_ = on_network (start_server env s.address.port) in
        Holds-if (IsSoundNode id) s.running (ok (false, s)) _ h (
          >>=-Keeps (IsSoundNode id) (in_overlay (in_world open_)) (finish_start env)
            (in_overlay-Keeps (in_world open_) (
              Settled.in_world-Keeps id open_ (
                on_network-Keeps id (start_server env s.address.port)
                  (start_server-IsSilent env s.address.port))))
            finish_start-Keeps s h)

    finish_join-Keeps :
        (bootstrap : NetworkAddress) (discovered : Bool)
        → Keeps (IsStable id) (finish_join env bootstrap discovered)
    unfolding finish_join
    finish_join-Keeps bootstrap false = λ o h. h
    finish_join-Keeps bootstrap true =
        Settled.in_registration-Keeps id (register_with_network env bootstrap)
          (register_with_network-Keeps id env bootstrap)

    pub join_network-Keeps :
        (bootstrap : NetworkAddress) (now : TimePoint)
        → Keeps (IsSoundNode id) (join_network env bootstrap now)
    unfolding join_network
    join_network-Keeps bootstrap now =
        let discover = discover_network env (bootstrap ∷ []) now in
        if-Keeps (IsSoundNode id) (bootstrap.port == 0) (ret true) _ (λ s h. h)
          (in_overlay-Keeps (in_discovery discover >>= finish_join env bootstrap) (
            >>=-Keeps (IsStable id) (in_discovery discover) (finish_join env bootstrap)
              (Settled.in_discovery-Keeps id discover
                (discover_network-Keeps id env (bootstrap ∷ []) now))
              (finish_join-Keeps bootstrap)))

    beat-Keeps : (due : Bool) (now : TimePoint) → Keeps (IsStable id) (beat env due now)
    unfolding beat
    beat-Keeps false now = λ o h. h
    beat-Keeps true now =
        Settled.in_world-Keeps id (λ w. send_each env (create_heartbeat now) w.node.peer_ids w)
          (λ w h. send_each-Keeps id env (create_heartbeat now) w.node.peer_ids w h)

    maintain-Keeps : (due : Bool) (now : TimePoint) → Keeps (IsStable id) (maintain env due now)
    unfolding maintain
    maintain-Keeps false now = λ o h. h
    maintain-Keeps true now =
        let m = in_manager (maintain_network_integrity env now) in
        >>=-Keeps (IsStable id) m (λ _. ret tt)
          (Settled.in_manager-Keeps id (maintain_network_integrity env now)
            (maintain_network_integrity-Keeps id env now))
          (λ _ o h. h)

    pub thread_round-Keeps :
        (steady now : TimePoint) (timers : Timers)
        → Keeps (IsSoundNode id) (thread_round env steady now timers)
    unfolding thread_round
    thread_round-Keeps steady now timers s h =
        let b = is_over heartbeat_interval_sec steady timers.last_heartbeat in
        let m = is_over (pos 60) steady timers.last_maintenance in
        let next : Timers = record {
          last_heartbeat = if b then steady else timers.last_heartbeat;
          last_maintenance = if m then steady else timers.last_maintenance;
        } in
        let rest = maintain env m now >> ret next in
        Holds-if (IsSoundNode id) s.running _ (ok (timers, s))
          (in_overlay-Keeps (beat env b now >> rest)
            (>>=-Keeps (IsStable id) (beat env b now) (λ _. rest) (beat-Keeps b now)
              (λ _.
                >>=-Keeps (IsStable id) (maintain env m now) (λ _. ret next) (maintain-Keeps m now)
                  (λ _ o q. q)))
            s h)
          h

    pub receive-Keeps : (m : Message) (now : TimePoint) → Keeps (IsSoundNode id) (receive env m now)
    unfolding receive
    receive-Keeps m now =
        in_overlay-Keeps (in_world (process_message env now m)) (
          Settled.in_world-Keeps id (process_message env now m)
            (process_message-Keeps id env now m))

    -- A node that leaves tells nobody and removes nothing: only its manager saw the shared objects.
    pub leave_network-lost :
        (now : TimePoint) (s : SimulatedNode)
        → IsSoundNode id s
        → leave_network env now s
          ≡ ok (
            tt,
            record s {
              overlay = record s.overlay {
                manager = record s.overlay.manager { world = s.overlay.world };
              };
            },
          )
    unfolding leave_network
    leave_network-lost now s h =
        let g = record s.overlay.manager { world = s.overlay.world } in
        let unmanaged = subst (λ k. contains k g.node_registry ≡ false) (sym h.0) h.1.2 in
        ground (
          arith,
          send_each-lost id env (create_leave_notification now) s.overlay.world.node.peer_ids
              s.overlay.world h.1.0,
          remove_node-unmanaged id env s.node_id true g h.1.1 unmanaged,
        )

    -- The node after it stopped.
    abbrev stopped : SimulatedNode → SimulatedNode
    stopped s =
        let w = s.overlay.world in
        record s {
          running = false;
          overlay = record s.overlay {
            world = record w { network = stop_server w.network };
            manager = record s.overlay.manager { world = w };
          };
        }

    stop-stopped :
        (now : TimePoint) (s : SimulatedNode)
        → IsSoundNode id s
        → stop env now s ≡ ok (tt, if s.running then stopped s else s)
    unfolding stop
    stop-stopped now s h = ground (arith, leave_network-lost now (record s { running = false }) h)

    stopped-IsSoundNode : (s : SimulatedNode) → IsSoundNode id s → IsSoundNode id (stopped s)
    stopped-IsSoundNode s h = (
      h.0,
      (
        with_network id s.overlay.world (stop_server s.overlay.world.network) h.1.0
            (stop_server-IsSilent s.overlay.world.network h.1.0.silent),
        h.1.1,
        h.1.2,
      ),
    )

    -- stop always returns: the node does not run, and if it ran its server is stopped; its identifier,
    -- its peers and its topology are as before.
    pub stop-ends :
        (now : TimePoint) (s : SimulatedNode)
        → IsSoundNode id s
        → (u : SimulatedNode) × (stop env now s ≡ ok (tt, u))
          × (u.running ≡ false)
          × (s.running ≡ true → u.overlay.world.network.server_running ≡ false)
          × (u.overlay.world.node ≡ s.overlay.world.node)
          × (u.overlay.world.topology ≡ s.overlay.world.topology)
          × IsSoundNode id u
    stop-ends now s h =
        let r = stop-stopped now s h in
        elim (Bool-cases s.running) [
          | inl runs ↦ (
            stopped s,
            ground (arith, r),
            refl,
            λ _. stop_server-running s.overlay.world.network,
            refl,
            refl,
            stopped-IsSoundNode s h,
          )
          | inr rests ↦
              (s, ground (arith, r), rests, λ runs. absurd (cc (runs, rests)), refl, refl, h)
        ]

-- A new node is sound.
pub new_simulated_node-IsSound :
    (hostname : Option String) (id : NodeId) (port : ℕ) (now : TimePoint)
    → (n : SimulatedNode) × (new_simulated_node hostname id port now ≡ ok n)
      × (n.running ≡ false)
      × IsSoundNode id n
unfolding new_simulated_node
new_simulated_node-IsSound hostname id port now =
    let address = local_address hostname port in
    let (o, made, stable) = new_overlay-IsStable id address now in
    (
      record { node_id = id; address = address; running = false; overlay = o },
      ground (arith, made),
      refl,
      (refl, stable),
    )
