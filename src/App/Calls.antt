-- ===== src/App/Calls.antt =====
-- The calls of main (src/main.cpp) keep the managers stable: its start, a round of its loop, and a
-- message that arrives.
use peer_to_peer_network_ove.Prelude.{
  subst, sym, ℕ, if◌then◌else◌, Bool, true, false, Option, none, some, List, [], ◌∷◌,
}
use peer_to_peer_network_ove.Prelude.Int.{pos}
use peer_to_peer_network_ove.Common.{
  NodeId, NetworkAddress, Message, TimePoint, heartbeat_interval_sec,
}
use peer_to_peer_network_ove.Outcome.{ok, ret, ◌>>=◌, ◌>>◌}
use peer_to_peer_network_ove.Outcome.Holds.{Keeps, >>=-Keeps, Holds-if}
use peer_to_peer_network_ove.Network.{Poco, start_server}
use peer_to_peer_network_ove.Network.Isolation.{IsSilent, start_server-IsSilent}
use peer_to_peer_network_ove.World.{World, on_network}
use peer_to_peer_network_ove.World.Isolation.{on_network-Keeps}
use peer_to_peer_network_ove.Overlay.{in_world, in_registration, in_manager, is_over}
use peer_to_peer_network_ove.Overlay.Settled
use peer_to_peer_network_ove.Discovery.{Discovery, discover_network, start_periodic_discovery}
use peer_to_peer_network_ove.Discovery.Isolation.{discover_network-Keeps}
use peer_to_peer_network_ove.Registration.{register_with_network}
use peer_to_peer_network_ove.Registration.Isolation.{register_with_network-Keeps}
use peer_to_peer_network_ove.Manager.{Manager, maintain_network_integrity, start_failure_detection}
use peer_to_peer_network_ove.Manager.Upkeep.{maintain_network_integrity-Keeps}
use peer_to_peer_network_ove.Handler.{create_heartbeat, process_message}
use peer_to_peer_network_ove.Handler.Isolation.{process_message-Keeps}
use peer_to_peer_network_ove.Router.{update_routing_table}
use peer_to_peer_network_ove.Router.Isolation.{update_routing_table-Keeps}
use peer_to_peer_network_ove.Reliable.{
  Reliable, send_reliable_message, retry_pending_messages, cleanup_acknowledged_messages,
}
use peer_to_peer_network_ove.Reliable.Isolation.{
  send_reliable_message-network, retry_pending_messages-IsSilent,
}
use peer_to_peer_network_ove.Exchange.{cleanup_completed_transfers}
use peer_to_peer_network_ove.Exchange.State.{Exchange}
use peer_to_peer_network_ove.App.State.Stable.{
  IsStableApp, in_overlay-Keeps, in_router-Keeps, in_exchange-Keeps, in_reliable-Keeps,
  in_discovery-Keeps,
}
use peer_to_peer_network_ove.App.Options.Stable.{ignore-Keeps, manager-Keeps}
use peer_to_peer_network_ove.App.{
  App, Arguments, LoopTimers, in_overlay, in_discovery, in_router, in_exchange, in_reliable, world,
  ignore, join_bootstrap, begin_services, start_up, send_reliably, beat, update_routes, maintain,
  clean_up, main_round, receive,
}

module _ (id : NodeId) (env : Poco) where
  abbrev P : App → Type 0
  P = IsStableApp id

  join_bootstrap-Keeps :
      (bootstrap : Option NetworkAddress) (now : TimePoint)
      → Keeps P (join_bootstrap env bootstrap now)
  unfolding join_bootstrap
  join_bootstrap-Keeps none now = λ s h. h
  join_bootstrap-Keeps (some a) now =
      let discover = in_discovery env now (discover_network env (a ∷ []) now) in
      let register = in_overlay (in_registration (register_with_network env a)) in
      >>=-Keeps P (ignore discover) (λ _. ignore register)
        (ignore-Keeps id discover (
          in_discovery-Keeps id env now (discover_network env (a ∷ []) now)
            (discover_network-Keeps id env (a ∷ []) now)))
        (λ _. ignore-Keeps id register (
          in_overlay-Keeps id (in_registration (register_with_network env a)) (
            Settled.in_registration-Keeps id (register_with_network env a)
              (register_with_network-Keeps id env a))))

  begin_services-Keeps :
      (args : Arguments) (now : TimePoint) (started : Bool)
      → Keeps P (begin_services env args now started)
  unfolding begin_services
  begin_services-Keeps args now false = λ s h. h
  begin_services-Keeps args now true =
      let detect = λ (g : Manager). ok (tt, start_failure_detection g) in
      let periodic = λ (d : Discovery). ok (tt, start_periodic_discovery d) in
      let last = in_discovery env now periodic >> ret true in
      >>=-Keeps P (join_bootstrap env args.bootstrap now)
        (λ _. in_overlay (in_manager detect) >> last) (join_bootstrap-Keeps args.bootstrap now)
        (λ _.
          >>=-Keeps P (in_overlay (in_manager detect)) (λ _. last)
            (manager-Keeps id detect (λ g h. h))
            (λ _.
              >>=-Keeps P (in_discovery env now periodic) (λ _. ret true)
                (in_discovery-Keeps id env now periodic (λ d h. h)) (λ _ s h. h)))

  pub start_up-Keeps : (args : Arguments) (now : TimePoint) → Keeps P (start_up env args now)
  unfolding start_up
  start_up-Keeps args now =
      let start = in_world (on_network (start_server env args.port)) in
      >>=-Keeps P (in_router (update_routing_table now))
        (λ _. in_overlay start >>= begin_services env args now)
        (in_router-Keeps id (update_routing_table now) (update_routing_table-Keeps id now))
        (λ _.
          >>=-Keeps P (in_overlay start) (begin_services env args now)
            (in_overlay-Keeps id start (
              Settled.in_world-Keeps id (on_network (start_server env args.port)) (
                on_network-Keeps id (start_server env args.port)
                  (start_server-IsSilent env args.port))))
            (begin_services-Keeps args now))

  send-Keeps :
      (target : NodeId) (m : Message) (k : ℕ) (now : TimePoint)
      → Keeps P (in_reliable (send_reliable_message env target m k now))
  send-Keeps target m k now =
      in_reliable-Keeps id (send_reliable_message env target m k now)
        (λ r q. subst IsSilent (sym (send_reliable_message-network env now target m k r q)) q)

  pub send_reliably-Keeps :
      (make : NodeId → World → Message) (draw : NodeId → ℕ) (now : TimePoint) (peers : List NodeId)
      → Keeps P (send_reliably env make draw now peers)
  unfolding send_reliably
  send_reliably-Keeps make draw now [] = λ s h. h
  send_reliably-Keeps make draw now (peer ∷ peers) =
      >>=-Keeps P
        (λ s. in_reliable (send_reliable_message env peer (make peer (world s)) (draw peer) now) s)
        (λ _. send_reliably env make draw now peers)
        (λ s h. send-Keeps peer (make peer (world s)) (draw peer) now s h)
        (λ _. send_reliably-Keeps make draw now peers)

  beat-Keeps : (due : Bool) (draw : NodeId → ℕ) (now : TimePoint) → Keeps P (beat env due draw now)
  unfolding beat
  beat-Keeps false draw now s h = h
  beat-Keeps true draw now s h =
      send_reliably-Keeps (create_heartbeat now) draw now (world s).node.peer_ids s h

  update_routes-Keeps : (due : Bool) (now : TimePoint) → Keeps P (update_routes env due now)
  unfolding update_routes
  update_routes-Keeps false now = λ s h. h
  update_routes-Keeps true now =
      in_router-Keeps id (update_routing_table now) (update_routing_table-Keeps id now)

  maintain-Keeps : (due : Bool) (now : TimePoint) → Keeps P (maintain env due now)
  unfolding maintain
  maintain-Keeps false now = λ s h. h
  maintain-Keeps true now =
      ignore-Keeps id (in_overlay (in_manager (maintain_network_integrity env now))) (
        manager-Keeps id (maintain_network_integrity env now)
          (maintain_network_integrity-Keeps id env now))

  clean_up-Keeps : (due : Bool) (now : TimePoint) → Keeps P (clean_up env due now)
  unfolding clean_up cleanup_acknowledged_messages cleanup_completed_transfers
  clean_up-Keeps false now = λ s h. h
  clean_up-Keeps true now =
      let clean : Reliable → Unit {0} × Reliable =
        λ r. (tt, cleanup_acknowledged_messages (pos 300) now r) in
      let retry : Reliable → Unit {0} × Reliable =
        λ r. (tt, retry_pending_messages env (pos 30) (pos 3) now r) in
      let transfers = λ (x : Exchange). ok (tt, cleanup_completed_transfers (pos 3600) now x) in
      >>=-Keeps P (in_reliable clean) (λ _. in_reliable retry >> in_exchange transfers)
        (in_reliable-Keeps id clean (λ r h. h))
        (λ _.
          >>=-Keeps P (in_reliable retry) (λ _. in_exchange transfers)
            (in_reliable-Keeps id retry (retry_pending_messages-IsSilent env now (pos 30) (pos 3)))
            (λ _. in_exchange-Keeps id transfers (λ x h. h)))

  pub main_round-Keeps :
      (draw : NodeId → ℕ) (steady now : TimePoint) (timers : LoopTimers)
      → Keeps P (main_round env draw steady now timers)
  unfolding main_round
  main_round-Keeps draw steady now timers s h =
      let b = is_over heartbeat_interval_sec steady timers.last_heartbeat in
      let u = is_over (pos 30) steady timers.last_routing_update in
      let m = is_over (pos 60) steady timers.last_maintenance in
      let c = is_over (pos 300) steady timers.last_cleanup in
      let next : LoopTimers = record {
        last_heartbeat = if b then steady else timers.last_heartbeat;
        last_routing_update = if u then steady else timers.last_routing_update;
        last_maintenance = if m then steady else timers.last_maintenance;
        last_cleanup = if c then steady else timers.last_cleanup;
      } in
      let cleaning = clean_up env c now >> ret next in
      let maintaining = maintain env m now >> cleaning in
      Holds-if P s.running _ (ok (timers, s))
        (>>=-Keeps P (beat env b draw now) (λ _. update_routes env u now >> maintaining)
          (beat-Keeps b draw now)
          (λ _.
            >>=-Keeps P (update_routes env u now) (λ _. maintaining) (update_routes-Keeps u now)
              (λ _.
                >>=-Keeps P (maintain env m now) (λ _. cleaning) (maintain-Keeps m now)
                  (λ _.
                    >>=-Keeps P (clean_up env c now) (λ _. ret next) (clean_up-Keeps c now)
                      (λ _ t q. q))))
          s h)
        h

  pub receive-Keeps : (m : Message) (now : TimePoint) → Keeps P (receive env m now)
  unfolding receive
  receive-Keeps m now =
      in_overlay-Keeps id (in_world (process_message env now m))
        (Settled.in_world-Keeps id (process_message env now m) (process_message-Keeps id env now m))
