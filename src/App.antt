-- ===== src/App.antt =====
-- src/main.cpp: the program, from its start to its end. The loop of main is one call for each round,
-- a choice in the menu is one call, and so is a message that arrives; the threads take turns.
pub mod Calls
pub mod Menu
pub mod History
pub mod Ending
pub mod Upkeep
pub mod Callback
mod State
mod Options
unfoldable pub use State.*
unfoldable pub use Options.*
use peer_to_peer_network_ove.Prelude.{
  ℕ, ◌==◌, if◌then◌else◌, Bool, true, false, Option, none, some, String, List, [], ◌∷◌,
}
use peer_to_peer_network_ove.Prelude.Int.{ℤ, pos}
use peer_to_peer_network_ove.Common.{
  NodeId, NetworkAddress, Message, TimePoint, heartbeat_interval_sec,
}
use peer_to_peer_network_ove.Outcome.{Outcome, Action, ok, fault, ret, ◌>>=◌, ◌>>◌}
use peer_to_peer_network_ove.Network.{Poco, start_server, stop_server}
use peer_to_peer_network_ove.Node.{set_active}
use peer_to_peer_network_ove.World.{World, on_network}
use peer_to_peer_network_ove.Overlay.{
  Overlay, new_overlay, local_address, is_over, in_world, in_registration, in_manager,
}
use peer_to_peer_network_ove.Discovery.{
  discover_network, start_periodic_discovery, stop_periodic_discovery,
}
use peer_to_peer_network_ove.Registration.{register_with_network}
use peer_to_peer_network_ove.Manager.{
  remove_node_gracefully, maintain_network_integrity, start_failure_detection,
  stop_failure_detection,
}
use peer_to_peer_network_ove.Handler.{create_leave_notification, create_heartbeat, process_message}
use peer_to_peer_network_ove.Router.{update_routing_table}
use peer_to_peer_network_ove.Router.State.{new_router}
use peer_to_peer_network_ove.Reliable.{
  new_reliable, send_reliable_message, retry_pending_messages, cleanup_acknowledged_messages,
}
use peer_to_peer_network_ove.Exchange.{cleanup_completed_transfers}
use peer_to_peer_network_ove.Exchange.State.{DataChunk, new_exchange}

-- The callbacks that main sets on the managers.
abbrev pub with_callbacks : Overlay → Overlay
with_callbacks o = record o {
  discovery = record o.discovery { on_peer_discovered = true };
  registration = record o.registration { on_registration_success = true };
  manager = record o.manager {
    on_node_added = true;
    on_node_removed = true;
    on_node_failed = true;
    on_network_repaired = true;
  };
}

-- The objects that main makes, with their callbacks.
abbrev pub app_of : Overlay → App
app_of o =
    let router = new_router o.world in
    record {
      overlay = with_callbacks o;
      router = router;
      reliable = record (new_reliable o.world.network) {
        on_message_delivered = true;
        on_message_failed = true;
      };
      exchange = record (new_exchange router) {
        on_data_received = true;
        on_transfer_complete = true;
        on_transfer_progress = true;
      };
      running = true;
    }

-- The times that the loop of main keeps.
pub record LoopTimers : Type 0 where
  pub last_heartbeat : TimePoint
  pub last_routing_update : TimePoint
  pub last_maintenance : TimePoint
  pub last_cleanup : TimePoint

-- The command line after the program's name: the bootstrap node, if two more arguments are given.
pub record Arguments : Type 0 where
  pub port : ℕ
  pub bootstrap : Option NetworkAddress

module _ (env : Poco) where
  -- discoverNetwork and registerWithNetwork, where there is a bootstrap node.
  unfoldable pub join_bootstrap : Option NetworkAddress → TimePoint → Action App (Unit {0})
  join_bootstrap none now = ret tt
  join_bootstrap (some address) now = do
    ignore (in_discovery env now (discover_network env (address ∷ []) now))
    ignore (in_overlay (in_registration (register_with_network env address)))

  -- What follows startServer: main ends if it failed.
  unfoldable pub begin_services : Arguments → TimePoint → Bool → Action App Bool
  unfolding join_bootstrap
  begin_services args now false = ret false
  begin_services args now true = do
    join_bootstrap args.bootstrap now
    in_overlay (in_manager (λ g. ok (tt, start_failure_detection g)))
    in_discovery env now (λ d. ok (tt, start_periodic_discovery d))
    ret true

  -- From the making of the routing table to the main loop; false if main returns 1.
  unfoldable pub start_up : Arguments → TimePoint → Action App Bool
  unfolding begin_services
  start_up args now = do
    in_router (update_routing_table now)
    started ← in_overlay (in_world (on_network (start_server env args.port)))
    begin_services args now started

  -- Reliable messages of one kind to each of the peers, for the identifiers that are drawn.
  unfoldable pub send_reliably :
      (NodeId → World → Message) → (NodeId → ℕ) → TimePoint → List NodeId → Action App (Unit {0})
  send_reliably make draw now [] = ret tt
  send_reliably make draw now (peer ∷ peers) =
      let rest = send_reliably make draw now peers in
      do
        id ← (λ s.
            in_reliable (send_reliable_message env peer (make peer (world s)) (draw peer) now) s)
        rest

  unfoldable pub beat : Bool → (NodeId → ℕ) → TimePoint → Action App (Unit {0})
  unfolding send_reliably
  beat false draw now s = ok (tt, s)
  beat true draw now s = send_reliably (create_heartbeat now) draw now (world s).node.peer_ids s

  unfoldable pub update_routes : Bool → TimePoint → Action App (Unit {0})
  update_routes false now = ret tt
  update_routes true now = in_router (update_routing_table now)

  unfoldable pub maintain : Bool → TimePoint → Action App (Unit {0})
  maintain false now = ret tt
  maintain true now = ignore (in_overlay (in_manager (maintain_network_integrity env now)))

  unfoldable pub clean_up : Bool → TimePoint → Action App (Unit {0})
  clean_up false now = ret tt
  clean_up true now = do
    in_reliable (λ r. (tt, cleanup_acknowledged_messages (pos 300) now r))
    in_reliable (λ r. (tt, retry_pending_messages env (pos 30) (pos 3) now r))
    in_exchange (λ x. ok (tt, cleanup_completed_transfers (pos 3600) now x))

  -- One round of the loop of main, by the steady and the system clock.
  unfoldable pub main_round :
      (NodeId → ℕ) → TimePoint → TimePoint → LoopTimers → Action App LoopTimers
  unfolding beat update_routes maintain clean_up
  main_round draw steady now timers s =
      let beats = is_over heartbeat_interval_sec steady timers.last_heartbeat in
      let updates = is_over (pos 30) steady timers.last_routing_update in
      let maintains = is_over (pos 60) steady timers.last_maintenance in
      let cleans = is_over (pos 300) steady timers.last_cleanup in
      let round = (do
        beat beats draw now
        update_routes updates now
        maintain maintains now
        clean_up cleans now
        ret (record {
          last_heartbeat = if beats then steady else timers.last_heartbeat;
          last_routing_update = if updates then steady else timers.last_routing_update;
          last_maintenance = if maintains then steady else timers.last_maintenance;
          last_cleanup = if cleans then steady else timers.last_cleanup;
        })) in
      if s.running then round s else ok (timers, s)

  -- From the end of the loop on.
  unfoldable pub shut_down : (NodeId → ℕ) → TimePoint → Action App (Unit {0})
  unfolding send_reliably
  shut_down draw now = do
    in_discovery env now (λ d. ok (tt, stop_periodic_discovery d))
    in_overlay (in_manager (λ g. ok (tt, stop_failure_detection g)))
    λ s. send_reliably (create_leave_notification now) draw now (world s).node.peer_ids s
    removed ← (λ s. in_overlay (in_manager (remove_node_gracefully env (world s).node.node_id)) s)
    in_overlay (in_world λ w. ok (tt, record w { network = stop_server w.network }))
    in_overlay (in_world λ w. ok (tt, record w { node = set_active w.node false }))

  -- The message callback that main sets.
  unfoldable pub receive : Message → TimePoint → Action App (Unit {0})
  receive m now = in_overlay (in_world (process_message env now m))

  -- The loop of a submenu, for what is typed: it ends with the option 0.
  unfoldable pub submenu :
      (ℤ → Answers → Action App (Unit {0})) → List (ℤ × Answers) → Action App (Unit {0})
  submenu handle [] = ret tt
  submenu handle ((option, a) ∷ inputs) =
      let rest = submenu handle inputs in
      do handle option a; if is_option 0 option then ret tt else rest

  unfoldable pub handle_main_menu_option :
      (DataChunk → List ℕ) → TimePoint → ℤ → List (ℤ × Answers) → Action App (Unit {0})
  unfolding submenu
  handle_main_menu_option object_bytes now option inputs =
      if is_option 1 option
      then submenu (handle_discovery_option env now) inputs
      else if is_option 2 option
      then submenu (handle_registration_option env now) inputs
      else if is_option 3 option
      then submenu (handle_node_management_option env now) inputs
      else if is_option 4 option
      then submenu (handle_routing_option env now) inputs
      else if is_option 5 option
      then submenu (handle_reliable_messaging_option env now) inputs
      else if is_option 6 option
      then submenu (handle_data_exchange_option env now object_bytes) inputs
      else if is_option 7 option
      then (λ s. ok (tt, record s { running = false }))
      else nothing

-- The making of all objects.
unfoldable pub new_app : Option String → NodeId → ℕ → TimePoint → Outcome App
new_app hostname id port now = elim (new_overlay id (local_address hostname port) now) [
  | fault e ↦ fault e
  | ok o ↦ ok (app_of o)
]
