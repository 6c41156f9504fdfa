-- ===== src/App/History.antt =====
-- The histories of the program (src/main.cpp): its start, and then rounds of the main loop, choices in
-- the menu and messages that arrive, in any order, as long as each of them returns.
use peer_to_peer_network_ove.Prelude.{contains, ◌≡◌, ◌≤◌, ℕ, true, false, Option, String, List, []}
use peer_to_peer_network_ove.Prelude.Int.{ℤ}
use peer_to_peer_network_ove.Common.{NodeId, Message, TimePoint, max_peers}
use peer_to_peer_network_ove.Outcome.{Outcome, ok, fault}
use peer_to_peer_network_ove.Outcome.Holds.{Holds-ok}
use peer_to_peer_network_ove.Node.{get_peer_count}
use peer_to_peer_network_ove.Network.{Poco}
use peer_to_peer_network_ove.Topology.Graph.{has_edge}
use peer_to_peer_network_ove.Overlay.{local_address}
use peer_to_peer_network_ove.Overlay.Settled.{new_overlay-IsStable}
use peer_to_peer_network_ove.Exchange.State.{DataChunk}
use peer_to_peer_network_ove.App.State.Stable.{IsStableApp}
use peer_to_peer_network_ove.App.{
  App, Answers, Arguments, LoopTimers, app_of, new_app, start_up, main_round, receive,
  handle_main_menu_option, world,
}
use peer_to_peer_network_ove.App.Calls.{start_up-Keeps, main_round-Keeps, receive-Keeps}
use peer_to_peer_network_ove.App.Menu.{handle_main_menu_option-Keeps}
use peer_to_peer_network_ove.Prelude.{subst}
use peer_to_peer_network_ove.Prelude.{arith}

-- What main is started with: what DNS::hostName returns, the identifier it draws, and the arguments.
pub record Launch : Type 0 where
  pub hostname : Option String
  pub id : NodeId
  pub arguments : Arguments
  pub born : TimePoint

-- All timers are set before the loop.
abbrev pub started_at : TimePoint → LoopTimers
started_at steady = record {
  last_heartbeat = steady;
  last_routing_update = steady;
  last_maintenance = steady;
  last_cleanup = steady;
}

module _ (env : Poco) (object_bytes : DataChunk → List ℕ) (launch : Launch) where
  -- The states of the program after its start; what runs while `running` is true are the loop of main
  -- and the menu.
  pub data Reaches : LoopTimers → App → Type 0 where
    starts :
        (s u : App) (steady now : TimePoint)
        → new_app launch.hostname launch.id launch.arguments.port launch.born ≡ ok s
        → start_up env launch.arguments now s ≡ ok (true, u)
        → Reaches (started_at steady) u
    rounds :
        (t v : LoopTimers) (s u : App) (draw : NodeId → ℕ) (steady now : TimePoint)
        → Reaches t s
        → main_round env draw steady now t s ≡ ok (v, u)
        → Reaches v u
    chooses :
        (t : LoopTimers) (s u : App) (now : TimePoint) (option : ℤ) (inputs : List (ℤ × Answers))
        → Reaches t s
        → s.running ≡ true
        → handle_main_menu_option env object_bytes now option inputs s ≡ ok (tt, u)
        → Reaches t u
    receives :
        (t : LoopTimers) (s u : App) (m : Message) (now : TimePoint)
        → Reaches t s
        → receive env m now s ≡ ok (tt, u)
        → Reaches t u

  -- If the objects are made, they are stable.
  abbrev IsMade : Outcome App → Type 0
  IsMade (ok s) = IsStableApp launch.id s
  IsMade (fault e) = Unit {0}

  new_app-IsStable :
      (s : App)
      → new_app launch.hostname launch.id launch.arguments.port launch.born ≡ ok s
      → IsStableApp launch.id s
  unfolding new_app
  new_app-IsStable s e =
      let address = local_address launch.hostname launch.arguments.port in
      let (o, made, stable) = new_overlay-IsStable launch.id address launch.born in
      subst IsMade {x = ok (app_of o)} {y = ok s} (ground (arith, made)) stable

  pub reached-IsStable : {t : LoopTimers} {s : App} → Reaches t s → IsStableApp launch.id s
  reached-IsStable (starts s u steady now made started) =
      Holds-ok (IsStableApp launch.id) true u
        (start_up-Keeps launch.id env launch.arguments now s (new_app-IsStable s made)) started
  reached-IsStable (rounds t v s u draw steady now before round) =
      Holds-ok (IsStableApp launch.id) v u
        (main_round-Keeps launch.id env draw steady now t s (reached-IsStable before)) round
  reached-IsStable (chooses t s u now option inputs before running chosen) =
      Holds-ok (IsStableApp launch.id) tt u
        (handle_main_menu_option-Keeps launch.id env object_bytes now option inputs s
          (reached-IsStable before))
        chosen
  reached-IsStable (receives t s u m now before received) =
      Holds-ok (IsStableApp launch.id) tt u
        (receive-Keeps launch.id env m now s (reached-IsStable before)) received

  -- In every state that the program reaches, whatever the user types and whatever arrives, nothing was
  -- ever handed to a socket, no connection is open, the topology has no edge, the node has at most
  -- MAX_PEERS peers, and its manager does not manage the node itself.
  pub reached-isolated :
      {t : LoopTimers} {s : App}
      → Reaches t s
      → ((world s).network.sent_bytes ≡ [])
        × ((world s).network.active_connections ≡ [])
        × ((u v : NodeId) → has_edge (world s).topology.adjacency_list u v ≡ false)
        × (get_peer_count (world s).node ≤ max_peers)
        × (contains launch.id s.overlay.manager.node_registry ≡ false)
  unfolding get_peer_count
  reached-isolated r =
      let h = (reached-IsStable r).0 in
      (h.silent.1, h.silent.0, h.idle.quiet.no_edge, h.peers.bounded, (reached-IsStable r).2)
