-- ===== src/Simulator/Member.antt =====
-- SimulatedNode (include/NodeSimulator.h and src/NodeSimulator.cpp): one node with its managers and
-- its server. The thread's loop is one call for each round, and a message that arrives is a call too.
pub mod Sound
use peer_to_peer_network_ove.Prelude.{
  ℕ, ◌==◌, if◌then◌else◌, Bool, true, false, not, Option, String, List, [], ◌∷◌,
}
use peer_to_peer_network_ove.Prelude.Int.{ℤ, pos}
use peer_to_peer_network_ove.Common.{
  NodeId, NetworkAddress, Message, TimePoint, heartbeat_interval_sec,
}
use peer_to_peer_network_ove.Outcome.{Outcome, Action, ok, fault, ret, ◌>>=◌, ◌>>◌}
use peer_to_peer_network_ove.Network.{Poco, start_server, stop_server}
use peer_to_peer_network_ove.World.{on_network}
use peer_to_peer_network_ove.Discovery.{discover_network}
use peer_to_peer_network_ove.Registration.{register_with_network}
use peer_to_peer_network_ove.Manager.{remove_node, maintain_network_integrity}
use peer_to_peer_network_ove.Handler.{create_leave_notification, create_heartbeat, process_message}
use peer_to_peer_network_ove.Overlay.{
  Overlay, new_overlay, in_world, in_discovery, in_registration, in_manager, local_address, is_over,
  send_each,
}

pub record SimulatedNode : Type 0 where
  pub node_id : NodeId
  pub address : NetworkAddress
  pub running : Bool
  pub overlay : Overlay

-- The constructor, for what DNS::hostName returns.
unfoldable pub new_simulated_node : Option String → NodeId → ℕ → TimePoint → Outcome SimulatedNode
unfolding new_overlay
new_simulated_node hostname id port now =
    let address = local_address hostname port in
    elim (new_overlay id address now) [
      | fault e ↦ fault e
      | ok o ↦ ok (record { node_id = id; address = address; running = false; overlay = o })
    ]

abbrev pub in_overlay : {A : Type 0} → Action Overlay A → Action SimulatedNode A
in_overlay m s = elim (m s.overlay) [
  | fault e ↦ fault e
  | ok (a, o) ↦ ok (a, record s { overlay = o })
]

-- The times that nodeThreadFunction keeps.
pub record Timers : Type 0 where
  pub last_heartbeat : TimePoint
  pub last_maintenance : TimePoint

module _ (env : Poco) where
  -- What follows startServer in start.
  unfoldable pub finish_start : Bool → Action SimulatedNode Bool
  finish_start false s = ok (false, s)
  finish_start true s = ok (true, record s { running = true })

  unfoldable pub start : Action SimulatedNode Bool
  unfolding finish_start
  start s =
      if s.running
      then ok (false, s)
      else (do
        started ← in_overlay (in_world (on_network (start_server env s.address.port)))
        finish_start started)
          s

  -- What follows discoverNetwork in joinNetwork.
  unfoldable pub finish_join : NetworkAddress → Bool → Action Overlay Bool
  finish_join bootstrap false = ret false
  finish_join bootstrap true = in_registration (register_with_network env bootstrap)

  unfoldable pub join_network : NetworkAddress → TimePoint → Action SimulatedNode Bool
  unfolding finish_join
  join_network bootstrap now =
      if bootstrap.port == 0
      then ret true
      else in_overlay do
        discovered ← in_discovery (discover_network env (bootstrap ∷ []) now)
        finish_join bootstrap discovered

  unfoldable pub leave_network : TimePoint → Action SimulatedNode (Unit {0})
  unfolding send_each
  leave_network now s =
      (in_overlay do
        in_world λ w. send_each env (create_leave_notification now) w.node.peer_ids w
        removed ← in_manager (remove_node env s.node_id true)
        ret tt)
        s

  -- The server and the thread are stopped after the node left.
  unfoldable pub stop : TimePoint → Action SimulatedNode (Unit {0})
  unfolding leave_network
  stop now s =
      if s.running
      then (do
        leave_network now
        in_overlay (in_world λ w. ok (tt, record w { network = stop_server w.network })))
          (record s { running = false })
      else ok (tt, s)

  -- The heartbeats of one round.
  pub beat : Bool → TimePoint → Action Overlay (Unit {0})
  unfolding send_each
  beat false now = ret tt
  beat true now = in_world λ w. send_each env (create_heartbeat now) w.node.peer_ids w

  -- The maintenance of one round.
  pub maintain : Bool → TimePoint → Action Overlay (Unit {0})
  maintain false now = ret tt
  maintain true now = do done ← in_manager (maintain_network_integrity env now); ret tt

  -- One round of the loop of nodeThreadFunction, by the steady and the system clock.
  unfoldable pub thread_round : TimePoint → TimePoint → Timers → Action SimulatedNode Timers
  unfolding beat maintain
  thread_round steady now timers s =
      let beats = is_over heartbeat_interval_sec steady timers.last_heartbeat in
      let maintains = is_over (pos 60) steady timers.last_maintenance in
      if s.running
      then (in_overlay do
        beat beats now
        maintain maintains now
        ret (record {
          last_heartbeat = if beats then steady else timers.last_heartbeat;
          last_maintenance = if maintains then steady else timers.last_maintenance;
        }))
          s
      else ok (timers, s)

  -- The message callback that the constructor sets.
  unfoldable pub receive : Message → TimePoint → Action SimulatedNode (Unit {0})
  receive m now = in_overlay (in_world (process_message env now m))
