-- ===== src/App/Options.antt =====
-- The menu handlers of src/main.cpp: what each option does, for the answers that the user types.
-- Output is left out; a query that it prints is made where it locks a mutex, and left out where it
-- only reads.
pub mod Stable
use text.Mathlib.Text.{◌==◌ as str_eq}
use peer_to_peer_network_ove.Prelude.{
  ℕ, zero, suc, ◌==◌, ◌/◌, if◌then◌else◌, Bool, true, false, String, List, [], ◌∷◌,
}
use peer_to_peer_network_ove.Prelude.Int.{ℤ, pos, negsuc}
use peer_to_peer_network_ove.Common.{
  NodeId, NetworkAddress, Message, TimePoint, max_peers, node_timeout_sec, data_message,
}
use peer_to_peer_network_ove.Outcome.{Outcome, Action, ok, fault, ret, ◌>>=◌, ◌>>◌}
use peer_to_peer_network_ove.Network.{Poco}
use peer_to_peer_network_ove.Topology
use peer_to_peer_network_ove.World.{World, on_topology}
use peer_to_peer_network_ove.Overlay.{Overlay, in_world, in_registration, in_manager}
use peer_to_peer_network_ove.Discovery.{
  discover_network, discover_peers, get_discovered_nodes, start_periodic_discovery,
  stop_periodic_discovery,
}
use peer_to_peer_network_ove.Registration.{register_with_network, register_with_node}
use peer_to_peer_network_ove.Manager.{
  add_node, remove_node, get_all_node_info, get_node_info, detect_failed_nodes, get_failed_nodes,
  maintain_network_integrity, get_active_node_count, get_failed_node_count,
}
use peer_to_peer_network_ove.Router.{
  route_message, flood_message, get_routing_table, update_routing_table, is_reachable,
  get_hop_count,
}
use peer_to_peer_network_ove.Router.State.{RoutingStrategy, direct, shortest_path}
use peer_to_peer_network_ove.Reliable.{send_reliable_message, retry_pending_messages}
use peer_to_peer_network_ove.Exchange.{send_data, cancel_transfer}
use peer_to_peer_network_ove.Exchange.State.{DataChunk}
use peer_to_peer_network_ove.App.State.{
  App, in_overlay, in_discovery, in_router, in_exchange, in_reliable, world,
}

-- The answers to the questions that an option asks, and the random number that it draws.
pub record Answers : Type 0 where
  pub host : String
  pub port : ℕ
  pub node_id : NodeId
  pub graceful : ℤ
  pub text : List ℕ
  pub size : ℕ
  pub data_type : String
  pub id : ℕ
  pub random : ℕ

-- `option == k`.
abbrev pub is_option : ℕ → ℤ → Bool
is_option k (pos n) = n == k
is_option k (negsuc n) = false

abbrev pub nothing : Action App (Unit {0})
nothing = ret tt

abbrev pub ignore : {A : Type 0} → Action App A → Action App (Unit {0})
ignore m = m >>= λ _. ret tt

abbrev pub asked_address : Answers → NetworkAddress
asked_address a = record { host = a.host; port = a.port }

-- getNodeAddress for each node of a list.
pub addresses : List NodeId → Action App (Unit {0})
addresses [] = nothing
addresses (k ∷ ks) =
    let rest = addresses ks in
    do address ← in_overlay (in_world (on_topology (Topology.get_node_address k))); rest

-- The message of the local node that main makes of a line.
abbrev pub text_message : NodeId → List ℕ → TimePoint → App → Message
text_message target text now s = record {
  type = data_message;
  sender_id = (world s).node.node_id;
  receiver_id = target;
  payload = text;
  timestamp = now / 1000000;
}

module _ (env : Poco) (now : TimePoint) where
  unfoldable pub handle_discovery_option : ℤ → Answers → Action App (Unit {0})
  unfolding addresses
  handle_discovery_option option a =
      if is_option 1 option
      then ignore (in_discovery env now (discover_network env (asked_address a ∷ []) now))
      else if is_option 2 option
      then (do peers ← in_discovery env now (discover_peers (pos max_peers) now); addresses peers)
      else if is_option 3 option
      then (λ s. addresses (get_discovered_nodes s.overlay.discovery) s)
      else if is_option 4 option
      then in_discovery env now (λ d. ok (tt, start_periodic_discovery d))
      else if is_option 5 option
      then in_discovery env now (λ d. ok (tt, stop_periodic_discovery d))
      else nothing

  -- registerWithNode, for an address whose port is not 0.
  pub register_known : NetworkAddress → Action App (Unit {0})
  register_known address =
      if address.port == 0
      then nothing
      else ignore (in_overlay (in_registration (register_with_node env address now)))

  -- Options 3 and 4 only print.
  unfoldable pub handle_registration_option : ℤ → Answers → Action App (Unit {0})
  unfolding register_known
  handle_registration_option option a =
      if is_option 1 option
      then ignore (in_overlay (in_registration (register_with_network env (asked_address a))))
      else if is_option 2 option
      then (do
        address ← in_overlay (in_world (on_topology (Topology.get_node_address a.node_id)))
        register_known address)
      else nothing

  unfoldable pub handle_node_management_option : ℤ → Answers → Action App (Unit {0})
  handle_node_management_option option a =
      if is_option 1 option
      then ignore (
          in_overlay (
            in_manager (
              add_node env (if a.node_id == 0 then a.random else a.node_id) (asked_address a) now)))
      else if is_option 2 option
      then ignore (in_overlay (in_manager (remove_node env a.node_id (is_option 1 a.graceful))))
      else if is_option 3 option
      then ignore (in_overlay (in_manager get_all_node_info))
      else if is_option 4 option
      then ignore (in_overlay (in_manager (get_node_info a.node_id)))
      else if is_option 5 option
      then ignore (
          in_overlay
            (in_manager (do detect_failed_nodes env node_timeout_sec now; get_failed_nodes)))
      else if is_option 6 option
      then ignore (in_overlay (in_manager (maintain_network_integrity env now)))
      else if is_option 7 option
      then (do
        active ← in_overlay (in_manager get_active_node_count)
        failed ← in_overlay (in_manager get_failed_node_count)
        size ← in_overlay (in_world (on_topology Topology.get_network_size))
        nothing)
      else nothing

  -- Options 1 and 2 send by different strategies; option 3 asks for no target.
  unfoldable pub handle_routing_option : ℤ → Answers → Action App (Unit {0})
  handle_routing_option option a =
      if is_option 1 option
      then (λ s.
          ignore
            (in_router (route_message env (text_message a.node_id a.text now s) shortest_path now))
            s)
      else if is_option 2 option
      then (λ s.
          ignore (in_router (route_message env (text_message a.node_id a.text now s) direct now)) s)
      else if is_option 3 option
      then (λ s. ignore (in_router (flood_message env (text_message 0 a.text now s) now)) s)
      else if is_option 4 option
      then ignore (in_router get_routing_table)
      else if is_option 5 option
      then in_router (update_routing_table now)
      else if is_option 6 option
      then (do
        reachable ← in_router (is_reachable a.node_id)
        if reachable then ignore (in_router (get_hop_count a.node_id)) else nothing)
      else nothing

  -- Options 2 and 4 only print.
  unfoldable pub handle_reliable_messaging_option : ℤ → Answers → Action App (Unit {0})
  handle_reliable_messaging_option option a =
      if is_option 1 option
      then (λ s.
          ignore
            (in_reliable (
              send_reliable_message env a.node_id (text_message a.node_id a.text now s) a.random
                now))
            s)
      else if is_option 3 option
      then in_reliable (λ r. (tt, retry_pending_messages env (pos 30) (pos 3) now r))
      else nothing

  -- `std::vector<uint8_t> data(dataSize, 0x42)`.
  pub sample : ℕ → List ℕ
  sample zero = []
  sample (suc n) = 66 ∷ sample n

  -- The other options only print. An empty data type is "generic".
  unfoldable pub handle_data_exchange_option :
      (DataChunk → List ℕ) → ℤ → Answers → Action App (Unit {0})
  unfolding sample
  handle_data_exchange_option object_bytes option a =
      if is_option 1 option
      then ignore (
          in_exchange (
            send_data env object_bytes now a.node_id (sample a.size)
              (if str_eq a.data_type "" then "generic" else a.data_type) a.random))
      else if is_option 3 option
      then ignore (in_exchange (λ x. ok (cancel_transfer a.id x)))
      else nothing
