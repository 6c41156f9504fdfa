-- ===== src/Registration/Joining.antt =====
-- How the local node registers itself in src/NodeRegistration.cpp.
use peer_to_peer_network_ove.Prelude.{if◌then◌else◌, Bool, true, false, not}
use peer_to_peer_network_ove.Common.{NetworkAddress, TimePoint}
use peer_to_peer_network_ove.Outcome.{Action, ok, ◌>>=◌}
use peer_to_peer_network_ove.Network.{Poco, connect_to_peer}
use peer_to_peer_network_ove.Topology
use peer_to_peer_network_ove.World.{on_topology, on_network}
use peer_to_peer_network_ove.Prelude.{◌/◌}
use peer_to_peer_network_ove.Registration.State.{
  pending, registered, rejected, failed, RegistrationRequest, Registration, registration_success,
  registration_failed, in_world, tell, set_status,
}
use peer_to_peer_network_ove.Registration.Checks.{validate_address, validate_registration_request}

module _ (env : Poco) where
  -- What follows the connection in registerWithNetwork.
  unfoldable pub finish_registration : Bool → Action Registration Bool
  finish_registration false r = ok (
    false,
    tell r.on_registration_failed (registration_failed "Connection to bootstrap node failed")
        (set_status failed r),
  )
  finish_registration true r =
      let node = r.world.node in
      (do
        added ← in_world (on_topology (Topology.add_node node.node_id node.address))
        λ s. ok (
          true,
          tell s.on_registration_success (registration_success node.node_id node.address) s,
        ))
        (set_status registered r)

  unfoldable pub register_with_network : NetworkAddress → Action Registration Bool
  unfolding finish_registration
  register_with_network bootstrap = do
    connected ← in_world (on_network (connect_to_peer env bootstrap))
    finish_registration connected

  -- performRegistrationHandshake connects to the target.
  unfoldable pub perform_registration_handshake : NetworkAddress → Action Registration Bool
  perform_registration_handshake target = in_world (on_network (connect_to_peer env target))

  -- The request that registerWithNode makes about the node itself.
  abbrev pub own_request : TimePoint → Registration → RegistrationRequest
  own_request now r = record {
    node_id = r.world.node.node_id;
    address = r.world.node.address;
    node_info = "";
    timestamp = now / 1000000;
    status = pending;
  }

  -- What follows the handshake in registerWithNode.
  unfoldable pub finish_handshake : Bool → Action Registration Bool
  finish_handshake false r = ok (
    false,
    tell r.on_registration_failed (registration_failed "Registration handshake failed")
        (set_status failed r),
  )
  finish_handshake true r = ok (
    true,
    tell r.on_registration_success (registration_success r.world.node.node_id r.world.node.address)
        (set_status registered r),
  )

  -- What follows the validation in registerWithNode.
  unfoldable pub shake_hands : NetworkAddress → Bool → Action Registration Bool
  unfolding perform_registration_handshake finish_handshake
  shake_hands target false r = ok (false, set_status rejected r)
  shake_hands target true r =
      (do connected ← perform_registration_handshake target; finish_handshake connected) r

  unfoldable pub register_with_node : NetworkAddress → TimePoint → Action Registration Bool
  unfolding validate_address shake_hands
  register_with_node target now r =
      if not (validate_address target r)
      then ok (false, set_status failed r)
      else (do
        valid ← validate_registration_request (own_request now r) now
        shake_hands target valid)
          r
