-- ===== src/Registration/Checks.antt =====
-- The validation of a request in src/NodeRegistration.cpp.
use text.Mathlib.Text.{◌==◌ as str_eq}
use peer_to_peer_network_ove.Prelude.{
  ◌*◌, ◌==◌, ltb, if◌then◌else◌, Bool, true, false, not, ◌&&◌, ◌||◌,
}
use peer_to_peer_network_ove.Prelude.Int.{pos, ltb_ℤ}
use peer_to_peer_network_ove.Common.{NodeId, NetworkAddress, address_eq, TimePoint, elapsed_seconds}
use peer_to_peer_network_ove.Outcome.{Action, ok, ret, ◌>>=◌}
use peer_to_peer_network_ove.Topology
use peer_to_peer_network_ove.World.{on_topology}
use peer_to_peer_network_ove.Registration.State.{RegistrationRequest, Registration, in_world}

unfoldable pub validate_node_id : NodeId → Registration → Bool
validate_node_id k r = not (k == 0) && not (k == r.world.node.node_id)

unfoldable pub validate_address : NetworkAddress → Registration → Bool
validate_address a r =
    if str_eq a.host "" || a.port == 0
    then false
    else if ltb a.port 1024 || ltb 65535 a.port
    then false
    else if address_eq a r.world.node.address
    then false
    else true

-- The request's timestamp, in milliseconds, against the clock: more than a minute old. The overflow
-- of time_point is not modelled.
abbrev pub is_too_old : RegistrationRequest → TimePoint → Bool
is_too_old request now = ltb_ℤ (pos 60) (elapsed_seconds now (request.timestamp * 1000000))

unfoldable pub validate_registration_request :
    RegistrationRequest → TimePoint → Action Registration Bool
unfolding validate_node_id validate_address
validate_registration_request request now r =
    if not (validate_node_id request.node_id r)
    then ok (false, r)
    else if not (validate_address request.address r)
    then ok (false, r)
    else (do
      exists ← in_world (on_topology (Topology.node_exists request.node_id))
      ret (if exists then false else not (is_too_old request now)))
        r
