-- ===== src/Registration/Rejection.antt =====
-- registerWithNode of src/NodeRegistration.cpp.
use peer_to_peer_network_ove.Prelude.{
  ◌≡◌, if◌then◌else◌, ==_refl, Bool-cases, inl, inr, refl, false, arith,
}
use peer_to_peer_network_ove.Common.{NetworkAddress, TimePoint}
use peer_to_peer_network_ove.Outcome.{ok, bind_ok}
use peer_to_peer_network_ove.Network.{Poco}
use peer_to_peer_network_ove.Registration.{
  Registration, rejected, failed, set_status, validate_node_id, validate_address,
  validate_registration_request, own_request, shake_hands, register_with_node,
}
use peer_to_peer_network_ove.Prelude.{false}

own_request-invalid :
    (env : Poco) (now : TimePoint) (r : Registration)
    → validate_registration_request (own_request env now r) now r ≡ ok (false, r)
unfolding validate_registration_request validate_node_id
own_request-invalid env now r = ground (arith, ==_refl r.world.node.node_id)

-- registerWithNode never registers: the request is about the local node itself, which the validation
-- of requests refuses. The status is FAILED for an address that is not valid and REJECTED otherwise,
-- no connection is tried and no callback is called.
pub register_with_node-rejected :
    (env : Poco) (target : NetworkAddress) (now : TimePoint) (r : Registration)
    → register_with_node env target now r
      ≡ ok (false, set_status (if validate_address target r then rejected else failed) r)
unfolding register_with_node shake_hands
register_with_node-rejected env target now r =
    let m = validate_registration_request (own_request env now r) now in
    let refused = bind_ok m (shake_hands env target) r false r (own_request-invalid env now r) in
    elim (Bool-cases (validate_address target r)) [
      | inl valid ↦ rw (valid, register_with_node) refused
      | inr invalid ↦ rw (invalid, register_with_node) refl
    ]
