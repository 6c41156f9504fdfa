-- ===== src/Registration/Validation.antt =====
-- Which requests are accepted (src/NodeRegistration.cpp).
use peer_to_peer_network_ove.Prelude.{leb, ◌≡◌, Bool, not, ◌&&◌, arith}
use peer_to_peer_network_ove.Common.{TimePoint, max_peers}
use peer_to_peer_network_ove.Outcome.{ok}
use peer_to_peer_network_ove.Node.{has_peer, get_peer_count}
use peer_to_peer_network_ove.Topology.Queries.{node_exists_free}
use peer_to_peer_network_ove.Registration.Acceptance.{IsFree, is_known}
use peer_to_peer_network_ove.Registration.{
  RegistrationRequest, Registration, validate_node_id, validate_address,
  validate_registration_request, is_too_old, is_refused,
}

-- The tests of validateRegistrationRequest.
abbrev pub is_valid : RegistrationRequest → TimePoint → Registration → Bool
is_valid request now r =
    validate_node_id request.node_id r
    && validate_address request.address r
    && not (is_known request.node_id r)
    && not (is_too_old request now)

pub validate_registration_request_lem :
    (request : RegistrationRequest) (now : TimePoint) (r : Registration)
    → IsFree r
    → validate_registration_request request now r ≡ ok (is_valid request now r, r)
unfolding validate_registration_request
validate_registration_request_lem request now r free =
    ground (arith, node_exists_free r.world.topology free request.node_id)

-- What becomes of a request that passed the validation: its node is accepted if it is not refused,
-- there is room for a peer and it is no peer yet.
abbrev pub is_admitted : RegistrationRequest → Registration → Bool
is_admitted request r =
    not (is_refused request.node_id request.address r)
    && not (leb max_peers (get_peer_count r.world.node))
    && not (has_peer r.world.node request.node_id)
