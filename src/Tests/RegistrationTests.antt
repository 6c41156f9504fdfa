-- ===== src/Tests/RegistrationTests.antt =====
-- src/NodeRegistration.cpp: node 9 asks to join a node with two peers.
use peer_to_peer_network_ove.Prelude.{
  ◌==◌, ◌≡◌, refl, true, false, if◌then◌else◌, Bool, [], lookup, some, none,
}
use peer_to_peer_network_ove.Common.{NodeId}
use peer_to_peer_network_ove.Outcome.{ok}
use peer_to_peer_network_ove.Node.{add_peer}
use peer_to_peer_network_ove.Registration.{
  RegistrationRequest, Registration, pending, accept_registration, validate_address, rejected,
  set_status, register_with_node,
}
use peer_to_peer_network_ove.Registration.Acceptance.{accept_registration_lem}
use peer_to_peer_network_ove.Registration.Rollback.{SameGraph}
use peer_to_peer_network_ove.Registration.Rejection.{register_with_node-rejected}
use peer_to_peer_network_ove.Tests.NetworkTests.{good_sockets}
use peer_to_peer_network_ove.Tests.NodeTests.{two_peers, there_address}
use peer_to_peer_network_ove.Tests.TopologyTests.{fresh, fresh-IsWellFormed}
use peer_to_peer_network_ove.Tests.RouterTests.{router}

abbrev pub registration : Registration
registration = record {
  world = router.world;
  registration_status = pending;
  pending_registrations = [];
  authorization_callback = some (λ k _. k == 9);
  on_registration_success = false;
  on_registration_failed = false;
  registration_notices = [];
}

abbrev pub request : RegistrationRequest
request = record {
  node_id = 9;
  address = there_address;
  node_info = "";
  timestamp = 1000;
  status = pending;
}

accept_registration_lem_example :
    (accepted : Bool) × (s : Registration) × (accept_registration 9 there_address registration
      ≡ ok (accepted, s))
    × (s.world.network ≡ registration.world.network)
    × (accepted ≡ true
        → (false ≡ false)
          × (s.world.node ≡ (add_peer two_peers 9 there_address).0)
          × ((add_peer two_peers 9 there_address).1 ≡ true)
          × ((j : NodeId)
              → lookup j s.world.topology.node_registry
                ≡ (if 9 == j then some there_address else none)))
    × (accepted ≡ false → (s.world.node ≡ two_peers) × SameGraph s.world.topology fresh)
accept_registration_lem_example =
    accept_registration_lem 9 there_address registration refl fresh-IsWellFormed

register_with_node-rejected_example :
    register_with_node good_sockets there_address 2000000000 registration
    ≡ ok (false, set_status rejected registration)
unfolding validate_address
register_with_node-rejected_example =
    register_with_node-rejected good_sockets there_address 2000000000 registration
