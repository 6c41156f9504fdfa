-- ===== src/Registration/Isolation.antt =====
-- The calls of src/NodeRegistration.cpp about the local node keep the shared objects isolated.
use peer_to_peer_network_ove.Prelude.{not, if◌then◌else◌, Bool, true, false}
use peer_to_peer_network_ove.Common.{NodeId, NetworkAddress, TimePoint}
use peer_to_peer_network_ove.Outcome.{Action, ok, ret}
use peer_to_peer_network_ove.Outcome.Holds.{Keeps, Holds-if, Holds-then, >>=-Keeps}
use peer_to_peer_network_ove.Network.{Poco, connect_to_peer}
use peer_to_peer_network_ove.Network.Isolation.{connect_to_peer-IsSilent}
use peer_to_peer_network_ove.Topology
use peer_to_peer_network_ove.Topology.Keeping
use peer_to_peer_network_ove.World.{World, on_topology, on_network}
use peer_to_peer_network_ove.World.Isolation.{IsIsolated, on_topology-Keeps, on_network-Keeps}
use peer_to_peer_network_ove.Registration.{
  Registration, RegistrationRequest, registered, registration_success, in_world, tell, set_status,
  validate_node_id, validate_address, is_too_old, validate_registration_request,
  register_with_network, perform_registration_handshake, own_request, register_with_node,
}
use peer_to_peer_network_ove.Registration.{finish_registration}
use peer_to_peer_network_ove.Registration.{finish_handshake}
use peer_to_peer_network_ove.Registration.{shake_hands}

module _ (id : NodeId) where
  abbrev P : Registration → Type 0
  P r = IsIsolated id r.world

  in_world-Keeps :
      {A : Type 0} (m : Action World A) → Keeps (IsIsolated id) m → Keeps P (in_world m)
  in_world-Keeps m keep r h =
      Holds-then (IsIsolated id) P (m r.world) (λ a w. ok (a, record r { world = w }))
        (keep r.world h) (λ a w q. q)

  validate-Keeps :
      (request : RegistrationRequest) (now : TimePoint)
      → Keeps P (validate_registration_request request now)
  unfolding validate_registration_request
  validate-Keeps request now r h =
      let ask = on_topology (Topology.node_exists request.node_id) in
      Holds-if P (not (validate_node_id request.node_id r)) (ok (false, r)) _ h (
        Holds-if P (not (validate_address request.address r)) (ok (false, r)) _ h (
          >>=-Keeps P (in_world ask)
            (λ exists. ret (if exists then false else not (is_too_old request now)))
            (in_world-Keeps ask (
              on_topology-Keeps id (Topology.node_exists request.node_id)
                (Keeping.node_exists-Keeps request.node_id)))
            (λ exists u q. q) r h))

  module _ (env : Poco) where
    connect-Keeps : (a : NetworkAddress) → Keeps P (in_world (on_network (connect_to_peer env a)))
    connect-Keeps a =
        in_world-Keeps (on_network (connect_to_peer env a))
          (on_network-Keeps id (connect_to_peer env a) (connect_to_peer-IsSilent env a))

    finish_registration-Keeps : (connected : Bool) → Keeps P (finish_registration env connected)
    unfolding finish_registration
    finish_registration-Keeps false r h = h
    finish_registration-Keeps true r h =
        let node = r.world.node in
        let add = on_topology (Topology.add_node node.node_id node.address) in
        >>=-Keeps P (in_world add)
          (λ added s. ok (
            true,
            tell s.on_registration_success (registration_success node.node_id node.address) s,
          ))
          (in_world-Keeps add (
            on_topology-Keeps id (Topology.add_node node.node_id node.address)
              (Keeping.add_node-Keeps node.node_id node.address)))
          (λ added s q. q) (set_status registered r) h

    pub register_with_network-Keeps :
        (bootstrap : NetworkAddress) → Keeps P (register_with_network env bootstrap)
    unfolding register_with_network
    register_with_network-Keeps bootstrap =
        >>=-Keeps P (in_world (on_network (connect_to_peer env bootstrap)))
          (finish_registration env) (connect-Keeps bootstrap) finish_registration-Keeps

    finish_handshake-Keeps : (connected : Bool) → Keeps P (finish_handshake env connected)
    unfolding finish_handshake
    finish_handshake-Keeps false r h = h
    finish_handshake-Keeps true r h = h

    shake_hands-Keeps :
        (target : NetworkAddress) (valid : Bool) → Keeps P (shake_hands env target valid)
    unfolding shake_hands perform_registration_handshake
    shake_hands-Keeps target false r h = h
    shake_hands-Keeps target true r h =
        >>=-Keeps P (perform_registration_handshake env target) (finish_handshake env)
          (connect-Keeps target) finish_handshake-Keeps r h

    pub register_with_node-Keeps :
        (target : NetworkAddress) (now : TimePoint) → Keeps P (register_with_node env target now)
    unfolding register_with_node
    register_with_node-Keeps target now r h =
        let request = own_request env now r in
        Holds-if P (not (validate_address target r)) _ _ h (
          >>=-Keeps P (validate_registration_request request now) (shake_hands env target)
            (validate-Keeps request now) (shake_hands-Keeps target) r h)
