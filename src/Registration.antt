-- ===== src/Registration.antt =====
-- include/NodeRegistration.h and src/NodeRegistration.cpp: requests of nodes to join, their
-- validation and acceptance. pendingRegistrationsMutex_ is never taken twice by one call, so it is
-- not in the state; a callback is an entry in a list of notices, the latest last.
pub mod Validation
pub mod Isolation
pub mod Rejection
pub mod Rollback
pub mod Acceptance
mod State
unfoldable pub use State.*
mod Checks
unfoldable pub use Checks.*
mod Joining
unfoldable pub use Joining.*
use text.Mathlib.Text.{◌==◌ as str_eq}
use peer_to_peer_network_ove.Prelude.{
  ℕ, ◌*◌, ◌==◌, ltb, leb, if◌then◌else◌, Bool, true, false, not, ◌&&◌, ◌||◌, Option, some, none,
  String, List, [], ◌∷◌, ◌++◌, Map, lookup, contains, insert,
}
use peer_to_peer_network_ove.Prelude.Int.{ℤ, pos, ltb_ℤ}
use peer_to_peer_network_ove.Common.{
  NodeId, NetworkAddress, address_eq, TimePoint, max_peers, elapsed_seconds,
}
use peer_to_peer_network_ove.Outcome.{Outcome, Action, ok, fault, ret, ◌>>=◌, ◌>>◌}
use peer_to_peer_network_ove.Node.{add_peer, get_peer_count}
use peer_to_peer_network_ove.Network.{Poco, connect_to_peer}
use peer_to_peer_network_ove.Topology
use peer_to_peer_network_ove.World.{World, on_topology, on_network, on_node}
use peer_to_peer_network_ove.Prelude.{◌/◌}

-- The status of a pending request, where there is one.
pub mark_pending : NodeId → RegistrationStatus → Registration → Registration
mark_pending k status r = elim (lookup k r.pending_registrations) [
  | none ↦ r
  | some request ↦ record r {
    pending_registrations = insert k (record request { status = status }) r.pending_registrations;
  }
]

pub reject_registration : NodeId → Registration → Registration
unfolding mark_pending
reject_registration k r = mark_pending k rejected r

-- What follows addPeer in acceptRegistration: the node is taken out of the topology again if it was
-- not added as a peer.
pub finish_accept : NodeId → Bool → Action Registration Bool
unfolding mark_pending
finish_accept k true r = ok (true, mark_pending k registered r)
finish_accept k false r =
    (do removed ← in_world (on_topology (Topology.remove_node k)); ret false) r

-- What follows addNode in acceptRegistration.
pub add_accepted : NodeId → NetworkAddress → Bool → Action Registration Bool
unfolding finish_accept
add_accepted k address false = ret false
add_accepted k address true = do
  peered ← in_world (on_node λ n. add_peer n k address)
  finish_accept k peered

pub accept_registration : NodeId → NetworkAddress → Action Registration Bool
unfolding add_accepted
accept_registration k address = do
  added ← in_world (on_topology (Topology.add_node k address))
  add_accepted k address added

-- `authorizationCallback_ && !authorizationCallback_(...)`.
abbrev pub is_refused : NodeId → NetworkAddress → Registration → Bool
is_refused k address r = elim r.authorization_callback [
  | none ↦ false
  | some allows ↦ not (allows k address)
]

-- What follows the validation in handleRegistrationRequest.
pub admit : RegistrationRequest → Action Registration Bool
unfolding reject_registration
admit request r =
    if is_refused request.node_id request.address r
    then ok (false, reject_registration request.node_id r)
    else if leb max_peers (get_peer_count r.world.node)
    then ok (false, reject_registration request.node_id r)
    else accept_registration request.node_id request.address r

pub handle_registration_request : RegistrationRequest → TimePoint → Action Registration Bool
unfolding admit
handle_registration_request request now = do
  valid ← validate_registration_request request now
  if valid then admit request else ret false

unfoldable pub is_node_authorized : NodeId → Action Registration Bool
is_node_authorized k r = elim r.authorization_callback [
  | none ↦ ok (true, r)
  | some allows ↦
      (do address ← in_world (on_topology (Topology.get_node_address k)); ret (allows k address)) r
]

abbrev pub is_pending : RegistrationRequest → Bool
is_pending request = elim request.status [
  | pending ↦ true
  | registered ↦ false
  | rejected ↦ false
  | failed ↦ false
]

-- The requests of the map that wait.
pub pending_in : Map RegistrationRequest → List RegistrationRequest
pending_in [] = []
pending_in ((k, request) ∷ rest) =
    if is_pending request then request ∷ pending_in rest else pending_in rest

pub get_pending_registrations : Registration → List RegistrationRequest
unfolding pending_in
get_pending_registrations r = pending_in r.pending_registrations

unfoldable pub process_all : List RegistrationRequest → TimePoint → Action Registration (Unit {0})
process_all [] now = ret tt
process_all (request ∷ requests) now =
    let rest = process_all requests now in
    do accepted ← handle_registration_request request now; rest

unfoldable pub process_pending_registrations : TimePoint → Action Registration (Unit {0})
unfolding process_all get_pending_registrations
process_pending_registrations now r = process_all (get_pending_registrations r) now r
