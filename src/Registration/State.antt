-- ===== src/Registration/State.antt =====
-- The state of NodeRegistration (include/NodeRegistration.h), a request to join, and the callbacks.
use peer_to_peer_network_ove.Prelude.{
  ℕ, if◌then◌else◌, Bool, false, Option, none, String, List, [], ◌∷◌, ◌++◌, Map,
}
use peer_to_peer_network_ove.Common.{NodeId, NetworkAddress}
use peer_to_peer_network_ove.Outcome.{Action, ok, fault}
use peer_to_peer_network_ove.World.{World}

pub data RegistrationStatus : Type 0 where
  pending registered rejected failed : RegistrationStatus

pub record RegistrationRequest : Type 0 where
  pub node_id : NodeId
  pub address : NetworkAddress
  pub node_info : String
  pub timestamp : ℕ
  pub status : RegistrationStatus

-- The calls of the two callbacks.
pub data RegistrationNotice : Type 0 where
  registration_success : NodeId → NetworkAddress → RegistrationNotice
  registration_failed : String → RegistrationNotice

pub record Registration : Type 0 where
  pub world : World
  pub registration_status : RegistrationStatus
  pub pending_registrations : Map RegistrationRequest
  -- none if no callback is set
  pub authorization_callback : Option (NodeId → NetworkAddress → Bool)
  pub on_registration_success : Bool
  pub on_registration_failed : Bool
  pub registration_notices : List RegistrationNotice

-- The constructor.
abbrev pub new_registration : World → Registration
new_registration w = record {
  world = w;
  registration_status = pending;
  pending_registrations = [];
  authorization_callback = none;
  on_registration_success = false;
  on_registration_failed = false;
  registration_notices = [];
}

abbrev pub in_world : {A : Type 0} → Action World A → Action Registration A
in_world m r = elim (m r.world) [ fault e ↦ fault e | ok (a, w) ↦ ok (a, record r { world = w }) ]

-- A callback is called if it is set.
abbrev pub tell : Bool → RegistrationNotice → Registration → Registration
tell set notice r = record r {
  registration_notices =
      if set then r.registration_notices ++ notice ∷ [] else r.registration_notices;
}

abbrev pub set_status : RegistrationStatus → Registration → Registration
set_status status r = record r { registration_status = status }
