-- ===== src/Overlay.antt =====
-- The objects that src/main.cpp and SimulatedNode (src/NodeSimulator.cpp) both make for one node:
-- they share the node, the network manager and the topology manager, which stand in `world`. The
-- field `world` of a component is what it saw at its last call, and is replaced before the next one.
pub mod Settled
use peer_to_peer_network_ove.Prelude.{
  ℕ, ◌==◌, ltb, if◌then◌else◌, Bool, Option, some, none, String, true, false, List, [], ◌∷◌,
}
use peer_to_peer_network_ove.Prelude.Int.{ℤ, pos, ltb_ℤ}
use peer_to_peer_network_ove.Common.{NodeId, NetworkAddress, Message, TimePoint, elapsed_seconds}
use peer_to_peer_network_ove.Outcome.{Outcome, Action, ok, fault, ret, ◌>>=◌, ◌>>◌}
use peer_to_peer_network_ove.Node.{new_node}
use peer_to_peer_network_ove.Network.{Poco, new_network, send_message_to_peer}
use peer_to_peer_network_ove.Topology.{new_topology}
use peer_to_peer_network_ove.Topology
use peer_to_peer_network_ove.World.{World, on_network}
use peer_to_peer_network_ove.Discovery.{Discovery, new_discovery}
use peer_to_peer_network_ove.Registration.{Registration, new_registration}
use peer_to_peer_network_ove.Manager.{Manager, new_manager}

pub record Overlay : Type 0 where
  pub world : World
  pub discovery : Discovery
  pub registration : Registration
  pub manager : Manager

abbrev pub in_world : {A : Type 0} → Action World A → Action Overlay A
in_world m o = elim (m o.world) [ fault e ↦ fault e | ok (a, w) ↦ ok (a, record o { world = w }) ]

abbrev pub in_discovery : {A : Type 0} → Action Discovery A → Action Overlay A
in_discovery m o = elim (m (record o.discovery { world = o.world })) [
  | fault e ↦ fault e
  | ok (a, d) ↦ ok (a, record o { world = d.world; discovery = d })
]

abbrev pub in_registration : {A : Type 0} → Action Registration A → Action Overlay A
in_registration m o = elim (m (record o.registration { world = o.world })) [
  | fault e ↦ fault e
  | ok (a, r) ↦ ok (a, record o { world = r.world; registration = r })
]

abbrev pub in_manager : {A : Type 0} → Action Manager A → Action Overlay A
in_manager m o = elim (m (record o.manager { world = o.world })) [
  | fault e ↦ fault e
  | ok (a, g) ↦ ok (a, record o { world = g.world; manager = g })
]

-- Poco::Net::DNS::hostName(), "localhost" if it throws.
abbrev pub local_address : Option String → ℕ → NetworkAddress
local_address none port = record { host = "localhost"; port = port }
local_address (some name) port = record { host = name; port = port }

-- The managers of a node whose objects are `w`.
abbrev pub overlay_of : World → Overlay
overlay_of w = record {
  world = w;
  discovery = new_discovery w;
  registration = new_registration w;
  manager = new_manager w;
}

-- The objects are made, and the topology gets the local node.
unfoldable pub new_overlay : NodeId → NetworkAddress → TimePoint → Outcome Overlay
new_overlay id address now = elim (Topology.add_node id address (new_topology id)) [
  | fault e ↦ fault e
  | ok (added, t) ↦
      ok (
        overlay_of (record { node = new_node id address now; network = new_network; topology = t }))
]

-- The seconds between two readings of the steady clock reach an interval.
abbrev pub is_over : ℤ → TimePoint → TimePoint → Bool
is_over interval now last = if ltb_ℤ (elapsed_seconds now last) interval then false else true

-- A message to each of the peers; the results of sendMessageToPeer are ignored.
unfoldable pub send_each : Poco → (NodeId → World → Message) → List NodeId → Action World (Unit {0})
send_each env make [] = ret tt
send_each env make (peer ∷ peers) =
    let rest = send_each env make peers in
    do sent ← (λ w. on_network (send_message_to_peer env peer (make peer w)) w); rest
