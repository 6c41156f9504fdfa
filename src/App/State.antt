-- ===== src/App/State.antt =====
-- The objects of main (src/main.cpp), and how a call on one of them changes the others: all of them
-- share `overlay.world`.
pub mod Stable
use peer_to_peer_network_ove.Prelude.{ℕ, Bool, true, false, String, List, [], ◌∷◌}
use peer_to_peer_network_ove.Common.{NodeId, NetworkAddress, TimePoint}
use peer_to_peer_network_ove.Outcome.{Outcome, Action, ok, fault, ret, ◌>>=◌, ◌>>◌}
use peer_to_peer_network_ove.World.{World}
use peer_to_peer_network_ove.Discovery.{
  Discovery, DiscoveryNotice, peer_discovered, discovery_failed,
}
use peer_to_peer_network_ove.Manager.{add_node_with_validation}
use peer_to_peer_network_ove.Network.{Poco}
use peer_to_peer_network_ove.Router.State.{Router, new_router}
use peer_to_peer_network_ove.Reliable.{Reliable, new_reliable}
use peer_to_peer_network_ove.Exchange.State.{Exchange, new_exchange}
use peer_to_peer_network_ove.Overlay.{Overlay, in_manager}
use peer_to_peer_network_ove.Overlay

pub record App : Type 0 where
  pub overlay : Overlay
  pub router : Router
  pub reliable : Reliable
  pub exchange : Exchange
  pub running : Bool

abbrev pub in_overlay : {A : Type 0} → Action Overlay A → Action App A
in_overlay m s = elim (m s.overlay) [
  | fault e ↦ fault e
  | ok (a, o) ↦ ok (a, record s { overlay = o })
]

abbrev pub world : App → World
world s = s.overlay.world

abbrev pub set_world : World → App → App
set_world w s = record s { overlay = record s.overlay { world = w } }

abbrev pub in_router : {A : Type 0} → Action Router A → Action App A
in_router m s = elim (m (record s.router { world = world s })) [
  | fault e ↦ fault e
  | ok (a, r) ↦ ok (a, record (set_world r.world s) { router = r })
]

-- A call on the exchange, which uses the router.
abbrev pub in_exchange : {A : Type 0} → Action Exchange A → Action App A
in_exchange m s = elim (m (record s.exchange { router = record s.router { world = world s } })) [
  | fault e ↦ fault e
  | ok (a, x) ↦ ok (a, record (set_world x.router.world s) { router = x.router; exchange = x })
]

-- A call on the reliable messaging, which uses the network manager.
abbrev pub in_reliable : {A : Type 0} → (Reliable → A × Reliable) → Action App A
in_reliable f s =
    let (a, r) = f (record s.reliable { network = (world s).network }) in
    ok (a, record (set_world (record (world s) { network = r.network }) s) { reliable = r })

-- The callback that main sets on the discovery, for the calls that discovery made of it.
unfoldable pub run_callbacks : Poco → TimePoint → List DiscoveryNotice → Action Overlay (Unit {0})
run_callbacks env now [] = ret tt
run_callbacks env now (discovery_failed a ∷ notices) = run_callbacks env now notices
run_callbacks env now (peer_discovered k a ∷ notices) =
    let rest = run_callbacks env now notices in
    do added ← in_manager (add_node_with_validation env k a now); rest

abbrev cleared : Overlay → Overlay
cleared o = record o { discovery = record o.discovery { discovery_notices = [] } }

-- A call on the discovery, and then the callbacks. The source makes each callback when it finds the
-- peer, in the same order; the peers are nodes of the topology, for which the callback does nothing.
unfoldable pub in_discovery : {A : Type 0} → Poco → TimePoint → Action Discovery A → Action App A
unfolding run_callbacks
in_discovery env now m = in_overlay (
    (λ o. Overlay.in_discovery m (cleared o)) >>= λ a.
    (λ o. run_callbacks env now o.discovery.discovery_notices o) >> ret a)
