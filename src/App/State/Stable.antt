-- ===== src/App/State/Stable.antt =====
-- What a call on one object of main (src/main.cpp) keeps: the managers stay stable.
use peer_to_peer_network_ove.Prelude.{List, [], ◌∷◌}
use peer_to_peer_network_ove.Common.{NodeId, TimePoint}
use peer_to_peer_network_ove.Outcome.{Action, ok, ret, ◌>>=◌, ◌>>◌}
use peer_to_peer_network_ove.Outcome.Holds.{Keeps, Holds-then, >>=-Keeps}
use peer_to_peer_network_ove.Network.{Poco}
use peer_to_peer_network_ove.Network.Isolation.{IsSilent}
use peer_to_peer_network_ove.World.Isolation.{IsIsolated, with_network}
use peer_to_peer_network_ove.Discovery.{
  Discovery, DiscoveryNotice, peer_discovered, discovery_failed,
}
use peer_to_peer_network_ove.Manager.{add_node_with_validation}
use peer_to_peer_network_ove.Manager.Settled.{add_node_with_validation-Keeps}
use peer_to_peer_network_ove.Router.State.{Router}
use peer_to_peer_network_ove.Reliable.{Reliable}
use peer_to_peer_network_ove.Exchange.State.{Exchange}
use peer_to_peer_network_ove.Overlay.{Overlay, in_manager}
use peer_to_peer_network_ove.Overlay
use peer_to_peer_network_ove.Overlay.Settled
use peer_to_peer_network_ove.Overlay.Settled.{IsStable}
use peer_to_peer_network_ove.App.State.{
  App, world, set_world, in_overlay, in_router, in_exchange, in_reliable, run_callbacks, cleared,
  in_discovery,
}

abbrev pub IsStableApp : NodeId → App → Type 0
IsStableApp id s = IsStable id s.overlay

module _ (id : NodeId) where
  pub in_overlay-Keeps :
      {A : Type 0} (m : Action Overlay A)
      → Keeps (IsStable id) m
      → Keeps (IsStableApp id) (in_overlay m)
  in_overlay-Keeps m keep s h =
      Holds-then (IsStable id) (IsStableApp id) (m s.overlay)
        (λ a o. ok (a, record s { overlay = o })) (keep s.overlay h) (λ a o q. q)

  pub in_router-Keeps :
      {A : Type 0} (m : Action Router A)
      → Keeps (λ r. IsIsolated id r.world) m
      → Keeps (IsStableApp id) (in_router m)
  in_router-Keeps m keep s h =
      let r = record s.router { world = world s } in
      Holds-then (λ (u : Router). IsIsolated id u.world) (IsStableApp id) (m r)
        (λ a u. ok (a, record (set_world u.world s) { router = u })) (keep r h.0)
        (λ a u q. (q, h.1, h.2))

  pub in_exchange-Keeps :
      {A : Type 0} (m : Action Exchange A)
      → Keeps (λ x. IsIsolated id x.router.world) m
      → Keeps (IsStableApp id) (in_exchange m)
  in_exchange-Keeps m keep s h =
      let x = record s.exchange { router = record s.router { world = world s } } in
      Holds-then (λ (u : Exchange). IsIsolated id u.router.world) (IsStableApp id) (m x)
        (λ a u. ok (a, record (set_world u.router.world s) { router = u.router; exchange = u }))
        (keep x h.0) (λ a u q. (q, h.1, h.2))

  pub in_reliable-Keeps :
      {A : Type 0} (f : Reliable → A × Reliable)
      → ((r : Reliable) → IsSilent r.network → IsSilent (f r).1.network)
      → Keeps (IsStableApp id) (in_reliable f)
  in_reliable-Keeps f keep s h =
      let r = record s.reliable { network = (world s).network } in
      (with_network id (world s) (f r).1.network h.0 (keep r h.0.silent), h.1, h.2)

  run_callbacks-Keeps :
      (env : Poco) (now : TimePoint) (notices : List DiscoveryNotice)
      → Keeps (IsStable id) (run_callbacks env now notices)
  unfolding run_callbacks
  run_callbacks-Keeps env now [] = λ o h. h
  run_callbacks-Keeps env now (discovery_failed a ∷ notices) = run_callbacks-Keeps env now notices
  run_callbacks-Keeps env now (peer_discovered k a ∷ notices) =
      let add = add_node_with_validation env k a now in
      >>=-Keeps (IsStable id) (in_manager add) (λ _. run_callbacks env now notices)
        (Settled.in_manager-Keeps id add (add_node_with_validation-Keeps id env k a now))
        (λ _. run_callbacks-Keeps env now notices)

  pub in_discovery-Keeps :
      {A : Type 0} (env : Poco) (now : TimePoint) (m : Action Discovery A)
      → Keeps (λ d. IsIsolated id d.world) m
      → Keeps (IsStableApp id) (in_discovery env now m)
  unfolding in_discovery
  in_discovery-Keeps {A} env now m keep =
      let first = λ (o : Overlay). Overlay.in_discovery m (cleared o) in
      let callbacks = λ (o : Overlay). run_callbacks env now o.discovery.discovery_notices o in
      let rest = λ (a : A). callbacks >> ret a in
      in_overlay-Keeps (first >>= rest) (
        >>=-Keeps (IsStable id) first rest
          (λ o h. Settled.in_discovery-Keeps id m keep (cleared o) h)
          (λ a.
            >>=-Keeps (IsStable id) callbacks (λ _. ret a)
              (λ o h. run_callbacks-Keeps env now o.discovery.discovery_notices o h) (λ _ o h. h)))
