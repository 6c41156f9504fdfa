-- ===== src/Router/Sending.antt =====
-- routeMessage (src/MessageRouter.cpp) along shortest paths over a network without connections.
use peer_to_peer_network_ove.Prelude.{suc, ◌+◌, ◌≡◌, refl, false, List, [], ◌∷◌, length, arith}
use peer_to_peer_network_ove.Common.{NodeId, TimePoint, Message}
use peer_to_peer_network_ove.Outcome.{ok}
use peer_to_peer_network_ove.Network.{Poco}
use peer_to_peer_network_ove.Network.Isolation.{send-unconnected}
use peer_to_peer_network_ove.Router.State.{Router, shortest_path}
use peer_to_peer_network_ove.Router.{follow, send, route_message_multi_hop, dispatch, route_message}
use peer_to_peer_network_ove.Router.Table.{IsFree, find_route-Decides}

module _ (env : Poco) (m : Message) where
  send-fails :
      (peer : NodeId) (r : Router)
      → r.world.network.active_connections ≡ []
      → send env peer m r ≡ ok (false, r)
  unfolding send
  send-fails peer r h = rw (send-unconnected env peer m r.world.network h)

  follow-fails :
      (target : NodeId) (route : List NodeId) (r : Router)
      → r.world.network.active_connections ≡ []
      → (s : Router) × (follow env target m route r ≡ ok (false, s)) × (s.world ≡ r.world)
  unfolding follow
  follow-fails target [] r h = (r, refl, refl)
  follow-fails target (a ∷ []) r h = (r, send-fails target r h, refl)
  follow-fails target (a ∷ b ∷ rest) r h =
      let counted = record r { total_hop_count = r.total_hop_count + suc (length rest) } in
      (counted, send-fails b counted h, refl)

  -- With the topology's mutex free and no connection, routing along a shortest path returns false
  -- and leaves the node, the network and the topology as they are.
  pub route_message-unconnected :
      (now : TimePoint) (r : Router)
      → IsFree r
      → r.world.network.active_connections ≡ []
      → (s : Router) × (route_message env m shortest_path now r ≡ ok (false, s))
        × (s.world ≡ r.world)
  unfolding route_message route_message_multi_hop dispatch
  route_message-unconnected now r free h =
      let counted = record r { routed_message_count = r.routed_message_count + 1 } in
      let (route, found, _) = find_route-Decides counted m.receiver_id free in
      let (s, ends, same) = follow-fails m.receiver_id route counted h in
      (s, ground (arith, found, ends), same)
