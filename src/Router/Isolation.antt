-- ===== src/Router/Isolation.antt =====
-- The calls of src/MessageRouter.cpp keep the shared objects isolated.
use peer_to_peer_network_ove.Prelude.{
  suc, ◌==◌, ◌+◌, ◌&&◌, not, is_empty, Bool, true, false, List, [], ◌∷◌, Map, insert, length,
}
use peer_to_peer_network_ove.Common.{NodeId, Message, TimePoint}
use peer_to_peer_network_ove.Outcome.{Action, ok, ret, ◌>>=◌}
use peer_to_peer_network_ove.Outcome.Holds.{Keeps, Holds-if, Holds-then, >>=-Keeps, if-Keeps}
use peer_to_peer_network_ove.Node.{has_peer}
use peer_to_peer_network_ove.Network.{Poco, send_message_to_peer}
use peer_to_peer_network_ove.Network.Isolation.{send_message_to_peer-IsSilent}
use peer_to_peer_network_ove.Topology
use peer_to_peer_network_ove.Topology.Keeping
use peer_to_peer_network_ove.World.{World, on_topology, on_network}
use peer_to_peer_network_ove.World.Isolation.{IsIsolated, on_topology-Keeps, on_network-Keeps}
use peer_to_peer_network_ove.Router.State.{
  Router, RoutingStrategy, direct, shortest_path, flood, gossip, in_world,
}
use peer_to_peer_network_ove.Router.{
  self_id, find_route, hops, get_hop_count, is_reachable, generate_message_id, is_message_seen,
  mark_message_seen, enter_route, route_loop, update_routing_table, table_paths, get_routing_table,
  send, follow, route_message_multi_hop, route_message_direct, flood_loop, flood_message, dispatch,
  route_message,
}

module _ (id : NodeId) where
  abbrev P : Router → Type 0
  P r = IsIsolated id r.world

  in_world-Keeps :
      {A : Type 0} (m : Action World A) → Keeps (IsIsolated id) m → Keeps P (in_world m)
  in_world-Keeps m keep r h =
      Holds-then (IsIsolated id) P (m r.world) (λ a w. ok (a, record r { world = w }))
        (keep r.world h) (λ a w q. q)

  find_path-Keeps :
      (target : NodeId)
      → Keeps P (λ r. in_world (on_topology (Topology.find_path (self_id r) target)) r)
  find_path-Keeps target r h =
      let ask = Topology.find_path (self_id r) target in
      in_world-Keeps (on_topology ask)
        (on_topology-Keeps id ask (Keeping.find_path-Keeps (self_id r) target)) r h

  find_route-Keeps : (target : NodeId) → Keeps P (find_route target)
  unfolding find_route
  find_route-Keeps target r h =
      Holds-if P (has_peer r.world.node target) (ok (self_id r ∷ target ∷ [], r)) _ h
        (find_path-Keeps target r h)

  pub get_hop_count-Keeps : (target : NodeId) → Keeps P (get_hop_count target)
  unfolding get_hop_count
  get_hop_count-Keeps target =
      >>=-Keeps P (find_route target) (λ route. ret (hops route)) (find_route-Keeps target)
        (λ route r h. h)

  pub is_reachable-Keeps : (target : NodeId) → Keeps P (is_reachable target)
  unfolding is_reachable
  is_reachable-Keeps target =
      >>=-Keeps P (find_route target) (λ route. ret (not (is_empty route)))
        (find_route-Keeps target) (λ route r h. h)

  enter_route-IsIsolated :
      (k : NodeId) (path : List NodeId) (now : TimePoint) (r : Router)
      → P r
      → P (enter_route k path now r)
  unfolding enter_route
  enter_route-IsIsolated k (self ∷ next ∷ rest) now r h = h
  enter_route-IsIsolated k (self ∷ []) now r h = h
  enter_route-IsIsolated k [] now r h = h

  route_loop-Keeps : (now : TimePoint) (ks : List NodeId) → Keeps P (route_loop now ks)
  unfolding route_loop
  route_loop-Keeps now [] r h = h
  route_loop-Keeps now (k ∷ ks) r h =
      let next =
        λ (path : List NodeId) (s : Router). route_loop now ks (enter_route k path now s) in
      Holds-if P (k == self_id r) (route_loop now ks r) _ (route_loop-Keeps now ks r h) (
        Holds-then P P (in_world (on_topology (Topology.find_path (self_id r) k)) r) next
          (find_path-Keeps k r h)
          (λ path s q.
            route_loop-Keeps now ks (enter_route k path now s)
              (enter_route-IsIsolated k path now s q)))

  pub update_routing_table-Keeps : (now : TimePoint) → Keeps P (update_routing_table now)
  unfolding update_routing_table
  update_routing_table-Keeps now =
      let ask = on_topology Topology.get_all_node_ids in
      let next = λ (nodes : List NodeId) (r : Router).
        route_loop now nodes (record r { routing_table = []; hop_counts = [] }) in
      >>=-Keeps P (in_world ask) next
        (in_world-Keeps ask
          (on_topology-Keeps id Topology.get_all_node_ids Keeping.get_all_node_ids-Keeps))
        (λ nodes r h.
          route_loop-Keeps now nodes (record r { routing_table = []; hop_counts = [] }) h)

  table_paths-Keeps : (table : Map NodeId) → Keeps P (table_paths table)
  unfolding table_paths
  table_paths-Keeps [] = λ r h. h
  table_paths-Keeps ((k, next) ∷ entries) =
      let rest = table_paths entries in
      >>=-Keeps P (λ r. in_world (on_topology (Topology.find_path (self_id r) k)) r)
        (λ path. rest >>= λ others. ret (insert k path others)) (find_path-Keeps k)
        (λ path.
          >>=-Keeps P rest (λ others. ret (insert k path others)) (table_paths-Keeps entries)
            (λ others r h. h))

  pub get_routing_table-Keeps : Keeps P get_routing_table
  unfolding get_routing_table
  get_routing_table-Keeps r h = table_paths-Keeps r.routing_table r h

  module _ (env : Poco) where
    send-Keeps : (peer : NodeId) (m : Message) → Keeps P (send env peer m)
    unfolding send
    send-Keeps peer m = in_world-Keeps (on_network (send_message_to_peer env peer m)) (
        on_network-Keeps id (send_message_to_peer env peer m)
          (send_message_to_peer-IsSilent env peer m))

    follow-Keeps :
        (target : NodeId) (m : Message) (route : List NodeId) → Keeps P (follow env target m route)
    unfolding follow
    follow-Keeps target m [] r h = h
    follow-Keeps target m (only ∷ []) r h = send-Keeps target m r h
    follow-Keeps target m (self ∷ next ∷ rest) r h =
        send-Keeps next m (record r { total_hop_count = r.total_hop_count + suc (length rest) }) h

    multi_hop-Keeps :
        (target : NodeId) (m : Message) → Keeps P (route_message_multi_hop env target m)
    unfolding route_message_multi_hop
    multi_hop-Keeps target m =
        >>=-Keeps P (find_route target) (follow env target m) (find_route-Keeps target)
          (follow-Keeps target m)

    direct-Keeps : (target : NodeId) (m : Message) → Keeps P (route_message_direct env target m)
    unfolding route_message_direct
    direct-Keeps target m r h =
        Holds-if P (has_peer r.world.node target) (send env target m r) _ (send-Keeps target m r h)
          (multi_hop-Keeps target m r h)

    flood_loop-Keeps :
        (m : Message) (peers : List NodeId) (success : Bool)
        → Keeps P (flood_loop env m peers success)
    unfolding flood_loop
    flood_loop-Keeps m [] success = λ r h. h
    flood_loop-Keeps m (peer ∷ peers) success =
        let rest = λ (sent : Bool). flood_loop env m peers (success && sent) in
        if-Keeps P (peer == m.sender_id) (flood_loop env m peers success) (send env peer m >>= rest)
          (flood_loop-Keeps m peers success)
          (>>=-Keeps P (send env peer m) rest (send-Keeps peer m)
            (λ sent. flood_loop-Keeps m peers (success && sent)))

    pub flood_message-Keeps : (m : Message) (now : TimePoint) → Keeps P (flood_message env m now)
    unfolding flood_message mark_message_seen
    flood_message-Keeps m now r h =
        let k = generate_message_id m in
        let loop = flood_loop env m r.world.node.peer_ids true in
        Holds-if P (is_message_seen k r) (ok (false, r)) _ h (
          >>=-Keeps P loop
            (λ success s.
              ok (success, record s { forwarded_message_count = s.forwarded_message_count + 1 }))
            (flood_loop-Keeps m r.world.node.peer_ids true) (λ success s q. q)
            (mark_message_seen k now r) h)

    dispatch-Keeps :
        (strategy : RoutingStrategy) (m : Message) (now : TimePoint)
        → Keeps P (dispatch env strategy m now)
    unfolding dispatch
    dispatch-Keeps direct m now = direct-Keeps m.receiver_id m
    dispatch-Keeps shortest_path m now = multi_hop-Keeps m.receiver_id m
    dispatch-Keeps flood m now = flood_message-Keeps m now
    dispatch-Keeps gossip m now = multi_hop-Keeps m.receiver_id m

    pub route_message-Keeps :
        (m : Message) (strategy : RoutingStrategy) (now : TimePoint)
        → Keeps P (route_message env m strategy now)
    unfolding route_message
    route_message-Keeps m strategy now r h =
        dispatch-Keeps strategy m now
          (record r { routed_message_count = r.routed_message_count + 1 }) h
