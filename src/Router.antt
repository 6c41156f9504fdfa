-- ===== src/Router.antt =====
-- include/MessageRouter.h and src/MessageRouter.cpp: routing by peers and paths, flooding, and the
-- routing table. Its two mutexes are never taken twice by one call, so they are not in the state.
pub mod State
pub mod Flood
pub mod Table
pub mod Sending
pub mod Isolation
use Prim.Native.Nat.{bit_xor}
use peer_to_peer_network_ove.Prelude.{
  ℕ, suc, ◌+◌, ◌-◌, ◌==◌, ltb, if◌then◌else◌, Bool, true, false, not, ◌&&◌, Option, some, none,
  List, [], ◌∷◌, length, is_empty, Map, lookup, contains, insert, erase_if,
}
use peer_to_peer_network_ove.Prelude.Int.{ℤ, pos, negsuc, ltb_ℤ}
use peer_to_peer_network_ove.Common.{NodeId, Message, TimePoint, elapsed_seconds}
use peer_to_peer_network_ove.Outcome.{Outcome, Action, ok, fault, ret, ◌>>=◌, ◌>>◌}
use peer_to_peer_network_ove.Node.{has_peer}
use peer_to_peer_network_ove.Network.{Poco, send_message_to_peer}
use peer_to_peer_network_ove.World.{World, on_topology, on_network}
use peer_to_peer_network_ove.Topology
use State.{Router, RoutingStrategy, direct, shortest_path, flood, gossip, RoutingInfo, in_world}

abbrev pub self_id : Router → NodeId
self_id r = r.world.node.node_id

pub find_route : NodeId → Action Router (List NodeId)
find_route target r =
    if has_peer r.world.node target
    then ok (self_id r ∷ target ∷ [], r)
    else in_world (on_topology (Topology.find_path (self_id r) target)) r

-- The number of hops, -1 if there is no route.
pub hops : List NodeId → ℤ
hops [] = negsuc 0
hops (k ∷ route) = pos (length route)

pub get_hop_count : NodeId → Action Router ℤ
unfolding hops
get_hop_count target = do route ← find_route target; ret (hops route)

pub is_reachable : NodeId → Action Router Bool
is_reachable target = do route ← find_route target; ret (not (is_empty route))

-- `id ^= receiverID; id ^= timestamp`.
unfoldable pub generate_message_id : Message → ℕ
generate_message_id m = bit_xor (bit_xor m.sender_id m.receiver_id) m.timestamp

unfoldable pub is_message_seen : ℕ → Router → Bool
is_message_seen id r = contains id r.seen_messages

pub mark_message_seen : ℕ → TimePoint → Router → Router
mark_message_seen id now r = record r { seen_messages = insert id now r.seen_messages }

pub cleanup_seen_messages : ℤ → TimePoint → Router → Router
cleanup_seen_messages timeout now r = record r {
  seen_messages = erase_if (λ _ seen. ltb_ℤ timeout (elapsed_seconds now seen)) r.seen_messages;
}

abbrev pub clear_routing_table : Router → Router
clear_routing_table r = record r { routing_table = []; hop_counts = []; route_timestamps = [] }

-- What the loop of updateRoutingTable does with the path to one node.
pub enter_route : NodeId → List NodeId → TimePoint → Router → Router
enter_route target (self ∷ next ∷ rest) now r = record r {
  routing_table = insert target next r.routing_table;
  hop_counts = insert target (suc (length rest)) r.hop_counts;
  route_timestamps = insert target now r.route_timestamps;
}
enter_route target short now r = r

unfoldable pub route_loop : TimePoint → List NodeId → Action Router (Unit {0})
unfolding enter_route
route_loop now [] r = ok (tt, r)
route_loop now (target ∷ targets) r =
    let skip = route_loop now targets r in
    let enter = (do
      path ← in_world (on_topology (Topology.find_path (self_id r) target))
      λ s. route_loop now targets (enter_route target path now s)) in
    if target == self_id r then skip else enter r

unfoldable pub update_routing_table : TimePoint → Action Router (Unit {0})
update_routing_table now = do
  nodes ← in_world (on_topology Topology.get_all_node_ids)
  λ r. route_loop now nodes (record r { routing_table = []; hop_counts = [] })

-- The paths that getRoutingTable finds.
pub table_paths : Map NodeId → Action Router (Map (List NodeId))
table_paths [] = ret []
table_paths ((k, next) ∷ entries) =
    let rest = table_paths entries in
    do
      path ← (λ r. in_world (on_topology (Topology.find_path (self_id r) k)) r)
      others ← rest
      ret (insert k path others)

pub get_routing_table : Action Router (Map (List NodeId))
unfolding table_paths
get_routing_table r = table_paths r.routing_table r

-- The second node of a path, 0 if there is none.
unfoldable pub second_or_zero : List NodeId → NodeId
second_or_zero (a ∷ b ∷ rest) = b
second_or_zero short = 0

unfoldable pub get_next_hop : NodeId → Action Router NodeId
unfolding second_or_zero
get_next_hop target r = elim (lookup target r.routing_table) [
  | some next ↦ ok (next, r)
  | none ↦
      (do
        path ← in_world (on_topology (Topology.find_path (self_id r) target))
        ret (second_or_zero path))
        r
]

module _ (env : Poco) where
  unfoldable pub send : NodeId → Message → Action Router Bool
  send peer m = in_world (on_network (send_message_to_peer env peer m))

  -- What routeMessageMultiHop does with the route.
  pub follow : NodeId → Message → List NodeId → Action Router Bool
  unfolding send
  follow target m [] = ret false
  follow target m (only ∷ []) = send target m
  follow target m (self ∷ next ∷ rest) =
      λ r. send next m (record r { total_hop_count = r.total_hop_count + suc (length rest) })

  pub route_message_multi_hop : NodeId → Message → Action Router Bool
  route_message_multi_hop target m = do route ← find_route target; follow target m route

  pub route_message_direct : NodeId → Message → Action Router Bool
  route_message_direct target m r =
      if has_peer r.world.node target then send target m r else route_message_multi_hop target m r

  -- The loop over the peers; `success` is false once a send failed.
  pub flood_loop : Message → List NodeId → Bool → Action Router Bool
  flood_loop m [] success = ret success
  flood_loop m (peer ∷ peers) success =
      let skip = flood_loop m peers success in
      let next = (do sent ← send peer m; flood_loop m peers (success && sent)) in
      if peer == m.sender_id then skip else next

  unfoldable pub flood_message : Message → TimePoint → Action Router Bool
  unfolding flood_loop is_message_seen mark_message_seen
  flood_message m now r =
      let id = generate_message_id m in
      if is_message_seen id r
      then ok (false, r)
      else (do
        success ← flood_loop m r.world.node.peer_ids true
        λ s. ok (success, record s { forwarded_message_count = s.forwarded_message_count + 1 }))
          (mark_message_seen id now r)

  pub dispatch : RoutingStrategy → Message → TimePoint → Action Router Bool
  dispatch direct m now = route_message_direct m.receiver_id m
  dispatch shortest_path m now = route_message_multi_hop m.receiver_id m
  dispatch flood m now = flood_message m now
  dispatch gossip m now = route_message_multi_hop m.receiver_id m

  pub route_message : Message → RoutingStrategy → TimePoint → Action Router Bool
  unfolding dispatch
  route_message m strategy now r =
      dispatch strategy m now (record r { routed_message_count = r.routed_message_count + 1 })

  -- What forwardMessage does with the route.
  unfoldable pub forward_along : Message → List NodeId → Action Router Bool
  forward_along m (self ∷ next ∷ rest) =
      λ r. send next m (record r { forwarded_message_count = r.forwarded_message_count + 1 })
  forward_along m short = ret false

  unfoldable pub forward_message : Message → RoutingInfo → Action Router Bool
  unfolding forward_along
  forward_message m info r =
      if ltb_ℤ (pos 0) info.hop_count
      then (if m.receiver_id == self_id r
          then ok (true, r)
          else (do route ← find_route m.receiver_id; forward_along m route) r)
      else ok (false, r)

  unfoldable pub handle_incoming_route : Message → RoutingInfo → Action Router (Unit {0})
  handle_incoming_route m info r =
      if m.receiver_id == self_id r
      then ok (tt, r)
      else (do sent ← forward_message m info; ret tt) r
