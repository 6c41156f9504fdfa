-- ===== src/Manager.antt =====
-- include/DynamicNodeManager.h and src/DynamicNodeManager.cpp: nodes that join, leave and fail, with
-- nodesMutex_ in the state. Readings of the clock within one call are taken as equal.
pub mod Repair
pub mod Deadlock
pub mod Settled
pub mod Removal
pub mod Upkeep
mod Queries
unfoldable pub use Queries.*
mod Counters
unfoldable pub use Counters.*
mod State
unfoldable pub use State.*
use text.Mathlib.Text.{◌==◌ as str_eq}
use peer_to_peer_network_ove.Prelude.{
  ℕ, suc, ◌+◌, ◌==◌, ltb, leb, if◌then◌else◌, Bool, true, false, not, ◌&&◌, ◌||◌, Option, some,
  none, List, [], ◌∷◌, ◌++◌, length, Map, lookup, contains, insert, erase,
}
use peer_to_peer_network_ove.Prelude.Int.{ℤ, ltb_ℤ}
use peer_to_peer_network_ove.Common.{
  NodeId, NetworkAddress, TimePoint, max_peers, node_timeout_sec, elapsed_seconds,
}
use peer_to_peer_network_ove.Outcome.{Outcome, Action, ok, fault, ret, ◌>>=◌, ◌>>◌}
use peer_to_peer_network_ove.Node.{add_peer, remove_peer, has_peer, get_peer_count}
use peer_to_peer_network_ove.Network.{Poco, connect_to_peer, disconnect_from_peer}
use peer_to_peer_network_ove.Topology
use peer_to_peer_network_ove.World.{World, on_topology, on_network, on_node}
use Repair.{
  repair_if_disconnected, find_replacement_connections, establish_replacement_connections,
  ensure_connectivity, add_and_connect,
}

unfoldable pub validate_node_addition : NodeId → NetworkAddress → Manager → Bool
validate_node_addition k a g =
    if k == 0 || a.port == 0 || str_eq a.host ""
    then false
    else if k == g.world.node.node_id
    then false
    else true

-- The entry that addNode makes.
abbrev pub new_info : NodeId → NetworkAddress → NodeState → TimePoint → NodeInfo
new_info k address state now = record {
  node_id = k;
  address = address;
  state = state;
  last_seen = now;
  join_time = now;
  failure_count = 0;
}

abbrev pub is_active : NodeInfo → Bool
is_active info = elim info.state [
  | joining ↦ false
  | active ↦ true
  | leaving ↦ false
  | failed ↦ false
  | unknown ↦ false
]

module _ (env : Poco) where
  -- What follows TopologyManager::addNode in addNode.
  unfoldable pub finish_add : NodeId → NetworkAddress → TimePoint → Bool → Action Manager Bool
  unfolding add_and_connect
  finish_add k address now false g =
      ok (false, record g { node_registry = erase k g.node_registry })
  finish_add k address now true g =
      (do
        in_world λ w.
            if ltb (get_peer_count w.node) max_peers
            then ok (tt, (add_and_connect env k address w).1)
            else ok (tt, w)
        λ s. ok (
          true,
          tell s.on_node_added (node_added k address) (record s {
            node_registry = insert k (new_info k address active now) s.node_registry;
          }),
        ))
        g

  -- addNode under the lock.
  unfoldable pub add_body : NodeId → NetworkAddress → TimePoint → Action Manager Bool
  unfolding finish_add
  add_body k address now g =
      if contains k g.node_registry
      then ok (false, g)
      else (do
        added ← in_world (on_topology (Topology.add_node k address))
        finish_add k address now added)
          (record g { node_registry = insert k (new_info k address joining now) g.node_registry })

  unfoldable pub add_node : NodeId → NetworkAddress → TimePoint → Action Manager Bool
  unfolding lock_nodes validate_node_addition add_body
  add_node k address now g =
      if not (validate_node_addition k address g)
      then ok (false, g)
      else lock_nodes (add_body k address now) g

  unfoldable pub add_node_with_validation :
      NodeId → NetworkAddress → TimePoint → Action Manager Bool
  unfolding add_node
  add_node_with_validation k address now g =
      if k == g.world.node.node_id
      then ok (false, g)
      else (do
        exists ← in_world (on_topology (Topology.node_exists k))
        λ s. if exists then ok (false, s) else add_node k address now s)
          g

  unfoldable pub add_nodes_from_list :
      List (NodeId × NetworkAddress) → TimePoint → Action Manager (List NodeId)
  unfolding add_node
  add_nodes_from_list [] now = ret []
  add_nodes_from_list ((k, address) ∷ nodes) now =
      let rest = add_nodes_from_list nodes now in
      do added ← add_node k address now; others ← rest; ret (if added then k ∷ others else others)

  pub repair_network_after_node_removal : NodeId → Action Manager Bool
  unfolding repair_if_disconnected find_replacement_connections establish_replacement_connections
  repair_network_after_node_removal removed = do
    in_world repair_if_disconnected
    replacements ← in_world (find_replacement_connections removed)
    established ← in_world (establish_replacement_connections env replacements false)
    integrity ← in_world (on_topology Topology.check_network_integrity)
    λ g. ok (integrity, tell (integrity && g.on_network_repaired) network_repaired g)

  -- What removeNodeGracefully and removeNodeForced do with a registered node, up to the callback.
  pub take_out : NodeState → NodeId → Action Manager (Unit {0})
  unfolding change_info
  take_out state k g =
      (do
        in_world λ w. ok (tt, record w { node = (remove_peer w.node k).0 })
        disconnected ← in_world (on_network (disconnect_from_peer k))
        removed ← in_world (on_topology (Topology.remove_node k))
        λ s. ok (tt, record s { node_registry = erase k s.node_registry }))
        (change_info k (λ info. record info { state = state }) g)

  -- removeNodeGracefully under the lock.
  unfoldable pub leave_body : NodeId → Action Manager Bool
  unfolding take_out repair_network_after_node_removal
  leave_body k g =
      if contains k g.node_registry
      then (do
        take_out leaving k
        λ s. ok (tt, tell s.on_node_removed (node_removed k) s)
        repaired ← repair_network_after_node_removal k
        ret true)
          g
      else ok (false, g)

  unfoldable pub remove_node_gracefully : NodeId → Action Manager Bool
  unfolding lock_nodes leave_body
  remove_node_gracefully k = lock_nodes (leave_body k)

  -- removeNodeForced under the lock.
  pub expel_body : NodeId → Action Manager Bool
  unfolding take_out repair_network_after_node_removal
  expel_body k g =
      if contains k g.node_registry
      then (do
        take_out failed k
        λ s. ok (tt, tell s.on_node_failed (node_failed k) s)
        repaired ← repair_network_after_node_removal k
        ret true)
          g
      else ok (false, g)

  pub remove_node_forced : NodeId → Action Manager Bool
  unfolding lock_nodes expel_body
  remove_node_forced k = lock_nodes (expel_body k)

  unfoldable pub remove_node : NodeId → Bool → Action Manager Bool
  unfolding remove_node_gracefully remove_node_forced
  remove_node k true = remove_node_gracefully k
  remove_node k false = remove_node_forced k

  -- The loop of detectFailedNodes, under the lock; the result are the nodes to remove.
  pub detect_loop : ℤ → TimePoint → Map NodeInfo → Action Manager (List NodeId)
  unfolding increment_failure_count reset_failure_count should_remove_node
  detect_loop seconds now [] = ret []
  detect_loop seconds now ((k, info) ∷ entries) =
      let rest = detect_loop seconds now entries in
      let late = (do
        increment_failure_count k
        remove ← should_remove_node k
        others ← rest
        ret (if remove then k ∷ others else others)) in
      let alive = (do reset_failure_count k; rest) in
      if not (is_active info)
      then rest
      else if ltb_ℤ seconds (elapsed_seconds now info.last_seen)
      then late
      else alive

  pub remove_all : List NodeId → Action Manager (Unit {0})
  unfolding remove_node_forced
  remove_all [] = ret tt
  remove_all (k ∷ ks) = let rest = remove_all ks in do removed ← remove_node_forced k; rest

  pub detect_failed_nodes : ℤ → TimePoint → Action Manager (Unit {0})
  unfolding lock_nodes detect_loop remove_all
  detect_failed_nodes seconds now = do
    gone ← lock_nodes (λ g. detect_loop seconds now g.node_registry g)
    remove_all gone

  unfoldable pub recover_from_node_failure : NodeId → Action Manager Bool
  unfolding find_replacement_connections establish_replacement_connections
  recover_from_node_failure k = do
    replacements ← in_world (find_replacement_connections k)
    in_world (establish_replacement_connections env replacements false)

  pub maintain_network_integrity : TimePoint → Action Manager Bool
  unfolding repair_if_disconnected detect_failed_nodes ensure_connectivity
  maintain_network_integrity now = do
    in_world (on_topology Topology.validate_topology)
    in_world repair_if_disconnected
    detect_failed_nodes node_timeout_sec now
    in_world (ensure_connectivity env)
