-- ===== src/Manager/Counters.antt =====
-- The entries of single nodes in src/DynamicNodeManager.cpp: their state, and the failures that are
-- counted for them.
use peer_to_peer_network_ove.Prelude.{
  suc, leb, if◌then◌else◌, Bool, true, false, none, some, lookup, contains,
}
use peer_to_peer_network_ove.Common.{NodeId, TimePoint}
use peer_to_peer_network_ove.Outcome.{Action, ok}
use peer_to_peer_network_ove.Manager.State.{
  NodeState, active, failed, NodeInfo, no_info, Manager, lock_nodes, change_info,
}

pub set_node_state : NodeId → NodeState → Action Manager (Unit {0})
unfolding lock_nodes change_info
set_node_state k state =
    lock_nodes λ g. ok (tt, change_info k (λ info. record info { state = state }) g)

unfoldable pub handle_topology_change : NodeId → Bool → Action Manager (Unit {0})
unfolding set_node_state
handle_topology_change k added = set_node_state k (if added then active else failed)

unfoldable pub get_node_info : NodeId → Action Manager NodeInfo
unfolding lock_nodes
get_node_info k =
    lock_nodes λ g. ok (elim (lookup k g.node_registry) [ none ↦ no_info | some info ↦ info ], g)

unfoldable pub increment_failure_count : NodeId → Action Manager (Unit {0})
unfolding lock_nodes change_info
increment_failure_count k =
    lock_nodes
      λ g. ok (tt, change_info k (λ info. record info { failure_count = suc info.failure_count }) g)

unfoldable pub reset_failure_count : NodeId → Action Manager (Unit {0})
unfolding lock_nodes change_info
reset_failure_count k =
    lock_nodes λ g. ok (tt, change_info k (λ info. record info { failure_count = 0 }) g)

unfoldable pub should_remove_node : NodeId → Action Manager Bool
unfolding lock_nodes
should_remove_node k = lock_nodes λ g.
    ok (elim (lookup k g.node_registry) [ none ↦ false | some info ↦ leb 3 info.failure_count ], g)

-- resetFailureCount is called under the lock.
unfoldable pub update_node_last_seen : NodeId → TimePoint → Action Manager (Unit {0})
unfolding lock_nodes reset_failure_count change_info
update_node_last_seen k now = lock_nodes λ g.
    if contains k g.node_registry
    then reset_failure_count k (change_info k (λ info. record info { last_seen = now }) g)
    else ok (tt, g)

abbrev pub start_failure_detection : Manager → Manager
start_failure_detection g = record g { failure_detection_active = true }

abbrev pub stop_failure_detection : Manager → Manager
stop_failure_detection g = record g { failure_detection_active = false }
