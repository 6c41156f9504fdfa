-- ===== src/Manager/Queries.antt =====
-- The queries of src/DynamicNodeManager.cpp over all entries of nodeRegistry_.
use peer_to_peer_network_ove.Prelude.{
  ℕ, ◌==◌, if◌then◌else◌, List, [], ◌∷◌, length, Map, lookup, none, some,
}
use peer_to_peer_network_ove.Common.{NodeId}
use peer_to_peer_network_ove.Outcome.{Action, ok, ret, ◌>>=◌}
use peer_to_peer_network_ove.Manager.State.{
  NodeState, joining, active, leaving, failed, unknown, NodeInfo, Manager, lock_nodes,
}

-- The value of the enumeration.
abbrev pub state_code : NodeState → ℕ
state_code joining = 0
state_code active = 1
state_code leaving = 2
state_code failed = 3
state_code unknown = 4

-- The loop over the registry.
pub nodes_in_state : NodeState → Map NodeInfo → List NodeId
nodes_in_state state [] = []
nodes_in_state state ((k, info) ∷ entries) =
    if state_code info.state == state_code state
    then k ∷ nodes_in_state state entries
    else nodes_in_state state entries

unfoldable pub get_nodes_by_state : NodeState → Action Manager (List NodeId)
unfolding lock_nodes nodes_in_state
get_nodes_by_state state = lock_nodes λ g. ok (nodes_in_state state g.node_registry, g)

unfoldable pub get_failed_nodes : Action Manager (List NodeId)
unfolding get_nodes_by_state
get_failed_nodes = get_nodes_by_state failed

-- The size of getNodesByState.
unfoldable pub get_active_node_count : Action Manager ℕ
unfolding get_nodes_by_state
get_active_node_count = do nodes ← get_nodes_by_state active; ret (length nodes)

unfoldable pub get_failed_node_count : Action Manager ℕ
unfolding get_nodes_by_state
get_failed_node_count = do nodes ← get_nodes_by_state failed; ret (length nodes)

abbrev pub infos : Map NodeInfo → List NodeInfo
infos [] = []
infos ((k, info) ∷ entries) = info ∷ infos entries

unfoldable pub get_all_node_info : Action Manager (List NodeInfo)
unfolding lock_nodes
get_all_node_info = lock_nodes λ g. ok (infos g.node_registry, g)

unfoldable pub get_node_state : NodeId → Action Manager NodeState
unfolding lock_nodes
get_node_state k =
    lock_nodes λ g. elim (lookup k g.node_registry) [
      | none ↦ ok (unknown, g)
      | some info ↦ ok (info.state, g)
    ]
