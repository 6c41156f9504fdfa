-- ===== src/Manager/State.antt =====
-- The state of DynamicNodeManager (include/DynamicNodeManager.h) and its mutex. A callback is an
-- entry in a list of notices, the latest last.
use peer_to_peer_network_ove.Prelude.{
  ℕ, if◌then◌else◌, Bool, true, false, List, [], ◌∷◌, ◌++◌, Map, none, some, lookup, insert,
}
use peer_to_peer_network_ove.Common.{NodeId, NetworkAddress, no_address, TimePoint}
use peer_to_peer_network_ove.Outcome.{Action, ok, fault, deadlock}
use peer_to_peer_network_ove.World.{World}

pub data NodeState : Type 0 where
  joining active leaving failed unknown : NodeState

pub record NodeInfo : Type 0 where
  pub node_id : NodeId
  pub address : NetworkAddress
  pub state : NodeState
  pub last_seen : TimePoint
  pub join_time : TimePoint
  pub failure_count : ℕ

-- The default constructor; its time points are those of the epoch.
abbrev pub no_info : NodeInfo
no_info = record {
  node_id = 0;
  address = no_address;
  state = unknown;
  last_seen = 0;
  join_time = 0;
  failure_count = 0;
}

-- The calls of the four callbacks.
pub data ManagerNotice : Type 0 where
  node_added : NodeId → NetworkAddress → ManagerNotice
  node_removed : NodeId → ManagerNotice
  node_failed : NodeId → ManagerNotice
  network_repaired : ManagerNotice

pub record Manager : Type 0 where
  pub world : World
  -- held by the calling thread
  pub nodes_mutex : Bool
  pub node_registry : Map NodeInfo
  pub failure_detection_active : Bool
  -- whether each callback is set
  pub on_node_added : Bool
  pub on_node_removed : Bool
  pub on_node_failed : Bool
  pub on_network_repaired : Bool
  pub manager_notices : List ManagerNotice

-- The constructor.
abbrev pub new_manager : World → Manager
new_manager w = record {
  world = w;
  nodes_mutex = false;
  node_registry = [];
  failure_detection_active = false;
  on_node_added = false;
  on_node_removed = false;
  on_node_failed = false;
  on_network_repaired = false;
  manager_notices = [];
}

abbrev pub in_world : {A : Type 0} → Action World A → Action Manager A
in_world m g = elim (m g.world) [ fault e ↦ fault e | ok (a, w) ↦ ok (a, record g { world = w }) ]

-- A callback is called if it is set.
abbrev pub tell : Bool → ManagerNotice → Manager → Manager
tell set notice g = record g {
  manager_notices = if set then g.manager_notices ++ notice ∷ [] else g.manager_notices;
}

-- std::lock_guard over the rest of a block. A std::mutex is not recursive.
unfoldable pub lock_nodes : {A : Type 0} → Action Manager A → Action Manager A
lock_nodes body g =
    if g.nodes_mutex then fault deadlock else elim (body (record g { nodes_mutex = true })) [
      | fault e ↦ fault e
      | ok (a, u) ↦ ok (a, record u { nodes_mutex = false })
    ]

-- The entry of a node is changed, where there is one.
unfoldable pub change_info : NodeId → (NodeInfo → NodeInfo) → Manager → Manager
change_info k f g = elim (lookup k g.node_registry) [
  | none ↦ g
  | some info ↦ record g { node_registry = insert k (f info) g.node_registry }
]
