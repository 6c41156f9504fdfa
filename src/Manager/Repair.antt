-- ===== src/Manager/Repair.antt =====
-- The parts of src/DynamicNodeManager.cpp that work on the shared objects alone: repair of the
-- topology, replacement connections and connectivity.
pub mod Isolation
use peer_to_peer_network_ove.Prelude.{
  ◌==◌, ltb, leb, if◌then◌else◌, Bool, true, false, not, ◌&&◌, ◌||◌, List, [], ◌∷◌,
}
use peer_to_peer_network_ove.Common.{NodeId, NetworkAddress, max_peers}
use peer_to_peer_network_ove.Outcome.{Action, ok, ret, ◌>>=◌, ◌>>◌}
use peer_to_peer_network_ove.Node.{Node, add_peer, has_peer, get_peer_count}
use peer_to_peer_network_ove.Network.{Poco, connect_to_peer}
use peer_to_peer_network_ove.Topology
use peer_to_peer_network_ove.World.{World, on_topology}

pub repair_unless : Bool → Action World (Unit {0})
repair_unless true = ret tt
repair_unless false = on_topology Topology.repair_topology

-- `if (!isTopologyConnected()) repairTopology();`
unfoldable pub repair_if_disconnected : Action World (Unit {0})
unfolding repair_unless
repair_if_disconnected = do
  connected ← on_topology Topology.is_topology_connected
  repair_unless connected

-- The loop of findReplacementConnections.
pub replacements_in : Node → NodeId → List NodeId → List NodeId
replacements_in n removed [] = []
replacements_in n removed (k ∷ ks) =
    let rest = replacements_in n removed ks in
    if k == n.node_id || k == removed
    then rest
    else if not (has_peer n k) && ltb (get_peer_count n) max_peers
    then k ∷ rest
    else rest

unfoldable pub find_replacement_connections : NodeId → Action World (List NodeId)
unfolding replacements_in
find_replacement_connections removed = do
  nodes ← on_topology Topology.get_all_node_ids
  λ w. ok (replacements_in w.node removed nodes, w)

module _ (env : Poco) where
  -- addPeer and then connectToPeer, with the result of the first and of both.
  unfoldable pub add_and_connect : NodeId → NetworkAddress → World → Bool × World
  add_and_connect k address w =
      let (n, added) = add_peer w.node k address in
      let (connected, net) = connect_to_peer env address w.network in
      (added && connected, record w { node = n; network = net })

  -- One round of establishReplacementConnections: it connects only if addPeer succeeds.
  pub replace_one : NodeId → NetworkAddress → World → Bool × World
  unfolding add_and_connect
  replace_one k address w =
      if address.port == 0
      then (false, w)
      else if (add_peer w.node k address).1
      then add_and_connect k address w
      else (false, w)

  unfoldable pub establish_replacement_connections : List NodeId → Bool → Action World Bool
  unfolding replace_one
  establish_replacement_connections [] success = ret success
  establish_replacement_connections (k ∷ ks) success =
      let with_success = establish_replacement_connections ks true in
      let without = establish_replacement_connections ks success in
      let next = (do
        address ← on_topology (Topology.get_node_address k)
        λ w.
            let (connected, s) = replace_one k address w in
            if connected then with_success s else without s) in
      λ w. if leb max_peers (get_peer_count w.node) then ok (success, w) else next w

  -- The loop of ensureConnectivity.
  pub connect_loop : List NodeId → Action World (Unit {0})
  unfolding add_and_connect
  connect_loop [] = ret tt
  connect_loop (k ∷ ks) =
      let rest = connect_loop ks in
      let connect = (do
        address ← on_topology (Topology.get_node_address k)
        λ w. if address.port == 0 then rest w else rest (add_and_connect k address w).1) in
      λ w.
        if k == w.node.node_id || has_peer w.node k
        then rest w
        else if leb max_peers (get_peer_count w.node)
        then ok (tt, w)
        else connect w

  pub connect_more : Bool → Action World (Unit {0})
  unfolding connect_loop
  connect_more false = ret tt
  connect_more true = do nodes ← on_topology Topology.get_all_node_ids; connect_loop nodes

  unfoldable pub ensure_connectivity : Action World Bool
  unfolding connect_more
  ensure_connectivity = do
    λ w. connect_more (ltb (get_peer_count w.node) max_peers) w
    on_topology Topology.is_topology_connected
