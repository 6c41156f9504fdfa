-- ===== src/Discovery.antt =====
-- include/NodeDiscovery.h and src/NodeDiscovery.cpp: bootstrap nodes, and the peers that are found in
-- the topology. discoveredNodesMutex_ is never taken twice by one call, so it is not in the state;
-- a callback is an entry in a list of notices, the latest last. Readings of the clock within one
-- call are taken as equal.
pub mod Peers
pub mod Isolation
use text.Mathlib.Text.{◌==◌ as str_eq}
use peer_to_peer_network_ove.Prelude.{
  ℕ, suc, ◌==◌, if◌then◌else◌, Bool, true, false, not, ◌||◌, List, [], ◌∷◌, ◌++◌, mem, Map, keys,
  length, lookup, contains, insert, erase, none, some,
}
use peer_to_peer_network_ove.Prelude.Int.{ℤ, pos, ltb_ℤ}
use peer_to_peer_network_ove.Common.{
  NodeId, NetworkAddress, address_eq, TimePoint, max_peers, elapsed_seconds,
}
use peer_to_peer_network_ove.Outcome.{Outcome, Action, ok, fault, ret, ◌>>=◌, ◌>>◌}
use peer_to_peer_network_ove.Network.{Poco, connect_to_peer, is_connected_to}
use peer_to_peer_network_ove.Topology
use peer_to_peer_network_ove.World.{World, on_topology, on_network}

-- The calls of the two callbacks.
pub data DiscoveryNotice : Type 0 where
  peer_discovered : NodeId → NetworkAddress → DiscoveryNotice
  discovery_failed : NetworkAddress → DiscoveryNotice

pub record Discovery : Type 0 where
  pub world : World
  pub discovery_active : Bool
  pub discovered_nodes : Map NetworkAddress
  pub discovery_timestamps : Map TimePoint
  -- whether each callback is set
  pub on_peer_discovered : Bool
  pub on_discovery_failed : Bool
  pub discovery_notices : List DiscoveryNotice

-- The constructor.
abbrev pub new_discovery : World → Discovery
new_discovery w = record {
  world = w;
  discovery_active = false;
  discovered_nodes = [];
  discovery_timestamps = [];
  on_peer_discovered = false;
  on_discovery_failed = false;
  discovery_notices = [];
}

abbrev pub in_world : {A : Type 0} → Action World A → Action Discovery A
in_world m d = elim (m d.world) [ fault e ↦ fault e | ok (a, w) ↦ ok (a, record d { world = w }) ]

-- A callback is called if it is set.
abbrev pub tell : Bool → DiscoveryNotice → Discovery → Discovery
tell set notice d = record d {
  discovery_notices = if set then d.discovery_notices ++ notice ∷ [] else d.discovery_notices;
}

unfoldable pub validate_node_address : NetworkAddress → Discovery → Bool
validate_node_address a d =
    if str_eq a.host "" || a.port == 0 then false else not (address_eq a d.world.node.address)

unfoldable pub add_discovered_node : NodeId → NetworkAddress → TimePoint → Discovery → Discovery
add_discovered_node k address now d = record d {
  discovered_nodes = insert k address d.discovered_nodes;
  discovery_timestamps = insert k now d.discovery_timestamps;
}

-- `maxPeers <= n`.
abbrev pub is_enough : ℤ → ℕ → Bool
is_enough max n = not (ltb_ℤ (pos n) max)

-- The loop of discoverPeers, after `n` nodes were found.
unfoldable pub discover_loop : ℤ → TimePoint → List NodeId → ℕ → Action Discovery (List NodeId)
unfolding add_discovered_node
discover_loop max now [] n = ret []
discover_loop max now (k ∷ ks) n =
    let rest = discover_loop max now ks n in
    let more = discover_loop max now ks (suc n) in
    let look = (do
      address ← in_world (on_topology (Topology.get_node_address k))
      λ d.
          if address.port == 0
          then rest d
          else (do others ← if is_enough max (suc n) then ret [] else more; ret (k ∷ others))
              (tell d.on_peer_discovered (peer_discovered k address)
                (add_discovered_node k address now d))) in
    λ d. if k == d.world.node.node_id || mem k d.world.node.peer_ids then rest d else look d

unfoldable pub discover_peers : ℤ → TimePoint → Action Discovery (List NodeId)
unfolding discover_loop
discover_peers max now = do
  nodes ← in_world (on_topology Topology.get_all_node_ids)
  discover_loop max now nodes 0

-- The loop that erases the entries of both maps through an iterator of the timestamps.
unfoldable pub remove_stale : ℤ → TimePoint → Map TimePoint → Discovery → Discovery
remove_stale seconds now [] d = d
remove_stale seconds now ((k, found) ∷ entries) d = remove_stale seconds now entries (
    if ltb_ℤ seconds (elapsed_seconds now found)
    then record d {
      discovered_nodes = erase k d.discovered_nodes;
      discovery_timestamps = erase k d.discovery_timestamps;
    }
    else d)

unfoldable pub remove_stale_nodes : ℤ → TimePoint → Discovery → Discovery
unfolding remove_stale
remove_stale_nodes seconds now d = remove_stale seconds now d.discovery_timestamps d

abbrev pub get_discovered_nodes : Discovery → List NodeId
get_discovered_nodes d = keys d.discovered_nodes

abbrev pub get_discovered_node_count : Discovery → ℕ
get_discovered_node_count d = length d.discovered_nodes

abbrev pub start_periodic_discovery : Discovery → Discovery
start_periodic_discovery d = record d { discovery_active = true }

abbrev pub stop_periodic_discovery : Discovery → Discovery
stop_periodic_discovery d = record d { discovery_active = false }

-- onDiscoveryFailed_ for each address.
pub report_failed : List NetworkAddress → Discovery → Discovery
report_failed [] d = d
report_failed (a ∷ others) d =
    report_failed others (tell d.on_discovery_failed (discovery_failed a) d)

module _ (env : Poco) where
  unfoldable pub connect_to_bootstrap_node : NetworkAddress → Action Discovery Bool
  unfolding validate_node_address
  connect_to_bootstrap_node a d =
      if not (validate_node_address a d)
      then ok (false, d)
      else in_world (on_network (connect_to_peer env a)) d

  -- The loop that stops at the first connection.
  unfoldable pub connect_any : List NetworkAddress → Action Discovery Bool
  unfolding connect_to_bootstrap_node
  connect_any [] = ret false
  connect_any (a ∷ others) =
      let rest = connect_any others in
      do connected ← connect_to_bootstrap_node a; if connected then ret true else rest

  -- What follows the loop in discoverNetwork.
  unfoldable pub finish_discovery : List NetworkAddress → TimePoint → Bool → Action Discovery Bool
  unfolding report_failed discover_peers
  finish_discovery addresses now false d = ok (false, report_failed addresses d)
  finish_discovery addresses now true d =
      (do peers ← discover_peers (pos max_peers) now; ret true) d

  unfoldable pub discover_network : List NetworkAddress → TimePoint → Action Discovery Bool
  unfolding connect_any finish_discovery
  discover_network [] now = ret false
  discover_network (a ∷ others) now = do
    connected ← connect_any (a ∷ others)
    finish_discovery (a ∷ others) now connected

  unfoldable pub request_peer_list : NodeId → Action Discovery Bool
  request_peer_list k = do
    address ← in_world (on_topology (Topology.get_node_address k))
    λ d.
        if address.port == 0
        then ok (false, d)
        else if is_connected_to k d.world.network
        then ok (true, d)
        else in_world (on_network (connect_to_peer env address)) d
