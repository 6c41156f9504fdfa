-- ===== src/Router/State.antt =====
-- The state of MessageRouter (include/MessageRouter.h). The counters are size_t; their wrap-around
-- at 2^64 is not modelled.
use peer_to_peer_network_ove.Prelude.{ℕ, List, [], Map}
use peer_to_peer_network_ove.Prelude.Int.{ℤ}
use peer_to_peer_network_ove.Common.{NodeId, TimePoint}
use peer_to_peer_network_ove.Outcome.{Action, ok, fault}
use peer_to_peer_network_ove.World.{World}

pub data RoutingStrategy : Type 0 where
  direct shortest_path flood gossip : RoutingStrategy

pub record RoutingInfo : Type 0 where
  pub path : List NodeId
  pub hop_count : ℤ
  pub timestamp : ℕ
  pub strategy : RoutingStrategy

pub record Router : Type 0 where
  pub world : World
  pub routing_table : Map NodeId
  pub hop_counts : Map ℕ
  pub route_timestamps : Map TimePoint
  pub seen_messages : Map TimePoint
  pub routed_message_count : ℕ
  pub forwarded_message_count : ℕ
  pub total_hop_count : ℕ

-- The constructor.
abbrev pub new_router : World → Router
new_router w = record {
  world = w;
  routing_table = [];
  hop_counts = [];
  route_timestamps = [];
  seen_messages = [];
  routed_message_count = 0;
  forwarded_message_count = 0;
  total_hop_count = 0;
}

abbrev pub in_world : {A : Type 0} → Action World A → Action Router A
in_world m r = elim (m r.world) [ fault e ↦ fault e | ok (a, w) ↦ ok (a, record r { world = w }) ]
