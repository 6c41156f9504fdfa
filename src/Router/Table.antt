-- ===== src/Router/Table.antt =====
-- The routes and the routing table of src/MessageRouter.cpp against the search that they rest on.
use peer_to_peer_network_ove.Prelude.{
  ◌==◌, ◌≡◌, refl, ◌⊎◌, inl, inr, if◌then◌else◌, true, false, not, ◌&&◌, Option, some, none, List,
  [], ◌∷◌, Map, mem, lookup, lookup-insert, keys, mem-keys, contains, arith, Bool-cases,
}
use peer_to_peer_network_ove.Common.{NodeId, TimePoint}
use peer_to_peer_network_ove.Outcome.{ok, fault}
use peer_to_peer_network_ove.Node.{has_peer}
use peer_to_peer_network_ove.Router.State.{Router}
use peer_to_peer_network_ove.Router.{
  self_id, find_route, enter_route, route_loop, update_routing_table,
}
use peer_to_peer_network_ove.Topology.Search
use peer_to_peer_network_ove.Topology.Search.{Adjacency}
use peer_to_peer_network_ove.Topology.Search.Walk.{Walk}
use peer_to_peer_network_ove.Topology.Search.Correct.{find_path-Decides}
use peer_to_peer_network_ove.Topology.Queries.{find_path_free, get_all_node_ids_free}
use peer_to_peer_network_ove.Router.{World}
use peer_to_peer_network_ove.Prelude.{◌∙◌}
use peer_to_peer_network_ove.Prelude.{subst}
use peer_to_peer_network_ove.Prelude.{==_iff}

-- The next node on the path that the search finds.
abbrev pub second : List NodeId → Option NodeId
second (a ∷ b ∷ rest) = some b
second _ = none

abbrev pub next_hop : Adjacency → NodeId → NodeId → Option NodeId
next_hop adj from to = elim (Search.find_path adj from to) [ fault e ↦ none | ok p ↦ second p ]

abbrev pub IsFree : Router → Type 0
IsFree r = r.world.topology.topology_mutex ≡ false

abbrev pub adjacency : Router → Adjacency
adjacency r = r.world.topology.adjacency_list

-- With the topology's mutex free, findRoute returns and changes nothing. To a peer the route is the
-- direct one; to any other node it is a walk in the overlay graph from the local node to it, or the
-- empty route if there is no such walk.
pub find_route-Decides :
    (r : Router) (target : NodeId)
    → IsFree r
    → (route : List NodeId) × (find_route target r ≡ ok (route, r))
      × (((has_peer r.world.node target ≡ true) × (route ≡ self_id r ∷ target ∷ []))
          ⊎ ((has_peer r.world.node target ≡ false)
              × (((route ≡ []) × ((q : List NodeId) → ¬ Walk (adjacency r) (self_id r) target q))
                  ⊎ Walk (adjacency r) (self_id r) target route)))
unfolding find_route
find_route-Decides r target free = elim (Bool-cases (has_peer r.world.node target)) [
  | inl peer ↦ (self_id r ∷ target ∷ [], ground arith, inl (peer, refl))
  | inr far ↦
      let (p, e, d) = find_path-Decides (adjacency r) (self_id r) target in
      (p, ground (arith, find_path_free r.world.topology free (self_id r) target p e), inr (far, d))
]

enter_route-lookup :
    (target k : NodeId) (path : List NodeId) (now : TimePoint) (r : Router)
    → lookup k (enter_route target path now r).routing_table ≡ (
        if target == k
        then elim (second path) [ none ↦ lookup k r.routing_table | some h ↦ some h ]
        else lookup k r.routing_table)
unfolding enter_route
enter_route-lookup target k [] now r = ground arith
enter_route-lookup target k (a ∷ []) now r = ground arith
enter_route-lookup target k (a ∷ b ∷ rest) now r =
    ground (arith, lookup-insert k target b r.routing_table)

enter_route-world :
    (target : NodeId) (path : List NodeId) (now : TimePoint) (r : Router)
    → (enter_route target path now r).world ≡ r.world
unfolding enter_route
enter_route-world target [] now r = refl
enter_route-world target (a ∷ []) now r = refl
enter_route-world target (a ∷ b ∷ rest) now r = refl

next_hop-found :
    (adj : Adjacency) (from to : NodeId) (p : List NodeId)
    → Search.find_path adj from to ≡ ok p
    → next_hop adj from to ≡ second p
next_hop-found adj from to p e = ground arith

module _ (w : World) (free : w.topology.topology_mutex ≡ false) where
  abbrev self : NodeId
  self = w.node.node_id

  abbrev hop : NodeId → Option NodeId
  hop = next_hop w.topology.adjacency_list self

  -- What the loop over `ks` leaves in the table for `k`.
  abbrev entry : List NodeId → NodeId → Map NodeId → Option NodeId
  entry ks k table =
      if mem k ks && not (k == self)
      then elim (hop k) [ none ↦ lookup k table | some h ↦ some h ]
      else lookup k table

  -- One round of the loop, for a node that is not the local one.
  route_loop-step :
      (now : TimePoint) (target : NodeId) (ks p : List NodeId) (r : Router)
      → r.world ≡ w
      → (target == self) ≡ false
      → Search.find_path w.topology.adjacency_list self target ≡ ok p
      → route_loop now (target ∷ ks) r ≡ route_loop now ks (enter_route target p now r)
  unfolding route_loop
  route_loop-step now target ks p r e other found =
      ground (arith, find_path_free w.topology free self target p found)

  entry-step :
      (now : TimePoint) (target k : NodeId) (ks p : List NodeId) (r : Router)
      → (target == self) ≡ false
      → hop target ≡ second p
      → entry ks k (enter_route target p now r).routing_table
        ≡ entry (target ∷ ks) k r.routing_table
  entry-step now target k ks p r other found = elim (Bool-cases (target == k)) [
    | inr apart ↦ ground (arith, enter_route-lookup target k p now r)
    | inl same ↦
        subst
          (λ j.
            entry ks j (enter_route target p now r).routing_table
            ≡ entry (target ∷ ks) j r.routing_table)
          ((==_iff target k).0 same) (ground (arith, enter_route-lookup target target p now r))
  ]

  route_loop-entries :
      (now : TimePoint) (ks : List NodeId) (r : Router)
      → r.world ≡ w
      → (s : Router) × (route_loop now ks r ≡ ok (tt, s))
        × (s.world ≡ w)
        × ((k : NodeId) → lookup k s.routing_table ≡ entry ks k r.routing_table)
  unfolding route_loop
  route_loop-entries now [] r e = (r, refl, e, λ k. refl)
  route_loop-entries now (target ∷ ks) r e = elim (Bool-cases (target == self)) [
    | inl own ↦
        let (s, ends, same, table) = route_loop-entries now ks r e in
        (s, ground arith, same, λ k. ground (arith, table k))
    | inr other ↦
        let (p, found, _) = find_path-Decides w.topology.adjacency_list self target in
        let (s, ends, same, table) =
          route_loop-entries now ks (enter_route target p now r)
            (enter_route-world target p now r ∙ e) in
        (
          s,
          route_loop-step now target ks p r e other found ∙ ends,
          same,
          λ k.
              table k
              ∙ entry-step now target k ks p r other
                  (next_hop-found w.topology.adjacency_list self target p found),
        )
  ]

-- With the topology's mutex free, updateRoutingTable returns. The table then has, for each registered
-- node but the local one, the second node of the path that findPath finds to it, and no entry for
-- a node without a path or for any other node.
pub update_routing_table-entries :
    (now : TimePoint) (r : Router)
    → IsFree r
    → (s : Router) × (update_routing_table now r ≡ ok (tt, s))
      × (s.world ≡ r.world)
      × ((k : NodeId)
          → lookup k s.routing_table ≡ (
              if contains k r.world.topology.node_registry && not (k == self_id r)
              then next_hop (adjacency r) (self_id r) k
              else none))
unfolding update_routing_table
update_routing_table-entries now r free =
    let nodes = keys r.world.topology.node_registry in
    let cleared = record r { routing_table = []; hop_counts = [] } in
    let (s, ends, same, table) = route_loop-entries r.world free now nodes cleared refl in
    (
      s,
      ground (arith, get_all_node_ids_free r.world.topology free),
      same,
      λ k. ground (arith, table k, mem-keys k r.world.topology.node_registry),
    )
