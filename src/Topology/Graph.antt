-- ===== src/Topology/Graph.antt =====
-- The overlay graph of src/TopologyManager.cpp: registry and adjacency list have the same nodes, and
-- the edges are symmetric, without loops and between registered nodes.
use peer_to_peer_network_ove.Prelude.{
  ◌==◌, ◌≡◌, ◌∙◌, ap, refl, inl, inr, if◌then◌else◌, Bool, true, false, not, ◌&&◌, ◌||◌, List, [],
  Map, mem, lookup, contains, insert, erase, arith, insert_set, erase_set, map_values,
  lookup-insert, lookup-erase, lookup-map_values, mem-insert_set, mem-erase_set, Option-cases,
  Bool-cases,
}
use peer_to_peer_network_ove.Common.{NodeId, NetworkAddress}
use peer_to_peer_network_ove.Topology.{
  Topology, new_topology, add_node_body, remove_node_from_graph, add_edge, remove_edge, link,
  unlink,
}
use peer_to_peer_network_ove.Topology.Search.{Adjacency, neighbors}
use peer_to_peer_network_ove.Prelude.{Bool-cases}

abbrev pub has_edge : Adjacency → NodeId → NodeId → Bool
has_edge adj u v = mem v (neighbors adj u)

abbrev pub is_registered : Topology → NodeId → Bool
is_registered t k = contains k t.node_registry

pub record IsWellFormed (t : Topology) : Type 0 where
  pub same_nodes : (u : NodeId) → contains u t.adjacency_list ≡ is_registered t u
  pub symmetric : (u v : NodeId) → has_edge t.adjacency_list u v ≡ has_edge t.adjacency_list v u
  pub no_loop : (u : NodeId) → has_edge t.adjacency_list u u ≡ false
  pub between_nodes :
      (u v : NodeId) → has_edge t.adjacency_list u v ≡ true → is_registered t v ≡ true

pub new_topology-IsWellFormed : (id : NodeId) → IsWellFormed (new_topology id)
unfolding new_topology
new_topology-IsWellFormed id = record {
  same_nodes = λ u. refl;
  symmetric = λ u v. refl;
  no_loop = λ u. refl;
  between_nodes = λ u v e. cc;
}

-- One lemma for each operation: the edges and the nodes after it.
pub has_edge-insert :
    (k u v : NodeId) (s : List NodeId) (adj : Adjacency)
    → has_edge (insert k s adj) u v ≡ (if k == u then mem v s else has_edge adj u v)
has_edge-insert k u v s adj = ground (arith, lookup-insert u k s adj)

pub has_edge-remove :
    (k u v : NodeId) (adj : Adjacency)
    → has_edge (map_values (erase_set k) (erase k adj)) u v
      ≡ (not (k == u) && not (k == v) && has_edge adj u v)
has_edge-remove k u v adj = ground (
  arith,
  lookup-map_values (erase_set k) u (erase k adj),
  lookup-erase u k adj,
  mem-erase_set v k (neighbors adj u),
)

pub has_edge-link :
    (from to u v : NodeId) (adj : Adjacency)
    → has_edge (link from to adj) u v ≡ ((from == u && to == v) || has_edge adj u v)
has_edge-link from to u v adj = ground (
  arith,
  has_edge-insert from u v (insert_set to (neighbors adj from)) adj,
  mem-insert_set v to (neighbors adj from),
)

has_edge-unlink :
    (from to u v : NodeId) (adj : Adjacency)
    → has_edge (unlink from to adj) u v ≡ (not (from == u && to == v) && has_edge adj u v)
has_edge-unlink from to u v adj = ground (
  arith,
  has_edge-insert from u v (erase_set to (neighbors adj from)) adj,
  mem-erase_set v to (neighbors adj from),
)

contains-insert {ℓ} :
    {V : Type ℓ} (k u : NodeId) (x : V) (m : Map V)
    → contains u (insert k x m) ≡ (k == u || contains u m)
contains-insert k u x m = ground (arith, lookup-insert u k x m)

contains-unlink :
    (from to u : NodeId) (adj : Adjacency) → contains u (unlink from to adj) ≡ contains u adj
contains-unlink from to u adj =
    ground (arith, contains-insert from u (erase_set to (neighbors adj from)) adj)

contains-remove :
    (k u : NodeId) (adj : Adjacency)
    → contains u (map_values (erase_set k) (erase k adj)) ≡ (not (k == u) && contains u adj)
contains-remove k u adj =
    ground (arith, lookup-map_values (erase_set k) u (erase k adj), lookup-erase u k adj)

pub has_edge-link2 :
    (from to u v : NodeId) (adj : Adjacency)
    → has_edge (link to from (link from to adj)) u v
      ≡ ((to == u && from == v) || ((from == u && to == v) || has_edge adj u v))
has_edge-link2 from to u v adj =
    rw (has_edge-link to from u v (link from to adj), has_edge-link from to u v adj)

has_edge-unlink2 :
    (from to u v : NodeId) (adj : Adjacency)
    → has_edge (unlink to from (unlink from to adj)) u v
      ≡ (not (to == u && from == v) && (not (from == u && to == v) && has_edge adj u v))
has_edge-unlink2 from to u v adj =
    rw (has_edge-unlink to from u v (unlink from to adj), has_edge-unlink from to u v adj)

contains-link2 :
    (from to u : NodeId) (adj : Adjacency)
    → contains u (link to from (link from to adj)) ≡ (to == u || (from == u || contains u adj))
contains-link2 from to u adj =
    contains-insert to u _ (link from to adj) ∙ ap (◌||◌ (to == u)) (contains-insert from u _ adj)

module _ (t : Topology) (w : IsWellFormed t) where
  abbrev adj : Adjacency
  adj = t.adjacency_list

  -- Adding a node keeps the graph well formed.
  pub add_node_body-IsWellFormed :
      (k : NodeId) (address : NetworkAddress) → IsWellFormed (add_node_body k address t).1
  unfolding add_node_body
  add_node_body-IsWellFormed k address = elim (Option-cases (lookup k t.node_registry)) [
    | inr (a, e) ↦ rw (e, add_node_body) w
    | inl e ↦
        rw (e, add_node_body)
          (record {
            same_nodes = λ u. ground (
              arith,
              contains-insert k u [] adj,
              contains-insert k u address t.node_registry,
              w.same_nodes u,
            );
            symmetric = λ u v. ground (
              arith,
              has_edge-insert k u v [] adj,
              has_edge-insert k v u [] adj,
              w.symmetric u v,
              w.between_nodes u v,
              w.between_nodes v u,
            );
            no_loop = λ u. ground (arith, has_edge-insert k u u [] adj, w.no_loop u);
            between_nodes = λ u v. ground (
              arith,
              has_edge-insert k u v [] adj,
              contains-insert k v address t.node_registry,
              w.between_nodes u v,
            );
          })
  ]

  -- Removing a node keeps the graph well formed.
  pub remove_node_from_graph-IsWellFormed : (k : NodeId) → IsWellFormed (remove_node_from_graph k t)
  unfolding remove_node_from_graph
  remove_node_from_graph-IsWellFormed k = record {
    same_nodes = λ u.
        ground (arith, contains-remove k u adj, lookup-erase u k t.node_registry, w.same_nodes u);
    symmetric = λ u v.
        ground (arith, has_edge-remove k u v adj, has_edge-remove k v u adj, w.symmetric u v);
    no_loop = λ u. ground (arith, has_edge-remove k u u adj, w.no_loop u);
    between_nodes = λ u v.
        ground
          (arith, has_edge-remove k u v adj, lookup-erase v k t.node_registry, w.between_nodes u v);
  }

  -- An edge between two registered nodes keeps the graph well formed.
  pub add_edge-IsWellFormed :
      (from to : NodeId)
      → is_registered t from ≡ true
      → is_registered t to ≡ true
      → IsWellFormed (add_edge from to t)
  unfolding add_edge
  add_edge-IsWellFormed from to hf ht = elim (Bool-cases (from == to)) [
    | inl e ↦ rw (e, add_edge) w
    | inr e ↦
        rw (e, add_edge)
          (record {
            same_nodes = λ u. ground (arith, contains-link2 from to u adj, w.same_nodes u);
            symmetric = λ u v. ground (
              arith,
              has_edge-link2 from to u v adj,
              has_edge-link2 from to v u adj,
              w.symmetric u v,
            );
            no_loop = λ u. ground (arith, has_edge-link2 from to u u adj, w.no_loop u);
            between_nodes =
                λ u v. ground (arith, has_edge-link2 from to u v adj, w.between_nodes u v);
          })
  ]

  -- Removing an edge keeps the graph well formed.
  pub remove_edge-IsWellFormed : (from to : NodeId) → IsWellFormed (remove_edge from to t)
  unfolding remove_edge
  remove_edge-IsWellFormed from to = record {
    same_nodes = λ u. ground (
      arith,
      contains-unlink to from u (unlink from to adj),
      contains-unlink from to u adj,
      w.same_nodes u,
    );
    symmetric = λ u v. ground (
      arith,
      has_edge-unlink2 from to u v adj,
      has_edge-unlink2 from to v u adj,
      w.symmetric u v,
    );
    no_loop = λ u. ground (arith, has_edge-unlink2 from to u u adj, w.no_loop u);
    between_nodes = λ u v. ground (arith, has_edge-unlink2 from to u v adj, w.between_nodes u v);
  }
