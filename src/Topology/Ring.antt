-- ===== src/Topology/Ring.antt =====
-- The ring of repairTopology (src/TopologyManager.cpp), as its loop builds it: what the repair would
-- give if its calls did not lock the mutex twice.
use peer_to_peer_network_ove.Prelude.{
  ◌==◌, ◌≡◌, subst, inl, inr, true, false, Bool-cases, ==_iff, List, [], ◌∷◌, ◌++◌, mem, arith,
}
use peer_to_peer_network_ove.Common.{NodeId}
use peer_to_peer_network_ove.Outcome.{ok}
use peer_to_peer_network_ove.Topology.{Topology, add_edge, connect_ring, repair_ring}
use peer_to_peer_network_ove.Topology.Search
use peer_to_peer_network_ove.Topology.Search.{Adjacency}
use peer_to_peer_network_ove.Topology.Search.Walk.{Walk, here, step}
use peer_to_peer_network_ove.Topology.Search.Correct.{find_path-Decides}
use peer_to_peer_network_ove.Topology.Graph.{has_edge, has_edge-link2}

-- Some walk leads from one node to the other.
abbrev Joined : Adjacency → NodeId → NodeId → Type 0
Joined adj u v = (p : List NodeId) × Walk adj u v p

module _ {adj : Adjacency} {u : NodeId} where
  Joined-edge : {v w : NodeId} → Joined adj u v → has_edge adj v w ≡ true → Joined adj u w
  Joined-edge {v} {w} (p, walk) edge = (p ++ w ∷ [], step walk edge)

  Joined-trans : {v w : NodeId} {q : List NodeId} → Joined adj u v → Walk adj v w q → Joined adj u w
  Joined-trans j here = j
  Joined-trans j (step walk edge) = Joined-edge (Joined-trans j walk) edge

-- Each of two nodes is joined to the other.
abbrev Linked : Adjacency → NodeId → NodeId → Type 0
Linked adj u v = Joined adj u v × Joined adj v u

same-Linked : (adj : Adjacency) (u v : NodeId) → (u == v) ≡ true → Linked adj u v
same-Linked adj u v e = subst (Linked adj u) ((==_iff u v).0 e) ((u ∷ [], here), (u ∷ [], here))

add_edge-has_edge :
    (from to : NodeId) (t : Topology)
    → (from == to) ≡ false
    → (has_edge (add_edge from to t).adjacency_list from to ≡ true)
      × (has_edge (add_edge from to t).adjacency_list to from ≡ true)
unfolding add_edge
add_edge-has_edge from to t e = (
  ground (arith, has_edge-link2 from to from to t.adjacency_list),
  ground (arith, has_edge-link2 from to to from t.adjacency_list),
)

add_edge-keeps :
    (from to u v : NodeId) (t : Topology)
    → has_edge t.adjacency_list u v ≡ true
    → has_edge (add_edge from to t).adjacency_list u v ≡ true
unfolding add_edge
add_edge-keeps from to u v t e = ground (arith, has_edge-link2 from to u v t.adjacency_list)

connect_ring-keeps :
    (ids : List NodeId) (first u v : NodeId) (t : Topology)
    → has_edge t.adjacency_list u v ≡ true
    → has_edge (connect_ring ids first t).adjacency_list u v ≡ true
unfolding connect_ring
connect_ring-keeps [] first u v t e = e
connect_ring-keeps (k ∷ []) first u v t e = add_edge-keeps k first u v t e
connect_ring-keeps (k ∷ next ∷ ks) first u v t e =
    connect_ring-keeps (next ∷ ks) first u v (add_edge k next t) (add_edge-keeps k next u v t e)

-- The ends of a new edge stay joined while the ring grows.
connect_ring-Linked :
    (from to : NodeId) (ids : List NodeId) (first : NodeId) (t : Topology)
    → Linked (connect_ring ids first (add_edge from to t)).adjacency_list from to
connect_ring-Linked from to ids first t =
    let s = add_edge from to t in
    let adj = (connect_ring ids first s).adjacency_list in
    elim (Bool-cases (from == to)) [
      | inl e ↦ same-Linked adj from to e
      | inr e ↦
          let (there, back) = add_edge-has_edge from to t e in
          (
            Joined-edge (from ∷ [], here) (connect_ring-keeps ids first from to s there),
            Joined-edge (to ∷ [], here) (connect_ring-keeps ids first to from s back),
          )
    ]

-- The first node of the list is joined to each of the others, and each of them to it.
connect_ring-Joined :
    (k : NodeId) (ks : List NodeId) (first v : NodeId) (t : Topology)
    → mem v (k ∷ ks) ≡ true
    → Linked (connect_ring (k ∷ ks) first t).adjacency_list k v
unfolding connect_ring
connect_ring-Joined k [] first v t m =
    same-Linked (connect_ring (k ∷ []) first t).adjacency_list k v (ground arith)
connect_ring-Joined k (next ∷ ks) first v t m =
    let adj = (connect_ring (k ∷ next ∷ ks) first t).adjacency_list in
    let (there, back) = connect_ring-Linked k next (next ∷ ks) first t in
    elim (Bool-cases (k == v)) [
      | inl e ↦ same-Linked adj k v e
      | inr e ↦
          let (to, from) = connect_ring-Joined next ks first v (add_edge k next t) (ground arith) in
          (Joined-trans there to.1, Joined-trans from back.1)
    ]

repair_ring-Joined :
    (ids : List NodeId) (t : Topology) (u v : NodeId)
    → mem u ids ≡ true
    → mem v ids ≡ true
    → Joined (repair_ring ids t).adjacency_list u v
unfolding repair_ring
repair_ring-Joined [] t u v a b = absurd (cc)
repair_ring-Joined (k ∷ []) t u v a b =
    subst (Joined t.adjacency_list u) ((==_iff u v).0 (ground (arith, ==_iff k u))) (u ∷ [], here)
repair_ring-Joined (k ∷ next ∷ ks) t u v a b =
    let (to, from) = connect_ring-Joined k (next ∷ ks) k u t a in
    let (there, back) = connect_ring-Joined k (next ∷ ks) k v t b in Joined-trans from there.1

-- After the ring of repairTopology was built over a list of nodes, findPath finds a walk along edges
-- between any two of them.
pub find_path-repair_ring :
    (ids : List NodeId) (t : Topology) (u v : NodeId)
    → mem u ids ≡ true
    → mem v ids ≡ true
    → (p : List NodeId) × (Search.find_path (repair_ring ids t).adjacency_list u v ≡ ok p)
      × Walk (repair_ring ids t).adjacency_list u v p
find_path-repair_ring ids t u v a b =
    let adj = (repair_ring ids t).adjacency_list in
    let (q, walk) = repair_ring-Joined ids t u v a b in
    let (p, found, d) = find_path-Decides adj u v in
    elim d [ inl (_, never) ↦ absurd (never q walk) | inr w ↦ (p, found, w) ]
