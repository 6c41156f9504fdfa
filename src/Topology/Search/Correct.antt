-- ===== src/Topology/Search/Correct.antt =====
-- findPath (src/TopologyManager.cpp): it ends, and its result decides whether a walk exists.
use peer_to_peer_network_ove.Prelude.{
  ℕ, zero, suc, ◌≤◌, ◌==◌, ◌≡◌, refl, subst, ◌⊎◌, inl, inr, true, false, ◌||◌, List, [], ◌∷◌,
  length, mem, arith, Bool-cases, ==_iff, List-cases, ap, ◌++◌, sym, reverse, insert, insert_set,
}
use peer_to_peer_network_ove.Common.{NodeId}
use peer_to_peer_network_ove.Outcome.{Outcome, ok}
use peer_to_peer_network_ove.Topology.Search.{
  Adjacency, Search, neighbors, start, scan, reconstruct, search_loop, targets, find_path,
}
use peer_to_peer_network_ove.Topology.Search.Walk.{IsEdge, Walk, here, step, root, backtrack-Chain}
use peer_to_peer_network_ove.Topology.Search.Loop.{
  IsTree, Rooted, scan-visited, scan-queue, scan-IsTree, work, scan-work, targets-neighbors,
  unseen-le-length,
}
use peer_to_peer_network_ove.Prelude.{reverse}

-- The result of a search: a walk, or the empty path if there is none.
abbrev pub Decides : Adjacency → NodeId → NodeId → Outcome (List NodeId) → Type 0
Decides adj from to r =
    (p : List NodeId) × (r ≡ ok p)
    × (((p ≡ []) × ((q : List NodeId) → ¬ Walk adj from to q)) ⊎ Walk adj from to p)

work-start :
    (adj : Adjacency) (from : NodeId) → work (targets adj) (start from) ≤ suc (length (targets adj))
unfolding start
work-start adj from = omega (arith, unseen-le-length (insert_set from []) (targets adj))

module _ (adj : Adjacency) (from to : NodeId) where
  -- A visited node waits in the queue, or it is not the target and its neighbors are visited.
  record Inv (s : Search) : Type 0 where
    tree : IsTree adj from s
    queued : (v : NodeId) → mem v s.queue ≡ true → mem v s.visited ≡ true
    closed :
        (u : NodeId)
        → mem u s.visited ≡ true
        → (mem u s.queue ≡ true)
          ⊎ ((u == to) ≡ false) × ((v : NodeId) → IsEdge adj u v → mem v s.visited ≡ true)

  IsTree-start : IsTree adj from (start from)
  unfolding start insert_set insert
  IsTree-start = record {
    keyed = λ v. ground arith;
    source = ground arith;
    chained =
        λ v m. subst (Rooted adj from _) ((==_iff from v).0 (ground arith)) (0, root, omega arith);
  }

  Inv-start : Inv (start from)
  unfolding start insert_set
  Inv-start = record { tree = IsTree-start; queued = λ v h. h; closed = λ u h. inl h }

  module _ (s : Search) (current : NodeId) (rest : List NodeId) (e : s.queue ≡ current ∷ rest)
      (apart : (current == to) ≡ false) (h : Inv s) where
    abbrev popped : Search
    popped = record s { queue = rest }

    abbrev scanned : Search
    scanned = scan current popped (neighbors adj current)

    queue-popped : (v : NodeId) → mem v s.queue ≡ (current == v || mem v rest)
    queue-popped v = ap (mem v) e

    current-visited : mem current s.visited ≡ true
    current-visited = h.queued current (ground (arith, queue-popped current))

    now_visited : (v : NodeId) → mem v s.visited ≡ true → mem v scanned.visited ≡ true
    now_visited v m = ground (arith, scan-visited current popped (neighbors adj current) v)

    neighbor-visited : (v : NodeId) → IsEdge adj current v → mem v scanned.visited ≡ true
    neighbor-visited v m = ground (arith, scan-visited current popped (neighbors adj current) v)

    abbrev IsClosed : NodeId → Type 0
    IsClosed u =
        (mem u scanned.queue ≡ true)
        ⊎ ((u == to) ≡ false) × ((v : NodeId) → IsEdge adj u v → mem v scanned.visited ≡ true)

    IsClosed-before : (u : NodeId) → mem u s.visited ≡ true → IsClosed u
    IsClosed-before u m = elim (h.closed u m) [
      | inr (other, near) ↦ inr (other, λ v edge. now_visited v (near v edge))
      | inl waits ↦ elim (Bool-cases (current == u)) [
        | inr stays ↦
            inl
              (ground (arith, queue-popped u, scan-queue current popped (neighbors adj current) u))
        | inl same ↦ subst IsClosed ((==_iff current u).0 same) (inr (apart, neighbor-visited))
      ]
    ]

    -- One round of the `while` loop that does not meet the target.
    Inv-scan : Inv scanned
    Inv-scan = record {
      tree =
          scan-IsTree adj from current popped (neighbors adj current)
            (record { keyed = h.tree.keyed; source = h.tree.source; chained = h.tree.chained })
            current-visited (λ v m. m);
      queued = λ v m. ground (
        arith,
        h.queued v,
        queue-popped v,
        scan-queue current popped (neighbors adj current) v,
        scan-visited current popped (neighbors adj current) v,
      );
      closed = λ u m. elim (Bool-cases (mem u s.visited)) [
        | inl old ↦ IsClosed-before u old
        | inr new ↦ inl (
            ground (
              arith,
              scan-queue current popped (neighbors adj current) u,
              scan-visited current popped (neighbors adj current) u,
            ))
      ];
    }

    work-scan : suc (work (targets adj) scanned) ≤ work (targets adj) s
    work-scan = omega (
      arith,
      ap length e,
      scan-work (targets adj) current popped (neighbors adj current)
          (λ v m. targets-neighbors adj current v m),
    )

  -- With an empty queue no walk leads to the target.
  settled :
      (s : Search)
      → Inv s
      → s.queue ≡ []
      → (u : NodeId) → mem u s.visited ≡ true
      → ((u == to) ≡ false) × ((v : NodeId) → IsEdge adj u v → mem v s.visited ≡ true)
  settled s h e u m = elim (h.closed u m) [
    | inl waits ↦ absurd (ground (arith, ap (mem u) e))
    | inr done ↦ done
  ]

  complete :
      (s : Search)
      → Inv s
      → s.queue ≡ []
      → {v : NodeId} {p : List NodeId} → Walk adj from v p
      → mem v s.visited ≡ true
  complete s h e here = h.tree.source
  complete s h e (step {u} {v} w edge) = (settled s h e u (complete s h e w)).1 v edge

  no-Walk : (s : Search) → Inv s → s.queue ≡ [] → (q : List NodeId) → ¬ Walk adj from to q
  no-Walk s h e q w = ground (arith, (settled s h e to (complete s h e w)).0)

  reconstruct-Decides :
      (s : Search)
      → Inv s
      → mem to s.visited ≡ true
      → Decides adj from to (reconstruct s.parent from to)
  unfolding reconstruct
  reconstruct-Decides s h m =
      let (n, chain, short) = h.tree.chained to m in
      let (rest, back, walk) = backtrack-Chain (suc (length s.parent)) chain (omega arith) in
      (reverse (rest ++ from ∷ []), rw (back, reconstruct), inr walk)

  target-visited :
      (s : Search) (current : NodeId) (rest : List NodeId)
      → s.queue ≡ current ∷ rest
      → Inv s
      → (current == to) ≡ true
      → mem to s.visited ≡ true
  target-visited s current rest e h found =
      subst (λ k. mem k s.visited ≡ true) ((==_iff current to).0 found)
        (h.queued current (ground (arith, ap (mem current) e)))

  search_loop-found :
      (fuel : ℕ) (s : Search) (current : NodeId) (rest : List NodeId)
      → s.queue ≡ current ∷ rest
      → (current == to) ≡ true
      → search_loop adj from to (suc fuel) s ≡ reconstruct s.parent from to
  unfolding search_loop
  search_loop-found fuel s current rest e found = ground arith

  search_loop-other :
      (fuel : ℕ) (s : Search) (current : NodeId) (rest : List NodeId)
      → s.queue ≡ current ∷ rest
      → (current == to) ≡ false
      → search_loop adj from to (suc fuel) s
        ≡ search_loop adj from to fuel
            (scan current (record s { queue = rest }) (neighbors adj current))
  unfolding search_loop
  search_loop-other fuel s current rest e other = ground arith

  search_loop-Decides :
      (fuel : ℕ) (s : Search)
      → Inv s
      → work (targets adj) s ≤ fuel
      → Decides adj from to (search_loop adj from to fuel s)
  unfolding search_loop
  search_loop-Decides zero s h b = elim (List-cases s.queue) [
    | inl empty ↦ ([], rw (empty, search_loop), inl (refl, no-Walk s h empty))
    | inr (current, rest, e) ↦ absurd (omega (arith, ap length e))
  ]
  search_loop-Decides (suc fuel) s h b = elim (List-cases s.queue) [
    | inl empty ↦ ([], rw (empty, search_loop), inl (refl, no-Walk s h empty))
    | inr (current, rest, e) ↦ elim (Bool-cases (current == to)) [
      | inl found ↦
          subst (Decides adj from to) (sym (search_loop-found fuel s current rest e found))
            (reconstruct-Decides s h (target-visited s current rest e h found))
      | inr other ↦
          subst (Decides adj from to) (sym (search_loop-other fuel s current rest e other)) (
            search_loop-Decides fuel (scanned s current rest e other h)
              (Inv-scan s current rest e other h)
              (omega (arith, work-scan s current rest e other h)))
    ]
  ]

pub find_path-Decides :
    (adj : Adjacency) (from to : NodeId) → Decides adj from to (find_path adj from to)
unfolding find_path
find_path-Decides adj from to = elim (Bool-cases (from == to)) [
  | inl same ↦ (
    from ∷ [],
    rw (same, find_path),
    inr (subst (λ k. Walk adj from k (from ∷ [])) ((==_iff from to).0 same) here),
  )
  | inr other ↦
      let (p, r, d) =
        search_loop-Decides adj from to (suc (length (targets adj))) (start from)
          (Inv-start adj from to) (work-start adj from) in
      (p, rw (other, find_path) r, d)
]
