-- ===== src/Topology/Search/Walk.antt =====
-- Walks in the adjacency list, and the chains of parents that findPath (src/TopologyManager.cpp)
-- follows back.
use mathlib.Core.List.{reverse-cons}
use peer_to_peer_network_ove.Prelude.{
  ℕ, zero, suc, ◌<◌, ◌≡◌, ◌≢◌, subst, sym, true, none, some, List, [], ◌∷◌, ◌++◌, reverse, Map, mem,
  lookup, insert, lookup-insert, arith,
}
use peer_to_peer_network_ove.Common.{NodeId}
use peer_to_peer_network_ove.Topology.Search.{Adjacency, neighbors, backtrack}

abbrev pub IsEdge : Adjacency → NodeId → NodeId → Type 0
IsEdge adj u v = mem v (neighbors adj u) ≡ true

-- `Walk adj from v p`: the list `p` starts with `from`, ends with `v` and steps along edges.
pub data Walk (adj : Adjacency) (from : NodeId) : NodeId → List NodeId → Type 0 where
  here : Walk adj from from (from ∷ [])
  step :
      {u v : NodeId} {p : List NodeId}
      → Walk adj from u p
      → IsEdge adj u v
      → Walk adj from v (p ++ v ∷ [])

-- `v` leads back to `from` in `n` steps through the map of parents.
pub data Chain (adj : Adjacency) (parent : Map NodeId) (from : NodeId) : NodeId → ℕ → Type 0 where
  root : Chain adj parent from from zero
  link :
      {u v : NodeId} {n : ℕ}
      → Chain adj parent from u n
      → lookup v parent ≡ some u
      → v ≢ from
      → IsEdge adj u v
      → Chain adj parent from v (suc n)

-- A new entry breaks no chain.
pub Chain-insert :
    {adj : Adjacency} {parent : Map NodeId} {from : NodeId} (w c : NodeId)
    → lookup w parent ≡ none
    → {v : NodeId} {n : ℕ} → Chain adj parent from v n
    → Chain adj (insert w c parent) from v n
Chain-insert w c fresh root = root
Chain-insert {parent} w c fresh (link {u} {v} chain e apart edge) =
    link (Chain-insert w c fresh chain) (ground (arith, lookup-insert v w c parent)) apart edge

-- With fuel for the length of the chain, the walk back succeeds and gives a walk.
pub backtrack-Chain :
    {adj : Adjacency} {parent : Map NodeId} {from : NodeId} (fuel : ℕ)
    → {v : NodeId} {n : ℕ} → Chain adj parent from v n
    → n < fuel
    → (rest : List NodeId) × (backtrack fuel parent from v ≡ some rest)
      × Walk adj from v (reverse (rest ++ from ∷ []))
unfolding backtrack
backtrack-Chain zero chain h = absurd (omega arith)
backtrack-Chain (suc fuel) root h = ([], ground arith, here)
backtrack-Chain {adj} {parent} {from} (suc fuel) (link {u} {v} chain e apart edge) h =
    let (rest, back, walk) = backtrack-Chain fuel chain (omega arith) in
    (
      v ∷ rest,
      ground arith,
      subst (Walk adj from v) (sym (reverse-cons v (rest ++ from ∷ []))) (step walk edge),
    )
