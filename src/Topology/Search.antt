-- ===== src/Topology/Search.antt =====
-- The breadth-first search of TopologyManager::findPath and the depth-first search of
-- TopologyManager::hasPathDFS (src/TopologyManager.cpp), over the adjacency list.
pub mod Walk
pub mod Loop
pub mod Correct
use peer_to_peer_network_ove.Prelude.{
  ℕ, zero, suc, ◌+◌, ◌==◌, if◌then◌else◌, Bool, true, false, Option, none, some, List, [], ◌∷◌,
  ◌++◌, length, reverse, Map, mem, insert_set, lookup, insert,
}
use peer_to_peer_network_ove.Common.{NodeId}
use peer_to_peer_network_ove.Outcome.{Outcome, ok, fault, out_of_fuel}

-- std::map<NodeID, std::set<NodeID>>
abbrev pub Adjacency : Type 0
Adjacency = Map (List NodeId)

-- What the loop over `it->second` visits; nothing if the node has no entry.
abbrev pub neighbors : Adjacency → NodeId → List NodeId
neighbors adj u = elim (lookup u adj) [ none ↦ [] | some s ↦ s ]

pub record Search : Type 0 where
  pub queue : List NodeId
  pub parent : Map NodeId
  pub visited : List NodeId

pub start : NodeId → Search
start from = record {
  queue = from ∷ [];
  parent = insert from from [];
  visited = insert_set from [];
}

-- The body of the loop over the neighbors of `current`.
pub visit : NodeId → Search → NodeId → Search
visit current s neighbor = if mem neighbor s.visited then s else record {
  queue = s.queue ++ neighbor ∷ [];
  parent = insert neighbor current s.parent;
  visited = insert_set neighbor s.visited;
}

pub scan : NodeId → Search → List NodeId → Search
unfolding visit
scan current s [] = s
scan current s (v ∷ vs) = scan current (visit current s v) vs

-- `parent[node]`: a missing key reads as 0.
abbrev pub parent_of : Map NodeId → NodeId → NodeId
parent_of parent v = elim (lookup v parent) [ none ↦ 0 | some u ↦ u ]

-- The loop `while (node != from)`: the nodes pushed to the path; `none` if the fuel runs out.
pub backtrack : ℕ → Map NodeId → NodeId → NodeId → Option (List NodeId)
backtrack zero parent from node = none
backtrack (suc fuel) parent from node = elim (node == from) [
  | true ↦ some []
  | false ↦ elim (backtrack fuel parent from (parent_of parent node)) [
    | none ↦ none
    | some rest ↦ some (node ∷ rest)
  ]
]

-- The path from `from` to `to`, in order.
pub reconstruct : Map NodeId → NodeId → NodeId → Outcome (List NodeId)
unfolding backtrack
reconstruct parent from to = elim (backtrack (suc (length parent)) parent from to) [
  | none ↦ fault out_of_fuel
  | some path ↦ ok (reverse (path ++ from ∷ []))
]

module _ (adj : Adjacency) (from to : NodeId) where
  pub search_loop : ℕ → Search → Outcome (List NodeId)
  search_loop zero s = elim s.queue [ [] ↦ ok [] | _ ∷ _ ↦ fault out_of_fuel ]
  search_loop (suc fuel) s = elim s.queue [
    | [] ↦ ok []
    | current ∷ rest ↦ elim (current == to) [
      | true ↦ reconstruct s.parent from to
      | false ↦ search_loop fuel (scan current (record s { queue = rest }) (neighbors adj current))
    ]
  ]

-- All edge targets: the search queues each of these once at most, after `from`.
abbrev pub targets : Adjacency → List NodeId
targets [] = []
targets ((u, s) ∷ adj) = s ++ targets adj

unfoldable pub find_path : Adjacency → NodeId → NodeId → Outcome (List NodeId)
unfolding search_loop reconstruct start scan
find_path adj from to =
    if from == to
    then ok (from ∷ [])
    else search_loop adj from to (suc (length (targets adj))) (start from)

-- The loop over the neighbors in hasPathDFS, where `dfs` is the recursive call.
pub scan_dfs :
    (NodeId → List NodeId → Option (Bool × List NodeId))
    → List NodeId
    → List NodeId
    → Option (Bool × List NodeId)
scan_dfs dfs [] visited = some (false, visited)
scan_dfs dfs (v ∷ vs) visited = elim (mem v visited) [
  | true ↦ scan_dfs dfs vs visited
  | false ↦ elim (dfs v visited) [
    | none ↦ none
    | some (found, seen) ↦ elim found [ true ↦ some (true, seen) | false ↦ scan_dfs dfs vs seen ]
  ]
]

-- The result and the set `visited` that the caller sees; `none` if the fuel runs out.
unfoldable pub has_path_dfs :
    ℕ → Adjacency → NodeId → NodeId → List NodeId → Option (Bool × List NodeId)
unfolding scan_dfs insert_set
has_path_dfs zero adj from to visited = none
has_path_dfs (suc fuel) adj from to visited =
    let seen = insert_set from visited in
    elim (from == to) [
      | true ↦ some (true, seen)
      | false ↦ scan_dfs (λ v s. has_path_dfs fuel adj v to s) (neighbors adj from) seen
    ]
