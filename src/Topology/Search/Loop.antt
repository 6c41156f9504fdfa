-- ===== src/Topology/Search/Loop.antt =====
-- The inner loop of findPath (src/TopologyManager.cpp): what one round does to the queue, the set of
-- visited nodes and the map of parents.
use peer_to_peer_network_ove.Prelude.{
  ℕ, suc, ◌+◌, ◌≤◌, ◌<◌, ◌==◌, ◌≡◌, ◌≢◌, refl, inl, inr, true, false, not, ◌&&◌, ◌||◌, none, List,
  [], ◌∷◌, ◌++◌, length, Map, mem, lookup, contains, insert, insert_set, mem-insert_set,
  lookup-insert, length-insert, Bool-cases, subst, ==_iff, length-append, arith, if◌then◌else◌,
}
use peer_to_peer_network_ove.Common.{NodeId}
use peer_to_peer_network_ove.Topology.Search.{Adjacency, Search, visit, scan, targets}
use peer_to_peer_network_ove.Topology.Search.Walk.{IsEdge, Chain, link, Chain-insert}

pub mem-append : (k : NodeId) (xs ys : List NodeId) → mem k (xs ++ ys) ≡ (mem k xs || mem k ys)
mem-append k [] ys = refl
mem-append k (x ∷ xs) ys = ground (arith, mem-append k xs ys)

pub scan-visited :
    (current : NodeId) (s : Search) (vs : List NodeId) (w : NodeId)
    → mem w (scan current s vs).visited ≡ (mem w vs || mem w s.visited)
unfolding scan
scan-visited current s [] w = refl
scan-visited current s (v ∷ vs) w =
    ground (arith, scan-visited current (visit current s v) vs w, mem-insert_set w v s.visited)

-- A round queues exactly the nodes that it visits.
pub scan-queue :
    (current : NodeId) (s : Search) (vs : List NodeId) (w : NodeId)
    → mem w (scan current s vs).queue ≡ (mem w s.queue || (mem w vs && not (mem w s.visited)))
unfolding scan
scan-queue current s [] w = ground arith
scan-queue current s (v ∷ vs) w = ground (
  arith,
  scan-queue current (visit current s v) vs w,
  mem-insert_set w v s.visited,
  mem-append w s.queue (v ∷ []),
)

abbrev pub Rooted : Adjacency → NodeId → Map NodeId → NodeId → Type 0
Rooted adj from parent v = (n : ℕ) × Chain adj parent from v n × (n < length parent)

-- The visited nodes are the keys of the map of parents, and each leads back to `from`.
pub record IsTree (adj : Adjacency) (from : NodeId) (s : Search) : Type 0 where
  pub keyed : (v : NodeId) → contains v s.parent ≡ mem v s.visited
  pub source : mem from s.visited ≡ true
  pub chained : (v : NodeId) → mem v s.visited ≡ true → Rooted adj from s.parent v

fresh_key :
    {adj : Adjacency} {from : NodeId} (v : NodeId) (s : Search)
    → IsTree adj from s
    → mem v s.visited ≡ false
    → lookup v s.parent ≡ none
fresh_key v s t new = ground (arith, t.keyed v)

Rooted-insert :
    {adj : Adjacency} {from : NodeId} {parent : Map NodeId} (v c : NodeId)
    → lookup v parent ≡ none
    → {w : NodeId} → Rooted adj from parent w
    → Rooted adj from (insert v c parent) w
Rooted-insert {parent} v c fresh (n, chain, h) =
    (n, Chain-insert v c fresh chain, omega (arith, length-insert v c parent fresh))

Rooted-link :
    {adj : Adjacency} {from : NodeId} {parent : Map NodeId} (v c : NodeId)
    → lookup v parent ≡ none
    → v ≢ from
    → IsEdge adj c v
    → Rooted adj from parent c
    → Rooted adj from (insert v c parent) v
Rooted-link {parent} v c fresh apart edge (n, chain, h) = (
  suc n,
  link (Chain-insert v c fresh chain) (ground (arith, lookup-insert v v c parent)) apart edge,
  omega (arith, length-insert v c parent fresh),
)

visit-IsTree :
    (adj : Adjacency) (from current v : NodeId) (s : Search)
    → IsTree adj from s
    → mem current s.visited ≡ true
    → IsEdge adj current v
    → IsTree adj from (visit current s v)
unfolding visit
visit-IsTree adj from current v s t m edge = elim (Bool-cases (mem v s.visited)) [
  | inl old ↦ rw (old, visit) t
  | inr new ↦
      let fresh = fresh_key v s t new in
      rw (new, visit)
        (record {
          keyed = λ w.
              ground (
                arith,
                lookup-insert w v current s.parent,
                mem-insert_set w v s.visited,
                t.keyed w,
              );
          source = ground (arith, mem-insert_set from v s.visited, t.source);
          chained = λ w seen. elim (Bool-cases (v == w)) [
            | inl same ↦ subst (Rooted adj from (insert v current s.parent)) ((==_iff v w).0 same) (
                Rooted-link v current fresh (λ e. ground (arith, t.source)) edge
                  (t.chained current m))
            | inr other ↦
                Rooted-insert v current fresh
                  (t.chained w (ground (arith, mem-insert_set w v s.visited)))
          ];
        })
]

pub scan-IsTree :
    (adj : Adjacency) (from current : NodeId) (s : Search) (vs : List NodeId)
    → IsTree adj from s
    → mem current s.visited ≡ true
    → ((v : NodeId) → mem v vs ≡ true → IsEdge adj current v)
    → IsTree adj from (scan current s vs)
unfolding scan
scan-IsTree adj from current s [] t m edges = t
scan-IsTree adj from current s (v ∷ vs) t m edges =
    scan-IsTree adj from current (visit current s v) vs
      (visit-IsTree adj from current v s t m (edges v (ground arith)))
      (ground (arith, mem-insert_set current v s.visited)) (λ w h. edges w (ground arith))

-- The entries of a list that are not yet visited.
abbrev pub unseen : List NodeId → List NodeId → ℕ
unseen visited [] = 0
unseen visited (x ∷ xs) = (if mem x visited then 0 else 1) + unseen visited xs

pub unseen-le-length : (visited xs : List NodeId) → unseen visited xs ≤ length xs
unseen-le-length visited [] = omega arith
unseen-le-length visited (x ∷ xs) = ground (arith, unseen-le-length visited xs)

unseen-insert_set-le :
    (v : NodeId) (visited xs : List NodeId) → unseen (insert_set v visited) xs ≤ unseen visited xs
unseen-insert_set-le v visited [] = omega arith
unseen-insert_set-le v visited (x ∷ xs) =
    ground (arith, mem-insert_set x v visited, unseen-insert_set-le v visited xs)

-- Each node that is visited for the first time is one less to come.
unseen-insert_set-lt :
    (v : NodeId) (visited xs : List NodeId)
    → mem v visited ≡ false
    → mem v xs ≡ true
    → unseen (insert_set v visited) xs < unseen visited xs
unseen-insert_set-lt v visited [] new m = absurd (cc)
unseen-insert_set-lt v visited (x ∷ xs) new m = ground (
  arith,
  mem-insert_set x v visited,
  unseen-insert_set-le v visited xs,
  unseen-insert_set-lt v visited xs,
)

-- The rounds that are still needed.
abbrev pub work : List NodeId → Search → ℕ
work xs s = length s.queue + unseen s.visited xs

pub scan-work :
    (xs : List NodeId) (current : NodeId) (s : Search) (vs : List NodeId)
    → ((v : NodeId) → mem v vs ≡ true → mem v xs ≡ true)
    → work xs (scan current s vs) ≤ work xs s
unfolding scan
scan-work xs current s [] h = omega arith
scan-work xs current s (v ∷ vs) h = ground (
  arith,
  h v,
  scan-work xs current (visit current s v) vs (λ w m. h w (ground arith)),
  unseen-insert_set-lt v s.visited xs,
  length-append s.queue (v ∷ []),
)

pub targets-neighbors :
    (adj : Adjacency) (u v : NodeId) → IsEdge adj u v → mem v (targets adj) ≡ true
targets-neighbors [] u v e = absurd (cc)
targets-neighbors ((k, s) ∷ adj) u v e =
    ground (arith, mem-append v s (targets adj), targets-neighbors adj u v)
