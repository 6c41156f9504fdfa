-- ===== src/Node/Invariant.antt =====
-- The peer table of src/Node.cpp: two parallel vectors without repetition, ten entries at most.
use peer_to_peer_network_ove.Prelude.{
  ℕ, zero, suc, ◌≤◌, ◌<◌, ◌==◌, ◌≡◌, refl, ap, true, false, not, ◌&&◌, ◌||◌, List, [], ◌∷◌, ◌++◌,
  length, length-append, mem, arith,
}
use peer_to_peer_network_ove.Common.{NodeId, max_peers}
use peer_to_peer_network_ove.Node.{Node, index_of, erase_at, add_peer, remove_peer}
use peer_to_peer_network_ove.Common.{NetworkAddress}
use peer_to_peer_network_ove.Node.{has_peer}
use peer_to_peer_network_ove.Prelude.{==_iff}

-- No entry occurs twice.
abbrev pub Distinct : List NodeId → Type 0
Distinct [] = Unit {0}
Distinct (x ∷ xs) = (mem x xs ≡ false) × Distinct xs

pub record IsWellFormed (n : Node) : Type 0 where
  pub parallel : length n.peer_addresses ≡ length n.peer_ids
  pub distinct : Distinct n.peer_ids
  pub bounded : length n.peer_ids ≤ max_peers

mem-concat : (k x : NodeId) (xs : List NodeId) → mem k (xs ++ x ∷ []) ≡ (mem k xs || x == k)
mem-concat k x [] = ground arith
mem-concat k x (y ∷ ys) = ground (arith, mem-concat k x ys)

Distinct-concat :
    (x : NodeId) (xs : List NodeId) → mem x xs ≡ false → Distinct xs → Distinct (xs ++ x ∷ [])
Distinct-concat x [] h d = (refl, tt)
Distinct-concat x (y ∷ ys) h d = ground (arith, mem-concat y x ys, Distinct-concat x ys)

length-erase_at {ℓ} :
    {A : Type ℓ} (i : ℕ) (xs : List A) → i < length xs → suc (length (erase_at i xs)) ≡ length xs
unfolding erase_at
length-erase_at i [] h = absurd (omega arith)
length-erase_at zero (x ∷ xs) h = refl
length-erase_at (suc i) (x ∷ xs) h = ap suc (length-erase_at i xs (omega arith))

index_of-lt : (k : NodeId) (xs : List NodeId) → mem k xs ≡ true → index_of k xs < length xs
unfolding index_of
index_of-lt k [] h = absurd (cc)
index_of-lt k (x ∷ xs) h = ground (arith, index_of-lt k xs)

-- Erasing the first match leaves the other entries where they were.
mem-erase_at :
    (j k : NodeId) (xs : List NodeId)
    → Distinct xs
    → mem j (erase_at (index_of k xs) xs) ≡ (not (k == j) && mem j xs)
unfolding index_of erase_at
mem-erase_at j k [] d = ground arith
mem-erase_at j k (x ∷ xs) d = ground (arith, mem-erase_at j k xs)

Distinct-erase_at :
    (k : NodeId) (xs : List NodeId) → Distinct xs → Distinct (erase_at (index_of k xs) xs)
unfolding index_of erase_at
Distinct-erase_at k [] d = tt
Distinct-erase_at k (x ∷ xs) d = ground (arith, Distinct-erase_at k xs, mem-erase_at x k xs)

module _ (n : Node) (peer : NodeId) where
  -- Adding a peer keeps the two vectors parallel, the entries distinct and their number at most ten.
  pub add_peer-IsWellFormed :
      (address : NetworkAddress) → IsWellFormed n → IsWellFormed (add_peer n peer address).0
  unfolding add_peer
  add_peer-IsWellFormed address w = ground (
    arith,
    Distinct-concat peer n.peer_ids,
    length-append n.peer_ids (peer ∷ []),
    length-append n.peer_addresses (address ∷ []),
  )

  -- Removing a peer keeps the invariant.
  pub remove_peer-IsWellFormed : IsWellFormed n → IsWellFormed (remove_peer n peer).0
  unfolding remove_peer
  remove_peer-IsWellFormed w = ground (
    arith,
    Distinct-erase_at peer n.peer_ids,
    index_of-lt peer n.peer_ids,
    length-erase_at (index_of peer n.peer_ids) n.peer_ids,
    length-erase_at (index_of peer n.peer_ids) n.peer_addresses,
  )

  -- Afterwards the peers are the others.
  pub has_peer-remove_peer :
      (j : NodeId)
      → IsWellFormed n
      → has_peer (remove_peer n peer).0 j ≡ (not (peer == j) && has_peer n j)
  unfolding remove_peer has_peer
  has_peer-remove_peer j w =
      ground (arith, mem-erase_at j peer n.peer_ids w.distinct, ==_iff peer j)

pub add_peer-id :
    (n : Node) (k : NodeId) (a : NetworkAddress) → (add_peer n k a).0.node_id ≡ n.node_id
unfolding add_peer
add_peer-id n k a = ground arith

pub remove_peer-id : (n : Node) (k : NodeId) → (remove_peer n k).0.node_id ≡ n.node_id
unfolding remove_peer
remove_peer-id n k = ground arith
