-- ===== src/Simulator/Sound.antt =====
-- The invariant of the simulator (src/NodeSimulator.cpp): all its nodes are sound, and the map leads
-- from an identifier to a live object with that identifier.
use peer_to_peer_network_ove.Prelude.{
  ◌≡◌, ◌∙◌, ◌<◌, ℕ, suc, sym, ap, subst, true, false, inl, inr, if◌then◌else◌, ◌==◌, contains,
  lookup, Option, none, some, Option-cases, Bool-cases, ==_iff, ◌∷◌, [], Map, Above, Ascending,
  insert, lookup-insert, lookup-erase, lookup-erase_if, insert-Ascending, erase_if-Ascending, arith,
}
use peer_to_peer_network_ove.Common.{NodeId}
use peer_to_peer_network_ove.Simulator.Member.{SimulatedNode}
use peer_to_peer_network_ove.Simulator.Member.Sound.{IsSoundNode}
use peer_to_peer_network_ove.Simulator.{NetworkSimulator, new_simulator, put, drop_node}

pub record IsSound (sim : NetworkSimulator) : Type 0 where
  pub sound_nodes :
      (h : ℕ) (n : SimulatedNode) → lookup h sim.nodes ≡ some n → IsSoundNode n.node_id n
  pub named :
      (id : NodeId) (h : ℕ)
      → lookup id sim.node_map ≡ some h
      → (n : SimulatedNode) × (lookup h sim.nodes ≡ some n) × (n.node_id ≡ id)
  pub ascending : Ascending sim.nodes
  pub fresh : (h : ℕ) → contains h sim.nodes ≡ true → h < sim.next

pub new_simulator-IsSound : IsSound new_simulator
new_simulator-IsSound = record {
  sound_nodes = λ h n e. absurd (cc e);
  named = λ id h e. absurd (cc e);
  ascending = tt;
  fresh = λ h e. absurd (cc e);
}

pub lookup-put :
    (j h : ℕ) (s : SimulatedNode) (nodes : Map SimulatedNode)
    → contains h nodes ≡ true
    → lookup j (put h s nodes) ≡ (if h == j then some s else lookup j nodes)
unfolding put
lookup-put j h s [] known = absurd (cc known)
lookup-put j h s ((i, n) ∷ nodes) known = ground (arith, lookup-put j h s nodes)

put-Above :
    (k h : ℕ) (s : SimulatedNode) (nodes : Map SimulatedNode)
    → Above k nodes
    → Above k (put h s nodes)
unfolding put
put-Above k h s [] a = tt
put-Above k h s ((i, n) ∷ nodes) a = ground (arith, put-Above i h s nodes a.1)

put-Ascending :
    (h : ℕ) (s : SimulatedNode) (nodes : Map SimulatedNode)
    → Ascending nodes
    → Ascending (put h s nodes)
unfolding put
put-Ascending h s [] a = tt
put-Ascending h s ((i, n) ∷ nodes) a = ground (arith, put-Above i h s nodes a)

abbrev IsSoundOption : Option SimulatedNode → Type 0
IsSoundOption none = Unit {0}
IsSoundOption (some n) = IsSoundNode n.node_id n

pub id_of : (n m : SimulatedNode) → some n ≡ some m → n.node_id ≡ m.node_id
id_of n m e = ap (λ (o : Option SimulatedNode). elim o [ none ↦ 0 | some k ↦ k.node_id ]) e

module _ (sim : NetworkSimulator) (w : IsSound sim) where
  put_sound :
      (h : ℕ) (n s : SimulatedNode)
      → lookup h sim.nodes ≡ some n
      → IsSoundNode n.node_id s
      → (j : ℕ) (m : SimulatedNode) → lookup j (put h s sim.nodes) ≡ some m
      → IsSoundNode m.node_id m
  put_sound h n s e sound j m f =
      let found = lookup-put j h s sim.nodes (ground arith) in
      elim (Bool-cases (h == j)) [
        | inl same ↦
            let own = subst (λ k. IsSoundNode k s) (sym sound.0) sound in
            subst IsSoundOption {x = some s} {y = some m} (ground (arith, found)) own
        | inr apart ↦ w.sound_nodes j m (ground (arith, found))
      ]

  put_named :
      (h : ℕ) (n s : SimulatedNode)
      → lookup h sim.nodes ≡ some n
      → IsSoundNode n.node_id s
      → (id : NodeId) (j : ℕ) → lookup id sim.node_map ≡ some j
      → (m : SimulatedNode) × (lookup j (put h s sim.nodes) ≡ some m) × (m.node_id ≡ id)
  put_named h n s e sound id j f =
      let found = lookup-put j h s sim.nodes (ground arith) in
      let (m, known, name) = w.named id j f in
      elim (Bool-cases (h == j)) [
        | inl same ↦
            let again = subst (λ i. lookup i sim.nodes ≡ some n) ((==_iff h j).0 same) e in
            (s, ground (arith, found), sound.0 ∙ id_of n m (sym again ∙ known) ∙ name)
        | inr apart ↦ (m, ground (arith, found), name)
      ]

  drop_named :
      (id k : NodeId) (j : ℕ)
      → lookup k (drop_node id sim).node_map ≡ some j
      → (m : SimulatedNode) × (lookup j (drop_node id sim).nodes ≡ some m) × (m.node_id ≡ k)
  unfolding drop_node
  drop_named id k j f =
      let erased = lookup-erase k id sim.node_map in
      elim (Bool-cases (id == k)) [
        | inl same ↦ absurd (ground (arith, erased))
        | inr apart ↦
            let (m, known, name) = w.named k j (ground (arith, erased)) in
            let other : (m.node_id == id) ≡ false = ground (arith, name) in
            let left =
              lookup-erase_if (λ _ (n : SimulatedNode). n.node_id == id) j sim.nodes w.ascending in
            (m, ground (arith, left, known, other), name)
      ]

  -- An object is replaced by one with the same identifier.
  pub put-IsSound :
      (h : ℕ) (n s : SimulatedNode)
      → lookup h sim.nodes ≡ some n
      → IsSoundNode n.node_id s
      → IsSound (record sim { nodes = put h s sim.nodes })
  put-IsSound h n s e sound = record {
    sound_nodes = λ j m f. put_sound h n s e sound j m f;
    named = λ id j f. put_named h n s e sound id j f;
    ascending = put-Ascending h s sim.nodes w.ascending;
    fresh = λ j f. w.fresh j (ground (arith, lookup-put j h s sim.nodes, ==_iff h j));
  }

  -- The nodes with an identifier are erased.
  pub drop_node-IsSound : (id : NodeId) → IsSound (drop_node id sim)
  unfolding drop_node
  drop_node-IsSound id = record {
    sound_nodes = λ j m f.
        w.sound_nodes j m
          (ground (arith, lookup-erase_if (λ _ n. n.node_id == id) j sim.nodes w.ascending));
    named = λ k j f. drop_named id k j f;
    ascending = erase_if-Ascending (λ _ n. n.node_id == id) sim.nodes w.ascending;
    fresh = λ j f.
        w.fresh j
          (ground (arith, lookup-erase_if (λ _ n. n.node_id == id) j sim.nodes w.ascending));
  }

  unused : lookup sim.next sim.nodes ≡ none
  unused = elim (Option-cases (lookup sim.next sim.nodes)) [
    | inl gone ↦ gone
    | inr (n, found) ↦ absurd (omega (arith, w.fresh sim.next (ground arith)))
  ]

  -- A new object enters.
  module _ (id : NodeId) (n : SimulatedNode) (sound : IsSoundNode id n) where
    abbrev entered : Map SimulatedNode
    entered = insert sim.next n sim.nodes

    entered_sound :
        (j : ℕ) (m : SimulatedNode) → lookup j entered ≡ some m → IsSoundNode m.node_id m
    entered_sound j m f =
        let found = lookup-insert j sim.next n sim.nodes in
        elim (Bool-cases (sim.next == j)) [
          | inl same ↦
              let own = subst (λ k. IsSoundNode k n) (sym sound.0) sound in
              subst IsSoundOption {x = some n} {y = some m} (ground (arith, found)) own
          | inr apart ↦ w.sound_nodes j m (ground (arith, found))
        ]

    entered_named :
        (k : NodeId) (j : ℕ)
        → lookup k (insert id sim.next sim.node_map) ≡ some j
        → (m : SimulatedNode) × (lookup j entered ≡ some m) × (m.node_id ≡ k)
    entered_named k j f =
        let there = lookup-insert k id sim.next sim.node_map in
        elim (Bool-cases (id == k)) [
          | inl same ↦
              let next : sim.next ≡ j = ground (arith, there) in
              (
                n,
                ground (arith, lookup-insert j sim.next n sim.nodes),
                sound.0 ∙ (==_iff id k).0 same,
              )
          | inr apart ↦
              let (m, known, name) = w.named k j (ground (arith, there)) in
              let old : (sim.next == j) ≡ false = ground (arith, unused) in
              (m, ground (arith, lookup-insert j sim.next n sim.nodes, old), name)
        ]

    pub insert-IsSound : IsSound (record sim {
      nodes = entered;
      node_map = insert id sim.next sim.node_map;
      next = suc sim.next;
    })
    insert-IsSound = record {
      sound_nodes = entered_sound;
      named = entered_named;
      ascending = insert-Ascending sim.next n sim.nodes w.ascending;
      fresh =
          λ j f. ground (arith, lookup-insert j sim.next n sim.nodes, w.fresh j, ==_iff sim.next j);
    }
