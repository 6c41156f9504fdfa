-- ===== src/Simulator/Keeping.antt =====
-- What each call of NetworkSimulator (src/NodeSimulator.cpp) keeps: the invariant of its nodes.
use peer_to_peer_network_ove.Prelude.{
  ℕ, ◌+◌, ◌%◌, ◌^◌, sym, subst, Bool, true, inl, inr, ltb, length, is_empty, lookup, Option, String,
  Option-cases, ◌∷◌, [], List,
}
use peer_to_peer_network_ove.Common.{NodeId, NetworkAddress, TimePoint}
use peer_to_peer_network_ove.Outcome.{Action, ok, ret, ◌>>=◌}
use peer_to_peer_network_ove.Outcome.Holds.{Keeps, Holds, Holds-then, Holds-if, >>=-Keeps}
use peer_to_peer_network_ove.Network.{Poco}
use peer_to_peer_network_ove.Manager.{maintain_network_integrity}
use peer_to_peer_network_ove.Manager.Upkeep.{maintain_network_integrity-Keeps}
use peer_to_peer_network_ove.Overlay.{in_manager}
use peer_to_peer_network_ove.Overlay.Settled
use peer_to_peer_network_ove.Simulator.Member.{
  SimulatedNode, in_overlay, start, stop, join_network, leave_network,
}
use peer_to_peer_network_ove.Simulator.Member.Sound.{
  IsSoundNode, in_overlay-Keeps, start-Keeps, join_network-Keeps, leave_network-lost, stop-ends,
  new_simulated_node-IsSound,
}
use peer_to_peer_network_ove.Simulator.Sound.{
  IsSound, put-IsSound, drop_node-IsSound, insert-IsSound,
}
use peer_to_peer_network_ove.Simulator.{
  NetworkSimulator, put, at_node, create_node, drop_node, last_handle, remove_node, start_loop,
  start_from, stop_loop, test_dynamic_node_addition, test_node_removal, test_node_failure,
  maintain_running, integrity_loop, first_address, id_at,
}

pub at_node-Keeps :
    {A : Type 0} (h : ℕ) (m : Action SimulatedNode A)
    → ((id : NodeId) → Keeps (IsSoundNode id) m)
    → Keeps IsSound (at_node h m)
unfolding at_node
at_node-Keeps h m keep sim w = elim (Option-cases (lookup h sim.nodes)) [
  | inl gone ↦ rw (gone, at_node) tt
  | inr (n, found) ↦
      rw (found, at_node)
        (Holds-then (IsSoundNode n.node_id) IsSound (m n)
          (λ a s. ok (a, record sim { nodes = put h s sim.nodes }))
          (keep n.node_id n (w.sound_nodes h n found)) (λ a s q. put-IsSound sim w h n s found q))
]

pub create_node-Keeps :
    (hostname : Option String) (id : NodeId) (port : ℕ) (now : TimePoint)
    → Keeps IsSound (create_node hostname id port now)
unfolding create_node
create_node-Keeps hostname id port now sim w =
    let (n, made, rests, sound) = new_simulated_node-IsSound hostname id port now in
    rw (made, create_node) (insert-IsSound sim w id n sound)

stop-Keeps : (env : Poco) (now : TimePoint) (id : NodeId) → Keeps (IsSoundNode id) (stop env now)
stop-Keeps env now id s h =
    let (u, ends, rests, server, node, topology, sound) = stop-ends id env now s h in
    subst (Holds (IsSoundNode id)) (sym ends) sound

leave_network-Keeps :
    (env : Poco) (now : TimePoint) (id : NodeId) → Keeps (IsSoundNode id) (leave_network env now)
leave_network-Keeps env now id s h =
    subst (Holds (IsSoundNode id)) (sym (leave_network-lost id env now s h)) h

module _ (env : ℕ → Poco) (now : TimePoint) where
  pub remove_node-Keeps : (id : NodeId) → Keeps IsSound (remove_node env now id)
  unfolding remove_node
  remove_node-Keeps id sim w = elim (Option-cases (lookup id sim.node_map)) [
    | inl gone ↦ rw (gone, remove_node) w
    | inr (h, found) ↦
        let drop = λ (s : NetworkSimulator). ok (true, drop_node id s) in
        rw (found, remove_node)
          (>>=-Keeps IsSound (at_node h (stop (env h) now))
            (λ _. at_node h (leave_network (env h) now) >>= λ _. drop)
            (at_node-Keeps h (stop (env h) now) (stop-Keeps (env h) now))
            (λ _.
              >>=-Keeps IsSound (at_node h (leave_network (env h) now)) (λ _. drop)
                (at_node-Keeps h (leave_network (env h) now) (leave_network-Keeps (env h) now))
                (λ _ s q. drop_node-IsSound s q id))
            sim w)
  ]

  join-Keeps : (h : ℕ) (a : NetworkAddress) → Keeps IsSound (at_node h (join_network (env h) a now))
  join-Keeps h a =
      at_node-Keeps h (join_network (env h) a now) (λ id. join_network-Keeps id (env h) a now)

  begin-Keeps : (h : ℕ) → Keeps IsSound (at_node h (start (env h)))
  begin-Keeps h = at_node-Keeps h (start (env h)) (λ id. start-Keeps id (env h))

  start_loop-Keeps : (a : NetworkAddress) (hs : List ℕ) → Keeps IsSound (start_loop env now a hs)
  unfolding start_loop
  start_loop-Keeps a [] = λ sim w. w
  start_loop-Keeps a (h ∷ hs) =
      let join = at_node h (join_network (env h) a now) in
      >>=-Keeps IsSound (at_node h (start (env h))) (λ _. join >>= λ _. start_loop env now a hs)
        (begin-Keeps h)
        (λ _.
          >>=-Keeps IsSound join (λ _. start_loop env now a hs) (join-Keeps h a)
            (λ _. start_loop-Keeps a hs))

  pub running-IsSound :
      (b : Bool) (sim : NetworkSimulator) → IsSound sim → IsSound (record sim { running = b })
  running-IsSound b sim w = record {
    sound_nodes = w.sound_nodes;
    named = w.named;
    ascending = w.ascending;
    fresh = w.fresh;
  }

  pub start_from-Keeps : (hs : List ℕ) → Keeps IsSound (start_from env now hs)
  unfolding start_from
  start_from-Keeps [] = λ sim w. w
  start_from-Keeps (h ∷ hs) =
      let loop =
        λ (s : NetworkSimulator). start_loop env now (first_address env now s.nodes) hs s in
      let mark = λ (s : NetworkSimulator). ok (tt, record s { running = true }) in
      >>=-Keeps IsSound (at_node h (start (env h))) (λ _. loop >>= λ _. mark) (begin-Keeps h)
        (λ _.
          >>=-Keeps IsSound loop (λ _. mark)
            (λ s q. start_loop-Keeps (first_address env now s.nodes) hs s q)
            (λ _ s q. running-IsSound true s q))

  pub stop_loop-Keeps : (hs : List ℕ) → Keeps IsSound (stop_loop env now hs)
  unfolding stop_loop
  stop_loop-Keeps [] = λ sim w. w
  stop_loop-Keeps (h ∷ hs) =
      >>=-Keeps IsSound (at_node h (stop (env h) now)) (λ _. stop_loop env now hs)
        (at_node-Keeps h (stop (env h) now) (stop-Keeps (env h) now)) (λ _. stop_loop-Keeps hs)

  maintain_running-Keeps :
      (h : ℕ) (id : NodeId) → Keeps (IsSoundNode id) (maintain_running env now h)
  unfolding maintain_running
  maintain_running-Keeps h id s q =
      let m = in_manager (maintain_network_integrity (env h) now) in
      Holds-if (IsSoundNode id) s.running _ (ok (tt, s))
        (>>=-Keeps (IsSoundNode id) (in_overlay m) (λ _. ret tt)
          (in_overlay-Keeps id m (
            Settled.in_manager-Keeps id (maintain_network_integrity (env h) now)
              (maintain_network_integrity-Keeps id (env h) now)))
          (λ _ t r. r) s q)
        q

  pub integrity_loop-Keeps : (hs : List ℕ) → Keeps IsSound (integrity_loop env now hs)
  unfolding integrity_loop
  integrity_loop-Keeps [] = λ sim w. w
  integrity_loop-Keeps (h ∷ hs) =
      >>=-Keeps IsSound (at_node h (maintain_running env now h)) (λ _. integrity_loop env now hs)
        (at_node-Keeps h (maintain_running env now h) (maintain_running-Keeps h))
        (λ _. integrity_loop-Keeps hs)

  pub addition-Keeps :
      (hostname : Option String) (id : NodeId)
      → Keeps IsSound (test_dynamic_node_addition env now hostname id)
  unfolding test_dynamic_node_addition
  addition-Keeps hostname id sim w =
      let create = create_node hostname id ((8890 + length sim.nodes) % 2 ^ 16) now in
      let join = λ (h : ℕ) (s : NetworkSimulator).
        (at_node h (join_network (env h) (first_address env now s.nodes) now) >>= λ _. ret tt) s in
      Holds-if IsSound (is_empty sim.nodes) (ok (tt, sim)) _ w (
        >>=-Keeps IsSound create (λ h. at_node h (start (env h)) >>= λ _. join h)
          (create_node-Keeps hostname id ((8890 + length sim.nodes) % 2 ^ 16) now)
          (λ h.
            >>=-Keeps IsSound (at_node h (start (env h))) (λ _. join h) (begin-Keeps h)
              (λ _ s q.
                let a = first_address env now s.nodes in
                >>=-Keeps IsSound (at_node h (join_network (env h) a now)) (λ _. ret tt)
                  (join-Keeps h a) (λ _ t r. r) s q))
          sim w)

  pub removal-Keeps : Keeps IsSound (test_node_removal env now)
  unfolding test_node_removal
  removal-Keeps sim w = elim (Option-cases (last_handle sim.nodes)) [
    | inl none_ ↦
        rw (none_, test_node_removal) (Holds-if IsSound (ltb (length sim.nodes) 2) _ _ w w)
    | inr (h, last) ↦
        let id = id_at env now h sim in
        rw (last, test_node_removal)
          (Holds-if IsSound (ltb (length sim.nodes) 2) _ _ w (
            >>=-Keeps IsSound (remove_node env now id) (λ _. ret tt) (remove_node-Keeps id)
              (λ _ s q. q) sim w))
  ]

  pub failure-Keeps : Keeps IsSound (test_node_failure env now)
  unfolding test_node_failure
  failure-Keeps sim w = elim (Option-cases (last_handle sim.nodes)) [
    | inl none_ ↦
        rw (none_, test_node_failure) (Holds-if IsSound (ltb (length sim.nodes) 2) _ _ w w)
    | inr (h, last) ↦
        rw (last, test_node_failure)
          (Holds-if IsSound (ltb (length sim.nodes) 2) _ _ w
            (at_node-Keeps h (stop (env h) now) (stop-Keeps (env h) now) sim w))
  ]
