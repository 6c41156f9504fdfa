-- ===== src/Exchange/Isolation.antt =====
-- The calls of src/DataExchange.cpp that use the router keep the shared objects isolated.
use peer_to_peer_network_ove.Prelude.{
  ◌==◌, ◌+◌, if◌then◌else◌, ℕ, Bool, true, false, List, [], ◌∷◌, String, length,
}
use peer_to_peer_network_ove.Common.{NodeId, TimePoint}
use peer_to_peer_network_ove.Outcome.{ok, fault, division_by_zero, ◌>>=◌}
use peer_to_peer_network_ove.Outcome.Holds.{Keeps, Holds-if, Holds-then, >>=-Keeps}
use peer_to_peer_network_ove.Network.{Poco}
use peer_to_peer_network_ove.World.Isolation.{IsIsolated}
use peer_to_peer_network_ove.Router
use peer_to_peer_network_ove.Router.State.{Router, shortest_path}
use peer_to_peer_network_ove.Router.Isolation.{route_message-Keeps}
use peer_to_peer_network_ove.Exchange.State.{Exchange, DataChunk}
use peer_to_peer_network_ove.Exchange.{
  mark_outgoing, mark_incoming, mark_transfer_complete, update_transfer_progress, cancel_transfer,
  split_data, chunk_message, send_data_chunk, send_chunks, new_outgoing, send_data,
}
use peer_to_peer_network_ove.Prelude.{◌≡◌}
use peer_to_peer_network_ove.Exchange.{insert}
use peer_to_peer_network_ove.Prelude.{arith}
use peer_to_peer_network_ove.Prelude.{subst}
use peer_to_peer_network_ove.Prelude.{sym}

-- Marking and counting leave the router alone.
mark_transfer_complete-router :
    (k : ℕ) (b : Bool) (now : TimePoint) (e : Exchange)
    → (mark_transfer_complete k b now e).router ≡ e.router
unfolding mark_transfer_complete mark_outgoing mark_incoming
mark_transfer_complete-router k b now e = ground arith

update_transfer_progress-router :
    (k size : ℕ) (now : TimePoint) (e : Exchange)
    → (update_transfer_progress k size now e).router ≡ e.router
unfolding update_transfer_progress
update_transfer_progress-router k size now e = ground arith

cancel_transfer-router : (k : ℕ) (e : Exchange) → (cancel_transfer k e).1.router ≡ e.router
unfolding cancel_transfer
cancel_transfer-router k e = ground arith

module _ (id : NodeId) where
  abbrev P : Exchange → Type 0
  P e = IsIsolated id e.router.world

  moved : (e u : Exchange) → u.router ≡ e.router → P e → P u
  moved e u same h = subst (λ (r : Router). IsIsolated id r.world) (sym same) h

  pub cancel_transfer-Keeps : (k : ℕ) → Keeps P (λ e. ok (cancel_transfer k e))
  cancel_transfer-Keeps k e h = moved e (cancel_transfer k e).1 (cancel_transfer-router k e) h

  split_data-Keeps : (bytes : List ℕ) (k : ℕ) → Keeps P (split_data bytes k)
  unfolding split_data
  split_data-Keeps bytes k e h = Holds-if P (e.chunk_size == 0) (fault division_by_zero) _ tt h

  module _ (env : Poco) (object_bytes : DataChunk → List ℕ) (now : TimePoint) where
    send_data_chunk-Keeps :
        (target : NodeId) (c : DataChunk) → Keeps P (send_data_chunk env object_bytes now target c)
    unfolding send_data_chunk
    send_data_chunk-Keeps target c e h =
        let m = chunk_message env object_bytes now target c e in
        let sized = record e { sent_data_size = e.sent_data_size + length c.bytes } in
        Holds-then (λ (r : Router). IsIsolated id r.world) P
          (Router.route_message env m shortest_path now e.router)
          (λ a r. ok (a, record sized { router = r }))
          (route_message-Keeps id env m shortest_path now e.router h) (λ a r q. q)

    send_chunks-Keeps :
        (target : NodeId) (k : ℕ) (cs : List DataChunk)
        → Keeps P (send_chunks env object_bytes now target k cs)
    unfolding send_chunks
    send_chunks-Keeps target k [] = λ e h. h
    send_chunks-Keeps target k (c ∷ cs) =
        let rest = send_chunks env object_bytes now target k cs in
        let next = λ (sent : Bool) (e : Exchange).
          if sent
          then rest (update_transfer_progress k (length c.bytes) now e)
          else ok (false, mark_transfer_complete k false now e) in
        >>=-Keeps P (send_data_chunk env object_bytes now target c) next
          (send_data_chunk-Keeps target c)
          (λ sent e h.
            Holds-if P sent (rest (update_transfer_progress k (length c.bytes) now e))
              (ok (false, mark_transfer_complete k false now e))
              (send_chunks-Keeps target k cs (update_transfer_progress k (length c.bytes) now e) (
                moved e (update_transfer_progress k (length c.bytes) now e)
                  (update_transfer_progress-router k (length c.bytes) now e) h))
              (moved e (mark_transfer_complete k false now e)
                (mark_transfer_complete-router k false now e) h))

    pub send_data-Keeps :
        (target : NodeId) (bytes : List ℕ) (data_type : String) (k : ℕ)
        → Keeps P (send_data env object_bytes now target bytes data_type k)
    unfolding send_data
    send_data-Keeps target bytes data_type k e h =
        let last = λ (sent : Bool) (s : Exchange).
          if sent then ok (k, mark_transfer_complete k true now s) else ok (0, s) in
        let send = send_chunks env object_bytes now target k in
        >>=-Keeps P (split_data bytes k) (λ cs. send cs >>= last) (split_data-Keeps bytes k)
          (λ cs. >>=-Keeps P (send cs) last (send_chunks-Keeps target k cs) (λ sent s q.
            Holds-if P sent (ok (k, mark_transfer_complete k true now s)) (ok (0, s))
              (moved s (mark_transfer_complete k true now s)
                (mark_transfer_complete-router k true now s) q)
              q))
          (record e {
            outgoing_transfers =
                insert k (new_outgoing env object_bytes now target bytes data_type k e)
                  e.outgoing_transfers;
          })
          h
