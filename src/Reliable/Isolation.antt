-- ===== src/Reliable/Isolation.antt =====
-- The calls of src/ReliableMessaging.cpp keep the network silent.
use peer_to_peer_network_ove.Prelude.{
  ℕ, Option-cases, inl, inr, lookup, not, ◌&&◌, refl, insert, List, [], ◌∷◌,
}
use peer_to_peer_network_ove.Prelude.Int.{ℤ}
use peer_to_peer_network_ove.Common.{NodeId, Message, TimePoint}
use peer_to_peer_network_ove.Network.{Poco}
use peer_to_peer_network_ove.Network.Isolation.{
  IsSilent, send_message_to_peer-IsSilent, send-unconnected,
}
use peer_to_peer_network_ove.Reliable.{
  Reliable, ReliableMessage, pending, mark_message_failed, send_reliable_message, select, is_due,
  may_retry, retry_one, retry_loop, fail_loop, retry_pending_messages,
}
use peer_to_peer_network_ove.Prelude.{◌≡◌}
use peer_to_peer_network_ove.Prelude.{arith}
use peer_to_peer_network_ove.Prelude.{◌∙◌}
use peer_to_peer_network_ove.Prelude.{subst}
use peer_to_peer_network_ove.Prelude.{sym}
use peer_to_peer_network_ove.Prelude.{suc}
use peer_to_peer_network_ove.Prelude.{lookup-insert}
use peer_to_peer_network_ove.Prelude.{==_refl}

mark_message_failed-network : (k : ℕ) (r : Reliable) → (mark_message_failed k r).network ≡ r.network
unfolding mark_message_failed
mark_message_failed-network k r = ground arith

fail_loop-network : (ks : List ℕ) (r : Reliable) → (fail_loop ks r).network ≡ r.network
unfolding fail_loop
fail_loop-network [] r = refl
fail_loop-network (k ∷ ks) r =
    fail_loop-network ks (mark_message_failed k r) ∙ mark_message_failed-network k r

module _ (env : Poco) (now : TimePoint) where
  -- Over a silent network a send fails and leaves the network alone.
  pub send_reliable_message-network :
      (target : NodeId) (m : Message) (k : ℕ) (r : Reliable)
      → IsSilent r.network
      → (send_reliable_message env target m k now r).1.network ≡ r.network
  unfolding send_reliable_message
  send_reliable_message-network target m k r h =
      let entry : ReliableMessage = record {
        message_id = k;
        message = m;
        destination_id = target;
        ack_status = pending;
        retry_count = 0;
        send_time = now;
        last_retry = now;
      } in
      let entered =
        mark_message_failed-network k
          (record r { pending_messages = insert k entry r.pending_messages }) in
      ground (arith, send-unconnected env target m r.network h.0, entered)

  -- It is counted as failed.
  pub send_reliable_message-failed :
      (target : NodeId) (m : Message) (k : ℕ) (r : Reliable)
      → IsSilent r.network
      → (send_reliable_message env target m k now r).1.failed_messages ≡ suc r.failed_messages
  unfolding send_reliable_message mark_message_failed
  send_reliable_message-failed target m k r h =
      let entry : ReliableMessage = record {
        message_id = k;
        message = m;
        destination_id = target;
        ack_status = pending;
        retry_count = 0;
        send_time = now;
        last_retry = now;
      } in
      ground (
        arith,
        send-unconnected env target m r.network h.0,
        lookup-insert k k entry r.pending_messages,
        ==_refl k,
      )

  retry_one-IsSilent :
      (k : ℕ) (r : Reliable) → IsSilent r.network → IsSilent (retry_one env now k r).network
  unfolding retry_one
  retry_one-IsSilent k r h = elim (Option-cases (lookup k r.pending_messages)) [
    | inl none_ ↦ rw (none_, retry_one) h
    | inr (m, some_) ↦
        rw (some_, retry_one)
          (send_message_to_peer-IsSilent env m.destination_id m.message r.network h)
  ]

  retry_loop-IsSilent :
      (ks : List ℕ) (r : Reliable) → IsSilent r.network → IsSilent (retry_loop env now ks r).network
  unfolding retry_loop
  retry_loop-IsSilent [] r h = h
  retry_loop-IsSilent (k ∷ ks) r h =
      retry_loop-IsSilent ks (retry_one env now k r) (retry_one-IsSilent k r h)

  pub retry_pending_messages-IsSilent :
      (seconds max_retries : ℤ) (r : Reliable)
      → IsSilent r.network
      → IsSilent (retry_pending_messages env seconds max_retries now r).network
  unfolding retry_pending_messages
  retry_pending_messages-IsSilent seconds max_retries r h =
      let to_retry =
        select (λ m. is_due seconds now m && may_retry max_retries m) r.pending_messages in
      let to_fail =
        select (λ m. is_due seconds now m && not (may_retry max_retries m)) r.pending_messages in
      subst IsSilent (sym (fail_loop-network to_fail (retry_loop env now to_retry r)))
        (retry_loop-IsSilent to_retry r h)
