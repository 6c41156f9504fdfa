-- ===== src/Reliable/Delivery.antt =====
-- sendReliableMessage and acknowledgeMessage (src/ReliableMessaging.cpp): the pending messages and
-- the counters.
use peer_to_peer_network_ove.Prelude.{
  ℕ, suc, ◌+◌, ◌==◌, ◌≡◌, ◌∙◌, inl, inr, if◌then◌else◌, Bool, true, some, none, List, length, [],
  ◌∷◌, lookup, contains, insert, lookup-insert, lookup-erase, ==_refl, arith, Option-cases,
}
use peer_to_peer_network_ove.Common.{NodeId, Message, TimePoint}
use peer_to_peer_network_ove.Network.{Poco, send_message_to_peer}
use peer_to_peer_network_ove.Reliable.{
  ReliableMessage, Reliable, pending, acknowledged, mark_message_failed, acknowledge_message,
  is_message_acknowledged, send_reliable_message,
}

mark_message_failed-inserted :
    (id : ℕ) (m : ReliableMessage) (r : Reliable) (k : ℕ)
    → lookup id r.pending_messages ≡ some m
    → (lookup k (mark_message_failed id r).pending_messages
        ≡ (if id == k then none else lookup k r.pending_messages))
      × ((mark_message_failed id r).failed_messages ≡ r.failed_messages + 1)
      × ((mark_message_failed id r).sent_messages ≡ r.sent_messages)
unfolding mark_message_failed
mark_message_failed-inserted id m r k found =
    (ground (arith, lookup-erase k id r.pending_messages), ground arith, ground arith)

module _ (env : Poco) (target : NodeId) (m : Message) (id : ℕ) (now : TimePoint)
    (r : Reliable) where
  abbrev sent : Bool
  sent = (send_message_to_peer env target m r.network).0

  abbrev fresh_entry : ReliableMessage
  fresh_entry = record {
    message_id = id;
    message = m;
    destination_id = target;
    ack_status = pending;
    retry_count = 0;
    send_time = now;
    last_retry = now;
  }

  -- sendReliableMessage returns the identifier and leaves a pending entry under it, if the network
  -- sends the message; otherwise it returns 0 and there is no entry under the identifier. All
  -- other entries stay, and the message counts as sent or as failed accordingly.
  pub send_reliable_message_lem :
      (k : ℕ)
      → ((send_reliable_message env target m id now r).0 ≡ (if sent then id else 0))
        × (lookup k (send_reliable_message env target m id now r).1.pending_messages ≡ (
            if id == k
            then (if sent then some fresh_entry else none)
            else lookup k r.pending_messages))
        × ((send_reliable_message env target m id now r).1.sent_messages
            ≡ (if sent then r.sent_messages + 1 else r.sent_messages))
        × ((send_reliable_message env target m id now r).1.failed_messages
            ≡ (if sent then r.failed_messages else r.failed_messages + 1))
  unfolding send_reliable_message
  send_reliable_message_lem k =
      let n = (send_message_to_peer env target m r.network).1 in
      let s : Reliable = record r {
        pending_messages = insert id fresh_entry r.pending_messages;
        network = n;
      } in
      let entry = lookup-insert k id fresh_entry r.pending_messages in
      let own = lookup-insert id id fresh_entry r.pending_messages in
      let marked = mark_message_failed-inserted id fresh_entry s k (ground (arith, ==_refl id)) in
      (ground arith, ground arith, ground arith, ground arith)

-- Acknowledgements of one message, one from each sender.
abbrev pub acknowledge_all : ℕ → List NodeId → Reliable → Reliable
acknowledge_all id [] r = r
acknowledge_all id (sender ∷ senders) r =
    acknowledge_all id senders (acknowledge_message id sender r).1

acknowledge_message-counts :
    (id : ℕ) (sender : NodeId) (r : Reliable)
    → contains id r.pending_messages ≡ true
    → (contains id (acknowledge_message id sender r).1.pending_messages ≡ true)
      × ((acknowledge_message id sender r).1.acknowledged_messages ≡ r.acknowledged_messages + 1)
      × ((acknowledge_message id sender r).1.sent_messages ≡ r.sent_messages)
      × (is_message_acknowledged id (acknowledge_message id sender r).1 ≡ true)
unfolding acknowledge_message is_message_acknowledged
acknowledge_message-counts id sender r h = elim (Option-cases (lookup id r.pending_messages)) [
  | inl absent ↦ ground arith
  | inr (m, found) ↦
      let entry = lookup-insert id id (record m { ack_status = acknowledged }) r.pending_messages in
      let same = ==_refl id in (ground arith, ground arith, ground arith, ground arith)
]

-- Every acknowledgement of a pending message is counted, repeated ones too, while the number of sent
-- messages stays; after one or more the message is acknowledged.
pub acknowledge_all-counts :
    (id : ℕ) (sender : NodeId) (senders : List NodeId) (r : Reliable)
    → contains id r.pending_messages ≡ true
    → ((acknowledge_all id (sender ∷ senders) r).acknowledged_messages
        ≡ r.acknowledged_messages + suc (length senders))
      × ((acknowledge_all id (sender ∷ senders) r).sent_messages ≡ r.sent_messages)
      × (is_message_acknowledged id (acknowledge_all id (sender ∷ senders) r) ≡ true)
acknowledge_all-counts id sender [] r h =
    let (_, counted, same, done) = acknowledge_message-counts id sender r h in
    (omega arith, same, done)
acknowledge_all-counts id sender (next ∷ senders) r h =
    let (stays, counted, same, _) = acknowledge_message-counts id sender r h in
    let (counts, sames, done) =
      acknowledge_all-counts id next senders (acknowledge_message id sender r).1 stays in
    (omega arith, sames ∙ same, done)
