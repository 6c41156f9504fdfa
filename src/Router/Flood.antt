-- ===== src/Router/Flood.antt =====
-- floodMessage and the seen messages of src/MessageRouter.cpp.
use peer_to_peer_network_ove.Prelude.{
  ℕ, ◌+◌, ◌≡◌, refl, inl, inr, if◌then◌else◌, Bool, true, false, ◌&&◌, some, none, List, [], ◌∷◌,
  lookup, lookup-insert, Ascending, lookup-erase_if, arith, Bool-cases,
}
use peer_to_peer_network_ove.Prelude.Int.{ℤ, ltb_ℤ}
use peer_to_peer_network_ove.Common.{NodeId, Message, TimePoint, elapsed_seconds}
use peer_to_peer_network_ove.Outcome.{ok}
use peer_to_peer_network_ove.Network.{
  Poco, Network, send_message_to_peer, broadcast_loop, broadcast_message,
}
use peer_to_peer_network_ove.Router.State.{Router}
use peer_to_peer_network_ove.Router.{
  send, flood_loop, flood_message, generate_message_id, is_message_seen, mark_message_seen,
  cleanup_seen_messages,
}

-- The router with another network.
abbrev pub with_network : Router → Network → Router
with_network r n = record r { world = record r.world { network = n } }

module _ (env : Poco) (m : Message) where
  flood_loop-broadcast :
      (peers : List NodeId) (success : Bool) (r : Router)
      → let (b, n) = broadcast_loop env m m.sender_id peers success r.world.network in
        flood_loop env m peers success r ≡ ok (b, with_network r n)
  unfolding flood_loop broadcast_loop send
  flood_loop-broadcast [] success r = refl
  flood_loop-broadcast (peer ∷ peers) success r =
      let n' = (send_message_to_peer env peer m r.world.network).1 in
      let sent = (send_message_to_peer env peer m r.world.network).0 in
      ground (
        arith,
        flood_loop-broadcast peers success r,
        flood_loop-broadcast peers (success && sent) (with_network r n'),
      )

  -- A message whose identifier was not seen is marked, and then sent on like a broadcast that leaves
  -- out the sender; the result is that of the broadcast, and one more message is counted as
  -- forwarded.
  pub flood_message-unseen :
      (now : TimePoint) (r : Router)
      → is_message_seen (generate_message_id m) r ≡ false
      → let (b, n) = broadcast_message env r.world.node m m.sender_id r.world.network in
        flood_message env m now r
        ≡ ok (
          b,
          record (with_network (mark_message_seen (generate_message_id m) now r) n) {
            forwarded_message_count = r.forwarded_message_count + 1;
          },
        )
  unfolding flood_message broadcast_message
  flood_message-unseen now r new = ground (
    arith,
    flood_loop-broadcast r.world.node.peer_ids true
        (mark_message_seen (generate_message_id m) now r),
  )

mark_message_seen-seen :
    (id : ℕ) (now : TimePoint) (r : Router) → is_message_seen id (mark_message_seen id now r) ≡ true
unfolding is_message_seen mark_message_seen
mark_message_seen-seen id now r = ground (arith, lookup-insert id id now r.seen_messages)

flood_message-marks :
    (env : Poco) (m : Message) (now : TimePoint) (r s : Router) (b : Bool)
    → flood_message env m now r ≡ ok (b, s)
    → is_message_seen (generate_message_id m) s ≡ true
unfolding flood_message is_message_seen mark_message_seen
flood_message-marks env m now r s b e =
    elim (Bool-cases (is_message_seen (generate_message_id m) r)) [
      | inl old ↦ ground arith
      | inr new ↦
          let marked = mark_message_seen-seen (generate_message_id m) now r in
          let unseen = flood_message-unseen env m now r new in ground arith
    ]

-- Once a message was flooded, a message with the same identifier is refused, is sent to nobody and
-- changes nothing.
pub flood_message-once :
    (env : Poco) (m m' : Message) (now later : TimePoint) (r s : Router) (b : Bool)
    → generate_message_id m' ≡ generate_message_id m
    → flood_message env m now r ≡ ok (b, s)
    → flood_message env m' later s ≡ ok (false, s)
unfolding flood_message
flood_message-once env m m' now later r s b same e =
    let seen = flood_message-marks env m now r s b e in ground arith

-- cleanupSeenMessages forgets exactly the identifiers that were marked more than the timeout ago.
pub cleanup_seen_messages-lookup :
    (timeout : ℤ) (now : TimePoint) (r : Router) (id : ℕ)
    → Ascending r.seen_messages
    → lookup id (cleanup_seen_messages timeout now r).seen_messages
      ≡ elim (lookup id r.seen_messages) [
        | none ↦ none
        | some seen ↦ if ltb_ℤ timeout (elapsed_seconds now seen) then none else some seen
      ]
unfolding cleanup_seen_messages
cleanup_seen_messages-lookup timeout now r id a =
    lookup-erase_if (λ _ seen. ltb_ℤ timeout (elapsed_seconds now seen)) id r.seen_messages a
