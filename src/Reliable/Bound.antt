-- ===== src/Reliable/Bound.antt =====
-- src/ReliableMessaging.cpp: histories of calls, and how often the pending messages were retried.
use peer_to_peer_network_ove.Prelude.{
  ℕ, ◌≤◌, ◌≡◌, ◌&&◌, ◌+◌, if◌then◌else◌, Bool, true, false, inl, inr, Option-cases, some, List, [],
  ◌∷◌, lookup, Ascending, arith,
}
use peer_to_peer_network_ove.Prelude.Int.{ℤ, pos}
use peer_to_peer_network_ove.Common.{NodeId, Message, TimePoint}
use peer_to_peer_network_ove.Network.{Poco, Network, send_message_to_peer}
use peer_to_peer_network_ove.Reliable.{
  ReliableMessage, Reliable, new_reliable, mark_message_failed, acknowledge_message, fail_loop,
  retry_one, retry_loop, send_reliable_message, retry_pending_messages,
  cleanup_acknowledged_messages, select, is_due, may_retry,
}
use peer_to_peer_network_ove.Reliable.Retry.{retry_pending_messages-lookup}
use peer_to_peer_network_ove.Prelude.{erase-Ascending}
use peer_to_peer_network_ove.Prelude.{Option-cases}
use peer_to_peer_network_ove.Prelude.{Map}
use peer_to_peer_network_ove.Reliable.{pending}
use peer_to_peer_network_ove.Reliable.{is_acknowledged}
use peer_to_peer_network_ove.Prelude.{insert}
use peer_to_peer_network_ove.Prelude.{erase}
use peer_to_peer_network_ove.Prelude.{insert-Ascending}
use peer_to_peer_network_ove.Prelude.{lookup-erase}
use peer_to_peer_network_ove.Prelude.{lookup-insert}
use peer_to_peer_network_ove.Reliable.{retried}
use peer_to_peer_network_ove.Prelude.{not}
use peer_to_peer_network_ove.Reliable.{acknowledged}
use peer_to_peer_network_ove.Prelude.Int.{ltb_ℤ}
use peer_to_peer_network_ove.Common.{elapsed_seconds}
use peer_to_peer_network_ove.Prelude.{erase_if-Ascending}
use peer_to_peer_network_ove.Prelude.{lookup-erase_if}

-- The calls that change the pending messages, with what they draw and read of the clock.
pub data Call : Type 0 where
  sends : NodeId → Message → ℕ → TimePoint → Call
  acknowledges : ℕ → NodeId → Call
  retries : ℤ → TimePoint → Call
  cleans_up : ℤ → TimePoint → Call

fail_loop-Ascending :
    (ids : List ℕ) (r : Reliable)
    → Ascending r.pending_messages
    → Ascending (fail_loop ids r).pending_messages
unfolding fail_loop mark_message_failed
fail_loop-Ascending [] r a = a
fail_loop-Ascending (id ∷ ids) r a =
    fail_loop-Ascending ids (mark_message_failed id r)
      (ground (arith, erase-Ascending id r.pending_messages a))

module _ (env : Poco) where
  retry_loop-Ascending :
      (now : TimePoint) (ids : List ℕ) (r : Reliable)
      → Ascending r.pending_messages
      → Ascending (retry_loop env now ids r).pending_messages
  unfolding retry_loop retry_one
  retry_loop-Ascending now [] r a = a
  retry_loop-Ascending now (id ∷ ids) r a =
      retry_loop-Ascending now ids (retry_one env now id r)
        (elim (Option-cases (lookup id r.pending_messages)) [
          | inl absent ↦ ground arith
          | inr (m, found) ↦
              ground (arith, insert-Ascending id (retried now m) r.pending_messages a)
        ])

  pub retry_pending_messages-Ascending :
      (seconds max_retries : ℤ) (now : TimePoint) (r : Reliable)
      → Ascending r.pending_messages
      → Ascending (retry_pending_messages env seconds max_retries now r).pending_messages
  unfolding retry_pending_messages
  retry_pending_messages-Ascending seconds max_retries now r a =
      let retries = λ (m : ReliableMessage). is_due seconds now m && may_retry max_retries m in
      let fails = λ (m : ReliableMessage). is_due seconds now m && not (may_retry max_retries m) in
      let after = retry_loop env now (select retries r.pending_messages) r in
      fail_loop-Ascending (select fails r.pending_messages) after
        (retry_loop-Ascending now (select retries r.pending_messages) r a)

  module _ (limit : ℕ) where
    -- One call; each call of retryPendingMessages has the same maxRetries.
    unfoldable pub call : Call → Reliable → Reliable
    call (sends target m id now) r = (send_reliable_message env target m id now r).1
    call (acknowledges id sender) r = (acknowledge_message id sender r).1
    call (retries seconds now) r = retry_pending_messages env seconds (pos limit) now r
    call (cleans_up seconds now) r = cleanup_acknowledged_messages seconds now r

    unfoldable pub run : List Call → Reliable → Reliable
    unfolding call
    run [] r = r
    run (c ∷ cs) r = run cs (call c r)

    -- The order of std::map, and no entry that was retried more often than `limit`.
    record IsBounded (held : Map ReliableMessage) : Type 0 where
      ascending : Ascending held
      bounded : (k : ℕ) (m : ReliableMessage) → lookup k held ≡ some m → m.retry_count ≤ limit

    insert-IsBounded :
        (k : ℕ) (m : ReliableMessage) (held : Map ReliableMessage)
        → m.retry_count ≤ limit
        → IsBounded held
        → IsBounded (insert k m held)
    insert-IsBounded k m held few h = record {
      ascending = insert-Ascending k m held h.ascending;
      bounded = λ j v found. ground (arith, lookup-insert j k m held, h.bounded j v);
    }

    erase-IsBounded :
        (k : ℕ) (held : Map ReliableMessage) → IsBounded held → IsBounded (erase k held)
    erase-IsBounded k held h = record {
      ascending = erase-Ascending k held h.ascending;
      bounded = λ j v found. ground (arith, lookup-erase j k held, h.bounded j v);
    }

    mark_message_failed-IsBounded :
        (id : ℕ) (r : Reliable)
        → IsBounded r.pending_messages
        → IsBounded (mark_message_failed id r).pending_messages
    unfolding mark_message_failed
    mark_message_failed-IsBounded id r h = elim (Option-cases (lookup id r.pending_messages)) [
      | inl absent ↦ rw (absent, mark_message_failed) h
      | inr (m, found) ↦ rw (found, mark_message_failed) (erase-IsBounded id r.pending_messages h)
    ]

    if-IsBounded :
        (b : Bool) (x y : ℕ × Reliable)
        → IsBounded x.1.pending_messages
        → IsBounded y.1.pending_messages
        → IsBounded (if b then x else y).1.pending_messages
    if-IsBounded true x y p q = p
    if-IsBounded false x y p q = q

    abbrev entry_of : NodeId → Message → ℕ → TimePoint → ReliableMessage
    entry_of target m id now = record {
      message_id = id;
      message = m;
      destination_id = target;
      ack_status = pending;
      retry_count = 0;
      send_time = now;
      last_retry = now;
    }

    send-IsBounded :
        (target : NodeId) (m : Message) (id : ℕ) (now : TimePoint) (r : Reliable)
        → IsBounded r.pending_messages
        → IsBounded (send_reliable_message env target m id now r).1.pending_messages
    unfolding send_reliable_message
    send-IsBounded target m id now r h =
        let s : Reliable = record r {
          pending_messages = insert id (entry_of target m id now) r.pending_messages;
          network = (send_message_to_peer env target m r.network).1;
        } in
        let stored =
          insert-IsBounded id (entry_of target m id now) r.pending_messages (omega arith) h in
        if-IsBounded (send_message_to_peer env target m r.network).0
          (id, record s { sent_messages = s.sent_messages + 1 }) (0, mark_message_failed id s)
          stored (mark_message_failed-IsBounded id s stored)

    acknowledge-IsBounded :
        (id : ℕ) (sender : NodeId) (r : Reliable)
        → IsBounded r.pending_messages
        → IsBounded (acknowledge_message id sender r).1.pending_messages
    unfolding acknowledge_message
    acknowledge-IsBounded id sender r h = elim (Option-cases (lookup id r.pending_messages)) [
      | inl absent ↦ rw (absent, acknowledge_message) h
      | inr (m, found) ↦
          rw (found, acknowledge_message)
            (insert-IsBounded id (record m { ack_status = acknowledged }) r.pending_messages
              (h.bounded id m found) h)
    ]

    retry-IsBounded :
        (seconds : ℤ) (now : TimePoint) (r : Reliable)
        → IsBounded r.pending_messages
        → IsBounded (retry_pending_messages env seconds (pos limit) now r).pending_messages
    retry-IsBounded seconds now r h = record {
      ascending = retry_pending_messages-Ascending seconds (pos limit) now r h.ascending;
      bounded = λ k m found. elim (Option-cases (lookup k r.pending_messages)) [
        | inl absent ↦
            ground
              (arith, retry_pending_messages-lookup env now seconds (pos limit) r k h.ascending)
        | inr (v, before) ↦ ground (
          arith,
          retry_pending_messages-lookup env now seconds (pos limit) r k h.ascending,
          h.bounded k v before,
        )
      ];
    }

    cleanup-IsBounded :
        (seconds : ℤ) (now : TimePoint) (r : Reliable)
        → IsBounded r.pending_messages
        → IsBounded (cleanup_acknowledged_messages seconds now r).pending_messages
    unfolding cleanup_acknowledged_messages
    cleanup-IsBounded seconds now r h =
        let old = λ (_ : ℕ) (m : ReliableMessage).
          is_acknowledged m && ltb_ℤ seconds (elapsed_seconds now m.send_time) in
        record {
          ascending = erase_if-Ascending old r.pending_messages h.ascending;
          bounded = λ k m found.
              ground (arith, lookup-erase_if old k r.pending_messages h.ascending, h.bounded k m);
        }

    call-IsBounded :
        (c : Call) (r : Reliable)
        → IsBounded r.pending_messages
        → IsBounded (call c r).pending_messages
    unfolding call
    call-IsBounded (sends target m id now) r h = send-IsBounded target m id now r h
    call-IsBounded (acknowledges id sender) r h = acknowledge-IsBounded id sender r h
    call-IsBounded (retries seconds now) r h = retry-IsBounded seconds now r h
    call-IsBounded (cleans_up seconds now) r h = cleanup-IsBounded seconds now r h

    run-IsBounded :
        (cs : List Call) (r : Reliable)
        → IsBounded r.pending_messages
        → IsBounded (run cs r).pending_messages
    unfolding run
    run-IsBounded [] r h = h
    run-IsBounded (c ∷ cs) r h = run-IsBounded cs (call c r) (call-IsBounded c r h)

    new-IsBounded :
        (network : Network) (cs : List Call)
        → IsBounded (run cs (new_reliable network)).pending_messages
    new-IsBounded network cs =
        run-IsBounded cs (new_reliable network)
          (record { ascending = tt; bounded = λ k m found. ground arith })

    pub run-Ascending :
        (network : Network) (cs : List Call)
        → Ascending (run cs (new_reliable network)).pending_messages
    run-Ascending network cs = (new-IsBounded network cs).ascending

    -- After any history of calls on a new ReliableMessaging, in which each call of
    -- retryPendingMessages has the same maxRetries, no pending message was retried more often.
    pub run-retry_count :
        (network : Network) (cs : List Call) (k : ℕ) (m : ReliableMessage)
        → lookup k (run cs (new_reliable network)).pending_messages ≡ some m
        → m.retry_count ≤ limit
    run-retry_count network cs k m found = (new-IsBounded network cs).bounded k m found
