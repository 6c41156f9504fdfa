-- ===== src/Tests/ReliableTests.antt =====
-- src/ReliableMessaging.cpp with one pending message.
use peer_to_peer_network_ove.Prelude.{
  ◌≡◌, ◌≤◌, refl, true, none, insert, arith, [], ◌∷◌, lookup, some,
}
use peer_to_peer_network_ove.Prelude.Int.{pos}
use peer_to_peer_network_ove.Common.{elapsed_seconds}
use peer_to_peer_network_ove.Network.{send_message_to_peer}
use peer_to_peer_network_ove.Reliable.{
  ReliableMessage, Reliable, pending, retry_pending_messages, send_reliable_message,
  is_message_acknowledged, new_reliable, retry_loop, retry_one, fail_loop,
}
use peer_to_peer_network_ove.Reliable.Retry.{retry_pending_messages-lookup}
use peer_to_peer_network_ove.Reliable.Bound.{sends, retries, Call, run, call, run-retry_count}
use peer_to_peer_network_ove.Reliable.GivingUp.{rounds, run-gives_up}
use peer_to_peer_network_ove.Reliable.Delivery.{
  send_reliable_message_lem, acknowledge_all, acknowledge_all-counts,
}
use peer_to_peer_network_ove.Tests.NetworkTests.{good_sockets, connected}
use peer_to_peer_network_ove.Tests.WireTests.{two_bytes}
use peer_to_peer_network_ove.Prelude.{List}

abbrev waiting : ReliableMessage
waiting = record {
  message_id = 8;
  message = two_bytes;
  destination_id = 2;
  ack_status = pending;
  retry_count = 1;
  send_time = 0;
  last_retry = 0;
}

abbrev pub reliable : Reliable
reliable = record {
  network = connected;
  pending_messages = (8, waiting) ∷ [];
  retry_timeout = pos 30;
  max_retries = pos 3;
  on_message_delivered = true;
  on_message_failed = true;
  sent_messages = 1;
  acknowledged_messages = 0;
  failed_messages = 0;
  delivery_notices = [];
}

-- After 40 seconds the message is sent a third time.
retry_pending_messages-lookup_example :
    lookup 8
      (retry_pending_messages good_sockets (pos 30) (pos 3) 40000000000 reliable).pending_messages
    ≡ some (record waiting { retry_count = 2; last_retry = 40000000000 })
unfolding elapsed_seconds
retry_pending_messages-lookup_example =
    retry_pending_messages-lookup good_sockets 40000000000 (pos 30) (pos 3) reliable 8 tt

send_reliable_message_lem_run :
    ((send_reliable_message good_sockets 2 two_bytes 9 50 reliable).0 ≡ 9)
    × (lookup 9 (send_reliable_message good_sockets 2 two_bytes 9 50 reliable).1.pending_messages
        ≡ some
            (record waiting { message_id = 9; retry_count = 0; send_time = 50; last_retry = 50 }))
    × ((send_reliable_message good_sockets 2 two_bytes 9 50 reliable).1.sent_messages ≡ 2)
    × ((send_reliable_message good_sockets 2 two_bytes 9 50 reliable).1.failed_messages ≡ 0)
unfolding send_message_to_peer
send_reliable_message_lem_run = send_reliable_message_lem good_sockets 2 two_bytes 9 50 reliable 9

-- One message that was sent and two acknowledgements of it.
acknowledge_all-counts_example :
    ((acknowledge_all 8 (2 ∷ 2 ∷ []) reliable).acknowledged_messages ≡ 2)
    × ((acknowledge_all 8 (2 ∷ 2 ∷ []) reliable).sent_messages ≡ 1)
    × (is_message_acknowledged 8 (acknowledge_all 8 (2 ∷ 2 ∷ []) reliable) ≡ true)
acknowledge_all-counts_example = acknowledge_all-counts 8 2 (2 ∷ []) reliable refl

-- A message that is sent, and retried after 40 seconds.
abbrev history : List Call
history = sends 2 two_bytes 8 0 ∷ retries (pos 30) 40000000000 ∷ []

abbrev retried_once : ReliableMessage
retried_once = record waiting { last_retry = 40000000000 }

run-history :
    lookup 8 (run good_sockets 3 history (new_reliable connected)).pending_messages
    ≡ some retried_once
unfolding run call send_reliable_message retry_pending_messages retry_loop retry_one fail_loop
    send_message_to_peer insert elapsed_seconds
run-history = refl

run-retry_count_example : 1 ≤ 3
run-retry_count_example =
    run-retry_count good_sockets 3 connected history 8 retried_once run-history

-- Four rounds later nothing waits.
run-gives_up_example :
    lookup 8
      (rounds good_sockets
        (pos 30)
        3
        (80000000000 ∷ 120000000000 ∷ 160000000000 ∷ 200000000000 ∷ [])
        (run good_sockets 3 history (new_reliable connected))).pending_messages
    ≡ none
unfolding elapsed_seconds
run-gives_up_example =
    run-gives_up good_sockets (pos 30) 3 connected history 8 retried_once
      (80000000000 ∷ 120000000000 ∷ 160000000000 ∷ 200000000000 ∷ []) run-history refl
      (refl, (refl, (refl, (refl, tt)))) (omega arith)
