-- ===== src/Tests/NetworkTests.antt =====
-- src/NetworkManager.cpp with sockets that never fail.
use peer_to_peer_network_ove.Prelude.{◌≡◌, false, true, if◌then◌else◌, [], ◌∷◌}
use peer_to_peer_network_ove.Network.{
  Poco, Network, new_network, send_message_to_peer, broadcast_message,
}
use peer_to_peer_network_ove.Network.Delivery.{send_message_to_peer_lem}
use peer_to_peer_network_ove.Network.Isolation.{connects, disconnects, run, run-sends}
use peer_to_peer_network_ove.Tests.NodeTests.{here_address, two_peers}
use peer_to_peer_network_ove.Tests.WireTests.{two_bytes}

abbrev pub good_sockets : Poco
good_sockets = record {
  binds = λ _ _. true;
  connects = λ _ _. true;
  sends = λ _ _. true;
  stack_bytes = λ _. [];
}

-- A NetworkManager that has a connection to node 2.
abbrev pub connected : Network
connected = record {
  active_connections = 2 ∷ [];
  server_running = true;
  sent_message_count = 4;
  poco_calls = 0;
  sent_bytes = [];
}

send_message_to_peer_lem_run :
    ((send_message_to_peer good_sockets 2 two_bytes connected).0 ≡ true)
    × ((send_message_to_peer good_sockets 2 two_bytes connected).1.sent_message_count
        ≡ (if (send_message_to_peer good_sockets 2 two_bytes connected).0 then 5 else 4))
    × (true ≡ false → (send_message_to_peer good_sockets 2 two_bytes connected).1 ≡ connected)
    × ((send_message_to_peer good_sockets 2 two_bytes connected).1.active_connections ≡ 2 ∷ [])
send_message_to_peer_lem_run = send_message_to_peer_lem good_sockets 2 two_bytes connected

-- Node 2 was connected to, but nothing can be sent to it; the broadcast leaves out node 7.
run-sends_example :
    let n = run good_sockets (connects here_address ∷ disconnects 2 ∷ []) new_network in
    (send_message_to_peer good_sockets 2 two_bytes n ≡ (false, n))
    × (broadcast_message good_sockets two_peers two_bytes 7 n ≡ (false, n))
run-sends_example =
    run-sends good_sockets (connects here_address ∷ disconnects 2 ∷ []) 2 two_bytes two_peers 7
