-- ===== src/Tests/ExchangeTests.antt =====
-- src/DataExchange.cpp on three bytes in chunks of two.
use peer_to_peer_network_ove.Prelude.{
  ℕ, ◌≡◌, refl, true, false, List, [], ◌∷◌, length, lookup, some, none, arith,
}
use peer_to_peer_network_ove.Prelude.Int.{pos}
use peer_to_peer_network_ove.Outcome.{ok}
use peer_to_peer_network_ove.Exchange.State.{DataChunk, Exchange}
use peer_to_peer_network_ove.Exchange.{
  split_data, send_data, cleanup_completed_transfers, new_outgoing, end_transfer,
}
use peer_to_peer_network_ove.Exchange.Splitting.{Splits, joined, split_data-joined}
use peer_to_peer_network_ove.Exchange.Sending.{
  cleanup_completed_transfers-lookup, send_data-unconnected,
}
use peer_to_peer_network_ove.Tests.RouterTests.{router}
use peer_to_peer_network_ove.Tests.NetworkTests.{good_sockets}
use peer_to_peer_network_ove.Router.State.{Router}

abbrev cut_off : Router
cut_off = record router {
  world = record router.world { network = record router.world.network { active_connections = [] } };
}

abbrev pub exchange : Exchange
exchange = record {
  router = cut_off;
  outgoing_transfers = [];
  incoming_transfers = [];
  received_chunks = [];
  completed_data = [];
  chunk_size = 2;
  max_concurrent_transfers = 5;
  on_data_received = true;
  on_transfer_complete = false;
  on_transfer_progress = true;
  sent_data_size = 0;
  received_data_size = 0;
  completed_transfers = 0;
  failed_transfers = 0;
  notices = [];
}

abbrev three : List ℕ
three = 10 ∷ 20 ∷ 30 ∷ []

three-Splits : Splits three 2
three-Splits = record { positive = omega arith; fits = omega arith; few = omega arith }

split_data-joined_example :
    (chunks : List DataChunk) × (split_data three 7 exchange ≡ ok (chunks, exchange))
    × (joined chunks ≡ three)
    × (length chunks ≡ 2)
split_data-joined_example = split_data-joined three 7 exchange three-Splits

send_data-unconnected_example :
    (s : Exchange) × (send_data good_sockets (λ _. []) 9 4 three "generic" 7 exchange ≡ ok (0, s))
    × (lookup 7 s.outgoing_transfers
        ≡ some (
            end_transfer false 9
              (new_outgoing good_sockets (λ _. []) 9 4 three "generic" 7 exchange)))
    × (s.failed_transfers ≡ 1)
send_data-unconnected_example =
    send_data-unconnected good_sockets (λ _. []) 9 4 10 (20 ∷ 30 ∷ []) "generic" 7 exchange
      (refl, refl) three-Splits

cleanup_completed_transfers-lookup_run :
    (lookup 7 (cleanup_completed_transfers (pos 3) 5000000000 exchange).outgoing_transfers ≡ none)
    × (lookup 7 (cleanup_completed_transfers (pos 3) 5000000000 exchange).incoming_transfers ≡ none)
cleanup_completed_transfers-lookup_run =
    cleanup_completed_transfers-lookup (pos 3) 5000000000 exchange 7 tt tt
