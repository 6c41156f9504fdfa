-- ===== src/Tests/RunTests.antt =====
-- Runs of single operations.
use peer_to_peer_network_ove.Prelude.{◌≡◌, refl, true, false, [], ◌∷◌, insert, erase_if}
use peer_to_peer_network_ove.Prelude.Int.{pos}
use peer_to_peer_network_ove.Outcome.{ok, fault, deadlock}
use peer_to_peer_network_ove.Common.{elapsed_seconds}
use peer_to_peer_network_ove.Network.{is_connected_to}
use peer_to_peer_network_ove.Exchange.State.{DataTransfer, Exchange, in_progress, cancelled}
use peer_to_peer_network_ove.Exchange.{
  cancel_transfer, get_active_transfers, get_transfer_info, update_transfer_progress,
}
use peer_to_peer_network_ove.Reliable.{
  mark_message_acknowledged, is_message_acknowledged, cleanup_acknowledged_messages,
}
use peer_to_peer_network_ove.Manager.{
  get_node_state, active, unknown, failed, update_node_last_seen, handle_topology_change,
  get_node_info,
}
use peer_to_peer_network_ove.Tests.NetworkTests.{connected}
use peer_to_peer_network_ove.Tests.ExchangeTests.{exchange}
use peer_to_peer_network_ove.Tests.ReliableTests.{reliable}
use peer_to_peer_network_ove.Tests.ManagerTests.{manager, second}

is_connected_to_run : is_connected_to 2 connected ≡ true
unfolding is_connected_to
is_connected_to_run = refl

abbrev transfer : DataTransfer
transfer = record {
  transfer_id = 7;
  source_id = 1;
  destination_id = 4;
  data_type = "generic";
  total_size = 3;
  transferred_size = 0;
  status = in_progress;
  start_time = 0;
  last_update = 0;
}

abbrev sending : Exchange
sending = record exchange { outgoing_transfers = (7, transfer) ∷ [] }

cancel_transfer_run : cancel_transfer 7 sending ≡ (
  true,
  record sending { outgoing_transfers = (7, record transfer { status = cancelled }) ∷ [] },
)
unfolding cancel_transfer insert
cancel_transfer_run = refl

get_active_transfers_run : get_active_transfers sending ≡ transfer ∷ []
unfolding get_active_transfers
get_active_transfers_run = refl

get_transfer_info_run :
    get_transfer_info 7 (update_transfer_progress 7 2 9 sending)
    ≡ record transfer { transferred_size = 2; last_update = 9 }
unfolding get_transfer_info update_transfer_progress insert
get_transfer_info_run = refl

-- A message that was acknowledged is removed after the timeout.
cleanup_acknowledged_messages_run :
    (is_message_acknowledged 8 (mark_message_acknowledged 8 reliable) ≡ true)
    × ((cleanup_acknowledged_messages
          (pos 3)
          5000000000
          (mark_message_acknowledged 8 reliable)).pending_messages
        ≡ [])
unfolding is_message_acknowledged mark_message_acknowledged cleanup_acknowledged_messages
    elapsed_seconds insert erase_if
cleanup_acknowledged_messages_run = (refl, refl)

update_node_last_seen_run : update_node_last_seen 2 5 manager ≡ fault deadlock
unfolding update_node_last_seen
update_node_last_seen_run = refl

handle_topology_change_run :
    handle_topology_change 2 false manager
    ≡ ok (tt, record manager { node_registry = (2, record second { state = failed }) ∷ [] })
unfolding handle_topology_change insert
handle_topology_change_run = refl

get_node_info_run : get_node_info 2 manager ≡ ok (second, manager)
unfolding get_node_info
get_node_info_run = refl

get_node_state_run :
    (get_node_state 2 manager ≡ ok (active, manager))
    × (get_node_state 3 manager ≡ ok (unknown, manager))
unfolding get_node_state
get_node_state_run = (refl, refl)
