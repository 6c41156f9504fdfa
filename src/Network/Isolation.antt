-- ===== src/Network/Isolation.antt =====
-- Histories of calls of NetworkManager (src/NetworkManager.cpp): whether a connection is ever made.
use peer_to_peer_network_ove.Prelude.{
  ℕ, ◌==◌, ◌≡◌, refl, ◌||◌, Bool, true, false, not, ◌&&◌, List, [], ◌∷◌, arith,
}
use peer_to_peer_network_ove.Common.{NodeId, NetworkAddress, Message}
use peer_to_peer_network_ove.Node.{Node}
use peer_to_peer_network_ove.Network.{
  Poco, Network, new_network, start_server, stop_server, connect_to_peer, disconnect_from_peer,
  send_message_to_peer, broadcast_loop, broadcast_message,
}
use peer_to_peer_network_ove.Prelude.{subst}
use peer_to_peer_network_ove.Prelude.{sym}

-- The calls that change a NetworkManager.
pub data Call : Type 0 where
  starts : ℕ → Call
  stops : Call
  connects : NetworkAddress → Call
  disconnects : NodeId → Call
  sends : NodeId → Message → Call
  broadcasts : Node → Message → NodeId → Call

new_network-unconnected : new_network.active_connections ≡ []
unfolding new_network
new_network-unconnected = refl

-- There is no connection, and nothing was sent.
abbrev pub IsSilent : Network → Type 0
IsSilent n = (n.active_connections ≡ []) × (n.sent_bytes ≡ [])

pub new_network-IsSilent : IsSilent new_network
unfolding new_network
new_network-IsSilent = (refl, refl)

pub stop_server-IsSilent : (n : Network) → IsSilent n → IsSilent (stop_server n)
unfolding stop_server
stop_server-IsSilent n h = h

pub stop_server-running : (n : Network) → (stop_server n).server_running ≡ false
unfolding stop_server
stop_server-running n = refl

pub disconnect_from_peer-IsSilent :
    (peer : NodeId) (n : Network) → IsSilent n → IsSilent (disconnect_from_peer peer n).1
unfolding disconnect_from_peer
disconnect_from_peer-IsSilent peer n h = ground (arith, h.0, h.1)

module _ (env : Poco) where
  unfoldable pub perform : Call → Network → Network
  perform (starts port) n = (start_server env port n).1
  perform stops n = stop_server n
  perform (connects address) n = (connect_to_peer env address n).1
  perform (disconnects peer) n = (disconnect_from_peer peer n).1
  perform (sends peer m) n = (send_message_to_peer env peer m n).1
  perform (broadcasts node m exclude) n = (broadcast_message env node m exclude n).1

  unfoldable pub run : List Call → Network → Network
  unfolding perform
  run [] n = n
  run (c ∷ cs) n = run cs (perform c n)

  -- Without a connection a send changes nothing and fails, and a broadcast changes nothing.
  pub send-unconnected :
      (peer : NodeId) (m : Message) (n : Network)
      → n.active_connections ≡ []
      → send_message_to_peer env peer m n ≡ (false, n)
  unfolding send_message_to_peer
  send-unconnected peer m n e = ground arith

  -- Some peer is not the one that is left out.
  abbrev pub has_other : NodeId → List NodeId → Bool
  has_other exclude [] = false
  has_other exclude (peer ∷ peers) = not (peer == exclude) || has_other exclude peers

  broadcast-unconnected :
      (m : Message) (exclude : NodeId) (peers : List NodeId) (success : Bool) (n : Network)
      → n.active_connections ≡ []
      → broadcast_loop env m exclude peers success n ≡ (success && not (has_other exclude peers), n)
  unfolding broadcast_loop
  broadcast-unconnected m exclude [] success n e = ground arith
  broadcast-unconnected m exclude (peer ∷ peers) success n e = ground (
    arith,
    send-unconnected peer m n e,
    broadcast-unconnected m exclude peers success n e,
    broadcast-unconnected m exclude peers (success && false) n e,
  )

  perform-unconnected :
      (c : Call) (n : Network) → n.active_connections ≡ [] → (perform c n).active_connections ≡ []
  unfolding perform start_server stop_server connect_to_peer disconnect_from_peer broadcast_message
  perform-unconnected (starts port) n e = ground arith
  perform-unconnected stops n e = e
  perform-unconnected (connects address) n e = e
  perform-unconnected (disconnects peer) n e = ground arith
  perform-unconnected (sends peer m) n e = ground (arith, send-unconnected peer m n e)
  perform-unconnected (broadcasts node m exclude) n e =
      ground (arith, broadcast-unconnected m exclude node.peer_ids true n e)

  run-unconnected :
      (cs : List Call) (n : Network)
      → n.active_connections ≡ []
      → (run cs n).active_connections ≡ []
  unfolding run
  run-unconnected [] n e = e
  run-unconnected (c ∷ cs) n e = run-unconnected cs (perform c n) (perform-unconnected c n e)

  -- Each call keeps silence.
  pub start_server-IsSilent :
      (port : ℕ) (n : Network) → IsSilent n → IsSilent (start_server env port n).1
  unfolding start_server
  start_server-IsSilent port n h = ground (arith, h.0, h.1)

  pub connect_to_peer-IsSilent :
      (address : NetworkAddress) (n : Network)
      → IsSilent n
      → IsSilent (connect_to_peer env address n).1
  unfolding connect_to_peer
  connect_to_peer-IsSilent address n h = h

  pub send_message_to_peer-IsSilent :
      (peer : NodeId) (m : Message) (n : Network)
      → IsSilent n
      → IsSilent (send_message_to_peer env peer m n).1
  send_message_to_peer-IsSilent peer m n h =
      subst (λ (r : Bool × Network). IsSilent r.1) (sym (send-unconnected peer m n h.0)) h

  pub broadcast_message-IsSilent :
      (node : Node) (m : Message) (exclude : NodeId) (n : Network)
      → IsSilent n
      → IsSilent (broadcast_message env node m exclude n).1
  unfolding broadcast_message
  broadcast_message-IsSilent node m exclude n h =
      subst (λ (r : Bool × Network). IsSilent r.1)
        (sym (broadcast-unconnected m exclude node.peer_ids true n h.0)) h

  -- After any history of calls on a new NetworkManager, whatever the sockets do, every send fails
  -- and changes nothing, and a broadcast fails exactly if some peer is not left out: no call makes
  -- an entry in the map of connections.
  pub run-sends :
      (cs : List Call) (peer : NodeId) (m : Message) (node : Node) (exclude : NodeId)
      → let n = run cs new_network in
        (send_message_to_peer env peer m n ≡ (false, n))
        × (broadcast_message env node m exclude n ≡ (not (has_other exclude node.peer_ids), n))
  unfolding broadcast_message
  run-sends cs peer m node exclude =
      let e = run-unconnected cs new_network new_network-unconnected in
      (
        send-unconnected peer m (run cs new_network) e,
        broadcast-unconnected m exclude node.peer_ids true (run cs new_network) e,
      )
