-- ===== src/Handler/Isolation.antt =====
-- The handlers of src/MessageHandler.cpp keep the shared objects isolated: whatever message arrives,
-- none of them opens a connection or sends.
use peer_to_peer_network_ove.Prelude.{◌==◌, not, ◌&&◌, ltb, Bool, true, false, List, [], ◌∷◌}
use peer_to_peer_network_ove.Prelude.Int.{pos}
use peer_to_peer_network_ove.Common.{
  NodeId, NetworkAddress, Message, TimePoint, max_peers, join_request, join_response,
  leave_notification, heartbeat, topology_update, peer_discovery,
}
use peer_to_peer_network_ove.Outcome.{ok, ret, ◌>>=◌, ◌>>◌}
use peer_to_peer_network_ove.Outcome.Holds.{Keeps, Holds-if, >>=-Keeps}
use peer_to_peer_network_ove.Node.{has_peer, get_peer_count, remove_peer, update_last_seen}
use peer_to_peer_network_ove.Network.{
  Poco, send_message_to_peer, broadcast_message, connect_to_peer,
}
use peer_to_peer_network_ove.Network.Isolation.{
  send_message_to_peer-IsSilent, broadcast_message-IsSilent, connect_to_peer-IsSilent,
}
use peer_to_peer_network_ove.Wire.{deserialize_node_list}
use peer_to_peer_network_ove.Topology
use peer_to_peer_network_ove.Topology.Keeping.{
  discover_peers-Keeps, node_exists-Keeps, get_node_address-Keeps, remove_node-Keeps,
  check_network_integrity-Keeps,
}
use peer_to_peer_network_ove.World.{World, on_topology}
use peer_to_peer_network_ove.World.Isolation.{
  IsIsolated, on_topology-Keeps, with_network, with_node, remove_peer-IsIsolated,
}
use peer_to_peer_network_ove.Handler.{
  suggest, requested_peers, drop_peer, drop_unknown, send_to, respond, create_join_response,
  create_topology_update, create_heartbeat, handle_join_request, connect_known, connect_suggested,
  handle_join_response, announce, handle_leave_notification, handle_heartbeat,
  handle_topology_update, handle_peer_discovery, process_message,
}

module _ (id : NodeId) where
  abbrev P : World → Type 0
  P = IsIsolated id

  suggest-Keeps : (accepted : Bool) (sender : NodeId) → Keeps P (suggest accepted sender)
  unfolding suggest
  suggest-Keeps true sender =
      on_topology-Keeps id (Topology.discover_peers sender (pos max_peers))
        (discover_peers-Keeps sender (pos max_peers))
  suggest-Keeps false sender = λ w h. h

  drop_peer-Keeps : (k : NodeId) (exists : Bool) → Keeps P (drop_peer k exists)
  unfolding drop_peer
  drop_peer-Keeps k true w h = h
  drop_peer-Keeps k false w h = remove_peer-IsIsolated id k w h

  drop_unknown-Keeps : (ks : List NodeId) → Keeps P (drop_unknown ks)
  unfolding drop_unknown
  drop_unknown-Keeps [] = λ w h. h
  drop_unknown-Keeps (k ∷ ks) =
      >>=-Keeps P (on_topology (Topology.node_exists k)) (λ b. drop_peer k b >> drop_unknown ks)
        (on_topology-Keeps id (Topology.node_exists k) (node_exists-Keeps k))
        (λ b.
          >>=-Keeps P (drop_peer k b) (λ _. drop_unknown ks) (drop_peer-Keeps k b)
            (λ _. drop_unknown-Keeps ks))

  module _ (env : Poco) (now : TimePoint) where
    send_to-Keeps : (peer : NodeId) (m : Message) → Keeps P (send_to env now peer m)
    unfolding send_to
    send_to-Keeps peer m w h =
        with_network id w (send_message_to_peer env peer m w.network).1 h
          (send_message_to_peer-IsSilent env peer m w.network h.silent)

    respond-Keeps :
        (k : NodeId) (accepted : Bool) (peers : List NodeId)
        → Keeps P (respond env now k accepted peers)
    unfolding respond
    respond-Keeps k accepted peers w h =
        send_to-Keeps k (create_join_response now k accepted peers w) w h

    handle_join_request-Keeps : (m : Message) → Keeps P (handle_join_request env now m)
    unfolding handle_join_request
    handle_join_request-Keeps m w h =
        let accepted = ltb (get_peer_count w.node) max_peers in
        >>=-Keeps P (suggest accepted m.sender_id)
          (λ peers. respond env now m.sender_id accepted peers) (suggest-Keeps accepted m.sender_id)
          (λ peers. respond-Keeps m.sender_id accepted peers) w h

    connect_known-Keeps : (a : NetworkAddress) → Keeps P (connect_known env now a)
    unfolding connect_known
    connect_known-Keeps a w h =
        Holds-if P (a.port == 0) (ok (tt, w))
          (ok (tt, record w { network = (connect_to_peer env a w.network).1 })) h
          (with_network id w (connect_to_peer env a w.network).1 h
            (connect_to_peer-IsSilent env a w.network h.silent))

    connect_suggested-Keeps : (ks : List NodeId) → Keeps P (connect_suggested env now ks)
    unfolding connect_suggested
    connect_suggested-Keeps [] w h = h
    connect_suggested-Keeps (k ∷ ks) w h =
        let rest = connect_suggested env now ks in
        Holds-if P (not (k == w.node.node_id) && not (has_peer w.node k)) _ (rest w)
          (>>=-Keeps P (on_topology (Topology.get_node_address k))
            (λ a. connect_known env now a >> rest)
            (on_topology-Keeps id (Topology.get_node_address k) (get_node_address-Keeps k))
            (λ a.
              >>=-Keeps P (connect_known env now a) (λ _. rest) (connect_known-Keeps a)
                (λ _. connect_suggested-Keeps ks))
            w h)
          (connect_suggested-Keeps ks w h)

    announce-Keeps : (gone : NodeId) → Keeps P (announce env now gone)
    unfolding announce
    announce-Keeps gone w h =
        let update = create_topology_update now (gone ∷ []) w in
        with_network id w (broadcast_message env w.node update gone w.network).1 h
          (broadcast_message-IsSilent env w.node update gone w.network h.silent)

    handle_leave_notification-Keeps : (m : Message) → Keeps P (handle_leave_notification env now m)
    unfolding handle_leave_notification
    handle_leave_notification-Keeps m w h =
        >>=-Keeps P (on_topology (Topology.remove_node m.sender_id))
          (λ _. announce env now m.sender_id)
          (on_topology-Keeps id (Topology.remove_node m.sender_id) (remove_node-Keeps m.sender_id))
          (λ _. announce-Keeps m.sender_id) (record w { node = (remove_peer w.node m.sender_id).0 })
          (remove_peer-IsIsolated id m.sender_id w h)

    handle_heartbeat-Keeps : (m : Message) → Keeps P (handle_heartbeat env now m)
    unfolding handle_heartbeat
    handle_heartbeat-Keeps m w h =
        let n = update_last_seen w.node now in
        let s : World = record w { node = n } in
        send_to-Keeps m.sender_id (create_heartbeat now m.sender_id s) s (
          with_node id w n h h.same (record {
            parallel = h.peers.parallel;
            distinct = h.peers.distinct;
            bounded = h.peers.bounded;
          }))

    handle_topology_update-Keeps : (m : Message) → Keeps P (handle_topology_update env now m)
    unfolding handle_topology_update
    handle_topology_update-Keeps m =
        let ks = deserialize_node_list m.payload in
        let check = on_topology Topology.check_network_integrity in
        >>=-Keeps P (drop_unknown ks) (λ _. check >>= λ _. ret tt) (drop_unknown-Keeps ks)
          (λ _.
            >>=-Keeps P check (λ _. ret tt)
              (on_topology-Keeps id Topology.check_network_integrity check_network_integrity-Keeps)
              (λ _ w h. h))

    handle_peer_discovery-Keeps : (m : Message) → Keeps P (handle_peer_discovery env now m)
    unfolding handle_peer_discovery
    handle_peer_discovery-Keeps m =
        let ask = Topology.discover_peers m.sender_id (requested_peers m.payload) in
        >>=-Keeps P (on_topology ask) (λ peers. respond env now m.sender_id true peers)
          (on_topology-Keeps id ask (discover_peers-Keeps m.sender_id (requested_peers m.payload)))
          (λ peers. respond-Keeps m.sender_id true peers)

    pub process_message-Keeps : (m : Message) → Keeps P (process_message env now m)
    unfolding process_message handle_join_response
    process_message-Keeps m w h =
        Holds-if P (m.type == join_request) _ _ (handle_join_request-Keeps m w h) (
          Holds-if P (m.type == join_response) _ _
            (connect_suggested-Keeps (deserialize_node_list m.payload) w h)
            (Holds-if P (m.type == leave_notification) _ _ (handle_leave_notification-Keeps m w h) (
              Holds-if P (m.type == heartbeat) _ _ (handle_heartbeat-Keeps m w h) (
                Holds-if P (m.type == topology_update) _ _ (handle_topology_update-Keeps m w h) (
                  Holds-if P (m.type == peer_discovery) _ _ (handle_peer_discovery-Keeps m w h)
                    h)))))
